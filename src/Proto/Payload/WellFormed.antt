-- ===== src/Proto/Payload/WellFormed.antt =====
-- The payloads that the field types and the limits of the decoder admit.
use apb.Prelude.Signed.{IsI32}
use apb.Proto.Fields.{IsU8, IsU16, IsU32, IsU64, IsText, IsBlob, IsSha}
use apb.Proto.Types.{
  Payload, exec, exec_out, exec_end, error, push_begin, push_ready, mkdir, file_begin, chunk,
  file_end, symlink, push_end, transfer_done, manifest_end, pull_begin, entry, file_plan, file_sigs,
  plan_end, file_start, copy, shutdown, bye,
}

abbrev pub IsWellFormed : Payload → Type 0
IsWellFormed (exec id timeout_secs cwd raw command) =
    IsU64 id × IsU64 timeout_secs × IsText cwd × IsText command
IsWellFormed (exec_out id stream bytes) = IsU64 id × IsU8 stream × IsBlob bytes
IsWellFormed (exec_end id rc timed_out reason) = IsU64 id × IsI32 rc × IsText reason
IsWellFormed (error id code message) = IsU64 id × IsU16 code × IsText message
IsWellFormed (push_begin id remote_path source_name source_is_dir source_files source_bytes) =
    IsU64 id × IsText remote_path × IsText source_name × IsU64 source_files × IsU64 source_bytes
IsWellFormed (push_ready id remote_root) = IsU64 id × IsText remote_root
IsWellFormed (mkdir id rel mode) = IsU64 id × IsText rel × IsU32 mode
IsWellFormed (file_begin id seq rel size mode sha256) =
    IsU64 id × IsU64 seq × IsText rel × IsU64 size × IsU32 mode × IsSha sha256
IsWellFormed (chunk id bytes) = IsU64 id × IsBlob bytes
IsWellFormed (file_end id sha256) = IsU64 id × IsSha sha256
IsWellFormed (symlink id rel target mode) = IsU64 id × IsText rel × IsText target × IsU32 mode
IsWellFormed (push_end id) = IsU64 id
IsWellFormed (transfer_done id success message remote_path bytes sha256) =
    IsU64 id × IsText message × IsText remote_path × IsU64 bytes × IsSha sha256
IsWellFormed (manifest_end id files) = IsU64 id × IsU64 files
IsWellFormed (pull_begin id remote_path) = IsU64 id × IsText remote_path
IsWellFormed (entry id seq rel kind size mode link_target sha256) =
    IsU64 id
    × IsU64 seq
    × IsText rel
    × IsU8 kind
    × IsU64 size
    × IsU32 mode
    × IsText link_target
    × IsSha sha256
IsWellFormed (file_plan id seq action block_size block_count) =
    IsU64 id × IsU64 seq × IsU8 action × IsU32 block_size × IsU64 block_count
IsWellFormed (file_sigs id seq first sigs) = IsU64 id × IsU64 seq × IsU64 first × IsBlob sigs
IsWellFormed (plan_end id) = IsU64 id
IsWellFormed (file_start id seq) = IsU64 id × IsU64 seq
IsWellFormed (copy id start len) = IsU64 id × IsU64 start × IsU64 len
IsWellFormed (shutdown id reason) = IsU64 id × IsText reason
IsWellFormed (bye id code reason) = IsU64 id × IsI32 code × IsText reason
