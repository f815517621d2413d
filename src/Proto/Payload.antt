-- ===== src/Proto/Payload.antt =====
-- `Payload` of src/proto.rs: its id and op, `encode` and `decode`.
pub mod WellFormed
pub mod Layout
pub mod Decoded
pub mod Reads
pub mod RoundTrip
pub mod Prefix
use apb.Prelude.{
  ℕ, ◌+◌, ◌<◌, Bool, true, false, Option, none, some, List, [], ◌∷◌, length, slice, ltb, ◌==◌,
  if◌then◌else◌, Result,
}
use apb.Bytes.{from_be}
use apb.Proto.Tags.{
  op_exec, op_exec_out, op_exec_end, op_error, op_push_begin, op_push_ready, op_mkdir,
  op_file_begin, op_data, op_file_end, op_symlink, op_push_end, op_transfer_done, op_manifest_end,
  op_pull_begin, op_entry, op_file_plan, op_file_sigs, op_plan_end, op_file_start, op_copy,
  op_shutdown, op_bye,
}
use apb.Proto.Types.{
  ProtoError, unknown_payload_op, Payload, exec, exec_out, exec_end, error, push_begin, push_ready,
  mkdir, file_begin, chunk, file_end, symlink, push_end, transfer_done, manifest_end, pull_begin,
  entry, file_plan, file_sigs, plan_end, file_start, copy, shutdown, bye,
}
use apb.Proto.Encoder
use apb.Proto.Encoder.{
  Encoder, ◌▷◌, u8 as put_u8, u16 as put_u16, u32 as put_u32, u64 as put_u64, i32 as put_i32,
  bool as put_bool, bytes as put_bytes, str as put_str, fixed32 as put_fixed32,
}
use apb.Proto.Decoder.{
  M, ◌>>=◌, pure, fail, run, u8 as get_u8, u16 as get_u16, u32 as get_u32, u64 as get_u64,
  i32 as get_i32, bool as get_bool, bytes as get_bytes, str as get_str, fixed32 as get_fixed32,
}

unfoldable pub id : Payload → ℕ
id (exec i _ _ _ _) = i
id (exec_out i _ _) = i
id (exec_end i _ _ _) = i
id (error i _ _) = i
id (push_begin i _ _ _ _ _) = i
id (push_ready i _) = i
id (mkdir i _ _) = i
id (file_begin i _ _ _ _ _) = i
id (chunk i _) = i
id (file_end i _) = i
id (symlink i _ _ _) = i
id (push_end i) = i
id (transfer_done i _ _ _ _ _) = i
id (manifest_end i _) = i
id (pull_begin i _) = i
id (entry i _ _ _ _ _ _ _) = i
id (file_plan i _ _ _ _) = i
id (file_sigs i _ _ _) = i
id (plan_end i) = i
id (file_start i _) = i
id (copy i _ _) = i
id (shutdown i _) = i
id (bye i _ _) = i

unfoldable pub op : Payload → ℕ
op (exec _ _ _ _ _) = op_exec
op (exec_out _ _ _) = op_exec_out
op (exec_end _ _ _ _) = op_exec_end
op (error _ _ _) = op_error
op (push_begin _ _ _ _ _ _) = op_push_begin
op (push_ready _ _) = op_push_ready
op (mkdir _ _ _) = op_mkdir
op (file_begin _ _ _ _ _ _) = op_file_begin
op (chunk _ _) = op_data
op (file_end _ _) = op_file_end
op (symlink _ _ _ _) = op_symlink
op (push_end _) = op_push_end
op (transfer_done _ _ _ _ _ _) = op_transfer_done
op (manifest_end _ _) = op_manifest_end
op (pull_begin _ _) = op_pull_begin
op (entry _ _ _ _ _ _ _ _) = op_entry
op (file_plan _ _ _ _ _) = op_file_plan
op (file_sigs _ _ _ _) = op_file_sigs
op (plan_end _) = op_plan_end
op (file_start _ _) = op_file_start
op (copy _ _ _) = op_copy
op (shutdown _ _) = op_shutdown
op (bye _ _ _) = op_bye

-- The id of an encoded payload, read without decoding it.
unfoldable pub peek_id : List ℕ → Option ℕ
peek_id buf = if ltb (length buf) 9 then none else some (from_be (slice buf 1 8))

-- The last payload that an agent sends for a route.
unfoldable pub is_final : Payload → Bool
is_final (exec_end _ _ _ _) = true
is_final (error _ _ _) = true
is_final (transfer_done _ _ _ _ _ _) = true
is_final (bye _ _ _) = true
is_final _ = false

unfoldable pub put_payload : Payload → Encoder → Encoder
put_payload (exec id timeout_secs cwd raw command) e =
    e
    ▷ put_u8 op_exec
    ▷ put_u64 id
    ▷ put_u64 timeout_secs
    ▷ put_str cwd
    ▷ put_bool raw
    ▷ put_str command
put_payload (exec_out id stream bytes) e =
    e ▷ put_u8 op_exec_out ▷ put_u64 id ▷ put_u8 stream ▷ put_bytes bytes
put_payload (exec_end id rc timed_out reason) e =
    e ▷ put_u8 op_exec_end ▷ put_u64 id ▷ put_i32 rc ▷ put_bool timed_out ▷ put_str reason
put_payload (error id code message) e =
    e ▷ put_u8 op_error ▷ put_u64 id ▷ put_u16 code ▷ put_str message
put_payload (push_begin id remote_path source_name source_is_dir source_files source_bytes) e =
    e
    ▷ put_u8 op_push_begin
    ▷ put_u64 id
    ▷ put_str remote_path
    ▷ put_str source_name
    ▷ put_bool source_is_dir
    ▷ put_u64 source_files
    ▷ put_u64 source_bytes
put_payload (push_ready id remote_root) e =
    e ▷ put_u8 op_push_ready ▷ put_u64 id ▷ put_str remote_root
put_payload (mkdir id rel mode) e = e ▷ put_u8 op_mkdir ▷ put_u64 id ▷ put_str rel ▷ put_u32 mode
put_payload (file_begin id seq rel size mode sha256) e =
    e
    ▷ put_u8 op_file_begin
    ▷ put_u64 id
    ▷ put_u64 seq
    ▷ put_str rel
    ▷ put_u64 size
    ▷ put_u32 mode
    ▷ put_fixed32 sha256
put_payload (chunk id bytes) e = e ▷ put_u8 op_data ▷ put_u64 id ▷ put_bytes bytes
put_payload (file_end id sha256) e = e ▷ put_u8 op_file_end ▷ put_u64 id ▷ put_fixed32 sha256
put_payload (symlink id rel target mode) e =
    e ▷ put_u8 op_symlink ▷ put_u64 id ▷ put_str rel ▷ put_str target ▷ put_u32 mode
put_payload (push_end id) e = e ▷ put_u8 op_push_end ▷ put_u64 id
put_payload (transfer_done id success message remote_path bytes sha256) e =
    e
    ▷ put_u8 op_transfer_done
    ▷ put_u64 id
    ▷ put_bool success
    ▷ put_str message
    ▷ put_str remote_path
    ▷ put_u64 bytes
    ▷ put_fixed32 sha256
put_payload (manifest_end id files) e = e ▷ put_u8 op_manifest_end ▷ put_u64 id ▷ put_u64 files
put_payload (pull_begin id remote_path) e =
    e ▷ put_u8 op_pull_begin ▷ put_u64 id ▷ put_str remote_path
put_payload (entry id seq rel kind size mode link_target sha256) e =
    e
    ▷ put_u8 op_entry
    ▷ put_u64 id
    ▷ put_u64 seq
    ▷ put_str rel
    ▷ put_u8 kind
    ▷ put_u64 size
    ▷ put_u32 mode
    ▷ put_str link_target
    ▷ put_fixed32 sha256
put_payload (file_plan id seq action block_size block_count) e =
    e
    ▷ put_u8 op_file_plan
    ▷ put_u64 id
    ▷ put_u64 seq
    ▷ put_u8 action
    ▷ put_u32 block_size
    ▷ put_u64 block_count
put_payload (file_sigs id seq first sigs) e =
    e ▷ put_u8 op_file_sigs ▷ put_u64 id ▷ put_u64 seq ▷ put_u64 first ▷ put_bytes sigs
put_payload (plan_end id) e = e ▷ put_u8 op_plan_end ▷ put_u64 id
put_payload (file_start id seq) e = e ▷ put_u8 op_file_start ▷ put_u64 id ▷ put_u64 seq
put_payload (copy id start len) e = e ▷ put_u8 op_copy ▷ put_u64 id ▷ put_u64 start ▷ put_u64 len
put_payload (shutdown id reason) e = e ▷ put_u8 op_shutdown ▷ put_u64 id ▷ put_str reason
put_payload (bye id code reason) e = e ▷ put_u8 op_bye ▷ put_u64 id ▷ put_i32 code ▷ put_str reason

unfoldable pub encode : Payload → List ℕ
unfolding put_payload
encode p = Encoder.finish (put_payload p Encoder.new)

unfoldable pub read_payload : ℕ → M Payload
read_payload tag =
    if tag == op_exec
    then (do
      id ← get_u64
      timeout_secs ← get_u64
      cwd ← get_str
      raw ← get_bool
      command ← get_str
      pure (exec id timeout_secs cwd raw command))
    else if tag == op_exec_out
    then (do id ← get_u64; stream ← get_u8; bytes ← get_bytes; pure (exec_out id stream bytes))
    else if tag == op_exec_end
    then (do
      id ← get_u64
      rc ← get_i32
      timed_out ← get_bool
      reason ← get_str
      pure (exec_end id rc timed_out reason))
    else if tag == op_error
    then (do id ← get_u64; code ← get_u16; message ← get_str; pure (error id code message))
    else if tag == op_push_begin
    then (do
      id ← get_u64
      remote_path ← get_str
      source_name ← get_str
      source_is_dir ← get_bool
      source_files ← get_u64
      source_bytes ← get_u64
      pure (push_begin id remote_path source_name source_is_dir source_files source_bytes))
    else if tag == op_push_ready
    then (do id ← get_u64; remote_root ← get_str; pure (push_ready id remote_root))
    else if tag == op_mkdir
    then (do id ← get_u64; rel ← get_str; mode ← get_u32; pure (mkdir id rel mode))
    else if tag == op_file_begin
    then (do
      id ← get_u64
      seq ← get_u64
      rel ← get_str
      size ← get_u64
      mode ← get_u32
      sha256 ← get_fixed32
      pure (file_begin id seq rel size mode sha256))
    else if tag == op_data
    then (do id ← get_u64; bytes ← get_bytes; pure (chunk id bytes))
    else if tag == op_file_end
    then (do id ← get_u64; sha256 ← get_fixed32; pure (file_end id sha256))
    else if tag == op_symlink
    then (do
      id ← get_u64
      rel ← get_str
      target ← get_str
      mode ← get_u32
      pure (symlink id rel target mode))
    else if tag == op_push_end
    then (do id ← get_u64; pure (push_end id))
    else if tag == op_transfer_done
    then (do
      id ← get_u64
      success ← get_bool
      message ← get_str
      remote_path ← get_str
      bytes ← get_u64
      sha256 ← get_fixed32
      pure (transfer_done id success message remote_path bytes sha256))
    else if tag == op_manifest_end
    then (do id ← get_u64; files ← get_u64; pure (manifest_end id files))
    else if tag == op_pull_begin
    then (do id ← get_u64; remote_path ← get_str; pure (pull_begin id remote_path))
    else if tag == op_entry
    then (do
      id ← get_u64
      seq ← get_u64
      rel ← get_str
      kind ← get_u8
      size ← get_u64
      mode ← get_u32
      link_target ← get_str
      sha256 ← get_fixed32
      pure (entry id seq rel kind size mode link_target sha256))
    else if tag == op_file_plan
    then (do
      id ← get_u64
      seq ← get_u64
      action ← get_u8
      block_size ← get_u32
      block_count ← get_u64
      pure (file_plan id seq action block_size block_count))
    else if tag == op_file_sigs
    then (do
      id ← get_u64
      seq ← get_u64
      first ← get_u64
      sigs ← get_bytes
      pure (file_sigs id seq first sigs))
    else if tag == op_plan_end
    then (do id ← get_u64; pure (plan_end id))
    else if tag == op_file_start
    then (do id ← get_u64; seq ← get_u64; pure (file_start id seq))
    else if tag == op_copy
    then (do id ← get_u64; start ← get_u64; len ← get_u64; pure (copy id start len))
    else if tag == op_shutdown
    then (do id ← get_u64; reason ← get_str; pure (shutdown id reason))
    else if tag == op_bye
    then (do id ← get_u64; code ← get_i32; reason ← get_str; pure (bye id code reason))
    else fail (unknown_payload_op tag)

unfoldable pub decode : List ℕ → Result ProtoError Payload
unfolding read_payload
decode buf = run (do tag ← get_u8; read_payload tag) buf
