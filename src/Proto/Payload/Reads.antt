-- ===== src/Proto/Payload/Reads.antt =====
-- `read_payload` of an op reads the fields that the wire format gives it.
use mathlib.Core.List.{flatten}
use apb.Proto.Types.{
  Payload, exec, exec_out, exec_end, error, push_begin, push_ready, mkdir, file_begin, chunk,
  file_end, symlink, push_end, transfer_done, manifest_end, pull_begin, entry, file_plan, file_sigs,
  plan_end, file_start, copy, shutdown, bye,
}
use apb.Proto.Fields.{Reads-byte, Reads-flag, Reads-text, Reads-blob}
use apb.Proto.Decoder.Reads.{
  Reads, Reads-bind, Reads-pure, Reads-u16, Reads-u32, Reads-u64, Reads-i32, Reads-fixed32,
}
use apb.Proto.Payload.{op, read_payload}
use apb.Proto.Payload.WellFormed.{IsWellFormed}
use apb.Proto.Payload.Layout.{layout}

pub Reads-payload :
    (p : Payload) → IsWellFormed p → Reads (read_payload (op p)) (flatten (layout p)) p
unfolding read_payload op layout flatten
Reads-payload (exec id timeout_secs cwd raw command) (h1, h2, h3, h4) =
    Reads-bind _ (Reads-u64 id h1) (
      Reads-bind _ (Reads-u64 timeout_secs h2) (
        Reads-bind _ (Reads-text cwd h3)
          (Reads-bind _ (Reads-flag raw) (Reads-bind _ (Reads-text command h4) (Reads-pure _)))))
Reads-payload (exec_out id stream bytes) (h1, h2, h3) =
    Reads-bind _ (Reads-u64 id h1)
      (Reads-bind _ (Reads-byte stream h2) (Reads-bind _ (Reads-blob bytes h3) (Reads-pure _)))
Reads-payload (exec_end id rc timed_out reason) (h1, h2, h3) = Reads-bind _ (Reads-u64 id h1) (
    Reads-bind _ (Reads-i32 rc h2)
      (Reads-bind _ (Reads-flag timed_out) (Reads-bind _ (Reads-text reason h3) (Reads-pure _))))
Reads-payload (error id code message) (h1, h2, h3) =
    Reads-bind _ (Reads-u64 id h1)
      (Reads-bind _ (Reads-u16 code h2) (Reads-bind _ (Reads-text message h3) (Reads-pure _)))
Reads-payload (push_begin id remote_path source_name source_is_dir source_files source_bytes)
      (h1, h2, h3, h4, h5) =
    Reads-bind _ (Reads-u64 id h1) (
      Reads-bind _ (Reads-text remote_path h2) (
        Reads-bind _ (Reads-text source_name h3) (
          Reads-bind _ (Reads-flag source_is_dir) (
            Reads-bind _ (Reads-u64 source_files h4)
              (Reads-bind _ (Reads-u64 source_bytes h5) (Reads-pure _))))))
Reads-payload (push_ready id remote_root) (h1, h2) =
    Reads-bind _ (Reads-u64 id h1) (Reads-bind _ (Reads-text remote_root h2) (Reads-pure _))
Reads-payload (mkdir id rel mode) (h1, h2, h3) =
    Reads-bind _ (Reads-u64 id h1)
      (Reads-bind _ (Reads-text rel h2) (Reads-bind _ (Reads-u32 mode h3) (Reads-pure _)))
Reads-payload (file_begin id seq rel size mode sha256) (h1, h2, h3, h4, h5, h6) =
    Reads-bind _ (Reads-u64 id h1) (
      Reads-bind _ (Reads-u64 seq h2) (
        Reads-bind _ (Reads-text rel h3) (
          Reads-bind _ (Reads-u64 size h4) (
            Reads-bind _ (Reads-u32 mode h5)
              (Reads-bind _ (Reads-fixed32 sha256 h6) (Reads-pure _))))))
Reads-payload (chunk id bytes) (h1, h2) =
    Reads-bind _ (Reads-u64 id h1) (Reads-bind _ (Reads-blob bytes h2) (Reads-pure _))
Reads-payload (file_end id sha256) (h1, h2) =
    Reads-bind _ (Reads-u64 id h1) (Reads-bind _ (Reads-fixed32 sha256 h2) (Reads-pure _))
Reads-payload (symlink id rel target mode) (h1, h2, h3, h4) = Reads-bind _ (Reads-u64 id h1) (
    Reads-bind _ (Reads-text rel h2)
      (Reads-bind _ (Reads-text target h3) (Reads-bind _ (Reads-u32 mode h4) (Reads-pure _))))
Reads-payload (push_end id) h1 = Reads-bind _ (Reads-u64 id h1) (Reads-pure _)
Reads-payload (transfer_done id success message remote_path bytes sha256) (h1, h2, h3, h4, h5) =
    Reads-bind _ (Reads-u64 id h1) (
      Reads-bind _ (Reads-flag success) (
        Reads-bind _ (Reads-text message h2) (
          Reads-bind _ (Reads-text remote_path h3) (
            Reads-bind _ (Reads-u64 bytes h4)
              (Reads-bind _ (Reads-fixed32 sha256 h5) (Reads-pure _))))))
Reads-payload (manifest_end id files) (h1, h2) =
    Reads-bind _ (Reads-u64 id h1) (Reads-bind _ (Reads-u64 files h2) (Reads-pure _))
Reads-payload (pull_begin id remote_path) (h1, h2) =
    Reads-bind _ (Reads-u64 id h1) (Reads-bind _ (Reads-text remote_path h2) (Reads-pure _))
Reads-payload (entry id seq rel kind size mode link_target sha256)
      (h1, h2, h3, h4, h5, h6, h7, h8) =
    Reads-bind _ (Reads-u64 id h1) (
      Reads-bind _ (Reads-u64 seq h2) (
        Reads-bind _ (Reads-text rel h3) (
          Reads-bind _ (Reads-byte kind h4) (
            Reads-bind _ (Reads-u64 size h5) (
              Reads-bind _ (Reads-u32 mode h6) (
                Reads-bind _ (Reads-text link_target h7)
                  (Reads-bind _ (Reads-fixed32 sha256 h8) (Reads-pure _))))))))
Reads-payload (file_plan id seq action block_size block_count) (h1, h2, h3, h4, h5) =
    Reads-bind _ (Reads-u64 id h1) (
      Reads-bind _ (Reads-u64 seq h2) (
        Reads-bind _ (Reads-byte action h3) (
          Reads-bind _ (Reads-u32 block_size h4)
            (Reads-bind _ (Reads-u64 block_count h5) (Reads-pure _)))))
Reads-payload (file_sigs id seq first sigs) (h1, h2, h3, h4) = Reads-bind _ (Reads-u64 id h1) (
    Reads-bind _ (Reads-u64 seq h2)
      (Reads-bind _ (Reads-u64 first h3) (Reads-bind _ (Reads-blob sigs h4) (Reads-pure _))))
Reads-payload (plan_end id) h1 = Reads-bind _ (Reads-u64 id h1) (Reads-pure _)
Reads-payload (file_start id seq) (h1, h2) =
    Reads-bind _ (Reads-u64 id h1) (Reads-bind _ (Reads-u64 seq h2) (Reads-pure _))
Reads-payload (copy id start len) (h1, h2, h3) =
    Reads-bind _ (Reads-u64 id h1)
      (Reads-bind _ (Reads-u64 start h2) (Reads-bind _ (Reads-u64 len h3) (Reads-pure _)))
Reads-payload (shutdown id reason) (h1, h2) =
    Reads-bind _ (Reads-u64 id h1) (Reads-bind _ (Reads-text reason h2) (Reads-pure _))
Reads-payload (bye id code reason) (h1, h2, h3) =
    Reads-bind _ (Reads-u64 id h1)
      (Reads-bind _ (Reads-i32 code h2) (Reads-bind _ (Reads-text reason h3) (Reads-pure _)))
