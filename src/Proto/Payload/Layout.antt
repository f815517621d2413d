-- ===== src/Proto/Payload/Layout.antt =====
-- The wire format of a payload, apart from the encoder: the op, then the fields one after another.
use mathlib.Core.List.{flatten}
use apb.Prelude.{ℕ, ◌≡◌, List, [], ◌∷◌, append_assoc, append-nil}
use apb.Prelude.Signed.{i32_bits}
use apb.Bytes.{be_bytes}
use apb.Proto.Fields.{u8_bytes, bool_bytes, len_bytes}
use apb.Proto.Types.{
  Payload, exec, exec_out, exec_end, error, push_begin, push_ready, mkdir, file_begin, chunk,
  file_end, symlink, push_end, transfer_done, manifest_end, pull_begin, entry, file_plan, file_sigs,
  plan_end, file_start, copy, shutdown, bye,
}
use apb.Proto.Encoder
use apb.Proto.Encoder.{◌▷◌}
use apb.Proto.Payload.{op, encode}

unfoldable pub layout : Payload → List (List ℕ)
layout (exec id timeout_secs cwd raw command) =
    (be_bytes 8 id)
    ∷ (be_bytes 8 timeout_secs)
    ∷ (len_bytes cwd)
    ∷ (bool_bytes raw)
    ∷ (len_bytes command)
    ∷ []
layout (exec_out id stream bytes) = (be_bytes 8 id) ∷ (u8_bytes stream) ∷ (len_bytes bytes) ∷ []
layout (exec_end id rc timed_out reason) =
    (be_bytes 8 id) ∷ (be_bytes 4 (i32_bits rc)) ∷ (bool_bytes timed_out) ∷ (len_bytes reason) ∷ []
layout (error id code message) = (be_bytes 8 id) ∷ (be_bytes 2 code) ∷ (len_bytes message) ∷ []
layout (push_begin id remote_path source_name source_is_dir source_files source_bytes) =
    (be_bytes 8 id)
    ∷ (len_bytes remote_path)
    ∷ (len_bytes source_name)
    ∷ (bool_bytes source_is_dir)
    ∷ (be_bytes 8 source_files)
    ∷ (be_bytes 8 source_bytes)
    ∷ []
layout (push_ready id remote_root) = (be_bytes 8 id) ∷ (len_bytes remote_root) ∷ []
layout (mkdir id rel mode) = (be_bytes 8 id) ∷ (len_bytes rel) ∷ (be_bytes 4 mode) ∷ []
layout (file_begin id seq rel size mode sha256) =
    (be_bytes 8 id)
    ∷ (be_bytes 8 seq)
    ∷ (len_bytes rel)
    ∷ (be_bytes 8 size)
    ∷ (be_bytes 4 mode)
    ∷ sha256
    ∷ []
layout (chunk id bytes) = (be_bytes 8 id) ∷ (len_bytes bytes) ∷ []
layout (file_end id sha256) = (be_bytes 8 id) ∷ sha256 ∷ []
layout (symlink id rel target mode) =
    (be_bytes 8 id) ∷ (len_bytes rel) ∷ (len_bytes target) ∷ (be_bytes 4 mode) ∷ []
layout (push_end id) = (be_bytes 8 id) ∷ []
layout (transfer_done id success message remote_path bytes sha256) =
    (be_bytes 8 id)
    ∷ (bool_bytes success)
    ∷ (len_bytes message)
    ∷ (len_bytes remote_path)
    ∷ (be_bytes 8 bytes)
    ∷ sha256
    ∷ []
layout (manifest_end id files) = (be_bytes 8 id) ∷ (be_bytes 8 files) ∷ []
layout (pull_begin id remote_path) = (be_bytes 8 id) ∷ (len_bytes remote_path) ∷ []
layout (entry id seq rel kind size mode link_target sha256) =
    (be_bytes 8 id)
    ∷ (be_bytes 8 seq)
    ∷ (len_bytes rel)
    ∷ (u8_bytes kind)
    ∷ (be_bytes 8 size)
    ∷ (be_bytes 4 mode)
    ∷ (len_bytes link_target)
    ∷ sha256
    ∷ []
layout (file_plan id seq action block_size block_count) =
    (be_bytes 8 id)
    ∷ (be_bytes 8 seq)
    ∷ (u8_bytes action)
    ∷ (be_bytes 4 block_size)
    ∷ (be_bytes 8 block_count)
    ∷ []
layout (file_sigs id seq first sigs) =
    (be_bytes 8 id) ∷ (be_bytes 8 seq) ∷ (be_bytes 8 first) ∷ (len_bytes sigs) ∷ []
layout (plan_end id) = (be_bytes 8 id) ∷ []
layout (file_start id seq) = (be_bytes 8 id) ∷ (be_bytes 8 seq) ∷ []
layout (copy id start len) = (be_bytes 8 id) ∷ (be_bytes 8 start) ∷ (be_bytes 8 len) ∷ []
layout (shutdown id reason) = (be_bytes 8 id) ∷ (len_bytes reason) ∷ []
layout (bye id code reason) =
    (be_bytes 8 id) ∷ (be_bytes 4 (i32_bits code)) ∷ (len_bytes reason) ∷ []

-- `encode` writes the op and then the fields of the payload, each in its own form.
pub encode-layout : (p : Payload) → encode p ≡ op p ∷ flatten (layout p)
unfolding encode op layout Encoder.finish Encoder.new Encoder.u8 Encoder.u16 Encoder.u32 Encoder.u64
    Encoder.i32 Encoder.bool Encoder.bytes Encoder.str Encoder.fixed32 u8_bytes bool_bytes len_bytes
    flatten
encode-layout (push_end i) = simp (append_assoc, append-nil)
encode-layout _ = simp (append_assoc, append-nil)
