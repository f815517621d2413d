-- ===== src/Proto/Payload/Decoded.antt =====
-- What holds of every payload that `decode` of src/proto.rs returns.
use mathlib.Core.Path.{subst}
use apb.Proto.Tags.{
  op_exec, op_exec_out, op_exec_end, op_error, op_push_begin, op_push_ready, op_mkdir,
  op_file_begin, op_data, op_file_end, op_symlink, op_push_end, op_transfer_done, op_manifest_end,
  op_pull_begin, op_entry, op_file_plan, op_file_sigs, op_plan_end, op_file_start, op_copy,
  op_shutdown, op_bye,
}
use apb.Prelude.{
  ℕ, ◌==◌, ◌+◌, ◌≤◌, ◌≡◌, refl, Bool, true, false, some, List, All, ok, if◌then◌else◌, slice,
  length, arith, sym,
}
use apb.Bytes.{IsByte, from_be}
use apb.Proto.Types.{
  ProtoError, Payload, exec, exec_out, exec_end, error, push_begin, push_ready, mkdir, file_begin,
  chunk, file_end, symlink, push_end, transfer_done, manifest_end, pull_begin, entry, file_plan,
  file_sigs, plan_end, file_start, copy, shutdown, bye,
}
use apb.Proto.Fields.{IsU64}
use apb.Proto.Decoder.{Decoder, M, ◌>>=◌, fail, u8, u64, new}
use apb.Proto.Decoder.Ensures.{
  Ensures, Ensures-bind, Ensures-pure, Ensures-u8, Ensures-u16, Ensures-u32, Ensures-u64,
  Ensures-i32, Ensures-bool, Ensures-bytes, Ensures-str, Ensures-fixed32, bind-eq-ok, run-eq-ok,
  u8-eq-ok, u64-eq-ok,
}
use apb.Proto.Payload.{id, read_payload, decode, peek_id}
use apb.Proto.Payload.WellFormed.{IsWellFormed}

-- A read whose first word is the id of the well-formed payload that it returns.
record FirstId (m : M Payload) : Type 0 where
  at :
      (d : Decoder) (p : Payload) (d' : Decoder)
      → All IsByte d.buf
      → m d ≡ ok (p, d')
      → IsWellFormed p × (d₁ : Decoder) × (u64 d ≡ ok (id p, d₁))

FirstId-bind :
    (f : ℕ → M Payload)
    → ((i : ℕ) → IsU64 i → Ensures (λ p. IsWellFormed p × (id p ≡ i)) (f i))
    → FirstId (u64 >>= f)
FirstId-bind f h = record {
  at = λ d p d' b e.
      let (i, d₁, e₁, e₂) = bind-eq-ok u64 f d e in
      let (hi, same) = Ensures-u64.at d i d₁ b e₁ in
      let ((wf, pi), _) = (h i hi).at d₁ p d' (subst (All IsByte) (sym same) b) e₂ in
      (wf, d₁, rw pi e₁);
}

FirstId-if :
    (b : Bool) (m n : M Payload)
    → (b ≡ true → FirstId m)
    → (b ≡ false → FirstId n)
    → FirstId (if b then m else n)
FirstId-if true m n hm hn = hm refl
FirstId-if false m n hm hn = hn refl

FirstId-fail : (e : ProtoError) → FirstId (fail e)
unfolding fail
FirstId-fail e = record { at = λ d p d' b h. cc }

FirstId-read_payload : (tag : ℕ) → FirstId (read_payload tag)
unfolding read_payload id
FirstId-read_payload tag =
    FirstId-if (tag == op_exec) _ _
      (λ _. FirstId-bind _ λ id h1. Ensures-bind _ Ensures-u64 λ timeout_secs h2.
        Ensures-bind _ Ensures-str λ cwd h3. Ensures-bind _ Ensures-bool λ raw _.
          Ensures-bind _ Ensures-str λ command h4.
            Ensures-pure (exec id timeout_secs cwd raw command) ((h1, h2, h3, h4), refl))
      λ _.
        FirstId-if (tag == op_exec_out) _ _
          (λ _. FirstId-bind _ λ id h1. Ensures-bind _ Ensures-u8 λ stream h2.
            Ensures-bind _ Ensures-bytes
              λ bytes h3. Ensures-pure (exec_out id stream bytes) ((h1, h2, h3), refl))
          λ _.
            FirstId-if (tag == op_exec_end) _ _
              (λ _. FirstId-bind _ λ id h1. Ensures-bind _ Ensures-i32 λ rc h2.
                Ensures-bind _ Ensures-bool λ timed_out _.
                  Ensures-bind _ Ensures-str λ reason h3.
                    Ensures-pure (exec_end id rc timed_out reason) ((h1, h2, h3), refl))
              λ _.
                FirstId-if (tag == op_error) _ _
                  (λ _. FirstId-bind _ λ id h1. Ensures-bind _ Ensures-u16 λ code h2.
                    Ensures-bind _ Ensures-str
                      λ message h3. Ensures-pure (error id code message) ((h1, h2, h3), refl))
                  λ _.
                    FirstId-if (tag == op_push_begin) _ _
                      (λ _. FirstId-bind _ λ id h1. Ensures-bind _ Ensures-str λ remote_path h2.
                        Ensures-bind _ Ensures-str λ source_name h3.
                          Ensures-bind _ Ensures-bool λ source_is_dir _.
                            Ensures-bind _ Ensures-u64 λ source_files h4.
                              Ensures-bind _ Ensures-u64 λ source_bytes h5.
                                Ensures-pure
                                  (push_begin id remote_path source_name source_is_dir source_files
                                    source_bytes)
                                  ((h1, h2, h3, h4, h5), refl))
                      λ _.
                        FirstId-if (tag == op_push_ready) _ _
                          (λ _. FirstId-bind _ λ id h1. Ensures-bind _ Ensures-str λ remote_root h2.
                            Ensures-pure (push_ready id remote_root) ((h1, h2), refl))
                          λ _.
                            FirstId-if (tag == op_mkdir) _ _
                              (λ _. FirstId-bind _ λ id h1. Ensures-bind _ Ensures-str λ rel h2.
                                Ensures-bind _ Ensures-u32
                                  λ mode h3. Ensures-pure (mkdir id rel mode) ((h1, h2, h3), refl))
                              λ _.
                                FirstId-if (tag == op_file_begin) _ _
                                  (λ _. FirstId-bind _ λ id h1. Ensures-bind _ Ensures-u64 λ seq h2.
                                    Ensures-bind _ Ensures-str λ rel h3.
                                      Ensures-bind _ Ensures-u64 λ size h4.
                                        Ensures-bind _ Ensures-u32 λ mode h5.
                                          Ensures-bind _ Ensures-fixed32 λ sha256 h6.
                                            Ensures-pure (file_begin id seq rel size mode sha256)
                                              ((h1, h2, h3, h4, h5, h6), refl))
                                  λ _.
                                    FirstId-if (tag == op_data) _ _
                                      (λ _. FirstId-bind _ λ id h1.
                                        Ensures-bind _ Ensures-bytes λ bytes h2.
                                          Ensures-pure (chunk id bytes) ((h1, h2), refl))
                                      λ _.
                                        FirstId-if (tag == op_file_end) _ _
                                          (λ _. FirstId-bind _ λ id h1.
                                            Ensures-bind _ Ensures-fixed32 λ sha256 h2.
                                              Ensures-pure (file_end id sha256) ((h1, h2), refl))
                                          λ _.
                                            FirstId-if (tag == op_symlink) _ _
                                              (λ _. FirstId-bind _ λ id h1.
                                                Ensures-bind _ Ensures-str λ rel h2.
                                                  Ensures-bind _ Ensures-str λ target h3.
                                                    Ensures-bind _ Ensures-u32 λ mode h4.
                                                      Ensures-pure (symlink id rel target mode)
                                                        ((h1, h2, h3, h4), refl))
                                              λ _.
                                                FirstId-if (tag == op_push_end) _ _
                                                  (λ _.
                                                    FirstId-bind _ λ id h1.
                                                      Ensures-pure (push_end id) (h1, refl))
                                                  λ _.
                                                    FirstId-if (tag == op_transfer_done) _ _
                                                      (λ _. FirstId-bind _ λ id h1.
                                                        Ensures-bind _ Ensures-bool λ success _.
                                                          Ensures-bind _ Ensures-str λ message h2.
                                                            Ensures-bind _ Ensures-str
                                                            λ remote_path h3.
                                                            Ensures-bind _ Ensures-u64 λ bytes h4.
                                                            Ensures-bind _ Ensures-fixed32
                                                            λ sha256 h5.
                                                            Ensures-pure
                                                            (transfer_done id success message
                                                            remote_path bytes sha256)
                                                            ((h1, h2, h3, h4, h5), refl))
                                                      λ _.
                                                        FirstId-if (tag == op_manifest_end) _ _
                                                          (λ _. FirstId-bind _ λ id h1.
                                                            Ensures-bind _ Ensures-u64 λ files h2.
                                                            Ensures-pure (manifest_end id files)
                                                            ((h1, h2), refl))
                                                          λ _.
                                                            FirstId-if (tag == op_pull_begin) _ _
                                                            (λ _. FirstId-bind _ λ id h1.
                                                            Ensures-bind _ Ensures-str
                                                            λ remote_path h2.
                                                            Ensures-pure (pull_begin id remote_path)
                                                            ((h1, h2), refl))
                                                            λ _.
                                                            FirstId-if (tag == op_entry) _ _
                                                            (λ _. FirstId-bind _ λ id h1.
                                                            Ensures-bind _ Ensures-u64 λ seq h2.
                                                            Ensures-bind _ Ensures-str λ rel h3.
                                                            Ensures-bind _ Ensures-u8 λ kind h4.
                                                            Ensures-bind _ Ensures-u64 λ size h5.
                                                            Ensures-bind _ Ensures-u32 λ mode h6.
                                                            Ensures-bind _ Ensures-str
                                                            λ link_target h7.
                                                            Ensures-bind _ Ensures-fixed32
                                                            λ sha256 h8.
                                                            Ensures-pure
                                                            (entry id seq rel kind size mode
                                                            link_target sha256)
                                                            (
                                                            (h1, h2, h3, h4, h5, h6, h7, h8),
                                                            refl,
                                                            ))
                                                            λ _.
                                                            FirstId-if (tag == op_file_plan) _ _
                                                            (λ _. FirstId-bind _ λ id h1.
                                                            Ensures-bind _ Ensures-u64 λ seq h2.
                                                            Ensures-bind _ Ensures-u8 λ action h3.
                                                            Ensures-bind _ Ensures-u32
                                                            λ block_size h4.
                                                            Ensures-bind _ Ensures-u64
                                                            λ block_count h5.
                                                            Ensures-pure
                                                            (file_plan id seq action block_size
                                                            block_count)
                                                            ((h1, h2, h3, h4, h5), refl))
                                                            λ _.
                                                            FirstId-if (tag == op_file_sigs) _ _
                                                            (λ _. FirstId-bind _ λ id h1.
                                                            Ensures-bind _ Ensures-u64 λ seq h2.
                                                            Ensures-bind _ Ensures-u64 λ first h3.
                                                            Ensures-bind _ Ensures-bytes λ sigs h4.
                                                            Ensures-pure
                                                            (file_sigs id seq first sigs)
                                                            ((h1, h2, h3, h4), refl))
                                                            λ _.
                                                            FirstId-if (tag == op_plan_end) _ _
                                                            (λ _. FirstId-bind _ λ id h1.
                                                            Ensures-pure (plan_end id) (h1, refl))
                                                            λ _.
                                                            FirstId-if (tag == op_file_start) _ _
                                                            (λ _. FirstId-bind _ λ id h1.
                                                            Ensures-bind _ Ensures-u64 λ seq h2.
                                                            Ensures-pure (file_start id seq)
                                                            ((h1, h2), refl))
                                                            λ _.
                                                            FirstId-if (tag == op_copy) _ _
                                                            (λ _. FirstId-bind _ λ id h1.
                                                            Ensures-bind _ Ensures-u64 λ start h2.
                                                            Ensures-bind _ Ensures-u64 λ len h3.
                                                            Ensures-pure (copy id start len)
                                                            ((h1, h2, h3), refl))
                                                            λ _.
                                                            FirstId-if (tag == op_shutdown) _ _
                                                            (λ _. FirstId-bind _ λ id h1.
                                                            Ensures-bind _ Ensures-str λ reason h2.
                                                            Ensures-pure (shutdown id reason)
                                                            ((h1, h2), refl))
                                                            λ _.
                                                            FirstId-if (tag == op_bye) _ _
                                                            (λ _. FirstId-bind _ λ id h1.
                                                            Ensures-bind _ Ensures-i32 λ code h2.
                                                            Ensures-bind _ Ensures-str λ reason h3.
                                                            Ensures-pure (bye id code reason)
                                                            ((h1, h2, h3), refl))
                                                            λ _. FirstId-fail _

module _ (buf : List ℕ) (p : Payload) (bytes : All IsByte buf) (accepted : decode buf ≡ ok p) where
  first_id : IsWellFormed p × (1 + 8 ≤ length buf) × (id p ≡ from_be (slice buf 1 8))
  unfolding decode new
  first_id =
      let (d, e, _) = run-eq-ok _ buf accepted in
      let (tag, d₁, e₁, e₂) = bind-eq-ok u8 read_payload (new buf) e in
      let after : d₁ ≡ record { buf = buf; pos = 1 } = u8-eq-ok (new buf) e₁ in
      let e₃ = subst (λ x. read_payload tag x ≡ ok (p, d)) after e₂ in
      let (wf, d₂, e₄) = (FirstId-read_payload tag).at _ p d bytes e₃ in
      let (room, v) = u64-eq-ok _ e₄ in (wf, room, v)

  -- Whatever bytes `decode` accepts, the fields of the payload are in the range of their types,
  -- and its texts and blobs keep the limits and are valid UTF-8.
  pub decode-IsWellFormed : IsWellFormed p
  decode-IsWellFormed = first_id.0

  -- Whatever bytes `decode` accepts, `peek_id` finds in them the id of the decoded payload.
  pub peek_id-decode : peek_id buf ≡ some (id p)
  unfolding peek_id
  peek_id-decode = ground (arith, first_id)
