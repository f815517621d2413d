-- ===== src/Agent/Plans/Chunks.antt =====
-- The `FileSigs` frames that both ends send, for any reader that takes them in their order.
use apb.Prelude.{
  ℕ, zero, suc, ◌+◌, ◌-◌, ◌*◌, ◌%◌, ◌^◌, ◌≤◌, ◌<◌, ◌≡◌, refl, ap, ◌∙◌, List, [], ◌∷◌, ◌++◌,
  append-nil, append_assoc, length, length-append, length-take, take, drop, min, take-append-drop,
  length-drop, arith,
}
use apb.Proto.Types.{Blob, Payload, file_sigs}
use apb.Delta.Blocks.{sig_len, sigs_per_frame, sig_batch}
use apb.Agent.Plans.{chunks_loop, sig_frames}

-- `run` is what the reader makes of the frames that are left, with this buffer.
module _ {R : Type 0} (job seq : ℕ) (run : List Payload → Blob → R)
    (takes : (buf blob : Blob) (first : ℕ) (rest : List Payload)
      → length buf ≡ first * sig_len
      → first * sig_len < 2 ^ 64
      → run (file_sigs job seq first blob ∷ rest) buf ≡ run rest (buf ++ blob)) where
  pub sig_frames-taken :
      (fuel i : ℕ) (xs buf : Blob) (rest : List Payload)
      → length xs ≤ fuel
      → (1 ≤ length xs → length buf ≡ i * sig_batch)
      → length buf + length xs < 2 ^ 63
      → run (sig_frames job seq i (chunks_loop fuel sig_batch xs) ++ rest) buf
        ≡ run rest (buf ++ xs)
  unfolding sig_frames chunks_loop
  sig_frames-taken zero i [] buf rest h e fits = rw (append-nil buf) refl
  sig_frames-taken zero i (x ∷ xs) buf rest h e fits = absurd (omega arith)
  sig_frames-taken (suc fuel) i [] buf rest h e fits = rw (append-nil buf) refl
  sig_frames-taken (suc fuel) i (x ∷ xs) buf rest h e fits =
      let here = e (omega arith) in
      let c = take sig_batch (x ∷ xs) in
      let d = drop sig_batch (x ∷ xs) in
      let first = i * sigs_per_frame % 2 ^ 64 in
      let after : length d ≡ length (x ∷ xs) - sig_batch = length-drop sig_batch (x ∷ xs) in
      let taken : length c ≡ min sig_batch (length (x ∷ xs)) = length-take sig_batch (x ∷ xs) in
      let joined : (buf ++ c) ++ d ≡ buf ++ (x ∷ xs) =
        append_assoc buf c d ∙ ap (λ l. buf ++ l) (take-append-drop sig_batch (x ∷ xs)) in
      let count = length-append buf c in
      takes buf c first _ (omega (arith, here, fits)) (omega (arith, here, fits))
      ∙ sig_frames-taken fuel (i + 1) d (buf ++ c) rest (omega (arith, after, h))
          (λ left. omega (arith, after, taken, count, here, left))
          (omega (arith, after, taken, count, fits))
      ∙ ap (run rest) joined
