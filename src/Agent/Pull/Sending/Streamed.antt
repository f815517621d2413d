-- ===== src/Agent/Pull/Sending/Streamed.antt =====
-- The reads of `stream_file` of src/agent.rs make up the file.
use apb.Prelude.{
  ℕ, zero, suc, ◌+◌, ◌<◌, ◌≡◌, sym, ap, ◌∙◌, inl, inr, Bool-cases, List, [], ◌∷◌, ◌++◌, ◌==◌,
  length, length-append, nil_of_length, map, arith, All,
}
use apb.Delta.Reader.{Reader, read, read-append, read_bounds}
use apb.Delta.Sink.{Op, apply}
use apb.Delta.Writer.Rebuild.{IsLiteral}
use apb.Agent.Pull.Sending.{data_chunk, reads, stream_ops}

literals-IsLiteral : (xs : List (List ℕ)) → All IsLiteral (map Op.literal xs)
literals-IsLiteral [] = tt
literals-IsLiteral (x ∷ xs) = (tt, literals-IsLiteral xs)

reads-apply :
    (fuel : ℕ) (r : Reader)
    → length r.rest < fuel
    → apply [] (map Op.literal (reads fuel r)) ≡ r.rest
unfolding reads
reads-apply zero r h = absurd (omega arith)
reads-apply (suc fuel) r h =
    let (bytes, later) = read data_chunk r in
    let joined : bytes ++ later.rest ≡ r.rest = read-append data_chunk r in
    let sizes : length bytes + length later.rest ≡ length r.rest =
      sym (length-append bytes later.rest) ∙ ap length joined in
    elim (Bool-cases (length bytes == 0)) [
      | inl e ↦
          let empty : length bytes ≡ 0 = ground arith in
          let (room, ends) = read_bounds data_chunk r in
          rw e (sym (nil_of_length r.rest (ends (omega arith) empty)))
      | inr e ↦
          rw e (ap (λ l. bytes ++ l) (reads-apply fuel later (ground (arith, sizes, h))) ∙ joined)
    ]

-- For every schedule of reads, `stream_file` sends `Data` frames only, and their bytes are the file.
pub stream_ops-apply :
    (r : Reader) → All IsLiteral (stream_ops r) × (apply [] (stream_ops r) ≡ r.rest)
unfolding stream_ops
stream_ops-apply r = (
  literals-IsLiteral (reads (suc (length r.rest)) r),
  reads-apply (suc (length r.rest)) r (omega arith),
)
