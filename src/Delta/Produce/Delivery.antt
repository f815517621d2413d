-- ===== src/Delta/Produce/Delivery.antt =====
-- What `produce_delta` of src/delta.rs delivers: operations that make the source out of the base.
use apb.Prelude.{
  ℕ, zero, suc, ◌+◌, ◌-◌, ◌*◌, ◌<◌, ◌≡◌, refl, sym, ap, ◌∙◌, Option, none, some, true, Bool-cases,
  inl, inr, List, ◌++◌, append-nil, arith, length, length-drop, nil_of_length, drop, take_all, All,
  ltb,
}
use apb.Delta.Reader.{Reader}
use apb.Delta.Signatures.{SigIndex}
use apb.Delta.Sink.{Sink, empty, apply, emit_pending, emit_copy}
use apb.Delta.Sink.Flush.{
  IsSink, sent, emit_copy-Sends, emit_pending-IsSink, pending-emit_pending, open_copy-emit_pending,
  sent-emit_pending, IsOp, flush_literal-Sends,
}
use apb.Delta.Produce.{
  Scan, Outcome, more, stop, step, loop, flush_tail, finish, produce_delta, start,
}
use apb.Delta.Produce.Match.{IsIndex, NoCollision}
use apb.Delta.Produce.Invariant.{IsScan, measure, Advances}
use apb.Delta.Produce.Advance.{step-Advances}

-- The operations give the source, each is a range of the base or a `Data` frame of at most `CHUNK`
-- bytes and at least one, and the statistics count every byte of the source once.
pub record IsDelivery (base source : List ℕ) (s : Sink) : Type 0 where
  pub result : apply base s.ops ≡ source
  pub ops_ok : All (IsOp base) s.ops
  pub counted : s.literal_bytes + s.copied_bytes ≡ length source

abbrev pub Delivers : List ℕ → List ℕ → Option Sink → Type 0
Delivers base source none = ⊥
Delivers base source (some s) = IsDelivery base source s

module _ (sha256 : List ℕ → List ℕ) (base source : List ℕ) (idx : SigIndex)
    (ix : IsIndex sha256 base idx) (honest : NoCollision sha256 base idx) where
  -- `loop` with more fuel than the measure ends, at the end of the source and with the invariant.
  Ended : Option Scan → Type 0
  Ended none = ⊥
  Ended (some s) = IsScan base source s × (s.eof ≡ true)

  Ended-outcome :
      (n fuel : ℕ) (o : Outcome)
      → Advances base source n o
      → ((s : Scan) → IsScan base source s → measure s < n → Ended (loop sha256 idx fuel s))
      → Ended (elim o [ more s' ↦ loop sha256 idx fuel s' | stop s' ↦ some s' ])
  unfolding Ended
  Ended-outcome n fuel (more s) (h, less) again = again s h less
  Ended-outcome n fuel (stop s) (h, ended) again = (h, ended)

  loop-Ended :
      (fuel : ℕ) (s : Scan)
      → IsScan base source s
      → measure s < fuel
      → Ended (loop sha256 idx fuel s)
  unfolding loop
  loop-Ended zero s h enough = absurd (omega arith)
  loop-Ended (suc fuel) s h enough =
      Ended-outcome (measure s) fuel (step sha256 idx s)
        (step-Advances sha256 base source idx ix honest s h)
        (λ s' h' less. loop-Ended fuel s' h' (omega (arith, enough, less)))

  flush_tail_lem :
      (s : Scan)
      → IsScan base source s
      → IsSink base 0 (flush_tail sha256 idx s)
        × (sent base (flush_tail sha256 idx s) ≡ sent base s.sink ++ drop s.lit s.buf)
  unfolding flush_tail
  flush_tail_lem s h = elim (Bool-cases (ltb s.lit (length s.buf))) [
    | inl e ↦
        let all_left =
          take_all (length s.buf - s.lit) (drop s.lit s.buf)
            (omega (arith, length-drop s.lit s.buf)) in
        let flushed = flush_literal-Sends base (drop s.lit s.buf) s.sink h.sink_ok in
        rw (e, all_left) (flushed.keeps, flushed.sends)
    | inr e ↦
        let none_left =
          nil_of_length (drop s.lit s.buf) (ground (arith, length-drop s.lit s.buf)) in
        rw (e, none_left) (h.sink_ok, sym (append-nil (sent base s.sink)))
  ]

  finish-IsDelivery :
      (s : Scan)
      → IsScan base source s
      → s.eof ≡ true
      → IsDelivery base source (finish sha256 idx s)
  unfolding finish
  finish-IsDelivery s h ended =
      let t = flush_tail sha256 idx s in
      let (tail_ok, tail_sent) = flush_tail_lem s h in
      let closed = emit_copy-Sends base t tail_ok in
      let ok = emit_pending-IsSink base 0 (emit_copy t) closed.keeps in
      let none_pending = pending-emit_pending base (emit_copy t) in
      let at_end : sent base s.sink ++ drop s.lit s.buf ≡ source =
        rw (h.at_end ended, append-nil (drop s.lit s.buf)) at h.stream in
      let all_sent : sent base (emit_pending (emit_copy t)) ≡ source =
        sent-emit_pending base (emit_copy t)
        ∙ closed.sends
        ∙ append-nil (sent base t)
        ∙ tail_sent
        ∙ at_end in
      let no_copy = open_copy-emit_pending base (emit_copy t) ∙ closed.closed in
      let result : apply base (emit_pending (emit_copy t)).ops ≡ source =
        sym (append-nil (apply base (emit_pending (emit_copy t)).ops))
        ∙ rw (none_pending, no_copy) at all_sent in
      record {
        result = result;
        ops_ok = ok.ops_ok;
        counted = omega (arith, ok.counted, ap length none_pending, ap length result);
      }

  delivered :
      (o : Option Scan)
      → Ended o
      → Delivers base source (elim o [ none ↦ none | some s ↦ some (finish sha256 idx s) ])
  unfolding Ended
  delivered none x = elim x [ ]
  delivered (some s) (h, ended) = finish-IsDelivery s h ended

  -- Under `IsIndex` and `NoCollision`, `produce_delta` returns, whatever sizes the reads have, and
  -- what it returns is a delivery of the source.
  pub produce_delta-IsDelivery :
      (src : Reader) → source ≡ src.rest → Delivers base source (produce_delta sha256 idx src)
  unfolding produce_delta start empty
  produce_delta-IsDelivery src e =
      let begins : IsScan base source (start sha256 idx src) = record {
        sink_ok = record { room = omega arith; ops_ok = tt; copy_ok = tt; counted = refl };
        stream = sym e;
        lit_le = omega arith;
        pos_le = omega arith;
        at_end = λ x. cc;
      } in
      delivered (loop sha256 idx (2 * length src.rest + 2) (start sha256 idx src))
        (loop-Ended _ (start sha256 idx src) begins (omega arith))
