-- ===== src/Delta/Sink/Flush.antt =====
-- What the output side of `produce_delta` has sent, and that it neither loses nor reorders a byte.
use mathlib.Core.Path.{subst}
use apb.Prelude.{
  ℕ, zero, suc, ◌+◌, ◌-◌, ◌≤◌, ◌<◌, ◌≡◌, refl, sym, ap, ◌∙◌, inl, inr, Option, none, some,
  Bool-cases, List, [], ◌∷◌, ◌++◌, append-nil, append_assoc, arith, length, length-append,
  nil_of_length, length-take, length-drop, take, drop, take-append-drop, slice, min, ◌==◌, All,
}
use apb.Delta.Blocks.{chunk}
use apb.Delta.Sink.{
  Op, op_bytes, copy, literal, Sink, ship, emit, emit_pending, emit_copy, close, append_round,
  append_loop, append, flush_literal, apply,
}

abbrev pub copy_bytes : List ℕ → Option (ℕ × ℕ) → List ℕ
copy_bytes base none = []
copy_bytes base (some (start, len)) = slice base start len

-- What the receiver has once the pending bytes and the open copy are sent too.
abbrev pub sent : List ℕ → Sink → List ℕ
sent base s = apply base s.ops ++ (s.pending ++ copy_bytes base s.open_copy)

abbrev pub IsOp : List ℕ → Op → Type 0
IsOp base (copy start len) = start + len ≤ length base
IsOp base (literal bytes) = (1 ≤ length bytes) × (length bytes ≤ chunk)

abbrev pub IsCopy : List ℕ → Option (ℕ × ℕ) → Type 0
IsCopy base none = Unit {0}
IsCopy base (some (start, len)) = start + len ≤ length base

-- `owed` bytes are counted as literal and not yet taken in.
pub record IsSink (base : List ℕ) (owed : ℕ) (s : Sink) : Type 0 where
  pub room : length s.pending < chunk
  pub ops_ok : All (IsOp base) s.ops
  pub copy_ok : IsCopy base s.open_copy
  pub counted :
      s.literal_bytes + s.copied_bytes ≡ length (apply base s.ops) + length s.pending + owed

-- From `s` to `s'` the bytes `bs` were sent, and no copy is open.
pub record Sends (base bs : List ℕ) (s s' : Sink) : Type 0 where
  pub keeps : IsSink base 0 s'
  pub sends : sent base s' ≡ sent base s ++ bs
  pub closed : s'.open_copy ≡ none

module _ (base : List ℕ) where
  apply-snoc :
      (ops : List Op) (op : Op) → apply base (ops ++ op ∷ []) ≡ apply base ops ++ op_bytes base op
  apply-snoc [] op = append-nil (op_bytes base op)
  apply-snoc (o ∷ ops) op =
      rw (apply-snoc ops op, append_assoc (op_bytes base o) (apply base ops) (op_bytes base op))

  All-snoc :
      (ops : List Op) (op : Op)
      → All (IsOp base) ops
      → IsOp base op
      → All (IsOp base) (ops ++ op ∷ [])
  All-snoc [] op h k = (k, tt)
  All-snoc (o ∷ ops) op (ho, h) k = (ho, All-snoc ops op h k)

  length-apply-snoc :
      (ops : List Op) (op : Op)
      → length (apply base (ops ++ op ∷ [])) ≡ length (apply base ops) + length (op_bytes base op)
  length-apply-snoc ops op =
      ap length (apply-snoc ops op) ∙ length-append (apply base ops) (op_bytes base op)

  -- A `Data` frame of what is pending, if that is not empty and not above the size of a frame.
  module _ (owed : ℕ) (s : Sink) (some_bytes : 1 ≤ length s.pending)
      (fits : length s.pending ≤ chunk) where
    ship-IsSink :
        All (IsOp base) s.ops
        → IsCopy base s.open_copy
        → s.literal_bytes + s.copied_bytes ≡ length (apply base s.ops) + length s.pending + owed
        → IsSink base owed (ship s)
    unfolding ship
    ship-IsSink ops_ok copy_ok counted = record {
      room = omega arith;
      ops_ok = All-snoc s.ops (literal s.pending) ops_ok (some_bytes, fits);
      copy_ok = copy_ok;
      counted = omega (arith, length-apply-snoc s.ops (literal s.pending));
    }

  sent-ship : (s : Sink) → sent base (ship s) ≡ sent base s
  unfolding ship
  sent-ship s = rw (apply-snoc s.ops (literal s.pending)) (append_assoc _ s.pending _)

  pub emit_pending-IsSink :
      (owed : ℕ) (s : Sink) → IsSink base owed s → IsSink base owed (emit_pending s)
  unfolding emit_pending
  emit_pending-IsSink owed s h = elim (Bool-cases (length s.pending == 0)) [
    | inl e ↦ rw e h
    | inr e ↦
        rw e
          (ship-IsSink owed s (ground arith) (omega (arith, h.room)) h.ops_ok h.copy_ok h.counted)
  ]

  pub sent-emit_pending : (s : Sink) → sent base (emit_pending s) ≡ sent base s
  unfolding emit_pending
  sent-emit_pending s = elim (Bool-cases (length s.pending == 0)) [
    | inl e ↦ rw e
    | inr e ↦ rw e (sent-ship s)
  ]

  pub pending-emit_pending : (s : Sink) → (emit_pending s).pending ≡ []
  unfolding emit_pending ship
  pending-emit_pending s = elim (Bool-cases (length s.pending == 0)) [
    | inl e ↦ rw e (nil_of_length s.pending (ground arith))
    | inr e ↦ rw e
  ]

  pub open_copy-emit_pending : (s : Sink) → (emit_pending s).open_copy ≡ s.open_copy
  unfolding emit_pending ship
  open_copy-emit_pending s = ground arith

  length-slice_in :
      (start len : ℕ) → start + len ≤ length base → length (slice base start len) ≡ len
  length-slice_in start len h =
      omega (arith, length-take len (drop start base), length-drop start base)

  -- A copy that is sent behind nothing pending.
  module _ (t : Sink) (start len : ℕ) (h : IsSink base 0 t) (none_pending : t.pending ≡ [])
      (opened : t.open_copy ≡ some (start, len)) where
    in_base : start + len ≤ length base
    in_base = subst (IsCopy base) opened h.copy_ok

    shipped : Sink
    shipped =
        emit (copy start len) (record t { open_copy = none; copied_bytes = t.copied_bytes + len })

    shipped-IsSink : IsSink base 0 shipped
    unfolding shipped emit
    shipped-IsSink = record {
      room = h.room;
      ops_ok = All-snoc t.ops (copy start len) h.ops_ok in_base;
      copy_ok = tt;
      counted = omega (
        arith,
        h.counted,
        length-apply-snoc t.ops (copy start len),
        length-slice_in start len in_base,
      );
    }

    sent-shipped : sent base shipped ≡ sent base t
    unfolding shipped emit
    sent-shipped = rw (none_pending, opened, append-nil, apply-snoc t.ops (copy start len))

  -- The open copy is sent behind the pending bytes, and none is left open.
  module _ (s : Sink) (h : IsSink base 0 s) where
    close-Sends : (c : Option (ℕ × ℕ)) → s.open_copy ≡ c → Sends base [] s (close c s)
    unfolding close shipped
    close-Sends none e = record { keeps = h; sends = sym (append-nil (sent base s)); closed = e }
    close-Sends (some (start, len)) e =
        let t = emit_pending s in
        let ht = emit_pending-IsSink 0 s h in
        let p = pending-emit_pending s in
        let o = open_copy-emit_pending s ∙ e in
        record {
          keeps = shipped-IsSink t start len ht p o;
          sends =
              sent-shipped t start len ht p o
              ∙ sent-emit_pending s
              ∙ sym (append-nil (sent base s));
          closed = unfold emit in refl;
        }

    pub emit_copy-Sends : Sends base [] s (emit_copy s)
    unfolding emit_copy
    emit_copy-Sends = close-Sends s.open_copy refl

  -- One round of `append` with no copy open: the bytes that it takes are sent, and it takes some.
  module _ (s : Sink) (bytes : List ℕ) (h : IsSink base (length bytes) s)
      (closed : s.open_copy ≡ none) (more : 1 ≤ length bytes) where
    filled : Sink
    filled = record s {
      pending = s.pending ++ take (min (chunk - length s.pending) (length bytes)) bytes;
    }

    length-filled :
        length filled.pending ≡ length s.pending + min (chunk - length s.pending) (length bytes)
    unfolding filled
    length-filled =
        let n = min (chunk - length s.pending) (length bytes) in
        omega (arith, length-append s.pending (take n bytes), length-take n bytes)

    round_closed : (append_round bytes s).1.open_copy ≡ none
    unfolding append_round ship
    round_closed = ground arith

    round_shrinks : length (append_round bytes s).0 < length bytes
    unfolding append_round
    round_shrinks =
        let n = min (chunk - length s.pending) (length bytes) in
        omega (arith, h.room, length-drop n bytes)

    filled_counted :
        filled.literal_bytes + filled.copied_bytes
        ≡ length (apply base filled.ops) + length filled.pending + length (append_round bytes s).0
    unfolding filled append_round
    filled_counted =
        let n = min (chunk - length s.pending) (length bytes) in
        omega (arith, h.counted, length-filled, length-drop n bytes)

    round-IsSink : IsSink base (length (append_round bytes s).0) (append_round bytes s).1
    unfolding append_round filled
    round-IsSink = elim (Bool-cases (length filled.pending == chunk)) [
      | inl e ↦
          rw e
            (ship-IsSink _ filled (ground arith) (ground arith) h.ops_ok h.copy_ok filled_counted)
      | inr e ↦ rw e (record {
        room = ground (arith, length-filled, h.room);
        ops_ok = h.ops_ok;
        copy_ok = h.copy_ok;
        counted = filled_counted;
      })
    ]

    sent-filled : sent base filled ++ (append_round bytes s).0 ≡ sent base s ++ bytes
    unfolding filled append_round
    sent-filled = rw closed (simp (append_assoc, append-nil, take-append-drop))

    round_sends :
        sent base (append_round bytes s).1 ++ (append_round bytes s).0 ≡ sent base s ++ bytes
    unfolding append_round filled
    round_sends = elim (Bool-cases (length filled.pending == chunk)) [
      | inl e ↦ rw (e, sent-ship filled) sent-filled
      | inr e ↦ rw e sent-filled
    ]

  append_loop-Sends :
      (fuel : ℕ) (bytes : List ℕ) (s : Sink)
      → length bytes ≤ fuel
      → IsSink base (length bytes) s
      → s.open_copy ≡ none
      → Sends base bytes s (append_loop fuel bytes s)
  unfolding append_loop
  append_loop-Sends fuel [] s le h closed = record {
    keeps = h;
    sends = sym (append-nil (sent base s));
    closed = closed;
  }
  append_loop-Sends zero (b ∷ bs) s le h closed = absurd (omega arith)
  append_loop-Sends (suc fuel) (b ∷ bs) s le h closed =
      let more : 1 ≤ length (b ∷ bs) = omega arith in
      let shrinks = round_shrinks s (b ∷ bs) h closed more in
      let rest =
        append_loop-Sends fuel (append_round (b ∷ bs) s).0 (append_round (b ∷ bs) s).1
          (omega (arith, shrinks)) (round-IsSink s (b ∷ bs) h closed more)
          (round_closed s (b ∷ bs) h closed more) in
      record {
        keeps = rest.keeps;
        sends = rest.sends ∙ round_sends s (b ∷ bs) h closed more;
        closed = rest.closed;
      }

  append-Sends :
      (bytes : List ℕ) (s : Sink)
      → IsSink base 0 s
      → s.open_copy ≡ none
      → Sends base bytes s (append bytes s)
  unfolding append
  append-Sends bytes s h closed =
      let counted = record s { literal_bytes = s.literal_bytes + length bytes } in
      let loop =
        append_loop-Sends (length bytes) bytes counted (omega arith)
          (record {
            room = h.room;
            ops_ok = h.ops_ok;
            copy_ok = h.copy_ok;
            counted = omega (arith, h.counted);
          })
          closed in
      record { keeps = loop.keeps; sends = loop.sends; closed = loop.closed }

  -- `flush_literal` sends the pending bytes, the open copy and then the bytes that it is given, in
  -- this order; after it no copy is open, and the counts, the sizes and the ranges still hold.
  pub flush_literal-Sends :
      (bytes : List ℕ) (s : Sink) → IsSink base 0 s → Sends base bytes s (flush_literal bytes s)
  unfolding flush_literal
  flush_literal-Sends bytes s h =
      let first = emit_copy-Sends s h in
      let second = append-Sends bytes (emit_copy s) first.keeps first.closed in
      record {
        keeps = second.keeps;
        sends = second.sends ∙ ap (λ l. l ++ bytes) (first.sends ∙ append-nil (sent base s));
        closed = second.closed;
      }
