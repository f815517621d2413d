-- ===== src/Delta/Writer/Rebuild.antt =====
-- A `FileWriter` of src/delta.rs that takes the operations of a delivery writes the source.
use native.Mathlib.Nat.{mod-eq_of_lt}
use apb.Prelude.{
  ℕ, zero, suc, ◌+◌, ◌-◌, ◌%◌, ◌^◌, ◌≤◌, ◌<◌, ◌≡◌, refl, sym, ap, ◌∙◌, some, false, Bool-cases, inl,
  inr, List, [], ◌∷◌, ◌++◌, append-nil, append_assoc, arith, length, length-append, length-take,
  length-drop, drop, slice, min, ltb, ◌==◌, ok, All,
}
use apb.Delta.Sink.{Op, copy, literal, apply, op_bytes}
use apb.Delta.Sink.Flush.{IsOp}
use apb.Delta.Produce.Invariant.{slice-append}
use apb.Delta.Writer.{
  FileWriter, copybuf_len, take_in, write_literal, copy_round, copy_loop, copy_base, copy_from_base,
  write_op, write_all,
}

-- The writer after the bytes `bs`.
unfoldable pub grown : List ℕ → FileWriter → FileWriter
grown bs w = record w {
  received = w.received + length bs;
  hashed = w.hashed ++ bs;
  written = w.written ++ bs;
}

grown-append : (xs ys : List ℕ) (w : FileWriter) → grown ys (grown xs w) ≡ grown (xs ++ ys) w
unfolding grown
grown-append xs ys w =
    let counts : w.received + length xs + length ys ≡ w.received + length (xs ++ ys) =
      omega (arith, length-append xs ys) in
    rw (counts, append_assoc w.hashed xs ys, append_assoc w.written xs ys) refl

grown-nil : (w : FileWriter) → grown [] w ≡ w
unfolding grown
grown-nil w =
    let counts : w.received + 0 ≡ w.received = omega arith in
    λ i. record {
      received = counts i;
      hashed = append-nil w.hashed i;
      written = append-nil w.written i;
      expected = w.expected;
      base = w.base;
    }

length-slice_in : (base : List ℕ) (at n : ℕ) → at + n ≤ length base → length (slice base at n) ≡ n
length-slice_in base at n h = omega (arith, length-take n (drop at base), length-drop at base)

take_in-ok :
    (bs : List ℕ) (w : FileWriter)
    → w.received + length bs ≤ w.expected
    → w.expected < 2 ^ 63
    → take_in bs w ≡ ok (grown bs w)
unfolding take_in grown
take_in-ok bs w fits small =
    let exact : (w.received + length bs) % 2 ^ 64 ≡ w.received + length bs =
      mod-eq_of_lt (omega arith) in
    let under : ltb w.expected (w.received + length bs) ≡ false = ground arith in
    rw (exact, under) refl

module _ (base : List ℕ) where
  copy_round-ok :
      (at left : ℕ) (w : FileWriter)
      → at + left ≤ length base
      → w.received + left ≤ w.expected
      → w.expected < 2 ^ 63
      → copy_round base at left w ≡ ok (grown (slice base at (min left copybuf_len)) w)
  unfolding copy_round
  copy_round-ok at left w inside fits small =
      let want = min left copybuf_len in
      let there : ltb (length base) (at + want) ≡ false = ground arith in
      rw there (
        take_in-ok (slice base at want) w
          (omega (arith, length-slice_in base at want (omega arith))) small)

  copy_loop-ok :
      (fuel at left : ℕ) (w : FileWriter)
      → left ≤ fuel
      → at + left ≤ length base
      → w.received + left ≤ w.expected
      → w.expected < 2 ^ 63
      → copy_loop fuel base at left w ≡ ok (grown (slice base at left) w)
  unfolding copy_loop
  copy_loop-ok zero at left w enough inside fits small =
      let none_left : left ≡ 0 = omega arith in rw (none_left, grown-nil w) refl
  copy_loop-ok (suc fuel) at left w enough inside fits small = elim (Bool-cases (left == 0)) [
    | inl done ↦ let none_left : left ≡ 0 = ground arith in rw (none_left, grown-nil w) refl
    | inr more ↦
        let want = min left copybuf_len in
        let taken = grown (slice base at want) w in
        let size = length-slice_in base at want (omega arith) in
        let rest =
          copy_loop-ok fuel (at + want) (left - want) taken (ground arith) (omega arith)
            (unfold grown in omega (arith, size)) (unfold grown in small) in
        rw
          (
            more,
            copy_round-ok at left w inside fits small,
            rest,
            grown-append (slice base at want) (slice base (at + want) (left - want)) w,
          )
          (ap (λ l. ok (grown l w))
            (sym (slice-append base at want (left - want) left (omega arith))))
  ]

  write_op-ok :
      (op : Op) (w : FileWriter)
      → IsOp base op
      → w.base ≡ some base
      → w.received + length (op_bytes base op) ≤ w.expected
      → w.expected < 2 ^ 63
      → write_op op w ≡ ok (grown (op_bytes base op) w)
  unfolding write_op write_literal copy_from_base copy_base
  write_op-ok (literal bytes) w inside b fits small = take_in-ok bytes w fits small
  write_op-ok (copy start len) w inside b fits small =
      ap (λ c. copy_base c start len w) b
      ∙ copy_loop-ok len start len w (omega arith) inside
          (omega (arith, length-slice_in base start len inside, fits)) small

  -- Operations inside the base whose bytes fit are all taken, and their bytes are what is added.
  pub write_all-ok :
      (ops : List Op) (w : FileWriter)
      → All (IsOp base) ops
      → w.base ≡ some base
      → w.received + length (apply base ops) ≤ w.expected
      → w.expected < 2 ^ 63
      → write_all ops w ≡ ok (grown (apply base ops) w)
  unfolding write_all
  write_all-ok [] w inside b fits small = ap ok (sym (grown-nil w))
  write_all-ok (op ∷ ops) w (here, inside) b fits small =
      let first =
        write_op-ok op w here b (omega (arith, length-append (op_bytes base op) (apply base ops)))
          small in
      let rest =
        write_all-ok ops (grown (op_bytes base op) w) inside (unfold grown in b)
          (unfold grown in omega (arith, length-append (op_bytes base op) (apply base ops)))
          (unfold grown in small) in
      rw (first, rest) (ap ok (grown-append (op_bytes base op) (apply base ops) w))

abbrev pub IsLiteral : Op → Type 0
IsLiteral (literal bytes) = Unit {0}
IsLiteral (copy start len) = ⊥

write_literal-ok :
    (op : Op) (w : FileWriter)
    → IsLiteral op
    → w.received + length (op_bytes [] op) ≤ w.expected
    → w.expected < 2 ^ 63
    → write_op op w ≡ ok (grown (op_bytes [] op) w)
unfolding write_op write_literal
write_literal-ok (literal bytes) w h fits small = take_in-ok bytes w fits small
write_literal-ok (copy start len) w h fits small = elim h [ ]

-- `Data` frames that fit are all taken, with a base or without one.
pub write_all-ok_literals :
    (ops : List Op) (w : FileWriter)
    → All IsLiteral ops
    → w.received + length (apply [] ops) ≤ w.expected
    → w.expected < 2 ^ 63
    → write_all ops w ≡ ok (grown (apply [] ops) w)
unfolding write_all
write_all-ok_literals [] w h fits small = ap ok (sym (grown-nil w))
write_all-ok_literals (op ∷ ops) w (here, h) fits small =
    let first =
      write_literal-ok op w here (omega (arith, length-append (op_bytes [] op) (apply [] ops)))
        small in
    let rest =
      write_all-ok_literals ops (grown (op_bytes [] op) w) h
        (unfold grown in omega (arith, length-append (op_bytes [] op) (apply [] ops)))
        (unfold grown in small) in
    rw (first, rest) (ap ok (grown-append (op_bytes [] op) (apply [] ops) w))
