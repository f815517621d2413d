-- ===== src/Delta/Produce/Invariant.antt =====
-- The invariant of the loop of `produce_delta` in src/delta.rs, kept by every round.
use apb.Prelude.{
  ℕ, ◌+◌, ◌-◌, ◌*◌, ◌≤◌, ◌<◌, ◌≡◌, refl, sym, ap, ◌∙◌, none, some, Bool, true, false, Bool-cases,
  inl, inr, List, [], ◌++◌, append-nil, append_assoc, arith, length, length-append, length-drop,
  nil_of_length, drop, drop-drop, take-append-drop, take_split, slice, ltb, ltb→lt, lt→ltb,
  if◌then◌else◌,
}
use apb.Delta.Blocks.{read_chunk}
use apb.Delta.Reader.{Reader, read, read-append, read_bounds}
use apb.Delta.Signatures.{SigIndex}
use apb.Delta.Sink.{Sink}
use apb.Delta.Sink.Flush.{IsSink, Sends, sent, flush_literal-Sends}
use apb.Delta.Produce.{Scan, Outcome, more, stop, flush_gap, refill}

-- What is sent, what is still in the buffer and what is still to be read make up the source.
pub record IsScan (base source : List ℕ) (s : Scan) : Type 0 where
  pub sink_ok : IsSink base 0 s.sink
  pub stream : sent base s.sink ++ (drop s.lit s.buf ++ s.src.rest) ≡ source
  pub lit_le : s.lit ≤ s.pos
  pub pos_le : s.pos ≤ length s.buf
  pub at_end : s.eof ≡ true → s.src.rest ≡ []

-- What falls with every round.
abbrev pub measure : Scan → ℕ
measure s = length s.buf - s.pos + 2 * length s.src.rest + (if s.eof then 0 else 1)

-- A round that goes on keeps the invariant and lowers the measure; the loop stops at the end.
abbrev pub Advances : List ℕ → List ℕ → ℕ → Outcome → Type 0
Advances base source n (more s) = IsScan base source s × (measure s < n)
Advances base source n (stop s) = IsScan base source s × (s.eof ≡ true)

-- The code that looks at the end of the source.
pub Advances-if :
    (base source : List ℕ) (n : ℕ) (o o' : Outcome) (c : Bool)
    → (c ≡ true → Advances base source n o)
    → (c ≡ false → Advances base source n o')
    → Advances base source n (if c then o else o')
Advances-if base source n o o' true h k = h refl
Advances-if base source n o o' false h k = k refl

module _ {A : Type 0} where
  -- The elements from `i` to `j`, and those from `j` on.
  pub slice-drop : (i j : ℕ) (xs : List A) → i ≤ j → slice xs i (j - i) ++ drop j xs ≡ drop i xs
  slice-drop i j xs h =
      rw (← drop-drop i (j - i) j xs (omega arith)) (take-append-drop (j - i) (drop i xs))

  pub slice-drop_add : (i n : ℕ) (xs : List A) → slice xs i n ++ drop (i + n) xs ≡ drop i xs
  slice-drop_add i n xs = rw (← drop-drop i n (i + n) xs refl) (take-append-drop n (drop i xs))

  pub slice-append :
      (xs : List A) (i m n k : ℕ) → k ≡ m + n → slice xs i k ≡ slice xs i m ++ slice xs (i + m) n
  slice-append xs i m n k e = rw (← drop-drop i m (i + m) xs refl) (take_split m n k (drop i xs) e)

module _ (base : List ℕ) where
  -- Opening a copy where none is open sends its bytes.
  pub sent-open_copy :
      (s : Sink) (start len : ℕ)
      → s.open_copy ≡ none
      → sent base (record s { open_copy = some (start, len) }) ≡ sent base s ++ slice base start len
  sent-open_copy s start len e = rw e (simp (append-nil, append_assoc))

  pub open_copy-IsSink :
      (s : Sink) (start len : ℕ)
      → IsSink base 0 s
      → start + len ≤ length base
      → IsSink base 0 (record s { open_copy = some (start, len) })
  open_copy-IsSink s start len h k = record {
    room = h.room;
    ops_ok = h.ops_ok;
    copy_ok = k;
    counted = h.counted;
  }

module _ (sha256 : List ℕ → List ℕ) (base source : List ℕ) (idx : SigIndex)
    (size : 1 ≤ idx.block_size) where
  -- The gap of literal bytes before the window is sent, and no copy is open behind it.
  module _ (s : Scan) (h : IsScan base source s) where
    unfoldable pub gap : List ℕ
    gap = slice s.buf s.lit (s.pos - s.lit)

    flush_gap-Sends : s.lit < s.pos → Sends base gap s.sink (flush_gap sha256 idx s)
    unfolding flush_gap gap
    flush_gap-Sends lt = rw (lt→ltb s.lit s.pos lt) (flush_literal-Sends base _ s.sink h.sink_ok)

    pub no_gap : ltb s.lit s.pos ≡ false → gap ≡ []
    unfolding gap
    no_gap e = let none_left : s.pos - s.lit ≡ 0 = ground (arith, h.lit_le) in rw none_left

    pub gap_cases :
        IsSink base 0 (flush_gap sha256 idx s)
        × (sent base (flush_gap sha256 idx s) ≡ sent base s.sink ++ gap)
    unfolding flush_gap
    gap_cases = elim (Bool-cases (ltb s.lit s.pos)) [
      | inl e ↦
          let flushed = flush_gap-Sends (ltb→lt s.lit s.pos e) in (flushed.keeps, flushed.sends)
      | inr e ↦ rw (e, no_gap e) (h.sink_ok, sym (append-nil _))
    ]

    -- The gap and what stands behind it are what is not sent.
    pub gap-rest : gap ++ drop s.pos s.buf ≡ drop s.lit s.buf
    unfolding gap
    gap-rest = slice-drop s.lit s.pos s.buf h.lit_le

    module _ (running : s.eof ≡ false) (short : length s.buf - s.pos ≤ idx.block_size) where
      room : ℕ
      room = read_chunk + idx.block_size - length (drop s.pos s.buf)

      fetched : List ℕ × Reader
      fetched = read room s.src

      fetched_length : length fetched.0 + length fetched.1.rest ≡ length s.src.rest
      unfolding fetched
      fetched_length =
          sym (length-append fetched.0 fetched.1.rest) ∙ ap length (read-append room s.src)

      -- A read that returns nothing was a read at the end.
      fetched_end : length fetched.0 ≡ 0 → length s.src.rest ≡ 0
      unfolding fetched room
      fetched_end e = (read_bounds room s.src).1 (omega (arith, short, length-drop s.pos s.buf)) e

      refill_stream :
          sent base (flush_gap sha256 idx s) ++ ((drop s.pos s.buf ++ fetched.0) ++ fetched.1.rest)
          ≡ source
      unfolding fetched
      refill_stream =
          rw
            (
              gap_cases.1,
              append_assoc (drop s.pos s.buf) fetched.0 fetched.1.rest,
              read-append room s.src,
              append_assoc (sent base s.sink) gap (drop s.pos s.buf ++ s.src.rest),
              ← append_assoc gap (drop s.pos s.buf) s.src.rest,
              gap-rest,
            )
            h.stream

      pub refill-Advances : Advances base source (measure s) (more (refill sha256 idx s))
      unfolding refill fetched room
      refill-Advances = (
        record {
          sink_ok = gap_cases.0;
          stream = refill_stream;
          lit_le = omega arith;
          pos_le = omega arith;
          at_end = λ e. nil_of_length _ (ground (arith, running, fetched_end, fetched_length));
        },
        ground (
          arith,
          running,
          fetched_end,
          fetched_length,
          length-drop s.pos s.buf,
          length-append (drop s.pos s.buf) fetched.0,
        ),
      )
