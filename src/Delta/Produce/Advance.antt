-- ===== src/Delta/Produce/Advance.antt =====
-- One round of the loop of `produce_delta` in src/delta.rs keeps the invariant: the cases of a match,
-- of a window that slides and of a refill.
use apb.Prelude.{
  ℕ, ◌+◌, ◌*◌, ◌≤◌, ◌≡◌, refl, ap, ◌∙◌, Option, none, some, Option-cases, length-take, Bool-cases,
  inl, inr, List, [], ◌++◌, append-nil, append_assoc, arith, length, length-drop, drop, slice, ltb,
  leb, ◌==◌,
}
use apb.Delta.Rolling.{Rolling}
use apb.Delta.Signatures.{SigIndex}
use apb.Delta.Sink.{Sink}
use apb.Delta.Sink.Flush.{IsSink, Sends, sent, emit_copy-Sends, flush_literal-Sends}
use apb.Delta.Produce.{
  Scan, more, flush_gap, refill, extend_copy, on_match, on_miss, step, on_window, current,
  find_block,
}
use apb.Delta.Produce.Match.{IsIndex, NoCollision, find_block_sound}
use apb.Delta.Produce.Invariant.{
  IsScan, measure, Advances, Advances-if, slice-drop_add, slice-append, sent-open_copy,
  open_copy-IsSink, gap, no_gap, gap-rest, refill-Advances,
}

module _ (sha256 : List ℕ → List ℕ) (base source : List ℕ) (idx : SigIndex)
    (size : 1 ≤ idx.block_size) where
  module _ (s : Scan) (h : IsScan base source s) where
    -- A match: the window is `len` bytes of the base that begin at `start`.
    module _ (i : ℕ) where
      matched : List ℕ
      matched = slice base (i * idx.block_size) idx.block_size

      module _ (fits : s.pos + idx.block_size ≤ length s.buf)
          (same : slice s.buf s.pos idx.block_size ≡ matched)
          (inside : i * idx.block_size + idx.block_size ≤ length base) where
        -- A copy of the block is opened where everything before it was sent.
        opened_cases :
            {bs : List ℕ} {t : Sink}
            → Sends base bs s.sink t
            → IsSink base 0 (record t { open_copy = some (i * idx.block_size, idx.block_size) })
              × (sent base (record t { open_copy = some (i * idx.block_size, idx.block_size) })
                  ≡ (sent base s.sink ++ bs) ++ matched)
        unfolding matched
        opened_cases {t = t} first = (
          open_copy-IsSink base t (i * idx.block_size) idx.block_size first.keeps inside,
          sent-open_copy base t (i * idx.block_size) idx.block_size first.closed
              ∙ ap (λ l. l ++ matched) first.sends,
        )

        extend_copy_cases :
            (c : Option (ℕ × ℕ))
            → s.sink.open_copy ≡ c
            → IsSink base 0 (extend_copy sha256 idx (i * idx.block_size) c s.sink)
              × (sent base (extend_copy sha256 idx (i * idx.block_size) c s.sink)
                  ≡ (sent base s.sink ++ []) ++ matched)
        unfolding extend_copy matched
        extend_copy_cases none e = opened_cases (emit_copy-Sends base s.sink h.sink_ok)
        extend_copy_cases (some (st, len)) e = elim (Bool-cases (st + len == i * idx.block_size)) [
          | inl next ↦
              let behind : st + len ≡ i * idx.block_size = ground arith in
              rw next (
                record {
                  room = h.sink_ok.room;
                  ops_ok = h.sink_ok.ops_ok;
                  copy_ok = omega (arith, inside, behind);
                  counted = h.sink_ok.counted;
                },
                rw (e, slice-append base st len idx.block_size (len + idx.block_size) refl, behind)
                    (simp (append_assoc, append-nil)),
              )
          | inr apart ↦ rw apart (opened_cases (emit_copy-Sends base s.sink h.sink_ok))
        ]

        -- The output of a round that found the block: the gap sha256 base source idx size s h and the block are sent.
        on_match_sink :
            IsSink base 0 (on_match sha256 idx i s).sink
            × (sent base (on_match sha256 idx i s).sink
                ≡ (sent base s.sink ++ gap sha256 base source idx size s h) ++ matched)
        unfolding on_match gap
        on_match_sink = elim (Bool-cases (ltb s.lit s.pos)) [
          | inl some_gap ↦ rw some_gap (
              opened_cases
                (flush_literal-Sends base (gap sha256 base source idx size s h) s.sink h.sink_ok))
          | inr none_left ↦
              rw (none_left, no_gap sha256 base source idx size s h none_left)
                (extend_copy_cases s.sink.open_copy refl)
        ]

        matched-rest : matched ++ drop (s.pos + idx.block_size) s.buf ≡ drop s.pos s.buf
        matched-rest = rw (← same) (slice-drop_add s.pos idx.block_size s.buf)

        on_match_stream :
            sent base (on_match sha256 idx i s).sink
              ++ (drop (s.pos + idx.block_size) s.buf ++ s.src.rest)
            ≡ source
        on_match_stream =
            rw
              (
                on_match_sink.1,
                append_assoc (sent base s.sink ++ gap sha256 base source idx size s h) matched
                    (drop (s.pos + idx.block_size) s.buf ++ s.src.rest),
                ← append_assoc matched (drop (s.pos + idx.block_size) s.buf) s.src.rest,
                matched-rest,
                append_assoc (sent base s.sink) (gap sha256 base source idx size s h)
                    (drop s.pos s.buf ++ s.src.rest),
                ← append_assoc (gap sha256 base source idx size s h) (drop s.pos s.buf) s.src.rest,
                gap-rest sha256 base source idx size s h,
              )
              h.stream

        on_match-Advances : Advances base source (measure s) (more (on_match sha256 idx i s))
        unfolding on_match
        on_match-Advances = (
          record {
            sink_ok = on_match_sink.0;
            stream = on_match_stream;
            lit_le = omega arith;
            pos_le = fits;
            at_end = h.at_end;
          },
          omega (arith, size, fits),
        )

    on_miss-Advances :
        (r : Rolling)
        → s.pos + idx.block_size ≤ length s.buf
        → Advances base source (measure s) (on_miss sha256 idx r s)
    unfolding on_miss refill flush_gap
    on_miss-Advances r fits = elim (Bool-cases (leb (s.pos + 1 + idx.block_size) (length s.buf))) [
      | inl e ↦ rw e (
        record {
          sink_ok = h.sink_ok;
          stream = h.stream;
          lit_le = omega (arith, h.lit_le);
          pos_le = ground (arith, size);
          at_end = h.at_end;
        },
        ground arith,
      )
      | inr e ↦ rw e (
          Advances-if base source (measure s) _ _ s.eof
            (λ ended. (
              record {
                sink_ok = h.sink_ok;
                stream = h.stream;
                lit_le = h.lit_le;
                pos_le = h.pos_le;
                at_end = h.at_end;
              },
              ended,
            ))
            (λ running. refill-Advances sha256 base source idx size s h running (ground arith)))
    ]

module _ (sha256 : List ℕ → List ℕ) (base source : List ℕ) (idx : SigIndex)
    (ix : IsIndex sha256 base idx) (honest : NoCollision sha256 base idx) where
  -- A round of the loop, with the window that it looks at.
  pub step-Advances :
      (s : Scan) → IsScan base source s → Advances base source (measure s) (step sha256 idx s)
  unfolding step on_window matched
  step-Advances s h =
      let window = slice s.buf s.pos idx.block_size in
      let r = current window s.rolling in
      elim (Bool-cases (ltb (length s.buf) (s.pos + idx.block_size))) [
        | inl short ↦ rw short (
            Advances-if base source (measure s) _ _ s.eof (λ ended. (h, ended))
              (λ running.
                refill-Advances sha256 base source idx ix.size s h running (ground arith)))
        | inr wide ↦
            let fits : s.pos + idx.block_size ≤ length s.buf = ground arith in
            elim (Option-cases (find_block sha256 idx window r s.sink.open_copy)) [
              | inl missed ↦
                  rw (wide, missed) (on_miss-Advances sha256 base source idx ix.size s h r fits)
              | inr (i, found) ↦
                  let (same, inside) =
                    find_block_sound sha256 base idx ix honest window r s.sink.open_copy i
                      (omega (
                        arith,
                        fits,
                        length-take idx.block_size (drop s.pos s.buf),
                        length-drop s.pos s.buf,
                      ))
                      found in
                  rw (wide, found)
                    (on_match-Advances sha256 base source idx ix.size s h i fits same inside)
            ]
      ]
