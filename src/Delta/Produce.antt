-- ===== src/Delta/Produce.antt =====
-- `produce_delta` of src/delta.rs: the sliding window over the source and its blocks in the base.
pub mod Match
pub mod Invariant
pub mod Advance
pub mod Delivery
use apb.Prelude.{
  ℕ, zero, suc, ◌+◌, ◌-◌, ◌*◌, ◌/◌, ◌%◌, ◌^◌, ◌≤◌, ◌<◌, ◌≡◌, Option, none, some, Bool, true, false,
  ◌&&◌, ◌||◌, List, [], ◌∷◌, ◌++◌, length, take, drop, slice, get_or, ltb, leb, ◌==◌, if◌then◌else◌,
}
use apb.Delta.Blocks.{strong_len, read_chunk}
use apb.Delta.Rolling
use apb.Delta.Rolling.{Rolling, roll}
use apb.Delta.Reader.{Reader, read}
use apb.Delta.Signatures.{SigIndex, lookup, strong_of}
use apb.Delta.Sink
use apb.Delta.Sink.{Op, literal, Sink, emit_copy, emit_pending, flush_literal}

-- The variables of `produce_delta`: `buf` holds the filled part of the buffer.
pub record Scan : Type 0 where
  pub sink : Sink
  pub src : Reader
  pub buf : List ℕ
  pub pos : ℕ
  pub lit : ℕ
  pub eof : Bool
  pub rolling : Option Rolling

pub data Outcome : Type 0 where
  more : Scan → Outcome
  stop : Scan → Outcome

abbrev pub bytes_eq : List ℕ → List ℕ → Bool
bytes_eq [] [] = true
bytes_eq [] (y ∷ ys) = false
bytes_eq (x ∷ xs) [] = false
bytes_eq (x ∷ xs) (y ∷ ys) = x == y && bytes_eq xs ys

contains : List ℕ → ℕ → Bool
contains [] a = false
contains (x ∷ xs) a = x == a || contains xs a

-- The block behind the open copy run, if the window is that block.
unfoldable pub continue_run : SigIndex → List ℕ → List ℕ → Option (ℕ × ℕ) → Option ℕ
unfolding contains strong_of
continue_run idx strong cands none = none
continue_run idx strong cands (some (start, len)) =
    let want = (start + len) / idx.block_size in
    if ltb want idx.block_count
      && (contains cands (want % 2 ^ 32) && bytes_eq (strong_of idx want) strong)
    then some (want % 2 ^ 32)
    else none

-- The first candidate with the strong hash of the window.
unfoldable pub first_match : SigIndex → List ℕ → List ℕ → Option ℕ
unfolding strong_of
first_match idx strong [] = none
first_match idx strong (i ∷ is) =
    if bytes_eq (strong_of idx i) strong then some i else first_match idx strong is

or_else : Option ℕ → Option ℕ → Option ℕ
or_else none o = o
or_else (some i) o = some i

-- `roll`, or the checksum of the window if there is none.
unfoldable pub current : List ℕ → Option Rolling → Rolling
current window none = Rolling.new window
current window (some r) = r

module _ (sha256 : List ℕ → List ℕ) (idx : SigIndex) where
  unfoldable pub find_block : List ℕ → Rolling → Option (ℕ × ℕ) → Option ℕ
  unfolding continue_run first_match or_else
  find_block window r open_copy = elim (lookup (Rolling.digest r) idx.by_weak) [
    | none ↦ none
    | some cands ↦
        let strong = take strong_len (sha256 window) in
        or_else (continue_run idx strong cands open_copy) (first_match idx strong cands)
  ]

  -- The literal bytes between `lit` and `pos`.
  unfoldable pub flush_gap : Scan → Sink
  flush_gap s =
      if ltb s.lit s.pos then flush_literal (slice s.buf s.lit (s.pos - s.lit)) s.sink else s.sink

  -- Both places that fetch more: what is known to be literal goes out, the rest moves to the front.
  unfoldable pub refill : Scan → Scan
  unfolding flush_gap
  refill s =
      let kept = drop s.pos s.buf in
      let (chunk, src) = read (read_chunk + idx.block_size - length kept) s.src in
      record {
        sink = flush_gap s;
        src = src;
        buf = kept ++ chunk;
        pos = 0;
        lit = 0;
        eof = length chunk == 0 || s.eof;
        rolling = none;
      }

  -- `Some((s, l)) if s + l == start => copy = Some((s, l + bs64))`, else the old copy is emitted.
  unfoldable pub extend_copy : ℕ → Option (ℕ × ℕ) → Sink → Sink
  extend_copy start none s = record (emit_copy s) { open_copy = some (start, idx.block_size) }
  extend_copy start (some (st, len)) s =
      if st + len == start
      then record s { open_copy = some (st, len + idx.block_size) }
      else record (emit_copy s) { open_copy = some (start, idx.block_size) }

  -- The window is block `i` of the base.
  unfoldable pub on_match : ℕ → Scan → Scan
  unfolding flush_gap extend_copy
  on_match i s =
      let start = i * idx.block_size in
      record s {
        sink =
            if ltb s.lit s.pos
            then record (flush_gap s) { open_copy = some (start, idx.block_size) }
            else extend_copy start s.sink.open_copy s.sink;
        pos = s.pos + idx.block_size;
        lit = s.pos + idx.block_size;
        rolling = none;
      }

  -- The window is no block: it slides by a byte, or there is no byte to slide to.
  unfoldable pub on_miss : Rolling → Scan → Outcome
  unfolding refill
  on_miss r s =
      let bs = idx.block_size in
      if leb (s.pos + 1 + bs) (length s.buf)
      then more (record s {
        rolling = some (roll (get_or s.buf s.pos 0) (get_or s.buf (s.pos + bs) 0) r);
        pos = s.pos + 1;
      })
      else if s.eof
      then stop (record s { rolling = some r })
      else more (refill (record s { rolling = some r }))

  on_window : Option ℕ → Rolling → Scan → Outcome
  unfolding on_match on_miss
  on_window none r s = on_miss r s
  on_window (some i) r s = more (on_match i s)

  -- One round of the loop.
  unfoldable pub step : Scan → Outcome
  unfolding refill find_block on_window current
  step s =
      let bs = idx.block_size in
      let window = slice s.buf s.pos bs in
      let r = current window s.rolling in
      if ltb (length s.buf) (s.pos + bs)
      then (if s.eof then stop s else more (refill s))
      else on_window (find_block window r s.sink.open_copy) r s

  -- The loop on fuel; `none` means that the fuel ran out.
  unfoldable pub loop : ℕ → Scan → Option Scan
  unfolding step
  loop zero s = none
  loop (suc fuel) s = elim (step s) [ more s' ↦ loop fuel s' | stop s' ↦ some s' ]

  -- What follows the loop: the rest of the buffer, the open copy, the pending bytes.
  unfoldable pub flush_tail : Scan → Sink
  flush_tail s =
      if ltb s.lit (length s.buf)
      then flush_literal (slice s.buf s.lit (length s.buf - s.lit)) s.sink
      else s.sink

  unfoldable pub finish : Scan → Sink
  unfolding flush_tail
  finish s = emit_pending (emit_copy (flush_tail s))

  unfoldable pub start : Reader → Scan
  start src = record {
    sink = Sink.empty;
    src = src;
    buf = [];
    pos = 0;
    lit = 0;
    eof = false;
    rolling = none;
  }

  -- Every round takes a byte of the source, or moves the window, or sees the end of the source.
  unfoldable pub produce_delta : Reader → Option Sink
  unfolding loop finish start
  produce_delta src = elim (loop (2 * length src.rest + 2) (start src)) [
    | none ↦ none
    | some s ↦ some (finish s)
  ]
