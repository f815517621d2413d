-- ===== src/Delta/Signatures/Scanned.antt =====
-- What `scan` of src/delta.rs finds in a file: the signatures of its full blocks, in their order.
use native.Mathlib.Nat.{div-eq_of_lt-le}
use apb.Prelude.{
  ℕ, zero, suc, ◌+◌, ◌-◌, ◌*◌, ◌/◌, ◌≤◌, ◌<◌, ◌≡◌, refl, ap, inl, inr, Bool-cases, List, [], ◌∷◌,
  ◌++◌, arith, length, length-append, take, drop, slice, take_all, drop-drop, take_split,
  length-drop, length-take, min, max, ◌==◌, if◌then◌else◌,
}
use apb.Delta.Blocks.{strong_len}
use apb.Delta.Rolling.{weak_checksum}
use apb.Delta.Signatures.{ScanState, push_block, scan_loop, scan}
use apb.Delta.Signatures.Rows.{rows}

module _ (sha256 : List ℕ → List ℕ) (base : List ℕ) (bs : ℕ) (size : 1 ≤ bs) where
  unfoldable pub block : ℕ → List ℕ
  block i = slice base (i * bs) bs

  unfoldable pub weaks : ℕ → List ℕ
  unfolding block
  weaks zero = []
  weaks (suc k) = weaks k ++ weak_checksum (block k) ∷ []

  unfoldable pub strong_row : ℕ → List ℕ
  unfolding block
  strong_row i = take strong_len (sha256 (block i))

  -- The state of the loop after `k` blocks.
  after : ℕ → ScanState
  unfolding weaks strong_row
  after k = record {
    rest = drop (k * bs) base;
    hashed = take (k * bs) base;
    weak = weaks k;
    strong = rows strong_row k;
  }

  -- What the loop ends with, from block `k` on.
  record Scanned (s : ScanState) : Type 0 where
    blocks : ℕ
    full : blocks * bs ≤ length base
    last : length base < suc blocks * bs
    weak : s.weak ≡ weaks blocks
    strong : s.strong ≡ rows strong_row blocks
    hashed : s.hashed ≡ base

  -- A round that reads a block.
  module _ (k : ℕ) where
    block_read : ScanState
    unfolding after block
    block_read = record (after k) {
      rest = drop bs (after k).rest;
      hashed = (after k).hashed ++ block k;
    }

    push_block-after : push_block sha256 (block k) block_read ≡ after (suc k)
    unfolding push_block after block_read weaks strong_row rows block
    push_block-after =
        let next : suc k * bs ≡ k * bs + bs = omega arith in
        rw (
          drop-drop (k * bs) bs (suc k * bs) base next,
          ← take_split (k * bs) bs (suc k * bs) base next,
        )

    length-block : length (block k) ≡ min bs (length base - k * bs)
    unfolding block
    length-block = omega (arith, length-take bs (drop (k * bs) base), length-drop (k * bs) base)

    round : (fuel : ℕ) → ScanState
    unfolding block block_read
    round fuel =
        if length (block k) == 0
        then after k
        else if length (block k) == bs
        then scan_loop sha256 fuel bs (push_block sha256 (block k) block_read)
        else block_read

    scan_loop-after : (fuel : ℕ) → scan_loop sha256 (suc fuel) bs (after k) ≡ round fuel
    unfolding scan_loop after round block block_read
    scan_loop-after fuel = refl

    -- The file ends with the last block that was read, or inside of it.
    module _ (full : k * bs ≤ length base) (short : length base < suc k * bs) where
      after-Scanned : length base ≤ k * bs → Scanned (after k)
      unfolding after
      after-Scanned ends = record {
        blocks = k;
        full = full;
        last = short;
        weak = refl;
        strong = refl;
        hashed = take_all (k * bs) base ends;
      }

      block_read-Scanned : Scanned block_read
      unfolding block_read after block
      block_read-Scanned = record {
        blocks = k;
        full = full;
        last = short;
        weak = refl;
        strong = refl;
        hashed =
            rw⁻¹ (take_split (k * bs) bs (suc k * bs) base (omega arith))
              (take_all (suc k * bs) base (omega (arith, short)));
      }

  scan_loop-Scanned :
      (fuel k : ℕ)
      → k * bs ≤ length base
      → length base < k * bs + fuel
      → Scanned (scan_loop sha256 fuel bs (after k))
  unfolding scan_loop round
  scan_loop-Scanned zero k full enough = absurd (omega arith)
  scan_loop-Scanned (suc fuel) k full enough =
      let n = length-block k in
      rw (scan_loop-after k fuel) (elim (Bool-cases (length (block k) == 0)) [
        | inl none_left ↦
            rw none_left (after-Scanned k full (ground (arith, size)) (ground (arith, size)))
        | inr some_left ↦ elim (Bool-cases (length (block k) == bs)) [
          | inl whole ↦
              rw (some_left, whole, push_block-after k)
                (scan_loop-Scanned fuel (suc k) (ground arith) (ground (arith, size)))
          | inr part ↦ rw (some_left, part) (block_read-Scanned k full (ground arith))
        ]
      ])

  pub length-weaks : (k : ℕ) → length (weaks k) ≡ k
  unfolding weaks
  length-weaks zero = refl
  length-weaks (suc k) =
      omega (arith, length-append (weaks k) (weak_checksum (block k) ∷ []), length-weaks k)

  scanned : ScanState
  scanned =
      scan_loop sha256 (suc (length base)) (max bs 1)
        (record { rest = base; hashed = []; weak = []; strong = [] })

  scanned-Scanned : Scanned scanned
  unfolding scanned after weaks rows
  scanned-Scanned =
      let first : zero * bs ≡ 0 = omega arith in
      let positive : max bs 1 ≡ bs = omega (arith, size) in
      let run : Scanned (scan_loop sha256 (suc (length base)) bs (after 0)) =
        scan_loop-Scanned (suc (length base)) 0 (omega arith) (omega arith) in
      rw positive (rw (first, after) at run)

  -- For a block size of at least 1, `scan` finds the signatures of the full blocks of the file, in
  -- their order, and hashes and measures the whole file, the part behind the last full block too.
  pub scan_lem :
      ((scan sha256 base bs).block_count ≡ length base / bs)
      × ((scan sha256 base bs).weak ≡ weaks (length base / bs))
      × ((scan sha256 base bs).strong ≡ rows strong_row (length base / bs))
      × ((scan sha256 base bs).file_sha ≡ sha256 base)
      × ((scan sha256 base bs).size ≡ length base)
  unfolding scan scanned
  scan_lem =
      let z = scanned-Scanned in
      let count : length base / bs ≡ z.blocks = div-eq_of_lt-le bs z.full (omega (arith, z.last)) in
      rw (count, z.weak) (length-weaks z.blocks, refl, z.strong, ap sha256 z.hashed, refl)
