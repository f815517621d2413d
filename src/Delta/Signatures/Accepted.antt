-- ===== src/Delta/Signatures/Accepted.antt =====
-- The signature list that `SigSet::encode` of src/delta.rs writes is one that `SigIndex::new` accepts,
-- and the index that it builds is that of the full blocks of the file.
use native.Mathlib.Nat.{mul-le-mul_right, div-mul-le_self}
use apb.Prelude.{
  ℕ, ◌*◌, ◌/◌, ◌^◌, ◌≤◌, ◌<◌, ◌≡◌, refl, ap, ◌∙◌, List, [], arith, length, take, slice,
  take-append_of_eq, All, Result, ok, err,
}
use apb.Delta.Blocks.{strong_len, sig_len}
use apb.Delta.Signatures.{SigIndex, IndexError, encode, index_loop, new_index, strong_of, scan}
use apb.Delta.Signatures.Rows.{rows, length-rows, drop-rows}
use apb.Delta.Signatures.Scanned.{block, strong_row, scan_lem}
use apb.Delta.Signatures.Index.{
  Below-lookup, entry, length-strong_row, length-entry, encode_from-rows, index_loop_lem,
}
use apb.Delta.Produce.Match.{IsIndex}

-- The blob was accepted, and the index is that of the blocks of `base`.
abbrev pub Accepted : (List ℕ → List ℕ) → List ℕ → ℕ → Result IndexError SigIndex → Type 0
Accepted sha256 base bs (ok idx) = (idx.block_size ≡ bs) × IsIndex sha256 base idx
Accepted sha256 base bs (err e) = ⊥

-- A list of the right length for a block size and a count that are possible.
new_index_ok :
    (bs count : ℕ) (blob : List ℕ)
    → 1 ≤ bs
    → count * sig_len < 2 ^ 64
    → length blob ≡ count * sig_len
    → new_index bs count blob
      ≡ ok (record {
        block_size = bs;
        block_count = count;
        strong = (index_loop count 0 blob [] []).1;
        by_weak = (index_loop count 0 blob [] []).0;
      })
unfolding new_index
new_index_ok bs count blob size possible exact = ground arith

module _ (sha256 : List ℕ → List ℕ) (wide : (bytes : List ℕ) → strong_len ≤ length (sha256 bytes))
    (base : List ℕ) (bs : ℕ) (size : 1 ≤ bs) (small : length base / bs ≤ 2 ^ 32) where
  count : ℕ
  count = length base / bs

  count_fits : count * bs ≤ length base
  unfolding count
  count_fits = div-mul-le_self (length base) bs

  count_small : count ≤ 2 ^ 32
  unfolding count
  count_small = small

  blob : List ℕ
  unfolding count
  blob = rows (entry sha256 wide base bs size) count

  built : SigIndex
  unfolding count blob
  built = record {
    block_size = bs;
    block_count = count;
    strong = rows (strong_row sha256 base bs size) count;
    by_weak = (index_loop count 0 blob [] []).0;
  }

  encode-scan : encode (scan sha256 base bs) ≡ blob
  unfolding encode blob count
  encode-scan =
      let (counted, weak, strong, hash, sized) = scan_lem sha256 base bs size in
      rw (weak, strong) (encode_from-rows sha256 wide base bs size (length base / bs))

  indexed :
      (All (λ e. All (λ i. i < count) e.1) built.by_weak)
      × ((index_loop count 0 blob [] []).1 ≡ built.strong)
  unfolding built blob count rows
  indexed = index_loop_lem sha256 wide base bs size count 0 count [] (omega arith) small tt

  strong_of-built :
      (i : ℕ) → i < count → strong_of built i ≡ take strong_len (sha256 (slice base (i * bs) bs))
  unfolding strong_of built strong_row block
  strong_of-built i lt =
      let row = strong_row sha256 base bs size in
      let (rest, split) =
        drop-rows row strong_len (length-strong_row sha256 wide base bs size) i count lt in
      rw split
        (take-append_of_eq strong_len (row i) rest (length-strong_row sha256 wide base bs size i))

  built-IsIndex : IsIndex sha256 base built
  unfolding built
  built-IsIndex = record {
    size = size;
    count = count_small;
    cands = λ w blocks e. Below-lookup count w built.by_weak blocks indexed.0 e;
    strong = strong_of-built;
    inside = λ i lt. omega (arith, count_fits, mul-le-mul_right bs lt);
  }

  length-blob : length blob ≡ count * sig_len
  unfolding blob
  length-blob =
      length-rows (entry sha256 wide base bs size) sig_len (length-entry sha256 wide base bs size)
        count

  new_index-blob : new_index bs count blob ≡ ok built
  unfolding built
  new_index-blob =
      new_index_ok bs count blob size (omega (arith, count_small)) length-blob
      ∙ ap
          (λ l. ok (record {
            block_size = bs;
            block_count = count;
            strong = l;
            by_weak = (index_loop count 0 blob [] []).0;
          }))
          indexed.1

  -- For a block size of at least 1, a hash of at least 16 bytes and at most 2^32 blocks, `SigIndex::new`
  -- accepts what `SigSet::encode` writes for the signatures of a file, and the index has their block
  -- size and is that of the full blocks of the file.
  pub new_index-encode :
      Accepted sha256 base bs
        (new_index bs (scan sha256 base bs).block_count (encode (scan sha256 base bs)))
  unfolding count
  new_index-encode =
      let (counted, weak, strong, hash, sized) = scan_lem sha256 base bs size in
      let accepted : new_index bs (scan sha256 base bs).block_count (encode (scan sha256 base bs))
          ≡ ok built =
        rw (encode-scan, counted) new_index-blob in
      rw accepted (unfold built in refl, built-IsIndex)
