-- ===== src/Delta/Signatures/Index.antt =====
-- `SigIndex::new` of src/delta.rs on what `SigSet::encode` writes: the index of the blocks of a file.
use mathlib.Core.Path.{subst}
use native.Mathlib.Nat.{mod-eq_of_lt}
use apb.Prelude.{
  ℕ, zero, suc, ◌+◌, ◌*◌, ◌%◌, ◌^◌, ◌≤◌, ◌<◌, ◌≡◌, refl, sym, ap, ◌∙◌, inl, inr, some, Bool-cases,
  List, [], ◌∷◌, ◌++◌, append-nil, append_assoc, arith, length, length-append, take, drop, slice,
  slice-append_left, drop-append, take-append_of_eq, take_all, drop-drop, length-take, ◌==◌, All,
}
use apb.Bytes.{be_bytes, from_be, length-be_bytes}
use apb.Delta.Blocks.{strong_len, sig_len}
use apb.Delta.Rolling.{weak_checksum}
use apb.Delta.Signatures.{WeakMap, lookup, push, encode_from, index_loop}
use apb.Delta.Signatures.Rows.{rows, length-rows, drop-rows}
use apb.Delta.Signatures.Scanned.{block, weaks, strong_row, length-weaks}

encode_from-snoc :
    (i : ℕ) (ws : List ℕ) (w : ℕ) (strong : List ℕ)
    → encode_from i (ws ++ w ∷ []) strong
      ≡ encode_from i ws strong
        ++ (be_bytes 4 w ++ slice strong ((i + length ws) * strong_len) strong_len)
unfolding encode_from
encode_from-snoc i [] w strong = let e : i + 0 ≡ i = omega arith in rw (e, append-nil) refl
encode_from-snoc i (v ∷ ws) w strong =
    let e : i + suc (length ws) ≡ i + 1 + length ws = omega arith in
    rw (e, encode_from-snoc (i + 1) ws w strong) (simp (append_assoc))

encode_from-append :
    (i : ℕ) (ws strong more : List ℕ)
    → (i + length ws) * strong_len ≤ length strong
    → encode_from i ws (strong ++ more) ≡ encode_from i ws strong
unfolding encode_from
encode_from-append i [] strong more h = refl
encode_from-append i (w ∷ ws) strong more h =
    rw
      (
        slice-append_left strong more (i * strong_len) strong_len (omega (arith, h)),
        encode_from-append (i + 1) ws strong more (omega (arith, h)),
      )
      refl

index_loop-suc :
    (n i : ℕ) (blob : List ℕ) (by_weak : WeakMap) (strong : List ℕ)
    → index_loop (suc n) i blob by_weak strong
      ≡ index_loop n
          (i + 1)
          blob
          (push (from_be (slice blob (i * sig_len) 4)) (i % 2 ^ 32) by_weak)
          (strong ++ slice blob (i * sig_len + 4) strong_len)
unfolding index_loop
index_loop-suc n i blob by_weak strong = refl

-- Every candidate is one of the first `k` blocks.
abbrev pub Below : ℕ → WeakMap → Type 0
Below k m = All (λ entry. All (λ i. i < k) entry.1) m

module _ (k : ℕ) where
  All-snoc : (i : ℕ) (is : List ℕ) → All (λ j. j < k) is → i < k → All (λ j. j < k) (is ++ i ∷ [])
  All-snoc i [] h lt = (lt, tt)
  All-snoc i (j ∷ js) (hj, h) lt = (hj, All-snoc i js h lt)

  Below-push : (w i : ℕ) (m : WeakMap) → Below k m → i < k → Below k (push w i m)
  unfolding push
  Below-push w i [] h lt = ((lt, tt), tt)
  Below-push w i ((v, is) ∷ m) (his, h) lt = elim (Bool-cases (v == w)) [
    | inl same ↦ rw same (All-snoc i is his lt, h)
    | inr other ↦ rw other (his, Below-push w i m h lt)
  ]

  pub Below-lookup :
      (w : ℕ) (m : WeakMap) (is : List ℕ) → Below k m → lookup w m ≡ some is → All (λ i. i < k) is
  unfolding lookup
  Below-lookup w [] is h e = cc
  Below-lookup w ((v, js) ∷ m) is (hjs, h) e = elim (Bool-cases (v == w)) [
    | inl same ↦
        let found : some js ≡ some is = rw (same, lookup) at e in
        let equal : js ≡ is = cc in subst (λ l. All (λ i. i < k) l) equal hjs
    | inr other ↦ Below-lookup w m is h (rw (other, lookup) at e)
  ]

module _ (sha256 : List ℕ → List ℕ) (wide : (bytes : List ℕ) → strong_len ≤ length (sha256 bytes))
    (base : List ℕ) (bs : ℕ) (size : 1 ≤ bs) where
  unfoldable pub entry : ℕ → List ℕ
  entry j =
      be_bytes 4 (weak_checksum (block sha256 base bs size j)) ++ strong_row sha256 base bs size j

  pub length-strong_row : (j : ℕ) → length (strong_row sha256 base bs size j) ≡ strong_len
  unfolding strong_row
  length-strong_row j = omega (
    arith,
    length-take strong_len (sha256 (block sha256 base bs size j)),
    wide (block sha256 base bs size j),
  )

  pub length-entry : (j : ℕ) → length (entry j) ≡ sig_len
  unfolding entry
  length-entry j = omega (
    arith,
    length-strong_row j,
    length-be_bytes 4 (weak_checksum (block sha256 base bs size j)),
    length-append (be_bytes 4 (weak_checksum (block sha256 base bs size j)))
        (strong_row sha256 base bs size j),
  )

  last_row :
      (k : ℕ)
      → slice
          (rows (strong_row sha256 base bs size) k ++ strong_row sha256 base bs size k)
          ((0 + length (weaks sha256 base bs size k)) * strong_len)
          strong_len
        ≡ strong_row sha256 base bs size k
  last_row k =
      let behind : (0 + length (weaks sha256 base bs size k)) * strong_len
          ≡ length (rows (strong_row sha256 base bs size) k) =
        omega (
          arith,
          length-weaks sha256 base bs size k,
          length-rows (strong_row sha256 base bs size) strong_len length-strong_row k,
        ) in
      rw
        (
          behind,
          drop-append (rows (strong_row sha256 base bs size) k) (strong_row sha256 base bs size k),
        )
        (take_all strong_len (strong_row sha256 base bs size k)
          (omega (arith, length-strong_row k)))

  pub encode_from-rows :
      (k : ℕ)
      → encode_from 0 (weaks sha256 base bs size k) (rows (strong_row sha256 base bs size) k)
        ≡ rows entry k
  unfolding weaks rows encode_from entry
  encode_from-rows zero = refl
  encode_from-rows (suc k) =
      let row = strong_row sha256 base bs size in
      let inside : (0 + length (weaks sha256 base bs size k)) * strong_len ≤ length (rows row k) =
        omega (
          arith,
          length-weaks sha256 base bs size k,
          length-rows row strong_len length-strong_row k,
        ) in
      rw
        (
          encode_from-snoc 0 (weaks sha256 base bs size k)
              (weak_checksum (block sha256 base bs size k)) (rows row k ++ row k),
          encode_from-append 0 (weaks sha256 base bs size k) (rows row k) (row k) inside,
          encode_from-rows k,
          last_row k,
        )
        refl

  -- The hash in entry `i` of `k`.
  slice-rows :
      (i k : ℕ)
      → i < k
      → slice (rows entry k) (i * sig_len + 4) strong_len ≡ strong_row sha256 base bs size i
  unfolding entry
  slice-rows i k lt =
      let (rest, split) = drop-rows entry sig_len length-entry i k lt in
      let weak = be_bytes 4 (weak_checksum (block sha256 base bs size i)) in
      let row = strong_row sha256 base bs size i in
      let four : 4 ≡ length weak =
        sym (length-be_bytes 4 (weak_checksum (block sha256 base bs size i))) in
      rw
        (
          ← drop-drop (i * sig_len) 4 (i * sig_len + 4) (rows entry k) refl,
          split,
          append_assoc weak row rest,
        )
        (ap (λ n. take strong_len (drop n (weak ++ (row ++ rest)))) four
          ∙ ap (take strong_len) (drop-append weak (row ++ rest))
          ∙ take-append_of_eq strong_len row rest (length-strong_row i))

  -- The loop has read the first `i` of `k` entries.
  pub index_loop_lem :
      (n i k : ℕ) (by_weak : WeakMap)
      → i + n ≡ k
      → k ≤ 2 ^ 32
      → Below k by_weak
      → Below k (index_loop n i (rows entry k) by_weak (rows (strong_row sha256 base bs size) i)).0
        × ((index_loop n i (rows entry k) by_weak (rows (strong_row sha256 base bs size) i)).1
            ≡ rows (strong_row sha256 base bs size) k)
  unfolding index_loop rows
  index_loop_lem zero i k by_weak e small h =
      let same : i ≡ k = omega arith in (h, ap (rows (strong_row sha256 base bs size)) same)
  index_loop_lem (suc n) i k by_weak e small h =
      let lt : i < k = omega arith in
      let kept : i % 2 ^ 32 ≡ i = mod-eq_of_lt (omega arith) in
      let below =
        Below-push k (from_be (slice (rows entry k) (i * sig_len) 4)) (i % 2 ^ 32) by_weak h
          (omega arith) in
      let next : suc i ≡ i + 1 = omega arith in
      let rest =
        index_loop_lem n (suc i) k
          (push (from_be (slice (rows entry k) (i * sig_len) 4)) (i % 2 ^ 32) by_weak) (omega arith)
          small below in
      rw
        (
          index_loop-suc n i (rows entry k) by_weak (rows (strong_row sha256 base bs size) i),
          slice-rows i k lt,
          ← next,
        )
        rest
