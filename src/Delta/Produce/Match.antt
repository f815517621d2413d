-- ===== src/Delta/Produce/Match.antt =====
-- A block that `produce_delta` of src/delta.rs finds for a window holds the bytes of the window,
-- unless the truncated hashes of two different blocks collide.
use apb.Prelude.{
  ℕ, ◌+◌, ◌*◌, ◌/◌, ◌^◌, ◌≤◌, ◌<◌, ◌≡◌, refl, sym, ◌∙◌, Option, none, some, Option-cases, ◌⊎◌, true,
  inl, inr, List, [], ◌∷◌, arith, length, take, slice, All,
}
use apb.Delta.Blocks.{strong_len}
use apb.Delta.Rolling
use apb.Delta.Rolling.{Rolling}
use apb.Delta.Signatures.{SigIndex, lookup, strong_of}
use apb.Delta.Produce.{bytes_eq, continue_run, first_match, or_else, find_block}

-- The index of the signatures of the full blocks of `base`.
pub record IsIndex (sha256 : List ℕ → List ℕ) (base : List ℕ) (idx : SigIndex) : Type 0 where
  pub size : 1 ≤ idx.block_size
  pub count : idx.block_count ≤ 2 ^ 32
  pub cands :
      (w : ℕ) (blocks : List ℕ)
      → lookup w idx.by_weak ≡ some blocks
      → All (λ i. i < idx.block_count) blocks
  pub strong :
      (i : ℕ)
      → i < idx.block_count
      → strong_of idx i ≡ take strong_len (sha256 (slice base (i * idx.block_size) idx.block_size))
  pub inside : (i : ℕ) → i < idx.block_count → i * idx.block_size + idx.block_size ≤ length base

-- No other bytes of the size of a block have the truncated hash of a block of `base`.
abbrev pub NoCollision : (List ℕ → List ℕ) → List ℕ → SigIndex → Type 0
NoCollision sha256 base idx =
    (w : List ℕ) (i : ℕ)
    → length w ≡ idx.block_size
    → i < idx.block_count
    → take strong_len (sha256 w)
      ≡ take strong_len (sha256 (slice base (i * idx.block_size) idx.block_size))
    → w ≡ slice base (i * idx.block_size) idx.block_size

pub bytes_eq-eq : (xs ys : List ℕ) → bytes_eq xs ys ≡ true → xs ≡ ys
bytes_eq-eq [] [] h = refl
bytes_eq-eq [] (y ∷ ys) h = cc
bytes_eq-eq (x ∷ xs) [] h = cc
bytes_eq-eq (x ∷ xs) (y ∷ ys) h = ground (arith, bytes_eq-eq xs ys)

or_else-eq-some : (a b : Option ℕ) {i : ℕ} → or_else a b ≡ some i → (a ≡ some i) ⊎ (b ≡ some i)
unfolding or_else
or_else-eq-some none b e = inr e
or_else-eq-some (some j) b e = inl e

module _ (sha256 : List ℕ → List ℕ) (base : List ℕ) (idx : SigIndex)
    (ix : IsIndex sha256 base idx) where
  -- What a candidate with the given strong hash is.
  Candidate : List ℕ → ℕ → Type 0
  Candidate strong i = (i < idx.block_count) × (strong_of idx i ≡ strong)

  first_match-Candidate :
      (strong cands : List ℕ) (i : ℕ)
      → All (λ j. j < idx.block_count) cands
      → first_match idx strong cands ≡ some i
      → Candidate strong i
  unfolding first_match Candidate
  first_match-Candidate strong [] i h e = cc
  first_match-Candidate strong (j ∷ js) i (hj, hjs) e =
      ground (arith, bytes_eq-eq (strong_of idx j) strong, first_match-Candidate strong js i hjs)

  continue_run-Candidate :
      (strong cands : List ℕ) (c : Option (ℕ × ℕ)) (i : ℕ)
      → continue_run idx strong cands c ≡ some i
      → Candidate strong i
  unfolding continue_run Candidate
  continue_run-Candidate strong cands none i e = cc
  continue_run-Candidate strong cands (some (start, len)) i e =
      let want = (start + len) / idx.block_size in
      ground (arith, ix.count, bytes_eq-eq (strong_of idx want) strong)

  find_block-Candidate :
      (window : List ℕ) (r : Rolling) (c : Option (ℕ × ℕ)) (i : ℕ)
      → find_block sha256 idx window r c ≡ some i
      → Candidate (take strong_len (sha256 window)) i
  unfolding find_block
  find_block-Candidate window r c i e =
      elim (Option-cases (lookup (Rolling.digest r) idx.by_weak)) [
        | inl missing ↦ cc (rw (missing, find_block) at e)
        | inr (cands, found) ↦ elim (or_else-eq-some _ _ (rw (found, find_block) at e)) [
          | inl run ↦ continue_run-Candidate _ cands c i run
          | inr first ↦ first_match-Candidate _ cands i (ix.cands _ cands found) first
        ]
      ]

  -- Under `NoCollision`, a window of the size of a block for which `find_block` returns `i` is
  -- block `i` of the base, and that block lies inside the base.
  pub find_block_sound :
      NoCollision sha256 base idx
      → (window : List ℕ) (r : Rolling) (c : Option (ℕ × ℕ)) (i : ℕ)
      → length window ≡ idx.block_size
      → find_block sha256 idx window r c ≡ some i
      → (window ≡ slice base (i * idx.block_size) idx.block_size)
        × (i * idx.block_size + idx.block_size ≤ length base)
  unfolding Candidate
  find_block_sound honest window r c i wide e =
      let (small, same) = find_block-Candidate window r c i e in
      (honest window i wide small (sym same ∙ ix.strong i small), ix.inside i small)
