-- ===== src/Delta/Signatures/Rows.antt =====
-- Rows of one size behind each other, as `encode` of src/delta.rs writes the signatures.
use native.Mathlib.Nat.{mul-le-mul_right}
use apb.Prelude.{
  ℕ, zero, suc, ◌*◌, ◌≤◌, ◌<◌, ◌≡◌, refl, ap, ◌∙◌, inl, inr, List, [], ◌∷◌, ◌++◌, append-nil,
  append_assoc, arith, Bool-cases, ltb, ltb→lt, length, length-append, drop, drop-append,
}

-- Row `j` of the first `k` rows.
unfoldable pub rows : (ℕ → List ℕ) → ℕ → List ℕ
rows f zero = []
rows f (suc k) = rows f k ++ f k

module _ (f : ℕ → List ℕ) (m : ℕ) (wide : (j : ℕ) → length (f j) ≡ m) where
  pub length-rows : (k : ℕ) → length (rows f k) ≡ k * m
  unfolding rows
  length-rows zero = omega arith
  length-rows (suc k) = omega (arith, length-append (rows f k) (f k), length-rows k, wide k)

  drop-append_left : (n : ℕ) (xs ys : List ℕ) → n ≤ length xs → drop n (xs ++ ys) ≡ drop n xs ++ ys
  drop-append_left zero xs ys h = refl
  drop-append_left (suc n) [] ys h = absurd (omega arith)
  drop-append_left (suc n) (x ∷ xs) ys h = drop-append_left n xs ys (omega arith)

  -- From row `j` on stand its bytes and the later rows.
  pub drop-rows : (j k : ℕ) → j < k → (rest : List ℕ) × (drop (j * m) (rows f k) ≡ f j ++ rest)
  unfolding rows
  drop-rows j zero h = absurd (omega arith)
  drop-rows j (suc k) h = elim (Bool-cases (ltb j k)) [
    | inl e ↦
        let before : j < k = ltb→lt j k e in
        let (rest, split) = drop-rows j k before in
        let inside : j * m ≤ length (rows f k) =
          omega (arith, length-rows k, mul-le-mul_right m before) in
        (
          rest ++ f k,
          drop-append_left (j * m) (rows f k) (f k) inside
              ∙ ap (λ l. l ++ f k) split
              ∙ append_assoc (f j) rest (f k),
        )
    | inr e ↦
        let last : j ≡ k = ground arith in
        ([], rw (last, ← length-rows k, append-nil) (drop-append (rows f k) (f k)))
  ]
