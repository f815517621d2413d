-- ===== src/Agent/Workers/Slots.antt =====
-- The lists of the jobs and of the slots.
use apb.Prelude.{
  ℕ, zero, suc, ◌≡◌, ◌≢◌, refl, ap, ◌⊎◌, inl, inr, Bool-cases, some, false, List, [], ◌∷◌, ◌++◌,
  ◌==◌, length, get_elem?, arith, if◌then◌else◌,
}
use apb.Ctrl.Plans.{set_at}
use apb.Agent.Workers.{find_slot, remove_slot}

module _ {A : Type 0} where
  pub get_elem?-set_at_either :
      (xs : List A) (i : ℕ) (x : A) (k : ℕ) (y : A)
      → get_elem? (set_at xs i x) k ≡ some y
      → ((k ≡ i) × (y ≡ x)) ⊎ (get_elem? xs k ≡ some y)
  unfolding set_at
  get_elem?-set_at_either [] i x k y h = cc
  get_elem?-set_at_either (z ∷ xs) zero x zero y h = inl (refl, cc)
  get_elem?-set_at_either (z ∷ xs) zero x (suc k) y h = inr h
  get_elem?-set_at_either (z ∷ xs) (suc i) x zero y h = inr h
  get_elem?-set_at_either (z ∷ xs) (suc i) x (suc k) y h =
      elim (get_elem?-set_at_either xs i x k y h) [ inl (e, q) ↦ inl (ap suc e, q) | inr e ↦ inr e ]

  pub set_at-new :
      (xs : List A) (i : ℕ) (x y : A)
      → get_elem? xs i ≡ some y
      → get_elem? (set_at xs i x) i ≡ some x
  unfolding set_at
  set_at-new [] i x y h = cc
  set_at-new (z ∷ xs) zero x y h = refl
  set_at-new (z ∷ xs) (suc i) x y h = set_at-new xs i x y h

  pub set_at-other :
      (xs : List A) (i : ℕ) (x : A) (k : ℕ) (y : A)
      → get_elem? xs k ≡ some y
      → (k ≡ i) ⊎ (get_elem? (set_at xs i x) k ≡ some y)
  unfolding set_at
  set_at-other [] i x k y h = cc
  set_at-other (z ∷ xs) zero x zero y h = inl refl
  set_at-other (z ∷ xs) zero x (suc k) y h = inr h
  set_at-other (z ∷ xs) (suc i) x zero y h = inr h
  set_at-other (z ∷ xs) (suc i) x (suc k) y h = elim (set_at-other xs i x k y h) [
    | inl e ↦ inl (ap suc e)
    | inr e ↦ inr e
  ]

  pub get_elem?-append :
      (xs ys : List A) (i : ℕ) (y : A) → get_elem? xs i ≡ some y → get_elem? (xs ++ ys) i ≡ some y
  get_elem?-append [] ys i y h = cc
  get_elem?-append (x ∷ xs) ys zero y h = h
  get_elem?-append (x ∷ xs) ys (suc i) y h = get_elem?-append xs ys i y h

  pub get_elem?-length : (xs : List A) (y : A) → get_elem? (xs ++ y ∷ []) (length xs) ≡ some y
  get_elem?-length [] y = refl
  get_elem?-length (x ∷ xs) y = get_elem?-length xs y

pub find_slot-remove :
    (route r : ℕ) (slots : List (ℕ × ℕ)) (j : ℕ)
    → find_slot r (remove_slot route slots) ≡ some j
    → (find_slot r slots ≡ some j) × (r ≢ route)
unfolding find_slot remove_slot
find_slot-remove route r [] j h = cc
find_slot-remove route r ((k, i) ∷ slots) j h = elim (Bool-cases (k == route)) [
  | inl e ↦
      let (there, other) = find_slot-remove route r slots j (rw e at h) in
      let fresh : (k == r) ≡ false = ground (arith, other) in (rw fresh there, other)
  | inr e ↦
      let here : (if k == r then some i else find_slot r (remove_slot route slots)) ≡ some j =
        rw e at h in
      elim (Bool-cases (k == r)) [
        | inl q ↦ let other : r ≢ route = ground arith in (rw q (rw q at here), other)
        | inr q ↦
            let later : find_slot r (remove_slot route slots) ≡ some j = rw q at here in
            let (there, other) = find_slot-remove route r slots j later in (rw q there, other)
      ]
]
