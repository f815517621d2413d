-- ===== src/Delta/Reader.antt =====
-- `std::io::Read` as src/delta.rs uses it: a read into a buffer of `room` bytes returns some bytes of
-- what is left, and none only at the end of the input or without room. How many come at a time is
-- not the program's choice: `sizes` is the schedule of the environment.
use apb.Prelude.{
  ℕ, ◌≤◌, ◌≡◌, List, [], ◌∷◌, ◌++◌, arith, length, take, drop, take-append-drop, length-take, min,
  max,
}

pub record Reader : Type 0 where
  pub rest : List ℕ
  pub sizes : List ℕ

-- The bytes that one read may return at most, and the schedule after it.
granted : ℕ → List ℕ → ℕ
granted room [] = room
granted room (s ∷ ss) = min room (max s 1)

later : List ℕ → List ℕ
later [] = []
later (s ∷ ss) = ss

unfoldable pub read : ℕ → Reader → List ℕ × Reader
unfolding granted later
read room r =
    let n = granted room r.sizes in
    (take n r.rest, record { rest = drop n r.rest; sizes = later r.sizes })

-- What is read and what is left make up what was left before.
pub read-append : (room : ℕ) (r : Reader) → (read room r).0 ++ (read room r).1.rest ≡ r.rest
unfolding read
read-append room r = take-append-drop (granted room r.sizes) r.rest

granted_bounds :
    (room : ℕ) (sizes : List ℕ) → (granted room sizes ≤ room) × (1 ≤ room → 1 ≤ granted room sizes)
unfolding granted
granted_bounds room [] = (omega arith, λ h. h)
granted_bounds room (s ∷ ss) = (omega arith, λ h. omega arith)

-- A read keeps to its room, and with room it returns nothing only at the end.
pub read_bounds :
    (room : ℕ) (r : Reader)
    → (length (read room r).0 ≤ room) × (1 ≤ room → length (read room r).0 ≡ 0 → length r.rest ≡ 0)
unfolding read
read_bounds room r =
    let n = granted room r.sizes in
    let (hi, lo) = granted_bounds room r.sizes in
    (omega (arith, length-take n r.rest), λ h e. omega (arith, length-take n r.rest, lo h))
