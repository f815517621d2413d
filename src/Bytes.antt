-- ===== src/Bytes.antt =====
-- Big-endian integers (`to_be_bytes`, `from_be_bytes` of the standard library), as proto.rs and
-- delta.rs use them. A byte string is a list of numbers below 256.
use native.Mathlib.Nat.{pow-suc, div-add-mod, div-div-eq-div-mul, div-eq_of_lt-le}
use mathlib.Core.Path.{ap₂}
use apb.Prelude.{
  ℕ, zero, suc, ◌+◌, ◌*◌, ◌/◌, ◌%◌, ◌^◌, ◌≤◌, ◌<◌, ◌≡◌, refl, ap, ◌∙◌, List, [], ◌∷◌, arith, length,
  All,
}

abbrev pub IsByte : ℕ → Type 0
IsByte b = b < 256

-- The low `k` bytes of `v`, highest first.
unfoldable pub be_bytes : ℕ → ℕ → List ℕ
be_bytes zero v = []
be_bytes (suc k) v = (v / 256 ^ k % 256) ∷ be_bytes k v

from_be_acc : ℕ → List ℕ → ℕ
from_be_acc acc [] = acc
from_be_acc acc (b ∷ bs) = from_be_acc (acc * 256 + b) bs

unfoldable pub from_be : List ℕ → ℕ
unfolding from_be_acc
from_be bs = from_be_acc 0 bs

pub length-be_bytes : (k v : ℕ) → length (be_bytes k v) ≡ k
unfolding be_bytes
length-be_bytes zero v = refl
length-be_bytes (suc k) v = ap suc (length-be_bytes k v)

pub be_bytes-IsByte : (k v : ℕ) → All IsByte (be_bytes k v)
unfolding be_bytes
be_bytes-IsByte zero v = tt
be_bytes-IsByte (suc k) v = (omega arith, be_bytes-IsByte k v)

-- One digit: `v` modulo `m * 256` is the digit above `m` and the rest.
mod_digit : (v m : ℕ) → v % (m * 256) ≡ v / m % 256 * m + v % m
mod_digit v m = omega (
  arith,
  div-add-mod v m,
  ap (λ (t : ℕ). m * t) (div-add-mod (v / m) 256),
  div-add-mod v (m * 256),
  ap (λ (t : ℕ). m * 256 * t) (div-div-eq-div-mul v m 256),
)

from_be_acc-be_bytes : (k acc v : ℕ) → from_be_acc acc (be_bytes k v) ≡ acc * 256 ^ k + v % 256 ^ k
unfolding be_bytes from_be_acc
from_be_acc-be_bytes zero acc v = omega arith
from_be_acc-be_bytes (suc k) acc v =
    from_be_acc-be_bytes k (acc * 256 + v / 256 ^ k % 256) v
    ∙ omega (
      arith,
      pow-suc 256 k,
      ap (λ (t : ℕ). acc * t) (pow-suc 256 k),
      ap (λ (t : ℕ). v % t) (pow-suc 256 k),
      mod_digit v (256 ^ k),
    )

-- Reading back the low `k` bytes of `v` gives `v` modulo 256 ^ k.
pub from_be-be_bytes : (k v : ℕ) → from_be (be_bytes k v) ≡ v % 256 ^ k
unfolding from_be
from_be-be_bytes k v = from_be_acc-be_bytes k 0 v ∙ omega arith

mul_mono : (a b p : ℕ) → a ≤ b → a * p ≤ b * p
mul_mono a b p h = grind arith

from_be_acc-lt :
    (bs : List ℕ) (acc : ℕ)
    → All IsByte bs
    → (acc * 256 ^ length bs ≤ from_be_acc acc bs)
      × (from_be_acc acc bs < (acc + 1) * 256 ^ length bs)
unfolding from_be_acc
from_be_acc-lt [] acc h = omega arith
from_be_acc-lt (b ∷ bs) acc (hb, hbs) =
    let (lo, hi) = from_be_acc-lt bs (acc * 256 + b) hbs in
    let room = mul_mono (b + 1) 256 (256 ^ length bs) (omega arith) in
    let wide = pow-suc 256 (length bs) in
    (
      omega (arith, lo, ap (λ (t : ℕ). acc * t) wide),
      omega (arith, hi, room, ap (λ (t : ℕ). (acc + 1) * t) wide),
    )

-- What `k` bytes stand for is below 256 ^ k.
pub from_be-lt : (bs : List ℕ) → All IsByte bs → from_be bs < 256 ^ length bs
unfolding from_be
from_be-lt bs h = omega (arith, from_be_acc-lt bs 0 h)

be_bytes-from_be_acc :
    (bs : List ℕ) (acc : ℕ) → All IsByte bs → be_bytes (length bs) (from_be_acc acc bs) ≡ bs
unfolding from_be_acc be_bytes
be_bytes-from_be_acc [] acc h = refl
be_bytes-from_be_acc (b ∷ bs) acc (hb, hbs) =
    let (lo, hi) = from_be_acc-lt bs (acc * 256 + b) hbs in
    let digit = div-eq_of_lt-le (256 ^ length bs) lo hi in
    ap₂ ◌∷◌ (rw digit (omega arith)) (be_bytes-from_be_acc bs (acc * 256 + b) hbs)

-- Writing what was read gives the bytes back.
pub be_bytes-from_be : (bs : List ℕ) → All IsByte bs → be_bytes (length bs) (from_be bs) ≡ bs
unfolding from_be
be_bytes-from_be bs h = be_bytes-from_be_acc bs 0 h
