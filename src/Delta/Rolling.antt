-- ===== src/Delta/Rolling.antt =====
-- `Rolling` of src/delta.rs: the weak checksum of a window, computed anew and slid by one byte.
use Prim.Native.Nat.{bit_or}
use native.Mathlib.Nat.{div-add-mod}
use apb.Prelude.{
  ℕ, suc, ◌+◌, ◌-◌, ◌*◌, ◌%◌, ◌^◌, ◌<◌, ◌≡◌, ap, List, [], ◌∷◌, ◌++◌, arith, length, length-append,
}

pub record Rolling : Type 0 where
  pub a : ℕ
  pub b : ℕ
  pub n : ℕ

-- The loop over `data.iter().enumerate()`: `len` is the length of the window, `i` the index.
sums : (len i a b : ℕ) → List ℕ → ℕ × ℕ
sums len i a b [] = (a, b)
sums len i a b (d ∷ ds) =
    sums len (i + 1) ((a + d) % 2 ^ 32) ((b + (len - i) % 2 ^ 32 * d % 2 ^ 32) % 2 ^ 32) ds

unfoldable pub new : List ℕ → Rolling
unfolding sums
new window =
    let (a, b) = sums (length window) 0 0 0 window in
    record { a = a % 2 ^ 16; b = b % 2 ^ 16; n = length window % 2 ^ 32 }

-- `out` leaves the window, `inb` enters it. `x.wrapping_sub(y)` is `x + 2^32 - y` modulo 2^32.
unfoldable pub roll : ℕ → ℕ → Rolling → Rolling
roll out inb r =
    let a = ((r.a + 2 ^ 32 - out) % 2 ^ 32 + inb) % 2 ^ 32 % 2 ^ 16 in
    let b = ((r.b + 2 ^ 32 - r.n * out % 2 ^ 32) % 2 ^ 32 + a) % 2 ^ 32 % 2 ^ 16 in
    record { a = a; b = b; n = r.n }

unfoldable pub digest : Rolling → ℕ
digest r = bit_or (r.b * 2 ^ 16 % 2 ^ 32) r.a

unfoldable pub weak_checksum : List ℕ → ℕ
unfolding new digest
weak_checksum window = digest (new window)

-- The sum of the bytes, and the sum weighted by the distance from the end.
byte_sum : List ℕ → ℕ
byte_sum [] = 0
byte_sum (d ∷ ds) = d + byte_sum ds

weighted_sum : List ℕ → ℕ
weighted_sum [] = 0
weighted_sum (d ∷ ds) = length (d ∷ ds) * d + weighted_sum ds

mul_wrap : (k d : ℕ) → k % 2 ^ 32 * d % 2 ^ 32 ≡ k * d % 2 ^ 32
mul_wrap k d = omega (arith, ap (λ (t : ℕ). t * d) (div-add-mod k (2 ^ 32)))

sums_lem :
    (len i a b : ℕ) (ds : List ℕ)
    → len ≡ i + length ds
    → ((sums len i a b ds).0 % 2 ^ 16 ≡ (a + byte_sum ds) % 2 ^ 16)
      × ((sums len i a b ds).1 % 2 ^ 16 ≡ (b + weighted_sum ds) % 2 ^ 16)
unfolding sums byte_sum weighted_sum
sums_lem len i a b [] h = omega arith
sums_lem len i a b (d ∷ ds) h =
    let left : len - i ≡ suc (length ds) = omega arith in
    omega (
      arith,
      sums_lem len (i + 1) ((a + d) % 2 ^ 32) ((b + (len - i) % 2 ^ 32 * d % 2 ^ 32) % 2 ^ 32) ds
          (omega arith),
      mul_wrap (len - i) d,
      ap (λ (t : ℕ). t * d) left,
    )

length-snoc : (ds : List ℕ) (x : ℕ) → suc (length ds) ≡ length (ds ++ x ∷ [])
length-snoc ds x = omega (arith, length-append ds (x ∷ []))

byte_sum-append : (ds : List ℕ) (x : ℕ) → byte_sum (ds ++ x ∷ []) ≡ byte_sum ds + x
unfolding byte_sum
byte_sum-append [] x = omega arith
byte_sum-append (d ∷ ds) x = omega (arith, byte_sum-append ds x)

weighted_sum-append :
    (ds : List ℕ) (x : ℕ) → weighted_sum (ds ++ x ∷ []) ≡ weighted_sum ds + byte_sum ds + x
unfolding weighted_sum byte_sum
weighted_sum-append [] x = omega arith
weighted_sum-append (d ∷ ds) x =
    omega (arith, weighted_sum-append ds x, ap (λ (t : ℕ). t * d) (length-append ds (x ∷ [])))

-- The checksum of a window in closed form.
sums_of : List ℕ → Rolling
sums_of ds = record {
  a = byte_sum ds % 2 ^ 16;
  b = weighted_sum ds % 2 ^ 16;
  n = length ds % 2 ^ 32;
}

new-sums_of : (ds : List ℕ) → new ds ≡ sums_of ds
unfolding new sums_of
new-sums_of ds =
    let loop = sums_lem (length ds) 0 0 0 ds (omega arith) in
    let p : (sums (length ds) 0 0 0 ds).0 % 2 ^ 16 ≡ byte_sum ds % 2 ^ 16 = omega (arith, loop) in
    let q : (sums (length ds) 0 0 0 ds).1 % 2 ^ 16 ≡ weighted_sum ds % 2 ^ 16 =
      omega (arith, loop) in
    λ i. record { a = p i; b = q i; n = length ds % 2 ^ 32 }

module _ (out : ℕ) (ds : List ℕ) (inb : ℕ) (h : out < 256) where
  roll_a :
      ((byte_sum (out ∷ ds) % 2 ^ 16 + 2 ^ 32 - out) % 2 ^ 32 + inb) % 2 ^ 32 % 2 ^ 16
      ≡ byte_sum (ds ++ inb ∷ []) % 2 ^ 16
  unfolding byte_sum
  roll_a = omega (arith, byte_sum-append ds inb)

  roll_b :
      (a : ℕ)
      → a ≡ byte_sum (ds ++ inb ∷ []) % 2 ^ 16
      → ((weighted_sum (out ∷ ds) % 2 ^ 16 + 2 ^ 32 - length (out ∷ ds) % 2 ^ 32 * out % 2 ^ 32)
              % 2 ^ 32
            + a)
          % 2 ^ 32
          % 2 ^ 16
        ≡ weighted_sum (ds ++ inb ∷ []) % 2 ^ 16
  unfolding weighted_sum
  roll_b a e = omega (
    arith,
    e,
    byte_sum-append ds inb,
    weighted_sum-append ds inb,
    mul_wrap (length (out ∷ ds)) out,
  )

  -- Sliding the checksum of a window of bytes by one byte gives the checksum of the next window.
  pub roll-new : roll out inb (new (out ∷ ds)) ≡ new (ds ++ inb ∷ [])
  unfolding roll sums_of
  roll-new =
      rw (new-sums_of (out ∷ ds), new-sums_of (ds ++ inb ∷ []))
        λ i. record {
          a = roll_a i;
          b = roll_b _ roll_a i;
          n = ap (λ (t : ℕ). t % 2 ^ 32) (length-snoc ds inb) i;
        }
