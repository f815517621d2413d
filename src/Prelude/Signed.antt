-- ===== src/Prelude/Signed.antt =====
-- Signed integers over the native numbers, and the two's complement of an `i32`.
use Prim.Native.Nat.{ℕ, ◌-◌, ◌%◌, ◌^◌, ◌<◌}
use mathlib.Core.Path.{◌≡◌}
use native.Mathlib.Omega.{arith}
use apb.Prelude.Tests.{ltb, if◌then◌else◌}

-- `negsuc n` is -(n + 1).
pub data ℤ : Type 0 where
  pos : ℕ → ℤ
  negsuc : ℕ → ℤ

-- The range of an `i32`.
abbrev pub IsI32 : ℤ → Type 0
IsI32 (pos n) = n < 2 ^ 31
IsI32 (negsuc n) = n < 2 ^ 31

-- The bit pattern of an `i32`, and the `i32` of a bit pattern.
unfoldable pub i32_bits : ℤ → ℕ
i32_bits (pos n) = n % 2 ^ 32
i32_bits (negsuc n) = 2 ^ 32 - 1 - n % 2 ^ 32

unfoldable pub i32_of_bits : ℕ → ℤ
i32_of_bits w = if ltb w (2 ^ 31) then pos w else negsuc (2 ^ 32 - w - 1)

pub i32_bits-lt : (v : ℤ) → i32_bits v < 2 ^ 32
unfolding i32_bits
i32_bits-lt (pos n) = omega arith
i32_bits-lt (negsuc n) = omega arith

pub i32_of_bits-i32_bits : (v : ℤ) → IsI32 v → i32_of_bits (i32_bits v) ≡ v
unfolding i32_bits i32_of_bits
i32_of_bits-i32_bits (pos n) h = ground arith
i32_of_bits-i32_bits (negsuc n) h = ground arith

pub i32_of_bits-IsI32 : (w : ℕ) → w < 2 ^ 32 → IsI32 (i32_of_bits w)
unfolding i32_of_bits
i32_of_bits-IsI32 w h = ground arith
