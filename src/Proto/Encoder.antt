-- ===== src/Proto/Encoder.antt =====
-- `Encoder` of src/proto.rs: each method appends to the buffer and returns the encoder.
use apb.Prelude.{ℕ, ◌%◌, ◌^◌, Bool, List, [], ◌∷◌, ◌++◌, length, if◌then◌else◌}
use apb.Prelude.Signed.{ℤ, i32_bits}
use apb.Bytes.{be_bytes}
use apb.Proto.Types.{Text, Blob}

pub record Encoder : Type 0 where
  pub buf : List ℕ

-- `e.f(..)`, so that a chain of calls reads in the order of the source.
infixl 6 ◌▷◌
abbrev pub ◌▷◌ : Encoder → (Encoder → Encoder) → Encoder
e ▷ f = f e

unfoldable pub new : Encoder
new = record { buf = [] }

extend_from_slice : List ℕ → Encoder → Encoder
extend_from_slice v e = record { buf = e.buf ++ v }

unfoldable pub u8 : ℕ → Encoder → Encoder
unfolding extend_from_slice
u8 v e = extend_from_slice (v ∷ []) e

unfoldable pub u16 : ℕ → Encoder → Encoder
unfolding extend_from_slice
u16 v e = extend_from_slice (be_bytes 2 v) e

unfoldable pub u32 : ℕ → Encoder → Encoder
unfolding extend_from_slice
u32 v e = extend_from_slice (be_bytes 4 v) e

unfoldable pub u64 : ℕ → Encoder → Encoder
unfolding extend_from_slice
u64 v e = extend_from_slice (be_bytes 8 v) e

unfoldable pub i32 : ℤ → Encoder → Encoder
unfolding extend_from_slice
i32 v e = extend_from_slice (be_bytes 4 (i32_bits v)) e

unfoldable pub bool : Bool → Encoder → Encoder
unfolding u8
bool v e = u8 (if v then 1 else 0) e

-- The length is cut to 32 bits by `v.len() as u32`.
unfoldable pub bytes : Blob → Encoder → Encoder
unfolding u32
bytes v e = e ▷ u32 (length v % 2 ^ 32) ▷ extend_from_slice v

unfoldable pub str : Text → Encoder → Encoder
unfolding bytes
str v e = bytes v e

unfoldable pub fixed32 : Blob → Encoder → Encoder
unfolding extend_from_slice
fixed32 v e = extend_from_slice v e

unfoldable pub finish : Encoder → List ℕ
finish e = e.buf
