-- ===== src/Proto/Decoder.antt =====
-- `Decoder` of src/proto.rs: a cursor over a buffer. A method returns its value and the decoder
-- after it, or the error that `?` passes on; `?` is the bind of this monad.
pub mod Reads
pub mod Ensures
pub mod Extends
use apb.Prelude.{
  ℕ, ◌+◌, ◌-◌, Bool, ◌∷◌, [], List, length, get_or, slice, leb, ltb, ◌==◌, if◌then◌else◌, Result,
  ok, err,
}
use apb.Prelude.Signed.{ℤ, i32_of_bits}
use apb.Bytes.{from_be}
use apb.Proto.Types.{
  Text, Blob, ProtoError, truncated, blob_too_large, string_too_large, invalid_utf8, trailing,
}
use apb.Proto.Tags.{max_str, max_blob}
use apb.Proto.Utf8.{is_utf8}

pub record Decoder : Type 0 where
  pub buf : List ℕ
  pub pos : ℕ

abbrev pub M : Type 0 → Type 0
M A = Decoder → Result ProtoError (A × Decoder)

module _ {A B : Type 0} where
  abbrev pub continue :
      Result ProtoError (A × Decoder) → (A → M B) → Result ProtoError (B × Decoder)
  continue (ok (a, d)) f = f a d
  continue (err e) f = err e

  infixl 5 ◌>>=◌ ◌>>◌
  unfoldable pub ◌>>=◌ : M A → (A → M B) → M B
  ◌>>=◌ m f d = continue (m d) f

  abbrev pub ◌>>◌ : M A → M B → M B
  m >> n = m >>= λ _. n

module _ {A : Type 0} where
  unfoldable pub pure : A → M A
  pure a d = ok (a, d)

  unfoldable pub fail : ProtoError → M A
  fail e d = err e

unfoldable pub new : List ℕ → Decoder
new buf = record { buf = buf; pos = 0 }

unfoldable pub need : ℕ → M (Unit {0})
need n d =
    if ltb (length d.buf) (d.pos + n)
    then err (truncated d.pos n (length d.buf - d.pos))
    else ok (tt, d)

-- What the methods read at the cursor once `need` has passed, with the cursor behind it.
unfoldable pub byte_here : M ℕ
byte_here d = ok (get_or d.buf d.pos 0, record d { pos = d.pos + 1 })

unfoldable pub slice_here : ℕ → M (List ℕ)
slice_here n d = ok (slice d.buf d.pos n, record d { pos = d.pos + n })

unfoldable pub u8 : M ℕ
u8 = do need 1; byte_here

unfoldable pub u16 : M ℕ
u16 = do need 2; hi ← byte_here; lo ← byte_here; pure (from_be (hi ∷ lo ∷ []))

unfoldable pub u32 : M ℕ
u32 = do need 4; b ← slice_here 4; pure (from_be b)

unfoldable pub u64 : M ℕ
u64 = do need 8; b ← slice_here 8; pure (from_be b)

unfoldable pub i32 : M ℤ
i32 = do need 4; b ← slice_here 4; pure (i32_of_bits (from_be b))

unfoldable pub bool : M Bool
bool = do v ← u8; pure (if v == 0 then Bool.false else Bool.true)

unfoldable pub bytes : M Blob
bytes = do n ← u32; if ltb max_blob n then fail (blob_too_large n) else do need n; slice_here n

unfoldable pub str : M Text
str = do
  n ← u32
  if ltb max_str n
      then fail (string_too_large n)
      else do need n; v ← slice_here n; if is_utf8 v then pure v else fail invalid_utf8

unfoldable pub fixed32 : M Blob
fixed32 = do need 32; slice_here 32

unfoldable pub remaining : Decoder → ℕ
remaining d = length d.buf - d.pos

unfoldable pub finish : M (Unit {0})
finish d = if d.pos == length d.buf then ok (tt, d) else err (trailing (length d.buf - d.pos))

module _ {A : Type 0} where
  abbrev pub value : Result ProtoError (A × Decoder) → Result ProtoError A
  value (ok (a, d)) = ok a
  value (err e) = err e

  -- A whole message: a new decoder, what `m` reads, and no byte behind it.
  unfoldable pub run : M A → List ℕ → Result ProtoError A
  unfolding ◌>>=◌ finish pure new
  run m buf = value ((do a ← m; finish; pure a) (new buf))
