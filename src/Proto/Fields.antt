-- ===== src/Proto/Fields.antt =====
-- The ranges of the field types of src/proto.rs, with the limits that its decoder enforces.
use apb.Prelude.{ℕ, ◌^◌, ◌%◌, ◌≤◌, ◌<◌, ◌≡◌, Bool, true, List, [], ◌∷◌, ◌++◌, length, if◌then◌else◌}
use apb.Bytes.{be_bytes}
use apb.Proto.Decoder.{str, bytes, bool, u8}
pub use apb.Proto.Decoder.Reads.{
  Reads, Reads-bind, Reads-pure, Reads-u8, Reads-u16, Reads-u32, Reads-u64, Reads-i32, Reads-bool,
  Reads-fixed32, Reads-bytes, Reads-str,
}
use apb.Proto.Tags.{max_str, max_blob}
use apb.Proto.Types.{Text, Blob}
use apb.Proto.Utf8.{is_utf8}

abbrev pub IsU8 : ℕ → Type 0
IsU8 v = v < 2 ^ 8

abbrev pub IsU16 : ℕ → Type 0
IsU16 v = v < 2 ^ 16

abbrev pub IsU32 : ℕ → Type 0
IsU32 v = v < 2 ^ 32

abbrev pub IsU64 : ℕ → Type 0
IsU64 v = v < 2 ^ 64

-- A text that the decoder accepts, a blob that it accepts, a `[u8; 32]`.
pub record IsText (v : Text) : Type 0 where
  pub short : length v ≤ max_str
  pub valid : is_utf8 v ≡ true

abbrev pub IsBlob : Blob → Type 0
IsBlob v = length v ≤ max_blob

abbrev pub IsSha : Blob → Type 0
IsSha v = length v ≡ 32

-- How a byte and a flag are written, and a text or a blob: its length in 32 bits, then its bytes.
unfoldable pub u8_bytes : ℕ → List ℕ
u8_bytes v = v ∷ []

unfoldable pub bool_bytes : Bool → List ℕ
bool_bytes v = (if v then 1 else 0) ∷ []

unfoldable pub len_bytes : Blob → List ℕ
len_bytes v = be_bytes 4 (length v % 2 ^ 32) ++ v

pub Reads-byte : (v : ℕ) → IsU8 v → Reads u8 (u8_bytes v) v
unfolding u8_bytes
Reads-byte v h = Reads-u8 v

pub Reads-flag : (v : Bool) → Reads bool (bool_bytes v) v
unfolding bool_bytes
Reads-flag v = Reads-bool v

pub Reads-text : (v : Text) → IsText v → Reads str (len_bytes v) v
unfolding len_bytes
Reads-text v h = Reads-str v h.short h.valid

pub Reads-blob : (v : Blob) → IsBlob v → Reads bytes (len_bytes v) v
unfolding len_bytes
Reads-blob v h = Reads-bytes v h
