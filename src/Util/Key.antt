-- ===== src/Util/Key.antt =====
-- `parse_key` of src/util.rs, the key in the forms that a user writes.
use mathlib.Core.Path.{subst}
use apb.Prelude.{
  ℕ, zero, suc, ◌+◌, ◌*◌, ◌/◌, ◌%◌, ◌^◌, ◌≡◌, refl, ap, Option, none, some, Bool, true, false, ◌&&◌,
  List, [], ◌∷◌, arith, length, All, ◌==◌, if◌then◌else◌, Result, ok, err, and_then, codes, get_or,
}
use apb.Bytes.{IsByte}
use apb.Proto.Types.{Text}
use apb.Util.Text.{strip_prefix, trim, trim_visible}
use apb.Util.Hex.{
  KeyError, bad_key, hex_val, is_ascii_hexdigit, hex, digits, get_or-IsDigit, length-hex,
  hex-IsVisible,
}
use apb.Util.Base64.{decode_base64}

abbrev pub or_prefix : Text → Text → Text → Option Text
or_prefix p q s = elim (strip_prefix p s) [ some rest ↦ some rest | none ↦ strip_prefix q s ]

unwrap_or : Text → Option Text → Text
unwrap_or s none = s
unwrap_or s (some rest) = rest

unfoldable pub all_hexdigits : Text → Bool
all_hexdigits [] = true
all_hexdigits (c ∷ s) = is_ascii_hexdigit c && all_hexdigits s

-- `for i in 0..32`, on the pairs of digits that are left.
unfoldable pub hex_pairs : ℕ → Text → Result KeyError (List ℕ)
hex_pairs zero s = ok []
hex_pairs (suc n) [] = ok []
hex_pairs (suc n) (h ∷ []) = ok []
hex_pairs (suc n) (h ∷ (l ∷ s)) = and_then (hex_val h) λ hi.
    and_then (hex_val l)
      λ lo. and_then (hex_pairs n s) λ rest. ok ((hi * 2 ^ 4 % 2 ^ 8 + lo) ∷ rest)

-- `decode_base64(b.trim())` with 32 bytes.
key_of : Option (List ℕ) → Result KeyError (List ℕ)
key_of none = err bad_key
key_of (some k) = if length k == 32 then ok k else err bad_key

base64_key : Option Text → Result KeyError (List ℕ)
unfolding key_of
base64_key none = err bad_key
base64_key (some b) = key_of (decode_base64 (trim b))

unfoldable pub parse_key : Text → Result KeyError (List ℕ)
unfolding unwrap_or all_hexdigits hex_pairs base64_key
parse_key text =
    let t = trim text in
    let s = unwrap_or t (or_prefix (codes "hex:") (codes "HEX:") t) in
    if length s == 64 && all_hexdigits s
    then hex_pairs 32 s
    else base64_key (or_prefix (codes "base64:") (codes "BASE64:") s)

all_hexdigits-hex : (bs : List ℕ) → All IsByte bs → all_hexdigits (hex bs) ≡ true
unfolding all_hexdigits hex
all_hexdigits-hex [] h = refl
all_hexdigits-hex (b ∷ bs) (h, hs) =
    rw ((get_or-IsDigit (b / 16) (omega arith)).1, (get_or-IsDigit (b % 16) (omega arith)).1)
      (all_hexdigits-hex bs hs)

hex_pairs-hex : (bs : List ℕ) → All IsByte bs → hex_pairs (length bs) (hex bs) ≡ ok bs
unfolding hex_pairs hex
hex_pairs-hex [] h = refl
hex_pairs-hex (b ∷ bs) (h, hs) =
    let byte : b / 16 * 2 ^ 4 % 2 ^ 8 + b % 16 ≡ b = omega arith in
    rw
      (
        (get_or-IsDigit (b / 16) (omega arith)).0,
        (get_or-IsDigit (b % 16) (omega arith)).0,
        hex_pairs-hex bs hs,
      )
      (ap (λ x. ok (x ∷ bs)) byte)

prefixes_differ :
    (c : ℕ) → is_ascii_hexdigit c ≡ true → ((b'h' == c) ≡ false) × ((b'H' == c) ≡ false)
unfolding is_ascii_hexdigit
prefixes_differ c h = (ground arith, ground arith)

-- Digits do not begin with a prefix.
or_prefix-hex :
    (bs : List ℕ) → All IsByte bs → or_prefix (codes "hex:") (codes "HEX:") (hex bs) ≡ none
unfolding hex
or_prefix-hex [] h = refl
or_prefix-hex (b ∷ bs) (h, hs) =
    let (low, upper) =
      prefixes_differ (get_or digits (b / 16) 0) ((get_or-IsDigit (b / 16) (omega arith)).1) in
    rw (low, upper, or_prefix, strip_prefix, hex) refl

-- `parse_key` returns a key of 32 bytes from what `hex` prints.
pub parse_key-hex : (k : List ℕ) → All IsByte k → length k ≡ 32 → parse_key (hex k) ≡ ok k
unfolding parse_key unwrap_or
parse_key-hex k h size =
    let sized : (length (hex k) == 64) ≡ true = ground (arith, length-hex k) in
    rw (trim_visible (hex k) (hex-IsVisible k h), or_prefix-hex k h, sized, all_hexdigits-hex k h)
      (subst (λ n. hex_pairs n (hex k) ≡ ok k) size (hex_pairs-hex k h))
