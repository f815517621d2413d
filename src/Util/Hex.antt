-- ===== src/Util/Hex.antt =====
-- `hex` and `hex_val` of src/util.rs.
use apb.Prelude.{
  ℕ, ◌+◌, ◌-◌, ◌*◌, ◌/◌, ◌%◌, ◌<◌, ◌≡◌, refl, Bool, true, false, ◌&&◌, ◌||◌, List, [], ◌∷◌, arith,
  length, All, get_or, leb, ◌==◌, if◌then◌else◌, Result, ok, err, codes, check_first,
  check_first-holds,
}
use apb.Bytes.{IsByte}
use apb.Proto.Types.{Text}
use apb.Util.Text.{IsVisible}

pub data KeyError : Type 0 where
  invalid_digit : KeyError
  bad_key : KeyError

-- `match c { b'0'..=b'9' => .., b'a'..=b'f' => .., b'A'..=b'F' => .., _ => .. }`
unfoldable pub hex_val : ℕ → Result KeyError ℕ
hex_val c =
    if leb b'0' c && leb c b'9'
    then ok (c - b'0')
    else if leb b'a' c && leb c b'f'
    then ok (c - b'a' + 10)
    else if leb b'A' c && leb c b'F'
    then ok (c - b'A' + 10)
    else err invalid_digit

unfoldable pub is_ascii_hexdigit : ℕ → Bool
is_ascii_hexdigit c =
    leb b'0' c && leb c b'9' || (leb b'a' c && leb c b'f' || leb b'A' c && leb c b'F')

abbrev pub digits : Text
digits = codes "0123456789abcdef"

unfoldable pub hex : List ℕ → Text
hex [] = []
hex (b ∷ bs) = get_or digits (b / 16) 0 ∷ get_or digits (b % 16) 0 ∷ hex bs

-- What holds of the digit of a nibble.
abbrev pub IsDigit : ℕ → ℕ → Type 0
IsDigit n c = (hex_val c ≡ ok n) × (is_ascii_hexdigit c ≡ true) × IsVisible c

is_value : ℕ → Result KeyError ℕ → Bool
is_value n (ok m) = m == n
is_value n (err e) = false

is_value-eq : (n : ℕ) (r : Result KeyError ℕ) → is_value n r ≡ true → r ≡ ok n
unfolding is_value
is_value-eq n (ok m) h = ground arith
is_value-eq n (err e) h = cc

digit_test : ℕ → Bool
unfolding is_value hex_val is_ascii_hexdigit
digit_test n =
    let c = get_or digits n 0 in
    is_value n (hex_val c) && (is_ascii_hexdigit c && (leb 33 c && leb c 126))

digit_table : check_first digit_test 16 ≡ true
unfolding check_first digit_test
digit_table = refl

IsDigit-of_test :
    (n c : ℕ)
    → (is_value n (hex_val c) && (is_ascii_hexdigit c && (leb 33 c && leb c 126))) ≡ true
    → IsDigit n c
IsDigit-of_test n c h = ground (arith, is_value-eq n (hex_val c))

pub get_or-IsDigit : (n : ℕ) → n < 16 → IsDigit n (get_or digits n 0)
unfolding digit_test
get_or-IsDigit n h =
    IsDigit-of_test n (get_or digits n 0) (check_first-holds digit_test 16 n h digit_table)

pub length-hex : (bs : List ℕ) → length (hex bs) ≡ 2 * length bs
unfolding hex
length-hex [] = refl
length-hex (b ∷ bs) = omega (arith, length-hex bs)

-- The digits of a list of bytes are visible.
pub hex-IsVisible : (bs : List ℕ) → All IsByte bs → All IsVisible (hex bs)
unfolding hex
hex-IsVisible [] h = tt
hex-IsVisible (b ∷ bs) (h, hs) = (
  (get_or-IsDigit (b / 16) (omega arith)).2,
  ((get_or-IsDigit (b % 16) (omega arith)).2, hex-IsVisible bs hs),
)
