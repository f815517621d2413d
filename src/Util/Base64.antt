-- ===== src/Util/Base64.antt =====
-- `decode_base64` and `encode_base64` of src/util.rs.
use apb.Prelude.{
  ℕ, ◌+◌, ◌-◌, ◌*◌, ◌/◌, ◌%◌, ◌^◌, ◌<◌, ◌≡◌, refl, sym, ap, ◌∙◌, Option, none, some, Bool, true,
  false, ◌&&◌, ◌||◌, List, [], ◌∷◌, ◌++◌, append-nil, append_assoc, arith, All, get_or, leb, ◌==◌,
  if◌then◌else◌, codes, check_first, check_first-holds,
}
use apb.Bytes.{IsByte}
use apb.Proto.Types.{Text}

-- What the `match` makes of a character: its six bits, nothing at all, or the end.
pub data Sextet : Type 0 where
  value : ℕ → Sextet
  skip : Sextet
  bad : Sextet

unfoldable pub sextet : ℕ → Sextet
sextet c =
    if leb b'A' c && leb c b'Z'
    then value (c - b'A')
    else if leb b'a' c && leb c b'z'
    then value (c - b'a' + 26)
    else if leb b'0' c && leb c b'9'
    then value (c - b'0' + 52)
    else if c == b'+' || c == b'-'
    then value 62
    else if c == b'/' || c == b'_'
    then value 63
    else if c == b'=' || (c == 10 || (c == 13 || (c == b' ' || c == 9)))
    then skip
    else bad

-- The loop of `decode_base64` over its variables `acc`, `bits` and `out`.
unfoldable pub decode_loop : Text → (acc bits : ℕ) → List ℕ → Option (List ℕ)
decode_loop [] acc bits out = some out
decode_loop (c ∷ s) acc bits out = elim (sextet c) [
  | value v ↦
      let acc' = acc * 64 % 2 ^ 32 + v in
      if leb 8 (bits + 6)
      then decode_loop s acc' (bits + 6 - 8) (out ++ (acc' / 2 ^ (bits + 6 - 8) % 256) ∷ [])
      else decode_loop s acc' (bits + 6) out
  | skip ↦ decode_loop s acc bits out
  | bad ↦ none
]

unfoldable pub decode_base64 : Text → Option (List ℕ)
unfolding decode_loop
decode_base64 s = decode_loop s 0 0 []

abbrev pub alphabet : Text
alphabet = codes "ABCDEFGHIJKLMNOPQRSTUVWXYZabcdefghijklmnopqrstuvwxyz0123456789+/"

-- `T[(v & 63) as usize]`
abbrev pub letter : ℕ → ℕ
letter v = get_or alphabet (v % 64) 0

-- The chunks of three bytes; the last may be shorter.
unfoldable pub encode_base64 : List ℕ → Text
encode_base64 [] = []
encode_base64 (a ∷ []) =
    let n = a * 2 ^ 16 in letter (n / 2 ^ 18) ∷ letter (n / 2 ^ 12) ∷ b'=' ∷ b'=' ∷ []
encode_base64 (a ∷ b ∷ []) =
    let n = a * 2 ^ 16 + b * 2 ^ 8 in
    letter (n / 2 ^ 18) ∷ letter (n / 2 ^ 12) ∷ letter (n / 2 ^ 6) ∷ b'=' ∷ []
encode_base64 (a ∷ b ∷ c ∷ rest) =
    let n = a * 2 ^ 16 + b * 2 ^ 8 + c in
    letter (n / 2 ^ 18) ∷ letter (n / 2 ^ 12) ∷ letter (n / 2 ^ 6) ∷ letter n ∷ encode_base64 rest

is_value : ℕ → Sextet → Bool
is_value v (value w) = w == v
is_value v skip = false
is_value v bad = false

is_value-eq : (v : ℕ) (x : Sextet) → is_value v x ≡ true → x ≡ value v
unfolding is_value
is_value-eq v (value w) h = ground arith
is_value-eq v skip h = cc
is_value-eq v bad h = cc

letter_test : ℕ → Bool
unfolding is_value sextet
letter_test v = is_value v (sextet (get_or alphabet v 0))

letter_table : check_first letter_test 64 ≡ true
unfolding check_first letter_test
letter_table = refl

sextet-letter : (v : ℕ) → sextet (letter v) ≡ value (v % 64)
unfolding letter_test
sextet-letter v =
    is_value-eq (v % 64) (sextet (letter v))
      (check_first-holds letter_test 64 (v % 64) (omega arith) letter_table)

decode_letter :
    (v acc bits : ℕ) (s : Text) (out : List ℕ)
    → decode_loop (letter v ∷ s) acc bits out ≡ (
        let acc' = acc * 64 % 2 ^ 32 + v % 64 in
        if leb 8 (bits + 6)
        then decode_loop s acc' (bits + 6 - 8) (out ++ (acc' / 2 ^ (bits + 6 - 8) % 256) ∷ [])
        else decode_loop s acc' (bits + 6) out)
unfolding decode_loop
decode_letter v acc bits s out = rw (sextet-letter v, decode_loop) refl

-- The bytes that four letters give, whatever is left in `acc` from before.
module _ (a b c acc : ℕ) (ha : a < 256) (hb : b < 256) (hc : c < 256) where
  word : ℕ
  word = a * 2 ^ 16 + b * 2 ^ 8 + c

  acc_one : ℕ
  unfolding word
  acc_one = acc * 64 % 2 ^ 32 + word / 2 ^ 18 % 64

  acc_two : ℕ
  unfolding acc_one word
  acc_two = acc_one * 64 % 2 ^ 32 + word / 2 ^ 12 % 64

  acc_three : ℕ
  unfolding acc_two word
  acc_three = acc_two * 64 % 2 ^ 32 + word / 2 ^ 6 % 64

  acc_four : ℕ
  unfolding acc_three word
  acc_four = acc_three * 64 % 2 ^ 32 + word % 64

  byte_one : acc_two / 2 ^ 4 % 256 ≡ a
  unfolding acc_two
  byte_one = omega arith

  byte_two : acc_three / 2 ^ 2 % 256 ≡ b
  unfolding acc_three
  byte_two = omega arith

  byte_three : acc_four / 2 ^ 0 % 256 ≡ c
  unfolding acc_four
  byte_three = omega arith

  two_letters :
      (s : Text) (out : List ℕ)
      → decode_loop (letter (word / 2 ^ 18) ∷ letter (word / 2 ^ 12) ∷ s) acc 0 out
        ≡ decode_loop s acc_two 4 (out ++ a ∷ [])
  unfolding acc_two acc_one
  two_letters s out =
      decode_letter (word / 2 ^ 18) acc 0 (letter (word / 2 ^ 12) ∷ s) out
      ∙ decode_letter (word / 2 ^ 12) acc_one 6 s out
      ∙ ap (λ x. decode_loop s acc_two 4 (out ++ x ∷ [])) byte_one

  three_letters :
      (s : Text) (out : List ℕ)
      → decode_loop
          (letter (word / 2 ^ 18) ∷ letter (word / 2 ^ 12) ∷ letter (word / 2 ^ 6) ∷ s)
          acc
          0
          out
        ≡ decode_loop s acc_three 2 (out ++ a ∷ b ∷ [])
  unfolding acc_three
  three_letters s out =
      two_letters (letter (word / 2 ^ 6) ∷ s) out
      ∙ decode_letter (word / 2 ^ 6) acc_two 4 s (out ++ a ∷ [])
      ∙ ap (λ x. decode_loop s acc_three 2 ((out ++ a ∷ []) ++ x ∷ [])) byte_two
      ∙ ap (decode_loop s acc_three 2) (append_assoc out (a ∷ []) (b ∷ []))

  four_letters :
      (s : Text) (out : List ℕ)
      → decode_loop
          (letter (word / 2 ^ 18)
            ∷ letter (word / 2 ^ 12)
            ∷ letter (word / 2 ^ 6)
            ∷ letter word
            ∷ s)
          acc
          0
          out
        ≡ decode_loop s acc_four 0 (out ++ a ∷ b ∷ c ∷ [])
  unfolding acc_four
  four_letters s out =
      three_letters (letter word ∷ s) out
      ∙ decode_letter word acc_three 2 s (out ++ a ∷ b ∷ [])
      ∙ ap (λ x. decode_loop s acc_four 0 ((out ++ a ∷ b ∷ []) ++ x ∷ [])) byte_three
      ∙ ap (decode_loop s acc_four 0) (append_assoc out (a ∷ b ∷ []) (c ∷ []))

decode_pad :
    (s : Text) (acc bits : ℕ) (out : List ℕ)
    → decode_loop (b'=' ∷ s) acc bits out ≡ decode_loop s acc bits out
unfolding decode_loop sextet
decode_pad s acc bits out = refl

decode_end : (acc bits : ℕ) (out : List ℕ) → decode_loop [] acc bits out ≡ some out
unfolding decode_loop
decode_end acc bits out = refl

decode_loop-encode_base64 :
    (bs : List ℕ) (acc : ℕ) (out : List ℕ)
    → All IsByte bs
    → decode_loop (encode_base64 bs) acc 0 out ≡ some (out ++ bs)
unfolding encode_base64 word
decode_loop-encode_base64 [] acc out h = decode_end acc 0 out ∙ ap some (sym (append-nil out))
decode_loop-encode_base64 (a ∷ []) acc out (ha, h) =
    let n : a * 2 ^ 16 + 0 * 2 ^ 8 + 0 ≡ a * 2 ^ 16 = omega arith in
    ap (λ x. decode_loop (letter (x / 2 ^ 18) ∷ letter (x / 2 ^ 12) ∷ b'=' ∷ b'=' ∷ []) acc 0 out)
      (sym n)
    ∙ two_letters a 0 0 acc ha (omega arith) (omega arith) (b'=' ∷ b'=' ∷ []) out
    ∙ decode_pad (b'=' ∷ []) _ 4 (out ++ a ∷ [])
    ∙ decode_pad [] _ 4 (out ++ a ∷ [])
    ∙ decode_end _ 4 (out ++ a ∷ [])
decode_loop-encode_base64 (a ∷ b ∷ []) acc out (ha, (hb, h)) =
    let n : a * 2 ^ 16 + b * 2 ^ 8 + 0 ≡ a * 2 ^ 16 + b * 2 ^ 8 = omega arith in
    ap
      (λ x.
        decode_loop (letter (x / 2 ^ 18) ∷ letter (x / 2 ^ 12) ∷ letter (x / 2 ^ 6) ∷ b'=' ∷ []) acc
          0 out)
      (sym n)
    ∙ three_letters a b 0 acc ha hb (omega arith) (b'=' ∷ []) out
    ∙ decode_pad [] _ 2 (out ++ a ∷ b ∷ [])
    ∙ decode_end _ 2 (out ++ a ∷ b ∷ [])
decode_loop-encode_base64 (a ∷ b ∷ c ∷ bs) acc out (ha, (hb, (hc, h))) =
    four_letters a b c acc ha hb hc (encode_base64 bs) out
    ∙ decode_loop-encode_base64 bs (acc_four a b c acc ha hb hc) (out ++ a ∷ b ∷ c ∷ []) h
    ∙ ap some (append_assoc out (a ∷ b ∷ c ∷ []) bs)

-- `decode_base64` returns every list of bytes from what `encode_base64` writes.
pub decode_base64-encode_base64 :
    (bs : List ℕ) → All IsByte bs → decode_base64 (encode_base64 bs) ≡ some bs
unfolding decode_base64
decode_base64-encode_base64 bs h = decode_loop-encode_base64 bs 0 [] h
