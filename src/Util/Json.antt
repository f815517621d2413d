-- ===== src/Util/Json.antt =====
-- `json_escape` of src/util.rs, on the bytes of the text: a character beyond ASCII is
-- bytes from 128 on, which are pushed as they are.
use mathlib.Core.Path.{subst}
use apb.Prelude.{
  ℕ, ◌+◌, ◌*◌, ◌/◌, ◌%◌, ◌≤◌, ◌<◌, ◌≡◌, sym, Bool-cases, inl, inr, true, false, [], ◌∷◌, ◌++◌,
  append_assoc, arith, ltb, ◌==◌, if◌then◌else◌, ok, get_or,
}
use apb.Proto.Types.{Text}
use apb.Util.Hex.{hex_val, digits, get_or-IsDigit}

-- The escape of a character, and what `format!("\\u{:04x}", c as u32)` prints below 32.
unfoldable pub escape : ℕ → Text
escape c =
    if c == b'"'
    then b'\\' ∷ b'"' ∷ []
    else if c == b'\\'
    then b'\\' ∷ b'\\' ∷ []
    else if c == 10
    then b'\\' ∷ b'n' ∷ []
    else if c == 13
    then b'\\' ∷ b'r' ∷ []
    else if c == 9
    then b'\\' ∷ b't' ∷ []
    else if ltb c 32
    then b'\\' ∷ b'u' ∷ b'0' ∷ b'0' ∷ get_or digits (c / 16) 0 ∷ get_or digits (c % 16) 0 ∷ []
    else c ∷ []

escape_all : Text → Text
unfolding escape
escape_all [] = []
escape_all (c ∷ s) = escape c ++ escape_all s

unfoldable pub json_escape : Text → Text
unfolding escape_all
json_escape s = b'"' ∷ (escape_all s ++ b'"' ∷ [])

-- The two-character escapes of RFC 8259, section 7, and what they stand for.
pub data Short : ℕ → ℕ → Type 0 where
  quotation_mark : Short b'"' b'"'
  reverse_solidus : Short b'\\' b'\\'
  solidus : Short b'/' b'/'
  backspace : Short b'b' 8
  form_feed : Short b'f' 12
  line_feed : Short b'n' 10
  carriage_return : Short b'r' 13
  tab : Short b't' 9

-- `Rest t s`: a string's text behind the first quotation mark is `t`, and it stands for `s`.
pub data Rest : Text → Text → Type 0 where
  closed : Rest (b'"' ∷ []) []
  unescaped :
      {t s : Text}
      → (c : ℕ) → 32 ≤ c
      → (c == b'"') ≡ false
      → (c == b'\\') ≡ false
      → Rest t s
      → Rest (c ∷ t) (c ∷ s)
  short : {t s : Text} → (e c : ℕ) → Short e c → Rest t s → Rest (b'\\' ∷ e ∷ t) (c ∷ s)
  unicode :
      {t s : Text}
      → (h l hi lo : ℕ) → hex_val h ≡ ok hi
      → hex_val l ≡ ok lo
      → hi < 8
      → Rest t s
      → Rest (b'\\' ∷ b'u' ∷ b'0' ∷ b'0' ∷ h ∷ l ∷ t) ((hi * 16 + lo) ∷ s)

-- `Denotes t s`: `t` is a JSON string that stands for `s`.
pub data Denotes : Text → Text → Type 0 where
  string : {t s : Text} → Rest t s → Denotes (b'"' ∷ t) s

control-Rest :
    {t s : Text} (c : ℕ)
    → c < 32
    → Rest t s
    → Rest
        (b'\\' ∷ b'u' ∷ b'0' ∷ b'0' ∷ get_or digits (c / 16) 0 ∷ get_or digits (c % 16) 0 ∷ t)
        (c ∷ s)
control-Rest {t} {s} c h r =
    let back : c / 16 * 16 + c % 16 ≡ c = omega arith in
    subst
      (λ x.
        Rest (b'\\' ∷ b'u' ∷ b'0' ∷ b'0' ∷ get_or digits (c / 16) 0 ∷ get_or digits (c % 16) 0 ∷ t)
          (x ∷ s))
      back
      (unicode (get_or digits (c / 16) 0) (get_or digits (c % 16) 0) (c / 16) (c % 16)
        ((get_or-IsDigit (c / 16) (omega arith)).0) ((get_or-IsDigit (c % 16) (omega arith)).0)
        (omega arith) r)

escaped-Rest :
    {t s : Text} (c d e : ℕ) → (c == d) ≡ true → Short e d → Rest t s → Rest (b'\\' ∷ e ∷ t) (c ∷ s)
escaped-Rest {t} {s} c d e h k r =
    let same : d ≡ c = ground arith in
    subst (λ x. Rest (b'\\' ∷ e ∷ t) (x ∷ s)) same (short e d k r)

escape-Rest : {t s : Text} (c : ℕ) → Rest t s → Rest (escape c ++ t) (c ∷ s)
unfolding escape
escape-Rest {t} {s} c r = elim (Bool-cases (c == b'"')) [
  | inl q ↦ rw q (escaped-Rest c b'"' b'"' q quotation_mark r)
  | inr q ↦ rw q (elim (Bool-cases (c == b'\\')) [
    | inl b ↦ rw b (escaped-Rest c b'\\' b'\\' b reverse_solidus r)
    | inr b ↦ rw b (elim (Bool-cases (c == 10)) [
      | inl n ↦ rw n (escaped-Rest c 10 b'n' n line_feed r)
      | inr n ↦ rw n (elim (Bool-cases (c == 13)) [
        | inl k ↦ rw k (escaped-Rest c 13 b'r' k carriage_return r)
        | inr k ↦ rw k (elim (Bool-cases (c == 9)) [
          | inl i ↦ rw i (escaped-Rest c 9 b't' i tab r)
          | inr i ↦ rw i (elim (Bool-cases (ltb c 32)) [
            | inl low ↦ rw low (control-Rest c (ground arith) r)
            | inr low ↦ rw low (unescaped c (ground arith) q b r)
          ])
        ])
      ])
    ])
  ])
]

escape_all-Rest : (s : Text) → Rest (escape_all s ++ b'"' ∷ []) s
unfolding escape_all
escape_all-Rest [] = closed
escape_all-Rest (c ∷ s) =
    subst (λ t. Rest t (c ∷ s)) (sym (append_assoc (escape c) (escape_all s) (b'"' ∷ [])))
      (escape-Rest c (escape_all-Rest s))

-- For every text, `json_escape` prints a JSON string that stands for the text.
pub json_escape-Denotes : (s : Text) → Denotes (json_escape s) s
unfolding json_escape
json_escape-Denotes s = string (escape_all-Rest s)
