-- ===== src/Util/Text.antt =====
-- What src/util.rs uses of `str`: `trim` and `strip_prefix` on UTF-8 bytes.
use apb.Prelude.{
  ℕ, zero, suc, ◌≤◌, ◌≡◌, refl, Option, none, some, Bool, true, false, ◌&&◌, ◌||◌, List, [], ◌∷◌,
  ◌++◌, arith, length, leb, ◌==◌, All, if◌then◌else◌,
}
use mathlib.Core.List.{reverse, reverse_aux, reverse-reverse}
use apb.Proto.Types.{Text}

abbrev pub strip_prefix : Text → Text → Option Text
strip_prefix [] s = some s
strip_prefix (p ∷ ps) [] = none
strip_prefix (p ∷ ps) (c ∷ s) = if p == c then strip_prefix ps s else none

-- The characters with the property White_Space, as they are encoded.
abbrev pub white_space : List Text
white_space =
    (9 ∷ [])
    ∷ (10 ∷ [])
    ∷ (11 ∷ [])
    ∷ (12 ∷ [])
    ∷ (13 ∷ [])
    ∷ (32 ∷ [])
    ∷ (194 ∷ 133 ∷ [])
    ∷ (194 ∷ 160 ∷ [])
    ∷ (225 ∷ 154 ∷ 128 ∷ [])
    ∷ (226 ∷ 128 ∷ 128 ∷ [])
    ∷ (226 ∷ 128 ∷ 129 ∷ [])
    ∷ (226 ∷ 128 ∷ 130 ∷ [])
    ∷ (226 ∷ 128 ∷ 131 ∷ [])
    ∷ (226 ∷ 128 ∷ 132 ∷ [])
    ∷ (226 ∷ 128 ∷ 133 ∷ [])
    ∷ (226 ∷ 128 ∷ 134 ∷ [])
    ∷ (226 ∷ 128 ∷ 135 ∷ [])
    ∷ (226 ∷ 128 ∷ 136 ∷ [])
    ∷ (226 ∷ 128 ∷ 137 ∷ [])
    ∷ (226 ∷ 128 ∷ 138 ∷ [])
    ∷ (226 ∷ 128 ∷ 168 ∷ [])
    ∷ (226 ∷ 128 ∷ 169 ∷ [])
    ∷ (226 ∷ 128 ∷ 175 ∷ [])
    ∷ (226 ∷ 129 ∷ 159 ∷ [])
    ∷ (227 ∷ 128 ∷ 128 ∷ [])
    ∷ []

-- The text behind the first of the characters that it begins with.
strip_one : List Text → Text → Option Text
strip_one [] s = none
strip_one (w ∷ ws) s = elim (strip_prefix w s) [ some rest ↦ some rest | none ↦ strip_one ws s ]

strip_many : ℕ → List Text → Text → Text
unfolding strip_one
strip_many zero ws s = s
strip_many (suc fuel) ws s = elim (strip_one ws s) [
  | some rest ↦ strip_many fuel ws rest
  | none ↦ s
]

reverse_all : List Text → List Text
reverse_all [] = []
reverse_all (w ∷ ws) = reverse w ∷ reverse_all ws

-- A character takes a byte at least, so `length s` rounds are enough.
unfoldable pub trim_start : Text → Text
unfolding strip_many
trim_start s = strip_many (length s) white_space s

unfoldable pub trim_end : Text → Text
unfolding strip_many reverse_all
trim_end s = reverse (strip_many (length s) (reverse_all white_space) (reverse s))

unfoldable pub trim : Text → Text
unfolding trim_start trim_end
trim s = trim_end (trim_start s)

-- The bytes of the visible ASCII characters.
abbrev pub IsVisible : ℕ → Type 0
IsVisible c = (33 ≤ c) × (c ≤ 126)

strip_many-none :
    (fuel : ℕ) (ws : List Text) (s : Text) → strip_one ws s ≡ none → strip_many fuel ws s ≡ s
unfolding strip_many
strip_many-none zero ws s h = refl
strip_many-none (suc fuel) ws s h = rw (h, strip_many) refl

-- No character of the list begins with a visible one.
foreign : List Text → Bool
foreign [] = true
foreign ([] ∷ ws) = false
foreign ((p ∷ ps) ∷ ws) = (leb p 32 || leb 127 p) && foreign ws

strip_one-foreign :
    (ws : List Text) (s : Text) → foreign ws ≡ true → All IsVisible s → strip_one ws s ≡ none
unfolding strip_one foreign
strip_one-foreign [] s f h = refl
strip_one-foreign ([] ∷ ws) s f h = cc
strip_one-foreign ((p ∷ ps) ∷ ws) [] f h = strip_one-foreign ws [] (ground arith) h
strip_one-foreign ((p ∷ ps) ∷ ws) (c ∷ s) f (v, h) =
    let other : (p == c) ≡ false = ground arith in
    rw (other, strip_one) (strip_one-foreign ws (c ∷ s) (ground arith) (v, h))

All-reverse_aux : (s r : Text) → All IsVisible s → All IsVisible r → All IsVisible (reverse_aux s r)
All-reverse_aux [] r hs hr = hr
All-reverse_aux (c ∷ s) r (h, hs) hr = All-reverse_aux s (c ∷ r) hs (h, hr)

-- `trim` leaves a text of visible ASCII characters as it is.
pub trim_visible : (s : Text) → All IsVisible s → trim s ≡ s
unfolding trim trim_start trim_end
trim_visible s h =
    let start =
      strip_many-none (length s) white_space s
        (strip_one-foreign white_space s (unfold foreign in refl) h) in
    let back =
      strip_one-foreign (reverse_all white_space) (reverse s) (unfold foreign reverse_all in refl)
        (All-reverse_aux s [] h tt) in
    rw (start, strip_many-none (length s) (reverse_all white_space) (reverse s) back)
      (reverse-reverse s)

-- `strip_prefix` at the prefix, and at a text that does not begin like it.
pub strip_prefix-append : (p s : Text) → strip_prefix p (p ++ s) ≡ some s
strip_prefix-append [] s = refl
strip_prefix-append (c ∷ p) s = ground (arith, strip_prefix-append p s)
