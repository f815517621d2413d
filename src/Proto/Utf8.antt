-- ===== src/Proto/Utf8.antt =====
-- `std::str::from_utf8`, as a test: the bytes that a Rust `String` can hold.
use apb.Prelude.{
  ℕ, zero, suc, Bool, true, false, ◌&&◌, List, [], ◌∷◌, ltb, leb, ◌==◌, if◌then◌else◌,
}

-- `tail n lo hi`: after the next byte, which lies in lo..=hi, `n` more bytes of the code point.
pub data Utf8State : Type 0 where
  start bad : Utf8State
  tail : ℕ → ℕ → ℕ → Utf8State

abbrev within : ℕ → ℕ → ℕ → Bool
within lo hi b = leb lo b && leb b hi

lead : ℕ → Utf8State
lead b =
    if ltb b 0x80
    then start
    else if within 0xc2 0xdf b
    then tail 0 0x80 0xbf
    else if b == 0xe0
    then tail 1 0xa0 0xbf
    else if b == 0xed
    then tail 1 0x80 0x9f
    else if within 0xe1 0xef b
    then tail 1 0x80 0xbf
    else if b == 0xf0
    then tail 2 0x90 0xbf
    else if within 0xf1 0xf3 b
    then tail 2 0x80 0xbf
    else if b == 0xf4
    then tail 2 0x80 0x8f
    else bad

utf8_step : Utf8State → ℕ → Utf8State
unfolding lead
utf8_step start b = lead b
utf8_step bad b = bad
utf8_step (tail zero lo hi) b = if within lo hi b then start else bad
utf8_step (tail (suc n) lo hi) b = if within lo hi b then tail n 0x80 0xbf else bad

utf8_from : Utf8State → List ℕ → Bool
unfolding utf8_step
utf8_from start [] = true
utf8_from bad [] = false
utf8_from (tail n lo hi) [] = false
utf8_from s (b ∷ bs) = utf8_from (utf8_step s b) bs

unfoldable pub is_utf8 : List ℕ → Bool
unfolding utf8_from
is_utf8 bs = utf8_from start bs
