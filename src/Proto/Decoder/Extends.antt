-- ===== src/Proto/Decoder/Extends.antt =====
-- A read that succeeds does not look behind what it takes: with more bytes behind the buffer it
-- returns the same value.
use apb.Prelude.{
  ℕ, ◌+◌, ◌≤◌, ◌≡◌, Bool, true, false, List, ◌∷◌, ◌++◌, arith, length, length-append, le→not-ltb,
  slice-append_left, get_or-append_left, Result, ok, err, if◌then◌else◌,
}
use apb.Proto.Types.{ProtoError, trailing}
use apb.Proto.Decoder.{
  Decoder, M, ◌>>=◌, pure, fail, need, byte_here, slice_here, u8, u16, u32, u64, i32, bool, bytes,
  str, fixed32, run, new,
}
use apb.Proto.Decoder.Ensures.{ok-pair, bind-eq-ok, need-eq-ok, run-eq-ok}

-- `d` with `more` behind its buffer.
abbrev pub longer : List ℕ → Decoder → Decoder
longer more d = record d { buf = d.buf ++ more }

pub record Extends {A : Type 0} (m : M A) : Type 0 where
  pub at :
      (more : List ℕ) (d : Decoder) (a : A) (d' : Decoder)
      → m d ≡ ok (a, d')
      → m (longer more d) ≡ ok (a, longer more d')

module _ {A B : Type 0} where
  pub Extends-bind :
      (m : M A) (f : A → M B) → Extends m → ((a : A) → Extends (f a)) → Extends (m >>= f)
  unfolding ◌>>=◌
  Extends-bind m f hm hf = record {
    at = λ more d b d'' e.
        let (a, d', e₁, e₂) = bind-eq-ok m f d e in
        rw (hm.at more d a d' e₁) ((hf a).at more d' b d'' e₂);
  }

module _ {A : Type 0} where
  pub Extends-pure : (a : A) → Extends (pure a)
  unfolding pure
  Extends-pure a = record { at = λ more d a' d' e. let (p, q) = ok-pair e in rw (p, q) }

  pub Extends-fail : (e : ProtoError) → Extends (fail {A = A} e)
  unfolding fail
  Extends-fail e = record { at = λ more d a d' h. cc }

  pub Extends-if : (b : Bool) (m n : M A) → Extends m → Extends n → Extends (if b then m else n)
  Extends-if true m n hm hn = hm
  Extends-if false m n hm hn = hn

  Extends-need :
      (n : ℕ) (m : M A)
      → ((more : List ℕ) (d : Decoder) (a : A) (d' : Decoder)
          → d.pos + n ≤ length d.buf
          → m d ≡ ok (a, d')
          → m (longer more d) ≡ ok (a, longer more d'))
      → Extends (need n >>= λ _. m)
  unfolding ◌>>=◌ need
  Extends-need n m h = record {
    at = λ more d a d' e.
        let (_, d₁, e₁, e₂) = bind-eq-ok (need n) (λ _. m) d e in
        let (same, room) = need-eq-ok n d e₁ in
        let e₃ = h more d a d' room (rw same at e₂) in
        let still : d.pos + n ≤ length (d.buf ++ more) = omega (arith, length-append d.buf more) in
        rw (le→not-ltb (d.pos + n) (length (d.buf ++ more)) still) e₃;
  }

  longer-ok :
      (more : List ℕ) {a a' : A} {d d' : Decoder}
      → Path (Result ProtoError (A × Decoder)) (ok (a, d)) (ok (a', d'))
      → Path (Result ProtoError (A × Decoder)) (ok (a, longer more d)) (ok (a', longer more d'))
  longer-ok more e = let (p, q) = ok-pair e in rw (p, q)

  Extends-slice :
      (n : ℕ) (f : List ℕ → M A)
      → ((bs : List ℕ) → Extends (f bs))
      → Extends (need n >>= λ _. slice_here n >>= f)
  Extends-slice n f h = Extends-need n (slice_here n >>= f) (
      unfold ◌>>=◌ slice_here in
      λ more d a d' room e. rw (slice-append_left d.buf more d.pos n room) ((h _).at more _ a d' e))

Extends-slice_end : (n : ℕ) → Extends (need n >>= λ _. slice_here n)
unfolding slice_here
Extends-slice_end n =
    Extends-need n (slice_here n)
      λ more d a d' room e. rw (slice-append_left d.buf more d.pos n room) (longer-ok more e)

pub Extends-u8 : Extends u8
unfolding u8 byte_here
Extends-u8 = Extends-need 1 byte_here λ more d a d' room e.
    rw (get_or-append_left d.buf more d.pos 0 (omega arith)) (longer-ok more e)

pub Extends-u16 : Extends u16
unfolding u16 byte_here ◌>>=◌ pure
Extends-u16 = Extends-need 2 _ λ more d a d' room e.
    rw
      (
        get_or-append_left d.buf more d.pos 0 (omega arith),
        get_or-append_left d.buf more (d.pos + 1) 0 (omega arith),
      )
      (longer-ok more e)

pub Extends-u32 : Extends u32
unfolding u32
Extends-u32 = Extends-slice 4 _ λ bs. Extends-pure _

pub Extends-u64 : Extends u64
unfolding u64
Extends-u64 = Extends-slice 8 _ λ bs. Extends-pure _

pub Extends-i32 : Extends i32
unfolding i32
Extends-i32 = Extends-slice 4 _ λ bs. Extends-pure _

pub Extends-bool : Extends bool
unfolding bool
Extends-bool = Extends-bind _ _ Extends-u8 λ v. Extends-pure _

pub Extends-fixed32 : Extends fixed32
unfolding fixed32
Extends-fixed32 = Extends-slice_end 32

pub Extends-bytes : Extends bytes
unfolding bytes
Extends-bytes =
    Extends-bind _ _ Extends-u32 λ n. Extends-if _ _ _ (Extends-fail _) (Extends-slice_end n)

pub Extends-str : Extends str
unfolding str
Extends-str = Extends-bind _ _ Extends-u32 λ n.
    Extends-if _ _ _ (Extends-fail _)
      (Extends-slice n _ λ bs. Extends-if _ _ _ (Extends-pure bs) (Extends-fail _))

pub ruleset extends = (
  Extends-bind, Extends-pure, Extends-fail, Extends-if, Extends-u8, Extends-u16, Extends-u32,
  Extends-u64, Extends-i32, Extends-bool, Extends-bytes, Extends-str, Extends-fixed32,
)

-- A message that is accepted ends at the last byte: with more bytes behind it, it is refused.
pub run-append :
    {A : Type 0} (m : M A) (buf : List ℕ) {a : A} (x : ℕ) (rest : List ℕ)
    → Extends m
    → run m buf ≡ ok a
    → run m (buf ++ x ∷ rest) ≡ err (trailing (length rest + 1))
unfolding run new
run-append m buf x rest h e =
    let (d, e₁, last) = run-eq-ok m buf e in
    rw (h.at (x ∷ rest) _ _ d e₁) (ground (arith, length-append d.buf (x ∷ rest)))
