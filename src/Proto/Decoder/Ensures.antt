-- ===== src/Proto/Decoder/Ensures.antt =====
-- What holds of a value that a decoder method returns, on a buffer of bytes.
use mathlib.Core.Path.{subst}
use apb.Prelude.{
  sym, ℕ, ◌+◌, ◌^◌, ◌≤◌, ◌<◌, ◌≡◌, refl, ap, ◌∙◌, Bool, true, false, List, ◌∷◌, [], arith, length,
  slice, get_or, drop, length-take, length-drop, All, All-take, All-drop, All-get_or, Result, ok,
  err, if◌then◌else◌, ltb,
}
use apb.Prelude.Signed.{IsI32, i32_of_bits-IsI32}
use apb.Bytes.{IsByte, from_be, from_be-lt}
use apb.Proto.Types.{ProtoError}
use apb.Proto.Tags.{max_str, max_blob}
use apb.Proto.Fields.{IsU8, IsU16, IsU32, IsU64, IsText, IsBlob, IsSha}
use apb.Proto.Decoder.{
  Decoder, M, continue, ◌>>=◌, pure, fail, need, byte_here, slice_here, u8, u16, u32, u64, i32,
  bool, bytes, str, fixed32, run, value, finish, new,
}

pub record Ensures {A : Type 0} (P : A → Type 0) (m : M A) : Type 0 where
  pub at :
      (d : Decoder) (a : A) (d' : Decoder)
      → All IsByte d.buf
      → m d ≡ ok (a, d')
      → P a × (d'.buf ≡ d.buf)

module _ {A : Type 0} where
  pub ok-pair :
      {a a' : A} {d d' : Decoder}
      → Path (Result ProtoError (A × Decoder)) (ok (a, d)) (ok (a', d'))
      → (a ≡ a') × (d ≡ d')
  ok-pair e = (cc, cc)

module _ {A B : Type 0} where
  continue-eq-ok :
      (r : Result ProtoError (A × Decoder)) (f : A → M B) {b : B} {d' : Decoder}
      → continue r f ≡ ok (b, d')
      → (a : A) × (d : Decoder) × (r ≡ ok (a, d)) × (f a d ≡ ok (b, d'))
  continue-eq-ok (ok (a, d)) f h = (a, d, refl, h)
  continue-eq-ok (err e) f h = cc

  pub Ensures-bind :
      {P : A → Type 0} {Q : B → Type 0} {m : M A} (f : A → M B)
      → Ensures P m
      → ((a : A) → P a → Ensures Q (f a))
      → Ensures Q (m >>= f)
  unfolding ◌>>=◌
  Ensures-bind {m = m} f hm hf = record {
    at = λ d b d'' bytes h.
        let (a, d', e, e') = continue-eq-ok (m d) f h in
        let (pa, same) = hm.at d a d' bytes e in
        let (qb, same') = (hf a pa).at d' b d'' (rw same bytes) e' in (qb, same' ∙ same);
  }

module _ {A : Type 0} {P : A → Type 0} where
  pub Ensures-pure : (a : A) → P a → Ensures P (pure a)
  unfolding pure
  Ensures-pure a h = record {
    at =
        λ d a' d' b e. let (p, q) = ok-pair e in (subst P p h, ap (λ (x : Decoder). x.buf) (sym q));
  }

  pub Ensures-fail : (e : ProtoError) → Ensures P (fail e)
  unfolding fail
  Ensures-fail e = record { at = λ d a d' b h. cc }

  pub Ensures-if :
      (b : Bool) (m n : M A)
      → (b ≡ true → Ensures P m)
      → (b ≡ false → Ensures P n)
      → Ensures P (if b then m else n)
  Ensures-if true m n hm hn = hm refl
  Ensures-if false m n hm hn = hn refl

-- After `need n` the cursor has `n` bytes before it.
pub need-eq-ok :
    (n : ℕ) (d : Decoder) {u : Unit {0}} {d' : Decoder}
    → need n d ≡ ok (u, d')
    → (d' ≡ d) × (d.pos + n ≤ length d.buf)
unfolding need
need-eq-ok n d e = (ground arith, ground arith)

Ensures-need :
    {A : Type 0} {P : A → Type 0} (n : ℕ) (m : M A)
    → ((d : Decoder) (a : A) (d' : Decoder)
        → All IsByte d.buf
        → d.pos + n ≤ length d.buf
        → m d ≡ ok (a, d')
        → P a × (d'.buf ≡ d.buf))
    → Ensures P (need n >>= λ _. m)
unfolding ◌>>=◌
Ensures-need n m h = record {
  at = λ d a d' b e.
      let (u, d₁, e₁, e₂) = continue-eq-ok (need n d) (λ _. m) e in
      let (same, room) = need-eq-ok n d e₁ in h d a d' b room (rw same at e₂);
}

-- The bytes that `slice_here n` returns behind `need n`.
slice-IsByte : (d : Decoder) (n : ℕ) → All IsByte d.buf → All IsByte (slice d.buf d.pos n)
slice-IsByte d n b = All-take IsByte n _ (All-drop IsByte d.pos d.buf b)

length-slice : (d : Decoder) (n : ℕ) → d.pos + n ≤ length d.buf → length (slice d.buf d.pos n) ≡ n
length-slice d n h = omega (arith, length-take n (drop d.pos d.buf), length-drop d.pos d.buf)

module _ {A : Type 0} {P : A → Type 0} (n : ℕ) where
  Ensures-slice :
      (f : List ℕ → M A)
      → ((bs : List ℕ) → All IsByte bs → length bs ≡ n → Ensures P (f bs))
      → Ensures P (need n >>= λ _. slice_here n >>= f)
  Ensures-slice f h = Ensures-need n (slice_here n >>= f) (
      unfold ◌>>=◌ slice_here in
      λ d a d' b room e. (h _ (slice-IsByte d n b) (length-slice d n room)).at _ a d' b e)

Ensures-slice_end :
    {P : List ℕ → Type 0} (n : ℕ)
    → ((bs : List ℕ) → All IsByte bs → length bs ≡ n → P bs)
    → Ensures P (need n >>= λ _. slice_here n)
unfolding slice_here
Ensures-slice_end {P} n h = Ensures-need n (slice_here n) λ d a d' b room e.
    let (p, q) = ok-pair e in
    (
      subst P p (h _ (slice-IsByte d n b) (length-slice d n room)),
      ap (λ (x : Decoder). x.buf) (sym q),
    )

get_or-IsByte : (d : Decoder) → All IsByte d.buf → IsByte (get_or d.buf d.pos 0)
get_or-IsByte d b = All-get_or IsByte d.pos d.buf 0 (omega arith) b

Ensures-byte_here : Ensures IsByte byte_here
unfolding byte_here
Ensures-byte_here = record {
  at = λ d a d' b e.
      let (p, q) = ok-pair e in
      (subst IsByte p (get_or-IsByte d b), ap (λ (x : Decoder). x.buf) (sym q));
}

pub Ensures-u8 : Ensures IsU8 u8
unfolding u8
Ensures-u8 = Ensures-need 1 byte_here (λ d a d' b _ e. Ensures-byte_here.at d a d' b e)

pub Ensures-u16 : Ensures IsU16 u16
unfolding u16
Ensures-u16 = Ensures-need 2 _ λ d a d' b _ e. go.at d a d' b e
  where
    go : Ensures IsU16 (byte_here >>= λ hi. byte_here >>= λ lo. pure (from_be (hi ∷ lo ∷ [])))
    go = Ensures-bind _ Ensures-byte_here λ hi h.
        Ensures-bind _ Ensures-byte_here
          λ lo l. Ensures-pure _ (from_be-lt (hi ∷ lo ∷ []) (h, (l, tt)))

word-lt : (n : ℕ) (bs : List ℕ) → All IsByte bs → length bs ≡ n → from_be bs < 256 ^ n
word-lt n bs h e = rw (← e) (from_be-lt bs h)

pub Ensures-u32 : Ensures IsU32 u32
unfolding u32
Ensures-u32 = Ensures-slice 4 _ λ bs h e. Ensures-pure _ (word-lt 4 bs h e)

pub Ensures-u64 : Ensures IsU64 u64
unfolding u64
Ensures-u64 = Ensures-slice 8 _ λ bs h e. Ensures-pure _ (word-lt 8 bs h e)

pub Ensures-i32 : Ensures IsI32 i32
unfolding i32
Ensures-i32 = Ensures-slice 4 _ λ bs h e. Ensures-pure _ (i32_of_bits-IsI32 _ (word-lt 4 bs h e))

abbrev pub IsAny : Bool → Type 0
IsAny _ = Unit {0}

pub Ensures-bool : Ensures IsAny bool
unfolding bool
Ensures-bool = Ensures-bind _ Ensures-u8 λ v _. Ensures-pure _ tt

pub Ensures-fixed32 : Ensures IsSha fixed32
unfolding fixed32
Ensures-fixed32 = Ensures-slice_end 32 λ bs _ e. e

pub Ensures-bytes : Ensures IsBlob bytes
unfolding bytes
Ensures-bytes = Ensures-bind _ Ensures-u32 λ n _.
    Ensures-if (ltb max_blob n) _ _ (λ _. Ensures-fail _)
      λ small. Ensures-slice_end n λ bs _ e. ground arith

pub Ensures-str : Ensures IsText str
unfolding str
Ensures-str = Ensures-bind _ Ensures-u32 λ n _.
    Ensures-if (ltb max_str n) _ _ (λ _. Ensures-fail _)
      λ small. Ensures-slice n _ λ bs _ e.
        Ensures-if _ _ _ (λ valid. Ensures-pure bs (record { short = ground arith; valid = valid }))
          (λ _. Ensures-fail _)

Ensures-finish : Ensures (λ _. Unit {0}) finish
unfolding finish
Ensures-finish = record { at = λ d a d' b e. (tt, ground arith) }

value-eq-ok :
    {A : Type 0} (r : Result ProtoError (A × Decoder)) {a : A}
    → value r ≡ ok a
    → (d : Decoder) × (r ≡ ok (a, d))
value-eq-ok (ok (a, d)) e = (d, ground arith)
value-eq-ok (err x) e = cc

pub bind-eq-ok :
    {A B : Type 0} (m : M A) (f : A → M B) (d : Decoder) {b : B} {d' : Decoder}
    → (m >>= f) d ≡ ok (b, d')
    → (a : A) × (d₁ : Decoder) × (m d ≡ ok (a, d₁)) × (f a d₁ ≡ ok (b, d'))
unfolding ◌>>=◌
bind-eq-ok m f d e = continue-eq-ok (m d) f e

finish-eq-ok :
    (d : Decoder) {u : Unit {0}} {d' : Decoder} → finish d ≡ ok (u, d') → d.pos ≡ length d.buf
unfolding finish
finish-eq-ok d e = ground arith

-- A whole message that is accepted was read by `m` from its first byte to its last.
pub run-eq-ok :
    {A : Type 0} (m : M A) (buf : List ℕ) {a : A}
    → run m buf ≡ ok a
    → (d : Decoder) × (m (new buf) ≡ ok (a, d)) × (d.pos ≡ length d.buf)
unfolding run
run-eq-ok m buf e =
    let (d, e₁) = value-eq-ok _ e in
    let (v, d₁, e₂, e₃) = bind-eq-ok m _ (new buf) e₁ in
    let (_, d₂, e₄, e₅) = bind-eq-ok finish _ d₁ e₃ in
    (d₁, subst (λ w. m (new buf) ≡ ok (w, d₁)) (ok-pair e₅).0 e₂, finish-eq-ok d₁ e₄)

-- What holds of the value of a whole message.
pub run-Ensures :
    {A : Type 0} {P : A → Type 0} (m : M A) (buf : List ℕ) {a : A}
    → Ensures P m
    → All IsByte buf
    → run m buf ≡ ok a
    → P a
unfolding run
run-Ensures m buf {a = a} h b e =
    let (d, e') = value-eq-ok _ e in
    let whole = Ensures-bind _ h λ v pv. Ensures-bind _ Ensures-finish λ _ _. Ensures-pure v pv in
    (whole.at (new buf) a d b e').0

pub u8-eq-ok :
    (d : Decoder) {v : ℕ} {d' : Decoder} → u8 d ≡ ok (v, d') → d' ≡ record d { pos = d.pos + 1 }
unfolding u8 byte_here
u8-eq-ok d e =
    let (_, d₁, e₁, e₂) = bind-eq-ok (need 1) _ d e in
    let (same, _) = need-eq-ok 1 d e₁ in sym (ok-pair e₂).1 ∙ rw same

pub u64-eq-ok :
    (d : Decoder) {v : ℕ} {d' : Decoder}
    → u64 d ≡ ok (v, d')
    → (d.pos + 8 ≤ length d.buf) × (v ≡ from_be (slice d.buf d.pos 8))
unfolding u64 slice_here pure ◌>>=◌
u64-eq-ok d e =
    let (_, d₁, e₁, e₂) = bind-eq-ok (need 8) _ d e in
    let (same, room) = need-eq-ok 8 d e₁ in let e₃ = rw same at e₂ in (room, sym (ok-pair e₃).0)
