-- ===== src/Proto/Decoder/Reads.antt =====
-- What a decoder method reads: from a cursor at the bytes `bs` it returns `a` and stops behind them.
use mathlib.Core.Path.{subst}
use native.Mathlib.Nat.{mod-eq_of_lt}
use apb.Prelude.{
  ℕ, ◌+◌, ◌%◌, ◌^◌, ◌≤◌, ◌<◌, ◌≡◌, refl, sym, ap, ◌∙◌, Bool, true, false, List, [], ◌∷◌, ◌++◌,
  arith, length, drop, length-append, length-drop, drop-append, take-append, drop-drop,
  append_assoc, append-nil, get_or-drop, ok, err, if◌then◌else◌, le→not-ltb,
}
use apb.Prelude.Signed.{ℤ, IsI32, i32_bits, i32_of_bits, i32_bits-lt, i32_of_bits-i32_bits}
use apb.Bytes.{be_bytes, from_be, from_be-be_bytes, length-be_bytes}
use apb.Proto.Tags.{max_str, max_blob}
use apb.Proto.Types.{Text, Blob, invalid_utf8, trailing}
use apb.Proto.Utf8.{is_utf8}
use apb.Proto.Decoder.{
  new, run, Decoder, M, fail, ◌>>=◌, pure, need, byte_here, slice_here, u8, u16, u32, u64, i32,
  bool, bytes, str, fixed32,
}

abbrev pub Behind : Decoder → List ℕ → Type 0
Behind d bs = (drop d.pos d.buf ≡ bs) × (d.pos ≤ length d.buf)

abbrev pub skip : ℕ → Decoder → Decoder
skip n d = record d { pos = d.pos + n }

pub record Reads {A : Type 0} (m : M A) (bs : List ℕ) (a : A) : Type 0 where
  pub at : (d : Decoder) (rest : List ℕ) → Behind d (bs ++ rest) → m d ≡ ok (a, skip (length bs) d)

Behind-skip :
    (d : Decoder) (bs rest : List ℕ) → Behind d (bs ++ rest) → Behind (skip (length bs) d) rest
Behind-skip d bs rest (e, h) = (
  sym (drop-drop d.pos (length bs) (d.pos + length bs) d.buf refl) ∙ rw e (drop-append bs rest),
  omega (arith, length-drop d.pos d.buf, ap length e, length-append bs rest),
)

module _ {A B : Type 0} where
  pub Reads-bind :
      {m : M A} (f : A → M B) {bs cs : List ℕ} {a : A} {b : B}
      → Reads m bs a
      → Reads (f a) cs b
      → Reads (m >>= f) (bs ++ cs) b
  unfolding ◌>>=◌
  Reads-bind f {bs = bs} {cs = cs} {b = b} hm hf = record {
    at = λ d rest h.
        let h' : Behind d (bs ++ (cs ++ rest)) = rw (append_assoc bs cs rest) at h in
        let e : d.pos + length bs + length cs ≡ d.pos + length (bs ++ cs) =
          omega (arith, length-append bs cs) in
        rw (hm.at d (cs ++ rest) h') (
          hf.at (skip (length bs) d) rest (Behind-skip d bs (cs ++ rest) h')
          ∙ ap (λ (n : ℕ). ok (b, record d { pos = n })) e);
  }

pub Reads-pure : {A : Type 0} (a : A) → Reads (pure a) [] a
unfolding pure
Reads-pure a = record {
  at = λ d rest h. ap (λ (n : ℕ). ok (a, record d { pos = n })) (omega arith);
}

pub Reads-pure_of_eq : {A : Type 0} (a b : A) → a ≡ b → Reads (pure a) [] b
Reads-pure_of_eq a b e = rw e (Reads-pure b)

module _ (n : ℕ) (bs : List ℕ) (wide : length bs ≡ n) where
  fits : (d : Decoder) (rest : List ℕ) → Behind d (bs ++ rest) → need n d ≡ ok (tt, d)
  unfolding need
  fits d rest (e, h) =
      ground (arith, wide, length-drop d.pos d.buf, ap length e, length-append bs rest)

  -- `need` passes where the bytes are there.
  Reads-need : {A : Type 0} (m : M A) (a : A) → Reads m bs a → Reads (need n >>= λ _. m) bs a
  unfolding ◌>>=◌
  Reads-need m a hm = record { at = λ d rest h. rw (fits d rest h) (hm.at d rest h) }

Reads-slice_here : (n : ℕ) (bs : List ℕ) → length bs ≡ n → Reads (slice_here n) bs bs
unfolding slice_here
Reads-slice_here n bs e = record { at = λ d rest (h, k). rw (h, ← e, take-append) refl }

Reads-byte_here : (b : ℕ) → Reads byte_here (b ∷ []) b
unfolding byte_here
Reads-byte_here b = record { at = λ d rest (h, k). rw (get_or-drop d.pos d.buf 0 b rest h) }

-- A word of `n` bytes.
Reads-word :
    {A : Type 0} (n : ℕ) (bs : List ℕ) (f : List ℕ → A) (a : A)
    → length bs ≡ n
    → f bs ≡ a
    → Reads (need n >>= λ _. slice_here n >>= λ b. pure (f b)) bs a
Reads-word n bs f a e fa = Reads-need n bs e _ _ (
    subst (λ l. Reads (slice_here n >>= λ b. pure (f b)) l a) (append-nil bs)
      (Reads-bind _ (Reads-slice_here n bs e) (rw fa (Reads-pure a))))

be_value : (k v : ℕ) → v < 256 ^ k → from_be (be_bytes k v) ≡ v
be_value k v h = from_be-be_bytes k v ∙ mod-eq_of_lt h

pub Reads-u8 : (v : ℕ) → Reads u8 (v ∷ []) v
unfolding u8
Reads-u8 v = Reads-need 1 (v ∷ []) refl _ _ (Reads-byte_here v)

pub Reads-u16 : (v : ℕ) → v < 2 ^ 16 → Reads u16 (be_bytes 2 v) v
unfolding u16 be_bytes
Reads-u16 v h = Reads-need 2 (be_bytes 2 v) refl _ _ (
    Reads-bind _ (Reads-byte_here _)
      (Reads-bind _ (Reads-byte_here _) (Reads-pure_of_eq _ v (be_value 2 v h))))

pub Reads-u32 : (v : ℕ) → v < 2 ^ 32 → Reads u32 (be_bytes 4 v) v
unfolding u32
Reads-u32 v h = Reads-word 4 _ from_be v (length-be_bytes 4 v) (be_value 4 v h)

pub Reads-u64 : (v : ℕ) → v < 2 ^ 64 → Reads u64 (be_bytes 8 v) v
unfolding u64
Reads-u64 v h = Reads-word 8 _ from_be v (length-be_bytes 8 v) (be_value 8 v h)

pub Reads-i32 : (v : ℤ) → IsI32 v → Reads i32 (be_bytes 4 (i32_bits v)) v
unfolding i32
Reads-i32 v h =
    Reads-word 4 _ (λ b. i32_of_bits (from_be b)) v (length-be_bytes 4 (i32_bits v))
      (ap i32_of_bits (be_value 4 (i32_bits v) (i32_bits-lt v)) ∙ i32_of_bits-i32_bits v h)

pub Reads-bool : (v : Bool) → Reads bool ((if v then 1 else 0) ∷ []) v
unfolding bool
Reads-bool true = Reads-bind _ (Reads-u8 1) (Reads-pure true)
Reads-bool false = Reads-bind _ (Reads-u8 0) (Reads-pure false)

pub Reads-fixed32 : (v : Blob) → length v ≡ 32 → Reads fixed32 v v
unfolding fixed32
Reads-fixed32 v h = Reads-need 32 v h _ _ (Reads-slice_here 32 v h)

Reads-len : (v : Blob) → length v < 2 ^ 32 → Reads u32 (be_bytes 4 (length v % 2 ^ 32)) (length v)
Reads-len v h = rw (mod-eq_of_lt {n = length v} {m = 2 ^ 32} h) (Reads-u32 (length v) h)

-- A length that fits and the bytes behind it.
pub Reads-bytes :
    (v : Blob) → length v ≤ max_blob → Reads bytes (be_bytes 4 (length v % 2 ^ 32) ++ v) v
unfolding bytes
Reads-bytes v h = Reads-bind _ (Reads-len v (omega arith)) (
    rw (le→not-ltb (length v) max_blob h)
      (Reads-need (length v) v refl _ _ (Reads-slice_here (length v) v refl)))

pub Reads-str :
    (v : Text)
    → length v ≤ max_str
    → is_utf8 v ≡ true
    → Reads str (be_bytes 4 (length v % 2 ^ 32) ++ v) v
unfolding str
Reads-str v h u = Reads-bind _ (Reads-len v (omega arith)) (
    rw (le→not-ltb (length v) max_str h) (
      Reads-need (length v) v refl _ _ (
        subst (λ l. Reads (slice_here (length v) >>= check) l v) (append-nil v)
          (Reads-bind check (Reads-slice_here (length v) v refl) (rw u (Reads-pure v))))))
  where
    check : Text → M Text
    check w = if is_utf8 w then pure w else fail invalid_utf8

module _ {A : Type 0} (m : M A) (bs : List ℕ) {a : A} (hm : Reads m bs a) where
  -- A message that ends where the read ends.
  pub run-Reads : run m bs ≡ ok a
  unfolding run
  run-Reads = rw (hm.at (new bs) [] (sym (append-nil bs), omega arith)) (ground arith)

  -- One byte or more behind it.
  pub run-trailing :
      (x : ℕ) (rest : List ℕ) → run m (bs ++ x ∷ rest) ≡ err (trailing (length rest + 1))
  unfolding run
  run-trailing x rest =
      rw (hm.at (new (bs ++ x ∷ rest)) (x ∷ rest) (refl, omega arith))
        (ground (arith, length-append bs (x ∷ rest)))
