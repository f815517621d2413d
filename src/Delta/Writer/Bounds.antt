-- ===== src/Delta/Writer/Bounds.antt =====
-- What holds of a `FileWriter` of src/delta.rs between two writes, whatever frames come.
use apb.Prelude.{
  ℕ, zero, suc, ◌+◌, ◌-◌, ◌%◌, ◌^◌, ◌≤◌, ◌<◌, ◌≡◌, refl, Option, none, some, Bool, true, false,
  List, [], ◌∷◌, ◌++◌, arith, length, length-append, slice, min, ltb, ◌==◌, if◌then◌else◌, Result,
  ok, err, and_then, All, ◌∙◌, length-take, drop,
}
use apb.Delta.Sink.{Op, copy, literal}
use apb.Delta.Writer.{
  WriteError, overrun, short_base, copybuf_len, FileWriter, create, take_in, write_literal,
  copy_round, copy_loop, copy_base, copy_from_base, write_op, write_all,
}

-- The file and the hash have every byte that was counted, and there are at most the expected ones.
pub record IsWriter (w : FileWriter) : Type 0 where
  pub counted : length w.written ≡ w.received
  pub same : w.hashed ≡ w.written
  pub within : w.received ≤ w.expected
  pub small : w.expected < 2 ^ 63

-- The result, if there is one, is such a writer for the same file.
abbrev pub Keeps : FileWriter → Result WriteError FileWriter → Type 0
Keeps w (ok w') = IsWriter w' × (w'.expected ≡ w.expected) × (w'.base ≡ w.base)
Keeps w (err e) = Unit {0}

Keeps-if :
    (w : FileWriter) (c : Bool) (r r' : Result WriteError FileWriter)
    → (c ≡ true → Keeps w r)
    → (c ≡ false → Keeps w r')
    → Keeps w (if c then r else r')
Keeps-if w true r r' h k = h refl
Keeps-if w false r r' h k = k refl

pub create-IsWriter :
    (base : Option (List ℕ)) (expected : ℕ) → expected < 2 ^ 63 → IsWriter (create base expected)
unfolding create
create-IsWriter base expected small = record {
  counted = refl;
  same = refl;
  within = omega arith;
  small = small;
}

take_in-Keeps :
    (bytes : List ℕ) (w : FileWriter)
    → length bytes < 2 ^ 63
    → IsWriter w
    → Keeps w (take_in bytes w)
unfolding take_in
take_in-Keeps bytes w short h =
    let received : ℕ = (w.received + length bytes) % 2 ^ 64 in
    Keeps-if w (ltb w.expected received) (err (overrun w.expected))
      (ok (record w {
        received = received;
        hashed = w.hashed ++ bytes;
        written = w.written ++ bytes;
      }))
      (λ e. tt)
      (λ e. (
        record {
          counted = omega (arith, length-append w.written bytes, h.counted, h.within, h.small);
          same = rw h.same;
          within = ground arith;
          small = h.small;
        },
        refl,
        refl,
      ))

copy_round-Keeps :
    (base : List ℕ) (at left : ℕ) (w : FileWriter)
    → IsWriter w
    → Keeps w (copy_round base at left w)
unfolding copy_round
copy_round-Keeps base at left w h =
    let want = min left copybuf_len in
    Keeps-if w (ltb (length base) (at + want)) (err short_base) (take_in (slice base at want) w)
      (λ e. tt)
      (λ e. take_in-Keeps (slice base at want) w (omega (arith, length-take want (drop at base))) h)

Keeps-trans :
    (w w' : FileWriter) (r : Result WriteError FileWriter)
    → w'.expected ≡ w.expected
    → w'.base ≡ w.base
    → Keeps w' r
    → Keeps w r
Keeps-trans w w' (ok w'') e b (h', e', b') = (h', e' ∙ e, b' ∙ b)
Keeps-trans w w' (err x) e b h' = tt

-- What follows with a writer for the same file.
Keeps-and_then :
    (w : FileWriter) (r : Result WriteError FileWriter)
    (f : FileWriter → Result WriteError FileWriter)
    → Keeps w r
    → ((w' : FileWriter) → IsWriter w' → Keeps w' (f w'))
    → Keeps w (and_then r f)
Keeps-and_then w (err e) f h k = tt
Keeps-and_then w (ok w') f (h, e, b) k = Keeps-trans w w' (f w') e b (k w' h)

copy_loop-Keeps :
    (fuel : ℕ) (base : List ℕ) (at left : ℕ) (w : FileWriter)
    → IsWriter w
    → Keeps w (copy_loop fuel base at left w)
unfolding copy_loop
copy_loop-Keeps zero base at left w h = (h, refl, refl)
copy_loop-Keeps (suc fuel) base at left w h =
    let want = min left copybuf_len in
    let again = λ (w' : FileWriter). copy_loop fuel base (at + want) (left - want) w' in
    Keeps-if w (left == 0) (ok w) (and_then (copy_round base at left w) again)
      (λ e. (h, refl, refl))
      (λ e.
        Keeps-and_then w (copy_round base at left w) again (copy_round-Keeps base at left w h)
          (copy_loop-Keeps fuel base (at + want) (left - want)))

copy_base-Keeps :
    (base : Option (List ℕ)) (start len : ℕ) (w : FileWriter)
    → IsWriter w
    → Keeps w (copy_base base start len w)
unfolding copy_base
copy_base-Keeps none start len w h = tt
copy_base-Keeps (some base) start len w h = copy_loop-Keeps len base start len w h

-- Frames of less than 2^63 bytes.
abbrev pub IsFrame : Op → Type 0
IsFrame (literal bytes) = length bytes < 2 ^ 63
IsFrame (copy start len) = Unit {0}

pub write_op-Keeps : (op : Op) (w : FileWriter) → IsFrame op → IsWriter w → Keeps w (write_op op w)
unfolding write_op write_literal copy_from_base
write_op-Keeps (literal bytes) w short h = take_in-Keeps bytes w short h
write_op-Keeps (copy start len) w short h = copy_base-Keeps w.base start len w h

-- Whatever frames come, a writer that takes them has written and hashed exactly the bytes that it
-- counted, at most the expected ones, and is for the same size and base.
pub write_all-Keeps :
    (ops : List Op) (w : FileWriter) → All IsFrame ops → IsWriter w → Keeps w (write_all ops w)
unfolding write_all
write_all-Keeps [] w short h = (h, refl, refl)
write_all-Keeps (op ∷ ops) w (short, rest) h =
    Keeps-and_then w (write_op op w) (write_all ops) (write_op-Keeps op w short h)
      (λ w' h'. write_all-Keeps ops w' rest h')
