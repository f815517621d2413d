-- ===== src/Delta/Writer.antt =====
-- `FileWriter` of src/delta.rs: the receiver's side of a transfer. The temporary file takes every write;
-- what the system may refuse are its sync, its permissions and its renaming.
pub mod Bounds
pub mod Rebuild
pub mod Publish
pub mod Rounds
use apb.Prelude.{
  ℕ, zero, suc, ◌+◌, ◌-◌, ◌%◌, ◌^◌, Option, none, some, Bool, true, false, ◌&&◌, ◌||◌, List, [],
  ◌∷◌, ◌++◌, length, slice, min, ltb, ◌==◌, if◌then◌else◌, Result, ok, err, and_then,
}
use apb.Delta.Produce.{bytes_eq}
use apb.Delta.Sink.{Op, copy, literal}

pub data WriteError : Type 0 where
  overrun : (expected : ℕ) → WriteError
  no_base : WriteError
  short_base : WriteError

-- `written` is the content of the temporary file, `hashed` what the hasher was given.
pub record FileWriter : Type 0 where
  pub written : List ℕ
  pub hashed : List ℕ
  pub received : ℕ
  pub expected : ℕ
  pub base : Option (List ℕ)

abbrev pub copybuf_len : ℕ
copybuf_len = 65536

unfoldable pub create : Option (List ℕ) → ℕ → FileWriter
create base expected = record {
  written = [];
  hashed = [];
  received = 0;
  expected = expected;
  base = base;
}

-- `received += ..`, the check of `overrun`, and then the hash and the file.
unfoldable pub take_in : List ℕ → FileWriter → Result WriteError FileWriter
take_in bytes w =
    let received = (w.received + length bytes) % 2 ^ 64 in
    if ltb w.expected received
    then err (overrun w.expected)
    else ok
        (record w { received = received; hashed = w.hashed ++ bytes; written = w.written ++ bytes })

unfoldable pub write_literal : List ℕ → FileWriter → Result WriteError FileWriter
unfolding take_in
write_literal bytes w = take_in bytes w

-- One round of the loop of `copy_from_base`: `read_exact` fails where the base ends too early.
unfoldable pub copy_round : List ℕ → (at left : ℕ) → FileWriter → Result WriteError FileWriter
unfolding take_in
copy_round base at left w =
    let want = min left copybuf_len in
    if ltb (length base) (at + want) then err short_base else take_in (slice base at want) w

-- A round copies a byte at least, so `left` rounds are enough.
unfoldable pub copy_loop : ℕ → List ℕ → (at left : ℕ) → FileWriter → Result WriteError FileWriter
unfolding copy_round
copy_loop zero base at left w = ok w
copy_loop (suc fuel) base at left w =
    let want = min left copybuf_len in
    if left == 0
    then ok w
    else and_then (copy_round base at left w)
        (λ w'. copy_loop fuel base (at + want) (left - want) w')

unfoldable pub copy_base :
    Option (List ℕ) → (start len : ℕ) → FileWriter → Result WriteError FileWriter
unfolding copy_loop
copy_base none start len w = err no_base
copy_base (some base) start len w = copy_loop len base start len w

unfoldable pub copy_from_base : (start len : ℕ) → FileWriter → Result WriteError FileWriter
unfolding copy_base
copy_from_base start len w = copy_base w.base start len w

-- `Data` and `Copy` frames as the receivers hand them over.
unfoldable pub write_op : Op → FileWriter → Result WriteError FileWriter
unfolding write_literal copy_from_base
write_op (literal bytes) w = write_literal bytes w
write_op (copy start len) w = copy_from_base start len w

unfoldable pub write_all : List Op → FileWriter → Result WriteError FileWriter
unfolding write_op
write_all [] w = ok w
write_all (op ∷ ops) w = and_then (write_op op w) (write_all ops)

-- What the system answers.
pub record Disk : Type 0 where
  pub sync_ok : Bool
  pub chmod_ok : Bool
  pub rename_ok : Bool

-- The destination and whether the temporary file is pending: made, and neither renamed nor given to
-- `remove_file`. Whether the removal succeeds is ignored, as the source ignores it.
pub record Files : Type 0 where
  pub dest : Option (List ℕ)
  pub tmp : Bool

pub data FinishError : Type 0 where
  size_mismatch : (want got : ℕ) → FinishError
  sha_mismatch : FinishError
  sync_failed : FinishError
  chmod_failed : FinishError
  rename_failed : FinishError

-- `let _ = fs::remove_file(&self.tmp);`
unfoldable pub abort : Files → Files
abort f = record f { tmp = false }

-- `[0u8; 32]`, which stands for no hash.
abbrev pub all_zero : List ℕ → Bool
all_zero [] = true
all_zero (b ∷ bs) = b == 0 && all_zero bs

-- What follows the checks of the size and of the hash.
unfoldable pub publish : Disk → FileWriter → Files → Result FinishError ℕ × Files
unfolding abort
publish disk w f =
    if disk.sync_ok
    then (if disk.chmod_ok
        then (if disk.rename_ok
            then (ok w.received, record { dest = some w.written; tmp = false })
            else (err rename_failed, abort f))
        else (err chmod_failed, abort f))
    else (err sync_failed, abort f)

unfoldable pub finish :
    (List ℕ → List ℕ) → Disk → List ℕ → FileWriter → Files → Result FinishError ℕ × Files
unfolding abort publish
finish sha256 disk expected_sha w f =
    if w.received == w.expected
    then (if all_zero expected_sha || bytes_eq (sha256 w.hashed) expected_sha
        then publish disk w f
        else (err sha_mismatch, abort f))
    else (err (size_mismatch w.expected w.received), abort f)
