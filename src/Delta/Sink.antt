-- ===== src/Delta/Sink.antt =====
-- The output side of `produce_delta` in src/delta.rs: pending literal bytes, the open copy, the
-- statistics and the operations that were emitted. `emit` is the callback of the caller; here it
-- succeeds and records the operation, as in the tests of src/delta.rs.
pub mod Flush
use apb.Prelude.{
  ℕ, zero, suc, ◌+◌, ◌-◌, ◌≤◌, ◌<◌, ◌≡◌, Option, none, some, Bool, true, false, List, [], ◌∷◌, ◌++◌,
  length, take, drop, slice, min, ◌==◌, if◌then◌else◌,
}
use apb.Delta.Blocks.{chunk}

pub data Op : Type 0 where
  copy : (start len : ℕ) → Op
  literal : (bytes : List ℕ) → Op

pub record Sink : Type 0 where
  pub ops : List Op
  pub pending : List ℕ
  pub open_copy : Option (ℕ × ℕ)
  pub literal_bytes : ℕ
  pub copied_bytes : ℕ

unfoldable pub empty : Sink
empty = record { ops = []; pending = []; open_copy = none; literal_bytes = 0; copied_bytes = 0 }

unfoldable pub emit : Op → Sink → Sink
emit op s = record s { ops = s.ops ++ op ∷ [] }

-- `emit(Op::Data(mem::replace(pending, ..)))`
unfoldable pub ship : Sink → Sink
unfolding emit
ship s = record (emit (literal s.pending) s) { pending = [] }

unfoldable pub emit_pending : Sink → Sink
emit_pending s = if length s.pending == 0 then s else ship s

unfoldable pub close : Option (ℕ × ℕ) → Sink → Sink
unfolding emit emit_pending ship
close none s = s
close (some (start, len)) s =
    let s' = emit_pending s in
    emit (copy start len) (record s' { open_copy = none; copied_bytes = s'.copied_bytes + len })

-- `copy.take()`, what is pending before it, and the copy itself.
unfoldable pub emit_copy : Sink → Sink
unfolding close
emit_copy s = close s.open_copy s

-- One round of the loop of `append`: as many bytes as `pending` has room for.
unfoldable pub append_round : List ℕ → Sink → List ℕ × Sink
append_round bytes s =
    let n = min (chunk - length s.pending) (length bytes) in
    let filled = record s { pending = s.pending ++ take n bytes } in
    (drop n bytes, if length filled.pending == chunk then ship filled else filled)

-- `while !bytes.is_empty()`, on fuel.
unfoldable pub append_loop : ℕ → List ℕ → Sink → Sink
unfolding append_round
append_loop fuel [] s = s
append_loop zero (b ∷ bs) s = s
append_loop (suc fuel) (b ∷ bs) s =
    let (bytes, s') = append_round (b ∷ bs) s in append_loop fuel bytes s'

-- A round takes a byte at least, so `length bytes` rounds are enough.
unfoldable pub append : List ℕ → Sink → Sink
unfolding append_loop
append bytes s =
    append_loop (length bytes) bytes (record s { literal_bytes = s.literal_bytes + length bytes })

unfoldable pub flush_literal : List ℕ → Sink → Sink
unfolding emit_copy append
flush_literal bytes s = append bytes (emit_copy s)

-- The receiver: what the operations make of the base file.
abbrev pub op_bytes : List ℕ → Op → List ℕ
op_bytes base (copy start len) = slice base start len
op_bytes base (literal bytes) = bytes

abbrev pub apply : List ℕ → List Op → List ℕ
apply base [] = []
apply base (op ∷ ops) = op_bytes base op ++ apply base ops
