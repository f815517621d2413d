-- ===== src/Ctrl/Plans.antt =====
-- `FilePlan` and `read_push_plans` of src/ctrl.rs: the controller reads the node's answers.
pub mod Reads
use apb.Prelude.{
  ℕ, zero, suc, ◌*◌, ◌^◌, Option, none, some, Bool, true, false, List, [], ◌∷◌, ◌++◌, ◌==◌, ltb,
  length, get_elem?, if◌then◌else◌, Result, ok, err,
}
use apb.Proto.Tags.{plan_send, plan_skip, plan_delta}
use apb.Proto.Types.{Text, Blob, Payload, error, file_plan, file_sigs, plan_end}
use apb.Proto.Payload.{id}
use apb.Delta.Blocks.{sig_len}

pub data FilePlan : Type 0 where
  whole : FilePlan
  skip : FilePlan
  delta : FilePlan

unfoldable pub action : FilePlan → ℕ
action whole = plan_send
action skip = plan_skip
action delta = plan_delta

-- An unknown action is the error.
unfoldable pub from_action : ℕ → Result ℕ FilePlan
from_action a =
    if a == plan_send
    then ok whole
    else if a == plan_skip
    then ok skip
    else if a == plan_delta
    then ok delta
    else err a

-- The three slices that `read_push_plans` fills, one place for each file.
pub record Slots : Type 0 where
  pub plans : List FilePlan
  pub block_sizes : List ℕ
  pub sigs : List Blob

-- What `recv_event` returns, with the payload decoded.
pub data Event : Type 0 where
  relay_result : Payload → Event
  undecodable : Event
  server_error : (code : ℕ) (message : Text) → Event
  other_frame : Event
  closed : Event
  timed_out : Event

pub data PlanError : Type 0 where
  unknown_action : (action : ℕ) → PlanError
  unknown_file : (seq : ℕ) → PlanError
  sigs_out_of_order : (seq : ℕ) → PlanError
  sigs_for_unknown : (seq : ℕ) → PlanError
  agent_error : Text → PlanError
  invalid_data : PlanError
  server_refused : (code : ℕ) (message : Text) → PlanError
  broken_pipe : PlanError
  out_of_time : PlanError

pub data Reading : Type 0 where
  more : Slots → Reading
  finished : Slots → Reading
  failed : PlanError → Reading

-- `v[i] = x`, where `i` is in range.
unfoldable pub set_at {ℓ} : {A : Type ℓ} → List A → ℕ → A → List A
set_at [] i x = []
set_at (y ∷ ys) zero x = x ∷ ys
set_at (y ∷ ys) (suc i) x = y ∷ set_at ys i x

-- A delta starts with an empty buffer, whose capacity is not modelled.
put_plan : Result ℕ FilePlan → (seq block_size : ℕ) → Slots → Reading
unfolding set_at
put_plan (err a) seq block_size s = failed (unknown_action a)
put_plan (ok delta) seq block_size s = more (record {
  plans = set_at s.plans seq delta;
  block_sizes = set_at s.block_sizes seq block_size;
  sigs = set_at s.sigs seq [];
})
put_plan (ok p) seq block_size s =
    more
      (record s { plans = set_at s.plans seq p; block_sizes = set_at s.block_sizes seq block_size })

-- `checked_mul` and the test of the buffer's length.
unfoldable pub in_order : Blob → ℕ → Bool
in_order buf first = if ltb (first * sig_len) (2 ^ 64) then length buf == first * sig_len else false

extend_sigs : Option Blob → (seq first : ℕ) → Blob → Slots → Reading
unfolding in_order set_at
extend_sigs none seq first blob s = failed (sigs_for_unknown seq)
extend_sigs (some buf) seq first blob s =
    if in_order buf first
    then more (record s { sigs = set_at s.sigs seq (buf ++ blob) })
    else failed (sigs_out_of_order seq)

unfoldable pub read_payload : Payload → Slots → Reading
unfolding put_plan extend_sigs
read_payload (file_plan i seq a block_size block_count) s =
    if ltb seq (length s.plans)
    then put_plan (from_action a) seq block_size s
    else failed (unknown_file seq)
read_payload (file_sigs i seq first blob) s = extend_sigs (get_elem? s.sigs seq) seq first blob s
read_payload (plan_end i) s = finished s
read_payload (error i code message) s = failed (agent_error message)
read_payload _ s = more s

unfoldable pub read_event : ℕ → Event → Slots → Reading
unfolding read_payload
read_event job (relay_result p) s = if id p == job then read_payload p s else more s
read_event job undecodable s = failed invalid_data
read_event job (server_error code message) s = failed (server_refused code message)
read_event job other_frame s = more s
read_event job closed s = failed broken_pipe
read_event job timed_out s = failed out_of_time

unfoldable pub go_on : (Slots → Reading) → Reading → Reading
go_on f (more s) = f s
go_on f (finished s) = finished s
go_on f (failed e) = failed e

-- The loop, on the events that come. It waits where they end.
unfoldable pub read_push_plans : ℕ → List Event → Slots → Reading
unfolding read_event go_on
read_push_plans job [] s = more s
read_push_plans job (e ∷ es) s = go_on (read_push_plans job es) (read_event job e s)
