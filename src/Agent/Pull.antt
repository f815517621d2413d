-- ===== src/Agent/Pull.antt =====
-- `run_pull` of src/agent.rs behind its manifest: the files that the node sends, and the controller's plans for them.
pub mod Reads
pub mod Sending
use apb.Prelude.{
  ℕ, ◌*◌, ◌^◌, Option, none, some, Bool, false, List, [], ◌∷◌, ◌++◌, ◌==◌, ltb, length, get_elem?,
  if◌then◌else◌, Result, ok, err,
}
use apb.Proto.Types.{Text, Blob, Payload, error, file_plan, file_sigs, plan_end}
use apb.Proto.Payload.{id}
use apb.Delta.Blocks.{sig_len}
use apb.Agent.Types.{Plan, from_action, Event, received, cancelled, broken}
use apb.Ctrl.Plans.{set_at}

-- One file that this node sends to the controller.
pub record PullSource : Type 0 where
  pub seq : ℕ
  pub path : Text
  pub size : ℕ
  pub sha : Blob
  pub plan : Plan
  pub block_size : ℕ
  pub block_count : ℕ
  pub sigs : Blob

-- The messages of the `send_error` with which a bad plan is answered.
pub data Objection : Type 0 where
  unknown_action : (action : ℕ) → Objection
  plan_for_unknown : (seq : ℕ) → Objection
  sigs_out_of_order : (seq : ℕ) → Objection
  sigs_for_unknown : (seq : ℕ) → Objection

-- The loop goes on, it has seen `PlanEnd`, the plan is refused with the code 400, the handler returns, or
-- `next_payload` failed.
pub data Step : Type 0 where
  more : List PullSource → Step
  planned : List PullSource → Step
  objected : Objection → Step
  returned : Step
  undecodable : Step

set_plan : List PullSource → PullSource → Result ℕ Plan → (block_size block_count : ℕ) → Step
unfolding set_at
set_plan sources s (err a) block_size block_count = objected (unknown_action a)
set_plan sources s (ok plan) block_size block_count = more (
    set_at sources s.seq
      (record s { plan = plan; block_size = block_size; block_count = block_count; sigs = [] }))

-- `sources.get_mut(seq as usize)`, with the number that the source has.
plan_source : List PullSource → Option PullSource → (seq action block_size block_count : ℕ) → Step
unfolding set_plan
plan_source sources none seq action block_size block_count = objected (plan_for_unknown seq)
plan_source sources (some s) seq action block_size block_count =
    if s.seq == seq
    then set_plan sources s (from_action action) block_size block_count
    else objected (plan_for_unknown seq)

-- `checked_mul`, and the guard of the arm.
in_order : Blob → ℕ → Bool
in_order buf first = if ltb (first * sig_len) (2 ^ 64) then length buf == first * sig_len else false

add_sigs : List PullSource → Option PullSource → (seq first : ℕ) → Blob → Step
unfolding in_order set_at
add_sigs sources none seq first blob = objected (sigs_for_unknown seq)
add_sigs sources (some s) seq first blob =
    if s.seq == seq
    then (if in_order s.sigs first
        then more (set_at sources s.seq (record s { sigs = s.sigs ++ blob }))
        else objected (sigs_out_of_order seq))
    else objected (sigs_for_unknown seq)

unfoldable pub plan_payload : Payload → List PullSource → Step
unfolding plan_source add_sigs
plan_payload (file_plan i seq action block_size block_count) sources =
    plan_source sources (get_elem? sources seq) seq action block_size block_count
plan_payload (file_sigs i seq first blob) sources =
    add_sigs sources (get_elem? sources seq) seq first blob
plan_payload (plan_end i) sources = planned sources
plan_payload (error i code message) sources = returned
plan_payload _ sources = more sources

unfoldable pub plan_event : ℕ → Event → List PullSource → Step
unfolding plan_payload
plan_event job (received p a) sources = if id p == job then plan_payload p sources else more sources
plan_event job cancelled sources = returned
plan_event job broken sources = undecodable

unfoldable pub step_on : (List PullSource → Step) → Step → Step
step_on f (more sources) = f sources
step_on f (planned sources) = planned sources
step_on f (objected why) = objected why
step_on f returned = returned
step_on f undecodable = undecodable

-- `while !planned`, on the events that come. It waits where they end.
unfoldable pub read_plans : ℕ → List Event → List PullSource → Step
unfolding step_on plan_event
read_plans job [] sources = more sources
read_plans job (e ∷ es) sources = step_on (read_plans job es) (plan_event job e sources)
