-- ===== src/Agent/Workers.antt =====
-- The connection of an agent, `reader_loop` of src/agent.rs: which job gets which payload, and when it stops.
pub mod Fed
pub mod Slots
pub mod Kept
pub mod Delivered
pub mod Reached
pub mod Stops
pub mod Examples
use apb.Prelude.{
  ℕ, suc, ◌≡◌, Option, none, some, Bool, true, false, List, [], ◌∷◌, ◌++◌, ◌==◌, length, get_elem?,
  map, if◌then◌else◌, Result, ok, err, codes,
}
use apb.Proto.Types.{
  ProtoError, Text, Blob, Payload, exec, push_begin, pull_begin, shutdown, bye, Frame, ping,
  relay_deliver, route_cancel,
}
use apb.Proto.Payload.{id, decode}
use apb.Prelude.Signed.{pos}
use apb.Util.Text.{trim}
use apb.Ctrl.Plans.{set_at}

-- A worker's thread: `first` is the payload that started it, `taken` what it has received from its channel,
-- `queue` what is left in there. The channel is open as long as `dispatch` runs.
pub record Job : Type 0 where
  pub route : ℕ
  pub first : Blob
  pub start : Payload
  pub taken : List Blob
  pub queue : List Blob
  pub cancel : Bool
  pub running : Bool

-- What the loop sends: `send_error` with the code 400 and the id 0, `Bye`, and `Pong`.
pub data Sent : Type 0 where
  bad_payload : (route : ℕ) → ProtoError → Sent
  goodbye : (route : ℕ) → Payload → Sent
  pong : (nonce : ℕ) → Sent

-- `slots` is the map `workers`; a slot is the number of its job.
pub record Agent : Type 0 where
  pub jobs : List Job
  pub slots : List (ℕ × ℕ)
  pub stop : Bool
  pub sent : List Sent

pub init : Agent
init = record { jobs = []; slots = []; stop = false; sent = [] }

unfoldable pub find_slot : ℕ → List (ℕ × ℕ) → Option ℕ
find_slot route [] = none
find_slot route ((r, j) ∷ slots) = if r == route then some j else find_slot route slots

unfoldable pub remove_slot : ℕ → List (ℕ × ℕ) → List (ℕ × ℕ)
remove_slot route [] = []
remove_slot route ((r, j) ∷ slots) =
    let rest = remove_slot route slots in if r == route then rest else (r, j) ∷ rest

is_start : Payload → Bool
is_start (exec i timeout cwd raw command) = true
is_start (push_begin i path name is_dir files bytes) = true
is_start (pull_begin i path) = true
is_start _ = false

-- `reason.trim().is_empty()`
unfoldable pub farewell : Text → Text → Text
farewell reason [] = codes "agent ending"
farewell reason (c ∷ cs) = codes "agent ending: " ++ reason

unfoldable pub new_job : ℕ → Blob → Payload → Job
new_job route raw p = record {
  route = route;
  first = raw;
  start = p;
  taken = [];
  queue = [];
  cancel = false;
  running = true;
}

-- A new job, and its slot.
unfoldable pub start_job : ℕ → Blob → Payload → Agent → Agent
start_job route raw p s = record s {
  jobs = s.jobs ++ new_job route raw p ∷ [];
  slots = (route, length s.jobs) ∷ s.slots;
}

-- `handle_shutdown`, and what follows it.
spawn_decoded : ℕ → Blob → Result ProtoError Payload → Agent → Agent
unfolding farewell is_start start_job
spawn_decoded route raw (err e) s = record s { sent = s.sent ++ bad_payload route e ∷ [] }
spawn_decoded route raw (ok (shutdown i reason)) s = record s {
  sent = s.sent ++ goodbye route (bye i (pos 0) (farewell reason (trim reason))) ∷ [];
  stop = true;
}
spawn_decoded route raw (ok p) s = if is_start p then start_job route raw p s else s

unfoldable pub spawn_worker : ℕ → Blob → Agent → Agent
unfolding spawn_decoded
spawn_worker route raw s = spawn_decoded route raw (decode raw) s

-- `s.tx.send(payload)` fails when the job has dropped its end of the channel.
send_to : ℕ → Blob → ℕ → Option Job → Agent → Agent
send_to route raw j none s = record s { slots = remove_slot route s.slots }
send_to route raw j (some job) s =
    if job.running
    then record s { jobs = set_at s.jobs j (record job { queue = job.queue ++ raw ∷ [] }) }
    else record s { slots = remove_slot route s.slots }

deliver : ℕ → Blob → Option ℕ → Agent → Agent
unfolding send_to
deliver route raw none s = spawn_worker route raw s
deliver route raw (some j) s = send_to route raw j (get_elem? s.jobs j) s

cancel_job : ℕ → Option Job → Agent → Agent
cancel_job j none s = s
cancel_job j (some job) s = record s { jobs = set_at s.jobs j (record job { cancel = true }) }

cancel_route : ℕ → Option ℕ → Agent → Agent
unfolding cancel_job
cancel_route route none s = s
cancel_route route (some j) s =
    cancel_job j (get_elem? s.jobs j) (record s { slots = remove_slot route s.slots })

-- `match frame { .. }`; an error and an unexpected frame are printed.
unfoldable pub on_frame : Frame → Agent → Agent
unfolding deliver cancel_route
on_frame (relay_deliver route payload) s = deliver route payload (find_slot route s.slots) s
on_frame (route_cancel route) s = cancel_route route (find_slot route s.slots) s
on_frame (ping nonce) s = record s { sent = s.sent ++ pong nonce ∷ [] }
on_frame _ s = s

-- The worker takes the next payload from its channel.
unfoldable pub take_next : List Blob → Job → Job
take_next [] job = job
take_next (raw ∷ queue) job = record job { taken = job.taken ++ raw ∷ []; queue = queue }

-- The loop reads as long as the flag `stop` is not set, and the threads of the jobs go on beside it. The list
-- holds the frames that were handled.
pub data Reachable : List Frame → Agent → Type 0 where
  starts : Reachable [] init
  reads :
      {fs : List Frame} {s : Agent} (f : Frame)
      → Reachable fs s
      → s.stop ≡ false
      → Reachable (fs ++ f ∷ []) (on_frame f s)
  takes :
      {fs : List Frame} {s : Agent} (j : ℕ) (job : Job)
      → Reachable fs s
      → get_elem? s.jobs j ≡ some job
      → job.running ≡ true
      → Reachable fs (record s { jobs = set_at s.jobs j (take_next job.queue job) })
  returns :
      {fs : List Frame} {s : Agent} (j : ℕ) (job : Job)
      → Reachable fs s
      → get_elem? s.jobs j ≡ some job
      → job.running ≡ true
      → Reachable fs (record s { jobs = set_at s.jobs j (record job { running = false }) })
  leaves :
      {fs : List Frame} {s : Agent} (j : ℕ) (job : Job)
      → Reachable fs s
      → get_elem? s.jobs j ≡ some job
      → job.running ≡ false
      → Reachable fs (record s { slots = remove_slot job.route s.slots })
