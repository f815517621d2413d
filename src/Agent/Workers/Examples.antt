-- ===== src/Agent/Workers/Examples.antt =====
-- A run of the loop of src/agent.rs: a job starts, gets a payload, and the agent is asked to stop.
use mathlib.Core.Path.{subst}
use apb.Prelude.{◌≡◌, refl, false, [], ◌∷◌, arith}
use apb.Proto.Types.{Payload, pull_begin, shutdown, Frame, relay_deliver}
use apb.Proto.Utf8.{is_utf8}
use apb.Proto.Payload.{encode}
use apb.Proto.Payload.WellFormed.{IsWellFormed}
use apb.Proto.Payload.RoundTrip.{decode-encode}
use apb.Agent.Workers.{
  Agent, init, is_start, start_job, new_job, spawn_decoded, spawn_worker, deliver, send_to,
  find_slot, on_frame, Reachable, starts, reads,
}
use apb.Agent.Workers.Fed.{IsFed}
use apb.Agent.Workers.Reached.{Reachable-IsFed}
use apb.Agent.Workers.Stops.{Stops, Reachable-Stops}

abbrev begin : Payload
begin = pull_begin 5 []

begin-IsWellFormed : IsWellFormed begin
unfolding is_utf8
begin-IsWellFormed = (omega arith, record { short = omega arith; valid = refl })

abbrev first : Frame
first = relay_deliver 3 (encode begin)

abbrev second : Frame
second = relay_deliver 3 (7 ∷ [])

abbrev third : Frame
third = relay_deliver 4 (encode (shutdown 6 []))

abbrev started : Agent
started = start_job 3 (encode begin) begin init

started_lem : on_frame first init ≡ started
unfolding on_frame deliver spawn_worker init find_slot
started_lem = rw (decode-encode begin begin-IsWellFormed, spawn_decoded, is_start) refl

started-Reachable : Reachable (first ∷ []) started
started-Reachable =
    subst (Reachable (first ∷ [])) started_lem (reads first starts (unfold init in refl))

going : (on_frame second started).stop ≡ false
unfolding on_frame deliver send_to init find_slot start_job new_job
going = refl

started_stop : started.stop ≡ false
unfolding start_job init
started_stop = refl

served-Reachable : Reachable (first ∷ second ∷ []) (on_frame second started)
served-Reachable = reads second started-Reachable started_stop

Reachable-IsFed_example : IsFed (first ∷ second ∷ []) (on_frame second started)
Reachable-IsFed_example =
    Reachable-IsFed (first ∷ second ∷ []) (on_frame second started) served-Reachable

Reachable-Stops_example :
    Stops (first ∷ second ∷ third ∷ []) (on_frame third (on_frame second started))
Reachable-Stops_example =
    Reachable-Stops (first ∷ second ∷ third ∷ []) (on_frame third (on_frame second started))
      (reads third served-Reachable going)
