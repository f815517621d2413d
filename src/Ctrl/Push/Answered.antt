-- ===== src/Ctrl/Push/Answered.antt =====
-- How long `wait_transfer_done` of src/ctrl.rs waits, and for what.
use apb.Prelude.{
  ℕ, ◌≡◌, ◌≢◌, refl, Bool, true, false, List, [], ◌∷◌, ◌++◌, ◌==◌, arith, All, if◌then◌else◌,
}
use apb.Proto.Types.{Text, Blob, Payload, error, transfer_done}
use apb.Proto.Payload.{id}
use apb.Ctrl.Plans.{Event, relay_result, undecodable, server_error, other_frame, closed, timed_out}
use apb.Ctrl.Push.{
  waits, got, done, refused, done_payload, wait_event, wait_on, wait_loop, wait_transfer_done,
}

-- A frame of another kind, or a payload of another job.
abbrev pub IsForeign : ℕ → Event → Type 0
IsForeign job (relay_result p) = id p ≢ job
IsForeign job other_frame = Unit {0}
IsForeign job _ = ⊥

other_id : (i job : ℕ) → i ≢ job → (i == job) ≡ false
other_id i job h = ground (arith, h)

done_payload-foreign : (job : ℕ) (p : Payload) → id p ≢ job → done_payload job p ≡ waits
unfolding done_payload id
done_payload-foreign job (transfer_done i success message path bytes sha) h =
    rw (other_id i job h) refl
done_payload-foreign job (error i code message) h = rw (other_id i job h) refl
done_payload-foreign job p h = refl

wait_event-foreign :
    (job : ℕ) (e : Event) → IsForeign job e → wait_event (done_payload job) e ≡ waits
unfolding wait_event
wait_event-foreign job (relay_result p) h = done_payload-foreign job p h
wait_event-foreign job undecodable h = elim h [ ]
wait_event-foreign job (server_error code message) h = elim h [ ]
wait_event-foreign job other_frame h = refl
wait_event-foreign job closed h = elim h [ ]
wait_event-foreign job timed_out h = elim h [ ]

-- After any frames of other kinds and payloads of other jobs, the `TransferDone` of the job is the answer that
-- the controller gets, with its path where it reports success and with its message and path where it
-- does not, whatever comes behind it.
pub wait_transfer_done-got :
    (job : ℕ) (before after : List Event) (success : Bool) (message path : Text) (bytes : ℕ)
    (sha : Blob)
    → All (IsForeign job) before
    → wait_transfer_done job
        (before ++ relay_result (transfer_done job success message path bytes sha) ∷ after)
      ≡ got (if success then done path else refused message path)
unfolding wait_transfer_done wait_loop wait_event wait_on done_payload
wait_transfer_done-got job [] after success message path bytes sha h =
    let mine : (job == job) ≡ true = ground arith in rw mine refl
wait_transfer_done-got job (e ∷ before) after success message path bytes sha (here, h) =
    rw (wait_event-foreign job e here)
      (wait_transfer_done-got job before after success message path bytes sha h)
