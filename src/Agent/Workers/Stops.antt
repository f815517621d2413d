-- ===== src/Agent/Workers/Stops.antt =====
-- When the loop of an agent of src/agent.rs stops.
use apb.Prelude.{
  ℕ, ◌≡◌, refl, sym, ◌∙◌, Option, none, some, Bool, true, false, List, [], ◌∷◌, ◌++◌, get_elem?,
  if◌then◌else◌, Result, ok, err,
}
use apb.Prelude.Signed.{pos}
use apb.Proto.Types.{
  ProtoError, Text, Blob, Payload, shutdown, bye, Frame, ping, relay_deliver, route_cancel,
}
use apb.Proto.Payload.{decode}
use apb.Util.Text.{trim}
use apb.Ctrl.Plans.{set_at}
use apb.Agent.Workers.{
  Job, Agent, Sent, goodbye, init, find_slot, remove_slot, is_start, start_job, farewell,
  spawn_decoded, spawn_worker, send_to, deliver, cancel_job, cancel_route, on_frame, Reachable,
  starts, reads, takes, returns, leaves,
}

-- The last frame was a `Shutdown`, and its `Bye` is the last that the loop has sent.
pub record IsFarewell (fs : List Frame) (s : Agent) : Type 0 where
  pub before : List Frame
  pub route : ℕ
  pub raw : Blob
  pub job : ℕ
  pub reason : Text
  pub last : fs ≡ before ++ relay_deliver route raw ∷ []
  pub asked : decode raw ≡ ok (shutdown job reason)
  pub sent : List Sent
  pub answered :
      s.sent ≡ sent ++ goodbye route (bye job (pos 0) (farewell reason (trim reason))) ∷ []

-- The flag is set only so.
abbrev pub Stops : List Frame → Agent → Type 0
Stops fs s = s.stop ≡ true → IsFarewell fs s

module _ (fs : List Frame) where
  Stops-if : (c : Bool) (x y : Agent) → Stops fs x → Stops fs y → Stops fs (if c then x else y)
  Stops-if true x y h k = h
  Stops-if false x y h k = k

unset : {b : Bool} {A : Type 0} → b ≡ false → b ≡ true → A
unset e h = absurd (cc)

module _ (fs : List Frame) (s : Agent) (going : s.stop ≡ false) (route : ℕ) (raw : Blob) where
  spawn_decoded-Stops :
      (d : Result ProtoError Payload)
      → decode raw ≡ d
      → Stops (fs ++ relay_deliver route raw ∷ []) (spawn_decoded route raw d s)
  unfolding spawn_decoded start_job
  spawn_decoded-Stops (err x) q = λ h. unset going h
  spawn_decoded-Stops (ok (shutdown i reason)) q = λ h. record {
    before = fs;
    route = route;
    raw = raw;
    job = i;
    reason = reason;
    last = refl;
    asked = q;
    sent = s.sent;
    answered = refl;
  }
  spawn_decoded-Stops (ok p) q =
      Stops-if _ (is_start p) (start_job route raw p s) s (λ h. unset going h) (λ h. unset going h)

  send_to-Stops :
      (j : ℕ) (o : Option Job)
      → Stops (fs ++ relay_deliver route raw ∷ []) (send_to route raw j o s)
  unfolding send_to
  send_to-Stops j none = λ h. unset going h
  send_to-Stops j (some job) =
      Stops-if _ job.running
        (record s { jobs = set_at s.jobs j (record job { queue = job.queue ++ raw ∷ [] }) })
        (record s { slots = remove_slot route s.slots }) (λ h. unset going h) (λ h. unset going h)

  deliver-Stops :
      (o : Option ℕ) → Stops (fs ++ relay_deliver route raw ∷ []) (deliver route raw o s)
  unfolding deliver spawn_worker
  deliver-Stops none = spawn_decoded-Stops (decode raw) refl
  deliver-Stops (some j) = send_to-Stops j (get_elem? s.jobs j)

stop-cancel_job : (j : ℕ) (o : Option Job) (s : Agent) → (cancel_job j o s).stop ≡ s.stop
unfolding cancel_job
stop-cancel_job j none s = refl
stop-cancel_job j (some job) s = refl

stop-cancel_route : (route : ℕ) (o : Option ℕ) (s : Agent) → (cancel_route route o s).stop ≡ s.stop
unfolding cancel_route
stop-cancel_route route none s = refl
stop-cancel_route route (some j) s = stop-cancel_job j (get_elem? s.jobs j) _

on_frame-Stops :
    (fs : List Frame) (s : Agent) (f : Frame) → s.stop ≡ false → Stops (fs ++ f ∷ []) (on_frame f s)
unfolding on_frame
on_frame-Stops fs s (relay_deliver route raw) e =
    deliver-Stops fs s e route raw (find_slot route s.slots)
on_frame-Stops fs s (route_cancel route) e =
    λ h. unset e (sym (stop-cancel_route route (find_slot route s.slots) s) ∙ h)
on_frame-Stops fs s (ping nonce) e = λ h. unset e h
on_frame-Stops fs s f e = λ h. unset e h

-- The steps of the jobs leave this as it is.
Stops-same :
    (fs : List Frame) (s s' : Agent)
    → s'.stop ≡ s.stop
    → s'.sent ≡ s.sent
    → Stops fs s
    → Stops fs s'
Stops-same fs s s' e k h x =
    let w = h (sym e ∙ x) in
    record {
      before = w.before;
      route = w.route;
      raw = w.raw;
      job = w.job;
      reason = w.reason;
      last = w.last;
      asked = w.asked;
      sent = w.sent;
      answered = k ∙ w.answered;
    }

-- In every state that the agent reaches and in which its flag `stop` is set, the last frame that it has handled
-- was a `Shutdown`, and the last message of its loop is the `Bye` that answers it, on the same route, with
-- its id, the code 0 and its reason.
pub Reachable-Stops : (fs : List Frame) (s : Agent) → Reachable fs s → Stops fs s
unfolding init
Reachable-Stops fs s starts = λ h. absurd (cc)
Reachable-Stops fs s (reads f r e) = on_frame-Stops _ _ f e
Reachable-Stops fs s (takes j job r e run) = Stops-same fs _ s refl refl (Reachable-Stops fs _ r)
Reachable-Stops fs s (returns j job r e run) = Stops-same fs _ s refl refl (Reachable-Stops fs _ r)
Reachable-Stops fs s (leaves j job r e run) = Stops-same fs _ s refl refl (Reachable-Stops fs _ r)
