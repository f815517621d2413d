-- ===== src/Agent/Workers/Reached.antt =====
-- Which payloads a job of src/agent.rs gets: those of its route, in their order and without a gap.
use mathlib.Core.Path.{subst}
use apb.Prelude.{
  ℕ, ◌≡◌, ◌≢◌, refl, sym, ap, ◌∙◌, inl, inr, Bool-cases, Option, none, some, Bool, true, false,
  List, [], ◌∷◌, ◌++◌, append_assoc, ◌==◌, get_elem?, arith, if◌then◌else◌, Result, ok, err,
}
use apb.Proto.Types.{ProtoError, Blob, Payload, shutdown, Frame, ping, relay_deliver, route_cancel}
use apb.Proto.Payload.{decode}
use apb.Agent.Workers.{
  Job, Agent, init, find_slot, remove_slot, is_start, spawn_decoded, spawn_worker, send_to, deliver,
  cancel_job, cancel_route, on_frame, take_next, Reachable, starts, reads, takes, returns, leaves,
}
use apb.Agent.Workers.Fed.{delivered_by, deliveries, given, IsEnd, IsFed}
use apb.Agent.Workers.Slots.{find_slot-remove}
use apb.Agent.Workers.Kept.{update-IsFed, remove-IsFed, pass-IsFed}
use apb.Agent.Workers.Delivered.{other_route, queued, queue-IsFed, start-IsFed}

IsFed-if :
    {fs : List Frame} (c : Bool) (x y : Agent)
    → IsFed fs x
    → IsFed fs y
    → IsFed fs (if c then x else y)
IsFed-if true x y h k = h
IsFed-if false x y h k = k

same-IsFed :
    (fs : List Frame) (s s' : Agent)
    → s'.jobs ≡ s.jobs
    → s'.slots ≡ s.slots
    → IsFed fs s
    → IsFed fs s'
same-IsFed fs s s' j k h = record {
  slotted = λ r n e.
      subst
        (λ js.
          (job : Job) × (get_elem? js n ≡ some job)
          × (job.route ≡ r)
          × IsEnd (given job) (deliveries r fs))
        (sym j) (h.slotted r n (subst (λ l. find_slot r l ≡ some n) k e));
  fed = λ n job e. h.fed n job (subst (λ js. get_elem? js n ≡ some job) j e);
}

module _ (fs : List Frame) (s : Agent) (h : IsFed fs s) (route : ℕ) (raw : Blob) where
  -- No slot has the route of the payload.
  lost-IsFed : find_slot route s.slots ≡ none → IsFed (fs ++ relay_deliver route raw ∷ []) s
  lost-IsFed e = pass-IsFed fs s h (relay_deliver route raw) (λ r j q.
      elim (Bool-cases (route == r)) [
        | inr other ↦ other_route route r raw other
        | inl equal ↦
            let n : route ≡ r = ground arith in
            let found : find_slot route s.slots ≡ some j =
              subst (λ m. find_slot m s.slots ≡ some j) (sym n) q in
            absurd (cc)
      ])

  removed-IsFed :
      IsFed (fs ++ relay_deliver route raw ∷ []) (record s { slots = remove_slot route s.slots })
  removed-IsFed =
      pass-IsFed fs (record s { slots = remove_slot route s.slots }) (remove-IsFed fs s h route)
        (relay_deliver route raw)
        (λ r j q.
          let other : r ≢ route = (find_slot-remove route r s.slots j q).1 in
          other_route route r raw (ground (arith, other)))

  spawn_decoded-IsFed :
      (d : Result ProtoError Payload)
      → find_slot route s.slots ≡ none
      → IsFed (fs ++ relay_deliver route raw ∷ []) (spawn_decoded route raw d s)
  unfolding spawn_decoded
  spawn_decoded-IsFed (err x) e = same-IsFed _ s _ refl refl (lost-IsFed e)
  spawn_decoded-IsFed (ok (shutdown i reason)) e = same-IsFed _ s _ refl refl (lost-IsFed e)
  spawn_decoded-IsFed (ok p) e =
      IsFed-if (is_start p) _ _ (start-IsFed fs s h route raw p) (lost-IsFed e)

  send_to-IsFed :
      (j : ℕ) (o : Option Job)
      → find_slot route s.slots ≡ some j
      → get_elem? s.jobs j ≡ o
      → IsFed (fs ++ relay_deliver route raw ∷ []) (send_to route raw j o s)
  unfolding send_to
  send_to-IsFed j none e q = removed-IsFed
  send_to-IsFed j (some job) e q =
      IsFed-if job.running _ _ (unfold queued in queue-IsFed fs s h route raw j job e q)
        removed-IsFed

  deliver-IsFed :
      (o : Option ℕ)
      → find_slot route s.slots ≡ o
      → IsFed (fs ++ relay_deliver route raw ∷ []) (deliver route raw o s)
  unfolding deliver spawn_worker
  deliver-IsFed none e = spawn_decoded-IsFed (decode raw) e
  deliver-IsFed (some j) e = send_to-IsFed j (get_elem? s.jobs j) e refl

cancelled :
    (fs : List Frame) (s : Agent) (j : ℕ) (o : Option Job)
    → get_elem? s.jobs j ≡ o
    → IsFed fs s
    → IsFed fs (cancel_job j o s)
unfolding cancel_job
cancelled fs s j none e h = h
cancelled fs s j (some job) e h =
    update-IsFed fs s h j job (record job { cancel = true }) e refl refl

cancel_route-IsFed :
    (fs : List Frame) (s : Agent) (route : ℕ) (o : Option ℕ)
    → IsFed fs s
    → IsFed fs (cancel_route route o s)
unfolding cancel_route
cancel_route-IsFed fs s route none h = h
cancel_route-IsFed fs s route (some j) h =
    cancelled fs (record s { slots = remove_slot route s.slots }) j (get_elem? s.jobs j) refl
      (remove-IsFed fs s h route)

-- A frame that is no payload for a job.
quiet-IsFed :
    (fs : List Frame) (s : Agent) (f : Frame)
    → ((r : ℕ) → delivered_by r f ≡ [])
    → IsFed fs s
    → IsFed (fs ++ f ∷ []) s
quiet-IsFed fs s f e h = pass-IsFed fs s h f (λ r j _. e r)

on_frame-IsFed :
    (fs : List Frame) (s : Agent) (f : Frame) → IsFed fs s → IsFed (fs ++ f ∷ []) (on_frame f s)
unfolding on_frame delivered_by
on_frame-IsFed fs s (relay_deliver route raw) h =
    deliver-IsFed fs s h route raw (find_slot route s.slots) refl
on_frame-IsFed fs s (route_cancel route) h =
    quiet-IsFed fs _ (route_cancel route) (λ r. refl)
      (cancel_route-IsFed fs s route (find_slot route s.slots) h)
on_frame-IsFed fs s (ping nonce) h =
    same-IsFed _ s _ refl refl (quiet-IsFed fs s (ping nonce) (λ r. refl) h)
on_frame-IsFed fs s f h = quiet-IsFed fs s f (λ r. refl) h

given-take_next : (q : List Blob) (job : Job) → job.queue ≡ q → given (take_next q job) ≡ given job
unfolding take_next
given-take_next [] job e = refl
given-take_next (raw ∷ q) job e =
    ap (λ l. job.first ∷ l) (append_assoc job.taken (raw ∷ []) q ∙ ap (λ l. job.taken ++ l) (sym e))

route-take_next : (q : List Blob) (job : Job) → (take_next q job).route ≡ job.route
unfolding take_next
route-take_next [] job = refl
route-take_next (raw ∷ q) job = refl

-- In every state that the agent reaches, however the threads of its jobs go on beside the loop: each job was
-- given, its start included, payloads that came for its route, in the order in which they came and without
-- a gap between them; and a slot leads to a job of its route, which was given everything that came for
-- the route since its start.
pub Reachable-IsFed : (fs : List Frame) (s : Agent) → Reachable fs s → IsFed fs s
unfolding init find_slot
Reachable-IsFed fs s starts = record {
  slotted = λ r j e. absurd (cc);
  fed = λ j job e. absurd (cc);
}
Reachable-IsFed fs s (reads f r e) = on_frame-IsFed _ _ f (Reachable-IsFed _ _ r)
Reachable-IsFed fs s (takes j job r e run) =
    update-IsFed _ _ (Reachable-IsFed _ _ r) j job (take_next job.queue job) e
      (route-take_next job.queue job) (given-take_next job.queue job refl)
Reachable-IsFed fs s (returns j job r e run) =
    update-IsFed _ _ (Reachable-IsFed _ _ r) j job (record job { running = false }) e refl refl
Reachable-IsFed fs s (leaves j job r e run) = remove-IsFed _ _ (Reachable-IsFed _ _ r) job.route
