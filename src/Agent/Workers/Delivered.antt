-- ===== src/Agent/Workers/Delivered.antt =====
-- A payload that goes to its job, and one that starts a job.
use mathlib.Core.Path.{subst}
use apb.Prelude.{
  ℕ, ◌≡◌, refl, sym, ap, ◌∙◌, inl, inr, Bool-cases, some, true, false, List, [], ◌∷◌, ◌++◌,
  append-nil, append_assoc, ◌==◌, length, get_elem?, get_elem?-last, arith,
}
use apb.Proto.Types.{Blob, Payload, Frame, relay_deliver}
use apb.Ctrl.Plans.{set_at}
use apb.Agent.Workers.{Job, Agent, find_slot, new_job, start_job}
use apb.Agent.Workers.Fed.{
  delivered_by, deliveries, given, IsInfix, IsEnd, IsFed, deliveries-snoc, IsInfix-append,
  IsEnd-IsInfix,
}
use apb.Agent.Workers.Slots.{
  get_elem?-set_at_either, set_at-new, set_at-other, get_elem?-append, get_elem?-length,
}

pub other_route :
    (route r : ℕ) (raw : Blob)
    → (route == r) ≡ false
    → delivered_by r (relay_deliver route raw) ≡ []
unfolding delivered_by
other_route route r raw e = rw e refl

own_route : (route : ℕ) (raw : Blob) → delivered_by route (relay_deliver route raw) ≡ raw ∷ []
unfolding delivered_by
own_route route raw = let e : (route == route) ≡ true = ground arith in rw e refl

-- The payload is the last that the route has got.
IsEnd-deliver :
    (route : ℕ) (raw : Blob) (fs : List Frame) (last : List Blob)
    → IsEnd last (deliveries route fs)
    → IsEnd (last ++ raw ∷ []) (deliveries route (fs ++ relay_deliver route raw ∷ []))
IsEnd-deliver route raw fs last (before, q) = (
  before,
  deliveries-snoc route fs (relay_deliver route raw)
      ∙ (λ i. q i ++ own_route route raw i)
      ∙ append_assoc before last (raw ∷ []),
)

-- A route that the payload is not for.
IsEnd-other :
    (route r : ℕ) (raw : Blob) (fs : List Frame) (last : List Blob)
    → (route == r) ≡ false
    → IsEnd last (deliveries r fs)
    → IsEnd last (deliveries r (fs ++ relay_deliver route raw ∷ []))
IsEnd-other route r raw fs last e (before, q) = (
  before,
  deliveries-snoc r fs (relay_deliver route raw)
      ∙ ap (λ l. deliveries r fs ++ l) (other_route route r raw e)
      ∙ append-nil (deliveries r fs)
      ∙ q,
)

unfoldable pub queued : Blob → Job → Job
queued raw job = record job { queue = job.queue ++ raw ∷ [] }

given-queued : (raw : Blob) (job : Job) → given job ++ raw ∷ [] ≡ given (queued raw job)
unfolding queued
given-queued raw job = ap (λ l. job.first ∷ l) (append_assoc job.taken job.queue (raw ∷ []))

module _ (fs : List Frame) (s : Agent) (h : IsFed fs s) (route : ℕ) (raw : Blob) where
  fed_later :
      (j : ℕ) (job : Job)
      → get_elem? s.jobs j ≡ some job
      → IsInfix (given job) (deliveries job.route (fs ++ relay_deliver route raw ∷ []))
  fed_later j job e =
      subst (IsInfix (given job)) (sym (deliveries-snoc job.route fs (relay_deliver route raw)))
        (IsInfix-append (given job) (deliveries job.route fs) _ (h.fed j job e))

  pub queue-IsFed :
      (j : ℕ) (job : Job)
      → find_slot route s.slots ≡ some j
      → get_elem? s.jobs j ≡ some job
      → IsFed
          (fs ++ relay_deliver route raw ∷ [])
          (record s { jobs = set_at s.jobs j (queued raw job) })
  unfolding queued
  queue-IsFed j job slot here =
      let (old, there, mine, ended) = h.slotted route j slot in
      let it : old ≡ job = cc in
      let routed : job.route ≡ route = sym (ap (λ x. x.route) it) ∙ mine in
      let now : IsEnd (given (queued raw job))
          (deliveries route (fs ++ relay_deliver route raw ∷ [])) =
        subst (λ l. IsEnd l (deliveries route (fs ++ relay_deliver route raw ∷ [])))
          (ap (λ x. given x ++ raw ∷ []) it ∙ given-queued raw job)
          (IsEnd-deliver route raw fs (given old) ended) in
      record {
        slotted = λ r k e. elim (Bool-cases (route == r)) [
          | inl q ↦
              let equal : route ≡ r = ground arith in
              let index : k ≡ j =
                let found : find_slot r s.slots ≡ some j =
                  subst (λ n. find_slot n s.slots ≡ some j) equal slot in
                cc in
              (
                queued raw job,
                subst (λ n. get_elem? (set_at s.jobs j (queued raw job)) n ≡ some (queued raw job))
                    (sym index) (set_at-new s.jobs j (queued raw job) job here),
                routed ∙ equal,
                subst
                    (λ n.
                      IsEnd (given (queued raw job))
                        (deliveries n (fs ++ relay_deliver route raw ∷ [])))
                    equal now,
              )
          | inr q ↦
              let (x, found, its, x_end) = h.slotted r k e in
              elim (set_at-other s.jobs j (queued raw job) k x found) [
                | inr kept ↦ (x, kept, its, IsEnd-other route r raw fs (given x) q x_end)
                | inl same ↦
                    let stood : get_elem? s.jobs j ≡ some x =
                      subst (λ n. get_elem? s.jobs n ≡ some x) same found in
                    let that : job ≡ x = cc in
                    let equal : route ≡ r = sym routed ∙ ap (λ y. y.route) that ∙ its in
                    absurd (ground arith)
              ]
        ];
        fed = λ k x e. elim (get_elem?-set_at_either s.jobs j (queued raw job) k x e) [
          | inr kept ↦ fed_later k x kept
          | inl (same, q) ↦
              subst
                (λ y. IsInfix (given y) (deliveries y.route (fs ++ relay_deliver route raw ∷ [])))
                (sym q)
                (IsEnd-IsInfix (given (queued raw job)) _ (
                  subst
                    (λ n.
                      IsEnd (given (queued raw job))
                        (deliveries n (fs ++ relay_deliver route raw ∷ [])))
                    (sym routed) now))
        ];
      }

  pub start-IsFed :
      (p : Payload) → IsFed (fs ++ relay_deliver route raw ∷ []) (start_job route raw p s)
  unfolding start_job new_job find_slot
  start-IsFed p =
      let now : IsEnd (raw ∷ []) (deliveries route (fs ++ relay_deliver route raw ∷ [])) =
        IsEnd-deliver route raw fs []
          (deliveries route fs, sym (append-nil (deliveries route fs))) in
      record {
        slotted = λ r k e. elim (Bool-cases (route == r)) [
          | inl q ↦
              let equal : route ≡ r = ground arith in
              let first : some (length s.jobs) ≡ some k = rw q at e in
              let index : length s.jobs ≡ k = cc in
              (
                new_job route raw p,
                subst
                    (λ n.
                      get_elem? (s.jobs ++ new_job route raw p ∷ []) n ≡ some (new_job route raw p))
                    index (get_elem?-length s.jobs (new_job route raw p)),
                equal,
                subst (λ n. IsEnd (raw ∷ []) (deliveries n (fs ++ relay_deliver route raw ∷ [])))
                    equal now,
              )
          | inr q ↦
              let kept : find_slot r s.slots ≡ some k = rw q at e in
              let (x, found, its, x_end) = h.slotted r k kept in
              (
                x,
                get_elem?-append s.jobs (new_job route raw p ∷ []) k x found,
                its,
                IsEnd-other route r raw fs (given x) q x_end,
              )
        ];
        fed = λ k x e. elim (get_elem?-last s.jobs (new_job route raw p) k x e) [
          | inl old ↦ fed_later k x old
          | inr (n, q) ↦
              subst
                (λ y. IsInfix (given y) (deliveries y.route (fs ++ relay_deliver route raw ∷ [])))
                (sym q) (IsEnd-IsInfix (raw ∷ []) _ now)
        ];
      }
