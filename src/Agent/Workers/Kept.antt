-- ===== src/Agent/Workers/Kept.antt =====
-- What a change of a job, a lost slot and a frame for nobody leave as it is.
use mathlib.Core.Path.{subst}
use apb.Prelude.{ℕ, ◌≡◌, sym, ap, ◌∙◌, inl, inr, some, List, [], ◌∷◌, ◌++◌, append-nil, get_elem?}
use apb.Proto.Types.{Frame}
use apb.Ctrl.Plans.{set_at}
use apb.Agent.Workers.{Job, Agent, find_slot, remove_slot}
use apb.Agent.Workers.Fed.{
  delivered_by, deliveries, given, IsInfix, IsFed, deliveries-snoc, IsInfix-append,
}
use apb.Agent.Workers.Slots.{get_elem?-set_at_either, set_at-new, set_at-other, find_slot-remove}

module _ (fs : List Frame) (s : Agent) (h : IsFed fs s) where
  -- A job changes, and keeps its route and what it was given.
  pub update-IsFed :
      (j : ℕ) (job job' : Job)
      → get_elem? s.jobs j ≡ some job
      → job'.route ≡ job.route
      → given job' ≡ given job
      → IsFed fs (record s { jobs = set_at s.jobs j job' })
  update-IsFed j job job' here r g = record {
    slotted = λ route k e.
        let (old, there, mine, (before, q)) = h.slotted route k e in
        elim (set_at-other s.jobs j job' k old there) [
          | inr kept ↦ (old, kept, mine, (before, q))
          | inl same ↦
              let stood : get_elem? s.jobs j ≡ some old =
                subst (λ n. get_elem? s.jobs n ≡ some old) same there in
              let it : job ≡ old = cc in
              (
                job',
                subst (λ n. get_elem? (set_at s.jobs j job') n ≡ some job') (sym same)
                    (set_at-new s.jobs j job' job here),
                r ∙ ap (λ x. x.route) it ∙ mine,
                (before, q ∙ ap (λ l. before ++ l) (sym (g ∙ ap given it))),
              )
        ];
    fed = λ k x e. elim (get_elem?-set_at_either s.jobs j job' k x e) [
      | inr old ↦ h.fed k x old
      | inl (same, q) ↦
          subst (λ y. IsInfix (given y) (deliveries y.route fs)) (sym q)
            (subst (λ l. IsInfix l (deliveries job'.route fs)) (sym g)
              (subst (λ n. IsInfix (given job) (deliveries n fs)) (sym r) (h.fed j job here)))
    ];
  }

  pub remove-IsFed : (route : ℕ) → IsFed fs (record s { slots = remove_slot route s.slots })
  remove-IsFed route = record {
    slotted = λ r j e. h.slotted r j (find_slot-remove route r s.slots j e).0;
    fed = h.fed;
  }

  -- A frame that no slot's route gets.
  pub pass-IsFed :
      (f : Frame)
      → ((r j : ℕ) → find_slot r s.slots ≡ some j → delivered_by r f ≡ [])
      → IsFed (fs ++ f ∷ []) s
  pass-IsFed f none_for = record {
    slotted = λ r j e.
        let (job, there, mine, (before, q)) = h.slotted r j e in
        (
          job,
          there,
          mine,
          (
            before,
            deliveries-snoc r fs f
                ∙ ap (λ l. deliveries r fs ++ l) (none_for r j e)
                ∙ append-nil (deliveries r fs)
                ∙ q,
          ),
        );
    fed = λ j job e. subst (IsInfix (given job)) (sym (deliveries-snoc job.route fs f)) (
        IsInfix-append (given job) (deliveries job.route fs) (delivered_by job.route f)
          (h.fed j job e));
  }
