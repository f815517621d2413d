-- ===== src/Agent/Plans/Targets.antt =====
-- The loop over the targets in `run_push` of src/agent.rs changes plans only.
use mathlib.Core.Path.{subst}
use apb.Prelude.{
  ℕ, sym, Option, none, some, Bool, true, false, List, [], ◌∷◌, ◌++◌, All, All-append,
  if◌then◌else◌,
}
use apb.Proto.Types.{Text}
use apb.Delta.Signatures.{SigSet}
use apb.Agent.Types.{PushTarget}
use apb.Agent.Plans.{
  Look, Line, Planned, planned, unreadable, Plans, all_planned, gave_up, plan_push_target,
  send_frames, plan_frames, end_plans, sent_plan, one_plan, plan_targets,
}
use apb.Agent.Plans.Choice.{SameFile, Chosen, plan_push_target-Chosen}

module _ (P : Text → ℕ → Type 0) where
  -- Every target that is planned, if the loop went through, has a path and a size of which `P` holds.
  abbrev pub AllPlanned : Plans → Type 0
  AllPlanned (gave_up l replies) = Unit {0}
  AllPlanned (all_planned ts l) = All (λ t. P t.dest t.size) ts

  same_file : (t t' : PushTarget) → SameFile t t' → P t.dest t.size → P t'.dest t'.size
  same_file t t' (n, d, s, h, m) p =
      subst (λ x. P x t'.size) (sym d) (subst (λ x. P t.dest x) (sym s) p)

  chosen_file :
      (sha256 : List ℕ → List ℕ) (look : Look) (t t' : PushTarget) (sigs : Option SigSet)
      → Chosen sha256 look t (planned t' sigs)
      → P t.dest t.size
      → P t'.dest t'.size
  chosen_file sha256 look t t' none h p = same_file t t' h.0 p
  chosen_file sha256 look t t' (some set) h p = same_file t t' h.0 p

  AllPlanned-if :
      (c : Bool) (x y : Plans) → AllPlanned x → AllPlanned y → AllPlanned (if c then x else y)
  AllPlanned-if true x y h k = h
  AllPlanned-if false x y h k = k

  sent_plan-AllPlanned :
      (next : PushTarget → Line → Plans) (t : PushTarget) (sent : Bool × Line)
      → ((l : Line) → AllPlanned (next t l))
      → AllPlanned (sent_plan next t sent)
  unfolding sent_plan
  sent_plan-AllPlanned next t (true, l) h = h l
  sent_plan-AllPlanned next t (false, l) h = tt

  one_plan-AllPlanned :
      (sha256 : List ℕ → List ℕ) (look : Look) (t : PushTarget) (next : PushTarget → Line → Plans)
      (job : ℕ) (x : Planned) (l : Line)
      → P t.dest t.size
      → Chosen sha256 look t x
      → ((t' : PushTarget) (l' : Line) → P t'.dest t'.size → AllPlanned (next t' l'))
      → AllPlanned (one_plan next job x l)
  unfolding one_plan
  one_plan-AllPlanned sha256 look t next job (unreadable t') l p c h = tt
  one_plan-AllPlanned sha256 look t next job (planned t' sigs) l p c h =
      sent_plan-AllPlanned next t' (send_frames (plan_frames job t' sigs) l)
        (λ l'. h t' l' (chosen_file sha256 look t t' sigs c p))

  pub plan_targets-AllPlanned :
      (sha256 : List ℕ → List ℕ) (job : ℕ) (look : PushTarget → Look)
      (before targets : List PushTarget) (l : Line)
      → All (λ t. P t.dest t.size) before
      → All (λ t. P t.dest t.size) targets
      → AllPlanned (plan_targets sha256 job look before targets l)
  unfolding plan_targets end_plans
  plan_targets-AllPlanned sha256 job look before [] l b h = b
  plan_targets-AllPlanned sha256 job look before (t ∷ ts) l b (p, h) =
      AllPlanned-if (look t).cancelled _ _ tt (
        one_plan-AllPlanned sha256 (look t) t _ job (plan_push_target sha256 (look t) t) l p
          (plan_push_target-Chosen sha256 (look t) t)
          (λ t' l' p'.
            plan_targets-AllPlanned sha256 job look (before ++ t' ∷ []) ts l'
              (All-append (λ t. P t.dest t.size) before (t' ∷ []) b (p', tt)) h))
