-- ===== src/Ctrl/Pull/Planning/Kept.antt =====
-- The loop of `plan_pull_files` of src/ctrl.rs changes plans only, and touches the paths of its files only.
use mathlib.Core.Path.{subst}
use apb.Prelude.{
  ℕ, sym, Option, none, some, Bool, true, false, List, [], ◌∷◌, ◌≡◌, ◌++◌, All, All-append,
}
use apb.Proto.Types.{Text}
use apb.Delta.Signatures.{SigSet}
use apb.Agent.Manifest.{Effect, set_mode}
use apb.Agent.Manifest.Inside.{IsInside}
use apb.Agent.Plans.{Line, send_frames}
use apb.Ctrl.Plans.{FilePlan}
use apb.Ctrl.Pull.{PullTarget}
use apb.Ctrl.Pull.Planning.{
  Local, Planned, planned, unreadable, Planning, Plans, all_planned, gave_up, plan_file,
  plan_frames, skip_file, sent_plan, one_plan, end_plans, plan_pull_files,
}
use apb.Ctrl.Pull.Planning.Choice.{SameFile, Chosen, plan_file-Chosen}

module _ (root : Text) (P : ℕ → Type 0) where
  -- The destination is inside the root, and the size is as it should be.
  abbrev pub Allowed : PullTarget → Type 0
  Allowed t = IsInside root t.dest × P t.size

  abbrev pub AllPlanned : (Effect → Type 0) → Plans → Type 0
  AllPlanned E (gave_up e s) = All E s.effects
  AllPlanned E (all_planned ts s) = All Allowed ts × All E s.effects

  same_file : (t t' : PullTarget) → SameFile t t' → Allowed t → Allowed t'
  same_file t t' f (inside, size) =
      (subst (IsInside root) (sym f.dest) inside, subst P (sym f.size) size)

  planned_file :
      (sha256 : List ℕ → List ℕ) (here : Local) (t t' : PullTarget) (sigs : Option SigSet)
      → Chosen sha256 here t (planned t' sigs)
      → Allowed t
      → Allowed t'
  planned_file sha256 here t t' none h a = same_file t t' h.0 a
  planned_file sha256 here t t' (some set) h a = same_file t t' h.0 a

  -- What holds of the effects: the plans set modes only.
  module _ (E : Effect → Type 0)
      (modes : (t : PullTarget) → IsInside root t.dest → E (set_mode t.dest t.mode)) where
    skip_file-All :
        (plan : FilePlan) (t : PullTarget) (s : Planning)
        → IsInside root t.dest
        → All E s.effects
        → All E (skip_file plan t s).effects
    unfolding skip_file
    skip_file-All FilePlan.whole t s inside h = h
    skip_file-All FilePlan.delta t s inside h = h
    skip_file-All FilePlan.skip t s inside h =
        All-append E s.effects (set_mode t.dest t.mode ∷ []) h (modes t inside, tt)

    sent_plan-AllPlanned :
        (next : PullTarget → Planning → Plans) (t : PullTarget) (s : Planning) (sent : Bool × Line)
        → All E s.effects
        → ((s' : Planning) → All E s'.effects → AllPlanned E (next t s'))
        → AllPlanned E (sent_plan next t s sent)
    unfolding sent_plan
    sent_plan-AllPlanned next t s (true, l) h k = k (record s { line = l }) h
    sent_plan-AllPlanned next t s (false, l) h k = h

    one_plan-AllPlanned :
        (sha256 : List ℕ → List ℕ) (here : Local) (t : PullTarget)
        (next : PullTarget → Planning → Plans) (job : ℕ) (x : Planned) (s : Planning)
        → Allowed t
        → All E s.effects
        → Chosen sha256 here t x
        → ((t' : PullTarget) (s' : Planning)
            → Allowed t'
            → All E s'.effects
            → AllPlanned E (next t' s'))
        → AllPlanned E (one_plan next job x s)
    unfolding one_plan
    one_plan-AllPlanned sha256 here t next job (unreadable t') s a h c k = h
    one_plan-AllPlanned sha256 here t next job (planned t' sigs) s a h c k =
        let allowed = planned_file sha256 here t t' sigs c a in
        sent_plan-AllPlanned next t' (skip_file t'.plan t' s)
          (send_frames (plan_frames job t' sigs) s.line) (skip_file-All t'.plan t' s allowed.0 h)
          (λ s' h'. k t' s' allowed h')

    end_plans-AllPlanned :
        (before : List PullTarget) (s : Planning) (sent : Bool × Line)
        → All Allowed before
        → All E s.effects
        → AllPlanned E (end_plans before s sent)
    unfolding end_plans
    end_plans-AllPlanned before s (true, l) b h = (b, h)
    end_plans-AllPlanned before s (false, l) b h = h

    pub plan_pull_files-AllPlanned :
        (sha256 : List ℕ → List ℕ) (job : ℕ) (here : PullTarget → Local)
        (before ts : List PullTarget) (s : Planning)
        → All Allowed before
        → All (λ t. Allowed t × (t.plan ≡ FilePlan.whole)) ts
        → All E s.effects
        → AllPlanned E (plan_pull_files sha256 job here before ts s)
    unfolding plan_pull_files
    plan_pull_files-AllPlanned sha256 job here before [] s b h e =
        end_plans-AllPlanned before s _ b e
    plan_pull_files-AllPlanned sha256 job here before (t ∷ ts) s b ((a, w), h) e =
        one_plan-AllPlanned sha256 (here t) t _ job (plan_file sha256 (here t) t) s a e
          (plan_file-Chosen sha256 (here t) t w)
          (λ t' s' a' e'.
            plan_pull_files-AllPlanned sha256 job here (before ++ t' ∷ []) ts s'
              (All-append Allowed before (t' ∷ []) b (a', tt)) h e')
