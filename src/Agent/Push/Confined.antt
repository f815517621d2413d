-- ===== src/Agent/Push/Confined.antt =====
-- What a whole push may do to the node, whatever the controller sends to `run_push` of src/agent.rs.
use mathlib.Core.Path.{subst}
use apb.Prelude.{
  ℕ, ◌^◌, ◌<◌, ◌≡◌, ◌∙◌, Option, refl, sym, ◌⊎◌, inl, inr, Bool-cases, none, some, false, List, [],
  ◌∷◌, ◌++◌, ◌==◌, length, get_elem?, All, All-of_get_elem?, All-get_elem?, All-after,
}
use apb.Proto.Types.{Text, Blob}
use apb.Delta.Writer.{all_zero}
use apb.Agent.Types.{PushTarget, Store, Event}
use apb.Agent.Manifest.{Effect, Listed, run_list, check_count, effects_on}
use apb.Agent.Manifest.Rest.{run_list-Suffix}
use apb.Agent.Manifest.Inside.{IsInside, Reaches, Lists, run_list-Lists}
use apb.Agent.Manifest.Linked.{IsLinked, Clears, Cleared, run_list-Cleared}
use apb.Agent.Manifest.Cleared.{IsRemoved, All-IsRemoved, effects_on-IsRemoved}
use apb.Agent.Plans.{Look, Line, Plans, all_planned, gave_up}
use apb.Agent.Plans.Targets.{AllPlanned, plan_targets-AllPlanned}
use apb.Agent.Data.{Outcome, more, done}
use apb.Agent.Data.Stored.{Safe, Sound, IsAnnounced, IsShort}
use apb.Agent.Data.Safety.{run_data-Safe}
use apb.Agent.Push.{Pushed, idle, nothing_listed, data_phase, plan_phase, run_push}

-- The targets that the manifest listed.
abbrev pub targets_of : Listed → List PushTarget
targets_of (Listed.more s) = s.targets
targets_of (Listed.ended declared s) = s.targets
targets_of (Listed.stopped s replies) = s.targets

-- A path may get a file with the hash, not all zero, of a `FileEnd` of the job, or lose its file to a link
-- that the job asks for.
abbrev pub Changed :
    (List ℕ → List ℕ) → Text → ℕ → List Event → (path : Text) → Option (List ℕ) → Type 0
Changed sha256 root job events path (some content) =
    IsAnnounced job events (sha256 content) × (all_zero (sha256 content) ≡ false)
Changed sha256 root job events path none = IsLinked job root events path

-- Each path has its old file, or it is inside the root and was changed.
abbrev pub Inside : (List ℕ → List ℕ) → Text → ℕ → List Event → Store → Store → Type 0
Inside sha256 root job events old new =
    (path : Text)
    → (new path ≡ old path) ⊎ (IsInside root path × Changed sha256 root job events path (new path))

abbrev pub Kept : (List ℕ → List ℕ) → Text → ℕ → List Event → Store → Outcome → Type 0
Kept sha256 root job events old (more r) = Inside sha256 root job events old r.files
Kept sha256 root job events old (done r replies) =
    (r.current ≡ none) × (r.tmp ≡ false) × Inside sha256 root job events old r.files

abbrev pub Confined : (List ℕ → List ℕ) → Text → ℕ → List Event → Store → Pushed → Type 0
Confined sha256 root job events old p =
    All (Reaches root) p.effects × Kept sha256 root job events old p.outcome

Allowed : Text → PushTarget → Type 0
Allowed root t = IsInside root t.dest × (t.size < 2 ^ 63)

IsAnnounced-after :
    (job : ℕ) (xs ys : List Event) (sha : Blob)
    → IsAnnounced job ys sha
    → IsAnnounced job (xs ++ ys) sha
IsAnnounced-after job [] ys sha h = h
IsAnnounced-after job (x ∷ xs) ys sha h = inr (IsAnnounced-after job xs ys sha h)

module _ (sha256 : List ℕ → List ℕ) (root : Text) (job : ℕ) (events : List Event)
    (files : Store) where
  removed-IsInside :
      (effects : List Effect) (path : Text)
      → All (Reaches root) effects
      → IsRemoved effects path
      → IsInside root path
  removed-IsInside effects path touched r =
      elim (All-IsRemoved (Reaches root) effects path touched r) [
        | inl inside ↦ inside
        | inr q ↦ absurd (cc)
      ]

  effects-Inside :
      (effects : List Effect)
      → All (Reaches root) effects
      → All (Clears (IsLinked job root events)) effects
      → Inside sha256 root job events files (effects_on effects files)
  effects-Inside effects touched cleared path = elim (effects_on-IsRemoved effects files path) [
    | inl same ↦ inl same
    | inr (gone, r) ↦ inr (
      removed-IsInside effects path touched r,
      subst (Changed sha256 root job events path) (sym gone)
          (All-IsRemoved (Clears (IsLinked job root events)) effects path cleared r),
    )
  ]

  Sound-Inside :
      (effects : List Effect) (targets : List PushTarget) (before rest : List Event) (new : Store)
      → events ≡ before ++ rest
      → All (Reaches root) effects
      → All (Clears (IsLinked job root events)) effects
      → All (Allowed root) targets
      → Sound sha256 targets (IsAnnounced job rest) (effects_on effects files) new
      → Inside sha256 root job events files new
  unfolding Allowed
  Sound-Inside effects targets before rest new e touched cleared allowed h path = elim (h path) [
    | inl same ↦ elim (effects-Inside effects touched cleared path) [
      | inl kept ↦ inl (same ∙ kept)
      | inr (inside, c) ↦ inr (inside, subst (Changed sha256 root job events path) (sym same) c)
    ]
    | inr (content, q, d) ↦
        let (inside, small) =
          All-get_elem? (Allowed root) targets d.idx d.target allowed d.listed in
        let ended = IsAnnounced-after job before rest (sha256 content) d.claimed in
        inr (
          subst (IsInside root) d.here inside,
          subst (Changed sha256 root job events path) (sym q)
              ((subst (λ l. IsAnnounced job l (sha256 content)) (sym e) ended, d.given)),
        )
  ]

  Safe-Kept :
      (effects : List Effect) (targets : List PushTarget) (before rest : List Event) (x : Outcome)
      → events ≡ before ++ rest
      → All (Reaches root) effects
      → All (Clears (IsLinked job root events)) effects
      → All (Allowed root) targets
      → Safe sha256 targets (IsAnnounced job rest) (effects_on effects files) x
      → Kept sha256 root job events files x
  Safe-Kept effects targets before rest (more r) e touched cleared allowed (h, sound) =
      Sound-Inside effects targets before rest r.files e touched cleared allowed sound
  Safe-Kept effects targets before rest (done r replies) e touched cleared allowed (q, h, sound) =
      (q, h, Sound-Inside effects targets before rest r.files e touched cleared allowed sound)

  data_phase-Confined :
      (effects : List Effect) (before rest : List Event) (p : Plans)
      → events ≡ before ++ rest
      → All IsShort rest
      → All (Reaches root) effects
      → All (Clears (IsLinked job root events)) effects
      → AllPlanned (λ dest size. IsInside root dest × (size < 2 ^ 63)) p
      → Confined sha256 root job events files
          (data_phase sha256 job effects rest (effects_on effects files) p)
  unfolding data_phase Allowed
  data_phase-Confined effects before rest (gave_up l replies) e short touched cleared h =
      (touched, (refl, refl, effects-Inside effects touched cleared))
  data_phase-Confined effects before rest (all_planned ts l) e short touched cleared h = (
    touched,
    Safe-Kept effects ts before rest _ e touched cleared h (
        run_data-Safe sha256 ts job rest (idle (effects_on effects files)) short
          (λ i t q. (All-get_elem? (Allowed root) ts i t h q).1) refl),
  )

  plan_phase-Confined :
      (look : PushTarget → Look) (l : Line) (before rest : List Event) (x : Listed)
      → events ≡ before ++ rest
      → All IsShort rest
      → Lists root x
      → Cleared (IsLinked job root events) x
      → ((i : ℕ) (t : PushTarget) → get_elem? (targets_of x) i ≡ some t → t.size < 2 ^ 63)
      → Confined sha256 root job events files
          (plan_phase sha256 job look l rest files (check_count x))
  unfolding plan_phase check_count
  plan_phase-Confined look l before rest (Listed.more s) e short h c small =
      (h.inside, effects-Inside s.effects h.inside c)
  plan_phase-Confined look l before rest (Listed.stopped s replies) e short h c small =
      (h.inside, (refl, refl, effects-Inside s.effects h.inside c))
  plan_phase-Confined look l before rest (Listed.ended n s) e short h c small =
      elim (Bool-cases (n == length s.targets)) [
        | inr q ↦ rw q (h.inside, (refl, refl, effects-Inside s.effects h.inside c))
        | inl q ↦
            let allowed =
              All-of_get_elem? (λ (t : PushTarget). IsInside root t.dest × (t.size < 2 ^ 63))
                s.targets (λ i t k. ((h.ordered i t k).1, small i t k)) in
            rw q (
              data_phase-Confined s.effects before rest _ e short h.inside c (
                plan_targets-AllPlanned (λ dest size. IsInside root dest × (size < 2 ^ 63)) sha256
                  job look [] s.targets l tt allowed))
      ]

  -- Whatever the controller sends in whatever order and whatever the machine answers, if the frames and the
  -- sizes that the manifest lists are below 2^63: every path at which a push makes, removes or changes a
  -- directory or a link is, as a text, the root or lies below it by entries other than `.` and `..`, and so
  -- is each directory that it makes for a link, except the directory of the root for a link at the root
  -- itself; each path has its old file, or it is such a path and has a file whose hash is not all zero and
  -- was announced by a `FileEnd` of the job, or it has none, and a `Symlink` of the job has that path; and when the handler has returned, no file is open and no temporary file is pending (made, and
  -- neither renamed nor given to `remove_file`).
  pub run_push-Confined :
      (look : PushTarget → Look) (l : Line)
      → All IsShort events
      → ((i : ℕ) (t : PushTarget)
          → get_elem? (targets_of (run_list job root events nothing_listed).0) i ≡ some t
          → t.size < 2 ^ 63)
      → Confined sha256 root job events files (run_push sha256 job root look l events files)
  unfolding run_push
  run_push-Confined look l short small =
      let (before, e) = run_list-Suffix job root events nothing_listed in
      plan_phase-Confined look l before _ _ e
        (All-after IsShort before _ (subst (All IsShort) e short))
        (run_list-Lists root job events nothing_listed
          (record { ordered = λ i t q. absurd (cc); inside = tt }))
        (run_list-Cleared job root events nothing_listed tt) small
