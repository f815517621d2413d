-- ===== src/Ctrl/Pull/Whole/Confined.antt =====
-- What a whole pull may do on the controller's machine, `pull` of src/ctrl.rs.
use mathlib.Core.Path.{subst}
use apb.Prelude.{
  ℕ, ◌^◌, ◌<◌, ◌≡◌, ◌∙◌, Option, refl, sym, ◌⊎◌, inl, inr, none, some, false, List, [], ◌∷◌, ◌++◌,
  get_elem?, map, All, All-of_get_elem?, All-get_elem?, All-after,
}
use apb.Proto.Types.{Text, Blob}
use apb.Delta.Writer.{all_zero}
use apb.Agent.Types.{Store}
use apb.Agent.Manifest.{Effect, effects_on}
use apb.Agent.Manifest.Inside.{IsInside, Touches}
use apb.Agent.Manifest.Linked.{Clears}
use apb.Ctrl.Pull.Listing.Linked.{IsLinked, Cleared, take_manifest-Cleared}
use apb.Agent.Manifest.Cleared.{All-IsRemoved, effects_on-IsRemoved}
use apb.Agent.Data.Stored.{Sound}
use apb.Agent.Plans.{Line}
use apb.Ctrl.Plans.{FilePlan}
use apb.Ctrl.Pull.{PullTarget, Arrival, as_push}
use apb.Ctrl.Pull.Listing.{Manifest, Walked, take_manifest}
use apb.Ctrl.Pull.Listing.Inside.{Walks, take_manifest-Walks}
use apb.Ctrl.Pull.Listing.Rest.{take_manifest-IsRest}
use apb.Ctrl.Pull.Planning.{Local, Plans, all_planned, gave_up}
use apb.Ctrl.Pull.Planning.Kept.{Allowed, AllPlanned, plan_pull_files-AllPlanned}
use apb.Ctrl.Pull.Data.{Outcome, more, done}
use apb.Ctrl.Pull.Data.Safety.{Safe, IsAnnounced, IsShort, receive_files-Safe}
use apb.Ctrl.Pull.Whole.{Pulled, idle, nothing_walked, fresh, data_phase, plan_phase, pull}

-- The files that the manifest listed.
abbrev pub files_of : Walked → List PullTarget
files_of (Walked.more m) = m.files
files_of (Walked.ended m) = m.files
files_of (Walked.failed m e) = m.files

-- A path may get a file with the hash, not all zero, of a `FileEnd` of the job, or lose its file to a link
-- that the job asks for.
abbrev pub Changed :
    (List ℕ → List ℕ) → Text → ℕ → List Arrival → (path : Text) → Option (List ℕ) → Type 0
Changed sha256 root job xs path (some content) =
    IsAnnounced job xs (sha256 content) × (all_zero (sha256 content) ≡ false)
Changed sha256 root job xs path none = IsLinked job root xs path

-- Each path has its old file, or it is inside the destination and was changed.
abbrev pub Inside : (List ℕ → List ℕ) → Text → ℕ → List Arrival → Store → Store → Type 0
Inside sha256 root job xs old new =
    (path : Text)
    → (new path ≡ old path) ⊎ (IsInside root path × Changed sha256 root job xs path (new path))

abbrev pub Kept : (List ℕ → List ℕ) → Text → ℕ → List Arrival → Store → Outcome → Type 0
Kept sha256 root job xs old (more s) = Inside sha256 root job xs old s.files
Kept sha256 root job xs old (done s result) =
    (s.current ≡ none) × (s.tmp ≡ false) × Inside sha256 root job xs old s.files

abbrev pub Confined : (List ℕ → List ℕ) → Text → ℕ → List Arrival → Store → Pulled → Type 0
Confined sha256 root job xs old p =
    All (Touches root) p.effects × Kept sha256 root job xs old p.outcome

IsAnnounced-after :
    (job : ℕ) (xs ys : List Arrival) (sha : Blob)
    → IsAnnounced job ys sha
    → IsAnnounced job (xs ++ ys) sha
IsAnnounced-after job [] ys sha h = h
IsAnnounced-after job (x ∷ xs) ys sha h = inr (IsAnnounced-after job xs ys sha h)

IsSmall : ℕ → Type 0
IsSmall n = n < 2 ^ 63

All-as_push :
    (root : Text) (ts : List PullTarget)
    → All (Allowed root IsSmall) ts
    → All (λ t. IsInside root t.dest) (map as_push ts)
All-as_push root [] h = tt
All-as_push root (t ∷ ts) ((inside, small), h) = (inside, All-as_push root ts h)

module _ (sha256 : List ℕ → List ℕ) (root : Text) (job : ℕ) (xs : List Arrival)
    (files : Store) where
  effects-Inside :
      (effects : List Effect)
      → All (Touches root) effects
      → All (Clears (IsLinked job root xs)) effects
      → Inside sha256 root job xs files (effects_on effects files)
  effects-Inside effects touched cleared path = elim (effects_on-IsRemoved effects files path) [
    | inl same ↦ inl same
    | inr (gone, r) ↦ inr (
      All-IsRemoved (Touches root) effects path touched r,
      subst (Changed sha256 root job xs path) (sym gone)
          (All-IsRemoved (Clears (IsLinked job root xs)) effects path cleared r),
    )
  ]

  Sound-Inside :
      (effects : List Effect) (ts : List PullTarget) (before rest : List Arrival) (new : Store)
      → xs ≡ before ++ rest
      → All (Touches root) effects
      → All (Clears (IsLinked job root xs)) effects
      → All (Allowed root IsSmall) ts
      → Sound sha256 (map as_push ts) (IsAnnounced job rest) (effects_on effects files) new
      → Inside sha256 root job xs files new
  Sound-Inside effects ts before rest new e touched cleared allowed h path = elim (h path) [
    | inl same ↦ elim (effects-Inside effects touched cleared path) [
      | inl kept ↦ inl (same ∙ kept)
      | inr (inside, c) ↦ inr (inside, subst (Changed sha256 root job xs path) (sym same) c)
    ]
    | inr (content, q, d) ↦
        let inside =
          All-get_elem? (λ t. IsInside root t.dest) (map as_push ts) d.idx d.target
            (All-as_push root ts allowed) d.listed in
        let ended = IsAnnounced-after job before rest (sha256 content) d.claimed in
        inr (
          subst (IsInside root) d.here inside,
          subst (Changed sha256 root job xs path) (sym q)
              ((subst (λ l. IsAnnounced job l (sha256 content)) (sym e) ended, d.given)),
        )
  ]

  Safe-Kept :
      (effects : List Effect) (ts : List PullTarget) (before rest : List Arrival) (o : Outcome)
      → xs ≡ before ++ rest
      → All (Touches root) effects
      → All (Clears (IsLinked job root xs)) effects
      → All (Allowed root IsSmall) ts
      → Safe sha256 ts (IsAnnounced job rest) (effects_on effects files) o
      → Kept sha256 root job xs files o
  Safe-Kept effects ts before rest (more s) e touched cleared allowed (h, sound) =
      Sound-Inside effects ts before rest s.files e touched cleared allowed sound
  Safe-Kept effects ts before rest (done s result) e touched cleared allowed (q, h, sound) =
      (q, h, Sound-Inside effects ts before rest s.files e touched cleared allowed sound)

  data_phase-Confined :
      (m : Manifest) (before rest : List Arrival) (p : Plans)
      → xs ≡ before ++ rest
      → All (λ x. IsShort x.event) rest
      → AllPlanned root IsSmall (Touches root) p
      → AllPlanned root IsSmall (Clears (IsLinked job root xs)) p
      → Confined sha256 root job xs files (data_phase sha256 job m rest files p)
  unfolding data_phase
  data_phase-Confined m before rest (gave_up x s) e short h c =
      (h, (refl, refl, effects-Inside s.effects h c))
  data_phase-Confined m before rest (all_planned ts s) e short (h, touched) (same, cleared) = (
    touched,
    Safe-Kept s.effects ts before rest _ e touched cleared h (
        receive_files-Safe sha256 ts job rest (idle (effects_on s.effects files) s.reused) short
          (λ i t q. unfold IsSmall in (All-get_elem? (Allowed root IsSmall) ts i t h q).1) refl),
  )

  plan_phase-Confined :
      (here : PullTarget → Local) (l : Line) (before rest : List Arrival) (w : Walked)
      → xs ≡ before ++ rest
      → All (λ x. IsShort x.event) rest
      → Walks root w
      → Cleared (IsLinked job root xs) w
      → ((i : ℕ) (t : PullTarget) → get_elem? (files_of w) i ≡ some t → t.size < 2 ^ 63)
      → Confined sha256 root job xs files (plan_phase sha256 job here l rest files w)
  unfolding plan_phase
  plan_phase-Confined here l before rest (Walked.more m) e short h c small =
      (h.inside, effects-Inside m.effects h.inside c)
  plan_phase-Confined here l before rest (Walked.failed m x) e short h c small =
      (h.inside, (refl, refl, effects-Inside m.effects h.inside c))
  plan_phase-Confined here l before rest (Walked.ended m) e short h c small =
      let listed =
        All-of_get_elem? (λ (t : PullTarget). Allowed root IsSmall t × (t.plan ≡ FilePlan.whole))
          m.files
          (λ i t k.
            let (number, plan, inside) = h.ordered i t k in
            ((inside, (unfold IsSmall in small i t k)), plan)) in
      data_phase-Confined m before rest _ e short
        (plan_pull_files-AllPlanned root IsSmall (Touches root) (λ t inside. inside) sha256 job here
          [] m.files (fresh m.effects l) tt listed h.inside)
        (plan_pull_files-AllPlanned root IsSmall (Clears (IsLinked job root xs)) (λ t inside. tt)
          sha256 job here [] m.files (fresh m.effects l) tt listed c)

  -- Whatever the node sends in whatever order, whatever stands at the destinations and whatever the machine
  -- answers, if the frames and the sizes that the manifest lists are below 2^63: every directory or link
  -- that a pull makes, removes or changes is, as a text, the destination or lies below it by entries other
  -- than `.` and `..`; each path has its old file, or it is such a path and has a file whose hash is not all
  -- zero and was announced by a `FileEnd` of the job, or it has none, and an `Entry` of the job is a link
  -- at that path; and when the pull has ended, well or not, no file is open and no temporary file is pending
  -- (made, and neither renamed nor given to `remove_file`).
  pub pull-Confined :
      (here : PullTarget → Local) (l : Line)
      → All (λ x. IsShort x.event) xs
      → ((i : ℕ) (t : PullTarget)
          → get_elem? (files_of (take_manifest job root xs nothing_walked).0) i ≡ some t
          → t.size < 2 ^ 63)
      → Confined sha256 root job xs files (pull sha256 job root here l xs files)
  unfolding pull
  pull-Confined here l short small =
      let (before, e) = take_manifest-IsRest job root xs nothing_walked in
      plan_phase-Confined here l before _ _ e
        (All-after (λ x. IsShort x.event) before _ (subst (All (λ x. IsShort x.event)) e short))
        (take_manifest-Walks root job xs nothing_walked
          (record { ordered = λ i t q. absurd (cc); inside = tt }))
        (take_manifest-Cleared job root xs nothing_walked tt) small
