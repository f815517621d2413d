-- ===== src/Ctrl/Pull/Data/Safety.antt =====
-- What the data loop of `pull` of src/ctrl.rs keeps, whatever comes and whatever the machine answers.
use mathlib.Core.Path.{subst}
use apb.Prelude.{
  ℕ, ◌^◌, ◌<◌, ◌≡◌, refl, ap, ◌∙◌, ◌⊎◌, inl, inr, Bool-cases, Option, none, some, false, List, [],
  ◌∷◌, ◌==◌, get_elem?, map, arith, All, Result, ok, err,
}
use apb.Proto.Types.{Text, Blob, Payload, file_end}
use apb.Proto.Payload.{id}
use apb.Agent.Types.{Store}
use apb.Agent.Data.{Open}
use apb.Agent.Data.Stored.{Holds, Sound, Sound-refl, Sound-trans, Sound-map}
use apb.Ctrl.Plans.{Event, relay_result, undecodable, server_error, other_frame, closed, timed_out}
use apb.Ctrl.Pull.{
  PullTarget, PullError, Arrival, Incoming, payload, hung_up, other, recv_before, as_push,
}
use apb.Ctrl.Pull.Data.{
  Pulling, Outcome, more, done, on_incoming, on_arrival, continue, receive_files, close, aborted,
  after_data, fail,
}
use apb.Ctrl.Pull.Data.Handling.{Keeps, Brings, IsShortPayload, on_payload-Keeps}

-- A `FileEnd` of the job with this hash is among what comes.
abbrev pub Ends : ℕ → Blob → Arrival → Type 0
Ends job sha x = x.event ≡ relay_result (file_end job sha)

abbrev pub IsAnnounced : ℕ → List Arrival → Blob → Type 0
IsAnnounced job [] sha = ⊥
IsAnnounced job (x ∷ xs) sha = Ends job sha x ⊎ IsAnnounced job xs sha

-- The data of a frame fit in the memory.
abbrev pub IsShort : Event → Type 0
IsShort (relay_result p) = IsShortPayload p
IsShort _ = Unit {0}

-- Once the closure has returned and what was open is aborted, no file is open and no temporary file is pending.
abbrev pub Safe : (List ℕ → List ℕ) → List PullTarget → (Blob → Type 0) → Store → Outcome → Type 0
Safe sha256 targets Claimed old (more s) =
    Holds (map as_push targets) s.current s.tmp
    × Sound sha256 (map as_push targets) Claimed old s.files
Safe sha256 targets Claimed old (done s result) =
    (s.current ≡ none) × (s.tmp ≡ false) × Sound sha256 (map as_push targets) Claimed old s.files

Brings-Ends :
    (job : ℕ) (p : Payload) (sha : Blob) (x : Arrival)
    → x.event ≡ relay_result p
    → id p ≡ job
    → Brings p sha
    → Ends job sha x
unfolding id
Brings-Ends job (file_end i sent) sha x e mine h =
    e
    ∙ ap (λ (j : ℕ). relay_result (file_end j sent)) mine
    ∙ ap (λ (z : Blob). relay_result (file_end job z)) h
Brings-Ends job _ sha x e mine h = elim h [ ]

module _ (sha256 : List ℕ → List ℕ) (targets : List PullTarget) where
  Keeps-map :
      (P Q : Blob → Type 0) (old : Store) (o : Outcome)
      → ((sha : Blob) → P sha → Q sha)
      → Keeps sha256 targets P old o
      → Keeps sha256 targets Q old o
  Keeps-map P Q old (more s) f (h, sound) =
      (h, Sound-map sha256 (map as_push targets) P Q old s.files f sound)
  Keeps-map P Q old (done s result) f (h, sound) =
      (h, Sound-map sha256 (map as_push targets) P Q old s.files f sound)

  recv_before-payload :
      (e : Event) (p : Payload) → recv_before e ≡ ok (payload p) → e ≡ relay_result p
  unfolding recv_before
  recv_before-payload (relay_result q) p h =
      let same : q ≡ p = cc in ap (λ (x : Payload). relay_result x) same
  recv_before-payload undecodable p h = cc
  recv_before-payload (server_error c m) p h = cc
  recv_before-payload other_frame p h = cc
  recv_before-payload closed p h = cc
  recv_before-payload timed_out p h = cc

  on_incoming-Keeps :
      (job : ℕ) (x : Arrival) (i : Result PullError Incoming) (s : Pulling)
      → ((p : Payload) → i ≡ ok (payload p) → (x.event ≡ relay_result p) × IsShortPayload p)
      → ((i : ℕ) (t : PullTarget) → get_elem? targets i ≡ some t → t.size < 2 ^ 63)
      → Holds (map as_push targets) s.current s.tmp
      → Keeps sha256 targets
          (λ sha. Ends job sha x)
          s.files
          (on_incoming sha256 job targets i x.answers s)
  unfolding on_incoming fail
  on_incoming-Keeps job x (err e) s from small h =
      (h, Sound-refl sha256 (map as_push targets) s.files)
  on_incoming-Keeps job x (ok hung_up) s from small h =
      (h, Sound-refl sha256 (map as_push targets) s.files)
  on_incoming-Keeps job x (ok other) s from small h =
      (h, Sound-refl sha256 (map as_push targets) s.files)
  on_incoming-Keeps job x (ok (payload p)) s from small h = elim (Bool-cases (id p == job)) [
    | inr e ↦ rw e (h, Sound-refl sha256 (map as_push targets) s.files)
    | inl e ↦
        let mine : id p ≡ job = ground arith in
        let (sent, short) = from p refl in
        rw e (
          Keeps-map (Brings p) (λ sha. Ends job sha x) s.files _
            (λ sha. Brings-Ends job p sha x sent mine)
            (on_payload-Keeps sha256 targets p x.answers s short small h))
  ]

  pub on_arrival-Keeps :
      (job : ℕ) (x : Arrival) (s : Pulling)
      → IsShort x.event
      → ((i : ℕ) (t : PullTarget) → get_elem? targets i ≡ some t → t.size < 2 ^ 63)
      → Holds (map as_push targets) s.current s.tmp
      → Keeps sha256 targets (λ sha. Ends job sha x) s.files (on_arrival sha256 job targets x s)
  unfolding on_arrival
  on_arrival-Keeps job x s short small h =
      on_incoming-Keeps job x (recv_before x.event) s
        (λ p e. let q = recv_before-payload x.event p e in (q, subst IsShort q short)) small h

  later :
      (job : ℕ) (x : Arrival) (xs : List Arrival) (old : Store) (s : Pulling)
      → Sound sha256 (map as_push targets) (λ sha. Ends job sha x) old s.files
      → (o : Outcome) → Keeps sha256 targets (IsAnnounced job xs) s.files o
      → Keeps sha256 targets (IsAnnounced job (x ∷ xs)) old o
  later job x xs old s sound (more s') (h, k) = (
    h,
    Sound-trans sha256 (map as_push targets) (λ sha. Ends job sha x) (IsAnnounced job xs) old
        s.files s'.files sound k,
  )
  later job x xs old s sound (done s' result) (h, k) = (
    h,
    Sound-trans sha256 (map as_push targets) (λ sha. Ends job sha x) (IsAnnounced job xs) old
        s.files s'.files sound k,
  )

  continue-Keeps :
      (job : ℕ) (x : Arrival) (xs : List Arrival) (old : Store) (o : Outcome)
      → Keeps sha256 targets (λ sha. Ends job sha x) old o
      → ((s : Pulling)
          → Holds (map as_push targets) s.current s.tmp
          → Keeps sha256 targets
              (IsAnnounced job xs)
              s.files
              (receive_files sha256 job targets xs s))
      → Keeps sha256 targets
          (IsAnnounced job (x ∷ xs))
          old
          (continue (receive_files sha256 job targets xs) o)
  unfolding continue
  continue-Keeps job x xs old (done s result) (h, sound) rest =
      (h, Sound-map sha256 (map as_push targets) _ _ old s.files (λ sha e. inl e) sound)
  continue-Keeps job x xs old (more s) (h, sound) rest =
      later job x xs old s sound (receive_files sha256 job targets xs s) (rest s h)

  receive_files-Keeps :
      (job : ℕ) (xs : List Arrival) (s : Pulling)
      → All (λ x. IsShort x.event) xs
      → ((i : ℕ) (t : PullTarget) → get_elem? targets i ≡ some t → t.size < 2 ^ 63)
      → Holds (map as_push targets) s.current s.tmp
      → Keeps sha256 targets (IsAnnounced job xs) s.files (receive_files sha256 job targets xs s)
  unfolding receive_files
  receive_files-Keeps job [] s short small h = (h, Sound-refl sha256 (map as_push targets) s.files)
  receive_files-Keeps job (x ∷ xs) s (here, short) small h =
      continue-Keeps job x xs s.files (on_arrival sha256 job targets x s)
        (on_arrival-Keeps job x s here small h)
        (λ s' h'. receive_files-Keeps job xs s' short small h')

  closed_Safe :
      (P : Blob → Type 0) (old : Store) (c : Option Open) (s : Pulling)
      (result : Result PullError Text)
      → s.current ≡ c
      → Holds (map as_push targets) s.current s.tmp
      → Sound sha256 (map as_push targets) P old s.files
      → Safe sha256 targets P old (done (close c s) result)
  unfolding close aborted
  closed_Safe P old none s result e h sound =
      (e, subst (λ c. Holds (map as_push targets) c s.tmp) e h, sound)
  closed_Safe P old (some o) s result e h sound = (refl, refl, sound)

  after_data-Safe :
      (P : Blob → Type 0) (old : Store) (o : Outcome)
      → Keeps sha256 targets P old o
      → Safe sha256 targets P old (after_data o)
  unfolding after_data
  after_data-Safe P old (more s) h = h
  after_data-Safe P old (done s result) (h, sound) =
      closed_Safe P old s.current s result refl h sound

  -- If the sizes of the files and of the frames are below 2^63, then whatever comes in whatever order and
  -- whatever the machine answers, from a state in which an open file belongs to a target and has its
  -- temporary file: at every point of the loop each path has its old file or a whole file of a target with
  -- that path, of the announced size and with the hash of a `FileEnd` of the job, which is not all zero; and
  -- once the loop has ended, well or not, no file is open and no temporary file is pending (made, and
  -- neither renamed nor given to `remove_file`).
  pub receive_files-Safe :
      (job : ℕ) (xs : List Arrival) (s : Pulling)
      → All (λ x. IsShort x.event) xs
      → ((i : ℕ) (t : PullTarget) → get_elem? targets i ≡ some t → t.size < 2 ^ 63)
      → Holds (map as_push targets) s.current s.tmp
      → Safe sha256 targets
          (IsAnnounced job xs)
          s.files
          (after_data (receive_files sha256 job targets xs s))
  receive_files-Safe job xs s short small h =
      after_data-Safe (IsAnnounced job xs) s.files (receive_files sha256 job targets xs s)
        (receive_files-Keeps job xs s short small h)
