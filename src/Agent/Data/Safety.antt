-- ===== src/Agent/Data/Safety.antt =====
-- What the loop of `run_push` of src/agent.rs keeps, whatever payloads come and whatever the machine answers.
use mathlib.Core.Path.{subst}
use apb.Prelude.{
  ℕ, ◌^◌, ◌<◌, ◌≡◌, inl, inr, Bool-cases, some, List, [], ◌∷◌, ◌==◌, get_elem?, arith, All,
}
use apb.Proto.Payload.{id}
use apb.Agent.Types.{PushTarget, Store, Event, received, cancelled, broken}
use apb.Agent.Data.{Receiving, Outcome, more, done, on_payload, on_event, continue, run_data}
use apb.Agent.Data.Stored.{Holds, Sound, Safe, Ends, IsAnnounced, IsShort, Sound-refl, Sound-trans}
use apb.Agent.Data.Handling.{drop_current-Safe, on_payload-Safe}

module _ (sha256 : List ℕ → List ℕ) (targets : List PushTarget) where
  on_event-Safe :
      (job : ℕ) (e : Event) (r : Receiving)
      → IsShort e
      → ((i : ℕ) (t : PushTarget) → get_elem? targets i ≡ some t → t.size < 2 ^ 63)
      → Holds targets r.current r.tmp
      → Safe sha256 targets (λ sha. Ends job sha e) r.files (on_event sha256 job targets e r)
  unfolding on_event
  on_event-Safe job cancelled r short small h = drop_current-Safe sha256 targets _ r [] h
  on_event-Safe job broken r short small h = drop_current-Safe sha256 targets _ r [] h
  on_event-Safe job (received p a) r short small h = elim (Bool-cases (id p == job)) [
    | inl e ↦
        let mine : id p ≡ job = ground arith in
        rw e (
          subst
            (λ j.
              Safe sha256 targets (λ sha. Ends j sha (received p a)) r.files
                (on_payload sha256 targets p a r))
            mine (on_payload-Safe sha256 targets p a r short small h))
    | inr e ↦ rw e (h, Sound-refl sha256 targets r.files)
  ]

  after_Safe :
      (job : ℕ) (e : Event) (es : List Event) (old : Store) (r : Receiving)
      → Sound sha256 targets (λ sha. Ends job sha e) old r.files
      → (x : Outcome) → Safe sha256 targets (IsAnnounced job es) r.files x
      → Safe sha256 targets (IsAnnounced job (e ∷ es)) old x
  after_Safe job e es old r sound (more r') (h, later) = (
    h,
    Sound-trans sha256 targets (λ sha. Ends job sha e) (IsAnnounced job es) old r.files r'.files
        sound later,
  )
  after_Safe job e es old r sound (done r' replies) (q, h, later) = (
    q,
    h,
    Sound-trans sha256 targets (λ sha. Ends job sha e) (IsAnnounced job es) old r.files r'.files
        sound later,
  )

  continue-Safe :
      (job : ℕ) (e : Event) (es : List Event) (old : Store) (x : Outcome)
      → Safe sha256 targets (λ sha. Ends job sha e) old x
      → ((r : Receiving)
          → Holds targets r.current r.tmp
          → Safe sha256 targets (IsAnnounced job es) r.files (run_data sha256 job targets es r))
      → Safe sha256 targets
          (IsAnnounced job (e ∷ es))
          old
          (continue (run_data sha256 job targets es) x)
  unfolding continue
  continue-Safe job e es old (done r replies) (q, h, sound) rest = (
    q,
    h,
    Sound-trans sha256 targets (λ sha. Ends job sha e) (IsAnnounced job es) old r.files r.files
        sound (Sound-refl sha256 targets r.files),
  )
  continue-Safe job e es old (more r) (h, sound) rest = after_Safe job e es old r sound _ (rest r h)

  -- If the sizes of the targets and of the frames are below 2^63, then whatever payloads come in whatever
  -- order and whatever the machine answers: at every point of the loop, each path has its old file or a
  -- whole file of a target with that path, of the target's size and with the hash of a `FileEnd` of the
  -- job, which is not all zero. While the loop goes on a temporary file is pending (made, and neither
  -- renamed nor given to `remove_file`) just when a file is open, for a target; once it has ended none is.
  pub run_data-Safe :
      (job : ℕ) (es : List Event) (r : Receiving)
      → All IsShort es
      → ((i : ℕ) (t : PushTarget) → get_elem? targets i ≡ some t → t.size < 2 ^ 63)
      → Holds targets r.current r.tmp
      → Safe sha256 targets (IsAnnounced job es) r.files (run_data sha256 job targets es r)
  unfolding run_data
  run_data-Safe job [] r short small h = (h, Sound-refl sha256 targets r.files)
  run_data-Safe job (e ∷ es) r (here, short) small h =
      continue-Safe job e es r.files (on_event sha256 job targets e r)
        (on_event-Safe job e r here small h) (λ r' h'. run_data-Safe job es r' short small h')
