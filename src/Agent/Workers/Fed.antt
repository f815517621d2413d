-- ===== src/Agent/Workers/Fed.antt =====
-- What the jobs of src/agent.rs are given of the payloads that come.
use apb.Prelude.{
  ℕ, ◌≡◌, sym, ap, ◌∙◌, some, List, [], ◌∷◌, ◌++◌, append-nil, append_assoc, ◌==◌, get_elem?,
  if◌then◌else◌,
}
use apb.Proto.Types.{Blob, Frame, relay_deliver}
use apb.Agent.Workers.{Job, Agent, find_slot}

-- The payloads of the frames that are for this route.
unfoldable pub delivered_by : ℕ → Frame → List Blob
delivered_by route (relay_deliver r payload) = if r == route then payload ∷ [] else []
delivered_by route _ = []

unfoldable pub deliveries : ℕ → List Frame → List Blob
unfolding delivered_by
deliveries route [] = []
deliveries route (f ∷ fs) = delivered_by route f ++ deliveries route fs

-- What the job was given, from its start on.
abbrev pub given : Job → List Blob
given job = job.first ∷ (job.taken ++ job.queue)

abbrev pub IsInfix : List Blob → List Blob → Type 0
IsInfix mid whole = (before : List Blob) × (after : List Blob) × (whole ≡ before ++ (mid ++ after))

abbrev pub IsEnd : List Blob → List Blob → Type 0
IsEnd last whole = (before : List Blob) × (whole ≡ before ++ last)

-- A slot leads to a job of its route, which was given all that came since its start; every job was given
-- payloads of its route in their order, without a gap.
pub record IsFed (fs : List Frame) (s : Agent) : Type 0 where
  pub slotted :
      (route j : ℕ)
      → find_slot route s.slots ≡ some j
      → (job : Job) × (get_elem? s.jobs j ≡ some job)
        × (job.route ≡ route)
        × IsEnd (given job) (deliveries route fs)
  pub fed :
      (j : ℕ) (job : Job)
      → get_elem? s.jobs j ≡ some job
      → IsInfix (given job) (deliveries job.route fs)

pub deliveries-snoc :
    (route : ℕ) (fs : List Frame) (f : Frame)
    → deliveries route (fs ++ f ∷ []) ≡ deliveries route fs ++ delivered_by route f
unfolding deliveries
deliveries-snoc route [] f = append-nil (delivered_by route f)
deliveries-snoc route (g ∷ fs) f =
    ap (λ l. delivered_by route g ++ l) (deliveries-snoc route fs f)
    ∙ sym (append_assoc (delivered_by route g) (deliveries route fs) (delivered_by route f))

pub IsInfix-append : (mid whole more : List Blob) → IsInfix mid whole → IsInfix mid (whole ++ more)
IsInfix-append mid whole more (before, after, e) = (
  before,
  after ++ more,
  ap (λ l. l ++ more) e
      ∙ append_assoc before (mid ++ after) more
      ∙ ap (λ l. before ++ l) (append_assoc mid after more),
)

pub IsEnd-IsInfix : (last whole : List Blob) → IsEnd last whole → IsInfix last whole
IsEnd-IsInfix last whole (before, e) =
    (before, [], e ∙ ap (λ l. before ++ l) (sym (append-nil last)))
