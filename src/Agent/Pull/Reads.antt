-- ===== src/Agent/Pull/Reads.antt =====
-- `run_pull` of src/agent.rs reads what `plan_pull_files` of src/ctrl.rs sends for a file.
use apb.Prelude.{
  ==_refl, ℕ, ◌*◌, ◌^◌, ◌≤◌, ◌<◌, ◌≡◌, refl, sym, ap, ◌∙◌, Option, none, some, true, ok, List, [],
  ◌∷◌, ◌++◌, append-nil, ◌==◌, ltb, length, get_elem?, map, arith,
}
use apb.Proto.Types.{Blob, Payload, file_plan, file_sigs}
use apb.Proto.Payload.{id}
use apb.Delta.Blocks.{sig_len, sig_batch}
use apb.Delta.Signatures.{SigSet, encode}
use apb.Agent.Types.{Plan, Answers, Event, received, from_action}
use apb.Agent.Plans.{chunks_loop, chunks, sig_frames, set_frames}
use apb.Agent.Plans.Chunks.{sig_frames-taken}
use apb.Agent.Pull.{
  PullSource, more, set_plan, plan_source, in_order, add_sigs, plan_payload, plan_event, step_on,
  read_plans,
}
use apb.Ctrl.Plans.{FilePlan, action, set_at}
use apb.Ctrl.Plans.Reads.{get_elem?-set_at, set_at-set_at}
use apb.Ctrl.Pull.{PullTarget, as_plan}
use apb.Ctrl.Pull.Planning.{plan_frames}

from_action-action : (p : FilePlan) → from_action (action p) ≡ ok (as_plan p)
unfolding from_action action
from_action-action FilePlan.whole = refl
from_action-action FilePlan.skip = refl
from_action-action FilePlan.delta = refl

-- The source as it is planned, with these signatures.
unfoldable pub planned_as : Plan → (block_size block_count : ℕ) → Blob → PullSource → PullSource
planned_as plan block_size block_count sigs s = record s {
  plan = plan;
  block_size = block_size;
  block_count = block_count;
  sigs = sigs;
}

-- The signatures that go with a plan.
unfoldable pub sigs_of : Option SigSet → Blob
sigs_of none = []
sigs_of (some set) = encode set

-- The payload comes.
abbrev pub got : Answers → Payload → Event
got a p = received p a

module _ (job : ℕ) (a : Answers) (sources : List PullSource) where
  module _ (s : PullSource) (known : s.seq < length sources) where
    -- The sources with this buffer in the place of the file.
    holding : Blob → List PullSource
    holding buf = set_at sources s.seq (record s { sigs = buf })

    plan_event-sigs :
        (buf blob : Blob) (first : ℕ)
        → length buf ≡ first * sig_len
        → first * sig_len < 2 ^ 64
        → plan_event job (got a (file_sigs job s.seq first blob)) (holding buf)
          ≡ more (holding (buf ++ blob))
    unfolding plan_event id plan_payload add_sigs in_order holding
    plan_event-sigs buf blob first e fits =
        let place : get_elem? (set_at sources s.seq (record s { sigs = buf })) s.seq
            ≡ some (record s { sigs = buf }) =
          get_elem?-set_at sources s.seq (record s { sigs = buf }) known in
        let small : ltb (first * sig_len) (2 ^ 64) ≡ true = ground arith in
        let equal : (length buf == first * sig_len) ≡ true = ground arith in
        let mine : (s.seq == s.seq) ≡ true = ==_refl s.seq in
        rw (==_refl job, place)
          (rw (mine, small, equal)
            (ap more (
              set_at-set_at sources s.seq (record s { sigs = buf })
                (record s { sigs = buf ++ blob }))))

    sig_frames-read :
        (fuel : ℕ) (xs : Blob) (rest : List Event)
        → length xs ≤ fuel
        → length xs < 2 ^ 63
        → read_plans job
            (map (got a) (sig_frames job s.seq 0 (chunks_loop fuel sig_batch xs)) ++ rest)
            (holding [])
          ≡ read_plans job rest (holding xs)
    unfolding read_plans step_on
    sig_frames-read fuel xs rest h fits =
        let run = λ (ps : List Payload) (buf : Blob).
          read_plans job (map (got a) ps ++ rest) (holding buf) in
        ap (λ l. read_plans job (map (got a) l ++ rest) (holding []))
          (sym (append-nil (sig_frames job s.seq 0 (chunks_loop fuel sig_batch xs))))
        ∙ sig_frames-taken job s.seq run
            (λ buf blob first ps e small.
              ap (step_on (read_plans job (map (got a) ps ++ rest)))
                (plan_event-sigs buf blob first e small))
            fuel 0 xs [] [] h (λ _. refl) (omega (arith, fits))

  plan_event-plan :
      (s : PullSource) (plan : FilePlan) (block_size block_count : ℕ)
      → get_elem? sources s.seq ≡ some s
      → plan_event job (got a (file_plan job s.seq (action plan) block_size block_count)) sources
        ≡ more (set_at sources s.seq (planned_as (as_plan plan) block_size block_count [] s))
  unfolding plan_event id plan_payload plan_source set_plan planned_as
  plan_event-plan s plan block_size block_count here =
      let mine : (s.seq == s.seq) ≡ true = ==_refl s.seq in
      rw (==_refl job, here) (rw (mine, from_action-action plan) refl)

  set_frames-read :
      (s : PullSource) (sigs : Option SigSet) (rest : List Event)
      → s.seq < length sources
      → length (sigs_of sigs) < 2 ^ 63
      → read_plans job
          (map (got a) (set_frames job s.seq sigs) ++ rest)
          (set_at sources s.seq (record s { sigs = [] }))
        ≡ read_plans job rest (set_at sources s.seq (record s { sigs = sigs_of sigs }))
  unfolding set_frames chunks sigs_of
  set_frames-read s none rest known fits = refl
  set_frames-read s (some set) rest known fits =
      unfold holding in
      sig_frames-read s known (length (encode set)) (encode set) rest (omega arith) fits

  sent_for :
      (t : PullTarget) (sigs : Option SigSet) (s : PullSource)
      → t.seq ≡ s.seq
      → plan_frames job t sigs
        ≡ file_plan job s.seq (action t.plan) t.block_size t.block_count ∷ set_frames job s.seq sigs
  unfolding plan_frames
  sent_for t sigs s e =
      ap (λ n. file_plan job n (action t.plan) t.block_size t.block_count ∷ set_frames job n sigs) e

  -- For a file whose number the node has given to one of its sources, and signatures below 2^63 bytes: the
  -- node reads the frames that the controller sends for the file without an objection, in however many
  -- frames the signatures go, goes on with the events behind them, and has given the source exactly the
  -- controller's plan, block size, block count and encoded signatures (none without a delta), with every
  -- other source as it was.
  pub read_plans-plan_frames :
      (t : PullTarget) (sigs : Option SigSet) (s : PullSource) (rest : List Event)
      → t.seq ≡ s.seq
      → get_elem? sources s.seq ≡ some s
      → s.seq < length sources
      → length (sigs_of sigs) < 2 ^ 63
      → read_plans job (map (got a) (plan_frames job t sigs) ++ rest) sources
        ≡ read_plans job rest (
            set_at sources s.seq
              (planned_as (as_plan t.plan) t.block_size t.block_count (sigs_of sigs) s))
  unfolding read_plans step_on
  read_plans-plan_frames t sigs s rest e here known fits =
      ap (λ l. read_plans job (map (got a) l ++ rest) sources) (sent_for t sigs s e)
      ∙ ap (step_on (read_plans job (map (got a) (set_frames job s.seq sigs) ++ rest)))
          (plan_event-plan s t.plan t.block_size t.block_count here)
      ∙ (unfold planned_as step_on in
          set_frames-read (planned_as (as_plan t.plan) t.block_size t.block_count [] s) sigs rest
            known fits)
