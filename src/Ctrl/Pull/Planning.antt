-- ===== src/Ctrl/Pull/Planning.antt =====
-- `plan_pull_files` of src/ctrl.rs: what the controller asks for, file by file, and what it sends of its own.
pub mod Choice
pub mod Kept
use apb.Prelude.{
  ℕ, ◌+◌, ◌%◌, ◌^◌, Option, none, some, Bool, true, false, List, [], ◌∷◌, ◌++◌, length, map,
  if◌then◌else◌,
}
use apb.Proto.Types.{Payload, file_plan, plan_end}
use apb.Delta.Blocks.{choose_block_size, worth_delta}
use apb.Delta.Produce.{bytes_eq}
use apb.Delta.Signatures.{SigSet, scan}
use apb.Delta.Writer.{all_zero}
use apb.Agent.Manifest.{Effect, set_mode}
use apb.Agent.Plans.{Found, absent, special, regular, Line, send_frames, set_frames}
use apb.Ctrl.Plans.{FilePlan, action}
use apb.Ctrl.Pull.{PullTarget, PullError, scan_failed, send_failed}

-- What stands at the destination, and whether it can be read.
pub record Local : Type 0 where
  pub found : Found
  pub scan_ok : Bool

pub data Planned : Type 0 where
  planned : PullTarget → Option SigSet → Planned
  unreadable : PullTarget → Planned

plan_scanned : PullTarget → SigSet → Planned
plan_scanned t set =
    if (if all_zero t.sha then false else bytes_eq set.file_sha t.sha)
    then planned (record t { plan = FilePlan.skip }) none
    else if worth_delta set.size t.size set.block_count
    then planned
        (record t {
          plan = FilePlan.delta;
          block_size = set.block_size;
          block_count = set.block_count;
        })
        (some set)
    else planned (record t { plan = FilePlan.whole }) none

plan_found : (List ℕ → List ℕ) → Bool → Found → PullTarget → Planned
unfolding plan_scanned
plan_found sha256 scan_ok absent t = planned t none
plan_found sha256 scan_ok special t = planned t none
plan_found sha256 scan_ok (regular content) t =
    if scan_ok
    then plan_scanned t (scan sha256 content (choose_block_size (length content)))
    else unreadable t

unfoldable pub plan_file : (List ℕ → List ℕ) → Local → PullTarget → Planned
unfolding plan_found
plan_file sha256 here t = plan_found sha256 here.scan_ok here.found t

unfoldable pub plan_frames : ℕ → PullTarget → Option SigSet → List Payload
plan_frames job t sigs =
    file_plan job t.seq (action t.plan) t.block_size t.block_count ∷ set_frames job t.seq sigs

-- The counters of `XferStats` that the loop changes, the connection, and what was done to the files.
pub record Planning : Type 0 where
  pub skipped : ℕ
  pub reused : ℕ
  pub line : Line
  pub effects : List Effect

pub data Plans : Type 0 where
  all_planned : List PullTarget → Planning → Plans
  gave_up : PullError → Planning → Plans

-- `let _ = set_mode(..)`, and the counters; the sum wraps around, as in a release build.
skip_file : FilePlan → PullTarget → Planning → Planning
skip_file FilePlan.skip t s = record s {
  skipped = s.skipped + 1;
  reused = (s.reused + t.size) % 2 ^ 64;
  effects = s.effects ++ set_mode t.dest t.mode ∷ [];
}
skip_file _ t s = s

sent_plan : (PullTarget → Planning → Plans) → PullTarget → Planning → Bool × Line → Plans
sent_plan next t s (true, l) = next t (record s { line = l })
sent_plan next t s (false, l) = gave_up send_failed (record s { line = l })

one_plan : (PullTarget → Planning → Plans) → ℕ → Planned → Planning → Plans
unfolding sent_plan skip_file
one_plan next job (unreadable t) s = gave_up (scan_failed t.dest) s
one_plan next job (planned t sigs) s =
    sent_plan next t (skip_file t.plan t s) (send_frames (plan_frames job t sigs) s.line)

-- `send_payload(sess, Payload::PlanEnd { id })`
end_plans : List PullTarget → Planning → Bool × Line → Plans
end_plans before s (true, l) = all_planned before (record s { line = l })
end_plans before s (false, l) = gave_up send_failed (record s { line = l })

-- `for t in files.iter_mut()`, behind the files that are planned.
unfoldable pub plan_pull_files :
    (List ℕ → List ℕ)
    → ℕ
    → (PullTarget → Local)
    → (before files : List PullTarget) → Planning
    → Plans
unfolding one_plan end_plans
plan_pull_files sha256 job here before [] s =
    end_plans before s (send_frames (plan_end job ∷ []) s.line)
plan_pull_files sha256 job here before (t ∷ ts) s =
    one_plan
      (λ (t' : PullTarget) (s' : Planning).
        plan_pull_files sha256 job here (before ++ t' ∷ []) ts s')
      job (plan_file sha256 (here t) t) s
