-- ===== src/Agent/Push.antt =====
-- `run_push` of src/agent.rs as a whole, behind `resolve_push_root`: the three phases one after the other.
pub mod Confined
use apb.Prelude.{ℕ, Option, none, some, Bool, true, false, List, []}
use apb.Proto.Types.{Text, Payload}
use apb.Agent.Types.{PushTarget, Reply, Store, Event}
use apb.Agent.Manifest
use apb.Agent.Manifest.{Effect, Listing, Listed, run_list, check_count, effects_on}
use apb.Agent.Plans.{Look, Line, Plans, all_planned, gave_up, plan_targets}
use apb.Agent.Data.{Receiving, Outcome, more, done, run_data}

-- What the job did to directories and links, what was sent as plans, and where the handler stands.
pub record Pushed : Type 0 where
  pub effects : List Effect
  pub plans : List Payload
  pub outcome : Outcome

abbrev pub idle : Store → Receiving
idle files = record { current = none; files = files; tmp = false }

abbrev pub nothing_listed : Listing
nothing_listed = record { targets = []; effects = [] }

data_phase : (List ℕ → List ℕ) → ℕ → List Effect → List Event → Store → Plans → Pushed
data_phase sha256 job effects rest files (gave_up l replies) = record {
  effects = effects;
  plans = l.sent;
  outcome = done (idle files) replies;
}
data_phase sha256 job effects rest files (all_planned targets l) = record {
  effects = effects;
  plans = l.sent;
  outcome = run_data sha256 job targets rest (idle files);
}

-- The files are those that the first phase has left.
plan_phase :
    (List ℕ → List ℕ) → ℕ → (PushTarget → Look) → Line → List Event → Store → Listed → Pushed
unfolding data_phase
plan_phase sha256 job look l rest files (Listed.more s) = record {
  effects = s.effects;
  plans = l.sent;
  outcome = more (idle (effects_on s.effects files));
}
plan_phase sha256 job look l rest files (Listed.stopped s replies) = record {
  effects = s.effects;
  plans = l.sent;
  outcome = done (idle (effects_on s.effects files)) replies;
}
plan_phase sha256 job look l rest files (Listed.ended declared s) =
    data_phase sha256 job s.effects rest (effects_on s.effects files)
      (plan_targets sha256 job look [] s.targets l)

unfoldable pub run_push :
    (List ℕ → List ℕ) → ℕ → Text → (PushTarget → Look) → Line → List Event → Store → Pushed
unfolding plan_phase
run_push sha256 job root look l events files =
    let (listed, rest) = run_list job root events nothing_listed in
    plan_phase sha256 job look l rest files (check_count listed)
