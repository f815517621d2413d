-- ===== src/Ctrl/Pull/Whole.antt =====
-- `pull` of src/ctrl.rs as a whole, behind its connecting: the three phases one after the other.
pub mod Confined
use apb.Prelude.{
  ℕ, ◌%◌, ◌^◌, Option, none, some, Bool, true, false, List, [], length, Result, ok, err,
}
use apb.Proto.Types.{Text, Payload}
use apb.Agent.Types.{Store}
use apb.Agent.Manifest.{Effect, effects_on}
use apb.Agent.Plans.{Line}
use apb.Ctrl.Pull.{PullTarget, PullError, XferStats, Arrival}
use apb.Ctrl.Pull.Listing
use apb.Ctrl.Pull.Listing.{Manifest, Walked, take_manifest}
use apb.Ctrl.Pull.Planning.{Local, Planning, Plans, all_planned, gave_up, plan_pull_files}
use apb.Ctrl.Pull.Data.{Pulling, Outcome, more, done, after_data, receive_files}

-- What was done to directories and links, what was sent as plans, the numbers of the report that the plans
-- determine, and where the function stands.
pub record Pulled : Type 0 where
  pub effects : List Effect
  pub plans : List Payload
  pub files : ℕ
  pub total : ℕ
  pub skipped : ℕ
  pub outcome : Outcome

abbrev pub idle : Store → ℕ → Pulling
idle files reused = record { current = none; files = files; tmp = false; sent = 0; reused = reused }

abbrev pub nothing_walked : Manifest
nothing_walked = record { files = []; total = 0; final_path = none; effects = [] }

-- `XferStats { total, files: files.len() as u64, ..Default::default() }`
abbrev pub fresh : List Effect → Line → Planning
fresh effects l = record { skipped = 0; reused = 0; line = l; effects = effects }

-- The files are those that the manifest has left; the plans set modes only.
data_phase : (List ℕ → List ℕ) → ℕ → Manifest → List Arrival → Store → Plans → Pulled
data_phase sha256 job m rest files (gave_up e s) = record {
  effects = s.effects;
  plans = s.line.sent;
  files = length m.files;
  total = m.total;
  skipped = s.skipped;
  outcome = done (idle (effects_on s.effects files) s.reused) (err e);
}
data_phase sha256 job m rest files (all_planned targets s) = record {
  effects = s.effects;
  plans = s.line.sent;
  files = length m.files;
  total = m.total;
  skipped = s.skipped;
  outcome =
      after_data
        (receive_files sha256 job targets rest (idle (effects_on s.effects files) s.reused));
}

-- The plans look at the files of the machine.
plan_phase :
    (List ℕ → List ℕ) → ℕ → (PullTarget → Local) → Line → List Arrival → Store → Walked → Pulled
unfolding data_phase
plan_phase sha256 job here l rest files (Walked.more m) = record {
  effects = m.effects;
  plans = l.sent;
  files = length m.files;
  total = m.total;
  skipped = 0;
  outcome = more (idle (effects_on m.effects files) 0);
}
plan_phase sha256 job here l rest files (Walked.failed m e) = record {
  effects = m.effects;
  plans = l.sent;
  files = length m.files;
  total = m.total;
  skipped = 0;
  outcome = done (idle (effects_on m.effects files) 0) (err e);
}
plan_phase sha256 job here l rest files (Walked.ended m) =
    data_phase sha256 job m rest files
      (plan_pull_files sha256 job here [] m.files (fresh m.effects l))

unfoldable pub pull :
    (List ℕ → List ℕ) → ℕ → Text → (PullTarget → Local) → Line → List Arrival → Store → Pulled
unfolding plan_phase
pull sha256 job root here l xs files =
    let (walked, rest) = take_manifest job root xs nothing_walked in
    plan_phase sha256 job here l rest files walked
