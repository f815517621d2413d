-- ===== src/Agent/Examples.antt =====
-- Runs of the models of src/agent.rs and of the controller's reader on concrete inputs.
use mathlib.Core.Path.{subst}
use apb.Prelude.{
  ℕ, zero, suc, ◌^◌, ◌<◌, ◌≡◌, refl, none, some, true, false, List, [], ◌∷◌, ◌++◌, arith, get_elem?,
  codes, map,
}
use apb.Proto.Types.{mkdir, file_start, file_begin, manifest_end, chunk, push_end}
use apb.Bytes.{be_bytes}
use apb.Delta.Signatures.{SigSet, encode, encode_from}
use apb.Agent.Types.{Plan, PushTarget, Store, Answers, Event, received}
use apb.Agent.Manifest.{Listing, run_list, list_event, list_payload, join_rel}
use apb.Agent.Manifest.Inside.{IsListing, Lists, run_list-Lists}
use apb.Agent.Push.{nothing_listed, run_push}
use apb.Agent.Push.Confined.{targets_of, Confined, run_push-Confined}
use apb.Util.Paths.{safe_rel, push, split}
use apb.Proto.Payload.{id}
use apb.Proto.Payload.WellFormed.{IsWellFormed}
use apb.Agent.Plans.{regular, Line, Look, plan_push_target, plan_frames}
use apb.Agent.Plans.Choice.{Chosen, plan_push_target-Chosen}
use apb.Agent.Data.{Receiving, run_data}
use apb.Agent.Data.Stored.{Safe, IsAnnounced}
use apb.Agent.Data.Safety.{run_data-Safe}
use apb.Ctrl.Plans.{FilePlan, Slots, relay_result, read_push_plans}
use apb.Ctrl.Plans.Reads.{answered, read_push_plans-plan_frames}

abbrev hash : List ℕ → List ℕ
hash bytes = bytes ++ 7 ∷ []

abbrev willing : Answers
willing = record {
  is_dir = false;
  mkdir_ok = true;
  symlink_ok = true;
  remove_ok = true;
  create_ok = true;
  open_ok = true;
  disk = record { sync_ok = true; chmod_ok = true; rename_ok = true };
}

abbrev nothing : Listing
nothing = record { targets = []; effects = [] }

nothing-IsListing : IsListing (codes "r") nothing
nothing-IsListing = record { ordered = λ i t e. cc; inside = tt }

abbrev listed : List Event
listed =
    received (mkdir 5 (codes "d") 493) willing
    ∷ received (file_begin 5 0 (codes "d/f") 3 420 (1 ∷ [])) willing
    ∷ received (manifest_end 5 1) willing
    ∷ []

run_list-Lists_example : Lists (codes "r") (run_list 5 (codes "r") listed nothing).0
run_list-Lists_example = run_list-Lists (codes "r") 5 listed nothing nothing-IsListing

-- The node's file is 1, 2; the controller's has a 3 behind it.
abbrev target : PushTarget
target = record {
  seq = 0;
  dest = codes "r/d/f";
  size = 3;
  mode = 420;
  sha = 1 ∷ 2 ∷ 3 ∷ 7 ∷ [];
  plan = Plan.delta;
  block_size = 2;
  block_count = 1;
}

abbrev look : Look
look = record { cancelled = false; found = regular (1 ∷ 2 ∷ []); scan_ok = true }

plan_push_target-Chosen_example : Chosen hash look target (plan_push_target hash look target)
plan_push_target-Chosen_example = plan_push_target-Chosen hash look target

abbrev store : Store
store path = some (1 ∷ 2 ∷ [])

abbrev idle : Receiving
idle = record { current = none; files = store; tmp = false }

only_target : (i : ℕ) (t : PushTarget) → get_elem? (target ∷ []) i ≡ some t → t.size < 2 ^ 63
only_target zero t e =
    let found : target ≡ t = cc in subst (λ x. x.size < 2 ^ 63) found (omega arith)
only_target (suc i) t e = cc

abbrev bad_order : List Event
bad_order = received (chunk 5 (8 ∷ [])) willing ∷ received (push_end 5) willing ∷ []

run_data-Safe_example :
    Safe hash
      (target ∷ [])
      (IsAnnounced 5 bad_order)
      store
      (run_data hash 5 (target ∷ []) bad_order idle)
run_data-Safe_example =
    run_data-Safe hash (target ∷ []) 5 bad_order idle (omega arith, (tt, tt)) only_target refl

abbrev signed : SigSet
signed = record {
  block_size = 2;
  block_count = 1;
  weak = 5 ∷ [];
  strong = 1 ∷ 2 ∷ [];
  file_sha = [];
  size = 2;
}

abbrev slots : Slots
slots = record { plans = FilePlan.whole ∷ []; block_sizes = 0 ∷ []; sigs = [] ∷ [] }

read_push_plans-plan_frames_example :
    read_push_plans 5 (map relay_result (plan_frames 5 target (some signed)) ++ []) slots
    ≡ read_push_plans 5 [] (answered target signed slots)
read_push_plans-plan_frames_example =
    read_push_plans-plan_frames 5 target signed slots [] refl (omega arith) (omega arith)
      (unfold encode encode_from be_bytes in omega arith)

-- A push of one file that never sends it.
abbrev one_listed : PushTarget
one_listed = record {
  seq = 0;
  dest = codes "r/d/f";
  size = 3;
  mode = 420;
  sha = 1 ∷ [];
  plan = Plan.whole;
  block_size = 0;
  block_count = 0;
}

abbrev unfinished : List Event
unfinished = listed ++ received (file_start 5 0) willing ∷ received (push_end 5) willing ∷ []

unfinished_targets :
    targets_of (run_list 5 (codes "r") unfinished nothing_listed).0 ≡ one_listed ∷ []
unfolding run_list list_event list_payload id join_rel safe_rel push split
unfinished_targets = refl

unfinished_small :
    (i : ℕ) (t : PushTarget)
    → get_elem? (targets_of (run_list 5 (codes "r") unfinished nothing_listed).0) i ≡ some t
    → t.size < 2 ^ 63
unfinished_small zero t e =
    let found : one_listed ≡ t =
      let h : get_elem? (one_listed ∷ []) 0 ≡ some t =
        subst (λ ts. get_elem? ts 0 ≡ some t) unfinished_targets e in
      cc in
    subst (λ x. x.size < 2 ^ 63) found (omega arith)
unfinished_small (suc i) t e =
    let h : get_elem? (one_listed ∷ []) (suc i) ≡ some t =
      subst (λ ts. get_elem? ts (suc i) ≡ some t) unfinished_targets e in
    cc

abbrev line : Line
line = record { room = 100; sent = [] }

run_push-Confined_example :
    Confined hash
      (codes "r")
      5
      unfinished
      store
      (run_push hash 5 (codes "r") (λ t. look) line unfinished store)
run_push-Confined_example =
    run_push-Confined hash (codes "r") 5 unfinished store (λ t. look) line
      (tt, (tt, (tt, (tt, (tt, tt))))) unfinished_small

push_end-IsWellFormed : IsWellFormed (push_end 5)
push_end-IsWellFormed = omega arith
