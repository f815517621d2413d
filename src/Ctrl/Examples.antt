-- ===== src/Ctrl/Examples.antt =====
-- Runs of the models of a pull, src/ctrl.rs and src/agent.rs, on concrete inputs.
use mathlib.Core.Path.{subst}
use apb.Prelude.{
  All, ◌≢◌, ℕ, zero, suc, ◌+◌, ◌^◌, ◌≡◌, ◌<◌, refl, none, some, true, false, List, [], ◌∷◌, ◌++◌,
  arith, Result, ok, err, codes, length, get_elem?, map,
}
use apb.Proto.Types.{push_end, entry, manifest_end, chunk, file_start, transfer_done}
use apb.Bytes.{be_bytes}
use apb.Delta.Reader.{Reader}
use apb.Delta.Signatures.{SigSet, scan, encode, encode_from}
use apb.Agent.Types.{Plan, Store, Answers as Node}
use apb.Agent.Plans.{regular, Line}
use apb.Proto.Payload.{id}
use apb.Delta.Writer.{create, write_op}
use apb.Agent.Pull.{PullSource, read_plans}
use apb.Agent.Pull.Reads.{got as arrives, planned_as, sigs_of, read_plans-plan_frames}
use apb.Agent.Pull.Sending.{Look, send_sources}
use apb.Agent.Pull.Sending.Frames.{sources_frames}
use apb.Ctrl.Plans.{FilePlan, set_at, relay_result, other_frame, closed, Slots}
use apb.Ctrl.Pull.{PullTarget, PullError, Answers, Arrival, recv_before}
use apb.Ctrl.Pull.Listing.{Manifest, take_manifest, take_arrival, take_payload}
use apb.Ctrl.Pull.Listing.Inside.{IsManifest, Walks, take_manifest-Walks}
use apb.Ctrl.Pull.Planning.{Local, plan_file, plan_frames}
use apb.Ctrl.Pull.Planning.Choice.{Chosen, plan_file-Chosen}
use apb.Ctrl.Pull.Data.{
  Outcome, done, after_data, receive_files, on_arrival, on_payload, continue, exit_code,
}
use apb.Ctrl.Pull.Data.Safety.{Safe, IsAnnounced, receive_files-Safe}
use apb.Ctrl.Pull.Data.Frames.{arrive, with_counters, IsWilling}
use apb.Ctrl.Pull.Data.Delivery.{place, count_all}
use apb.Ctrl.Pull.Whole.{nothing_walked, pull}
use apb.Ctrl.Pull.Whole.Confined.{files_of, Confined, pull-Confined}
use apb.Util.Paths.{safe_rel, push, split}
use apb.Proto.Types.{Text}
use apb.Agent.Manifest.{Effect, join_rel, run_list, check_count, ended}
use apb.Agent.Manifest.Steps
use apb.Agent.Push.{nothing_listed}
use apb.Ctrl.Push
use apb.Ctrl.Push.{ManifestFile, manifest_frames, wait_transfer_done, got, done as done_at}
use apb.Ctrl.Push.Listed.{IsAccepted, events, target_of, manifest_frames-ended}
use apb.Ctrl.Push.Sending
use apb.Ctrl.Push.Sending.{check_send_feedback, send_files}
use apb.Ctrl.Push.Sending.Completed as Smooth
use apb.Ctrl.Push.Sending.Completed.{Task, Completes, tasks_frames, send_files-Completes}
use apb.Ctrl.Push.Answered.{wait_transfer_done-got}
use apb.Ctrl.Pull.Transfer.{Pair, shipments, AllAgree, HasBase, IsUndisturbed}
use apb.Ctrl.Pull.Transfer.Completed.{pull_transfer}
use apb.Examples.{hash, hash_wide, base_data, base_data-Distinct, source_data}

abbrev willing : Answers
willing = record {
  parent_ok = true;
  mkdir_ok = true;
  symlink_ok = true;
  remove_ok = true;
  create_ok = true;
  open_ok = true;
  disk = record { sync_ok = true; chmod_ok = true; rename_ok = true };
}

willing-IsWilling : IsWilling willing
willing-IsWilling = record { creates = refl; syncs = refl; chmods = refl; renames = refl }

abbrev nothing : Manifest
nothing = record { files = []; total = 0; final_path = none; effects = [] }

nothing-IsManifest : IsManifest (codes "r") nothing
nothing-IsManifest = record { ordered = λ i t e. cc; inside = tt }

-- A directory and a file in it.
abbrev walked : List Arrival
walked =
    arrive willing (entry 5 0 (codes "d") 0 0 493 [] [])
    ∷ arrive willing (entry 5 0 (codes "d/f") 1 4 420 [] (1 ∷ []))
    ∷ arrive willing (manifest_end 5 1)
    ∷ []

take_manifest-Walks_example : Walks (codes "r") (take_manifest 5 (codes "r") walked nothing).0
take_manifest-Walks_example = take_manifest-Walks (codes "r") 5 walked nothing nothing-IsManifest

abbrev store : Store
store path = some base_data

-- The controller has `base_data` at both paths; the first file comes as a delta, the second as a whole.
abbrev by_delta : PullTarget
by_delta = record {
  seq = 0;
  dest = codes "r/f";
  size = 4;
  mode = 420;
  sha = hash (9 ∷ 1 ∷ 2 ∷ 7 ∷ []);
  plan = FilePlan.delta;
  block_size = 2;
  block_count = (scan hash base_data 2).block_count;
}

abbrev as_whole : PullTarget
as_whole = record {
  seq = 1;
  dest = codes "r/g";
  size = 1;
  mode = 420;
  sha = hash (5 ∷ []);
  plan = FilePlan.whole;
  block_size = 0;
  block_count = 0;
}

abbrev targets : List PullTarget
targets = by_delta ∷ as_whole ∷ []

small : (i : ℕ) (t : PullTarget) → get_elem? targets i ≡ some t → t.size < 2 ^ 63
small zero t e = let found : by_delta ≡ t = cc in subst (λ x. x.size < 2 ^ 63) found (omega arith)
small (suc zero) t e =
    let found : as_whole ≡ t = cc in subst (λ x. x.size < 2 ^ 63) found (omega arith)
small (suc (suc i)) t e = cc

-- A file is started and never ended.
abbrev cut_short : List Arrival
cut_short =
    arrive willing (file_start 5 1)
    ∷ arrive willing (chunk 5 (5 ∷ []))
    ∷ arrive willing (transfer_done 5 true [] [] 0 [])
    ∷ []

receive_files-Safe_example :
    Safe hash targets
      (IsAnnounced 5 cut_short)
      store
      (after_data (receive_files hash 5 targets cut_short (with_counters none store false (0, 0))))
receive_files-Safe_example =
    receive_files-Safe hash targets 5 cut_short (with_counters none store false (0, 0))
      (tt, (omega arith, (tt, tt))) small refl

abbrev here : Local
here = record { found = regular base_data; scan_ok = true }

plan_file-Chosen_example : Chosen hash here as_whole (plan_file hash here as_whole)
plan_file-Chosen_example = plan_file-Chosen hash here as_whole refl

abbrev first : PullSource
first = record {
  seq = 0;
  path = codes "/d/f";
  size = 4;
  sha = hash (9 ∷ 1 ∷ 2 ∷ 7 ∷ []);
  plan = Plan.delta;
  block_size = 2;
  block_count = (scan hash base_data 2).block_count;
  sigs = encode (scan hash base_data 2);
}

abbrev second : PullSource
second = record {
  seq = 1;
  path = codes "/d/g";
  size = 1;
  sha = hash (5 ∷ []);
  plan = Plan.whole;
  block_size = 0;
  block_count = 0;
  sigs = [];
}

abbrev pairs : List Pair
pairs =
    record { source = first; target = by_delta }
    ∷ record { source = second; target = as_whole }
    ∷ []

-- What the node reads of a file, by its number.
abbrev content_of : ℕ → Reader
content_of zero = source_data
content_of (suc n) = record { rest = 5 ∷ []; sizes = [] }

abbrev look : PullSource → Look
look s = record {
  cancelled = false;
  open_error = none;
  reader = content_of s.seq;
  stops = none;
  send_error = [];
}

undisturbed : (s : PullSource) → IsUndisturbed look s
undisturbed s = record { going = refl; opens = refl; reads_on = refl }

first-HasBase : HasBase hash look willing store (record { source = first; target = by_delta })
first-HasBase = record {
  base = base_data;
  there = refl;
  opens = refl;
  block = omega arith;
  few = omega arith;
  count = refl;
  sigs = refl;
  distinct = base_data-Distinct;
}

pairs-AllAgree : AllAgree hash look targets willing store pairs
unfolding hash
pairs-AllAgree = (
  record {
    listed = refl;
    number = refl;
    same_plan = refl;
    sized = refl;
    small = omega arith;
    hash = refl;
    given = refl;
    based = first-HasBase;
  },
  (
    record {
      listed = refl;
      number = refl;
      same_plan = refl;
      sized = refl;
      small = omega arith;
      hash = refl;
      given = refl;
      based = tt;
    },
    tt,
  ),
)

pull_transfer_example :
    receive_files hash 5 targets
      (map
        (arrive willing)
        (send_sources hash 5 (codes "/d") 5 look (first ∷ second ∷ []) (record {
          room = length (sources_frames hash 5 look (first ∷ second ∷ [])) + 1;
          sent = [];
        })).0.sent)
      (with_counters none store false (0, 0))
    ≡ done
        (with_counters none
          (place (shipments hash look pairs) store)
          false
          (count_all (shipments hash look pairs) (0, 0)))
        (ok (codes "/d"))
pull_transfer_example =
    pull_transfer hash look hash_wide willing 5 targets pairs (codes "/d") 5 _ store (0, 0)
      pairs-AllAgree (undisturbed first, (undisturbed second, tt)) willing-IsWilling (omega arith)

abbrev signed : SigSet
signed = record {
  block_size = 2;
  block_count = 1;
  weak = 5 ∷ [];
  strong = 1 ∷ 2 ∷ [];
  file_sha = [];
  size = 2;
}

abbrev at_node : Node
at_node = record {
  is_dir = false;
  mkdir_ok = true;
  symlink_ok = true;
  remove_ok = true;
  create_ok = true;
  open_ok = true;
  disk = record { sync_ok = true; chmod_ok = true; rename_ok = true };
}

read_plans-plan_frames_example :
    read_plans 5
      (map (arrives at_node) (plan_frames 5 by_delta (some signed)) ++ [])
      (first ∷ second ∷ [])
    ≡ read_plans 5 [] (
        set_at
          (first ∷ second ∷ [])
          0
          (planned_as Plan.delta 2 by_delta.block_count (sigs_of (some signed)) first))
read_plans-plan_frames_example =
    read_plans-plan_frames 5 at_node (first ∷ second ∷ []) by_delta (some signed) first [] refl refl
      (omega arith) (unfold sigs_of encode encode_from be_bytes in omega arith)

-- A pull of one file that is started and never ended.
abbrev one_listed : PullTarget
one_listed = record {
  seq = 0;
  dest = codes "r/d/f";
  size = 4;
  mode = 420;
  sha = 1 ∷ [];
  plan = FilePlan.whole;
  block_size = 0;
  block_count = 0;
}

abbrev unfinished : List Arrival
unfinished =
    walked
    ++ arrive willing (file_start 5 0) ∷ arrive willing (transfer_done 5 true [] [] 0 []) ∷ []

unfinished_files :
    files_of (take_manifest 5 (codes "r") unfinished nothing_walked).0 ≡ one_listed ∷ []
unfolding take_manifest take_arrival take_payload recv_before id safe_rel push split
unfinished_files = refl

unfinished_small :
    (i : ℕ) (t : PullTarget)
    → get_elem? (files_of (take_manifest 5 (codes "r") unfinished nothing_walked).0) i ≡ some t
    → t.size < 2 ^ 63
unfinished_small zero t e =
    let h : get_elem? (one_listed ∷ []) 0 ≡ some t =
      subst (λ ts. get_elem? ts 0 ≡ some t) unfinished_files e in
    let found : one_listed ≡ t = cc in subst (λ x. x.size < 2 ^ 63) found (omega arith)
unfinished_small (suc i) t e =
    let h : get_elem? (one_listed ∷ []) (suc i) ≡ some t =
      subst (λ ts. get_elem? ts (suc i) ≡ some t) unfinished_files e in
    cc

abbrev line : Line
line = record { room = 100; sent = [] }

pull-Confined_example :
    Confined hash
      (codes "r")
      5
      unfinished
      store
      (pull hash 5 (codes "r") (λ t. here) line unfinished store)
pull-Confined_example =
    pull-Confined hash (codes "r") 5 unfinished store (λ t. here) line
      (tt, (tt, (tt, (tt, (tt, tt))))) unfinished_small

-- A success is reported although the file that was started has not come.
result_of : Outcome → Result PullError Text
result_of (Outcome.more s) = err PullError.out_of_time
result_of (Outcome.done s result) = result

cut_short_test :
    exit_code
      (result_of (receive_files hash 5 targets cut_short (with_counters none store false (0, 0))))
    ≡ 0
unfolding result_of receive_files on_arrival recv_before id on_payload continue exit_code hash
    create write_op
cut_short_test = refl

-- A push of a directory with a link and a file.
abbrev one_file : ManifestFile
one_file = record {
  seq = 0;
  rel = codes "d/f";
  path = codes "/home/d/f";
  size = 3;
  mode = 420;
  sha = 1 ∷ [];
}

abbrev local : Push.Manifest
local = record {
  dirs = (codes "d", 493) ∷ [];
  links = record { rel = codes "l"; target = codes "d"; mode = 511 } ∷ [];
  files = one_file ∷ [];
}

local-IsAccepted : IsAccepted (codes "r") local
unfolding join_rel safe_rel push split
local-IsAccepted = record {
  dirs = ((codes "r/d", refl), tt);
  links = ((codes "r/l", refl), tt);
  files = ((codes "r/d/f", refl), tt);
  numbered = (refl, tt);
}

node-IsWilling : Steps.IsWilling at_node
node-IsWilling = record { no_dir = refl; makes = refl; links = refl }

manifest_frames-ended_example :
    (effects : List Effect) × (check_count
        (run_list 5 (codes "r") (events at_node (manifest_frames 5 local)) nothing_listed).0
      ≡ ended 1 (record { targets = target_of (codes "r") one_file ∷ []; effects = effects }))
manifest_frames-ended_example =
    manifest_frames-ended 5 (codes "r") at_node node-IsWilling local local-IsAccepted

chunk_foreign : id (chunk 6 []) ≢ 5
unfolding id
chunk_foreign e = omega (arith, e)

wait_transfer_done-got_example :
    wait_transfer_done 5 (
      (other_frame ∷ relay_result (chunk 6 []) ∷ [])
      ++ relay_result (transfer_done 5 true [] (codes "r") 3 []) ∷ closed ∷ [])
    ≡ got (done_at (codes "r"))
wait_transfer_done-got_example =
    wait_transfer_done-got 5 (other_frame ∷ relay_result (chunk 6 []) ∷ []) (closed ∷ []) true []
      (codes "r") 3 [] (tt, (chunk_foreign, tt))

abbrev known : ManifestFile
known = record {
  seq = 1;
  rel = codes "d/g";
  path = codes "/home/d/g";
  size = 2;
  mode = 420;
  sha = 2 ∷ [];
}

-- The first file is wanted as a whole, the node has the second one.
abbrev answers : Slots
answers = record {
  plans = FilePlan.whole ∷ FilePlan.skip ∷ [];
  block_sizes = 0 ∷ 0 ∷ [];
  sigs = [] ∷ [] ∷ [];
}

abbrev tasks : List Task
tasks =
    record { file = one_file; plan = FilePlan.whole; block_size = 0; sigs = [] }
    ∷ record { file = known; plan = FilePlan.skip; block_size = 0; sigs = [] }
    ∷ []

abbrev at_hand : ManifestFile → Sending.Look
at_hand f = record {
  feedback = other_frame ∷ [];
  open_error = none;
  reader = record { rest = 4 ∷ 5 ∷ 6 ∷ []; sizes = 2 ∷ [] };
  stops = none;
}

tasks-AreSmooth : All (λ t. Smooth.IsSmooth hash answers (at_hand t.file) t) tasks
unfolding check_send_feedback
tasks-AreSmooth = (
  record {
    planned = refl;
    sized = refl;
    signed = refl;
    quiet = refl;
    opens = refl;
    reads_on = refl;
    has_ops = tt;
  },
  (
    record {
      planned = refl;
      sized = refl;
      signed = refl;
      quiet = refl;
      opens = refl;
      reads_on = refl;
      has_ops = tt;
    },
    tt,
  ),
)

send_files-Completes_example : Completes (tasks_frames hash 5 at_hand tasks ++ push_end 5 ∷ []) (
    send_files hash 5 answers at_hand
      (one_file ∷ known ∷ [])
      (record { room = length (tasks_frames hash 5 at_hand tasks) + 1; sent = [] }))
send_files-Completes_example =
    send_files-Completes hash 5 answers at_hand tasks _ [] tasks-AreSmooth (omega arith)
