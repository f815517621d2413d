-- ===== src/Ctrl/Push/Examples.antt =====
-- A push of two files, src/ctrl.rs and src/agent.rs, on a concrete input.
use apb.Prelude.{
  ℕ, zero, suc, ◌+◌, ◌≡◌, refl, none, some, true, false, List, [], ◌∷◌, arith, All, codes, length,
  map,
}
use apb.Bytes.{be_bytes}
use apb.Delta.Reader.{Reader}
use apb.Delta.Signatures.{scan, encode}
use apb.Agent.Types.{Plan, PushTarget, Store, Answers, transfer_ok}
use apb.Agent.Data.{done, total_size, run_data}
use apb.Ctrl.Plans.{FilePlan, Slots, other_frame}
use apb.Ctrl.Push.{ManifestFile}
use apb.Ctrl.Push.Sending.{Look, check_send_feedback, send_files}
use apb.Ctrl.Push.Sending.Completed.{tasks_frames}
use apb.Ctrl.Push.Transfer.{Pair, arrives, HasBase, stored_all, AllAgree, IsUndisturbed, IsWilling}
use apb.Ctrl.Push.Transfer.Completed.{push_transfer}
use apb.Examples.{hash, hash_wide, base_data, base_data-Distinct, source_data}

abbrev willing : Answers
willing = record {
  is_dir = false;
  mkdir_ok = true;
  symlink_ok = true;
  remove_ok = true;
  create_ok = true;
  open_ok = true;
  disk = record { sync_ok = true; chmod_ok = true; rename_ok = true };
}

willing-IsWilling : IsWilling willing
willing-IsWilling = record { creates = refl; syncs = refl; sets = refl; renames = refl }

-- The node has `base_data` at both paths; the first file goes as a delta, the second as a whole.
abbrev store : Store
store path = some base_data

abbrev first : ManifestFile
first = record {
  seq = 0;
  rel = codes "f";
  path = codes "/home/f";
  size = 4;
  mode = 420;
  sha = hash (9 ∷ 1 ∷ 2 ∷ 7 ∷ []);
}

abbrev second : ManifestFile
second = record {
  seq = 1;
  rel = codes "g";
  path = codes "/home/g";
  size = 1;
  mode = 420;
  sha = hash (5 ∷ []);
}

abbrev by_delta : Pair
by_delta = record {
  task = record {
    file = first;
    plan = FilePlan.delta;
    block_size = 2;
    sigs = encode (scan hash base_data 2);
  };
  target = record {
    seq = 0;
    dest = codes "r/f";
    size = 4;
    mode = 420;
    sha = hash (9 ∷ 1 ∷ 2 ∷ 7 ∷ []);
    plan = Plan.delta;
    block_size = 2;
    block_count = (scan hash base_data 2).block_count;
  };
}

abbrev as_whole : Pair
as_whole = record {
  task = record { file = second; plan = FilePlan.whole; block_size = 0; sigs = [] };
  target = record {
    seq = 1;
    dest = codes "r/g";
    size = 1;
    mode = 420;
    sha = hash (5 ∷ []);
    plan = Plan.whole;
    block_size = 0;
    block_count = 0;
  };
}

abbrev pairs : List Pair
pairs = by_delta ∷ as_whole ∷ []

abbrev targets : List PushTarget
targets = map (λ p. p.target) pairs

abbrev answers : Slots
answers = record {
  plans = FilePlan.delta ∷ FilePlan.whole ∷ [];
  block_sizes = 2 ∷ 0 ∷ [];
  sigs = encode (scan hash base_data 2) ∷ [] ∷ [];
}

-- What the controller reads of a file, by its number.
abbrev content_of : ℕ → Reader
content_of zero = source_data
content_of (suc n) = record { rest = 5 ∷ []; sizes = [] }

abbrev look : ManifestFile → Look
look f = record {
  feedback = other_frame ∷ [];
  open_error = none;
  reader = content_of f.seq;
  stops = none;
}

by_delta-HasBase : HasBase hash look willing store by_delta
unfolding scan encode be_bytes hash
by_delta-HasBase = record {
  base = base_data;
  there = refl;
  opens = refl;
  block = omega arith;
  few = omega arith;
  count = refl;
  sigs = refl;
  distinct = base_data-Distinct;
}

pairs-AllAgree : AllAgree hash look targets willing store pairs
unfolding hash
pairs-AllAgree = (
  record {
    listed = refl;
    number = refl;
    same_plan = refl;
    sized = refl;
    small = omega arith;
    hash = refl;
    given = refl;
    based = by_delta-HasBase;
  },
  (
    record {
      listed = refl;
      number = refl;
      same_plan = refl;
      sized = refl;
      small = omega arith;
      hash = refl;
      given = refl;
      based = tt;
    },
    tt,
  ),
)

pairs-AreUndisturbed : All (λ p. IsUndisturbed answers look p.task) pairs
unfolding check_send_feedback
pairs-AreUndisturbed = (
  record {
    planned = refl;
    sized = refl;
    signed = refl;
    quiet = refl;
    opens = refl;
    reads_on = refl;
  },
  (
    record {
      planned = refl;
      sized = refl;
      signed = refl;
      quiet = refl;
      opens = refl;
      reads_on = refl;
    },
    tt,
  ),
)

push_transfer_example :
    run_data hash 5 targets
      (map
        (arrives willing)
        (send_files hash 5 answers look (first ∷ second ∷ []) (record {
          room = length (tasks_frames hash 5 look (map (λ p. p.task) pairs)) + 1;
          sent = [];
        })).0.sent)
      (record { current = none; files = store; tmp = false })
    ≡ done
        (record { current = none; files = stored_all hash look pairs store; tmp = false })
        (transfer_ok (total_size targets) ∷ [])
push_transfer_example =
    push_transfer hash look hash_wide willing 5 targets willing-IsWilling answers pairs _ store
      pairs-AllAgree pairs-AreUndisturbed (omega arith)
