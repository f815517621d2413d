-- ===== src/Ctrl/Pull/Listing.antt =====
-- The first phase of `pull` of src/ctrl.rs: the loop that takes the manifest of the node.
pub mod Inside
pub mod Rest
pub mod Linked
use apb.Prelude.{
  ℕ, ◌+◌, ◌%◌, ◌^◌, Option, none, some, List, [], ◌∷◌, ◌++◌, ◌==◌, length, if◌then◌else◌, Result,
  ok, err,
}
use apb.Proto.Tags.{entry_dir, entry_file, entry_symlink}
use apb.Proto.Types.{Text, Blob, Payload, error, entry, manifest_end, transfer_done}
use apb.Proto.Payload.{id}
use apb.Util.Paths.{PathError, safe_rel, push}
use apb.Agent.Manifest.{Effect, create_dir_all, create_parent, set_mode, remove_file, make_symlink}
use apb.Ctrl.Plans.{FilePlan}
use apb.Ctrl.Pull.{
  PullTarget, PullError, bad_path, mkdir_failed, symlink_failed, out_of_order, unknown_kind,
  ended_early, agent_error, connection_closed, Answers, Arrival, Incoming, payload, hung_up, other,
  recv_before,
}

-- `final_path`, and what the loop did to directories and links; what fails may be done in part.
pub record Manifest : Type 0 where
  pub files : List PullTarget
  pub total : ℕ
  pub final_path : Option Text
  pub effects : List Effect

pub data Walked : Type 0 where
  more : Manifest → Walked
  ended : Manifest → Walked
  failed : Manifest → PullError → Walked

first_path : Option Text → Text → Option Text
first_path none dest = some dest
first_path (some path) dest = some path

take_dir : Text → ℕ → Answers → Manifest → Walked
take_dir dest mode a s =
    let made : Manifest = record s { effects = s.effects ++ create_dir_all dest ∷ [] } in
    if a.mkdir_ok
    then more (record made { effects = made.effects ++ set_mode dest mode ∷ [] })
    else failed made (mkdir_failed dest)

take_link : Text → Text → Answers → Manifest → Walked
take_link dest target a s =
    let cleared : Manifest = record s {
      effects = s.effects ++ remove_file dest a.remove_ok ∷ [];
    } in
    if a.symlink_ok
    then more (record cleared { effects = cleared.effects ++ make_symlink dest target ∷ [] })
    else failed cleared (symlink_failed dest)

take_file : Text → (seq size mode : ℕ) → Blob → Manifest → Walked
take_file dest seq size mode sha s =
    let t : PullTarget = record {
      seq = seq;
      dest = dest;
      size = size;
      mode = mode;
      sha = sha;
      plan = FilePlan.whole;
      block_size = 0;
      block_count = 0;
    } in
    if seq == length s.files
    then more (record s { files = s.files ++ t ∷ []; total = (s.total + size) % 2 ^ 64 })
    else failed s (out_of_order seq)

-- `match kind { .. }`
take_kind :
    Text → (seq kind size mode : ℕ) → (link_target : Text) → Blob → Answers → Manifest → Walked
unfolding take_dir take_link take_file
take_kind dest seq kind size mode target sha a s =
    if kind == entry_dir
    then take_dir dest mode a s
    else if kind == entry_symlink
    then take_link dest target a s
    else if kind == entry_file
    then take_file dest seq size mode sha s
    else failed s (unknown_kind kind)

-- What every entry needs: its path, the first path, and its parent directory. The path of `safe_rel` is
-- not absolute, so that `Path::join` is `push`.
take_entry :
    Text
    → Result PathError Text
    → (seq kind size mode : ℕ) → (link_target : Text) → Blob
    → Answers
    → Manifest
    → Walked
unfolding take_kind first_path
take_entry root (err e) seq kind size mode target sha a s = failed s (bad_path e)
take_entry root (ok rel) seq kind size mode target sha a s =
    let dest = push root rel in
    let placed : Manifest = record s {
      final_path = first_path s.final_path dest;
      effects = s.effects ++ create_parent dest ∷ [];
    } in
    if a.parent_ok
    then take_kind dest seq kind size mode target sha a placed
    else failed placed (mkdir_failed dest)

-- `if error.is_empty() { .. }`
early_end : Text → PullError
early_end [] = ended_early
early_end (c ∷ message) = agent_error (c ∷ message)

unfoldable pub take_payload : Text → Payload → Answers → Manifest → Walked
unfolding take_entry early_end
take_payload root (entry i seq rel kind size mode target sha) a s =
    take_entry root (safe_rel rel) seq kind size mode target sha a s
take_payload root (manifest_end i files) a s = ended s
take_payload root (transfer_done i success message path bytes sha) a s =
    failed s (early_end message)
take_payload root (error i code message) a s = failed s (agent_error message)
take_payload root _ a s = more s

take_incoming : ℕ → Text → Result PullError Incoming → Answers → Manifest → Walked
unfolding take_payload
take_incoming job root (err e) a s = failed s e
take_incoming job root (ok (payload p)) a s =
    if id p == job then take_payload root p a s else more s
take_incoming job root (ok hung_up) a s = failed s connection_closed
take_incoming job root (ok other) a s = more s

unfoldable pub take_arrival : ℕ → Text → Arrival → Manifest → Walked
unfolding take_incoming
take_arrival job root x s = take_incoming job root (recv_before x.event) x.answers s

walk_on : (Manifest → Walked × List Arrival) → List Arrival → Walked → Walked × List Arrival
walk_on f xs (more s) = f s
walk_on f xs (ended s) = (ended s, xs)
walk_on f xs (failed s e) = (failed s e, xs)

-- The loop, with the arrivals that it leaves.
unfoldable pub take_manifest : ℕ → Text → List Arrival → Manifest → Walked × List Arrival
unfolding walk_on take_arrival
take_manifest job root [] s = (more s, [])
take_manifest job root (x ∷ xs) s =
    walk_on (take_manifest job root xs) xs (take_arrival job root x s)
