-- ===== src/Agent/Manifest.antt =====
-- The first phase of `run_push` of src/agent.rs: the loop that lists the files of the job, and `join_rel`.
pub mod Inside
pub mod Rest
pub mod Steps
pub mod Cleared
pub mod Linked
use apb.Prelude.{
  ℕ, Option, none, some, Bool, true, false, List, [], ◌∷◌, ◌++◌, ◌==◌, length, if◌then◌else◌,
  Result, ok, err, and_then,
}
use apb.Proto.Types.{Text, Blob, Payload, error, mkdir, file_begin, symlink, manifest_end}
use apb.Proto.Payload.{id}
use apb.Util.Paths.{PathError, safe_rel, push}
use apb.Agent.Data.{put}
use apb.Agent.Types.{
  Plan, PushTarget, Refusal, bad_path, mkdir_failed, symlink_failed, target_is_dir, out_of_order,
  wrong_count, Reply, refused, Store, Answers, Event, received, cancelled, broken,
}

-- What the loop asks of the machine, in its order; what fails may be done in part. `create_parent` makes the
-- directory `path.parent()`, where there is one, and `remove_file` says whether the machine did it.
pub data Effect : Type 0 where
  create_dir_all : (path : Text) → Effect
  create_parent : (path : Text) → Effect
  set_mode : (path : Text) (mode : ℕ) → Effect
  remove_file : (path : Text) (removed : Bool) → Effect
  make_symlink : (path target : Text) → Effect

-- What that does to the regular files.
unfoldable pub effect_on : Effect → Store → Store
unfolding put
effect_on (remove_file path true) files = put path none files
effect_on _ files = files

unfoldable pub effects_on : List Effect → Store → Store
unfolding effect_on
effects_on [] files = files
effects_on (e ∷ es) files = effects_on es (effect_on e files)

pub record Listing : Type 0 where
  pub targets : List PushTarget
  pub effects : List Effect

-- The loop goes on, breaks with the declared number of files, or the handler returns.
pub data Listed : Type 0 where
  more : Listing → Listed
  ended : (declared : ℕ) → Listing → Listed
  stopped : Listing → List Reply → Listed

-- `Path::join` with a path that is not absolute is `push`.
unfoldable pub join_rel : Text → Text → Result PathError Text
join_rel root [] = ok root
join_rel root (c ∷ rel) = and_then (safe_rel (c ∷ rel)) λ r. ok (push root r)

refuse : ℕ → Refusal → Listing → Listed
refuse code why s = stopped s (refused code why ∷ [])

add_dir : Result PathError Text → ℕ → Answers → Listing → Listed
unfolding refuse
add_dir (err e) mode a s = refuse 400 (bad_path e) s
add_dir (ok dir) mode a s =
    let made : Listing = record s { effects = s.effects ++ create_dir_all dir ∷ [] } in
    if a.mkdir_ok
    then more (record made { effects = made.effects ++ set_mode dir mode ∷ [] })
    else refuse 500 (mkdir_failed dir) made

add_link : Result PathError Text → Text → Answers → Listing → Listed
unfolding refuse
add_link (err e) target a s = refuse 400 (bad_path e) s
add_link (ok path) target a s =
    let cleared : Listing = record s {
      effects = s.effects ++ create_parent path ∷ remove_file path a.remove_ok ∷ [];
    } in
    if a.symlink_ok
    then more (record cleared { effects = cleared.effects ++ make_symlink path target ∷ [] })
    else refuse 500 (symlink_failed path) cleared

add_file : Result PathError Text → (seq size mode : ℕ) → Blob → Answers → Listing → Listed
unfolding refuse
add_file (err e) seq size mode sha a s = refuse 400 (bad_path e) s
add_file (ok dest) seq size mode sha a s =
    let target : PushTarget = record {
      seq = seq;
      dest = dest;
      size = size;
      mode = mode;
      sha = sha;
      plan = Plan.whole;
      block_size = 0;
      block_count = 0;
    } in
    if a.is_dir
    then refuse 400 (target_is_dir dest) s
    else if seq == length s.targets
    then more (record s { targets = s.targets ++ target ∷ [] })
    else refuse 400 (out_of_order seq) s

unfoldable pub list_payload : Text → Payload → Answers → Listing → Listed
unfolding add_dir add_link add_file
list_payload root (mkdir i rel mode) a s = add_dir (join_rel root rel) mode a s
list_payload root (symlink i rel target mode) a s = add_link (join_rel root rel) target a s
list_payload root (file_begin i seq rel size mode sha) a s =
    add_file (join_rel root rel) seq size mode sha a s
list_payload root (manifest_end i files) a s = ended files s
list_payload root (error i code message) a s = stopped s []
list_payload root _ a s = more s

unfoldable pub list_event : ℕ → Text → Event → Listing → Listed
unfolding list_payload
list_event job root (received p a) s = if id p == job then list_payload root p a s else more s
list_event job root cancelled s = stopped s []
list_event job root broken s = stopped s []

list_on : (Listing → Listed × List Event) → List Event → Listed → Listed × List Event
list_on f es (more s) = f s
list_on f es (ended files s) = (ended files s, es)
list_on f es (stopped s replies) = (stopped s replies, es)

-- The loop, with the events that it leaves.
unfoldable pub run_list : ℕ → Text → List Event → Listing → Listed × List Event
unfolding list_on list_event
run_list job root [] s = (more s, [])
run_list job root (e ∷ es) s = list_on (run_list job root es) es (list_event job root e s)

-- `if declared != targets.len() as u64 { .. }`
unfoldable pub check_count : Listed → Listed
unfolding refuse
check_count (ended declared s) =
    if declared == length s.targets
    then ended declared s
    else refuse 400 (wrong_count declared (length s.targets)) s
check_count (more s) = more s
check_count (stopped s replies) = stopped s replies
