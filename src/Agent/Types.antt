-- ===== src/Agent/Types.antt =====
-- What the transfers of src/agent.rs share: `Plan`, `PushTarget`, the replies, and the machine's answers.
use apb.Prelude.{ℕ, Option, Bool, List, ◌==◌, if◌then◌else◌, Result, ok, err}
use apb.Proto.Tags.{plan_send, plan_skip, plan_delta}
use apb.Proto.Types.{Text, Blob, Payload}
use apb.Util.Paths.{PathError}
use apb.Delta.Writer.{WriteError, FinishError, Disk}

pub data Plan : Type 0 where
  whole : Plan
  skip : Plan
  delta : Plan

unfoldable pub action : Plan → ℕ
action whole = plan_send
action skip = plan_skip
action delta = plan_delta

-- An unknown action is the error.
unfoldable pub from_action : ℕ → Result ℕ Plan
from_action a =
    if a == plan_send
    then ok whole
    else if a == plan_skip
    then ok skip
    else if a == plan_delta
    then ok delta
    else err a

-- One file that the controller wants on this node.
pub record PushTarget : Type 0 where
  pub seq : ℕ
  pub dest : Text
  pub size : ℕ
  pub mode : ℕ
  pub sha : Blob
  pub plan : Plan
  pub block_size : ℕ
  pub block_count : ℕ

-- The messages of `send_error`, by their kind.
pub data Refusal : Type 0 where
  bad_path : PathError → Refusal
  mkdir_failed : Text → Refusal
  symlink_failed : Text → Refusal
  target_is_dir : Text → Refusal
  out_of_order : (seq : ℕ) → Refusal
  wrong_count : (declared listed : ℕ) → Refusal
  scan_failed : Refusal
  unknown_seq : (seq : ℕ) → Refusal
  start_before_end : Refusal
  create_failed : Text → Refusal
  data_without_start : Refusal
  copy_without_start : Refusal
  write_failed : WriteError → Refusal
  end_without_start : Refusal
  end_without_hash : Refusal
  finish_failed : FinishError → Refusal
  push_end_before_end : Refusal

pub data Reply : Type 0 where
  refused : (code : ℕ) → Refusal → Reply
  transfer_ok : (bytes : ℕ) → Reply

-- The regular files of the machine, by their path; a link is none.
abbrev pub Store : Type 0
Store = Text → Option (List ℕ)

-- What the machine answers while one payload is handled. `remove_ok` is of a file that makes room for a link.
pub record Answers : Type 0 where
  pub is_dir : Bool
  pub mkdir_ok : Bool
  pub symlink_ok : Bool
  pub remove_ok : Bool
  pub create_ok : Bool
  pub open_ok : Bool
  pub disk : Disk

-- What `next_payload` returns: a payload, `Ok(None)`, or an error of `Payload::decode`.
pub data Event : Type 0 where
  received : Payload → Answers → Event
  cancelled : Event
  broken : Event
