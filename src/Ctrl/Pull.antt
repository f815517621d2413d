-- ===== src/Ctrl/Pull.antt =====
-- What the phases of `pull` of src/ctrl.rs share: the files, the errors, the statistics, and `recv_before`.
pub mod Listing
pub mod Planning
pub mod Data
pub mod Transfer
pub mod Whole
use apb.Prelude.{ℕ, Bool, Result, ok, err}
use apb.Proto.Types.{Text, Blob, Payload}
use apb.Util.Paths.{PathError}
use apb.Delta.Writer.{WriteError, FinishError, Disk}
use apb.Agent.Types.{PushTarget, Plan}
use apb.Ctrl.Plans.{
  FilePlan, Event, relay_result, undecodable, server_error, other_frame, closed, timed_out,
}

-- One file that the controller is about to receive.
pub record PullTarget : Type 0 where
  pub seq : ℕ
  pub dest : Text
  pub size : ℕ
  pub mode : ℕ
  pub sha : Blob
  pub plan : FilePlan
  pub block_size : ℕ
  pub block_count : ℕ

pub record XferStats : Type 0 where
  pub total : ℕ
  pub sent : ℕ
  pub reused : ℕ
  pub files : ℕ
  pub skipped : ℕ

-- The messages of `print_xfer_error`, by their kind.
pub data PullError : Type 0 where
  bad_path : PathError → PullError
  mkdir_failed : Text → PullError
  symlink_failed : Text → PullError
  out_of_order : (seq : ℕ) → PullError
  unknown_kind : (kind : ℕ) → PullError
  ended_early : PullError
  agent_error : Text → PullError
  invalid_data : PullError
  server_refused : (code : ℕ) (message : Text) → PullError
  connection_closed : PullError
  out_of_time : PullError
  scan_failed : Text → PullError
  send_failed : PullError
  start_before_end : PullError
  unknown_seq : (seq : ℕ) → PullError
  create_failed : Text → PullError
  data_without_start : PullError
  copy_without_start : PullError
  write_failed : WriteError → PullError
  end_without_start : PullError
  end_without_hash : PullError
  finish_failed : FinishError → PullError

-- What the controller's own machine answers while one payload is handled.
pub record Answers : Type 0 where
  pub parent_ok : Bool
  pub mkdir_ok : Bool
  pub symlink_ok : Bool
  pub remove_ok : Bool
  pub create_ok : Bool
  pub open_ok : Bool
  pub disk : Disk

pub record Arrival : Type 0 where
  pub event : Event
  pub answers : Answers

pub data Incoming : Type 0 where
  payload : Payload → Incoming
  hung_up : Incoming
  other : Incoming

-- `timed_out`: the deadline is over, or nothing comes before it.
unfoldable pub recv_before : Event → Result PullError Incoming
recv_before (relay_result p) = ok (payload p)
recv_before undecodable = err invalid_data
recv_before (server_error code message) = err (server_refused code message)
recv_before other_frame = ok other
recv_before closed = ok hung_up
recv_before timed_out = err out_of_time

-- The fields that the two receivers of the program have in common.
abbrev pub as_plan : FilePlan → Plan
as_plan FilePlan.whole = Plan.whole
as_plan FilePlan.skip = Plan.skip
as_plan FilePlan.delta = Plan.delta

abbrev pub as_push : PullTarget → PushTarget
as_push t = record {
  seq = t.seq;
  dest = t.dest;
  size = t.size;
  mode = t.mode;
  sha = t.sha;
  plan = as_plan t.plan;
  block_size = t.block_size;
  block_count = t.block_count;
}
