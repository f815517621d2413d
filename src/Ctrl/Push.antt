-- ===== src/Ctrl/Push.antt =====
-- `push` of src/ctrl.rs: the manifest that the controller sends, and the waiting for the node's answers.
pub mod Listed
pub mod Answered
pub mod Sending
pub mod Transfer
mod Examples
use apb.Prelude.{
  ℕ, ◌+◌, ◌%◌, ◌^◌, Bool, true, false, List, [], ◌∷◌, ◌++◌, ◌==◌, length, map, if◌then◌else◌,
  Result, ok, err,
}
use apb.Proto.Types.{
  Text, Blob, Payload, error, mkdir, symlink, file_begin, manifest_end, push_ready, transfer_done,
}
use apb.Ctrl.Plans.{Event, relay_result, undecodable, server_error, other_frame, closed, timed_out}

pub record ManifestFile : Type 0 where
  pub seq : ℕ
  pub rel : Text
  pub path : Text
  pub size : ℕ
  pub mode : ℕ
  pub sha : Blob

pub record Link : Type 0 where
  pub rel : Text
  pub target : Text
  pub mode : ℕ

pub record Manifest : Type 0 where
  pub dirs : List (Text × ℕ)
  pub links : List Link
  pub files : List ManifestFile

unfoldable pub dir_frame : ℕ → Text × ℕ → Payload
dir_frame job (rel, mode) = mkdir job rel mode

unfoldable pub link_frame : ℕ → Link → Payload
link_frame job l = symlink job l.rel l.target l.mode

unfoldable pub begin_frame : ℕ → ManifestFile → Payload
begin_frame job f = file_begin job f.seq f.rel f.size f.mode f.sha

-- `manifest_frames`
unfoldable pub manifest_frames : ℕ → Manifest → List Payload
unfolding dir_frame link_frame begin_frame
manifest_frames job m =
    map (dir_frame job) m.dirs
    ++ (map (link_frame job) m.links
        ++ (map (begin_frame job) m.files ++ manifest_end job (length m.files) ∷ []))

-- Why the controller gives up.
pub data WaitError : Type 0 where
  told : (message : Text) → WaitError
  server_refused : (code : ℕ) (message : Text) → WaitError
  invalid_data : WaitError
  connection_closed : WaitError
  out_of_time : WaitError

pub data Waiting (A : Type 0) : Type 0 where
  waits : Waiting A
  got : A → Waiting A
  failed : WaitError → Waiting A

-- The match of `wait_push_ready` on a payload.
ready_payload : ℕ → Payload → Waiting Text
ready_payload job (push_ready i root) = if i == job then got root else waits
ready_payload job (error i code message) = if i == job then failed (told message) else waits
ready_payload job _ = waits

pub data TransferOutcome : Type 0 where
  done : (remote_path : Text) → TransferOutcome
  refused : (message remote_path : Text) → TransferOutcome

-- The match of `wait_transfer_done` on a payload.
done_payload : ℕ → Payload → Waiting TransferOutcome
done_payload job (transfer_done i success message path bytes sha) =
    if i == job then got (if success then done path else refused message path) else waits
done_payload job (error i code message) = if i == job then got (refused message []) else waits
done_payload job _ = waits

wait_event : {A : Type 0} → (Payload → Waiting A) → Event → Waiting A
wait_event f (relay_result p) = f p
wait_event f undecodable = failed invalid_data
wait_event f (server_error code message) = failed (server_refused code message)
wait_event f other_frame = waits
wait_event f closed = failed connection_closed
wait_event f timed_out = failed out_of_time

wait_on : {A : Type 0} → Waiting A → Waiting A → Waiting A
wait_on waits rest = rest
wait_on (got a) rest = got a
wait_on (failed e) rest = failed e

-- The loop of both functions, on the events that come. It waits where they end.
unfoldable pub wait_loop : {A : Type 0} → (Payload → Waiting A) → List Event → Waiting A
unfolding wait_event wait_on
wait_loop f [] = waits
wait_loop f (e ∷ es) = wait_on (wait_event f e) (wait_loop f es)

unfoldable pub wait_push_ready : ℕ → List Event → Waiting Text
unfolding wait_loop ready_payload
wait_push_ready job es = wait_loop (ready_payload job) es

unfoldable pub wait_transfer_done : ℕ → List Event → Waiting TransferOutcome
unfolding wait_loop done_payload
wait_transfer_done job es = wait_loop (done_payload job) es
