-- ===== src/Ctrl/Push/Sending.antt =====
-- The third phase of `push` of src/ctrl.rs: the controller sends its files as the node has planned them.
pub mod Completed
use apb.Prelude.{
  ℕ, suc, ◌/◌, Option, none, some, Bool, true, false, List, [], ◌∷◌, ltb, length, take, map,
  get_elem?, if◌then◌else◌, Result, ok, err,
}
use apb.Proto.Types.{Text, Blob, Payload, error, file_start, file_end, push_end, transfer_done}
use apb.Delta.Blocks.{sig_len}
use apb.Delta.Reader.{Reader}
use apb.Delta.Signatures.{IndexError, SigIndex, new_index}
use apb.Delta.Sink.{Sink}
use apb.Delta.Produce.{produce_delta}
use apb.Agent.Plans.{Line, send_frames}
use apb.Agent.Pull.Sending.{stream_ops, op_frame}
use apb.Ctrl.Plans.{
  FilePlan, Slots, Event, relay_result, undecodable, server_error, other_frame, closed, timed_out,
}
use apb.Ctrl.Push.{ManifestFile}

-- Why the controller stops. `stalled` stands for a `produce_delta` without fuel, which it never is, and
-- `out_of_range` for a number without a plan, which panics.
pub data SendError : Type 0 where
  told : (message : Text) → SendError
  server_refused : (code : ℕ) (message : Text) → SendError
  connection_closed : SendError
  open_failed : (message : Text) → SendError
  read_failed : (message : Text) → SendError
  bad_index : IndexError → SendError
  stalled : SendError
  out_of_range : SendError

-- What the machine answers for one file, and the events that are queued when it is its turn. `stops`: a read
-- fails after so many frames.
pub record Look : Type 0 where
  pub feedback : List Event
  pub open_error : Option Text
  pub reader : Reader
  pub stops : Option (ℕ × Text)

pub data Ending : Type 0 where
  complete : Ending
  failed : SendError → Ending

feedback_payload : Payload → Option SendError
feedback_payload (error i code message) = some (told message)
feedback_payload (transfer_done i success message path bytes sha) =
    if success then none else some (told message)
feedback_payload _ = none

-- A payload that cannot be decoded is passed over here.
feedback_event : Event → Option SendError
unfolding feedback_payload
feedback_event (relay_result p) = feedback_payload p
feedback_event undecodable = none
feedback_event (server_error code message) = some (server_refused code message)
feedback_event other_frame = none
feedback_event closed = some connection_closed
feedback_event timed_out = none

first_error : Option SendError → Option SendError → Option SendError
first_error (some e) rest = some e
first_error none rest = rest

-- `while let Some(ev) = sess.try_recv_event()`
unfoldable pub check_send_feedback : List Event → Option SendError
unfolding feedback_event first_error
check_send_feedback [] = none
check_send_feedback (e ∷ es) = first_error (feedback_event e) (check_send_feedback es)

-- The last read, which finds the end of the file, may fail too.
cut : Option (ℕ × Text) → List Payload → List Payload × Option Text
cut none frames = (frames, none)
cut (some (n, message)) frames =
    if ltb n (suc (length frames)) then (take n frames, some message) else (frames, none)

module _ (sha256 : List ℕ → List ℕ) (job : ℕ) where
  -- Behind `FileEnd`.
  end_sent : (Line → Line × Ending) → Bool × Line → Line × Ending
  end_sent next (true, l) = next l
  end_sent next (false, l) = (l, failed connection_closed)

  body_sent : (Line → Line × Ending) → ManifestFile → Option Text → Bool × Line → Line × Ending
  unfolding end_sent
  body_sent next f stop (false, l) = (l, failed connection_closed)
  body_sent next f none (true, l) = end_sent next (send_frames (file_end job f.sha ∷ []) l)
  body_sent next f (some message) (true, l) = (l, failed (read_failed message))

  send_body :
      (Line → Line × Ending) → ManifestFile → List Payload × Option Text → Line → Line × Ending
  unfolding body_sent
  send_body next f (frames, stop) l = body_sent next f stop (send_frames frames l)

  stream_local_file :
      (Line → Line × Ending) → Option Text → Look → ManifestFile → Line → Line × Ending
  unfolding send_body cut
  stream_local_file next (some message) look f l = (l, failed (open_failed message))
  stream_local_file next none look f l =
      send_body next f (cut look.stops (map (op_frame job) (stream_ops look.reader))) l

  send_ops : (Line → Line × Ending) → Option Sink → Look → ManifestFile → Line → Line × Ending
  unfolding send_body cut
  send_ops next none look f l = (l, failed stalled)
  send_ops next (some sink) look f l =
      send_body next f (cut look.stops (map (op_frame job) sink.ops)) l

  send_file_delta :
      (Line → Line × Ending)
      → Result IndexError SigIndex
      → Option Text
      → Look
      → ManifestFile
      → Line
      → Line × Ending
  unfolding send_ops
  send_file_delta next (err e) opened look f l = (l, failed (bad_index e))
  send_file_delta next (ok idx) (some message) look f l = (l, failed (open_failed message))
  send_file_delta next (ok idx) none look f l =
      send_ops next (produce_delta sha256 idx look.reader) look f l

  -- Behind `FileStart`; a delta brings its block size and its signatures.
  started :
      (Line → Line × Ending)
      → FilePlan
      → (block_size : ℕ) → (sigs : Blob) → Look
      → ManifestFile
      → Bool × Line
      → Line × Ending
  unfolding stream_local_file send_file_delta
  started next plan block_size sigs look f (false, l) = (l, failed connection_closed)
  started next FilePlan.whole block_size sigs look f (true, l) =
      stream_local_file next look.open_error look f l
  started next FilePlan.delta block_size sigs look f (true, l) =
      send_file_delta next (new_index block_size (length sigs / sig_len) sigs) look.open_error look
        f l
  started next FilePlan.skip block_size sigs look f (true, l) = next l

  send_planned :
      (Line → Line × Ending)
      → FilePlan
      → (block_size : ℕ) → (sigs : Blob) → Look
      → ManifestFile
      → Line
      → Line × Ending
  unfolding started
  send_planned next FilePlan.skip block_size sigs look f l = next l
  send_planned next plan block_size sigs look f l =
      started next plan block_size sigs look f (send_frames (file_start job f.seq ∷ []) l)

  -- `plans[f.seq as usize]`, and the same for the block size and the signatures.
  send_slot :
      (Line → Line × Ending)
      → Option FilePlan
      → Option ℕ
      → Option Blob
      → Look
      → ManifestFile
      → Line
      → Line × Ending
  unfolding send_planned
  send_slot next (some plan) (some block_size) (some sigs) look f l =
      send_planned next plan block_size sigs look f l
  send_slot next _ _ _ look f l = (l, failed out_of_range)

  send_checked :
      (Line → Line × Ending) → Option SendError → Slots → Look → ManifestFile → Line → Line × Ending
  unfolding send_slot
  send_checked next (some e) slots look f l = (l, failed e)
  send_checked next none slots look f l =
      send_slot next (get_elem? slots.plans f.seq) (get_elem? slots.block_sizes f.seq)
        (get_elem? slots.sigs f.seq) look f l

  last_sent : Bool × Line → Line × Ending
  last_sent (true, l) = (l, complete)
  last_sent (false, l) = (l, failed connection_closed)

  -- `for f in manifest.files.iter()`, and `PushEnd`. The statistics are left out.
  unfoldable pub send_files :
      Slots → (ManifestFile → Look) → List ManifestFile → Line → Line × Ending
  unfolding send_checked last_sent check_send_feedback
  send_files slots look [] l = last_sent (send_frames (push_end job ∷ []) l)
  send_files slots look (f ∷ fs) l =
      send_checked (λ (l' : Line). send_files slots look fs l')
        (check_send_feedback (look f).feedback) slots (look f) f l
