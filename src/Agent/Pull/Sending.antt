-- ===== src/Agent/Pull/Sending.antt =====
-- The third phase of `run_pull` of src/agent.rs: the node sends its files as they were planned.
pub mod Streamed
pub mod Frames
pub mod Completed
use apb.Prelude.{
  ℕ, zero, suc, ◌+◌, ◌%◌, ◌^◌, Option, none, some, Bool, true, false, List, [], ◌∷◌, ◌++◌, ◌==◌,
  ltb, length, take, map, if◌then◌else◌, Result, ok, err, codes,
}
use apb.Proto.Types.{Text, Blob, Payload, chunk, file_start, file_end, transfer_done}
use apb.Delta.Reader.{Reader, read}
use apb.Delta.Signatures.{IndexError, SigIndex, new_index}
use apb.Delta.Sink.{Op, Sink}
use apb.Delta.Produce.{produce_delta}
use apb.Agent.Types.{Plan}
use apb.Agent.Plans.{Line, send_frames}
use apb.Agent.Pull.{PullSource}

-- `DATA_CHUNK`
abbrev pub data_chunk : ℕ
data_chunk = 16384

-- Why a file ends before its last frame: the flag `cancel`, or a read that fails.
pub data Stop : Type 0 where
  interrupted : Stop
  read_failed : (message : Text) → Stop

-- What the machine answers for one file. `stops`: after so many frames of its content.
pub record Look : Type 0 where
  pub cancelled : Bool
  pub open_error : Option Text
  pub reader : Reader
  pub stops : Option (ℕ × Stop)
  pub send_error : Text

-- How `run_pull` ends. `stalled` stands for a `produce_delta` without fuel, which it never is.
pub data Ending : Type 0 where
  complete : Ending
  reported : (message : Text) → Ending
  refused : IndexError → Ending
  returned : Ending
  open_failed : Ending
  stalled : Ending

-- The reads of `stream_file`, each of which is a `Data` frame. Each takes a byte at least.
unfoldable pub reads : ℕ → Reader → List (List ℕ)
unfolding read
reads zero r = []
reads (suc fuel) r =
    let (bytes, later) = read data_chunk r in
    let rest = reads fuel later in if length bytes == 0 then [] else bytes ∷ rest

unfoldable pub stream_ops : Reader → List Op
unfolding reads
stream_ops r = map Op.literal (reads (suc (length r.rest)) r)

-- The closure `emit`, and the frames of `stream_file`.
unfoldable pub op_frame : ℕ → Op → Payload
op_frame job (Op.copy start len) = Payload.copy job start len
op_frame job (Op.literal bytes) = chunk job bytes

-- The frames of the content up to the stop, which is seen before the frame number `limit` at the latest.
cut : Option (ℕ × Stop) → ℕ → List Payload → List Payload × Option Stop
cut none limit frames = (frames, none)
cut (some (n, stop)) limit frames =
    if ltb n limit then (take n frames, some stop) else (frames, none)

unfoldable pub zero_sha : Blob
zero_sha =
    0 ∷ 0 ∷ 0 ∷ 0 ∷ 0 ∷ 0 ∷ 0 ∷ 0 ∷ 0 ∷ 0 ∷ 0 ∷ 0 ∷ 0 ∷ 0 ∷ 0 ∷ 0 ∷ 0 ∷ 0 ∷ 0 ∷ 0 ∷ 0 ∷ 0 ∷ 0 ∷ 0
    ∷ 0 ∷ 0 ∷ 0 ∷ 0 ∷ 0 ∷ 0 ∷ 0 ∷ 0 ∷ []

-- `finish_pull`; whether the connection takes the frame does not matter.
unfoldable pub finish_pull : ℕ → Text → ℕ → Option Text → Line → Line × Ending
unfolding zero_sha
finish_pull job root total none l =
    ((send_frames (transfer_done job true [] root total zero_sha ∷ []) l).1, complete)
finish_pull job root total (some message) l =
    ((send_frames (transfer_done job false message root total zero_sha ∷ []) l).1, reported message)

module _ (sha256 : List ℕ → List ℕ) (job : ℕ) (root : Text) (total : ℕ) where
  -- `FileEnd`, and the files behind.
  end_source : (Line → Line × Ending) → Bool × Line → Line × Ending
  end_source next (true, l) = next l
  end_source next (false, l) = (l, returned)

  -- A delta that is cancelled ends without a word.
  stop_source : Bool → Stop → Line → Line × Ending
  unfolding finish_pull
  stop_source true interrupted l = (l, returned)
  stop_source false interrupted l = finish_pull job root total (some (codes "cancelled")) l
  stop_source quiet (read_failed message) l = finish_pull job root total (some message) l

  body_sent :
      (Line → Line × Ending)
      → Look
      → PullSource
      → (quiet : Bool) → Option Stop
      → Bool × Line
      → Line × Ending
  unfolding end_source stop_source finish_pull
  body_sent next look s quiet stop (false, l) = finish_pull job root total (some look.send_error) l
  body_sent next look s quiet none (true, l) =
      end_source next (send_frames (file_end job s.sha ∷ []) l)
  body_sent next look s quiet (some stop) (true, l) = stop_source quiet stop l

  send_body :
      (Line → Line × Ending)
      → Look
      → PullSource
      → (quiet : Bool) → List Payload × Option Stop
      → Line
      → Line × Ending
  unfolding body_sent
  send_body next look s quiet (frames, stop) l =
      body_sent next look s quiet stop (send_frames frames l)

  -- `stream_file` looks at the flag once more before it sees the end of the file.
  stream_file : (Line → Line × Ending) → Option Text → Look → PullSource → Line → Line × Ending
  unfolding send_body cut finish_pull
  stream_file next (some message) look s l = finish_pull job root total (some message) l
  stream_file next none look s l =
      let frames = map (op_frame job) (stream_ops look.reader) in
      send_body next look s false (cut look.stops (suc (length frames)) frames) l

  send_ops : (Line → Line × Ending) → Option Sink → Look → PullSource → Line → Line × Ending
  unfolding send_body cut
  send_ops next none look s l = (l, stalled)
  send_ops next (some sink) look s l =
      let frames = map (op_frame job) sink.ops in
      send_body next look s true (cut look.stops (length frames) frames) l

  send_delta :
      (Line → Line × Ending)
      → Result IndexError SigIndex
      → Option Text
      → Look
      → PullSource
      → Line
      → Line × Ending
  unfolding send_ops
  send_delta next (err e) opened look s l = (l, refused e)
  send_delta next (ok idx) (some message) look s l = (l, open_failed)
  send_delta next (ok idx) none look s l =
      send_ops next (produce_delta sha256 idx look.reader) look s l

  -- `match s.plan { .. }`, behind `FileStart`.
  started : (Line → Line × Ending) → Plan → Look → PullSource → Bool × Line → Line × Ending
  unfolding stream_file send_delta end_source
  started next plan look s (false, l) = (l, returned)
  started next Plan.whole look s (true, l) = stream_file next look.open_error look s l
  started next Plan.delta look s (true, l) =
      send_delta next (new_index s.block_size s.block_count s.sigs) look.open_error look s l
  started next Plan.skip look s (true, l) =
      end_source next (send_frames (file_end job s.sha ∷ []) l)

  -- A file that the controller has is passed over.
  send_planned : (Line → Line × Ending) → Plan → Look → PullSource → Line → Line × Ending
  unfolding started
  send_planned next Plan.skip look s l = next l
  send_planned next plan look s l =
      started next plan look s (send_frames (file_start job s.seq ∷ []) l)

  -- `for s in sources.iter()`
  unfoldable pub send_sources : (PullSource → Look) → List PullSource → Line → Line × Ending
  unfolding send_planned finish_pull
  send_sources look [] l = finish_pull job root total none l
  send_sources look (s ∷ ss) l =
      let next = λ (l' : Line). send_sources look ss l' in
      if (look s).cancelled then (l, returned) else send_planned next s.plan (look s) s l

-- `sources.iter().map(|s| s.size).sum()`, which wraps around in a release build.
unfoldable pub total_size : List PullSource → ℕ
total_size [] = 0
total_size (s ∷ ss) = (s.size + total_size ss) % 2 ^ 64
