-- ===== src/Ctrl/Pull/Data.antt =====
-- The third phase of `pull` of src/ctrl.rs: the loop that takes the files from the node.
pub mod Handling
pub mod Safety
pub mod Frames
pub mod Delivery
use apb.Prelude.{
  ℕ, ◌+◌, ◌%◌, ◌^◌, Option, none, some, Bool, false, true, List, [], ◌∷◌, ◌==◌, get_elem?, length,
  if◌then◌else◌, Result, ok, err,
}
use apb.Proto.Types.{Text, Blob, Payload, error, chunk, file_start, file_end, transfer_done}
use apb.Proto.Payload.{id}
use apb.Delta.Sink.{Op}
use apb.Delta.Writer.{
  WriteError, FileWriter, Files, FinishError, create, write_op, all_zero, finish,
}
use apb.Agent.Types.{Store}
use apb.Agent.Data.{Open, put}
use apb.Ctrl.Plans.{FilePlan}
use apb.Ctrl.Pull.{
  PullTarget, PullError, start_before_end, unknown_seq, create_failed, data_without_start,
  copy_without_start, write_failed, end_without_start, end_without_hash, finish_failed, agent_error,
  connection_closed, Answers, Arrival, Incoming, payload, hung_up, other, recv_before,
}

-- `current`, the files of the controller's machine, whether a temporary file of the job is pending, and the
-- counters of `XferStats` that the loop changes.
pub record Pulling : Type 0 where
  pub current : Option Open
  pub files : Store
  pub tmp : Bool
  pub sent : ℕ
  pub reused : ℕ

-- The loop goes on, or its closure returns: with the path that the node reports, or with an error.
pub data Outcome : Type 0 where
  more : Pulling → Outcome
  done : Pulling → Result PullError Text → Outcome

fail : PullError → Pulling → Outcome
fail why s = done s (err why)

-- `current.take().unwrap().1.abort()`
aborted : Pulling → Pulling
aborted s = record s { current = none; tmp = false }

unfoldable pub base_of : PullTarget → Answers → Store → Option (List ℕ)
base_of t a files = elim t.plan [
  | FilePlan.delta ↦ if a.open_ok then files t.dest else none
  | _ ↦ none
]

open_target : ℕ → PullTarget → Answers → Pulling → Outcome
unfolding fail base_of
open_target idx t a s =
    let opened : Open = record {
      idx = idx;
      dest = t.dest;
      writer = create (base_of t a s.files) t.size;
    } in
    if a.create_ok
    then more (record s { current = some opened; tmp = true })
    else fail (create_failed t.dest) s

start_target : Option PullTarget → ℕ → Answers → Pulling → Outcome
unfolding fail open_target
start_target none seq a s = fail (unknown_seq seq) s
start_target (some t) seq a s =
    if t.seq == seq then open_target seq t a s else fail (unknown_seq seq) s

start_file : Option Open → List PullTarget → ℕ → Answers → Pulling → Outcome
unfolding fail start_target
start_file (some o) targets seq a s = fail start_before_end s
start_file none targets seq a s = start_target (get_elem? targets seq) seq a s

written_to : Open → Result WriteError FileWriter → Pulling → Outcome
unfolding fail aborted
written_to o (ok w) s = more (record s { current = some (record o { writer = w }) })
written_to o (err e) s = fail (write_failed e) (aborted s)

-- `stats.sent` counts the bytes of `Data`, `stats.reused` the length of a `Copy`; the sums wrap around, as
-- in a release build.
counted : Op → Pulling → Pulling
counted (Op.literal bytes) s = record s { sent = (s.sent + length bytes) % 2 ^ 64 }
counted (Op.copy start len) s = record s { reused = (s.reused + len) % 2 ^ 64 }

write_file : Option Open → PullError → Op → Pulling → Outcome
unfolding fail written_to counted
write_file none without op s = fail without s
write_file (some o) without op s = written_to o (write_op op o.writer) (counted op s)

-- What `finish` leaves at the destination and of the temporary file; `current` was taken before.
settle : Text → Result FinishError ℕ × Files → Pulling → Outcome
unfolding fail put
settle dest (ok n, f) s =
    more (record s { current = none; files = put dest f.dest s.files; tmp = f.tmp })
settle dest (err e, f) s =
    fail (finish_failed e)
      (record s { current = none; files = put dest f.dest s.files; tmp = f.tmp })

end_file : Option Open → (List ℕ → List ℕ) → Blob → Answers → Pulling → Outcome
unfolding fail settle aborted
end_file none sha256 sha a s = fail end_without_start s
end_file (some o) sha256 sha a s =
    if all_zero sha
    then fail end_without_hash (aborted s)
    else settle o.dest
        (finish sha256 a.disk sha o.writer (record { dest = s.files o.dest; tmp = s.tmp })) s

-- `match p { .. }`
unfoldable pub on_payload :
    (List ℕ → List ℕ) → List PullTarget → Payload → Answers → Pulling → Outcome
unfolding start_file write_file end_file fail
on_payload sha256 targets (file_start i seq) a s = start_file s.current targets seq a s
on_payload sha256 targets (chunk i bytes) a s =
    write_file s.current data_without_start (Op.literal bytes) s
on_payload sha256 targets (Payload.copy i start len) a s =
    write_file s.current copy_without_start (Op.copy start len) s
on_payload sha256 targets (file_end i sha) a s = end_file s.current sha256 sha a s
on_payload sha256 targets (transfer_done i success message path bytes sha) a s =
    if success then done s (ok path) else fail (agent_error message) s
on_payload sha256 targets (error i code message) a s = fail (agent_error message) s
on_payload sha256 targets _ a s = more s

on_incoming :
    (List ℕ → List ℕ)
    → ℕ
    → List PullTarget
    → Result PullError Incoming
    → Answers
    → Pulling
    → Outcome
unfolding on_payload fail
on_incoming sha256 job targets (err e) a s = fail e s
on_incoming sha256 job targets (ok (payload p)) a s =
    if id p == job then on_payload sha256 targets p a s else more s
on_incoming sha256 job targets (ok hung_up) a s = fail connection_closed s
on_incoming sha256 job targets (ok other) a s = more s

unfoldable pub on_arrival : (List ℕ → List ℕ) → ℕ → List PullTarget → Arrival → Pulling → Outcome
unfolding on_incoming
on_arrival sha256 job targets x s = on_incoming sha256 job targets (recv_before x.event) x.answers s

unfoldable pub continue : (Pulling → Outcome) → Outcome → Outcome
continue f (more s) = f s
continue f (done s result) = done s result

-- The loop, on what comes. It waits where that ends.
unfoldable pub receive_files :
    (List ℕ → List ℕ) → ℕ → List PullTarget → List Arrival → Pulling → Outcome
unfolding continue on_arrival
receive_files sha256 job targets [] s = more s
receive_files sha256 job targets (x ∷ xs) s =
    continue (receive_files sha256 job targets xs) (on_arrival sha256 job targets x s)

close : Option Open → Pulling → Pulling
unfolding aborted
close none s = s
close (some o) s = aborted s

-- `if let Some((_, w)) = current.take() { w.abort(); }`, behind the loop.
unfoldable pub after_data : Outcome → Outcome
unfolding close
after_data (more s) = more s
after_data (done s result) = done (close s.current s) result

-- The exit code.
unfoldable pub exit_code : Result PullError Text → ℕ
exit_code (ok path) = 0
exit_code (err e) = 6
