-- ===== src/Agent/Data.antt =====
-- The third phase of `run_push` of src/agent.rs: the loop that takes the files of the job.
pub mod Stored
pub mod Handling
pub mod Safety
pub mod Delivery
use apb.Prelude.{
  ℕ, zero, suc, ◌+◌, ◌%◌, ◌^◌, Option, none, some, Bool, true, false, List, [], ◌∷◌, ◌++◌, ◌==◌,
  get_elem?, if◌then◌else◌, Result, ok, err,
}
use apb.Proto.Types.{Text, Blob, Payload, error, chunk, file_start, file_end, push_end}
use apb.Proto.Payload.{id}
use apb.Delta.Produce.{bytes_eq}
use apb.Delta.Sink.{Op}
use apb.Delta.Writer.{
  WriteError, FileWriter, Files, FinishError, create, write_op, all_zero, finish,
}
use apb.Agent.Types.{
  Plan, PushTarget, Refusal, unknown_seq, start_before_end, create_failed, data_without_start,
  copy_without_start, write_failed, end_without_start, end_without_hash, finish_failed,
  push_end_before_end, Reply, refused, transfer_ok, Store, Answers, Event, received, cancelled,
  broken,
}

-- `(idx, writer)` of `current`, with the destination that the writer has.
pub record Open : Type 0 where
  pub idx : ℕ
  pub dest : Text
  pub writer : FileWriter

-- `tmp`: a temporary file of the job is pending, that is made, and neither renamed nor given to `remove_file`.
pub record Receiving : Type 0 where
  pub current : Option Open
  pub files : Store
  pub tmp : Bool

pub data Outcome : Type 0 where
  more : Receiving → Outcome
  done : Receiving → List Reply → Outcome

unfoldable pub put : Text → Option (List ℕ) → Store → Store
put path content files p = if bytes_eq p path then content else files p

-- The sum wraps around, as in a release build.
unfoldable pub total_size : List PushTarget → ℕ
total_size [] = 0
total_size (t ∷ ts) = (t.size + total_size ts) % 2 ^ 64

close : Option Open → Receiving → Receiving
close none r = r
close (some o) r = record r { current = none; tmp = false }

-- `if let Some((_, w)) = current.take() { w.abort() }`
unfoldable pub drop_current : Receiving → Receiving
unfolding close
drop_current r = close r.current r

fail : ℕ → Refusal → Receiving → Outcome
fail code why r = done r (refused code why ∷ [])

unfoldable pub base_of : PushTarget → Answers → Store → Option (List ℕ)
base_of t a files = elim t.plan [ Plan.delta ↦ if a.open_ok then files t.dest else none | _ ↦ none ]

open_file : Option Open → ℕ → PushTarget → Answers → Receiving → Outcome
unfolding fail base_of
open_file (some o) idx t a r = fail 400 start_before_end (record r { current = none; tmp = false })
open_file none idx t a r =
    let opened : Open = record {
      idx = idx;
      dest = t.dest;
      writer = create (base_of t a r.files) t.size;
    } in
    if a.create_ok
    then more (record r { current = some opened; tmp = true })
    else fail 500 (create_failed t.dest) r

start_target : Option PushTarget → ℕ → Answers → Receiving → Outcome
unfolding fail open_file drop_current
start_target none seq a r = fail 400 (unknown_seq seq) (drop_current r)
start_target (some t) seq a r =
    if t.seq == seq
    then open_file r.current seq t a r
    else fail 400 (unknown_seq seq) (drop_current r)

unfoldable pub start_file : List PushTarget → ℕ → Answers → Receiving → Outcome
unfolding start_target
start_file targets seq a r = start_target (get_elem? targets seq) seq a r

written_to : Open → Result WriteError FileWriter → Receiving → Outcome
unfolding fail
written_to o (ok w) r = more (record r { current = some (record o { writer = w }) })
written_to o (err e) r = fail 500 (write_failed e) (record r { current = none; tmp = false })

write_open : Option Open → Refusal → Op → Receiving → Outcome
unfolding fail written_to
write_open none closed op r = fail 400 closed r
write_open (some o) closed op r = written_to o (write_op op o.writer) r

unfoldable pub write_file : Refusal → Op → Receiving → Outcome
unfolding write_open
write_file closed op r = write_open r.current closed op r

-- What `finish` leaves at the destination and of the temporary file.
settle : Text → Result FinishError ℕ × Files → Receiving → Outcome
unfolding fail put
settle dest (ok n, f) r =
    more (record { current = none; files = put dest f.dest r.files; tmp = f.tmp })
settle dest (err e, f) r =
    fail 500 (finish_failed e)
      (record { current = none; files = put dest f.dest r.files; tmp = f.tmp })

end_open : Option Open → (List ℕ → List ℕ) → Blob → Answers → Receiving → Outcome
unfolding fail settle
end_open none sha256 sha a r = fail 400 end_without_start r
end_open (some o) sha256 sha a r =
    if all_zero sha
    then fail 400 end_without_hash (record r { current = none; tmp = false })
    else settle o.dest
        (finish sha256 a.disk sha o.writer (record { dest = r.files o.dest; tmp = r.tmp })) r

unfoldable pub end_file : (List ℕ → List ℕ) → Blob → Answers → Receiving → Outcome
unfolding end_open
end_file sha256 sha a r = end_open r.current sha256 sha a r

end_all : Option Open → List PushTarget → Receiving → Outcome
unfolding fail total_size
end_all (some o) targets r = fail 400 push_end_before_end (record r { current = none; tmp = false })
end_all none targets r = done r (transfer_ok (total_size targets) ∷ [])

unfoldable pub end_push : List PushTarget → Receiving → Outcome
unfolding end_all
end_push targets r = end_all r.current targets r

-- `match p { .. }`
unfoldable pub on_payload :
    (List ℕ → List ℕ) → List PushTarget → Payload → Answers → Receiving → Outcome
unfolding start_file write_file end_file end_push drop_current
on_payload sha256 targets (file_start i seq) a r = start_file targets seq a r
on_payload sha256 targets (chunk i bytes) a r = write_file data_without_start (Op.literal bytes) r
on_payload sha256 targets (Payload.copy i start len) a r =
    write_file copy_without_start (Op.copy start len) r
on_payload sha256 targets (file_end i sha) a r = end_file sha256 sha a r
on_payload sha256 targets (push_end i) a r = end_push targets r
on_payload sha256 targets (error i code message) a r = done (drop_current r) []
on_payload sha256 targets _ a r = more r

unfoldable pub on_event : (List ℕ → List ℕ) → ℕ → List PushTarget → Event → Receiving → Outcome
unfolding on_payload drop_current
on_event sha256 job targets (received p a) r =
    if id p == job then on_payload sha256 targets p a r else more r
on_event sha256 job targets cancelled r = done (drop_current r) []
on_event sha256 job targets broken r = done (drop_current r) []

-- The loop, on the events that come. It waits where they end.
unfoldable pub continue : (Receiving → Outcome) → Outcome → Outcome
continue f (more r) = f r
continue f (done r replies) = done r replies

unfoldable pub run_data : (List ℕ → List ℕ) → ℕ → List PushTarget → List Event → Receiving → Outcome
unfolding continue
run_data sha256 job targets [] r = more r
run_data sha256 job targets (e ∷ es) r =
    continue (run_data sha256 job targets es) (on_event sha256 job targets e r)
