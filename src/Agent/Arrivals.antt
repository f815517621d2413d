-- ===== src/Agent/Arrivals.antt =====
-- `next_payload` of src/agent.rs: what a job takes from its channel.
use apb.Prelude.{
  ℕ, zero, suc, ◌≡◌, refl, Option, none, some, Bool, false, List, [], ◌∷◌, ◌++◌, if◌then◌else◌,
  Result, ok, err,
}
use apb.Proto.Types.{ProtoError, Blob, Payload}
use apb.Proto.Payload.{decode, encode}
use apb.Proto.Payload.WellFormed.{IsWellFormed}
use apb.Proto.Payload.RoundTrip.{decode-encode}
use apb.Agent.Types.{Answers, Event, received, cancelled, broken}

-- What `recv_timeout` returns.
pub data Got : Type 0 where
  arrived : (raw : Blob) → Got
  timeout : Got
  disconnected : Got

-- A round of the loop: the flag `cancel`, and what the channel gives.
pub record Round : Type 0 where
  pub cancel : Bool
  pub got : Got

decoded : Result ProtoError Payload → Answers → Event
decoded (ok p) a = received p a
decoded (err e) a = broken

on_got : Got → Answers → Option Event → Option Event
unfolding decoded
on_got (arrived raw) a rest = some (decoded (decode raw) a)
on_got timeout a rest = rest
on_got disconnected a rest = some cancelled

-- `none` where it still waits. `a` is what the machine answers while the payload is handled.
unfoldable pub next_payload : List Round → Answers → Option Event
unfolding on_got
next_payload [] a = none
next_payload (r ∷ rs) a =
    let rest = next_payload rs a in if r.cancel then some cancelled else on_got r.got a rest

abbrev pub quiet : ℕ → List Round
quiet zero = []
quiet (suc n) = record { cancel = false; got = timeout } ∷ quiet n

-- After any number of time-outs in which the job is not cancelled, the encoding of a well-formed payload is
-- received as this payload, and the rounds behind it are not looked at.
pub next_payload-encode :
    (n : ℕ) (p : Payload) (a : Answers) (rest : List Round)
    → IsWellFormed p
    → next_payload (quiet n ++ record { cancel = false; got = arrived (encode p) } ∷ rest) a
      ≡ some (received p a)
unfolding next_payload on_got decoded
next_payload-encode zero p a rest h = rw (decode-encode p h) refl
next_payload-encode (suc n) p a rest h = next_payload-encode n p a rest h
