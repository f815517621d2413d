-- ===== src/Wire/Queue/Drained.antt =====
-- What `pending` of src/wire.rs counts, and what a `flush` that returns `true` means.
use mathlib.Core.Path.{subst}
use apb.Prelude.{
  ℕ, ◌+◌, ◌%◌, ◌^◌, ◌<◌, ◌≡◌, refl, sym, ap, ◌∙◌, ◌⊎◌, inl, inr, Bool-cases, true, false, List, [],
  ◌∷◌, ◌++◌, arith, All, append-nil, append_assoc, length, length-append, ◌==◌,
}
use apb.Proto.Types.{Blob}
use apb.Wire.Queue.{
  Writer, idle, sending, tried, ending, stopped, Conn, new, fetch_add, fetch_sub, announce, accept,
  accept_cloned, refuse, retract, take_message, try_send, settle, drop_receiver, Step, announces,
  accepts, accepts_cloned, refuses, retracts, takes, tries, settles, drops, Reachable, start, next,
  flush,
}

busy : Writer → ℕ
busy idle = 0
busy (sending msg) = 1
busy (tried msg sent) = 1
busy (ending msg) = 0
busy (stopped msg) = 0

-- The messages that are under way.
unfoldable pub under_way : Conn → ℕ
unfolding busy
under_way c = c.announced + c.refused + length c.queue + busy c.writer

-- Every message that was taken is written, with the writer or in the queue, in the order of `tx.send`.
abbrev pub Ordered : Writer → (accepted written queue : List Blob) → Type 0
Ordered idle accepted written queue = accepted ≡ written ++ queue
Ordered (sending msg) accepted written queue = accepted ≡ written ++ msg ∷ queue
Ordered (tried msg true) accepted written queue = accepted ≡ written ++ queue
Ordered (tried msg false) accepted written queue = accepted ≡ written ++ msg ∷ queue
Ordered (ending msg) accepted written queue = accepted ≡ written ++ msg ∷ queue
Ordered (stopped msg) accepted written queue = accepted ≡ written ++ msg ∷ queue

pub record IsConn (c : Conn) : Type 0 where
  pub counted : (c.pending + c.cloned) % 2 ^ 64 ≡ under_way c % 2 ^ 64
  pub ordered : Ordered c.writer c.accepted c.written c.queue

append-Ordered :
    (w : Writer) (accepted written queue : List Blob) (msg : Blob)
    → Ordered w accepted written queue
    → Ordered w (accepted ++ msg ∷ []) written (queue ++ msg ∷ [])
append-Ordered idle a w q msg h = rw h (append_assoc w q (msg ∷ []))
append-Ordered (sending m) a w q msg h = rw h (append_assoc w (m ∷ q) (msg ∷ []))
append-Ordered (tried m true) a w q msg h = rw h (append_assoc w q (msg ∷ []))
append-Ordered (tried m false) a w q msg h = rw h (append_assoc w (m ∷ q) (msg ∷ []))
append-Ordered (ending m) a w q msg h = rw h (append_assoc w (m ∷ q) (msg ∷ []))
append-Ordered (stopped m) a w q msg h = rw h (append_assoc w (m ∷ q) (msg ∷ []))

more-IsConn :
    (c d : Conn)
    → IsConn c
    → under_way d ≡ under_way c + 1
    → (d.pending + d.cloned) % 2 ^ 64 ≡ (c.pending + c.cloned + 1) % 2 ^ 64
    → Ordered d.writer d.accepted d.written d.queue
    → IsConn d
more-IsConn c d h n p o = record { counted = omega (arith, h.counted, n, p); ordered = o }

fewer-IsConn :
    (c d : Conn)
    → IsConn c
    → under_way c ≡ under_way d + 1
    → (d.pending + d.cloned + 1) % 2 ^ 64 ≡ (c.pending + c.cloned) % 2 ^ 64
    → Ordered d.writer d.accepted d.written d.queue
    → IsConn d
fewer-IsConn c d h n p o = record { counted = omega (arith, h.counted, n, p); ordered = o }

same-IsConn :
    (c d : Conn)
    → IsConn c
    → under_way d ≡ under_way c
    → d.pending + d.cloned ≡ c.pending + c.cloned
    → Ordered d.writer d.accepted d.written d.queue
    → IsConn d
same-IsConn c d h n p o = record { counted = omega (arith, h.counted, n, p); ordered = o }

Step-IsConn : (c d : Conn) → Step c d → IsConn c → IsConn d
unfolding under_way busy announce accept accept_cloned refuse retract take_message try_send settle
    drop_receiver fetch_add fetch_sub
Step-IsConn _ _ (announces c) h = more-IsConn c (announce c) h (omega arith) (omega arith) h.ordered
Step-IsConn _ _ (accepts c msg n e a room) h =
    same-IsConn c (accept msg c) h (omega (arith, e, length-append c.queue (msg ∷ []))) refl
      (append-Ordered c.writer c.accepted c.written c.queue msg h.ordered)
Step-IsConn _ _ (accepts_cloned c msg a room) h =
    more-IsConn c (accept_cloned msg c) h (omega (arith, length-append c.queue (msg ∷ [])))
      (omega arith) (append-Ordered c.writer c.accepted c.written c.queue msg h.ordered)
Step-IsConn _ _ (refuses c n e a) h = same-IsConn c (refuse c) h (omega (arith, e)) refl h.ordered
Step-IsConn _ _ (retracts c n e) h =
    fewer-IsConn c (retract c) h (omega (arith, e)) (omega arith) h.ordered
Step-IsConn _ _ (takes c msg rest e q) h =
    same-IsConn c (take_message msg rest c) h (omega (arith, ap busy e, ap length q)) refl
      (subst (λ w. Ordered w c.accepted c.written c.queue) e h.ordered ∙ ap (λ l. c.written ++ l) q)
Step-IsConn _ _ (tries c msg true e) h =
    same-IsConn c (try_send msg true c) h (omega (arith, ap busy e)) refl (
      subst (λ w. Ordered w c.accepted c.written c.queue) e h.ordered
      ∙ sym (append_assoc c.written (msg ∷ []) c.queue))
Step-IsConn _ _ (tries c msg false e) h =
    same-IsConn c (try_send msg false c) h (omega (arith, ap busy e)) refl
      (subst (λ w. Ordered w c.accepted c.written c.queue) e h.ordered)
Step-IsConn _ _ (settles c msg true e) h =
    fewer-IsConn c (settle msg true c) h (omega (arith, ap busy e)) (omega arith)
      (subst (λ w. Ordered w c.accepted c.written c.queue) e h.ordered)
Step-IsConn _ _ (settles c msg false e) h =
    fewer-IsConn c (settle msg false c) h (omega (arith, ap busy e)) (omega arith)
      (subst (λ w. Ordered w c.accepted c.written c.queue) e h.ordered)
Step-IsConn _ _ (drops c msg e) h =
    same-IsConn c (drop_receiver msg c) h (omega (arith, ap busy e)) refl
      (subst (λ w. Ordered w c.accepted c.written c.queue) e h.ordered)

-- In every state that the threads reach, in any interleaving: `pending` and the messages taken through a
-- clone of the sender together count, modulo 2^64, the messages that are announced, refused and not yet
-- taken back, queued, or with the writer; and the messages that `tx.send` took are those written, then
-- the one with the writer, then the queue, in their order.
pub Reachable-IsConn : (c : Conn) → Reachable c → IsConn c
unfolding new under_way busy
Reachable-IsConn _ start = record { counted = omega arith; ordered = refl }
Reachable-IsConn _ (next c d r s) = Step-IsConn c d s (Reachable-IsConn c r)

-- The writer failed on this message and takes no other.
abbrev pub HasFailed : Blob → Writer → Type 0
HasFailed msg w = (w ≡ ending msg) ⊎ (w ≡ stopped msg)

-- All that was taken is written, but for a last message on which the writer has ended.
abbrev pub Flushed : Conn → Type 0
Flushed c =
    (c.accepted ≡ c.written)
    ⊎ ((msg : Blob) × HasFailed msg c.writer × (c.accepted ≡ c.written ++ msg ∷ []))

abbrev pub Some : (Conn → Type 0) → List Conn → Type 0
Some P [] = ⊥
Some P (c ∷ cs) = P c ⊎ Some P cs

flushed :
    (w : Writer) (accepted written queue : List Blob)
    → Ordered w accepted written queue
    → length queue + busy w ≡ 0
    → (accepted ≡ written) ⊎ ((msg : Blob) × HasFailed msg w × (accepted ≡ written ++ msg ∷ []))
unfolding busy
flushed idle a w [] h n = inl (h ∙ append-nil w)
flushed (ending msg) a w [] h n = inr (msg, inl refl, h)
flushed (stopped msg) a w [] h n = inr (msg, inr refl, h)
flushed w a u (m ∷ q) h n = absurd (omega arith)
flushed (sending msg) a w [] h n = absurd (omega arith)
flushed (tried msg sent) a w [] h n = absurd (omega arith)

none_left :
    (c : Conn)
    → IsConn c
    → c.cloned ≡ 0
    → under_way c < 2 ^ 64
    → (c.pending == 0) ≡ true
    → length c.queue + busy c.writer ≡ 0
unfolding under_way
none_left c k none_cloned s z =
    let zero_pending : c.pending ≡ 0 = ground arith in
    omega (arith, k.counted, none_cloned, s, zero_pending)

-- If `flush` returns `true` on states that the threads reach, with fewer than 2^64 messages under way and
-- none taken through a clone of the sender, then at one of its loads every message that was taken has
-- been written in order, except that the last one may be one on which the writer failed and ended.
pub flush-Flushed :
    (cs : List Conn)
    → All Reachable cs
    → All (λ c. c.cloned ≡ 0) cs
    → All (λ c. under_way c < 2 ^ 64) cs
    → flush cs ≡ true
    → Some Flushed cs
unfolding flush
flush-Flushed [] r alone small h = absurd (cc)
flush-Flushed (c ∷ cs) (r, rs) (m, alone) (s, small) h = elim (Bool-cases (c.pending == 0)) [
  | inl z ↦
      let k = Reachable-IsConn c r in
      inl (flushed c.writer c.accepted c.written c.queue k.ordered (none_left c k m s z))
  | inr z ↦ inr (flush-Flushed cs rs alone small (rw z at h))
]
