-- ===== src/Wire/Queue.antt =====
-- `Conn::send`, the writer thread and `Conn::flush` of src/wire.rs, step by step as the threads interleave.
pub mod Drained
use apb.Prelude.{
  ℕ, zero, suc, ◌+◌, ◌-◌, ◌%◌, ◌^◌, ◌<◌, ◌≡◌, Bool, true, false, List, [], ◌∷◌, ◌++◌, length, ◌==◌,
  if◌then◌else◌,
}
use apb.Proto.Types.{Blob}

abbrev pub write_queue : ℕ
write_queue = 128

-- The writer thread: it waits for a message, sends one, has sent it or failed to, has left its loop on a
-- failure, or has ended and dropped the receiver.
pub data Writer : Type 0 where
  idle : Writer
  sending : (msg : Blob) → Writer
  tried : (msg : Blob) (sent : Bool) → Writer
  ending : (msg : Blob) → Writer
  stopped : (msg : Blob) → Writer

-- `announced`: the callers of `send` behind `fetch_add`; `refused`: those whose `tx.send` failed. `accepted`
-- are the messages that `tx.send` took, `cloned` how many of them came through a `sender_clone`, and `written`
-- those that went to the socket.
pub record Conn : Type 0 where
  pub pending : ℕ
  pub announced : ℕ
  pub refused : ℕ
  pub cloned : ℕ
  pub queue : List Blob
  pub writer : Writer
  pub accepted : List Blob
  pub written : List Blob

unfoldable pub new : Conn
new = record {
  pending = 0;
  announced = 0;
  refused = 0;
  cloned = 0;
  queue = [];
  writer = idle;
  accepted = [];
  written = [];
}

unfoldable pub fetch_add : ℕ → ℕ
fetch_add n = (n + 1) % 2 ^ 64

unfoldable pub fetch_sub : ℕ → ℕ
fetch_sub n = (n + (2 ^ 64 - 1)) % 2 ^ 64

-- The receiver is dropped when the thread ends.
unfoldable pub is_open : Writer → Bool
is_open (stopped msg) = false
is_open (ending msg) = true
is_open idle = true
is_open (sending msg) = true
is_open (tried msg sent) = true

-- What each step leaves.
unfoldable pub announce : Conn → Conn
unfolding fetch_add
announce c = record c { pending = fetch_add c.pending; announced = c.announced + 1 }

unfoldable pub accept : Blob → Conn → Conn
accept msg c = record c {
  announced = c.announced - 1;
  queue = c.queue ++ msg ∷ [];
  accepted = c.accepted ++ msg ∷ [];
}

-- A message through the `SyncSender` of `sender_clone`, which does not count.
unfoldable pub accept_cloned : Blob → Conn → Conn
accept_cloned msg c = record c {
  cloned = c.cloned + 1;
  queue = c.queue ++ msg ∷ [];
  accepted = c.accepted ++ msg ∷ [];
}

unfoldable pub refuse : Conn → Conn
refuse c = record c { announced = c.announced - 1; refused = c.refused + 1 }

unfoldable pub retract : Conn → Conn
unfolding fetch_sub
retract c = record c { pending = fetch_sub c.pending; refused = c.refused - 1 }

unfoldable pub take_message : Blob → List Blob → Conn → Conn
take_message msg rest c = record c { queue = rest; writer = sending msg }

unfoldable pub try_send : Blob → Bool → Conn → Conn
try_send msg true c = record c { writer = tried msg true; written = c.written ++ msg ∷ [] }
try_send msg false c = record c { writer = tried msg false }

unfoldable pub settle : Blob → Bool → Conn → Conn
unfolding fetch_sub
settle msg sent c = record c {
  pending = fetch_sub c.pending;
  writer = if sent then idle else ending msg;
}

unfoldable pub drop_receiver : Blob → Conn → Conn
drop_receiver msg c = record c { writer = stopped msg }

-- A step of one of the threads. `tx.send` waits while the channel is full.
pub data Step : Conn → Conn → Type 0 where
  announces : (c : Conn) → Step c (announce c)
  accepts :
      (c : Conn) (msg : Blob) (n : ℕ)
      → c.announced ≡ suc n
      → is_open c.writer ≡ true
      → length c.queue < write_queue
      → Step c (accept msg c)
  accepts_cloned :
      (c : Conn) (msg : Blob)
      → is_open c.writer ≡ true
      → length c.queue < write_queue
      → Step c (accept_cloned msg c)
  refuses : (c : Conn) (n : ℕ) → c.announced ≡ suc n → is_open c.writer ≡ false → Step c (refuse c)
  retracts : (c : Conn) (n : ℕ) → c.refused ≡ suc n → Step c (retract c)
  takes :
      (c : Conn) (msg : Blob) (rest : List Blob)
      → c.writer ≡ idle
      → c.queue ≡ msg ∷ rest
      → Step c (take_message msg rest c)
  tries :
      (c : Conn) (msg : Blob) (sent : Bool) → c.writer ≡ sending msg → Step c (try_send msg sent c)
  settles :
      (c : Conn) (msg : Blob) (sent : Bool) → c.writer ≡ tried msg sent → Step c (settle msg sent c)
  drops : (c : Conn) (msg : Blob) → c.writer ≡ ending msg → Step c (drop_receiver msg c)

pub data Reachable : Conn → Type 0 where
  start : Reachable new
  next : (c d : Conn) → Reachable c → Step c d → Reachable d

-- The connection at each load of `pending` before the deadline.
unfoldable pub flush : List Conn → Bool
flush [] = false
flush (c ∷ cs) = if c.pending == 0 then true else flush cs
