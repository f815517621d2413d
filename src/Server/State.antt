-- ===== src/Server/State.antt =====
-- `State` of src/server.rs, its maps and the connections. A connection is known by the number that
-- `serve` gives it. `sent` is every frame that a connection took, in its order; a send on a connection
-- in `dead` fails. A poisoned lock is not modelled: no code panics under one.
use apb.Prelude.{
  ℕ, ◌%◌, ◌^◌, ◌*◌, max, Option, none, some, Bool, true, false, ◌&&◌, ◌||◌, List, [], ◌∷◌, ◌++◌,
  length, leb, ◌==◌, if◌then◌else◌,
}
use apb.Proto.Types.{Text, Blob, Frame, Payload}
use apb.Proto.Frame
use apb.Proto.Payload

pub record AgentEntry : Type 0 where
  pub info_name : Text
  pub version : Text
  pub os : Text
  pub arch : Text
  pub connected_at_ms : ℕ
  pub last_seen_ms : ℕ
  pub conn : ℕ

-- `ctrl_tx` is the sender of connection `ctrl_conn`.
pub record RouteEntry : Type 0 where
  pub ctrl_conn : ℕ
  pub ctrl_id : ℕ
  pub agent : Text
  pub req_id : ℕ

pub record State : Type 0 where
  pub agents : List (Text × AgentEntry)
  pub routes : List (ℕ × RouteEntry)
  pub by_req : ℕ → ℕ → Option ℕ
  pub next_route : ℕ
  pub next_conn : ℕ
  pub sent : List (ℕ × Blob)
  pub dead : List ℕ

abbrev pub text_eq : Text → Text → Bool
text_eq [] [] = true
text_eq [] (y ∷ ys) = false
text_eq (x ∷ xs) [] = false
text_eq (x ∷ xs) (y ∷ ys) = x == y && text_eq xs ys

-- `HashMap::get`, `insert` and `remove` on a list of the entries.
module _ {K V : Type 0} (eq : K → K → Bool) where
  abbrev pub lookup : K → List (K × V) → Option V
  lookup k [] = none
  lookup k ((j, v) ∷ m) = if eq j k then some v else lookup k m

  abbrev pub remove : K → List (K × V) → List (K × V)
  remove k [] = []
  remove k ((j, v) ∷ m) = if eq j k then remove k m else (j, v) ∷ remove k m

  abbrev pub insert : K → V → List (K × V) → List (K × V)
  insert k v m = (k, v) ∷ remove k m

-- `by_req.insert` and `by_req.remove`.
abbrev pub set_req : ℕ → ℕ → Option ℕ → (ℕ → ℕ → Option ℕ) → ℕ → ℕ → Option ℕ
set_req c q r m c' q' = if c == c' && q == q' then r else m c' q'

abbrev pub member : ℕ → List ℕ → Bool
member c [] = false
member c (d ∷ ds) = d == c || member c ds

-- The bytes that a name may have.
name_byte : ℕ → Bool
name_byte b =
    leb 48 b && leb b 57
    || leb 65 b && leb b 90
    || leb 97 b && leb b 122
    || b == 46
    || b == 95
    || b == 45
    || b == 64
    || b == 58
    || b == 43
    || b == 126

all_name_bytes : Text → Bool
unfolding name_byte
all_name_bytes [] = true
all_name_bytes (b ∷ bs) = name_byte b && all_name_bytes bs

unfoldable pub valid_name : Text → Bool
unfolding all_name_bytes
valid_name name = leb 1 (length name) && (leb (length name) 128 && all_name_bytes name)

unfoldable pub first_route_id : ℕ → ℕ
first_route_id now = max (now * 1000003 % 2 ^ 64) 1

unfoldable pub new : ℕ → State
unfolding first_route_id
new now = record {
  agents = [];
  routes = [];
  by_req = λ c q. none;
  next_route = first_route_id now;
  next_conn = 1;
  sent = [];
  dead = [];
}

-- `Conn::send`: whether the connection took the bytes.
unfoldable pub send : ℕ → Blob → State → Bool × State
send conn bytes s =
    if member conn s.dead
    then (false, s)
    else (true, record s { sent = s.sent ++ (conn, bytes) ∷ [] })

unfoldable pub send_frame : ℕ → Frame → State → Bool × State
unfolding send
send_frame conn frame s = send conn (Frame.encode frame) s

unfoldable pub close : ℕ → State → State
close conn s = record s { dead = conn ∷ s.dead }

unfoldable pub send_ctrl_error : ℕ → ℕ → ℕ → Text → State → State
unfolding send_frame
send_ctrl_error tx id code message s =
    (send_frame tx (Frame.relay_result 0 (Payload.encode (Payload.error id code message))) s).1

unfoldable pub remove_entry : ℕ → Option RouteEntry → State → State
remove_entry route none s = s
remove_entry route (some e) s = record s {
  routes = remove ◌==◌ route s.routes;
  by_req = set_req e.ctrl_id e.req_id none s.by_req;
}

unfoldable pub remove_route : ℕ → State → State
unfolding remove_entry
remove_route route s = remove_entry route (lookup ◌==◌ route s.routes) s
