-- ===== src/Server/Handlers.antt =====
-- The handlers of a connection in src/server.rs: the hello, the loops of an agent and of a controller
-- frame by frame, and what is cleaned up when they end. `version` is the crate's, `debug` what
-- `{:?}` prints of a frame, `now` the clock.
use apb.Prelude.{
  ℕ, ◌+◌, ◌%◌, ◌^◌, Option, none, some, Bool, false, List, [], ◌∷◌, ◌++◌, ◌==◌, if◌then◌else◌, ok,
  err,
}
use apb.Proto.Tags.{role_agent, role_ctrl}
use apb.Proto.Types.{
  Text, Blob, PeerInfo, Frame, hello, hello_ok, error, ping, pong, relay_req, relay_result,
  route_cancel, list_req, list_res,
}
use apb.Proto.Frame
use apb.Proto.Payload
use apb.Server.Messages.{
  text_le, disconnected, already_connected, invalid_name, unknown_role, expected_hello,
  agent_unexpected, controller_unexpected,
}
use apb.Server.State.{
  AgentEntry, RouteEntry, State, text_eq, lookup, insert, remove, valid_name, send_frame, close,
  send_ctrl_error, remove_entry, remove_route,
}
use apb.Server.Relay.{relay_to_agent}

-- `routes.iter().filter(..).map(..).collect()`
unfoldable pub doomed_keys : (RouteEntry → Bool) → List (ℕ × RouteEntry) → List ℕ
doomed_keys doomed [] = []
doomed_keys doomed ((k, r) ∷ routes) =
    if doomed r then k ∷ doomed_keys doomed routes else doomed_keys doomed routes

-- `for k in keys`: the entry goes out of both maps and into the list.
unfoldable pub drop_keys : List ℕ → State → List (ℕ × RouteEntry) × State
drop_keys [] s = ([], s)
drop_keys (k ∷ keys) s = elim (lookup ◌==◌ k s.routes) [
  | none ↦ drop_keys keys s
  | some r ↦ let rest = drop_keys keys (remove_entry k (some r) s) in ((k, r) ∷ rest.0, rest.1)
]

unfoldable pub drop_routes : (RouteEntry → Bool) → State → List (ℕ × RouteEntry) × State
unfolding doomed_keys drop_keys
drop_routes doomed s = drop_keys (doomed_keys doomed s.routes) s

unfoldable pub drop_agent : Text → ℕ → State → State
drop_agent name conn s = elim (lookup text_eq name s.agents) [
  | none ↦ s
  | some cur ↦ if cur.conn == conn then record s { agents = remove text_eq name s.agents } else s
]

unfoldable pub tell_ctrls : Text → List (ℕ × RouteEntry) → State → State
tell_ctrls name [] s = s
tell_ctrls name ((route, r) ∷ doomed) s =
    tell_ctrls name doomed (send_ctrl_error r.ctrl_conn r.req_id 410 (disconnected name) s)

unfoldable pub cleanup_agent : Text → ℕ → State → State
unfolding tell_ctrls
cleanup_agent name conn s =
    let s' = drop_agent name conn s in
    let (doomed, s'') = drop_routes (λ r. text_eq r.agent name) s' in tell_ctrls name doomed s''

unfoldable pub tell_agent : ℕ → Option AgentEntry → State → State
tell_agent route none s = s
tell_agent route (some a) s = (send_frame a.conn (route_cancel route) s).1

unfoldable pub tell_agents : List (ℕ × RouteEntry) → State → State
unfolding tell_agent
tell_agents [] s = s
tell_agents ((route, r) ∷ doomed) s =
    tell_agents doomed (tell_agent route (lookup text_eq r.agent s.agents) s)

unfoldable pub cleanup_ctrl : (conn ctrl_id : ℕ) → State → State
unfolding tell_agents
cleanup_ctrl conn ctrl_id s =
    let (doomed, s') = drop_routes (λ r. r.ctrl_id == ctrl_id) s in
    close conn (tell_agents doomed s')

unfoldable pub set_seen : ℕ → Text → List (Text × AgentEntry) → List (Text × AgentEntry)
set_seen now name [] = []
set_seen now name ((n, a) ∷ agents) =
    if text_eq n name
    then (n, record a { last_seen_ms = now }) ∷ agents
    else (n, a) ∷ set_seen now name agents

unfoldable pub touch_agent : ℕ → Text → State → State
unfolding set_seen
touch_agent now name s = record s { agents = set_seen now name s.agents }

unfoldable pub peer : AgentEntry → PeerInfo
peer a = record {
  role = role_agent;
  name = a.info_name;
  version = a.version;
  os = a.os;
  arch = a.arch;
  connected_at_ms = a.connected_at_ms;
  last_seen_ms = a.last_seen_ms;
}

unfoldable pub insert_peer : PeerInfo → List PeerInfo → List PeerInfo
insert_peer p [] = p ∷ []
insert_peer p (q ∷ ps) = if text_le p.name q.name then p ∷ (q ∷ ps) else q ∷ insert_peer p ps

unfoldable pub peers : List (Text × AgentEntry) → List PeerInfo
unfolding peer insert_peer
peers [] = []
peers ((name, a) ∷ agents) = insert_peer (peer a) (peers agents)

unfoldable pub list_peers : State → List PeerInfo
unfolding peers
list_peers s = peers s.agents

-- Whether the loop of a connection goes on.
pub data Turn : Type 0 where
  next : State → Turn
  over : State → Turn

-- `Payload::decode(&payload).map(|p| p.is_final()).unwrap_or(false)`
unfoldable pub is_final_blob : Blob → Bool
is_final_blob payload = elim (Payload.decode payload) [ ok p ↦ Payload.is_final p | err e ↦ false ]

unfoldable pub relay_result_to : ℕ → Blob → Option RouteEntry → State → State
unfolding is_final_blob
relay_result_to route payload none s = s
relay_result_to route payload (some e) s =
    let (taken, s') = send_frame e.ctrl_conn (relay_result route payload) s in
    if is_final_blob payload then remove_route route s' else s'

module _ (version : Text) (debug : Frame → Text) where
  unfoldable pub agent_frame : ℕ → Frame → State → State
  unfolding relay_result_to
  agent_frame conn (relay_result route payload) s =
      relay_result_to route payload (lookup ◌==◌ route s.routes) s
  agent_frame conn (ping nonce) s = (send_frame conn (pong nonce) s).1
  agent_frame conn (route_cancel route) s = (send_frame conn (route_cancel route) s).1
  agent_frame conn (error code message) s = s
  agent_frame conn other s = (send_frame conn (error 400 (agent_unexpected ++ debug other)) s).1

  -- One round of `agent_loop`, once `recv` has returned `raw`.
  unfoldable pub agent_round : (now conn : ℕ) → Text → Blob → State → Turn
  unfolding agent_frame touch_agent
  agent_round now conn name raw s = elim (Frame.decode raw) [
    | ok frame ↦ next (agent_frame conn frame (touch_agent now name s))
    | err e ↦ over (touch_agent now name s)
  ]

  unfoldable pub list_reply : Bool × State → Turn
  list_reply (taken, s) = if taken then next s else over s

  unfoldable pub ctrl_frame : (conn ctrl_id : ℕ) → Frame → State → Turn
  unfolding list_reply
  ctrl_frame conn ctrl_id (relay_req target payload) s =
      next (relay_to_agent conn ctrl_id target payload s)
  ctrl_frame conn ctrl_id list_req s = list_reply (send_frame conn (list_res (list_peers s)) s)
  ctrl_frame conn ctrl_id (ping nonce) s = next (send_frame conn (pong nonce) s).1
  ctrl_frame conn ctrl_id (error code message) s = next s
  ctrl_frame conn ctrl_id other s =
      next (send_frame conn (error 400 (controller_unexpected ++ debug other)) s).1

  -- One round of `ctrl_loop`, once `recv` has returned `raw`.
  unfoldable pub ctrl_round : (conn ctrl_id : ℕ) → Blob → State → Turn
  unfolding ctrl_frame
  ctrl_round conn ctrl_id raw s = elim (Frame.decode raw) [
    | ok frame ↦ ctrl_frame conn ctrl_id frame s
    | err e ↦ over s
  ]

  -- `serve` numbers a connection that it accepts.
  unfoldable pub accept : State → ℕ × State
  accept s = (s.next_conn, record s { next_conn = (s.next_conn + 1) % 2 ^ 64 })

  -- What `handle_connection` does with the first frame: the loop that it enters, if it does.
  pub data Session : Type 0 where
    agent : (name : Text) → Session
    ctrl : (ctrl_id : ℕ) → Session
    refused : Session

  unfoldable pub refuse : ℕ → ℕ → Text → State → Session × State
  refuse conn code message s = (refused, close conn (send_frame conn (error code message) s).1)

  unfoldable pub join_agent : (now conn : ℕ) → AgentEntry → State → Session × State
  unfolding refuse
  join_agent now conn a s =
      if valid_name a.info_name
      then elim (lookup text_eq a.info_name s.agents) [
        | some other ↦ refuse conn 409 (already_connected a.info_name) s
        | none ↦ (
          agent a.info_name,
          (send_frame conn (hello_ok version)
              (record s { agents = insert text_eq a.info_name a s.agents })).1,
        )
      ]
      else refuse conn 400 invalid_name s

  unfoldable pub first_frame : (now conn : ℕ) → Frame → State → Session × State
  unfolding refuse join_agent
  first_frame now conn (hello role name version' os arch pid) s =
      if role == role_agent
      then join_agent now conn
          (record {
            info_name = name;
            version = version';
            os = os;
            arch = arch;
            connected_at_ms = now;
            last_seen_ms = now;
            conn = conn;
          })
          s
      else if role == role_ctrl
      then (ctrl (if conn == 0 then 1 else conn), (send_frame conn (hello_ok version) s).1)
      else refuse conn 400 unknown_role s
  first_frame now conn other s = refuse conn 400 (expected_hello ++ debug other) s

  -- What follows the loop.
  unfoldable pub leave : ℕ → Session → State → State
  leave conn (agent name) s = close conn (cleanup_agent name conn s)
  leave conn (ctrl ctrl_id) s = close conn (cleanup_ctrl conn ctrl_id s)
  leave conn refused s = s
