-- ===== src/Server/Relay.antt =====
-- `choose_agent` and `relay_to_agent` of src/server.rs.
use apb.Prelude.{
  ℕ, ◌+◌, ◌%◌, ◌^◌, max, Option, none, some, List, [], ◌∷◌, ◌==◌, if◌then◌else◌, Result, ok, err,
}
use apb.Proto.Types.{Text, Blob, relay_deliver}
use apb.Proto.Payload
use apb.Server.Messages.{no_agent, not_connected, several, unreachable, disconnected}
use apb.Server.State.{
  AgentEntry, State, text_eq, lookup, insert, set_req, send_frame, send_ctrl_error, remove_route,
}

names : List (Text × AgentEntry) → List Text
names [] = []
names ((name, a) ∷ agents) = name ∷ names agents

-- Without a target, the only agent.
only_agent : List (Text × AgentEntry) → Result Text Text
unfolding names
only_agent [] = err no_agent
only_agent ((name, a) ∷ []) = ok name
only_agent ((name, a) ∷ (b ∷ agents)) = err (several (names ((name, a) ∷ (b ∷ agents))))

unfoldable pub choose_agent : State → Text → Result Text Text
unfolding names only_agent
choose_agent s [] = only_agent s.agents
choose_agent s (b ∷ target) = elim (lookup text_eq (b ∷ target) s.agents) [
  | some a ↦ ok (b ∷ target)
  | none ↦ err (not_connected (b ∷ target) (names s.agents))
]

unfoldable pub request_id : Blob → ℕ
request_id payload = elim (Payload.peek_id payload) [ some id ↦ id | none ↦ 0 ]

-- The route of an earlier payload of the same request, with its agent.
unfoldable pub existing_route : State → ℕ → ℕ → Option (ℕ × Text)
existing_route s ctrl_id req_id = elim (s.by_req ctrl_id req_id) [
  | none ↦ none
  | some route ↦ elim (lookup ◌==◌ route s.routes) [ none ↦ none | some r ↦ some (route, r.agent) ]
]

-- A delivery on a route that is gone if the agent cannot be reached.
unfoldable pub deliver : (ctrl_conn route req_id : ℕ) → Text → ℕ → Blob → State → State
deliver ctrl_conn route req_id agent conn payload s =
    let (taken, s') = send_frame conn (relay_deliver route payload) s in
    if taken
    then s'
    else send_ctrl_error ctrl_conn req_id 410 (unreachable agent) (remove_route route s')

unfoldable pub continue_route : (ctrl_conn route req_id : ℕ) → Text → Blob → State → State
unfolding deliver
continue_route ctrl_conn route req_id agent payload s = elim (lookup text_eq agent s.agents) [
  | some a ↦ deliver ctrl_conn route req_id agent a.conn payload s
  | none ↦ send_ctrl_error ctrl_conn req_id 410 (disconnected agent) (remove_route route s)
]

-- `next_route.fetch_add(1)` and the two maps.
unfoldable pub add_route : (ctrl_conn ctrl_id req_id : ℕ) → Text → State → State
add_route ctrl_conn ctrl_id req_id agent s =
    let route = max s.next_route 1 in
    record s {
      next_route = (s.next_route + 1) % 2 ^ 64;
      routes =
          insert ◌==◌ route
            (record { ctrl_conn = ctrl_conn; ctrl_id = ctrl_id; agent = agent; req_id = req_id })
            s.routes;
      by_req = set_req ctrl_id req_id (some route) s.by_req;
    }

unfoldable pub open_route : (ctrl_conn ctrl_id req_id : ℕ) → Text → Blob → State → State
unfolding add_route deliver
open_route ctrl_conn ctrl_id req_id agent payload s = elim (lookup text_eq agent s.agents) [
  | none ↦ send_ctrl_error ctrl_conn req_id 404 (disconnected agent) s
  | some a ↦
      deliver ctrl_conn (max s.next_route 1) req_id agent a.conn payload
        (add_route ctrl_conn ctrl_id req_id agent s)
]

unfoldable pub new_route : (ctrl_conn ctrl_id req_id : ℕ) → Result Text Text → Blob → State → State
unfolding open_route
new_route ctrl_conn ctrl_id req_id (err e) payload s = send_ctrl_error ctrl_conn req_id 404 e s
new_route ctrl_conn ctrl_id req_id (ok agent) payload s =
    open_route ctrl_conn ctrl_id req_id agent payload s

unfoldable pub relay_to_agent : (ctrl_conn ctrl_id : ℕ) → Text → Blob → State → State
unfolding existing_route continue_route new_route request_id
relay_to_agent ctrl_conn ctrl_id target payload s =
    let req_id = request_id payload in
    elim (existing_route s ctrl_id req_id) [
      | some (route, agent) ↦ continue_route ctrl_conn route req_id agent payload s
      | none ↦ new_route ctrl_conn ctrl_id req_id (choose_agent s target) payload s
    ]
