-- ===== src/Server/Routes/Reachable.antt =====
-- The server of src/server.rs as a step relation: each step is one handler on one connection, in any
-- order, or a connection that dies.
use apb.Prelude.{
  ℕ, ◌+◌, ◌^◌, ◌<◌, Option, none, some, Option-cases, Bool, true, false, Bool-cases, inl, inr,
  arith, ◌==◌, Result-cases,
}
use apb.Proto.Tags.{role_agent, role_ctrl}
use apb.Proto.Types.{Text, Blob, Frame, hello, error, relay_req, relay_result, list_req, list_res}
use apb.Proto.Frame
use apb.Server.State.{
  AgentEntry, RouteEntry, State, text_eq, lookup, close, valid_name, new, first_route_id,
}
use apb.Server.Handlers.{
  Turn, next, over, Session, agent, ctrl, refused, is_final_blob, relay_result_to, agent_frame,
  agent_round, touch_agent, list_reply, list_peers, ctrl_frame, ctrl_round, accept, refuse,
  join_agent, first_frame, leave,
}
use apb.Server.Routes.{Routed, remove_route-Routed}
use apb.Server.Routes.Relay.{send_frame-Routed, relay_to_agent-Routed}
use apb.Server.Routes.Cleanup.{cleanup_agent-IsClean, cleanup_ctrl-IsClean}

abbrev pub after : Turn → State
after (next s) = s
after (over s) = s

module _ (version : Text) (debug : Frame → Text) where
  -- A request of a controller is served while the counter of routes has a number left.
  pub data Step : State → State → Type 0 where
    accepted : (s : State) → Step s (accept version debug s).1
    greeted :
        (now conn : ℕ) (frame : Frame) (s : State)
        → Step s (first_frame version debug now conn frame s).1
    agent_sent :
        (now conn : ℕ) (name : Text) (raw : Blob) (s : State)
        → Step s (after (agent_round version debug now conn name raw s))
    ctrl_sent :
        (conn ctrl_id : ℕ) (raw : Blob) (s : State)
        → s.next_route + 1 < 2 ^ 64
        → Step s (after (ctrl_round version debug conn ctrl_id raw s))
    left :
        (conn : ℕ) (session : Session version debug) (s : State)
        → Step s (leave version debug conn session s)
    died : (conn : ℕ) (s : State) → Step s (close conn s)

  -- The states of a server that was started at some time.
  pub data Reachable : State → Type 0 where
    started : (now : ℕ) → Reachable (new now)
    stepped : {s s' : State} → Reachable s → Step s s' → Reachable s'

  relay_result_to-Routed :
      (route : ℕ) (payload : Blob) (c : Option RouteEntry) (s : State)
      → Routed s
      → Routed (relay_result_to route payload c s)
  unfolding relay_result_to
  relay_result_to-Routed route payload none s h = h
  relay_result_to-Routed route payload (some e) s h =
      let told = send_frame-Routed e.ctrl_conn (relay_result route payload) s h in
      elim (Bool-cases (is_final_blob payload)) [
        | inl f ↦ rw f (remove_route-Routed _ told route)
        | inr f ↦ rw f told
      ]

  agent_frame-Routed :
      (conn : ℕ) (frame : Frame) (s : State)
      → Routed s
      → Routed (agent_frame version debug conn frame s)
  unfolding agent_frame
  agent_frame-Routed conn (relay_result route payload) s h =
      relay_result_to-Routed route payload (lookup ◌==◌ route s.routes) s h
  agent_frame-Routed conn (error code message) s h = h
  agent_frame-Routed conn _ s h = send_frame-Routed conn _ s h

  touch_agent-Routed :
      (now : ℕ) (name : Text) (s : State) → Routed s → Routed (touch_agent now name s)
  unfolding touch_agent
  touch_agent-Routed now name s h = h

  agent_round-Routed :
      (now conn : ℕ) (name : Text) (raw : Blob) (s : State)
      → Routed s
      → Routed (after (agent_round version debug now conn name raw s))
  unfolding agent_round
  agent_round-Routed now conn name raw s h =
      let touched = touch_agent-Routed now name s h in
      elim (Result-cases (Frame.decode raw)) [
        | inl (frame, e) ↦ rw (e, agent_round) (agent_frame-Routed conn frame _ touched)
        | inr (x, e) ↦ rw (e, agent_round) touched
      ]

  list_reply-Routed :
      (taken : Bool) (s : State) → Routed s → Routed (after (list_reply version debug (taken, s)))
  unfolding list_reply
  list_reply-Routed true s h = h
  list_reply-Routed false s h = h

  ctrl_frame-Routed :
      (conn ctrl_id : ℕ) (frame : Frame) (s : State)
      → Routed s
      → s.next_route + 1 < 2 ^ 64
      → Routed (after (ctrl_frame version debug conn ctrl_id frame s))
  unfolding ctrl_frame
  ctrl_frame-Routed conn ctrl_id (relay_req target payload) s h room =
      relay_to_agent-Routed s h room conn ctrl_id target payload
  ctrl_frame-Routed conn ctrl_id list_req s h room =
      list_reply-Routed _ _ (send_frame-Routed conn (list_res (list_peers s)) s h)
  ctrl_frame-Routed conn ctrl_id (error code message) s h room = h
  ctrl_frame-Routed conn ctrl_id _ s h room = send_frame-Routed conn _ s h

  ctrl_round-Routed :
      (conn ctrl_id : ℕ) (raw : Blob) (s : State)
      → Routed s
      → s.next_route + 1 < 2 ^ 64
      → Routed (after (ctrl_round version debug conn ctrl_id raw s))
  unfolding ctrl_round
  ctrl_round-Routed conn ctrl_id raw s h room = elim (Result-cases (Frame.decode raw)) [
    | inl (frame, e) ↦ rw (e, ctrl_round) (ctrl_frame-Routed conn ctrl_id frame s h room)
    | inr (x, e) ↦ rw (e, ctrl_round) h
  ]

  refuse-Routed :
      (conn code : ℕ) (message : Text) (s : State)
      → Routed s
      → Routed (refuse version debug conn code message s).1
  unfolding refuse close
  refuse-Routed conn code message s h =
      let told = send_frame-Routed conn (error code message) s h in
      record { back = told.back; forth = told.forth; fresh = told.fresh; positive = told.positive }

  join_agent-Routed :
      (now conn : ℕ) (a : AgentEntry) (s : State)
      → Routed s
      → Routed (join_agent version debug now conn a s).1
  unfolding join_agent
  join_agent-Routed now conn a s h = elim (Bool-cases (valid_name a.info_name)) [
    | inr bad ↦ rw (bad, join_agent) (refuse-Routed conn 400 _ s h)
    | inl good ↦ elim (Option-cases (lookup text_eq a.info_name s.agents)) [
      | inr (other, e) ↦ rw (good, join_agent, e) (refuse-Routed conn 409 _ s h)
      | inl e ↦
          rw (good, join_agent, e)
            (send_frame-Routed conn _ _
              (record { back = h.back; forth = h.forth; fresh = h.fresh; positive = h.positive }))
    ]
  ]

  first_frame-Routed :
      (now conn : ℕ) (frame : Frame) (s : State)
      → Routed s
      → Routed (first_frame version debug now conn frame s).1
  unfolding first_frame
  first_frame-Routed now conn (hello role name version' os arch pid) s h =
      elim (Bool-cases (role == role_agent)) [
        | inl e ↦ rw e (join_agent-Routed now conn _ s h)
        | inr e ↦ elim (Bool-cases (role == role_ctrl)) [
          | inl f ↦ rw (e, f) (send_frame-Routed conn _ s h)
          | inr f ↦ rw (e, f) (refuse-Routed conn 400 _ s h)
        ]
      ]
  first_frame-Routed now conn _ s h = refuse-Routed conn 400 _ s h

  leave-Routed :
      (conn : ℕ) (session : Session version debug) (s : State)
      → Routed s
      → Routed (leave version debug conn session s)
  unfolding leave close
  leave-Routed conn (agent name) s h =
      let told = (cleanup_agent-IsClean name conn s h).routed in
      record { back = told.back; forth = told.forth; fresh = told.fresh; positive = told.positive }
  leave-Routed conn (ctrl ctrl_id) s h =
      let told = (cleanup_ctrl-IsClean conn ctrl_id s h).routed in
      record { back = told.back; forth = told.forth; fresh = told.fresh; positive = told.positive }
  leave-Routed conn refused s h = h

  Step-Routed : (s s' : State) → Step s s' → Routed s → Routed s'
  unfolding accept close
  Step-Routed s _ (accepted _) h = record {
    back = h.back;
    forth = h.forth;
    fresh = h.fresh;
    positive = h.positive;
  }
  Step-Routed s _ (greeted now conn frame _) h = first_frame-Routed now conn frame s h
  Step-Routed s _ (agent_sent now conn name raw _) h = agent_round-Routed now conn name raw s h
  Step-Routed s _ (ctrl_sent conn ctrl_id raw _ room) h =
      ctrl_round-Routed conn ctrl_id raw s h room
  Step-Routed s _ (left conn session _) h = leave-Routed conn session s h
  Step-Routed s _ (died conn _) h = record {
    back = h.back;
    forth = h.forth;
    fresh = h.fresh;
    positive = h.positive;
  }

  new-Routed : (now : ℕ) → Routed (new now)
  unfolding new first_route_id
  new-Routed now = record {
    back = λ c q r e. cc;
    forth = λ r e there. cc;
    fresh = λ r e there. cc;
    positive = omega arith;
  }

  -- In every state that the server reaches, by any handlers in any order with any connections dying
  -- and fewer than 2^64 route numbers in use, the two maps agree: each known request has its route,
  -- each route is that of its request, and every route number is below the next one and not 0.
  pub Reachable-Routed : (s : State) → Reachable s → Routed s
  Reachable-Routed s (started now) = new-Routed now
  Reachable-Routed s (stepped {s = before} r step) =
      Step-Routed before s step (Reachable-Routed before r)
