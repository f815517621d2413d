-- ===== src/Server/Examples.antt =====
-- Runs of the server on concrete states.
use apb.Prelude.{ℕ, ◌≡◌, refl, none, some, true, false, List, [], ◌∷◌, arith, ◌==◌}
use apb.Prelude.Signed.{pos}
use apb.Proto.Types.{Text, Frame, Payload, hello, relay_result, push_end, exec_end}
use apb.Proto.Utf8.{is_utf8}
use apb.Proto.Frame
use apb.Proto.Payload
use apb.Proto.Payload.WellFormed.{IsWellFormed}
use apb.Proto.Payload.RoundTrip.{decode-encode}
use apb.Server.Routes.Results.{agent_frame_final}
use apb.Server.State.{RouteEntry, State, lookup, set_req, text_eq, valid_name, new}
use apb.Server.Relay.{relay_to_agent}
use apb.Server.Handlers.{accept, agent_frame, first_frame, cleanup_agent, cleanup_ctrl}
use apb.Server.Routes.{Routed}
use apb.Server.Routes.Relay.{relay_to_agent-Routed}
use apb.Server.Routes.Cleanup.{IsClean, cleanup_agent-IsClean, cleanup_ctrl-IsClean}
use apb.Server.Routes.Reachable.{Reachable, started, stepped, accepted, greeted, Reachable-Routed}

-- The name "a1".
abbrev name : Text
name = 97 ∷ 49 ∷ []

-- Agent "a1" on connection 1, and no route.
abbrev idle : State
idle = record {
  agents =
      (
        name,
        record {
          info_name = name;
          version = [];
          os = [];
          arch = [];
          connected_at_ms = 0;
          last_seen_ms = 0;
          conn = 1;
        },
      )
      ∷ [];
  routes = [];
  by_req = λ c q. none;
  next_route = 41;
  next_conn = 3;
  sent = [];
  dead = [];
}

idle-Routed : Routed idle
idle-Routed = record {
  back = λ c q r e. cc;
  forth = λ r e there. cc;
  fresh = λ r e there. cc;
  positive = omega arith;
}

-- A `PushEnd` with id 258.
abbrev request : List ℕ
request = 17 ∷ 0 ∷ 0 ∷ 0 ∷ 0 ∷ 0 ∷ 0 ∷ 1 ∷ 2 ∷ []

-- Controller 2 has sent the request, and its route is open.
abbrev busy : State
busy = relay_to_agent 2 2 [] request idle

relay_to_agent-Routed_example : Routed busy
relay_to_agent-Routed_example = relay_to_agent-Routed idle idle-Routed (omega arith) 2 2 [] request

busy-Routed : Routed busy
busy-Routed = relay_to_agent-Routed idle idle-Routed (omega arith) 2 2 [] request

cleanup_agent-IsClean_example : IsClean (λ r. text_eq r.agent name) (cleanup_agent name 1 busy)
cleanup_agent-IsClean_example = cleanup_agent-IsClean name 1 busy busy-Routed

cleanup_ctrl-IsClean_example : IsClean (λ r. r.ctrl_id == 2) (cleanup_ctrl 2 2 busy)
cleanup_ctrl-IsClean_example = cleanup_ctrl-IsClean 2 2 busy busy-Routed

abbrev crate_version : Text
crate_version = 49 ∷ []

abbrev no_debug : Frame → Text
no_debug frame = []

-- A connection was accepted, and it said hello as agent "a1".
abbrev greeting : State
greeting =
    (first_frame crate_version no_debug 8 1 (hello 1 name [] [] [] 77)
      (accept crate_version no_debug (new 5)).1).1

greeting-Reachable : Reachable crate_version no_debug greeting
greeting-Reachable =
    stepped (stepped (started 5) (accepted (new 5)))
      (greeted 8 1 (hello 1 name [] [] [] 77) (accept crate_version no_debug (new 5)).1)

Reachable-Routed_example : Routed greeting
Reachable-Routed_example = Reachable-Routed crate_version no_debug greeting greeting-Reachable

-- Names that agents may and may not have.
valid_name_runs :
    (valid_name name ≡ true)
    × (valid_name [] ≡ false)
    × (valid_name (97 ∷ 60 ∷ []) ≡ false)
    × (valid_name (64 ∷ 122 ∷ 48 ∷ []) ≡ true)
unfolding valid_name
valid_name_runs = (refl, refl, refl, refl)

-- Controller 2 has route 41 open for request 7.
abbrev entry : RouteEntry
entry = record { ctrl_conn = 2; ctrl_id = 2; agent = name; req_id = 7 }

abbrev waiting : State
waiting = record idle {
  routes = (41, entry) ∷ [];
  by_req = set_req 2 7 (some 41) (λ c q. none);
  next_route = 42;
}

abbrev end : Payload
end = push_end 7

-- The end of a command: code 0 and no reason.
abbrev done : Payload
done = exec_end 7 (pos 0) false []

done-IsWellFormed : IsWellFormed done
done-IsWellFormed =
    (omega arith, omega arith, record { short = omega arith; valid = unfold is_utf8 in refl })

agent_frame_final_example :
    ((agent_frame crate_version no_debug 1 (relay_result 41 (Payload.encode done)) waiting).sent
      ≡ (2, Frame.encode (relay_result 41 (Payload.encode done))) ∷ [])
    × (lookup ◌==◌ 41
          (agent_frame crate_version no_debug 1
            (relay_result 41 (Payload.encode done))
            waiting).routes
        ≡ none)
    × ((agent_frame crate_version no_debug 1 (relay_result 41 (Payload.encode done)) waiting).by_req
          2 7
        ≡ none)
unfolding Payload.is_final
agent_frame_final_example =
    agent_frame_final crate_version no_debug 1 41 (Payload.encode done) waiting entry done refl
      (decode-encode done done-IsWellFormed) refl refl
