-- ===== src/Server/Routes/Results.antt =====
-- What the server of src/server.rs does with a result that an agent sends on a route.
use apb.Prelude.{
  ℕ, ◌≡◌, refl, Option, some, none, true, false, inl, inr, [], ◌∷◌, ◌++◌, ◌==◌, if◌then◌else◌, ok,
}
use apb.Proto.Types.{Text, Blob, Payload, Frame, relay_result}
use apb.Proto.Frame
use apb.Proto.Payload
use apb.Server.State.{
  RouteEntry, State, lookup, set_req, send, send_frame, remove_entry, remove_route, member,
}
use apb.Server.Handlers.{is_final_blob, relay_result_to, agent_frame}
use apb.Server.Routes.{lookup-remove_same, set_req-cases}

set_req_same : (c q : ℕ) (v : Option ℕ) (m : ℕ → ℕ → Option ℕ) → set_req c q v m c q ≡ v
set_req_same c q v m = elim (set_req-cases c q v m c q) [
  | inl (p, p', e) ↦ e
  | inr (apart, e) ↦ absurd (apart refl refl)
]

module _ (version : Text) (debug : Frame → Text) (conn route : ℕ) (payload : Blob) (s : State)
    (e : RouteEntry) (p : Payload) (known : lookup ◌==◌ route s.routes ≡ some e)
    (decoded : Payload.decode payload ≡ ok p) (live : member e.ctrl_conn s.dead ≡ false) where
  forwarded : State
  forwarded = record s {
    sent = s.sent ++ (e.ctrl_conn, Frame.encode (relay_result route payload)) ∷ [];
  }

  is_final_blob_lem : is_final_blob payload ≡ Payload.is_final p
  unfolding is_final_blob
  is_final_blob_lem = rw (decoded, is_final_blob) refl

  sends_result : send_frame e.ctrl_conn (relay_result route payload) s ≡ (true, forwarded)
  unfolding send_frame send forwarded
  sends_result = rw live refl

  result_state :
      agent_frame version debug conn (relay_result route payload) s
      ≡ (if Payload.is_final p then remove_route route forwarded else forwarded)
  unfolding agent_frame relay_result_to
  result_state = rw (known, relay_result_to, sends_result, is_final_blob_lem) refl

  -- A final payload on a known route goes to the controller of that route, if its connection lives;
  -- after it the route and its request are gone.
  pub agent_frame_final :
      Payload.is_final p ≡ true
      → ((agent_frame version debug conn (relay_result route payload) s).sent
          ≡ s.sent ++ (e.ctrl_conn, Frame.encode (relay_result route payload)) ∷ [])
        × (lookup ◌==◌ route (agent_frame version debug conn (relay_result route payload) s).routes
            ≡ none)
        × ((agent_frame version debug conn (relay_result route payload) s).by_req e.ctrl_id e.req_id
            ≡ none)
  unfolding forwarded remove_route remove_entry
  agent_frame_final f =
      rw (result_state, f, remove_route, known)
        (refl, lookup-remove_same route s.routes, set_req_same e.ctrl_id e.req_id none s.by_req)

  -- Any other payload on a known route goes to the controller of that route, if its connection lives,
  -- and the maps stay as they are.
  pub agent_frame_more :
      Payload.is_final p ≡ false
      → ((agent_frame version debug conn (relay_result route payload) s).sent
          ≡ s.sent ++ (e.ctrl_conn, Frame.encode (relay_result route payload)) ∷ [])
        × ((agent_frame version debug conn (relay_result route payload) s).routes ≡ s.routes)
        × ((agent_frame version debug conn (relay_result route payload) s).by_req ≡ s.by_req)
  unfolding forwarded
  agent_frame_more f = rw (result_state, f) (refl, refl, refl)
