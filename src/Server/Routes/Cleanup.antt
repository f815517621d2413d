-- ===== src/Server/Routes/Cleanup.antt =====
-- `cleanup_agent` and `cleanup_ctrl` of src/server.rs leave no route of theirs and no request without
-- its route.
use apb.Prelude.{
  ℕ, ◌≡◌, refl, ap, ◌∙◌, Option, none, some, Option-cases, Bool, true, false, Bool-cases, inl, inr,
  List, [], ◌∷◌, arith, ◌==◌,
}
use apb.Proto.Types.{Text, Frame}
use apb.Server.State.{
  AgentEntry, RouteEntry, State, text_eq, lookup, send, send_frame, send_ctrl_error, remove_entry,
  close, member,
}
use apb.Server.Handlers.{
  doomed_keys, drop_keys, drop_routes, drop_agent, tell_ctrls, tell_agent, tell_agents,
  cleanup_agent, cleanup_ctrl,
}
use apb.Server.Routes.{Routed, lookup-remove-some, remove_entry-Routed}

-- No route is left that `doomed` names, and the maps agree.
pub record IsClean (doomed : RouteEntry → Bool) (s : State) : Type 0 where
  pub routed : Routed s
  pub gone : (r : ℕ) (e : RouteEntry) → lookup ◌==◌ r s.routes ≡ some e → doomed e ≡ false

module _ (doomed : RouteEntry → Bool) where
  member-doomed_keys :
      (r : ℕ) (e : RouteEntry) (routes : List (ℕ × RouteEntry))
      → lookup ◌==◌ r routes ≡ some e
      → doomed e ≡ true
      → member r (doomed_keys doomed routes) ≡ true
  unfolding doomed_keys
  member-doomed_keys r e [] there d = cc
  member-doomed_keys r e ((k, x) ∷ routes) there d = elim (Bool-cases (k == r)) [
    | inl same ↦
        let found : some x ≡ some e = rw same at there in
        let entry : x ≡ e = cc in
        let dx : doomed x ≡ true = ap doomed entry ∙ d in rw (dx, same) refl
    | inr other ↦
        let rest = member-doomed_keys r e routes (rw other at there) d in
        elim (Bool-cases (doomed x)) [ inl dx ↦ rw (dx, other) rest | inr dx ↦ rw dx rest ]
  ]

  -- What is left was there before, and was not to go.
  drop_keys-left :
      (keys : List ℕ) (s : State) (r : ℕ) (e : RouteEntry)
      → lookup ◌==◌ r (drop_keys keys s).1.routes ≡ some e
      → (lookup ◌==◌ r s.routes ≡ some e) × (member r keys ≡ false)
  unfolding drop_keys remove_entry
  drop_keys-left [] s r e there = (there, refl)
  drop_keys-left (k ∷ keys) s r e there = elim (Option-cases (lookup ◌==◌ k s.routes)) [
    | inl missing ↦
        let (before, apart) = drop_keys-left keys s r e (rw (missing, drop_keys) at there) in
        elim (Bool-cases (k == r)) [
          | inl same ↦ let equal : k ≡ r = ground arith in cc (before, missing, equal)
          | inr other ↦ (before, rw other apart)
        ]
    | inr (x, found) ↦
        let (before, apart) =
          drop_keys-left keys (remove_entry k (some x) s) r e (rw (found, drop_keys) at there) in
        let (first, other) = lookup-remove-some k r e s.routes before in (first, rw other apart)
  ]

  drop_keys-Routed : (keys : List ℕ) (s : State) → Routed s → Routed (drop_keys keys s).1
  unfolding drop_keys
  drop_keys-Routed [] s h = h
  drop_keys-Routed (k ∷ keys) s h = elim (Option-cases (lookup ◌==◌ k s.routes)) [
    | inl missing ↦ rw (missing, drop_keys) (drop_keys-Routed keys s h)
    | inr (x, found) ↦
        rw (found, drop_keys)
          (drop_keys-Routed keys (remove_entry k (some x) s)
            (remove_entry-Routed s h k (some x) found))
  ]

  drop_routes-IsClean : (s : State) → Routed s → IsClean doomed (drop_routes doomed s).1
  unfolding drop_routes
  drop_routes-IsClean s h = record {
    routed = drop_keys-Routed (doomed_keys doomed s.routes) s h;
    gone = λ r e there.
        let (before, apart) = drop_keys-left (doomed_keys doomed s.routes) s r e there in
        elim (Bool-cases (doomed e)) [
          | inl d ↦ cc (member-doomed_keys r e s.routes before d, apart)
          | inr d ↦ d
        ];
  }

  send_frame-IsClean :
      (c : ℕ) (f : Frame) (s : State) → IsClean doomed s → IsClean doomed (send_frame c f s).1
  unfolding send_frame send
  send_frame-IsClean c f s h = elim (Bool-cases (member c s.dead)) [
    | inl e ↦ rw e h
    | inr e ↦ rw e (record { routed = h.routed; gone = h.gone })
  ]

  tell_ctrls-IsClean :
      (name : Text) (gone : List (ℕ × RouteEntry)) (s : State)
      → IsClean doomed s
      → IsClean doomed (tell_ctrls name gone s)
  unfolding tell_ctrls send_ctrl_error
  tell_ctrls-IsClean name [] s h = h
  tell_ctrls-IsClean name ((k, r) ∷ gone) s h =
      tell_ctrls-IsClean name gone _ (send_frame-IsClean r.ctrl_conn _ s h)

  tell_agent-IsClean :
      (route : ℕ) (c : Option AgentEntry) (s : State)
      → IsClean doomed s
      → IsClean doomed (tell_agent route c s)
  unfolding tell_agent
  tell_agent-IsClean route none s h = h
  tell_agent-IsClean route (some a) s h = send_frame-IsClean a.conn _ s h

  tell_agents-IsClean :
      (gone : List (ℕ × RouteEntry)) (s : State)
      → IsClean doomed s
      → IsClean doomed (tell_agents gone s)
  unfolding tell_agents
  tell_agents-IsClean [] s h = h
  tell_agents-IsClean ((k, r) ∷ gone) s h =
      tell_agents-IsClean gone _ (tell_agent-IsClean k (lookup text_eq r.agent s.agents) s h)

drop_agent-Routed :
    (name : Text) (conn : ℕ) (s : State) → Routed s → Routed (drop_agent name conn s)
unfolding drop_agent
drop_agent-Routed name conn s h = elim (Option-cases (lookup text_eq name s.agents)) [
  | inl e ↦ rw (e, drop_agent) h
  | inr (a, e) ↦ elim (Bool-cases (a.conn == conn)) [
    | inl f ↦ rw (e, drop_agent, f) h
    | inr f ↦ rw (e, drop_agent, f) h
  ]
]

-- If the maps agree, then after `cleanup_agent` they agree and no route leads to an agent of that
-- name, whichever connections are dead.
pub cleanup_agent-IsClean :
    (name : Text) (conn : ℕ) (s : State)
    → Routed s
    → IsClean (λ r. text_eq r.agent name) (cleanup_agent name conn s)
unfolding cleanup_agent
cleanup_agent-IsClean name conn s h =
    tell_ctrls-IsClean (λ r. text_eq r.agent name) name
      (drop_routes (λ r. text_eq r.agent name) (drop_agent name conn s)).0 _
      (drop_routes-IsClean (λ r. text_eq r.agent name) (drop_agent name conn s)
        (drop_agent-Routed name conn s h))

-- If the maps agree, then after `cleanup_ctrl` they agree and no route is left of that controller.
pub cleanup_ctrl-IsClean :
    (conn ctrl_id : ℕ) (s : State)
    → Routed s
    → IsClean (λ r. r.ctrl_id == ctrl_id) (cleanup_ctrl conn ctrl_id s)
unfolding cleanup_ctrl close
cleanup_ctrl-IsClean conn ctrl_id s h =
    let told =
      tell_agents-IsClean (λ r. r.ctrl_id == ctrl_id) (drop_routes (λ r. r.ctrl_id == ctrl_id) s).0
        _ (drop_routes-IsClean (λ r. r.ctrl_id == ctrl_id) s h) in
    record { routed = told.routed; gone = told.gone }
