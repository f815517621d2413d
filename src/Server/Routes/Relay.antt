-- ===== src/Server/Routes/Relay.antt =====
-- `relay_to_agent` of src/server.rs keeps the maps of routes in agreement.
use mathlib.Core.Path.{subst}
use apb.Prelude.{
  ℕ, ◌+◌, ◌^◌, ◌<◌, ◌≡◌, refl, sym, ap, ◌∙◌, max, none, some, Option-cases, Bool-cases, inl, inr,
  ◌⊎◌, arith, ◌==◌, Result, ok, err,
}
use native.Mathlib.Nat.{mod-eq_of_lt}
use apb.Proto.Types.{Text, Blob, Frame, relay_deliver}
use apb.Server.State.{
  RouteEntry, State, text_eq, lookup, insert, set_req, send, send_frame, send_ctrl_error, member,
}
use apb.Server.Routes.{Routed, lookup-remove_other, set_req-cases, remove_route-Routed}
use apb.Server.Relay.{
  choose_agent, request_id, existing_route, deliver, continue_route, add_route, open_route,
  new_route, relay_to_agent,
}

-- A send does not touch the maps.
pub send_frame-Routed : (c : ℕ) (f : Frame) (s : State) → Routed s → Routed (send_frame c f s).1
unfolding send_frame send
send_frame-Routed c f s h = elim (Bool-cases (member c s.dead)) [ inl e ↦ rw e h | inr e ↦ rw e h ]

pub send_ctrl_error-Routed :
    (tx id code : ℕ) (message : Text) (s : State)
    → Routed s
    → Routed (send_ctrl_error tx id code message s)
unfolding send_ctrl_error
send_ctrl_error-Routed tx id code message s h = send_frame-Routed tx _ s h

deliver-Routed :
    (tx route q : ℕ) (agent : Text) (conn : ℕ) (payload : Blob) (s : State)
    → Routed s
    → Routed (deliver tx route q agent conn payload s)
unfolding deliver
deliver-Routed tx route q agent conn payload s h =
    let after = send_frame-Routed conn (relay_deliver route payload) s h in
    elim (Bool-cases (send_frame conn (relay_deliver route payload) s).0) [
      | inl e ↦ rw e after
      | inr e ↦ rw e (send_ctrl_error-Routed tx q 410 _ _ (remove_route-Routed _ after route))
    ]

continue_route-Routed :
    (tx route q : ℕ) (agent : Text) (payload : Blob) (s : State)
    → Routed s
    → Routed (continue_route tx route q agent payload s)
unfolding continue_route
continue_route-Routed tx route q agent payload s h =
    elim (Option-cases (lookup text_eq agent s.agents)) [
      | inl e ↦
          rw (e, continue_route)
            (send_ctrl_error-Routed tx q 410 _ _ (remove_route-Routed s h route))
      | inr (a, e) ↦ rw (e, continue_route) (deliver-Routed tx route q agent a.conn payload s h)
    ]

module _ (s : State) (h : Routed s) (room : s.next_route + 1 < 2 ^ 64) where
  -- A new route for a request that has none.
  module _ (tx c q : ℕ) (agent : Text) (unknown : s.by_req c q ≡ none) where
    added : RouteEntry
    added = record { ctrl_conn = tx; ctrl_id = c; agent = agent; req_id = q }

    number : max s.next_route 1 ≡ s.next_route
    number = omega (arith, h.positive)

    lookup-added :
        (r : ℕ)
        → ((r ≡ s.next_route)
            × (lookup ◌==◌ r (insert ◌==◌ (max s.next_route 1) added s.routes) ≡ some added))
          ⊎ ((max s.next_route 1 ≡ r → ⊥)
              × (lookup ◌==◌ r (insert ◌==◌ (max s.next_route 1) added s.routes)
                  ≡ lookup ◌==◌ r s.routes))
    lookup-added r = elim (Bool-cases (max s.next_route 1 == r)) [
      | inl e ↦ inl (ground (arith, h.positive), rw e refl)
      | inr e ↦
          inr (λ x. ground arith, rw e (lookup-remove_other (max s.next_route 1) r s.routes e))
    ]

    add_route-back :
        (c' q' r : ℕ)
        → set_req c q (some (max s.next_route 1)) s.by_req c' q' ≡ some r
        → (x : RouteEntry) × (lookup ◌==◌ r (insert ◌==◌ (max s.next_route 1) added s.routes)
            ≡ some x)
          × (x.ctrl_id ≡ c')
          × (x.req_id ≡ q')
    unfolding added
    add_route-back c' q' r known =
        elim (set_req-cases c q (some (max s.next_route 1)) s.by_req c' q') [
          | inl (p, p', new) ↦
              let one : some (max s.next_route 1) ≡ some r = sym new ∙ known in
              let equal : max s.next_route 1 ≡ r = cc in
              elim (lookup-added r) [
                | inl (top, there) ↦ (added, there, p, p')
                | inr (apart, old) ↦ absurd (apart equal)
              ]
          | inr (apart, kept) ↦
              let (x, there, xc, xq) = h.back c' q' r (sym kept ∙ known) in
              let below = h.fresh r x there in
              elim (lookup-added r) [
                | inl (top, found) ↦ absurd (omega (arith, below, top))
                | inr (other, old) ↦ (x, old ∙ there, xc, xq)
              ]
        ]

    -- The new route is that of its request.
    own : (r : ℕ) → r ≡ s.next_route → set_req c q (some (max s.next_route 1)) s.by_req c q ≡ some r
    own r top = elim (set_req-cases c q (some (max s.next_route 1)) s.by_req c q) [
      | inl (p, p', new) ↦ new ∙ ap some (number ∙ sym top)
      | inr (apart, kept) ↦ absurd (apart refl refl)
    ]

    add_route-Routed : Routed (add_route tx c q agent s)
    unfolding add_route added
    add_route-Routed = record {
      back = add_route-back;
      forth = λ r x there. elim (lookup-added r) [
        | inl (top, found) ↦
            let both : some added ≡ some x = sym found ∙ there in
            let entry : added ≡ x = cc in
            subst
              (λ (y : RouteEntry).
                set_req c q (some (max s.next_route 1)) s.by_req y.ctrl_id y.req_id ≡ some r)
              entry (own r top)
        | inr (other, old) ↦
            let before : lookup ◌==◌ r s.routes ≡ some x = sym old ∙ there in
            elim (set_req-cases c q (some (max s.next_route 1)) s.by_req x.ctrl_id x.req_id) [
              | inl (p, p', new) ↦ absurd (cc (unknown, h.forth r x before, p, p'))
              | inr (apart, kept) ↦ kept ∙ h.forth r x before
            ]
      ];
      positive = rw (mod-eq_of_lt room) (omega arith);
      fresh = λ r x there. elim (lookup-added r) [
        | inl (top, found) ↦ rw (mod-eq_of_lt room) (omega (arith, top))
        | inr (other, old) ↦ rw (mod-eq_of_lt room) (omega (arith, h.fresh r x (sym old ∙ there)))
      ];
    }

  -- A request without a live route has no entry at all.
  unknown_request : (c q : ℕ) → existing_route s c q ≡ none → s.by_req c q ≡ none
  unfolding existing_route
  unknown_request c q missing = elim (Option-cases (s.by_req c q)) [
    | inl e ↦ e
    | inr (r, known) ↦
        let (x, there, xc, xq) = h.back c q r known in
        cc (rw (known, there, existing_route) at missing)
  ]

  open_route-Routed :
      (tx c q : ℕ) (agent : Text) (payload : Blob)
      → s.by_req c q ≡ none
      → Routed (open_route tx c q agent payload s)
  unfolding open_route
  open_route-Routed tx c q agent payload unknown =
      elim (Option-cases (lookup text_eq agent s.agents)) [
        | inl e ↦ rw (e, open_route) (send_ctrl_error-Routed tx q 404 _ s h)
        | inr (a, e) ↦
            rw (e, open_route)
              (deliver-Routed tx _ q agent a.conn payload _ (add_route-Routed tx c q agent unknown))
      ]

  new_route-Routed :
      (tx c q : ℕ) (chosen : Result Text Text) (payload : Blob)
      → s.by_req c q ≡ none
      → Routed (new_route tx c q chosen payload s)
  unfolding new_route
  new_route-Routed tx c q (ok agent) payload unknown =
      open_route-Routed tx c q agent payload unknown
  new_route-Routed tx c q (err e) payload unknown = send_ctrl_error-Routed tx q 404 e s h

  -- If the maps agree and the next route number does not wrap, the maps agree after
  -- `relay_to_agent` too, whatever the payload, the target and the live connections are.
  pub relay_to_agent-Routed :
      (tx c : ℕ) (target : Text) (payload : Blob) → Routed (relay_to_agent tx c target payload s)
  unfolding relay_to_agent
  relay_to_agent-Routed tx c target payload =
      elim (Option-cases (existing_route s c (request_id payload))) [
        | inl e ↦
            rw (e, relay_to_agent)
              (new_route-Routed tx c (request_id payload) (choose_agent s target) payload
                (unknown_request c (request_id payload) e))
        | inr ((route, agent), e) ↦
            rw (e, relay_to_agent)
              (continue_route-Routed tx route (request_id payload) agent payload s h)
      ]
