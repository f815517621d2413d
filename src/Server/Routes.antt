-- ===== src/Server/Routes.antt =====
-- The two maps of routes of src/server.rs: `routes` and `by_req` agree.
pub mod Relay
pub mod Cleanup
pub mod Reachable
pub mod Results
use mathlib.Core.Path.{subst}
use apb.Prelude.{
  ℕ, zero, suc, ◌+◌, ◌%◌, ◌^◌, ◌≤◌, ◌<◌, ◌≡◌, refl, sym, ap, ◌∙◌, max, Option, none, some,
  Option-cases, Bool, true, false, Bool-cases, ◌&&◌, inl, inr, ◌⊎◌, List, [], ◌∷◌, arith, ◌==◌,
  if◌then◌else◌,
}
use apb.Server.State.{
  RouteEntry, State, lookup, remove, insert, set_req, send, send_frame, send_ctrl_error,
  remove_entry, remove_route, member,
}

-- Every request that is known has a route with that request, every route is that of its request, and
-- the numbers of later routes are above, and no route has the number 0.
pub record IsRouted (routes : List (ℕ × RouteEntry)) (by_req : ℕ → ℕ → Option ℕ) (next : ℕ)
    : Type 0 where
  pub back :
      (c q r : ℕ)
      → by_req c q ≡ some r
      → (e : RouteEntry) × (lookup ◌==◌ r routes ≡ some e) × (e.ctrl_id ≡ c) × (e.req_id ≡ q)
  pub forth :
      (r : ℕ) (e : RouteEntry) → lookup ◌==◌ r routes ≡ some e → by_req e.ctrl_id e.req_id ≡ some r
  pub fresh : (r : ℕ) (e : RouteEntry) → lookup ◌==◌ r routes ≡ some e → r < next
  pub positive : 1 ≤ next

abbrev pub Routed : State → Type 0
Routed s = IsRouted s.routes s.by_req s.next_route

module _ {V : Type 0} (k : ℕ) where
  pub lookup-remove_same : (m : List (ℕ × V)) → lookup ◌==◌ k (remove ◌==◌ k m) ≡ none
  lookup-remove_same [] = refl
  lookup-remove_same ((j, v) ∷ m) = ground (arith, lookup-remove_same m)

  pub lookup-remove_other :
      (i : ℕ) (m : List (ℕ × V))
      → (k == i) ≡ false
      → lookup ◌==◌ i (remove ◌==◌ k m) ≡ lookup ◌==◌ i m
  lookup-remove_other i [] h = refl
  lookup-remove_other i ((j, v) ∷ m) h = ground (arith, lookup-remove_other i m h)

-- What is left of the entries once one is removed.
module _ (k i : ℕ) (e : RouteEntry) (m : List (ℕ × RouteEntry)) where
  pub lookup-remove-some :
      lookup ◌==◌ i (remove ◌==◌ k m) ≡ some e → (lookup ◌==◌ i m ≡ some e) × ((k == i) ≡ false)
  lookup-remove-some h = elim (Bool-cases (k == i)) [
    | inl same ↦ let equal : k ≡ i = ground arith in cc (lookup-remove_same k m, equal, h)
    | inr other ↦ (sym (lookup-remove_other k i m other) ∙ h, other)
  ]

-- `set_req` at the request that it sets and at the others.
pub set_req-cases :
    (c q : ℕ) (v : Option ℕ) (m : ℕ → ℕ → Option ℕ) (c' q' : ℕ)
    → ((c ≡ c') × (q ≡ q') × (set_req c q v m c' q' ≡ v))
      ⊎ ((c ≡ c' → q ≡ q' → ⊥) × (set_req c q v m c' q' ≡ m c' q'))
set_req-cases c q v m c' q' = elim (Bool-cases (c == c')) [
  | inl e ↦ elim (Bool-cases (q == q')) [
    | inl f ↦ inl (ground arith, ground arith, rw (e, f) refl)
    | inr f ↦ inr (λ x y. ground arith, rw (e, f) refl)
  ]
  | inr e ↦ inr (λ x y. ground arith, rw e refl)
]

module _ (s : State) (h : Routed s) where
  -- A route that is taken out leaves no request behind.
  module _ (route : ℕ) (e : RouteEntry) (found : lookup ◌==◌ route s.routes ≡ some e) where
    back_left :
        (c q r : ℕ)
        → set_req e.ctrl_id e.req_id none s.by_req c q ≡ some r
        → (x : RouteEntry) × (lookup ◌==◌ r (remove ◌==◌ route s.routes) ≡ some x)
          × (x.ctrl_id ≡ c)
          × (x.req_id ≡ q)
    back_left c q r known = elim (set_req-cases e.ctrl_id e.req_id none s.by_req c q) [
      | inl (p, p', gone) ↦ absurd (cc (gone, known))
      | inr (apart, kept) ↦
          let (x, there, xc, xq) = h.back c q r (sym kept ∙ known) in
          elim (Bool-cases (route == r)) [
            | inl same ↦
                let equal : route ≡ r = ground arith in
                let both : some x ≡ some e = cc (found, there, equal) in
                let entry : x ≡ e = cc in
                absurd (
                  apart (ap (λ (y : RouteEntry). y.ctrl_id) (sym entry) ∙ xc)
                    (ap (λ (y : RouteEntry). y.req_id) (sym entry) ∙ xq))
            | inr other ↦ (x, lookup-remove_other route r s.routes other ∙ there, xc, xq)
          ]
    ]

    forth_left :
        (r : ℕ) (x : RouteEntry)
        → lookup ◌==◌ r (remove ◌==◌ route s.routes) ≡ some x
        → set_req e.ctrl_id e.req_id none s.by_req x.ctrl_id x.req_id ≡ some r
    forth_left r x there =
        let (before, other) = lookup-remove-some route r x s.routes there in
        elim (set_req-cases e.ctrl_id e.req_id none s.by_req x.ctrl_id x.req_id) [
          | inl (p, p', gone) ↦
              let one : some route ≡ some r =
                cc (h.forth route e found, h.forth r x before, p, p') in
              let equal : route ≡ r = cc in absurd (ground (arith, equal, other))
          | inr (apart, kept) ↦ kept ∙ h.forth r x before
        ]

  pub remove_entry-Routed :
      (route : ℕ) (c : Option RouteEntry)
      → lookup ◌==◌ route s.routes ≡ c
      → Routed (remove_entry route c s)
  unfolding remove_entry
  remove_entry-Routed route none found = h
  remove_entry-Routed route (some e) found = record {
    back = back_left route e found;
    forth = forth_left route e found;
    positive = h.positive;
    fresh = λ r x there. h.fresh r x (lookup-remove-some route r x s.routes there).0;
  }

  pub remove_route-Routed : (route : ℕ) → Routed (remove_route route s)
  unfolding remove_route
  remove_route-Routed route = remove_entry-Routed route (lookup ◌==◌ route s.routes) refl
