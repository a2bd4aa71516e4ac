-- ===== src/Broker/Routes.antt =====
-- src/daemon/broker.rs: how each step on one route changes who is subscribed to which pane.
use mathlib.Core.Logic.{if_pos, if_neg}
use super_herdr.Common.{
  ℕ, ◌≡◌, ◌≢◌, refl, sym, subst, ◌∙◌, true, false, none, some, [], ◌∷◌, inl, inr, ite, arith,
}
use super_herdr.Common.Tests.{eq_of_some, Bool-cases, Option-cases}
use super_herdr.Common.Order.{nat_ord}
use super_herdr.Common.Maps.{
  lookup, has, is_empty, singleton, lookup-insert, has-insert, has-remove, is_empty_of_remove,
  is_empty-insert,
}
use super_herdr.Model.{PaneId, id_ord}
use super_herdr.Payloads.{TerminalAccess}
use super_herdr.Broker.State.{ClientId, Effect, PaneSubscription, Route, Broker}
use super_herdr.Broker.Leases.{Reply, is_holder, set_route, join, opened, grant}
use super_herdr.Broker.Control.{
  taken, left, surrendered, surrendered_effects, release_screen_if_unwatched, release_pane,
}
use super_herdr.Broker.Invariant.{IsRoute, subscribed}

-- Every route is one that `IsRoute` describes.
abbrev pub Routed : {Parser : Type 0} → Broker Parser → Type 0
Routed b = (pane : PaneId) (route : Route) → lookup pane b.routes ≡ some route → IsRoute route

-- Every route but perhaps the one to `pane` is.
abbrev pub RoutedBut : {Parser : Type 0} → PaneId → Broker Parser → Type 0
RoutedBut pane b =
    (p : PaneId) (route : Route) → pane ≢ p → lookup p b.routes ≡ some route → IsRoute route

pub join-IsRoute :
    (client : ClientId) (access : TerminalAccess) (cols rows : ℕ) (route : Route)
    → IsRoute route
    → IsRoute (join client access cols rows route).0
unfolding join
join-IsRoute client access cols rows route v = record {
  held = λ holder e. ground (arith, has-insert client tt route.subscribers holder, v.held holder);
  claimed = ground (arith, is_empty-insert client tt route.subscribers);
}

pub opened-IsRoute :
    (client : ClientId) (access : TerminalAccess) (cols rows : ℕ)
    → IsRoute (opened client access cols rows)
unfolding opened has lookup
opened-IsRoute client access cols rows = record { held = λ holder e. ground arith; claimed = refl }

pub taken-IsRoute :
    (client : ClientId) (sub : PaneSubscription) (route : Route)
    → has client route.subscribers ≡ true
    → IsRoute route
    → IsRoute (taken client sub route)
unfolding taken
taken-IsRoute client sub route h v = record { held = λ holder e. ground arith; claimed = v.claimed }

pub surrendered-IsRoute :
    (route : Route) → route.unclaimed ≡ is_empty route.subscribers → IsRoute (surrendered route)
unfolding surrendered
surrendered-IsRoute route e = record { held = λ holder h. cc; claimed = e }

-- The route that the last subscriber has left.
pub emptied-IsRoute :
    (route : Route)
    → is_empty route.subscribers ≡ true
    → IsRoute (record route { unclaimed = true; control = none })
emptied-IsRoute route e = record { held = λ holder h. cc; claimed = sym e }

pub left_claimed :
    (client : ClientId) (route : Route)
    → is_empty (left client route).subscribers ≡ false
    → IsRoute route
    → (left client route).unclaimed ≡ is_empty (left client route).subscribers
unfolding left
left_claimed client route e v = v.claimed ∙ (is_empty_of_remove client route.subscribers e ∙ sym e)

pub left-IsRoute :
    (client : ClientId) (route : Route)
    → is_empty (left client route).subscribers ≡ false
    → is_holder client route.control ≡ false
    → IsRoute route
    → IsRoute (left client route)
unfolding left
left-IsRoute client route e h v = record {
  held = λ holder k. ground (arith, has-remove client route.subscribers holder, v.held holder);
  claimed = left_claimed client route e v;
}

has-singleton :
    (client c : ClientId) → has c (singleton client) ≡ ite (nat_ord.same client c) true false
unfolding has lookup
has-singleton client c = ground arith

subscribers-join :
    (client : ClientId) (access : TerminalAccess) (cols rows : ℕ) (route : Route) (c : ClientId)
    → has c (join client access cols rows route).0.subscribers
      ≡ ite (nat_ord.same client c) true (has c route.subscribers)
unfolding join
subscribers-join client access cols rows route c =
    ground (arith, has-insert client tt route.subscribers c)

module _ {Parser : Type 0} where
  pub set_route-RoutedBut :
      (pane : PaneId) (route : Route) (b : Broker Parser)
      → RoutedBut pane b
      → RoutedBut pane (set_route pane route b)
  unfolding set_route
  set_route-RoutedBut pane route b r p route' d e =
      r p route' d (rw (if_neg _ d) at (sym (lookup-insert pane route b.routes p) ∙ e))

  -- A route that `IsRoute` describes repairs the rest.
  pub set_route_repairs :
      (pane : PaneId) (route : Route) (b : Broker Parser)
      → IsRoute route
      → RoutedBut pane b
      → Routed (set_route pane route b)
  unfolding set_route
  set_route_repairs pane route b v r p route' e =
      let found = sym (lookup-insert pane route b.routes p) ∙ e in
      elim (id_ord.same pane p) [
        | yes q ↦ subst IsRoute (eq_of_some route route' (rw (if_pos _ q) at found)) v
        | no d ↦ r p route' d (rw (if_neg _ d) at found)
      ]

  pub set_route-Routed :
      (pane : PaneId) (route : Route) (b : Broker Parser)
      → IsRoute route
      → Routed b
      → Routed (set_route pane route b)
  set_route-Routed pane route b v r =
      set_route_repairs pane route b v (λ p route' d e. r p route' e)

  pub subscribed-set_route :
      (pane : PaneId) (route : Route) (b : Broker Parser) (c : ClientId) (p : PaneId)
      → subscribed (set_route pane route b) c p
        ≡ ite (id_ord.same pane p) (has c route.subscribers) (subscribed b c p)
  unfolding set_route
  subscribed-set_route pane route b c p = ground (arith, lookup-insert pane route b.routes p)

  pub grant-Routed :
      (client : ClientId) (pane : PaneId) (access : TerminalAccess) (cols rows : ℕ)
      (b : Broker Parser)
      → Routed b
      → Routed (grant client pane access cols rows b).0
  unfolding grant
  grant-Routed client pane access cols rows b r = elim (Option-cases (lookup pane b.routes)) [
    | inl e ↦ rw (e, grant) (set_route-Routed pane _ b (opened-IsRoute client access cols rows) r)
    | inr (route, e) ↦
        rw (e, grant)
          (set_route-Routed pane _ b (join-IsRoute client access cols rows route (r pane route e))
            r)
  ]

  -- The client becomes a subscriber of the pane, and no other subscription changes.
  pub subscribed-grant :
      (client : ClientId) (pane : PaneId) (access : TerminalAccess) (cols rows : ℕ)
      (b : Broker Parser) (c : ClientId) (p : PaneId)
      → subscribed (grant client pane access cols rows b).0 c p
        ≡ ite
            (id_ord.same pane p)
            (ite (nat_ord.same client c) true (subscribed b c p))
            (subscribed b c p)
  unfolding grant
  subscribed-grant client pane access cols rows b c p = elim (Option-cases (lookup pane b.routes)) [
    | inl e ↦
        rw (e, grant)
          (ground (
            arith,
            subscribed-set_route pane (opened client access cols rows) b c p,
            has-singleton client c,
          ))
    | inr (route, e) ↦
        rw (e, grant)
          (ground (
            arith,
            subscribed-set_route pane (join client access cols rows route).0 b c p,
            subscribers-join client access cols rows route c,
          ))
  ]

  -- The four ways in which `release_pane` ends.
  pub release_pane_cases {ℓ} :
      (P : Reply Parser → Type ℓ) (client : ClientId) (pane : PaneId) (b : Broker Parser)
      → (lookup pane b.routes ≡ none → P (b, []))
      → ((route : Route)
          → lookup pane b.routes ≡ some route
          → is_empty (left client route).subscribers ≡ true
          → P (
            set_route pane (record (left client route) { unclaimed = true; control = none }) b,
            Effect.route_unclaimed pane ∷ [],
          ))
      → ((route : Route)
          → lookup pane b.routes ≡ some route
          → is_empty (left client route).subscribers ≡ false
          → is_holder client route.control ≡ true
          → P (
            set_route pane
                (surrendered (left client route))
                (release_screen_if_unwatched pane (set_route pane (left client route) b)),
            surrendered_effects pane (left client route),
          ))
      → ((route : Route)
          → lookup pane b.routes ≡ some route
          → is_empty (left client route).subscribers ≡ false
          → is_holder client route.control ≡ false
          → P (release_screen_if_unwatched pane (set_route pane (left client route) b), []))
      → P (release_pane client pane b)
  unfolding release_pane
  release_pane_cases P client pane b none_case emptied surrenders keeps =
      elim (Option-cases (lookup pane b.routes)) [
        | inl e ↦ rw (e, release_pane) (none_case e)
        | inr (route, e) ↦ elim (Bool-cases (is_empty (left client route).subscribers)) [
          | inl last ↦ rw (e, release_pane, last) (emptied route e last)
          | inr others ↦ elim (Bool-cases (is_holder client route.control)) [
            | inl holder ↦ rw (e, release_pane, others, holder) (surrenders route e others holder)
            | inr observer ↦ rw (e, release_pane, others, observer) (keeps route e others observer)
          ]
        ]
      ]
