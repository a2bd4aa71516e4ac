-- ===== src/Broker/Retirement.antt =====
-- src/daemon/broker.rs: routes that are closed or downgraded from the far side, and the frames
-- that arrive meanwhile.
use super_herdr.Common.{
  ◌≡◌, refl, sym, ap, ◌∙◌, true, false, some, List, [], ◌∷◌, inl, inr, ite, arith,
}
use super_herdr.Common.Tests.{if◌then◌else◌, is_some, Bool-cases, Option-cases}
use super_herdr.Common.Order.{nat_ord}
use super_herdr.Common.Maps.{
  Map, keys, lookup, remove, lookup-remove, lookup-adjust, has_of_empty, listed, listed-keys,
}
use super_herdr.Model.{PaneId, id_ord}
use super_herdr.Broker.State.{ClientId, Route, Broker}
use super_herdr.Broker.Leases.{adjust_client}
use super_herdr.Broker.Events.{close_if_unclaimed, forget_pane, pane_route_closed}
use super_herdr.Broker.Invariant.{has_subscriber, watches, subscribed, WellFormed}
use super_herdr.Broker.Release.{without_pane, watches-without_pane}
use super_herdr.Broker.Routes.{Routed}

module _ {Parser : Type 0} where
  -- The broker without one route and its screen.
  abbrev unrouted : PaneId → Broker Parser → Broker Parser
  unrouted pane b = record b { routes = remove pane b.routes; screens = remove pane b.screens }

  subscribed-unrouted :
      (pane : PaneId) (b : Broker Parser) (c : ClientId) (p : PaneId)
      → subscribed (unrouted pane b) c p ≡ ite (id_ord.same pane p) false (subscribed b c p)
  subscribed-unrouted pane b c p = ground (arith, lookup-remove pane b.routes p)

  unrouted-Routed : (pane : PaneId) (b : Broker Parser) → Routed b → Routed (unrouted pane b)
  unrouted-Routed pane b r p route e = r p route (ground (arith, lookup-remove pane b.routes p))

  -- A pane that nobody watches can lose its route.
  unrouted-WellFormed :
      (pane : PaneId) (b : Broker Parser)
      → ((c : ClientId) → subscribed b c pane ≡ false)
      → WellFormed b
      → WellFormed (unrouted pane b)
  unrouted-WellFormed pane b nobody w = record {
    linked = λ c p. ground (arith, subscribed-unrouted pane b c p, nobody c, w.linked c p);
    routed = unrouted-Routed pane b w.routed;
    numbered = w.numbered;
  }

  pub close_if_unclaimed-WellFormed :
      (pane : PaneId) (b : Broker Parser) → WellFormed b → WellFormed (close_if_unclaimed pane b).0
  unfolding close_if_unclaimed
  close_if_unclaimed-WellFormed pane b w = elim (Option-cases (lookup pane b.routes)) [
    | inl e ↦ rw (e, close_if_unclaimed) w
    | inr (route, e) ↦ elim (Bool-cases route.unclaimed) [
      | inr wanted ↦ rw (e, close_if_unclaimed, wanted) w
      | inl unwanted ↦
          rw (e, close_if_unclaimed, unwanted)
            (unrouted-WellFormed pane b
              (λ c.
                ground (arith, has_of_empty c route.subscribers, (w.routed pane route e).claimed))
              w)
    ]
  ]

  -- In a well-formed broker, a route that anybody watches is not closed, whatever was remembered
  -- when the wait began.
  pub close_if_unclaimed_watched :
      (client : ClientId) (pane : PaneId) (b : Broker Parser)
      → WellFormed b
      → watches b client pane ≡ true
      → close_if_unclaimed pane b ≡ (b, [])
  unfolding close_if_unclaimed
  close_if_unclaimed_watched client pane b w h = elim (Option-cases (lookup pane b.routes)) [
    | inl e ↦ rw (e, close_if_unclaimed) refl
    | inr (route, e) ↦ ground (
      arith,
      w.linked client pane,
      has_of_empty client route.subscribers,
      (w.routed pane route e).claimed,
    )
  ]

  pub forget_pane-routes :
      (pane : PaneId) (clients : List ClientId) (b : Broker Parser)
      → ((forget_pane pane clients b).routes ≡ b.routes)
        × ((forget_pane pane clients b).next_client ≡ b.next_client)
  unfolding forget_pane adjust_client
  forget_pane-routes pane [] b = (refl, refl)
  forget_pane-routes pane (client ∷ clients) b = forget_pane-routes pane clients _

  watches-forget_pane :
      (pane : PaneId) (clients : List ClientId) (b : Broker Parser) (c : ClientId) (p : PaneId)
      → watches (forget_pane pane clients b) c p
        ≡ ite
            (id_ord.same pane p)
            (if listed c clients then false else watches b c p)
            (watches b c p)
  unfolding forget_pane
  watches-forget_pane pane [] b c p = ground arith
  watches-forget_pane pane (client ∷ clients) b c p = ground (
    arith,
    watches-forget_pane pane clients (adjust_client client (without_pane pane) b) c p,
    watches-without_pane client pane b c p,
  )

  connected-forget_pane :
      (pane : PaneId) (clients : List ClientId) (b : Broker Parser) (c : ClientId)
      → is_some (lookup c (forget_pane pane clients b).clients) ≡ is_some (lookup c b.clients)
  unfolding forget_pane adjust_client
  connected-forget_pane pane [] b c = refl
  connected-forget_pane pane (client ∷ clients) b c =
      connected-forget_pane pane clients _ c
      ∙ ground (arith, lookup-adjust client (without_pane pane) b.clients c)

  closed_route :
      (pane : PaneId) (route : Route) (b : Broker Parser)
      → lookup pane b.routes ≡ some route
      → WellFormed b
      → WellFormed (forget_pane pane (keys route.subscribers) (unrouted pane b))
  closed_route pane route b e w =
      let clients = keys route.subscribers in
      let b1 = unrouted pane b in
      let (same_routes, same_next) = forget_pane-routes pane clients b1 in
      record {
        linked = λ c p.
            ground (
              arith,
              watches-forget_pane pane clients b1 c p,
              listed-keys c route.subscribers,
              w.linked c p,
              subscribed-unrouted pane b c p,
            )
            ∙ sym (ap (λ (m : Map PaneId Route). has_subscriber c (lookup p m)) same_routes);
        routed = λ p r f.
            unrouted-Routed pane b w.routed p r
              (ap (λ (m : Map PaneId Route). lookup p m) (sym same_routes) ∙ f);
        numbered =
            λ c h. rw same_next (w.numbered c (sym (connected-forget_pane pane clients b1 c) ∙ h));
      }

  pub pane_route_closed-WellFormed :
      (pane : PaneId) (b : Broker Parser) → WellFormed b → WellFormed (pane_route_closed pane b).0
  unfolding pane_route_closed
  pane_route_closed-WellFormed pane b w = elim (Option-cases (lookup pane b.routes)) [
    | inl e ↦ rw (e, pane_route_closed) w
    | inr (route, e) ↦ rw (e, pane_route_closed) (closed_route pane route b e w)
  ]
