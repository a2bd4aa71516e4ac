-- ===== src/Broker/Vanished.antt =====
-- src/daemon/broker.rs: the routes that a new state of the federation retires.
use super_herdr.Common.{◌≡◌, refl, sym, ap, ◌∙◌, none, List, [], ◌∷◌, inl, inr, ite, arith}
use super_herdr.Common.Tests.{if◌then◌else◌, Option-cases}
use super_herdr.Common.Lists.{keep}
use super_herdr.Common.Maps.{
  has, Map, keys, lookup, remove, lookup-remove, listed, listed-keep, listed-keys,
}
use super_herdr.Model.{PaneId, id_ord}
use super_herdr.Federation.{FederationState}
use super_herdr.Broker.State.{Route, Broker}
use super_herdr.Broker.Events.{pane_route_closed}
use super_herdr.Broker.Federated.{
  pane_is_gone, close_routes, close_vanished_routes, federation_updated,
}
use super_herdr.Broker.Retirement.{forget_pane-routes}

module _ {Parser : Type 0} where
  route-pane_route_closed :
      (pane : PaneId) (b : Broker Parser) (p : PaneId)
      → lookup p (pane_route_closed pane b).0.routes
        ≡ ite (id_ord.same pane p) none (lookup p b.routes)
  unfolding pane_route_closed
  route-pane_route_closed pane b p = elim (Option-cases (lookup pane b.routes)) [
    | inl e ↦ rw (e, pane_route_closed) (unrouted e (id_ord.same pane p))
    | inr (route, e) ↦
        let b1 = record b { routes = remove pane b.routes; screens = remove pane b.screens } in
        rw (e, pane_route_closed)
          (ap (λ (m : Map PaneId Route). lookup p m)
              (forget_pane-routes pane (keys route.subscribers) b1).0
            ∙ lookup-remove pane b.routes p)
  ]
    where
      unrouted :
          lookup pane b.routes ≡ none
          → (d : Dec (pane ≡ p)) → lookup p b.routes ≡ ite d none (lookup p b.routes)
      unrouted e (yes q) = ap (λ i. lookup i b.routes) (sym q) ∙ e
      unrouted e (no d) = refl

  route-close_routes :
      (panes : List PaneId) (b : Broker Parser) (p : PaneId)
      → lookup p (close_routes panes b).0.routes
        ≡ (if listed p panes then none else lookup p b.routes)
  unfolding close_routes
  route-close_routes [] b p = refl
  route-close_routes (pane ∷ panes) b p = ground (
    arith,
    route-close_routes panes (pane_route_closed pane b).0 p,
    route-pane_route_closed pane b p,
  )

  -- After a new state of the federation a pane has the route that it had, unless that state shows
  -- that the pane is gone; then it has none.
  pub federation_updated_retires :
      (state : FederationState) (b : Broker Parser) (p : PaneId)
      → lookup p (federation_updated state b).0.routes
        ≡ (if pane_is_gone state p then none else lookup p b.routes)
  unfolding federation_updated close_vanished_routes has
  federation_updated_retires state b p = ground (
    arith,
    route-close_routes (keep (pane_is_gone state) (keys b.routes)) (record b { state = state }) p,
    listed-keep (pane_is_gone state) p (keys b.routes),
    listed-keys p b.routes,
  )
