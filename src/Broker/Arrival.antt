-- ===== src/Broker/Arrival.antt =====
-- src/daemon/broker.rs: a client that connects, subscribes to a pane, takes its control or
-- resizes it.
use super_herdr.Common.{
  ℕ, ◌<◌, ◌≡◌, refl, sym, ◌∙◌, Bool, true, Option, none, some, inl, inr, arith,
}
use super_herdr.Common.Tests.{Bool-cases, Option-cases, max_u64}
use super_herdr.Common.Order.{nat_ord}
use super_herdr.Common.Maps.{Map, lookup, adjust, has, lookup-insert, lookup-adjust}
use super_herdr.Model.{PaneId, id_ord}
use super_herdr.Broker.State.{ClientId, PaneSubscription, Route, Client, new_client, Broker}
use super_herdr.Broker.Leases.{resized, holds_control, connect}
use super_herdr.Broker.Control.{taken, take_control}
use super_herdr.Broker.Requests.{pane_resize}
use super_herdr.Broker.Invariant.{IsRoute, has_subscriber, WellFormed}
use super_herdr.Broker.Links.{SameLinks-WellFormed, adjust_subscription-SameLinks}
use super_herdr.Broker.Routes.{taken-IsRoute}
use super_herdr.Broker.Takers.{set_route-WellFormed, take_control_cases}

module _ {Parser : Type 0} where
  pub take_control-WellFormed :
      (client : ClientId) (pane : PaneId) (only_if_free : Bool) (b : Broker Parser)
      → WellFormed b
      → WellFormed (take_control client pane only_if_free b).0
  unfolding taken has
  take_control-WellFormed client pane only_if_free b w =
      take_control_cases (λ r. WellFormed r.0) client pane only_if_free b w (λ reason. w) w
        (λ session sub route e f g other free.
          set_route-WellFormed pane route (taken client sub route) b g (λ c. refl)
            (taken-IsRoute client sub route (enlisted session sub route e f g)
              (w.routed pane route g))
            w)
    where
      enlisted :
          (session : Client) (sub : PaneSubscription) (route : Route)
          → lookup client b.clients ≡ some session
          → lookup pane session.panes ≡ some sub
          → lookup pane b.routes ≡ some route
          → has client route.subscribers ≡ true
      enlisted session sub route e f g = ground (arith, w.linked client pane)

  -- A resized route has its subscribers and its holder still.
  resize_route :
      (pane : PaneId) (cols rows : ℕ) (b : Broker Parser)
      → WellFormed b
      → WellFormed (record b { routes = adjust pane (resized cols rows) b.routes })
  unfolding resized
  resize_route pane cols rows b w = record {
    linked = λ c p. w.linked c p ∙ sym (same_subscribers c p (lookup p b.routes) refl);
    routed = λ p route e. resized_route p route (lookup p b.routes) refl e;
    numbered = w.numbered;
  }
    where
      routes' : Map PaneId Route
      routes' = adjust pane (resized cols rows) b.routes

      same_subscribers :
          (c : ClientId) (p : PaneId) (o : Option Route)
          → lookup p b.routes ≡ o
          → has_subscriber c (lookup p routes') ≡ has_subscriber c (lookup p b.routes)
      same_subscribers c p none e =
          ground (arith, lookup-adjust pane (resized cols rows) b.routes p)
      same_subscribers c p (some route) e =
          ground (arith, lookup-adjust pane (resized cols rows) b.routes p)

      resized_route :
          (p : PaneId) (route : Route) (o : Option Route)
          → lookup p b.routes ≡ o
          → lookup p routes' ≡ some route
          → IsRoute route
      resized_route p route none e f =
          absurd (ground (arith, lookup-adjust pane (resized cols rows) b.routes p))
      resized_route p route (some old) e f =
          let v = w.routed p old e in
          record {
            held = λ holder h.
                ground (arith, lookup-adjust pane (resized cols rows) b.routes p, v.held holder);
            claimed = ground (arith, lookup-adjust pane (resized cols rows) b.routes p, v.claimed);
          }

  pub pane_resize-WellFormed :
      (client : ClientId) (pane : PaneId) (cols rows : ℕ) (b : Broker Parser)
      → WellFormed b
      → WellFormed (pane_resize client pane cols rows b).0
  unfolding pane_resize
  pane_resize-WellFormed client pane cols rows b w =
      elim (Bool-cases (holds_control b client pane)) [
        | inr other ↦ rw (other, pane_resize) w
        | inl holder ↦
            rw (holder, pane_resize)
              (resize_route pane cols rows _
                (SameLinks-WellFormed (adjust_subscription-SameLinks client pane _ b) w))
      ]

  -- The identifier that the next connection gets is not in use.
  next_client_unused : (b : Broker Parser) → WellFormed b → lookup b.next_client b.clients ≡ none
  next_client_unused b w = elim (Option-cases (lookup b.next_client b.clients)) [
    | inl e ↦ e
    | inr (session, e) ↦ absurd (omega (arith, w.numbered b.next_client (rw e refl)))
  ]

  -- A new connection is numbered by an identifier that no connected client has, and changes no
  -- subscription, as long as the counter does not wrap.
  pub connect-WellFormed :
      (b : Broker Parser)
      → b.next_client < max_u64
      → WellFormed b
      → WellFormed (connect b).0 × (lookup (connect b).1 b.clients ≡ none)
  unfolding connect has lookup
  connect-WellFormed b h w =
      let unused = next_client_unused b w in
      (
        record {
          linked = λ c p.
              ground
                (arith, lookup-insert b.next_client new_client b.clients c, unused, w.linked c p);
          routed = w.routed;
          numbered = λ c k.
              ground (arith, lookup-insert b.next_client new_client b.clients c, w.numbered c);
        },
        unused,
      )
