-- ===== src/Broker/Takers.antt =====
-- src/daemon/broker.rs: a client that subscribes to a pane, and the ways in which `take_control` ends.
use super_herdr.Common.{
  ℕ, ◌≡◌, sym, ap, ◌∙◌, Bool, true, false, ◌&&◌, some, [], ◌∷◌, inl, inr, ite, arith,
}
use super_herdr.Common.Tests.{is_some, Bool-cases, Option-cases}
use super_herdr.Common.Order.{Text, nat_ord}
use super_herdr.Common.Maps.{Map, lookup, insert, has, lookup-insert, has-insert}
use super_herdr.Model.{PaneId, id_ord}
use super_herdr.Payloads.{TerminalAccess, observe}
use super_herdr.Protocol.{PaneRepresentation}
use super_herdr.Broker.State.{ClientId, PaneSubscription, Route, Client, Broker}
use super_herdr.Broker.Leases.{Reply, lease, refusal, is_holder, set_route, grant, subscribe_pane}
use super_herdr.Broker.Control.{taken, taken_effects, take_route, take_control}
use super_herdr.Broker.Invariant.{IsRoute, has_pane, watches, WellFormed}
use super_herdr.Broker.Links.{SameLinks-WellFormed, replay-SameLinks}
use super_herdr.Broker.Routes.{
  set_route-Routed, subscribed-set_route, grant-Routed, subscribed-grant,
}

module _ {Parser : Type 0} where
  -- A client's session with one subscription put in.
  abbrev pub enrolled :
      ClientId → Client → PaneId → PaneSubscription → Broker Parser → Broker Parser
  enrolled client session pane sub b = record b {
    clients = insert client (record session { panes = insert pane sub session.panes }) b.clients;
  }

  pub watches-enrolled :
      (client : ClientId) (session : Client) (pane : PaneId) (sub : PaneSubscription)
      (b : Broker Parser) (c : ClientId) (p : PaneId)
      → lookup client b.clients ≡ some session
      → watches (enrolled client session pane sub b) c p
        ≡ ite
            (id_ord.same pane p)
            (ite (nat_ord.same client c) true (watches b c p))
            (watches b c p)
  watches-enrolled client session pane sub b c p e = ground (
    arith,
    lookup-insert client (record session { panes = insert pane sub session.panes }) b.clients c,
    has-insert pane sub session.panes p,
  )

  pub connected-enrolled :
      (client : ClientId) (session : Client) (pane : PaneId) (sub : PaneSubscription)
      (b : Broker Parser) (c : ClientId)
      → lookup client b.clients ≡ some session
      → is_some (lookup c (enrolled client session pane sub b).clients) ≡ true
      → is_some (lookup c b.clients) ≡ true
  connected-enrolled client session pane sub b c e h = ground (
    arith,
    lookup-insert client (record session { panes = insert pane sub session.panes }) b.clients c,
  )

  -- The route of one pane is the only thing that `grant` changes.
  pub grant-clients :
      (client : ClientId) (pane : PaneId) (access : TerminalAccess) (cols rows : ℕ)
      (b : Broker Parser)
      → ((grant client pane access cols rows b).0.clients ≡ b.clients)
        × ((grant client pane access cols rows b).0.next_client ≡ b.next_client)
  unfolding grant
  grant-clients client pane access cols rows b = ground arith

  pub granted-WellFormed :
      (client : ClientId) (session : Client) (pane : PaneId) (access : TerminalAccess)
      (cols rows : ℕ) (sub : PaneSubscription) (b : Broker Parser)
      → lookup client b.clients ≡ some session
      → WellFormed b
      → WellFormed (grant client pane access cols rows (enrolled client session pane sub b)).0
  granted-WellFormed client session pane access cols rows sub b e w =
      let b1 = enrolled client session pane sub b in
      let (same_clients, same_next) = grant-clients client pane access cols rows b1 in
      record {
        linked = λ c p.
            ap (λ (m : Map ClientId Client). has_pane p (lookup c m)) same_clients
            ∙ ground (
              arith,
              watches-enrolled client session pane sub b c p e,
              subscribed-grant client pane access cols rows b1 c p,
              w.linked c p,
            );
        routed = grant-Routed client pane access cols rows b1 w.routed;
        numbered = λ c h. rw same_next (
            w.numbered c (
              connected-enrolled client session pane sub b c e
                (ap (λ (m : Map ClientId Client). is_some (lookup c m)) (sym same_clients) ∙ h)));
      }

  pub subscribe_pane-WellFormed :
      (client : ClientId) (pane : PaneId) (access : TerminalAccess) (cols rows : ℕ)
      (representation : PaneRepresentation) (b : Broker Parser)
      → WellFormed b
      → WellFormed (subscribe_pane client pane access cols rows representation b).0
  unfolding subscribe_pane
  subscribe_pane-WellFormed client pane access cols rows representation b w =
      elim (Option-cases (lookup client b.clients)) [
        | inl e ↦ rw (e, subscribe_pane) w
        | inr (session, e) ↦
            rw (e, subscribe_pane)
              (SameLinks-WellFormed (replay-SameLinks client pane representation _)
                (granted-WellFormed client session pane access cols rows _ b e w))
      ]

  -- A route that is replaced by one with the same subscribers.
  pub set_route-WellFormed :
      (pane : PaneId) (old route : Route) (b : Broker Parser)
      → lookup pane b.routes ≡ some old
      → ((c : ClientId) → has c route.subscribers ≡ has c old.subscribers)
      → IsRoute route
      → WellFormed b
      → WellFormed (set_route pane route b)
  unfolding set_route
  set_route-WellFormed pane old route b e keeps v w = record {
    linked = λ c p. ground (arith, subscribed-set_route pane route b c p, keeps c, w.linked c p);
    routed = set_route-Routed pane route b v w.routed;
    numbered = w.numbered;
  }

  -- The ways in which `take_control` ends: it changes nothing and says nothing, refuses, reports
  -- observation, or takes the lease.
  pub take_control_cases {ℓ} :
      (P : Reply Parser → Type ℓ) (client : ClientId) (pane : PaneId) (only_if_free : Bool)
      (b : Broker Parser)
      → P (b, [])
      → ((reason : Text) → P (b, refusal client reason ∷ []))
      → P (b, lease pane observe client ∷ [])
      → ((session : Client) (sub : PaneSubscription) (route : Route)
          → lookup client b.clients ≡ some session
          → lookup pane session.panes ≡ some sub
          → lookup pane b.routes ≡ some route
          → is_holder client route.control ≡ false
          → (only_if_free && is_some route.control) ≡ false
          → P (set_route pane (taken client sub route) b, taken_effects client pane sub route))
      → P (take_control client pane only_if_free b)
  unfolding take_control has
  take_control_cases P client pane only_if_free b silent refused observing takes =
      elim (Option-cases (lookup client b.clients)) [
        | inl e ↦ rw (e, take_control) silent
        | inr (session, e) ↦ elim (Option-cases (lookup pane session.panes)) [
          | inl f ↦ rw (e, take_control, f) (refused _)
          | inr (sub, f) ↦ elim (Option-cases (lookup pane b.routes)) [
            | inl g ↦ rw (e, take_control, f, g) silent
            | inr (route, g) ↦ rw (e, take_control, f, g) (takes_route session sub route e f g)
          ]
        ]
      ]
    where
      takes_route :
          (session : Client) (sub : PaneSubscription) (route : Route)
          → lookup client b.clients ≡ some session
          → lookup pane session.panes ≡ some sub
          → lookup pane b.routes ≡ some route
          → P (take_route client pane only_if_free sub route b)
      takes_route session sub route e f g = elim (Bool-cases (is_holder client route.control)) [
        | inl holder ↦ rw (holder, take_route) silent
        | inr other ↦ elim (Bool-cases (only_if_free && is_some route.control)) [
          | inl busy ↦ rw (other, take_route, busy) observing
          | inr free ↦ rw (other, take_route, free) (takes session sub route e f g other free)
        ]
      ]
