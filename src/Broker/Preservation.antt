-- ===== src/Broker/Preservation.antt =====
-- src/daemon/broker.rs: each entry point keeps the broker well formed.
use super_herdr.Common.{ℕ, ◌≡◌, refl, Bool, List, [], ◌∷◌, inl, inr}
use super_herdr.Common.Tests.{◌==◌, Option-cases, if_rule}
use super_herdr.Common.Lists.{keep}
use super_herdr.Common.Order.{nat_ord}
use super_herdr.Common.Maps.{keys, lookup, has}
use super_herdr.Model.{PaneId, id_ord}
use super_herdr.Screen.Render.{Vt100}
use super_herdr.Federation.{FederationState}
use super_herdr.Payloads.{AgentCardProjection}
use super_herdr.Protocol.{ClientMessage, protocol_version}
use super_herdr.Broker.State.{ClientId, Client, Broker}
use super_herdr.Broker.Leases.{Reply, adjust_client, representation_of, is_screen}
use super_herdr.Broker.Control.{surrendered}
use super_herdr.Broker.Events.{
  is_published, render_for, screen_frame, pane_frame, route_downgraded, agent_cards_updated,
}
use super_herdr.Broker.Federated.{close_routes, federation_updated, pane_is_gone}
use super_herdr.Broker.Requests.{greet, subscribe_state, set_notifications, subscribe_agent_cards}
use super_herdr.Broker.Handle.{serve, handle}
use super_herdr.Broker.Invariant.{WellFormed}
use super_herdr.Broker.Links.{
  SameLinks-WellFormed, SameLinks-with_screens, adjust_client-SameLinks, render_all-SameLinks,
  ack_pane_screen-SameLinks,
}
use super_herdr.Broker.Routes.{surrendered-IsRoute}
use super_herdr.Broker.Departure.{unsubscribe_pane-WellFormed}
use super_herdr.Broker.Arrival.{take_control-WellFormed, pane_resize-WellFormed}
use super_herdr.Broker.Takers.{set_route-WellFormed, subscribe_pane-WellFormed}
use super_herdr.Broker.Retirement.{pane_route_closed-WellFormed}

module _ {Parser : Type 0} where
  pub route_downgraded-WellFormed :
      (pane : PaneId) (b : Broker Parser) → WellFormed b → WellFormed (route_downgraded pane b).0
  unfolding route_downgraded surrendered
  route_downgraded-WellFormed pane b w = elim (Option-cases (lookup pane b.routes)) [
    | inl e ↦ rw (e, route_downgraded) w
    | inr (route, e) ↦
        rw (e, route_downgraded)
          (if_rule (λ (r : Reply Parser). WellFormed r.0) _ w
            (set_route-WellFormed pane route (surrendered route) b e (λ c. refl)
              (surrendered-IsRoute route (w.routed pane route e).claimed) w))
  ]

  -- What is published does not take part.
  pub agent_cards_updated-WellFormed :
      (projection : AgentCardProjection) (b : Broker Parser)
      → WellFormed b
      → WellFormed (agent_cards_updated projection b).0
  unfolding agent_cards_updated
  agent_cards_updated-WellFormed projection b w =
      if_rule (λ (r : Reply Parser). WellFormed r.0) (is_published projection b.agent_cards) w
        (record { linked = w.linked; routed = w.routed; numbered = w.numbered })

  close_routes-WellFormed :
      (panes : List PaneId) (b : Broker Parser) → WellFormed b → WellFormed (close_routes panes b).0
  unfolding close_routes
  close_routes-WellFormed [] b w = w
  close_routes-WellFormed (pane ∷ panes) b w =
      close_routes-WellFormed panes _ (pane_route_closed-WellFormed pane b w)

  pub federation_updated-WellFormed :
      (state : FederationState) (b : Broker Parser)
      → WellFormed b
      → WellFormed (federation_updated state b).0
  unfolding federation_updated
  federation_updated-WellFormed state b w =
      close_routes-WellFormed (keep (pane_is_gone state) (keys b.routes))
        (record b { state = state })
        (record { linked = w.linked; routed = w.routed; numbered = w.numbered })

  -- A session whose flags change.
  flagged :
      (client : ClientId) (f : Client → Client) (b : Broker Parser)
      → ((session : Client) (pane : PaneId) → has pane (f session).panes ≡ has pane session.panes)
      → WellFormed b
      → WellFormed (adjust_client client f b)
  flagged client f b keeps w = SameLinks-WellFormed (adjust_client-SameLinks client f b keeps) w

  greet-WellFormed :
      (client : ClientId) (message : ClientMessage) (b : Broker Parser)
      → WellFormed b
      → WellFormed (greet client message b).0
  unfolding greet
  greet-WellFormed client (ClientMessage.hello protocol name) b w =
      if_rule (λ (r : Reply Parser). WellFormed r.0) (protocol == protocol_version)
        (flagged client _ b (λ session pane. refl) w) w
  greet-WellFormed client _ b w = w

  serve-WellFormed :
      (client : ClientId) (message : ClientMessage) (b : Broker Parser)
      → WellFormed b
      → WellFormed (serve client message b).0
  unfolding serve subscribe_state set_notifications subscribe_agent_cards
  serve-WellFormed c ClientMessage.subscribe_state b w = flagged c _ b (λ session pane. refl) w
  serve-WellFormed c ClientMessage.subscribe_notifications b w =
      flagged c _ b (λ session pane. refl) w
  serve-WellFormed c ClientMessage.unsubscribe_notifications b w =
      flagged c _ b (λ session pane. refl) w
  serve-WellFormed c ClientMessage.subscribe_agent_cards b w =
      flagged c _ b (λ session pane. refl) w
  serve-WellFormed c (ClientMessage.subscribe_pane pane access cols rows representation) b w =
      subscribe_pane-WellFormed c pane access cols rows representation b w
  serve-WellFormed c (ClientMessage.ack_pane_screen pane sequence) b w =
      SameLinks-WellFormed (ack_pane_screen-SameLinks c pane sequence b) w
  serve-WellFormed c (ClientMessage.unsubscribe_pane pane) b w =
      unsubscribe_pane-WellFormed c pane b w
  serve-WellFormed c (ClientMessage.take_pane_control pane only_if_free) b w =
      take_control-WellFormed c pane only_if_free b w
  serve-WellFormed c (ClientMessage.pane_resize pane cols rows) b w =
      pane_resize-WellFormed c pane cols rows b w
  serve-WellFormed c _ b w = w

  -- Whatever a client sends, in whatever state its connection is, the broker stays well formed.
  pub handle-WellFormed :
      (client : ClientId) (message : ClientMessage) (b : Broker Parser)
      → WellFormed b
      → WellFormed (handle client message b).0
  unfolding handle
  handle-WellFormed client message b w = elim (Option-cases (lookup client b.clients)) [
    | inl e ↦ rw (e, handle) w
    | inr (session, e) ↦
        rw (e, handle)
          (if_rule (λ (r : Reply Parser). WellFormed r.0) session.greeted
            (serve-WellFormed client message b w) (greet-WellFormed client message b w))
  ]

module _ {Parser : Type 0} (vt : Vt100 Parser) where
  render_for-WellFormed :
      (pane : PaneId) (width height : ℕ) (full : Bool) (bytes : List ℕ)
      (subscribers : List ClientId) (b : Broker Parser)
      → WellFormed b
      → WellFormed (render_for vt pane width height full bytes subscribers b).0
  unfolding render_for
  render_for-WellFormed pane width height full bytes subscribers b w =
      SameLinks-WellFormed (render_all-SameLinks pane _ subscribers _)
        (SameLinks-WellFormed (SameLinks-with_screens b _) w)

  screen_frame-WellFormed :
      (pane : PaneId) (width height : ℕ) (full : Bool) (bytes : List ℕ)
      (subscribers : List ClientId) (b : Broker Parser)
      → WellFormed b
      → WellFormed (screen_frame vt pane width height full bytes subscribers b).0
  unfolding screen_frame
  screen_frame-WellFormed pane width height full bytes [] b w =
      SameLinks-WellFormed (SameLinks-with_screens b _) w
  screen_frame-WellFormed pane width height full bytes (client ∷ clients) b w =
      render_for-WellFormed pane width height full bytes (client ∷ clients) b w

  pub pane_frame-WellFormed :
      (pane : PaneId) (sequence width height : ℕ) (full : Bool) (bytes : List ℕ) (b : Broker Parser)
      → WellFormed b
      → WellFormed (pane_frame vt pane sequence width height full bytes b).0
  unfolding pane_frame
  pane_frame-WellFormed pane sequence width height full bytes b w =
      elim (Option-cases (lookup pane b.routes)) [
        | inl e ↦ rw (e, pane_frame) w
        | inr (route, e) ↦
            rw (e, pane_frame)
              (screen_frame-WellFormed pane width height full bytes
                (keep (λ client. is_screen (representation_of b pane client))
                  (keys route.subscribers))
                b w)
      ]
