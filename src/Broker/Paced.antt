-- ===== src/Broker/Paced.antt =====
-- src/daemon/broker.rs: no viewer is ever sent more screen updates ahead of its acknowledgements than
-- the limit.
use super_herdr.Common.{ℕ, ◌≤◌, ◌≡◌, Bool, some, List, inl, inr, arith}
use super_herdr.Common.Tests.{◌==◌, Option-cases, if_rule}
use super_herdr.Common.Lists.{length, keep}
use super_herdr.Common.Order.{Text, nat_ord}
use super_herdr.Common.Maps.{keys, lookup}
use super_herdr.Common.Every.{Every-empty}
use super_herdr.Model.{PaneId, id_ord}
use super_herdr.Payloads.{QuickReply}
use super_herdr.Screen.Render.{Vt100}
use super_herdr.Protocol.{ClientMessage, protocol_version}
use super_herdr.Broker.State.{ClientId, PaneSubscription, Broker, new}
use super_herdr.Broker.Leases.{Reply, subscription, set_route, holds_control}
use super_herdr.Broker.Control.{take_control}
use super_herdr.Broker.Requests.{
  pane_resize, greet, subscribe_state, set_notifications, subscribe_agent_cards,
}
use super_herdr.Broker.Events.{close_if_unclaimed, route_downgraded, agent_cards_updated}
use super_herdr.Broker.Federated.{close_vanished_routes, federation_updated, pane_is_gone}
use super_herdr.Broker.Handle.{serve, handle}
use super_herdr.Broker.Takers.{take_control_cases}
use super_herdr.Broker.Pacing.{
  PacedClient, Paced, clients-Paced, adjust_client-Paced, adjust_subscription-Paced, connect-Paced,
  disconnect-Paced, unsubscribe_pane-Paced, pane_route_closed-Paced, close_routes-Paced,
  subscribe_pane-Paced,
}
use super_herdr.Broker.Reach.{Step, Reach}
use super_herdr.Broker.Updates.{pane_frame-Paced, subscription-IsPaced, ack_pane_screen-Paced}

module _ {Parser : Type 0} where
  take_control-Paced :
      (client : ClientId) (pane : PaneId) (only_if_free : Bool) (b : Broker Parser)
      → Paced b
      → Paced (take_control client pane only_if_free b).0
  unfolding set_route
  take_control-Paced client pane only_if_free b h =
      take_control_cases (λ r. Paced r.0) client pane only_if_free b h (λ reason. h) h
        (λ session sub route e f g other free. h)

  pane_resize-Paced :
      (client : ClientId) (pane : PaneId) (cols rows : ℕ) (b : Broker Parser)
      → Paced b
      → Paced (pane_resize client pane cols rows b).0
  unfolding pane_resize
  pane_resize-Paced client pane cols rows b h =
      if_rule (λ (r : Reply Parser). Paced r.0) (holds_control b client pane)
        (adjust_subscription-Paced client pane (λ sub. record sub { cols = cols; rows = rows }) b
          (λ sub g. subscription-IsPaced client pane sub b g h) h)
        h

  greet-Paced :
      (client : ClientId) (message : ClientMessage) (b : Broker Parser)
      → Paced b
      → Paced (greet client message b).0
  unfolding greet
  greet-Paced client (ClientMessage.hello protocol name) b h =
      if_rule (λ (r : Reply Parser). Paced r.0) (protocol == protocol_version)
        (adjust_client-Paced client _ b (λ session v. v) h) h
  greet-Paced client _ b h = h

  serve-Paced :
      (client : ClientId) (message : ClientMessage) (b : Broker Parser)
      → Paced b
      → Paced (serve client message b).0
  unfolding serve subscribe_state set_notifications subscribe_agent_cards
  serve-Paced c ClientMessage.subscribe_state b h = adjust_client-Paced c _ b (λ session v. v) h
  serve-Paced c ClientMessage.subscribe_notifications b h =
      adjust_client-Paced c _ b (λ session v. v) h
  serve-Paced c ClientMessage.unsubscribe_notifications b h =
      adjust_client-Paced c _ b (λ session v. v) h
  serve-Paced c ClientMessage.subscribe_agent_cards b h =
      adjust_client-Paced c _ b (λ session v. v) h
  serve-Paced c (ClientMessage.subscribe_pane pane access cols rows representation) b h =
      subscribe_pane-Paced c pane access cols rows representation b h
  serve-Paced c (ClientMessage.ack_pane_screen pane sequence) b h =
      ack_pane_screen-Paced c pane sequence b h
  serve-Paced c (ClientMessage.unsubscribe_pane pane) b h = unsubscribe_pane-Paced c pane b h
  serve-Paced c (ClientMessage.take_pane_control pane only_if_free) b h =
      take_control-Paced c pane only_if_free b h
  serve-Paced c (ClientMessage.pane_resize pane cols rows) b h =
      pane_resize-Paced c pane cols rows b h
  serve-Paced c _ b h = h

  handle-Paced :
      (client : ClientId) (message : ClientMessage) (b : Broker Parser)
      → Paced b
      → Paced (handle client message b).0
  unfolding handle
  handle-Paced client message b h = elim (Option-cases (lookup client b.clients)) [
    | inl e ↦ rw (e, handle) h
    | inr (session, e) ↦
        rw (e, handle)
          (if_rule (λ (r : Reply Parser). Paced r.0) session.greeted
            (serve-Paced client message b h) (greet-Paced client message b h))
  ]

module _ {Parser : Type 0} (vt : Vt100 Parser) where
  Step-Paced : {b b' : Broker Parser} → Step vt b b' → Paced b → Paced b'
  unfolding federation_updated close_vanished_routes close_if_unclaimed route_downgraded set_route
      agent_cards_updated
  Step-Paced {b} (Step.connects e) h = connect-Paced b h
  Step-Paced {b} (Step.disconnects client) h = disconnect-Paced client b h
  Step-Paced {b} (Step.receives client message) h = handle-Paced client message b h
  Step-Paced {b} (Step.updates state) h =
      close_routes-Paced (keep (pane_is_gone state) (keys b.routes)) (record b { state = state }) h
  Step-Paced {b} (Step.frame pane sequence width height full bytes) h =
      pane_frame-Paced vt pane sequence width height full bytes b h
  Step-Paced {b} (Step.expires pane) h =
      clients-Paced b (close_if_unclaimed pane b).0 (ground arith) h
  Step-Paced {b} (Step.closes pane) h = pane_route_closed-Paced pane b h
  Step-Paced {b} (Step.downgrades pane) h =
      clients-Paced b (route_downgraded pane b).0 (ground arith) h
  Step-Paced {b} (Step.publishes projection) h =
      clients-Paced b (agent_cards_updated projection b).0 (ground arith) h

  Reach-Paced : {b b' : Broker Parser} → Paced b → Reach vt b b' → Paced b'
  Reach-Paced h Reach.here = h
  Reach-Paced h (Reach.next r s) = Step-Paced s (Reach-Paced h r)

  new-Paced :
      (server_version : Text) (features : List Text) (quick_replies : List QuickReply)
      → Paced (new Parser server_version features quick_replies)
  unfolding new
  new-Paced server_version features quick_replies = Every-empty PacedClient

  -- From the broker's start, through any interleaving of its operations in which the counter of
  -- clients does not wrap, no subscription ever has more than four screen updates outstanding.
  pub reachable-IsPaced :
      (server_version : Text) (features : List Text) (quick_replies : List QuickReply)
      {b : Broker Parser} (client : ClientId) (pane : PaneId) (sub : PaneSubscription)
      → Reach vt (new Parser server_version features quick_replies) b
      → subscription b client pane ≡ some sub
      → length sub.outstanding ≤ 4
  reachable-IsPaced server_version features quick_replies {b} client pane sub r e =
      subscription-IsPaced client pane sub b e
        (Reach-Paced (new-Paced server_version features quick_replies) r)
