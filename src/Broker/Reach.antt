-- ===== src/Broker/Reach.antt =====
-- src/daemon/broker.rs: any interleaving of what clients send and what the daemon observes.
use super_herdr.Common.{ℕ, ◌<◌, refl, Bool, List, arith}
use super_herdr.Common.Tests.{max_u64}
use super_herdr.Common.Order.{Text, nat_ord}
use super_herdr.Common.Maps.{lookup}
use super_herdr.Model.{PaneId, id_ord}
use super_herdr.Screen.Render.{Vt100}
use super_herdr.Federation.{FederationState}
use super_herdr.Payloads.{AgentCardProjection, QuickReply}
use super_herdr.Protocol.{ClientMessage}
use super_herdr.Broker.State.{ClientId, Broker, new}
use super_herdr.Broker.Leases.{connect}
use super_herdr.Broker.Control.{disconnect}
use super_herdr.Broker.Events.{
  pane_frame, close_if_unclaimed, pane_route_closed, route_downgraded, agent_cards_updated,
}
use super_herdr.Broker.Federated.{federation_updated}
use super_herdr.Broker.Handle.{handle}
use super_herdr.Broker.Invariant.{WellFormed}
use super_herdr.Broker.Departure.{disconnect-WellFormed}
use super_herdr.Broker.Arrival.{connect-WellFormed}
use super_herdr.Broker.Retirement.{close_if_unclaimed-WellFormed, pane_route_closed-WellFormed}
use super_herdr.Broker.Preservation.{
  route_downgraded-WellFormed, agent_cards_updated-WellFormed, federation_updated-WellFormed,
  handle-WellFormed, pane_frame-WellFormed,
}

module _ {Parser : Type 0} (vt : Vt100 Parser) where
  -- One call of the broker by the daemon. Those that only send are left out: they take the broker
  -- by reference and leave it as it is.
  pub data Step (b : Broker Parser) : Broker Parser → Type 0 where
    connects : b.next_client < max_u64 → Step b (connect b).0
    disconnects : (client : ClientId) → Step b (disconnect client b).0
    receives : (client : ClientId) (message : ClientMessage) → Step b (handle client message b).0
    updates : (state : FederationState) → Step b (federation_updated state b).0
    frame :
        (pane : PaneId) (sequence width height : ℕ) (full : Bool) (bytes : List ℕ)
        → Step b (pane_frame vt pane sequence width height full bytes b).0
    expires : (pane : PaneId) → Step b (close_if_unclaimed pane b).0
    closes : (pane : PaneId) → Step b (pane_route_closed pane b).0
    downgrades : (pane : PaneId) → Step b (route_downgraded pane b).0
    publishes : (projection : AgentCardProjection) → Step b (agent_cards_updated projection b).0

  pub data Reach (b : Broker Parser) : Broker Parser → Type 0 where
    here : Reach b b
    next : {b' b'' : Broker Parser} → Reach b b' → Step b' b'' → Reach b b''

  Step-WellFormed : {b b' : Broker Parser} → Step b b' → WellFormed b → WellFormed b'
  Step-WellFormed {b} (connects h) w = (connect-WellFormed b h w).0
  Step-WellFormed {b} (disconnects client) w = disconnect-WellFormed client b w
  Step-WellFormed {b} (receives client message) w = handle-WellFormed client message b w
  Step-WellFormed {b} (updates state) w = federation_updated-WellFormed state b w
  Step-WellFormed {b} (frame pane sequence width height full bytes) w =
      pane_frame-WellFormed vt pane sequence width height full bytes b w
  Step-WellFormed {b} (expires pane) w = close_if_unclaimed-WellFormed pane b w
  Step-WellFormed {b} (closes pane) w = pane_route_closed-WellFormed pane b w
  Step-WellFormed {b} (downgrades pane) w = route_downgraded-WellFormed pane b w
  Step-WellFormed {b} (publishes projection) w = agent_cards_updated-WellFormed projection b w

  pub Reach-WellFormed : {b b' : Broker Parser} → WellFormed b → Reach b b' → WellFormed b'
  Reach-WellFormed w here = w
  Reach-WellFormed w (next r s) = Step-WellFormed s (Reach-WellFormed w r)

  new-WellFormed :
      (server_version : Text) (features : List Text) (quick_replies : List QuickReply)
      → WellFormed (new Parser server_version features quick_replies)
  unfolding new lookup
  new-WellFormed server_version features quick_replies = record {
    linked = λ client pane. refl;
    routed = λ pane route e. absurd (ground arith);
    numbered = λ client h. absurd (ground arith);
  }

  -- From its start, through any interleaving of connections, client messages, frames, federation
  -- updates and closing routes in which the counter of clients does not wrap, the broker is well
  -- formed: clients and routes agree on who watches what, every lease holder is a subscriber, a route
  -- is unclaimed exactly when nobody subscribes, and every identifier in use has been given out.
  pub reachable-WellFormed :
      (server_version : Text) (features : List Text) (quick_replies : List QuickReply)
      {b : Broker Parser}
      → Reach (new Parser server_version features quick_replies) b
      → WellFormed b
  reachable-WellFormed server_version features quick_replies r =
      Reach-WellFormed (new-WellFormed server_version features quick_replies) r
