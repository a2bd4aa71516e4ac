-- ===== src/Broker/Invariant.antt =====
-- src/daemon/broker.rs: what holds of the broker between two messages.
use super_herdr.Common.{◌<◌, ◌≡◌, Bool, true, false, Option, none, some}
use super_herdr.Common.Tests.{is_some}
use super_herdr.Common.Order.{nat_ord}
use super_herdr.Common.Maps.{lookup, has, is_empty}
use super_herdr.Model.{PaneId, id_ord}
use super_herdr.Broker.State.{ClientId, Route, Client, Broker}

-- Whether a client whose session is looked up has a subscription to the pane.
abbrev pub has_pane : PaneId → Option Client → Bool
has_pane pane none = false
has_pane pane (some session) = has pane session.panes

-- Whether a client is among the subscribers of the pane's route.
abbrev pub has_subscriber : ClientId → Option Route → Bool
has_subscriber client none = false
has_subscriber client (some route) = has client route.subscribers

module _ {Parser : Type 0} where
  abbrev pub watches : Broker Parser → ClientId → PaneId → Bool
  watches b client pane = has_pane pane (lookup client b.clients)

  abbrev pub subscribed : Broker Parser → ClientId → PaneId → Bool
  subscribed b client pane = has_subscriber client (lookup pane b.routes)

-- The holder of a route's lease is one of its subscribers, and the route is unclaimed exactly
-- when it has none.
pub record IsRoute (route : Route) : Type 0 where
  pub held : (holder : ClientId) → route.control ≡ some holder → has holder route.subscribers ≡ true
  pub claimed : route.unclaimed ≡ is_empty route.subscribers

pub record WellFormed {Parser : Type 0} (b : Broker Parser) : Type 0 where
  -- A client has a subscription to a pane exactly when the pane's route lists it.
  pub linked :
      (client : ClientId) (pane : PaneId) → watches b client pane ≡ subscribed b client pane
  pub routed : (pane : PaneId) (route : Route) → lookup pane b.routes ≡ some route → IsRoute route
  -- Identifiers of connected clients have been given out.
  pub numbered :
      (client : ClientId) → is_some (lookup client b.clients) ≡ true → client < b.next_client
