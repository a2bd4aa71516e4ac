-- ===== src/Broker/Federated.antt =====
-- src/daemon/broker.rs: a new state of the federation, and the routes that it retires.
use super_herdr.Common.{Bool, true, false, not, Option, none, some, List, [], ◌∷◌, ◌++◌, ite}
use super_herdr.Common.Tests.{if◌then◌else◌}
use super_herdr.Common.Lists.{keep}
use super_herdr.Common.Maps.{Map, keys, lookup, has}
use super_herdr.Model.{TargetSession, PaneId, target_session, id_ord, session_ord}
use super_herdr.Federation.{
  NormalizedSnapshot, FederationState, TargetRuntimeState, live, connection_same,
  differs_for_clients,
}
use super_herdr.Protocol.{ServerMessage}
use super_herdr.Broker.State.{Effect, Broker}
use super_herdr.Broker.Leases.{Reply}
use super_herdr.Broker.Events.{pane_route_closed, broadcast_state}

-- The first loop of `federation_updated`: the targets that are new or differ.
unfoldable pub changed_targets :
    Map TargetSession TargetRuntimeState → Map TargetSession TargetRuntimeState → List ServerMessage
changed_targets previous [] = []
changed_targets previous ((key, target) ∷ targets) =
    let rest = changed_targets previous targets in
    let changed : Bool = elim (lookup key previous) [
      | none ↦ true
      | some held ↦ differs_for_clients held target
    ] in
    if changed then ServerMessage.target_state key (some target) ∷ rest else rest

-- The second loop: the targets that left.
unfoldable pub departed_targets :
    Map TargetSession TargetRuntimeState → List TargetSession → List ServerMessage
departed_targets current [] = []
departed_targets current (key ∷ keys) =
    let rest = departed_targets current keys in
    if has key current then rest else ServerMessage.target_state key none ∷ rest

-- Whether a snapshot, if there is one, lacks the pane.
abbrev pub lacks_pane : PaneId → Option NormalizedSnapshot → Bool
lacks_pane pane none = false
lacks_pane pane (some snapshot) = not (has pane snapshot.panes)

-- `pane_is_gone`.
unfoldable pub pane_is_gone : FederationState → PaneId → Bool
pane_is_gone state pane = elim (lookup (target_session pane) state.targets) [
  | none ↦ true
  | some target ↦
      ite (connection_same target.connection live) (lacks_pane pane target.snapshot) false
]

module _ {Parser : Type 0} where
  unfoldable pub close_routes : List PaneId → Broker Parser → Reply Parser
  unfolding pane_route_closed
  close_routes [] b = (b, [])
  close_routes (pane ∷ panes) b =
      let (b1, effects) = pane_route_closed pane b in
      let (b2, more) = close_routes panes b1 in (b2, effects ++ more)

  unfoldable pub close_vanished_routes : Broker Parser → Reply Parser
  unfolding pane_is_gone close_routes
  close_vanished_routes b = close_routes (keep (pane_is_gone b.state) (keys b.routes)) b

  unfoldable pub broadcast_all : List ServerMessage → Broker Parser → List Effect
  unfolding broadcast_state
  broadcast_all [] b = []
  broadcast_all (message ∷ messages) b = broadcast_state message b ++ broadcast_all messages b

  unfoldable pub federation_updated : FederationState → Broker Parser → Reply Parser
  unfolding changed_targets departed_targets broadcast_all close_vanished_routes
  federation_updated state b =
      let changes =
        changed_targets b.state.targets state.targets
        ++ departed_targets state.targets (keys b.state.targets) in
      let b1 = record b { state = state } in
      let (b2, closed) = close_vanished_routes b1 in (b2, broadcast_all changes b1 ++ closed)
