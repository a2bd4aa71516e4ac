-- ===== src/Broker/Control.antt =====
-- src/daemon/broker.rs: taking control of a pane, and giving panes up.
use super_herdr.Common.{Bool, true, false, ◌&&◌, Option, none, some, List, [], ◌∷◌, ◌++◌, map}
use super_herdr.Common.Tests.{if◌then◌else◌, is_some}
use super_herdr.Common.Lists.{any}
use super_herdr.Common.Order.{text, nat_ord}
use super_herdr.Common.Maps.{keys, lookup, remove, is_empty}
use super_herdr.Model.{PaneId, display, id_ord}
use super_herdr.Payloads.{observe, control}
use super_herdr.Broker.State.{ClientId, Effect, PaneSubscription, Route, Broker}
use super_herdr.Broker.Leases.{
  Reply, is_holder, is_control, is_screen, lease, refusal, subscription, adjust_client, set_route,
  representation_of, resized, resize_effects,
}

-- What the previous holder, if there was one, is told.
abbrev pub downgraded : PaneId → Option ClientId → List Effect
downgraded pane none = []
downgraded pane (some previous) = lease pane observe previous ∷ []

-- The route once `client` has taken control of it, its size being that of the client.
unfoldable pub taken : ClientId → PaneSubscription → Route → Route
unfolding resized
taken client sub route = record (resized sub.cols sub.rows route) {
  control = some client;
  access = control;
}

unfoldable pub taken_effects : ClientId → PaneId → PaneSubscription → Route → List Effect
unfolding resize_effects
taken_effects client pane sub route =
    resize_effects pane sub.cols sub.rows route
    ++ ((if is_control route.access
          then []
          else Effect.close_route pane ∷ Effect.open_route pane control sub.cols sub.rows ∷ [])
        ++ (downgraded pane route.control ++ (lease pane control client ∷ [])))

module _ {Parser : Type 0} where
  unfoldable pub take_route :
      ClientId → PaneId → Bool → PaneSubscription → Route → Broker Parser → Reply Parser
  unfolding taken taken_effects set_route
  take_route client pane only_if_free sub route b =
      if is_holder client route.control
      then (b, [])
      else if only_if_free && is_some route.control
      then (b, lease pane observe client ∷ [])
      else (set_route pane (taken client sub route) b, taken_effects client pane sub route)

  unfoldable pub take_control : ClientId → PaneId → Bool → Broker Parser → Reply Parser
  unfolding subscription take_route
  take_control client pane only_if_free b = elim (lookup client b.clients) [
    | none ↦ (b, [])
    | some session ↦ elim (lookup pane session.panes) [
      | none ↦ (
        b,
        refusal client (
              text "cannot take control of " ++ (display pane ++ text " without subscribing to it"))
            ∷ [],
      )
      | some sub ↦ elim (lookup pane b.routes) [
        | none ↦ (b, [])
        | some route ↦ take_route client pane only_if_free sub route b
      ]
    ]
  ]

  -- Whether a subscriber of the pane's route watches it as a rendered screen.
  unfoldable pub is_watched : PaneId → Broker Parser → Bool
  unfolding representation_of
  is_watched pane b = elim (lookup pane b.routes) [
    | none ↦ false
    | some route ↦
        any (λ client. is_screen (representation_of b pane client)) (keys route.subscribers)
  ]

  unfoldable pub release_screen_if_unwatched : PaneId → Broker Parser → Broker Parser
  unfolding is_watched
  release_screen_if_unwatched pane b =
      if is_watched pane b then b else record b { screens = remove pane b.screens }

-- The route without one subscriber, whose lease it keeps for now.
unfoldable pub left : ClientId → Route → Route
left client route = record route { subscribers = remove client route.subscribers }

-- The route once its holder has left the others behind.
unfoldable pub surrendered : Route → Route
surrendered route = record route { control = none; access = observe }

unfoldable pub surrendered_effects : PaneId → Route → List Effect
surrendered_effects pane route =
    (if is_control route.access
      then Effect.close_route pane ∷ Effect.open_route pane observe route.cols route.rows ∷ []
      else [])
    ++ map (lease pane observe) (keys route.subscribers)

module _ {Parser : Type 0} where
  unfoldable pub release_pane : ClientId → PaneId → Broker Parser → Reply Parser
  unfolding left surrendered surrendered_effects set_route release_screen_if_unwatched
  release_pane client pane b = elim (lookup pane b.routes) [
    | none ↦ (b, [])
    | some route ↦
        let rest = left client route in
        if is_empty rest.subscribers
        then (
          set_route pane (record rest { unclaimed = true; control = none }) b,
          Effect.route_unclaimed pane ∷ [],
        )
        else (let b1 = release_screen_if_unwatched pane (set_route pane rest b) in
            if is_holder client route.control
            then (set_route pane (surrendered rest) b1, surrendered_effects pane rest)
            else (b1, []))
  ]

  unfoldable pub release_panes : ClientId → List PaneId → Broker Parser → Reply Parser
  unfolding release_pane
  release_panes client [] b = (b, [])
  release_panes client (pane ∷ panes) b =
      let (b1, effects) = release_pane client pane b in
      let (b2, more) = release_panes client panes b1 in (b2, effects ++ more)

  unfoldable pub disconnect : ClientId → Broker Parser → Reply Parser
  unfolding release_panes
  disconnect client b = elim (lookup client b.clients) [
    | none ↦ (b, [])
    | some departing ↦
        release_panes client (keys departing.panes) (record b { clients = remove client b.clients })
  ]

  unfoldable pub unsubscribe_pane : ClientId → PaneId → Broker Parser → Reply Parser
  unfolding subscription adjust_client release_pane
  unsubscribe_pane client pane b =
      if is_some (subscription b client pane)
      then release_pane client pane
          (adjust_client client (λ session. record session { panes = remove pane session.panes }) b)
      else (b, [])
