-- ===== src/Broker/Events.antt =====
-- src/daemon/broker.rs: what arrives from the panes, from the federation and from the daemon's
-- other parts, and is passed on to the clients.
use super_herdr.Common.{
  ℕ, Bool, true, false, not, ◌&&◌, Option, none, some, List, [], ◌∷◌, ◌++◌, map, ite,
}
use super_herdr.Common.Tests.{if◌then◌else◌, is_some}
use super_herdr.Common.Lists.{keep}
use super_herdr.Common.Order.{Text, nat_ord}
use super_herdr.Common.Maps.{Map, keys, lookup, insert, remove, has}
use super_herdr.Model.{PaneId, id_ord, session_ord}
use super_herdr.Screen.Render.{Vt100}
use super_herdr.Payloads.{AgentCardProjection, AttentionEvent, PluginRun, projection_same, observe}
use super_herdr.Protocol.{ServerMessage}
use super_herdr.Broker.State.{ClientId, Effect, Client, ScreenState, Broker}
use super_herdr.Broker.Leases.{
  Reply, is_control, is_screen, lease, adjust_client, set_route, representation_of,
}
use super_herdr.Broker.Control.{surrendered}
use super_herdr.Broker.Screens.{new_screen, advance, render_all}

-- Whether the projection is the one last published.
abbrev pub is_published : AgentCardProjection → Option AgentCardProjection → Bool
is_published projection none = false
is_published projection (some held) = ite (projection_same held projection) true false

-- The clients whose session passes the test.
unfoldable pub clients_where : (Client → Bool) → Map ClientId Client → List ClientId
clients_where p [] = []
clients_where p ((client, session) ∷ m) =
    let rest = clients_where p m in if p session then client ∷ rest else rest

module _ {Parser : Type 0} (vt : Vt100 Parser) where
  -- `entry(..).or_insert_with(ScreenState::new)`.
  abbrev pub screen_or_new : ℕ → ℕ → Option (ScreenState Parser) → ScreenState Parser
  screen_or_new width height none = new_screen vt width height
  screen_or_new width height (some state) = state

  unfoldable pub render_for :
      PaneId → ℕ → ℕ → Bool → List ℕ → List ClientId → Broker Parser → Reply Parser
  unfolding advance render_all
  render_for pane width height full bytes subscribers b =
      let state = screen_or_new width height (lookup pane b.screens) in
      let (state', rendered) = advance vt width height full bytes state in
      render_all pane rendered subscribers (record b { screens = insert pane state' b.screens })

  -- The frame as it reaches the screen subscribers; the emulator of a pane that has none is
  -- dropped.
  unfoldable pub screen_frame :
      PaneId → ℕ → ℕ → Bool → List ℕ → List ClientId → Broker Parser → Reply Parser
  unfolding render_for
  screen_frame pane width height full bytes [] b =
      (record b { screens = remove pane b.screens }, [])
  screen_frame pane width height full bytes (client ∷ clients) b =
      render_for pane width height full bytes (client ∷ clients) b

  unfoldable pub pane_frame : PaneId → ℕ → ℕ → ℕ → Bool → List ℕ → Broker Parser → Reply Parser
  unfolding screen_frame
  pane_frame pane sequence width height full bytes b = elim (lookup pane b.routes) [
    | none ↦ (b, [])
    | some route ↦
        let watching_screen = λ (client : ClientId). is_screen (representation_of b pane client) in
        let screen_subscribers = keep watching_screen (keys route.subscribers) in
        let frame_subscribers =
          keep (λ client. not (watching_screen client)) (keys route.subscribers) in
        let (b1, rendered) = screen_frame pane width height full bytes screen_subscribers b in
        (
          b1,
          map
                (λ client.
                  Effect.send client
                    (ServerMessage.pane_frame pane sequence width height full bytes))
                frame_subscribers
              ++ rendered,
        )
  ]

module _ {Parser : Type 0} where
  unfoldable pub close_if_unclaimed : PaneId → Broker Parser → Reply Parser
  close_if_unclaimed pane b = elim (lookup pane b.routes) [
    | none ↦ (b, [])
    | some route ↦
        if route.unclaimed
        then (
          record b { routes = remove pane b.routes; screens = remove pane b.screens },
          Effect.close_route pane ∷ [],
        )
        else (b, [])
  ]

  -- Each subscriber of a closed route loses its subscription.
  unfoldable pub forget_pane : PaneId → List ClientId → Broker Parser → Broker Parser
  unfolding adjust_client
  forget_pane pane [] b = b
  forget_pane pane (client ∷ clients) b =
      forget_pane pane clients
        (adjust_client client (λ session. record session { panes = remove pane session.panes }) b)

  unfoldable pub pane_route_closed : PaneId → Broker Parser → Reply Parser
  unfolding forget_pane
  pane_route_closed pane b = elim (lookup pane b.routes) [
    | none ↦ (b, [])
    | some route ↦ (
      forget_pane pane (keys route.subscribers)
          (record b { routes = remove pane b.routes; screens = remove pane b.screens }),
      map (λ client. Effect.send client (ServerMessage.pane_closed pane)) (keys route.subscribers),
    )
  ]

  unfoldable pub route_downgraded : PaneId → Broker Parser → Reply Parser
  unfolding set_route surrendered
  route_downgraded pane b = elim (lookup pane b.routes) [
    | none ↦ (b, [])
    | some route ↦
        if not (is_control route.access) && not (is_some route.control) then (b, []) else (
          set_route pane (surrendered route) b,
          map (lease pane observe) (keys route.subscribers),
        )
  ]

  unfoldable pub broadcast_state : ServerMessage → Broker Parser → List Effect
  unfolding clients_where
  broadcast_state message b =
      map (λ client. Effect.send client message)
        (clients_where (λ session. session.state_subscribed) b.clients)

  unfoldable pub agent_cards_updated : AgentCardProjection → Broker Parser → Reply Parser
  unfolding clients_where
  agent_cards_updated projection b = if is_published projection b.agent_cards then (b, []) else (
    record b { agent_cards = some projection },
    map (λ client. Effect.send client (ServerMessage.agent_cards projection))
        (clients_where (λ session. session.agent_cards_subscribed) b.clients),
  )

  unfoldable pub notify_devices : ServerMessage → Broker Parser → List Effect
  unfolding clients_where
  notify_devices message b =
      map (λ client. Effect.send client message)
        (clients_where (λ session. session.notifications_subscribed) b.clients)

  unfoldable pub attention_observed : AttentionEvent → Broker Parser → List Effect
  unfolding broadcast_state
  attention_observed event = broadcast_state (ServerMessage.attention event)

  unfoldable pub attention_changed : List AttentionEvent → Broker Parser → List Effect
  unfolding broadcast_state
  attention_changed events = broadcast_state (ServerMessage.attention_history events)

  unfoldable pub pairing_approval_required : Text → Text → Text → ℕ → Broker Parser → List Effect
  unfolding broadcast_state
  pairing_approval_required attempt name confirmation expires_in_seconds =
      broadcast_state
        (ServerMessage.pairing_approval_required attempt name confirmation expires_in_seconds)

  unfoldable pub pairing_decided : Text → Bool → Text → Broker Parser → List Effect
  unfolding broadcast_state
  pairing_decided attempt approved message =
      broadcast_state (ServerMessage.pairing_decision attempt approved message)

  unfoldable pub operation_completed :
      ClientId → ℕ → Bool → Text → Option PluginRun → Broker Parser → List Effect
  operation_completed client request applied message plugin_run b =
      if has client b.clients
      then Effect.send client (ServerMessage.operation_result request applied message plugin_run)
        ∷ []
      else []
