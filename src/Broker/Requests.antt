-- ===== src/Broker/Requests.antt =====
-- src/daemon/broker.rs: `handle`, what each message of a client does.
use super_herdr.Common.{ℕ, Bool, true, none, some, List, [], ◌∷◌, ◌++◌}
use super_herdr.Common.Tests.{◌==◌, if◌then◌else◌}
use super_herdr.Common.Order.{Text, text, nat_ord}
use super_herdr.Common.Texts.{decimal_digits}
use super_herdr.Common.Maps.{adjust}
use super_herdr.Model.{PaneId, id_ord}
use super_herdr.Protocol.{ClientMessage, ServerMessage, protocol_version}
use super_herdr.Broker.State.{ClientId, Effect, Broker}
use super_herdr.Broker.Leases.{
  Reply, refusal, adjust_client, adjust_subscription, resized, guarded, holds_control,
}

-- `Display` of a `u32`, which has ten digits at most.
unfoldable pub decimal : ℕ → Text
unfolding decimal_digits
decimal n = decimal_digits 10 n

-- An error and the end of the connection.
abbrev pub refuse : ClientId → Text → List Effect
refuse client reason = refusal client reason ∷ Effect.disconnect client reason ∷ []

module _ {Parser : Type 0} where
  abbrev pub server_hello : Broker Parser → ServerMessage
  server_hello b = ServerMessage.hello protocol_version b.server_version b.features b.quick_replies

  -- `handle` before the handshake.
  unfoldable pub greet : ClientId → ClientMessage → Broker Parser → Reply Parser
  unfolding adjust_client decimal
  greet client (ClientMessage.hello protocol name) b =
      if protocol == protocol_version
      then (
        adjust_client client (λ session. record session { greeted = true }) b,
        Effect.send client (server_hello b) ∷ [],
      )
      else (
        b,
        refuse client (
            text "protocol "
            ++ (decimal protocol
                ++ (text " is not supported; this daemon speaks " ++ decimal protocol_version))),
      )
  greet client _ b = (b, refuse client (text "the first message must be client.hello"))

  unfoldable pub subscribe_state : ClientId → Broker Parser → Reply Parser
  unfolding adjust_client
  subscribe_state client b = (
    adjust_client client (λ session. record session { state_subscribed = true }) b,
    Effect.send client (ServerMessage.federation_state b.state)
        ∷ Effect.send_attention_history client
        ∷ [],
  )

  unfoldable pub set_notifications : Bool → ClientId → Broker Parser → Reply Parser
  unfolding adjust_client
  set_notifications wanted client b =
      (adjust_client client (λ session. record session { notifications_subscribed = wanted }) b, [])

  unfoldable pub subscribe_agent_cards : ClientId → Broker Parser → Reply Parser
  unfolding adjust_client
  subscribe_agent_cards client b = (
    adjust_client client (λ session. record session { agent_cards_subscribed = true }) b,
    elim b.agent_cards [
      | none ↦ []
      | some projection ↦ Effect.send client (ServerMessage.agent_cards projection) ∷ []
    ],
  )

  unfoldable pub pane_resize : ClientId → PaneId → ℕ → ℕ → Broker Parser → Reply Parser
  unfolding holds_control adjust_subscription resized guarded
  pane_resize client pane cols rows b =
      let b1 = adjust_subscription client pane (λ sub. record sub { cols = cols; rows = rows }) b in
      let effects = guarded b client pane (Effect.route_resize pane cols rows ∷ []) in
      if holds_control b client pane
      then (record b1 { routes = adjust pane (resized cols rows) b.routes }, effects)
      else (b, effects)
