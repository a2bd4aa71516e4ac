-- ===== src/Broker/Handle.antt =====
-- src/daemon/broker.rs: `handle` after the handshake, one clause for each message.
use super_herdr.Common.{true, false, none, some, List, [], ◌∷◌}
use super_herdr.Common.Tests.{if◌then◌else◌}
use super_herdr.Common.Order.{text, nat_ord}
use super_herdr.Common.Maps.{lookup}
use super_herdr.Protocol.{ClientMessage}
use super_herdr.Broker.State.{ClientId, Effect, LocalChange, Broker}
use super_herdr.Broker.Leases.{Reply, guarded, subscribe_pane}
use super_herdr.Broker.Control.{take_control, unsubscribe_pane}
use super_herdr.Broker.Screens.{ack_pane_screen}
use super_herdr.Broker.Requests.{
  refuse, greet, subscribe_state, set_notifications, subscribe_agent_cards, pane_resize,
}

-- The requests that need no lease: `handle` passes them on, and they change nothing here.
unfoldable pub forwarded : ClientId → ClientMessage → List Effect
forwarded c (ClientMessage.run_operation request operation) =
    Effect.run_operation c request operation ∷ []
forwarded c (ClientMessage.list_plugin_actions request target) =
    Effect.list_plugin_actions c request target ∷ []
forwarded c (ClientMessage.get_plugin_run request run) = Effect.get_plugin_run c request run ∷ []
forwarded c (ClientMessage.upload_chunk request bytes) = Effect.upload_chunk c request bytes ∷ []
forwarded c (ClientMessage.finish_upload request digest) =
    Effect.finish_upload c request digest ∷ []
forwarded c (ClientMessage.cancel_upload request) = Effect.cancel_upload c request ∷ []
forwarded c (ClientMessage.pull_download request chunks) =
    Effect.pull_download c request chunks ∷ []
forwarded c (ClientMessage.cancel_download request) = Effect.cancel_download c request ∷ []
forwarded c (ClientMessage.mark_agent request agent mark) =
    Effect.mark_agent c request agent mark ∷ []
forwarded c (ClientMessage.list_remote_directory request target root path) =
    Effect.list_remote_directory c request target root path ∷ []
forwarded c (ClientMessage.search_remote_files request target root query glob) =
    Effect.search_remote_files c request target root query glob ∷ []
forwarded c (ClientMessage.name_resource request resource label observed) =
    Effect.local_naming c request (LocalChange.name resource label observed) ∷ []
forwarded c (ClientMessage.confirm_resource_name request resource observed) =
    Effect.local_naming c request (LocalChange.confirm_name resource observed) ∷ []
forwarded c (ClientMessage.favourite_resource request resource) =
    Effect.local_naming c request (LocalChange.favourite resource) ∷ []
forwarded c (ClientMessage.set_jump_slot request slot resource) =
    Effect.local_naming c request (LocalChange.slot slot resource) ∷ []
forwarded c (ClientMessage.mark_attention_seen pane) = Effect.mark_attention_seen pane ∷ []
forwarded c ClientMessage.mark_all_attention_seen = Effect.mark_all_attention_seen ∷ []
forwarded c ClientMessage.clear_seen_attention = Effect.clear_seen_attention ∷ []
forwarded c (ClientMessage.request_pairing_code request) = Effect.issue_pairing_code c request ∷ []
forwarded c (ClientMessage.decide_pairing attempt approve) =
    Effect.decide_pairing attempt approve ∷ []
forwarded c _ = []

module _ {Parser : Type 0} where
  -- The requests that need the lease of a pane, but for `pane_resize`: a refusal, or the effect.
  unfoldable pub leased : ClientId → ClientMessage → Broker Parser → List Effect
  unfolding guarded forwarded
  leased c (ClientMessage.pane_input pane bytes) b =
      guarded b c pane (Effect.route_input pane bytes ∷ [])
  leased c (ClientMessage.pane_scroll pane direction lines column row modifiers) b =
      guarded b c pane (Effect.route_scroll pane direction lines column row modifiers ∷ [])
  leased c (ClientMessage.paste_pane_text request pane body) b =
      guarded b c pane (Effect.paste_pane_text c request pane body ∷ [])
  leased c (ClientMessage.begin_upload request pane mime name size) b =
      guarded b c pane (Effect.begin_upload c request pane mime name size ∷ [])
  leased c (ClientMessage.resume_upload request transfer pane size) b =
      guarded b c pane (Effect.resume_upload c request transfer pane size ∷ [])
  leased c (ClientMessage.begin_download request pane path) b =
      guarded b c pane (Effect.begin_download c request pane path ∷ [])
  leased c (ClientMessage.transfer_between request source path destination name) b =
      guarded b c source (
        guarded b c destination
          (Effect.transfer_between c request source path destination name ∷ []))
  leased c message b = forwarded c message

  unfoldable pub serve : ClientId → ClientMessage → Broker Parser → Reply Parser
  unfolding leased
  serve c (ClientMessage.hello protocol name) b =
      (b, refuse c (text "client.hello was already accepted on this connection"))
  serve c ClientMessage.subscribe_state b = subscribe_state c b
  serve c ClientMessage.subscribe_notifications b = set_notifications true c b
  serve c ClientMessage.unsubscribe_notifications b = set_notifications false c b
  serve c ClientMessage.subscribe_agent_cards b = subscribe_agent_cards c b
  serve c (ClientMessage.subscribe_pane pane access cols rows representation) b =
      subscribe_pane c pane access cols rows representation b
  serve c (ClientMessage.ack_pane_screen pane sequence) b = ack_pane_screen c pane sequence b
  serve c (ClientMessage.unsubscribe_pane pane) b = unsubscribe_pane c pane b
  serve c (ClientMessage.take_pane_control pane only_if_free) b = take_control c pane only_if_free b
  serve c (ClientMessage.pane_resize pane cols rows) b = pane_resize c pane cols rows b
  serve c message b = (b, leased c message b)

  unfoldable pub handle : ClientId → ClientMessage → Broker Parser → Reply Parser
  unfolding greet serve
  handle c message b = elim (lookup c b.clients) [
    | none ↦ (b, [])
    | some session ↦ if session.greeted then serve c message b else greet c message b
  ]
