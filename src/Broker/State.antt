-- ===== src/Broker/State.antt =====
-- src/daemon/broker.rs: what the broker holds, and the effects that it asks for. `Arc<[u8]>` is
-- the list of its bytes.
use super_herdr.Common.{ℕ, Bool, false, Option, none, List, []}
use super_herdr.Common.Order.{Text}
use super_herdr.Common.Maps.{Map, Set}
use super_herdr.Model.{TargetSession, PaneId, AgentId}
use super_herdr.Screen.{Snapshot, Diff}
use super_herdr.Federation.{FederationState}
use super_herdr.Payloads.{
  TerminalAccess, TerminalScrollDirection, AgentMarkRequest, AgentCardProjection, PluginRunId,
  Operation, ResourceRef, QuickReply,
}
use super_herdr.Protocol.{PaneRepresentation, ServerMessage}

abbrev pub ClientId : Type 0
ClientId = ℕ

pub data LocalChange : Type 0 where
  name : (resource : ResourceRef) (label : Option Text) (observed : Text) → LocalChange
  confirm_name : (resource : ResourceRef) (observed : Text) → LocalChange
  favourite : (resource : ResourceRef) → LocalChange
  slot : (slot : ℕ) (resource : Option ResourceRef) → LocalChange

pub data Effect : Type 0 where
  send : (client : ClientId) (message : ServerMessage) → Effect
  disconnect : (client : ClientId) (reason : Text) → Effect
  open_route : (pane : PaneId) (access : TerminalAccess) (cols rows : ℕ) → Effect
  close_route : (pane : PaneId) → Effect
  route_unclaimed : (pane : PaneId) → Effect
  route_input : (pane : PaneId) (bytes : List ℕ) → Effect
  route_resize : (pane : PaneId) (cols rows : ℕ) → Effect
  route_scroll :
      (pane : PaneId) (direction : TerminalScrollDirection) (lines column row modifiers : ℕ)
      → Effect
  run_operation : (client : ClientId) (request : ℕ) (operation : Operation) → Effect
  list_plugin_actions : (client : ClientId) (request : ℕ) (target : TargetSession) → Effect
  get_plugin_run : (client : ClientId) (request : ℕ) (run : PluginRunId) → Effect
  paste_pane_text : (client : ClientId) (request : ℕ) (pane : PaneId) (body : Text) → Effect
  begin_upload :
      (client : ClientId) (request : ℕ) (pane : PaneId) (mime : Text) (name : Option Text)
      (size : ℕ)
      → Effect
  resume_upload :
      (client : ClientId) (request : ℕ) (transfer : Text) (pane : PaneId) (size : ℕ) → Effect
  upload_chunk : (client : ClientId) (request : ℕ) (bytes : List ℕ) → Effect
  finish_upload : (client : ClientId) (request : ℕ) (digest : Text) → Effect
  cancel_upload : (client : ClientId) (request : ℕ) → Effect
  begin_download : (client : ClientId) (request : ℕ) (pane : PaneId) (path : Text) → Effect
  pull_download : (client : ClientId) (request chunks : ℕ) → Effect
  cancel_download : (client : ClientId) (request : ℕ) → Effect
  transfer_between :
      (client : ClientId) (request : ℕ) (source : PaneId) (path : Text) (destination : PaneId)
      (name : Option Text)
      → Effect
  mark_agent :
      (client : ClientId) (request : ℕ) (agent : AgentId) (mark : AgentMarkRequest) → Effect
  local_naming : (client : ClientId) (request : ℕ) (change : LocalChange) → Effect
  list_remote_directory :
      (client : ClientId) (request : ℕ) (target : TargetSession) (root path : Text) → Effect
  search_remote_files :
      (client : ClientId) (request : ℕ) (target : TargetSession) (root query : Text) (glob : Bool)
      → Effect
  mark_attention_seen : (pane : PaneId) → Effect
  mark_all_attention_seen : Effect
  clear_seen_attention : Effect
  issue_pairing_code : (client : ClientId) (request : ℕ) → Effect
  decide_pairing : (attempt : Text) (approve : Bool) → Effect
  send_attention_history : (client : ClientId) → Effect

pub record PaneSubscription : Type 0 where
  pub requested : TerminalAccess
  pub cols : ℕ
  pub rows : ℕ
  pub representation : PaneRepresentation
  pub sent : Option ℕ
  -- Oldest first.
  pub outstanding : List ℕ

pub record Route : Type 0 where
  pub access : TerminalAccess
  pub cols : ℕ
  pub rows : ℕ
  pub control : Option ClientId
  pub subscribers : Set ClientId
  pub unclaimed : Bool

pub record Client : Type 0 where
  pub greeted : Bool
  pub state_subscribed : Bool
  pub agent_cards_subscribed : Bool
  pub notifications_subscribed : Bool
  pub panes : Map PaneId PaneSubscription

-- `Client::new`.
abbrev pub new_client : Client
new_client = record {
  greeted = false;
  state_subscribed = false;
  agent_cards_subscribed = false;
  notifications_subscribed = false;
  panes = [];
}

abbrev pub max_outstanding_screen_updates : ℕ
max_outstanding_screen_updates = 4

pub record ScreenState (Parser : Type 0) : Type 0 where
  pub parser : Parser
  pub last : Snapshot

pub record Rendered : Type 0 where
  pub screen : Snapshot
  pub diff : Option Diff
  pub changed : Bool

pub record Broker (Parser : Type 0) : Type 0 where
  pub server_version : Text
  pub features : List Text
  pub quick_replies : List QuickReply
  pub clients : Map ClientId Client
  pub routes : Map PaneId Route
  pub screens : Map PaneId (ScreenState Parser)
  pub state : FederationState
  pub agent_cards : Option AgentCardProjection
  pub next_client : ℕ

-- `Broker::new`.
unfoldable pub new : (Parser : Type 0) → Text → List Text → List QuickReply → Broker Parser
new Parser server_version features quick_replies = record {
  server_version = server_version;
  features = features;
  quick_replies = quick_replies;
  clients = [];
  routes = [];
  screens = [];
  state = record { revision = 0; targets = [] };
  agent_cards = none;
  next_client = 0;
}
