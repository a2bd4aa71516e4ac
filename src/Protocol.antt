-- ===== src/Protocol.antt =====
-- src/protocol.rs: the messages between a client and the daemon. Their JSON form is the work of
-- serde and is not modelled.
use super_herdr.Common.{ℕ, Bool, Option, List}
use super_herdr.Common.Order.{Text}
use super_herdr.Model.{TargetSession, PaneId, AgentId}
use super_herdr.Screen.{Snapshot, Diff}
use super_herdr.Federation.{FederationState, TargetRuntimeState}
use super_herdr.Payloads.{
  TerminalAccess, TerminalScrollDirection, AgentMarkRequest, AgentCardProjection, PluginRunId,
  PluginRun, PluginAction, RemoteListing, Operation, ResourceRef, QuickReply, AttentionEvent,
}

abbrev pub protocol_version : ℕ
protocol_version = 3

pub data PaneRepresentation : Type 0 where
  frames screen : PaneRepresentation

pub data ClientMessage : Type 0 where
  hello : (protocol : ℕ) (client : Text) → ClientMessage
  subscribe_state : ClientMessage
  subscribe_pane :
      (pane : PaneId) (access : TerminalAccess) (cols rows : ℕ)
      (representation : PaneRepresentation)
      → ClientMessage
  ack_pane_screen : (pane : PaneId) (sequence : ℕ) → ClientMessage
  unsubscribe_pane : (pane : PaneId) → ClientMessage
  take_pane_control : (pane : PaneId) (only_if_free : Bool) → ClientMessage
  pane_input : (pane : PaneId) (bytes : List ℕ) → ClientMessage
  pane_resize : (pane : PaneId) (cols rows : ℕ) → ClientMessage
  pane_scroll :
      (pane : PaneId) (direction : TerminalScrollDirection) (lines column row modifiers : ℕ)
      → ClientMessage
  run_operation : (request : ℕ) (operation : Operation) → ClientMessage
  list_plugin_actions : (request : ℕ) (target : TargetSession) → ClientMessage
  get_plugin_run : (request : ℕ) (run : PluginRunId) → ClientMessage
  paste_pane_text : (request : ℕ) (pane : PaneId) (body : Text) → ClientMessage
  begin_upload :
      (request : ℕ) (pane : PaneId) (mime : Text) (name : Option Text) (size : ℕ) → ClientMessage
  resume_upload : (request : ℕ) (transfer : Text) (pane : PaneId) (size : ℕ) → ClientMessage
  upload_chunk : (request : ℕ) (bytes : List ℕ) → ClientMessage
  finish_upload : (request : ℕ) (digest : Text) → ClientMessage
  cancel_upload : (request : ℕ) → ClientMessage
  begin_download : (request : ℕ) (pane : PaneId) (path : Text) → ClientMessage
  pull_download : (request chunks : ℕ) → ClientMessage
  cancel_download : (request : ℕ) → ClientMessage
  transfer_between :
      (request : ℕ) (source : PaneId) (path : Text) (destination : PaneId) (name : Option Text)
      → ClientMessage
  mark_attention_seen : (pane : PaneId) → ClientMessage
  mark_all_attention_seen : ClientMessage
  request_pairing_code : (request : ℕ) → ClientMessage
  decide_pairing : (attempt : Text) (approve : Bool) → ClientMessage
  clear_seen_attention : ClientMessage
  subscribe_agent_cards : ClientMessage
  mark_agent : (request : ℕ) (agent : AgentId) (mark : AgentMarkRequest) → ClientMessage
  subscribe_notifications : ClientMessage
  unsubscribe_notifications : ClientMessage
  list_remote_directory : (request : ℕ) (target : TargetSession) (root path : Text) → ClientMessage
  name_resource :
      (request : ℕ) (resource : ResourceRef) (label : Option Text) (observed : Text) → ClientMessage
  confirm_resource_name : (request : ℕ) (resource : ResourceRef) (observed : Text) → ClientMessage
  favourite_resource : (request : ℕ) (resource : ResourceRef) → ClientMessage
  set_jump_slot : (request slot : ℕ) (resource : Option ResourceRef) → ClientMessage
  search_remote_files :
      (request : ℕ) (target : TargetSession) (root query : Text) (glob : Bool) → ClientMessage

pub data ServerMessage : Type 0 where
  hello :
      (protocol : ℕ) (server_version : Text) (features : List Text)
      (quick_replies : List QuickReply)
      → ServerMessage
  federation_state : (state : FederationState) → ServerMessage
  target_state : (target : TargetSession) (state : Option TargetRuntimeState) → ServerMessage
  pane_frame :
      (pane : PaneId) (sequence width height : ℕ) (full : Bool) (bytes : List ℕ) → ServerMessage
  pane_screen : (pane : PaneId) (screen : Snapshot) → ServerMessage
  pane_screen_diff : (pane : PaneId) (diff : Diff) → ServerMessage
  pane_closed : (pane : PaneId) → ServerMessage
  pane_lease : (pane : PaneId) (access : TerminalAccess) → ServerMessage
  operation_result :
      (request : ℕ) (applied : Bool) (message : Text) (plugin_run : Option PluginRun)
      → ServerMessage
  plugin_actions :
      (request : ℕ) (target : TargetSession) (generation : ℕ) (actions : List PluginAction)
      → ServerMessage
  plugin_run : (request : ℕ) (run : PluginRun) → ServerMessage
  agent_cards : (projection : AgentCardProjection) → ServerMessage
  remote_files : (request : ℕ) (target : TargetSession) (listing : RemoteListing) → ServerMessage
  notification : (agent : AgentId) (title body : Text) → ServerMessage
  pairing_code :
      (request : ℕ) (code : Text) (expires_in_seconds : ℕ) (url : Option Text) → ServerMessage
  pairing_approval_required :
      (attempt name confirmation : Text) (expires_in_seconds : ℕ) → ServerMessage
  pairing_decision : (attempt : Text) (approved : Bool) (message : Text) → ServerMessage
  upload_accepted : (request : ℕ) (transfer : Text) (staged : ℕ) → ServerMessage
  upload_interrupted : (request : ℕ) (transfer : Text) (staged : ℕ) → ServerMessage
  download_offer : (request : ℕ) (name : Text) (size : ℕ) (digest : Text) → ServerMessage
  download_chunk : (request : ℕ) (bytes : List ℕ) → ServerMessage
  download_finished : (request : ℕ) → ServerMessage
  upload_complete : (request : ℕ) (path : Text) (bytes : ℕ) → ServerMessage
  attention : (event : AttentionEvent) → ServerMessage
  attention_history : (events : List AttentionEvent) → ServerMessage
  error : (request : Option ℕ) (message : Text) → ServerMessage
