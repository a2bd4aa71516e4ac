-- ===== src/Payloads.antt =====
-- What the messages carry: src/agent_card.rs (the inbox), src/agent_marks.rs (marks),
-- src/operation.rs, src/plugin.rs, src/aliases.rs (references to resources), src/remote_files.rs,
-- src/attention.rs (events), src/config.rs (quick replies) and src/terminal.rs.
use super_herdr.Common.{ℕ, Bool, Option, List, ℕ_discrete}
use super_herdr.Common.Order.{Text, text_ord}
use super_herdr.Model.{TargetSession, WorkspaceId, TabId, PaneId, AgentId, id_ord, QualifiedId}

pub data TerminalAccess : Type 0 where
  observe control : TerminalAccess

unfoldable pub access_same : Discrete TerminalAccess
access_same = hlevel

pub data TerminalScrollDirection : Type 0 where
  up down : TerminalScrollDirection

pub data NotifyMode : Type 0 where
  default needs_you_only : NotifyMode

pub record AgentMarkState : Type 0 where
  pub pinned : Bool
  pub muted : Bool
  pub snoozed_until_ms : Option ℕ
  pub notify : NotifyMode

unfoldable pub mark_state_same : Discrete AgentMarkState
mark_state_same = hlevel ℕ_discrete

pub data AgentMarkRequest : Type 0 where
  pin : Bool → AgentMarkRequest
  mute : Bool → AgentMarkRequest
  snooze : Option ℕ → AgentMarkRequest
  notify : NotifyMode → AgentMarkRequest

pub data AgentActivity : Type 0 where
  needs_input working idle unknown gone : AgentActivity

pub data AgentCardSection : Type 0 where
  needs_you working recent : AgentCardSection

pub record AgentCard : Type 0 where
  pub agent : AgentId
  pub pane : Option PaneId
  pub title : Text
  pub workspace : Text
  pub tab : Text
  pub pane_label : Text
  pub provider : Option Text
  pub activity : AgentActivity
  pub status : Text
  pub section : AgentCardSection
  pub unread : Bool
  pub stale : Bool
  pub actionable : Bool
  pub last_change_ms : Option ℕ
  pub marks : AgentMarkState
  pub alias : Option Text
  pub alias_suspended : Bool
  pub favourite : Bool

pub record AgentCardProjection : Type 0 where
  pub version : ℕ
  pub revision : ℕ
  pub needs_you : List AgentCard
  pub working : List AgentCard
  pub recent : List AgentCard

id_same : Discrete QualifiedId
id_same = id_ord.same

card_same : Discrete AgentCard
card_same = hlevel (id_same, text_ord.same, ℕ_discrete, mark_state_same)

pub projection_same : Discrete AgentCardProjection
projection_same = hlevel (card_same, ℕ_discrete)

pub data SplitDirection : Type 0 where
  right down : SplitDirection

pub record PluginActionId : Type 0 where
  pub target : TargetSession
  pub plugin_id : Text
  pub action_id : Text

pub data PluginInvocationTarget : Type 0 where
  session : TargetSession → PluginInvocationTarget
  workspace : WorkspaceId → PluginInvocationTarget
  tab : TabId → PluginInvocationTarget
  pane : PaneId → PluginInvocationTarget

pub record PluginRunId : Type 0 where
  pub target : TargetSession
  pub plugin_id : Text
  pub log_id : Text

pub data PluginRunStatus : Type 0 where
  running succeeded failed : PluginRunStatus

pub record PluginRun : Type 0 where
  pub id : PluginRunId
  pub action_id : Option Text
  pub status : PluginRunStatus

pub data PluginActionContext : Type 0 where
  global workspace tab pane selection unsupported : PluginActionContext

pub record PluginAction : Type 0 where
  pub id : PluginActionId
  pub title : Text
  pub description : Option Text
  pub contexts : List PluginActionContext

pub data RemoteEntryKind : Type 0 where
  directory file other : RemoteEntryKind

pub record RemoteEntry : Type 0 where
  pub name : Text
  pub kind : RemoteEntryKind

pub record RemoteListing : Type 0 where
  pub root : Text
  pub path : Text
  pub entries : List RemoteEntry
  pub truncated : Bool

pub data Operation : Type 0 where
  create_workspace : TargetSession → Text → Operation
  rename_workspace : WorkspaceId → Text → Operation
  close_workspace : WorkspaceId → Operation
  move_workspace : WorkspaceId → WorkspaceId → Operation
  recreate_workspace : WorkspaceId → TargetSession → Option Text → Operation
  create_tab : WorkspaceId → Operation
  rename_tab : TabId → Text → Operation
  close_tab : TabId → Operation
  split_pane : PaneId → SplitDirection → Operation
  toggle_pane_zoom : PaneId → Operation
  close_pane : PaneId → Operation
  invoke_plugin_action : PluginActionId → PluginInvocationTarget → Text → Operation

pub data ResourceRef : Type 0 where
  target : TargetSession → ResourceRef
  workspace : WorkspaceId → ResourceRef
  tab : TabId → ResourceRef
  pane : PaneId → ResourceRef
  agent : AgentId → ResourceRef

pub record QuickReply : Type 0 where
  pub label : Text
  pub send : Text
  pub submit : Bool
  pub confirm : Bool

pub data AttentionEventKind : Type 0 where
  needs_attention working completed status_changed disappeared : AttentionEventKind

pub record AttentionEvent : Type 0 where
  pub id : ℕ
  pub pane : PaneId
  pub agent : Text
  pub workspace : Text
  pub status : Text
  pub kind : AttentionEventKind
  pub occurred_at_ms : ℕ
  pub unread : Bool
