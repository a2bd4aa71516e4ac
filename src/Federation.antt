-- ===== src/Federation.antt =====
-- The data that the daemon passes on: src/state.rs (the federation and its snapshots),
-- src/agent_card.rs (the inbox), src/agent_marks.rs (marks), src/operation.rs, src/plugin.rs,
-- src/aliases.rs (references to resources) and src/config.rs (quick replies). Times of the
-- standard library are numbers.
pub mod Reducers
use super_herdr.Common.{ℕ, Bool, true, false, ◌||◌, Option, List, ite, ℕ_discrete}
use super_herdr.Common.Order.{Text, text_ord, list_same}
use super_herdr.Common.Maps.{Map, Set}
use super_herdr.Model.{
  TargetSession, QualifiedId, WorkspaceId, TabId, PaneId, TerminalId, session_ord, id_ord,
}

pub record ResourceCounts : Type 0 where
  pub workspaces : ℕ
  pub tabs : ℕ
  pub panes : ℕ
  pub agents : ℕ

pub record WorkspaceState : Type 0 where
  pub id : WorkspaceId
  pub active_tab : Option TabId
  pub label : Option Text
  pub number : Option ℕ
  pub focused : Bool
  pub agent_status : Option Text

pub record TabState : Type 0 where
  pub id : TabId
  pub workspace : Option WorkspaceId
  pub label : Option Text
  pub number : Option ℕ
  pub focused : Bool
  pub agent_status : Option Text

pub record PaneState : Type 0 where
  pub id : PaneId
  pub workspace : Option WorkspaceId
  pub tab : Option TabId
  pub terminal : Option TerminalId
  pub label : Option Text
  pub focused : Bool
  pub agent : Option Text
  pub agent_status : Option Text
  pub revision : Option ℕ

pub record LayoutRect : Type 0 where
  pub x : ℕ
  pub y : ℕ
  pub width : ℕ
  pub height : ℕ

pub record LayoutPane : Type 0 where
  pub pane : PaneId
  pub focused : Bool
  pub rect : LayoutRect

pub record LayoutState : Type 0 where
  pub workspace : WorkspaceId
  pub tab : TabId
  pub zoomed : Bool
  pub area : LayoutRect
  pub focused_pane : PaneId
  pub panes : List LayoutPane

pub record AgentSessionRef : Type 0 where
  pub source : Text
  pub agent : Text
  pub kind : Text
  pub value : Text

pub record AgentState : Type 0 where
  pub pane : PaneId
  pub name : Option Text
  pub agent : Option Text
  pub status : Option Text
  pub interactive_ready : Option Bool
  pub revision : Option ℕ
  pub session : Option AgentSessionRef

pub record NormalizedSnapshot : Type 0 where
  pub server_version : Option Text
  pub protocol : Option ℕ
  pub revision : Option ℕ
  pub capabilities : Set Text
  pub counts : ResourceCounts
  pub focused_workspace : Option WorkspaceId
  pub focused_tab : Option TabId
  pub focused_pane : Option PaneId
  pub workspaces : Map WorkspaceId WorkspaceState
  pub tabs : Map TabId TabState
  pub panes : Map PaneId PaneState
  pub layouts : Map TabId LayoutState
  pub agents : Map PaneId AgentState
  pub terminals : Set TerminalId

pub data TargetConnectionState : Type 0 where
  connecting live : TargetConnectionState
  backoff : ℕ → TargetConnectionState
  incompatible : TargetConnectionState

pub data TargetUpdateMode : Type 0 where
  polling events : TargetUpdateMode

pub record TargetRuntimeState : Type 0 where
  pub key : TargetSession
  pub endpoint : Text
  pub connection : TargetConnectionState
  pub update_mode : TargetUpdateMode
  pub event_error : Option Text
  pub connection_generation : ℕ
  pub selected_herdr_bin : Option Text
  pub roots : List Text
  pub snapshot : Option NormalizedSnapshot
  pub last_error : Option Text
  pub last_success : Option ℕ
  pub retry_at : Option ℕ

pub record FederationState : Type 0 where
  pub revision : ℕ
  pub targets : Map TargetSession TargetRuntimeState

session_same : Discrete TargetSession
session_same = session_ord.same

id_same : Discrete QualifiedId
id_same = id_ord.same

workspace_same : Discrete WorkspaceState
workspace_same = hlevel (id_same, text_ord.same, ℕ_discrete)

tab_same : Discrete TabState
tab_same = hlevel (id_same, text_ord.same, ℕ_discrete)

pane_same : Discrete PaneState
pane_same = hlevel (id_same, text_ord.same, ℕ_discrete)

rect_same : Discrete LayoutRect
rect_same = hlevel ℕ_discrete

layout_pane_same : Discrete LayoutPane
layout_pane_same = hlevel (id_same, rect_same)

layout_same : Discrete LayoutState
layout_same = hlevel (id_same, rect_same, list_same layout_pane_same)

agent_session_same : Discrete AgentSessionRef
agent_session_same = hlevel (text_ord.same)

agent_same : Discrete AgentState
agent_same = hlevel (id_same, text_ord.same, ℕ_discrete, agent_session_same)

counts_same : Discrete ResourceCounts
counts_same = hlevel ℕ_discrete

-- The derived `PartialEq`.
pub snapshot_same : Discrete NormalizedSnapshot
snapshot_same = hlevel (
  id_same, text_ord.same, ℕ_discrete, counts_same, workspace_same, tab_same, pane_same, layout_same,
  agent_same,
)

unfoldable pub connection_same : Discrete TargetConnectionState
connection_same = hlevel ℕ_discrete

-- Whether two values of a decidable type differ.
abbrev pub differs {ℓ} : {A : Type ℓ} → Discrete A → A → A → Bool
differs same a b = ite (same a b) false true

unfoldable pub update_mode_same : Discrete TargetUpdateMode
update_mode_same = hlevel

unfoldable pub optional_text_same : Discrete (Option Text)
optional_text_same = hlevel (text_ord.same)

optional_snapshot_same : Discrete (Option NormalizedSnapshot)
optional_snapshot_same = hlevel snapshot_same

-- `last_success` and `retry_at` take no part.
pub differs_for_clients : TargetRuntimeState → TargetRuntimeState → Bool
differs_for_clients a b =
    differs session_same a.key b.key
    || (differs text_ord.same a.endpoint b.endpoint
        || (differs connection_same a.connection b.connection
            || (differs update_mode_same a.update_mode b.update_mode
                || (differs optional_text_same a.event_error b.event_error
                    || (differs ℕ_discrete a.connection_generation b.connection_generation
                        || (differs optional_text_same a.selected_herdr_bin b.selected_herdr_bin
                            || (differs (list_same text_ord.same) a.roots b.roots
                                || (differs optional_snapshot_same a.snapshot b.snapshot
                                    || differs optional_text_same a.last_error b.last_error))))))))
