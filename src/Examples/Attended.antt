-- ===== src/Examples/Attended.antt =====
-- The theorems on attention, on one agent that stops to ask.
use super_herdr.Common.{
  ℕ, ◌*◌, ◌≡◌, refl, true, false, ◌||◌, none, some, [], ◌∷◌, arith, ℕ_discrete,
}
use super_herdr.Common.Tests.{if◌then◌else◌, ltb}
use super_herdr.Common.Lists.{length}
use super_herdr.Common.Order.{text, key_same, list_same}
use super_herdr.Common.Maps.{lookup, insert, has}
use super_herdr.Model.{PaneId, TargetSession, target_session, id_ord, session_ord}
use super_herdr.Federation.{
  NormalizedSnapshot, AgentState, FederationState, live, polling, connection_same,
}
use super_herdr.Payloads.{AttentionEvent, needs_attention}
use super_herdr.Attention.{
  AttentionIndex, agent_phase, observe, apply, is_unconfigured, has_disappeared, restore, persisted,
  loaded, refused, too_many_observations,
}
use super_herdr.Attention.Numbering.{IsNumbered}
use super_herdr.Attention.Growth.{observe-IsNumbered}
use super_herdr.Attention.Mirror.{apply-IsNumbered}
use super_herdr.Attention.Memory.{IsView, shown, view_of, observations-observe}
use super_herdr.Attention.Reload.{restore-persisted}

abbrev pub session_one : TargetSession
session_one = record { target = text "host"; session = text "main" }

abbrev pane_one : PaneId
pane_one = record { target = text "host"; session = text "main"; resource = text "p1" }

abbrev agent_one : AgentState
agent_one = record {
  pane = pane_one;
  name = some (text "builder");
  agent = none;
  status = some (text "Waiting");
  interactive_ready = none;
  revision = none;
  session = none;
}

abbrev pub snapshot_one : NormalizedSnapshot
snapshot_one = record {
  server_version = none;
  protocol = none;
  revision = none;
  capabilities = [];
  counts = record { workspaces = 0; tabs = 0; panes = 0; agents = 1 };
  focused_workspace = none;
  focused_tab = none;
  focused_pane = none;
  workspaces = [];
  tabs = [];
  panes = [];
  layouts = [];
  agents = (pane_one, agent_one) ∷ [];
  terminals = [];
}

-- A target that is live, whose one agent waits for input.
abbrev waiting : FederationState
waiting = record {
  revision = 3;
  targets =
      (
        session_one,
        record {
          key = session_one;
          endpoint = text "host";
          connection = live;
          update_mode = polling;
          event_error = none;
          connection_generation = 1;
          selected_herdr_bin = none;
          roots = [];
          snapshot = some snapshot_one;
          last_error = none;
          last_success = none;
          retry_at = none;
        },
      )
      ∷ [];
}

abbrev event_four : AttentionEvent
event_four = record {
  id = 4;
  pane = pane_one;
  agent = text "builder";
  workspace = text "unassigned";
  status = text "Waiting";
  kind = needs_attention;
  occurred_at_ms = 40;
  unread = true;
}

-- The agent worked when it was last seen, and has one unread event.
abbrev before : AttentionIndex
before = record {
  next_event_id = 5;
  observations =
      (
        pane_one,
        record {
          pane = pane_one;
          agent = text "builder";
          workspace = text "unassigned";
          status = text "working";
          interactive_ready = false;
        },
      )
      ∷ [];
  events = event_four ∷ [];
}

before-IsNumbered : IsNumbered before
before-IsNumbered = record { rising = (tt, tt); below = (omega arith, tt); bounded = omega arith }

before-IsView : IsView before.observations
before-IsView = ((tt, tt), (refl, tt))

abbrev clock : ℕ → ℕ
clock id = 10 * id

next_after_observe : (observe clock waiting before).0.next_event_id ≡ 6
unfolding observe lookup insert has ℕ_discrete key_same list_same id_ord session_ord connection_same
    agent_phase target_session
next_after_observe = refl

observe-IsNumbered_example : IsNumbered (observe clock waiting before).0
observe-IsNumbered_example =
    observe-IsNumbered clock waiting before (omega arith) (omega (arith, next_after_observe))
      before-IsNumbered

apply-IsNumbered_example : IsNumbered (apply (record event_four { id = 9 }) before).0
apply-IsNumbered_example =
    apply-IsNumbered (record event_four { id = 9 }) before (omega arith) before-IsNumbered

observations-observe_example : lookup pane_one (observe clock waiting before).0.observations ≡ (
    if is_unconfigured waiting pane_one
      || has_disappeared (view_of waiting).0 (view_of waiting).1 pane_one
    then none
    else shown (lookup pane_one (view_of waiting).0) (lookup pane_one before.observations))
observations-observe_example = observations-observe clock waiting before pane_one

restore-persisted_example : restore (persisted before) ≡ (
    if ltb 4096 (length before.observations) then refused too_many_observations else loaded before)
restore-persisted_example = restore-persisted before before-IsNumbered (omega arith) before-IsView
