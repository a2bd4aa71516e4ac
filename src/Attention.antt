-- ===== src/Attention.antt =====
-- src/attention.rs: the index of what agents did, from one state of the federation to the next. The
-- time of an event is read from a clock that is a parameter: `clock id` is what it shows when the
-- event numbered `id` is pushed. The file that holds the index is left out, but for what it lists.
pub mod Numbering
pub mod Growth
pub mod Memory
pub mod Reload
pub mod Reading
pub mod Mirror
use super_herdr.Common.{
  ℕ, ◌-◌, max, Bool, true, false, not, ◌&&◌, ◌||◌, Option, none, some, List, [], ◌∷◌, ◌++◌, map,
  ite, ℕ_discrete,
}
use super_herdr.Common.Tests.{ltb, leb, ◌==◌, if◌then◌else◌, is_some, saturating_add}
use super_herdr.Common.Lists.{length, drop, keep, any}
use super_herdr.Common.Order.{Text, text, text_ord}
use super_herdr.Common.Texts.{to_ascii_lowercase, bounded_metadata}
use super_herdr.Common.Maps.{Map, Set, keys, values, lookup, insert, remove, has, add}
use super_herdr.Common.Entries.{collect_unique}
use super_herdr.Model.{TargetSession, PaneId, target_session, session_ord, id_ord}
use super_herdr.Federation.{
  WorkspaceState, PaneState, AgentState, NormalizedSnapshot, TargetRuntimeState, FederationState,
  live, connection_same,
}
use super_herdr.Payloads.{
  AttentionEvent, AttentionEventKind, needs_attention, completed, status_changed, disappeared,
}

abbrev pub max_attention_events : ℕ
max_attention_events = 256

abbrev pub max_agent_observations : ℕ
max_agent_observations = 4096

abbrev pub attention_state_version : ℕ
attention_state_version = 1

pub record AgentObservation : Type 0 where
  pub pane : PaneId
  pub agent : Text
  pub workspace : Text
  pub status : Text
  pub interactive_ready : Bool

unfoldable pub observation_same : Discrete AgentObservation
observation_same = hlevel (id_ord.same, text_ord.same)

pub data AgentPhase : Type 0 where
  attention working idle unknown : AgentPhase

unfoldable pub phase_same : Discrete AgentPhase
phase_same = hlevel

pub record AttentionIndex : Type 0 where
  pub next_event_id : ℕ
  pub observations : Map PaneId AgentObservation
  pub events : List AttentionEvent

-- `matches!` of a text against literals.
unfoldable pub one_of : Text → List Text → Bool
one_of t words = any (λ word. ite (text_ord.same t word) true false) words

unfoldable pub agent_phase : Text → Bool → AgentPhase
unfolding one_of to_ascii_lowercase
agent_phase status interactive_ready =
    let lower = to_ascii_lowercase status in
    if interactive_ready
      || one_of lower (
          text "blocked"
          ∷ text "waiting"
          ∷ text "waiting_for_input"
          ∷ text "needs_input"
          ∷ text "ready"
          ∷ [])
    then AgentPhase.attention
    else if one_of lower (text "working" ∷ text "running" ∷ text "busy" ∷ text "active" ∷ [])
    then AgentPhase.working
    else if one_of lower (text "idle" ∷ text "completed" ∷ text "done" ∷ [])
    then idle
    else unknown

abbrev pub phase_of : AgentObservation → AgentPhase
phase_of observation = agent_phase observation.status observation.interactive_ready

-- The `match` of `transition_kind`, from one phase to another.
unfoldable pub kind_of_change : AgentPhase → AgentPhase → AttentionEventKind
kind_of_change previous attention = needs_attention
kind_of_change previous AgentPhase.working = AttentionEventKind.working
kind_of_change attention idle = completed
kind_of_change AgentPhase.working idle = completed
kind_of_change idle idle = status_changed
kind_of_change unknown idle = status_changed
kind_of_change previous unknown = status_changed

unfoldable pub transition_kind : AgentObservation → AgentObservation → Option AttentionEventKind
unfolding kind_of_change phase_same
transition_kind previous current =
    ite (phase_same (phase_of previous) (phase_of current))
      (if current.interactive_ready && not previous.interactive_ready
        then some needs_attention
        else none)
      (some (kind_of_change (phase_of previous) (phase_of current)))

-- The oldest events beyond the limit are drained.
unfoldable pub drain_excess : List AttentionEvent → List AttentionEvent
drain_excess events =
    if ltb max_attention_events (length events)
    then drop (length events - max_attention_events) events
    else events

unfoldable pub push_event :
    (ℕ → ℕ) → AgentObservation → AttentionEventKind → AttentionIndex → AttentionIndex
unfolding drain_excess
push_event clock observation kind index =
    let event : AttentionEvent = record {
      id = index.next_event_id;
      pane = observation.pane;
      agent = observation.agent;
      workspace = observation.workspace;
      status = observation.status;
      kind = kind;
      occurred_at_ms = clock index.next_event_id;
      unread = true;
    } in
    record index {
      next_event_id = saturating_add index.next_event_id 1;
      events = drain_excess (index.events ++ (event ∷ []));
    }

abbrev pub or_else {ℓ} : {A : Type ℓ} → Option A → Option A → Option A
or_else none other = other
or_else (some a) other = some a

abbrev pub unwrap_or {ℓ} : {A : Type ℓ} → Option A → A → A
unwrap_or none other = other
unwrap_or (some a) other = a

abbrev pub and_then {ℓ κ} : {A : Type ℓ} {B : Type κ} → Option A → (A → Option B) → Option B
and_then none f = none
and_then (some a) f = f a

-- The body of the loop over the agents of a snapshot.
unfoldable pub observation_of : NormalizedSnapshot → AgentState → AgentObservation
unfolding bounded_metadata
observation_of snapshot agent =
    let pane = lookup agent.pane snapshot.panes in
    let workspace = and_then pane (λ p. p.workspace) in
    record {
      pane = agent.pane;
      agent =
          bounded_metadata
            (unwrap_or (or_else agent.name (or_else agent.agent (and_then pane (λ p. p.agent))))
              agent.pane.resource)
            128;
      workspace =
          bounded_metadata
            (unwrap_or
              (or_else
                (and_then (and_then workspace (λ w. lookup w snapshot.workspaces)) (λ w. w.label))
                (and_then workspace (λ w. some w.resource)))
              (text "unassigned"))
            128;
      status =
          bounded_metadata
            (unwrap_or (or_else agent.status (and_then pane (λ p. p.agent_status)))
              (text "unknown"))
            64;
      interactive_ready = unwrap_or agent.interactive_ready false;
    }

unfoldable pub observe_agents :
    NormalizedSnapshot → List AgentState → Map PaneId AgentObservation → Map PaneId AgentObservation
unfolding observation_of
observe_agents snapshot [] current = current
observe_agents snapshot (agent ∷ agents) current =
    let observation = observation_of snapshot agent in
    observe_agents snapshot agents (insert observation.pane observation current)

-- The snapshot of a target that is live, if it has one.
unfoldable pub live_snapshot : TargetRuntimeState → Option NormalizedSnapshot
live_snapshot target = ite (connection_same target.connection live) target.snapshot none

-- The first loop of `observe`: what is observed now, and the sessions that are live.
unfoldable pub observe_targets :
    List TargetRuntimeState
    → Map PaneId AgentObservation
    → Set TargetSession
    → Map PaneId AgentObservation × Set TargetSession
unfolding live_snapshot observe_agents
observe_targets [] current sessions = (current, sessions)
observe_targets (target ∷ targets) current sessions = elim (live_snapshot target) [
  | none ↦ observe_targets targets current sessions
  | some snapshot ↦
      observe_targets targets (observe_agents snapshot (values snapshot.agents) current)
        (add target.key sessions)
]

-- The second loop: one observation is compared with the one that is remembered.
unfoldable pub note : (ℕ → ℕ) → AgentObservation → AttentionIndex → AttentionIndex × Bool
unfolding transition_kind push_event observation_same
note clock observation index =
    let remember = λ (i : AttentionIndex). record i {
      observations = insert observation.pane observation i.observations;
    } in
    elim (lookup observation.pane index.observations) [
      | none ↦ (remember index, true)
      | some previous ↦ elim (transition_kind previous observation) [
        | none ↦ ite (observation_same previous observation) (index, false) (remember index, true)
        | some kind ↦
            let pushed = push_event clock observation kind index in
            (ite (observation_same previous observation) pushed (remember pushed), true)
      ]
    ]

unfoldable pub note_all : (ℕ → ℕ) → List AgentObservation → AttentionIndex → AttentionIndex × Bool
unfolding note
note_all clock [] index = (index, false)
note_all clock (observation ∷ observations) index =
    let (index1, changed) = note clock observation index in
    let (index2, more) = note_all clock observations index1 in (index2, changed || more)

-- The third loop: what is gone from a live session is forgotten, with an event.
unfoldable pub retire_all : (ℕ → ℕ) → List PaneId → AttentionIndex → AttentionIndex × Bool
unfolding push_event
retire_all clock [] index = (index, false)
retire_all clock (pane ∷ panes) index =
    let missing = retire_all clock panes index in
    elim (lookup pane index.observations) [
      | none ↦ missing
      | some observation ↦
          let forgotten = record index { observations = remove pane index.observations } in
          let (index2, more) =
            retire_all clock panes (push_event clock observation disappeared forgotten) in
          (index2, true)
    ]

-- The fourth loop: what was in a session that is configured no longer is forgotten.
unfoldable pub forget_all : List PaneId → AttentionIndex → AttentionIndex
forget_all [] index = index
forget_all (pane ∷ panes) index =
    forget_all panes (record index { observations = remove pane index.observations })

abbrev pub is_nonempty {ℓ} : {A : Type ℓ} → List A → Bool
is_nonempty [] = false
is_nonempty (x ∷ xs) = true

-- Whether a pane is gone from a session that is live.
unfoldable pub has_disappeared : Map PaneId AgentObservation → Set TargetSession → PaneId → Bool
has_disappeared current sessions pane = has (target_session pane) sessions && not (has pane current)

-- Whether a pane was in a session that the state does not know.
unfoldable pub is_unconfigured : FederationState → PaneId → Bool
is_unconfigured state pane = not (has (target_session pane) state.targets)

-- `observe`: the index afterwards, and whether anything changed.
unfoldable pub observe : (ℕ → ℕ) → FederationState → AttentionIndex → AttentionIndex × Bool
unfolding observe_targets note_all retire_all forget_all has_disappeared is_unconfigured
observe clock state index =
    let (current, sessions) = observe_targets (values state.targets) [] [] in
    let (noted, changed) = note_all clock (values current) index in
    let gone = keep (has_disappeared current sessions) (keys noted.observations) in
    let (retired, left) = retire_all clock gone noted in
    let removed = keep (is_unconfigured state) (keys retired.observations) in
    (forget_all removed retired, changed || (left || is_nonempty removed))

-- `AttentionIndex::mirror`.
unfoldable pub highest : List ℕ → ℕ
highest [] = 0
highest (n ∷ ns) = max n (highest ns)

unfoldable pub mirror : List AttentionEvent → AttentionIndex
unfolding highest
mirror events = record {
  next_event_id = highest (map (λ (event : AttentionEvent). saturating_add event.id 1) events);
  observations = [];
  events = events;
}

-- The first copy of the event is replaced.
unfoldable pub replace_event : AttentionEvent → List AttentionEvent → List AttentionEvent
replace_event event [] = []
replace_event event (held ∷ events) =
    let rest = replace_event event events in
    if held.id == event.id then event ∷ events else held ∷ rest

-- `sort_by_key` by the identifier, which is stable.
unfoldable pub insert_by_id : AttentionEvent → List AttentionEvent → List AttentionEvent
insert_by_id event [] = event ∷ []
insert_by_id event (held ∷ events) =
    let rest = insert_by_id event events in
    if leb event.id held.id then event ∷ held ∷ events else held ∷ rest

unfoldable pub sort_by_id : List AttentionEvent → List AttentionEvent
unfolding insert_by_id
sort_by_id [] = []
sort_by_id (event ∷ events) = insert_by_id event (sort_by_id events)

-- `AttentionIndex::apply`: the index afterwards, and whether the event was new.
unfoldable pub apply : AttentionEvent → AttentionIndex → AttentionIndex × Bool
unfolding replace_event sort_by_id drain_excess
apply event index =
    if any (λ (held : AttentionEvent). held.id == event.id) index.events
    then (record index { events = replace_event event index.events }, false)
    else (
      record index {
        next_event_id = max index.next_event_id (saturating_add event.id 1);
        events = drain_excess (sort_by_id (index.events ++ (event ∷ [])));
      },
      true,
    )

unfoldable pub unread_count : AttentionIndex → ℕ
unread_count index = length (keep (λ (event : AttentionEvent). event.unread) index.events)

abbrev pub is_for : PaneId → AttentionEvent → Bool
is_for pane event = ite (id_ord.same event.pane pane) true false

unfoldable pub has_unread_for_pane : PaneId → AttentionIndex → Bool
has_unread_for_pane pane index =
    any (λ (event : AttentionEvent). event.unread && is_for pane event) index.events

-- The loops of `mark_seen_for_pane` and `mark_all_seen`, over the events that pass a test.
unfoldable pub mark_seen :
    (AttentionEvent → Bool) → List AttentionEvent → List AttentionEvent × Bool
mark_seen chosen [] = ([], false)
mark_seen chosen (event ∷ events) =
    let (rest, changed) = mark_seen chosen events in
    if event.unread && chosen event
    then (record event { unread = false } ∷ rest, true)
    else (event ∷ rest, changed)

unfoldable pub mark_seen_for_pane : PaneId → AttentionIndex → AttentionIndex × Bool
unfolding mark_seen
mark_seen_for_pane pane index =
    let (events, changed) = mark_seen (is_for pane) index.events in
    (record index { events = events }, changed)

unfoldable pub mark_all_seen : AttentionIndex → AttentionIndex × Bool
unfolding mark_seen
mark_all_seen index =
    let (events, changed) = mark_seen (λ event. true) index.events in
    (record index { events = events }, changed)

unfoldable pub clear_seen : AttentionIndex → AttentionIndex × Bool
clear_seen index =
    let unread = keep (λ (event : AttentionEvent). event.unread) index.events in
    (record index { events = unread }, not (length index.events == length unread))

pub record PersistedAttention : Type 0 where
  pub version : ℕ
  pub next_event_id : ℕ
  pub observations : List AgentObservation
  pub events : List AttentionEvent

-- `From<&AttentionIndex>`.
unfoldable pub persisted : AttentionIndex → PersistedAttention
persisted index = record {
  version = attention_state_version;
  next_event_id = index.next_event_id;
  observations = values index.observations;
  events = index.events;
}

pub data Refusal : Type 0 where
  unsupported_version too_many_observations too_many_events duplicate_observations : Refusal

pub data Loaded : Type 0 where
  loaded : AttentionIndex → Loaded
  refused : Refusal → Loaded

-- The identifier that the next event gets, at least one above those of the file.
unfoldable pub next_after : ℕ → List ℕ → ℕ
unfolding highest
next_after next [] = next
next_after next (n ∷ ns) = max next (saturating_add (highest (n ∷ ns)) 1)

-- `TryFrom<PersistedAttention>`.
unfoldable pub restore : PersistedAttention → Loaded
unfolding collect_unique next_after
restore file =
    if not (file.version == attention_state_version)
    then refused unsupported_version
    else if ltb max_agent_observations (length file.observations)
    then refused too_many_observations
    else if ltb max_attention_events (length file.events)
    then refused too_many_events
    else (elim (collect_unique [] (map (λ (o : AgentObservation). (o.pane, o)) file.observations)) [
      | none ↦ refused duplicate_observations
      | some observations ↦ loaded (record {
        next_event_id =
            next_after file.next_event_id (map (λ (event : AttentionEvent). event.id) file.events);
        observations = observations;
        events = file.events;
      })
    ])
