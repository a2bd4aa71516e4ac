-- ===== src/Marks.antt =====
-- src/agent_marks.rs: what a person marked on agents, and how marks are forgotten. Times are
-- milliseconds, and the file that holds the marks between two runs is left out.
pub mod Cap
pub mod Answers
pub mod Store
use super_herdr.Common.{
  ℕ, zero, suc, ◌*◌, min, Bool, true, false, ◌&&◌, ◌||◌, Option, none, some, List, [], ◌∷◌, ite,
}
use super_herdr.Common.Tests.{ltb, leb, ◌==◌, if◌then◌else◌, saturating_add, max_u64}
use super_herdr.Common.Lists.{length, keep}
use super_herdr.Common.Order.{Ord}
use super_herdr.Common.Maps.{Map, keys, lookup, insert, remove, is_empty}
use super_herdr.Model.{AgentId, id_ord}
use super_herdr.Payloads.{
  NotifyMode, default, needs_you_only, AgentMarkState, mark_state_same, AgentMarkRequest, pin, mute,
  snooze, notify,
}

abbrev pub max_marked_agents : ℕ
max_marked_agents = 512

abbrev pub max_snooze_minutes : ℕ
max_snooze_minutes = 1440

-- `AgentMarkState::default`.
abbrev pub unmarked : AgentMarkState
unmarked = record { pinned = false; muted = false; snoozed_until_ms = none; notify = default }

unfoldable pub is_default : AgentMarkState → Bool
is_default state = ite (mark_state_same state unmarked) true false

unfoldable pub snoozed_at : AgentMarkState → ℕ → Bool
snoozed_at state now = elim state.snoozed_until_ms [
  | none ↦ false
  | some deadline ↦ ltb now deadline
]

unfoldable pub quiet_at : AgentMarkState → ℕ → Bool
unfolding snoozed_at
quiet_at state now = state.muted || snoozed_at state now

unfoldable pub may_notify : AgentMarkState → Bool → ℕ → Bool
unfolding quiet_at
may_notify state needs_attention now =
    if quiet_at state now
    then false
    else (elim state.notify [ default ↦ true | needs_you_only ↦ needs_attention ])

pub record Marked : Type 0 where
  pub state : AgentMarkState
  pub touched : ℕ

pub record AgentMarks : Type 0 where
  pub marks : Map AgentId Marked

unfoldable pub state_of : AgentMarks → AgentId → AgentMarkState
state_of marks agent = elim (lookup agent marks.marks) [ none ↦ unmarked | some held ↦ held.state ]

-- `u64::saturating_mul`.
abbrev pub saturating_mul : ℕ → ℕ → ℕ
saturating_mul a b = min (a * b) max_u64

-- When a snooze of so many minutes ends.
unfoldable pub deadline_after : ℕ → ℕ → ℕ
deadline_after now minutes =
    saturating_add now (saturating_mul (min minutes max_snooze_minutes) 60000)

-- The `match` of `apply`.
unfoldable pub requested : AgentMarkRequest → ℕ → AgentMarkState → AgentMarkState
unfolding deadline_after
requested (pin pinned) now state = record state { pinned = pinned }
requested (mute muted) now state = record state { muted = muted }
requested (notify mode) now state = record state { notify = mode }
requested (snooze none) now state = record state { snoozed_until_ms = none }
requested (snooze (some minutes)) now state = record state {
  snoozed_until_ms = some (deadline_after now minutes);
}

-- The order of `enforce_cap`: least recently touched first, then by agent.
unfoldable pub touched_before : AgentId × Marked → AgentId × Marked → Bool
touched_before (a, x) (b, y) =
    ltb x.touched y.touched || (x.touched == y.touched && id_ord.below a b)

-- `min_by_key`.
unfoldable pub oldest : AgentId × Marked → Map AgentId Marked → AgentId × Marked
unfolding touched_before
oldest best [] = best
oldest best (entry ∷ m) =
    let kept = oldest best m in
    let swapped = oldest entry m in if touched_before entry best then swapped else kept

unfoldable pub drop_oldest : Map AgentId Marked → Map AgentId Marked
unfolding oldest
drop_oldest [] = []
drop_oldest (entry ∷ m) = remove (oldest entry m).0 (entry ∷ m)

-- The loop of `enforce_cap`, on fuel.
unfoldable pub drop_excess : ℕ → Map AgentId Marked → Map AgentId Marked
unfolding drop_oldest
drop_excess zero m = m
drop_excess (suc fuel) m =
    let rest = drop_excess fuel (drop_oldest m) in
    if ltb max_marked_agents (length m) then rest else m

-- Each round drops a mark, so that their number is fuel enough.
unfoldable pub enforce_cap : Map AgentId Marked → Map AgentId Marked
unfolding drop_excess
enforce_cap m = drop_excess (length m) m

-- `apply`: the marks afterwards, and whether anything changed.
unfoldable pub apply : AgentId → AgentMarkRequest → ℕ → AgentMarks → AgentMarks × Bool
unfolding state_of requested is_default enforce_cap
apply agent request now marks =
    let state = requested request now (state_of marks agent) in
    ite (mark_state_same state (state_of marks agent)) (marks, false)
      (if is_default state then (record { marks = remove agent marks.marks }, true) else (
        record {
          marks = enforce_cap (insert agent (record { state = state; touched = now }) marks.marks);
        },
        true,
      ))

-- Whether a snooze has run out.
unfoldable pub has_expired : ℕ → AgentMarkState → Bool
has_expired now state = elim state.snoozed_until_ms [
  | none ↦ false
  | some deadline ↦ leb deadline now
]

abbrev pub awake : AgentMarkState → AgentMarkState
awake state = record state { snoozed_until_ms = none }

-- One round of the second loop of `expire`.
unfoldable pub wake : AgentId → AgentMarks → AgentMarks
unfolding is_default
wake agent marks = elim (lookup agent marks.marks) [
  | none ↦ marks
  | some held ↦
      if is_default (awake held.state)
      then record { marks = remove agent marks.marks }
      else record { marks = insert agent (record held { state = awake held.state }) marks.marks }
]

unfoldable pub wake_all : List AgentId → AgentMarks → AgentMarks
unfolding wake
wake_all [] marks = marks
wake_all (agent ∷ agents) marks = wake_all agents (wake agent marks)

-- The agents whose snooze has run out.
unfoldable pub expired : ℕ → AgentMarks → List AgentId
unfolding has_expired state_of
expired now marks = keep (λ agent. has_expired now (state_of marks agent)) (keys marks.marks)

-- `expire` from the point where those agents are collected.
unfoldable pub woken : List AgentId → AgentMarks → AgentMarks × Bool
unfolding wake_all
woken [] marks = (marks, false)
woken (agent ∷ agents) marks = (wake_all (agent ∷ agents) marks, true)

-- `expire`: the marks afterwards, and whether anything changed.
unfoldable pub expire : ℕ → AgentMarks → AgentMarks × Bool
unfolding expired woken
expire now marks = woken (expired now marks) marks
