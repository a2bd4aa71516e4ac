-- ===== src/Marks/Answers.antt =====
-- src/agent_marks.rs: which marks the operations leave on which agent.
use super_herdr.Common.{
  ◌↔◌, ℕ, ◌+◌, ◌*◌, ◌≤◌, ◌<◌, ◌≡◌, ◌≢◌, min, refl, ap, Bool, true, false, none, some, List, [], ◌∷◌,
  inl, inr, ite, arith,
}
use super_herdr.Common.Tests.{if◌then◌else◌, Option-cases}
use super_herdr.Common.Lists.{length}
use super_herdr.Common.Maps.{
  keys, lookup, insert, has, listed, listed-keys, listed-keep, lookup-insert, lookup-remove,
  length-insert-le,
}
use super_herdr.Model.{AgentId, id_ord}
use super_herdr.Payloads.{
  needs_you_only, AgentMarkState, AgentMarkRequest, pin, mute, snooze, notify,
}
use super_herdr.Marks.{
  Marked, AgentMarks, unmarked, is_default, state_of, requested, deadline_after, apply, has_expired,
  awake, wake, wake_all, expired, woken, expire, quiet_at, snoozed_at, may_notify,
}
use super_herdr.Marks.Cap.{enforce_cap_below}

is_default→unmarked : (state : AgentMarkState) → is_default state ≡ true → state ≡ unmarked
unfolding is_default
is_default→unmarked state e = ground (arith, e)

pub state_of-apply :
    (agent : AgentId) (request : AgentMarkRequest) (now : ℕ) (marks : AgentMarks) (a : AgentId)
    → length marks.marks < 512
    → state_of (apply agent request now marks).0 a
      ≡ ite (id_ord.same agent a) (requested request now (state_of marks agent)) (state_of marks a)
unfolding apply state_of
state_of-apply agent request now marks a h =
    let state = requested request now (state_of marks agent) in
    let held : Marked = record { state = state; touched = now } in
    ground (
      arith,
      is_default→unmarked state,
      lookup-remove agent marks.marks a,
      lookup-insert agent held marks.marks a,
      length-insert-le agent held marks.marks,
      enforce_cap_below (insert agent held marks.marks),
      ap (λ i. lookup i marks.marks),
    )

-- What a request asks of the marks of an agent, from those before to those after.
abbrev pub IsAsked : AgentMarkRequest → ℕ → AgentMarkState → AgentMarkState → Type 0
IsAsked (pin pinned) now before after =
    (after.pinned ≡ pinned)
    × ((after.muted ≡ before.muted)
        × ((after.snoozed_until_ms ≡ before.snoozed_until_ms) × (after.notify ≡ before.notify)))
IsAsked (mute muted) now before after =
    (after.pinned ≡ before.pinned)
    × ((after.muted ≡ muted)
        × ((after.snoozed_until_ms ≡ before.snoozed_until_ms) × (after.notify ≡ before.notify)))
IsAsked (notify mode) now before after =
    (after.pinned ≡ before.pinned)
    × ((after.muted ≡ before.muted)
        × ((after.snoozed_until_ms ≡ before.snoozed_until_ms) × (after.notify ≡ mode)))
IsAsked (snooze none) now before after =
    (after.pinned ≡ before.pinned)
    × ((after.muted ≡ before.muted)
        × ((after.snoozed_until_ms ≡ none) × (after.notify ≡ before.notify)))
IsAsked (snooze (some minutes)) now before after =
    (after.pinned ≡ before.pinned)
    × ((after.muted ≡ before.muted)
        × ((after.snoozed_until_ms
              ≡ some (min (now + min minutes 1440 * 60000) 18446744073709551615))
            × (after.notify ≡ before.notify)))

requested-IsAsked :
    (request : AgentMarkRequest) (now : ℕ) (before : AgentMarkState)
    → IsAsked request now before (requested request now before)
unfolding requested deadline_after
requested-IsAsked (pin pinned) now before = (refl, (refl, (refl, refl)))
requested-IsAsked (mute muted) now before = (refl, (refl, (refl, refl)))
requested-IsAsked (notify mode) now before = (refl, (refl, (refl, refl)))
requested-IsAsked (snooze none) now before = (refl, (refl, (refl, refl)))
requested-IsAsked (snooze (some minutes)) now before =
    (refl, (refl, (ap (λ (n : ℕ). some n) (omega arith), refl)))

-- Applying a request, while fewer than 512 agents are marked, pins, mutes, snoozes or sets the
-- notifications of its agent as it asks and leaves its other marks; a snooze ends after its minutes, or
-- a day if they are more, or at the end of the clock. The marks of any other agent are as before.
pub apply-IsAsked :
    (agent other : AgentId) (request : AgentMarkRequest) (now : ℕ) (marks : AgentMarks)
    → length marks.marks < 512
    → agent ≢ other
    → IsAsked request now (state_of marks agent) (state_of (apply agent request now marks).0 agent)
      × (state_of (apply agent request now marks).0 other ≡ state_of marks other)
apply-IsAsked agent other request now marks room apart =
    let asked : state_of (apply agent request now marks).0 agent
        ≡ requested request now (state_of marks agent) =
      ground (arith, state_of-apply agent request now marks agent room) in
    (
      rw asked (requested-IsAsked request now (state_of marks agent)),
      ground (arith, apart, state_of-apply agent request now marks other room),
    )

requested_twice :
    (request : AgentMarkRequest) (now : ℕ) (state : AgentMarkState)
    → requested request now (requested request now state) ≡ requested request now state
unfolding requested
requested_twice (pin pinned) now state = refl
requested_twice (mute muted) now state = refl
requested_twice (notify mode) now state = refl
requested_twice (snooze none) now state = refl
requested_twice (snooze (some minutes)) now state = refl

apply_unchanged :
    (agent : AgentId) (request : AgentMarkRequest) (now : ℕ) (marks : AgentMarks)
    → requested request now (state_of marks agent) ≡ state_of marks agent
    → apply agent request now marks ≡ (marks, false)
unfolding apply
apply_unchanged agent request now marks e = ground (arith, e)

-- The same request again at the same time, while fewer than 512 agents are marked, changes nothing
-- and says so.
pub apply_twice :
    (agent : AgentId) (request : AgentMarkRequest) (now : ℕ) (marks : AgentMarks)
    → length marks.marks < 512
    → apply agent request now (apply agent request now marks).0
      ≡ ((apply agent request now marks).0, false)
apply_twice agent request now marks h =
    let after = (apply agent request now marks).0 in
    apply_unchanged agent request now after (
      ground (
        arith,
        state_of-apply agent request now marks agent h,
        requested_twice request now (state_of marks agent),
      ))

-- A snooze ends no later than a day from now.
pub apply_snooze_bounded :
    (agent : AgentId) (minutes now deadline : ℕ) (marks : AgentMarks)
    → length marks.marks < 512
    → (state_of (apply agent (snooze (some minutes)) now marks).0 agent).snoozed_until_ms
      ≡ some deadline
    → deadline ≤ now + 86400000
unfolding requested deadline_after
apply_snooze_bounded agent minutes now deadline marks h e =
    ground (arith, e, state_of-apply agent (snooze (some minutes)) now marks agent h)

state_of-wake :
    (agent : AgentId) (marks : AgentMarks) (a : AgentId)
    → state_of (wake agent marks) a
      ≡ ite (id_ord.same agent a) (awake (state_of marks a)) (state_of marks a)
unfolding wake state_of
state_of-wake agent marks a = elim (Option-cases (lookup agent marks.marks)) [
  | inl e ↦ rw (e, wake) (ground (arith, e, ap (λ i. lookup i marks.marks)))
  | inr (held, e) ↦
      rw (e, wake)
        (ground (
          arith,
          e,
          is_default→unmarked (awake held.state),
          lookup-remove agent marks.marks a,
          lookup-insert agent (record held { state = awake held.state }) marks.marks a,
          ap (λ i. lookup i marks.marks),
        ))
]

state_of-wake_all :
    (agents : List AgentId) (marks : AgentMarks) (a : AgentId)
    → state_of (wake_all agents marks) a
      ≡ (if listed a agents then awake (state_of marks a) else state_of marks a)
unfolding wake_all
state_of-wake_all [] marks a = refl
state_of-wake_all (agent ∷ agents) marks a =
    ground (arith, state_of-wake_all agents (wake agent marks) a, state_of-wake agent marks a)

listed-expired :
    (now : ℕ) (marks : AgentMarks) (a : AgentId)
    → listed a (expired now marks) ≡ has_expired now (state_of marks a)
unfolding expired has_expired state_of has
listed-expired now marks a = ground (
  arith,
  listed-keep (λ agent. has_expired now (state_of marks agent)) a (keys marks.marks),
  listed-keys a marks.marks,
)

state_of-woken :
    (agents : List AgentId) (marks : AgentMarks) (a : AgentId)
    → state_of (woken agents marks).0 a
      ≡ (if listed a agents then awake (state_of marks a) else state_of marks a)
unfolding woken
state_of-woken [] marks a = refl
state_of-woken (agent ∷ agents) marks a = state_of-wake_all (agent ∷ agents) marks a

-- After an expiry each agent has the marks that it had, but for a snooze that has run out, which is
-- gone.
pub state_of-expire :
    (now : ℕ) (marks : AgentMarks) (a : AgentId)
    → state_of (expire now marks).0 a
      ≡ (if has_expired now (state_of marks a) then awake (state_of marks a) else state_of marks a)
unfolding expire
state_of-expire now marks a =
    ground (arith, state_of-woken (expired now marks) marks a, listed-expired now marks a)

-- An event about an agent may reach a device exactly if the agent is not muted, not snoozed still,
-- and, where it is to notify of nothing else, the event needs a person's attention.
pub may_notify_iff :
    (state : AgentMarkState) (needs_attention : Bool) (now : ℕ)
    → (may_notify state needs_attention now ≡ true) ↔ (
        (state.muted ≡ false)
        × (snoozed_at state now ≡ false)
        × (state.notify ≡ needs_you_only → needs_attention ≡ true))
unfolding may_notify quiet_at
may_notify_iff state needs_attention now = (λ h. ground arith, λ h. ground (arith, h.0, h.1, h.2))
