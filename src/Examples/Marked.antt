-- ===== src/Examples/Marked.antt =====
-- The theorems on marks, on a few marks.
use super_herdr.Common.{◌≤◌, ◌≡◌, ◌≢◌, ℕ_discrete, true, false, some, [], ◌∷◌, arith}
use super_herdr.Common.Tests.{ltb, if◌then◌else◌}
use super_herdr.Common.Lists.{length}
use super_herdr.Common.Order.{text, key_same, list_same}
use super_herdr.Model.{AgentId, id_ord}
use super_herdr.Payloads.{default, pin, mute}
use super_herdr.Marks.{AgentMarks, apply, expire, state_of, has_expired, awake}
use super_herdr.Common.Results.{ok, err}
use super_herdr.Marks.Store.{
  restored_marks, persisted_marks, too_many_agents, restored_marks-persisted_marks,
}
use super_herdr.Marks.Cap.{apply_bounded}
use super_herdr.Marks.Answers.{IsAsked, apply-IsAsked, state_of-expire}

abbrev agent_one : AgentId
agent_one = record { target = text "host"; session = text "main"; resource = text "a1" }

-- One agent that is muted, and snoozed until 5000.
abbrev marked : AgentMarks
marked = record {
  marks =
      (
        agent_one,
        record {
          state = record {
            pinned = false;
            muted = true;
            snoozed_until_ms = some 5000;
            notify = default;
          };
          touched = 10;
        },
      )
      ∷ [];
}

apply_bounded_example : length (apply agent_one (pin true) 20 marked).0.marks ≤ 512
apply_bounded_example = apply_bounded agent_one (pin true) 20 marked (omega arith)

abbrev agent_two : AgentId
agent_two = record { target = text "host"; session = text "main"; resource = text "a" }

apart : agent_one ≢ agent_two
unfolding list_same key_same id_ord ℕ_discrete
apart e = cc

apply-IsAsked_example :
    IsAsked
      (mute false)
      20
      (state_of marked agent_one)
      (state_of (apply agent_one (mute false) 20 marked).0 agent_one)
    × (state_of (apply agent_one (mute false) 20 marked).0 agent_two ≡ state_of marked agent_two)
apply-IsAsked_example = apply-IsAsked agent_one agent_two (mute false) 20 marked (omega arith) apart

state_of-expire_example : state_of (expire 6000 marked).0 agent_one ≡ (
    if has_expired 6000 (state_of marked agent_one)
    then awake (state_of marked agent_one)
    else state_of marked agent_one)
state_of-expire_example = state_of-expire 6000 marked agent_one

restored_marks-persisted_marks_example :
    restored_marks (persisted_marks marked)
    ≡ (if ltb 512 (length marked.marks) then err too_many_agents else ok marked)
restored_marks-persisted_marks_example = restored_marks-persisted_marks marked (tt, tt)
