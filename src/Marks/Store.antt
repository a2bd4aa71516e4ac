-- ===== src/Marks/Store.antt =====
-- src/agent_marks.rs: marks as they are written, and read back.
use super_herdr.Common.{ℕ, ◌≡◌, refl, ap, not, none, some, List, [], ◌∷◌, map, arith}
use super_herdr.Common.Tests.{ltb, ◌==◌, if◌then◌else◌}
use super_herdr.Common.Lists.{length}
use super_herdr.Common.Results.{Result, ok, err}
use super_herdr.Common.Maps.{Map, IsRising}
use super_herdr.Common.Entries.{collect_unique, collect_unique-rising}
use super_herdr.Model.{AgentId, id_ord}
use super_herdr.Payloads.{AgentMarkState}
use super_herdr.Marks.{AgentMarks, Marked, max_marked_agents}

abbrev pub agent_marks_version : ℕ
agent_marks_version = 2

pub record PersistedMark : Type 0 where
  pub agent : AgentId
  pub state : AgentMarkState
  pub touched_ms : ℕ

pub record PersistedMarks : Type 0 where
  pub version : ℕ
  pub marks : List PersistedMark

pub data Refusal : Type 0 where
  unsupported_version too_many_agents agent_twice : Refusal

abbrev persisted_mark : AgentId × Marked → PersistedMark
persisted_mark (agent, marked) = record {
  agent = agent;
  state = marked.state;
  touched_ms = marked.touched;
}

abbrev restored_mark : PersistedMark → AgentId × Marked
restored_mark held = (held.agent, record { state = held.state; touched = held.touched_ms })

-- `From<&AgentMarks>`.
unfoldable pub persisted_marks : AgentMarks → PersistedMarks
persisted_marks marks = record {
  version = agent_marks_version;
  marks = map persisted_mark marks.marks;
}

-- `TryFrom<PersistedMarks>`.
unfoldable pub restored_marks : PersistedMarks → Result Refusal AgentMarks
unfolding collect_unique
restored_marks file =
    if not (file.version == agent_marks_version)
    then err unsupported_version
    else if ltb max_marked_agents (length file.marks)
    then err too_many_agents
    else (elim (collect_unique [] (map restored_mark file.marks)) [
      | none ↦ err agent_twice
      | some marks ↦ ok (record { marks = marks })
    ])

restored-persisted :
    (marks : Map AgentId Marked) → map restored_mark (map persisted_mark marks) ≡ marks
restored-persisted [] = refl
restored-persisted (entry ∷ marks) =
    ap (λ (rest : Map AgentId Marked). entry ∷ rest) (restored-persisted marks)

length-persisted : (marks : Map AgentId Marked) → length (map persisted_mark marks) ≡ length marks
length-persisted [] = refl
length-persisted (entry ∷ marks) = omega (arith, length-persisted marks)

-- What is written of marks that stand in the order of their agents is read back as they are, unless
-- more than 512 agents are marked; then what was written is refused.
pub restored_marks-persisted_marks :
    (marks : AgentMarks)
    → IsRising marks.marks
    → restored_marks (persisted_marks marks)
      ≡ (if ltb 512 (length marks.marks) then err too_many_agents else ok marks)
unfolding restored_marks persisted_marks
restored_marks-persisted_marks marks r = ground (
  arith,
  restored-persisted marks.marks,
  length-persisted marks.marks,
  collect_unique-rising [] marks.marks r,
)
