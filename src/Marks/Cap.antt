-- ===== src/Marks/Cap.antt =====
-- src/agent_marks.rs: the bound on the number of marks.
use super_herdr.Common.{ℕ, zero, suc, ◌+◌, ◌≤◌, ◌<◌, ◌≡◌, refl, true, [], ◌∷◌, arith}
use super_herdr.Common.Lists.{length}
use super_herdr.Common.Maps.{Map, lookup, insert, has, length-remove-le, length-remove-lt}
use super_herdr.Model.{AgentId, id_ord}
use super_herdr.Payloads.{AgentMarkRequest}
use super_herdr.Marks.{
  Marked, AgentMarks, state_of, requested, oldest, drop_oldest, drop_excess, enforce_cap, apply,
}

-- The oldest mark is one of the marks.
has-oldest :
    (best : AgentId × Marked) (m : Map AgentId Marked) → has (oldest best m).0 (best ∷ m) ≡ true
unfolding oldest has lookup
has-oldest best [] = ground arith
has-oldest best (entry ∷ m) = ground (arith, has-oldest best m, has-oldest entry m)

length-drop_oldest : (m : Map AgentId Marked) → 0 < length m → length (drop_oldest m) < length m
unfolding drop_oldest
length-drop_oldest [] h = absurd (omega arith)
length-drop_oldest (entry ∷ m) h =
    length-remove-lt (oldest entry m).0 (entry ∷ m) (has-oldest entry m)

length-drop_excess :
    (fuel : ℕ) (m : Map AgentId Marked) → length m ≤ fuel + 512 → length (drop_excess fuel m) ≤ 512
unfolding drop_excess
length-drop_excess zero m h = omega arith
length-drop_excess (suc fuel) m h =
    ground (arith, length-drop_oldest m, length-drop_excess fuel (drop_oldest m))

pub length-enforce_cap : (m : Map AgentId Marked) → length (enforce_cap m) ≤ 512
unfolding enforce_cap
length-enforce_cap m = length-drop_excess (length m) m (omega arith)

-- Applying a request never leaves more than 512 agents marked, if there were no more before.
pub apply_bounded :
    (agent : AgentId) (request : AgentMarkRequest) (now : ℕ) (marks : AgentMarks)
    → length marks.marks ≤ 512
    → length (apply agent request now marks).0.marks ≤ 512
unfolding apply
apply_bounded agent request now marks h =
    let state = requested request now (state_of marks agent) in
    ground (
      arith,
      length-remove-le agent marks.marks,
      length-enforce_cap (insert agent (record { state = state; touched = now }) marks.marks),
    )

-- Below the cap nothing is forgotten.
pub enforce_cap_below : (m : Map AgentId Marked) → length m ≤ 512 → enforce_cap m ≡ m
unfolding enforce_cap drop_excess
enforce_cap_below [] h = refl
enforce_cap_below (entry ∷ m) h = ground arith
