-- ===== src/Attention/Growth.antt =====
-- src/attention.rs: what observing does to the numbers of events.
use super_herdr.Common.{ℕ, ◌≤◌, ◌<◌, Bool, List, [], ◌∷◌, inl, inr, arith}
use super_herdr.Common.Tests.{ite_rule, max_u64, Option-cases}
use super_herdr.Common.Lists.{keep}
use super_herdr.Common.Maps.{Map, keys, values, lookup, remove}
use super_herdr.Model.{PaneId, id_ord}
use super_herdr.Federation.{FederationState}
use super_herdr.Payloads.{AttentionEventKind, disappeared}
use super_herdr.Attention.{
  AgentObservation, observation_same, AttentionIndex, transition_kind, push_event, note, note_all,
  retire_all, forget_all, has_disappeared, is_unconfigured, observe_targets, observe,
}
use super_herdr.Attention.Numbering.{IsNumbered, push_event-IsNumbered}

-- How an index may follow another: numbers are only given out, and if the numbers have not run out
-- afterwards, a numbered index stays one.
pub record Grows (before after : AttentionIndex) : Type 0 where
  pub climbs :
      before.next_event_id ≤ max_u64
      → (before.next_event_id ≤ after.next_event_id) × (after.next_event_id ≤ max_u64)
  pub stays :
      before.next_event_id ≤ max_u64
      → after.next_event_id < max_u64
      → IsNumbered before
      → IsNumbered after

Grows-trans : {i j k : AttentionIndex} → Grows i j → Grows j k → Grows i k
Grows-trans g h = record {
  climbs = λ fits. omega (arith, g.climbs fits, h.climbs (g.climbs fits).1);
  stays = λ fits room v.
      h.stays (g.climbs fits).1 room (g.stays fits (omega (arith, h.climbs (g.climbs fits).1)) v);
}

-- An index whose observations alone change.
Grows-remembering :
    (index : AttentionIndex) (observations : Map PaneId AgentObservation)
    → Grows index (record index { observations = observations })
Grows-remembering index observations = record {
  climbs = λ fits. omega arith;
  stays = λ fits room v. record { rising = v.rising; below = v.below; bounded = v.bounded };
}

module _ (clock : ℕ → ℕ) where
  push_event-Grows :
      (observation : AgentObservation) (kind : AttentionEventKind) (index : AttentionIndex)
      → Grows index (push_event clock observation kind index)
  unfolding push_event
  push_event-Grows observation kind index = record {
    climbs = λ fits. omega arith;
    stays = λ fits room v. push_event-IsNumbered clock observation kind index room v;
  }

  note-Grows :
      (observation : AgentObservation) (index : AttentionIndex)
      → Grows index (note clock observation index).0
  unfolding note
  note-Grows observation index = elim (Option-cases (lookup observation.pane index.observations)) [
    | inl e ↦ rw (e, note) (Grows-remembering index _)
    | inr (previous, e) ↦ elim (Option-cases (transition_kind previous observation)) [
      | inl f ↦
          rw (e, note, f)
            (ite_rule (λ (r : AttentionIndex × Bool). Grows index r.0)
              (observation_same previous observation) (Grows-remembering index index.observations)
              (Grows-remembering index _))
      | inr (kind, f) ↦
          let pushed = push_event clock observation kind index in
          rw (e, note, f)
            (ite_rule (λ (i : AttentionIndex). Grows index i)
              (observation_same previous observation) (push_event-Grows observation kind index)
              (Grows-trans (push_event-Grows observation kind index) (Grows-remembering pushed _)))
    ]
  ]

  note_all-Grows :
      (observations : List AgentObservation) (index : AttentionIndex)
      → Grows index (note_all clock observations index).0
  unfolding note_all
  note_all-Grows [] index = Grows-remembering index index.observations
  note_all-Grows (observation ∷ observations) index =
      Grows-trans (note-Grows observation index)
        (note_all-Grows observations (note clock observation index).0)

  retire_all-Grows :
      (panes : List PaneId) (index : AttentionIndex) → Grows index (retire_all clock panes index).0
  unfolding retire_all
  retire_all-Grows [] index = Grows-remembering index index.observations
  retire_all-Grows (pane ∷ panes) index = elim (Option-cases (lookup pane index.observations)) [
    | inl e ↦ rw (e, retire_all) (retire_all-Grows panes index)
    | inr (observation, e) ↦
        let forgotten = record index { observations = remove pane index.observations } in
        rw (e, retire_all)
          (Grows-trans (Grows-remembering index (remove pane index.observations)) (
            Grows-trans (push_event-Grows observation disappeared forgotten)
              (retire_all-Grows panes (push_event clock observation disappeared forgotten))))
  ]

  forget_all-Grows :
      (panes : List PaneId) (index : AttentionIndex) → Grows index (forget_all panes index)
  unfolding forget_all
  forget_all-Grows [] index = Grows-remembering index index.observations
  forget_all-Grows (pane ∷ panes) index =
      Grows-trans (Grows-remembering index (remove pane index.observations))
        (forget_all-Grows panes (record index { observations = remove pane index.observations }))

  observe-Grows :
      (state : FederationState) (index : AttentionIndex) → Grows index (observe clock state index).0
  unfolding observe
  observe-Grows state index =
      let (current, sessions) = observe_targets (values state.targets) [] [] in
      let noted = (note_all clock (values current) index).0 in
      let gone = keep (has_disappeared current sessions) (keys noted.observations) in
      let retired = (retire_all clock gone noted).0 in
      Grows-trans (note_all-Grows (values current) index) (
        Grows-trans (retire_all-Grows gone noted)
          (forget_all-Grows (keep (is_unconfigured state) (keys retired.observations)) retired))

  -- Observing a state of the federation keeps events numbered in their order, below the number that
  -- comes next, and no more than 256, unless it uses up the last number of a `u64`.
  pub observe-IsNumbered :
      (state : FederationState) (index : AttentionIndex)
      → index.next_event_id ≤ max_u64
      → (observe clock state index).0.next_event_id < max_u64
      → IsNumbered index
      → IsNumbered (observe clock state index).0
  observe-IsNumbered state index fits room v = (observe-Grows state index).stays fits room v
