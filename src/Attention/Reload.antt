-- ===== src/Attention/Reload.antt =====
-- src/attention.rs: an index written to disk and read back.
use super_herdr.Common.{ℕ, ◌≤◌, ◌<◌, ◌≡◌, refl, ap, ◌∙◌, Bool, List, [], ◌∷◌, map, inl, inr, arith}
use super_herdr.Common.Tests.{ltb, if◌then◌else◌, Option-cases, ite_rule, max_u64}
use super_herdr.Common.Lists.{length, keep}
use super_herdr.Common.Maps.{
  Map, keys, values, lookup, insert, remove, insert-IsRising, remove-IsRising,
}
use super_herdr.Common.Entries.{collect_unique, collect_unique-rising}
use super_herdr.Model.{PaneId, id_ord}
use super_herdr.Federation.{FederationState}
use super_herdr.Payloads.{AttentionEvent, disappeared}
use super_herdr.Attention.{
  AgentObservation, observation_same, AttentionIndex, transition_kind, push_event, note, note_all,
  retire_all, forget_all, has_disappeared, is_unconfigured, observe, observe_targets, highest,
  next_after, persisted, restore, loaded, refused, too_many_observations,
}
use super_herdr.Attention.Numbering.{Under, IsNumbered}
use super_herdr.Attention.Memory.{IsKeyed, IsView, insert-IsKeyed}

length-values : (m : Map PaneId AgentObservation) → length (values m) ≡ length m
length-values [] = refl
length-values ((k, v) ∷ m) = omega (arith, length-values m)

entries_of_values :
    (m : Map PaneId AgentObservation)
    → IsKeyed m
    → map (λ (o : AgentObservation). (o.pane, o)) (values m) ≡ m
entries_of_values [] k = refl
entries_of_values ((pane, observation) ∷ m) k = ground (arith, k.0, entries_of_values m k.1)

-- The number of every event is below `next`, and so is the highest.
highest-lt :
    (next : ℕ) (event : AttentionEvent) (events : List AttentionEvent)
    → Under next (event ∷ events)
    → highest (map (λ (e : AttentionEvent). e.id) (event ∷ events)) < next
unfolding highest
highest-lt next event [] u = omega (arith, u.0)
highest-lt next event (later ∷ events) u = omega (arith, u.0, highest-lt next later events u.1)

next_after-Under :
    (next : ℕ) (events : List AttentionEvent)
    → next ≤ max_u64
    → Under next events
    → next_after next (map (λ (e : AttentionEvent). e.id) events) ≡ next
unfolding next_after
next_after-Under next [] h u = refl
next_after-Under next (event ∷ events) h u = omega (arith, highest-lt next event events u)

-- An index with its events numbered and its observations under their panes is read back as it was
-- written, unless it remembers more than 4096 agents; then what was written is refused.
pub restore-persisted :
    (index : AttentionIndex)
    → IsNumbered index
    → index.next_event_id ≤ max_u64
    → IsView index.observations
    → restore (persisted index) ≡ (
        if ltb 4096 (length index.observations)
        then refused too_many_observations
        else loaded index)
unfolding restore persisted
restore-persisted index v fits w =
    let same = entries_of_values index.observations w.1 in
    let back = collect_unique-rising [] index.observations w.0 in
    let next = next_after-Under index.next_event_id index.events fits v.below in
    ground
      (arith, length-values index.observations, v.bounded, next, ap (collect_unique []) same ∙ back)

remove-IsKeyed :
    (pane : PaneId) (m : Map PaneId AgentObservation) → IsKeyed m → IsKeyed (remove pane m)
unfolding remove
remove-IsKeyed pane [] k = tt
remove-IsKeyed pane ((j, held) ∷ m) k = ground (arith, k.0, remove-IsKeyed pane m k.1)

insert-IsView :
    (observation : AgentObservation) (m : Map PaneId AgentObservation)
    → IsView m
    → IsView (insert observation.pane observation m)
insert-IsView observation m v =
    (insert-IsRising observation.pane observation m v.0, insert-IsKeyed observation m v.1)

remove-IsView :
    (pane : PaneId) (m : Map PaneId AgentObservation) → IsView m → IsView (remove pane m)
remove-IsView pane m v = (remove-IsRising pane m v.0, remove-IsKeyed pane m v.1)

-- The index remembers a view.
abbrev Remembers : AttentionIndex → Type 0
Remembers index = IsView index.observations

note-Remembers :
    (clock : ℕ → ℕ) (observation : AgentObservation) (index : AttentionIndex)
    → Remembers index
    → Remembers (note clock observation index).0
unfolding note push_event
note-Remembers clock observation index v =
    let w = insert-IsView observation index.observations v in
    elim (Option-cases (lookup observation.pane index.observations)) [
      | inl e ↦ rw (e, note) w
      | inr (previous, e) ↦ elim (Option-cases (transition_kind previous observation)) [
        | inl f ↦
            rw (e, note, f)
              (ite_rule (λ (r : AttentionIndex × Bool). Remembers r.0)
                (observation_same previous observation) v w)
        | inr (kind, f) ↦
            rw (e, note, f)
              (ite_rule (λ (i : AttentionIndex). Remembers i)
                (observation_same previous observation) v w)
      ]
    ]

note_all-Remembers :
    (clock : ℕ → ℕ) (observations : List AgentObservation) (index : AttentionIndex)
    → Remembers index
    → Remembers (note_all clock observations index).0
unfolding note_all
note_all-Remembers clock [] index v = v
note_all-Remembers clock (observation ∷ observations) index v =
    note_all-Remembers clock observations (note clock observation index).0
      (note-Remembers clock observation index v)

retire_all-Remembers :
    (clock : ℕ → ℕ) (panes : List PaneId) (index : AttentionIndex)
    → Remembers index
    → Remembers (retire_all clock panes index).0
unfolding retire_all push_event
retire_all-Remembers clock [] index v = v
retire_all-Remembers clock (pane ∷ panes) index v =
    elim (Option-cases (lookup pane index.observations)) [
      | inl e ↦ rw (e, retire_all) (retire_all-Remembers clock panes index v)
      | inr (observation, e) ↦
          rw (e, retire_all)
            (retire_all-Remembers clock panes
              (push_event clock observation disappeared
                (record index { observations = remove pane index.observations }))
              (remove-IsView pane index.observations v))
    ]

forget_all-Remembers :
    (panes : List PaneId) (index : AttentionIndex)
    → Remembers index
    → Remembers (forget_all panes index)
unfolding forget_all
forget_all-Remembers [] index v = v
forget_all-Remembers (pane ∷ panes) index v =
    forget_all-Remembers panes (record index { observations = remove pane index.observations })
      (remove-IsView pane index.observations v)

-- Observing a state of the federation keeps each observation once, under the pane that it is about.
pub observe-IsView :
    (clock : ℕ → ℕ) (state : FederationState) (index : AttentionIndex)
    → IsView index.observations
    → IsView (observe clock state index).0.observations
unfolding observe
observe-IsView clock state index v =
    let (current, sessions) = observe_targets (values state.targets) [] [] in
    let noted = (note_all clock (values current) index).0 in
    let gone = keep (has_disappeared current sessions) (keys noted.observations) in
    let retired = (retire_all clock gone noted).0 in
    forget_all-Remembers (keep (is_unconfigured state) (keys retired.observations)) retired
      (retire_all-Remembers clock gone noted (note_all-Remembers clock (values current) index v))
