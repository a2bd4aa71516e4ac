-- ===== src/Attention/Memory.antt =====
-- src/attention.rs: which agents are remembered after a state of the federation was observed.
use super_herdr.Common.{
  ℕ, ◌≡◌, refl, ap, ◌∙◌, ◌||◌, Option, none, some, List, [], ◌∷◌, inl, inr, ite, arith,
}
use super_herdr.Common.Tests.{if◌then◌else◌, Option-cases}
use super_herdr.Common.Lists.{keep}
use super_herdr.Common.Maps.{
  Map, Set, keys, values, lookup, insert, remove, has, lookup-insert, lookup-remove, listed,
  listed-keys, listed-keep, IsRising, insert-IsRising, lookup-Above,
}
use super_herdr.Model.{TargetSession, PaneId, id_ord}
use super_herdr.Federation.{AgentState, NormalizedSnapshot, TargetRuntimeState, FederationState}
use super_herdr.Payloads.{AttentionEventKind, disappeared}
use super_herdr.Attention.{
  AgentObservation, AttentionIndex, push_event, observation_of, observe_agents, live_snapshot,
  observe_targets, note, note_all, retire_all, forget_all, has_disappeared, is_unconfigured,
  observe,
}

-- Every observation stands under the pane that it is about.
abbrev pub IsKeyed : Map PaneId AgentObservation → Type 0
IsKeyed [] = Unit
IsKeyed ((pane, observation) ∷ m) = (observation.pane ≡ pane) × IsKeyed m

pub insert-IsKeyed :
    (observation : AgentObservation) (m : Map PaneId AgentObservation)
    → IsKeyed m
    → IsKeyed (insert observation.pane observation m)
unfolding insert
insert-IsKeyed observation [] k = (refl, tt)
insert-IsKeyed observation ((pane, held) ∷ m) k = ground (arith, insert-IsKeyed observation m k.1)

-- What a state of the federation shows is a map, and keyed.
abbrev pub IsView : Map PaneId AgentObservation → Type 0
IsView m = IsRising m × IsKeyed m

observe_agents-IsView :
    (snapshot : NormalizedSnapshot) (agents : List AgentState) (m : Map PaneId AgentObservation)
    → IsView m
    → IsView (observe_agents snapshot agents m)
unfolding observe_agents
observe_agents-IsView snapshot [] m v = v
observe_agents-IsView snapshot (agent ∷ agents) m v =
    let observation = observation_of snapshot agent in
    observe_agents-IsView snapshot agents (insert observation.pane observation m)
      (insert-IsRising observation.pane observation m v.0, insert-IsKeyed observation m v.1)

observe_targets-IsView :
    (targets : List TargetRuntimeState) (m : Map PaneId AgentObservation)
    (sessions : Set TargetSession)
    → IsView m
    → IsView (observe_targets targets m sessions).0
unfolding observe_targets
observe_targets-IsView [] m sessions v = v
observe_targets-IsView (target ∷ targets) m sessions v =
    elim (Option-cases (live_snapshot target)) [
      | inl e ↦ rw (e, observe_targets) (observe_targets-IsView targets m sessions v)
      | inr (snapshot, e) ↦
          rw (e, observe_targets)
            (observe_targets-IsView targets _ _
              (observe_agents-IsView snapshot (values snapshot.agents) m v))
    ]

-- The last observation of a pane in a list, or what was there before.
abbrev latest : PaneId → List AgentObservation → Option AgentObservation → Option AgentObservation
latest pane [] before = before
latest pane (observation ∷ observations) before =
    latest pane observations (ite (id_ord.same observation.pane pane) (some observation) before)

-- What a view shows of a pane, or what was there before.
abbrev pub shown : Option AgentObservation → Option AgentObservation → Option AgentObservation
shown none before = before
shown (some observation) before = some observation

latest-values :
    (pane : PaneId) (m : Map PaneId AgentObservation) (before : Option AgentObservation)
    → IsView m
    → latest pane (values m) before ≡ shown (lookup pane m) before
unfolding lookup
latest-values pane [] before v = refl
latest-values pane ((k, observation) ∷ m) before v = elim (id_ord.same k pane) [
  | yes q ↦ ground (
    arith,
    v.1.0,
    q,
    latest-values pane m (some observation) (v.0.1, v.1.1),
    lookup-Above k m v.0.0,
    ap (λ i. lookup i m) q,
  )
  | no d ↦ ground (arith, v.1.0, d, latest-values pane m before (v.0.1, v.1.1))
]

module _ (clock : ℕ → ℕ) where
  push_event-observations :
      (observation : AgentObservation) (kind : AttentionEventKind) (index : AttentionIndex)
      → (push_event clock observation kind index).observations ≡ index.observations
  unfolding push_event
  push_event-observations observation kind index = refl

  observations-note :
      (observation : AgentObservation) (index : AttentionIndex) (pane : PaneId)
      → lookup pane (note clock observation index).0.observations
        ≡ ite
            (id_ord.same observation.pane pane)
            (some observation)
            (lookup pane index.observations)
  unfolding note push_event
  observations-note observation index pane =
      elim (Option-cases (lookup observation.pane index.observations)) [
        | inl e ↦ rw (e, note) (lookup-insert observation.pane observation index.observations pane)
        | inr (previous, e) ↦ ground (
          arith,
          e,
          lookup-insert observation.pane observation index.observations pane,
          ap (λ i. lookup i index.observations),
        )
      ]

  observations-note_all :
      (observations : List AgentObservation) (index : AttentionIndex) (pane : PaneId)
      → lookup pane (note_all clock observations index).0.observations
        ≡ latest pane observations (lookup pane index.observations)
  unfolding note_all
  observations-note_all [] index pane = refl
  observations-note_all (observation ∷ observations) index pane =
      observations-note_all observations (note clock observation index).0 pane
      ∙ ap (latest pane observations) (observations-note observation index pane)

  observations-retire_all :
      (panes : List PaneId) (index : AttentionIndex) (pane : PaneId)
      → lookup pane (retire_all clock panes index).0.observations
        ≡ (if listed pane panes then none else lookup pane index.observations)
  unfolding retire_all push_event
  observations-retire_all [] index pane = refl
  observations-retire_all (gone ∷ panes) index pane =
      elim (Option-cases (lookup gone index.observations)) [
        | inl e ↦
            rw (e, retire_all)
              (ground (
                arith,
                e,
                observations-retire_all panes index pane,
                ap (λ i. lookup i index.observations),
              ))
        | inr (observation, e) ↦
            rw (e, retire_all)
              (ground (
                arith,
                observations-retire_all panes
                    (push_event clock observation disappeared
                      (record index { observations = remove gone index.observations }))
                    pane,
                lookup-remove gone index.observations pane,
              ))
      ]

observations-forget_all :
    (panes : List PaneId) (index : AttentionIndex) (pane : PaneId)
    → lookup pane (forget_all panes index).observations
      ≡ (if listed pane panes then none else lookup pane index.observations)
unfolding forget_all
observations-forget_all [] index pane = refl
observations-forget_all (gone ∷ panes) index pane = ground (
  arith,
  observations-forget_all panes (record index { observations = remove gone index.observations })
      pane,
  lookup-remove gone index.observations pane,
)

-- The view that a state of the federation gives, and the sessions that are live in it.
abbrev pub view_of : FederationState → Map PaneId AgentObservation × Set TargetSession
view_of state = observe_targets (values state.targets) [] []

-- After a state of the federation was observed, a pane is remembered as a live target shows it; a
-- pane that none shows is remembered as it was, unless its session is live or is known no longer, and
-- then it is forgotten.
pub observations-observe :
    (clock : ℕ → ℕ) (state : FederationState) (index : AttentionIndex) (pane : PaneId)
    → lookup pane (observe clock state index).0.observations ≡ (
        if is_unconfigured state pane || has_disappeared (view_of state).0 (view_of state).1 pane
        then none
        else shown (lookup pane (view_of state).0) (lookup pane index.observations))
unfolding observe has
observations-observe clock state index pane =
    let (current, sessions) = view_of state in
    let noted = (note_all clock (values current) index).0 in
    let gone = keep (has_disappeared current sessions) (keys noted.observations) in
    let retired = (retire_all clock gone noted).0 in
    let removed = keep (is_unconfigured state) (keys retired.observations) in
    ground (
      arith,
      observations-forget_all removed retired pane,
      listed-keep (is_unconfigured state) pane (keys retired.observations),
      listed-keys pane retired.observations,
      observations-retire_all clock gone noted pane,
      listed-keep (has_disappeared current sessions) pane (keys noted.observations),
      listed-keys pane noted.observations,
      observations-note_all clock (values current) index pane,
      latest-values pane current (lookup pane index.observations)
          (observe_targets-IsView (values state.targets) [] [] (tt, tt)),
    )
