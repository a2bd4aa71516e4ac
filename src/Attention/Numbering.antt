-- ===== src/Attention/Numbering.antt =====
-- src/attention.rs: how events are numbered, and how many are kept.
use super_herdr.Common.{ℕ, zero, suc, ◌-◌, ◌≤◌, ◌<◌, true, List, [], ◌∷◌, ◌++◌, arith}
use super_herdr.Common.Tests.{saturating_add, max_u64}
use super_herdr.Common.Lists.{length, drop, All, All-append, length-drop}
use super_herdr.Model.{id_ord}
use super_herdr.Payloads.{AttentionEvent, AttentionEventKind}
use super_herdr.Attention.{AgentObservation, AttentionIndex, drain_excess, push_event}

-- Every event of the list is numbered after `event`.
abbrev pub Follow : AttentionEvent → List AttentionEvent → Type 0
Follow event events = All (λ (later : AttentionEvent). event.id < later.id) events

abbrev pub IsRising : List AttentionEvent → Type 0
IsRising [] = Unit
IsRising (event ∷ events) = Follow event events × IsRising events

abbrev pub Under : ℕ → List AttentionEvent → Type 0
Under next events = All (λ (event : AttentionEvent). event.id < next) events

-- Events are numbered in their order, below the number that comes next, and are no more than are
-- kept.
pub record IsNumbered (index : AttentionIndex) : Type 0 where
  pub rising : IsRising index.events
  pub below : Under index.next_event_id index.events
  pub bounded : length index.events ≤ 256

IsRising-append :
    (events : List AttentionEvent) (event : AttentionEvent)
    → IsRising events
    → Under event.id events
    → IsRising (events ++ (event ∷ []))
IsRising-append [] event r u = (tt, tt)
IsRising-append (held ∷ events) event r u = (
  All-append (λ (later : AttentionEvent). held.id < later.id) events (event ∷ []) r.0 (u.0, tt),
  IsRising-append events event r.1 u.1,
)

IsRising-drop : (n : ℕ) (events : List AttentionEvent) → IsRising events → IsRising (drop n events)
IsRising-drop zero events r = r
IsRising-drop (suc n) [] r = tt
IsRising-drop (suc n) (event ∷ events) r = IsRising-drop n events r.1

Under-drop :
    (next n : ℕ) (events : List AttentionEvent) → Under next events → Under next (drop n events)
Under-drop next zero events u = u
Under-drop next (suc n) [] u = tt
Under-drop next (suc n) (event ∷ events) u = Under-drop next n events u.1

pub Under-le :
    (n next : ℕ) (events : List AttentionEvent) → n ≤ next → Under n events → Under next events
Under-le n next [] h u = tt
Under-le n next (event ∷ events) h u = (omega arith, Under-le n next events h u.1)

-- Draining keeps the order, and leaves no more than are kept.
pub drain_excess-IsRising :
    (events : List AttentionEvent) → IsRising events → IsRising (drain_excess events)
unfolding drain_excess
drain_excess-IsRising events r = ground (arith, IsRising-drop (length events - 256) events r)

pub drain_excess-Under :
    (next : ℕ) (events : List AttentionEvent) → Under next events → Under next (drain_excess events)
unfolding drain_excess
drain_excess-Under next events u = ground (arith, Under-drop next (length events - 256) events u)

pub length-drain_excess : (events : List AttentionEvent) → length (drain_excess events) ≤ 256
unfolding drain_excess
length-drain_excess events = ground (arith, length-drop (length events - 256) events)

module _ (clock : ℕ → ℕ) where
  pub push_event-IsNumbered :
      (observation : AgentObservation) (kind : AttentionEventKind) (index : AttentionIndex)
      → (push_event clock observation kind index).next_event_id < max_u64
      → IsNumbered index
      → IsNumbered (push_event clock observation kind index)
  unfolding push_event
  push_event-IsNumbered observation kind index h v =
      let next = saturating_add index.next_event_id 1 in
      let event : AttentionEvent = record {
        id = index.next_event_id;
        pane = observation.pane;
        agent = observation.agent;
        workspace = observation.workspace;
        status = observation.status;
        kind = kind;
        occurred_at_ms = clock index.next_event_id;
        unread = true;
      } in
      let events = index.events ++ (event ∷ []) in
      record {
        rising = drain_excess-IsRising events (IsRising-append index.events event v.rising v.below);
        below = drain_excess-Under next events (
            All-append (λ (held : AttentionEvent). held.id < next) index.events (event ∷ [])
              (Under-le index.next_event_id next index.events (omega arith) v.below)
              (omega arith, tt));
        bounded = length-drain_excess events;
      }
