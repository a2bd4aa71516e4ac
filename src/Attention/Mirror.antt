-- ===== src/Attention/Mirror.antt =====
-- src/attention.rs: the copy of the history that a client keeps.
use super_herdr.Common.{
  ℕ, ◌<◌, ◌≡◌, ◌≢◌, refl, Bool, false, List, [], ◌∷◌, ◌++◌, inl, inr, max, arith,
}
use super_herdr.Common.Tests.{leb, ◌==◌, Bool-cases, saturating_add, max_u64}
use super_herdr.Common.Lists.{length, any, All, All-append}
use super_herdr.Payloads.{AttentionEvent}
use super_herdr.Attention.{AttentionIndex, replace_event, insert_by_id, sort_by_id, apply}
use super_herdr.Attention.Numbering.{
  Follow, IsRising, Under, IsNumbered, Under-le, drain_excess-IsRising, drain_excess-Under,
  length-drain_excess,
}

abbrev has_id : ℕ → List AttentionEvent → Bool
has_id id events = any (λ (held : AttentionEvent). held.id == id) events

length-replace_event :
    (event : AttentionEvent) (events : List AttentionEvent)
    → length (replace_event event events) ≡ length events
unfolding replace_event
length-replace_event event [] = refl
length-replace_event event (held ∷ events) = ground (arith, length-replace_event event events)

Under-replace_event :
    (next : ℕ) (event : AttentionEvent) (events : List AttentionEvent)
    → Under next events
    → Under next (replace_event event events)
unfolding replace_event
Under-replace_event next event [] u = tt
Under-replace_event next event (held ∷ events) u =
    let rest = Under-replace_event next event events u.1 in
    elim (Bool-cases (held.id == event.id)) [
      | inl e ↦ rw e (ground arith, u.1)
      | inr e ↦ rw e (u.0, rest)
    ]

Follow-replace_event :
    (first event : AttentionEvent) (events : List AttentionEvent)
    → Follow first events
    → Follow first (replace_event event events)
unfolding replace_event
Follow-replace_event first event [] u = tt
Follow-replace_event first event (held ∷ events) u =
    let rest = Follow-replace_event first event events u.1 in
    elim (Bool-cases (held.id == event.id)) [
      | inl e ↦ rw e (ground arith, u.1)
      | inr e ↦ rw e (u.0, rest)
    ]

-- A list of events follows one event as it does another of the same number.
Follow-same :
    (held event : AttentionEvent) (events : List AttentionEvent)
    → held.id ≡ event.id
    → Follow held events
    → Follow event events
Follow-same held event [] e f = tt
Follow-same held event (later ∷ events) e f = (omega arith, Follow-same held event events e f.1)

IsRising-replace_event :
    (event : AttentionEvent) (events : List AttentionEvent)
    → IsRising events
    → IsRising (replace_event event events)
unfolding replace_event
IsRising-replace_event event [] r = tt
IsRising-replace_event event (held ∷ events) r =
    let rest = IsRising-replace_event event events r.1 in
    elim (Bool-cases (held.id == event.id)) [
      | inl e ↦ rw e (Follow-same held event events (ground arith) r.0, r.1)
      | inr e ↦ rw e (Follow-replace_event held event events r.0, rest)
    ]

abbrev Lacks : ℕ → List AttentionEvent → Type 0
Lacks id events = All (λ (held : AttentionEvent). held.id ≢ id) events

abbrev IsDistinct : List AttentionEvent → Type 0
IsDistinct [] = Unit
IsDistinct (event ∷ events) = Lacks event.id events × IsDistinct events

-- What holds of the event and of all others holds after it is put in its place.
All-insert_by_id {ℓ} :
    (P : AttentionEvent → Type ℓ) (event : AttentionEvent) (events : List AttentionEvent)
    → P event
    → All P events
    → All P (insert_by_id event events)
unfolding insert_by_id
All-insert_by_id P event [] p ps = (p, tt)
All-insert_by_id P event (held ∷ events) p ps =
    let rest = All-insert_by_id P event events p ps.1 in
    elim (Bool-cases (leb event.id held.id)) [ inl e ↦ rw e (p, ps) | inr e ↦ rw e (ps.0, rest) ]

All-sort_by_id {ℓ} :
    (P : AttentionEvent → Type ℓ) (events : List AttentionEvent)
    → All P events
    → All P (sort_by_id events)
unfolding sort_by_id
All-sort_by_id P [] ps = tt
All-sort_by_id P (event ∷ events) ps =
    All-insert_by_id P event (sort_by_id events) ps.0 (All-sort_by_id P events ps.1)

Follow-before :
    (event held : AttentionEvent) (events : List AttentionEvent)
    → event.id < held.id
    → Follow held events
    → Follow event events
Follow-before event held [] h f = tt
Follow-before event held (later ∷ events) h f = (omega arith, Follow-before event held events h f.1)

insert_by_id-IsRising :
    (event : AttentionEvent) (events : List AttentionEvent)
    → Lacks event.id events
    → IsRising events
    → IsRising (insert_by_id event events)
unfolding insert_by_id
insert_by_id-IsRising event [] n r = (tt, tt)
insert_by_id-IsRising event (held ∷ events) n r =
    let rest = insert_by_id-IsRising event events n.1 r.1 in
    elim (Bool-cases (leb event.id held.id)) [
      | inl e ↦
          let below : event.id < held.id = ground (arith, n.0) in
          rw e ((below, Follow-before event held events below r.0), r)
      | inr e ↦ rw e (
        All-insert_by_id (λ (later : AttentionEvent). held.id < later.id) event events
            (ground (arith, n.0)) r.0,
        rest,
      )
    ]

-- Events that all have other numbers are sorted into rising order.
sort_by_id-IsRising :
    (events : List AttentionEvent) → IsDistinct events → IsRising (sort_by_id events)
unfolding sort_by_id
sort_by_id-IsRising [] d = tt
sort_by_id-IsRising (event ∷ events) d =
    insert_by_id-IsRising event (sort_by_id events)
      (All-sort_by_id (λ (held : AttentionEvent). held.id ≢ event.id) events d.0)
      (sort_by_id-IsRising events d.1)

Lacks-above :
    (held : AttentionEvent) (events : List AttentionEvent)
    → Follow held events
    → Lacks held.id events
Lacks-above held [] f = tt
Lacks-above held (later ∷ events) f = (omega (arith, f.0), Lacks-above held events f.1)

-- A rising list and one event more, with a number that none has, have all other numbers.
IsDistinct-append :
    (event : AttentionEvent) (events : List AttentionEvent)
    → has_id event.id events ≡ false
    → IsRising events
    → IsDistinct (events ++ (event ∷ []))
IsDistinct-append event [] h r = (tt, tt)
IsDistinct-append event (held ∷ events) h r =
    let apart : event.id ≢ held.id = ground arith in
    (
      All-append (λ (later : AttentionEvent). later.id ≢ held.id) events (event ∷ [])
          (Lacks-above held events r.0) (apart, tt),
      IsDistinct-append event events (ground arith) r.1,
    )

-- A copy that takes in an event keeps its events numbered in their order, below the number that
-- comes next, and no more than 256, whether the event is new or a later copy of one it has, unless
-- the event has the last number of a `u64`.
pub apply-IsNumbered :
    (event : AttentionEvent) (index : AttentionIndex)
    → event.id < max_u64
    → IsNumbered index
    → IsNumbered (apply event index).0
unfolding apply
apply-IsNumbered event index h v = elim (Bool-cases (has_id event.id index.events)) [
  | inl e ↦ rw e (record {
    rising = IsRising-replace_event event index.events v.rising;
    below = Under-replace_event index.next_event_id event index.events v.below;
    bounded = rw (length-replace_event event index.events) v.bounded;
  })
  | inr e ↦
      let next = max index.next_event_id (saturating_add event.id 1) in
      let events = sort_by_id (index.events ++ (event ∷ [])) in
      rw e (record {
        rising = drain_excess-IsRising events (
            sort_by_id-IsRising (index.events ++ (event ∷ []))
              (IsDistinct-append event index.events e v.rising));
        below = drain_excess-Under next events (
            All-sort_by_id (λ (held : AttentionEvent). held.id < next)
              (index.events ++ (event ∷ []))
              (All-append (λ (held : AttentionEvent). held.id < next) index.events (event ∷ [])
                (Under-le index.next_event_id next index.events (omega arith) v.below)
                (omega arith, tt)));
        bounded = length-drain_excess events;
      })
]
