-- ===== src/Notifications/Queue.antt =====
-- src/notifications.rs: what the queue keeps, and that it takes no event twice.
use super_herdr.Common.{
  ℕ, ◌≤◌, ◌≡◌, refl, ◌∙◌, Bool, true, false, not, ◌||◌, Option, none, some, List, [], ◌∷◌, ◌++◌,
  inl, inr, arith,
}
use super_herdr.Common.Tests.{
  ltb, leb, ◌==◌, if◌then◌else◌, if_rule, ite_rule, Option-cases, Bool-cases, is_some,
}
use super_herdr.Common.Lists.{length, length-append}
use super_herdr.Payloads.{AttentionEvent}
use super_herdr.Notifications.{
  NotificationsConfig, NotificationQueue, NotificationDelivery, queue, clear_pending, config_same,
  reconfigure, should_notify, drop_excess, is_seen, enqueue, back, ready_at, take_ready,
}

-- One thing that happens to the queue.
pub data Step : NotificationQueue → NotificationQueue → Type 0 where
  reconfigured :
      {q : NotificationQueue} → (config : NotificationsConfig) → Step q (reconfigure config q).0
  offered :
      {q : NotificationQueue}
      → (event : AttentionEvent) → (now : ℕ) → Step q (enqueue event now q).0
  taken : {q : NotificationQueue} → (now : ℕ) → Step q (take_ready now q).1

-- Any run of them.
pub data Run (first : NotificationQueue) : NotificationQueue → Type 0 where
  start : Run first first
  thence : {q next : NotificationQueue} → Run first q → Step q next → Run first next

abbrev pub is_waiting {ℓ} : {A : Type ℓ} → List A → Bool
is_waiting [] = false
is_waiting (x ∷ xs) = true

-- A queue holds no more than sixteen events, and it waits exactly if it holds one; then it is enabled.
pub record IsQueue (q : NotificationQueue) : Type 0 where
  pub bounded : length q.pending ≤ 16
  pub counted : length q.pending ≤ q.pending_count
  pub waits : is_waiting q.pending ≡ is_some q.queued_at
  pub counts : is_waiting q.pending ≡ not (q.pending_count == 0)
  pub active : is_waiting q.pending ≡ true → q.config.enabled ≡ true

length-drop_excess :
    (events : List AttentionEvent)
    → (length (drop_excess events) ≤ 16) × (length (drop_excess events) ≤ length events)
unfolding drop_excess
length-drop_excess [] = omega arith
length-drop_excess (event ∷ events) = ground (arith, length-drop_excess events)

drop_excess-waits :
    (events : List AttentionEvent) → is_waiting (drop_excess events) ≡ is_waiting events
unfolding drop_excess
drop_excess-waits [] = refl
drop_excess-waits (event ∷ events) = ground (arith, drop_excess-waits events)

is_waiting-append :
    (events : List AttentionEvent) (event : AttentionEvent)
    → is_waiting (events ++ (event ∷ [])) ≡ true
is_waiting-append [] event = refl
is_waiting-append (held ∷ events) event = refl

pub clear_pending-IsQueue : (q : NotificationQueue) → IsQueue (clear_pending q)
unfolding clear_pending
clear_pending-IsQueue q = record {
  bounded = omega arith;
  counted = omega arith;
  waits = refl;
  counts = refl;
  active = λ e. cc;
}

pub enqueue-IsQueue :
    (event : AttentionEvent) (now : ℕ) (q : NotificationQueue)
    → IsQueue q
    → IsQueue (enqueue event now q).0
unfolding enqueue
enqueue-IsQueue event now q v =
    let P = λ (r : NotificationQueue × Bool). IsQueue r.0 in
    let pending = q.pending ++ (event ∷ []) in
    let size = length-drop_excess pending in
    let waiting = drop_excess-waits pending ∙ is_waiting-append q.pending event in
    let seen : IsQueue (record q { last_seen_id = some event.id }) = record {
      bounded = v.bounded;
      counted = v.counted;
      waits = v.waits;
      counts = v.counts;
      active = v.active;
    } in
    if_rule P (is_seen event q.last_seen_id) v
      (elim (Bool-cases (not q.config.enabled || not (should_notify q.config event.kind))) [
        | inl e ↦ rw e seen
        | inr e ↦ rw e (record {
          bounded = size.0;
          counted = omega (arith, size, v.counted, length-append q.pending (event ∷ []));
          waits = waiting;
          counts = ground (arith, waiting);
          active = λ f. ground arith;
        })
      ])

pub take_ready-IsQueue :
    (now : ℕ) (q : NotificationQueue) → IsQueue q → IsQueue (take_ready now q).1
unfolding take_ready
take_ready-IsQueue now q v =
    let P = λ (r : Option NotificationDelivery × NotificationQueue). IsQueue r.1 in
    if_rule P (not q.config.enabled || q.pending_count == 0) v (elim (Option-cases q.queued_at) [
      | inl e ↦ rw e v
      | inr (queued, e) ↦ rw e (
          if_rule P (ltb now (ready_at queued q)) v (elim (Option-cases (back q.pending)) [
            | inl f ↦ rw f v
            | inr (latest, f) ↦
                let cleared = clear_pending-IsQueue q in
                rw f (record {
                  bounded = cleared.bounded;
                  counted = cleared.counted;
                  waits = cleared.waits;
                  counts = cleared.counts;
                  active = cleared.active;
                })
          ]))
    ])

pub reconfigure-IsQueue :
    (config : NotificationsConfig) (q : NotificationQueue)
    → IsQueue q
    → IsQueue (reconfigure config q).0
unfolding reconfigure
reconfigure-IsQueue config q v =
    ite_rule (λ (r : NotificationQueue × Bool). IsQueue r.0) (config_same q.config config) v
      (clear_pending-IsQueue (record q { config = config }))

pub queue-IsQueue : (config : NotificationsConfig) (last : Option ℕ) → IsQueue (queue config last)
unfolding queue
queue-IsQueue config last = record {
  bounded = omega arith;
  counted = omega arith;
  waits = refl;
  counts = refl;
  active = λ e. cc;
}

-- An event up to this identifier has been offered.
abbrev covers : ℕ → Option ℕ → Bool
covers id none = false
covers id (some seen) = leb id seen

last_seen-enqueue :
    (event : AttentionEvent) (now id : ℕ) (q : NotificationQueue)
    → covers id (enqueue event now q).0.last_seen_id
      ≡ (if is_seen event q.last_seen_id then covers id q.last_seen_id else leb id event.id)
unfolding enqueue
last_seen-enqueue event now id q = ground arith

last_seen-take_ready :
    (now : ℕ) (q : NotificationQueue) → (take_ready now q).1.last_seen_id ≡ q.last_seen_id
unfolding take_ready
last_seen-take_ready now q = ground arith

last_seen-reconfigure :
    (config : NotificationsConfig) (q : NotificationQueue)
    → (reconfigure config q).0.last_seen_id ≡ q.last_seen_id
unfolding reconfigure
last_seen-reconfigure config q = ground arith

covers-step :
    {q next : NotificationQueue} (id : ℕ)
    → Step q next
    → covers id q.last_seen_id ≡ true
    → covers id next.last_seen_id ≡ true
unfolding is_seen
covers-step {q} id (reconfigured config) c = rw (last_seen-reconfigure config q) c
covers-step {q} id (offered event now) c = ground (arith, last_seen-enqueue event now id q)
covers-step {q} id (taken now) c = rw (last_seen-take_ready now q) c

covers-run :
    {first q : NotificationQueue} (id : ℕ)
    → Run first q
    → covers id first.last_seen_id ≡ true
    → covers id q.last_seen_id ≡ true
covers-run id start c = c
covers-run id (thence run step) c = covers-step id step (covers-run id run c)

pub enqueue_once :
    (event : AttentionEvent) (first_time again : ℕ) (before q : NotificationQueue)
    → Run (enqueue event first_time before).0 q
    → enqueue event again q ≡ (q, false)
unfolding enqueue is_seen
enqueue_once event first_time again before q run =
    let offered_once = last_seen-enqueue event first_time event.id before in
    let seen = covers-run event.id run (ground (arith, offered_once)) in ground (arith, seen)
