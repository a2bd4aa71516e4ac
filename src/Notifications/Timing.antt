-- ===== src/Notifications/Timing.antt =====
-- src/notifications.rs: when the queue delivers, told by what its operations have answered before.
use super_herdr.Common.{
  ℕ, ◌+◌, ◌*◌, ◌≡◌, refl, sym, ap, ◌∙◌, Bool, true, false, ◌&&◌, Option, none, some, List, [], ◌∷◌,
  arith,
}
use super_herdr.Common.Tests.{leb, is_some}
use super_herdr.Payloads.{AttentionEvent}
use super_herdr.Notifications.{
  NotificationsConfig, NotificationQueue, queue, get_or_insert, clear_pending, reconfigure, enqueue,
  back, ready_at, take_ready,
}
use super_herdr.Notifications.Queue.{
  IsQueue, is_waiting, enqueue-IsQueue, take_ready-IsQueue, reconfigure-IsQueue, queue-IsQueue,
}

-- What an operation answered: an event was taken in, a notification was delivered, another
-- configuration was put in force.
pub data Answer : Type 0 where
  accepted : (now : ℕ) → Answer
  delivered : (now : ℕ) → Answer
  configured : NotificationsConfig → Answer

abbrev pub note_if : Bool → Answer → List Answer → List Answer
note_if true answer log = answer ∷ log
note_if false answer log = log

-- A run of the queue with the answers that it gave, the last one first.
pub data Logged (config : NotificationsConfig) (last : Option ℕ)
    : List Answer → NotificationQueue → Type 0 where
  start : Logged config last [] (queue config last)
  reconfigured :
      {log : List Answer} {q : NotificationQueue}
      → Logged config last log q
      → (next : NotificationsConfig)
      → Logged config last
          (note_if (reconfigure next q).1 (configured next) log)
          (reconfigure next q).0
  offered :
      {log : List Answer} {q : NotificationQueue}
      → Logged config last log q
      → (event : AttentionEvent) → (now : ℕ)
      → Logged config last
          (note_if (enqueue event now q).1 (accepted now) log)
          (enqueue event now q).0
  taken :
      {log : List Answer} {q : NotificationQueue}
      → Logged config last log q
      → (now : ℕ)
      → Logged config last
          (note_if (is_some (take_ready now q).0) (delivered now) log)
          (take_ready now q).1

-- When the first event was taken in after the last delivery and the last change of the configuration.
abbrev pub waiting_since : List Answer → Option ℕ
waiting_since [] = none
waiting_since (accepted now ∷ log) = some (get_or_insert (waiting_since log) now)
waiting_since (delivered now ∷ log) = none
waiting_since (configured next ∷ log) = none

-- When the last delivery was.
abbrev pub last_delivery : List Answer → Option ℕ
last_delivery [] = none
last_delivery (accepted now ∷ log) = last_delivery log
last_delivery (delivered now ∷ log) = some now
last_delivery (configured next ∷ log) = last_delivery log

-- The configuration in force.
abbrev pub settings : NotificationsConfig → List Answer → NotificationsConfig
settings first [] = first
settings first (accepted now ∷ log) = settings first log
settings first (delivered now ∷ log) = settings first log
settings first (configured next ∷ log) = next

-- An event waits for half a second at least, and the last delivery is the interval ago.
abbrev pub is_due : ℕ → NotificationsConfig → List Answer → Bool
is_due now first log = elim (waiting_since log) [
  | none ↦ false
  | some since ↦ leb (since + 500000000) now && elim (last_delivery log) [
    | none ↦ true
    | some before ↦ leb (before + (settings first log).minimum_interval_seconds * 1000000000) now
  ]
]

-- The queue knows what its answers tell.
record Agrees (first : NotificationsConfig) (log : List Answer) (q : NotificationQueue)
    : Type 0 where
  since : q.queued_at ≡ waiting_since log
  before : q.last_attempt ≡ last_delivery log
  inforce : q.config ≡ settings first log

enqueue-Agrees :
    (first : NotificationsConfig) (log : List Answer) (event : AttentionEvent) (now : ℕ)
    (q : NotificationQueue)
    → Agrees first log q
    → Agrees first (note_if (enqueue event now q).1 (accepted now) log) (enqueue event now q).0
unfolding enqueue
enqueue-Agrees first log event now q a = record {
  since = ground (arith, a.since);
  before = ground (arith, a.before);
  inforce = ground (arith, a.inforce);
}

reconfigure-Agrees :
    (first : NotificationsConfig) (log : List Answer) (next : NotificationsConfig)
    (q : NotificationQueue)
    → Agrees first log q
    → Agrees first (note_if (reconfigure next q).1 (configured next) log) (reconfigure next q).0
unfolding reconfigure clear_pending
reconfigure-Agrees first log next q a = record {
  since = ground (arith, a.since);
  before = ground (arith, a.before);
  inforce = ground (arith, a.inforce);
}

take_ready-Agrees :
    (first : NotificationsConfig) (log : List Answer) (now : ℕ) (q : NotificationQueue)
    → Agrees first log q
    → Agrees first (note_if (is_some (take_ready now q).0) (delivered now) log) (take_ready now q).1
unfolding take_ready clear_pending
take_ready-Agrees first log now q a = record {
  since = ground (arith, a.since);
  before = ground (arith, a.before);
  inforce = ground (arith, a.inforce);
}

logged-Agrees :
    {config : NotificationsConfig} {last : Option ℕ} {log : List Answer} {q : NotificationQueue}
    → Logged config last log q
    → Agrees config log q × IsQueue q
unfolding queue
logged-Agrees {config} {last} start =
    (record { since = refl; before = refl; inforce = refl }, queue-IsQueue config last)
logged-Agrees {config} (reconfigured {log} {q} run next) =
    let (a, v) = logged-Agrees run in
    (reconfigure-Agrees config log next q a, reconfigure-IsQueue next q v)
logged-Agrees {config} (offered {log} {q} run event now) =
    let (a, v) = logged-Agrees run in
    (enqueue-Agrees config log event now q a, enqueue-IsQueue event now q v)
logged-Agrees {config} (taken {log} {q} run now) =
    let (a, v) = logged-Agrees run in
    (take_ready-Agrees config log now q a, take_ready-IsQueue now q v)

back-waits : (events : List AttentionEvent) → is_some (back events) ≡ is_waiting events
back-waits [] = refl
back-waits (event ∷ []) = refl
back-waits (event ∷ next ∷ events) = back-waits (next ∷ events)

-- From an empty queue, whatever was offered, taken and reconfigured, a notification is delivered
-- exactly if half a second has passed since the first event taken in after the last delivery and the
-- last change of the configuration, and the interval of the configuration in force since the last
-- delivery; then that configuration enables notifications, and an event waits.
pub run_delivers :
    (config : NotificationsConfig) (last : Option ℕ) (log : List Answer) (q : NotificationQueue)
    (now : ℕ)
    → Logged config last log q
    → (is_some (take_ready now q).0 ≡ is_due now config log)
      × (is_due now config log ≡ true
          → ((settings config log).enabled ≡ true) × (is_waiting q.pending ≡ true))
unfolding take_ready ready_at
run_delivers config last log q now run =
    let (a, v) = logged-Agrees run in
    (
      ground
          (arith, a.since, a.before, a.inforce, v.waits, v.counts, v.active, back-waits q.pending),
      λ due.
          let waits : is_waiting q.pending ≡ true = ground (arith, a.since, v.waits) in
          (ap (λ (c : NotificationsConfig). c.enabled) (sym a.inforce) ∙ v.active waits, waits),
    )
