-- ===== src/Notifications.antt =====
-- src/notifications.rs: which events are notified, and when. Times are in nanoseconds. Sending a
-- notification to the desktop is left out.
pub mod Queue
pub mod Timing
use super_herdr.Common.{
  ℕ, ◌+◌, ◌*◌, ◌≡◌, Bool, true, false, not, ◌&&◌, ◌||◌, Option, none, some, List, [], ◌∷◌, ◌++◌,
  ite, min, max, ℕ_discrete,
}
use mathlib.Core.Bool.{Bool-discrete}
use super_herdr.Common.Tests.{ltb, leb, ◌==◌, if◌then◌else◌}
use super_herdr.Common.Lists.{length, drop}
use super_herdr.Common.Order.{Text, text}
use super_herdr.Common.Results.{Result, ok, err}
use super_herdr.Common.Texts.{bounded_metadata, decimal_digits}
use super_herdr.Model.{PaneId}
use super_herdr.Payloads.{
  AttentionEvent, AttentionEventKind, needs_attention, working, completed, status_changed,
  disappeared,
}

-- `config.rs`.
pub record NotificationsConfig : Type 0 where
  pub enabled : Bool
  pub needs_attention : Bool
  pub completed : Bool
  pub disappeared : Bool
  pub working : Bool
  pub status_changed : Bool
  pub devices : Bool
  pub minimum_interval_seconds : ℕ
  pub command_timeout_seconds : ℕ

unfoldable pub config_same : Discrete NotificationsConfig
config_same = hlevel (ℕ_discrete)

abbrev pub seconds : ℕ → ℕ
seconds n = n * 1000000000

abbrev pub coalesce_window : ℕ
coalesce_window = 500000000

abbrev pub max_pending_metadata : ℕ
max_pending_metadata = 16

pub record NotificationQueue : Type 0 where
  pub config : NotificationsConfig
  pub last_seen_id : Option ℕ
  pub pending : List AttentionEvent
  pub pending_count : ℕ
  pub queued_at : Option ℕ
  pub last_attempt : Option ℕ

-- `NotificationQueue::new`.
unfoldable pub queue : NotificationsConfig → Option ℕ → NotificationQueue
queue config last_seen_id = record {
  config = config;
  last_seen_id = last_seen_id;
  pending = [];
  pending_count = 0;
  queued_at = none;
  last_attempt = none;
}

unfoldable pub clear_pending : NotificationQueue → NotificationQueue
clear_pending q = record q { pending = []; pending_count = 0; queued_at = none }

unfoldable pub reconfigure : NotificationsConfig → NotificationQueue → NotificationQueue × Bool
unfolding clear_pending config_same
reconfigure config q =
    ite (config_same q.config config) (q, false)
      (clear_pending (record q { config = config }), true)

unfoldable pub should_notify : NotificationsConfig → AttentionEventKind → Bool
should_notify config needs_attention = config.needs_attention
should_notify config working = config.working
should_notify config completed = config.completed
should_notify config status_changed = config.status_changed
should_notify config disappeared = config.disappeared

-- The loop that drops the oldest events beyond the limit.
unfoldable pub drop_excess : List AttentionEvent → List AttentionEvent
drop_excess [] = []
drop_excess (event ∷ events) =
    let rest = drop_excess events in
    if ltb max_pending_metadata (length (event ∷ events)) then rest else event ∷ events

unfoldable pub is_seen : AttentionEvent → Option ℕ → Bool
is_seen event none = false
is_seen event (some id) = leb event.id id

abbrev pub get_or_insert {ℓ} : {A : Type ℓ} → Option A → A → A
get_or_insert none a = a
get_or_insert (some b) a = b

unfoldable pub enqueue : AttentionEvent → ℕ → NotificationQueue → NotificationQueue × Bool
unfolding should_notify drop_excess is_seen
enqueue event now q =
    let seen = record q { last_seen_id = some event.id } in
    if is_seen event q.last_seen_id
    then (q, false)
    else if not q.config.enabled || not (should_notify q.config event.kind)
    then (seen, false)
    else (
      record seen {
        pending_count = min (q.pending_count + 1) 18446744073709551615;
        pending = drop_excess (q.pending ++ (event ∷ []));
        queued_at = some (get_or_insert q.queued_at now);
      },
      true,
    )

pub record NotificationDelivery : Type 0 where
  pub title : Text
  pub body : Text
  pub pane : Option PaneId
  pub timeout : ℕ

-- `AttentionEventKind::label`.
unfoldable pub label : AttentionEventKind → Text
label needs_attention = text "needs input"
label working = text "working"
label completed = text "completed"
label status_changed = text "status changed"
label disappeared = text "disappeared"

-- `Display` of a `usize`.
abbrev pub decimal_usize : ℕ → Text
decimal_usize n = decimal_digits 20 n

unfoldable pub kind_title : AttentionEventKind → Text
kind_title needs_attention = text "Agent needs attention"
kind_title working = text "Agent started working"
kind_title completed = text "Agent completed"
kind_title status_changed = text "Agent status changed"
kind_title disappeared = text "Agent disappeared"

unfoldable pub notification_title : ℕ → AttentionEvent → Text
unfolding kind_title decimal_digits
notification_title count latest =
    if ltb 1 count
    then decimal_usize count ++ text " Super-Herdr agent updates"
    else kind_title latest.kind

-- The dot between words is U+00B7.
abbrev pub dot : Text
dot = 32 ∷ 0xb7 ∷ 32 ∷ []

unfoldable pub notification_body : ℕ → AttentionEvent → Text
unfolding label bounded_metadata decimal_digits
notification_body count latest =
    let prefix =
      if ltb 1 count then text "Latest of " ++ (decimal_usize count ++ text ": ") else [] in
    prefix
    ++ (bounded_metadata latest.agent 128
        ++ (dot
            ++ (bounded_metadata latest.workspace 128
                ++ ((10 ∷ [])
                    ++ (bounded_metadata latest.pane.target 128
                        ++ (text "/"
                            ++ (bounded_metadata latest.pane.session 128
                                ++ (dot ++ label latest.kind))))))))

-- `VecDeque::back`.
abbrev pub back {ℓ} : {A : Type ℓ} → List A → Option A
back [] = none
back (x ∷ []) = some x
back (x ∷ y ∷ ys) = back (y ∷ ys)

-- The time before which a queue that waits since `queued` delivers nothing.
unfoldable pub ready_at : ℕ → NotificationQueue → ℕ
ready_at queued q =
    let rate_limited_at : ℕ = elim q.last_attempt [
      | none ↦ queued
      | some attempt ↦ attempt + seconds q.config.minimum_interval_seconds
    ] in
    max (queued + coalesce_window) rate_limited_at

unfoldable pub delivery_of : NotificationsConfig → ℕ → AttentionEvent → NotificationDelivery
unfolding notification_title notification_body
delivery_of config count latest = record {
  title = notification_title count latest;
  body = notification_body count latest;
  pane = some latest.pane;
  timeout = seconds config.command_timeout_seconds;
}

unfoldable pub take_ready : ℕ → NotificationQueue → Option NotificationDelivery × NotificationQueue
unfolding ready_at delivery_of clear_pending
take_ready now q =
    if not q.config.enabled || q.pending_count == 0 then (none, q) else (elim q.queued_at [
      | none ↦ (none, q)
      | some queued ↦ if ltb now (ready_at queued q) then (none, q) else (elim (back q.pending) [
        | none ↦ (none, q)
        | some latest ↦ (
          some (delivery_of q.config q.pending_count latest),
          record (clear_pending q) { last_attempt = some now },
        )
      ])
    ])

pub data Refusal : Type 0 where
  notifications_disabled : Refusal

unfoldable pub test_delivery : NotificationsConfig → Result Refusal NotificationDelivery
test_delivery config =
    if not config.enabled
    then err notifications_disabled
    else ok (record {
      title = text "Super-Herdr notification test";
      body = text "Native metadata-only notification delivery is working";
      pane = none;
      timeout = seconds config.command_timeout_seconds;
    })
