-- ===== src/Examples/Notified.antt =====
-- The theorems on notifications, on one event.
use super_herdr.Common.{◌≡◌, List, [], ◌∷◌, true, false, none}
use super_herdr.Common.Tests.{is_some}
use super_herdr.Common.Order.{text}
use super_herdr.Payloads.{AttentionEvent, needs_attention}
use super_herdr.Notifications.{NotificationsConfig, NotificationQueue, queue, enqueue, take_ready}
use super_herdr.Notifications.Queue.{start, thence, taken, is_waiting, enqueue_once}
use super_herdr.Notifications.Timing.{Answer, accepted, Logged, is_due, settings, run_delivers}

abbrev loud : NotificationsConfig
loud = record {
  enabled = true;
  needs_attention = true;
  completed = true;
  disappeared = true;
  working = false;
  status_changed = false;
  devices = false;
  minimum_interval_seconds = 30;
  command_timeout_seconds = 5;
}

abbrev event_one : AttentionEvent
event_one = record {
  id = 1;
  pane = record { target = text "host"; session = text "main"; resource = text "p1" };
  agent = text "builder";
  workspace = text "api";
  status = text "waiting";
  kind = needs_attention;
  occurred_at_ms = 40;
  unread = true;
}

abbrev holding : NotificationQueue
holding = (enqueue event_one 100 (queue loud none)).0

abbrev one_accepted : List Answer
one_accepted = accepted 100 ∷ []

run_delivers_example :
    (is_some (take_ready 600000000 holding).0 ≡ is_due 600000000 loud one_accepted)
    × (is_due 600000000 loud one_accepted ≡ true
        → ((settings loud one_accepted).enabled ≡ true) × (is_waiting holding.pending ≡ true))
unfolding enqueue queue
run_delivers_example =
    run_delivers loud none one_accepted holding 600000000
      (Logged.offered Logged.start event_one 100)

enqueue_once_example :
    enqueue event_one 900000000 (take_ready 600000000 holding).1
    ≡ ((take_ready 600000000 holding).1, false)
enqueue_once_example =
    enqueue_once event_one 100 900000000 (queue loud none) (take_ready 600000000 holding).1
      (thence start (taken 600000000))
