-- ===== src/Examples/Supervised.antt =====
-- The theorem on the supervisor's records, on one target.
use super_herdr.Common.{◌≡◌, refl, true, false, none, some, [], ◌∷◌, ℕ_discrete}
use super_herdr.Common.Order.{text, key_same, list_same}
use super_herdr.Common.Maps.{lookup, insert, adjust, has}
use super_herdr.Common.Every.{Every-insert, Every-empty}
use super_herdr.Model.{session_ord}
use super_herdr.Federation.{FederationState, TargetRuntimeState, connecting, polling, backoff}
use super_herdr.Federation.Reducers.{
  record_success, record_backoff, modify, accepts_generation, is_stale, IsSound, AllSound, start,
  thence, read, waited, run-IsSound,
}
use super_herdr.Examples.Attended.{session_one, snapshot_one}

abbrev first_target : TargetRuntimeState
first_target = record {
  key = session_one;
  endpoint = text "host";
  connection = connecting;
  update_mode = polling;
  event_error = none;
  connection_generation = 0;
  selected_herdr_bin = none;
  roots = [];
  snapshot = none;
  last_error = none;
  last_success = none;
  retry_at = none;
}

abbrev first : FederationState
first = record { revision = 0; targets = (session_one, first_target) ∷ [] }

first-AllSound : AllSound first
unfolding lookup insert
first-AllSound =
    Every-insert IsSound session_one first_target []
      (record { shown = λ e. cc; clean = λ e. cc; waits = λ e. cc }) (Every-empty IsSound)

-- Read once, and then lost.
abbrev lost : FederationState
lost =
    record_backoff session_one 1 (some 900) (text "timed out")
      (record_success session_one 1 (text "herdr") snapshot_one 100 first)

abbrev lost_target : TargetRuntimeState
lost_target = record first_target {
  connection = backoff 1;
  connection_generation = 1;
  selected_herdr_bin = some (text "herdr");
  snapshot = some snapshot_one;
  last_error = some (text "timed out");
  last_success = some 100;
  retry_at = some 900;
}

lost_here : lookup session_one lost.targets ≡ some lost_target
unfolding record_backoff record_success modify lookup adjust has session_ord key_same list_same
    ℕ_discrete
lost_here = refl

run-IsSound_example :
    IsSound lost_target × (accepts_generation 1 lost_target ≡ true → is_stale lost_target ≡ false)
run-IsSound_example =
    run-IsSound first lost session_one lost_target 1 first-AllSound
      (thence (thence start (read session_one 1 (text "herdr") snapshot_one 100))
        (waited session_one 1 (some 900) (text "timed out")))
      lost_here
