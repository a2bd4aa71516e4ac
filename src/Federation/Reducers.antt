-- ===== src/Federation/Reducers.antt =====
-- src/state.rs: how the supervisor of a target records what became of a read. The snapshot comes as it
-- was read, the time and the deadline as the clock gave them.
use super_herdr.Common.{
  ℕ, ◌-◌, ◌*◌, ◌^◌, ◌≡◌, refl, Bool, true, false, ◌&&◌, not, Option, none, some, List, ite, inl,
  inr, min, arith,
}
use super_herdr.Common.Tests.{if◌then◌else◌, ◌==◌, saturating_add, is_some, Option-cases, if_rule}
use super_herdr.Common.Order.{Text, text_ord}
use super_herdr.Common.Maps.{lookup, adjust, has}
use super_herdr.Common.Every.{Every, Every-adjust}
use super_herdr.Model.{TargetSession, session_ord}
use super_herdr.Federation.{
  NormalizedSnapshot, connecting, live, backoff, incompatible, TargetUpdateMode, polling,
  TargetRuntimeState, FederationState, connection_same, update_mode_same, optional_text_same,
}

-- `TargetRuntimeState::new`, of the target's key, endpoint and roots.
unfoldable pub new_target : TargetSession → Text → List Text → TargetRuntimeState
new_target key endpoint roots = record {
  key = key;
  endpoint = endpoint;
  connection = connecting;
  update_mode = polling;
  event_error = none;
  connection_generation = 0;
  selected_herdr_bin = none;
  roots = roots;
  snapshot = none;
  last_error = none;
  last_success = none;
  retry_at = none;
}

-- `SupervisorOptions`, of which only the waits are read here; they are in one unit.
pub record SupervisorOptions : Type 0 where
  pub initial_backoff : ℕ
  pub maximum_backoff : ℕ

-- The product saturates beyond any maximum.
unfoldable pub retry_delay : SupervisorOptions → ℕ → ℕ
retry_delay options failed_attempts =
    min (options.initial_backoff * 2 ^ min (failed_attempts - 1) 31) options.maximum_backoff

unfoldable pub is_stale : TargetRuntimeState → Bool
unfolding connection_same
is_stale target =
    is_some target.snapshot && not (ite (connection_same target.connection live) true false)

unfoldable pub accepts_generation : ℕ → TargetRuntimeState → Bool
unfolding connection_same
accepts_generation generation target =
    ite (connection_same target.connection live) true false
    && target.connection_generation == generation

-- `send_modify` on the target, if it is there, with the revision that follows.
unfoldable pub modify :
    TargetSession → (TargetRuntimeState → TargetRuntimeState) → FederationState → FederationState
modify key change state =
    if has key state.targets
    then record state {
      revision = saturating_add state.revision 1;
      targets = adjust key change state.targets;
    }
    else state

abbrev succeeded : ℕ → Text → NormalizedSnapshot → ℕ → TargetRuntimeState → TargetRuntimeState
succeeded generation herdr_bin snapshot now target = record target {
  connection = live;
  connection_generation = generation;
  selected_herdr_bin = some herdr_bin;
  snapshot = some snapshot;
  last_error = none;
  last_success = some now;
  retry_at = none;
}

unfoldable pub record_success :
    TargetSession → ℕ → Text → NormalizedSnapshot → ℕ → FederationState → FederationState
record_success key generation herdr_bin snapshot now state =
    modify key (succeeded generation herdr_bin snapshot now) state

abbrev failed : ℕ → Option ℕ → Text → TargetRuntimeState → TargetRuntimeState
failed attempts retry_at error target = record target {
  connection = backoff attempts;
  last_error = some error;
  retry_at = retry_at;
}

unfoldable pub record_backoff :
    TargetSession → ℕ → Option ℕ → Text → FederationState → FederationState
record_backoff key failed_attempts retry_at error state =
    modify key (failed failed_attempts retry_at error) state

abbrev refused : Text → TargetRuntimeState → TargetRuntimeState
refused error target = record target {
  connection = incompatible;
  last_error = some error;
  retry_at = none;
}

unfoldable pub record_incompatible : TargetSession → Text → FederationState → FederationState
record_incompatible key error state = modify key (refused error) state

-- Nothing happens where the mode and its error are as they were.
unfoldable pub record_update_mode :
    TargetSession → TargetUpdateMode → Option Text → FederationState → FederationState
record_update_mode key update_mode event_error state = elim (lookup key state.targets) [
  | none ↦ state
  | some target ↦
      if ite (update_mode_same target.update_mode update_mode) true false
        && ite (optional_text_same target.event_error event_error) true false
      then state
      else modify key
          (λ (t : TargetRuntimeState). record t {
            update_mode = update_mode;
            event_error = event_error;
          })
          state
]

-- What holds of a target: one that is live has a snapshot, no error and no wait, and one that waits
-- for another attempt is in backoff.
pub record IsSound (target : TargetRuntimeState) : Type 0 where
  pub shown : target.connection ≡ live → is_some target.snapshot ≡ true
  pub clean : target.connection ≡ live → target.last_error ≡ none
  pub waits :
      is_some target.retry_at ≡ true → (attempts : ℕ) × (target.connection ≡ backoff attempts)

abbrev pub AllSound : FederationState → Type 0
AllSound state = Every IsSound state.targets

modify-AllSound :
    (key : TargetSession) (change : TargetRuntimeState → TargetRuntimeState)
    (state : FederationState)
    → ((target : TargetRuntimeState) → IsSound target → IsSound (change target))
    → AllSound state
    → AllSound (modify key change state)
unfolding modify
modify-AllSound key change state keeps sound =
    if_rule AllSound (has key state.targets)
      (Every-adjust IsSound key change state.targets (λ target e. keeps target (sound key target e))
        sound)
      sound

-- One record of the supervisor.
pub data Step : FederationState → FederationState → Type 0 where
  read :
      {state : FederationState}
      → (key : TargetSession) → (generation : ℕ) → (herdr_bin : Text)
      → (snapshot : NormalizedSnapshot) → (now : ℕ)
      → Step state (record_success key generation herdr_bin snapshot now state)
  waited :
      {state : FederationState}
      → (key : TargetSession) → (attempts : ℕ) → (retry_at : Option ℕ) → (error : Text)
      → Step state (record_backoff key attempts retry_at error state)
  gave_up :
      {state : FederationState}
      → (key : TargetSession) → (error : Text) → Step state (record_incompatible key error state)
  switched :
      {state : FederationState}
      → (key : TargetSession) → (mode : TargetUpdateMode) → (error : Option Text)
      → Step state (record_update_mode key mode error state)

pub data Run (first : FederationState) : FederationState → Type 0 where
  start : Run first first
  thence : {state next : FederationState} → Run first state → Step state next → Run first next

step-AllSound : {state next : FederationState} → Step state next → AllSound state → AllSound next
unfolding record_success record_backoff record_incompatible record_update_mode
step-AllSound {state} (read key generation herdr_bin snapshot now) sound =
    modify-AllSound key _ state
      (λ target s. record { shown = λ e. refl; clean = λ e. refl; waits = λ e. cc }) sound
step-AllSound {state} (waited key attempts retry_at error) sound =
    modify-AllSound key _ state
      (λ target s. record { shown = λ e. cc; clean = λ e. cc; waits = λ e. (attempts, refl) }) sound
step-AllSound {state} (gave_up key error) sound =
    modify-AllSound key _ state
      (λ target s. record { shown = λ e. cc; clean = λ e. cc; waits = λ e. cc }) sound
step-AllSound {state} (switched key mode error) sound =
    elim (Option-cases (lookup key state.targets)) [
      | inl e ↦ rw (record_update_mode, e) sound
      | inr (target, e) ↦
          rw (record_update_mode, e)
            (if_rule AllSound
              (ite (update_mode_same target.update_mode mode) true false
                && ite (optional_text_same target.event_error error) true false)
              sound
              (modify-AllSound key _ state
                (λ t s. record { shown = s.shown; clean = s.clean; waits = s.waits }) sound))
    ]

run-AllSound : {first state : FederationState} → Run first state → AllSound first → AllSound state
run-AllSound start sound = sound
run-AllSound (thence run step) sound = step-AllSound step (run-AllSound run sound)

-- From targets of which it holds, whatever the supervisors record: a target that is live has a
-- snapshot, no error and no wait for another attempt, one that waits is in backoff, and one that
-- accepts a generation is not stale.
pub run-IsSound :
    (first state : FederationState) (key : TargetSession) (target : TargetRuntimeState)
    (generation : ℕ)
    → AllSound first
    → Run first state
    → lookup key state.targets ≡ some target
    → IsSound target × (accepts_generation generation target ≡ true → is_stale target ≡ false)
unfolding accepts_generation is_stale
run-IsSound first state key target generation sound run here =
    (run-AllSound run sound key target here, λ e. ground arith)
