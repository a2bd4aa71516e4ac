-- ===== src/Pairing/Desk.antt =====
-- src/daemon/server.rs: the pairing of devices. A code is issued to a client, a browser enters it, a
-- client approves, and the device is recorded. Between the browser's request and the event loop a
-- request waits in a channel. What the machine does is taken as arguments: random bytes, the time,
-- whether the configuration could be written, and whether the browser still listens. The file of the
-- configuration is the list of its devices, and its lock is never poisoned.
use super_herdr.Common.{
  ℕ, zero, suc, ◌+◌, Bool, true, false, not, ◌&&◌, ◌||◌, Option, none, some, List, [], ◌∷◌, ◌++◌,
  ite,
}
use super_herdr.Common.Tests.{leb, ◌==◌, if◌then◌else◌}
use super_herdr.Common.Lists.{length, take, keep, any}
use super_herdr.Common.Order.{Text, text, text_ord}
use super_herdr.Common.Results.{Result, ok, err}
use super_herdr.Common.Texts.{trim, decimal_digits}
use super_herdr.Common.Maps.{Map, keys, lookup, insert, remove}
use super_herdr.Pairing.{
  PendingPairing, pending_pairing, expired, accepts, record_failure, attempts_remaining, token,
  fingerprint, matches, now_ms, is_ascii_alphanumeric,
}

-- `config.rs`.
pub record Device : Type 0 where
  pub name : Text
  pub token_sha256 : Text
  pub paired_at_ms : ℕ

pub record PendingPairingApproval : Type 0 where
  pub name : Text
  pub expires_at : ℕ

-- `Input::PairingRequested`.
pub record PairingRequested : Type 0 where
  pub attempt : Text
  pub name : Text
  pub confirmation : Text
  pub expires_at : ℕ

-- What of the daemon takes part in pairing.
pub record Desk : Type 0 where
  pub has_config : Bool
  pub devices : List Device
  pub pending : Option PendingPairing
  pub inputs : List PairingRequested
  pub approvals : Map Text PendingPairingApproval

abbrev pub max_pending_pairing_approvals : ℕ
max_pending_pairing_approvals = 16

abbrev pub pairing_approval_lifetime : ℕ
pairing_approval_lifetime = 60000000000

-- Why a code or an approval is refused.
pub data Refusal : Type 0 where
  no_configuration bad_confirmation no_secret no_code code_expired code_spent : Refusal
  wrong_code : (remaining : ℕ) → Refusal
  too_many_approvals not_waiting approval_expired approval_rejected name_taken not_written
        browser_left :
      Refusal

unfoldable pub is_name_character : ℕ → Bool
unfolding is_ascii_alphanumeric
is_name_character c = is_ascii_alphanumeric c || (c == 32 || (c == 45 || (c == 95 || c == 46)))

unfoldable pub device_name : Text → Text
unfolding is_name_character
device_name offered =
    let trimmed = trim (take 48 (keep is_name_character offered)) in
    if length trimmed == 0 then text "paired device" else trimmed

abbrev pub is_taken : Text → List Device → Bool
is_taken name devices =
    any (λ (device : Device). ite (text_ord.same device.name name) true false) devices

-- The base and a number, an `i32`, which has ten digits at most.
unfoldable pub numbered : Text → ℕ → Text
unfolding decimal_digits
numbered base suffix = base ++ (text " " ++ decimal_digits 10 suffix)

-- The search from 2 upward, of which as many steps as there are devices, and one, are enough.
unfoldable pub first_free : ℕ → ℕ → Text → List Device → Option Text
unfolding numbered
first_free zero suffix base devices = none
first_free (suc fuel) suffix base devices =
    let rest = first_free fuel (suc suffix) base devices in
    if is_taken (numbered base suffix) devices then rest else some (numbered base suffix)

unfoldable pub unique_device_name : Text → List Device → Text
unfolding device_name first_free
unique_device_name offered devices =
    let base = device_name offered in
    if not (is_taken base devices)
    then base
    else (elim (first_free (suc (length devices)) 2 base devices) [
      | none ↦ base
      | some name ↦ name
    ])

abbrev pub is_digit : ℕ → Bool
is_digit c = leb 48 c && leb c 57

unfoldable pub is_confirmation : Text → Bool
is_confirmation confirmation =
    length confirmation == 6 && not (any (λ c. not (is_digit c)) confirmation)

-- `DevicePolicy::admits`, whose digests are ASCII.
unfoldable pub admits : (List ℕ → List ℕ) → List ℕ → Desk → Bool
unfolding fingerprint matches
admits sha256 secret desk =
    any (λ (device : Device). matches device.token_sha256 (fingerprint sha256 secret)) desk.devices

-- `issue_pairing_code`; without random bytes nothing changes.
unfoldable pub issue_pairing_code : Option (List ℕ) → ℕ → Desk → Result Refusal Text × Desk
unfolding pending_pairing
issue_pairing_code none now desk = (err no_secret, desk)
issue_pairing_code (some bytes) now desk =
    let pending = pending_pairing bytes now in
    (ok pending.code, record desk { pending = some pending })

-- The part of `pair` under the lock: what is held afterwards, and why the code opens nothing.
unfoldable pub redeem : Text → ℕ → Option PendingPairing → Option PendingPairing × Option Refusal
unfolding expired accepts record_failure attempts_remaining
redeem code now none = (none, some no_code)
redeem code now (some pending) =
    let (failed, spent) = record_failure pending in
    if expired now pending
    then (none, some code_expired)
    else if not (accepts code now pending)
    then (if spent
        then (none, some code_spent)
        else (some failed, some (wrong_code (attempts_remaining failed))))
    else (none, none)

-- `DevicePolicy::pair`: a request that waits for approval, or a refusal. `secret` is what names the
-- attempt.
unfoldable pub pair :
    Option (List ℕ) → Text → Text → Text → ℕ → Desk → Result Refusal PairingRequested × Desk
unfolding unique_device_name is_confirmation redeem token
pair secret code offered confirmation now desk =
    if not desk.has_config
    then (err no_configuration, desk)
    else if not (is_confirmation confirmation)
    then (err bad_confirmation, desk)
    else (elim secret [
      | none ↦ (err no_secret, desk)
      | some bytes ↦
          let (held, refusal) = redeem code now desk.pending in
          let after = record desk { pending = held } in
          elim refusal [
            | some why ↦ (err why, after)
            | none ↦
                let request : PairingRequested = record {
                  attempt = token bytes;
                  name = unique_device_name offered desk.devices;
                  confirmation = confirmation;
                  expires_at = now + pairing_approval_lifetime;
                } in
                (ok request, record after { inputs = desk.inputs ++ (request ∷ []) })
          ]
    ])

-- The arm of the event loop for `Input::PairingRequested`: the next request is to be approved, unless
-- too many are.
unfoldable pub pairing_requested : Desk → Option PairingRequested × Desk
pairing_requested desk = elim desk.inputs [
  | [] ↦ (none, desk)
  | request ∷ inputs ↦
      let after = record desk { inputs = inputs } in
      let approval : PendingPairingApproval = record {
        name = request.name;
        expires_at = request.expires_at;
      } in
      if leb max_pending_pairing_approvals (length desk.approvals) then (none, after) else (
        some request,
        record after { approvals = insert request.attempt approval desk.approvals },
      )
]

-- `Config::add_device_file`; `written` is whether the file could be read and written.
unfoldable pub add_device_file : Bool → Device → Desk → Result Refusal Desk
add_device_file written device desk =
    if not written
    then err not_written
    else if is_taken device.name desk.devices
    then err name_taken
    else ok (record desk { devices = desk.devices ++ (device ∷ []) })

-- `Config::remove_device_file`, on the list.
unfoldable pub remove_device_file : Text → Desk → Desk
remove_device_file name desk = record desk {
  devices =
      keep (λ (device : Device). not (ite (text_ord.same device.name name) true false))
        desk.devices;
}

-- `decide_pairing`. `closed` is whether the browser has left by then, and `delivered` whether the token
-- reached it.
module _ (sha256 : List ℕ → List ℕ) where
  unfoldable pub decide_pairing :
      Text → Bool → ℕ → Bool → Option (List ℕ) → Bool → Bool → Desk → Result Refusal Text × Desk
  unfolding add_device_file token fingerprint now_ms
  decide_pairing attempt approve now closed secret written delivered desk =
      elim (lookup attempt desk.approvals) [
        | none ↦ (err not_waiting, desk)
        | some approval ↦
            let after = record desk { approvals = remove attempt desk.approvals } in
            if leb approval.expires_at now || closed
            then (err approval_expired, after)
            else if not approve
            then (err approval_rejected, after)
            else if not desk.has_config
            then (err no_configuration, after)
            else (elim secret [
              | none ↦ (err no_secret, after)
              | some bytes ↦
                  let device : Device = record {
                    name = approval.name;
                    token_sha256 = fingerprint sha256 (token bytes);
                    paired_at_ms = now_ms now;
                  } in
                  elim (add_device_file written device after) [
                    | err why ↦ (err why, after)
                    | ok recorded ↦
                        (if delivered then ok (token bytes) else err browser_left, recorded)
                  ]
            ])
      ]

-- `sweep_pairing_approvals`: those that have expired or whose browser has left are removed.
unfoldable pub sweep_pairing_approvals : (Text → Bool) → ℕ → Desk → List Text × Desk
sweep_pairing_approvals closed now desk =
    let is_over =
      λ (entry : Text × PendingPairingApproval). leb entry.1.expires_at now || closed entry.0 in
    (
      keys (keep is_over desk.approvals),
      record desk { approvals = keep (λ entry. not (is_over entry)) desk.approvals },
    )
