-- ===== src/Pairing/Counted.antt =====
-- src/daemon/server.rs: how many devices are paired, and how often a code may be entered wrongly.
use super_herdr.Common.{
  ℕ, suc, ◌+◌, ◌≤◌, ◌≡◌, refl, Bool, not, ◌||◌, Option, none, some, List, [], ◌∷◌, inl, inr, arith,
}
use super_herdr.Common.Tests.{leb, if_rule, Option-cases, List-cases}
use super_herdr.Common.Lists.{length, length-append, length-keep-le}
use super_herdr.Common.Order.{Text, text_ord}
use super_herdr.Common.Results.{Result}
use super_herdr.Common.Maps.{lookup, remove, has, length-insert-le, length-remove-lt}
use super_herdr.Pairing.{PendingPairing, token, fingerprint, now_ms}
use super_herdr.Pairing.Desk.{
  Device, PendingPairingApproval, PairingRequested, Desk, Refusal, issue_pairing_code, redeem, pair,
  pairing_requested, add_device_file, remove_device_file, decide_pairing, sweep_pairing_approvals,
  is_confirmation,
}

abbrev one_if {ℓ} : {A : Type ℓ} → Option A → ℕ
one_if none = 0
one_if (some a) = 1

-- The devices, and what may still become one.
abbrev weight : Desk → ℕ
weight desk =
    length desk.devices + (length desk.approvals + (length desk.inputs + one_if desk.pending))

module _ (sha256 : List ℕ → List ℕ) where
  -- The desks that the daemon comes to from one of `count` devices, having issued `issued` codes.
  pub data Run (count : ℕ) : ℕ → Desk → Type 0 where
    start :
        (devices : List Device)
        → (has_config : Bool) → length devices ≤ count
        → Run count 0 (record {
          has_config = has_config;
          devices = devices;
          pending = none;
          inputs = [];
          approvals = [];
        })
    issued :
        {n : ℕ} {desk : Desk}
        → Run count n desk
        → (bytes : Option (List ℕ)) → (now : ℕ)
        → Run count (suc n) (issue_pairing_code bytes now desk).1
    entered :
        {n : ℕ} {desk : Desk}
        → Run count n desk
        → (secret : Option (List ℕ)) → (code offered confirmation : Text) → (now : ℕ)
        → Run count n (pair secret code offered confirmation now desk).1
    requested : {n : ℕ} {desk : Desk} → Run count n desk → Run count n (pairing_requested desk).1
    decided :
        {n : ℕ} {desk : Desk}
        → Run count n desk
        → (attempt : Text) → (approve : Bool) → (now : ℕ) → (closed : Bool)
        → (secret : Option (List ℕ)) → (written delivered : Bool)
        → Run count n
            (decide_pairing sha256 attempt approve now closed secret written delivered desk).1
    swept :
        {n : ℕ} {desk : Desk}
        → Run count n desk
        → (closed : Text → Bool) → (now : ℕ)
        → Run count n (sweep_pairing_approvals closed now desk).1
    revoked :
        {n : ℕ} {desk : Desk}
        → Run count n desk
        → (name : Text) → Run count n (remove_device_file name desk)

-- A code that is not held opens nothing, and one that opens is held no longer.
weight-redeem :
    (code : Text) (now : ℕ) (held : Option PendingPairing)
    → (one_if (redeem code now held).0 ≤ one_if held)
      × ((redeem code now held).1 ≡ none → one_if (redeem code now held).0 + 1 ≤ one_if held)
unfolding redeem
weight-redeem code now none = (omega arith, λ e. cc)
weight-redeem code now (some pending) = ground arith

weight-issue_pairing_code :
    (bytes : Option (List ℕ)) (now : ℕ) (desk : Desk)
    → weight (issue_pairing_code bytes now desk).1 ≤ suc (weight desk)
unfolding issue_pairing_code
weight-issue_pairing_code none now desk = omega arith
weight-issue_pairing_code (some bytes) now desk = ground arith

weight-pair :
    (secret : Option (List ℕ)) (code offered confirmation : Text) (now : ℕ) (desk : Desk)
    → weight (pair secret code offered confirmation now desk).1 ≤ weight desk
unfolding pair
weight-pair none code offered confirmation now desk = ground arith
weight-pair (some bytes) code offered confirmation now desk =
    let P = λ (r : Result Refusal PairingRequested × Desk). weight r.1 ≤ weight desk in
    let redeemed = weight-redeem code now desk.pending in
    if_rule P (not desk.has_config) (omega arith) (
      if_rule P (not (is_confirmation confirmation)) (omega arith)
        (elim (Option-cases (redeem code now desk.pending).1) [
          | inl e ↦ rw e (omega (arith, length-append desk.inputs _, redeemed.1 e))
          | inr (why, e) ↦ rw e (omega (arith, redeemed.0))
        ]))

weight-pairing_requested : (desk : Desk) → weight (pairing_requested desk).1 ≤ weight desk
unfolding pairing_requested
weight-pairing_requested desk = elim (List-cases desk.inputs) [
  | inl e ↦ rw e (omega arith)
  | inr (request, (inputs, e)) ↦
      let approval : PendingPairingApproval = record {
        name = request.name;
        expires_at = request.expires_at;
      } in
      rw e (ground (arith, length-insert-le request.attempt approval desk.approvals))
]

weight-decide_pairing :
    (sha256 : List ℕ → List ℕ) (attempt : Text) (approve : Bool) (now : ℕ) (closed : Bool)
    (secret : Option (List ℕ)) (written delivered : Bool) (desk : Desk)
    → weight (decide_pairing sha256 attempt approve now closed secret written delivered desk).1
      ≤ weight desk
unfolding decide_pairing add_device_file has
weight-decide_pairing sha256 attempt approve now closed secret written delivered desk =
    let P = λ (r : Result Refusal Text × Desk). weight r.1 ≤ weight desk in
    elim (Option-cases (lookup attempt desk.approvals)) [
      | inl e ↦ rw (e, decide_pairing) (omega arith)
      | inr (approval, e) ↦
          let fewer : suc (length (remove attempt desk.approvals)) ≤ length desk.approvals =
            length-remove-lt attempt desk.approvals (rw e refl) in
          rw (e, decide_pairing)
            (if_rule P (leb approval.expires_at now || closed) (omega arith) (
              if_rule P (not approve) (omega arith) (
                if_rule P (not desk.has_config) (omega arith) (elim (Option-cases secret) [
                  | inl f ↦ rw f (omega arith)
                  | inr (bytes, f) ↦
                      let device : Device = record {
                        name = approval.name;
                        token_sha256 = fingerprint sha256 (token bytes);
                        paired_at_ms = now_ms now;
                      } in
                      rw f (ground (arith, fewer, length-append desk.devices (device ∷ [])))
                ]))))
    ]

weight-sweep_pairing_approvals :
    (closed : Text → Bool) (now : ℕ) (desk : Desk)
    → weight (sweep_pairing_approvals closed now desk).1 ≤ weight desk
unfolding sweep_pairing_approvals
weight-sweep_pairing_approvals closed now desk = omega (arith, length-keep-le _ desk.approvals)

weight-remove_device_file :
    (name : Text) (desk : Desk) → weight (remove_device_file name desk) ≤ weight desk
unfolding remove_device_file
weight-remove_device_file name desk = omega (arith, length-keep-le _ desk.devices)

weight_counted :
    (sha256 : List ℕ → List ℕ) (count issued : ℕ) (desk : Desk)
    → Run sha256 count issued desk
    → weight desk ≤ count + issued
weight_counted sha256 count n desk (start devices has_config h) = omega arith
weight_counted sha256 count n desk (issued {n = m} {desk = before} run bytes now) =
    omega
      (arith, weight_counted sha256 count m before run, weight-issue_pairing_code bytes now before)
weight_counted sha256 count n desk
      (entered {desk = before} run secret code offered confirmation now) =
    omega (
      arith,
      weight_counted sha256 count n before run,
      weight-pair secret code offered confirmation now before,
    )
weight_counted sha256 count n desk (requested {desk = before} run) =
    omega (arith, weight_counted sha256 count n before run, weight-pairing_requested before)
weight_counted sha256 count n desk
      (decided {desk = before} run attempt approve now closed secret written delivered) =
    omega (
      arith,
      weight_counted sha256 count n before run,
      weight-decide_pairing sha256 attempt approve now closed secret written delivered before,
    )
weight_counted sha256 count n desk (swept {desk = before} run closed now) = omega (
  arith,
  weight_counted sha256 count n before run,
  weight-sweep_pairing_approvals closed now before,
)
weight_counted sha256 count n desk (revoked {desk = before} run name) =
    omega (arith, weight_counted sha256 count n before run, weight-remove_device_file name before)

-- However codes are issued and entered and requests decided, swept and devices revoked, no more devices
-- are recorded than there were at first and codes were issued since: a code opens for one device at
-- most, whatever SHA-256 is.
pub devices_counted :
    (sha256 : List ℕ → List ℕ) (count issued : ℕ) (desk : Desk)
    → Run sha256 count issued desk
    → length desk.devices ≤ count + issued
devices_counted sha256 count n desk run = omega (arith, weight_counted sha256 count n desk run)
