-- ===== src/Pairing/Admitted.antt =====
-- src/daemon/server.rs: whom the token that an approval hands out admits, and for how long.
use super_herdr.Common.{
  ℕ, ◌≡◌, ◌≢◌, refl, Bool, true, false, not, ◌&&◌, ◌||◌, Option, none, some, List, [], ◌∷◌, ◌++◌,
  ite, inl, inr, arith,
}
use super_herdr.Common.Tests.{leb, if_rule, if◌then◌else◌, Option-cases}
use super_herdr.Common.Lists.{any, any-append, keep}
use super_herdr.Common.Order.{Text, text_ord}
use super_herdr.Common.Results.{Result, ok, err}
use super_herdr.Common.Maps.{lookup, remove}
use super_herdr.Pairing.{token, fingerprint, matches, now_ms}
use super_herdr.Pairing.Codes.{matches_iff_same}
use super_herdr.Pairing.Desk.{
  Device, PendingPairingApproval, Desk, Refusal, browser_left, issue_pairing_code, pair,
  pairing_requested, is_taken, add_device_file, remove_device_file, decide_pairing,
  sweep_pairing_approvals, admits,
}

-- A device of this name is recorded with this digest.
abbrev is_device : Text → Text → Device → Bool
is_device name digest device =
    ite (text_ord.same device.name name) true false && matches device.token_sha256 digest

abbrev is_recorded : Text → Text → List Device → Bool
is_recorded name digest devices = any (is_device name digest) devices

module _ (sha256 : List ℕ → List ℕ) where
  -- The desks that the daemon comes to from one, while no device of this name is revoked.
  pub data Later (name : Text) (first : Desk) : Desk → Type 0 where
    at_once : Later name first first
    issued :
        {desk : Desk}
        → Later name first desk
        → (bytes : Option (List ℕ)) → (now : ℕ)
        → Later name first (issue_pairing_code bytes now desk).1
    entered :
        {desk : Desk}
        → Later name first desk
        → (secret : Option (List ℕ)) → (code offered confirmation : Text) → (now : ℕ)
        → Later name first (pair secret code offered confirmation now desk).1
    requested : {desk : Desk} → Later name first desk → Later name first (pairing_requested desk).1
    decided :
        {desk : Desk}
        → Later name first desk
        → (attempt : Text) → (approve : Bool) → (now : ℕ) → (closed : Bool)
        → (secret : Option (List ℕ)) → (written delivered : Bool)
        → Later name first
            (decide_pairing sha256 attempt approve now closed secret written delivered desk).1
    swept :
        {desk : Desk}
        → Later name first desk
        → (closed : Text → Bool) → (now : ℕ)
        → Later name first (sweep_pairing_approvals closed now desk).1
    revoked :
        {desk : Desk}
        → Later name first desk
        → (other : Text) → name ≢ other
        → Later name first (remove_device_file other desk)

devices-issue_pairing_code :
    (bytes : Option (List ℕ)) (now : ℕ) (desk : Desk)
    → (issue_pairing_code bytes now desk).1.devices ≡ desk.devices
unfolding issue_pairing_code
devices-issue_pairing_code none now desk = refl
devices-issue_pairing_code (some bytes) now desk = refl

devices-pair :
    (secret : Option (List ℕ)) (code offered confirmation : Text) (now : ℕ) (desk : Desk)
    → (pair secret code offered confirmation now desk).1.devices ≡ desk.devices
unfolding pair
devices-pair secret code offered confirmation now desk = ground arith

devices-pairing_requested : (desk : Desk) → (pairing_requested desk).1.devices ≡ desk.devices
unfolding pairing_requested
devices-pairing_requested desk = ground arith

-- A device is recorded still when another has been added.
is_recorded-append :
    (name digest : Text) (devices added : List Device)
    → is_recorded name digest devices ≡ true
    → is_recorded name digest (devices ++ added) ≡ true
is_recorded-append name digest devices added r =
    ground (arith, any-append (is_device name digest) devices added)

is_recorded-remove :
    (name digest other : Text) (devices : List Device)
    → name ≢ other
    → is_recorded name digest devices ≡ true
    → is_recorded name digest
        (keep (λ (device : Device). not (ite (text_ord.same device.name other) true false)) devices)
      ≡ true
is_recorded-remove name digest other [] apart r = cc
is_recorded-remove name digest other (device ∷ devices) apart r =
    ground (arith, apart, is_recorded-remove name digest other devices apart)

is_recorded-decide_pairing :
    (sha256 : List ℕ → List ℕ) (name digest : Text) (attempt : Text) (approve : Bool) (now : ℕ)
    (closed : Bool) (secret : Option (List ℕ)) (written delivered : Bool) (desk : Desk)
    → is_recorded name digest desk.devices ≡ true
    → is_recorded name digest
        (decide_pairing sha256 attempt approve now closed secret written delivered desk).1.devices
      ≡ true
unfolding decide_pairing add_device_file
is_recorded-decide_pairing sha256 name digest attempt approve now closed secret written delivered
      desk r =
    let after = λ (device : Device). is_recorded-append name digest desk.devices (device ∷ []) r in
    let P =
      λ (answer : Result Refusal Text × Desk). is_recorded name digest answer.1.devices ≡ true in
    elim (Option-cases (lookup attempt desk.approvals)) [
      | inl e ↦ rw (e, decide_pairing) r
      | inr (approval, e) ↦
          rw (e, decide_pairing)
            (if_rule P (leb approval.expires_at now || closed) r (
              if_rule P (not approve) r (
                if_rule P (not desk.has_config) r (elim (Option-cases secret) [
                  | inl f ↦ rw f r
                  | inr (bytes, f) ↦
                      let device : Device = record {
                        name = approval.name;
                        token_sha256 = fingerprint sha256 (token bytes);
                        paired_at_ms = now_ms now;
                      } in
                      let Q = λ (answer : Result Refusal Desk). P (elim answer [
                        | err why ↦
                            (err why, record desk { approvals = remove attempt desk.approvals })
                        | ok recorded ↦
                            (if delivered then ok (token bytes) else err browser_left, recorded)
                      ]) in
                      rw f (
                        if_rule Q (not written) r
                          (if_rule Q (is_taken approval.name desk.devices) r (after device)))
                ]))))
    ]

is_recorded-Later :
    (sha256 : List ℕ → List ℕ) (name digest : Text) (first desk : Desk)
    → Later sha256 name first desk
    → is_recorded name digest first.devices ≡ true
    → is_recorded name digest desk.devices ≡ true
unfolding sweep_pairing_approvals remove_device_file
is_recorded-Later sha256 name digest first desk at_once r = r
is_recorded-Later sha256 name digest first desk (issued {desk = before} run bytes now) r =
    rw (devices-issue_pairing_code bytes now before)
      (is_recorded-Later sha256 name digest first before run r)
is_recorded-Later sha256 name digest first desk
      (entered {desk = before} run secret code offered confirmation now) r =
    rw (devices-pair secret code offered confirmation now before)
      (is_recorded-Later sha256 name digest first before run r)
is_recorded-Later sha256 name digest first desk (requested {desk = before} run) r =
    rw (devices-pairing_requested before) (is_recorded-Later sha256 name digest first before run r)
is_recorded-Later sha256 name digest first desk
      (decided {desk = before} run attempt approve now closed secret written delivered) r =
    is_recorded-decide_pairing sha256 name digest attempt approve now closed secret written
      delivered before (is_recorded-Later sha256 name digest first before run r)
is_recorded-Later sha256 name digest first desk (swept {desk = before} run closed now) r =
    is_recorded-Later sha256 name digest first before run r
is_recorded-Later sha256 name digest first desk (revoked {desk = before} run other apart) r =
    is_recorded-remove name digest other before.devices apart
      (is_recorded-Later sha256 name digest first before run r)

is_recorded→admitted :
    (name digest : Text) (devices : List Device)
    → is_recorded name digest devices ≡ true
    → any (λ (device : Device). matches device.token_sha256 digest) devices ≡ true
is_recorded→admitted name digest [] r = cc
is_recorded→admitted name digest (device ∷ devices) r =
    ground (arith, is_recorded→admitted name digest devices)

-- What is handed out has just been recorded under the name that was approved.
is_recorded-handed :
    (sha256 : List ℕ → List ℕ) (attempt : Text) (approve : Bool) (now : ℕ) (closed : Bool)
    (secret : Option (List ℕ)) (written delivered : Bool) (desk : Desk) (handed : Text)
    (approval : PendingPairingApproval)
    → lookup attempt desk.approvals ≡ some approval
    → (decide_pairing sha256 attempt approve now closed secret written delivered desk).0 ≡ ok handed
    → is_recorded approval.name
        (fingerprint sha256 handed)
        (decide_pairing sha256 attempt approve now closed secret written delivered desk).1.devices
      ≡ true
unfolding decide_pairing add_device_file
is_recorded-handed sha256 attempt approve now closed secret written delivered desk handed approval
      e =
    let P = λ (r : Result Refusal Text × Desk).
      r.0 ≡ ok handed → is_recorded approval.name (fingerprint sha256 handed) r.1.devices ≡ true in
    rw (e, decide_pairing)
      (if_rule P (leb approval.expires_at now || closed) (λ q. cc)
        (if_rule P (not approve) (λ q. cc)
          (if_rule P (not desk.has_config) (λ q. cc)
            (elim (Option-cases secret) [
              | inl f ↦ rw f (λ q. cc)
              | inr (bytes, f) ↦
                  let device : Device = record {
                    name = approval.name;
                    token_sha256 = fingerprint sha256 (token bytes);
                    paired_at_ms = now_ms now;
                  } in
                  let digest = fingerprint sha256 handed in
                  let Q = λ (r : Result Refusal Desk). P (elim r [
                    | err why ↦ (err why, record desk { approvals = remove attempt desk.approvals })
                    | ok recorded ↦
                        (if delivered then ok (token bytes) else err browser_left, recorded)
                  ]) in
                  rw f (
                    if_rule Q (not written) (λ q. cc)
                      (if_rule Q (is_taken approval.name desk.devices) (λ q. cc)
                        (λ q.
                          let same : device.token_sha256 ≡ digest = ground arith in
                          ground (
                            arith,
                            same,
                            any-append (is_device approval.name digest) desk.devices (device ∷ []),
                            matches_iff_same device.token_sha256 digest,
                          ))))
            ]))))

-- The token that an approval hands out is admitted whatever the daemon does afterwards, as long as no
-- device of the approved name is revoked, and whatever SHA-256 is.
pub decide_pairing-admits :
    (sha256 : List ℕ → List ℕ) (attempt : Text) (approve : Bool) (now : ℕ) (closed : Bool)
    (secret : Option (List ℕ)) (written delivered : Bool) (desk : Desk) (handed : Text)
    (approval : PendingPairingApproval) (later : Desk)
    → lookup attempt desk.approvals ≡ some approval
    → (decide_pairing sha256 attempt approve now closed secret written delivered desk).0 ≡ ok handed
    → Later sha256 approval.name
        (decide_pairing sha256 attempt approve now closed secret written delivered desk).1
        later
    → admits sha256 handed later ≡ true
unfolding admits
decide_pairing-admits sha256 attempt approve now closed secret written delivered desk handed
      approval later here given run =
    let first =
      (decide_pairing sha256 attempt approve now closed secret written delivered desk).1 in
    let digest = fingerprint sha256 handed in
    is_recorded→admitted approval.name digest later.devices (
      is_recorded-Later sha256 approval.name digest first later run (
        is_recorded-handed sha256 attempt approve now closed secret written delivered desk handed
          approval here given))
