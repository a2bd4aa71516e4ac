-- ===== src/Pairing/Admission.antt =====
-- src/daemon/server.rs: how often a code may be entered wrongly.
use super_herdr.Common.{
  ℕ, ◌+◌, ◌<◌, ◌≡◌, refl, false, Option, none, some, List, [], ◌∷◌, inl, inr, arith,
}
use super_herdr.Common.Tests.{ltb, ltb→lt, if◌then◌else◌, Bool-cases}
use super_herdr.Common.Lists.{length}
use super_herdr.Common.Order.{Text, text_ord}
use super_herdr.Pairing.{PendingPairing, expired, accepts, record_failure}
use super_herdr.Pairing.Desk.{redeem}

-- Codes entered one after the other, with the times.
abbrev pub redeem_all : List (Text × ℕ) → Option PendingPairing → Option PendingPairing
redeem_all [] held = held
redeem_all ((code, now) ∷ entries) held = redeem_all entries (redeem code now held).0

-- None is entered too late, and none is the code.
abbrev pub AreWrong : PendingPairing → List (Text × ℕ) → Type 0
AreWrong pending [] = Unit
AreWrong pending ((code, now) ∷ entries) =
    ((expired now pending ≡ false) × (accepts code now pending ≡ false)) × AreWrong pending entries

redeem_all-none : (entries : List (Text × ℕ)) → redeem_all entries none ≡ none
unfolding redeem
redeem_all-none [] = refl
redeem_all-none ((code, now) ∷ entries) = redeem_all-none entries

AreWrong-counted :
    (pending : PendingPairing) (attempts : ℕ) (entries : List (Text × ℕ))
    → AreWrong pending entries
    → AreWrong (record pending { attempts = attempts }) entries
unfolding expired accepts
AreWrong-counted pending attempts [] w = tt
AreWrong-counted pending attempts ((code, now) ∷ entries) w =
    (w.0, AreWrong-counted pending attempts entries w.1)

redeem-wrong :
    (code : Text) (now : ℕ) (pending : PendingPairing)
    → pending.attempts < 5
    → expired now pending ≡ false
    → accepts code now pending ≡ false
    → (redeem code now (some pending)).0 ≡ (
        if ltb (pending.attempts + 1) 5
        then some (record pending { attempts = pending.attempts + 1 })
        else none)
unfolding redeem record_failure
redeem-wrong code now pending h late wrong = rw (wrong, late) (ground arith)

-- Wrong entries in time are counted, and the code is held as it was until there are five; then it is
-- discarded.
pub redeem_all-AreWrong :
    (entries : List (Text × ℕ)) (pending : PendingPairing)
    → pending.attempts < 5
    → AreWrong pending entries
    → redeem_all entries (some pending) ≡ (
        if ltb (pending.attempts + length entries) 5
        then some (record pending { attempts = pending.attempts + length entries })
        else none)
redeem_all-AreWrong [] pending h w = ground arith
redeem_all-AreWrong ((code, now) ∷ entries) pending h w =
    let next : PendingPairing = record pending { attempts = pending.attempts + 1 } in
    rw (redeem-wrong code now pending h w.0.0 w.0.1)
      (elim (Bool-cases (ltb (pending.attempts + 1) 5)) [
        | inl e ↦ rw e (
            ground (
              arith,
              redeem_all-AreWrong entries next (omega (arith, ltb→lt (pending.attempts + 1) 5 e))
                  (AreWrong-counted pending (pending.attempts + 1) entries w.1),
            ))
        | inr e ↦ rw e (ground (arith, redeem_all-none entries))
      ])
