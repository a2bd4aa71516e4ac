-- ===== src/Pairing/Names.antt =====
-- src/daemon/server.rs: the search for a device name that is free.
use native.Mathlib.Nat.{pow-suc}
use super_herdr.Common.{
  ℕ, zero, suc, ◌+◌, ◌-◌, ◌*◌, ◌/◌, ◌%◌, ◌^◌, ◌≤◌, ◌<◌, ◌≡◌, ◌≢◌, refl, sym, ap, ◌∙◌, true, false,
  some, List, [], ◌∷◌, ◌++◌, ite, inl, inr, arith,
}
use super_herdr.Common.Tests.{Bool-cases}
use super_herdr.Common.Lists.{length}
use super_herdr.Common.Order.{Text, text, text_ord}
use super_herdr.Common.Texts.{decimal_digits}
use super_herdr.Pairing.Desk.{
  Device, is_taken, numbered, first_free, device_name, unique_device_name,
}

-- The number that digits stand for.
abbrev number : ℕ → Text → ℕ
number acc [] = acc
number acc (c ∷ cs) = number (acc * 10 + (c - 48)) cs

number-append :
    (acc : ℕ) (cs : Text) (c : ℕ) → number acc (cs ++ (c ∷ [])) ≡ number acc cs * 10 + (c - 48)
number-append acc [] c = refl
number-append acc (d ∷ cs) c = number-append (acc * 10 + (d - 48)) cs c

number-decimal_digits : (fuel n : ℕ) → n < 10 ^ fuel → number 0 (decimal_digits fuel n) ≡ n
unfolding decimal_digits
number-decimal_digits zero n h = omega arith
number-decimal_digits (suc fuel) n h =
    let rest = number-decimal_digits fuel (n / 10) (omega (arith, pow-suc 10 fuel)) in
    ground (arith, rest, number-append 0 (decimal_digits fuel (n / 10)) (48 + n % 10))

append-cancel : (base a b : Text) → base ++ a ≡ base ++ b → a ≡ b
append-cancel [] a b e = e
append-cancel (c ∷ base) a b e = append-cancel base a b (ground (arith, e))

numbered-injective :
    (base : Text) (i j : ℕ) → i < 10 ^ 10 → j < 10 ^ 10 → numbered base i ≡ numbered base j → i ≡ j
unfolding numbered
numbered-injective base i j hi hj e =
    let same =
      append-cancel base (text " " ++ decimal_digits 10 i) (text " " ++ decimal_digits 10 j) e in
    let digits : decimal_digits 10 i ≡ decimal_digits 10 j = ground (arith, same) in
    sym (number-decimal_digits 10 i hi)
    ∙ (ap (λ cs. number 0 cs) digits ∙ number-decimal_digits 10 j hj)

-- The devices of other names.
abbrev without : Text → List Device → List Device
without name [] = []
without name (device ∷ devices) =
    let rest = without name devices in ite (text_ord.same device.name name) rest (device ∷ rest)

length-without :
    (name : Text) (devices : List Device)
    → (length (without name devices) ≤ length devices)
      × (is_taken name devices ≡ true → suc (length (without name devices)) ≤ length devices)
length-without name [] = (omega arith, λ e. cc)
length-without name (device ∷ devices) = ground (arith, length-without name devices)

is_taken-without :
    (name other : Text) (devices : List Device)
    → name ≢ other
    → is_taken other (without name devices) ≡ is_taken other devices
is_taken-without name other [] d = refl
is_taken-without name other (device ∷ devices) d =
    ground (arith, is_taken-without name other devices d)

-- What the search finds depends on the names that it tries only.
first_free-without :
    (fuel suffix tried : ℕ) (base : Text) (devices : List Device)
    → tried < suffix
    → suffix + fuel < 10 ^ 10
    → first_free fuel suffix base (without (numbered base tried) devices)
      ≡ first_free fuel suffix base devices
unfolding first_free
first_free-without zero suffix tried base devices h room = refl
first_free-without (suc fuel) suffix tried base devices h room =
    let apart : numbered base tried ≢ numbered base suffix = λ e.
      absurd (omega (arith, numbered-injective base tried suffix (omega arith) (omega arith) e)) in
    ground (
      arith,
      is_taken-without (numbered base tried) (numbered base suffix) devices apart,
      first_free-without fuel (suc suffix) tried base devices (omega arith) (omega arith),
    )

-- More steps than there are devices find a name.
first_free-found :
    (fuel suffix : ℕ) (base : Text) (devices : List Device)
    → length devices < fuel
    → suffix + fuel < 10 ^ 10
    → (name : Text) × (first_free fuel suffix base devices ≡ some name)
unfolding first_free
first_free-found zero suffix base devices h room = absurd (omega arith)
first_free-found (suc fuel) suffix base devices h room =
    let here = numbered base suffix in
    let others = without here devices in
    elim (Bool-cases (is_taken here devices)) [
      | inr e ↦ (here, rw e refl)
      | inl e ↦
          let (name, found) =
            first_free-found fuel (suc suffix) base others
              (omega (arith, (length-without here devices).1 e)) (omega arith) in
          let same =
            first_free-without fuel (suc suffix) suffix base devices (omega arith) (omega arith) in
          (name, rw e (sym same ∙ found))
    ]

first_free-is_taken :
    (fuel suffix : ℕ) (base : Text) (devices : List Device) (name : Text)
    → first_free fuel suffix base devices ≡ some name
    → is_taken name devices ≡ false
unfolding first_free
first_free-is_taken zero suffix base devices name e = cc
first_free-is_taken (suc fuel) suffix base devices name e =
    ground (arith, first_free-is_taken fuel (suc suffix) base devices name)

pub unique_device_name-is_taken :
    (offered : Text) (devices : List Device)
    → length devices + 3 < 2 ^ 31
    → is_taken (unique_device_name offered devices) devices ≡ false
unfolding unique_device_name
unique_device_name-is_taken offered devices room =
    let base = device_name offered in
    elim (Bool-cases (is_taken base devices)) [
      | inr e ↦ rw e e
      | inl e ↦
          let (name, found) =
            first_free-found (suc (length devices)) 2 base devices (omega arith) (omega arith) in
          rw (e, found) (first_free-is_taken (suc (length devices)) 2 base devices name found)
    ]
