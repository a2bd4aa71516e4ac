-- ===== src/Examples/Paired.antt =====
-- The theorems on pairing, on one code and one device.
use super_herdr.Common.{
  ◌≢◌, false, ℕ, ◌+◌, ◌≤◌, ◌≡◌, refl, true, false, ◌&&◌, none, some, List, [], ◌∷◌, map, ite, arith,
  ℕ_discrete,
}
use super_herdr.Common.Tests.{ltb}
use super_herdr.Common.Lists.{length}
use super_herdr.Common.Order.{text, text_ord, list_same}
use super_herdr.Common.Texts.{trim}
use super_herdr.Common.Results.{ok}
use super_herdr.Common.Maps.{lookup, insert}
use super_herdr.Pairing.{
  PendingPairing, pending_pairing, accepts, expired, matches, normalize_code, code_character, token,
}
use super_herdr.Pairing.Codes.{matches_iff_same, accepts_iff}
use super_herdr.Pairing.Desk.{
  Desk, PendingPairingApproval, remove_device_file, sweep_pairing_approvals, issue_pairing_code,
  pair, pairing_requested, decide_pairing, admits, is_taken, unique_device_name,
}
use super_herdr.Pairing.Counted.{start, issued, entered, requested, decided, devices_counted}
use super_herdr.Pairing.Admission.{redeem_all, AreWrong, redeem_all-AreWrong}
use super_herdr.Pairing.Admitted.{at_once, swept, revoked, decide_pairing-admits}
use super_herdr.Pairing.Names.{unique_device_name-is_taken}

matches_iff_same_example :
    matches (text "ab") (text "aB") ≡ ite (text_ord.same (text "ab") (text "aB")) true false
matches_iff_same_example = matches_iff_same (text "ab") (text "aB")

abbrev bytes_one : List ℕ
bytes_one = 0 ∷ 33 ∷ 2 ∷ 3 ∷ 250 ∷ 5 ∷ 6 ∷ 7 ∷ []

accepts_iff_example : accepts (text "abcd 4fgh") 9 (pending_pairing bytes_one 5) ≡ (
    ltb 9 (5 + 300000000000)
    && ite
        (text_ord.same (normalize_code (text "abcd 4fgh")) (map code_character bytes_one))
        true
        false)
accepts_iff_example = accepts_iff bytes_one (text "abcd 4fgh") 5 9 refl

-- A digest for the example.
abbrev digest : List ℕ → List ℕ
digest secret = length secret ∷ []

abbrev empty_desk : Desk
empty_desk = record { has_config = true; devices = []; pending = none; inputs = []; approvals = [] }

abbrev secret_one : List ℕ
secret_one = 7 ∷ []

-- A code is issued, entered in small letters, and approved.
abbrev asked : Desk
asked =
    (pairing_requested
      (pair (some secret_one) (text "abcd4fgh") (text "phone") (text "123456") 9
        (issue_pairing_code (some bytes_one) 5 empty_desk).1).1).1

abbrev approved : Desk
approved =
    (decide_pairing digest (token secret_one) true 12 false (some secret_one) true true asked).1

devices_counted_example : length approved.devices ≤ 0 + 1
devices_counted_example = devices_counted digest 0 1 approved (
    decided
      (requested (
        entered (issued (start [] true (omega arith)) (some bytes_one) 5) (some secret_one)
          (text "abcd4fgh") (text "phone") (text "123456") 9))
      (token secret_one) true 12 false (some secret_one) true true)

handed_out :
    (decide_pairing digest (token secret_one) true 12 false (some secret_one) true true asked).0
    ≡ ok (token secret_one)
unfolding issue_pairing_code pair pairing_requested decide_pairing token lookup insert list_same
    ℕ_discrete
handed_out = refl

-- Later the approvals are swept, and another device is revoked.
abbrev revoked_other : Desk
revoked_other =
    remove_device_file (text "p")
      (sweep_pairing_approvals (λ attempt. false) 70000000000 approved).1

abbrev approval_one : PendingPairingApproval
approval_one = record { name = text "phone"; expires_at = 60000000009 }

waits_for_approval : lookup (token secret_one) asked.approvals ≡ some approval_one
unfolding issue_pairing_code pair pairing_requested token lookup insert list_same trim ℕ_discrete
waits_for_approval = refl

other_name : approval_one.name ≢ text "p"
other_name e = cc

decide_pairing-admits_example : admits digest (token secret_one) revoked_other ≡ true
decide_pairing-admits_example =
    decide_pairing-admits digest (token secret_one) true 12 false (some secret_one) true true asked
      (token secret_one) approval_one revoked_other waits_for_approval handed_out
      (revoked (swept at_once (λ attempt. false) 70000000000) (text "p") other_name)

abbrev waiting_code : PendingPairing
waiting_code = record { code = text "ABCD-EFGH"; expires_at = 100; attempts = 3 }

-- Two more wrong entries are one too many.
wrong_entries : AreWrong waiting_code ((text "ABCD-EFGJ", 20) ∷ (text "", 30) ∷ [])
unfolding expired accepts
wrong_entries = ((refl, refl), ((refl, refl), tt))

redeem_all-AreWrong_example :
    redeem_all ((text "ABCD-EFGJ", 20) ∷ (text "", 30) ∷ []) (some waiting_code) ≡ none
redeem_all-AreWrong_example =
    redeem_all-AreWrong ((text "ABCD-EFGJ", 20) ∷ (text "", 30) ∷ []) waiting_code (omega arith)
      wrong_entries

unique_device_name-is_taken_example :
    is_taken (unique_device_name (text "phone") approved.devices) approved.devices ≡ false
unfolding issue_pairing_code pair pairing_requested decide_pairing token lookup insert list_same
    ℕ_discrete
unique_device_name-is_taken_example =
    unique_device_name-is_taken (text "phone") approved.devices (omega arith)
