-- ===== src/Pairing/Codes.antt =====
-- src/pairing.rs: codes as they are typed and compared.
use Prim.Native.Nat.{bit_or, bit_xor}
use super_herdr.Common.{
  ℕ, zero, suc, ◌+◌, ◌%◌, ◌≤◌, ◌<◌, ◌≡◌, refl, ap, Bool, true, false, ◌&&◌, List, [], ◌∷◌, ◌++◌,
  none, some, map, ite, arith,
}
use super_herdr.Common.Tests.{ltb, ◌==◌}
use super_herdr.Common.Lists.{length, take, drop, keep, get_elem?}
use super_herdr.Common.Order.{Text, text, text_ord}
use super_herdr.Common.Bits.{bit_or-zero, bit_xor-zero, bit_xor_self}
use super_herdr.Pairing.{
  code_alphabet, code_character, pairing_code, is_ascii_alphanumeric, to_ascii_uppercase,
  normalize_code, difference, matches, pending_pairing, accepts, expired,
}

-- The fold is zero only if it was, and no two bytes differ.
difference-zero :
    (folded : ℕ) (lefts rights : List ℕ)
    → length lefts ≡ length rights
    → difference folded lefts rights ≡ 0
    → (folded ≡ 0) × (lefts ≡ rights)
unfolding difference
difference-zero folded [] [] h e = (e, refl)
difference-zero folded [] (right ∷ rights) h e = absurd (ground arith)
difference-zero folded (left ∷ lefts) [] h e = absurd (ground arith)
difference-zero folded (left ∷ lefts) (right ∷ rights) h e =
    let rest = difference-zero (bit_or folded (bit_xor left right)) lefts rights (omega arith) e in
    let here = bit_or-zero folded (bit_xor left right) rest.0 in
    ground (arith, rest, here, bit_xor-zero left right)

difference_self : (bytes : List ℕ) → difference 0 bytes bytes ≡ 0
unfolding difference
difference_self [] = refl
difference_self (byte ∷ bytes) = rw (bit_xor_self byte) (difference_self bytes)

-- The comparison that reads every byte decides whether two texts of bytes are the same.
pub matches_iff_same :
    (left right : List ℕ) → matches left right ≡ ite (text_ord.same left right) true false
unfolding matches
matches_iff_same left right = ground (
  arith,
  difference-zero 0 left right,
  difference_self left,
  ap (λ (bytes : List ℕ). length bytes),
  ap (λ (bytes : List ℕ). difference 0 left bytes),
)

-- A character that reading a code leaves as it is.
abbrev stays : ℕ → Bool
stays c = is_ascii_alphanumeric c && to_ascii_uppercase c == c

abbrev all_stay : Text → Bool
all_stay [] = true
all_stay (c ∷ cs) = stays c && all_stay cs

alphabet_stays : all_stay code_alphabet ≡ true
unfolding is_ascii_alphanumeric to_ascii_uppercase
alphabet_stays = refl

stays-get_elem? :
    (cs : Text) (i : ℕ)
    → all_stay cs ≡ true
    → i < length cs
    → stays (elim (get_elem? cs i) [ none ↦ 0 | some c ↦ c ]) ≡ true
stays-get_elem? [] i h lt = absurd (omega arith)
stays-get_elem? (c ∷ cs) zero h lt = ground arith
stays-get_elem? (c ∷ cs) (suc i) h lt = stays-get_elem? cs i (ground arith) (omega arith)

code_character-stays : (byte : ℕ) → stays (code_character byte) ≡ true
unfolding code_character
code_character-stays byte = stays-get_elem? code_alphabet (byte % 32) alphabet_stays (omega arith)

all_stay-map : (bytes : List ℕ) → all_stay (map code_character bytes) ≡ true
all_stay-map [] = refl
all_stay-map (byte ∷ bytes) = ground (arith, code_character-stays byte, all_stay-map bytes)

abbrev read_all : Text → Text
read_all cs = map to_ascii_uppercase (keep is_ascii_alphanumeric cs)

read_all-stays : (cs : Text) → all_stay cs ≡ true → read_all cs ≡ cs
read_all-stays [] h = refl
read_all-stays (c ∷ cs) h = ground (arith, read_all-stays cs)

-- The dash that a code is shown with is left out.
read_all-dashed :
    (n : ℕ) (cs : Text) → all_stay cs ≡ true → read_all (take n cs ++ (text "-" ++ drop n cs)) ≡ cs
unfolding is_ascii_alphanumeric
read_all-dashed zero cs h = read_all-stays cs h
read_all-dashed (suc n) [] h = refl
read_all-dashed (suc n) (c ∷ cs) h = ground (arith, read_all-dashed n cs)

take-all : (n : ℕ) (cs : Text) → length cs ≤ n → take n cs ≡ cs
take-all zero [] h = refl
take-all zero (c ∷ cs) h = absurd (omega arith)
take-all (suc n) [] h = refl
take-all (suc n) (c ∷ cs) h = ap (λ (rest : Text). c ∷ rest) (take-all n cs (omega arith))

length-map-code : (bytes : List ℕ) → length (map code_character bytes) ≡ length bytes
length-map-code [] = refl
length-map-code (byte ∷ bytes) = omega (arith, length-map-code bytes)

normalize_code-pairing_code :
    (bytes : List ℕ)
    → length bytes ≡ 8
    → normalize_code (pairing_code bytes) ≡ map code_character bytes
unfolding normalize_code pairing_code
normalize_code-pairing_code bytes h =
    let code = map code_character bytes in
    rw (read_all-dashed 4 code (all_stay-map bytes))
      (take-all 8 code (omega (arith, length-map-code bytes)))

-- A code drawn from eight bytes at some time is accepted at another exactly if that is less than 300
-- seconds after the first, and what was entered, its separators left out, in capitals and cut to eight
-- characters, is the characters drawn.
pub accepts_iff :
    (bytes : List ℕ) (entered : Text) (made now : ℕ)
    → length bytes ≡ 8
    → accepts entered now (pending_pairing bytes made) ≡ (
        ltb now (made + 300000000000)
        && ite (text_ord.same (normalize_code entered) (map code_character bytes)) true false)
unfolding accepts pending_pairing expired
accepts_iff bytes entered made now h =
    let code = normalize_code-pairing_code bytes h in
    let compared =
      matches_iff_same (normalize_code entered) (normalize_code (pairing_code bytes)) in
    rw (compared, code) (ground arith)
