-- ===== src/Common/Texts.antt =====
-- Text as the standard library treats it: classes of characters, trimming and letter case.
use Prim.Native.Nat.{ℕ, zero, suc, ◌+◌, ◌/◌, ◌%◌, ◌≤◌}
use mathlib.Core.Path.{◌≡◌, refl}
use mathlib.Core.Bool.{Bool, false, ◌&&◌, ◌||◌}
use mathlib.Core.List.{List, [], ◌∷◌, ◌++◌, map}
use native.Mathlib.Omega.{arith}
use super_herdr.Common.Tests.{ltb, leb, ◌==◌, if◌then◌else◌}
use super_herdr.Common.Lists.{length, take, All}
use super_herdr.Common.Order.{Text}

-- `char::is_whitespace`: the code points with the property `White_Space`.
unfoldable pub is_whitespace : ℕ → Bool
is_whitespace c =
    (leb 9 c && leb c 13)
    || (c == 32
        || (c == 0x85
            || (c == 0xa0
                || (c == 0x1680
                    || ((leb 0x2000 c && leb c 0x200a)
                        || (c == 0x2028
                            || (c == 0x2029 || (c == 0x202f || (c == 0x205f || c == 0x3000)))))))))

unfoldable pub trim_cons : ℕ → Text → Text
unfolding is_whitespace
trim_cons c [] = if is_whitespace c then [] else c ∷ []
trim_cons c (d ∷ ds) = c ∷ d ∷ ds

-- `str::trim_end`.
unfoldable pub trim_end : Text → Text
unfolding trim_cons
trim_end [] = []
trim_end (c ∷ cs) = trim_cons c (trim_end cs)

trim_end-trim_cons :
    (c : ℕ) (cs : Text) → trim_end cs ≡ cs → trim_end (trim_cons c cs) ≡ trim_cons c cs
unfolding trim_end trim_cons
trim_end-trim_cons c [] e = ground arith
trim_end-trim_cons c (d ∷ ds) e = rw e refl

pub trim_end_idem : (t : Text) → trim_end (trim_end t) ≡ trim_end t
unfolding trim_end
trim_end_idem [] = refl
trim_end_idem (c ∷ cs) = trim_end-trim_cons c (trim_end cs) (trim_end_idem cs)

-- `str::trim_start`.
unfoldable pub trim_start : Text → Text
unfolding is_whitespace
trim_start [] = []
trim_start (c ∷ cs) = let rest = trim_start cs in if is_whitespace c then rest else c ∷ cs

-- `str::trim`.
unfoldable pub trim : Text → Text
unfolding trim_start trim_end
trim t = trim_end (trim_start t)

-- `char::is_control`: the code points of the category `Cc`.
unfoldable pub is_control_character : ℕ → Bool
is_control_character c = leb c 31 || (leb 127 c && leb c 159)

-- `str::to_ascii_lowercase`, `str::to_ascii_uppercase`.
unfoldable pub ascii_lower : ℕ → ℕ
ascii_lower c = if leb 65 c && leb c 90 then c + 32 else c

unfoldable pub to_ascii_lowercase : Text → Text
unfolding ascii_lower
to_ascii_lowercase t = map ascii_lower t

-- The decimal digits of a number below 10 ^ fuel.
unfoldable pub decimal_digits : ℕ → ℕ → Text
decimal_digits zero n = []
decimal_digits (suc fuel) n =
    let more = decimal_digits fuel (n / 10) in
    if ltb n 10 then (48 + n) ∷ [] else more ++ ((48 + n % 10) ∷ [])

-- The source's `bounded_metadata`, which three files declare alike.
unfoldable pub blank_control : ℕ → ℕ
unfolding is_control_character
blank_control c = if is_control_character c then 32 else c

unfoldable pub bounded_metadata : Text → ℕ → Text
unfolding blank_control
bounded_metadata value maximum = take maximum (map blank_control value)

blank_control-visible : (c : ℕ) → is_control_character (blank_control c) ≡ false
unfolding blank_control
blank_control-visible c = ground arith

length-take-le {ℓ} : {A : Type ℓ} (n : ℕ) (xs : List A) → length (take n xs) ≤ n
length-take-le zero xs = omega arith
length-take-le (suc n) [] = omega arith
length-take-le (suc n) (x ∷ xs) = omega (arith, length-take-le n xs)

take-blanked :
    (n : ℕ) (t : Text) → All (λ c. is_control_character c ≡ false) (take n (map blank_control t))
take-blanked zero t = tt
take-blanked (suc n) [] = tt
take-blanked (suc n) (c ∷ t) = (blank_control-visible c, take-blanked n t)

-- Bounded metadata is no longer than asked, and has no control character.
pub bounded_metadata_bounds :
    (value : Text) (maximum : ℕ)
    → (length (bounded_metadata value maximum) ≤ maximum)
      × All (λ c. is_control_character c ≡ false) (bounded_metadata value maximum)
unfolding bounded_metadata
bounded_metadata_bounds value maximum =
    (length-take-le maximum (map blank_control value), take-blanked maximum value)
