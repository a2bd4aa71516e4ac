-- ===== src/Common/Order.antt =====
-- The derived `Ord` of the source's map keys: numbers, text, and records compared field by field.
use Prim.Native.Nat.{ℕ}
use Prim.Native.Char.{code}
use Prim.Native.String.{String}
use mathlib.Core.Path.{◌≡◌, refl, ap}
use mathlib.Core.Logic.{◌≢◌, ite}
use mathlib.Core.Bool.{Bool, true, false}
use mathlib.Core.List.{List, [], ◌∷◌}
use native.Mathlib.Omega.{arith}
use native.Mathlib.Decide.{ℕ_discrete}
use super_herdr.Common.Tests.{ltb}

-- A decidable total order.
pub record Ord (K : Type 0) : Type 0 where
  pub same : Discrete K
  pub below : K → K → Bool
  pub below_irrefl : (a : K) → below a a ≡ false
  pub below_trans : (a b c : K) → below a b ≡ true → below b c ≡ true → below a c ≡ true
  pub below_total : (a b : K) → a ≢ b → below a b ≡ false → below b a ≡ true

-- Text is the list of its code points; Rust's order on UTF-8 bytes is the same order.
abbrev pub Text : Type 0
Text = List ℕ

-- A text literal.
abbrev pub text : String → Text
text String.[] = []
text (String.◌∷◌ c s) = code c ∷ text s

-- Equality of lists is decided element by element.
unfoldable pub list_same : {A : Type 0} → Discrete A → Discrete (List A)
list_same d [] [] = yes refl
list_same d [] (y ∷ ys) = no (λ e. cc)
list_same d (x ∷ xs) [] = no (λ e. cc)
list_same d (x ∷ xs) (y ∷ ys) = elim (d x y) [
  | no h ↦ no (λ e. h (ground arith))
  | yes p ↦ elim (list_same d xs ys) [
    | no h ↦ no (λ e. h (ground arith))
    | yes q ↦ yes (ground arith)
  ]
]

-- Lists in lexicographic order.
module _ {A : Type 0} (o : Ord A) where
  unfoldable pub lex_below : List A → List A → Bool
  lex_below [] [] = false
  lex_below [] (y ∷ ys) = true
  lex_below (x ∷ xs) [] = false
  lex_below (x ∷ xs) (y ∷ ys) = let rest = lex_below xs ys in ite (o.same x y) rest (o.below x y)

  pub lex_irrefl : (a : List A) → lex_below a a ≡ false
  unfolding lex_below
  lex_irrefl [] = refl
  lex_irrefl (x ∷ xs) = ground (arith, lex_irrefl xs, o.below_irrefl x)

  pub lex_trans :
      (a b c : List A) → lex_below a b ≡ true → lex_below b c ≡ true → lex_below a c ≡ true
  unfolding lex_below
  lex_trans [] [] c h k = cc
  lex_trans [] (y ∷ ys) [] h k = cc
  lex_trans [] (y ∷ ys) (z ∷ zs) h k = refl
  lex_trans (x ∷ xs) [] c h k = cc
  lex_trans (x ∷ xs) (y ∷ ys) [] h k = cc
  lex_trans (x ∷ xs) (y ∷ ys) (z ∷ zs) h k =
      ground (arith, lex_trans xs ys zs, o.below_trans x y z, o.below_trans x y x, o.below_irrefl x)

  pub lex_total : (a b : List A) → a ≢ b → lex_below a b ≡ false → lex_below b a ≡ true
  unfolding lex_below
  lex_total [] [] d h = absurd (d refl)
  lex_total [] (y ∷ ys) d h = cc
  lex_total (x ∷ xs) [] d h = refl
  lex_total (x ∷ xs) (y ∷ ys) d h = ground (arith, lex_total xs ys, o.below_total x y)

  abbrev pub list_ord : Ord (List A)
  list_ord = record {
    same = list_same o.same;
    below = lex_below;
    below_irrefl = lex_irrefl;
    below_trans = lex_trans;
    below_total = lex_total;
  }

-- A type is ordered by a key that tells its values apart.
module _ {A B : Type 0} (o : Ord B) (key : A → B) (inj : (a b : A) → key a ≡ key b → a ≡ b) where
  unfoldable pub key_same : Discrete A
  key_same a b = elim (o.same (key a) (key b)) [
    | yes e ↦ yes (inj a b e)
    | no d ↦ no (λ e. d (ap key e))
  ]

  abbrev pub key_ord : Ord A
  key_ord = record {
    same = key_same;
    below = λ a b. o.below (key a) (key b);
    below_irrefl = λ a. o.below_irrefl (key a);
    below_trans = λ a b c. o.below_trans (key a) (key b) (key c);
    below_total = λ a b d. o.below_total (key a) (key b) (λ e. d (inj a b e));
  }

pub ltb_irrefl : (a : ℕ) → ltb a a ≡ false
ltb_irrefl a = ground arith

pub ltb_trans : (a b c : ℕ) → ltb a b ≡ true → ltb b c ≡ true → ltb a c ≡ true
ltb_trans a b c h k = ground arith

pub ltb_total : (a b : ℕ) → a ≢ b → ltb a b ≡ false → ltb b a ≡ true
ltb_total a b d h = ground arith

instance abbrev pub nat_ord : Ord ℕ
nat_ord = record {
  same = ℕ_discrete;
  below = ltb;
  below_irrefl = ltb_irrefl;
  below_trans = ltb_trans;
  below_total = ltb_total;
}

instance abbrev pub text_ord : Ord Text
text_ord = list_ord nat_ord

abbrev pub texts_ord : Ord (List Text)
texts_ord = list_ord text_ord
