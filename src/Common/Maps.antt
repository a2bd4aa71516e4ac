-- ===== src/Common/Maps.antt =====
-- `BTreeMap` and `BTreeSet`: association lists in the order of their keys, with the laws that
-- the components use.
use Prim.Native.Nat.{suc, ◌+◌, ◌≤◌}
use mathlib.Core.Path.{◌≡◌, refl, ap}
use mathlib.Core.Logic.{ite}
use mathlib.Core.Bool.{Bool, true, false, ◌&&◌}
use mathlib.Core.List.{List, [], ◌∷◌}
use mathlib.Core.Option.{Option, none, some}
use native.Mathlib.Omega.{arith}
use super_herdr.Common.Tests.{if◌then◌else◌, is_some}
use super_herdr.Common.Lists.{length, keep}
use super_herdr.Common.Order.{Ord}

abbrev pub Map : Type 0 → Type 0 → Type 0
Map K V = List (K × V)

abbrev pub keys : {K V : Type 0} → Map K V → List K
keys [] = []
keys ((k, v) ∷ m) = k ∷ keys m

abbrev pub values : {K V : Type 0} → Map K V → List V
values [] = []
values ((k, v) ∷ m) = v ∷ values m

abbrev pub is_empty : {K V : Type 0} → Map K V → Bool
is_empty [] = true
is_empty (entry ∷ m) = false

module _ {K V : Type 0} ⦃o : Ord K⦄ where
  unfoldable pub lookup : K → Map K V → Option V
  lookup k [] = none
  lookup k ((j, v) ∷ m) = ite (o.same j k) (some v) (lookup k m)

  unfoldable pub insert : K → V → Map K V → Map K V
  insert k v [] = (k, v) ∷ []
  insert k v ((j, w) ∷ m) =
      let rest = (j, w) ∷ insert k v m in
      ite (o.same j k) ((k, v) ∷ m) (if o.below k j then (k, v) ∷ (j, w) ∷ m else rest)

  unfoldable pub remove : K → Map K V → Map K V
  remove k [] = []
  remove k ((j, v) ∷ m) = let rest = remove k m in ite (o.same j k) rest ((j, v) ∷ rest)

  -- `contains_key`.
  unfoldable pub has : K → Map K V → Bool
  unfolding lookup
  has k m = is_some (lookup k m)

  -- The value behind `get_mut`, rewritten; nothing happens on a missing key.
  unfoldable pub adjust : K → (V → V) → Map K V → Map K V
  adjust k f [] = []
  adjust k f ((j, v) ∷ m) = let rest = adjust k f m in (j, ite (o.same j k) (f v) v) ∷ rest

  pub lookup-insert :
      (k : K) (v : V) (m : Map K V) (j : K)
      → lookup j (insert k v m) ≡ ite (o.same k j) (some v) (lookup j m)
  unfolding lookup insert
  lookup-insert k v [] j = refl
  lookup-insert k v ((i, w) ∷ m) j = ground (arith, lookup-insert k v m j)

  pub lookup-remove :
      (k : K) (m : Map K V) (j : K) → lookup j (remove k m) ≡ ite (o.same k j) none (lookup j m)
  unfolding lookup remove
  lookup-remove k [] j = ground arith
  lookup-remove k ((i, w) ∷ m) j = ground (arith, lookup-remove k m j)

  pub lookup-adjust :
      (k : K) (f : V → V) (m : Map K V) (j : K)
      → lookup j (adjust k f m)
        ≡ ite (o.same k j) (elim (lookup j m) [ none ↦ none | some v ↦ some (f v) ]) (lookup j m)
  unfolding lookup adjust
  lookup-adjust k f [] j = ground arith
  lookup-adjust k f ((i, w) ∷ m) j = ground (arith, lookup-adjust k f m j)

  pub has-insert :
      (k : K) (v : V) (m : Map K V) (j : K) → has j (insert k v m) ≡ ite (o.same k j) true (has j m)
  unfolding has
  has-insert k v m j = ground (arith, lookup-insert k v m j)

  pub has-remove :
      (k : K) (m : Map K V) (j : K) → has j (remove k m) ≡ ite (o.same k j) false (has j m)
  unfolding has
  has-remove k m j = ground (arith, lookup-remove k m j)

  pub has-adjust : (k : K) (f : V → V) (m : Map K V) (j : K) → has j (adjust k f m) ≡ has j m
  unfolding has
  has-adjust k f m j = ground (arith, lookup-adjust k f m j)

  -- A map with a key is not empty.
  pub is_empty-has : (k : K) (m : Map K V) → has k m ≡ true → is_empty m ≡ false
  unfolding has lookup
  is_empty-has k [] h = cc
  is_empty-has k ((j, v) ∷ m) h = refl

  pub has_of_empty : (k : K) (m : Map K V) → is_empty m ≡ true → has k m ≡ false
  unfolding has lookup
  has_of_empty k [] h = refl
  has_of_empty k ((j, v) ∷ m) h = cc

  pub is_empty_of_remove :
      (k : K) (m : Map K V) → is_empty (remove k m) ≡ false → is_empty m ≡ false
  unfolding remove
  is_empty_of_remove k [] h = h
  is_empty_of_remove k ((j, v) ∷ m) h = refl

  pub is_empty-insert : (k : K) (v : V) (m : Map K V) → is_empty (insert k v m) ≡ false
  unfolding insert
  is_empty-insert k v [] = refl
  is_empty-insert k v ((j, w) ∷ m) = ground arith

  pub length-adjust : (k : K) (f : V → V) (m : Map K V) → length (adjust k f m) ≡ length m
  unfolding adjust
  length-adjust k f [] = refl
  length-adjust k f ((j, v) ∷ m) = ground (arith, length-adjust k f m)

  pub length-remove-le : (k : K) (m : Map K V) → length (remove k m) ≤ length m
  unfolding remove
  length-remove-le k [] = omega arith
  length-remove-le k ((j, v) ∷ m) = ground (arith, length-remove-le k m)

  pub length-insert-le : (k : K) (v : V) (m : Map K V) → length (insert k v m) ≤ length m + 1
  unfolding insert
  length-insert-le k v [] = omega arith
  length-insert-le k v ((j, w) ∷ m) = ground (arith, length-insert-le k v m)

  pub length-remove-lt :
      (k : K) (m : Map K V) → has k m ≡ true → suc (length (remove k m)) ≤ length m
  unfolding remove has
  length-remove-lt k [] h = cc
  length-remove-lt k ((j, v) ∷ m) h = ground (arith, length-remove-lt k m, length-remove-le k m)

-- Membership in a list of keys.
module _ {K : Type 0} ⦃o : Ord K⦄ where
  abbrev pub listed : K → List K → Bool
  listed k [] = false
  listed k (j ∷ ks) = ite (o.same j k) true (listed k ks)

  pub listed-keys : {V : Type 0} (k : K) (m : Map K V) → listed k (keys m) ≡ has k m
  unfolding has lookup
  listed-keys k [] = refl
  listed-keys k ((j, v) ∷ m) = ground (arith, listed-keys k m)

  pub listed-keep :
      (t : K → Bool) (k : K) (ks : List K) → listed k (keep t ks) ≡ (t k && listed k ks)
  listed-keep t k [] = ground arith
  listed-keep t k (j ∷ ks) = elim (o.same j k) [
    | yes q ↦ ground (arith, listed-keep t k ks, ap t q)
    | no d ↦ ground (arith, listed-keep t k ks)
  ]

-- The keys of a `BTreeMap` rise along its iteration.
module _ {K V : Type 0} ⦃o : Ord K⦄ where
  -- Every key of `m` is above `k`.
  abbrev pub Above : K → Map K V → Type 0
  Above k [] = Unit
  Above k ((j, v) ∷ m) = (o.below k j ≡ true) × Above k m

  abbrev pub IsRising : Map K V → Type 0
  IsRising [] = Unit
  IsRising ((j, v) ∷ m) = Above j m × IsRising m

  -- A key below all others is not in the map.
  pub lookup-Above : (k : K) (m : Map K V) → Above k m → lookup k m ≡ none
  unfolding lookup
  lookup-Above k [] r = refl
  lookup-Above k ((j, v) ∷ m) r =
      ground (arith, lookup-Above k m r.1, o.below_irrefl k, ap (λ i. o.below k i))

  Above-trans : (a b : K) (m : Map K V) → o.below a b ≡ true → Above b m → Above a m
  Above-trans a b [] h r = tt
  Above-trans a b ((j, v) ∷ m) h r = (o.below_trans a b j h r.0, Above-trans a b m h r.1)

  Above-insert :
      (a k : K) (v : V) (m : Map K V) → o.below a k ≡ true → Above a m → Above a (insert k v m)
  unfolding insert
  Above-insert a k v [] h r = (h, tt)
  Above-insert a k v ((j, w) ∷ m) h r = ground (arith, Above-insert a k v m h r.1)

  Above-remove : (a k : K) (m : Map K V) → Above a m → Above a (remove k m)
  unfolding remove
  Above-remove a k [] r = tt
  Above-remove a k ((j, w) ∷ m) r = ground (arith, Above-remove a k m r.1)

  pub insert-IsRising : (k : K) (v : V) (m : Map K V) → IsRising m → IsRising (insert k v m)
  unfolding insert
  insert-IsRising k v [] r = (tt, tt)
  insert-IsRising k v ((j, w) ∷ m) r =
      ground (
        arith,
        o.below_total k j,
        Above-insert j k v m,
        Above-trans k j m,
        insert-IsRising k v m r.1,
      )

  pub remove-IsRising : (k : K) (m : Map K V) → IsRising m → IsRising (remove k m)
  unfolding remove
  remove-IsRising k [] r = tt
  remove-IsRising k ((j, w) ∷ m) r = ground (arith, Above-remove j k m r.0, remove-IsRising k m r.1)

  -- Rewriting a value of a map.
  Above-adjust : (k : K) (f : V → V) (a : K) (m : Map K V) → Above a m → Above a (adjust k f m)
  unfolding adjust
  Above-adjust k f a [] r = tt
  Above-adjust k f a ((j, w) ∷ m) r = (r.0, Above-adjust k f a m r.1)

  pub adjust-IsRising : (k : K) (f : V → V) (m : Map K V) → IsRising m → IsRising (adjust k f m)
  unfolding adjust
  adjust-IsRising k f [] r = tt
  adjust-IsRising k f ((j, w) ∷ m) r = (Above-adjust k f j m r.0, adjust-IsRising k f m r.1)

  -- A value that replaces another does not make the map larger.
  pub length-insert-has :
      (k : K) (v : V) (m : Map K V) → IsRising m → has k m ≡ true → length (insert k v m) ≡ length m
  unfolding insert has lookup
  length-insert-has k v [] r h = cc
  length-insert-has k v ((j, w) ∷ m) r h =
      ground (arith, length-insert-has k v m r.1, lookup-Above k m, Above-trans k j m)

  Above-keep : (p : K × V → Bool) (a : K) (m : Map K V) → Above a m → Above a (keep p m)
  Above-keep p a [] r = tt
  Above-keep p a ((j, w) ∷ m) r = ground (arith, Above-keep p a m r.1)

  -- `BTreeMap::retain`.
  pub keep-IsRising : (p : K × V → Bool) (m : Map K V) → IsRising m → IsRising (keep p m)
  keep-IsRising p [] r = tt
  keep-IsRising p ((j, w) ∷ m) r = ground (arith, Above-keep p j m r.0, keep-IsRising p m r.1)

  pub lookup-keep :
      (p : K × V → Bool) (m : Map K V) (k : K)
      → IsRising m
      → lookup k (keep p m)
        ≡ elim (lookup k m) [ none ↦ none | some v ↦ if p (k, v) then some v else none ]
  unfolding lookup
  lookup-keep p [] k r = refl
  lookup-keep p ((j, w) ∷ m) k r = elim (o.same j k) [
    | yes q ↦
        let missing = lookup-Above j m r.0 in
        ground (arith, lookup-keep p m k r.1, ap (λ i. lookup i m) q, ap (λ i. p (i, w)) q, missing)
    | no d ↦ ground (arith, lookup-keep p m k r.1)
  ]

-- `BTreeSet`.
abbrev pub Set : Type 0 → Type 0
Set K = Map K (Unit {0})

module _ {K : Type 0} ⦃o : Ord K⦄ where
  abbrev pub add : K → Set K → Set K
  add k s = insert k tt s

  abbrev pub singleton : K → Set K
  singleton k = (k, tt) ∷ []
