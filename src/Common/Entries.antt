-- ===== src/Common/Entries.antt =====
-- Maps written out as lists of entries and read back, as the stores on disk do.
use mathlib.Core.Path.{◌≡◌, refl, sym, ap, ◌∙◌}
use mathlib.Core.Bool.{true, false}
use mathlib.Core.Option.{Option, none, some}
use mathlib.Core.List.{List, [], ◌∷◌, ◌++◌}
use mathlib.Core.List.{append_assoc, append-nil}
use native.Mathlib.Omega.{arith}
use super_herdr.Common.Tests.{if◌then◌else◌}
use super_herdr.Common.Order.{Ord}
use super_herdr.Common.Maps.{Map, lookup, insert, has, IsRising, Above}

module _ {K V : Type 0} ⦃o : Ord K⦄ where
  -- `collect` into a map: a later entry replaces an earlier one.
  unfoldable pub collect : Map K V → List (K × V) → Map K V
  collect m [] = m
  collect m ((k, v) ∷ entries) = collect (insert k v m) entries

  -- The same, refusing a key that occurs twice.
  unfoldable pub collect_unique : Map K V → List (K × V) → Option (Map K V)
  collect_unique m [] = some m
  collect_unique m ((k, v) ∷ entries) =
      let rest = collect_unique (insert k v m) entries in if has k m then none else rest

  -- Every key of the map is below `k`.
  abbrev Under : K → Map K V → Type 0
  Under k [] = Unit
  Under k ((j, v) ∷ m) = (o.below j k ≡ true) × Under k m

  Above-middle :
      (j k : K) (v : V) (m rest : Map K V) → Above j (m ++ ((k, v) ∷ rest)) → o.below j k ≡ true
  Above-middle j k v [] rest a = a.0
  Above-middle j k v ((i, w) ∷ m) rest a = Above-middle j k v m rest a.1

  IsRising-Under : (k : K) (v : V) (m rest : Map K V) → IsRising (m ++ ((k, v) ∷ rest)) → Under k m
  IsRising-Under k v [] rest r = tt
  IsRising-Under k v ((j, w) ∷ m) rest r =
      (Above-middle j k v m rest r.0, IsRising-Under k v m rest r.1)

  -- A key above all others is put at the end.
  insert-last : (k : K) (v : V) (m : Map K V) → Under k m → insert k v m ≡ m ++ ((k, v) ∷ [])
  unfolding insert
  insert-last k v [] u = refl
  insert-last k v ((j, w) ∷ m) u = ground (
    arith,
    insert-last k v m u.1,
    o.below_irrefl k,
    o.below_trans j k j,
    o.below_irrefl j,
    ap (λ i. o.below i k),
  )

  has-Under : (k : K) (m : Map K V) → Under k m → has k m ≡ false
  unfolding has lookup
  has-Under k [] u = refl
  has-Under k ((j, w) ∷ m) u =
      ground (arith, has-Under k m u.1, o.below_irrefl k, ap (λ i. o.below i k))

  -- Entries in the order of their keys are read back as the map that they are.
  pub collect-rising :
      (m entries : Map K V) → IsRising (m ++ entries) → collect m entries ≡ m ++ entries
  unfolding collect
  collect-rising m [] r = sym (append-nil m)
  collect-rising m ((k, v) ∷ entries) r =
      let same = append_assoc m ((k, v) ∷ []) entries in
      let last = insert-last k v m (IsRising-Under k v m entries r) in
      rw last (collect-rising (m ++ ((k, v) ∷ [])) entries (rw same r) ∙ same)

  pub collect_unique-rising :
      (m entries : Map K V)
      → IsRising (m ++ entries)
      → collect_unique m entries ≡ some (m ++ entries)
  unfolding collect_unique
  collect_unique-rising m [] r = ap (λ (n : Map K V). some n) (sym (append-nil m))
  collect_unique-rising m ((k, v) ∷ entries) r =
      let same = append_assoc m ((k, v) ∷ []) entries in
      let under = IsRising-Under k v m entries r in
      let last = insert-last k v m under in
      rw (has-Under k m under) (
        rw last (
          collect_unique-rising (m ++ ((k, v) ∷ [])) entries (rw same r)
          ∙ ap (λ (n : Map K V). some n) same))
