-- ===== src/Common/Every.antt =====
-- Maps all of whose values satisfy a predicate.
use mathlib.Core.Logic.{if_pos, if_neg}
use mathlib.Core.Path.{◌≡◌, refl, sym, subst, ap, ◌∙◌}
use mathlib.Core.Logic.{inl, inr}
use mathlib.Core.Option.{none, some}
use mathlib.Core.List.{[]}
use native.Mathlib.Omega.{arith}
use super_herdr.Common.Tests.{eq_of_some, Option-cases}
use super_herdr.Common.Order.{Ord}
use super_herdr.Common.Maps.{
  Map, lookup, insert, remove, adjust, lookup-insert, lookup-remove, lookup-adjust, lookup-keep,
  IsRising,
}
use mathlib.Core.Bool.{Bool}
use super_herdr.Common.Lists.{keep}

module _ {K V : Type 0} ⦃o : Ord K⦄ (P : V → Type 0) where
  abbrev pub Every : Map K V → Type 0
  Every m = (k : K) (v : V) → lookup k m ≡ some v → P v

  pub Every-empty : Every []
  unfolding lookup
  Every-empty k v e = absurd (ground (arith, e))

  pub Every-insert : (k : K) (v : V) (m : Map K V) → P v → Every m → Every (insert k v m)
  Every-insert k v m p h j w e =
      let found = sym (lookup-insert k v m j) ∙ e in
      elim (o.same k j) [
        | yes q ↦ subst P (eq_of_some v w (rw (if_pos _ q) at found)) p
        | no d ↦ h j w (rw (if_neg _ d) at found)
      ]

  pub Every-remove : (k : K) (m : Map K V) → Every m → Every (remove k m)
  Every-remove k m h j w e =
      let found = sym (lookup-remove k m j) ∙ e in
      elim (o.same k j) [
        | yes q ↦ absurd (ground (arith, rw (if_pos _ q) at found))
        | no d ↦ h j w (rw (if_neg _ d) at found)
      ]

  pub Every-keep : (p : K × V → Bool) (m : Map K V) → IsRising m → Every m → Every (keep p m)
  Every-keep p m r h j w e =
      let before : lookup j m ≡ some w = ground (arith, lookup-keep p m j r) in h j w before

  -- The value under one key is rewritten.
  pub Every-adjust :
      (k : K) (f : V → V) (m : Map K V)
      → ((v : V) → lookup k m ≡ some v → P (f v))
      → Every m
      → Every (adjust k f m)
  Every-adjust k f m p h j w e =
      let found = sym (lookup-adjust k f m j) ∙ e in
      elim (o.same k j) [
        | yes q ↦ elim (Option-cases (lookup j m)) [
          | inl missing ↦ absurd (ground (arith, rw (if_pos _ q) at found, missing))
          | inr (v, here) ↦
              subst P (eq_of_some (f v) w (sym (rewritten v here) ∙ (rw (if_pos _ q) at found)))
                (p v (ap (λ i. lookup i m) q ∙ here))
        ]
        | no d ↦ h j w (rw (if_neg _ d) at found)
      ]
    where
      rewritten :
          (v : V)
          → lookup j m ≡ some v
          → elim (lookup j m) [ none ↦ none | some v ↦ some (f v) ] ≡ some (f v)
      rewritten v here = rw here refl
