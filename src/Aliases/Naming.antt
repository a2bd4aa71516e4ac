-- ===== src/Aliases/Naming.antt =====
-- src/aliases.rs: which names are shown as current, and what slots and targets there are.
use super_herdr.Common.{
  ℕ, ◌≡◌, refl, ◌∙◌, ◌⊎◌, Bool, true, false, not, ◌&&◌, ◌||◌, Option, none, some, List, [], ◌∷◌,
  ◌++◌, map, ite, arith, inl, inr,
}
use super_herdr.Common.Tests.{◌==◌, if◌then◌else◌}
use super_herdr.Common.Lists.{keep, any, any-append}
use super_herdr.Common.Order.{Text, text_ord, nat_ord}
use super_herdr.Common.Results.{ok}
use super_herdr.Common.Maps.{
  Map, keys, values, IsRising, has-insert, lookup, insert, has, lookup-insert, lookup-remove,
  lookup-adjust, lookup-keep,
}
use super_herdr.Common.Entries.{collect}
use super_herdr.Common.Texts.{trim}
use super_herdr.Model.{TargetSession, session_ord}
use super_herdr.Payloads.{ResourceRef}
use super_herdr.Aliases.{
  Alias, current, suspended, Aliases, reference_ord, resolve, confirm, clear, forget_target,
  belongs, favourite, set_slot, slot_of, vacate, targets, target_of, is_held,
}
use super_herdr.Aliases.Kept.{
  Step, named, cleared, confirmed, favoured, slotted, forgotten, Reached, after_set, set_ok,
}
use super_herdr.Aliases.Chosen.{favourite_ok, set_slot_ok, lookup-vacate}
use super_herdr.Aliases.Reach.{reachable-IsKept}

-- Whether the operation is a person saying that the resource, seen under this text, has its name.
abbrev pub Vouches : {before after : Aliases} → ResourceRef → Text → Step before after → Type 0
Vouches resource seen (named r label observed e) = (r ≡ resource) × (observed ≡ seen)
Vouches resource seen (confirmed r observed) = (r ≡ resource) × (observed ≡ seen)
Vouches resource seen step = ⊥

resolve-set :
    (resource : ResourceRef) (label observed : Text) (before : Aliases) (r : ResourceRef)
    (seen : Text)
    → resolve r seen (after_set resource label observed before)
      ≡ ite
          (reference_ord.same resource r)
          (some (trim label, ite (text_ord.same observed seen) current suspended))
          (resolve r seen before)
unfolding resolve
resolve-set resource label observed before r seen = ground (
  arith,
  lookup-insert resource (record { label = trim label; observed = observed }) before.names r,
)

resolve-clear :
    (resource : ResourceRef) (before : Aliases) (r : ResourceRef) (seen : Text)
    → resolve r seen (clear resource before).0
      ≡ ite (reference_ord.same resource r) none (resolve r seen before)
unfolding resolve clear
resolve-clear resource before r seen = ground (arith, lookup-remove resource before.names r)

resolve-confirm :
    (resource : ResourceRef) (observed : Text) (before : Aliases) (r : ResourceRef) (seen : Text)
    (label : Text)
    → resolve r seen (confirm resource observed before).0 ≡ some (label, current)
    → (resolve r seen before ≡ some (label, current)) ⊎ ((resource ≡ r) × (observed ≡ seen))
unfolding resolve confirm
resolve-confirm resource observed before r seen label e =
    let look =
      lookup-adjust resource (λ (a : Alias). record a { observed = observed }) before.names r in
    ground (arith, look)

resolve-forget_target :
    (session : TargetSession) (before : Aliases) (r : ResourceRef) (seen : Text)
    → IsRising before.names
    → resolve r seen (forget_target session before).0
      ≡ (if belongs r session then none else resolve r seen before)
unfolding resolve forget_target
resolve-forget_target session before r seen rising = ground (
  arith,
  lookup-keep (λ (entry : ResourceRef × Alias). not (belongs entry.0 session)) before.names r
      rising,
)

resolve-favourite :
    (resource : ResourceRef) (chosen : Bool) (before after : Aliases)
    → favourite resource before ≡ ok (after, chosen)
    → (r : ResourceRef) (seen : Text) → resolve r seen before ≡ resolve r seen after
unfolding resolve
resolve-favourite resource chosen before after e r seen =
    elim (favourite_ok resource chosen before after e) [
      | inl same ↦ rw same refl
      | inr (same, why) ↦ rw same refl
    ]

resolve-set_slot :
    (slot : ℕ) (resource : Option ResourceRef) (before after : Aliases)
    → set_slot slot resource before ≡ ok after
    → (r : ResourceRef) (seen : Text) → resolve r seen before ≡ resolve r seen after
unfolding resolve
resolve-set_slot slot resource before after e r seen =
    rw (set_slot_ok slot resource before after e).1 refl

-- In aliases that some run of the operations reaches, one operation more shows a name as current for a
-- resource, seen under some text, only if it was shown so before, or a person named or confirmed that
-- resource just now, seen under that very text.
pub resolve_current :
    {before after : Aliases} (step : Step before after) (resource : ResourceRef) (seen label : Text)
    → Reached before
    → resolve resource seen after ≡ some (label, current)
    → (resolve resource seen before ≡ some (label, current)) ⊎ Vouches resource seen step
resolve_current {before} {after} (named r given observed e) resource seen label reached shown =
    let (same, why) = set_ok r given observed before after e in
    ground (arith, rw same at shown, resolve-set r given observed before resource seen)
resolve_current {before} (cleared r) resource seen label reached shown =
    ground (arith, resolve-clear r before resource seen)
resolve_current {before} (confirmed r observed) resource seen label reached shown =
    resolve-confirm r observed before resource seen label shown
resolve_current {before} {after} (favoured r chosen e) resource seen label reached shown =
    inl (resolve-favourite r chosen before after e resource seen ∙ shown)
resolve_current {before} {after} (slotted slot r e) resource seen label reached shown =
    inl (resolve-set_slot slot r before after e resource seen ∙ shown)
resolve_current {before} (forgotten session) resource seen label reached shown = ground (
  arith,
  resolve-forget_target session before resource seen (reachable-IsKept before reached).names_rising,
)

-- In aliases that some run of the operations reaches, a resource put in a slot is in that slot and in
-- no other, and every other slot holds what it held, unless that was this resource.
pub slot_of-set_slot :
    (slot : ℕ) (resource : ResourceRef) (before after : Aliases) (other : ℕ)
    → Reached before
    → set_slot slot (some resource) before ≡ ok after
    → slot_of other after ≡ (
        if slot == other then some resource else (elim (slot_of other before) [
          | none ↦ none
          | some held ↦ if is_held resource held then none else some held
        ]))
unfolding slot_of
slot_of-set_slot slot resource before after other reached e =
    let (jump, same) = set_slot_ok slot (some resource) before after e in
    let rising = (reachable-IsKept before reached).slots_rising in
    rw same (
      ground (
        arith,
        lookup-insert slot resource (vacate resource before.slots) other,
        lookup-vacate resource before.slots other rising,
      ))

-- The targets that the aliases refer to.
has-collected :
    (session : TargetSession) (known : Map TargetSession (Unit {0})) (resources : List ResourceRef)
    → has session
        (collect known (map (λ (resource : ResourceRef). (target_of resource, tt)) resources))
      ≡ (has session known || any (λ resource. belongs resource session) resources)
unfolding collect belongs
has-collected session known [] = ground arith
has-collected session known (resource ∷ resources) = ground (
  arith,
  has-collected session (insert (target_of resource) tt known) resources,
  has-insert (target_of resource) tt known session,
)

any-kept :
    (session other : TargetSession) (resources : List ResourceRef)
    → any
        (λ resource. belongs resource session)
        (keep (λ resource. not (belongs resource other)) resources)
      ≡ (any (λ resource. belongs resource session) resources
          && not (ite (session_ord.same session other) true false))
unfolding belongs
any-kept session other [] = refl
any-kept session other (resource ∷ resources) = ground (arith, any-kept session other resources)

any-kept_keys :
    (session other : TargetSession) (names : Map ResourceRef Alias)
    → any
        (λ resource. belongs resource session)
        (keys (keep (λ (entry : ResourceRef × Alias). not (belongs entry.0 other)) names))
      ≡ (any (λ resource. belongs resource session) (keys names)
          && not (ite (session_ord.same session other) true false))
unfolding belongs
any-kept_keys session other [] = refl
any-kept_keys session other ((resource, alias) ∷ names) =
    ground (arith, any-kept_keys session other names)

any-kept_values :
    (session other : TargetSession) (slots : Map ℕ ResourceRef)
    → any
        (λ resource. belongs resource session)
        (values (keep (λ (entry : ℕ × ResourceRef). not (belongs entry.1 other)) slots))
      ≡ (any (λ resource. belongs resource session) (values slots)
          && not (ite (session_ord.same session other) true false))
unfolding belongs
any-kept_values session other [] = refl
any-kept_values session other ((slot, resource) ∷ slots) =
    ground (arith, any-kept_values session other slots)

has-targets :
    (session : TargetSession) (aliases : Aliases)
    → has session (targets aliases) ≡ (
        any (λ resource. belongs resource session) (keys aliases.names)
        || (any (λ resource. belongs resource session) aliases.favourites
            || any (λ resource. belongs resource session) (values aliases.slots)))
unfolding targets has lookup
has-targets session aliases = ground (
  arith,
  has-collected session [] (keys aliases.names ++ (aliases.favourites ++ values aliases.slots)),
  any-append (λ resource. belongs resource session) (keys aliases.names)
      (aliases.favourites ++ values aliases.slots),
  any-append (λ resource. belongs resource session) aliases.favourites (values aliases.slots),
)

-- Once a target is forgotten, the aliases refer to the targets that they did but that one.
pub targets-forget_target :
    (gone session : TargetSession) (before : Aliases)
    → has session (targets (forget_target gone before).0)
      ≡ (has session (targets before) && not (ite (session_ord.same session gone) true false))
unfolding forget_target
targets-forget_target gone session before = ground (
  arith,
  has-targets session before,
  has-targets session (forget_target gone before).0,
  any-kept session gone before.favourites,
  any-kept_keys session gone before.names,
  any-kept_values session gone before.slots,
)
