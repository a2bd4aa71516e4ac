-- ===== src/Aliases/Chosen.antt =====
-- src/aliases.rs: favourites and slots, through all their operations.
use super_herdr.Common.{
  ℕ, ◌≤◌, ◌<◌, ◌⊎◌, ◌≡◌, ◌≢◌, refl, sym, ◌∙◌, Bool, true, false, not, Option, none, some, List, [],
  ◌∷◌, ◌++◌, inl, inr, arith,
}
use super_herdr.Common.Tests.{if◌then◌else◌}
use super_herdr.Common.Lists.{length, keep, any, length-append, length-keep-le, any-append}
use super_herdr.Common.Order.{nat_ord}
use super_herdr.Common.Results.{ok}
use super_herdr.Common.Maps.{
  Map, lookup, insert, remove, IsRising, lookup-insert, lookup-remove, lookup-keep, insert-IsRising,
  remove-IsRising, keep-IsRising,
}
use super_herdr.Common.Every.{Every-keep}
use super_herdr.Model.{TargetSession}
use super_herdr.Payloads.{ResourceRef}
use super_herdr.Aliases.{
  Alias, Aliases, is_jump_slot, reference_ord, remove_first, is_held, is_favourite, favourite,
  vacate, set_slot, forget_target,
}
use super_herdr.Aliases.Kept.{IsKept, IsLabel, IsDistinct, IsSlotted}

-- What is in none of a list is in none of a part of it.
any-remove_first :
    (p : ResourceRef → Bool) (resource : ResourceRef) (held : List ResourceRef)
    → any p held ≡ false
    → any p (remove_first resource held) ≡ false
unfolding remove_first
any-remove_first p resource [] h = refl
any-remove_first p resource (first ∷ rest) h = ground (arith, any-remove_first p resource rest)

remove_first-IsDistinct :
    (resource : ResourceRef) (held : List ResourceRef)
    → IsDistinct held
    → IsDistinct (remove_first resource held)
unfolding remove_first
remove_first-IsDistinct resource [] d = tt
remove_first-IsDistinct resource (first ∷ rest) d = ground (
  arith,
  remove_first-IsDistinct resource rest d.1,
  any-remove_first (is_held first) resource rest d.0,
)

length-remove_first :
    (resource : ResourceRef) (held : List ResourceRef)
    → length (remove_first resource held) ≤ length held
unfolding remove_first
length-remove_first resource [] = omega arith
length-remove_first resource (first ∷ rest) = ground (arith, length-remove_first resource rest)

any-keep-false :
    (p q : ResourceRef → Bool) (held : List ResourceRef)
    → any p held ≡ false
    → any p (keep q held) ≡ false
any-keep-false p q [] h = refl
any-keep-false p q (first ∷ rest) h = ground (arith, any-keep-false p q rest)

keep-IsDistinct :
    (q : ResourceRef → Bool) (held : List ResourceRef) → IsDistinct held → IsDistinct (keep q held)
keep-IsDistinct q [] d = tt
keep-IsDistinct q (first ∷ rest) d =
    ground (arith, keep-IsDistinct q rest d.1, any-keep-false (is_held first) q rest d.0)

IsDistinct-append :
    (resource : ResourceRef) (held : List ResourceRef)
    → any (is_held resource) held ≡ false
    → IsDistinct held
    → IsDistinct (held ++ (resource ∷ []))
IsDistinct-append resource [] h d = (refl, tt)
IsDistinct-append resource (first ∷ rest) h d =
    ground (arith, IsDistinct-append resource rest, any-append (is_held first) rest (resource ∷ []))

abbrev pub with_favourites : List ResourceRef → Aliases → Aliases
with_favourites favourites before = record before { favourites = favourites }

pub favourite_ok :
    (resource : ResourceRef) (chosen : Bool) (before after : Aliases)
    → favourite resource before ≡ ok (after, chosen)
    → (after ≡ with_favourites (remove_first resource before.favourites) before)
      ⊎ ((after ≡ with_favourites (before.favourites ++ (resource ∷ [])) before)
          × ((length before.favourites < 64) × (any (is_held resource) before.favourites ≡ false)))
unfolding favourite is_favourite
favourite_ok resource chosen before after e = ground arith

with_favourites-IsKept :
    (favourites : List ResourceRef) (before : Aliases)
    → length favourites ≤ 64
    → IsDistinct favourites
    → IsKept before
    → IsKept (with_favourites favourites before)
with_favourites-IsKept favourites before h d v = record {
  names_rising = v.names_rising;
  slots_rising = v.slots_rising;
  names_bounded = v.names_bounded;
  favourites_bounded = h;
  labelled = v.labelled;
  distinct = d;
  slotted = v.slotted;
}

pub favourite-IsKept :
    (resource : ResourceRef) (chosen : Bool) (before after : Aliases)
    → favourite resource before ≡ ok (after, chosen)
    → IsKept before
    → IsKept after
favourite-IsKept resource chosen before after e v =
    elim (favourite_ok resource chosen before after e) [
      | inl same ↦ rw same (
          with_favourites-IsKept (remove_first resource before.favourites) before
            (omega (arith, length-remove_first resource before.favourites, v.favourites_bounded))
            (remove_first-IsDistinct resource before.favourites v.distinct) v)
      | inr (same, (room, fresh)) ↦ rw same (
          with_favourites-IsKept (before.favourites ++ (resource ∷ [])) before
            (omega (arith, length-append before.favourites (resource ∷ [])))
            (IsDistinct-append resource before.favourites fresh v.distinct) v)
    ]

abbrev pub with_slots : Map ℕ ResourceRef → Aliases → Aliases
with_slots slots before = record before { slots = slots }

with_slots-IsKept :
    (slots : Map ℕ ResourceRef) (before : Aliases)
    → IsRising slots
    → IsSlotted slots
    → IsKept before
    → IsKept (with_slots slots before)
with_slots-IsKept slots before r s v = record {
  names_rising = v.names_rising;
  slots_rising = r;
  names_bounded = v.names_bounded;
  favourites_bounded = v.favourites_bounded;
  labelled = v.labelled;
  distinct = v.distinct;
  slotted = s;
}

-- Fewer entries of the same slots.
keep-IsSlotted :
    (p : ℕ × ResourceRef → Bool) (slots : Map ℕ ResourceRef)
    → IsRising slots
    → IsSlotted slots
    → IsSlotted (keep p slots)
keep-IsSlotted p slots r s slot resource e =
    let before : lookup slot slots ≡ some resource = ground (arith, lookup-keep p slots slot r) in
    (
      (s slot resource before).0,
      λ other f.
          let earlier : lookup other slots ≡ some resource =
            ground (arith, lookup-keep p slots other r) in
          (s slot resource before).1 other earlier,
    )

remove-IsSlotted :
    (gone : ℕ) (slots : Map ℕ ResourceRef) → IsSlotted slots → IsSlotted (remove gone slots)
remove-IsSlotted gone slots s slot resource e =
    let before : lookup slot slots ≡ some resource =
      ground (arith, lookup-remove gone slots slot) in
    (
      (s slot resource before).0,
      λ other f.
          let earlier : lookup other slots ≡ some resource =
            ground (arith, lookup-remove gone slots other) in
          (s slot resource before).1 other earlier,
    )

-- After `vacate` no slot holds the resource, and the others hold what they did.
pub lookup-vacate :
    (resource : ResourceRef) (slots : Map ℕ ResourceRef) (slot : ℕ)
    → IsRising slots
    → lookup slot (vacate resource slots) ≡ elim (lookup slot slots) [
      | none ↦ none
      | some held ↦ if is_held resource held then none else some held
    ]
unfolding vacate
lookup-vacate resource slots slot r =
    ground (
      arith,
      lookup-keep (λ (entry : ℕ × ResourceRef). not (is_held resource entry.1)) slots slot r,
    )

pub vacate-IsRising :
    (resource : ResourceRef) (slots : Map ℕ ResourceRef)
    → IsRising slots
    → IsRising (vacate resource slots)
unfolding vacate
vacate-IsRising resource slots r = keep-IsRising _ slots r

-- What a slot holds once the resource is put in one.
lookup_filled :
    (slot : ℕ) (resource : ResourceRef) (slots : Map ℕ ResourceRef) (at : ℕ) (held : ResourceRef)
    → IsRising slots
    → lookup at (insert slot resource (vacate resource slots)) ≡ some held
    → ((slot ≡ at) × (held ≡ resource)) ⊎ ((lookup at slots ≡ some held) × (held ≢ resource))
lookup_filled slot resource slots at held r e = ground (
  arith,
  lookup-insert slot resource (vacate resource slots) at,
  lookup-vacate resource slots at r,
)

insert-IsSlotted :
    (slot : ℕ) (resource : ResourceRef) (slots : Map ℕ ResourceRef)
    → is_jump_slot slot ≡ true
    → IsRising slots
    → IsSlotted slots
    → IsSlotted (insert slot resource (vacate resource slots))
insert-IsSlotted slot resource slots jump r s at held e =
    elim (lookup_filled slot resource slots at held r e) [
      | inl (here, same) ↦ (
        rw (sym here) jump,
        λ other f. elim (lookup_filled slot resource slots other held r f) [
          | inl (there, again) ↦ sym there ∙ here
          | inr (earlier, apart) ↦ absurd (apart same)
        ],
      )
      | inr (before, apart) ↦ (
        (s at held before).0,
        λ other f. elim (lookup_filled slot resource slots other held r f) [
          | inl (there, same) ↦ absurd (apart same)
          | inr (earlier, also) ↦ (s at held before).1 other earlier
        ],
      )
    ]

pub set_slot_ok :
    (slot : ℕ) (resource : Option ResourceRef) (before after : Aliases)
    → set_slot slot resource before ≡ ok after
    → (is_jump_slot slot ≡ true)
      × (after
          ≡ with_slots
              (elim resource [
                | none ↦ remove slot before.slots
                | some r ↦ insert slot r (vacate r before.slots)
              ])
              before)
unfolding set_slot
set_slot_ok slot none before after e = ground arith
set_slot_ok slot (some resource) before after e = ground arith

pub set_slot-IsKept :
    (slot : ℕ) (resource : Option ResourceRef) (before after : Aliases)
    → set_slot slot resource before ≡ ok after
    → IsKept before
    → IsKept after
set_slot-IsKept slot none before after e v =
    let (jump, same) = set_slot_ok slot none before after e in
    rw same (
      with_slots-IsKept (remove slot before.slots) before
        (remove-IsRising slot before.slots v.slots_rising)
        (remove-IsSlotted slot before.slots v.slotted) v)
set_slot-IsKept slot (some resource) before after e v =
    let (jump, same) = set_slot_ok slot (some resource) before after e in
    rw same (
      with_slots-IsKept (insert slot resource (vacate resource before.slots)) before
        (insert-IsRising slot resource (vacate resource before.slots)
          (vacate-IsRising resource before.slots v.slots_rising))
        (insert-IsSlotted slot resource before.slots jump v.slots_rising v.slotted) v)

pub forget_target-IsKept :
    (session : TargetSession) (before : Aliases)
    → IsKept before
    → IsKept (forget_target session before).0
unfolding forget_target
forget_target-IsKept session before v = record {
  names_rising = keep-IsRising _ before.names v.names_rising;
  slots_rising = keep-IsRising _ before.slots v.slots_rising;
  names_bounded = omega (arith, length-keep-le _ before.names, v.names_bounded);
  favourites_bounded = omega (arith, length-keep-le _ before.favourites, v.favourites_bounded);
  labelled = Every-keep (λ (a : Alias). IsLabel a.label) _ before.names v.names_rising v.labelled;
  distinct = keep-IsDistinct _ before.favourites v.distinct;
  slotted = keep-IsSlotted _ before.slots v.slots_rising v.slotted;
}
