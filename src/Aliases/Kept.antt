-- ===== src/Aliases/Kept.antt =====
-- src/aliases.rs: what holds of the names, favourites and slots through all their operations.
use super_herdr.Common.{
  ℕ, ◌≤◌, ◌<◌, ◌⊎◌, ◌≡◌, Bool, true, false, Option, some, List, [], ◌∷◌, inl, inr, arith,
}
use super_herdr.Common.Tests.{Bool-cases}
use super_herdr.Common.Lists.{length, any}
use super_herdr.Common.Order.{Text, nat_ord}
use super_herdr.Common.Results.{ok}
use super_herdr.Common.Texts.{is_control_character, trim}
use super_herdr.Common.Maps.{
  Map, lookup, insert, adjust, has, IsRising, insert-IsRising, remove-IsRising, adjust-IsRising,
  length-adjust, length-remove-le, length-insert-le, length-insert-has,
}
use super_herdr.Common.Every.{Every, Every-insert, Every-remove, Every-adjust}
use super_herdr.Model.{TargetSession}
use super_herdr.Payloads.{ResourceRef}
use super_herdr.Aliases.{
  Alias, Aliases, no_aliases, is_jump_slot, reference_ord, set, clear, confirm, is_held, favourite,
  set_slot, forget_target,
}

-- One operation on the aliases.
pub data Step : Aliases → Aliases → Type 0 where
  named :
      {before after : Aliases}
      → (resource : ResourceRef) → (label observed : Text)
      → set resource label observed before ≡ ok after
      → Step before after
  cleared : {before : Aliases} → (resource : ResourceRef) → Step before (clear resource before).0
  confirmed :
      {before : Aliases}
      → (resource : ResourceRef) → (observed : Text)
      → Step before (confirm resource observed before).0
  favoured :
      {before after : Aliases}
      → (resource : ResourceRef) → (chosen : Bool) → favourite resource before ≡ ok (after, chosen)
      → Step before after
  slotted :
      {before after : Aliases}
      → (slot : ℕ) → (resource : Option ResourceRef) → set_slot slot resource before ≡ ok after
      → Step before after
  forgotten :
      {before : Aliases} → (session : TargetSession) → Step before (forget_target session before).0

pub data Reached : Aliases → Type 0 where
  start : Reached no_aliases
  thence : {before after : Aliases} → Reached before → Step before after → Reached after

-- A label that may be shown.
abbrev pub IsLabel : Text → Type 0
IsLabel label =
    ((1 ≤ length label) × (length label ≤ 48)) × (any is_control_character label ≡ false)

abbrev pub IsDistinct : List ResourceRef → Type 0
IsDistinct [] = Unit
IsDistinct (held ∷ rest) = (any (is_held held) rest ≡ false) × IsDistinct rest

-- A slot is one that may be jumped to, and no other slot holds the same.
abbrev pub IsSlotted : Map ℕ ResourceRef → Type 0
IsSlotted slots =
    (slot : ℕ) (resource : ResourceRef)
    → lookup slot slots ≡ some resource
    → (is_jump_slot slot ≡ true) × ((other : ℕ) → lookup other slots ≡ some resource → other ≡ slot)

pub record IsKept (aliases : Aliases) : Type 0 where
  pub names_rising : IsRising aliases.names
  pub slots_rising : IsRising aliases.slots
  pub names_bounded : length aliases.names ≤ 512
  pub favourites_bounded : length aliases.favourites ≤ 64
  pub labelled : Every (λ (alias : Alias). IsLabel alias.label) aliases.names
  pub distinct : IsDistinct aliases.favourites
  pub slotted : IsSlotted aliases.slots

-- The aliases after a name is kept, and why it could be.
abbrev pub after_set : ResourceRef → Text → Text → Aliases → Aliases
after_set resource label observed before = record before {
  names = insert resource (record { label = trim label; observed = observed }) before.names;
}

pub set_ok :
    (resource : ResourceRef) (label observed : Text) (before after : Aliases)
    → set resource label observed before ≡ ok after
    → (after ≡ after_set resource label observed before)
      × (IsLabel (trim label) × ((length before.names < 512) ⊎ (has resource before.names ≡ true)))
unfolding set
set_ok resource label observed before after e = ground arith

pub set-IsKept :
    (resource : ResourceRef) (label observed : Text) (before : Aliases)
    → IsLabel (trim label)
    → (length before.names < 512) ⊎ (has resource before.names ≡ true)
    → IsKept before
    → IsKept (after_set resource label observed before)
set-IsKept resource label observed before l room v =
    let alias : Alias = record { label = trim label; observed = observed } in
    record {
      names_rising = insert-IsRising resource alias before.names v.names_rising;
      slots_rising = v.slots_rising;
      names_bounded = elim room [
        | inl h ↦ omega (arith, length-insert-le resource alias before.names)
        | inr h ↦
            omega (
              arith,
              length-insert-has resource alias before.names v.names_rising h,
              v.names_bounded,
            )
      ];
      favourites_bounded = v.favourites_bounded;
      labelled =
          Every-insert (λ (a : Alias). IsLabel a.label) resource alias before.names l v.labelled;
      distinct = v.distinct;
      slotted = v.slotted;
    }

pub clear-IsKept :
    (resource : ResourceRef) (before : Aliases) → IsKept before → IsKept (clear resource before).0
unfolding clear
clear-IsKept resource before v = record {
  names_rising = remove-IsRising resource before.names v.names_rising;
  slots_rising = v.slots_rising;
  names_bounded = omega (arith, length-remove-le resource before.names, v.names_bounded);
  favourites_bounded = v.favourites_bounded;
  labelled = Every-remove (λ (a : Alias). IsLabel a.label) resource before.names v.labelled;
  distinct = v.distinct;
  slotted = v.slotted;
}

pub confirm-IsKept :
    (resource : ResourceRef) (observed : Text) (before : Aliases)
    → IsKept before
    → IsKept (confirm resource observed before).0
unfolding confirm
confirm-IsKept resource observed before v =
    let seen = λ (alias : Alias). record alias { observed = observed } in
    let kept : IsKept (record before { names = adjust resource seen before.names }) = record {
      names_rising = adjust-IsRising resource seen before.names v.names_rising;
      slots_rising = v.slots_rising;
      names_bounded = omega (arith, length-adjust resource seen before.names, v.names_bounded);
      favourites_bounded = v.favourites_bounded;
      labelled =
          Every-adjust (λ (a : Alias). IsLabel a.label) resource seen before.names
            (λ alias e. v.labelled resource alias e) v.labelled;
      distinct = v.distinct;
      slotted = v.slotted;
    } in
    elim (Bool-cases (has resource before.names)) [ inl e ↦ rw e kept | inr e ↦ rw e v ]
