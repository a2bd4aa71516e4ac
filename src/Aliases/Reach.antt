-- ===== src/Aliases/Reach.antt =====
-- src/aliases.rs: the aliases that any run of the operations reaches.
use super_herdr.Common.{ℕ, ◌≡◌, refl, ap, true, Option, some, List, [], ◌∷◌, ◌++◌, arith}
use super_herdr.Common.Lists.{keep, length}
use super_herdr.Common.Order.{text_ord, nat_ord}
use super_herdr.Common.Results.{ok, err}
use super_herdr.Common.Tests.{ltb, if◌then◌else◌}
use super_herdr.Common.Maps.{Map, IsRising, lookup, lookup-Above}
use super_herdr.Common.Entries.{collect-rising}
use super_herdr.Common.Every.{Every-empty}
use super_herdr.Payloads.{ResourceRef}
use super_herdr.Aliases.{
  Aliases, no_aliases, is_jump_slot, reference_ord, PersistedAliases, too_large, persisted, restore,
  save, load,
}
use super_herdr.Aliases.Kept.{
  Step, named, cleared, confirmed, favoured, slotted, forgotten, Reached, start, thence, IsKept,
  IsSlotted, set_ok, set-IsKept, clear-IsKept, confirm-IsKept,
}
use super_herdr.Aliases.Chosen.{favourite-IsKept, set_slot-IsKept, forget_target-IsKept}

no_aliases-IsSlotted : IsSlotted []
unfolding lookup
no_aliases-IsSlotted slot resource e = cc

no_aliases-IsKept : IsKept no_aliases
no_aliases-IsKept = record {
  names_rising = tt;
  slots_rising = tt;
  names_bounded = omega arith;
  favourites_bounded = omega arith;
  labelled = Every-empty _;
  distinct = tt;
  slotted = no_aliases-IsSlotted;
}

step-IsKept : {before after : Aliases} → Step before after → IsKept before → IsKept after
step-IsKept {before} {after} (named resource label observed e) v =
    let (same, (l, room)) = set_ok resource label observed before after e in
    rw same (set-IsKept resource label observed before l room v)
step-IsKept (cleared resource) v = clear-IsKept resource _ v
step-IsKept (confirmed resource observed) v = confirm-IsKept resource observed _ v
step-IsKept (favoured resource chosen e) v = favourite-IsKept resource chosen _ _ e v
step-IsKept (slotted slot resource e) v = set_slot-IsKept slot resource _ _ e v
step-IsKept (forgotten session) v = forget_target-IsKept session _ v

-- Whatever is named, cleared, confirmed, chosen, put in slots and forgotten, there are at most 512
-- names and 64 favourites, every name shown has 1 to 48 characters and no control character, no
-- favourite is held twice, and every occupied slot is one of the nine and holds what no other does.
pub reachable-IsKept : (aliases : Aliases) → Reached aliases → IsKept aliases
reachable-IsKept aliases start = no_aliases-IsKept
reachable-IsKept aliases (thence before step) = step-IsKept step (reachable-IsKept _ before)

-- All slots are among the nine, so none is left out.
kept_slots :
    (slots : Map ℕ ResourceRef)
    → IsRising slots
    → ((slot : ℕ) (held : ResourceRef) → lookup slot slots ≡ some held → is_jump_slot slot ≡ true)
    → keep (λ (entry : ℕ × ResourceRef). is_jump_slot entry.0) slots ≡ slots
unfolding lookup
kept_slots [] r jumps = refl
kept_slots ((slot, resource) ∷ slots) r jumps =
    let rest = kept_slots slots r.1 (λ other held e.
      jumps other held
        (ground (arith, lookup-Above slot slots r.0, e, ap (λ i. lookup i slots)))) in
    let here = jumps slot resource (ground arith) in ground (arith, rest, here)

restore-persisted : (aliases : Aliases) → Reached aliases → restore (persisted aliases) ≡ ok aliases
unfolding restore persisted
restore-persisted aliases reached =
    let v = reachable-IsKept aliases reached in
    ground (
      arith,
      v.names_bounded,
      v.favourites_bounded,
      kept_slots aliases.slots v.slots_rising (λ slot held e. (v.slotted slot held e).0),
      collect-rising [] aliases.names v.names_rising,
      collect-rising [] aliases.slots v.slots_rising,
    )

-- The file that is saved of aliases that any run of the operations reaches, if what JSON writes of them
-- is read back, is loaded as those aliases if it has at most 262144 bytes, and refused as too large if
-- it has more.
pub load-save :
    (encode : PersistedAliases → List ℕ) (decode : List ℕ → Option PersistedAliases)
    (aliases : Aliases)
    → decode (encode (persisted aliases) ++ (10 ∷ [])) ≡ some (persisted aliases)
    → Reached aliases
    → load decode (some (save encode aliases))
      ≡ (if ltb 262144 (length (save encode aliases)) then err too_large else ok aliases)
unfolding load save
load-save encode decode aliases read reached =
    rw read (ground (arith, restore-persisted aliases reached))
