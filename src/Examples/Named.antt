-- ===== src/Examples/Named.antt =====
-- The theorems on aliases, on one workspace that is named.
use super_herdr.Common.{◌≡◌, ◌⊎◌, ℕ, refl, Option, List, none, some, [], ◌∷◌, ℕ_discrete}
use super_herdr.Common.Tests.{if◌then◌else◌, ◌==◌, ltb}
use super_herdr.Common.Lists.{length}
use super_herdr.Common.Results.{ok, err}
use super_herdr.Common.Order.{text, key_same, list_same}
use super_herdr.Common.Maps.{lookup, insert, has}
use super_herdr.Common.Texts.{trim}
use super_herdr.Model.{TargetSession, session_ord}
use super_herdr.Payloads.{ResourceRef, workspace}
use super_herdr.Aliases.{
  Aliases, no_aliases, current, set, resolve, set_slot, slot_of, PersistedAliases, too_large,
  persisted, save, load, is_held, reference_ord,
}
use super_herdr.Aliases.Kept.{named, slotted, Reached, start, thence, IsKept}
use super_herdr.Aliases.Reach.{reachable-IsKept, load-save}
use super_herdr.Aliases.Naming.{Vouches, resolve_current, slot_of-set_slot}

abbrev workspace_one : ResourceRef
workspace_one =
    workspace (record { target = text "host"; session = text "main"; resource = text "w1" })

-- Named " build " when it was called "api", and put in slot 3.
abbrev called : Aliases
called = record no_aliases {
  names = (workspace_one, record { label = text "build"; observed = text "api" }) ∷ [];
}

abbrev placed : Aliases
placed = record called { slots = (3, workspace_one) ∷ [] }

name_given : set workspace_one (text " build ") (text "api") no_aliases ≡ ok called
unfolding set trim has lookup insert
name_given = refl

slot_given : set_slot 3 (some workspace_one) called ≡ ok placed
unfolding set_slot insert
slot_given = refl

Reached-called : Reached called
Reached-called = thence start (named workspace_one (text " build ") (text "api") name_given)

Reached-placed : Reached placed
Reached-placed = thence Reached-called (slotted 3 (some workspace_one) slot_given)

reachable-IsKept_example : IsKept placed
reachable-IsKept_example = reachable-IsKept placed Reached-placed

abbrev encode_one : PersistedAliases → List ℕ
encode_one file = 123 ∷ 125 ∷ []

abbrev decode_one : List ℕ → Option PersistedAliases
decode_one bytes = some (persisted placed)

load-save_example :
    load decode_one (some (save encode_one placed))
    ≡ (if ltb 262144 (length (save encode_one placed)) then err too_large else ok placed)
load-save_example = load-save encode_one decode_one placed refl Reached-placed

slot_of-set_slot_example : slot_of 7 placed ≡ (
    if 3 == 7 then some workspace_one else (elim (slot_of 7 called) [
      | none ↦ none
      | some held ↦ if is_held workspace_one held then none else some held
    ]))
slot_of-set_slot_example =
    slot_of-set_slot 3 workspace_one called placed 7 Reached-called slot_given

resolve_named : resolve workspace_one (text "api") called ≡ some (text "build", current)
unfolding resolve lookup reference_ord key_same list_same ℕ_discrete
resolve_named = refl

-- Only the naming vouches for it: before, there was no name.
resolve_current_example :
    (resolve workspace_one (text "api") no_aliases ≡ some (text "build", current))
    ⊎ Vouches workspace_one
        (text "api")
        (named workspace_one (text " build ") (text "api") name_given)
resolve_current_example =
    resolve_current (named workspace_one (text " build ") (text "api") name_given) workspace_one
      (text "api") (text "build") start resolve_named

abbrev session_one : TargetSession
session_one = record { target = text "host"; session = text "main" }
