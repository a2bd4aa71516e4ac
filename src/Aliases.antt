-- ===== src/Aliases.antt =====
-- src/aliases.rs: names, favourites and jump slots that belong to this installation. The file that
-- holds them is left out, but for what it lists.
pub mod Kept
pub mod Chosen
pub mod Reach
pub mod Naming
use super_herdr.Common.{
  ℕ, ◌+◌, ◌≡◌, Bool, true, false, not, ◌&&◌, ◌||◌, Option, none, some, List, [], ◌∷◌, ◌++◌, map,
  ite, arith,
}
use super_herdr.Common.Tests.{ltb, leb, ◌==◌, if◌then◌else◌, is_some}
use super_herdr.Common.Lists.{length, keep, any}
use super_herdr.Common.Order.{Text, Ord, text_ord, texts_ord, key_ord, nat_ord}
use super_herdr.Common.Texts.{is_control_character, trim}
use super_herdr.Common.Maps.{Map, Set, keys, values, lookup, insert, remove, adjust, has, add}
use super_herdr.Common.Results.{Result, ok, err}
use super_herdr.Common.Entries.{collect}
use super_herdr.Model.{TargetSession, QualifiedId, target_session, session_ord}
use super_herdr.Payloads.{ResourceRef, target, workspace, tab, pane, agent}

-- The derived `Ord`: by the constructor, then by the fields.
abbrev reference_key : ResourceRef → List Text
reference_key (target id) = (0 ∷ []) ∷ id.target ∷ id.session ∷ []
reference_key (workspace id) = (1 ∷ []) ∷ id.target ∷ id.session ∷ id.resource ∷ []
reference_key (tab id) = (2 ∷ []) ∷ id.target ∷ id.session ∷ id.resource ∷ []
reference_key (pane id) = (3 ∷ []) ∷ id.target ∷ id.session ∷ id.resource ∷ []
reference_key (agent id) = (4 ∷ []) ∷ id.target ∷ id.session ∷ id.resource ∷ []

reference_key-injective : (a b : ResourceRef) → reference_key a ≡ reference_key b → a ≡ b
reference_key-injective a b e = ground arith

instance unfoldable pub reference_ord : Ord ResourceRef
unfolding reference_key-injective
reference_ord = key_ord texts_ord reference_key reference_key-injective

abbrev pub aliases_version : ℕ
aliases_version = 1

abbrev pub max_aliases : ℕ
max_aliases = 512

abbrev pub max_favourites : ℕ
max_favourites = 64

abbrev pub max_alias_characters : ℕ
max_alias_characters = 48

-- `JUMP_SLOTS.contains`.
unfoldable pub is_jump_slot : ℕ → Bool
is_jump_slot slot = leb 1 slot && leb slot 9

pub record Alias : Type 0 where
  pub label : Text
  pub observed : Text

pub data AliasState : Type 0 where
  current suspended : AliasState

pub record Aliases : Type 0 where
  pub names : Map ResourceRef Alias
  pub favourites : List ResourceRef
  pub slots : Map ℕ ResourceRef

-- `Aliases::default`.
abbrev pub no_aliases : Aliases
no_aliases = record { names = []; favourites = []; slots = [] }

pub data Refusal : Type 0 where
  bad_length has_control too_many_names too_many_favourites no_such_slot : Refusal
  unsupported_version over_limits too_large invalid : Refusal

unfoldable pub set : ResourceRef → Text → Text → Aliases → Result Refusal Aliases
unfolding is_control_character
set resource given observed aliases =
    let label = trim given in
    if length label == 0 || ltb max_alias_characters (length label)
    then err bad_length
    else if any is_control_character label
    then err has_control
    else if leb max_aliases (length aliases.names) && not (has resource aliases.names)
    then err too_many_names
    else ok (record aliases {
      names = insert resource (record { label = label; observed = observed }) aliases.names;
    })

unfoldable pub clear : ResourceRef → Aliases → Aliases × Bool
clear resource aliases =
    (record aliases { names = remove resource aliases.names }, has resource aliases.names)

unfoldable pub resolve : ResourceRef → Text → Aliases → Option (Text × AliasState)
resolve resource observed aliases = elim (lookup resource aliases.names) [
  | none ↦ none
  | some alias ↦ some (alias.label, ite (text_ord.same alias.observed observed) current suspended)
]

unfoldable pub confirm : ResourceRef → Text → Aliases → Aliases × Bool
confirm resource observed aliases =
    if has resource aliases.names
    then (
      record aliases {
        names =
            adjust resource (λ (alias : Alias). record alias { observed = observed }) aliases.names;
      },
      true,
    )
    else (aliases, false)

-- `position` and `remove` together: the first that is the same is taken out.
unfoldable pub remove_first : ResourceRef → List ResourceRef → List ResourceRef
remove_first resource [] = []
remove_first resource (held ∷ rest) =
    let others = remove_first resource rest in
    ite (reference_ord.same held resource) rest (held ∷ others)

abbrev pub is_held : ResourceRef → ResourceRef → Bool
is_held resource held = ite (reference_ord.same held resource) true false

unfoldable pub is_favourite : ResourceRef → Aliases → Bool
is_favourite resource aliases = any (is_held resource) aliases.favourites

-- `favourite`: whether the resource is one now.
unfoldable pub favourite : ResourceRef → Aliases → Result Refusal (Aliases × Bool)
unfolding remove_first is_favourite
favourite resource aliases =
    if is_favourite resource aliases
    then ok (record aliases { favourites = remove_first resource aliases.favourites }, false)
    else if leb max_favourites (length aliases.favourites)
    then err too_many_favourites
    else ok (record aliases { favourites = aliases.favourites ++ (resource ∷ []) }, true)

-- The entries of the slots that hold something else.
unfoldable pub vacate : ResourceRef → Map ℕ ResourceRef → Map ℕ ResourceRef
vacate resource slots = keep (λ (entry : ℕ × ResourceRef). not (is_held resource entry.1)) slots

unfoldable pub set_slot : ℕ → Option ResourceRef → Aliases → Result Refusal Aliases
unfolding is_jump_slot vacate
set_slot slot resource aliases =
    if not (is_jump_slot slot) then err no_such_slot else (elim resource [
      | some r ↦ ok (record aliases { slots = insert slot r (vacate r aliases.slots) })
      | none ↦ ok (record aliases { slots = remove slot aliases.slots })
    ])

unfoldable pub slot_of : ℕ → Aliases → Option ResourceRef
slot_of slot aliases = lookup slot aliases.slots

unfoldable pub target_of : ResourceRef → TargetSession
target_of (target id) = id
target_of (workspace id) = target_session id
target_of (tab id) = target_session id
target_of (pane id) = target_session id
target_of (agent id) = target_session id

unfoldable pub targets : Aliases → Set TargetSession
unfolding target_of
targets aliases = collect [] (
    map (λ (resource : ResourceRef). (target_of resource, tt))
      (keys aliases.names ++ (aliases.favourites ++ values aliases.slots)))

unfoldable pub belongs : ResourceRef → TargetSession → Bool
unfolding target_of
belongs resource session = ite (session_ord.same (target_of resource) session) true false

abbrev pub size : Aliases → ℕ
size aliases = length aliases.names + length aliases.favourites + length aliases.slots

unfoldable pub forget_target : TargetSession → Aliases → Aliases × Bool
unfolding belongs
forget_target session aliases =
    let after = record aliases {
      names = keep (λ (entry : ResourceRef × Alias). not (belongs entry.0 session)) aliases.names;
      favourites = keep (λ held. not (belongs held session)) aliases.favourites;
      slots = keep (λ (entry : ℕ × ResourceRef). not (belongs entry.1 session)) aliases.slots;
    } in
    (after, not (size aliases == size after))

unfoldable pub is_empty : Aliases → Bool
is_empty aliases =
    (length aliases.names == 0 && length aliases.favourites == 0) && length aliases.slots == 0

pub record PersistedAliases : Type 0 where
  pub version : ℕ
  pub names : List (ResourceRef × Alias)
  pub favourites : List ResourceRef
  pub slots : List (ℕ × ResourceRef)

-- `From<&Aliases>`.
unfoldable pub persisted : Aliases → PersistedAliases
persisted aliases = record {
  version = aliases_version;
  names = aliases.names;
  favourites = aliases.favourites;
  slots = aliases.slots;
}

-- `TryFrom<PersistedAliases>`.
unfoldable pub restore : PersistedAliases → Result Refusal Aliases
unfolding is_jump_slot
restore file =
    if not (file.version == aliases_version)
    then err unsupported_version
    else if ltb max_aliases (length file.names) || ltb max_favourites (length file.favourites)
    then err over_limits
    else ok (record {
      names = collect [] file.names;
      favourites = file.favourites;
      slots = collect [] (keep (λ (entry : ℕ × ResourceRef). is_jump_slot entry.0) file.slots);
    })

abbrev pub max_aliases_bytes : ℕ
max_aliases_bytes = 262144

-- `AliasStore::save`, the bytes of the file, and `AliasStore::load` of a file, if there is one. How
-- values are written as JSON is not part of the repository.
unfoldable pub save : (PersistedAliases → List ℕ) → Aliases → List ℕ
unfolding persisted
save encode aliases = encode (persisted aliases) ++ (10 ∷ [])

unfoldable pub load : (List ℕ → Option PersistedAliases) → Option (List ℕ) → Result Refusal Aliases
unfolding restore
load decode none = ok no_aliases
load decode (some bytes) =
    if ltb max_aliases_bytes (length bytes)
    then err too_large
    else (elim (decode bytes) [ none ↦ err invalid | some file ↦ restore file ])
