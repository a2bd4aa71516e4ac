-- ===== src/Model.antt =====
-- src/model.rs: the qualified identities by which every component addresses a session and what
-- lives in it. The phantom kind of a `QualifiedId`, which only Rust's type checker reads, is left
-- out, so the five identities are one type.
use super_herdr.Common.{◌≡◌, ◌++◌, List, [], ◌∷◌, arith}
use super_herdr.Common.Order.{Ord, Text, text, text_ord, texts_ord, key_ord}

pub record TargetSession : Type 0 where
  pub target : Text
  pub session : Text

pub record QualifiedId : Type 0 where
  pub target : Text
  pub session : Text
  pub resource : Text

abbrev pub WorkspaceId : Type 0
WorkspaceId = QualifiedId

abbrev pub TabId : Type 0
TabId = QualifiedId

abbrev pub PaneId : Type 0
PaneId = QualifiedId

abbrev pub AgentId : Type 0
AgentId = QualifiedId

abbrev pub TerminalId : Type 0
TerminalId = QualifiedId

unfoldable pub target_session : QualifiedId → TargetSession
target_session id = record { target = id.target; session = id.session }

-- `Display`.
unfoldable pub display : QualifiedId → Text
display id = id.target ++ (text "/" ++ (id.session ++ (text "/" ++ id.resource)))

-- The fields in the order in which the derived `Ord` compares them.
abbrev session_key : TargetSession → List Text
session_key s = s.target ∷ s.session ∷ []

abbrev id_key : QualifiedId → List Text
id_key id = id.target ∷ id.session ∷ id.resource ∷ []

session_key-injective : (a b : TargetSession) → session_key a ≡ session_key b → a ≡ b
session_key-injective a b e = ground arith

id_key-injective : (a b : QualifiedId) → id_key a ≡ id_key b → a ≡ b
id_key-injective a b e = ground arith

instance unfoldable pub session_ord : Ord TargetSession
unfolding session_key-injective
session_ord = key_ord texts_ord session_key session_key-injective

instance unfoldable pub id_ord : Ord QualifiedId
unfolding id_key-injective
id_ord = key_ord texts_ord id_key id_key-injective
