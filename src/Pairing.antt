-- ===== src/Pairing.antt =====
-- src/pairing.rs: codes and tokens that pair a device, and `normalize_pairing_code` of
-- crates/bridge/src/lib.rs. Random bytes and SHA-256 come from outside: `bytes` are what
-- `secret_bytes` reads, and `sha256` is the digest. A time is in nanoseconds since the epoch. The URL
-- of a code is left out.
pub mod Codes
pub mod Desk
pub mod Counted
pub mod Admission
pub mod Admitted
pub mod Names
use Prim.Native.Nat.{bit_or, bit_xor}
use super_herdr.Common.{
  ℕ, zero, suc, ◌+◌, ◌-◌, ◌/◌, ◌%◌, Bool, true, false, not, ◌&&◌, ◌||◌, List, [], ◌∷◌, ◌++◌, Option,
  none, some, map, min,
}
use super_herdr.Common.Tests.{ltb, leb, ◌==◌, if◌then◌else◌, max_u64}
use super_herdr.Common.Lists.{length, take, drop, keep, get_elem?}
use super_herdr.Common.Order.{Text, text}

abbrev pub code_alphabet : Text
code_alphabet = text "ABCDEFGHJKLMNPQRSTUVWXYZ23456789"

abbrev pub code_characters : ℕ
code_characters = 8

abbrev pub code_lifetime : ℕ
code_lifetime = 300000000000

abbrev pub max_attempts : ℕ
max_attempts = 5

abbrev pub hex_digit : ℕ → ℕ
hex_digit n = if ltb n 10 then 48 + n else 87 + n

-- Two lowercase digits for each byte.
unfoldable pub hex : List ℕ → Text
hex [] = []
hex (byte ∷ bytes) = hex_digit (byte / 16) ∷ hex_digit (byte % 16) ∷ hex bytes

-- `token`, from its 32 bytes.
unfoldable pub token : List ℕ → Text
unfolding hex
token bytes = hex bytes

unfoldable pub code_character : ℕ → ℕ
code_character byte = elim (get_elem? code_alphabet (byte % 32)) [ none ↦ 0 | some c ↦ c ]

-- `pairing_code`, from its 8 bytes.
unfoldable pub pairing_code : List ℕ → Text
unfolding code_character
pairing_code bytes = let code = map code_character bytes in take 4 code ++ (text "-" ++ drop 4 code)

unfoldable pub is_ascii_alphanumeric : ℕ → Bool
is_ascii_alphanumeric c =
    (leb 48 c && leb c 57) || ((leb 65 c && leb c 90) || (leb 97 c && leb c 122))

unfoldable pub to_ascii_uppercase : ℕ → ℕ
to_ascii_uppercase c = if leb 97 c && leb c 122 then c - 32 else c

unfoldable pub normalize_code : Text → Text
unfolding is_ascii_alphanumeric to_ascii_uppercase
normalize_code entered =
    take code_characters (map to_ascii_uppercase (keep is_ascii_alphanumeric entered))

unfoldable pub fingerprint : (List ℕ → List ℕ) → List ℕ → Text
unfolding hex
fingerprint sha256 secret = hex (sha256 secret)

-- The fold of `matches`, over the bytes of both.
unfoldable pub difference : ℕ → List ℕ → List ℕ → ℕ
difference folded (left ∷ lefts) (right ∷ rights) =
    difference (bit_or folded (bit_xor left right)) lefts rights
difference folded lefts rights = folded

unfoldable pub matches : List ℕ → List ℕ → Bool
unfolding difference
matches left right =
    if not (length left == length right) then false else difference 0 left right == 0

pub record PendingPairing : Type 0 where
  pub code : Text
  pub expires_at : ℕ
  pub attempts : ℕ

-- `PendingPairing::new`.
unfoldable pub pending_pairing : List ℕ → ℕ → PendingPairing
unfolding pairing_code
pending_pairing bytes now = record {
  code = pairing_code bytes;
  expires_at = now + code_lifetime;
  attempts = 0;
}

unfoldable pub expired : ℕ → PendingPairing → Bool
expired now pending = leb pending.expires_at now

-- The codes compared have ASCII characters only, which are their bytes.
unfoldable pub accepts : Text → ℕ → PendingPairing → Bool
unfolding expired matches normalize_code
accepts entered now pending =
    not (expired now pending) && matches (normalize_code entered) (normalize_code pending.code)

-- `saturating_add` on a `u32`; whether the code is spent.
unfoldable pub record_failure : PendingPairing → PendingPairing × Bool
record_failure pending =
    let attempts = min (pending.attempts + 1) 4294967295 in
    (record pending { attempts = attempts }, leb max_attempts attempts)

unfoldable pub attempts_remaining : PendingPairing → ℕ
attempts_remaining pending = max_attempts - pending.attempts

-- `now_ms`.
unfoldable pub now_ms : ℕ → ℕ
now_ms now = min (now / 1000000) max_u64
