-- ===== src/Execution/Object.antt =====
-- crates/execution/src/object.rs and crypto.rs. A byte array is the list of its bytes, each below
-- 256, and a `u64` is a number below 2 ^ 64.
use blockchain_validator.Prelude.{
  ℕ, zero, suc, ◌+◌, ◌/◌, ◌%◌, ◌^◌, ◌<◌, List, [], ◌∷◌, ◌++◌, length, replicate, All, ltb, ◌≡◌,
  if◌then◌else◌,
}
use blockchain_validator.Outcome.{Outcome, ok, panic, version_overflow}

abbrev pub Bytes : Type 0
Bytes = List ℕ

abbrev pub IsByte : ℕ → Type 0
IsByte b = b < 256

abbrev pub IsU64 : ℕ → Type 0
IsU64 v = v < 2 ^ 64

-- `[u8; n]`
pub record IsArray (n : ℕ) (bytes : Bytes) : Type 0 where
  pub size : length bytes ≡ n
  pub in_range : All IsByte bytes

-- `to_be_bytes` of an integer of `n` bytes: the highest byte first.
unfoldable pub to_be_bytes : ℕ → ℕ → Bytes
to_be_bytes zero value = []
to_be_bytes (suc n) value = to_be_bytes n (value / 256) ++ (value % 256 ∷ [])

abbrev pub Digest : Type 0
Digest = Bytes

-- The zero digest.
abbrev pub default_digest : Digest
default_digest = replicate 32 0

abbrev pub ObjectId : Type 0
ObjectId = Bytes

-- The value fills the last 8 of 32 bytes.
unfoldable pub new_id : ℕ → ObjectId
unfolding to_be_bytes
new_id value = replicate 24 0 ++ to_be_bytes 8 value

abbrev pub Version : Type 0
Version = ℕ

abbrev pub zero_version : Version
zero_version = 0

unfoldable pub next : Version → Outcome Version
next version = if ltb (version + 1) (2 ^ 64) then ok (version + 1) else panic version_overflow

pub record Object : Type 0 where
  pub id : ObjectId
  pub version : Version
  pub contents : Bytes
