-- ===== src/Execution/Transaction.antt =====
-- crates/execution/src/transaction.rs
pub mod Verify
pub mod NextVersion
use blockchain_validator.Prelude.{
  ℕ, zero, suc, ◌+◌, max, Bool, true, not, ◌&&◌, Option, none, some, List, [], ◌∷◌, take, replicate,
  any, ◌==◌, list_eq, nat_eq,
}
use blockchain_validator.Outcome.{Outcome, ok, ◌>>=◌}
use blockchain_validator.Execution.Object.{
  Bytes, ObjectId, Object, Version, zero_version, next, to_be_bytes,
}

abbrev pub FunctionId : Type 0
FunctionId = Bytes

-- `bytes[at] = byte` and `value[at]` on arrays: out of bounds is not reached.
abbrev write : Bytes → ℕ → ℕ → Bytes
write [] at byte = []
write (x ∷ xs) zero byte = byte ∷ xs
write (x ∷ xs) (suc at) byte = x ∷ write xs at byte

abbrev read : Bytes → ℕ → ℕ
read [] at = 0
read (x ∷ xs) zero = x
read (x ∷ xs) (suc at) = read xs at

-- The loop over `i`, with the rounds that are left.
copy_loop : ℕ → ℕ → Bytes → Bytes → Bytes
copy_loop zero i value bytes = bytes
copy_loop (suc rounds) i value bytes =
    copy_loop rounds (i + 1) value (write bytes (24 + i) (read value i))

unfoldable pub new_function : ℕ → FunctionId
unfolding copy_loop to_be_bytes
new_function value = copy_loop 8 0 (to_be_bytes 8 value) (replicate 32 0)

pub data AccessMode : Type 0 where
  read_only write_only read_write : AccessMode

pub record Transaction : Type 0 where
  pub function : FunctionId
  pub inputs : List (ObjectId × AccessMode)
  pub args : Bytes

-- `iter().enumerate().all(p)` from an index on.
abbrev pub all_enumerated {ℓ} : {A : Type ℓ} → (ℕ → A → Bool) → ℕ → List A → Bool
all_enumerated p index [] = true
all_enumerated p index (x ∷ xs) = p index x && all_enumerated p (suc index) xs

abbrev pub listed_before : List (ObjectId × AccessMode) → ℕ → ObjectId → Bool
listed_before inputs index id = any (λ prior. prior.0 == id) (take index inputs)

unfoldable pub verify : Transaction → Bool
verify t = all_enumerated (λ index input. not (listed_before t.inputs index input.0)) 0 t.inputs

-- The store as a transaction sees it.
pub record StateView : Type 0 where
  pub latest : ObjectId → Option Object

-- The loop of `next_version`; `none` is its early return.
unfoldable pub highest_input : StateView → List (ObjectId × AccessMode) → Version → Option Version
highest_input view [] highest = some highest
highest_input view ((id, write_only) ∷ inputs) highest = highest_input view inputs highest
highest_input view ((id, _) ∷ inputs) highest = elim (view.latest id) [
  | none ↦ none
  | some object ↦ highest_input view inputs (max highest object.version)
]

bump : Option Version → Outcome (Option Version)
bump none = ok none
bump (some highest) = do version ← next highest; ok (some version)

unfoldable pub next_version : Transaction → StateView → Outcome (Option Version)
unfolding bump
next_version t view = bump (highest_input view t.inputs zero_version)
