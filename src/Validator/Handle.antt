-- ===== src/Validator/Handle.antt =====
-- The waiting loops of `ValidatorHandle` in crates/validator/src/validator.rs. What a watch channel
-- shows each time that the loop looks is a list, which ends where the driver has stopped.
pub mod Waiting
use blockchain_validator.Prelude.{
  ℕ, ◌≤◌, ◌<◌, ◌≡◌, ◌↔◌, refl, ap, inl, inr, Bool, true, false, Option, none, some, List, [], ◌∷◌,
  ◌++◌, ltb, ltb→lt, ltb→ge, Bool-cases, arith, All, Some, ◌==◌, list_eq, nat_eq, if◌then◌else◌,
}
use blockchain_validator.Execution.Object.{Digest}

-- Why a wait returns: with the values that come after the one that ended it, or early.
pub data Waited (A : Type 0) : Type 0 where
  reached : A → List A → Waited A
  driver_stopped : Waited A

unfoldable pub wait_for_transactions : ℕ → List ℕ → Waited ℕ
wait_for_transactions count [] = driver_stopped
wait_for_transactions count (executed ∷ later) =
    let rest = wait_for_transactions count later in
    if ltb executed count then rest else reached executed later

-- `certified == Some(store)`
abbrev pub all_certified : Option Digest × Digest → Bool
all_certified (none, store) = false
all_certified (some certified, store) = certified == store

unfoldable pub wait_for_certified : List (Option Digest × Digest) → Waited (Option Digest × Digest)
wait_for_certified [] = driver_stopped
wait_for_certified (status ∷ later) =
    let rest = wait_for_certified later in
    if all_certified status then reached status later else rest
