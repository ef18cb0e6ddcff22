-- ===== src/Execution/Effects.antt =====
-- crates/execution/src/effects.rs
use blockchain_validator.Prelude.{List, []}
use blockchain_validator.Execution.Object.{Object}

pub data AbortReason : Type 0 where
  explicit_abort missing_read unknown_function invalid_transaction : AbortReason

pub data ExecutionStatus : Type 0 where
  success : ExecutionStatus
  aborted : AbortReason → ExecutionStatus

pub record ExecutionOutput : Type 0 where
  pub status : ExecutionStatus
  pub writes : List Object

-- The two constructors of an output; the fields are private to the module.
abbrev pub success_output : List Object → ExecutionOutput
success_output writes = record { status = success; writes = writes }

abbrev pub aborted_output : AbortReason → ExecutionOutput
aborted_output reason = record { status = aborted reason; writes = [] }
