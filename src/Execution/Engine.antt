-- ===== src/Execution/Engine.antt =====
-- crates/execution/src/engine.rs, and the `StateView` trait of store.rs.
use blockchain_validator.Outcome.{Outcome}
use blockchain_validator.Execution.Effects.{ExecutionOutput}
use blockchain_validator.Execution.Transaction.{Transaction, StateView}

-- An engine is stateless: `execute` reads the view and the transaction alone. Rust lets it panic.
pub record ExecutionEngine : Type 0 where
  pub execute : StateView → Transaction → Outcome ExecutionOutput
