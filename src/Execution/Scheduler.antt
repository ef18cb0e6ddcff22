-- ===== src/Execution/Scheduler.antt =====
-- crates/execution/src/scheduler.rs
pub mod Batches
pub mod Landing
pub mod Steps
use blockchain_validator.Prelude.{List, [], ◌∷◌, if◌then◌else◌}
use blockchain_validator.Outcome.{Outcome, ok, ◌>>=◌}
use blockchain_validator.Execution.Object.{Bytes, Digest}
use blockchain_validator.Execution.Effects.{ExecutionStatus, aborted, invalid_transaction}
use blockchain_validator.Execution.Transaction.{Transaction, verify}
use blockchain_validator.Execution.Engine.{ExecutionEngine}
use blockchain_validator.Execution.Store.{InMemoryStore, default_store, view, apply}

pub record SequentialScheduler : Type 0 where
  pub store : InMemoryStore
  pub engine : ExecutionEngine

abbrev pub new_scheduler : ExecutionEngine → SequentialScheduler
new_scheduler engine = record { store = default_store; engine = engine }

module _ (hash : Bytes → Digest) where
  unfoldable pub run_verified :
      SequentialScheduler → Transaction → Outcome (ExecutionStatus × SequentialScheduler)
  run_verified scheduler t = do
    output ← scheduler.engine.execute (view scheduler.store) t
    store ← apply hash scheduler.store output
    ok (output.status, record scheduler { store = store })

  -- The closure over one transaction.
  unfoldable pub execute_one :
      SequentialScheduler → Transaction → Outcome (ExecutionStatus × SequentialScheduler)
  execute_one scheduler t =
      if verify t then run_verified scheduler t else ok (aborted invalid_transaction, scheduler)

  unfoldable pub execute :
      SequentialScheduler → List Transaction → Outcome (List ExecutionStatus × SequentialScheduler)
  execute scheduler [] = ok ([], scheduler)
  execute scheduler (t ∷ ts) = do
    (status, scheduler') ← execute_one scheduler t
    (statuses, scheduler'') ← execute scheduler' ts
    ok (status ∷ statuses, scheduler'')
