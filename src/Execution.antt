-- ===== src/Execution.antt =====
-- crates/execution: objects and their versions, transactions, the store, the fake engine and the
-- sequential scheduler.
pub mod Object
pub mod Effects
pub mod Transaction
pub mod Engine
pub mod Store
pub mod Fake
pub mod Scheduler
