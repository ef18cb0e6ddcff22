-- ===== src/Examples.antt =====
-- Runs of the model on small concrete inputs.
pub mod Data
pub mod Execution
pub mod Checkpoint
pub mod Codec
pub mod Validator
pub mod Node
pub mod Cli
pub mod Commands
