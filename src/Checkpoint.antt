-- ===== src/Checkpoint.antt =====
-- crates/checkpoint: checkpoints and their certification.
pub mod Types
pub mod Accumulator
pub mod Certifier
