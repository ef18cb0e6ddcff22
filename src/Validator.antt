-- ===== src/Validator.antt =====
-- The crate of crates/validator.
pub mod Envelope
pub mod Metrics
pub mod Subdag
pub mod Replay
pub mod Driver
pub mod Start
pub mod Builder
pub mod Handle
pub mod Generator
