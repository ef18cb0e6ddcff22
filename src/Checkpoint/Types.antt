-- ===== src/Checkpoint/Types.antt =====
-- crates/checkpoint/src/checkpoint.rs
use blockchain_validator.Prelude.{ℕ, List}
use blockchain_validator.Dag.{Dag}
use blockchain_validator.Execution.Object.{Digest}

pub record Checkpoint (d : Dag) : Type 0 where
  pub anchor : d.BlockReference
  pub commitment : Digest

abbrev pub checkpoint_round : (d : Dag) → Checkpoint d → ℕ
checkpoint_round d c = d.round c.anchor

pub record CertifiedCheckpoint (d : Dag) : Type 0 where
  pub checkpoint : Checkpoint d
  pub proof : List d.BlockReference

abbrev pub certified_round : (d : Dag) → CertifiedCheckpoint d → ℕ
certified_round d c = checkpoint_round d c.checkpoint
