-- ===== src/Validator/Builder.antt =====
-- `ValidatorBuilder` and `Validator` of crates/validator/src/validator.rs. The builder of the replica
-- crate and its configurations are parameters. The commit channel is not modelled: the driver gets
-- what the replica delivers as a sequence.
pub mod Storage
use blockchain_validator.Prelude.{ℕ, Option, none, some, List, [], ◌∷◌}
use blockchain_validator.Dag.{Dag}
use blockchain_validator.Execution.Engine.{ExecutionEngine}
use blockchain_validator.Execution.Scheduler.{new_scheduler}
use blockchain_validator.Checkpoint.Certifier.{new_certifier}
use blockchain_validator.Validator.Metrics.{ValidatorMetrics, new_metrics}
use blockchain_validator.Validator.Subdag.{ExecutionState}

-- `replica::builder`, `replica::config`, and the types of the other libraries that pass through. A
-- storage is the path of the log, or none where it is ephemeral; `quorum_threshold` is none where
-- `to_protocol` fails.
pub record ReplicaCrate (d : Dag) : Type 1 where
  pub PublicReplicaConfig : Type 0
  pub PrivateReplicaConfig : Type 0
  pub PathBuf : Type 0
  pub Registry : Type 0
  pub Network : Type 0
  pub Metrics : Type 0
  pub ReplicaBuilder : Type 0
  pub committee : PublicReplicaConfig → d.Committee
  pub quorum_threshold : PublicReplicaConfig → Option ℕ
  pub wal : PrivateReplicaConfig → PathBuf
  pub new_registry : Registry
  pub new_replica : d.Authority → PublicReplicaConfig → PrivateReplicaConfig → ReplicaBuilder
  pub with_registry : ReplicaBuilder → Registry → ReplicaBuilder
  pub with_storage : ReplicaBuilder → Option PathBuf → ReplicaBuilder
  pub with_network : ReplicaBuilder → Network → ReplicaBuilder
  pub with_metrics : ReplicaBuilder → Metrics → ReplicaBuilder
  pub with_crypto_disabled : ReplicaBuilder → ReplicaBuilder
  pub with_commit_consumer : ReplicaBuilder → ReplicaBuilder

module _ (d : Dag) (r : ReplicaCrate d) where
  pub record ValidatorBuilder : Type 0 where
    pub engine : ExecutionEngine
    pub authority : d.Authority
    pub public_config : r.PublicReplicaConfig
    pub wal : Option r.PathBuf
    pub registry : r.Registry
    pub replica : r.ReplicaBuilder

  unfoldable pub new_builder :
      ExecutionEngine
      → d.Authority
      → r.PublicReplicaConfig
      → r.PrivateReplicaConfig
      → ValidatorBuilder
  new_builder engine authority public_config private_config = record {
    engine = engine;
    authority = authority;
    public_config = public_config;
    wal = some (r.wal private_config);
    registry = r.new_registry;
    replica = r.new_replica authority public_config private_config;
  }

  -- The calls that set an option.
  pub data Setting : Type 0 where
    registry : r.Registry → Setting
    storage : Option r.PathBuf → Setting
    network : r.Network → Setting
    metrics : r.Metrics → Setting
    crypto_disabled : Setting

  unfoldable pub set_option : ValidatorBuilder → Setting → ValidatorBuilder
  set_option builder (registry to) = record builder {
    registry = to;
    replica = r.with_registry builder.replica to;
  }
  set_option builder (storage to) = record builder {
    wal = to;
    replica = r.with_storage builder.replica to;
  }
  set_option builder (network to) = record builder { replica = r.with_network builder.replica to }
  set_option builder (metrics to) = record builder { replica = r.with_metrics builder.replica to }
  set_option builder crypto_disabled = record builder {
    replica = r.with_crypto_disabled builder.replica;
  }

  unfoldable pub set_options : ValidatorBuilder → List Setting → ValidatorBuilder
  set_options builder [] = builder
  set_options builder (s ∷ ss) = set_options (set_option builder s) ss

  pub record Validator : Type 0 where
    pub state : ExecutionState d
    pub authority : d.Authority
    pub public_config : r.PublicReplicaConfig
    pub wal : Option r.PathBuf
    pub metrics : ValidatorMetrics
    pub replica : r.ReplicaBuilder

  abbrev pub build_with : ValidatorBuilder → Option ℕ → Option Validator
  build_with builder none = none
  build_with builder (some quorum) = some (record {
    state = record {
      scheduler = new_scheduler builder.engine;
      certifier = new_certifier d (r.committee builder.public_config) quorum;
    };
    authority = builder.authority;
    public_config = builder.public_config;
    wal = builder.wal;
    metrics = new_metrics;
    replica = r.with_commit_consumer builder.replica;
  })

  -- None is the error of `to_protocol`.
  unfoldable pub build : ValidatorBuilder → Option Validator
  build builder = build_with builder (r.quorum_threshold builder.public_config)
