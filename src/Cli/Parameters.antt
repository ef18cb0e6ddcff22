-- ===== src/Cli/Parameters.antt =====
-- `NodeParameters` and `ClientParameters` of crates/cli/src/remote/protocol.rs, and the types of the
-- orchestrator crate that are built over them, as parameters.
use Prim.Native.String.{String}
use blockchain_validator.Prelude.{ℕ, Bool, Option, List}
use blockchain_validator.Validator.Generator.{LoadGeneratorConfig, default_config}
use blockchain_validator.Cli.Text.{PathBuf, decimal}
use blockchain_validator.Cli.Library.{Replica}

pub record NodeParameters (r : Replica) : Type 0 where
  pub replica : r.ReplicaParameters

pub record ClientParameters : Type 0 where
  pub config : LoadGeneratorConfig

abbrev pub default_node_parameters : (r : Replica) → NodeParameters r
default_node_parameters r = record { replica = r.default_parameters }

abbrev pub default_client_parameters : ClientParameters
default_client_parameters = record { config = default_config }

-- The `Debug` texts.
abbrev pub debug_node_parameters : (r : Replica) → NodeParameters r → String
debug_node_parameters r parameters = r.show_consensus parameters.replica

abbrev pub debug_client_parameters : ClientParameters → String
debug_client_parameters parameters = decimal parameters.config.transaction_size

-- `orchestrator`: settings, benchmark parameters and instances, with the fields and methods that are used, and
-- the `Debug` text of parameters. A duration is in nanoseconds.
-- `BINARY_PATH`, and the kinds of metrics.
pub record Orchestrator (r : Replica) : Type 1 where
  pub binary_path : String
  pub MetricKind : Type 0
  pub gauge : MetricKind
  pub histogram : MetricKind
  pub counter : MetricKind
  pub Instance : Type 0
  pub main_ip : Instance → r.IpAddr
  pub Settings : Type 0
  pub working_dir : Settings → PathBuf
  pub BenchmarkParameters : Type 0
  pub node_parameters : BenchmarkParameters → NodeParameters r
  pub client_parameters : BenchmarkParameters → ClientParameters
  pub nodes : BenchmarkParameters → ℕ
  pub load : BenchmarkParameters → ℕ
  pub settings : BenchmarkParameters → Settings
  pub show_parameters : BenchmarkParameters → String
  pub new_from_loads :
      Settings → NodeParameters r → ClientParameters → ℕ → List ℕ → List BenchmarkParameters
  pub node_parameters_path : Settings → Option PathBuf
  pub client_parameters_path : Settings → Option PathBuf
  pub set_unknown_commit : Settings → Settings
  pub commit : Settings → String
  pub results_dir : Settings → PathBuf
  pub benchmark_duration : Settings → ℕ
  pub monitoring : Settings → Bool
  pub log_processing : Settings → Bool
