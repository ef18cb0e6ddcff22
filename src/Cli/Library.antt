-- ===== src/Cli/Library.antt =====
-- What the command line takes from the consensus, replica and orchestrator crates and from serde, as
-- parameters. A constant of these crates is a text; an address is what its `Display` shows.
use Prim.Native.String.{String}
use blockchain_validator.Prelude.{ℕ, Option, List}
use blockchain_validator.Validator.Generator.{LoadGeneratorConfig}
use blockchain_validator.Cli.Text.{PathBuf}

-- `dag::authority`, `dag::metrics`, `replica::config` and `replica::prometheus`. An option is none
-- where the operation fails, or has nothing for the authority.
pub record Replica : Type 1 where
  pub Authority : Type 0
  pub authority_from : ℕ → Authority
  pub index : Authority → ℕ
  pub show_authority : Authority → String
  pub benchmark_duration_name : String
  pub latency_s_name : String
  pub latency_squared_s_name : String
  pub IpAddr : Type 0
  pub show_ip : IpAddr → String
  pub ReplicaParameters : Type 0
  pub default_parameters : ReplicaParameters
  pub show_consensus : ReplicaParameters → String
  pub parameters_to_yaml : ReplicaParameters → Option String
  pub PublicReplicaConfig : Type 0
  pub public_filename : String
  pub new_public_for_benchmarks : List IpAddr → PublicReplicaConfig
  pub with_parameters : PublicReplicaConfig → ReplicaParameters → PublicReplicaConfig
  pub all_metric_addresses : PublicReplicaConfig → List String
  pub metrics_address : PublicReplicaConfig → Authority → Option String
  pub network_address : PublicReplicaConfig → Authority → Option String
  pub PrivateReplicaConfig : Type 0
  pub private_filename : Authority → String
  pub new_private_for_benchmarks : PathBuf → ℕ → List PrivateReplicaConfig
  pub storage_path : PrivateReplicaConfig → PathBuf
  pub metrics_route : String

-- `serde_yaml` of the load generator's configuration
pub record Serializer : Type 0 where
  pub config_to_yaml : LoadGeneratorConfig → Option String
