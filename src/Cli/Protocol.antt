-- ===== src/Cli/Protocol.antt =====
-- `ValidatorProtocol` of crates/cli/src/remote/protocol.rs: the shell commands for the machines of a
-- benchmark, and what is scraped from them.
pub mod Launches
pub mod Shares
use Prim.Native.String.{String, ◌++◌ as ◌<>◌}
use blockchain_validator.Prelude.{
  ℕ, suc, ◌/◌, Bool, Option, none, some, List, [], ◌∷◌, ◌++◌, map, if◌then◌else◌, ltb, ◌==◌, nat_eq,
  zip,
}
use blockchain_validator.Outcome.{Outcome, ok, panic, division_by_zero, serialization_failed, ◌>>=◌}
use blockchain_validator.Validator.Generator.{LoadGeneratorConfig, load_generator_config_filename}
use blockchain_validator.Validator.Metrics.{
  submitted_transactions_name, subdag_execution_latency_s_name,
  checkpoint_certification_latency_s_name, end_to_end_latency_s_name,
}
use blockchain_validator.Cli.Text.{PathBuf, join_texts, join_path, decimal}
use blockchain_validator.Cli.Library.{Replica, Serializer}
use blockchain_validator.Cli.Parameters.{Orchestrator}

pub record ValidatorProtocol : Type 0 where
  pub working_dir : PathBuf

-- Division of `usize`s
unfoldable pub divide : ℕ → ℕ → Outcome ℕ
divide n divisor = if divisor == 0 then panic division_by_zero else ok (n / divisor)

-- `unwrap` of a serialization
abbrev pub unwrap_yaml : Option String → Outcome String
unwrap_yaml none = panic serialization_failed
unwrap_yaml (some text) = ok text

module _ (r : Replica) (o : Orchestrator r) (s : Serializer) where
  abbrev pub new_protocol : o.Settings → ValidatorProtocol
  new_protocol settings = record { working_dir = o.working_dir settings }

  abbrev pub protocol_dependencies : ValidatorProtocol → List String
  protocol_dependencies protocol = []

  abbrev pub db_directories : ValidatorProtocol → List PathBuf
  db_directories protocol = join_path protocol.working_dir "storage-*" ∷ []

  abbrev pub binary : String
  binary = "./" <> o.binary_path <> "/validator"

  abbrev pub echo_to : String → PathBuf → String
  echo_to text path = "echo -e '" <> text <> "' > " <> path

  abbrev pub replica_parameters_path : ValidatorProtocol → PathBuf
  replica_parameters_path protocol = join_path protocol.working_dir "replica-parameters.yaml"

  -- The load of one node; `genesis_command` and `node_command` both compute it.
  unfoldable pub node_load : o.BenchmarkParameters → Outcome ℕ
  node_load parameters = divide (o.load parameters) (o.nodes parameters)

  -- The configuration that `genesis_command` uploads.
  unfoldable pub load_generator_config : o.BenchmarkParameters → Outcome LoadGeneratorConfig
  load_generator_config parameters = do
    load ← node_load parameters
    ok (record (o.client_parameters parameters).config { load = load })

  unfoldable pub genesis_command :
      ValidatorProtocol → List o.Instance → o.BenchmarkParameters → Outcome String
  unfolding load_generator_config node_load
  genesis_command protocol instances parameters = do
    let ips = join_texts " " (map (λ x. r.show_ip (o.main_ip x)) instances)
    replica_parameters ← unwrap_yaml (r.parameters_to_yaml (o.node_parameters parameters).replica)
    let parameters_path = replica_parameters_path protocol
    config ← load_generator_config parameters
    config_text ← unwrap_yaml (s.config_to_yaml config)
    let config_path = join_path protocol.working_dir load_generator_config_filename
    let genesis = join_texts " " (
        binary
        ∷ "test-genesis"
        ∷ ("--ips " <> ips <> " --working-directory " <> protocol.working_dir
            <> " --replica-parameters-path " <> parameters_path)
        ∷ [])
    ok (
        join_texts " && " (
          "source $HOME/.cargo/env"
          ∷ echo_to replica_parameters parameters_path
          ∷ echo_to config_text config_path
          ∷ genesis
          ∷ []))

  abbrev pub public_config_path : ValidatorProtocol → PathBuf
  public_config_path protocol = join_path protocol.working_dir r.public_filename

  abbrev pub private_config_path : ValidatorProtocol → r.Authority → PathBuf
  private_config_path protocol authority =
      join_path protocol.working_dir
        ("private-replica-config-" <> r.show_authority authority <> ".yaml")

  -- The flag that has a node start the load generator.
  unfoldable pub generator_flag : ValidatorProtocol → ℕ → List String
  generator_flag protocol load =
      if ltb 0 load
      then ("--load-generator-config-path "
          <> join_path protocol.working_dir load_generator_config_filename)
        ∷ []
      else []

  unfoldable pub run_arguments : ValidatorProtocol → ℕ → r.Authority → List String
  unfolding generator_flag
  run_arguments protocol load authority =
      (binary
        ∷ "run"
        ∷ ("--authority " <> decimal (r.index authority))
        ∷ ("--public-config-path " <> public_config_path protocol)
        ∷ ("--private-config-path " <> private_config_path protocol authority)
        ∷ [])
      ++ generator_flag protocol load

  -- The instances from a position on.
  unfoldable pub node_commands :
      ValidatorProtocol → ℕ → ℕ → List o.Instance → List (o.Instance × String)
  unfolding run_arguments
  node_commands protocol load i [] = []
  node_commands protocol load i (instance' ∷ rest) =
      let run = join_texts " " (run_arguments protocol load (r.authority_from i)) in
      (instance', join_texts " && " ("source $HOME/.cargo/env" ∷ run ∷ []))
      ∷ node_commands protocol load (suc i) rest

  unfoldable pub node_command :
      ValidatorProtocol
      → List o.Instance
      → o.BenchmarkParameters
      → Outcome (List (o.Instance × String))
  unfolding node_commands node_load
  node_command protocol instances parameters = do
    load ← node_load parameters
    ok (node_commands protocol load 0 instances)

  abbrev pub client_command :
      ValidatorProtocol → List o.Instance → o.BenchmarkParameters → List (o.Instance × String)
  client_command protocol instances parameters = []

  -- Names with kinds.
  abbrev pub metrics : ValidatorProtocol → List (String × o.MetricKind)
  metrics protocol =
      (r.benchmark_duration_name, o.gauge)
      ∷ (r.latency_s_name, o.histogram)
      ∷ (r.latency_s_name <> "_count", o.counter)
      ∷ (r.latency_s_name <> "_sum", o.counter)
      ∷ (r.latency_squared_s_name, o.counter)
      ∷ (end_to_end_latency_s_name, o.histogram)
      ∷ (end_to_end_latency_s_name <> "_count", o.counter)
      ∷ (end_to_end_latency_s_name <> "_sum", o.counter)
      ∷ (checkpoint_certification_latency_s_name, o.histogram)
      ∷ (subdag_execution_latency_s_name, o.histogram)
      ∷ (submitted_transactions_name, o.counter)
      ∷ []

  unfoldable pub nodes_metrics_path :
      ValidatorProtocol → List o.Instance → o.BenchmarkParameters → List (o.Instance × String)
  nodes_metrics_path protocol instances parameters =
      let public_config = r.new_public_for_benchmarks (map o.main_ip instances) in
      zip instances (map (λ x. x <> r.metrics_route) (r.all_metric_addresses public_config))

  abbrev pub clients_metrics_path :
      ValidatorProtocol → List o.Instance → o.BenchmarkParameters → List (o.Instance × String)
  clients_metrics_path = nodes_metrics_path
