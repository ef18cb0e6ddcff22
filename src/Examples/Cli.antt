-- ===== src/Examples/Cli.antt =====
-- Runs of the command line.
use Prim.Native.String.{String, ◌++◌ as ◌<>◌}
use blockchain_validator.Prelude.{
  length, ℕ, ◌+◌, ◌*◌, ◌≤◌, ◌<◌, ◌≡◌, ◌≢◌, ◌⊎◌, refl, true, none, some, List, [], ◌∷◌, replicate,
  arith,
}
use blockchain_validator.Outcome.{ok}
use blockchain_validator.Validator.Generator.{
  LoadGeneratorConfig, default_config, refused, load_not_positive,
}
use blockchain_validator.Validator.Generator
use blockchain_validator.Cli.Library.{Replica, Serializer}
use blockchain_validator.Cli.Parameters.{
  default_node_parameters, default_client_parameters, Orchestrator,
}
use blockchain_validator.Cli.Protocol.{
  ValidatorProtocol, load_generator_config, node_load, generator_flag, node_command,
  nodes_metrics_path, divide,
}
use blockchain_validator.Cli.Protocol.Shares.{load_generator_config-shares, generator_flag-accepted}
use blockchain_validator.Cli.Protocol.Launches.{at_position, launch, node_command-launches}
use blockchain_validator.Examples.Data.{dag}
use blockchain_validator.Examples.Codec.{codec}

abbrev pub replica : Replica
replica = record {
  Authority = ℕ;
  authority_from = λ i. i;
  index = λ a. a;
  show_authority = λ a. "A";
  benchmark_duration_name = "benchmark_duration";
  latency_s_name = "latency_s";
  latency_squared_s_name = "latency_squared_s";
  IpAddr = String;
  show_ip = λ ip. ip;
  ReplicaParameters = ℕ;
  default_parameters = 0;
  show_consensus = λ parameters. "";
  parameters_to_yaml = λ parameters. some "";
  PublicReplicaConfig = List String;
  public_filename = "public-replica-config.yaml";
  new_public_for_benchmarks = λ ips. ips;
  with_parameters = λ config parameters. config;
  all_metric_addresses = λ config. config;
  metrics_address = λ config a. none;
  network_address = λ config a. none;
  PrivateReplicaConfig = ℕ;
  private_filename = λ a. "private-replica-config-" <> "A" <> ".yaml";
  new_private_for_benchmarks = λ directory n. replicate n 0;
  storage_path = λ config. "storage";
  metrics_route = "/metrics";
}

-- The settings are the duration of a benchmark, the parameters its load.
abbrev pub orchestrator : Orchestrator replica
orchestrator = record {
  binary_path = "target";
  MetricKind = Unit;
  gauge = tt;
  histogram = tt;
  counter = tt;
  Instance = String;
  main_ip = λ i. i;
  Settings = ℕ;
  working_dir = λ settings. "work";
  BenchmarkParameters = ℕ;
  node_parameters = λ parameters. default_node_parameters replica;
  client_parameters = λ parameters. default_client_parameters;
  nodes = λ parameters. 4;
  load = λ parameters. parameters;
  settings = λ parameters. 60;
  show_parameters = λ parameters. "load";
  new_from_loads = λ settings n c committee loads. loads;
  node_parameters_path = λ settings. none;
  client_parameters_path = λ settings. none;
  set_unknown_commit = λ settings. settings;
  commit = λ settings. "unknown";
  results_dir = λ settings. "results";
  benchmark_duration = λ settings. settings;
  monitoring = λ settings. true;
  log_processing = λ settings. true;
}

abbrev pub serializer : Serializer
serializer = record { config_to_yaml = λ config. some "" }

abbrev pub protocol : ValidatorProtocol
protocol = record { working_dir = "work" }

load_generator_config-shares_example :
    (config : LoadGeneratorConfig) × (load_generator_config replica orchestrator serializer 203
      ≡ ok config)
    × (4 * config.load ≤ 203)
    × (203 < 4 * (config.load + 1))
load_generator_config-shares_example =
    load_generator_config-shares replica orchestrator serializer 203 (omega arith)

four_loads : node_load replica orchestrator serializer 203 ≡ ok 50
unfolding node_load divide
four_loads = refl

four_configs :
    load_generator_config replica orchestrator serializer 203
    ≡ ok (record default_config { load = 50 })
unfolding load_generator_config node_load divide
four_configs = refl

generator_flag-accepted_example :
    ((generator_flag replica orchestrator serializer protocol 50 ≡ [])
      × (Generator.start dag codec (record default_config { load = 50 })
          ≡ refused load_not_positive))
    ⊎ ((generator_flag replica orchestrator serializer protocol 50 ≢ [])
        × (Generator.start dag codec (record default_config { load = 50 })
            ≢ refused load_not_positive))
generator_flag-accepted_example =
    generator_flag-accepted replica orchestrator serializer dag codec protocol 203 50
      (record default_config { load = 50 }) four_loads four_configs

node_command-launches_example :
    (commands : List (String × String)) × (address : String) × (node_command replica orchestrator
        serializer protocol
        ("10.0.0.1" ∷ "10.0.0.2" ∷ [])
        203
      ≡ ok commands)
    × (length commands ≡ 2)
    × (at_position commands 1
        ≡ some ("10.0.0.2", launch replica orchestrator serializer protocol 50 1))
    × (at_position ("10.0.0.1" ∷ "10.0.0.2" ∷ []) 1 ≡ some address)
    × (at_position
          (nodes_metrics_path replica orchestrator serializer protocol
            ("10.0.0.1" ∷ "10.0.0.2" ∷ [])
            203)
          1
        ≡ some ("10.0.0.2", address <> "/metrics"))
node_command-launches_example =
    node_command-launches replica orchestrator serializer protocol ("10.0.0.1" ∷ "10.0.0.2" ∷ [])
      203 1 "10.0.0.2" (omega arith) (λ ips. refl) refl
