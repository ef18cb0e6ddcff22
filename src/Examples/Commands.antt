-- ===== src/Examples/Commands.antt =====
-- Runs of the commands.
use Prim.Native.String.{String}
use blockchain_validator.Prelude.{
  ℕ, ◌<◌, ◌≡◌, refl, inr, true, false, none, some, List, [], ◌∷◌, ◌++◌, map, All, Some, filter_map,
  length-replicate, arith,
}
use blockchain_validator.Validator.Generator.{default_config}
use blockchain_validator.Cli.Parameters.{default_node_parameters, default_client_parameters}
use blockchain_validator.Cli.Journal.{World, finished, stopped, waiting, continue, request}
use blockchain_validator.Cli.Journal.Plans.{calls_of, IsFront}
use blockchain_validator.Cli.Tracing.{Subscriber, setup}
use blockchain_validator.Cli.Args.{TestGenesisArgs, RunArgs}
use blockchain_validator.Cli.Args
use blockchain_validator.Cli.Protocol.{public_config_path, private_config_path}
use blockchain_validator.Cli.Benchmark.{
  Call, load_node_parameters, load_client_parameters, write, Reply, Event, metrics_tick,
  fault_update, tick_failed, RemoteBenchmarkDriver, tick_loop, benchmark,
}
use blockchain_validator.Cli.Benchmark.Loop.{results_of, EndsIt, tick_loop-EndsFirst}
use blockchain_validator.Cli.Benchmark.Plan.{plan}
use blockchain_validator.Cli.Benchmark.Phases.{benchmark-IsFront}
use blockchain_validator.Cli.Benchmark.Deployment.{DeploysCleanly, benchmark-DeploysCleanly}
use blockchain_validator.Cli.Genesis
use blockchain_validator.Cli.Genesis.{
  print_public, print_private, print_configs, print_privates, test_genesis,
}
use blockchain_validator.Cli.Genesis.Files.{test_genesis-provides}
use blockchain_validator.Cli.Run
use blockchain_validator.Cli.Run.{Addresses, Ended, replica_ended}
use blockchain_validator.Cli.Run.Starting.{IsStartable, EndedWell, run-Starts}
use blockchain_validator.Cli.Remote
use blockchain_validator.Cli.Remote.{TestbedStatus, Provider, aws, remote_testbed}
use blockchain_validator.Cli.Remote.Scope.{Permits, remote_testbed-Permits}
use blockchain_validator.Examples.Data.{dag}
use blockchain_validator.Examples.Codec.{codec}
use blockchain_validator.Examples.Cli.{replica, orchestrator, serializer, protocol}
use blockchain_validator.Examples.Node.{replica_crate, replica_crate-StorageLaws}

-- Every call is answered.
abbrev pub reply : (c : Call replica orchestrator) → Reply replica orchestrator c
reply (load_node_parameters path) = default_node_parameters replica
reply (load_client_parameters path) = default_client_parameters
reply _ = tt

abbrev pub world : World (Call replica orchestrator) (Reply replica orchestrator)
world = record { answer = λ calls c. some (reply c) }

abbrev pub ticks : List (Event replica orchestrator)
ticks = metrics_tick 15 (some "first") ∷ fault_update ∷ metrics_tick 60 none ∷ []

tick_loop-EndsFirst_example :
    ((last : Event replica orchestrator) (rest : List (Event replica orchestrator))
      → EndsIt replica orchestrator 60 last
      → tick_loop replica orchestrator world 60 "file" (ticks ++ (last ∷ rest)) [] ≡ (
        map (write "file") (filter_map (results_of replica orchestrator 60) (ticks ++ (last ∷ []))),
        finished tt,
      ))
    × ((rest : List (Event replica orchestrator))
        → tick_loop replica orchestrator world 60 "file" (ticks ++ (tick_failed ∷ rest)) []
          ≡ (write "file" "first" ∷ [], stopped (some "Benchmark tick failed")))
    × (tick_loop replica orchestrator world 60 "file" ticks []
        ≡ (write "file" "first" ∷ [], waiting))
tick_loop-EndsFirst_example =
    tick_loop-EndsFirst replica orchestrator 60 world "file" (λ before yaml. refl) ticks []
      (inr (omega arith), (tt, (inr (omega arith), tt)))

abbrev driver : RemoteBenchmarkDriver replica orchestrator
driver = record { settings = 60; username = "ubuntu" }

abbrev events : ℕ → List (Event replica orchestrator)
events index = ticks ++ (metrics_tick 75 (some "last") ∷ [])

benchmark-IsFront_example :
    IsFront []
      (calls_of (plan replica orchestrator driver false true events (200 ∷ 400 ∷ [])))
      (benchmark replica orchestrator world driver 4 (200 ∷ 400 ∷ []) false true events [])
unfolding continue
benchmark-IsFront_example =
    benchmark-IsFront replica orchestrator world driver 4 (200 ∷ 400 ∷ []) false true events [] []
      (default_node_parameters replica) default_client_parameters refl

benchmark-DeploysCleanly_example :
    (made : List (Call replica orchestrator)) × ((benchmark replica orchestrator world driver 4
        (200 ∷ 400 ∷ [])
        false
        true
        events
        []).0
      ≡ made)
    × DeploysCleanly replica orchestrator true made
unfolding continue
benchmark-DeploysCleanly_example =
    benchmark-DeploysCleanly replica orchestrator world driver 4 (200 ∷ 400 ∷ []) false true events
      [] [] (default_node_parameters replica) default_client_parameters true refl

abbrev subscriber : Subscriber
subscriber = record {
  LevelFilter = ℕ;
  info = 3;
  show_level = λ level. "info";
  EnvFilter = List String;
  Directive = String;
  default_filter = [];
  parse = λ text. some text;
  add_directive = λ filter directive. directive ∷ filter;
}

genesis_reply : (c : Genesis.Call replica) → Genesis.Reply replica c
genesis_reply (Genesis.load_parameters path) = 0
genesis_reply _ = tt

abbrev genesis_world : World (Genesis.Call replica) (Genesis.Reply replica)
genesis_world = record { answer = λ calls c. some (genesis_reply c) }

abbrev genesis_args : TestGenesisArgs String
genesis_args = record {
  ips = "10.0.0.1" ∷ "10.0.0.2" ∷ "10.0.0.3" ∷ [];
  working_directory = "work";
  replica_parameters_path = none;
}

abbrev genesis_calls : List (Genesis.Call replica)
genesis_calls = (test_genesis replica subscriber genesis_world genesis_args none none []).0

genesis_finishes :
    test_genesis replica subscriber genesis_world genesis_args none none []
    ≡ (genesis_calls, finished tt)
unfolding test_genesis print_configs print_privates setup continue request
genesis_finishes = refl

test_genesis-provides_example :
    ((config : List String) × Some
        (λ c. c ≡ print_public (public_config_path replica orchestrator serializer protocol) config)
        genesis_calls)
    × ((i : ℕ)
        → i < 3
        → (config : ℕ) × Some
            (λ c.
              c
              ≡ print_private
                  (private_config_path replica orchestrator serializer protocol i)
                  config)
            genesis_calls)
test_genesis-provides_example =
    test_genesis-provides replica subscriber genesis_world orchestrator serializer genesis_args none
      none [] genesis_calls (λ a. refl) (λ directory n. length-replicate n 0) genesis_finishes

abbrev addresses : Addresses dag replica_crate
addresses = record {
  show_authority = λ a. "A";
  metrics_address = λ config a. some "0.0.0.0:1501";
  network_address = λ config a. some "0.0.0.0:1500";
  storage_path = λ config. "storage";
}

run_reply :
    (c : Run.Call dag codec replica_crate addresses) → Run.Reply dag codec replica_crate addresses c
run_reply (Run.load_public path) = 1 ∷ 1 ∷ 1 ∷ 1 ∷ []
run_reply (Run.load_private path) = 7
run_reply (Run.load_generator path) = default_config
run_reply _ = tt

abbrev run_world :
    World (Run.Call dag codec replica_crate addresses) (Run.Reply dag codec replica_crate addresses)
run_world = record { answer = λ calls c. some (run_reply c) }

abbrev run_args : RunArgs ℕ
run_args = record {
  authority = 2;
  public_config_path = "public.yaml";
  private_config_path = "private.yaml";
  load_generator_config_path = some "load.yaml";
}

run-Starts_example :
    All
      (IsStartable dag codec replica_crate addresses (λ replica. replica))
      (Run.run dag codec replica_crate addresses subscriber run_world run_args none
        (some "log")
        (some (replica_ended true))
        []).0
    × ((Run.run dag codec replica_crate addresses subscriber run_world run_args none
            (some "log")
            (some (replica_ended true))
            []).1
          ≡ finished tt
        → EndedWell dag codec replica_crate addresses
            (λ replica. replica)
            (some (replica_ended true)))
run-Starts_example =
    run-Starts dag codec replica_crate addresses (λ replica. replica) replica_crate-StorageLaws
      subscriber run_world run_args none (some "log") (some (replica_ended true))

remote_reply : (c : Remote.Call replica orchestrator) → Remote.Reply replica orchestrator c
remote_reply (Remote.load_settings path) = (60, aws)
remote_reply Remote.testbed_status = record {
  client_summary = "aws";
  active_count = 0;
  repository_url = "url";
  repository_commit = "main";
  regions = [];
}
remote_reply Remote.username = "ubuntu"
remote_reply (Remote.in_benchmark c) = reply c
remote_reply _ = tt

abbrev remote_world : World (Remote.Call replica orchestrator) (Remote.Reply replica orchestrator)
remote_world = record { answer = λ calls c. some (remote_reply c) }

remote_testbed-Permits_example :
    All
      (Permits replica orchestrator remote_world "settings.yml"
        (Args.benchmark 4 (200 ∷ 400 ∷ []) true false))
      (remote_testbed replica orchestrator remote_world subscriber
        (record {
          settings_path = "settings.yml";
          command = Args.benchmark 4 (200 ∷ 400 ∷ []) true false;
        })
        none
        none
        events
        []).0
remote_testbed-Permits_example =
    remote_testbed-Permits replica orchestrator remote_world subscriber
      (record {
        settings_path = "settings.yml";
        command = Args.benchmark 4 (200 ∷ 400 ∷ []) true false;
      })
      none none events
