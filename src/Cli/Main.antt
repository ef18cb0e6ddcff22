-- ===== src/Cli/Main.antt =====
-- `main` of crates/cli/src/main.rs, after the arguments are parsed: the result of the command.
use blockchain_validator.Prelude.{ℕ, Option, List, []}
use blockchain_validator.Dag.{Dag}
use blockchain_validator.Validator.Envelope.{Codec}
use blockchain_validator.Validator.Builder.{ReplicaCrate}
use blockchain_validator.Cli.Library.{Replica}
use blockchain_validator.Cli.Parameters.{Orchestrator}
use blockchain_validator.Cli.Journal.{Result, World}
use blockchain_validator.Cli.Tracing.{Subscriber}
use blockchain_validator.Cli.Args.{Args, test_genesis, run, remote_testbed}
use blockchain_validator.Cli.Genesis
use blockchain_validator.Cli.Run.{Addresses, Ended}
use blockchain_validator.Cli.Run
use blockchain_validator.Cli.Benchmark.{Event}
use blockchain_validator.Cli.Remote

module _ (d : Dag) (codec : Codec d) (c : ReplicaCrate d) (a : Addresses d c) (r : Replica)
    (o : Orchestrator r) (t : Subscriber) where
  -- What the commands meet: the worlds, the component of a node that ends first, and the ticks of
  -- the benchmarks.
  pub record Surroundings : Type 0 where
    pub genesis : World (Genesis.Call r) (Genesis.Reply r)
    pub node : World (Run.Call d codec c a) (Run.Reply d codec c a)
    pub ended : Option Ended
    pub testbed : World (Remote.Call r o) (Remote.Reply r o)
    pub events : ℕ → List (Event r o)

  abbrev pub main : Args r.IpAddr d.Authority t.LevelFilter → Surroundings → Result (Unit {0})
  main args s = elim args.command [
    | test_genesis sub ↦ (Genesis.test_genesis r t s.genesis sub args.log_level args.log_file []).1
    | run sub ↦ (Run.run d codec c a t s.node sub args.log_level args.log_file s.ended []).1
    | remote_testbed sub ↦
        (Remote.remote_testbed r o s.testbed t sub args.log_level args.log_file s.events []).1
  ]
