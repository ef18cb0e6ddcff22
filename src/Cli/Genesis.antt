-- ===== src/Cli/Genesis.antt =====
-- `test_genesis` of crates/cli/src/commands/genesis.rs. Files and directories are calls.
pub mod Files
use Prim.Native.String.{String, ◌++◌ as ◌<>◌}
use blockchain_validator.Prelude.{ℕ, zero, suc, Option, none, some, List, [], ◌∷◌, length}
use blockchain_validator.Cli.Text.{PathBuf, join_path}
use blockchain_validator.Cli.Library.{Replica}
use blockchain_validator.Cli.Journal.{World, Run, ◌>>=◌, call, request, done}
use blockchain_validator.Cli.Tracing.{Subscriber, tracing_at, with_log_file, setup}
use blockchain_validator.Cli.Args.{TestGenesisArgs}

module _ (r : Replica) where
  pub data Call : Type 0 where
    create_file : PathBuf → Call
    create_dir_all : PathBuf → Call
    load_parameters : PathBuf → Call
    print_public : PathBuf → r.PublicReplicaConfig → Call
    print_private : PathBuf → r.PrivateReplicaConfig → Call

  abbrev pub Reply : Call → Type 0
  Reply (load_parameters path) = r.ReplicaParameters
  Reply _ = Unit

  module _ (t : Subscriber) (w : World Call Reply) where
    abbrev pub parameters_from : Option PathBuf → Run Call r.ReplicaParameters
    parameters_from none = done r.default_parameters
    parameters_from (some path) = call w (load_parameters path) none

    -- The private configurations, from an index on.
    unfoldable pub print_privates : PathBuf → ℕ → List r.PrivateReplicaConfig → Run Call Unit
    print_privates working_directory i [] = done tt
    print_privates working_directory i (private_config ∷ rest) = do
      let authority = r.authority_from i
      _ ←
          request w (create_dir_all (r.storage_path private_config)) (
            some
              ("Failed to create storage directory for validator " <> r.show_authority authority))
      _ ←
          request w
            (print_private (join_path working_directory (r.private_filename authority))
              private_config)
            none
      print_privates working_directory (suc i) rest

    unfoldable pub print_configs : TestGenesisArgs r.IpAddr → r.ReplicaParameters → Run Call Unit
    unfolding print_privates
    print_configs args parameters = do
      let public_config = r.with_parameters (r.new_public_for_benchmarks args.ips) parameters
      _ ←
          request w
            (print_public (join_path args.working_directory r.public_filename) public_config) none
      print_privates args.working_directory 0
          (r.new_private_for_benchmarks args.working_directory (length args.ips))

    unfoldable pub test_genesis :
        TestGenesisArgs r.IpAddr → Option t.LevelFilter → Option PathBuf → Run Call Unit
    unfolding print_configs
    test_genesis args log_level log_file = do
      _ ←
          setup t (λ path. request w (create_file path))
            (with_log_file t (tracing_at t log_level) log_file)
      _ ←
          request w (create_dir_all args.working_directory)
            (some ("Failed to create working directory '" <> args.working_directory <> "'"))
      parameters ← parameters_from args.replica_parameters_path
      print_configs args parameters
