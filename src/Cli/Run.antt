-- ===== src/Cli/Run.antt =====
-- `run` of crates/cli/src/commands/run.rs. Files, the start of the replica with `Validator::start`
-- and the metrics server are calls; which of the components ends first is a parameter.
pub mod Starting
use Prim.Native.String.{String, ◌++◌ as ◌<>◌}
use blockchain_validator.Prelude.{Bool, true, false, Option, none, some, List, [], ◌∷◌}
use blockchain_validator.Outcome.{Outcome, ok, panic, assertion_failed}
use blockchain_validator.Dag.{Dag}
use blockchain_validator.Execution.Fake.{fake_executor}
use blockchain_validator.Validator.Envelope.{Codec}
use blockchain_validator.Validator.Generator.{LoadGeneratorConfig, Start, started, refused}
use blockchain_validator.Validator.Generator
use blockchain_validator.Validator.Builder.{
  ReplicaCrate, new_builder, Setting, registry, set_options, Validator, build,
}
use blockchain_validator.Cli.Text.{PathBuf}
use blockchain_validator.Cli.Journal.{World, Run, ◌>>=◌, call, request, done, stop, wait, lift}
use blockchain_validator.Cli.Tracing.{Subscriber, tracing_at, with_log_file, setup}
use blockchain_validator.Cli.Args.{RunArgs}

-- What `run` reads of the configurations; an address is its text.
pub record Addresses (d : Dag) (r : ReplicaCrate d) : Type 0 where
  pub show_authority : d.Authority → String
  pub metrics_address : r.PublicReplicaConfig → d.Authority → Option String
  pub network_address : r.PublicReplicaConfig → d.Authority → Option String
  pub storage_path : r.PrivateReplicaConfig → PathBuf

-- The component that ends first, and whether without an error.
pub data Ended : Type 0 where
  replica_ended : Bool → Ended
  metrics_server_ended : Bool → Ended
  load_generator_ended : Bool → Ended

module _ (d : Dag) (codec : Codec d) (r : ReplicaCrate d) (a : Addresses d r) where
  pub data Call : Type 0 where
    create_file : PathBuf → Call
    load_public : String → Call
    load_private : String → Call
    load_generator : String → Call
    create_dir_all : PathBuf → Call
    start_validator : Validator d r → Call
    start_metrics_server : String → r.Registry → Call

  abbrev pub Reply : Call → Type 0
  Reply (load_public path) = r.PublicReplicaConfig
  Reply (load_private path) = r.PrivateReplicaConfig
  Reply (load_generator path) = LoadGeneratorConfig
  Reply _ = Unit

  -- `ok_or_else(..)?`
  abbrev pub required : {A : Type 0} → Option A → Option String → Run Call A
  required none context = stop context
  required (some x) context = done x

  -- The assertions of the generator's start.
  abbrev pub checked : Start → Outcome (Unit {0})
  checked (started args_len) = ok tt
  checked (refused reason) = panic assertion_failed

  -- Whether there is a generator.
  abbrev pub start_load_generator : Option LoadGeneratorConfig → Run Call Bool
  start_load_generator none = done false
  start_load_generator (some config) = do
    _ ← lift (checked (Generator.start d codec config))
    done true

  -- `select!` over the components, where a generator that there is not never ends.
  unfoldable pub select : Bool → Option Ended → Run Call Unit
  select generating none = wait
  select generating (some (replica_ended true)) = done tt
  select generating (some (replica_ended false)) = stop none
  select generating (some (metrics_server_ended true)) = done tt
  select generating (some (metrics_server_ended false)) = stop (some "Metrics server crashed")
  select false (some (load_generator_ended fine)) = wait
  select true (some (load_generator_ended true)) = stop (some "Load generator stopped unexpectedly")
  select true (some (load_generator_ended false)) = stop (some "Load generator crashed")

  module _ (t : Subscriber) (w : World Call Reply) where
    abbrev pub load_generator_from : Option String → Run Call (Option LoadGeneratorConfig)
    load_generator_from none = done none
    load_generator_from (some path) = do
      config ← call w (load_generator path) none
      done (some config)

    -- From the configurations on.
    unfoldable pub run_node :
        d.Authority
        → Option Ended
        → r.PublicReplicaConfig
        → r.PrivateReplicaConfig
        → Option LoadGeneratorConfig
        → Run Call Unit
    unfolding select
    run_node authority ended public_config private_config generator_config = do
      metrics_address ←
          required (a.metrics_address public_config authority)
            (some ("No metrics address for authority " <> a.show_authority authority))
      _ ←
          required (a.network_address public_config authority)
            (some ("No network address for authority " <> a.show_authority authority))
      _ ←
          request w (create_dir_all (a.storage_path private_config))
            (some ("Failed to create storage directory '" <> a.storage_path private_config <> "'"))
      validator ←
          required
            (build d r (
              set_options d r (new_builder d r fake_executor authority public_config private_config)
                (registry r.new_registry ∷ [])))
            none
      _ ← request w (start_validator validator) none
      generating ← start_load_generator generator_config
      _ ← request w (start_metrics_server metrics_address r.new_registry) none
      select generating ended

    unfoldable pub run :
        RunArgs d.Authority → Option t.LevelFilter → Option PathBuf → Option Ended → Run Call Unit
    unfolding run_node
    run args log_level log_file ended = do
      _ ←
          setup t (λ path. request w (create_file path))
            (with_log_file t (tracing_at t log_level) log_file)
      public_config ← call w (load_public args.public_config_path) none
      private_config ← call w (load_private args.private_config_path) none
      generator_config ← load_generator_from args.load_generator_config_path
      run_node args.authority ended public_config private_config generator_config
