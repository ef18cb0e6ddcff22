-- ===== src/Cli/Run/Starting.antt =====
-- What the `run` command starts, and when it succeeds.
use Prim.Native.String.{String}
use blockchain_validator.Prelude.{
  ◌≡◌, ◌⊎◌, refl, inl, inr, Bool, true, false, Option, none, some, [], ◌∷◌, All,
}
use blockchain_validator.Dag.{Dag}
use blockchain_validator.Execution.Fake.{fake_executor}
use blockchain_validator.Validator.Envelope.{Codec}
use blockchain_validator.Validator.Generator.{LoadGeneratorConfig, Start, started, refused}
use blockchain_validator.Validator.Generator
use blockchain_validator.Validator.Builder.{ReplicaCrate, registry, build}
use blockchain_validator.Validator.Builder.Storage.{StorageLaws, build-storage}
use blockchain_validator.Cli.Text.{PathBuf}
use blockchain_validator.Cli.Journal.{finished, World, Run, request, lift}
use blockchain_validator.Cli.Journal.Contracts.{
  Ensures, done-Ensures, stop-Ensures, wait-Ensures, panic-Ensures, bind-Ensures, call-Ensures,
  request-Ensures,
}
use blockchain_validator.Cli.Tracing.{
  Subscriber, ValidatorTracing, tracing_at, with_log_file, open_log, setup,
}
use blockchain_validator.Cli.Args.{RunArgs}
use blockchain_validator.Cli.Run.{
  Addresses, Ended, replica_ended, metrics_server_ended, load_generator_ended, Call, create_file,
  load_public, load_private, load_generator, start_validator, Reply, required, checked,
  start_load_generator, select, load_generator_from, run_node, run,
}

module _ (d : Dag) (codec : Codec d) (r : ReplicaCrate d) (a : Addresses d r)
    (storage_of : r.ReplicaBuilder → Option r.PathBuf) where
  -- A validator that is started replays the log that its replica writes; the metrics server serves the
  -- registry that the validator was given.
  abbrev pub IsStartable : Call d codec r a → Type 0
  IsStartable (start_validator validator) = storage_of validator.replica ≡ validator.wal
  IsStartable _ = Unit

  -- The replica or the metrics server has ended without an error.
  abbrev pub EndedWell : Option Ended → Type 0
  EndedWell ended = (ended ≡ some (replica_ended true)) ⊎ (ended ≡ some (metrics_server_ended true))

  module _ (laws : StorageLaws d r storage_of) where
    abbrev Starts : {A : Type 0} (Q : A → Type 0) → Run (Call d codec r a) A → Type 0
    Starts = Ensures IsStartable

    required-Starts :
        {A : Type 0} (o : Option A) (context : Option String)
        → Starts (λ x. o ≡ some x) (required d codec r a o context)
    required-Starts none context = stop-Ensures IsStartable
    required-Starts (some x) context = done-Ensures IsStartable refl

    select-Starts :
        (generating : Bool) (ended : Option Ended)
        → Starts (λ _. EndedWell ended) (select d codec r a generating ended)
    unfolding select
    select-Starts generating none = wait-Ensures IsStartable
    select-Starts generating (some (replica_ended true)) = done-Ensures IsStartable (inl refl)
    select-Starts generating (some (replica_ended false)) = stop-Ensures IsStartable
    select-Starts generating (some (metrics_server_ended true)) =
        done-Ensures IsStartable (inr refl)
    select-Starts generating (some (metrics_server_ended false)) = stop-Ensures IsStartable
    select-Starts false (some (load_generator_ended fine)) = wait-Ensures IsStartable
    select-Starts true (some (load_generator_ended true)) = stop-Ensures IsStartable
    select-Starts true (some (load_generator_ended false)) = stop-Ensures IsStartable

    generator-Starts :
        (config : Option LoadGeneratorConfig)
        → Starts (λ _. Unit) (start_load_generator d codec r a config)
    generator-Starts none = done-Ensures IsStartable tt
    generator-Starts (some config) =
        bind-Ensures IsStartable (by_check (Generator.start d codec config))
          (λ _ _. done-Ensures IsStartable tt)
      where
        by_check : (s : Start) → Starts (λ _. Unit) (lift (checked d codec r a s))
        by_check (started args_len) = done-Ensures IsStartable tt
        by_check (refused reason) = panic-Ensures IsStartable

    module _ (t : Subscriber) (w : World (Call d codec r a) (Reply d codec r a)) where
      run_node-Starts :
          (authority : d.Authority) (ended : Option Ended) (public_config : r.PublicReplicaConfig)
          (private_config : r.PrivateReplicaConfig) (config : Option LoadGeneratorConfig)
          → Starts
              (λ _. EndedWell ended)
              (run_node d codec r a t w authority ended public_config private_config config)
      unfolding run_node
      run_node-Starts authority ended public_config private_config config =
          bind-Ensures IsStartable (required-Starts (a.metrics_address public_config authority) _)
            (λ address _.
              bind-Ensures IsStartable
                (required-Starts (a.network_address public_config authority) _)
                (λ _ _. bind-Ensures IsStartable (request-Ensures IsStartable w _ _ tt) (λ _ _.
                  bind-Ensures IsStartable (required-Starts (build d r _) _) (λ validator built.
                    bind-Ensures IsStartable
                      (request-Ensures IsStartable w _ _ (
                        build-storage d r storage_of laws fake_executor authority public_config
                          private_config (registry r.new_registry ∷ []) validator built))
                      (λ _ _. bind-Ensures IsStartable (generator-Starts config) (λ generating _.
                        bind-Ensures IsStartable (request-Ensures IsStartable w _ _ tt)
                          (λ _ _. select-Starts generating ended)))))))

      opened-Starts :
          (path : Option PathBuf)
          → Starts (λ _. Unit) (open_log t (λ path. request w (create_file path)) path)
      opened-Starts none = done-Ensures IsStartable tt
      opened-Starts (some path) = request-Ensures IsStartable w (create_file path) _ tt

      setup-Starts :
          (tracing : ValidatorTracing t)
          → Starts (λ _. Unit) (setup t (λ path. request w (create_file path)) tracing)
      unfolding setup
      setup-Starts tracing =
          bind-Ensures IsStartable (opened-Starts tracing.log_file)
            (λ _ _. done-Ensures IsStartable tt)

      load_generator-Starts :
          (path : Option String) → Starts (λ _. Unit) (load_generator_from d codec r a t w path)
      load_generator-Starts none = done-Ensures IsStartable tt
      load_generator-Starts (some path) =
          bind-Ensures IsStartable (call-Ensures IsStartable w (load_generator path) none tt)
            (λ config _. done-Ensures IsStartable {a = some config} tt)

      -- Under the documented laws of the replica builder: whatever fails, each validator that the
      -- command starts replays the log that its replica writes. It succeeds only after the replica
      -- or the metrics server has ended without an error, and never for the load generator.
      pub run-Starts :
          (args : RunArgs d.Authority) (log_level : Option t.LevelFilter)
          (log_file : Option PathBuf) (ended : Option Ended)
          → All IsStartable (run d codec r a t w args log_level log_file ended []).0
            × ((run d codec r a t w args log_level log_file ended []).1 ≡ finished tt
                → EndedWell ended)
      unfolding run
      run-Starts args log_level log_file ended = (whole.keeps [] tt, whole.returns [] tt)
        where
          whole : Starts (λ _. EndedWell ended) (run d codec r a t w args log_level log_file ended)
          whole =
              bind-Ensures IsStartable
                (setup-Starts (with_log_file t (tracing_at t log_level) log_file))
                (λ _ _.
                  bind-Ensures IsStartable
                    (call-Ensures IsStartable w (load_public args.public_config_path) none tt)
                    (λ public_config _.
                      bind-Ensures IsStartable
                        (call-Ensures IsStartable w (load_private args.private_config_path) none tt)
                        (λ private_config _.
                          bind-Ensures IsStartable
                            (load_generator-Starts args.load_generator_config_path)
                            (λ config _.
                              run_node-Starts args.authority ended public_config private_config
                                config))))
