-- ===== src/Cli/Remote/Scope.antt =====
-- What each command may do to the testbed.
use Prim.Native.String.{String}
use blockchain_validator.Prelude.{
  ◌⊎◌, inl, inr, ◌++◌, ℕ, ◌≡◌, refl, Bool, Option, none, some, List, [], ◌∷◌, map, All, All-append,
}
use blockchain_validator.Cli.Text.{PathBuf}
use blockchain_validator.Cli.Library.{Replica}
use blockchain_validator.Cli.Parameters.{
  Orchestrator, NodeParameters, ClientParameters, default_node_parameters,
  default_client_parameters,
}
use blockchain_validator.Cli.Journal.{World, request}
use blockchain_validator.Cli.Journal.Contracts.{
  Ensures, done-Ensures, bind-Ensures, call-Ensures, request-Ensures, call-Answers, IsAnswer,
}
use blockchain_validator.Cli.Tracing.{
  Subscriber, ValidatorTracing, tracing_at, with_log_file, open_log, setup,
}
use blockchain_validator.Cli.Args.{
  RemoteTestbedCommand, status, create, start, stop, destroy, benchmark, RemoteTestbedArgs,
}
use blockchain_validator.Cli.Benchmark.{
  Event, new_driver, load_node_parameters, load_client_parameters,
}
use blockchain_validator.Cli.Benchmark.Scope.{Within, benchmark-Stays}
use blockchain_validator.Cli.Benchmark
use blockchain_validator.Cli.Remote.{
  Provider, world_after, Call, create_file, load_settings, new_client, new_testbed, testbed_status,
  println, create_instances, start_instances, stop_instances, destroy_testbed, setup_commands,
  username, in_benchmark, Reply, RemoteTestbedDriver, benchmark_run, status_lines, print_lines,
  new_testbed_driver, run, remote_testbed,
}

module _ (r : Replica) (o : Orchestrator r) (w : World (Call r o) (Reply r o))
    (settings_path : String) where
  -- What was loaded as the settings, and with them.
  abbrev pub IsSettings : o.Settings → Provider → Type 0
  IsSettings settings provider = IsAnswer w (load_settings settings_path) (settings, provider)

  abbrev pub IsNodes : o.Settings → NodeParameters r → Type 0
  IsNodes settings n =
      ((o.node_parameters_path settings ≡ none) × (n ≡ default_node_parameters r))
      ⊎ ((path : PathBuf) × (o.node_parameters_path settings ≡ some path)
          × IsAnswer w (in_benchmark (load_node_parameters path)) n)

  abbrev pub IsClients : o.Settings → ClientParameters → Type 0
  IsClients settings c =
      ((o.client_parameters_path settings ≡ none) × (c ≡ default_client_parameters))
      ⊎ ((path : PathBuf) × (o.client_parameters_path settings ≡ some path)
          × IsAnswer w (in_benchmark (load_client_parameters path)) c)

  abbrev pub IsBenchmark : RemoteTestbedCommand → Type 0
  IsBenchmark command =
      (committee : ℕ) × (loads : List ℕ) × (skip_update : Bool) × (skip_configuration : Bool)
      × (command ≡ benchmark committee loads skip_update skip_configuration)

  -- A call of a benchmark of just this committee, these loads and these skipped steps, over the
  -- settings that were loaded.
  abbrev pub BenchmarkPermits :
      RemoteTestbedCommand → ℕ → List ℕ → Bool → Bool → Benchmark.Call r o → Type 0
  BenchmarkPermits command committee loads skip_update skip_configuration c =
      (command ≡ benchmark committee loads skip_update skip_configuration)
      × ((settings : o.Settings) × (provider : Provider) × IsSettings settings provider
          × (name : String) × IsAnswer w username name
          × Within r o (new_driver r o settings name) committee loads skip_update skip_configuration
              (IsNodes settings) (IsClients settings) c)

  -- Besides the set-up, a call belongs to one command, with what the command says.
  abbrev pub Permits : RemoteTestbedCommand → Call r o → Type 0
  Permits command (create_file path) = Unit
  Permits command (load_settings path) = path ≡ settings_path
  Permits command (new_client provider) = (settings : o.Settings) × IsSettings settings provider
  Permits command new_testbed = Unit
  Permits command testbed_status = command ≡ status
  Permits command (println line) = command ≡ status
  Permits command (create_instances instances region) = command ≡ create instances region
  Permits command (start_instances instances) = command ≡ start instances
  Permits command stop_instances = command ≡ stop
  Permits command destroy_testbed = command ≡ destroy
  Permits command setup_commands = IsBenchmark command
  Permits command username = IsBenchmark command
  Permits command (in_benchmark c) =
      (committee : ℕ) × (loads : List ℕ) × (skip_update : Bool) × (skip_configuration : Bool)
      × BenchmarkPermits command committee loads skip_update skip_configuration c

  print_lines-Permits :
      (lines : List String) → Ensures (Permits status) (λ _. Unit) (print_lines r o w lines)
  unfolding print_lines
  print_lines-Permits [] = done-Ensures (Permits status) tt
  print_lines-Permits (line ∷ lines) =
      bind-Ensures (Permits status) (request-Ensures (Permits status) w (println line) none refl)
        (λ _ _. print_lines-Permits lines)

  module _ (committee : ℕ) (loads : List ℕ) (skip_update skip_configuration : Bool)
      (settings : o.Settings) (provider : Provider) (loaded : IsSettings settings provider)
      (name : String) (named : IsAnswer w username name) where
    abbrev own : RemoteTestbedCommand
    own = benchmark committee loads skip_update skip_configuration

    in_benchmark-Permits :
        (calls : List (Benchmark.Call r o))
        → All
            (Within r o
              (new_driver r o settings name)
              committee
              loads
              skip_update
              skip_configuration
              (IsNodes settings)
              (IsClients settings))
            calls
        → All (Permits own) (map in_benchmark calls)
    in_benchmark-Permits [] h = tt
    in_benchmark-Permits (c ∷ calls) h = (
      (
        committee,
        loads,
        skip_update,
        skip_configuration,
        (refl, (settings, provider, loaded, name, named, h.0)),
      ),
      in_benchmark-Permits calls h.1,
    )

    benchmark_run-Permits :
        (events : ℕ → List (Event r o))
        → Ensures
            (Permits own)
            (λ _. Unit)
            (benchmark_run r o w (λ inner.
              Benchmark.benchmark r o inner
                (new_driver r o settings name)
                committee
                loads
                skip_update
                skip_configuration
                events))
    benchmark_run-Permits events = record {
      keeps = λ before k.
          (All-append (Permits own) before _).1
            (k, in_benchmark-Permits _ ((stays before).keeps [] tt));
      returns = λ before a e. tt;
    }
      where
        stays :
            (before : List (Call r o))
            → Ensures
                (Within r o
                  (new_driver r o settings name)
                  committee
                  loads
                  skip_update
                  skip_configuration
                  (IsNodes settings)
                  (IsClients settings))
                (λ _. Unit)
                (Benchmark.benchmark r o
                  (world_after r o w before)
                  (new_driver r o settings name)
                  committee
                  loads
                  skip_update
                  skip_configuration
                  events)
        stays before =
            benchmark-Stays r o (new_driver r o settings name) committee loads skip_update
              skip_configuration (IsNodes settings) (IsClients settings) (world_after r o w before)
              events (λ path calls n at e. inr (path, at, (before ++ map in_benchmark calls, e)))
              (λ e. inl (e, refl))
              (λ path calls c at e. inr (path, at, (before ++ map in_benchmark calls, e)))
              (λ e. inl (e, refl))

  module _ (provider : Provider) where
    run-Permits :
        (driver : RemoteTestbedDriver r o) (events : ℕ → List (Event r o))
        (command : RemoteTestbedCommand)
        → IsSettings driver.settings provider
        → Ensures (Permits command) (λ _. Unit) (run r o w driver events command)
    unfolding run
    run-Permits driver events status loaded =
        bind-Ensures (Permits status) (call-Ensures (Permits status) w testbed_status none refl)
          (λ testbed _. print_lines-Permits (status_lines testbed))
    run-Permits driver events (create instances region) loaded =
        request-Ensures (Permits (create instances region)) w (create_instances instances region) _
          refl
    run-Permits driver events (start instances) loaded =
        request-Ensures (Permits (start instances)) w (start_instances instances) _ refl
    run-Permits driver events stop loaded = request-Ensures (Permits stop) w stop_instances _ refl
    run-Permits driver events destroy loaded =
        request-Ensures (Permits destroy) w destroy_testbed _ refl
    run-Permits driver events (benchmark committee loads skip_update skip_configuration) loaded =
        let own = benchmark committee loads skip_update skip_configuration in
        let here : IsBenchmark own = (committee, loads, skip_update, skip_configuration, refl) in
        bind-Ensures (Permits own) (request-Ensures (Permits own) w setup_commands _ here) (λ _ _.
          bind-Ensures (Permits own) (call-Answers (Permits own) w username none here)
            (λ name named.
              benchmark_run-Permits committee loads skip_update skip_configuration driver.settings
                provider loaded name named events))

  module _ (t : Subscriber) (command : RemoteTestbedCommand) where
    opened-Permits :
        (path : Option PathBuf)
        → Ensures
            (Permits command)
            (λ _. Unit)
            (open_log t (λ path. request w (create_file path)) path)
    opened-Permits none = done-Ensures (Permits command) tt
    opened-Permits (some path) = request-Ensures (Permits command) w (create_file path) _ tt

    setup-Permits :
        (tracing : ValidatorTracing t)
        → Ensures
            (Permits command)
            (λ _. Unit)
            (setup t (λ path. request w (create_file path)) tracing)
    unfolding setup
    setup-Permits tracing =
        bind-Ensures (Permits command) (opened-Permits tracing.log_file)
          (λ _ _. done-Ensures (Permits command) tt)

    driver-Permits :
        (settings : o.Settings) (provider : Provider)
        → IsSettings settings provider
        → Ensures
            (Permits command)
            (λ (driver : RemoteTestbedDriver r o). IsSettings driver.settings provider)
            (new_testbed_driver r o w settings)
    driver-Permits settings provider loaded =
        bind-Ensures (Permits command) (request-Ensures (Permits command) w new_testbed _ tt)
          (λ _ _. done-Ensures (Permits command) {a = record { settings = settings }} loaded)

module _ (r : Replica) (o : Orchestrator r) (w : World (Call r o) (Reply r o)) where
  -- Whatever fails: besides its set-up, which reads the settings and connects to their provider, the command
  -- makes only the calls that belong to it, with its own arguments. Nothing but `destroy` destroys the
  -- testbed, nothing but `create` creates instances, and `status` changes nothing. A call of a benchmark
  -- is for parameters of just the committee and the loads of the command, over the settings and the
  -- parameter files that were loaded; nothing is installed or updated if the update is to be skipped, and
  -- nothing configured if the configuration is.
  pub remote_testbed-Permits :
      (t : Subscriber) (args : RemoteTestbedArgs) (log_level : Option t.LevelFilter)
      (log_file : Option PathBuf) (events : ℕ → List (Event r o))
      → All
          (Permits r o w args.settings_path args.command)
          (remote_testbed r o w t args log_level log_file events []).0
  unfolding remote_testbed
  remote_testbed-Permits t args log_level log_file events = whole.keeps [] tt
    where
      whole :
          Ensures
            (Permits r o w args.settings_path args.command)
            (λ _. Unit)
            (remote_testbed r o w t args log_level log_file events)
      whole =
          let P = Permits r o w args.settings_path args.command in
          bind-Ensures P
            (setup-Permits r o w args.settings_path t args.command
              (with_log_file t (tracing_at t log_level) log_file))
            (λ _ _.
              bind-Ensures P (call-Answers P w (load_settings args.settings_path) _ refl)
                (λ loaded h.
                  bind-Ensures P (request-Ensures P w (new_client loaded.1) none (loaded.0, h))
                    (λ _ _.
                      bind-Ensures P
                        (driver-Permits r o w args.settings_path t args.command loaded.0 loaded.1 h)
                        (λ driver h.
                          run-Permits r o w args.settings_path loaded.1 driver events args.command
                            h))))
