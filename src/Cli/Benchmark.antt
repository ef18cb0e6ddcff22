-- ===== src/Cli/Benchmark.antt =====
-- `RemoteBenchmarkDriver` of crates/cli/src/remote/benchmark.rs. The methods of the orchestrator, of
-- its session and of the file system are calls; what a session's ticks report is given as a list for
-- each benchmark, with what `select!` makes of an interrupt. Log lines are left out, and with them
-- the report of the monitoring set-up, which else only goes to the session, and the statistics of a
-- tick. The instances, the set-up commands and the user's name only go to the orchestrator's
-- constructor, and are left out of `benchmark`.
pub mod Loop
pub mod Plan
pub mod Phases
pub mod Deployment
pub mod Scope
use Prim.Native.String.{String, ◌++◌ as ◌<>◌}
use blockchain_validator.Prelude.{
  ℕ, zero, suc, Bool, true, false, not, ◌&&◌, Option, none, some, List, [], ◌∷◌, if◌then◌else◌, ltb,
  ◌==◌, nat_eq,
}
use blockchain_validator.Cli.Text.{PathBuf, join_path}
use blockchain_validator.Cli.Library.{Replica}
use blockchain_validator.Cli.Parameters.{
  NodeParameters, ClientParameters, default_node_parameters, default_client_parameters,
  Orchestrator,
}
use blockchain_validator.Cli.Journal.{World, Run, ◌>>=◌, call, request, done, stop, wait}

module _ (r : Replica) (o : Orchestrator r) where
  pub data Call : Type 0 where
    load_node_parameters : PathBuf → Call
    load_client_parameters : PathBuf → Call
    select_instances : o.BenchmarkParameters → Call
    cleanup : Bool → Call
    install : Call
    update : Call
    start_monitoring : o.BenchmarkParameters → Call
    configure : o.BenchmarkParameters → Call
    run_nodes : o.BenchmarkParameters → Call
    run_clients : o.BenchmarkParameters → Call
    new_session : o.BenchmarkParameters → Call
    create_dir_all : PathBuf → Call
    write : PathBuf → String → Call
    download_logs : o.BenchmarkParameters → Call

  abbrev pub Reply : Call → Type 0
  Reply (load_node_parameters path) = NodeParameters r
  Reply (load_client_parameters path) = ClientParameters
  Reply _ = Unit

  -- What the loop receives: `TickReport`, or why there is none.
  pub data Event : Type 0 where
    interrupted : Event
    tick_failed : Event
    metrics_tick : ℕ → Option String → Event
    fault_update : Event

  pub record RemoteBenchmarkDriver : Type 0 where
    pub settings : o.Settings
    pub username : String

  abbrev pub new_driver : o.Settings → String → RemoteBenchmarkDriver
  new_driver settings username = record { settings = settings; username = username }

  -- The driver of a benchmark that skips the update.
  abbrev pub marked : RemoteBenchmarkDriver → Bool → RemoteBenchmarkDriver
  marked driver true = record driver { settings = o.set_unknown_commit driver.settings }
  marked driver false = driver

  abbrev pub results_path : RemoteBenchmarkDriver → PathBuf
  results_path driver =
      join_path (o.results_dir driver.settings) ("results-" <> o.commit driver.settings)

  abbrev pub measurements_path : RemoteBenchmarkDriver → o.BenchmarkParameters → PathBuf
  measurements_path driver parameters =
      join_path (results_path driver) ("measurements-" <> o.show_parameters parameters <> ".yaml")

  -- `!indefinite && elapsed > benchmark_duration`
  unfoldable pub is_over : ℕ → ℕ → Bool
  is_over duration elapsed = not (duration == 0) && ltb duration elapsed

  module _ (w : World Call Reply) where
    abbrev pub save : PathBuf → Option String → Run Call Unit
    save path none = done tt
    save path (some yaml) = request w (write path yaml) (some "Failed to save benchmark results")

    -- The loop of `run_benchmark_loop`.
    unfoldable pub tick_loop : ℕ → PathBuf → List Event → Run Call Unit
    tick_loop duration path [] = wait
    tick_loop duration path (interrupted ∷ events) = done tt
    tick_loop duration path (tick_failed ∷ events) = stop (some "Benchmark tick failed")
    tick_loop duration path (metrics_tick elapsed results ∷ events) =
        let rest = tick_loop duration path events in
        do _ ← save path results; if is_over duration elapsed then done tt else rest
    tick_loop duration path (fault_update ∷ events) = tick_loop duration path events

    unfoldable pub run_benchmark_loop :
        RemoteBenchmarkDriver → o.BenchmarkParameters → List Event → Run Call Unit
    unfolding tick_loop
    run_benchmark_loop driver parameters events = do
      _ ← request w (new_session parameters) (some "Failed to start benchmark session")
      _ ←
          request w (create_dir_all (results_path driver))
            (some "Failed to create results directory")
      tick_loop (o.benchmark_duration (o.settings parameters)) (measurements_path driver parameters)
          events

    -- A step that is only taken under a condition.
    abbrev pub when : Bool → Run Call Unit → Run Call Unit
    when true m = m
    when false m = done tt

    unfoldable pub run_one :
        RemoteBenchmarkDriver → o.BenchmarkParameters → Bool → List Event → Run Call Unit
    unfolding run_benchmark_loop
    run_one driver parameters skip_testbed_configuration events = do
      _ ←
          when (not skip_testbed_configuration)
            (request w (configure parameters) (some "Configure failed"))
      _ ← request w (run_nodes parameters) (some "Deploying validators failed")
      _ ← request w (run_clients parameters) (some "Starting load generators failed")
      run_benchmark_loop driver parameters events

    -- What the first benchmark does before the others' part.
    unfoldable pub prepare : Bool → Run Call Unit
    prepare skip_testbed_update = do
      _ ← request w (cleanup true) (some "Cleanup failed")
      when (not skip_testbed_update) (do
        _ ← request w install (some "Install failed")
        request w update (some "Update failed"))

    -- The body of the loop over the benchmarks, at an index.
    unfoldable pub one_benchmark :
        RemoteBenchmarkDriver
        → Bool
        → Bool
        → (ℕ → List Event)
        → ℕ
        → o.BenchmarkParameters
        → Run Call Unit
    unfolding prepare run_one
    one_benchmark driver skip_testbed_update skip_testbed_configuration events index parameters = do
      _ ← when (index == 0) (prepare skip_testbed_update)
      _ ← request w (cleanup true) (some "Cleanup failed")
      _ ←
          when (o.monitoring driver.settings)
            (request w (start_monitoring parameters) (some "Monitoring setup failed"))
      _ ← run_one driver parameters skip_testbed_configuration (events index)
      _ ← request w (cleanup false) (some "Cleanup failed")
      when (o.log_processing driver.settings)
          (request w (download_logs parameters) (some "Failed to download logs"))

    unfoldable pub benchmarks :
        RemoteBenchmarkDriver
        → Bool
        → Bool
        → (ℕ → List Event)
        → ℕ
        → List o.BenchmarkParameters
        → Run Call Unit
    unfolding one_benchmark
    benchmarks driver skip_update skip_configuration events index [] = done tt
    benchmarks driver skip_update skip_configuration events index (parameters ∷ rest) = do
      _ ← one_benchmark driver skip_update skip_configuration events index parameters
      benchmarks driver skip_update skip_configuration events (suc index) rest

    abbrev pub load_nodes : Option PathBuf → Run Call (NodeParameters r)
    load_nodes none = done (default_node_parameters r)
    load_nodes (some path) =
        call w (load_node_parameters path) (some "Failed to load node's parameters")

    abbrev pub load_clients : Option PathBuf → Run Call ClientParameters
    load_clients none = done default_client_parameters
    load_clients (some path) =
        call w (load_client_parameters path) (some "Failed to load client's parameters")

    -- `select_instances` of the first parameters, if there are any
    abbrev pub check_capacity : List o.BenchmarkParameters → Run Call Unit
    check_capacity [] = done tt
    check_capacity (parameters ∷ rest) =
        request w (select_instances parameters) (some "Not enough instances for this benchmark")

    unfoldable pub benchmark :
        RemoteBenchmarkDriver → ℕ → List ℕ → Bool → Bool → (ℕ → List Event) → Run Call Unit
    unfolding benchmarks
    benchmark driver committee loads skip_testbed_update skip_testbed_configuration events = do
      node_parameters ← load_nodes (o.node_parameters_path driver.settings)
      client_parameters ← load_clients (o.client_parameters_path driver.settings)
      let driver' = marked driver skip_testbed_update
      let parameters_set =
          o.new_from_loads driver'.settings node_parameters client_parameters committee loads
      _ ← check_capacity parameters_set
      benchmarks driver' skip_testbed_update skip_testbed_configuration events 0 parameters_set
