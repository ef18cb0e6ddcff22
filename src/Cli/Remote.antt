-- ===== src/Cli/Remote.antt =====
-- `RemoteTestbedDriver` of crates/cli/src/remote.rs with the `remote_testbed` command of
-- crates/cli/src/commands/remote_testbed.rs. The methods of the testbed, of the two provider clients
-- and of the file system are calls, as is what goes to the standard output.
pub mod Scope
use Prim.Native.String.{String, ◌++◌ as ◌<>◌}
use blockchain_validator.Prelude.{
  ℕ, Bool, true, false, Option, none, some, List, [], ◌∷◌, ◌++◌, map,
}
use blockchain_validator.Cli.Text.{PathBuf, decimal}
use blockchain_validator.Cli.Library.{Replica}
use blockchain_validator.Cli.Parameters.{Orchestrator}
use blockchain_validator.Cli.Journal.{Result, World, Run, ◌>>=◌, call, request, done}
use blockchain_validator.Cli.Tracing.{Subscriber, tracing_at, with_log_file, setup}
use blockchain_validator.Cli.Args.{
  RemoteTestbedCommand, status, create, start, stop, destroy, benchmark, RemoteTestbedArgs,
}
use blockchain_validator.Cli.Benchmark.{Event, RemoteBenchmarkDriver, new_driver}
use blockchain_validator.Cli.Benchmark

-- `Testbed::status`
pub record InstanceStatus : Type 0 where
  pub active : Bool
  pub connect_command : String

pub record RegionStatus : Type 0 where
  pub region : String
  pub instances : List InstanceStatus

pub record TestbedStatus : Type 0 where
  pub client_summary : String
  pub active_count : ℕ
  pub repository_url : String
  pub repository_commit : String
  pub regions : List RegionStatus

-- `CloudProvider`
pub data Provider : Type 0 where
  aws custom : Provider

abbrev pub instance_line : InstanceStatus → String
instance_line instance' =
    "  ["
    <> (elim instance'.active [ true ↦ "active" | false ↦ "stopped" ])
    <> "] "
    <> instance'.connect_command

abbrev pub instance_lines : List InstanceStatus → List String
instance_lines [] = []
instance_lines (instance' ∷ rest) = instance_line instance' ∷ instance_lines rest

abbrev pub region_lines : List RegionStatus → List String
region_lines [] = []
region_lines (region ∷ rest) =
    (region.region <> ":") ∷ (instance_lines region.instances ++ region_lines rest)

abbrev pub status_lines : TestbedStatus → List String
status_lines testbed =
    (testbed.client_summary <> " (" <> decimal testbed.active_count <> " active)")
    ∷ ("repository: " <> testbed.repository_url <> " @ " <> testbed.repository_commit)
    ∷ region_lines testbed.regions

module _ (r : Replica) (o : Orchestrator r) where
  pub data Call : Type 0 where
    create_file : PathBuf → Call
    load_settings : String → Call
    new_client : Provider → Call
    new_testbed : Call
    testbed_status : Call
    println : String → Call
    create_instances : ℕ → Option String → Call
    start_instances : ℕ → Call
    stop_instances : Call
    destroy_testbed : Call
    setup_commands : Call
    username : Call
    in_benchmark : Benchmark.Call r o → Call

  abbrev pub Reply : Call → Type 0
  Reply (load_settings path) = o.Settings × Provider
  Reply testbed_status = TestbedStatus
  Reply username = String
  Reply (in_benchmark c) = Benchmark.Reply r o c
  Reply _ = Unit

  abbrev pub extend :
      {A : Type 0} → List Call → List (Benchmark.Call r o) × Result A → List Call × Result A
  extend before (calls, result) = (before ++ map in_benchmark calls, result)

  -- The driver keeps its settings.
  pub record RemoteTestbedDriver : Type 0 where
    pub settings : o.Settings

  module _ (w : World Call Reply) where
    -- The world as a benchmark meets it.
    abbrev pub world_after : List Call → World (Benchmark.Call r o) (Benchmark.Reply r o)
    world_after before = record {
      answer = λ calls c. w.answer (before ++ map in_benchmark calls) (in_benchmark c);
    }

    abbrev pub benchmark_run :
        {A : Type 0}
        → (World (Benchmark.Call r o) (Benchmark.Reply r o) → Run (Benchmark.Call r o) A)
        → Run Call A
    benchmark_run run before = extend before (run (world_after before) [])

    unfoldable pub print_lines : List String → Run Call Unit
    print_lines [] = done tt
    print_lines (line ∷ lines) = do _ ← request w (println line) none; print_lines lines

    abbrev pub new_testbed_driver : o.Settings → Run Call RemoteTestbedDriver
    new_testbed_driver settings = do
      _ ← request w new_testbed (some "Failed to create testbed")
      done (record { settings = settings })

    -- `RemoteTestbedDriver::run`; the events are those of the benchmarks.
    unfoldable pub run :
        RemoteTestbedDriver → (ℕ → List (Event r o)) → RemoteTestbedCommand → Run Call Unit
    unfolding print_lines
    run driver events status = do
      testbed ← call w testbed_status none
      print_lines (status_lines testbed)
    run driver events (create instances region) =
        request w (create_instances instances region) (some "Failed to create testbed")
    run driver events (start instances) =
        request w (start_instances instances) (some "Failed to start testbed")
    run driver events stop = request w stop_instances (some "Failed to stop testbed")
    run driver events destroy = request w destroy_testbed (some "Failed to destroy testbed")
    run driver events (benchmark committee loads skip_update skip_configuration) = do
      _ ← request w setup_commands (some "Failed to load testbed setup commands")
      name ← call w username none
      benchmark_run (λ inner.
          Benchmark.benchmark r o inner (new_driver r o driver.settings name) committee loads
            skip_update skip_configuration events)

    unfoldable pub remote_testbed :
        (t : Subscriber)
        → RemoteTestbedArgs
        → Option t.LevelFilter
        → Option PathBuf
        → (ℕ → List (Event r o))
        → Run Call Unit
    unfolding run
    remote_testbed t args log_level log_file events = do
      _ ←
          setup t (λ path. request w (create_file path))
            (with_log_file t (tracing_at t log_level) log_file)
      (settings, provider) ←
          call w (load_settings args.settings_path) (some "Failed to load settings")
      _ ← request w (new_client provider) none
      driver ← new_testbed_driver settings
      run driver events args.command
