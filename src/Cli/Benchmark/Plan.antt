-- ===== src/Cli/Benchmark/Plan.antt =====
-- The calls of a remote benchmark, as its settings, its parameters and its ticks say them in advance.
use Prim.Native.String.{String}
use blockchain_validator.Prelude.{
  ℕ, suc, Bool, true, false, not, Option, none, some, List, [], ◌∷◌, ◌++◌, nat_eq,
}
use blockchain_validator.Cli.Text.{PathBuf}
use blockchain_validator.Cli.Library.{Replica}
use blockchain_validator.Cli.Parameters.{Orchestrator}
use blockchain_validator.Cli.Journal.Plans.{Step, act, fail, forever}
use blockchain_validator.Cli.Benchmark.{
  Call, cleanup, install, update, select_instances, start_monitoring, configure, run_nodes,
  run_clients, new_session, create_dir_all, write, download_logs, Event, interrupted, tick_failed,
  metrics_tick, fault_update, RemoteBenchmarkDriver, results_path, measurements_path, is_over,
}

module _ (r : Replica) (o : Orchestrator r) where
  abbrev pub Plan : Type 0
  Plan = List (Step (Call r o))

  abbrev pub optional : Bool → Plan → Plan
  optional true steps = steps
  optional false steps = []

  abbrev pub saves : PathBuf → Option String → Plan
  saves path none = []
  saves path (some yaml) = act (write path yaml) (some "Failed to save benchmark results") ∷ []

  abbrev pub loop_plan : ℕ → PathBuf → List (Event r o) → Plan
  loop_plan duration path [] = forever ∷ []
  loop_plan duration path (interrupted ∷ events) = []
  loop_plan duration path (tick_failed ∷ events) = fail (some "Benchmark tick failed") ∷ []
  loop_plan duration path (metrics_tick elapsed results ∷ events) =
      let rest = loop_plan duration path events in
      saves path results ++ optional (not (is_over r o duration elapsed)) rest
  loop_plan duration path (fault_update ∷ events) = loop_plan duration path events

  -- From the deployment of the nodes to the end of the session.
  abbrev pub deployment :
      RemoteBenchmarkDriver r o → List (Event r o) → o.BenchmarkParameters → Plan
  deployment driver events parameters =
      (act (run_nodes parameters) (some "Deploying validators failed") ∷ [])
      ++ ((act (run_clients parameters) (some "Starting load generators failed") ∷ [])
          ++ ((act (new_session parameters) (some "Failed to start benchmark session") ∷ [])
              ++ ((act (create_dir_all (results_path r o driver))
                      (some "Failed to create results directory")
                    ∷ [])
                  ++ loop_plan (o.benchmark_duration (o.settings parameters))
                      (measurements_path r o driver parameters) events)))

  -- A benchmark: clean machines, nodes that run, a session, machines that stop.
  abbrev pub round :
      RemoteBenchmarkDriver r o → Bool → List (Event r o) → o.BenchmarkParameters → Plan
  round driver skip_configuration events parameters =
      (act (cleanup true) (some "Cleanup failed") ∷ [])
      ++ (optional (o.monitoring driver.settings)
            (act (start_monitoring parameters) (some "Monitoring setup failed") ∷ [])
          ++ ((optional (not skip_configuration)
                  (act (configure parameters) (some "Configure failed") ∷ [])
                ++ deployment driver events parameters)
              ++ ((act (cleanup false) (some "Cleanup failed") ∷ [])
                  ++ optional (o.log_processing driver.settings)
                      (act (download_logs parameters) (some "Failed to download logs") ∷ []))))

  abbrev pub rounds :
      RemoteBenchmarkDriver r o
      → Bool
      → (ℕ → List (Event r o))
      → ℕ
      → List o.BenchmarkParameters
      → Plan
  rounds driver skip_configuration events index [] = []
  rounds driver skip_configuration events index (parameters ∷ rest) =
      round driver skip_configuration (events index) parameters
      ++ rounds driver skip_configuration events (suc index) rest

  -- One check and one preparation of the machines, then round after round.
  abbrev pub plan :
      RemoteBenchmarkDriver r o
      → Bool
      → Bool
      → (ℕ → List (Event r o))
      → List o.BenchmarkParameters
      → Plan
  plan driver skip_update skip_configuration events [] = []
  plan driver skip_update skip_configuration events (parameters ∷ rest) =
      (act (select_instances parameters) (some "Not enough instances for this benchmark") ∷ [])
      ++ (((act (cleanup true) (some "Cleanup failed") ∷ [])
            ++ optional (not skip_update)
                (act install (some "Install failed") ∷ act update (some "Update failed") ∷ []))
          ++ rounds driver skip_configuration events 0 (parameters ∷ rest))
