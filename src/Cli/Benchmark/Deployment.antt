-- ===== src/Cli/Benchmark/Deployment.antt =====
-- Nodes are only deployed on machines where none run.
use Prim.Native.String.{String}
use mathlib.Core.List.{append_assoc}
use blockchain_validator.Prelude.{
  ℕ, suc, ◌≡◌, refl, sym, subst, Bool, true, false, not, Option, none, some, List, [], ◌∷◌, ◌++◌,
}
use blockchain_validator.Cli.Text.{PathBuf}
use blockchain_validator.Cli.Library.{Replica}
use blockchain_validator.Cli.Parameters.{NodeParameters, ClientParameters, Orchestrator}
use blockchain_validator.Cli.Journal.{finished, World}
use blockchain_validator.Cli.Journal.Plans.{act, calls_of}
use blockchain_validator.Cli.Benchmark.{
  Call, cleanup, install, update, start_monitoring, configure, run_nodes, download_logs, Reply,
  Event, interrupted, tick_failed, metrics_tick, fault_update, RemoteBenchmarkDriver,
  measurements_path, is_over, marked, benchmark,
}
use blockchain_validator.Cli.Benchmark.Plan.{
  Plan, optional, saves, loop_plan, deployment, round, rounds, plan,
}
use blockchain_validator.Cli.Benchmark.Phases.{load_parameters, benchmark-IsFront}

module _ (r : Replica) (o : Orchestrator r) where
  -- Whether nodes run on the machines after a call.
  abbrev pub running_after : Bool → Call r o → Bool
  running_after running (cleanup delete) = false
  running_after running (run_nodes parameters) = true
  running_after running _ = running

  abbrev pub IsAllowed : Bool → Call r o → Type 0
  IsAllowed running (run_nodes parameters) = running ≡ false
  IsAllowed running _ = Unit

  -- Each deployment of the calls finds no nodes that run.
  abbrev pub DeploysCleanly : Bool → List (Call r o) → Type 0
  DeploysCleanly running [] = Unit
  DeploysCleanly running (c ∷ calls) =
      IsAllowed running c × DeploysCleanly (running_after running c) calls

  DeploysCleanly-front :
      (running : Bool) (front rest : List (Call r o))
      → DeploysCleanly running (front ++ rest)
      → DeploysCleanly running front
  DeploysCleanly-front running [] rest h = tt
  DeploysCleanly-front running (c ∷ front) rest h =
      (h.0, DeploysCleanly-front (running_after running c) front rest h.1)

  abbrev IsClean : Bool → Plan r o → Type 0
  IsClean running steps = DeploysCleanly running (calls_of steps)

  -- Whatever runs before.
  abbrev IsCleaning : Plan r o → Type 0
  IsCleaning steps = (running : Bool) → IsClean running steps

  loop_first :
      (duration : ℕ) (path : PathBuf) (events : List (Event r o)) (rest : Plan r o)
      → IsCleaning rest
      → IsCleaning (loop_plan r o duration path events ++ rest)
  loop_first duration path [] rest h running = tt
  loop_first duration path (interrupted ∷ events) rest h running = h running
  loop_first duration path (tick_failed ∷ events) rest h running = tt
  loop_first duration path (fault_update ∷ events) rest h running =
      loop_first duration path events rest h running
  loop_first duration path (metrics_tick elapsed results ∷ events) rest h running =
      by_end results (not (is_over r o duration elapsed))
        (loop_first duration path events rest h running)
    where
      by_end :
          (results : Option String) (on : Bool)
          → IsClean running (loop_plan r o duration path events ++ rest)
          → IsClean running (
              (saves r o path results ++ optional r o on (loop_plan r o duration path events))
              ++ rest)
      by_end none true k = k
      by_end none false k = h running
      by_end (some yaml) true k = (tt, k)
      by_end (some yaml) false k = (tt, h running)

  module _ (driver : RemoteBenchmarkDriver r o) (skip_configuration : Bool)
      (events : List (Event r o)) (parameters : o.BenchmarkParameters) (rest : Plan r o)
      (h : IsCleaning rest) where
    abbrev logs : Bool → Plan r o
    logs on = optional r o on (act (download_logs parameters) (some "Failed to download logs") ∷ [])

    -- The loop of a benchmark with what comes behind it.
    abbrev session : Plan r o
    session =
        loop_plan r o (o.benchmark_duration (o.settings parameters))
          (measurements_path r o driver parameters) events

    stopped_first :
        (on : Bool) → IsCleaning ((act (cleanup false) (some "Cleanup failed") ∷ logs on) ++ rest)
    stopped_first true running = (tt, (tt, h false))
    stopped_first false running = (tt, h false)

    session_first :
        (on : Bool)
        → IsClean true
            ((session ++ (act (cleanup false) (some "Cleanup failed") ∷ logs on)) ++ rest)
    session_first on =
        subst (IsClean true) (sym (append_assoc session _ rest))
          (loop_first _ _ events _ (stopped_first on) true)

    -- What stands between the cleaning and the deployment.
    deployed_first :
        (monitored configured : Bool) (context context' : Option String) (nodes tail : Plan r o)
        → IsClean false ((nodes ++ tail) ++ rest)
        → IsClean false (
            (optional r o monitored (act (start_monitoring parameters) context ∷ [])
              ++ ((optional r o configured (act (configure parameters) context' ∷ []) ++ nodes)
                  ++ tail))
            ++ rest)
    deployed_first true true context context' nodes tail k = (tt, (tt, k))
    deployed_first true false context context' nodes tail k = (tt, k)
    deployed_first false true context context' nodes tail k = (tt, k)
    deployed_first false false context context' nodes tail k = k

    round_first : IsCleaning (round r o driver skip_configuration events parameters ++ rest)
    round_first running = (
      tt,
      deployed_first (o.monitoring driver.settings) (not skip_configuration)
          (some "Monitoring setup failed") (some "Configure failed")
          (deployment r o driver events parameters)
          (act (cleanup false) (some "Cleanup failed") ∷ logs (o.log_processing driver.settings))
          (refl, (tt, (tt, (tt, session_first (o.log_processing driver.settings))))),
    )

  module _ (driver : RemoteBenchmarkDriver r o) (skip_update skip_configuration : Bool)
      (events : ℕ → List (Event r o)) where
    rounds_clean :
        (index : ℕ) (parameters_set : List o.BenchmarkParameters)
        → IsCleaning (rounds r o driver skip_configuration events index parameters_set)
    rounds_clean index [] running = tt
    rounds_clean index (parameters ∷ rest) running =
        round_first driver skip_configuration (events index) parameters
          (rounds r o driver skip_configuration events (suc index) rest)
          (rounds_clean (suc index) rest) running

    prepared :
        (b : Bool) (context context' : Option String) (rest : Plan r o)
        → IsCleaning rest
        → IsCleaning (optional r o b (act install context ∷ act update context' ∷ []) ++ rest)
    prepared true context context' rest h running = (tt, (tt, h running))
    prepared false context context' rest h running = h running

    plan_clean :
        (parameters_set : List o.BenchmarkParameters)
        → IsCleaning (plan r o driver skip_update skip_configuration events parameters_set)
    plan_clean [] running = tt
    plan_clean (parameters ∷ rest) running = (
      tt,
      (
        tt,
        prepared (not skip_update) (some "Install failed") (some "Update failed") _
            (rounds_clean 0 (parameters ∷ rest)) false,
      ),
    )

  -- Whatever runs on the machines at first, whatever fails, and wherever a benchmark is interrupted or ends: behind
  -- the loading of its parameters, a remote benchmark deploys nodes only on machines that it has cleaned
  -- since nodes were last deployed there.
  pub benchmark-DeploysCleanly :
      (w : World (Call r o) (Reply r o)) (driver : RemoteBenchmarkDriver r o) (committee : ℕ)
      (loads : List ℕ) (skip_update skip_configuration : Bool) (events : ℕ → List (Event r o))
      (before loaded : List (Call r o)) (node_parameters : NodeParameters r)
      (client_parameters : ClientParameters) (running : Bool)
      → load_parameters r o w driver before
        ≡ (loaded, finished (node_parameters, client_parameters))
      → (made : List (Call r o)) × ((benchmark r o w driver committee loads skip_update
            skip_configuration events before).0
          ≡ loaded ++ made)
        × DeploysCleanly running made
  benchmark-DeploysCleanly w driver committee loads skip_update skip_configuration events before
        loaded n c running e =
      let driver' = marked r o driver skip_update in
      let h =
        benchmark-IsFront r o w driver committee loads skip_update skip_configuration events before
          loaded n c e in
      (
        h.front,
        h.made,
        DeploysCleanly-front running h.front h.rest (
            subst (DeploysCleanly running) h.whole (
              plan_clean driver' skip_update skip_configuration events
                (o.new_from_loads driver'.settings n c committee loads) running)),
      )
