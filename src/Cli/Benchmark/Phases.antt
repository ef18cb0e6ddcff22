-- ===== src/Cli/Benchmark/Phases.antt =====
-- The calls of a remote benchmark are known in advance, but for the parameters that it loads.
use Prim.Native.String.{String}
use mathlib.Core.List.{append_assoc}
use blockchain_validator.Prelude.{
  ℕ, suc, Bool, true, false, not, Option, none, some, List, [], ◌∷◌, ◌++◌, ◌≡◌, refl, sym, subst,
  ◌∙◌, if◌then◌else◌, ◌==◌, nat_eq, arith,
}
use blockchain_validator.Cli.Text.{PathBuf}
use blockchain_validator.Cli.Library.{Replica}
use blockchain_validator.Cli.Parameters.{NodeParameters, ClientParameters, Orchestrator}
use blockchain_validator.Cli.Journal.{finished, World, Run, continue, ◌>>=◌, done}
use blockchain_validator.Cli.Journal.Binds.{both, known_both}
use blockchain_validator.Cli.Journal.Plans.{
  act, calls_of, perform-IsFront, IsFront, Performs, request-Performs, done-Performs, then-Performs,
}
use blockchain_validator.Cli.Benchmark.Plan.{
  Plan, optional, saves, loop_plan, deployment, round, rounds, plan,
}
use blockchain_validator.Cli.Benchmark.{
  Call, cleanup, install, update, configure, Reply, Event, interrupted, tick_failed, metrics_tick,
  fault_update, RemoteBenchmarkDriver, measurements_path, is_over, save, tick_loop,
  run_benchmark_loop, when, run_one, prepare, one_benchmark, benchmarks, load_nodes, load_clients,
  check_capacity, marked, benchmark,
}

module _ (r : Replica) (o : Orchestrator r) where
  module _ (w : World (Call r o) (Reply r o)) where
    when-Performs :
        (b : Bool) {m : Run (Call r o) Unit} {steps : Plan r o}
        → Performs w m steps
        → Performs w (when r o w b m) (optional r o b steps)
    when-Performs true h = h
    when-Performs false h = done-Performs w

    when_known :
        {b known : Bool} {m : Run (Call r o) Unit} {steps : Plan r o}
        → b ≡ known
        → Performs w m steps
        → Performs w (when r o w b m) (optional r o known steps)
    when_known {b} {m} {steps} e h =
        subst (λ c. Performs w (when r o w b m) (optional r o c steps)) e (when-Performs b h)

    save-Performs :
        (path : PathBuf) (results : Option String)
        → Performs w (save r o w path results) (saves r o path results)
    save-Performs path none = done-Performs w
    save-Performs path (some yaml) = request-Performs w

    tick_loop-Performs :
        (duration : ℕ) (path : PathBuf) (events : List (Event r o))
        → Performs w (tick_loop r o w duration path events) (loop_plan r o duration path events)
    unfolding tick_loop continue
    tick_loop-Performs duration path [] = record { same = λ before. refl }
    tick_loop-Performs duration path (interrupted ∷ events) = record { same = λ before. refl }
    tick_loop-Performs duration path (tick_failed ∷ events) = record { same = λ before. refl }
    tick_loop-Performs duration path (fault_update ∷ events) =
        tick_loop-Performs duration path events
    tick_loop-Performs duration path (metrics_tick elapsed results ∷ events) =
        then-Performs w (save-Performs path results)
          (by_end (is_over r o duration elapsed) (tick_loop-Performs duration path events))
      where
        by_end :
            (over : Bool)
            → Performs w (tick_loop r o w duration path events) (loop_plan r o duration path events)
            → Performs w
                (if over then done tt else tick_loop r o w duration path events)
                (optional r o (not over) (loop_plan r o duration path events))
        by_end true h = done-Performs w
        by_end false h = h

    prepare-Performs :
        (skip_update : Bool)
        → Performs w (prepare r o w skip_update) (
            (act (cleanup true) (some "Cleanup failed") ∷ [])
            ++ optional r o
                (not skip_update)
                (act install (some "Install failed") ∷ act update (some "Update failed") ∷ []))
    unfolding prepare
    prepare-Performs skip_update = then-Performs w (request-Performs w) (
        when-Performs (not skip_update) (then-Performs w (request-Performs w) (request-Performs w)))

    module _ (driver : RemoteBenchmarkDriver r o) (skip_update skip_configuration : Bool)
        (events : ℕ → List (Event r o)) where
      run_one-Performs :
          (own : List (Event r o)) (parameters : o.BenchmarkParameters)
          → Performs w (run_one r o w driver parameters skip_configuration own) (
              optional r o
                (not skip_configuration)
                (act (configure parameters) (some "Configure failed") ∷ [])
              ++ deployment r o driver own parameters)
      unfolding run_one run_benchmark_loop
      run_one-Performs own parameters =
          then-Performs w (when-Performs (not skip_configuration) (request-Performs w)) (
            then-Performs w (request-Performs w) (
              then-Performs w (request-Performs w) (
                then-Performs w (request-Performs w) (
                  then-Performs w (request-Performs w) (
                    tick_loop-Performs (o.benchmark_duration (o.settings parameters))
                      (measurements_path r o driver parameters) own)))))

      one_benchmark-Performs :
          (index : ℕ) (parameters : o.BenchmarkParameters) (first : Bool)
          → (index == 0) ≡ first
          → Performs w
              (one_benchmark r o w driver skip_update skip_configuration events index parameters)
              (optional r o first (
                  (act (cleanup true) (some "Cleanup failed") ∷ [])
                  ++ optional r o (not skip_update) (
                      act install (some "Install failed") ∷ act update (some "Update failed") ∷ []))
                ++ round r o driver skip_configuration (events index) parameters)
      unfolding one_benchmark
      one_benchmark-Performs index parameters first e =
          then-Performs w (when_known e (prepare-Performs skip_update)) (
            then-Performs w (request-Performs w) (
              then-Performs w (when-Performs (o.monitoring driver.settings) (request-Performs w)) (
                then-Performs w (run_one-Performs (events index) parameters) (
                  then-Performs w (request-Performs w)
                    (when-Performs (o.log_processing driver.settings) (request-Performs w))))))

      benchmarks-Performs :
          (index : ℕ) (parameters_set : List o.BenchmarkParameters)
          → Performs w
              (benchmarks r o w driver skip_update skip_configuration events
                (suc index)
                parameters_set)
              (rounds r o driver skip_configuration events (suc index) parameters_set)
      unfolding benchmarks
      benchmarks-Performs index [] = done-Performs w
      benchmarks-Performs index (parameters ∷ rest) =
          then-Performs w (one_benchmark-Performs (suc index) parameters false (ground arith))
            (benchmarks-Performs (suc index) rest)

      all-Performs :
          (parameters_set : List o.BenchmarkParameters)
          → Performs w
              (check_capacity r o w parameters_set >>= λ _.
                benchmarks r o w driver skip_update skip_configuration events 0 parameters_set)
              (plan r o driver skip_update skip_configuration events parameters_set)
      unfolding benchmarks continue
      all-Performs [] = done-Performs w
      all-Performs (parameters ∷ rest) = then-Performs w (request-Performs w) (
          subst (Performs w _)
            (append_assoc
              ((act (cleanup true) (some "Cleanup failed") ∷ [])
                ++ optional r o (not skip_update)
                    (act install (some "Install failed") ∷ act update (some "Update failed") ∷ []))
              _ _)
            (then-Performs w (one_benchmark-Performs 0 parameters true (ground arith))
              (benchmarks-Performs 0 rest)))

    -- The parameters that are loaded first.
    abbrev pub load_parameters :
        RemoteBenchmarkDriver r o → Run (Call r o) (NodeParameters r × ClientParameters)
    load_parameters driver =
        both (load_nodes r o w (o.node_parameters_path driver.settings))
          (λ _. load_clients r o w (o.client_parameters_path driver.settings))

    -- Where the parameter files load, a remote benchmark makes the calls of its plan, in order: a check of the capacity,
    -- one preparation of the machines, and for each load clean machines, nodes and clients that run, a session, and machines
    -- that are stopped. It makes a front of these, whatever fails, and all of them if it finishes.
    pub benchmark-IsFront :
        (driver : RemoteBenchmarkDriver r o) (committee : ℕ) (loads : List ℕ)
        (skip_update skip_configuration : Bool) (events : ℕ → List (Event r o))
        (before loaded : List (Call r o)) (node_parameters : NodeParameters r)
        (client_parameters : ClientParameters)
        → load_parameters driver before ≡ (loaded, finished (node_parameters, client_parameters))
        → let driver' = marked r o driver skip_update in
          IsFront loaded
            (calls_of (
              plan r o driver' skip_update skip_configuration events (
                o.new_from_loads driver'.settings node_parameters client_parameters committee
                  loads)))
            (benchmark r o w driver committee loads skip_update skip_configuration events before)
    unfolding benchmark
    benchmark-IsFront driver committee loads skip_update skip_configuration events before loaded n c
          e =
        let driver' = marked r o driver skip_update in
        let set = o.new_from_loads driver'.settings n c committee loads in
        let steps = plan r o driver' skip_update skip_configuration events set in
        subst (IsFront loaded (calls_of steps))
          (sym ((all-Performs driver' skip_update skip_configuration events set).same loaded)
            ∙ sym (
                known_both (load_nodes r o w (o.node_parameters_path driver.settings))
                  (λ _. load_clients r o w (o.client_parameters_path driver.settings))
                  (λ n c.
                    let set = o.new_from_loads driver'.settings n c committee loads in
                    check_capacity r o w set >>= λ _.
                    benchmarks r o w driver' skip_update skip_configuration events 0 set)
                  before loaded n c e))
          (perform-IsFront w steps loaded)
