-- ===== src/Cli/Benchmark/Scope.antt =====
-- What the calls of a remote benchmark are for.
use Prim.Native.String.{String}
use blockchain_validator.Prelude.{
  ℕ, suc, ◌≡◌, refl, Bool, true, false, not, Option, none, some, List, [], ◌∷◌, All, Some, All-self,
  if◌then◌else◌, ◌==◌, nat_eq,
}
use blockchain_validator.Cli.Text.{PathBuf}
use blockchain_validator.Cli.Library.{Replica}
use blockchain_validator.Cli.Parameters.{
  NodeParameters, ClientParameters, default_node_parameters, default_client_parameters,
  Orchestrator,
}
use blockchain_validator.Cli.Journal.{World, Run, done, request}
use blockchain_validator.Cli.Journal.Contracts.{
  Ensures, done-Ensures, stop-Ensures, wait-Ensures, Ensures-weaken, bind-Ensures, call-Answers,
  request-Ensures,
}
use blockchain_validator.Cli.Benchmark.{
  Call, load_node_parameters, load_client_parameters, select_instances, cleanup, install, update,
  start_monitoring, configure, run_nodes, run_clients, new_session, create_dir_all, write,
  download_logs, Reply, Event, interrupted, tick_failed, metrics_tick, fault_update,
  RemoteBenchmarkDriver, marked, measurements_path, is_over, save, tick_loop, run_benchmark_loop,
  when, run_one, prepare, one_benchmark, benchmarks, load_nodes, load_clients, check_capacity,
  benchmark,
}

not-true : (b : Bool) → not b ≡ true → b ≡ false
not-true true e = cc e
not-true false e = refl

module _ (r : Replica) (o : Orchestrator r) (driver : RemoteBenchmarkDriver r o) (committee : ℕ)
    (loads : List ℕ) (skip_update skip_configuration : Bool) (Nodes : NodeParameters r → Type 0)
    (Clients : ClientParameters → Type 0) where
  -- Parameters of the committee and the loads, over the driver's settings.
  abbrev pub IsOwn : o.BenchmarkParameters → Type 0
  IsOwn parameters =
      (n : NodeParameters r) × Nodes n
      × (c : ClientParameters) × Clients c
      × Some (λ own. own ≡ parameters)
          (o.new_from_loads (marked r o driver skip_update).settings n c committee loads)

  -- A call is for parameters of the benchmark, and is none of a step that is skipped.
  abbrev pub Within : Call r o → Type 0
  Within (load_node_parameters path) = o.node_parameters_path driver.settings ≡ some path
  Within (load_client_parameters path) = o.client_parameters_path driver.settings ≡ some path
  Within (select_instances parameters) = IsOwn parameters
  Within (cleanup delete) = Unit
  Within install = skip_update ≡ false
  Within update = skip_update ≡ false
  Within (start_monitoring parameters) = IsOwn parameters
  Within (configure parameters) = (skip_configuration ≡ false) × IsOwn parameters
  Within (run_nodes parameters) = IsOwn parameters
  Within (run_clients parameters) = IsOwn parameters
  Within (new_session parameters) = IsOwn parameters
  Within (create_dir_all path) = Unit
  Within (write path yaml) = Unit
  Within (download_logs parameters) = IsOwn parameters

  module _ (w : World (Call r o) (Reply r o)) where
    abbrev Stays : Run (Call r o) Unit → Type 0
    Stays = Ensures Within (λ _. Unit)

    asked : (c : Call r o) (context : Option String) → Within c → Stays (request w c context)
    asked c context h = request-Ensures Within w c context h

    when-Stays :
        (b : Bool) {m : Run (Call r o) Unit} → (b ≡ true → Stays m) → Stays (when r o w b m)
    when-Stays true h = h refl
    when-Stays false h = done-Ensures Within tt

    save-Stays : (path : PathBuf) (results : Option String) → Stays (save r o w path results)
    save-Stays path none = done-Ensures Within tt
    save-Stays path (some yaml) = asked _ _ tt

    end-Stays :
        (over : Bool) {rest : Run (Call r o) Unit}
        → Stays rest
        → Stays (if over then done tt else rest)
    end-Stays true h = done-Ensures Within tt
    end-Stays false h = h

    tick_loop-Stays :
        (duration : ℕ) (path : PathBuf) (events : List (Event r o))
        → Stays (tick_loop r o w duration path events)
    unfolding tick_loop
    tick_loop-Stays duration path [] = wait-Ensures Within
    tick_loop-Stays duration path (interrupted ∷ events) = done-Ensures Within tt
    tick_loop-Stays duration path (tick_failed ∷ events) = stop-Ensures Within
    tick_loop-Stays duration path (fault_update ∷ events) = tick_loop-Stays duration path events
    tick_loop-Stays duration path (metrics_tick elapsed results ∷ events) =
        bind-Ensures Within (save-Stays path results)
          (λ _ _. end-Stays (is_over r o duration elapsed) (tick_loop-Stays duration path events))

    prepare-Stays : Stays (prepare r o w skip_update)
    unfolding prepare
    prepare-Stays = bind-Ensures Within (asked _ _ tt) (λ _ _. when-Stays (not skip_update) (λ e.
        bind-Ensures Within (asked _ _ (not-true skip_update e))
          (λ _ _. asked _ _ (not-true skip_update e))))

    module _ (events : ℕ → List (Event r o)) where
      abbrev own : RemoteBenchmarkDriver r o
      own = marked r o driver skip_update

      run_one-Stays :
          (ticks : List (Event r o)) (parameters : o.BenchmarkParameters)
          → IsOwn parameters
          → Stays (run_one r o w own parameters skip_configuration ticks)
      unfolding run_one run_benchmark_loop
      run_one-Stays ticks parameters h =
          bind-Ensures Within
            (when-Stays (not skip_configuration)
              (λ e. asked _ _ (not-true skip_configuration e, h)))
            (λ _ _. bind-Ensures Within (asked _ _ h) (λ _ _.
              bind-Ensures Within (asked _ _ h) (λ _ _. bind-Ensures Within (asked _ _ h) (λ _ _.
                bind-Ensures Within (asked _ _ tt) (λ _ _.
                  tick_loop-Stays (o.benchmark_duration (o.settings parameters))
                    (measurements_path r o own parameters) ticks)))))

      one_benchmark-Stays :
          (index : ℕ) (parameters : o.BenchmarkParameters)
          → IsOwn parameters
          → Stays (one_benchmark r o w own skip_update skip_configuration events index parameters)
      unfolding one_benchmark
      one_benchmark-Stays index parameters h =
          bind-Ensures Within (when-Stays (index == 0) (λ _. prepare-Stays)) (λ _ _.
            bind-Ensures Within (asked _ _ tt) (λ _ _.
              bind-Ensures Within (when-Stays (o.monitoring own.settings) (λ _. asked _ _ h))
                (λ _ _. bind-Ensures Within (run_one-Stays (events index) parameters h) (λ _ _.
                  bind-Ensures Within (asked _ _ tt)
                    (λ _ _. when-Stays (o.log_processing own.settings) (λ _. asked _ _ h))))))

      benchmarks-Stays :
          (index : ℕ) (parameters_set : List o.BenchmarkParameters)
          → All IsOwn parameters_set
          → Stays (benchmarks r o w own skip_update skip_configuration events index parameters_set)
      unfolding benchmarks
      benchmarks-Stays index [] h = done-Ensures Within tt
      benchmarks-Stays index (parameters ∷ rest) h =
          bind-Ensures Within (one_benchmark-Stays index parameters h.0)
            (λ _ _. benchmarks-Stays (suc index) rest h.1)

      capacity-Stays :
          (parameters_set : List o.BenchmarkParameters)
          → All IsOwn parameters_set
          → Stays (check_capacity r o w parameters_set)
      capacity-Stays [] h = done-Ensures Within tt
      capacity-Stays (parameters ∷ rest) h = asked _ _ h.0

      all-IsOwn :
          (n : NodeParameters r) (c : ClientParameters)
          → Nodes n
          → Clients c
          → (set : List o.BenchmarkParameters)
          → All (λ p. Some (λ q. q ≡ p) (o.new_from_loads own.settings n c committee loads)) set
          → All IsOwn set
      all-IsOwn n c hn hc [] h = tt
      all-IsOwn n c hn hc (p ∷ set) h = ((n, hn, c, hc, h.0), all-IsOwn n c hn hc set h.1)

      -- A benchmark whose parameters are loaded, or the default ones.
      pub benchmark-Stays :
          ((path : PathBuf) (before : List (Call r o)) (n : NodeParameters r)
            → o.node_parameters_path driver.settings ≡ some path
            → w.answer before (load_node_parameters path) ≡ some n
            → Nodes n)
          → (o.node_parameters_path driver.settings ≡ none → Nodes (default_node_parameters r))
          → ((path : PathBuf) (before : List (Call r o)) (c : ClientParameters)
              → o.client_parameters_path driver.settings ≡ some path
              → w.answer before (load_client_parameters path) ≡ some c
              → Clients c)
          → (o.client_parameters_path driver.settings ≡ none → Clients default_client_parameters)
          → Stays (benchmark r o w driver committee loads skip_update skip_configuration events)
      unfolding benchmark
      benchmark-Stays nodes no_nodes clients no_clients =
          bind-Ensures Within (nodes_from (o.node_parameters_path driver.settings) refl) (λ n hn.
            bind-Ensures Within (clients_from (o.client_parameters_path driver.settings) refl)
              (λ c hc.
                let set = o.new_from_loads own.settings n c committee loads in
                let h = all-IsOwn n c hn hc set (All-self set) in
                bind-Ensures Within (capacity-Stays set h) (λ _ _. benchmarks-Stays 0 set h)))
        where
          nodes_from :
              (path : Option PathBuf)
              → o.node_parameters_path driver.settings ≡ path
              → Ensures Within Nodes (load_nodes r o w path)
          nodes_from none e = done-Ensures Within (no_nodes e)
          nodes_from (some path) e =
              Ensures-weaken Within (λ n h. nodes path h.0 n e h.1)
                (call-Answers Within w (load_node_parameters path) _ e)

          clients_from :
              (path : Option PathBuf)
              → o.client_parameters_path driver.settings ≡ path
              → Ensures Within Clients (load_clients r o w path)
          clients_from none e = done-Ensures Within (no_clients e)
          clients_from (some path) e =
              Ensures-weaken Within (λ c h. clients path h.0 c e h.1)
                (call-Answers Within w (load_client_parameters path) _ e)
