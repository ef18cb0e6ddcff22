-- ===== src/Cli/Protocol/Shares.antt =====
-- The load of a benchmark, split among the nodes.
use native.Mathlib.Nat.{mul-div-le, lt-mul-div-succ}
use blockchain_validator.Prelude.{
  ℕ, ◌+◌, ◌*◌, ◌/◌, ◌≤◌, ◌<◌, ◌≡◌, ◌≢◌, ◌⊎◌, refl, sym, ap, ◌∙◌, [], arith,
}
use blockchain_validator.Outcome.{ok, ok-injective, bind-eq-ok}
use blockchain_validator.Dag.{Dag}
use blockchain_validator.Validator.Envelope.{Codec}
use blockchain_validator.Validator.Generator.{LoadGeneratorConfig, refused, load_not_positive}
use blockchain_validator.Validator.Generator
use blockchain_validator.Cli.Library.{Replica, Serializer}
use blockchain_validator.Cli.Parameters.{Orchestrator}
use blockchain_validator.Cli.Protocol.{
  ValidatorProtocol, divide, node_load, load_generator_config, generator_flag,
}

module _ (r : Replica) (o : Orchestrator r) (s : Serializer) where
  pub divided : (n divisor : ℕ) → 0 < divisor → divide n divisor ≡ ok (n / divisor)
  unfolding divide
  divided n divisor h = ground arith

  -- For a committee that is not empty, the uploaded configuration has the load of one node: the
  -- nodes together bear at most the load asked for, and less is lost than one for each node.
  pub load_generator_config-shares :
      (parameters : o.BenchmarkParameters)
      → 0 < o.nodes parameters
      → (config : LoadGeneratorConfig) × (load_generator_config r o s parameters ≡ ok config)
        × (o.nodes parameters * config.load ≤ o.load parameters)
        × (o.load parameters < o.nodes parameters * (config.load + 1))
  unfolding load_generator_config node_load
  load_generator_config-shares parameters h = (
    record (o.client_parameters parameters).config {
      load = o.load parameters / o.nodes parameters;
    },
    rw (divided (o.load parameters) (o.nodes parameters) h) refl,
    mul-div-le (o.load parameters) (o.nodes parameters),
    lt-mul-div-succ (o.load parameters) h,
  )

  -- The flag of a node against the check of the generator, on the load that both use.
  pub generator_flag-accepted :
      (d : Dag) (codec : Codec d) (protocol : ValidatorProtocol)
      (parameters : o.BenchmarkParameters) (load : ℕ) (config : LoadGeneratorConfig)
      → node_load r o s parameters ≡ ok load
      → load_generator_config r o s parameters ≡ ok config
      → ((generator_flag r o s protocol load ≡ [])
          × (Generator.start d codec config ≡ refused load_not_positive))
        ⊎ ((generator_flag r o s protocol load ≢ [])
            × (Generator.start d codec config ≢ refused load_not_positive))
  unfolding load_generator_config generator_flag Generator.start
  generator_flag-accepted d codec protocol parameters load config e e' =
      let (load', first, final) =
        bind-eq-ok (node_load r o s parameters)
          (λ load. ok (record (o.client_parameters parameters).config { load = load })) e' in
      let same : config.load ≡ load =
        sym (ap (λ (c : LoadGeneratorConfig). c.load) (ok-injective final))
        ∙ ok-injective (sym first ∙ e) in
      ground (arith, same)
