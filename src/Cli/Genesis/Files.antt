-- ===== src/Cli/Genesis/Files.antt =====
-- The files that a genesis prints are those that the nodes of a benchmark are started with.
use Prim.Native.String.{◌++◌ as ◌<>◌}
use blockchain_validator.Prelude.{
  ℕ, zero, suc, ◌+◌, ◌<◌, ◌≡◌, refl, sym, ap, subst, ◌∙◌, inl, inr, Option, none, some, List, [],
  ◌∷◌, ◌++◌, length, Some, arith,
}
use blockchain_validator.Cli.Text.{PathBuf, join_path}
use blockchain_validator.Cli.Library.{Replica, Serializer}
use blockchain_validator.Cli.Parameters.{Orchestrator}
use blockchain_validator.Cli.Protocol.{ValidatorProtocol, public_config_path, private_config_path}
use blockchain_validator.Cli.Journal.{finished, World, Run, ◌>>=◌, request}
use blockchain_validator.Cli.Journal.Binds.{bind-finished}
use blockchain_validator.Cli.Journal.Plans.{
  Step, act, calls_of, Performs, request-Performs, done-Performs, then-Performs, Performs-finished,
}
use blockchain_validator.Cli.Tracing.{Subscriber, tracing_at, with_log_file, setup}
use blockchain_validator.Cli.Args.{TestGenesisArgs}
use blockchain_validator.Cli.Genesis.{
  Call, create_file, create_dir_all, print_public, print_private, Reply, parameters_from,
  print_privates, print_configs, test_genesis,
}

module _ (r : Replica) (t : Subscriber) (w : World (Call r) (Reply r)) where
  abbrev privates : PathBuf → ℕ → List r.PrivateReplicaConfig → List (Step (Call r))
  privates directory i [] = []
  privates directory i (config ∷ rest) =
      act (create_dir_all (r.storage_path config)) (
        some (
          "Failed to create storage directory for validator "
          <> r.show_authority (r.authority_from i)))
      ∷ act (print_private (join_path directory (r.private_filename (r.authority_from i))) config)
          none
      ∷ privates directory (suc i) rest

  print_privates-Performs :
      (directory : PathBuf) (i : ℕ) (configs : List r.PrivateReplicaConfig)
      → Performs w (print_privates r t w directory i configs) (privates directory i configs)
  unfolding print_privates
  print_privates-Performs directory i [] = done-Performs w
  print_privates-Performs directory i (config ∷ rest) =
      then-Performs w {xs = act _ _ ∷ []} (request-Performs w) (
        then-Performs w {xs = act _ _ ∷ []} (request-Performs w)
          (print_privates-Performs directory (suc i) rest))

  abbrev configs : TestGenesisArgs r.IpAddr → r.ReplicaParameters → List (Step (Call r))
  configs args parameters =
      act
        (print_public (join_path args.working_directory r.public_filename)
          (r.with_parameters (r.new_public_for_benchmarks args.ips) parameters))
        none
      ∷ privates args.working_directory 0
          (r.new_private_for_benchmarks args.working_directory (length args.ips))

  -- What comes last in a genesis that finishes.
  test_genesis-configs :
      (args : TestGenesisArgs r.IpAddr) (log_level : Option t.LevelFilter)
      (log_file : Option PathBuf) (before after : List (Call r))
      → test_genesis r t w args log_level log_file before ≡ (after, finished tt)
      → (loaded : List (Call r)) × (parameters : r.ReplicaParameters) × (after
          ≡ loaded ++ calls_of (configs args parameters))
  unfolding test_genesis print_configs
  test_genesis-configs args log_level log_file before after e =
      let parts : Run (Call r) Unit =
        parameters_from r t w args.replica_parameters_path >>= print_configs r t w args in
      let in_directory : Run (Call r) Unit =
        request w (create_dir_all args.working_directory)
          (some ("Failed to create working directory '" <> args.working_directory <> "'"))
        >>= λ _. parts in
      let (_, opened, _, e1) =
        bind-finished
          (setup t (λ path. request w (create_file path))
            (with_log_file t (tracing_at t log_level) log_file))
          (λ _. in_directory) before e in
      let (_, made, _, e2) =
        bind-finished
          (request w (create_dir_all args.working_directory)
            (some ("Failed to create working directory '" <> args.working_directory <> "'")))
          (λ _. parts) opened e1 in
      let (parameters, loaded, _, e3) =
        bind-finished (parameters_from r t w args.replica_parameters_path)
          (print_configs r t w args) made e2 in
      (
        loaded,
        parameters,
        Performs-finished w loaded after
            (then-Performs w {xs = act _ _ ∷ []} (request-Performs w)
              (print_privates-Performs args.working_directory 0 _))
            e3,
      )

  among_later :
      (xs ys : List (Call r)) (c : Call r) → Some (λ y. y ≡ c) ys → Some (λ y. y ≡ c) (xs ++ ys)
  among_later [] ys c h = h
  among_later (x ∷ xs) ys c h = inr (among_later xs ys c h)

  printed :
      (directory : PathBuf) (first i : ℕ) (configs : List r.PrivateReplicaConfig)
      → i < length configs
      → (config : r.PrivateReplicaConfig) × Some
          (λ c.
            c
            ≡ print_private
                (join_path directory (r.private_filename (r.authority_from (first + i))))
                config)
          (calls_of (privates directory first configs))
  printed directory first i [] h = absurd (omega (arith, h))
  printed directory first zero (config ∷ rest) h = (
    config,
    inr (
        inl (
          ap
            (λ k.
              print_private (join_path directory (r.private_filename (r.authority_from k))) config)
            (omega arith))),
  )
  printed directory first (suc i) (config ∷ rest) h =
      let (found, there) = printed directory (suc first) i rest (omega (arith, h)) in
      (
        found,
        inr (
            inr (
              subst
                (λ k.
                  Some
                    (λ c.
                      c
                      ≡ print_private
                          (join_path directory (r.private_filename (r.authority_from k))) found)
                    (calls_of (privates directory (suc first) rest)))
                (omega arith) there)),
      )

  -- A genesis that finishes has printed all configurations that the nodes of a benchmark in its directory are
  -- started with, one for each address, where the replica crate's file names for private configurations are those that the
  -- benchmark assumes, and its configurations are one for each validator.
  pub test_genesis-provides :
      (o : Orchestrator r) (s : Serializer) (args : TestGenesisArgs r.IpAddr)
      (log_level : Option t.LevelFilter) (log_file : Option PathBuf) (before after : List (Call r))
      → ((a : r.Authority)
          → r.private_filename a ≡ "private-replica-config-" <> r.show_authority a <> ".yaml")
      → ((directory : PathBuf) (n : ℕ) → length (r.new_private_for_benchmarks directory n) ≡ n)
      → test_genesis r t w args log_level log_file before ≡ (after, finished tt)
      → let protocol : ValidatorProtocol = record { working_dir = args.working_directory } in
        ((config : r.PublicReplicaConfig) × Some
            (λ c. c ≡ print_public (public_config_path r o s protocol) config)
            after)
        × ((i : ℕ)
            → i < length args.ips
            → (config : r.PrivateReplicaConfig) × Some
                (λ c.
                  c
                  ≡ print_private (private_config_path r o s protocol (r.authority_from i)) config)
                after)
  test_genesis-provides o s args log_level log_file before after named counted e =
      let (loaded, parameters, made) =
        test_genesis-configs args log_level log_file before after e in
      (
        (
          r.with_parameters (r.new_public_for_benchmarks args.ips) parameters,
          subst (Some _) (sym made) (among_later loaded _ _ (inl refl)),
        ),
        λ i h.
            let (config, found) =
              printed args.working_directory 0 i
                (r.new_private_for_benchmarks args.working_directory (length args.ips))
                (omega (arith, h, counted args.working_directory (length args.ips))) in
            (
              config,
              subst
                  (λ name.
                    Some (λ c. c ≡ print_private (join_path args.working_directory name) config)
                      after)
                  (ap (λ k. r.private_filename (r.authority_from k)) (omega arith)
                    ∙ named (r.authority_from i))
                  (subst (Some _) (sym made) (among_later loaded _ _ (inr found))),
            ),
      )
