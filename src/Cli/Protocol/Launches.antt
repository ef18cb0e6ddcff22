-- ===== src/Cli/Protocol/Launches.antt =====
-- The commands that start the nodes of a benchmark, and the paths that are scraped from them.
use Prim.Native.Nat.compare
use Prim.Native.String.{String, ◌++◌ as ◌<>◌}
use blockchain_validator.Prelude.{
  ℕ, zero, suc, ◌+◌, ◌/◌, ◌<◌, ◌≡◌, refl, ap, ◌∙◌, Option, none, some, List, [], ◌∷◌, map, arith,
  length, length-map, zip,
}
use blockchain_validator.Outcome.{ok}
use blockchain_validator.Validator.Generator.{load_generator_config_filename}
use blockchain_validator.Cli.Text.{join_path, join_texts, decimal}
use blockchain_validator.Cli.Library.{Replica, Serializer}
use blockchain_validator.Cli.Parameters.{Orchestrator}
use blockchain_validator.Cli.Protocol.{
  ValidatorProtocol, node_load, generator_flag, run_arguments, node_commands, node_command,
  nodes_metrics_path,
}
use blockchain_validator.Cli.Protocol.Shares.{divided}

-- The entry at a position.
abbrev pub at_position {ℓ} : {A : Type ℓ} → List A → ℕ → Option A
at_position [] i = none
at_position (x ∷ xs) zero = some x
at_position (x ∷ xs) (suc i) = at_position xs i

at_position-map {ℓ κ} :
    {A : Type ℓ} {B : Type κ} (f : A → B) (xs : List A) (i : ℕ) (x : A)
    → at_position xs i ≡ some x
    → at_position (map f xs) i ≡ some (f x)
at_position-map f [] i x e = cc e
at_position-map f (y ∷ xs) zero x e = cc e
at_position-map f (y ∷ xs) (suc i) x e = at_position-map f xs i x e

at_position-zip {ℓ κ} :
    {A : Type ℓ} {B : Type κ} (xs : List A) (ys : List B) (i : ℕ) (x : A) (y : B)
    → at_position xs i ≡ some x
    → at_position ys i ≡ some y
    → at_position (zip xs ys) i ≡ some (x, y)
at_position-zip [] ys i x y e f = cc e
at_position-zip (a ∷ xs) [] i x y e f = cc f
at_position-zip (a ∷ xs) (b ∷ ys) zero x y e f = cc (e, f)
at_position-zip (a ∷ xs) (b ∷ ys) (suc i) x y e f = at_position-zip xs ys i x y e f

at_position-length {ℓ κ} :
    {A : Type ℓ} {B : Type κ} (xs : List A) (ys : List B) (i : ℕ) (x : A)
    → length ys ≡ length xs
    → at_position xs i ≡ some x
    → (y : B) × (at_position ys i ≡ some y)
at_position-length [] ys i x h e = cc e
at_position-length (a ∷ xs) [] i x h e = absurd (omega (arith, h))
at_position-length (a ∷ xs) (b ∷ ys) zero x h e = (b, refl)
at_position-length (a ∷ xs) (b ∷ ys) (suc i) x h e =
    at_position-length xs ys i x (omega (arith, h)) e

module _ (r : Replica) (o : Orchestrator r) (s : Serializer) where
  -- The text that starts a validator, from the authority as which it runs and its load.
  abbrev pub last_argument : ValidatorProtocol → ℕ → String → String
  last_argument protocol zero private_argument = private_argument
  last_argument protocol (suc load) private_argument =
      private_argument
      <> " "
      <> "--load-generator-config-path "
      <> join_path protocol.working_dir load_generator_config_filename

  abbrev pub launch : ValidatorProtocol → ℕ → r.Authority → String
  launch protocol load authority =
      "source $HOME/.cargo/env"
      <> " && "
      <> ("./" <> o.binary_path <> "/validator")
      <> " "
      <> "run"
      <> " "
      <> ("--authority " <> decimal (r.index authority))
      <> " "
      <> ("--public-config-path " <> join_path protocol.working_dir r.public_filename)
      <> " "
      <> last_argument protocol load (
          "--private-config-path "
          <> join_path protocol.working_dir
              ("private-replica-config-" <> r.show_authority authority <> ".yaml"))

  launched :
      (protocol : ValidatorProtocol) (load : ℕ) (a : r.Authority)
      → join_texts " && "
          ("source $HOME/.cargo/env" ∷ join_texts " " (run_arguments r o s protocol load a) ∷ [])
        ≡ launch protocol load a
  unfolding run_arguments generator_flag
  launched protocol zero a = refl
  launched protocol (suc n) a = rw (compare.zero-suc n) refl

  node_commands-launch :
      (protocol : ValidatorProtocol) (load first i : ℕ) (instances : List o.Instance)
      (instance' : o.Instance)
      → at_position instances i ≡ some instance'
      → at_position (node_commands r o s protocol load first instances) i
        ≡ some (instance', launch protocol load (r.authority_from (first + i)))
  unfolding node_commands
  node_commands-launch protocol load first i [] instance' e = cc e
  node_commands-launch protocol load first zero (x ∷ rest) instance' e =
      let same : x ≡ instance' = cc e in
      let here : first ≡ first + 0 = omega arith in
      ap (λ text. some (x, text)) (launched protocol load (r.authority_from first))
      ∙ (λ i. some (same i, launch protocol load (r.authority_from (here i))))
  node_commands-launch protocol load first (suc i) (x ∷ rest) instance' e =
      node_commands-launch protocol load (suc first) i rest instance' e
      ∙ ap (λ k. some (instance', launch protocol load (r.authority_from k))) (omega arith)

  node_commands-length :
      (protocol : ValidatorProtocol) (load first : ℕ) (instances : List o.Instance)
      → length (node_commands r o s protocol load first instances) ≡ length instances
  unfolding node_commands
  node_commands-length protocol load first [] = refl
  node_commands-length protocol load first (x ∷ rest) =
      ap suc (node_commands-length protocol load (suc first) rest)

  -- For a committee that is not empty, and where a benchmark configuration has one metrics address
  -- for each of its machines: the instance at each position gets the command that starts a validator
  -- as the authority of this position, on its own private configuration and the shared public one,
  -- and with the load generator exactly if its share of the load is not zero; and it is scraped under
  -- the metrics route of the address at this position.
  pub node_command-launches :
      (protocol : ValidatorProtocol) (instances : List o.Instance)
      (parameters : o.BenchmarkParameters) (i : ℕ) (instance' : o.Instance)
      → 0 < o.nodes parameters
      → ((ips : List r.IpAddr)
          → length (r.all_metric_addresses (r.new_public_for_benchmarks ips)) ≡ length ips)
      → at_position instances i ≡ some instance'
      → (commands : List (o.Instance × String)) × (address : String) × (node_command r o s protocol
            instances parameters
          ≡ ok commands)
        × (length commands ≡ length instances)
        × (at_position commands i
            ≡ some (
              instance',
              launch protocol (o.load parameters / o.nodes parameters) (r.authority_from i),
            ))
        × (at_position
              (r.all_metric_addresses (r.new_public_for_benchmarks (map o.main_ip instances)))
              i
            ≡ some address)
        × (at_position (nodes_metrics_path r o s protocol instances parameters) i
            ≡ some (instance', address <> r.metrics_route))
  unfolding node_command node_load nodes_metrics_path
  node_command-launches protocol instances parameters i instance' h addresses e =
      let load = o.load parameters / o.nodes parameters in
      let all = r.all_metric_addresses (r.new_public_for_benchmarks (map o.main_ip instances)) in
      let (address, there) =
        at_position-length instances all i instance'
          (addresses (map o.main_ip instances) ∙ length-map o.main_ip instances) e in
      (
        node_commands r o s protocol load 0 instances,
        address,
        rw (divided r o s (o.load parameters) (o.nodes parameters) h) refl,
        node_commands-length protocol load 0 instances,
        node_commands-launch protocol load 0 i instances instance' e
            ∙ ap (λ k. some (instance', launch protocol load (r.authority_from k))) (omega arith),
        there,
        at_position-zip instances _ i instance' _ e
            (at_position-map (λ x. x <> r.metrics_route) all i address there),
      )
