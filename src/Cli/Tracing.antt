-- ===== src/Cli/Tracing.antt =====
-- `ValidatorTracing` of crates/cli/src/tracing.rs. The subscriber library is a parameter; what is
-- installed is the filter with the file that it writes to, if any.
use Prim.Native.String.{String, ◌++◌ as ◌<>◌}
use blockchain_validator.Prelude.{Option, none, some, List, [], ◌∷◌}
use blockchain_validator.Cli.Text.{PathBuf}
use blockchain_validator.Cli.Journal.{Run, ◌>>=◌, done}

-- `tracing_subscriber`: `default_filter` has the directive `WARN` and those of `RUST_LOG`.
pub record Subscriber : Type 1 where
  pub LevelFilter : Type 0
  pub info : LevelFilter
  pub show_level : LevelFilter → String
  pub EnvFilter : Type 0
  pub Directive : Type 0
  pub default_filter : EnvFilter
  pub parse : String → Option Directive
  pub add_directive : EnvFilter → Directive → EnvFilter

abbrev pub target_crates : List String
target_crates =
    "dag" ∷ "consensus" ∷ "replica" ∷ "orchestrator" ∷ "execution" ∷ "checkpoint" ∷ "validator"
    ∷ "cli" ∷ []

module _ (t : Subscriber) where
  pub record ValidatorTracing : Type 0 where
    pub level : t.LevelFilter
    pub log_file : Option PathBuf

  abbrev pub default_tracing : ValidatorTracing
  default_tracing = record { level = t.info; log_file = none }

  abbrev pub new_tracing : t.LevelFilter → ValidatorTracing
  new_tracing level = record { level = level; log_file = none }

  abbrev pub with_log_file : ValidatorTracing → Option PathBuf → ValidatorTracing
  with_log_file tracing path = record tracing { log_file = path }

  -- `match log_level`, as the commands have it
  abbrev pub tracing_at : Option t.LevelFilter → ValidatorTracing
  tracing_at none = default_tracing
  tracing_at (some level) = new_tracing level

  abbrev pub add_parsed : t.EnvFilter → Option t.Directive → t.EnvFilter
  add_parsed filter none = filter
  add_parsed filter (some directive) = t.add_directive filter directive

  -- The loop over the crates.
  unfoldable pub add_targets : t.LevelFilter → t.EnvFilter → List String → t.EnvFilter
  add_targets level filter [] = filter
  add_targets level filter (target ∷ rest) =
      add_targets level (add_parsed filter (t.parse (target <> "=" <> t.show_level level))) rest

  -- What was installed.
  pub record Installed : Type 0 where
    pub filter : t.EnvFilter
    pub writes_to : Option PathBuf

  module _ {Call : Type 0} (create : PathBuf → Option String → Run Call Unit) where
    abbrev pub open_log : Option PathBuf → Run Call Unit
    open_log none = done tt
    open_log (some path) = create path (some ("creating log file " <> path))

    unfoldable pub setup : ValidatorTracing → Run Call Installed
    setup tracing = do
      let filter = add_targets tracing.level t.default_filter target_crates
      _ ← open_log tracing.log_file
      done (record { filter = filter; writes_to = tracing.log_file })
