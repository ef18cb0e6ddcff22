-- ===== src/Validator/Replay.antt =====
-- `Validator::replay` of crates/validator/src/validator.rs.
use blockchain_validator.Prelude.{ℕ, ◌+◌, ◌%◌, ◌^◌, Option, none, some, List, [], ◌∷◌}
use blockchain_validator.Outcome.{Outcome, ok, ◌>>=◌}
use blockchain_validator.Dag.{Dag, SubDags}
use blockchain_validator.Execution.Object.{Bytes, Digest}
use blockchain_validator.Validator.Envelope.{Codec}
use blockchain_validator.Validator.Metrics.{ValidatorMetrics, new_metrics}
use blockchain_validator.Validator.Subdag.{ExecutionState, execute_subdag}

-- An open `Storage`, as replay reads it: the committed sub-dags and the blocks.
pub record CommitData (d : Dag) : Type 0 where
  pub leader : d.BlockReference
  pub sub_dag : List d.BlockReference

pub record Storage (d : Dag) (s : SubDags d) : Type 0 where
  pub commits : List (CommitData d)
  pub get_block : d.BlockReference → Option s.Block

-- `eyre::Result`: why a replay returns no state.
pub data ReplayError (d : Dag) : Type 0 where
  storage_not_opened : ReplayError d
  block_missing : d.BlockReference → ReplayError d

pub data Result {ℓ κ} (E : Type ℓ) (A : Type κ) : Type (ℓ ⊔ κ) where
  done : A → Result E A
  error : E → Result E A

-- `replayed`, and the state.
pub record Replayed (d : Dag) : Type 0 where
  pub count : ℕ
  pub state : ExecutionState d

module _ (d : Dag) (s : SubDags d) where
  abbrev pub with_block :
      s.Block → Result (ReplayError d) (List s.Block) → Result (ReplayError d) (List s.Block)
  with_block block (done blocks) = done (block ∷ blocks)
  with_block block (error e) = error e

  abbrev pub get_then :
      d.BlockReference
      → Option s.Block
      → Result (ReplayError d) (List s.Block)
      → Result (ReplayError d) (List s.Block)
  get_then reference none rest = error (block_missing reference)
  get_then reference (some block) rest = with_block block rest

  -- The blocks of a commit; the first that is missing is the error.
  unfoldable pub fetch :
      (d.BlockReference → Option s.Block)
      → List d.BlockReference
      → Result (ReplayError d) (List s.Block)
  fetch get_block [] = done []
  fetch get_block (reference ∷ references) =
      get_then reference (get_block reference) (fetch get_block references)

  module _ (hash : Bytes → Digest) (codec : Codec d) where
    -- The body of the loop, for the blocks of the commit. `now` is zero.
    unfoldable pub replay_blocks :
        ValidatorMetrics
        → Replayed d
        → d.BlockReference
        → Result (ReplayError d) (List s.Block)
        → Outcome (Result (ReplayError d) (ValidatorMetrics × Replayed d))
    replay_blocks metrics replayed leader (error e) = ok (error e)
    replay_blocks metrics replayed leader (done blocks) = do
      r ← execute_subdag d s hash codec replayed.state metrics 0 (s.committed leader blocks)
      ok (
          done
            (r.metrics, record { count = (replayed.count + r.executed) % 2 ^ 64; state = r.state }))

    abbrev pub replay_on :
        (ValidatorMetrics → Replayed d → Outcome (Result (ReplayError d) (Replayed d)))
        → Result (ReplayError d) (ValidatorMetrics × Replayed d)
        → Outcome (Result (ReplayError d) (Replayed d))
    replay_on rest (error e) = ok (error e)
    replay_on rest (done (metrics, replayed)) = rest metrics replayed

    unfoldable pub replay_commits :
        (d.BlockReference → Option s.Block)
        → List (CommitData d)
        → ValidatorMetrics
        → Replayed d
        → Outcome (Result (ReplayError d) (Replayed d))
    replay_commits get_block [] metrics replayed = ok (done replayed)
    replay_commits get_block (commit ∷ commits) metrics replayed =
        replay_blocks metrics replayed commit.leader (fetch get_block commit.sub_dag)
        >>= replay_on (replay_commits get_block commits)

    -- `wal` is none for ephemeral storage; what is inside is none where the storage does not open.
    unfoldable pub replay :
        Option (Option (Storage d s))
        → ExecutionState d
        → Outcome (Result (ReplayError d) (Replayed d))
    unfolding replay_commits
    replay none state = ok (done (record { count = 0; state = state }))
    replay (some none) state = ok (error storage_not_opened)
    replay (some (some storage)) state =
        replay_commits storage.get_block storage.commits new_metrics
          (record { count = 0; state = state })
