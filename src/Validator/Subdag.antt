-- ===== src/Validator/Subdag.antt =====
-- `ExecutionState` of crates/validator/src/validator.rs. `filter_map` is lazy in the source: payloads
-- are decoded while the batch executes, which changes nothing, since a panic leaves no state. A
-- `Duration` is in nanoseconds. A `u64` sum wraps, as the release profile has it.
pub mod Collecting
pub mod Parts
pub mod Determinism
pub mod Timing
use blockchain_validator.Prelude.{
  ℕ, zero, suc, ◌+◌, ◌-◌, ◌*◌, ◌/◌, ◌%◌, ◌^◌, Option, none, some, List, [], ◌∷◌, ◌++◌, map, length,
  flat_map,
}
use mathlib.Core.Option.{map as map_option}
use blockchain_validator.Outcome.{Outcome, ok, ◌>>=◌}
use blockchain_validator.Dag.{Dag, SubDags}
use blockchain_validator.Execution.Object.{Bytes, Digest}
use blockchain_validator.Execution.Effects.{ExecutionStatus}
use blockchain_validator.Execution.Transaction.{Transaction}
use blockchain_validator.Execution.Engine.{ExecutionEngine}
use blockchain_validator.Execution.Scheduler.{SequentialScheduler, new_scheduler}
use blockchain_validator.Execution.Scheduler
use blockchain_validator.Checkpoint.Types.{Checkpoint, CertifiedCheckpoint}
use blockchain_validator.Checkpoint.Certifier.{
  CheckpointTimings, CheckpointCertifier, new_certifier, push, record_vote, highest_certified,
}
use blockchain_validator.Validator.Envelope.{Payload, execute, attest, Envelope, Codec, from_bytes}
use blockchain_validator.Validator.Metrics.{
  ValidatorMetrics, observe_checkpoint_certification_latency, observe_end_to_end_latency,
}

pub record ExecutionState (d : Dag) : Type 0 where
  pub scheduler : SequentialScheduler
  pub certifier : CheckpointCertifier d

-- What the closures over the payloads collect.
pub record Collected (d : Dag) : Type 0 where
  pub transactions : List Transaction
  pub votes : List (d.Authority × Checkpoint d)
  pub stamp_sum_ms : ℕ

abbrev pub nothing_collected : (d : Dag) → Collected d
nothing_collected d = record { transactions = []; votes = []; stamp_sum_ms = 0 }

-- `Duration::from_millis`
abbrev pub from_millis : ℕ → ℕ
from_millis ms = ms * 1000000

module _ (d : Dag) where
  -- The match on a payload.
  abbrev pub dispatch : Collected d → d.Authority → ℕ → Payload d → Collected d
  dispatch acc author stamp_ms (execute transaction) = record acc {
    transactions = acc.transactions ++ (transaction ∷ []);
    stamp_sum_ms = (acc.stamp_sum_ms + stamp_ms) % 2 ^ 64;
  }
  dispatch acc author stamp_ms (attest vote) = record acc {
    votes = acc.votes ++ ((author, vote) ∷ []);
  }

  -- An undecodable payload is skipped.
  abbrev pub collect_one : Collected d → d.Authority → Option (Envelope d) → Collected d
  collect_one acc author none = acc
  collect_one acc author (some envelope) =
      dispatch acc author envelope.timestamp_ms envelope.payload

  unfoldable pub collect : Codec d → Collected d → List (d.Authority × Bytes) → Collected d
  collect codec acc [] = acc
  collect codec acc ((author, bytes) ∷ rest) =
      collect codec (collect_one acc author (from_bytes d codec bytes)) rest

  -- `minted`, with what `push` does to the certifier.
  abbrev pub mint :
      CheckpointCertifier d
      → d.BlockReference
      → Digest
      → ℕ
      → ℕ
      → ℕ
      → CheckpointCertifier d × Option (Checkpoint d)
  mint certifier anchor commitment now stamp_sum_ms zero = (certifier, none)
  mint certifier anchor commitment now stamp_sum_ms (suc n) =
      let (certifier', checkpoint) =
        push d certifier anchor commitment
          (record { minted_at = now; mean_timestamp_ms = stamp_sum_ms / suc n }) in
      (certifier', some checkpoint)

  abbrev pub observe : ValidatorMetrics → ℕ → Option CheckpointTimings → ValidatorMetrics
  observe metrics now none = metrics
  observe metrics now (some timings) =
      observe_end_to_end_latency
        (observe_checkpoint_certification_latency metrics (now - timings.minted_at))
        (now - from_millis timings.mean_timestamp_ms)

  -- The loop over the votes.
  unfoldable pub record_votes :
      d.BlockReference
      → ℕ
      → CheckpointCertifier d
      → ValidatorMetrics
      → List (d.Authority × Checkpoint d)
      → Outcome (CheckpointCertifier d × ValidatorMetrics)
  record_votes anchor now certifier metrics [] = ok (certifier, metrics)
  record_votes anchor now certifier metrics ((author, vote) ∷ votes) = do
    (certifier', timings) ← record_vote d certifier anchor author vote
    record_votes anchor now certifier' (observe metrics now timings) votes

  -- `certification_status`
  abbrev pub certification_status : ExecutionState d → Option Digest × Digest
  certification_status state = (
    map_option (λ (certificate : CertifiedCheckpoint d). certificate.checkpoint.commitment)
        (highest_certified d state.certifier),
    state.scheduler.store.commitment,
  )

  module _ (s : SubDags d) where
    -- The payloads of a sub-dag, each with the author of its block.
    abbrev pub attributed : List s.Block → List (d.Authority × Bytes)
    attributed = flat_map (λ block. map (λ payload. (s.author block, payload)) (s.payloads block))

    -- What a call of `execute_subdag` returns, and the state and metrics that it leaves.
    pub record Executed : Type 0 where
      pub executed : ℕ
      pub minted : Option (Checkpoint d)
      pub state : ExecutionState d
      pub metrics : ValidatorMetrics

    -- What follows the call of the scheduler.
    unfoldable pub certify_batch :
        ExecutionState d
        → ValidatorMetrics
        → ℕ
        → d.BlockReference
        → Collected d
        → List ExecutionStatus × SequentialScheduler
        → Outcome Executed
    certify_batch state metrics now anchor found (statuses, scheduler) = do
      let (certifier, minted) =
          mint state.certifier anchor scheduler.store.commitment now found.stamp_sum_ms
            (length statuses)
      (certifier', metrics') ← record_votes anchor now certifier metrics found.votes
      ok (record {
        executed = length statuses;
        minted = minted;
        state = record { scheduler = scheduler; certifier = certifier' };
        metrics = metrics';
      })

    -- From the call of the scheduler on.
    unfoldable pub execute_collected :
        (Bytes → Digest)
        → ExecutionState d
        → ValidatorMetrics
        → ℕ
        → d.BlockReference
        → Collected d
        → Outcome Executed
    execute_collected hash state metrics now anchor found =
        Scheduler.execute hash state.scheduler found.transactions
        >>= certify_batch state metrics now anchor found

    unfoldable pub execute_subdag :
        (Bytes → Digest)
        → Codec d
        → ExecutionState d
        → ValidatorMetrics
        → ℕ
        → s.CommittedSubDag
        → Outcome Executed
    unfolding execute_collected collect
    execute_subdag hash codec state metrics now subdag =
        execute_collected hash state metrics now (s.anchor subdag)
          (collect codec (nothing_collected d) (attributed (s.blocks (s.sort subdag))))
