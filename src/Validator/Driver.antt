-- ===== src/Validator/Driver.antt =====
-- The driver task of `Validator::start` in crates/validator/src/validator.rs, as the sequence of the
-- sub-dags that the replica delivers, and the attestations that it submits. A failed submission is
-- only logged, so what is submitted is modelled and not whether it arrives.
pub mod Restart
pub mod Submitted
use blockchain_validator.Prelude.{ℕ, ◌+◌, ◌/◌, ◌%◌, ◌^◌, Option, none, some, List, [], ◌∷◌, map}
use blockchain_validator.Outcome.{Outcome, ok, ◌>>=◌}
use blockchain_validator.Dag.{Dag, SubDags}
use blockchain_validator.Execution.Object.{Bytes, Digest}
use blockchain_validator.Execution.Transaction.{Transaction}
use blockchain_validator.Checkpoint.Types.{Checkpoint}
use blockchain_validator.Checkpoint.Certifier.{pending_checkpoints}
use blockchain_validator.Validator.Envelope.{Payload, execute, attest, Envelope, Codec, to_bytes}
use blockchain_validator.Validator.Metrics.{ValidatorMetrics, observe_subdag_execution_latency}
use blockchain_validator.Validator.Subdag.{
  ExecutionState, Executed, execute_subdag, certification_status,
}

-- `as_millis() as u64` of a duration in nanoseconds.
abbrev pub as_millis : ℕ → ℕ
as_millis nanoseconds = nanoseconds / 1000000 % 2 ^ 64

-- A sub-dag that is received: the clock at its delivery, and how long its execution takes.
pub record Delivery (d : Dag) (s : SubDags d) : Type 0 where
  pub now : ℕ
  pub elapsed : ℕ
  pub subdag : s.CommittedSubDag

-- What the task owns.
pub record Driver (d : Dag) : Type 0 where
  pub state : ExecutionState d
  pub metrics : ValidatorMetrics
  pub count : ℕ

-- What the task sends for a sub-dag: to the two watch channels, and to the replica.
pub record Published (d : Dag) : Type 0 where
  pub executed : ℕ
  pub certified : Option Digest × Digest
  pub submitted : List Bytes

module _ (d : Dag) (codec : Codec d) where
  abbrev pub attestation : ℕ → Checkpoint d → Bytes
  attestation timestamp_ms checkpoint =
      to_bytes d codec (record { timestamp_ms = timestamp_ms; payload = attest checkpoint })

  -- `ValidatorHandle::submit`: the payloads given to the replica.
  abbrev pub submit : ℕ → List Transaction → List Bytes
  submit now = map (λ transaction.
      to_bytes d codec (record { timestamp_ms = as_millis now; payload = execute transaction }))

  -- The attestations to the checkpoints that are pending after replay.
  unfoldable pub reattest : ℕ → ExecutionState d → List Bytes
  reattest now state = map (attestation (as_millis now)) (pending_checkpoints d state.certifier)

  abbrev pub attest_minted : ℕ → Option (Checkpoint d) → List Bytes
  attest_minted now none = []
  attest_minted now (some checkpoint) = attestation (as_millis now) checkpoint ∷ []

  module _ (s : SubDags d) (hash : Bytes → Digest) where
    -- The body of the loop.
    unfoldable pub deliver : Driver d → Delivery d s → Outcome (Driver d × Published d)
    deliver driver delivery = do
      r ← execute_subdag d s hash codec driver.state driver.metrics delivery.now delivery.subdag
      let count = (driver.count + r.executed) % 2 ^ 64
      ok (
        record {
          state = r.state;
          metrics = observe_subdag_execution_latency r.metrics delivery.elapsed;
          count = count;
        },
        record {
          executed = count;
          certified = certification_status d r.state;
          submitted = attest_minted delivery.now r.minted;
        },
      )

    unfoldable pub drive : Driver d → List (Delivery d s) → Outcome (Driver d × List (Published d))
    unfolding deliver
    drive driver [] = ok (driver, [])
    drive driver (delivery ∷ deliveries) = do
      (driver', published) ← deliver driver delivery
      (driver'', rest) ← drive driver' deliveries
      ok (driver'', published ∷ rest)
