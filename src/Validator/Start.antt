-- ===== src/Validator/Start.antt =====
-- `Validator::start` of crates/validator/src/validator.rs: replay, attestations to what is pending,
-- then the driver task over what the replica delivers. A replica that does not run is not modelled.
pub mod Resume
use blockchain_validator.Prelude.{ℕ, Option, none, some, List, [], ◌∷◌}
use blockchain_validator.Outcome.{Outcome, ok, ◌>>=◌}
use blockchain_validator.Dag.{Dag, SubDags}
use blockchain_validator.Execution.Object.{Bytes, Digest}
use blockchain_validator.Validator.Envelope.{Codec}
use blockchain_validator.Validator.Metrics.{ValidatorMetrics}
use blockchain_validator.Validator.Subdag.{ExecutionState, certification_status}
use blockchain_validator.Validator.Replay.{
  Storage, Replayed, ReplayError, Result, done, error, replay,
}
use blockchain_validator.Validator.Driver.{Delivery, Driver, Published, drive, reattest}

-- What a validator has sent when it has gone through its deliveries, and what it is left with: the
-- first values of the watch channels with the attestations to what was pending, and what the driver
-- task sent for each delivery.
pub record Started (d : Dag) : Type 0 where
  pub first : Published d
  pub published : List (Published d)
  pub driver : Driver d

module _ (d : Dag) (codec : Codec d) (s : SubDags d) (hash : Bytes → Digest) where
  unfoldable pub start_replayed :
      ValidatorMetrics
      → ℕ
      → List (Delivery d s)
      → Result (ReplayError d) (Replayed d)
      → Outcome (Result (ReplayError d) (Started d))
  start_replayed metrics now deliveries (error e) = ok (error e)
  start_replayed metrics now deliveries (done replayed) = do
    (driver, published) ←
        drive d codec s hash
          (record { state = replayed.state; metrics = metrics; count = replayed.count }) deliveries
    ok (
        done (record {
          first = record {
            executed = replayed.count;
            certified = certification_status d replayed.state;
            submitted = reattest d codec now replayed.state;
          };
          published = published;
          driver = driver;
        }))

  unfoldable pub start :
      Option (Option (Storage d s))
      → ExecutionState d
      → ValidatorMetrics
      → ℕ
      → List (Delivery d s)
      → Outcome (Result (ReplayError d) (Started d))
  unfolding start_replayed
  start storage state metrics now deliveries =
      replay d s hash codec storage state >>= start_replayed metrics now deliveries
