-- ===== src/Examples/Node.antt =====
-- Runs of a whole validator.
use blockchain_validator.Prelude.{ℕ, ◌≡◌, ◌≤◌, refl, Option, none, some, List, [], ◌∷◌, ◌++◌}
use blockchain_validator.Outcome.{ok}
use blockchain_validator.Execution.Object.{default_digest}
use blockchain_validator.Execution.Transaction.{verify, new_function}
use blockchain_validator.Execution.Scheduler.{new_scheduler, execute_one, run_verified}
use blockchain_validator.Execution.Scheduler
use blockchain_validator.Execution.Store.{apply, apply_writes}
use blockchain_validator.Execution.Fake.{
  fake_executor, abort_call, resolve, function_id, run_function,
}
use blockchain_validator.Execution.Fake
use blockchain_validator.Checkpoint.Certifier.{minted, push}
use blockchain_validator.Validator.Metrics.{new_metrics}
use blockchain_validator.Validator.Subdag.{
  collect, record_votes, certify_batch, execute_collected, execute_subdag,
}
use blockchain_validator.Validator.Subdag.Determinism.{Alike}
use blockchain_validator.Validator.Replay.{done, fetch}
use blockchain_validator.Validator.Driver.{
  Delivery, Driver, Published, deliver, drive, attestation, as_millis,
}
use blockchain_validator.Checkpoint.Certifier.{pending_checkpoints}
use blockchain_validator.Validator.Subdag.{certification_status}
use blockchain_validator.Prelude.{map}
use blockchain_validator.Validator.Start.{Started, start}
use blockchain_validator.Validator.Start.Resume.{start-resumes}
use blockchain_validator.Validator.Builder.{
  ReplicaCrate, ValidatorBuilder, new_builder, Setting, set_option, set_options, Validator, build,
}
use blockchain_validator.Validator.Builder
use blockchain_validator.Validator.Builder.Storage.{StorageLaws, build-storage}
use blockchain_validator.Validator.Handle.{wait_for_transactions, wait_for_certified}
use blockchain_validator.Validator.Handle.Waiting.{
  FirstOf, AllCertified, wait_for_transactions-FirstOf, wait_for_certified-FirstOf,
}
use blockchain_validator.Examples.Data.{hash, dag, four, sub_dags}
use blockchain_validator.Examples.Codec.{codec}
use blockchain_validator.Examples.Validator.{state, payload, delivery, driver, published, storage}

-- A second sub-dag with the same payload.
abbrev second : Delivery dag sub_dags
second = record { now = 11; elapsed = 3; subdag = ((2, 0), (1, payload ∷ []) ∷ []) }

abbrev driver_end : Driver dag
driver_end = record {
  state = record {
    scheduler = new_scheduler fake_executor;
    certifier = record {
      committee = four;
      quorum = 3;
      pending =
          minted dag (1, 0) default_digest (record { minted_at = 9; mean_timestamp_ms = 5 })
          ∷ minted dag (2, 0) default_digest (record { minted_at = 11; mean_timestamp_ms = 5 })
          ∷ [];
      watermark = none;
    };
  };
  metrics = record new_metrics { subdag_execution_latency = 2 ∷ 3 ∷ [] };
  count = 2;
}

abbrev published_end : Published dag
published_end = record {
  executed = 2;
  certified = (none, default_digest);
  submitted =
      attestation dag codec 0 (record { anchor = (2, 0); commitment = default_digest }) ∷ [];
}

both_drive :
    drive dag codec sub_dags hash driver ((delivery ∷ []) ++ (second ∷ []))
    ≡ ok (driver_end, published ∷ published_end ∷ [])
unfolding drive deliver execute_subdag execute_collected certify_batch collect record_votes push
    Scheduler.execute execute_one run_verified verify abort_call resolve function_id new_function
    Fake.execute run_function apply apply_writes
both_drive = refl

start-resumes_example :
    (stopped : Driver dag) × (before : List (Published dag)) × (started : Started dag) × (drive dag
        codec sub_dags hash
        (record { state = state; metrics = new_metrics; count = 0 })
        (delivery ∷ [])
      ≡ ok (stopped, before))
    × (start dag codec sub_dags hash (some (some storage)) state new_metrics 3 (second ∷ [])
        ≡ ok (done started))
    × (started.first ≡ record {
      executed = stopped.count;
      certified = certification_status dag stopped.state;
      submitted =
          map
            (attestation dag codec (as_millis 3))
            (pending_checkpoints dag stopped.state.certifier);
    })
    × ((published ∷ published_end ∷ []) ≡ before ++ started.published)
    × (2 ≡ started.driver.count)
    × Alike dag driver_end.state started.driver.state
unfolding fetch
start-resumes_example =
    start-resumes dag codec sub_dags hash storage state new_metrics new_metrics 3 (delivery ∷ [])
      (second ∷ []) driver_end (published ∷ published_end ∷ [])
      (((0, payload ∷ []) ∷ [], refl, refl), tt) both_drive

-- A replica's builder that is its storage.
abbrev pub replica_crate : ReplicaCrate dag
replica_crate = record {
  PublicReplicaConfig = List ℕ;
  PrivateReplicaConfig = ℕ;
  PathBuf = ℕ;
  Registry = ℕ;
  Network = ℕ;
  Metrics = ℕ;
  ReplicaBuilder = Option ℕ;
  committee = λ config. config;
  quorum_threshold = λ config. some 3;
  wal = λ config. config;
  new_registry = 0;
  new_replica = λ authority public_config private_config. some private_config;
  with_registry = λ replica to. replica;
  with_storage = λ replica to. to;
  with_network = λ replica to. replica;
  with_metrics = λ replica to. replica;
  with_crypto_disabled = λ replica. replica;
  with_commit_consumer = λ replica. replica;
}

pub replica_crate-StorageLaws : StorageLaws dag replica_crate (λ replica. replica)
replica_crate-StorageLaws = record {
  storage-new = λ a p q. refl;
  storage-storage = λ b to. refl;
  storage-registry = λ b to. refl;
  storage-network = λ b to. refl;
  storage-metrics = λ b to. refl;
  storage-crypto = λ b. refl;
  storage-consumer = λ b. refl;
}

abbrev settings : List (Setting dag replica_crate)
settings = Builder.registry 5 ∷ Builder.storage none ∷ Builder.storage (some 7) ∷ []

abbrev validator : Validator dag replica_crate
validator = record {
  state = state;
  authority = 0;
  public_config = four;
  wal = some 7;
  metrics = new_metrics;
  replica = some 7;
}

validator_built :
    build dag replica_crate (
      set_options dag replica_crate (new_builder dag replica_crate fake_executor 0 four 1) settings)
    ≡ some validator
unfolding build new_builder set_options set_option
validator_built = refl

build-storage_example : validator.replica ≡ validator.wal
build-storage_example =
    build-storage dag replica_crate (λ replica. replica) replica_crate-StorageLaws fake_executor 0
      four 1 settings validator validator_built

wait_for_transactions-FirstOf_example :
    FirstOf
      (λ executed. 5 ≤ executed)
      (0 ∷ 4 ∷ 6 ∷ 9 ∷ [])
      (wait_for_transactions 5 (0 ∷ 4 ∷ 6 ∷ 9 ∷ []))
wait_for_transactions-FirstOf_example = wait_for_transactions-FirstOf 5 (0 ∷ 4 ∷ 6 ∷ 9 ∷ [])

wait_for_certified-FirstOf_example :
    FirstOf AllCertified
      ((none, default_digest) ∷ (some default_digest, default_digest) ∷ [])
      (wait_for_certified ((none, default_digest) ∷ (some default_digest, default_digest) ∷ []))
wait_for_certified-FirstOf_example =
    wait_for_certified-FirstOf ((none, default_digest) ∷ (some default_digest, default_digest) ∷ [])
