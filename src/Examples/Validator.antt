-- ===== src/Examples/Validator.antt =====
-- Runs of the validator crate.
use blockchain_validator.Prelude.{
  ◌≤◌, ℕ, ◌≡◌, ◌≢◌, refl, none, some, [], ◌∷◌, arith, All, true, Distinct, map, length, replicate,
}
use blockchain_validator.Outcome.{ok}
use blockchain_validator.Execution.Object.{Bytes, default_digest, new_id, to_be_bytes}
use blockchain_validator.Execution.Transaction.{verify, new_function}
use blockchain_validator.Execution.Scheduler.{
  SequentialScheduler, new_scheduler, execute_one, run_verified,
}
use blockchain_validator.Execution.Scheduler
use blockchain_validator.Execution.Store.{apply, apply_writes}
use blockchain_validator.Execution.Fake.{
  fake_executor, abort_call, success_with_args, resolve, function_id, run_function,
}
use blockchain_validator.Execution.Fake
use blockchain_validator.Checkpoint.Certifier.{new_certifier, minted, push, pending_checkpoints}
use blockchain_validator.Validator.Envelope.{execute, to_bytes, from_bytes}
use blockchain_validator.Validator.Metrics.{new_metrics}
use blockchain_validator.Validator.Subdag.{
  ExecutionState, Executed, collect, record_votes, certify_batch, execute_collected, execute_subdag,
  certification_status,
}
use blockchain_validator.Validator.Subdag.Parts.{Parts, execute_subdag-Parts}
use blockchain_validator.Validator.Subdag.Timing.{execute_subdag-Mean}
use blockchain_validator.Checkpoint.Certifier.Calls.{run}
use blockchain_validator.Checkpoint.Certifier.Calls
use blockchain_validator.Execution.Scheduler.{SequentialScheduler}
use blockchain_validator.Validator.Driver.Submitted.{Runs, submit-Runs}
use blockchain_validator.Validator.Subdag.Determinism.{SameResult, execute_subdag-SameResult}
use blockchain_validator.Validator.Replay.{Storage, Replayed, done, fetch, replay}
use blockchain_validator.Validator.Driver.{
  Delivery, Driver, Published, deliver, drive, reattest, attestation, as_millis,
}
use blockchain_validator.Validator.Driver.Restart.{replay-restores}
use blockchain_validator.Validator.Generator.{
  LoadGeneratorConfig, Stream, start, started, transaction, fill_batch, next_id, ship_blocks,
  transactions_per_interval,
}
use blockchain_validator.Validator.Generator
use blockchain_validator.Validator.Generator.Blocks.{IsShipment, ship_blocks-IsShipment}
use blockchain_validator.Validator.Generator.Payloads.{ids, fill_batch-decodes}
use blockchain_validator.Validator.Generator.Runs.{payload_of, planned, created, IsRun, run-creates}
use blockchain_validator.Validator.Generator.Ids.{namespaces_disjoint}
use blockchain_validator.Examples.Data.{hash, dag, four, sub_dags}
use blockchain_validator.Examples.Codec.{codec, codec-CodecLaws, codec-SizeLaw}

abbrev pub state : ExecutionState dag
state = record { scheduler = new_scheduler fake_executor; certifier = new_certifier dag four 3 }

-- A sub-dag with one payload that aborts.
abbrev pub payload : Bytes
payload = to_bytes dag codec (record { timestamp_ms = 5; payload = execute abort_call })

abbrev pub subdag : sub_dags.CommittedSubDag
subdag = ((1, 0), (0, payload ∷ []) ∷ [])

abbrev pub state_after : ℕ → ExecutionState dag
state_after now = record {
  scheduler = new_scheduler fake_executor;
  certifier = record {
    committee = four;
    quorum = 3;
    pending =
        minted dag (1, 0) default_digest (record { minted_at = now; mean_timestamp_ms = 5 }) ∷ [];
    watermark = none;
  };
}

abbrev result : ℕ → Executed dag sub_dags
result now = record {
  executed = 1;
  minted = some (record { anchor = (1, 0); commitment = default_digest });
  state = state_after now;
  metrics = new_metrics;
}

subdag_executes :
    (now : ℕ)
    → execute_subdag dag sub_dags hash codec state new_metrics now subdag ≡ ok (result now)
unfolding execute_subdag execute_collected certify_batch collect record_votes push Scheduler.execute
    execute_one run_verified verify abort_call resolve function_id new_function Fake.execute
    run_function apply apply_writes
subdag_executes now = refl

execute_subdag-Parts_example : Parts dag sub_dags hash codec state new_metrics 9 subdag (result 9)
execute_subdag-Parts_example =
    execute_subdag-Parts dag sub_dags hash codec state new_metrics 9 subdag (result 9)
      (subdag_executes 9)

execute_subdag-Mean_example :
    (mean : ℕ) × (4 ≤ mean)
    × (mean ≤ 6)
    × (run dag state.certifier (
          Calls.mint (1, 0) default_digest (record { minted_at = 9; mean_timestamp_ms = mean })
          ∷ [])
        ≡ ok (state_after 9).certifier)
unfolding abort_call
execute_subdag-Mean_example =
    execute_subdag-Mean dag sub_dags hash codec state new_metrics 9 subdag 4 6 (result 9)
      ((omega arith, omega arith), tt) (omega arith) (subdag_executes 9) (λ e. omega (arith, e))

submit-Runs_example :
    (first last : SequentialScheduler) × Runs hash state.scheduler [] first
    × Runs hash first (abort_call ∷ []) last
    × Runs hash last [] (state_after 9).scheduler
unfolding abort_call
submit-Runs_example =
    submit-Runs dag sub_dags hash codec codec-CodecLaws state new_metrics 9 5000000 subdag
      (result 9) 0 [] [] (abort_call ∷ []) (omega arith, tt) refl (subdag_executes 9)

execute_subdag-SameResult_example :
    (r' : Executed dag sub_dags) × (execute_subdag dag sub_dags hash codec state new_metrics 4
        subdag
      ≡ ok r')
    × SameResult dag sub_dags (result 9) r'
execute_subdag-SameResult_example =
    execute_subdag-SameResult dag sub_dags hash codec state state new_metrics new_metrics 9 4 subdag
      (result 9) (record { scheduler = refl; certifier = refl }) (subdag_executes 9)

abbrev pub delivery : Delivery dag sub_dags
delivery = record { now = 9; elapsed = 2; subdag = subdag }

abbrev pub driver : Driver dag
driver = record { state = state; metrics = new_metrics; count = 0 }

abbrev pub driver_after : Driver dag
driver_after = record {
  state = state_after 9;
  metrics = record new_metrics { subdag_execution_latency = 2 ∷ [] };
  count = 1;
}

abbrev pub published : Published dag
published = record {
  executed = 1;
  certified = (none, default_digest);
  submitted =
      attestation dag codec 0 (record { anchor = (1, 0); commitment = default_digest }) ∷ [];
}

delivery_drives :
    drive dag codec sub_dags hash driver (delivery ∷ []) ≡ ok (driver_after, published ∷ [])
unfolding drive deliver
delivery_drives = rw (subdag_executes 9) refl

abbrev pub storage : Storage dag sub_dags
storage = record {
  commits = record { leader = (1, 0); sub_dag = (1, 0) ∷ [] } ∷ [];
  get_block = λ reference. some (0, payload ∷ []);
}

replay-restores_example :
    (replayed : Replayed dag) × (replay dag sub_dags hash codec (some (some storage)) state
      ≡ ok (done replayed))
    × (replayed.count ≡ 1)
    × (replayed.state.scheduler ≡ new_scheduler fake_executor)
    × (certification_status dag replayed.state ≡ certification_status dag (state_after 9))
    × (reattest dag codec 3 replayed.state
        ≡ map
            (attestation dag codec (as_millis 3))
            (pending_checkpoints dag (state_after 9).certifier))
unfolding fetch
replay-restores_example =
    replay-restores dag sub_dags hash codec storage state new_metrics (delivery ∷ []) driver_after
      (published ∷ []) 3 (((0, payload ∷ []) ∷ [], refl, refl), tt) delivery_drives

abbrev config : LoadGeneratorConfig
config = record { load = 20; transaction_size = 72; initial_delay = 0 }

abbrev stream : Stream
stream = record { counter = 0; random = 5 }

config_starts : start dag codec config ≡ started 2
unfolding start transaction success_with_args new_id to_be_bytes function_id new_function
config_starts = refl

fill_batch-decodes_example :
    (map (from_bytes dag codec) (fill_batch dag codec 7 3 2 1 stream).0
      ≡ map (λ id. some (transaction dag codec 7 id (replicate 2 0))) (ids 3 1 stream))
    × All (λ bytes. length bytes ≡ 72) (fill_batch dag codec 7 3 2 1 stream).0
fill_batch-decodes_example =
    fill_batch-decodes dag codec codec-CodecLaws codec-SizeLaw config 2 7 3 1 stream config_starts
      (omega arith)

namespaces_disjoint_example : next_id 1 stream ≢ next_id 2 stream
namespaces_disjoint_example =
    namespaces_disjoint 1 2 stream stream (omega arith) (omega arith) (λ e. omega (arith, e))

ship_blocks-IsShipment_example :
    IsShipment 100 60
      (λ block. true)
      ((1 ∷ []) ∷ (2 ∷ []) ∷ (3 ∷ []) ∷ [])
      (ship_blocks 100 (λ block. true) ((1 ∷ []) ∷ (2 ∷ []) ∷ (3 ∷ []) ∷ []) 60)
ship_blocks-IsShipment_example =
    ship_blocks-IsShipment 100 60 (λ block. true) ((1 ∷ []) ∷ (2 ∷ []) ∷ (3 ∷ []) ∷ [])
      (omega arith) (omega arith)

run-creates_example :
    IsRun dag codec 2 1 100 72
      (λ block. true)
      2
      (map (map (payload_of dag codec 2 1)) (planned dag codec 2 1 2 (7 ∷ 8 ∷ []) stream))
      new_metrics
      (Generator.run dag codec 100 (λ block. true) config (7 ∷ 8 ∷ []) 1 2 new_metrics stream)
    × (created dag codec 2 1 (planned dag codec 2 1 2 (7 ∷ 8 ∷ []) stream) ≡ ids 4 1 stream)
    × Distinct (ids 4 1 stream)
unfolding transactions_per_interval
run-creates_example =
    run-creates dag codec 2 1 100 (λ block. true) config (omega arith) (omega arith) (7 ∷ 8 ∷ [])
      new_metrics 5
