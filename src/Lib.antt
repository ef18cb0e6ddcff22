-- ===== src/Lib.antt =====
-- The execution, checkpoint, validator and command-line crates of a blockchain validator.
--
-- A validator runs a consensus replica that commits sub-dags of blocks in one order everywhere. For
-- each sub-dag it decodes the payloads, executes the transactions, mints a checkpoint of the new
-- state's commitment, submits a vote for it through consensus, and counts the votes of all validators
-- until a quorum certifies the checkpoint.
--
-- The parts and their files. Names of functions are kept; a method that changes its object takes and
-- returns the state.
--   * Execution: crates/execution. Object (object.rs, crypto.rs), Effects (effects.rs), Engine
--     (engine.rs), Transaction (transaction.rs: verify, next_version), Store (store.rs:
--     InMemoryStore::apply, get, latest), Fake (fake.rs: FakeExecutor), Scheduler (scheduler.rs:
--     SequentialScheduler::execute).
--   * Checkpoint: crates/checkpoint. Types (checkpoint.rs), Accumulator and Certifier (certifier.rs).
--     CheckpointCertifier::record is record_vote: locate finds the entry, scan looks for the author,
--     ensure and cast_at count the vote, conclude sets the certificate, advance moves the watermark.
--   * Validator: crates/validator. Envelope (envelope.rs), Metrics (metrics.rs), Subdag
--     (ExecutionState::execute_subdag of validator.rs), Replay (Validator::replay), Driver (the task
--     of Validator::start, as the sequence of its deliveries, and ValidatorHandle::submit), Start
--     (Validator::start), Builder (ValidatorBuilder), Handle (the waiting loops of ValidatorHandle),
--     Generator (generator.rs).
--   * Cli: crates/cli. Args (args.rs), Tracing (tracing.rs), Genesis, Run and Remote
--     (commands/genesis.rs, run.rs, remote_testbed.rs and remote.rs), Benchmark
--     (remote/benchmark.rs: RemoteBenchmarkDriver), Protocol and Parameters (remote/protocol.rs:
--     ValidatorProtocol), Main (main.rs). Library and Parameters have what is taken from the
--     replica and orchestrator crates as parameters. Journal is code that makes calls of other
--     crates, each of which may fail: a run keeps the list of its calls, and how a call fares may
--     depend on those before it, so a call that cannot fail in the code may fail in the model.
--   * Dag: what is taken from the consensus library, as parameters: authorities, block references,
--     authority sets, committees, blocks and sub-dags, with the laws of a set. The hash function
--     and the bincode codec are parameters too.
--   * Map: a BTreeMap by its lookup laws. Outcome: code that may panic; a panic aborts the process,
--     so no state comes back.
--   * Prelude: shared helpers. Examples: runs on concrete inputs.
--
-- Bounds. Versions are u64 and stop with a panic at the end of the range; stakes, timestamps,
-- counters and block sizes wrap around as the release profile has it. A duration is in nanoseconds. All loops are
-- structural recursion over the lists that the code iterates over, so there is no fuel; the endless
-- loops of the driver, the generator and a benchmark are modelled over the finite sequence of what they
-- receive.
--
-- Not modelled: the parsing of arguments, which is the clap library; logging; the registration of
-- metrics; shutdown, which awaits tasks; networking, consensus and the remote machines, which are
-- libraries.
mod Prelude
pub mod Outcome
pub mod Map
pub mod Execution
pub mod Dag
pub mod Checkpoint
pub mod Validator
pub mod Cli
pub mod Examples
