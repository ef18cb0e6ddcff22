-- ===== src/Validator/Generator.antt =====
-- The load generator of crates/validator/src/generator.rs. The random stream's seed and the clock are
-- parameters; a `usize` is one of 64 bits, and the counter and the block size wrap as the release profile has it.
pub mod Blocks
pub mod Payloads
pub mod Ids
pub mod Runs
use Prim.Native.String.{String}
use blockchain_validator.Prelude.{
  ℕ, zero, suc, ◌+◌, ◌-◌, ◌*◌, ◌/◌, ◌%◌, ◌^◌, min, Bool, true, false, List, [], ◌∷◌, ◌++◌, leb, ltb,
  length, replicate, if◌then◌else◌,
}
use blockchain_validator.Dag.{Dag}
use blockchain_validator.Execution.Object.{Bytes, ObjectId, new_id}
use blockchain_validator.Execution.Fake.{success_with_args}
use blockchain_validator.Validator.Envelope.{
  Payload, execute, Envelope, Codec, to_bytes, max_payload_size,
}
use blockchain_validator.Validator.Metrics.{ValidatorMetrics, inc_submitted_transactions}

-- Durations in nanoseconds.
pub record LoadGeneratorConfig : Type 0 where
  pub load : ℕ
  pub transaction_size : ℕ
  pub initial_delay : ℕ

abbrev pub load_generator_config_filename : String
load_generator_config_filename = "load-generator-config.yaml"

abbrev pub new_for_test : LoadGeneratorConfig
new_for_test = record { load = 100; transaction_size = 128; initial_delay = 0 }

abbrev pub default_config : LoadGeneratorConfig
default_config = record { load = 10; transaction_size = 512; initial_delay = 30 * 1000000000 }

-- The interval in milliseconds.
abbrev pub target_block_interval : ℕ
target_block_interval = 100

abbrev pub authority_shift : ℕ
authority_shift = 56

-- `& RANDOM_MASK` keeps the bits below the shift.
abbrev pub masked : ℕ → ℕ
masked random = random % 2 ^ authority_shift

-- `namespace << AUTHORITY_SHIFT` on 64 bits.
abbrev pub shifted : ℕ → ℕ
shifted namespace = namespace * 2 ^ authority_shift % 2 ^ 64

-- `|` of numbers without a common bit, which these are.
unfoldable pub object_number : ℕ → ℕ → ℕ
object_number namespace random = shifted namespace + masked random

-- The assertions of `start`, in their order.
pub data StartError : Type 0 where
  load_not_positive size_within_overhead size_over_cap : StartError

pub data Start : Type 0 where
  started : ℕ → Start
  refused : StartError → Start

-- Blocks that were submitted, and whether all went through.
pub record Shipped : Type 0 where
  pub submitted : List (List Bytes)
  pub all_sent : Bool

-- The stream of ids: `counter` and `random`.
pub record Stream : Type 0 where
  pub counter : ℕ
  pub random : ℕ

abbrev pub advance_stream : Stream → Stream
advance_stream stream = record {
  random = (stream.random + stream.counter) % 2 ^ 64;
  counter = (stream.counter + 1) % 2 ^ 64;
}

unfoldable pub next_id : ℕ → Stream → ObjectId
unfolding object_number
next_id namespace stream = new_id (object_number namespace (advance_stream stream).random)

-- `div_ceil`, of a divisor that is not zero.
abbrev pub div_ceil : ℕ → ℕ → ℕ
div_ceil n divisor = (n + (divisor - 1)) / divisor

-- The blocks of a batch, up to the first that the client refuses. The client is a parameter:
-- `accepts` says of each block whether its submission goes through.
module _ (max_block_size : ℕ) (accepts : List Bytes → Bool) where
  abbrev pub send : List Bytes → Shipped → Shipped
  send block rest =
      if accepts block
      then record rest { submitted = block ∷ rest.submitted }
      else record { submitted = []; all_sent = false }

  -- `block.is_empty() || submit(block)`
  abbrev pub send_last : List Bytes → Shipped
  send_last [] = record { submitted = []; all_sent = true }
  send_last (t ∷ ts) = send (t ∷ ts) (record { submitted = []; all_sent = true })

  -- The loop, with the block and its size so far.
  unfoldable pub ship_loop : ℕ → List Bytes → List Bytes → ℕ → Shipped
  ship_loop transaction_size [] block block_size = send_last block
  ship_loop transaction_size (t ∷ ts) block block_size =
      let full = ship_loop transaction_size ts [] 0 in
      let grown = (block_size + transaction_size) % 2 ^ 64 in
      let filling = ship_loop transaction_size ts (block ++ (t ∷ [])) grown in
      if leb max_block_size grown then send (block ++ (t ∷ [])) full else filling

  unfoldable pub ship_blocks : List Bytes → ℕ → Shipped
  unfolding ship_loop
  ship_blocks batch transaction_size = ship_loop transaction_size batch [] 0

module _ (d : Dag) (codec : Codec d) where
  unfoldable pub transaction : ℕ → ObjectId → Bytes → Envelope d
  transaction timestamp_ms id args = record {
    timestamp_ms = timestamp_ms;
    payload = execute (success_with_args [] (id ∷ []) [] args);
  }

  -- The size of an envelope without arguments.
  abbrev pub overhead : ℕ
  overhead = length (to_bytes d codec (transaction 0 (new_id 0) []))

  -- The checks of `start`, and the length of the arguments that it settles on.
  unfoldable pub start : LoadGeneratorConfig → Start
  start config =
      if ltb 0 config.load
      then (if ltb overhead config.transaction_size
          then (if leb config.transaction_size max_payload_size
              then started (config.transaction_size - overhead)
              else refused size_over_cap)
          else refused size_within_overhead)
      else refused load_not_positive

  -- The batch, and the stream behind it.
  unfoldable pub fill_batch : ℕ → ℕ → ℕ → ℕ → Stream → List Bytes × Stream
  unfolding transaction next_id
  fill_batch timestamp_ms zero args_len namespace stream = ([], stream)
  fill_batch timestamp_ms (suc rounds) args_len namespace stream =
      let (batch, stream') =
        fill_batch timestamp_ms rounds args_len namespace (advance_stream stream) in
      (
        to_bytes d codec
              (transaction timestamp_ms (next_id namespace stream) (replicate args_len 0))
            ∷ batch,
        stream',
      )

  -- What a tick leaves: the stream, the metrics, and the blocks that were submitted.
  pub record Ticked : Type 0 where
    pub stream : Stream
    pub metrics : ValidatorMetrics
    pub shipped : Shipped

  unfoldable pub transactions_per_interval : LoadGeneratorConfig → ℕ
  transactions_per_interval config = div_ceil config.load (1000 / target_block_interval)

  -- One round of the loop of `run`. The metrics count the batch only if all of it was sent.
  unfoldable pub tick :
      ℕ → (List Bytes → Bool) → LoadGeneratorConfig → ℕ → ℕ → ℕ → ValidatorMetrics → Stream → Ticked
  unfolding fill_batch ship_blocks transactions_per_interval
  tick max_block_size accepts config timestamp_ms namespace args_len metrics stream =
      let n = transactions_per_interval config in
      let (batch, stream') = fill_batch timestamp_ms n args_len namespace stream in
      let shipped = ship_blocks max_block_size accepts batch config.transaction_size in
      record {
        stream = stream';
        metrics = if shipped.all_sent then inc_submitted_transactions metrics n else metrics;
        shipped = shipped;
      }

  -- The loop over the clock's values at the ticks, up to the first tick that does not get through.
  unfoldable pub run :
      ℕ
      → (List Bytes → Bool)
      → LoadGeneratorConfig
      → List ℕ
      → ℕ
      → ℕ
      → ValidatorMetrics
      → Stream
      → List Ticked
  unfolding tick
  run max_block_size accepts config [] namespace args_len metrics stream = []
  run max_block_size accepts config (timestamp_ms ∷ timestamps) namespace args_len metrics stream =
      let now = tick max_block_size accepts config timestamp_ms namespace args_len metrics stream in
      let rest =
        run max_block_size accepts config timestamps namespace args_len now.metrics now.stream in
      now ∷ (if now.shipped.all_sent then rest else [])
