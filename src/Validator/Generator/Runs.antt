-- ===== src/Validator/Generator/Runs.antt =====
-- The load generator over all of its ticks.
use native.Mathlib.Nat.{suc-mul}
use blockchain_validator.Prelude.{
  min, ◌%◌, ℕ, zero, suc, ◌+◌, ◌*◌, ◌^◌, ◌≤◌, ◌<◌, ◌≡◌, refl, sym, subst, ap, ◌∙◌, Bool, true,
  false, List, [], ◌∷◌, ◌++◌, map, arith, length, flat_map, replicate, Distinct, if◌then◌else◌,
}
use blockchain_validator.Dag.{Dag}
use blockchain_validator.Execution.Object.{Bytes, ObjectId}
use blockchain_validator.Validator.Envelope.{Codec, to_bytes}
use blockchain_validator.Validator.Metrics.{ValidatorMetrics, inc_submitted_transactions}
use blockchain_validator.Validator.Generator.{
  LoadGeneratorConfig, Stream, Ticked, advance_stream, next_id, fill_batch, transaction,
  ship_blocks, transactions_per_interval, tick, run,
}
use blockchain_validator.Validator.Generator.Blocks.{IsShipment, ship_blocks-IsShipment}
use blockchain_validator.Validator.Generator.Payloads.{ids}
use blockchain_validator.Validator.Generator.Ids.{ids-Distinct}

abbrev advanced : ℕ → Stream → Stream
advanced zero stream = stream
advanced (suc n) stream = advanced n (advance_stream stream)

ids-add :
    (n m namespace : ℕ) (stream : Stream)
    → ids (n + m) namespace stream ≡ ids n namespace stream ++ ids m namespace (advanced n stream)
unfolding ids
ids-add zero m namespace stream =
    let same : zero + m ≡ m = omega arith in ap (λ k. ids k namespace stream) same
ids-add (suc n) m namespace stream =
    let more : suc n + m ≡ suc (n + m) = omega arith in
    ap (λ k. ids k namespace stream) more
    ∙ ap (◌∷◌ (next_id namespace stream)) (ids-add n m namespace (advance_stream stream))

module _ (d : Dag) (codec : Codec d) (args_len namespace : ℕ) where
  -- What is created at each tick, with its time, for a number of transactions at each.
  abbrev pub planned : ℕ → List ℕ → Stream → List (List (ℕ × ObjectId))
  planned n [] stream = []
  planned n (timestamp_ms ∷ timestamps) stream =
      map (λ id. (timestamp_ms, id)) (ids n namespace stream)
      ∷ planned n timestamps (advanced n stream)

  -- The ids of a plan.
  abbrev pub created : List (List (ℕ × ObjectId)) → List ObjectId
  created = flat_map (map (λ (p : ℕ × ObjectId). p.1))

  abbrev pub payload_of : ℕ × ObjectId → Bytes
  payload_of (timestamp_ms, id) =
      to_bytes d codec (transaction d codec timestamp_ms id (replicate args_len 0))

  second-map :
      (timestamp_ms : ℕ) (xs : List ObjectId)
      → map (λ (p : ℕ × ObjectId). p.1) (map (λ id. (timestamp_ms, id)) xs) ≡ xs
  second-map timestamp_ms [] = refl
  second-map timestamp_ms (x ∷ xs) = ap (◌∷◌ x) (second-map timestamp_ms xs)

  planned-ids :
      (n : ℕ) (timestamps : List ℕ) (stream : Stream)
      → created (planned n timestamps stream) ≡ ids (length timestamps * n) namespace stream
  unfolding ids
  planned-ids n [] stream = ap (λ k. ids k namespace stream) (sym nothing)
    where
      nothing : 0 * n ≡ 0
      nothing = omega arith
  planned-ids n (timestamp_ms ∷ timestamps) stream =
      (λ i.
        second-map timestamp_ms (ids n namespace stream) i
        ++ planned-ids n timestamps (advanced n stream) i)
      ∙ sym (ids-add n (length timestamps * n) namespace stream)
      ∙ ap (λ k. ids k namespace stream) (sym more)
    where
      more : suc (length timestamps) * n ≡ n + length timestamps * n
      more = omega (arith, suc-mul (length timestamps) n)

  fill_batch-planned :
      (timestamp_ms n : ℕ) (stream : Stream)
      → fill_batch d codec timestamp_ms n args_len namespace stream ≡ (
        map payload_of (map (λ id. (timestamp_ms, id)) (ids n namespace stream)),
        advanced n stream,
      )
  unfolding fill_batch ids
  fill_batch-planned timestamp_ms zero stream = refl
  fill_batch-planned timestamp_ms (suc n) stream =
      ap
        (λ r. (
          to_bytes d codec
                (transaction d codec timestamp_ms (next_id namespace stream) (replicate args_len 0))
              ∷ r.0,
          r.1,
        ))
        (fill_batch-planned timestamp_ms n (advance_stream stream))

  module _ (max_block_size transaction_size : ℕ) (accepts : List Bytes → Bool) where
    -- What holds behind a tick, by whether all of its batch was sent.
    abbrev pub GoesOn : Bool → Type 0 → Type 0 → Type 0
    GoesOn true P Q = P
    GoesOn false P Q = Q

    -- A run over batches, of which each tick ships one and counts it if all of it was sent. The run
    -- goes on after such a tick, and ends after any other.
    abbrev pub IsRun : ℕ → List (List Bytes) → ValidatorMetrics → List (Ticked d codec) → Type 0
    IsRun n [] metrics ticks = ticks ≡ []
    IsRun n (batch ∷ batches) metrics [] = ⊥
    IsRun n (batch ∷ batches) metrics (t ∷ ticks) =
        IsShipment max_block_size transaction_size accepts batch t.shipped
        × (t.metrics.submitted_transactions ≡ (
            if t.shipped.all_sent
            then (metrics.submitted_transactions + n) % 2 ^ 64
            else metrics.submitted_transactions))
        × GoesOn t.shipped.all_sent (IsRun n batches t.metrics ticks) (ticks ≡ [])

    -- A tick, before the run of the others.
    tick-IsRun :
        (n : ℕ) (batch : List Bytes) (batches : List (List Bytes)) (metrics : ValidatorMetrics)
        (stream : Stream) (submitted : List (List Bytes)) (all_sent : Bool)
        (ticks : ValidatorMetrics → List (Ticked d codec))
        → IsShipment max_block_size transaction_size accepts batch
            (record { submitted = submitted; all_sent = all_sent })
        → ((m : ValidatorMetrics) → IsRun n batches m (ticks m))
        → let counted = if all_sent then inc_submitted_transactions metrics n else metrics in
          IsRun n (batch ∷ batches) metrics (
            record {
              stream = stream;
              metrics = counted;
              shipped = record { submitted = submitted; all_sent = all_sent };
            }
            ∷ (if all_sent then ticks counted else []))
    tick-IsRun n batch batches metrics stream submitted true ticks s others =
        (s, refl, others (inc_submitted_transactions metrics n))
    tick-IsRun n batch batches metrics stream submitted false ticks s others = (s, refl, refl)

  module _ (max_block_size : ℕ) (accepts : List Bytes → Bool) (config : LoadGeneratorConfig)
      (h : 0 < max_block_size) (range : max_block_size + config.transaction_size ≤ 2 ^ 64) where
    run-IsRun :
        (timestamps : List ℕ) (metrics : ValidatorMetrics) (stream : Stream)
        → IsRun max_block_size config.transaction_size accepts
            (transactions_per_interval d codec config)
            (map
              (map payload_of)
              (planned (transactions_per_interval d codec config) timestamps stream))
            metrics
            (run d codec max_block_size accepts config timestamps namespace args_len metrics stream)
    unfolding run tick
    run-IsRun [] metrics stream = refl
    run-IsRun (timestamp_ms ∷ timestamps) metrics stream =
        let n = transactions_per_interval d codec config in
        let batch = fill_batch d codec timestamp_ms n args_len namespace stream in
        let shipped = ship_blocks max_block_size accepts batch.0 config.transaction_size in
        let others = map (map payload_of) (planned n timestamps (advanced n stream)) in
        let same = fill_batch-planned timestamp_ms n stream in
        subst
          (λ (b : List Bytes).
            IsRun max_block_size config.transaction_size accepts n (b ∷ others) metrics (
              run d codec max_block_size accepts config (timestamp_ms ∷ timestamps) namespace
                args_len metrics stream))
          (ap (λ (b : List Bytes × Stream). b.0) same)
          (tick-IsRun max_block_size config.transaction_size accepts n batch.0 others metrics
            batch.1 shipped.submitted shipped.all_sent
            (λ m. run d codec max_block_size accepts config timestamps namespace args_len m batch.1)
            (ship_blocks-IsShipment max_block_size config.transaction_size accepts batch.0 h range)
            (λ m.
              subst
                (λ next.
                  IsRun max_block_size config.transaction_size accepts n others m (
                    run d codec max_block_size accepts config timestamps namespace args_len m next))
                (sym (ap (λ (b : List Bytes × Stream). b.1) same))
                (run-IsRun timestamps m (advanced n stream))))

    -- Where the maximal size is not zero, and with the size of a transaction at most 2 ^ 64: a run
    -- over the times of some ticks ships at each tick, cut into blocks up to the first that the client
    -- refuses, the payloads that create the next ids of the stream at this time, so many at each. It
    -- goes on after a tick exactly if all of its batch was sent, and then counts so many more
    -- transactions, modulo 2 ^ 64. The first 2 ^ 56 ids of the plan of a new stream are distinct,
    -- whatever its seed.
    pub run-creates :
        (timestamps : List ℕ) (metrics : ValidatorMetrics) (random : ℕ)
        → let n = transactions_per_interval d codec config in
          let stream : Stream = record { counter = 0; random = random } in
          IsRun max_block_size config.transaction_size accepts n
            (map (map payload_of) (planned n timestamps stream))
            metrics
            (run d codec max_block_size accepts config timestamps namespace args_len metrics stream)
          × (created (planned n timestamps stream) ≡ ids (length timestamps * n) namespace stream)
          × Distinct (ids (min (length timestamps * n) (2 ^ 56)) namespace stream)
    run-creates timestamps metrics random =
        let n = transactions_per_interval d codec config in
        let stream : Stream = record { counter = 0; random = random } in
        (
          run-IsRun timestamps metrics stream,
          planned-ids n timestamps stream,
          ids-Distinct namespace random (min (length timestamps * n) (2 ^ 56)) (omega arith),
        )
