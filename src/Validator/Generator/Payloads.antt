-- ===== src/Validator/Generator/Payloads.antt =====
-- The payloads that the load generator fills a batch with.
use blockchain_validator.Prelude.{
  ℕ, zero, suc, ◌+◌, ◌≤◌, ◌≡◌, refl, ap, ◌∙◌, some, List, [], ◌∷◌, arith, length, length-replicate,
  replicate, All, map,
}
use blockchain_validator.Dag.{Dag}
use blockchain_validator.Execution.Object.{Bytes, ObjectId, IsU64, new_id}
use blockchain_validator.Validator.Envelope.{
  Codec, CodecLaws, to_bytes, from_bytes, max_payload_size,
}
use blockchain_validator.Validator.Generator.{
  LoadGeneratorConfig, started, Stream, advance_stream, next_id, start, overhead, fill_batch,
  transaction, object_number,
}

-- The ids of a batch, in order.
unfoldable pub ids : ℕ → ℕ → Stream → List ObjectId
ids zero namespace stream = []
ids (suc n) namespace stream = next_id namespace stream ∷ ids n namespace (advance_stream stream)

-- What the generator relies on: the size of an envelope depends on that of the arguments alone.
pub record SizeLaw (d : Dag) (codec : Codec d) : Type 0 where
  pub size :
      (timestamp_ms value : ℕ) (args : Bytes)
      → IsU64 timestamp_ms
      → length (to_bytes d codec (transaction d codec timestamp_ms (new_id value) args))
        ≡ overhead d codec + length args

module _ (d : Dag) (codec : Codec d) where
  start-started :
      (config : LoadGeneratorConfig) (n : ℕ)
      → start d codec config ≡ started n
      → (overhead d codec + n ≡ config.transaction_size)
        × (config.transaction_size ≤ max_payload_size)
  unfolding start
  start-started config n e = (ground arith, ground arith)

  -- Where `start` settles on a length of arguments, under the laws of the codec and at a time that is
  -- a u64, every payload of a
  -- batch has the configured size and decodes, to the creation of the next id of the stream, at the
  -- time of the batch.
  pub fill_batch-decodes :
      CodecLaws d codec
      → SizeLaw d codec
      → (config : LoadGeneratorConfig) (args_len timestamp_ms n namespace : ℕ) (stream : Stream)
      → start d codec config ≡ started args_len
      → IsU64 timestamp_ms
      → (map (from_bytes d codec) (fill_batch d codec timestamp_ms n args_len namespace stream).0
          ≡ map
              (λ id. some (transaction d codec timestamp_ms id (replicate args_len 0)))
              (ids n namespace stream))
        × All
            (λ bytes. length bytes ≡ config.transaction_size)
            (fill_batch d codec timestamp_ms n args_len namespace stream).0
  unfolding fill_batch ids next_id transaction
  fill_batch-decodes laws sizes config args_len timestamp_ms zero namespace stream e t = (refl, tt)
  fill_batch-decodes laws sizes config args_len timestamp_ms (suc n) namespace stream e t =
      let (decoded, sized) =
        fill_batch-decodes laws sizes config args_len timestamp_ms n namespace
          (advance_stream stream) e t in
      let (fits, cap) = start-started config args_len e in
      let size =
        sizes.size timestamp_ms (object_number namespace (advance_stream stream).random)
          (replicate args_len 0) t
        ∙ ap (λ n. overhead d codec + n) (length-replicate args_len 0)
        ∙ fits in
      (
        λ i.
            laws.deserialize-serialize max_payload_size
              (transaction d codec timestamp_ms (next_id namespace stream) (replicate args_len 0)) t
              (omega (arith, size, cap)) i
            ∷ decoded i,
        (size, sized),
      )
