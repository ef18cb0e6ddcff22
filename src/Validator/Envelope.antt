-- ===== src/Validator/Envelope.antt =====
-- crates/validator/src/envelope.rs. The codec is a parameter: `serialize` is `bincode::serialize`, and
-- `deserialize` is the decoder with the options of `from_bytes`, under a limit on the size.
use blockchain_validator.Prelude.{ℕ, ◌*◌, ◌≤◌, ◌≡◌, Option, some, length}
use blockchain_validator.Dag.{Dag}
use blockchain_validator.Execution.Object.{Bytes, IsU64}
use blockchain_validator.Execution.Transaction.{Transaction}
use blockchain_validator.Checkpoint.Types.{Checkpoint}

abbrev pub max_payload_size : ℕ
max_payload_size = 1024 * 1024

pub data Payload (d : Dag) : Type 0 where
  execute : Transaction → Payload d
  attest : Checkpoint d → Payload d

pub record Envelope (d : Dag) : Type 0 where
  pub timestamp_ms : ℕ
  pub payload : Payload d

pub record Codec (d : Dag) : Type 0 where
  pub serialize : Envelope d → Bytes
  pub deserialize : ℕ → Bytes → Option (Envelope d)

-- What the code relies on: an envelope within the limit is read back.
pub record CodecLaws (d : Dag) (codec : Codec d) : Type 0 where
  pub deserialize-serialize :
      (limit : ℕ) (e : Envelope d)
      → IsU64 e.timestamp_ms
      → length (codec.serialize e) ≤ limit
      → codec.deserialize limit (codec.serialize e) ≡ some e

module _ (d : Dag) (codec : Codec d) where
  abbrev pub to_bytes : Envelope d → Bytes
  to_bytes = codec.serialize

  abbrev pub from_bytes : Bytes → Option (Envelope d)
  from_bytes = codec.deserialize max_payload_size
