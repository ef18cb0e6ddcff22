-- ===== src/Examples/Codec.antt =====
-- A codec for the examples: each list but the last is preceded by its length.
use blockchain_validator.Prelude.{
  ℕ, zero, suc, ◌≡◌, refl, ap, Option, none, some, List, [], ◌∷◌, ◌++◌, arith, length, leb, le→leb,
  if◌then◌else◌,
}
use blockchain_validator.Execution.Object.{Bytes, ObjectId, new_id, to_be_bytes}
use blockchain_validator.Execution.Transaction.{
  AccessMode, read_only, write_only, read_write, new_function,
}
use blockchain_validator.Execution.Fake.{success_with_args, function_id}
use blockchain_validator.Validator.Envelope.{Payload, execute, attest, Envelope, Codec, CodecLaws}
use blockchain_validator.Validator.Generator.{transaction}
use blockchain_validator.Validator.Generator.Payloads.{SizeLaw}
use blockchain_validator.Examples.Data.{dag}

abbrev put : Bytes → Bytes → Bytes
put bytes rest = length bytes ∷ (bytes ++ rest)

abbrev cut : ℕ → Bytes → Bytes × Bytes
cut zero bytes = ([], bytes)
cut (suc n) [] = ([], [])
cut (suc n) (b ∷ bytes) = let (front, rest) = cut n bytes in (b ∷ front, rest)

abbrev get : Bytes → Bytes × Bytes
get [] = ([], [])
get (n ∷ bytes) = cut n bytes

cut-append : (front rest : Bytes) → cut (length front) (front ++ rest) ≡ (front, rest)
cut-append [] rest = refl
cut-append (b ∷ front) rest = ap (λ (p : Bytes × Bytes). (b ∷ p.0, p.1)) (cut-append front rest)

abbrev mode_number : AccessMode → ℕ
mode_number read_only = 0
mode_number write_only = 1
mode_number read_write = 2

abbrev mode_of : ℕ → AccessMode
mode_of zero = read_only
mode_of (suc zero) = write_only
mode_of (suc (suc n)) = read_write

mode_of-mode_number : (mode : AccessMode) → mode_of (mode_number mode) ≡ mode
mode_of-mode_number read_only = refl
mode_of-mode_number write_only = refl
mode_of-mode_number read_write = refl

abbrev Inputs : Type 0
Inputs = List (ObjectId × AccessMode)

abbrev put_inputs : Inputs → Bytes → Bytes
put_inputs [] rest = rest
put_inputs ((id, mode) ∷ inputs) rest = put id (mode_number mode ∷ put_inputs inputs rest)

abbrev get_mode : Bytes → AccessMode × Bytes
get_mode [] = (read_only, [])
get_mode (n ∷ bytes) = (mode_of n, bytes)

abbrev get_inputs : ℕ → Bytes → Inputs × Bytes
get_inputs zero bytes = ([], bytes)
get_inputs (suc n) bytes =
    let (id, bytes₁) = get bytes in
    let (mode, bytes₂) = get_mode bytes₁ in
    let (inputs, rest) = get_inputs n bytes₂ in ((id, mode) ∷ inputs, rest)

get_inputs-put_inputs :
    (inputs : Inputs) (rest : Bytes)
    → get_inputs (length inputs) (put_inputs inputs rest) ≡ (inputs, rest)
get_inputs-put_inputs [] rest = refl
get_inputs-put_inputs ((id, mode) ∷ inputs) rest =
    rw (cut-append id (mode_number mode ∷ put_inputs inputs rest)) (
      rw (get_inputs-put_inputs inputs rest)
        (ap (λ m. ((id, m) ∷ inputs, rest)) (mode_of-mode_number mode)))

abbrev put_payload : Payload dag → Bytes
put_payload (execute t) = 0 ∷ put t.function (length t.inputs ∷ put_inputs t.inputs t.args)
put_payload (attest v) = 1 ∷ v.anchor.0 ∷ v.anchor.1 ∷ v.commitment

abbrev get_counted : Bytes → Inputs × Bytes
get_counted [] = ([], [])
get_counted (n ∷ bytes) = get_inputs n bytes

abbrev get_payload : Bytes → Option (Payload dag)
get_payload [] = none
get_payload (zero ∷ bytes) =
    let (function, bytes') = get bytes in
    let (inputs, args) = get_counted bytes' in
    some (execute (record { function = function; inputs = inputs; args = args }))
get_payload (suc n ∷ round ∷ number ∷ commitment) =
    some (attest (record { anchor = (round, number); commitment = commitment }))
get_payload (suc n ∷ _) = none

get_payload-put_payload : (p : Payload dag) → get_payload (put_payload p) ≡ some p
get_payload-put_payload (execute t) =
    rw (cut-append t.function (length t.inputs ∷ put_inputs t.inputs t.args))
      (rw (get_inputs-put_inputs t.inputs t.args) refl)
get_payload-put_payload (attest v) = refl

abbrev with_timestamp : ℕ → Option (Payload dag) → Option (Envelope dag)
with_timestamp timestamp_ms none = none
with_timestamp timestamp_ms (some p) = some (record { timestamp_ms = timestamp_ms; payload = p })

abbrev get_envelope : Bytes → Option (Envelope dag)
get_envelope [] = none
get_envelope (timestamp_ms ∷ bytes) = with_timestamp timestamp_ms (get_payload bytes)

abbrev pub codec : Codec dag
codec = record {
  serialize = λ e. e.timestamp_ms ∷ put_payload e.payload;
  deserialize = λ limit bytes. if leb (length bytes) limit then get_envelope bytes else none;
}

pub codec-CodecLaws : CodecLaws dag codec
codec-CodecLaws = record {
  deserialize-serialize = λ limit e small fits.
      rw (le→leb (length (codec.serialize e)) limit fits)
        (ap (with_timestamp e.timestamp_ms) (get_payload-put_payload e.payload));
}

pub codec-SizeLaw : SizeLaw dag codec
unfolding transaction success_with_args new_id to_be_bytes function_id new_function
codec-SizeLaw = record { size = λ timestamp_ms value args small. omega arith }
