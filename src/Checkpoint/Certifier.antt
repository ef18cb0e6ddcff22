-- ===== src/Checkpoint/Certifier.antt =====
-- The certifier of crates/checkpoint/src/certifier.rs. Log lines are not modelled.
-- `partition_point` is the index of the first entry that fails its test, which is what the standard
-- library promises of a window that the test partitions.
pub mod Entry
pub mod Window
pub mod Advance
pub mod Ledger
pub mod Calls
pub mod Views
pub mod Agreement
pub mod Tally
pub mod Counting
pub mod Recording
pub mod Quorum
pub mod Soundness
use blockchain_validator.Prelude.{
  ℕ, zero, suc, ◌+◌, ◌-◌, Bool, true, false, Option, none, some, List, [], ◌∷◌, ◌++◌, ltb, length,
  map, ◌==◌, list_eq, nat_eq, if◌then◌else◌,
}
use blockchain_validator.Outcome.{Outcome, ok, panic, index_out_of_bounds, ◌>>=◌}
use blockchain_validator.Dag.{Dag}
use blockchain_validator.Execution.Object.{Digest}
use blockchain_validator.Checkpoint.Types.{Checkpoint, CertifiedCheckpoint}
use blockchain_validator.Checkpoint.Accumulator.{
  CheckpointAccumulator, new_accumulator, add, voted, clear,
}

pub record CheckpointTimings : Type 0 where
  pub minted_at : ℕ
  pub mean_timestamp_ms : ℕ

pub record PendingCheckpoint (d : Dag) : Type 0 where
  pub local : Checkpoint d
  pub timings : CheckpointTimings
  pub accumulators : List (Digest × CheckpointAccumulator d)
  pub certificate : Option (CertifiedCheckpoint d)

pub record CheckpointCertifier (d : Dag) : Type 0 where
  pub committee : d.Committee
  pub quorum : ℕ
  pub pending : List (PendingCheckpoint d)
  pub watermark : Option (CertifiedCheckpoint d)

-- An entry of the window with what stands before and behind it.
pub record Place (d : Dag) : Type 0 where
  pub before : List (PendingCheckpoint d)
  pub entry : PendingCheckpoint d
  pub after : List (PendingCheckpoint d)

-- The pass over the accumulators: the author voted before, or the index for the commitment if any.
pub data Scan : Type 0 where
  voted_before : Scan
  target : Option ℕ → Scan

module _ (d : Dag) where
  abbrev pub entry_round : PendingCheckpoint d → ℕ
  entry_round entry = d.round entry.local.anchor

  abbrev pub new_certifier : d.Committee → ℕ → CheckpointCertifier d
  new_certifier committee quorum = record {
    committee = committee;
    quorum = quorum;
    pending = [];
    watermark = none;
  }

  abbrev pub minted : d.BlockReference → Digest → CheckpointTimings → PendingCheckpoint d
  minted anchor commitment timings = record {
    local = record { anchor = anchor; commitment = commitment };
    timings = timings;
    accumulators = [];
    certificate = none;
  }

  unfoldable pub push :
      CheckpointCertifier d
      → d.BlockReference
      → Digest
      → CheckpointTimings
      → CheckpointCertifier d × Checkpoint d
  push c anchor commitment timings = (
    record c { pending = c.pending ++ (minted anchor commitment timings ∷ []) },
    record { anchor = anchor; commitment = commitment },
  )

  abbrev pub behind : PendingCheckpoint d → Option (Place d) → Option (Place d)
  behind entry none = none
  behind entry (some place) = some (record place { before = entry ∷ place.before })

  -- `take_while` of one round, then `find` of the anchor.
  unfoldable pub same_round : d.BlockReference → List (PendingCheckpoint d) → Option (Place d)
  same_round anchor [] = none
  same_round anchor (entry ∷ entries) =
      if entry_round entry == d.round anchor
      then (if d.reference_eq.beq entry.local.anchor anchor
          then some (record { before = []; entry = entry; after = entries })
          else behind entry (same_round anchor entries))
      else none

  -- From the partition point on.
  unfoldable pub locate : d.BlockReference → List (PendingCheckpoint d) → Option (Place d)
  unfolding same_round
  locate anchor [] = none
  locate anchor (entry ∷ entries) =
      if ltb (entry_round entry) (d.round anchor)
      then behind entry (locate anchor entries)
      else same_round anchor (entry ∷ entries)

  unfoldable pub scan :
      d.Authority → Digest → ℕ → Option ℕ → List (Digest × CheckpointAccumulator d) → Scan
  scan author commitment index found [] = target found
  scan author commitment index found ((attested, acc) ∷ rest) =
      let later =
        scan author commitment (suc index) (if attested == commitment then some index else found)
          rest in
      if voted d acc author then voted_before else later

  -- A counted vote in the accumulator at an index: whether it reached the quorum, and the proof.
  unfoldable pub cast_at :
      d.Authority
      → d.Committee
      → d.BlockReference
      → ℕ
      → List (Digest × CheckpointAccumulator d)
      → Outcome (List (Digest × CheckpointAccumulator d) × Option (List d.BlockReference))
  cast_at author committee subdag index [] = panic index_out_of_bounds
  cast_at author committee subdag zero ((attested, acc) ∷ rest) = do
    (acc', reached) ← add d acc author committee subdag
    let (cleared, proof) = clear d acc'
    ok (
        if reached
        then ((attested, cleared) ∷ rest, some proof)
        else ((attested, acc') ∷ rest, none))
  cast_at author committee subdag (suc index) (first ∷ rest) = do
    (rest', proof) ← cast_at author committee subdag index rest
    ok (first ∷ rest', proof)

  -- The accumulator for the commitment, made if there is none.
  abbrev pub ensure :
      ℕ
      → Digest
      → Option ℕ
      → List (Digest × CheckpointAccumulator d)
      → ℕ × List (Digest × CheckpointAccumulator d)
  ensure quorum commitment (some index) accs = (index, accs)
  ensure quorum commitment none accs =
      let accs' = accs ++ ((commitment, new_accumulator d quorum) ∷ []) in (length accs' - 1, accs')

  -- The entry with the new tally, and with the certificate if the vote reached the quorum.
  abbrev pub conclude :
      Checkpoint d
      → PendingCheckpoint d
      → List (Digest × CheckpointAccumulator d) × Option (List d.BlockReference)
      → PendingCheckpoint d × Bool
  conclude checkpoint entry (accs, none) = (record entry { accumulators = accs }, false)
  conclude checkpoint entry (accs, some proof) = (
    record entry {
      accumulators = accs;
      certificate = some (record { checkpoint = checkpoint; proof = proof });
    },
    true,
  )

  -- The vote in an entry that has no certificate.
  unfoldable pub record_scanned :
      d.Committee
      → ℕ
      → d.BlockReference
      → d.Authority
      → Checkpoint d
      → PendingCheckpoint d
      → Scan
      → Outcome (PendingCheckpoint d × Bool)
  record_scanned committee quorum subdag author checkpoint entry voted_before = ok (entry, false)
  record_scanned committee quorum subdag author checkpoint entry (target found) = do
    let (index, accs) = ensure quorum checkpoint.commitment found entry.accumulators
    outcome ← cast_at author committee subdag index accs
    ok (conclude checkpoint entry outcome)

  -- Already certified: a certificate never changes.
  unfoldable pub record_unless_certified :
      d.Committee
      → ℕ
      → d.BlockReference
      → d.Authority
      → Checkpoint d
      → PendingCheckpoint d
      → Option (CertifiedCheckpoint d)
      → Outcome (PendingCheckpoint d × Bool)
  record_unless_certified committee quorum subdag author checkpoint entry (some _) =
      ok (entry, false)
  record_unless_certified committee quorum subdag author checkpoint entry none =
      record_scanned committee quorum subdag author checkpoint entry
        (scan author checkpoint.commitment 0 none entry.accumulators)

  unfoldable pub record_entry :
      d.Committee
      → ℕ
      → d.BlockReference
      → d.Authority
      → Checkpoint d
      → PendingCheckpoint d
      → Outcome (PendingCheckpoint d × Bool)
  unfolding record_unless_certified
  record_entry committee quorum subdag author checkpoint entry =
      record_unless_certified committee quorum subdag author checkpoint entry entry.certificate

  -- The loop that pops the certified front of the window.
  unfoldable pub advance :
      List (PendingCheckpoint d)
      → Option (CertifiedCheckpoint d)
      → List (PendingCheckpoint d) × Option (CertifiedCheckpoint d)
  advance [] watermark = ([], watermark)
  advance (entry ∷ entries) watermark = elim entry.certificate [
    | none ↦ (entry ∷ entries, watermark)
    | some certificate ↦ advance entries (some certificate)
  ]

  abbrev pub settle :
      CheckpointCertifier d
      → Place d
      → PendingCheckpoint d × Bool
      → CheckpointCertifier d × Option CheckpointTimings
  settle c place (entry, false) =
      (record c { pending = place.before ++ (entry ∷ place.after) }, none)
  settle c place (entry, true) =
      let (pending, watermark) = advance (place.before ++ (entry ∷ place.after)) c.watermark in
      (record c { pending = pending; watermark = watermark }, some entry.timings)

  unfoldable pub record_at :
      CheckpointCertifier d
      → d.BlockReference
      → d.Authority
      → Checkpoint d
      → Option (Place d)
      → Outcome (CheckpointCertifier d × Option CheckpointTimings)
  record_at c subdag author checkpoint none = ok (c, none)
  record_at c subdag author checkpoint (some place) = do
    outcome ← record_entry c.committee c.quorum subdag author checkpoint place.entry
    ok (settle c place outcome)

  unfoldable pub record_vote :
      CheckpointCertifier d
      → d.BlockReference
      → d.Authority
      → Checkpoint d
      → Outcome (CheckpointCertifier d × Option CheckpointTimings)
  record_vote c subdag author checkpoint =
      record_at c subdag author checkpoint (locate checkpoint.anchor c.pending)

  abbrev pub highest_certified : CheckpointCertifier d → Option (CertifiedCheckpoint d)
  highest_certified c = c.watermark

  -- `pending()`
  abbrev pub pending_checkpoints : CheckpointCertifier d → List (Checkpoint d)
  pending_checkpoints c = map (λ entry. entry.local) c.pending
