-- ===== src/Examples/Checkpoint.antt =====
-- Runs of the checkpoint crate.
use blockchain_validator.Prelude.{
  zero, suc, inr, ◌≤◌, All, Distinct, ◌+◌, arith, inl, ℕ, ◌≡◌, ◌⊎◌, refl, none, some, List, [], ◌∷◌,
  Bool, true, false,
}
use blockchain_validator.Outcome.{ok}
use blockchain_validator.Execution.Object.{default_digest}
use blockchain_validator.Checkpoint.Types.{Checkpoint, CertifiedCheckpoint}
use blockchain_validator.Checkpoint.Accumulator.{count_vote, add, clear}
use blockchain_validator.Checkpoint.Certifier.{
  CheckpointTimings, PendingCheckpoint, CheckpointCertifier, Place, new_certifier, minted, push,
  locate, same_round, record_vote, record_at, record_entry, record_unless_certified, record_scanned,
  scan, cast_at, advance,
}
use blockchain_validator.Checkpoint.Certifier.Window.{InRoundOrder, IsFirst, Unminted}
use blockchain_validator.Checkpoint.Certifier.Window.Order.{run-InRoundOrder}
use blockchain_validator.Checkpoint.Certifier.Ledger.{
  IsLedger, Recorded, new-IsLedger, push-IsLedger, record_vote-IsLedger,
}
use blockchain_validator.Checkpoint.Certifier.Calls.{Call, mint, vote, step, run}
use blockchain_validator.Checkpoint.Certifier.Views.{erase_all}
use blockchain_validator.Checkpoint.Certifier.Agreement.{run-agreement}
use blockchain_validator.Checkpoint.Certifier.Soundness.{IsJustified}
use blockchain_validator.Checkpoint.Certifier.Soundness.Runs.{IsDelivered, run-IsJustified}
use blockchain_validator.Checkpoint.Certifier.Quorum.{IsCovered, total}
use blockchain_validator.Checkpoint.Certifier.Soundness.Forks.{HasVote, certificates-Overlap}
use blockchain_validator.Checkpoint.Certifier.Tally.{nothing-Tracks, has_voted}
use blockchain_validator.Checkpoint.Certifier.Recording
use blockchain_validator.Checkpoint.Certifier.Recording.{record_entry-Recorded}
use blockchain_validator.Examples.Data.{dag, dag-SetLaws, four}

abbrev timings : CheckpointTimings
timings = record { minted_at = 7; mean_timestamp_ms = 5 }

abbrev anchor : ℕ × ℕ
anchor = (1, 0)

abbrev entry : PendingCheckpoint dag
entry = minted dag anchor default_digest timings

abbrev ballot : Checkpoint dag
ballot = record { anchor = anchor; commitment = default_digest }

abbrev certifier : CheckpointCertifier dag
certifier = record { committee = four; quorum = 3; pending = entry ∷ []; watermark = none }

-- After a vote of the authority 0, delivered by the sub-dag of (2, 0).
abbrev voted_entry : PendingCheckpoint dag
voted_entry = record entry {
  accumulators =
      (
        default_digest,
        record { votes = 0 ∷ []; stake = 1; threshold = 3; delivered_in = (2, 0) ∷ [] },
      )
      ∷ [];
}

abbrev voted_certifier : CheckpointCertifier dag
voted_certifier = record certifier { pending = voted_entry ∷ [] }

vote_counted : record_vote dag certifier (2, 0) 0 ballot ≡ ok (voted_certifier, none)
unfolding record_vote record_at locate same_round record_entry record_unless_certified
    record_scanned scan cast_at add count_vote clear
vote_counted = refl

certifier-IsLedger : IsLedger dag (entry ∷ []) certifier
unfolding push
certifier-IsLedger =
    push-IsLedger dag [] (new_certifier dag four 3) anchor default_digest timings
      (new-IsLedger dag four 3)

record_vote-IsLedger_example :
    (all' : List (PendingCheckpoint dag)) × Recorded dag four 3 (2, 0) 0 ballot (entry ∷ []) all'
    × IsLedger dag all' voted_certifier
record_vote-IsLedger_example =
    record_vote-IsLedger dag (entry ∷ []) certifier voted_certifier (2, 0) 0 ballot none
      certifier-IsLedger vote_counted

-- The same vote after mints of other commitments at other times.
abbrev ours : List (Call dag)
ours = mint anchor default_digest timings ∷ vote (2, 0) 0 ballot ∷ []

abbrev theirs : List (Call dag)
theirs =
    mint anchor [] (record { minted_at = 0; mean_timestamp_ms = 0 }) ∷ vote (2, 0) 0 ballot ∷ []

vote_runs : run dag (new_certifier dag four 3) ours ≡ ok voted_certifier
unfolding run step push record_vote record_at locate same_round record_entry record_unless_certified
    record_scanned scan cast_at add count_vote clear
vote_runs = refl

run-agreement_example :
    (them' : CheckpointCertifier dag) × (run dag (new_certifier dag four 3) theirs ≡ ok them')
    × (erase_all dag (λ c. []) voted_certifier ≡ erase_all dag (λ c. []) them')
run-agreement_example =
    run-agreement dag (λ c. []) ours theirs (new_certifier dag four 3) (new_certifier dag four 3)
      voted_certifier refl refl vote_runs

record_entry-Recorded_example :
    ((has_voted dag [] 0 ≡ true)
      × (record_entry dag four 3 (2, 0) 0 ballot entry ≡ ok (entry, false)))
    ⊎ ((has_voted dag [] 0 ≡ false)
        × ((entry' : PendingCheckpoint dag) × (reached : Bool) × (record_entry dag four 3
                (2, 0)
                0
                ballot
                entry
              ≡ ok (entry', reached))
            × Recording.Recorded dag dag-SetLaws four 3
                (record { subdag = (2, 0); author = 0; commitment = default_digest } ∷ [])
                ballot
                entry'
                reached))
record_entry-Recorded_example =
    record_entry-Recorded dag dag-SetLaws four 3 [] entry ballot (2, 0) 0 1 refl
      (nothing-Tracks dag four 3) refl

-- Three of the four vote for the checkpoint, which is then the watermark.
abbrev quorate : List (Call dag)
quorate =
    mint anchor default_digest timings
    ∷ vote (2, 0) 0 ballot
    ∷ vote (2, 0) 2 ballot
    ∷ vote (3, 0) 1 ballot
    ∷ []

abbrev certificate : CertifiedCheckpoint dag
certificate = record { checkpoint = ballot; proof = (2, 0) ∷ (2, 0) ∷ (3, 0) ∷ [] }

abbrev certified : CheckpointCertifier dag
certified = record { committee = four; quorum = 3; pending = []; watermark = some certificate }

quorate_runs : run dag (new_certifier dag four 3) quorate ≡ ok certified
unfolding run step push record_vote record_at locate same_round record_entry record_unless_certified
    record_scanned scan cast_at add count_vote clear advance
quorate_runs = refl

run-IsJustified_example : IsJustified dag four 3 (IsDelivered dag quorate) certificate
run-IsJustified_example =
    run-IsJustified dag dag-SetLaws four 3 quorate certified certificate quorate_runs (inl refl)

-- Elsewhere three of the four vote for another commitment.
abbrev other_ballot : Checkpoint dag
other_ballot = record { anchor = anchor; commitment = 1 ∷ [] }

abbrev conflicting : List (Call dag)
conflicting =
    mint anchor default_digest timings
    ∷ vote (2, 0) 1 other_ballot
    ∷ vote (2, 0) 2 other_ballot
    ∷ vote (3, 0) 3 other_ballot
    ∷ []

abbrev other_certificate : CertifiedCheckpoint dag
other_certificate = record { checkpoint = other_ballot; proof = (2, 0) ∷ (2, 0) ∷ (3, 0) ∷ [] }

abbrev other_certified : CheckpointCertifier dag
other_certified = record {
  committee = four;
  quorum = 3;
  pending = [];
  watermark = some other_certificate;
}

conflicting_runs : run dag (new_certifier dag four 3) conflicting ≡ ok other_certified
unfolding run step push record_vote record_at locate same_round record_entry record_unless_certified
    record_scanned scan cast_at add count_vote clear advance
conflicting_runs = refl

four-IsCovered : (a : ℕ) → IsCovered dag four (0 ∷ 1 ∷ 2 ∷ 3 ∷ []) a
four-IsCovered zero = inl (inl refl)
four-IsCovered (suc zero) = inl (inr (inl refl))
four-IsCovered (suc (suc zero)) = inl (inr (inr (inl refl)))
four-IsCovered (suc (suc (suc zero))) = inl (inr (inr (inr (inl refl))))
four-IsCovered (suc (suc (suc (suc n)))) = inr refl

certificates-Overlap_example :
    (common : List ℕ) × Distinct common
    × All (HasVote dag quorate ballot) common
    × All (HasVote dag conflicting other_ballot) common
    × (6 ≤ 4 + total dag four common)
certificates-Overlap_example =
    certificates-Overlap dag dag-SetLaws four 3 (0 ∷ 1 ∷ 2 ∷ 3 ∷ []) quorate conflicting certified
      other_certified certificate other_certificate four-IsCovered quorate_runs conflicting_runs
      (inl refl) (inl refl)

run-InRoundOrder_example :
    InRoundOrder dag voted_certifier.pending
    × ((anchor : ℕ × ℕ)
        → ((locate dag anchor voted_certifier.pending ≡ none)
            × Unminted dag anchor voted_certifier.pending)
          ⊎ ((place : Place dag) × (locate dag anchor voted_certifier.pending ≡ some place)
              × IsFirst dag anchor voted_certifier.pending place))
run-InRoundOrder_example =
    run-InRoundOrder dag four 3 ours voted_certifier (omega arith, tt) vote_runs
