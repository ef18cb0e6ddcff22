-- ===== src/Checkpoint/Certifier/Calls.antt =====
-- A certifier as the sequence of calls that it gets.
use blockchain_validator.Prelude.{List, [], ◌∷◌, ◌++◌, ◌≡◌, refl, inl, inr}
use blockchain_validator.Outcome.{Outcome, Outcome-cases, ok, ◌>>=◌}
use blockchain_validator.Dag.{Dag}
use blockchain_validator.Execution.Object.{Digest}
use blockchain_validator.Checkpoint.Types.{Checkpoint}
use blockchain_validator.Checkpoint.Certifier.{
  CheckpointTimings, CheckpointCertifier, push, record_vote,
}

-- One call of the certifier: a mint, or a vote delivered by a committed sub-dag.
pub data Call (d : Dag) : Type 0 where
  mint : d.BlockReference → Digest → CheckpointTimings → Call d
  vote : d.BlockReference → d.Authority → Checkpoint d → Call d

module _ (d : Dag) where
  unfoldable pub step : CheckpointCertifier d → Call d → Outcome (CheckpointCertifier d)
  step c (mint anchor commitment timings) = ok (push d c anchor commitment timings).0
  step c (vote subdag author checkpoint) = record_vote d c subdag author checkpoint >>= λ r. ok r.0

  unfoldable pub run : CheckpointCertifier d → List (Call d) → Outcome (CheckpointCertifier d)
  unfolding step
  run c [] = ok c
  run c (e ∷ es) = step c e >>= λ c'. run c' es

  pub run-append :
      (c : CheckpointCertifier d) (xs ys : List (Call d))
      → run c (xs ++ ys) ≡ (run c xs >>= λ c'. run c' ys)
  unfolding run
  run-append c [] ys = refl
  run-append c (x ∷ xs) ys = elim (Outcome-cases (step c x)) [
    | inl (c', e) ↦ rw e (run-append c' xs ys)
    | inr (p, e) ↦ rw e
  ]
