-- ===== src/Validator/Subdag/Determinism.antt =====
-- What a sub-dag does not depend on: the clock and the metrics of the validator.
use blockchain_validator.Prelude.{
  ℕ, zero, suc, ◌≡◌, refl, sym, subst, ap, ◌∙◌, List, [], ◌∷◌, ◌++◌, map, length,
}
use blockchain_validator.Outcome.{ok, ◌>>=◌, bind-eq-ok, ok-injective}
use blockchain_validator.Dag.{Dag, SubDags}
use blockchain_validator.Execution.Object.{Bytes, Digest}
use blockchain_validator.Execution.Effects.{ExecutionStatus}
use blockchain_validator.Execution.Scheduler.{SequentialScheduler}
use blockchain_validator.Execution.Scheduler
use blockchain_validator.Checkpoint.Types.{Checkpoint}
use blockchain_validator.Checkpoint.Certifier.{CheckpointCertifier, record_vote}
use blockchain_validator.Checkpoint.Certifier.Calls.{Call, vote, step, run}
use blockchain_validator.Checkpoint.Certifier.Views.{erase_all, erase_call}
use blockchain_validator.Checkpoint.Certifier.Agreement.{run-agreement}
use blockchain_validator.Validator.Envelope.{Codec}
use blockchain_validator.Validator.Metrics.{ValidatorMetrics}
use blockchain_validator.Validator.Subdag.{
  ExecutionState, Collected, mint, observe, record_votes, Executed, certify_batch,
  execute_collected, execute_subdag,
}
use blockchain_validator.Validator.Subdag.Parts.{
  mint_calls, checkpoint_of, mint-checkpoint, mint-run, execute_collected-Ran,
}

-- The same state but for the timings of the minted checkpoints.
pub record Alike (d : Dag) (a b : ExecutionState d) : Type 0 where
  pub scheduler : a.scheduler ≡ b.scheduler
  pub certifier : erase_all d (λ c. c) a.certifier ≡ erase_all d (λ c. c) b.certifier

-- The same results but for the timings and the metrics.
pub record SameResult (d : Dag) (s : SubDags d) (a b : Executed d s) : Type 0 where
  pub executed : a.executed ≡ b.executed
  pub minted : a.minted ≡ b.minted
  pub state : Alike d a.state b.state

module _ (d : Dag) where
  -- The votes get through where the certifier's calls do.
  record_votes-total :
      (anchor : d.BlockReference) (now : ℕ) (c c' : CheckpointCertifier d)
      (metrics : ValidatorMetrics) (votes : List (d.Authority × Checkpoint d))
      → run d c (map (λ v. vote anchor v.0 v.1) votes) ≡ ok c'
      → (metrics' : ValidatorMetrics) × (record_votes d anchor now c metrics votes
          ≡ ok (c', metrics'))
  unfolding record_votes run step
  record_votes-total anchor now c c' metrics [] e =
      (metrics, ap (λ c. ok (c, metrics)) (ok-injective e))
  record_votes-total anchor now c c' metrics ((author, v) ∷ votes) e =
      let (c₁, first, rest) = bind-eq-ok (record_vote d c anchor author v >>= λ r. ok r.0) _ e in
      let (r, voted, same) = bind-eq-ok (record_vote d c anchor author v) (λ r. ok r.0) first in
      let (metrics', done) =
        record_votes-total anchor now r.0 c' (observe d metrics now r.1) votes (
          subst (λ c₂. run d c₂ (map (λ v. vote anchor v.0 v.1) votes) ≡ ok c')
            (sym (ok-injective same)) rest) in
      (metrics', rw voted done)

  mint_calls-erase :
      (anchor : d.BlockReference) (commitment : Digest) (now now' stamps n : ℕ)
      (calls : List (Call d))
      → map (erase_call d (λ c. c)) (mint_calls d anchor commitment now stamps n ++ calls)
        ≡ map (erase_call d (λ c. c)) (mint_calls d anchor commitment now' stamps n ++ calls)
  mint_calls-erase anchor commitment now now' stamps zero calls = refl
  mint_calls-erase anchor commitment now now' stamps (suc n) calls = refl

  module _ (s : SubDags d) (hash : Bytes → Digest) where
    certify_batch-total :
        (state : ExecutionState d) (metrics : ValidatorMetrics) (now : ℕ)
        (anchor : d.BlockReference) (found : Collected d) (statuses : List ExecutionStatus)
        (scheduler : SequentialScheduler) (c' : CheckpointCertifier d)
        → run d state.certifier (
            mint_calls d anchor scheduler.store.commitment now found.stamp_sum_ms (length statuses)
            ++ map (λ v. vote anchor v.0 v.1) found.votes)
          ≡ ok c'
        → (metrics' : ValidatorMetrics) × (certify_batch d s state metrics now anchor found
              (statuses, scheduler)
            ≡ ok (record {
              executed = length statuses;
              minted = checkpoint_of d anchor scheduler.store.commitment (length statuses);
              state = record { scheduler = scheduler; certifier = c' };
              metrics = metrics';
            }))
    unfolding certify_batch
    certify_batch-total state metrics now anchor found statuses scheduler c' e =
        let (metrics', voted) =
          record_votes-total anchor now
            (mint d state.certifier anchor scheduler.store.commitment now found.stamp_sum_ms
              (length statuses)).0
            c' metrics found.votes
            (mint-run d state.certifier anchor scheduler.store.commitment now found.stamp_sum_ms
                (length statuses) (map (λ v. vote anchor v.0 v.1) found.votes)
              ∙ e) in
        (
          metrics',
          rw voted (
              ap
                (λ m. ok (record {
                  executed = length statuses;
                  minted = m;
                  state = record { scheduler = scheduler; certifier = c' };
                  metrics = metrics';
                }))
                (mint-checkpoint d state.certifier anchor scheduler.store.commitment now
                  found.stamp_sum_ms (length statuses))),
        )

    collected-SameResult :
        (a b : ExecutionState d) (metrics metrics' : ValidatorMetrics) (now now' : ℕ)
        (anchor : d.BlockReference) (found : Collected d) (r : Executed d s)
        → Alike d a b
        → execute_collected d s hash a metrics now anchor found ≡ ok r
        → (r' : Executed d s) × (execute_collected d s hash b metrics' now' anchor found ≡ ok r')
          × SameResult d s r r'
    unfolding execute_collected
    collected-SameResult a b metrics metrics' now now' anchor found r alike e =
        let ran = execute_collected-Ran d s hash a metrics now anchor found r e in
        let commitment = r.state.scheduler.store.commitment in
        let n = length ran.statuses in
        let (c', voted, certifier) =
          run-agreement d (λ c. c)
            (mint_calls d anchor commitment now found.stamp_sum_ms n
              ++ map (λ v. vote anchor v.0 v.1) found.votes)
            (mint_calls d anchor commitment now' found.stamp_sum_ms n
              ++ map (λ v. vote anchor v.0 v.1) found.votes)
            a.certifier b.certifier r.state.certifier alike.certifier
            (mint_calls-erase anchor commitment now now' found.stamp_sum_ms n _) ran.certified in
        let (m, done) =
          certify_batch-total b metrics' now' anchor found ran.statuses r.state.scheduler c'
            voted in
        (
          record {
            executed = n;
            minted = checkpoint_of d anchor commitment n;
            state = record { scheduler = r.state.scheduler; certifier = c' };
            metrics = m;
          },
          ap
                (λ u.
                  Scheduler.execute hash u found.transactions
                  >>= certify_batch d s b metrics' now' anchor found)
                (sym alike.scheduler)
              ∙ ap (λ p. p >>= certify_batch d s b metrics' now' anchor found) ran.scheduled
              ∙ done,
          record {
            executed = ran.count;
            minted = ran.minted;
            state = record { scheduler = refl; certifier = certifier };
          },
        )

    -- Two validators in states that differ in timings alone fare alike with a sub-dag, whatever their
    -- clocks and metrics: if the one gets through, so does the other, with as many transactions
    -- executed, with the same checkpoint minted, and in states that differ in timings alone again.
    pub execute_subdag-SameResult :
        (codec : Codec d) (a b : ExecutionState d) (metrics metrics' : ValidatorMetrics)
        (now now' : ℕ) (subdag : s.CommittedSubDag) (r : Executed d s)
        → Alike d a b
        → execute_subdag d s hash codec a metrics now subdag ≡ ok r
        → (r' : Executed d s) × (execute_subdag d s hash codec b metrics' now' subdag ≡ ok r')
          × SameResult d s r r'
    unfolding execute_subdag
    execute_subdag-SameResult codec a b metrics metrics' now now' subdag r alike e =
        collected-SameResult a b metrics metrics' now now' (s.anchor subdag) _ r alike e
