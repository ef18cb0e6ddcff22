-- ===== src/Validator/Subdag/Parts.antt =====
-- What a committed sub-dag does: a batch for the scheduler, then calls for the certifier.
use blockchain_validator.Prelude.{
  ℕ, zero, suc, ◌/◌, ◌%◌, ◌^◌, ◌≡◌, refl, sym, subst, ap, ◌∙◌, Option, none, some, List, [], ◌∷◌,
  ◌++◌, map, length, length-map,
}
use blockchain_validator.Outcome.{ok, bind-eq-ok, ok-injective}
use blockchain_validator.Dag.{Dag, SubDags}
use blockchain_validator.Execution.Object.{Bytes, Digest}
use blockchain_validator.Execution.Effects.{ExecutionStatus}
use blockchain_validator.Execution.Transaction.{Transaction}
use blockchain_validator.Execution.Scheduler.{SequentialScheduler}
use blockchain_validator.Execution.Scheduler
use blockchain_validator.Execution.Scheduler.Batches.{execute-length}
use blockchain_validator.Checkpoint.Types.{Checkpoint}
use blockchain_validator.Checkpoint.Certifier.{CheckpointCertifier, push, record_vote}
use blockchain_validator.Checkpoint.Certifier.Calls.{Call, vote, step, run}
use blockchain_validator.Checkpoint.Certifier.Calls
use blockchain_validator.Validator.Envelope.{Codec}
use blockchain_validator.Validator.Metrics.{ValidatorMetrics}
use blockchain_validator.Validator.Subdag.{
  ExecutionState, Collected, mint, observe, record_votes, attributed, Executed, certify_batch,
  execute_collected, execute_subdag,
}
use blockchain_validator.Validator.Subdag.Collecting.{
  total, executables, ballots, collect-described,
}

module _ (d : Dag) where
  -- The call that mints, for a batch of `n`.
  abbrev pub mint_calls : d.BlockReference → Digest → ℕ → ℕ → ℕ → List (Call d)
  mint_calls anchor commitment now stamps zero = []
  mint_calls anchor commitment now stamps (suc n) =
      Calls.mint anchor commitment (record { minted_at = now; mean_timestamp_ms = stamps / suc n })
      ∷ []

  abbrev pub checkpoint_of : d.BlockReference → Digest → ℕ → Option (Checkpoint d)
  checkpoint_of anchor commitment zero = none
  checkpoint_of anchor commitment (suc n) =
      some (record { anchor = anchor; commitment = commitment })

  pub mint-checkpoint :
      (c : CheckpointCertifier d) (anchor : d.BlockReference) (commitment : Digest)
      (now stamps n : ℕ)
      → (mint d c anchor commitment now stamps n).1 ≡ checkpoint_of anchor commitment n
  unfolding push
  mint-checkpoint c anchor commitment now stamps zero = refl
  mint-checkpoint c anchor commitment now stamps (suc n) = refl

  pub mint-run :
      (c : CheckpointCertifier d) (anchor : d.BlockReference) (commitment : Digest)
      (now stamps n : ℕ) (calls : List (Call d))
      → run d (mint d c anchor commitment now stamps n).0 calls
        ≡ run d c (mint_calls anchor commitment now stamps n ++ calls)
  unfolding run step
  mint-run c anchor commitment now stamps zero calls = refl
  mint-run c anchor commitment now stamps (suc n) calls = refl

  pub record_votes-run :
      (anchor : d.BlockReference) (now : ℕ) (c : CheckpointCertifier d) (metrics : ValidatorMetrics)
      (votes : List (d.Authority × Checkpoint d)) (c' : CheckpointCertifier d)
      (metrics' : ValidatorMetrics)
      → record_votes d anchor now c metrics votes ≡ ok (c', metrics')
      → run d c (map (λ v. vote anchor v.0 v.1) votes) ≡ ok c'
  unfolding record_votes run step
  record_votes-run anchor now c metrics [] c' metrics' e =
      ap (λ (p : CheckpointCertifier d × ValidatorMetrics). ok p.0) (ok-injective e)
  record_votes-run anchor now c metrics ((author, v) ∷ votes) c' metrics' e =
      let ((c₁, timings), first, rest) = bind-eq-ok (record_vote d c anchor author v) _ e in
      rw first
        (record_votes-run anchor now c₁ (observe d metrics now timings) votes c' metrics' rest)

module _ (d : Dag) (s : SubDags d) (hash : Bytes → Digest) (state : ExecutionState d)
    (metrics : ValidatorMetrics) (now : ℕ) (anchor : d.BlockReference) (found : Collected d) where
  -- The parts of a call that returns, for what was collected.
  pub record Ran (r : Executed d s) : Type 0 where
    pub statuses : List ExecutionStatus
    pub scheduled :
        Scheduler.execute hash state.scheduler found.transactions ≡ ok (statuses, r.state.scheduler)
    pub count : r.executed ≡ length statuses
    pub minted :
        r.minted ≡ checkpoint_of d anchor r.state.scheduler.store.commitment (length statuses)
    pub certified :
        run d state.certifier (
          mint_calls d anchor r.state.scheduler.store.commitment now found.stamp_sum_ms
            (length statuses)
          ++ map (λ v. vote anchor v.0 v.1) found.votes)
        ≡ ok r.state.certifier

  certify_batch-Ran :
      (p : List ExecutionStatus × SequentialScheduler) (r : Executed d s)
      → Scheduler.execute hash state.scheduler found.transactions ≡ ok p
      → certify_batch d s state metrics now anchor found p ≡ ok r
      → Ran r
  unfolding certify_batch
  certify_batch-Ran (statuses, scheduler) r scheduled e =
      let ((certifier, metrics'), voted, final) =
        bind-eq-ok (record_votes d anchor now _ metrics found.votes) _ e in
      subst Ran (ok-injective final) (record {
        statuses = statuses;
        scheduled = scheduled;
        count = refl;
        minted =
            mint-checkpoint d state.certifier anchor scheduler.store.commitment now
              found.stamp_sum_ms (length statuses);
        certified =
            sym (
              mint-run d state.certifier anchor scheduler.store.commitment now found.stamp_sum_ms
                (length statuses) (map (λ v. vote anchor v.0 v.1) found.votes))
            ∙ record_votes-run d anchor now _ metrics found.votes certifier metrics' voted;
      })

  pub execute_collected-Ran :
      (r : Executed d s) → execute_collected d s hash state metrics now anchor found ≡ ok r → Ran r
  unfolding execute_collected
  execute_collected-Ran r e =
      let (p, scheduled, rest) =
        bind-eq-ok (Scheduler.execute hash state.scheduler found.transactions) _ e in
      certify_batch-Ran p r scheduled rest

module _ (d : Dag) (s : SubDags d) (hash : Bytes → Digest) (codec : Codec d)
    (state : ExecutionState d) (metrics : ValidatorMetrics) (now : ℕ)
    (subdag : s.CommittedSubDag) where
  abbrev pub batch : List (Transaction × ℕ)
  batch = executables d codec (attributed d s (s.blocks (s.sort subdag)))

  -- The calls of the certifier, where the batch ends with a commitment.
  abbrev pub calls : Digest → List (Call d)
  calls commitment =
      mint_calls d (s.anchor subdag) commitment now (total d batch % 2 ^ 64) (length batch)
      ++ map (λ v. vote (s.anchor subdag) v.0 v.1)
          (ballots d codec (attributed d s (s.blocks (s.sort subdag))))

  pub record Parts (r : Executed d s) : Type 0 where
    pub statuses : List ExecutionStatus
    pub scheduled :
        Scheduler.execute hash state.scheduler (map (λ p. p.0) batch)
        ≡ ok (statuses, r.state.scheduler)
    pub count : r.executed ≡ length batch
    pub minted :
        r.minted
        ≡ checkpoint_of d (s.anchor subdag) r.state.scheduler.store.commitment (length batch)
    pub certified :
        run d state.certifier (calls r.state.scheduler.store.commitment) ≡ ok r.state.certifier

  -- A sub-dag that gets through has run exactly the transactions of its decodable payloads, in order,
  -- as one batch. It mints a checkpoint of the anchor and the commitment behind the batch, timed with
  -- the mean timestamp of these transactions alone (of their sum modulo 2 ^ 64), exactly when there
  -- are any, and then gives the certifier each decodable vote, under the author of its block.
  pub execute_subdag-Parts :
      (r : Executed d s) → execute_subdag d s hash codec state metrics now subdag ≡ ok r → Parts r
  unfolding execute_subdag
  execute_subdag-Parts r e =
      let ps = attributed d s (s.blocks (s.sort subdag)) in
      let ran =
        subst (λ found. Ran d s hash state metrics now (s.anchor subdag) found r)
          (collect-described d codec ps)
          (execute_collected-Ran d s hash state metrics now (s.anchor subdag) _ r e) in
      let size : length ran.statuses ≡ length batch =
        execute-length hash state.scheduler r.state.scheduler _ ran.statuses ran.scheduled
        ∙ length-map (λ (p : Transaction × ℕ). p.0) batch in
      record {
        statuses = ran.statuses;
        scheduled = ran.scheduled;
        count = ran.count ∙ size;
        minted =
            ran.minted
            ∙ ap (checkpoint_of d (s.anchor subdag) r.state.scheduler.store.commitment) size;
        certified =
            subst
              (λ n.
                (run d state.certifier (
                    mint_calls d (s.anchor subdag) r.state.scheduler.store.commitment now
                      (total d batch % 2 ^ 64) n
                    ++ map (λ v. vote (s.anchor subdag) v.0 v.1) (ballots d codec ps))
                  ≡ ok r.state.certifier))
              size ran.certified;
      }
