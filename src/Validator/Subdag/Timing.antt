-- ===== src/Validator/Subdag/Timing.antt =====
-- The timestamp that a checkpoint is timed with.
use native.Mathlib.Nat.{le-div_iff_mul-le, div-le_of_le-mul, mod-eq_of_lt}
use blockchain_validator.Prelude.{
  ℕ, zero, suc, ◌*◌, ◌/◌, ◌%◌, ◌^◌, ◌≤◌, ◌<◌, ◌≡◌, ◌≢◌, refl, sym, subst, ap, ◌∙◌, List, [], ◌∷◌,
  ◌++◌, map, length, All, arith,
}
use blockchain_validator.Outcome.{ok}
use blockchain_validator.Dag.{Dag, SubDags}
use blockchain_validator.Execution.Object.{Bytes, Digest}
use blockchain_validator.Execution.Transaction.{Transaction}
use blockchain_validator.Checkpoint.Certifier.Calls.{Call, vote, run}
use blockchain_validator.Checkpoint.Certifier.Calls
use blockchain_validator.Validator.Envelope.{Codec}
use blockchain_validator.Validator.Metrics.{ValidatorMetrics}
use blockchain_validator.Validator.Subdag.{ExecutionState, attributed, Executed, execute_subdag}
use blockchain_validator.Validator.Subdag.Collecting.{total, ballots}
use blockchain_validator.Validator.Subdag.Parts.{mint_calls, batch, execute_subdag-Parts}

-- The stamps of a batch lie between two bounds.
abbrev pub StampsWithin : ℕ → ℕ → List (Transaction × ℕ) → Type 0
StampsWithin lo hi = All (λ p. (lo ≤ p.1) × (p.1 ≤ hi))

module _ (d : Dag) where
  total-within :
      (lo hi : ℕ) (ts : List (Transaction × ℕ))
      → StampsWithin lo hi ts
      → (lo * length ts ≤ total d ts) × (total d ts ≤ length ts * hi)
  total-within lo hi [] h = (omega arith, omega arith)
  total-within lo hi ((t, stamp) ∷ ts) h =
      let k = total-within lo hi ts h.1 in (omega (arith, h, k), omega (arith, h, k))

  mint_calls-mean :
      (anchor : d.BlockReference) (commitment : Digest) (now stamps n : ℕ)
      → n ≢ 0
      → mint_calls d anchor commitment now stamps n
        ≡ Calls.mint anchor commitment (record { minted_at = now; mean_timestamp_ms = stamps / n })
          ∷ []
  mint_calls-mean anchor commitment now stamps zero h = absurd (h refl)
  mint_calls-mean anchor commitment now stamps (suc n) h = refl

module _ (d : Dag) (s : SubDags d) (hash : Bytes → Digest) (codec : Codec d)
    (state : ExecutionState d) (metrics : ValidatorMetrics) (now : ℕ)
    (subdag : s.CommittedSubDag) where
  -- A sub-dag that gets through and has executed transactions, whose timestamps all lie between two
  -- bounds, where their number times the upper bound is a u64, makes the certifier's calls of one
  -- mint, timed at the delivery and with a mean timestamp between these bounds, and of its votes.
  pub execute_subdag-Mean :
      (lo hi : ℕ) (r : Executed d s)
      → StampsWithin lo hi (batch d s hash codec state metrics now subdag)
      → length (batch d s hash codec state metrics now subdag) * hi < 2 ^ 64
      → execute_subdag d s hash codec state metrics now subdag ≡ ok r
      → r.executed ≢ 0
      → (mean : ℕ) × (lo ≤ mean)
        × (mean ≤ hi)
        × (run d state.certifier (
              Calls.mint
                (s.anchor subdag)
                r.state.scheduler.store.commitment
                (record { minted_at = now; mean_timestamp_ms = mean })
              ∷ map
                  (λ v. vote (s.anchor subdag) v.0 v.1)
                  (ballots d codec (attributed d s (s.blocks (s.sort subdag)))))
            ≡ ok r.state.certifier)
  execute_subdag-Mean lo hi r h fits e some_ran =
      let ts = batch d s hash codec state metrics now subdag in
      let parts = execute_subdag-Parts d s hash codec state metrics now subdag r e in
      let positive : 0 < length ts = omega (arith, parts.count, some_ran) in
      let k = total-within d lo hi ts h in
      let whole : total d ts % 2 ^ 64 ≡ total d ts = mod-eq_of_lt (omega (arith, k, fits)) in
      (
        (total d ts % 2 ^ 64) / length ts,
        (le-div_iff_mul-le positive).1 (subst (λ t. lo * length ts ≤ t) (sym whole) k.0),
        div-le_of_le-mul (length ts) (subst (λ t. t ≤ length ts * hi) (sym whole) k.1),
        sym (
              ap
                (λ cs. run d state.certifier (
                  cs
                  ++ map (λ v. vote (s.anchor subdag) v.0 v.1)
                      (ballots d codec (attributed d s (s.blocks (s.sort subdag))))))
                (mint_calls-mean d (s.anchor subdag) r.state.scheduler.store.commitment now
                  (total d ts % 2 ^ 64) (length ts) (omega (arith, positive))))
            ∙ parts.certified,
      )
