-- ===== src/Validator/Driver/Submitted.antt =====
-- What becomes of the transactions that a client submits through `ValidatorHandle::submit`.
use mathlib.Core.List.{map-append}
use blockchain_validator.Prelude.{
  ℕ, ◌≤◌, ◌≡◌, refl, sym, subst, ap, ◌∙◌, List, [], ◌∷◌, ◌++◌, map, flat_map-append, length, All,
  arith,
}
use blockchain_validator.Outcome.{ok, bind-eq-ok, ok-injective}
use blockchain_validator.Dag.{Dag, SubDags}
use blockchain_validator.Execution.Object.{Bytes, Digest}
use blockchain_validator.Execution.Effects.{ExecutionStatus}
use blockchain_validator.Execution.Transaction.{Transaction}
use blockchain_validator.Execution.Scheduler.{SequentialScheduler}
use blockchain_validator.Execution.Scheduler
use blockchain_validator.Execution.Scheduler.Batches.{execute-append}
use blockchain_validator.Validator.Envelope.{execute, Codec, CodecLaws, max_payload_size}
use blockchain_validator.Validator.Metrics.{ValidatorMetrics}
use blockchain_validator.Validator.Subdag.{ExecutionState, attributed, Executed, execute_subdag}
use blockchain_validator.Validator.Subdag.Collecting.{executables}
use blockchain_validator.Validator.Subdag.Parts.{execute_subdag-Parts}
use blockchain_validator.Validator.Driver.{as_millis, submit}

-- A batch that ran up to some state of the scheduler.
abbrev pub Runs :
    (Bytes → Digest) → SequentialScheduler → List Transaction → SequentialScheduler → Type 0
Runs hash before ts after =
    (statuses : List ExecutionStatus) × (Scheduler.execute hash before ts ≡ ok (statuses, after))

module _ (hash : Bytes → Digest) where
  Runs-split :
      (s s' : SequentialScheduler) (ts us : List Transaction)
      → Runs hash s (ts ++ us) s'
      → (middle : SequentialScheduler) × Runs hash s ts middle × Runs hash middle us s'
  Runs-split s s' ts us (statuses, e) =
      let ((first, s₁), ran, rest) =
        bind-eq-ok (Scheduler.execute hash s ts) _ (sym (execute-append hash s ts us) ∙ e) in
      let ((second, s₂), ran', final) = bind-eq-ok (Scheduler.execute hash s₁ us) _ rest in
      (
        s₁,
        (first, ran),
        (
          second,
          ran'
              ∙ ap (λ s. ok (second, s))
                  (ap (λ (p : List ExecutionStatus × SequentialScheduler). p.1)
                    (ok-injective final)),
        ),
      )

module _ (d : Dag) (codec : Codec d) where
  -- The transactions that some payloads carry.
  abbrev pub transactions_in : List (d.Authority × Bytes) → List Transaction
  transactions_in ps = map (λ p. p.0) (executables d codec ps)

  executables-append :
      (ps qs : List (d.Authority × Bytes))
      → executables d codec (ps ++ qs) ≡ executables d codec ps ++ executables d codec qs
  executables-append = flat_map-append _

  transactions_in-append :
      (ps qs : List (d.Authority × Bytes))
      → transactions_in (ps ++ qs) ≡ transactions_in ps ++ transactions_in qs
  transactions_in-append ps qs =
      ap (map (λ p. p.0)) (executables-append ps qs)
      ∙ map-append (λ (p : Transaction × ℕ). p.0) (executables d codec ps) (executables d codec qs)

  -- The payloads of a block that carries what was submitted.
  abbrev pub submitted_by : d.Authority → ℕ → List Transaction → List (d.Authority × Bytes)
  submitted_by author clock ts = map (λ bytes. (author, bytes)) (submit d codec clock ts)

  transactions_in-submitted :
      CodecLaws d codec
      → (author : d.Authority) (clock : ℕ) (ts : List Transaction)
      → All (λ bytes. length bytes ≤ max_payload_size) (submit d codec clock ts)
      → transactions_in (submitted_by author clock ts) ≡ ts
  transactions_in-submitted laws author clock [] h = refl
  transactions_in-submitted laws author clock (t ∷ ts) h =
      rw
        (laws.deserialize-serialize max_payload_size
          (record { timestamp_ms = as_millis clock; payload = execute t }) (omega arith) h.0)
        (ap (◌∷◌ t) (transactions_in-submitted laws author clock ts h.1))

module _ (d : Dag) (s : SubDags d) (hash : Bytes → Digest) (codec : Codec d)
    (laws : CodecLaws d codec) where
  -- Under the law of the codec, where the payloads of submitted transactions are within the cap
  -- and consensus commits them in one piece, as those of one author in a sub-dag that gets
  -- through: its batch runs exactly the submitted transactions, in order, between the
  -- transactions of the payloads before and behind them.
  pub submit-Runs :
      (state : ExecutionState d) (metrics : ValidatorMetrics) (now clock : ℕ)
      (subdag : s.CommittedSubDag) (r : Executed d s) (author : d.Authority)
      (before after : List (d.Authority × Bytes)) (ts : List Transaction)
      → All (λ bytes. length bytes ≤ max_payload_size) (submit d codec clock ts)
      → attributed d s (s.blocks (s.sort subdag))
        ≡ before ++ (submitted_by d codec author clock ts ++ after)
      → execute_subdag d s hash codec state metrics now subdag ≡ ok r
      → (first last : SequentialScheduler) × Runs hash state.scheduler
          (transactions_in d codec before)
          first
        × Runs hash first ts last
        × Runs hash last (transactions_in d codec after) r.state.scheduler
  submit-Runs state metrics now clock subdag r author before after ts h committed e =
      let parts = execute_subdag-Parts d s hash codec state metrics now subdag r e in
      let own = submitted_by d codec author clock ts in
      let same : transactions_in d codec (attributed d s (s.blocks (s.sort subdag)))
          ≡ transactions_in d codec before ++ (ts ++ transactions_in d codec after) =
        ap (transactions_in d codec) committed
        ∙ transactions_in-append d codec before (own ++ after)
        ∙ ap (λ us. transactions_in d codec before ++ us)
            (transactions_in-append d codec own after
              ∙ ap (λ us. us ++ transactions_in d codec after)
                  (transactions_in-submitted d codec laws author clock ts h)) in
      let (first, ran, rest) =
        Runs-split hash state.scheduler r.state.scheduler (transactions_in d codec before) _ (
          subst (λ ts. Runs hash state.scheduler ts r.state.scheduler) same
            (parts.statuses, parts.scheduled)) in
      let (last, ran', rest') = Runs-split hash first r.state.scheduler ts _ rest in
      (first, last, ran, ran', rest')
