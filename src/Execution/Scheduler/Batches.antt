-- ===== src/Execution/Scheduler/Batches.antt =====
-- Batches of transactions under any engine.
use blockchain_validator.Prelude.{
  Bool, ◌⊎◌, suc, if◌then◌else◌, ◌≡◌, sym, subst, ap, ◌∙◌, inl, inr, true, false, some, List, [],
  ◌∷◌, ◌++◌, length, Bool-cases,
}
use blockchain_validator.Outcome.{
  Outcome, Outcome-cases, ok, ◌>>=◌, bind-eq-ok, bind-ok, ok-injective,
}
use blockchain_validator.Execution.Object.{Bytes, ObjectId, Version, Object, Digest}
use blockchain_validator.Execution.Effects.{
  ExecutionStatus, ExecutionOutput, aborted, invalid_transaction,
}
use blockchain_validator.Execution.Transaction.{Transaction, verify}
use blockchain_validator.Execution.Store.{InMemoryStore, get, view, apply}
use blockchain_validator.Execution.Store.Invariant.{IsConsistent, apply-IsConsistent}
use blockchain_validator.Execution.Scheduler.{
  SequentialScheduler, run_verified, execute_one, execute,
}

-- What every version of every object was, it still is.
abbrev pub Keeps : InMemoryStore → InMemoryStore → Type 0
Keeps s t = (id : ObjectId) (v : Version) (p : Object) → get s id v ≡ some p → get t id v ≡ some p

abbrev Run : Type 0
Run = List ExecutionStatus × SequentialScheduler

module _ (hash : Bytes → Digest) where
  abbrev Branch :
      SequentialScheduler → SequentialScheduler → Transaction → ExecutionStatus → Bool → Type 0
  Branch s s' t status b =
      (if b then run_verified hash s t else ok (aborted invalid_transaction, s)) ≡ ok (status, s')

  abbrev prepend : ExecutionStatus → Run → Outcome Run
  prepend status p = ok (status ∷ p.0, p.1)

  abbrev then_run : List Transaction → Run → Outcome Run
  then_run us p = execute hash p.1 us >>= λ q. ok (p.0 ++ q.0, q.1)

  -- What one transaction does that returns: it is refused and changes nothing, or its output goes in.
  pub execute_one-parts :
      (s s' : SequentialScheduler) (t : Transaction) (status : ExecutionStatus)
      → execute_one hash s t ≡ ok (status, s')
      → ((verify t ≡ false) × (status ≡ aborted invalid_transaction) × (s' ≡ s))
        ⊎ ((verify t ≡ true)
            × ((output : ExecutionOutput) × (s.engine.execute (view s.store) t ≡ ok output)
                × (output.status ≡ status)
                × (apply hash s.store output ≡ ok s'.store)
                × (s'.engine ≡ s.engine)))
  unfolding execute_one run_verified
  execute_one-parts s s' t status e = elim (Bool-cases (verify t)) [
    | inr invalid ↦
        let same = ok-injective (subst (Branch s s' t status) invalid e) in
        inl (invalid, sym (ap (λ p. p.0) same), sym (ap (λ p. p.1) same))
    | inl valid ↦
        let (output, ran, rest) =
          bind-eq-ok (s.engine.execute (view s.store) t) _ (subst (Branch s s' t status) valid e) in
        let (store, applied, final) = bind-eq-ok (apply hash s.store output) _ rest in
        let same = ok-injective final in
        inr (
          valid,
          (
            output,
            ran,
            ap (λ p. p.0) same,
            applied ∙ ap (λ (p : ExecutionStatus × SequentialScheduler). ok p.1.store) same,
            sym (ap (λ p. p.1.engine) same),
          ),
        )
  ]

  execute_one-IsConsistent :
      (s s' : SequentialScheduler) (t : Transaction) (status : ExecutionStatus)
      → execute_one hash s t ≡ ok (status, s')
      → IsConsistent s.store
      → IsConsistent s'.store × Keeps s.store s'.store
  execute_one-IsConsistent s s' t status e c = elim (execute_one-parts s s' t status e) [
    | inl (_, _, same) ↦
        subst (λ (u : SequentialScheduler). IsConsistent u.store × Keeps s.store u.store) (sym same)
          (c, λ id v p h. h)
    | inr (_, (output, _, _, applied, _)) ↦
        apply-IsConsistent hash s.store s'.store output c applied
  ]

  -- A batch that returns yields one status for each transaction, keeps the indices of the store in
  -- agreement, and loses or overwrites no stored version.
  pub execute-IsConsistent :
      (s s' : SequentialScheduler) (ts : List Transaction) (statuses : List ExecutionStatus)
      → IsConsistent s.store
      → execute hash s ts ≡ ok (statuses, s')
      → (length statuses ≡ length ts) × IsConsistent s'.store × Keeps s.store s'.store
  unfolding execute
  execute-IsConsistent s s' [] statuses c e =
      let same = ok-injective e in
      (
        ap (λ p. length p.0) (sym same),
        subst (λ (p : List ExecutionStatus × SequentialScheduler). IsConsistent p.1.store) same c,
        subst (λ (p : List ExecutionStatus × SequentialScheduler). Keeps s.store p.1.store) same
            (λ id v p h. h),
      )
  execute-IsConsistent s s' (t ∷ ts) statuses c e =
      let ((status, s₁), first, rest) = bind-eq-ok (execute_one hash s t) _ e in
      let ((later, s₂), second, final) = bind-eq-ok (execute hash s₁ ts) _ rest in
      let (c₁, k₁) = execute_one-IsConsistent s s₁ t status first c in
      let (size, c₂, k₂) = execute-IsConsistent s₁ s₂ ts later c₁ second in
      subst
        (λ (p : List ExecutionStatus × SequentialScheduler).
          (length p.0 ≡ length (t ∷ ts)) × IsConsistent p.1.store × Keeps s.store p.1.store)
        (ok-injective final) (ap suc size, c₂, λ id v p h. k₂ id v p (k₁ id v p h))

  -- Where a batch is cut does not matter: its parts, one after the other, give the statuses and the
  -- state of the whole, and panic where the whole does.
  pub execute-append :
      (s : SequentialScheduler) (ts us : List Transaction)
      → execute hash s (ts ++ us) ≡ (do
        (before, s') ← execute hash s ts
        (after, s'') ← execute hash s' us
        ok (before ++ after, s''))
  unfolding execute
  execute-append s [] us = sym (bind-ok (execute hash s us))
  execute-append s (t ∷ ts) us = elim (Outcome-cases (execute_one hash s t)) [
    | inr (p, e) ↦ rw e
    | inl ((status, s₁), e) ↦ rw e (rw (execute-append s₁ ts us) (regroup s₁ status))
  ]
    where
      regroup :
          (s₁ : SequentialScheduler) (status : ExecutionStatus)
          → (execute hash s₁ ts >>= then_run us >>= prepend status)
            ≡ (execute hash s₁ ts >>= prepend status >>= then_run us)
      regroup s₁ status = elim (Outcome-cases (execute hash s₁ ts)) [
        | inr (p, e) ↦ rw e
        | inl ((before, s₂), e) ↦
            rw e
              (elim (Outcome-cases (execute hash s₂ us)) [ inr (p, f) ↦ rw f | inl (q, f) ↦ rw f ])
      ]

  pub execute-length :
      (s s' : SequentialScheduler) (ts : List Transaction) (statuses : List ExecutionStatus)
      → execute hash s ts ≡ ok (statuses, s')
      → length statuses ≡ length ts
  unfolding execute
  execute-length s s' [] statuses e = ap (λ p. length p.0) (sym (ok-injective e))
  execute-length s s' (t ∷ ts) statuses e =
      let ((status, s₁), first, rest) = bind-eq-ok (execute_one hash s t) _ e in
      let ((later, s₂), second, final) = bind-eq-ok (execute hash s₁ ts) _ rest in
      ap (λ p. length p.0) (sym (ok-injective final))
      ∙ ap suc (execute-length s₁ s₂ ts later second)
