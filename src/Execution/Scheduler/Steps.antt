-- ===== src/Execution/Scheduler/Steps.antt =====
-- One transaction under the fake engine: the state after it, and when it brings the node down.
use mathlib.Core.Path.{fun_ext}
use blockchain_validator.Prelude.{
  ℕ, ◌+◌, ◌≡◌, sym, subst, ap, ◌∙◌, inl, inr, true, false, Option, some, List, [], ◌∷◌, arith, All,
  Some, Absent, nat_eq, list_eq,
}
use blockchain_validator.Outcome.{ok-injective, ok, panic, version_not_forward, ◌>>=◌}
use blockchain_validator.Map
use blockchain_validator.Execution.Object.{Bytes, ObjectId, Version, Object, Digest, IsU64}
use blockchain_validator.Execution.Effects.{AbortReason, aborted, success, success_output}
use blockchain_validator.Execution.Transaction.{
  Transaction, AccessMode, read_only, write_only, read_write, verify,
}
use blockchain_validator.Execution.Transaction.Verify.{ids, verify_iff}
use blockchain_validator.Execution.Transaction.NextVersion.{ReadsUpTo, IsHighest, next_version-eq}
use blockchain_validator.Execution.Store.{
  InMemoryStore, latest, view, moves_forward, apply, apply_writes,
}
use blockchain_validator.Execution.Store.Invariant.{IsConsistent}
use blockchain_validator.Execution.Store.History.{
  apply_writes-history, apply_writes-total, apply_writes-stuck,
}
use blockchain_validator.Execution.Fake.{FakeFunctionId, resolve, fake_executor, run_function}
use blockchain_validator.Execution.Fake
use blockchain_validator.Execution.Fake.Outputs.{
  Writes, execute_runs, Writes-Absent, Writes-Distinct, run_success-Writes,
}
use blockchain_validator.Execution.Scheduler.{SequentialScheduler, run_verified, execute_one}
use blockchain_validator.Execution.Scheduler.Batches.{execute_one-parts}
use blockchain_validator.Execution.Scheduler.Landing.{
  Landed, CreatesForward, CreatesExisting, Writes-Landed, last_write-Absent, latest_index,
  index_latest,
}

abbrev Inputs : Type 0
Inputs = List (ObjectId × AccessMode)

-- Each write moves the index of its id forward: those that create by the hypothesis, those that
-- update because their version passes the version read.
Writes-forward :
    (s : InMemoryStore) (highest : ℕ) (inputs : Inputs) (ws : List Object)
    → IsConsistent s
    → Writes (view s) (highest + 1) inputs ws
    → ReadsUpTo (view s) highest inputs
    → CreatesForward (latest s) (highest + 1) inputs
    → All (λ (o : Object). moves_forward (Map.get s.latest o.id) o.version ≡ true) ws
Writes-forward s highest [] ws c w r f = rw w tt
Writes-forward s highest ((id, read_only) ∷ inputs) ws c w r f =
    Writes-forward s highest inputs ws c w r.1 f
Writes-forward s highest ((id, write_only) ∷ inputs) ws c (rest, e, w) r f =
    rw e (latest_index s id (highest + 1) c f.0, Writes-forward s highest inputs rest c w r f.1)
Writes-forward s highest ((id, read_write) ∷ inputs) ws c (o, rest, found, e, w) r f = rw e (
  latest_index s id (highest + 1) c (λ p h. ground (arith, r.0)),
  Writes-forward s highest inputs rest c w r.1 f,
)

Writes-stuck :
    (s : InMemoryStore) (version : Version) (inputs : Inputs) (ws : List Object)
    → IsConsistent s
    → Writes (view s) version inputs ws
    → CreatesExisting (latest s) version inputs
    → Some (λ (o : Object). moves_forward (Map.get s.latest o.id) o.version ≡ false) ws
Writes-stuck s version [] ws c w h = absurd h
Writes-stuck s version ((id, read_only) ∷ inputs) ws c w h = Writes-stuck s version inputs ws c w h
Writes-stuck s version ((id, write_only) ∷ inputs) ws c (rest, e, w) (inl (o, found, high)) =
    rw e (inl (index_latest s id version o c found high))
Writes-stuck s version ((id, write_only) ∷ inputs) ws c (rest, e, w) (inr h) =
    rw e (inr (Writes-stuck s version inputs rest c w h))
Writes-stuck s version ((id, read_write) ∷ inputs) ws c (o, rest, _, e, w) h =
    rw e (inr (Writes-stuck s version inputs rest c w h))

-- A transaction that passes `verify`, calls the success function and reads what exists, at a version
-- one past the highest that it reads.
pub record IsCall (s : InMemoryStore) (t : Transaction) (highest : ℕ) : Type 0 where
  pub verified : verify t ≡ true
  pub succeeds : resolve t ≡ some FakeFunctionId.success
  pub reads : IsHighest (view s) t.inputs 0 highest
  pub in_range : IsU64 (highest + 1)

module _ (hash : Bytes → Digest) (s : SequentialScheduler) (fake : s.engine ≡ fake_executor) where
  -- The call comes down to its writes.
  execute_one-Writes :
      (t : Transaction) (highest : ℕ)
      → IsCall s.store t highest
      → (ws : List Object) × (execute_one hash s t
          ≡ (apply_writes hash s.store ws >>= λ store. ok (success, record s { store = store })))
        × Writes (view s.store) (highest + 1) t.inputs ws
  unfolding execute_one run_verified apply Fake.execute
  execute_one-Writes t highest call =
      let (ws, e, w) =
        run_success-Writes (view s.store) t highest call.reads
          (next_version-eq t (view s.store) highest call.reads call.in_range) in
      let ran : s.engine.execute (view s.store) t ≡ ok (success_output ws) =
        ap (λ engine. engine.execute (view s.store) t) fake
        ∙ ap (run_function (view s.store) t) call.succeeds
        ∙ e in
      (ws, rw (call.verified, ran), w)

  -- Under the fake engine, a successful call over objects to create that are absent, or below the new version, returns. In
  -- the store behind it every object that it creates has the new version and the fixed contents,
  -- every object that it updates has the new version and its old contents, and every other object
  -- is found as before.
  pub execute_one-Landed :
      (t : Transaction) (highest : ℕ)
      → IsConsistent s.store
      → IsCall s.store t highest
      → CreatesForward (latest s.store) (highest + 1) t.inputs
      → (store : InMemoryStore) × (execute_one hash s t ≡ ok (success, record s { store = store }))
        × All (Landed (latest s.store) (latest store) (highest + 1)) t.inputs
        × ((id : ObjectId) → Absent id (ids t.inputs) → latest store id ≡ latest s.store id)
  execute_one-Landed t highest c call forward =
      let (ws, run, w) = execute_one-Writes t highest call in
      let distinct = (verify_iff t).0 call.verified in
      let (store, went) =
        apply_writes-total hash s.store ws
          (Writes-Distinct (view s.store) (highest + 1) t.inputs ws w distinct)
          (Writes-forward s.store highest t.inputs ws c w call.reads.reads forward) in
      let (found, _) = apply_writes-history hash s.store store ws went in
      (
        store,
        run ∙ ap (λ r. r >>= λ u. ok (success, record s { store = u })) went,
        subst
            (λ (after : ObjectId → Option Object).
              All (Landed (latest s.store) after (highest + 1)) t.inputs)
            (sym (fun_ext found))
            (Writes-Landed (latest s.store) (highest + 1) t.inputs ws w distinct),
        λ id a.
            found id
            ∙ last_write-Absent id (latest s.store id) ws
                (Writes-Absent (view s.store) (highest + 1) id t.inputs ws w a),
      )

  -- Under the fake engine, a successful call that creates an object which the store holds already, at the new version or
  -- above, panics: `verify` and `next_version` let it through, and the store's assertion does not.
  pub create_existing_panics :
      (t : Transaction) (highest : ℕ)
      → IsConsistent s.store
      → IsCall s.store t highest
      → CreatesExisting (latest s.store) (highest + 1) t.inputs
      → execute_one hash s t ≡ panic version_not_forward
  create_existing_panics t highest c call existing =
      let (ws, run, w) = execute_one-Writes t highest call in
      run
      ∙ ap (λ r. r >>= λ u. ok (success, record s { store = u }))
          (apply_writes-stuck hash s.store ws
            (Writes-stuck s.store (highest + 1) t.inputs ws c w existing))

  -- Under the fake engine, a transaction that ends aborted, for whatever reason, leaves the scheduler
  -- as it was.
  pub execute_one-aborted :
      (s' : SequentialScheduler) (t : Transaction) (reason : AbortReason)
      → execute_one hash s t ≡ ok (aborted reason, s')
      → s' ≡ s
  unfolding apply
  execute_one-aborted s' t reason e = elim (execute_one-parts hash s s' t (aborted reason) e) [
    | inl (_, _, same) ↦ same
    | inr (_, (output, ran, status, applied, engine)) ↦ elim (execute_runs (view s.store) t) [
      | inr (h, _) ↦ cc (ap (λ engine. engine.execute (view s.store) t) fake)
      | inl (output', ran', clean) ↦
          let same : output' ≡ output =
            ok-injective
              (sym ran' ∙ sym (ap (λ engine. engine.execute (view s.store) t) fake) ∙ ran) in
          elim clean [
            | inl succeeded ↦ cc
            | inr nothing ↦
                let stays : s.store ≡ s'.store = ok-injective (
                  ap (apply_writes hash s.store) (sym nothing ∙ ap (λ o. o.writes) same)
                  ∙ applied) in
                λ i. record { store = sym stays i; engine = engine i }
          ]
    ]
  ]
