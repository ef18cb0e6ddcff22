-- ===== src/Examples/Execution.antt =====
-- Runs of the execution crate.
use blockchain_validator.Prelude.{
  ℕ, ◌+◌, ◌≡◌, ◌⊎◌, ◌↔◌, ◌≤◌, ◌^◌, refl, inl, inr, none, some, [], ◌∷◌, ◌++◌, arith, All, Absent,
  Distinct, length, true,
}
use blockchain_validator.Outcome.{ok, panic, version_not_forward, version_overflow, ◌>>=◌}
use blockchain_validator.Map
use blockchain_validator.Execution.Object.{ObjectId, Version, Object, new_id, IsU64, to_be_bytes}
use blockchain_validator.Execution.Effects.{
  ExecutionOutput, success, aborted, explicit_abort, success_output,
}
use blockchain_validator.Execution.Transaction.{Transaction, verify, next_version, new_function}
use blockchain_validator.Execution.Transaction.Verify.{ids, verify_iff}
use blockchain_validator.Execution.Transaction.NextVersion.{
  ReadsMissing, IsHighest, next_version_cases,
}
use blockchain_validator.Execution.Store.{
  InMemoryStore, default_store, view, apply, apply_write, apply_writes, get, latest, written,
}
use blockchain_validator.Execution.Store.Invariant.{
  IsConsistent, default-IsConsistent, apply-IsConsistent, latest-highest,
}
use blockchain_validator.Execution.Store.History.{last_write, chain, apply_writes-history}
use blockchain_validator.Execution.Store.Commitment.{Collision, ZeroPreimage, chain-injective}
use blockchain_validator.Execution.Scheduler.{
  SequentialScheduler, execute_one, execute, run_verified,
}
use blockchain_validator.Execution.Scheduler.Batches.{Keeps, execute-IsConsistent, execute-append}
use blockchain_validator.Execution.Scheduler.Landing.{Landed, CreatesForward, CreatesExisting}
use blockchain_validator.Execution.Scheduler.Steps.{
  IsCall, execute_one-Landed, create_existing_panics, execute_one-aborted,
}
use blockchain_validator.Execution.Fake.{
  fake_executor, success_call, success_with_args, abort_call, resolve, function_id, FakeFunctionId,
  run_function, run_success, created,
}
use blockchain_validator.Execution.Fake
use blockchain_validator.Execution.Fake.Outputs.{IsClean, execute_runs}
use blockchain_validator.Examples.Data.{hash}

abbrev first : Object
first = record { id = new_id 1; version = 1; contents = [] }

abbrev one_object : InMemoryStore
one_object = written hash default_store first

one_object_applied : apply hash default_store (success_output (first ∷ [])) ≡ ok one_object
unfolding apply apply_writes apply_write Map.get Map.empty
one_object_applied = refl

apply-IsConsistent_example :
    IsConsistent one_object
    × ((id : ObjectId) (v : Version) (p : Object)
        → get default_store id v ≡ some p
        → get one_object id v ≡ some p)
apply-IsConsistent_example =
    apply-IsConsistent hash default_store one_object (success_output (first ∷ []))
      default-IsConsistent one_object_applied

one_object-IsConsistent : IsConsistent one_object
one_object-IsConsistent =
    (apply-IsConsistent hash default_store one_object (success_output (first ∷ []))
      default-IsConsistent one_object_applied).0

latest-highest_example :
    ((latest one_object (new_id 1) ≡ none) × ((v : Version) → get one_object (new_id 1) v ≡ none))
    ⊎ ((o : Object) × (latest one_object (new_id 1) ≡ some o)
        × (o.id ≡ new_id 1)
        × (get one_object (new_id 1) o.version ≡ some o)
        × ((v : Version) (p : Object) → get one_object (new_id 1) v ≡ some p → v ≤ o.version))
latest-highest_example = latest-highest one_object (new_id 1) one_object-IsConsistent

one_object_written : apply_writes hash default_store (first ∷ []) ≡ ok one_object
unfolding apply_writes apply_write Map.get Map.empty
one_object_written = refl

apply_writes-history_example :
    ((id : ObjectId) → latest one_object id ≡ last_write id (latest default_store id) (first ∷ []))
    × (one_object.commitment ≡ chain hash default_store.commitment (first ∷ []))
apply_writes-history_example =
    apply_writes-history hash default_store one_object (first ∷ []) one_object_written

other : Object
other = record { id = new_id 2; version = 1; contents = [] }

chain-injective_example : ((first ∷ []) ≡ (other ∷ [])) ⊎ (Collision hash ⊎ ZeroPreimage hash)
unfolding other new_id to_be_bytes
chain-injective_example =
    chain-injective hash (λ bytes. refl) (first ∷ []) (other ∷ [])
      (record { id_size = refl; version_range = omega arith }, tt)
      (record { id_size = refl; version_range = omega arith }, tt) refl

-- A call that creates the object 2 and updates the object 1.
abbrev call : Transaction
call = success_call [] (new_id 2 ∷ []) (new_id 1 ∷ [])

abbrev scheduler : SequentialScheduler
scheduler = record { store = one_object; engine = fake_executor }

verify_iff_example : (verify call ≡ true) ↔ Distinct (ids call.inputs)
verify_iff_example = verify_iff call

next_version_cases_example :
    ((next_version call (view one_object) ≡ ok none) × ReadsMissing (view one_object) call.inputs)
    ⊎ ((highest : ℕ) × IsHighest (view one_object) call.inputs 0 highest
        × ((IsU64 (highest + 1) × (next_version call (view one_object) ≡ ok (some (highest + 1))))
            ⊎ ((2 ^ 64 ≤ highest + 1)
                × (next_version call (view one_object) ≡ panic version_overflow))))
next_version_cases_example = next_version_cases call (view one_object)

execute_runs_example :
    ((output : ExecutionOutput) × (Fake.execute (view one_object) call ≡ ok output)
      × IsClean output)
    ⊎ ((Fake.execute (view one_object) call ≡ panic version_overflow)
        × ((highest : ℕ) × IsHighest (view one_object) call.inputs 0 highest
            × (2 ^ 64 ≤ highest + 1)))
execute_runs_example = execute_runs (view one_object) call

call-IsCall : IsCall one_object call 1
unfolding verify resolve function_id new_function success_call success_with_args new_id to_be_bytes
    latest Map.get Map.find Map.insert Map.replace Map.empty
call-IsCall = record {
  verified = refl;
  succeeds = refl;
  reads = record {
    above = omega arith;
    reads = ((first, refl, omega arith), tt);
    attained = inr (inl (first, refl, refl));
  };
  in_range = omega arith;
}

call-CreatesForward : CreatesForward (latest one_object) 2 call.inputs
unfolding success_call success_with_args new_id to_be_bytes latest Map.get Map.find Map.insert
    Map.replace Map.empty
call-CreatesForward = (λ o e. cc, tt)

execute_one-Landed_example :
    (store : InMemoryStore) × (execute_one hash scheduler call
      ≡ ok (success, record scheduler { store = store }))
    × All (Landed (latest one_object) (latest store) 2) call.inputs
    × ((id : ObjectId) → Absent id (ids call.inputs) → latest store id ≡ latest one_object id)
execute_one-Landed_example =
    execute_one-Landed hash scheduler refl call 1 one_object-IsConsistent call-IsCall
      call-CreatesForward

-- A call that creates the object 1 again.
abbrev again : Transaction
again = success_call [] (new_id 1 ∷ []) []

again-IsCall : IsCall one_object again 0
unfolding verify resolve function_id new_function success_call success_with_args
again-IsCall = record {
  verified = refl;
  succeeds = refl;
  reads = record { above = omega arith; reads = tt; attained = inl refl };
  in_range = omega arith;
}

again-CreatesExisting : CreatesExisting (latest one_object) 1 again.inputs
unfolding success_call success_with_args new_id to_be_bytes latest Map.get Map.find Map.insert
    Map.replace Map.empty
again-CreatesExisting = inl (first, refl, omega arith)

create_existing_panics_example : execute_one hash scheduler again ≡ panic version_not_forward
create_existing_panics_example =
    create_existing_panics hash scheduler refl again 0 one_object-IsConsistent again-IsCall
      again-CreatesExisting

abort_call_aborts : execute_one hash scheduler abort_call ≡ ok (aborted explicit_abort, scheduler)
unfolding execute_one run_verified verify abort_call resolve function_id new_function Fake.execute
    run_function apply apply_writes
abort_call_aborts = refl

execute_one-aborted_example : scheduler ≡ scheduler
execute_one-aborted_example =
    execute_one-aborted hash scheduler refl scheduler abort_call explicit_abort abort_call_aborts

batch_aborts :
    execute hash scheduler (abort_call ∷ []) ≡ ok (aborted explicit_abort ∷ [], scheduler)
unfolding execute
batch_aborts = rw abort_call_aborts refl

execute-IsConsistent_example :
    (length (aborted explicit_abort ∷ []) ≡ length (abort_call ∷ []))
    × IsConsistent one_object
    × Keeps one_object one_object
execute-IsConsistent_example =
    execute-IsConsistent hash scheduler scheduler (abort_call ∷ []) (aborted explicit_abort ∷ [])
      one_object-IsConsistent batch_aborts

execute-append_example : execute hash scheduler (call ∷ again ∷ []) ≡ (
    execute hash scheduler (call ∷ []) >>= λ p.
    execute hash p.1 (again ∷ []) >>= λ q. ok (p.0 ++ q.0, q.1))
execute-append_example = execute-append hash scheduler (call ∷ []) (again ∷ [])
