-- ===== src/Execution/Fake/Outputs.antt =====
-- What the fake engine returns: its writes, and its only panic.
use blockchain_validator.Prelude.{
  ℕ, ◌+◌, ◌^◌, ◌≤◌, ◌≡◌, refl, ◌⊎◌, inl, inr, Option, none, some, List, [], ◌∷◌, map, Distinct,
  Absent,
}
use blockchain_validator.Outcome.{Outcome, ok, panic, version_overflow}
use blockchain_validator.Execution.Object.{ObjectId, Version, Object}
use blockchain_validator.Execution.Effects.{
  ExecutionOutput, success, missing_read, success_output, aborted_output,
}
use blockchain_validator.Execution.Transaction.{
  Transaction, AccessMode, read_only, write_only, read_write, StateView, next_version,
}
use blockchain_validator.Execution.Transaction.NextVersion.{
  ReadsUpTo, IsHighest, next_version_cases,
}
use blockchain_validator.Execution.Transaction.Verify.{ids}
use blockchain_validator.Execution.Fake.{
  FakeFunctionId, resolve, new_object_content, created, run_success, run_function, execute,
}

abbrev Inputs : Type 0
Inputs = List (ObjectId × AccessMode)

abbrev pub created_object : ObjectId → Version → Object
created_object id version = record { id = id; version = version; contents = new_object_content }

abbrev pub updated_object : Object → ObjectId → Version → Object
updated_object o id version = record { id = id; version = version; contents = o.contents }

-- One write for each input that is not read only, in order: fresh contents or those of the input.
abbrev pub Writes : StateView → Version → Inputs → List Object → Type 0
Writes view version [] ws = ws ≡ []
Writes view version ((id, read_only) ∷ inputs) ws = Writes view version inputs ws
Writes view version ((id, write_only) ∷ inputs) ws =
    (rest : List Object) × (ws ≡ created_object id version ∷ rest) × Writes view version inputs rest
Writes view version ((id, read_write) ∷ inputs) ws =
    (o : Object) × (rest : List Object) × (view.latest id ≡ some o)
    × (ws ≡ updated_object o id version ∷ rest)
    × Writes view version inputs rest

module _ (view : StateView) (version : Version) where
  -- Where every input that is read exists, the `expect` holds and the writes are these.
  pub created-Writes :
      (bound : ℕ) (inputs : Inputs)
      → ReadsUpTo view bound inputs
      → (ws : List Object) × (created view version inputs ≡ ok ws) × Writes view version inputs ws
  unfolding created
  created-Writes bound [] h = ([], refl, refl)
  created-Writes bound ((id, read_only) ∷ inputs) h = created-Writes bound inputs h.1
  created-Writes bound ((id, write_only) ∷ inputs) h =
      let (rest, e, w) = created-Writes bound inputs h in
      (created_object id version ∷ rest, rw e, (rest, refl, w))
  created-Writes bound ((id, read_write) ∷ inputs) h =
      let (o, found, _) = h.0 in
      let (rest, e, w) = created-Writes bound inputs h.1 in
      (updated_object o id version ∷ rest, rw (found, created, e), (o, rest, found, refl, w))

  pub Writes-Absent :
      (id : ObjectId) (inputs : Inputs) (ws : List Object)
      → Writes view version inputs ws
      → Absent id (ids inputs)
      → Absent id (map (λ (o : Object). o.id) ws)
  Writes-Absent id [] ws w a = rw w tt
  Writes-Absent id ((j, read_only) ∷ inputs) ws w a = Writes-Absent id inputs ws w a.1
  Writes-Absent id ((j, write_only) ∷ inputs) ws (rest, e, w) a =
      rw e (a.0, Writes-Absent id inputs rest w a.1)
  Writes-Absent id ((j, read_write) ∷ inputs) ws (o, rest, _, e, w) a =
      rw e (a.0, Writes-Absent id inputs rest w a.1)

  pub Writes-Distinct :
      (inputs : Inputs) (ws : List Object)
      → Writes view version inputs ws
      → Distinct (ids inputs)
      → Distinct (map (λ (o : Object). o.id) ws)
  Writes-Distinct [] ws w d = rw w tt
  Writes-Distinct ((j, read_only) ∷ inputs) ws w d = Writes-Distinct inputs ws w d.1
  Writes-Distinct ((j, write_only) ∷ inputs) ws (rest, e, w) d =
      rw e (Writes-Absent j inputs rest w d.0, Writes-Distinct inputs rest w d.1)
  Writes-Distinct ((j, read_write) ∷ inputs) ws (o, rest, _, e, w) d =
      rw e (Writes-Absent j inputs rest w d.0, Writes-Distinct inputs rest w d.1)

-- An aborted output writes nothing.
abbrev pub IsClean : ExecutionOutput → Type 0
IsClean output = (output.status ≡ success) ⊎ (output.writes ≡ [])

abbrev Runs : StateView → Transaction → Outcome ExecutionOutput → Type 0
Runs view t outcome =
    ((output : ExecutionOutput) × (outcome ≡ ok output) × IsClean output)
    ⊎ ((outcome ≡ panic version_overflow)
        × ((highest : ℕ) × IsHighest view t.inputs 0 highest × (2 ^ 64 ≤ highest + 1)))

-- The success function, where the highest input and its successor are known.
pub run_success-Writes :
    (view : StateView) (t : Transaction) (highest : ℕ)
    → IsHighest view t.inputs 0 highest
    → next_version t view ≡ ok (some (highest + 1))
    → (ws : List Object) × (run_function view t (some FakeFunctionId.success)
        ≡ ok (success_output ws))
      × Writes view (highest + 1) t.inputs ws
unfolding run_function run_success
run_success-Writes view t highest h e =
    let (ws, c, w) = created-Writes view (highest + 1) highest t.inputs h.reads in
    (ws, rw (e, c), w)

success_Runs :
    (view : StateView) (t : Transaction)
    → Runs view t (run_function view t (some FakeFunctionId.success))
unfolding run_function run_success
success_Runs view t = elim (next_version_cases t view) [
  | inl (e, _) ↦ inl (aborted_output missing_read, rw e, inr refl)
  | inr (highest, h, inl (_, e)) ↦
      let (ws, c, _) = run_success-Writes view t highest h e in inl (success_output ws, c, inl refl)
  | inr (highest, h, inr (big, e)) ↦ inr (rw e, (highest, h, big))
]

-- On every view and transaction the engine returns an output, which writes nothing unless it is a
-- success, or the version one past the highest input is no u64. No other panic is reached: the
-- `expect` on a read input never fails.
pub execute_runs :
    (view : StateView) (t : Transaction)
    → ((output : ExecutionOutput) × (execute view t ≡ ok output) × IsClean output)
      ⊎ ((execute view t ≡ panic version_overflow)
          × ((highest : ℕ) × IsHighest view t.inputs 0 highest × (2 ^ 64 ≤ highest + 1)))
unfolding execute
execute_runs view t = by_function (resolve t)
  where
    by_function : (f : Option FakeFunctionId) → Runs view t (run_function view t f)
    by_function none = inl (_, refl, inr refl)
    by_function (some FakeFunctionId.abort) = inl (_, refl, inr refl)
    by_function (some FakeFunctionId.success) = success_Runs view t
