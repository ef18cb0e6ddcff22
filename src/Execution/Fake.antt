-- ===== src/Execution/Fake.antt =====
-- crates/execution/src/fake.rs
pub mod Outputs
use blockchain_validator.Prelude.{
  Option, none, some, List, [], ◌∷◌, ◌++◌, map, ◌==◌, list_eq, nat_eq, if◌then◌else◌,
}
use blockchain_validator.Outcome.{Outcome, ok, panic, missing_object, ◌>>=◌}
use blockchain_validator.Execution.Object.{Bytes, ObjectId, Version, Object}
use blockchain_validator.Execution.Effects.{
  ExecutionOutput, success_output, aborted_output, explicit_abort, missing_read, unknown_function,
}
use blockchain_validator.Execution.Transaction.{
  Transaction, FunctionId, new_function, AccessMode, read_only, write_only, read_write, StateView,
  next_version,
}
use blockchain_validator.Execution.Engine.{ExecutionEngine}

pub data FakeFunctionId : Type 0 where
  success abort : FakeFunctionId

unfoldable pub function_id : FakeFunctionId → FunctionId
unfolding new_function
function_id success = new_function 0
function_id abort = new_function 1

unfoldable pub resolve : Transaction → Option FakeFunctionId
unfolding function_id
resolve t =
    if t.function == function_id success
    then some success
    else if t.function == function_id abort
    then some abort
    else none

abbrev with_mode : AccessMode → ObjectId → ObjectId × AccessMode
with_mode mode id = (id, mode)

unfoldable pub success_with_args :
    List ObjectId → List ObjectId → List ObjectId → Bytes → Transaction
unfolding function_id
success_with_args reads creates updates args = record {
  function = function_id success;
  inputs =
      map (with_mode read_only) reads
      ++ (map (with_mode write_only) creates ++ map (with_mode read_write) updates);
  args = args;
}

unfoldable pub success_call : List ObjectId → List ObjectId → List ObjectId → Transaction
unfolding success_with_args
success_call reads creates updates = success_with_args reads creates updates []

unfoldable pub abort_call : Transaction
unfolding function_id
abort_call = record { function = function_id abort; inputs = []; args = [] }

-- b"fake"
abbrev pub new_object_content : Bytes
new_object_content = b'f' ∷ b'a' ∷ b'k' ∷ b'e' ∷ []

-- `expect` on an object
expect_object : Option Object → Outcome Object
expect_object none = panic missing_object
expect_object (some o) = ok o

-- The `filter_map` over the inputs.
unfoldable pub created : StateView → Version → List (ObjectId × AccessMode) → Outcome (List Object)
unfolding expect_object
created view version [] = ok []
created view version ((id, read_only) ∷ inputs) = created view version inputs
created view version ((id, write_only) ∷ inputs) = do
  rest ← created view version inputs
  ok (record { id = id; version = version; contents = new_object_content } ∷ rest)
created view version ((id, read_write) ∷ inputs) = do
  object ← expect_object (view.latest id)
  rest ← created view version inputs
  ok (record { id = id; version = version; contents = object.contents } ∷ rest)

unfoldable pub run_success : StateView → Transaction → Option Version → Outcome ExecutionOutput
run_success view t none = ok (aborted_output missing_read)
run_success view t (some version) = do
  objects ← created view version t.inputs
  ok (success_output objects)

unfoldable pub run_function :
    StateView → Transaction → Option FakeFunctionId → Outcome ExecutionOutput
run_function view t none = ok (aborted_output unknown_function)
run_function view t (some abort) = ok (aborted_output explicit_abort)
run_function view t (some success) = do version ← next_version t view; run_success view t version

unfoldable pub execute : StateView → Transaction → Outcome ExecutionOutput
unfolding run_function run_success resolve
execute view t = run_function view t (resolve t)

abbrev pub fake_executor : ExecutionEngine
fake_executor = record { execute = execute }
