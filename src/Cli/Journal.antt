-- ===== src/Cli/Journal.antt =====
-- Code that calls other crates: a run takes the calls made so far to those made when it ends. How a
-- call fares may depend on the calls before it, which is what stands for the state behind it.
pub mod Binds
pub mod Plans
pub mod Contracts
use Prim.Native.String.{String}
use blockchain_validator.Prelude.{◌≡◌, refl, Option, none, some, List, [], ◌∷◌, ◌++◌}
use blockchain_validator.Outcome.{Outcome, Panic, ok, panic}

-- An error is the context that it was wrapped in, if any. A run that waits has used up what it was
-- given to receive, and would receive more.
pub data Result (A : Type 0) : Type 0 where
  finished : A → Result A
  stopped : Option String → Result A
  aborted : Panic → Result A
  waiting : Result A

pub record World (Call : Type 0) (Reply : Call → Type 0) : Type 0 where
  pub answer : List Call → (c : Call) → Option (Reply c)

abbrev pub Run : Type 0 → Type 0 → Type 0
Run Call A = List Call → List Call × Result A

module _ {Call : Type 0} where
  abbrev pub done : {A : Type 0} → A → Run Call A
  done a before = (before, finished a)

  abbrev pub stop : {A : Type 0} → Option String → Run Call A
  stop context before = (before, stopped context)

  abbrev pub wait : {A : Type 0} → Run Call A
  wait before = (before, waiting)

  unfoldable pub continue :
      {A B : Type 0} → (A → Run Call B) → List Call × Result A → List Call × Result B
  continue f (calls, finished a) = f a calls
  continue f (calls, stopped context) = (calls, stopped context)
  continue f (calls, aborted p) = (calls, aborted p)
  continue f (calls, waiting) = (calls, waiting)

  infixl 5 ◌>>=◌
  abbrev pub ◌>>=◌ : {A B : Type 0} → Run Call A → (A → Run Call B) → Run Call B
  ◌>>=◌ m f before = continue f (m before)

  abbrev pub lift : {A : Type 0} → Outcome A → Run Call A
  lift (ok a) before = (before, finished a)
  lift (panic p) before = (before, aborted p)

  module _ {Reply : Call → Type 0} (w : World Call Reply) where
    abbrev pub replied :
        (c : Call) → Option String → List Call → Option (Reply c) → List Call × Result (Reply c)
    replied c context before none = (before ++ (c ∷ []), stopped context)
    replied c context before (some reply) = (before ++ (c ∷ []), finished reply)

    -- One call, with the context of its error.
    abbrev pub call : (c : Call) → Option String → Run Call (Reply c)
    call c context before = replied c context before (w.answer before c)

    -- One call whose reply says nothing.
    unfoldable pub request : Call → Option String → Run Call Unit
    request c context = call c context >>= λ _. done tt
