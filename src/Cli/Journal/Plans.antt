-- ===== src/Cli/Journal/Plans.antt =====
-- A list of steps that is known before it is performed.
use mathlib.Core.List.{append_assoc, append-nil}
use Prim.Native.String.{String}
use blockchain_validator.Prelude.{◌≡◌, refl, sym, ap, ◌∙◌, Option, none, some, List, [], ◌∷◌, ◌++◌}
use blockchain_validator.Cli.Journal.Binds.{bind_assoc, bind_cong}
use blockchain_validator.Cli.Journal.{
  Result, finished, stopped, aborted, waiting, World, Run, continue, ◌>>=◌, replied, request, done,
  stop, wait,
}

-- A call with its context, an error that no call causes, and waiting.
pub data Step (Call : Type 0) : Type 0 where
  act : Call → Option String → Step Call
  fail : Option String → Step Call
  forever : Step Call

module _ {Call : Type 0} where
  -- The calls of a list of steps, up to where it fails or waits.
  abbrev pub calls_of : List (Step Call) → List Call
  calls_of [] = []
  calls_of (act c context ∷ steps) = c ∷ calls_of steps
  calls_of (fail context ∷ steps) = []
  calls_of (forever ∷ steps) = []

  -- What was performed of some calls: a front of them, and all of them if the run finished.
  pub record IsFront (before calls : List Call) (r : List Call × Result Unit) : Type 0 where
    pub front : List Call
    pub rest : List Call
    pub made : r.0 ≡ before ++ front
    pub whole : calls ≡ front ++ rest
    pub complete : (u : Unit) → r.1 ≡ finished u → rest ≡ []

  module _ {Reply : Call → Type 0} (w : World Call Reply) where
    abbrev pub step : Step Call → Run Call Unit
    step (act c context) = request w c context
    step (fail context) = stop context
    step forever = wait

    abbrev pub perform : List (Step Call) → Run Call Unit
    perform [] = done tt
    perform (s ∷ steps) = step s >>= λ _. perform steps

    pub perform-append :
        (xs ys : List (Step Call)) (before : List Call)
        → perform (xs ++ ys) before ≡ (perform xs >>= λ _. perform ys) before
    unfolding continue
    perform-append [] ys before = refl
    perform-append (x ∷ xs) ys before =
        bind_cong (step x) (λ _. perform (xs ++ ys)) (λ _. perform xs >>= λ _. perform ys) before
          (λ _ calls. perform-append xs ys calls)
        ∙ sym (bind_assoc (step x) (λ _. perform xs) (λ _. perform ys) before)

    pub perform-IsFront :
        (steps : List (Step Call)) (before : List Call)
        → IsFront before (calls_of steps) (perform steps before)
    unfolding request continue
    perform-IsFront [] before = record {
      front = [];
      rest = [];
      made = sym (append-nil before);
      whole = refl;
      complete = λ u e. refl;
    }
    perform-IsFront (fail context ∷ steps) before = record {
      front = [];
      rest = [];
      made = sym (append-nil before);
      whole = refl;
      complete = λ u e. refl;
    }
    perform-IsFront (forever ∷ steps) before = record {
      front = [];
      rest = [];
      made = sym (append-nil before);
      whole = refl;
      complete = λ u e. refl;
    }
    perform-IsFront (act c context ∷ steps) before =
        by_answer (perform-IsFront steps (before ++ (c ∷ []))) (w.answer before c)
      where
        by_answer :
            IsFront (before ++ (c ∷ [])) (calls_of steps) (perform steps (before ++ (c ∷ [])))
            → (o : Option (Reply c))
            → IsFront before (c ∷ calls_of steps) (
                continue
                  (λ _. perform steps)
                  (continue (λ _. done tt) (replied w c context before o)))
        by_answer h none = record {
          front = c ∷ [];
          rest = calls_of steps;
          made = refl;
          whole = refl;
          complete = λ u e. cc;
        }
        by_answer h (some reply) = record {
          front = c ∷ h.front;
          rest = h.rest;
          made = h.made ∙ append_assoc before (c ∷ []) h.front;
          whole = ap (◌∷◌ c) h.whole;
          complete = h.complete;
        }

  module _ {Reply : Call → Type 0} (w : World Call Reply) where
    -- A run is the performance of the steps.
    pub record Performs (m : Run Call Unit) (steps : List (Step Call)) : Type 0 where
      pub same : (before : List Call) → m before ≡ perform w steps before

    bind-done : (m : Run Call Unit) (before : List Call) → m before ≡ (m >>= λ _. done tt) before
    unfolding continue
    bind-done m before = by_result (m before)
      where
        by_result : (r : List Call × Result Unit) → r ≡ continue (λ _. done tt) r
        by_result (calls, finished tt) = refl
        by_result (calls, stopped context) = refl
        by_result (calls, aborted p) = refl
        by_result (calls, waiting) = refl

    pub request-Performs :
        {c : Call} {context : Option String} → Performs (request w c context) (act c context ∷ [])
    request-Performs {c} {context} = record { same = bind-done (request w c context) }

    pub done-Performs : Performs (done tt) []
    done-Performs = record { same = λ before. refl }

    pub then-Performs :
        {m n : Run Call Unit} {xs ys : List (Step Call)}
        → Performs m xs
        → Performs n ys
        → Performs (m >>= λ _. n) (xs ++ ys)
    unfolding continue
    then-Performs {m} {n} {xs} {ys} h k = record {
      same = λ before.
          ap (continue (λ _. n)) (h.same before)
          ∙ bind_cong (perform w xs) (λ _. n) (λ _. perform w ys) before (λ _. k.same)
          ∙ sym (perform-append w xs ys before);
    }

    -- A run of steps that finishes has made all their calls.
    pub Performs-finished :
        {m : Run Call Unit} {steps : List (Step Call)} (before after : List Call)
        → Performs m steps
        → m before ≡ (after, finished tt)
        → after ≡ before ++ calls_of steps
    Performs-finished {m} {steps} before after h e =
        let f = perform-IsFront w steps before in
        let same = sym (h.same before) ∙ e in
        sym (ap (λ r. r.0) same)
        ∙ f.made
        ∙ ap (◌++◌ before) (
            sym (
              f.whole
              ∙ ap (◌++◌ f.front) (f.complete tt (ap (λ r. r.1) same))
              ∙ append-nil f.front))
