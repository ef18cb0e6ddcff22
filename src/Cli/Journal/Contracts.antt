-- ===== src/Cli/Journal/Contracts.antt =====
-- What holds of every call that a run makes, and of what it returns.
use Prim.Native.String.{String}
use blockchain_validator.Prelude.{
  ◌≡◌, refl, subst, Option, none, some, List, [], ◌∷◌, All, All-append,
}
use blockchain_validator.Outcome.{panic}
use blockchain_validator.Cli.Journal.{
  Result, finished, stopped, aborted, waiting, World, Run, continue, ◌>>=◌, replied, call, request,
  done, stop, wait, lift,
}

-- A reply that the world gives at some time.
abbrev pub IsAnswer :
    {Call : Type 0} {Reply : Call → Type 0} → World Call Reply → (c : Call) → Reply c → Type 0
IsAnswer {Call} w c a = (before : List Call) × (w.answer before c ≡ some a)

module _ {Call : Type 0} (P : Call → Type 0) where
  -- The calls of the run are of the kind `P`, and if it finishes, `Q` holds of what it returns.
  pub record Ensures {A : Type 0} (Q : A → Type 0) (m : Run Call A) : Type 0 where
    pub keeps : (before : List Call) → All P before → All P (m before).0
    pub returns : (before : List Call) (a : A) → (m before).1 ≡ finished a → Q a

  module _ {A : Type 0} {Q : A → Type 0} where
    pub done-Ensures : {a : A} → Q a → Ensures Q (done a)
    done-Ensures {a} h = record {
      keeps = λ before k. k;
      returns = λ before b e. subst Q (same e) h;
    }
      where
        same : {a b : A} → finished a ≡ finished b → a ≡ b
        same e = cc

    pub stop-Ensures : {context : Option String} → Ensures Q (stop context)
    stop-Ensures = record { keeps = λ before k. k; returns = λ before b e. cc e }

    pub wait-Ensures : Ensures Q wait
    wait-Ensures = record { keeps = λ before k. k; returns = λ before b e. cc e }

    pub panic-Ensures : {p : _} → Ensures Q (lift (panic p))
    panic-Ensures = record { keeps = λ before k. k; returns = λ before b e. cc e }

  pub Ensures-weaken :
      {A : Type 0} {Q R : A → Type 0} {m : Run Call A}
      → ((a : A) → Q a → R a)
      → Ensures Q m
      → Ensures R m
  Ensures-weaken f h = record {
    keeps = h.keeps;
    returns = λ before a e. f a (h.returns before a e);
  }

  module _ {A B : Type 0} {Q : A → Type 0} {R : B → Type 0} where
    pub bind-Ensures :
        {m : Run Call A} {f : A → Run Call B}
        → Ensures Q m
        → ((a : A) → Q a → Ensures R (f a))
        → Ensures R (m >>= f)
    unfolding continue
    bind-Ensures {m} {f} h k = record {
      keeps = λ before l. keeps_after (m before) (h.keeps before l) (h.returns before);
      returns = λ before b e. returns_after (m before) (h.returns before) b e;
    }
      where
        keeps_after :
            (r : List Call × Result A)
            → All P r.0
            → ((a : A) → r.1 ≡ finished a → Q a)
            → All P (continue f r).0
        keeps_after (calls, finished a) l q = (k a (q a refl)).keeps calls l
        keeps_after (calls, stopped context) l q = l
        keeps_after (calls, aborted p) l q = l
        keeps_after (calls, waiting) l q = l

        returns_after :
            (r : List Call × Result A)
            → ((a : A) → r.1 ≡ finished a → Q a)
            → (b : B) → (continue f r).1 ≡ finished b
            → R b
        returns_after (calls, finished a) q b e = (k a (q a refl)).returns calls b e
        returns_after (calls, stopped context) q b e = cc e
        returns_after (calls, aborted p) q b e = cc e
        returns_after (calls, waiting) q b e = cc e

  module _ {Reply : Call → Type 0} (w : World Call Reply) where
    pub call-Ensures :
        (c : Call) (context : Option String) → P c → Ensures (λ _. Unit) (call w c context)
    call-Ensures c context h = record {
      keeps = λ before k. by_answer before k (w.answer before c);
      returns = λ before a e. tt;
    }
      where
        by_answer :
            (before : List Call)
            → All P before
            → (o : Option (Reply c)) → All P (replied w c context before o).0
        by_answer before k none = (All-append P before (c ∷ [])).1 (k, (h, tt))
        by_answer before k (some reply) = (All-append P before (c ∷ [])).1 (k, (h, tt))

    pub call-Answers :
        (c : Call) (context : Option String) → P c → Ensures (IsAnswer w c) (call w c context)
    call-Answers c context h = record {
      keeps = (call-Ensures c context h).keeps;
      returns = λ before a e. (before, answered before a (w.answer before c) e);
    }
      where
        answered :
            (before : List Call) (a : Reply c) (o : Option (Reply c))
            → (replied w c context before o).1 ≡ finished a
            → o ≡ some a
        answered before a none e = cc e
        answered before a (some reply) e = cc e

    pub request-Ensures :
        (c : Call) (context : Option String) → P c → Ensures (λ _. Unit) (request w c context)
    unfolding request
    request-Ensures c context h = bind-Ensures (call-Ensures c context h) (λ _ _. done-Ensures tt)
