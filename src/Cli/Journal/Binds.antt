-- ===== src/Cli/Journal/Binds.antt =====
-- Laws of running one part after the other.
use blockchain_validator.Prelude.{◌≡◌, refl, sym, ap, ◌∙◌, List}
use blockchain_validator.Cli.Journal.{
  Result, finished, stopped, aborted, waiting, Run, continue, ◌>>=◌, done,
}

module _ {Call : Type 0} where
  module _ {A B C : Type 0} where
    pub bind_assoc :
        (m : Run Call A) (f : A → Run Call B) (g : B → Run Call C) (before : List Call)
        → ((m >>= f) >>= g) before ≡ (m >>= λ a. f a >>= g) before
    unfolding continue
    bind_assoc m f g before = by_result (m before)
      where
        by_result :
            (r : List Call × Result A) → continue g (continue f r) ≡ continue (λ a. f a >>= g) r
        by_result (calls, finished a) = refl
        by_result (calls, stopped context) = refl
        by_result (calls, aborted p) = refl
        by_result (calls, waiting) = refl

  module _ {A B : Type 0} where
    -- Where the continuations agree.
    pub bind_cong :
        (m : Run Call A) (f g : A → Run Call B) (before : List Call)
        → ((a : A) (calls : List Call) → f a calls ≡ g a calls)
        → (m >>= f) before ≡ (m >>= g) before
    unfolding continue
    bind_cong m f g before same = by_result (m before)
      where
        by_result : (r : List Call × Result A) → continue f r ≡ continue g r
        by_result (calls, finished a) = same a calls
        by_result (calls, stopped context) = refl
        by_result (calls, aborted p) = refl
        by_result (calls, waiting) = refl

  -- A run that finishes got through its first part.
  pub bind-finished :
      {A B : Type 0} (m : Run Call A) (f : A → Run Call B) (before : List Call) {after : List Call}
      {b : B}
      → (m >>= f) before ≡ (after, finished b)
      → (a : A) × (calls : List Call) × (m before ≡ (calls, finished a))
        × (f a calls ≡ (after, finished b))
  unfolding continue
  bind-finished {A} {B} m f before {after} {b} = by_result (m before) refl
    where
      by_result :
          (r : List Call × Result A)
          → m before ≡ r
          → continue f r ≡ (after, finished b)
          → (a : A) × (calls : List Call) × (m before ≡ (calls, finished a))
            × (f a calls ≡ (after, finished b))
      by_result (calls, finished a) e h = (a, calls, e, h)
      by_result (calls, stopped context) e h = cc (ap (λ r. r.1) h)
      by_result (calls, aborted p) e h = cc (ap (λ r. r.1) h)
      by_result (calls, waiting) e h = cc (ap (λ r. r.1) h)

  -- Two replies together.
  abbrev pub pair : {A B : Type 0} → A → B → Run Call (A × B)
  pair a b = done (a, b)

  abbrev pub both : {A B : Type 0} → Run Call A → (A → Run Call B) → Run Call (A × B)
  both m k = m >>= λ a. k a >>= pair a

  -- What uses them, where they are known.
  pub known_both :
      {A B C : Type 0} (m : Run Call A) (k : A → Run Call B) (f : A → B → Run Call C)
      (before calls : List Call) (a : A) (b : B)
      → both m k before ≡ (calls, finished (a, b))
      → (m >>= λ a. k a >>= f a) before ≡ f a b calls
  unfolding continue
  known_both {A} {B} {C} m k f before calls a b e =
      sym (
        bind_cong m (λ a. (k a >>= pair a) >>= use_pair) (λ a. k a >>= f a) before
          (λ a. bind_assoc (k a) (pair a) use_pair))
      ∙ sym (bind_assoc m (λ a. k a >>= pair a) use_pair before)
      ∙ ap (continue use_pair) e
    where
      use_pair : A × B → Run Call C
      use_pair p = f p.0 p.1
