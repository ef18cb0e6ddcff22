-- ===== src/Outcome.antt =====
-- Code that may panic. The release profile aborts the process on a panic, so no state comes back.
use blockchain_validator.Prelude.{◌≡◌, refl, ◌⊎◌, inl, inr}

-- Where a panic comes from: each constructor is one `expect`, `assert!` or index of the code.
pub data Panic : Type 0 where
  version_overflow missing_object version_not_forward authority_not_found : Panic
  index_out_of_bounds division_by_zero serialization_failed assertion_failed : Panic

pub data Outcome {ℓ} (A : Type ℓ) : Type ℓ where
  ok : A → Outcome A
  panic : Panic → Outcome A

infixl 5 ◌>>=◌
abbrev pub ◌>>=◌ {ℓ κ} : {A : Type ℓ} {B : Type κ} → Outcome A → (A → Outcome B) → Outcome B
ok a >>= f = f a
panic p >>= f = panic p

module _ {ℓ} {A : Type ℓ} where
  pub ok-injective : {a b : A} → ok a ≡ ok b → a ≡ b
  ok-injective e = cc

  pub Outcome-cases : (r : Outcome A) → ((a : A) × (r ≡ ok a)) ⊎ ((p : Panic) × (r ≡ panic p))
  Outcome-cases (ok a) = inl (a, refl)
  Outcome-cases (panic p) = inr (p, refl)

  pub bind-ok : (m : Outcome A) → (m >>= ok) ≡ m
  bind-ok (ok a) = refl
  bind-ok (panic p) = refl

module _ {ℓ κ} {A : Type ℓ} {B : Type κ} where
  pub bind-eq-ok :
      (m : Outcome A) (f : A → Outcome B) {b : B}
      → (m >>= f) ≡ ok b
      → (a : A) × (m ≡ ok a) × (f a ≡ ok b)
  bind-eq-ok (ok a) f h = (a, refl, h)
  bind-eq-ok (panic p) f h = cc

module _ {ℓ κ μ} {A : Type ℓ} {B : Type κ} {C : Type μ} where
  pub bind_assoc :
      (m : Outcome A) (f : A → Outcome B) (g : B → Outcome C)
      → (m >>= f >>= g) ≡ (m >>= λ a. f a >>= g)
  bind_assoc (ok a) f g = refl
  bind_assoc (panic p) f g = refl
