-- ===== src/Validator/Handle/Waiting.antt =====
-- What the waiting loops wait for.
use blockchain_validator.Prelude.{
  ℕ, ◌≤◌, ◌≡◌, ◌↔◌, refl, sym, ap, ◌∙◌, inl, inr, true, Option, none, some, List, [], ◌∷◌, ◌++◌,
  ltb, ltb→lt, ltb→ge, Bool-cases, arith, All, list_eq, nat_eq, bytes_eq_iff,
}
use blockchain_validator.Execution.Object.{Digest}
use blockchain_validator.Validator.Handle.{
  Waited, reached, driver_stopped, wait_for_transactions, all_certified, wait_for_certified,
}

-- The first value that satisfies a predicate, with what stands before and behind it.
pub record IsFirstOf {A : Type 0} (P : A → Type 0) (values : List A) (value : A) (later : List A)
    : Type 0 where
  pub before : List A
  pub whole : values ≡ before ++ (value ∷ later)
  pub holds : P value
  pub misses : All (λ v. P v → ⊥) before

-- A wait ends at the first such value, and early exactly if there is none.
abbrev pub FirstOf : {A : Type 0} → (A → Type 0) → List A → Waited A → Type 0
FirstOf P values (reached value later) = IsFirstOf P values value later
FirstOf P values driver_stopped = All (λ v. P v → ⊥) values

module _ {A : Type 0} (P : A → Type 0) where
  FirstOf-here : (v : A) (values : List A) → P v → FirstOf P (v ∷ values) (reached v values)
  FirstOf-here v values h = record { before = []; whole = refl; holds = h; misses = tt }

  FirstOf-later :
      (v : A) (values : List A) (w : Waited A)
      → (P v → ⊥)
      → FirstOf P values w
      → FirstOf P (v ∷ values) w
  FirstOf-later v values (reached value later) miss h = record {
    before = v ∷ h.before;
    whole = ap (◌∷◌ v) h.whole;
    holds = h.holds;
    misses = (miss, h.misses);
  }
  FirstOf-later v values driver_stopped miss h = (miss, h)

-- Waiting for a count of transactions ends at the first value seen that is at least the count, and
-- early exactly if the driver stops before one is.
pub wait_for_transactions-FirstOf :
    (count : ℕ) (values : List ℕ)
    → FirstOf (λ executed. count ≤ executed) values (wait_for_transactions count values)
unfolding wait_for_transactions
wait_for_transactions-FirstOf count [] = tt
wait_for_transactions-FirstOf count (executed ∷ later) = elim (Bool-cases (ltb executed count)) [
  | inl few ↦ rw few (
      FirstOf-later (λ executed. count ≤ executed) executed later _
        (λ h. omega (arith, h, ltb→lt executed count few))
        (wait_for_transactions-FirstOf count later))
  | inr enough ↦
      rw enough
        (FirstOf-here (λ executed. count ≤ executed) executed later (ltb→ge executed count enough))
]

abbrev pub AllCertified : Option Digest × Digest → Type 0
AllCertified (certified, store) = certified ≡ some store

all_certified_iff :
    (status : Option Digest × Digest) → (all_certified status ≡ true) ↔ AllCertified status
all_certified_iff (none, store) = (λ h. cc, λ h. cc)
all_certified_iff (some certified, store) =
    let same = bytes_eq_iff certified store in
    (λ h. ap some (same.0 h), λ h. same.1 (some-injective h))
  where
    some-injective : {a b : Digest} → some a ≡ some b → a ≡ b
    some-injective e = cc

-- Waiting for certification ends at the first status seen whose highest certified commitment is that
-- of the store, and early exactly if the driver stops before one is.
pub wait_for_certified-FirstOf :
    (statuses : List (Option Digest × Digest))
    → FirstOf AllCertified statuses (wait_for_certified statuses)
unfolding wait_for_certified
wait_for_certified-FirstOf [] = tt
wait_for_certified-FirstOf (status ∷ later) = elim (Bool-cases (all_certified status)) [
  | inl all ↦ rw all (FirstOf-here AllCertified status later ((all_certified_iff status).0 all))
  | inr some_left ↦ rw some_left (
      FirstOf-later AllCertified status later _
        (λ h. cc (sym some_left ∙ (all_certified_iff status).1 h))
        (wait_for_certified-FirstOf later))
]
