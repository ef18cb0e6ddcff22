-- ===== src/Prelude/Repeats.antt =====
-- Lists with no entry twice, and what the scans for duplicates decide.
use mathlib.Core.Path.{◌≡◌, refl, sym, subst}
use mathlib.Core.Logic.{◌↔◌, ◌≢◌, inl, inr}
use mathlib.Core.Bool.{Bool, true, false, ◌||◌}
use mathlib.Core.List.{List, [], ◌∷◌, ◌++◌, map, append_assoc}
use native.Mathlib.Omega.{arith}
use blockchain_validator.Prelude.Lists.{All, Some, any, length, take}
use blockchain_validator.Prelude.Equality.{Eq, ◌==◌}

module _ {ℓ κ} {A : Type ℓ} (P : A → Type κ) where
  pub All-append : (xs ys : List A) → All P (xs ++ ys) ↔ (All P xs × All P ys)
  All-append [] ys = (λ h. (tt, h), λ h. h.1)
  All-append (x ∷ xs) ys =
      let ih = All-append xs ys in
      (λ h. ((h.0, (ih.0 h.1).0), (ih.0 h.1).1), λ h. (h.0.0, ih.1 (h.0.1, h.1)))

module _ {A : Type 0} where
  -- Each entry of a list is among those of a list that it is a suffix of.
  All-among : (before xs : List A) → All (λ x. Some (λ y. y ≡ x) (before ++ xs)) xs
  All-among before [] = tt
  All-among before (x ∷ xs) = (
    here before,
    subst (λ whole. All (λ x. Some (λ y. y ≡ x) whole) xs) (append_assoc before (x ∷ []) xs)
        (All-among (before ++ (x ∷ [])) xs),
  )
    where
      here : (ys : List A) → Some (λ y. y ≡ x) (ys ++ (x ∷ xs))
      here [] = inl refl
      here (y ∷ ys) = inr (here ys)

  pub All-self : (xs : List A) → All (λ x. Some (λ y. y ≡ x) xs) xs
  All-self = All-among []

module _ {ℓ} {A : Type ℓ} where
  abbrev pub Absent : A → List A → Type ℓ
  Absent x = All (λ y. y ≢ x)

  abbrev pub Distinct : List A → Type ℓ
  Distinct [] = Unit
  Distinct (x ∷ xs) = Absent x xs × Distinct xs

  -- No entry of the second list is in the first.
  abbrev pub Apart : List A → List A → Type ℓ
  Apart seen = All (λ x. Absent x seen)

  -- Each entry is absent from those before it, `seen` included.
  abbrev pub DistinctAfter : List A → List A → Type ℓ
  DistinctAfter seen [] = Unit
  DistinctAfter seen (x ∷ xs) = Absent x seen × DistinctAfter (seen ++ (x ∷ [])) xs

  Apart-append :
      (seen : List A) (x : A) (xs : List A)
      → Apart (seen ++ (x ∷ [])) xs ↔ (Apart seen xs × Absent x xs)
  Apart-append seen x [] = (λ h. (tt, tt), λ h. tt)
  Apart-append seen x (y ∷ ys) =
      let ih = Apart-append seen x ys in
      let here = All-append (λ z. z ≢ y) seen (x ∷ []) in
      (
        λ h. (((here.0 h.0).0, (ih.0 h.1).0), (λ e. (here.0 h.0).1.0 (sym e), (ih.0 h.1).1)),
        λ h. (here.1 (h.0.0, (λ e. h.1.0 (sym e), tt)), ih.1 (h.0.1, h.1.1)),
      )

  DistinctAfter-iff : (seen xs : List A) → DistinctAfter seen xs ↔ (Apart seen xs × Distinct xs)
  DistinctAfter-iff seen [] = (λ h. (tt, tt), λ h. tt)
  DistinctAfter-iff seen (x ∷ xs) =
      let ih = DistinctAfter-iff (seen ++ (x ∷ [])) xs in
      let split = Apart-append seen x xs in
      (
        λ h.
            let (apart, distinct) = ih.0 h.1 in
            let (left, right) = split.0 apart in ((h.0, left), (right, distinct)),
        λ h. (h.0.0, ih.1 (split.1 (h.0.1, h.1.0), h.1.1)),
      )

  Apart-nil : (xs : List A) → Apart [] xs
  Apart-nil [] = tt
  Apart-nil (x ∷ xs) = (tt, Apart-nil xs)

  pub DistinctAfter-nil : (xs : List A) → DistinctAfter [] xs ↔ Distinct xs
  DistinctAfter-nil xs =
      let split = DistinctAfter-iff [] xs in (λ h. (split.0 h).1, λ h. split.1 (Apart-nil xs, h))

  -- An entry in the middle stands on neither side.
  pub Distinct-middle :
      (xs : List A) (y : A) (ys : List A) → Distinct (xs ++ (y ∷ ys)) → Absent y xs × Absent y ys
  Distinct-middle [] y ys h = (tt, h.0)
  Distinct-middle (x ∷ xs) y ys h =
      let (left, right) = Distinct-middle xs y ys h.1 in
      let apart = (All-append (λ z. z ≢ x) xs (y ∷ ys)).0 h.0 in
      ((λ e. apart.1.0 (sym e), left), right)

  pub Distinct-snoc : (xs : List A) (y : A) → Distinct xs → Absent y xs → Distinct (xs ++ (y ∷ []))
  Distinct-snoc [] y d a = (tt, tt)
  Distinct-snoc (x ∷ xs) y d a = (
    (All-append (λ z. z ≢ x) xs (y ∷ [])).1 (d.0, (λ e. a.0 (sym e), tt)),
    Distinct-snoc xs y d.1 a.1,
  )

  pub take-length : (xs ys : List A) → take (length xs) (xs ++ ys) ≡ xs
  take-length [] ys = refl
  take-length (x ∷ xs) ys = λ i. x ∷ take-length xs ys i

module _ {ℓ κ} {A : Type ℓ} {B : Type κ} ⦃e : Eq B⦄ (f : A → B) where
  -- A scan that finds nothing.
  pub any-false_iff : (b : B) (xs : List A) → (any (λ x. f x == b) xs ≡ false) ↔ Absent b (map f xs)
  any-false_iff b [] = (λ h. tt, λ h. refl)
  any-false_iff b (x ∷ xs) =
      let ih = any-false_iff b xs in
      (
        λ h. (λ p. ground (arith, (e.beq_iff (f x) b).1 p), ih.0 (ground arith)),
        λ h. step (f x == b) (λ t. h.0 ((e.beq_iff (f x) b).0 t)) (ih.1 h.1),
      )
    where
      step : (c : Bool) {d : Bool} → (c ≡ true → ⊥) → d ≡ false → (c || d) ≡ false
      step true n p = absurd (n refl)
      step false n p = p
