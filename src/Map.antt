-- ===== src/Map.antt =====
-- `BTreeMap` by its `get` and `insert`. The program never iterates over one, so the order of the
-- entries is not modelled. Proofs use the laws alone; only the examples compute with it.
use blockchain_validator.Prelude.{
  ◌≡◌, refl, Option, none, some, List, [], ◌∷◌, arith, Eq, ◌==◌, if◌then◌else◌,
}

pub record Map {ℓ κ} (K : Type ℓ) (V : Type κ) : Type (ℓ ⊔ κ) where
  entries : List (K × V)

module _ {ℓ κ} {K : Type ℓ} {V : Type κ} where
  unfoldable pub empty : Map K V
  empty = record { entries = [] }

module _ {ℓ κ} {K : Type ℓ} {V : Type κ} ⦃e : Eq K⦄ where
  unfoldable pub find : K → List (K × V) → Option V
  find k [] = none
  find k ((j, v) ∷ m) = if j == k then some v else find k m

  unfoldable pub replace : K → V → List (K × V) → List (K × V)
  replace k v [] = (k, v) ∷ []
  replace k v ((j, w) ∷ m) = if j == k then (k, v) ∷ m else (j, w) ∷ replace k v m

  unfoldable pub get : Map K V → K → Option V
  unfolding find
  get m k = find k m.entries

  unfoldable pub insert : Map K V → K → V → Map K V
  unfolding replace
  insert m k v = record { entries = replace k v m.entries }

  find-replace :
      (k j : K) (v : V) (m : List (K × V))
      → find j (replace k v m) ≡ (if k == j then some v else find j m)
  unfolding find replace
  find-replace k j v [] = refl
  find-replace k j v ((i, w) ∷ m) =
      ground (arith, e.beq_iff k j, e.beq_iff i k, e.beq_iff i j, find-replace k j v m)

  pub get-insert :
      (m : Map K V) (k j : K) (v : V) → get (insert m k v) j ≡ (if k == j then some v else get m j)
  unfolding get insert
  get-insert m k j v = find-replace k j v m.entries

  pub get-empty : (k : K) → get (empty {V = V}) k ≡ none
  unfolding get empty
  get-empty k = refl
