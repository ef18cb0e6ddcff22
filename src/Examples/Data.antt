-- ===== src/Examples/Data.antt =====
-- The parameters of the model, made concrete for the examples.
use blockchain_validator.Prelude.{
  ℕ, zero, suc, ◌≡◌, refl, Bool, true, false, not, ◌||◌, Option, none, some, List, [], ◌∷◌, any,
  replicate, nat_eq, pair_eq, ==-cases, subst, inl, inr,
}
use blockchain_validator.Dag.{Dag, has, SetLaws, SubDags}
use blockchain_validator.Execution.Object.{Bytes, Digest}

-- A hash with many collisions.
abbrev pub hash : Bytes → Digest
hash bytes = replicate 32 1

abbrev nth : List ℕ → ℕ → Option ℕ
nth [] n = none
nth (x ∷ xs) zero = some x
nth (x ∷ xs) (suc n) = nth xs n

abbrev add_new : List ℕ → ℕ → Bool → List ℕ × Bool
add_new s a true = (s, false)
add_new s a false = (a ∷ s, true)

-- A reference is a round with a number; a committee is the list of its stakes.
abbrev pub dag : Dag
dag = record {
  Authority = ℕ;
  authority_eq = nat_eq;
  BlockReference = ℕ × ℕ;
  reference_eq = pair_eq;
  round = λ r. r.0;
  AuthoritySet = List ℕ;
  no_authorities = [];
  insert = λ s a. add_new s a (any (λ b. nat_eq.beq b a) s);
  present = λ s. s;
  clear = λ s. [];
  Committee = List ℕ;
  get_stake = nth;
  stake_modulus = 18446744073709551616;
}

abbrev pub four : List ℕ
four = 1 ∷ 1 ∷ 1 ∷ 1 ∷ []

pub dag-SetLaws : SetLaws dag
dag-SetLaws = record {
  has-none = λ a. refl;
  has-insert = λ s a b. inserted s a b (any (λ b. nat_eq.beq b a) s) refl;
  insert_new = λ s a. news s a (any (λ b. nat_eq.beq b a) s);
  has-clear = λ s a. refl;
}
  where
    inserted :
        (s : List ℕ) (a b : ℕ) (old : Bool)
        → any (λ b. nat_eq.beq b a) s ≡ old
        → has dag (add_new s a old).0 b ≡ (nat_eq.beq a b || has dag s b)
    inserted s a b false e = refl
    inserted s a b true e = elim (==-cases a b) [
      | inl (same, h) ↦ rw h (subst (λ c. any (λ b. nat_eq.beq b c) s ≡ true) same e)
      | inr (other, h) ↦ rw h refl
    ]

    news : (s : List ℕ) (a : ℕ) (old : Bool) → (add_new s a old).1 ≡ not old
    news s a true = refl
    news s a false = refl

-- A block is its author with its payloads; a sub-dag is an anchor with blocks that stand in order.
abbrev pub sub_dags : SubDags dag
sub_dags = record {
  Block = ℕ × List Bytes;
  author = λ block. block.0;
  payloads = λ block. block.1;
  CommittedSubDag = (ℕ × ℕ) × List (ℕ × List Bytes);
  anchor = λ subdag. subdag.0;
  blocks = λ subdag. subdag.1;
  sort = λ subdag. subdag;
  committed = λ leader blocks. (leader, blocks);
}
