-- ===== src/Dag.antt =====
-- What the program takes from the consensus library (the `dag` crate): types and operations that are
-- parameters of the model, and what the code relies on as named laws.
use blockchain_validator.Prelude.{ℕ, ◌≡◌, Bool, false, not, ◌||◌, Option, List, any, Eq}
use blockchain_validator.Execution.Object.{Bytes}

pub record Dag : Type 1 where
  pub Authority : Type 0
  pub authority_eq : Eq Authority
  pub BlockReference : Type 0
  pub reference_eq : Eq BlockReference
  pub round : BlockReference → ℕ
  -- `AuthoritySet`: `insert` also says whether the authority is new.
  pub AuthoritySet : Type 0
  pub no_authorities : AuthoritySet
  pub insert : AuthoritySet → Authority → AuthoritySet × Bool
  pub present : AuthoritySet → List Authority
  pub clear : AuthoritySet → AuthoritySet
  -- `Committee`, and the `Stake` integers, which wrap at `stake_modulus`.
  pub Committee : Type 0
  pub get_stake : Committee → Authority → Option ℕ
  pub stake_modulus : ℕ

-- Whether a set holds an authority, as its `present` iterator shows it.
abbrev pub has : (d : Dag) → d.AuthoritySet → d.Authority → Bool
has d s a = any (λ voter. d.authority_eq.beq voter a) (d.present s)

-- `AuthoritySet` is a set.
pub record SetLaws (d : Dag) : Type 0 where
  pub has-none : (a : d.Authority) → has d d.no_authorities a ≡ false
  pub has-insert :
      (s : d.AuthoritySet) (a b : d.Authority)
      → has d (d.insert s a).0 b ≡ (d.authority_eq.beq a b || has d s b)
  pub insert_new : (s : d.AuthoritySet) (a : d.Authority) → (d.insert s a).1 ≡ not (has d s a)
  pub has-clear : (s : d.AuthoritySet) (a : d.Authority) → has d (d.clear s) a ≡ false

-- `Block` and `CommittedSubDag`; `payloads` is the bytes of the block's transactions.
pub record SubDags (d : Dag) : Type 1 where
  pub Block : Type 0
  pub author : Block → d.Authority
  pub payloads : Block → List Bytes
  pub CommittedSubDag : Type 0
  pub anchor : CommittedSubDag → d.BlockReference
  pub blocks : CommittedSubDag → List Block
  pub sort : CommittedSubDag → CommittedSubDag
  pub committed : d.BlockReference → List Block → CommittedSubDag
