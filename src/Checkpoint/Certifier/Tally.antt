-- ===== src/Checkpoint/Certifier/Tally.antt =====
-- The count of votes as a list of ballots, and what the accumulators hold of it.
use mathlib.Core.List.{append-nil, map-append}
use native.Mathlib.Nat.{mod-add-mod, zero-mod}
use blockchain_validator.Prelude.{
  ℕ, not, ◌+◌, ◌%◌, ◌≡◌, ◌≢◌, refl, sym, subst, ap, ◌∙◌, inl, inr, true, false, Bool, none, some,
  List, [], ◌∷◌, ◌++◌, map, arith, any, keep_if, keep_if-append, any-append, All, All-append,
  Absent, Distinct, Distinct-snoc, ==-cases, ==_refl, ◌==◌, list_eq, nat_eq,
}
use blockchain_validator.Dag.{Dag, SetLaws}
use blockchain_validator.Execution.Object.{Digest}
use blockchain_validator.Checkpoint.Accumulator.{
  CheckpointAccumulator, new_accumulator, count_vote, voted,
}

-- A counted vote: who, for what, and the sub-dag that delivered it.
pub record Ballot (d : Dag) : Type 0 where
  pub subdag : d.BlockReference
  pub author : d.Authority
  pub commitment : Digest

module _ (d : Dag) where
  abbrev pub Accumulators : Type 0
  Accumulators = List (Digest × CheckpointAccumulator d)

  abbrev pub for_commitment : Digest → List (Ballot d) → List (Ballot d)
  for_commitment c = keep_if (λ b. b.commitment == c)

  abbrev pub has_voted : List (Ballot d) → d.Authority → Bool
  has_voted bs a = any (λ b. d.authority_eq.beq b.author a) bs

  abbrev pub subdags : List (Ballot d) → List d.BlockReference
  subdags = map (λ b. b.subdag)

  abbrev pub stake_of : d.Committee → d.Authority → ℕ
  stake_of committee a = elim (d.get_stake committee a) [ none ↦ 0 | some stake ↦ stake ]

  abbrev pub tally : d.Committee → List (Ballot d) → ℕ
  tally committee [] = 0
  tally committee (b ∷ bs) = stake_of committee b.author + tally committee bs

  pub tally-snoc :
      (committee : d.Committee) (bs : List (Ballot d)) (b : Ballot d)
      → tally committee (bs ++ (b ∷ [])) ≡ tally committee bs + stake_of committee b.author
  tally-snoc committee [] b = omega arith
  tally-snoc committee (x ∷ bs) b = omega (arith, tally-snoc committee bs b)

  abbrev pub keys : Accumulators → List Digest
  keys = map (λ p. p.0)

  abbrev pub voted_in : Accumulators → d.Authority → Bool
  voted_in accs a = any (λ p. voted d p.1 a) accs

  -- An accumulator holds the ballots of its commitment.
  pub record Holds (committee : d.Committee) (quorum : ℕ) (bs : List (Ballot d))
      (acc : CheckpointAccumulator d) : Type 0 where
    pub threshold : acc.threshold ≡ quorum
    pub stake : acc.stake ≡ tally committee bs % d.stake_modulus
    pub delivered : acc.delivered_in ≡ subdags bs
    pub voters : (a : d.Authority) → voted d acc a ≡ has_voted bs a

  abbrev pub HoldsFor :
      d.Committee → ℕ → List (Ballot d) → Digest × CheckpointAccumulator d → Type 0
  HoldsFor committee quorum bs (c, acc) = Holds committee quorum (for_commitment c bs) acc

  -- The accumulators of an entry hold the counted ballots, each commitment once.
  pub record Tracks (committee : d.Committee) (quorum : ℕ) (bs : List (Ballot d))
      (accs : Accumulators) : Type 0 where
    pub each : All (HoldsFor committee quorum bs) accs
    pub distinct : Distinct (keys accs)
    pub everyone : (a : d.Authority) → voted_in accs a ≡ has_voted bs a
    pub unseen : (c : Digest) → Absent c (keys accs) → for_commitment c bs ≡ []

  pub nothing-Tracks : (committee : d.Committee) (quorum : ℕ) → Tracks committee quorum [] []
  nothing-Tracks committee quorum = record {
    each = tt;
    distinct = tt;
    everyone = λ a. refl;
    unseen = λ c h. refl;
  }

  pub for_commitment-other :
      (c : Digest) (bs : List (Ballot d)) (b : Ballot d)
      → b.commitment ≢ c
      → for_commitment c (bs ++ (b ∷ [])) ≡ for_commitment c bs
  for_commitment-other c bs b other = elim (==-cases b.commitment c) [
    | inl (same, _) ↦ absurd (other same)
    | inr (_, h) ↦
        keep_if-append _ bs (b ∷ []) ∙ (rw (h, keep_if) (append-nil (for_commitment c bs)))
  ]

  pub for_commitment-same :
      (bs : List (Ballot d)) (b : Ballot d)
      → for_commitment b.commitment (bs ++ (b ∷ [])) ≡ for_commitment b.commitment bs ++ (b ∷ [])
  for_commitment-same bs b = keep_if-append _ bs (b ∷ []) ∙ (rw (==_refl b.commitment, keep_if))

  module _ (laws : SetLaws d) (committee : d.Committee) (quorum : ℕ) where
    new-Holds : Holds committee quorum [] (new_accumulator d quorum)
    new-Holds = record {
      threshold = refl;
      stake = sym (zero-mod d.stake_modulus);
      delivered = refl;
      voters = laws.has-none;
    }

    -- A commitment that nobody voted for gets an empty accumulator.
    pub new-Tracks :
        (bs : List (Ballot d)) (accs : Accumulators) (c : Digest)
        → Absent c (keys accs)
        → Tracks committee quorum bs accs
        → Tracks committee quorum bs (accs ++ ((c, new_accumulator d quorum) ∷ []))
    new-Tracks bs accs c absent t = record {
      each = (All-append (HoldsFor committee quorum bs) accs _).1 (
        t.each,
        (
          subst (λ us. Holds committee quorum us (new_accumulator d quorum))
              (sym (t.unseen c absent)) new-Holds,
          tt,
        ),
      );
      distinct =
          rw (map-append (λ (p : Digest × CheckpointAccumulator d). p.0) accs _)
            (Distinct-snoc (keys accs) c t.distinct absent);
      everyone = λ a.
          any-append (λ p. voted d p.1 a) accs ((c, new_accumulator d quorum) ∷ [])
          ∙ ground (arith, laws.has-none a, t.everyone a);
      unseen = λ c' h.
          t.unseen c'
            ((All-append (λ y. y ≢ c') (keys accs) (c ∷ [])).0 (
              rw
                (map-append (λ (p : Digest × CheckpointAccumulator d). p.0) accs
                  ((c, new_accumulator d quorum) ∷ []))
                at h)).0;
    }

    -- A counted vote, in its accumulator.
    pub count-Holds :
        (bs : List (Ballot d)) (acc : CheckpointAccumulator d) (b : Ballot d)
        → voted d acc b.author ≡ false
        → Holds committee quorum bs acc
        → Holds committee quorum
            (bs ++ (b ∷ []))
            (count_vote d acc (stake_of committee b.author) b.subdag (d.insert acc.votes b.author))
    unfolding count_vote
    count-Holds bs acc b fresh h =
        rw (is_new, count_vote)
          (record {
            threshold = h.threshold;
            stake =
                ap (λ s. (s + stake_of committee b.author) % d.stake_modulus) h.stake
                ∙ mod-add-mod (tally committee bs) d.stake_modulus (stake_of committee b.author)
                ∙ ap (λ s. s % d.stake_modulus) (sym (tally-snoc committee bs b));
            delivered =
                ap (λ ds. ds ++ (b.subdag ∷ [])) h.delivered
                ∙ sym (map-append (λ (x : Ballot d). x.subdag) bs (b ∷ []));
            voters = λ a.
                laws.has-insert acc.votes b.author a
                ∙ ground (
                  arith,
                  h.voters a,
                  any-append (λ (x : Ballot d). d.authority_eq.beq x.author a) bs (b ∷ []),
                );
          })
      where
        is_new : d.insert acc.votes b.author ≡ ((d.insert acc.votes b.author).0, true)
        is_new =
            ap (λ n. ((d.insert acc.votes b.author).0, n))
              (laws.insert_new acc.votes b.author ∙ ap not fresh)
