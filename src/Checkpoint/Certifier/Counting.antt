-- ===== src/Checkpoint/Certifier/Counting.antt =====
-- Recording a vote in an entry implements the count of ballots.
use mathlib.Core.List.{map-append}
use blockchain_validator.Prelude.{
  ℕ, suc, ◌+◌, ◌≡◌, ◌≢◌, ◌⊎◌, refl, sym, subst, ap, ◌∙◌, inl, inr, true, false, Bool, Option, none,
  some, List, [], ◌∷◌, ◌++◌, arith, length, length-append, any-append, All, All-append, Absent,
  Distinct, Distinct-middle, ==-cases, ◌==◌, list_eq, nat_eq, Bool-cases, if◌then◌else◌,
}
use blockchain_validator.Outcome.{Outcome, ok}
use blockchain_validator.Dag.{Dag, SetLaws}
use blockchain_validator.Execution.Object.{Digest}
use blockchain_validator.Checkpoint.Accumulator.{
  CheckpointAccumulator, new_accumulator, add, voted, clear,
}
use blockchain_validator.Checkpoint.Certifier.{voted_before, target, scan, ensure, cast_at}
use blockchain_validator.Checkpoint.Certifier.Tally.{
  Ballot, Accumulators, for_commitment, for_commitment-other, for_commitment-same, keys, voted_in,
  Holds, HoldsFor, Tracks, new-Tracks,
}

module _ (d : Dag) where
  -- An author that some accumulator holds ends the pass.
  pub scan-voted :
      (author : d.Authority) (c : Digest) (index : ℕ) (found : Option ℕ) (accs : Accumulators d)
      → voted_in d accs author ≡ true
      → scan d author c index found accs ≡ voted_before
  unfolding scan
  scan-voted author c index found [] h = cc
  scan-voted author c index found ((k, acc) ∷ accs) h = elim (Bool-cases (voted d acc author)) [
    | inl here ↦ rw here
    | inr later ↦ rw later (scan-voted author c (suc index) _ accs (ground (arith, h, later)))
  ]

  -- Where the accumulator of a commitment stands.
  pub record At (c : Digest) (accs : Accumulators d) : Type 0 where
    pub before : Accumulators d
    pub acc : CheckpointAccumulator d
    pub after : Accumulators d
    pub whole : accs ≡ before ++ ((c, acc) ∷ after)

  -- Else the pass ends with the index of the commitment's accumulator, if there is one.
  scan-target :
      (author : d.Authority) (c : Digest) (index : ℕ) (found : Option ℕ) (accs : Accumulators d)
      → voted_in d accs author ≡ false
      → ((scan d author c index found accs ≡ target found) × Absent c (keys d accs))
        ⊎ ((at : At c accs) × (scan d author c index found accs
              ≡ target (some (index + length at.before))))
  unfolding scan
  scan-target author c index found [] h = inl (refl, tt)
  scan-target author c index found ((k, acc) ∷ accs) h =
      let fresh : voted d acc author ≡ false = ground (arith, h) in
      let rest =
        scan-target author c (suc index) (if k == c then some index else found) accs
          (ground (arith, h)) in
      rw fresh (elim rest [
        | inr (at, e) ↦ inr (
          record {
            before = (k, acc) ∷ at.before;
            acc = at.acc;
            after = at.after;
            whole = ap (◌∷◌ (k, acc)) at.whole;
          },
          e ∙ ap (λ i. target (some i)) (omega arith),
        )
        | inl (e, absent) ↦ elim (==-cases k c) [
          | inl (same, t) ↦ inr (
            record { before = []; acc = acc; after = accs; whole = λ i. (same i, acc) ∷ accs },
            e
                ∙ ap (λ b. target (if b then some index else found)) t
                ∙ ap (λ i. target (some i)) (omega arith),
          )
          | inr (other, t) ↦
              inl (e ∙ ap (λ b. target (if b then some index else found)) t, (other, absent))
        ]
      ])

  pub cast_at-middle :
      (author : d.Authority) (committee : d.Committee) (subdag : d.BlockReference)
      (before : Accumulators d) (c : Digest) (acc : CheckpointAccumulator d)
      (after : Accumulators d) {acc' : CheckpointAccumulator d} {reached : Bool}
      → add d acc author committee subdag ≡ ok (acc', reached)
      → cast_at d author committee subdag (length before) (before ++ ((c, acc) ∷ after))
        ≡ ok (
            if reached
            then (before ++ ((c, (clear d acc').0) ∷ after), some (clear d acc').1)
            else (before ++ ((c, acc') ∷ after), none))
  unfolding cast_at
  cast_at-middle author committee subdag [] c acc after e = rw e
  cast_at-middle author committee subdag (b ∷ before) c acc after {reached = reached} e =
      rw (cast_at-middle author committee subdag before c acc after e) (by_reached reached _ _)
    where
      by_reached :
          (r : Bool) (x y : Accumulators d × Option (List d.BlockReference))
          → ◌≡◌ {A = Outcome (Accumulators d × Option (List d.BlockReference))}
              (ok (b ∷ (if r then x else y).0, (if r then x else y).1))
              (ok (if r then (b ∷ x.0, x.1) else (b ∷ y.0, y.1)))
      by_reached true x y = refl
      by_reached false x y = refl

  module _ (laws : SetLaws d) (committee : d.Committee) (quorum : ℕ) where
    -- The accumulators with one for the commitment of the vote, old or new.
    pub ensure-Tracks :
        (bs : List (Ballot d)) (author : d.Authority) (c : Digest) (accs : Accumulators d)
        → Tracks d committee quorum bs accs
        → voted_in d accs author ≡ false
        → (found : Option ℕ) × (before : Accumulators d) × (acc : CheckpointAccumulator d)
          × (after : Accumulators d) × (scan d author c 0 none accs ≡ target found)
          × (ensure d quorum c found accs ≡ (length before, before ++ ((c, acc) ∷ after)))
          × Tracks d committee quorum bs (before ++ ((c, acc) ∷ after))
    ensure-Tracks bs author c accs t fresh = elim (scan-target author c 0 none accs fresh) [
      | inr (at, e) ↦ (
        some (length at.before),
        at.before,
        at.acc,
        at.after,
        e ∙ ap (λ i. target (some i)) (omega arith),
        ap (λ us. (length at.before, us)) at.whole,
        subst (Tracks d committee quorum bs) at.whole t,
      )
      | inl (e, absent) ↦ (
        none,
        accs,
        new_accumulator d quorum,
        [],
        e,
        ap (λ i. (i, accs ++ ((c, new_accumulator d quorum) ∷ [])))
            (omega (arith, length-append {0} accs ((c, new_accumulator d quorum) ∷ []))),
        new-Tracks d laws committee quorum bs accs c absent t,
      )
    ]

    others :
        (bs : List (Ballot d)) (b : Ballot d) (accs : Accumulators d)
        → Absent b.commitment (keys d accs)
        → All (HoldsFor d committee quorum bs) accs
        → All (HoldsFor d committee quorum (bs ++ (b ∷ []))) accs
    others bs b [] a h = tt
    others bs b ((k, acc) ∷ accs) a h = (
      subst (λ us. Holds d committee quorum us acc)
          (sym (for_commitment-other d k bs b (λ e. a.0 (sym e)))) h.0,
      others bs b accs a.1 h.1,
    )

    keys-middle :
        (before : Accumulators d) (c : Digest) (acc : CheckpointAccumulator d)
        (after : Accumulators d)
        → keys d (before ++ ((c, acc) ∷ after)) ≡ keys d before ++ (c ∷ keys d after)
    keys-middle before c acc after =
        map-append (λ (p : Digest × CheckpointAccumulator d). p.0) before ((c, acc) ∷ after)

    -- A ballot goes into the accumulator of its commitment, and the others are as they were.
    pub cast-Tracks :
        (bs : List (Ballot d)) (b : Ballot d) (before : Accumulators d)
        (acc acc' : CheckpointAccumulator d) (after : Accumulators d)
        → Tracks d committee quorum bs (before ++ ((b.commitment, acc) ∷ after))
        → Holds d committee quorum (for_commitment d b.commitment bs ++ (b ∷ [])) acc'
        → Tracks d committee quorum (bs ++ (b ∷ [])) (before ++ ((b.commitment, acc') ∷ after))
    cast-Tracks bs b before acc acc' after t h =
        let parts =
          (All-append (HoldsFor d committee quorum bs) before ((b.commitment, acc) ∷ after)).0
            t.each in
        let spread = subst Distinct (keys-middle before b.commitment acc after) t.distinct in
        let (left, right) = Distinct-middle (keys d before) b.commitment (keys d after) spread in
        record {
          each =
              (All-append (HoldsFor d committee quorum (bs ++ (b ∷ []))) before
                  ((b.commitment, acc') ∷ after)).1
                (
                  others bs b before left parts.0,
                  (
                    subst (λ us. Holds d committee quorum us acc')
                        (sym (for_commitment-same d bs b)) h,
                    others bs b after right parts.1.1,
                  ),
                );
          distinct = subst Distinct (sym (keys-middle before b.commitment acc' after)) spread;
          everyone = λ a. ground (
            arith,
            h.voters a,
            parts.1.0.voters a,
            t.everyone a,
            any-append (λ p. voted d p.1 a) before ((b.commitment, acc) ∷ after),
            any-append (λ p. voted d p.1 a) before ((b.commitment, acc') ∷ after),
            any-append (λ (x : Ballot d). d.authority_eq.beq x.author a) bs (b ∷ []),
            any-append (λ (x : Ballot d). d.authority_eq.beq x.author a)
                (for_commitment d b.commitment bs) (b ∷ []),
          );
          unseen = λ c absent.
              let spread' = subst (Absent c) (keys-middle before b.commitment acc' after) absent in
              let other =
                ((All-append (λ y. y ≢ c) (keys d before) (b.commitment ∷ keys d after)).0
                  spread').1.0 in
              for_commitment-other d c bs b other
              ∙ t.unseen c
                  (subst (Absent c) (sym (keys-middle before b.commitment acc after)) spread');
        }
