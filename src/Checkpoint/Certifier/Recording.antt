-- ===== src/Checkpoint/Certifier/Recording.antt =====
-- A vote in an open entry certifies exactly when the ballots for its commitment reach the quorum.
use blockchain_validator.Prelude.{
  ℕ, ◌%◌, ◌≤◌, ◌<◌, ◌≡◌, ◌⊎◌, refl, sym, subst, ap, ◌∙◌, inl, inr, true, false, Bool, Option, none,
  some, List, [], ◌∷◌, ◌++◌, arith, Bool-cases, leb, leb→le, leb→gt, length, any-append,
  if◌then◌else◌, All-append,
}
use blockchain_validator.Outcome.{ok}
use blockchain_validator.Dag.{Dag, SetLaws}
use blockchain_validator.Checkpoint.Types.{Checkpoint}
use blockchain_validator.Checkpoint.Accumulator.{
  CheckpointAccumulator, count_vote, add, voted, clear,
}
use blockchain_validator.Checkpoint.Certifier.{
  PendingCheckpoint, target, scan, ensure, conclude, record_scanned, record_unless_certified,
  record_entry,
}
use blockchain_validator.Checkpoint.Certifier.Tally.{
  Ballot, Accumulators, for_commitment, for_commitment-same, has_voted, subdags, stake_of, tally,
  voted_in, Holds, HoldsFor, Tracks, count-Holds,
}
use blockchain_validator.Checkpoint.Certifier.Counting.{
  scan-voted, cast_at-middle, ensure-Tracks, cast-Tracks,
}

module _ (d : Dag) (laws : SetLaws d) (committee : d.Committee) (quorum : ℕ) where
  -- The entry after a ballot that was not counted before; `bs` has it as its last.
  pub data Recorded (bs : List (Ballot d)) (checkpoint : Checkpoint d)
      (entry' : PendingCheckpoint d) : Bool → Type 0 where
    open_still :
        tally d committee (for_commitment d checkpoint.commitment bs) % d.stake_modulus < quorum
        → entry'.certificate ≡ none
        → Tracks d committee quorum bs entry'.accumulators
        → Recorded bs checkpoint entry' false
    certified :
        quorum ≤ tally d committee (for_commitment d checkpoint.commitment bs) % d.stake_modulus
        → entry'.certificate
          ≡ some (record {
            checkpoint = checkpoint;
            proof = subdags d (for_commitment d checkpoint.commitment bs);
          })
        → Recorded bs checkpoint entry' true

  add-counts :
      (acc : CheckpointAccumulator d) (author : d.Authority) (subdag : d.BlockReference) {s : ℕ}
      → d.get_stake committee author ≡ some s
      → let acc' =
          count_vote d acc (stake_of d committee author) subdag (d.insert acc.votes author) in
        add d acc author committee subdag ≡ ok (acc', leb acc'.threshold acc'.stake)
  unfolding add
  add-counts acc author subdag {s} e =
      subst
        (λ k.
          (add d acc author committee subdag
            ≡ ok (
              count_vote d acc k subdag (d.insert acc.votes author),
              leb (count_vote d acc k subdag (d.insert acc.votes author)).threshold
                  (count_vote d acc k subdag (d.insert acc.votes author)).stake,
            )))
        (sym stake_is) (rw e refl)
    where
      stake_is : stake_of d committee author ≡ s
      stake_is = rw (e, stake_of) refl

  -- An entry without a certificate that tracks the ballots counted so far, and a vote of a member of
  -- the committee, where authority sets are sets. A second vote of an author
  -- changes nothing, and any other is counted: it certifies its checkpoint exactly when the stake of
  -- the ballots for its commitment reaches the quorum, with the sub-dags of these ballots as the
  -- proof, and otherwise leaves an entry that tracks the ballots with it.
  pub record_entry-Recorded :
      (bs : List (Ballot d)) (entry : PendingCheckpoint d) (checkpoint : Checkpoint d)
      (subdag : d.BlockReference) (author : d.Authority) (s : ℕ)
      → entry.certificate ≡ none
      → Tracks d committee quorum bs entry.accumulators
      → d.get_stake committee author ≡ some s
      → ((has_voted d bs author ≡ true)
          × (record_entry d committee quorum subdag author checkpoint entry ≡ ok (entry, false)))
        ⊎ ((has_voted d bs author ≡ false)
            × ((entry' : PendingCheckpoint d) × (reached : Bool) × (record_entry d committee quorum
                    subdag author checkpoint entry
                  ≡ ok (entry', reached))
                × Recorded
                    (bs
                      ++ (record {
                        subdag = subdag;
                        author = author;
                        commitment = checkpoint.commitment;
                      }
                          ∷ []))
                    checkpoint
                    entry'
                    reached))
  unfolding record_entry record_unless_certified record_scanned clear
  record_entry-Recorded bs entry checkpoint subdag author s fresh t stake =
      elim (Bool-cases (voted_in d entry.accumulators author)) [
        | inl old ↦ inl (
          sym (t.everyone author) ∙ old,
          simp (fresh, scan-voted d author checkpoint.commitment 0 none entry.accumulators old),
        )
        | inr new ↦ inr (
          sym (t.everyone author) ∙ new,
          counted new (
              ensure-Tracks d laws committee quorum bs author checkpoint.commitment
                entry.accumulators t new),
        )
      ]
    where
      ballot : Ballot d
      ballot = record { subdag = subdag; author = author; commitment = checkpoint.commitment }

      outcome :
          Accumulators d
          → CheckpointAccumulator d
          → Accumulators d
          → Bool
          → PendingCheckpoint d × Bool
      outcome before acc' after r = conclude d checkpoint entry (
          if r
          then (
            before ++ ((checkpoint.commitment, (clear d acc').0) ∷ after),
            some (clear d acc').1,
          )
          else (before ++ ((checkpoint.commitment, acc') ∷ after), none))

      by_reached :
          (before : Accumulators d) (acc' : CheckpointAccumulator d) (after : Accumulators d)
          → Holds d committee quorum
              (for_commitment d checkpoint.commitment bs ++ (ballot ∷ []))
              acc'
          → record_entry d committee quorum subdag author checkpoint entry
            ≡ ok (outcome before acc' after (leb acc'.threshold acc'.stake))
          → Tracks d committee quorum
              (bs ++ (ballot ∷ []))
              (before ++ ((checkpoint.commitment, acc') ∷ after))
          → ((entry' : PendingCheckpoint d) × (reached : Bool) × (record_entry d committee quorum
                  subdag author checkpoint entry
                ≡ ok (entry', reached))
              × Recorded (bs ++ (ballot ∷ [])) checkpoint entry' reached)
      by_reached before acc' after holds e tracks =
          let here =
            subst (λ us. Holds d committee quorum us acc') (sym (for_commitment-same d bs ballot))
              holds in
          elim (Bool-cases (leb acc'.threshold acc'.stake)) [
            | inl r ↦ (
              (outcome before acc' after true).0,
              true,
              e ∙ ap (λ r. ok (outcome before acc' after r)) r,
              certified
                  (omega (arith, leb→le acc'.threshold acc'.stake r, here.threshold, here.stake))
                  (ap (λ p. some (record { checkpoint = checkpoint; proof = p })) here.delivered),
            )
            | inr r ↦ (
              (outcome before acc' after false).0,
              false,
              e ∙ ap (λ r. ok (outcome before acc' after r)) r,
              open_still
                  (omega (arith, leb→gt acc'.threshold acc'.stake r, here.threshold, here.stake))
                  fresh tracks,
            )
          ]

      counted :
          voted_in d entry.accumulators author ≡ false
          → ((found : Option ℕ) × (before : Accumulators d) × (acc : CheckpointAccumulator d)
              × (after : Accumulators d) × (scan d author checkpoint.commitment 0 none
                    entry.accumulators
                  ≡ target found)
              × (ensure d quorum checkpoint.commitment found entry.accumulators
                  ≡ (length before, before ++ ((checkpoint.commitment, acc) ∷ after)))
              × Tracks d committee quorum bs (before ++ ((checkpoint.commitment, acc) ∷ after)))
          → ((entry' : PendingCheckpoint d) × (reached : Bool) × (record_entry d committee quorum
                  subdag author checkpoint entry
                ≡ ok (entry', reached))
              × Recorded (bs ++ (ballot ∷ [])) checkpoint entry' reached)
      counted new (found, before, acc, after, scanned, ensured, t') =
          let parts =
            (All-append (HoldsFor d committee quorum bs) before
                ((checkpoint.commitment, acc) ∷ after)).0
              t'.each in
          let first : voted d acc author ≡ false = ground (
            arith,
            new,
            t.everyone author,
            t'.everyone author,
            any-append (λ p. voted d p.1 author) before ((checkpoint.commitment, acc) ∷ after),
          ) in
          let holds =
            count-Holds d laws committee quorum (for_commitment d checkpoint.commitment bs) acc
              ballot first parts.1.0 in
          let cast =
            cast_at-middle d author committee subdag before checkpoint.commitment acc after
              (add-counts acc author subdag stake) in
          by_reached before _ after holds (simp (fresh, scanned, ensured, cast))
            (cast-Tracks d laws committee quorum bs ballot before acc _ after t' holds)
