-- ===== src/Checkpoint/Certifier/Soundness.antt =====
-- Every certificate of an entry is backed by ballots of distinct authors that reach the quorum.
pub mod Forks
pub mod Runs
use mathlib.Core.List.{map-append}
use blockchain_validator.Prelude.{
  ℕ, ◌%◌, ◌≤◌, ◌≡◌, ◌⊎◌, refl, sym, subst, ap, ◌∙◌, inl, inr, true, false, Bool, Option, none, some,
  List, [], ◌∷◌, ◌++◌, map, zero, suc, All, All-append, Distinct, Distinct-snoc, Absent,
  any-false_iff, Option-cases,
}
use blockchain_validator.Outcome.{Outcome, ok, panic, ◌>>=◌, bind-eq-ok, ok-injective}
use blockchain_validator.Dag.{Dag, SetLaws}
use blockchain_validator.Execution.Object.{Digest}
use blockchain_validator.Checkpoint.Types.{Checkpoint, CertifiedCheckpoint}
use blockchain_validator.Checkpoint.Accumulator.{add}
use blockchain_validator.Checkpoint.Certifier.{
  PendingCheckpoint, Scan, voted_before, target, scan, cast_at, ensure, conclude, record_scanned,
  record_unless_certified, record_entry,
}
use blockchain_validator.Checkpoint.Certifier.Entry.{record_entry-Votes}
use blockchain_validator.Checkpoint.Certifier.Tally.{
  Ballot, Accumulators, for_commitment, has_voted, subdags, tally, Tracks,
}
use blockchain_validator.Checkpoint.Certifier.Quorum.{authors}
use blockchain_validator.Checkpoint.Certifier.Recording.{
  Recorded, open_still, certified, record_entry-Recorded,
}

some-injective {ℓ} : {A : Type ℓ} {a b : A} → some a ≡ some b → a ≡ b
some-injective e = cc

none-some {ℓ} : {A : Type ℓ} {a : A} → none ≡ some a → ⊥
none-some e = cc

module _ (d : Dag) (committee : d.Committee) (quorum : ℕ) where
  -- A vote that is counted is that of a member, since `add` panics for any other.
  cast_at-member :
      (author : d.Authority) (subdag : d.BlockReference) (index : ℕ) (accs : Accumulators d)
      {r : Accumulators d × Option (List d.BlockReference)}
      → cast_at d author committee subdag index accs ≡ ok r
      → (s : ℕ) × (d.get_stake committee author ≡ some s)
  unfolding cast_at add
  cast_at-member author subdag index [] e = cc
  cast_at-member author subdag zero ((c, acc) ∷ accs) e =
      elim (Option-cases (d.get_stake committee author)) [
        | inl missing ↦ cc (rw missing at e)
        | inr member ↦ member
      ]
  cast_at-member author subdag (suc index) (x ∷ accs) e =
      let (r, rest, _) = bind-eq-ok (cast_at d author committee subdag index accs) _ e in
      cast_at-member author subdag index accs rest

  record_scanned-member :
      (subdag : d.BlockReference) (author : d.Authority) (checkpoint : Checkpoint d)
      (entry : PendingCheckpoint d) (s : Scan) (changed : PendingCheckpoint d × Bool)
      → record_scanned d committee quorum subdag author checkpoint entry s ≡ ok changed
      → (changed ≡ (entry, false)) ⊎ ((s : ℕ) × (d.get_stake committee author ≡ some s))
  unfolding record_scanned
  record_scanned-member subdag author checkpoint entry voted_before changed e =
      inl (sym (ok-injective e))
  record_scanned-member subdag author checkpoint entry (target found) changed e =
      let (r, rest, _) = bind-eq-ok _ (λ outcome. ok (conclude d checkpoint entry outcome)) e in
      inr (cast_at-member author subdag _ _ rest)

  record_entry-member :
      (subdag : d.BlockReference) (author : d.Authority) (checkpoint : Checkpoint d)
      (entry : PendingCheckpoint d) (changed : PendingCheckpoint d × Bool)
      → entry.certificate ≡ none
      → record_entry d committee quorum subdag author checkpoint entry ≡ ok changed
      → (changed ≡ (entry, false)) ⊎ ((s : ℕ) × (d.get_stake committee author ≡ some s))
  unfolding record_entry record_unless_certified
  record_entry-member subdag author checkpoint entry changed fresh e =
      record_scanned-member subdag author checkpoint entry _ changed (
        sym (ap (record_unless_certified d committee quorum subdag author checkpoint entry) fresh)
        ∙ e)

  -- `P` holds for a ballot on the checkpoint of an anchor.
  module _ (P : d.BlockReference → Ballot d → Type 0) where
    -- Ballots of distinct authors for a certificate: the proof lists the sub-dags that delivered those
    -- for its commitment, and their stake reaches the quorum.
    pub record IsJustified (c : CertifiedCheckpoint d) : Type 0 where
      pub ballots : List (Ballot d)
      pub distinct : Distinct (authors d committee ballots)
      pub delivered : All (P c.checkpoint.anchor) ballots
      pub proof : c.proof ≡ subdags d (for_commitment d c.checkpoint.commitment ballots)
      pub reached :
          quorum
          ≤ tally d committee (for_commitment d c.checkpoint.commitment ballots) % d.stake_modulus

    pub record IsCounted (anchor : d.BlockReference) (accs : Accumulators d) : Type 0 where
      pub ballots : List (Ballot d)
      pub distinct : Distinct (authors d committee ballots)
      pub delivered : All (P anchor) ballots
      pub tracks : Tracks d committee quorum ballots accs

    -- An entry without a certificate counts its ballots; a certificate is justified.
    pub record IsSound (entry : PendingCheckpoint d) : Type 0 where
      pub opened : entry.certificate ≡ none → IsCounted entry.local.anchor entry.accumulators
      pub closed :
          (c : CertifiedCheckpoint d)
          → entry.certificate ≡ some c
          → IsJustified c × (c.checkpoint.anchor ≡ entry.local.anchor)

    unchanged-IsSound :
        (entry : PendingCheckpoint d) (changed : PendingCheckpoint d × Bool)
        → IsSound entry
        → changed ≡ (entry, false)
        → IsSound changed.0
    unchanged-IsSound entry changed h e = subst IsSound (sym (ap (λ p. p.0) e)) h

    -- A new ballot of an author that none of the others has.
    snoc-Distinct :
        (bs : List (Ballot d)) (b : Ballot d)
        → has_voted d bs b.author ≡ false
        → Distinct (authors d committee bs)
        → Distinct (authors d committee (bs ++ (b ∷ [])))
    snoc-Distinct bs b new distinct = rw (map-append (λ (x : Ballot d). x.author) bs (b ∷ [])) (
        Distinct-snoc (authors d committee bs) b.author distinct
          ((any-false_iff ⦃e = d.authority_eq⦄ (λ (x : Ballot d). x.author) b.author bs).0 new))

    module _ (laws : SetLaws d) (subdag : d.BlockReference) (author : d.Authority)
        (checkpoint : Checkpoint d) (entry : PendingCheckpoint d) where
      abbrev pub ballot : Ballot d
      ballot = record { subdag = subdag; author = author; commitment = checkpoint.commitment }

      counted-IsSound :
          (entry' : PendingCheckpoint d) (reached : Bool)
          → checkpoint.anchor ≡ entry.local.anchor
          → entry'.local ≡ entry.local
          → (bs : List (Ballot d)) → Distinct (authors d committee bs)
          → All (P checkpoint.anchor) bs
          → Recorded d laws committee quorum bs checkpoint entry' reached
          → IsSound entry'
      counted-IsSound entry' reached here kept bs distinct delivered
            (open_still below fresh tracks) =
          record {
            opened = λ _. record {
              ballots = bs;
              distinct = distinct;
              delivered =
                  subst (λ a. All (P a) bs) (here ∙ sym (ap (λ (l : Checkpoint d). l.anchor) kept))
                    delivered;
              tracks = tracks;
            };
            closed = λ c e. absurd (none-some (sym fresh ∙ e));
          }
      counted-IsSound entry' reached here kept bs distinct delivered (certified quorate closed) =
          record {
            opened = λ fresh. absurd (none-some (sym fresh ∙ closed));
            closed = λ c e. (
              subst IsJustified (some-injective (sym closed ∙ e)) (record {
                ballots = bs;
                distinct = distinct;
                delivered = delivered;
                proof = refl;
                reached = quorate;
              }),
              ap (λ (o : CertifiedCheckpoint d). o.checkpoint.anchor)
                    (sym (some-injective (sym closed ∙ e)))
                  ∙ here
                  ∙ sym (ap (λ (l : Checkpoint d). l.anchor) kept),
            );
          }

      -- A vote for the anchor of the entry, by a ballot of which `P` holds.
      pub record_entry-IsSound :
          (changed : PendingCheckpoint d × Bool)
          → checkpoint.anchor ≡ entry.local.anchor
          → P checkpoint.anchor ballot
          → IsSound entry
          → record_entry d committee quorum subdag author checkpoint entry ≡ ok changed
          → IsSound changed.0
      unfolding record_entry record_unless_certified
      record_entry-IsSound changed here delivered h e = elim (Option-cases entry.certificate) [
        | inr (c, closed) ↦ unchanged-IsSound entry changed h (
            sym (
              ok-injective (
                sym (
                  ap (record_unless_certified d committee quorum subdag author checkpoint entry)
                    closed)
                ∙ e)))
        | inl fresh ↦ elim (record_entry-member subdag author checkpoint entry changed fresh e) [
          | inl same ↦ unchanged-IsSound entry changed h same
          | inr (s, member) ↦
              let counted = h.opened fresh in
              elim (record_entry-Recorded d laws committee quorum counted.ballots entry checkpoint
                subdag author s fresh counted.tracks member) [
                  | inl (_, same) ↦ unchanged-IsSound entry changed h (ok-injective (sym e ∙ same))
                  | inr (new, (entry', reached, done, recorded)) ↦
                      let moved = ok-injective (sym e ∙ done) in
                      subst IsSound (sym (ap (λ p. p.0) moved)) (
                        counted-IsSound entry' reached here
                          (record_entry-Votes d checkpoint committee quorum subdag author entry
                            (entry', reached) done).local
                          (counted.ballots ++ (ballot ∷ []))
                          (snoc-Distinct counted.ballots ballot new counted.distinct)
                          ((All-append (P checkpoint.anchor) counted.ballots (ballot ∷ [])).1 (
                            subst (λ a. All (P a) counted.ballots) (sym here) counted.delivered,
                            (delivered, tt),
                          ))
                          recorded)
                ]
        ]
      ]
