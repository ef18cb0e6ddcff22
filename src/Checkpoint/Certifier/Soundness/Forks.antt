-- ===== src/Checkpoint/Certifier/Soundness/Forks.antt =====
-- Who is accountable for two certificates that conflict.
use native.Mathlib.Nat.{mod-le}
use blockchain_validator.Prelude.{
  ℕ, ◌+◌, ◌≤◌, ◌≡◌, ◌⊎◌, refl, subst, ap, inl, inr, some, List, [], ◌∷◌, arith, All, Some, Absent,
  Distinct, ==-cases, keep_if, list_eq, nat_eq,
}
use blockchain_validator.Outcome.{ok}
use blockchain_validator.Dag.{Dag, SetLaws}
use blockchain_validator.Execution.Object.{Digest}
use blockchain_validator.Checkpoint.Types.{Checkpoint, CertifiedCheckpoint}
use blockchain_validator.Checkpoint.Certifier.{CheckpointCertifier, new_certifier}
use blockchain_validator.Checkpoint.Certifier.Calls.{Call, vote, run}
use blockchain_validator.Checkpoint.Certifier.Tally.{Ballot, for_commitment, stake_of, tally}
use blockchain_validator.Checkpoint.Certifier.Quorum.{total, Among, IsCovered, overlap, authors}
use blockchain_validator.Checkpoint.Certifier.Soundness.Runs.{IsDelivered, run-IsJustified}

module _ (d : Dag) where
  -- The watermark or an entry of the window holds a certificate.
  abbrev pub IsHeld : CheckpointCertifier d → CertifiedCheckpoint d → Type 0
  IsHeld c certificate =
      (c.watermark ≡ some certificate)
      ⊎ Some (λ entry. entry.certificate ≡ some certificate) c.pending

  -- A vote of an author for a checkpoint is among the calls.
  abbrev pub HasVote : List (Call d) → Checkpoint d → d.Authority → Type 0
  HasVote calls checkpoint author =
      (subdag : d.BlockReference) × Some (λ call. call ≡ vote subdag author checkpoint) calls

  module _ (committee : d.Committee) where
    total-authors :
        (bs : List (Ballot d)) → tally d committee bs ≡ total d committee (authors d committee bs)
    total-authors [] = refl
    total-authors (b ∷ bs) = ap (λ n. stake_of d committee b.author + n) (total-authors bs)

    for_commitment-Absent :
        (c : Digest) (a : d.Authority) (bs : List (Ballot d))
        → Absent a (authors d committee bs)
        → Absent a (authors d committee (for_commitment d c bs))
    for_commitment-Absent c a [] h = tt
    for_commitment-Absent c a (b ∷ bs) h = elim (==-cases b.commitment c) [
      | inl (_, t) ↦ rw (t, keep_if) (h.0, for_commitment-Absent c a bs h.1)
      | inr (_, f) ↦ rw (f, keep_if) (for_commitment-Absent c a bs h.1)
    ]

    for_commitment-Distinct :
        (c : Digest) (bs : List (Ballot d))
        → Distinct (authors d committee bs)
        → Distinct (authors d committee (for_commitment d c bs))
    for_commitment-Distinct c [] h = tt
    for_commitment-Distinct c (b ∷ bs) h = elim (==-cases b.commitment c) [
      | inl (_, t) ↦
          rw (t, keep_if)
            (for_commitment-Absent c b.author bs h.0, for_commitment-Distinct c bs h.1)
      | inr (_, f) ↦ rw (f, keep_if) (for_commitment-Distinct c bs h.1)
    ]

    ballot-HasVote :
        (calls : List (Call d)) (checkpoint : Checkpoint d) (bs : List (Ballot d)) (a : d.Authority)
        → All (IsDelivered d calls checkpoint.anchor) bs
        → Among d committee (authors d committee (for_commitment d checkpoint.commitment bs)) a
        → HasVote calls checkpoint a
    ballot-HasVote calls checkpoint [] a h among = absurd among
    ballot-HasVote calls checkpoint (b ∷ bs) a h among =
        elim (==-cases b.commitment checkpoint.commitment) [
          | inr (_, f) ↦ ballot-HasVote calls checkpoint bs a h.1 (rw (f, keep_if) at among)
          | inl (same, t) ↦ elim (rw (t, keep_if) at among) [
            | inr later ↦ ballot-HasVote calls checkpoint bs a h.1 later
            | inl here ↦ (
              b.subdag,
              subst (λ a. Some (λ call. call ≡ vote b.subdag a checkpoint) calls) here
                  (subst
                    (λ c.
                      Some
                        (λ call.
                          call
                          ≡ vote b.subdag b.author
                              (record { anchor = checkpoint.anchor; commitment = c }))
                        calls)
                    same h.0),
            )
          ]
        ]

    all-HasVote :
        (calls : List (Call d)) (checkpoint : Checkpoint d) (bs : List (Ballot d))
        (as' : List d.Authority)
        → All (IsDelivered d calls checkpoint.anchor) bs
        → All
            (Among d committee (authors d committee (for_commitment d checkpoint.commitment bs)))
            as'
        → All (HasVote calls checkpoint) as'
    all-HasVote calls checkpoint bs [] h among = tt
    all-HasVote calls checkpoint bs (a ∷ as') h among = (
      ballot-HasVote calls checkpoint bs a h among.0,
      all-HasVote calls checkpoint bs as' h among.1,
    )

    all-IsCovered :
        (members as' : List d.Authority)
        → ((a : d.Authority) → IsCovered d committee members a)
        → All (IsCovered d committee members) as'
    all-IsCovered members [] h = tt
    all-IsCovered members (a ∷ as') h = (h a, all-IsCovered members as' h)

  -- Where authority sets are sets and a list has all authorities with stake, and for any certificates
  -- that two new certifiers of one committee and quorum hold after any calls that return: there are
  -- distinct authorities that voted for the one checkpoint among the calls of the one and for the
  -- other among the calls of the other, and two quorums have no more stake than the list and these
  -- authorities. So where two quorums exceed the stake of the committee, certificates that conflict
  -- show who voted twice.
  pub certificates-Overlap :
      (laws : SetLaws d) (committee : d.Committee) (quorum : ℕ) (members : List d.Authority)
      (xs ys : List (Call d)) (c c' : CheckpointCertifier d)
      (certificate certificate' : CertifiedCheckpoint d)
      → ((a : d.Authority) → IsCovered d committee members a)
      → run d (new_certifier d committee quorum) xs ≡ ok c
      → run d (new_certifier d committee quorum) ys ≡ ok c'
      → IsHeld c certificate
      → IsHeld c' certificate'
      → (common : List d.Authority) × Distinct common
        × All (HasVote xs certificate.checkpoint) common
        × All (HasVote ys certificate'.checkpoint) common
        × (quorum + quorum ≤ total d committee members + total d committee common)
  certificates-Overlap laws committee quorum members xs ys c c' certificate certificate' covered e
        e' held held' =
      let j = run-IsJustified d laws committee quorum xs c certificate e held in
      let j' = run-IsJustified d laws committee quorum ys c' certificate' e' held' in
      let own = for_commitment d certificate.checkpoint.commitment j.ballots in
      let own' = for_commitment d certificate'.checkpoint.commitment j'.ballots in
      let o =
        overlap d committee members (authors d committee own) (authors d committee own')
          (for_commitment-Distinct committee _ j.ballots j.distinct)
          (for_commitment-Distinct committee _ j'.ballots j'.distinct)
          (all-IsCovered committee members _ covered) (all-IsCovered committee members _ covered) in
      (
        o.common,
        o.distinct,
        all-HasVote committee xs certificate.checkpoint j.ballots o.common j.delivered o.in_first,
        all-HasVote committee ys certificate'.checkpoint j'.ballots o.common j'.delivered
            o.in_second,
        omega (
          arith,
          o.stake,
          j.reached,
          j'.reached,
          mod-le (tally d committee own) d.stake_modulus,
          mod-le (tally d committee own') d.stake_modulus,
          total-authors committee own,
          total-authors committee own',
        ),
      )
