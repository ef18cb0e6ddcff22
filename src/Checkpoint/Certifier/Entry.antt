-- ===== src/Checkpoint/Certifier/Entry.antt =====
-- What a vote does to the entry that it names.
use blockchain_validator.Prelude.{
  ℕ, ◌≡◌, refl, subst, ◌⊎◌, inl, inr, true, false, Bool, Option, none, some, List,
}
use blockchain_validator.Outcome.{ok, bind-eq-ok, ok-injective}
use blockchain_validator.Dag.{Dag}
use blockchain_validator.Execution.Object.{Digest}
use blockchain_validator.Checkpoint.Types.{Checkpoint, CertifiedCheckpoint}
use blockchain_validator.Checkpoint.Accumulator.{CheckpointAccumulator}
use blockchain_validator.Checkpoint.Certifier.{
  PendingCheckpoint, Scan, voted_before, target, conclude, record_scanned, record_unless_certified,
  record_entry,
}

module _ (d : Dag) (checkpoint : Checkpoint d) where
  -- The entry keeps what was minted, and its certificate unless it gets one: for the checkpoint of
  -- the vote, which the flag then says.
  pub record Votes (entry entry' : PendingCheckpoint d) (reached : Bool) : Type 0 where
    pub local : entry'.local ≡ entry.local
    pub timings : entry'.timings ≡ entry.timings
    pub certificate :
        ((reached ≡ false) × (entry'.certificate ≡ entry.certificate))
        ⊎ ((reached ≡ true)
            × (entry.certificate ≡ none)
            × ((proof : List d.BlockReference) × (entry'.certificate
                  ≡ some (record { checkpoint = checkpoint; proof = proof }))))

  module _ (committee : d.Committee) (quorum : ℕ) (subdag : d.BlockReference)
      (author : d.Authority) where
    record_scanned-Votes :
        (entry : PendingCheckpoint d) (s : Scan) (changed : PendingCheckpoint d × Bool)
        → entry.certificate ≡ none
        → record_scanned d committee quorum subdag author checkpoint entry s ≡ ok changed
        → Votes entry changed.0 changed.1
    unfolding record_scanned
    record_scanned-Votes entry voted_before changed fresh e =
        subst (λ (p : PendingCheckpoint d × Bool). Votes entry p.0 p.1) (ok-injective e)
          (record { local = refl; timings = refl; certificate = inl (refl, refl) })
    record_scanned-Votes entry (target found) changed fresh e =
        let (outcome, _, final) =
          bind-eq-ok _ (λ outcome. ok (conclude d checkpoint entry outcome)) e in
        subst (λ (p : PendingCheckpoint d × Bool). Votes entry p.0 p.1) (ok-injective final)
          (conclude-Votes outcome)
      where
        conclude-Votes :
            (outcome : List (Digest × CheckpointAccumulator d) × Option (List d.BlockReference))
            → Votes entry
                (conclude d checkpoint entry outcome).0
                (conclude d checkpoint entry outcome).1
        conclude-Votes (accs, none) = record {
          local = refl;
          timings = refl;
          certificate = inl (refl, refl);
        }
        conclude-Votes (accs, some proof) = record {
          local = refl;
          timings = refl;
          certificate = inr (refl, fresh, (proof, refl));
        }

    -- A vote that returns, for an entry with or without a certificate.
    pub record_entry-Votes :
        (entry : PendingCheckpoint d) (changed : PendingCheckpoint d × Bool)
        → record_entry d committee quorum subdag author checkpoint entry ≡ ok changed
        → Votes entry changed.0 changed.1
    unfolding record_entry
    record_entry-Votes entry changed = by_certificate entry.certificate refl
      where
        by_certificate :
            (o : Option (CertifiedCheckpoint d))
            → entry.certificate ≡ o
            → record_unless_certified d committee quorum subdag author checkpoint entry o
              ≡ ok changed
            → Votes entry changed.0 changed.1
        by_certificate none fresh e = record_scanned-Votes entry _ changed fresh e
        by_certificate (some c) old e =
            subst (λ (p : PendingCheckpoint d × Bool). Votes entry p.0 p.1) (ok-injective e)
              (record { local = refl; timings = refl; certificate = inl (refl, refl) })
