-- ===== src/Checkpoint/Certifier/Ledger.antt =====
-- The certifier as a ledger of all that was minted, of which it keeps the part that is not
-- contiguously certified.
use mathlib.Core.List.{append_assoc}
use blockchain_validator.Prelude.{
  ℕ, ◌≡◌, refl, sym, subst, ap, ◌∙◌, ◌⊎◌, inl, inr, true, false, Bool, Option, none, some, List, [],
  ◌∷◌, ◌++◌, All, All-append,
}
use blockchain_validator.Outcome.{ok, bind-eq-ok, ok-injective}
use blockchain_validator.Dag.{Dag}
use blockchain_validator.Execution.Object.{Digest}
use blockchain_validator.Checkpoint.Types.{Checkpoint, CertifiedCheckpoint}
use blockchain_validator.Checkpoint.Certifier.{
  CheckpointTimings, PendingCheckpoint, CheckpointCertifier, Place, new_certifier, minted, push,
  locate, record_entry, settle, record_at, record_vote,
}
use blockchain_validator.Checkpoint.Certifier.Advance.{
  last_certificate, last_certificate-append, IsCertified, IsOpen, advance-Advanced,
}
use blockchain_validator.Checkpoint.Certifier.Entry.{Votes, record_entry-Votes}
use blockchain_validator.Checkpoint.Certifier.Window.{IsPlace, locate-IsPlace}

module _ (d : Dag) where
  abbrev Entry : Type 0
  Entry = PendingCheckpoint d

  abbrev Certificate : Type 0
  Certificate = Option (CertifiedCheckpoint d)

  -- Everything that was minted, with its votes: a certified front that was reclaimed, then the
  -- window. The watermark is the certificate of the last reclaimed entry.
  pub record IsLedger (all : List Entry) (c : CheckpointCertifier d) : Type 0 where
    pub reclaimed : List Entry
    pub whole : all ≡ reclaimed ++ c.pending
    pub certified : All (IsCertified d) reclaimed
    pub watermark : c.watermark ≡ last_certificate d reclaimed none
    pub front : IsOpen d c.pending

  pub new-IsLedger :
      (committee : d.Committee) (quorum : ℕ) → IsLedger [] (new_certifier d committee quorum)
  new-IsLedger committee quorum = record {
    reclaimed = [];
    whole = refl;
    certified = tt;
    watermark = refl;
    front = tt;
  }

  -- A minted checkpoint joins the ledger behind all others.
  pub push-IsLedger :
      (all : List Entry) (c : CheckpointCertifier d) (anchor : d.BlockReference)
      (commitment : Digest) (timings : CheckpointTimings)
      → IsLedger all c
      → IsLedger
          (all ++ (minted d anchor commitment timings ∷ []))
          (push d c anchor commitment timings).0
  unfolding push
  push-IsLedger all c anchor commitment timings l = record {
    reclaimed = l.reclaimed;
    whole =
        ap (λ es. es ++ (minted d anchor commitment timings ∷ [])) l.whole
        ∙ append_assoc l.reclaimed c.pending (minted d anchor commitment timings ∷ []);
    certified = l.certified;
    watermark = l.watermark;
    front = open_snoc c.pending l.front;
  }
    where
      open_snoc :
          (es : List Entry)
          → IsOpen d es
          → IsOpen d (es ++ (minted d anchor commitment timings ∷ []))
      open_snoc [] h = refl
      open_snoc (e ∷ es) h = h

  -- The vote changes one entry of the ledger, the one that it names, or none.
  abbrev pub Recorded :
      d.Committee
      → ℕ
      → d.BlockReference
      → d.Authority
      → Checkpoint d
      → List Entry
      → List Entry
      → Type 0
  Recorded committee quorum subdag author checkpoint all all' =
      (all' ≡ all)
      ⊎ ((place : Place d) × (changed : Entry × Bool) × IsPlace d checkpoint.anchor all place
          × (record_entry d committee quorum subdag author checkpoint place.entry ≡ ok changed)
          × (all' ≡ place.before ++ (changed.0 ∷ place.after)))

  module _ (committee : d.Committee) (quorum : ℕ) (subdag : d.BlockReference) (author : d.Authority)
      (checkpoint : Checkpoint d) where
    -- The front stays open where the vote forms no certificate.
    IsOpen-unreached :
        (before after : List Entry) (entry entry' : Entry)
        → Votes d checkpoint entry entry' false
        → IsOpen d (before ++ (entry ∷ after))
        → IsOpen d (before ++ (entry' ∷ after))
    IsOpen-unreached [] after entry entry' v h = elim v.certificate [
      | inl (_, same) ↦ same ∙ h
      | inr (absurdly, _, _) ↦ cc
    ]
    IsOpen-unreached (b ∷ before) after entry entry' v h = h

    settle-IsLedger :
        (all : List Entry) (c : CheckpointCertifier d) (place : Place d) (changed : Entry × Bool)
        → c.pending ≡ place.before ++ (place.entry ∷ place.after)
        → Votes d checkpoint place.entry changed.0 changed.1
        → (l : IsLedger all c)
        → IsLedger
            ((l.reclaimed ++ place.before) ++ (changed.0 ∷ place.after))
            (settle d c place changed).0
    settle-IsLedger all c place (entry, false) whole v l = record {
      reclaimed = l.reclaimed;
      whole = append_assoc l.reclaimed place.before (entry ∷ place.after);
      certified = l.certified;
      watermark = l.watermark;
      front =
          IsOpen-unreached place.before place.after place.entry entry v
            (subst (IsOpen d) whole l.front);
    }
    settle-IsLedger all c place (entry, true) whole v l =
        let a = advance-Advanced d (place.before ++ (entry ∷ place.after)) c.watermark in
        record {
          reclaimed = l.reclaimed ++ a.popped;
          whole =
              append_assoc l.reclaimed place.before (entry ∷ place.after)
              ∙ ap (◌++◌ l.reclaimed) a.split
              ∙ sym (append_assoc l.reclaimed a.popped _);
          certified =
              (All-append (IsCertified d) l.reclaimed a.popped).1 (l.certified, a.certified);
          watermark =
              a.watermark
              ∙ ap (last_certificate d a.popped) l.watermark
              ∙ sym (last_certificate-append d l.reclaimed a.popped none);
          front = a.front;
        }

-- The certifier implements the ledger. Recording a vote that returns changes at most the ledger's
-- entry for the voted anchor, as `record_entry` says, and the new state is again that of the ledger:
-- the window is what is left behind the certified front, which ends where the first entry without a
-- certificate stands, and the watermark is the certificate of the front's last entry.
pub record_vote-IsLedger :
    (d : Dag) (all : List (PendingCheckpoint d)) (c c' : CheckpointCertifier d)
    (subdag : d.BlockReference) (author : d.Authority) (checkpoint : Checkpoint d)
    (timings : Option CheckpointTimings)
    → IsLedger d all c
    → record_vote d c subdag author checkpoint ≡ ok (c', timings)
    → (all' : List (PendingCheckpoint d)) × Recorded d c.committee c.quorum subdag author checkpoint
        all all'
      × IsLedger d all' c'
unfolding record_vote record_at
record_vote-IsLedger d all c c' subdag author checkpoint timings l =
    by_place (locate d checkpoint.anchor c.pending) refl
  where
    by_place :
        (o : Option (Place d))
        → locate d checkpoint.anchor c.pending ≡ o
        → record_at d c subdag author checkpoint o ≡ ok (c', timings)
        → (all' : List (PendingCheckpoint d)) × Recorded d c.committee c.quorum subdag author
            checkpoint all all'
          × IsLedger d all' c'
    by_place none missing e = (
      all,
      inl refl,
      subst (λ (p : CheckpointCertifier d × Option CheckpointTimings). IsLedger d all p.0)
          (ok-injective e) l,
    )
    by_place (some place) found e =
        let at = locate-IsPlace d checkpoint.anchor c.pending place found in
        let (changed, cast, final) =
          bind-eq-ok (record_entry d c.committee c.quorum subdag author checkpoint place.entry) _
            e in
        let votes =
          record_entry-Votes d checkpoint c.committee c.quorum subdag author place.entry changed
            cast in
        (
          (l.reclaimed ++ place.before) ++ (changed.0 ∷ place.after),
          inr (
            record place { before = l.reclaimed ++ place.before },
            changed,
            record {
              whole =
                  l.whole
                  ∙ ap (◌++◌ l.reclaimed) at.whole
                  ∙ sym (append_assoc l.reclaimed place.before _);
              anchored = at.anchored;
            },
            cast,
            refl,
          ),
          subst
              (λ (p : CheckpointCertifier d × Option CheckpointTimings).
                IsLedger d ((l.reclaimed ++ place.before) ++ (changed.0 ∷ place.after)) p.0)
              (ok-injective final)
              (settle-IsLedger d c.committee c.quorum subdag author checkpoint all c place changed
                at.whole votes l),
        )
