-- ===== src/Checkpoint/Certifier/Soundness/Runs.antt =====
-- Every certificate of a certifier is backed by the votes that it was given.
use blockchain_validator.Prelude.{
  ℕ, ◌≡◌, ◌⊎◌, refl, sym, subst, ap, inl, inr, true, false, Bool, Option, none, some, List, [], ◌∷◌,
  ◌++◌, All, All-append, Some, All-self, Option-cases,
}
use blockchain_validator.Outcome.{ok, bind-eq-ok, ok-injective}
use blockchain_validator.Dag.{Dag, SetLaws}
use blockchain_validator.Checkpoint.Types.{Checkpoint, CertifiedCheckpoint}
use blockchain_validator.Checkpoint.Certifier.{
  PendingCheckpoint, CheckpointTimings, CheckpointCertifier, Place, new_certifier, minted, push,
  locate, record_entry, settle, record_at, record_vote,
}
use blockchain_validator.Execution.Object.{Digest}
use blockchain_validator.Checkpoint.Certifier.Calls.{Call, mint, vote, step, run}
use blockchain_validator.Checkpoint.Certifier.Advance.{last_certificate, advance-Advanced}
use blockchain_validator.Checkpoint.Certifier.Tally.{Ballot, nothing-Tracks}
use blockchain_validator.Checkpoint.Certifier.Window.{locate-IsPlace}
use blockchain_validator.Checkpoint.Certifier.Soundness.{IsJustified, IsSound, record_entry-IsSound}

module _ (d : Dag) (laws : SetLaws d) (committee : d.Committee) (quorum : ℕ)
    (P : d.BlockReference → Ballot d → Type 0) where
  abbrev Entry : Type 0
  Entry = PendingCheckpoint d

  abbrev IsBacked : Option (CertifiedCheckpoint d) → Type 0
  IsBacked none = Unit
  IsBacked (some certificate) = IsJustified d committee quorum P certificate

  abbrev AllSound : List Entry → Type 0
  AllSound = All (IsSound d committee quorum P)

  -- The entries of the window are sound and the watermark is justified.
  record IsWarranted (c : CheckpointCertifier d) : Type 0 where
    members : c.committee ≡ committee
    threshold : c.quorum ≡ quorum
    window : AllSound c.pending
    highest : IsBacked c.watermark

  sound-IsBacked : (entry : Entry) → IsSound d committee quorum P entry → IsBacked entry.certificate
  sound-IsBacked entry h = elim (Option-cases entry.certificate) [
    | inl e ↦ subst IsBacked (sym e) tt
    | inr (c, e) ↦ subst IsBacked (sym e) (h.closed c e).0
  ]

  last-IsBacked :
      (entries : List Entry) (before : Option (CertifiedCheckpoint d))
      → AllSound entries
      → IsBacked before
      → IsBacked (last_certificate d entries before)
  last-IsBacked [] before h b = b
  last-IsBacked (entry ∷ entries) before h b =
      last-IsBacked entries entry.certificate h.1 (sound-IsBacked entry h.0)

  minted-IsSound :
      (anchor : d.BlockReference) (commitment : Digest) (timings : CheckpointTimings)
      → IsSound d committee quorum P (minted d anchor commitment timings)
  minted-IsSound anchor commitment timings = record {
    opened = λ _. record {
      ballots = [];
      distinct = tt;
      delivered = tt;
      tracks = nothing-Tracks d committee quorum;
    };
    closed = λ c e. cc;
  }

  settle-IsWarranted :
      (c : CheckpointCertifier d) (place : Place d) (changed : Entry × Bool)
      → IsWarranted c
      → AllSound (place.before ++ (changed.0 ∷ place.after))
      → IsWarranted (settle d c place changed).0
  settle-IsWarranted c place (entry, false) w h = record {
    members = w.members;
    threshold = w.threshold;
    window = h;
    highest = w.highest;
  }
  settle-IsWarranted c place (entry, true) w h =
      let whole = place.before ++ (entry ∷ place.after) in
      let a = advance-Advanced d whole c.watermark in
      let parts =
        (All-append (IsSound d committee quorum P) a.popped _).0 (subst AllSound a.split h) in
      record {
        members = w.members;
        threshold = w.threshold;
        window = parts.1;
        highest =
            subst IsBacked (sym a.watermark) (last-IsBacked a.popped c.watermark parts.0 w.highest);
      }

  recorded-window :
      (place : Place d) (changed : Entry × Bool)
      → AllSound (place.before ++ (place.entry ∷ place.after))
      → (IsSound d committee quorum P place.entry → IsSound d committee quorum P changed.0)
      → AllSound (place.before ++ (changed.0 ∷ place.after))
  recorded-window place changed h keeps =
      let parts = (All-append (IsSound d committee quorum P) place.before _).0 h in
      (All-append (IsSound d committee quorum P) place.before _).1
        (parts.0, (keeps parts.1.0, parts.1.1))

  module _ (c : CheckpointCertifier d) (subdag : d.BlockReference) (author : d.Authority)
      (checkpoint : Checkpoint d) (w : IsWarranted c)
      (cast : P checkpoint.anchor
        (record { subdag = subdag; author = author; commitment = checkpoint.commitment })) where
    record_at-IsWarranted :
        (o : Option (Place d)) (result : CheckpointCertifier d × Option CheckpointTimings)
        → locate d checkpoint.anchor c.pending ≡ o
        → record_at d c subdag author checkpoint o ≡ ok result
        → IsWarranted result.0
    unfolding record_at
    record_at-IsWarranted none result missing e =
        subst IsWarranted (ap (λ r. r.0) (ok-injective e)) w
    record_at-IsWarranted (some place) result found e =
        let here = locate-IsPlace d checkpoint.anchor c.pending place found in
        let (changed, counted, final) =
          bind-eq-ok (record_entry d c.committee c.quorum subdag author checkpoint place.entry)
            (λ outcome. ok (settle d c place outcome)) e in
        let counted' =
          subst (λ k. record_entry d k quorum subdag author checkpoint place.entry ≡ ok changed)
            w.members
            (subst
              (λ q. record_entry d c.committee q subdag author checkpoint place.entry ≡ ok changed)
              w.threshold counted) in
        subst IsWarranted (ap (λ r. r.0) (ok-injective final)) (
          settle-IsWarranted c place changed w (
            recorded-window place changed (subst AllSound here.whole w.window) (λ h.
              record_entry-IsSound d committee quorum P laws subdag author checkpoint place.entry
                changed (sym here.anchored) cast h counted')))

  -- What is asked of a call: a vote that is cast is one of which `P` holds.
  abbrev IsCast : Call d → Type 0
  IsCast (mint anchor commitment timings) = Unit
  IsCast (vote subdag author checkpoint) =
      P checkpoint.anchor
        (record { subdag = subdag; author = author; commitment = checkpoint.commitment })

  step-IsWarranted :
      (c c' : CheckpointCertifier d) (call : Call d)
      → IsWarranted c
      → IsCast call
      → step d c call ≡ ok c'
      → IsWarranted c'
  unfolding step push record_vote
  step-IsWarranted c c' (mint anchor commitment timings) w h e =
      subst IsWarranted (ok-injective e) (record {
        members = w.members;
        threshold = w.threshold;
        window =
            (All-append (IsSound d committee quorum P) c.pending _).1
              (w.window, (minted-IsSound anchor commitment timings, tt));
        highest = w.highest;
      })
  step-IsWarranted c c' (vote subdag author checkpoint) w h e =
      let (result, recorded, final) =
        bind-eq-ok (record_vote d c subdag author checkpoint) (λ r. ok r.0) e in
      subst IsWarranted (ok-injective final)
        (record_at-IsWarranted c subdag author checkpoint w h _ result refl recorded)

  run-IsWarranted :
      (c c' : CheckpointCertifier d) (calls : List (Call d))
      → IsWarranted c
      → All IsCast calls
      → run d c calls ≡ ok c'
      → IsWarranted c'
  unfolding run
  run-IsWarranted c c' [] w h e = subst IsWarranted (ok-injective e) w
  run-IsWarranted c c' (call ∷ calls) w h e =
      let (next, first, rest) = bind-eq-ok (step d c call) (λ c. run d c calls) e in
      run-IsWarranted next c' calls (step-IsWarranted c next call w h.0 first) h.1 rest

  pub held-IsJustified :
      (c : CheckpointCertifier d) (calls : List (Call d)) (certificate : CertifiedCheckpoint d)
      → All IsCast calls
      → run d (new_certifier d committee quorum) calls ≡ ok c
      → (c.watermark ≡ some certificate)
        ⊎ Some (λ entry. entry.certificate ≡ some certificate) c.pending
      → IsJustified d committee quorum P certificate
  held-IsJustified c calls certificate h e held =
      let w =
        run-IsWarranted _ c calls
          (record { members = refl; threshold = refl; window = tt; highest = tt }) h e in
      elim held [
        | inl at ↦ subst IsBacked at w.highest
        | inr among ↦ held_by c.pending w.window among
      ]
    where
      held_by :
          (entries : List Entry)
          → AllSound entries
          → Some (λ entry. entry.certificate ≡ some certificate) entries
          → IsJustified d committee quorum P certificate
      held_by [] h among = absurd among
      held_by (entry ∷ entries) h (inl e) = (h.0.closed certificate e).0
      held_by (entry ∷ entries) h (inr among) = held_by entries h.1 among

module _ (d : Dag) where
  -- A ballot on the checkpoint of an anchor that a vote among the calls delivered.
  abbrev pub IsDelivered : List (Call d) → d.BlockReference → Ballot d → Type 0
  IsDelivered calls anchor ballot =
      Some
        (λ call.
          call
          ≡ vote ballot.subdag ballot.author
              (record { anchor = anchor; commitment = ballot.commitment }))
        calls

  all-IsDelivered :
      (laws : SetLaws d) (committee : d.Committee) (quorum : ℕ) (whole calls : List (Call d))
      → All (λ call. Some (λ other. other ≡ call) whole) calls
      → All (IsCast d laws committee quorum (IsDelivered whole)) calls
  all-IsDelivered laws committee quorum whole [] h = tt
  all-IsDelivered laws committee quorum whole (mint anchor commitment timings ∷ calls) h =
      (tt, all-IsDelivered laws committee quorum whole calls h.1)
  all-IsDelivered laws committee quorum whole (vote subdag author checkpoint ∷ calls) h =
      (h.0, all-IsDelivered laws committee quorum whole calls h.1)

  -- After any calls of a new certifier that return, where authority sets are sets, each certificate
  -- that the watermark or an entry of the window holds is justified by ballots that votes among these calls
  -- delivered for the anchor of its checkpoint: they are of distinct authors, those for its commitment
  -- have a stake that reaches the quorum, and its proof lists the sub-dags that delivered them.
  pub run-IsJustified :
      (laws : SetLaws d) (committee : d.Committee) (quorum : ℕ) (calls : List (Call d))
      (c : CheckpointCertifier d) (certificate : CertifiedCheckpoint d)
      → run d (new_certifier d committee quorum) calls ≡ ok c
      → (c.watermark ≡ some certificate)
        ⊎ Some (λ entry. entry.certificate ≡ some certificate) c.pending
      → IsJustified d committee quorum (IsDelivered calls) certificate
  run-IsJustified laws committee quorum calls c certificate =
      held-IsJustified d laws committee quorum (IsDelivered calls) c calls certificate
        (all-IsDelivered laws committee quorum calls calls (All-self calls))
