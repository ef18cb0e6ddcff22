-- ===== src/Checkpoint/Certifier/Agreement.antt =====
-- What certification does not depend on: the timings and the local commitments.
use mathlib.Core.List.{map-append}
use blockchain_validator.Prelude.{
  ℕ, ◌≡◌, refl, sym, ap, ◌∙◌, inl, inr, true, false, Bool, Option, none, some, List, [], ◌∷◌, ◌++◌,
  map, nat_eq,
}
use blockchain_validator.Outcome.{Outcome-cases, ok, ok-injective, ◌>>=◌}
use blockchain_validator.Dag.{Dag}
use blockchain_validator.Execution.Object.{Digest}
use blockchain_validator.Checkpoint.Types.{Checkpoint, CertifiedCheckpoint}
use blockchain_validator.Checkpoint.Accumulator.{CheckpointAccumulator}
use blockchain_validator.Checkpoint.Certifier.Views.{
  after, after-bind, no_timings, erase, erase_all, erase_call, erase_place, locate-erase,
  advance-erase,
}
use blockchain_validator.Checkpoint.Certifier.Calls.{Call, mint, vote, step, run}
use blockchain_validator.Checkpoint.Certifier.{
  CheckpointTimings, PendingCheckpoint, CheckpointCertifier, Place, Scan, voted_before, target,
  push, locate, cast_at, ensure, record_scanned, record_unless_certified, record_entry, advance,
  settle, record_at, record_vote,
}

module _ (d : Dag) (shown : Digest → Digest) where
  abbrev erase_changed : PendingCheckpoint d × Bool → PendingCheckpoint d × Bool
  erase_changed (entry, reached) = (erase d shown entry, reached)

  abbrev erase_result :
      CheckpointCertifier d × Option CheckpointTimings
      → CheckpointCertifier d × Option CheckpointTimings
  erase_result (c, none) = (erase_all d shown c, none)
  erase_result (c, some _) = (erase_all d shown c, some (no_timings d shown))

  abbrev waiting :
      CheckpointCertifier d
      → List (PendingCheckpoint d)
      → CheckpointCertifier d × Option CheckpointTimings
  waiting c entries = (record c { pending = entries }, none)

  abbrev advanced :
      CheckpointCertifier d
      → List (PendingCheckpoint d) × Option (CertifiedCheckpoint d)
      → CheckpointCertifier d × Option CheckpointTimings
  advanced c (entries, w) =
      (record c { pending = entries; watermark = w }, some (no_timings d shown))

  settle-erase :
      (c : CheckpointCertifier d) (place : Place d) (changed : PendingCheckpoint d × Bool)
      → settle d
          (erase_all d shown c)
          (record {
            before = map (erase d shown) place.before;
            entry = erase d shown place.entry;
            after = map (erase d shown) place.after;
          })
          (erase_changed changed)
        ≡ erase_result (settle d c place changed)
  settle-erase c place (entry, false) =
      ap (waiting c) (sym (map-append (erase d shown) place.before (entry ∷ place.after)))
  settle-erase c place (entry, true) = ap (advanced c) (
      ap (λ es. advance d es c.watermark)
        (sym (map-append (erase d shown) place.before (entry ∷ place.after)))
      ∙ advance-erase d shown (place.before ++ (entry ∷ place.after)) c.watermark)

  module _ (committee : d.Committee) (quorum : ℕ) (subdag : d.BlockReference) (author : d.Authority)
      (checkpoint : Checkpoint d) where
    record_scanned-erase :
        (entry : PendingCheckpoint d) (s : Scan)
        → record_scanned d committee quorum subdag author checkpoint (erase d shown entry) s
          ≡ after erase_changed (record_scanned d committee quorum subdag author checkpoint entry s)
    unfolding record_scanned
    record_scanned-erase entry voted_before = refl
    record_scanned-erase entry (target found) =
        elim (Outcome-cases (cast_at d author committee subdag index accs)) [
          | inr (p, e) ↦ rw e
          | inl ((accs', none), e) ↦ rw e
          | inl ((accs', some proof), e) ↦ rw e
        ]
      where
        index : ℕ
        index = (ensure d quorum checkpoint.commitment found entry.accumulators).0

        accs : List (Digest × CheckpointAccumulator d)
        accs = (ensure d quorum checkpoint.commitment found entry.accumulators).1

    unless_certified-erase :
        (entry : PendingCheckpoint d) (o : Option (CertifiedCheckpoint d))
        → record_unless_certified d committee quorum subdag author checkpoint
            (erase d shown entry)
            o
          ≡ after erase_changed
              (record_unless_certified d committee quorum subdag author checkpoint entry o)
    unfolding record_unless_certified
    unless_certified-erase entry none = record_scanned-erase entry _
    unless_certified-erase entry (some c) = refl

  record_at-erase :
      (subdag : d.BlockReference) (author : d.Authority) (checkpoint : Checkpoint d)
      (c : CheckpointCertifier d) (o : Option (Place d))
      → record_at d (erase_all d shown c) subdag author checkpoint (erase_place d shown o)
        ≡ after erase_result (record_at d c subdag author checkpoint o)
  unfolding record_at record_entry
  record_at-erase subdag author checkpoint c none = refl
  record_at-erase subdag author checkpoint c (some place) =
      ap (λ m. m >>= λ outcome. ok (settle d (erase_all d shown c) erased outcome))
        (unless_certified-erase c.committee c.quorum subdag author checkpoint place.entry
          place.entry.certificate)
      ∙ after-bind erase_changed (settle d (erase_all d shown c) erased) erase_result
          (settle d c place)
          (record_entry d c.committee c.quorum subdag author checkpoint place.entry)
          (settle-erase c place)
    where
      erased : Place d
      erased = record {
        before = map (erase d shown) place.before;
        entry = erase d shown place.entry;
        after = map (erase d shown) place.after;
      }

  erase_result-state :
      (c : CheckpointCertifier d) (t : Option CheckpointTimings)
      → (erase_result (c, t)).0 ≡ erase_all d shown c
  erase_result-state c none = refl
  erase_result-state c (some t) = refl

  record_vote-erase :
      (c : CheckpointCertifier d) (subdag : d.BlockReference) (author : d.Authority)
      (checkpoint : Checkpoint d)
      → record_vote d (erase_all d shown c) subdag author checkpoint
        ≡ after erase_result (record_vote d c subdag author checkpoint)
  unfolding record_vote
  record_vote-erase c subdag author checkpoint =
      ap (record_at d (erase_all d shown c) subdag author checkpoint)
        (locate-erase d shown checkpoint.anchor c.pending)
      ∙ record_at-erase subdag author checkpoint c (locate d checkpoint.anchor c.pending)

  step-erase :
      (c : CheckpointCertifier d) (call : Call d)
      → step d (erase_all d shown c) (erase_call d shown call)
        ≡ after (erase_all d shown) (step d c call)
  unfolding step push
  step-erase c (mint anchor commitment timings) =
      ap (λ es. ok (record c { pending = es })) (sym (map-append (erase d shown) c.pending _))
  step-erase c (vote subdag author checkpoint) =
      ap (λ m. m >>= λ r. ok r.0) (record_vote-erase c subdag author checkpoint)
      ∙ after-bind erase_result (λ r. r.0) (erase_all d shown) (λ r. r.0)
          (record_vote d c subdag author checkpoint) (λ r. erase_result-state r.0 r.1)

  run-erase :
      (c : CheckpointCertifier d) (calls : List (Call d))
      → run d (erase_all d shown c) (map (erase_call d shown) calls)
        ≡ after (erase_all d shown) (run d c calls)
  unfolding run
  run-erase c [] = refl
  run-erase c (call ∷ calls) =
      ap (λ m. m >>= λ c'. run d c' (map (erase_call d shown) calls)) (step-erase c call)
      ∙ elim (Outcome-cases (step d c call)) [
        | inr (p, e) ↦ rw e
        | inl (c', e) ↦ rw e (run-erase c' calls)
      ]

-- Two validators whose certifiers agree but for the timings and for what `shown` hides of the local
-- commitments, and that get calls that agree in the same way: if the one gets through, so does the
-- other, and their certifiers agree in this way again. Where `shown` is the identity, only timings
-- may differ; where it is constant, executions may have diverged, and the tallies, certificates and
-- watermarks are the same all the same.
pub run-agreement :
    (d : Dag) (shown : Digest → Digest) (ours theirs : List (Call d))
    (us them us' : CheckpointCertifier d)
    → erase_all d shown us ≡ erase_all d shown them
    → map (erase_call d shown) ours ≡ map (erase_call d shown) theirs
    → run d us ours ≡ ok us'
    → (them' : CheckpointCertifier d) × (run d them theirs ≡ ok them')
      × (erase_all d shown us' ≡ erase_all d shown them')
run-agreement d shown ours theirs us them us' alike same e =
    elim (Outcome-cases (run d them theirs)) [
      | inl (them', e') ↦ (
        them',
        e',
        ok-injective
            (sym (ap (after (erase_all d shown)) e) ∙ both ∙ ap (after (erase_all d shown)) e'),
      )
      | inr (p, e') ↦
          cc (sym (ap (after (erase_all d shown)) e') ∙ sym both ∙ ap (after (erase_all d shown)) e)
    ]
  where
    both : after (erase_all d shown) (run d us ours) ≡ after (erase_all d shown) (run d them theirs)
    both =
        sym (run-erase d shown us ours)
        ∙ ap (run d (erase_all d shown us)) same
        ∙ ap (λ c. run d c (map (erase_call d shown) theirs)) alike
        ∙ run-erase d shown them theirs
