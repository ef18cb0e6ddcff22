-- ===== src/Checkpoint/Certifier/Views.antt =====
-- Certifiers seen without the timings and with the local commitments as a view shows them.
use blockchain_validator.Prelude.{
  ◌≡◌, refl, ap, ◌∙◌, inl, inr, Option, none, some, List, [], ◌∷◌, map, Bool-cases, Option-cases,
  ltb, ◌==◌, nat_eq,
}
use blockchain_validator.Outcome.{Outcome, ok, panic, ◌>>=◌}
use blockchain_validator.Dag.{Dag}
use blockchain_validator.Execution.Object.{Digest}
use blockchain_validator.Checkpoint.Types.{CertifiedCheckpoint}
use blockchain_validator.Checkpoint.Certifier.Calls.{Call, mint, vote}
use blockchain_validator.Checkpoint.Certifier.{
  CheckpointTimings, PendingCheckpoint, CheckpointCertifier, Place, entry_round, behind, same_round,
  locate, advance,
}

-- `f` on what a run returns.
abbrev pub after {ℓ κ} : {A : Type ℓ} {B : Type κ} → (A → B) → Outcome A → Outcome B
after f (ok a) = ok (f a)
after f (panic p) = panic p

pub after-bind {ℓ κ μ ν} :
    {A : Type ℓ} {B : Type κ} {C : Type μ} {D : Type ν} (f : A → B) (g : B → D) (h : C → D)
    (k : A → C) (m : Outcome A)
    → ((a : A) → g (f a) ≡ h (k a))
    → (after f m >>= λ b. ok (g b)) ≡ after h (m >>= λ a. ok (k a))
after-bind f g h k (ok a) e = ap ok (e a)
after-bind f g h k (panic p) e = refl

module _ (d : Dag) (shown : Digest → Digest) where
  abbrev pub no_timings : CheckpointTimings
  no_timings = record { minted_at = 0; mean_timestamp_ms = 0 }

  -- What is left of an entry, of the window and of a call under a view `shown` of commitments, without the timings.
  abbrev pub erase : PendingCheckpoint d → PendingCheckpoint d
  erase entry = record {
    local = record { anchor = entry.local.anchor; commitment = shown entry.local.commitment };
    timings = no_timings;
    accumulators = entry.accumulators;
    certificate = entry.certificate;
  }

  abbrev pub erase_all : CheckpointCertifier d → CheckpointCertifier d
  erase_all c = record c { pending = map erase c.pending }

  abbrev pub erase_call : Call d → Call d
  erase_call (mint anchor commitment timings) = mint anchor (shown commitment) no_timings
  erase_call (vote subdag author checkpoint) = vote subdag author checkpoint

  abbrev pub erase_place : Option (Place d) → Option (Place d)
  erase_place none = none
  erase_place (some place) = some (record {
    before = map erase place.before;
    entry = erase place.entry;
    after = map erase place.after;
  })

  erase_place-behind :
      (entry : PendingCheckpoint d) (o : Option (Place d))
      → behind d (erase entry) (erase_place o) ≡ erase_place (behind d entry o)
  erase_place-behind entry none = refl
  erase_place-behind entry (some place) = refl

  same_round-erase :
      (anchor : d.BlockReference) (entries : List (PendingCheckpoint d))
      → same_round d anchor (map erase entries) ≡ erase_place (same_round d anchor entries)
  unfolding same_round
  same_round-erase anchor [] = refl
  same_round-erase anchor (entry ∷ entries) =
      elim (Bool-cases (entry_round d entry == d.round anchor)) [
        | inr other ↦ rw other
        | inl same ↦ rw same (elim (Bool-cases (d.reference_eq.beq entry.local.anchor anchor)) [
          | inl hit ↦ rw hit
          | inr miss ↦ rw miss (
              ap (behind d (erase entry)) (same_round-erase anchor entries)
              ∙ erase_place-behind entry _)
        ])
      ]

  pub locate-erase :
      (anchor : d.BlockReference) (entries : List (PendingCheckpoint d))
      → locate d anchor (map erase entries) ≡ erase_place (locate d anchor entries)
  unfolding locate
  locate-erase anchor [] = refl
  locate-erase anchor (entry ∷ entries) =
      elim (Bool-cases (ltb (entry_round d entry) (d.round anchor))) [
        | inl below ↦
            rw below (
              ap (behind d (erase entry)) (locate-erase anchor entries)
              ∙ erase_place-behind entry _)
        | inr reached ↦ rw reached (same_round-erase anchor (entry ∷ entries))
      ]

  pub advance-erase :
      (entries : List (PendingCheckpoint d)) (w : Option (CertifiedCheckpoint d))
      → advance d (map erase entries) w
        ≡ (map erase (advance d entries w).0, (advance d entries w).1)
  unfolding advance
  advance-erase [] w = refl
  advance-erase (entry ∷ entries) w = elim (Option-cases entry.certificate) [
    | inl e ↦ simp (e, advance)
    | inr (c, e) ↦ simp (e, advance) (advance-erase entries (some c))
  ]
