-- ===== src/Checkpoint/Certifier/Window.antt =====
-- The lookup of a vote's entry in the window.
pub mod Order
use blockchain_validator.Prelude.{
  ℕ, ◌≤◌, ◌<◌, ◌≡◌, ◌≢◌, refl, subst, ap, ◌⊎◌, inl, inr, Option, none, some, List, [], ◌∷◌, ◌++◌,
  arith, All, ltb, ◌==◌, nat_eq, Bool-cases,
}
use blockchain_validator.Dag.{Dag}
use blockchain_validator.Checkpoint.Certifier.{
  PendingCheckpoint, Place, entry_round, behind, same_round, locate,
}

module _ (d : Dag) where
  abbrev pub anchor_of : PendingCheckpoint d → d.BlockReference
  anchor_of entry = entry.local.anchor

  -- No entry of these is anchored there.
  abbrev pub Unminted : d.BlockReference → List (PendingCheckpoint d) → Type 0
  Unminted anchor = All (λ entry. anchor_of entry ≢ anchor)

  -- Commit order: the rounds of the anchors do not fall.
  abbrev pub InRoundOrder : List (PendingCheckpoint d) → Type 0
  InRoundOrder [] = Unit
  InRoundOrder (entry ∷ entries) =
      All (λ later. entry_round d entry ≤ entry_round d later) entries × InRoundOrder entries

  -- The first entry of an anchor.
  pub record IsFirst (anchor : d.BlockReference) (entries : List (PendingCheckpoint d))
      (place : Place d) : Type 0 where
    pub whole : entries ≡ place.before ++ (place.entry ∷ place.after)
    pub anchored : anchor_of place.entry ≡ anchor
    pub first : Unminted anchor place.before

  IsFirst-behind :
      (anchor : d.BlockReference) (entry : PendingCheckpoint d)
      (entries : List (PendingCheckpoint d)) (place : Place d)
      → anchor_of entry ≢ anchor
      → IsFirst anchor entries place
      → IsFirst anchor (entry ∷ entries) (record place { before = entry ∷ place.before })
  IsFirst-behind anchor entry entries place other h = record {
    whole = ap (◌∷◌ entry) h.whole;
    anchored = h.anchored;
    first = (other, h.first);
  }

  abbrev pub Located : d.BlockReference → List (PendingCheckpoint d) → Option (Place d) → Type 0
  Located anchor entries result =
      ((result ≡ none) × Unminted anchor entries)
      ⊎ ((place : Place d) × (result ≡ some place) × IsFirst anchor entries place)

  Located-behind :
      (anchor : d.BlockReference) (entry : PendingCheckpoint d)
      (entries : List (PendingCheckpoint d)) (result : Option (Place d))
      → anchor_of entry ≢ anchor
      → Located anchor entries result
      → Located anchor (entry ∷ entries) (behind d entry result)
  Located-behind anchor entry entries result other (inl (e, h)) = inl (rw e, (other, h))
  Located-behind anchor entry entries result other (inr (place, e, h)) =
      inr (_, rw e, IsFirst-behind anchor entry entries place other h)

  above_unminted :
      (anchor : d.BlockReference) (bound : ℕ) (entries : List (PendingCheckpoint d))
      → d.round anchor < bound
      → All (λ later. bound ≤ entry_round d later) entries
      → Unminted anchor entries
  above_unminted anchor bound [] h a = tt
  above_unminted anchor bound (entry ∷ entries) h a =
      (λ e. omega (arith, ap d.round e, a.0), above_unminted anchor bound entries h a.1)

  raise :
      (anchor : d.BlockReference) (bound : ℕ) (entries : List (PendingCheckpoint d))
      → d.round anchor ≤ bound
      → All (λ later. bound ≤ entry_round d later) entries
      → All (λ later. d.round anchor ≤ entry_round d later) entries
  raise anchor bound [] h a = tt
  raise anchor bound (entry ∷ entries) h a = (omega (arith, a.0), raise anchor bound entries h a.1)

  same_round-Located :
      (anchor : d.BlockReference) (entries : List (PendingCheckpoint d))
      → InRoundOrder entries
      → All (λ later. d.round anchor ≤ entry_round d later) entries
      → Located anchor entries (same_round d anchor entries)
  unfolding same_round
  same_round-Located anchor [] s a = inl (refl, tt)
  same_round-Located anchor (entry ∷ entries) s a =
      elim (Bool-cases (entry_round d entry == d.round anchor)) [
        | inr other ↦ rw other (
            inl (
              refl,
              (
                λ e. ground (arith, other, ap d.round e),
                above_unminted anchor (entry_round d entry) entries (ground (arith, a.0, other))
                    s.0,
              ),
            ))
        | inl same ↦ rw same (elim (Bool-cases (d.reference_eq.beq (anchor_of entry) anchor)) [
          | inl hit ↦ rw hit (
              inr (
                _,
                refl,
                record { whole = refl; anchored = (d.reference_eq.beq_iff _ _).0 hit; first = tt },
              ))
          | inr miss ↦ rw miss (
              Located-behind anchor entry entries (same_round d anchor entries)
                (λ e. ground (arith, (d.reference_eq.beq_iff (anchor_of entry) anchor).1 e, miss))
                (same_round-Located anchor entries s.1 a.1))
        ])
      ]

  -- In a window in round order, the binary search and the walk along one round find the first entry
  -- with the anchor of the vote, and nothing exactly if no entry has it.
  pub locate-Located :
      (anchor : d.BlockReference) (entries : List (PendingCheckpoint d))
      → InRoundOrder entries
      → ((locate d anchor entries ≡ none) × Unminted anchor entries)
        ⊎ ((place : Place d) × (locate d anchor entries ≡ some place)
            × IsFirst anchor entries place)
  unfolding locate
  locate-Located anchor [] s = inl (refl, tt)
  locate-Located anchor (entry ∷ entries) s =
      elim (Bool-cases (ltb (entry_round d entry) (d.round anchor))) [
        | inl below ↦ rw below (
            Located-behind anchor entry entries (locate d anchor entries)
              (λ e. ground (arith, below, ap d.round e)) (locate-Located anchor entries s.1))
        | inr reached ↦ rw reached (
            same_round-Located anchor (entry ∷ entries) s (
              ground (arith, reached),
              raise anchor (entry_round d entry) entries (ground (arith, reached)) s.0,
            ))
      ]

module _ (d : Dag) where
  -- Whatever the order, what is found stands in the window and has the anchor.
  pub record IsPlace (anchor : d.BlockReference) (entries : List (PendingCheckpoint d))
      (place : Place d) : Type 0 where
    pub whole : entries ≡ place.before ++ (place.entry ∷ place.after)
    pub anchored : anchor_of d place.entry ≡ anchor

  abbrev Sound : d.BlockReference → List (PendingCheckpoint d) → Option (Place d) → Type 0
  Sound anchor entries none = Unit
  Sound anchor entries (some place) = IsPlace anchor entries place

  Sound-behind :
      (anchor : d.BlockReference) (entry : PendingCheckpoint d)
      (entries : List (PendingCheckpoint d)) (result : Option (Place d))
      → Sound anchor entries result
      → Sound anchor (entry ∷ entries) (behind d entry result)
  Sound-behind anchor entry entries none h = tt
  Sound-behind anchor entry entries (some place) h = record {
    whole = ap (◌∷◌ entry) h.whole;
    anchored = h.anchored;
  }

  same_round-Sound :
      (anchor : d.BlockReference) (entries : List (PendingCheckpoint d))
      → Sound anchor entries (same_round d anchor entries)
  unfolding same_round
  same_round-Sound anchor [] = tt
  same_round-Sound anchor (entry ∷ entries) =
      elim (Bool-cases (entry_round d entry == d.round anchor)) [
        | inr other ↦ rw other tt
        | inl same ↦ rw same (elim (Bool-cases (d.reference_eq.beq (anchor_of d entry) anchor)) [
          | inl hit ↦
              rw hit (record { whole = refl; anchored = (d.reference_eq.beq_iff _ _).0 hit })
          | inr miss ↦
              rw miss (Sound-behind anchor entry entries _ (same_round-Sound anchor entries))
        ])
      ]

  locate-Sound :
      (anchor : d.BlockReference) (entries : List (PendingCheckpoint d))
      → Sound anchor entries (locate d anchor entries)
  unfolding locate
  locate-Sound anchor [] = tt
  locate-Sound anchor (entry ∷ entries) =
      elim (Bool-cases (ltb (entry_round d entry) (d.round anchor))) [
        | inl below ↦ rw below (Sound-behind anchor entry entries _ (locate-Sound anchor entries))
        | inr reached ↦ rw reached (same_round-Sound anchor (entry ∷ entries))
      ]

  pub locate-IsPlace :
      (anchor : d.BlockReference) (entries : List (PendingCheckpoint d)) (place : Place d)
      → locate d anchor entries ≡ some place
      → IsPlace anchor entries place
  locate-IsPlace anchor entries place e =
      subst (Sound anchor entries) e (locate-Sound anchor entries)
