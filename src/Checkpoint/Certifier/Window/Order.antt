-- ===== src/Checkpoint/Certifier/Window/Order.antt =====
-- The window stays in round order where checkpoints are minted in commit order.
use blockchain_validator.Prelude.{
  ℕ, ◌≤◌, ◌≡◌, ◌⊎◌, refl, sym, subst, ap, true, false, Bool, Option, none, some, List, [], ◌∷◌,
  ◌++◌, All, All-append, arith,
}
use blockchain_validator.Outcome.{ok, bind-eq-ok, ok-injective}
use blockchain_validator.Dag.{Dag}
use blockchain_validator.Checkpoint.Types.{Checkpoint}
use blockchain_validator.Checkpoint.Certifier.{
  CheckpointTimings, PendingCheckpoint, CheckpointCertifier, Place, new_certifier, minted, push,
  entry_round, locate, record_entry, settle, record_at, record_vote,
}
use blockchain_validator.Checkpoint.Certifier.Calls.{Call, mint, vote, step, run}
use blockchain_validator.Checkpoint.Certifier.Entry.{record_entry-Votes}
use blockchain_validator.Checkpoint.Certifier.Advance.{advance-Advanced}
use blockchain_validator.Checkpoint.Certifier.Window.{
  InRoundOrder, Unminted, IsFirst, locate-Located, locate-IsPlace,
}

module _ (d : Dag) where
  abbrev Entries : Type 0
  Entries = List (PendingCheckpoint d)

  -- The anchors that are minted have rounds that do not fall, from a bound on.
  abbrev pub MintsInOrder : ℕ → List (Call d) → Type 0
  MintsInOrder bound [] = Unit
  MintsInOrder bound (mint anchor commitment timings ∷ calls) =
      (bound ≤ d.round anchor) × MintsInOrder (d.round anchor) calls
  MintsInOrder bound (vote subdag author checkpoint ∷ calls) = MintsInOrder bound calls

  -- In order, with no round above the bound.
  abbrev IsOrdered : ℕ → Entries → Type 0
  IsOrdered bound entries =
      InRoundOrder d entries × All (λ entry. entry_round d entry ≤ bound) entries

  InRoundOrder-suffix : (xs ys : Entries) → InRoundOrder d (xs ++ ys) → InRoundOrder d ys
  InRoundOrder-suffix [] ys h = h
  InRoundOrder-suffix (x ∷ xs) ys h = InRoundOrder-suffix xs ys h.1

  IsOrdered-suffix : (bound : ℕ) (xs ys : Entries) → IsOrdered bound (xs ++ ys) → IsOrdered bound ys
  IsOrdered-suffix bound xs ys h = (InRoundOrder-suffix xs ys h.0, ((All-append _ xs ys).0 h.1).1)

  weaken :
      (low high : ℕ) (entries : Entries)
      → low ≤ high
      → All (λ entry. entry_round d entry ≤ low) entries
      → All (λ entry. entry_round d entry ≤ high) entries
  weaken low high [] h a = tt
  weaken low high (x ∷ xs) h a = (omega (arith, a.0, h), weaken low high xs h a.1)

  InRoundOrder-snoc :
      (entries : Entries) (entry : PendingCheckpoint d)
      → InRoundOrder d entries
      → All (λ before. entry_round d before ≤ entry_round d entry) entries
      → InRoundOrder d (entries ++ (entry ∷ []))
  InRoundOrder-snoc [] entry h a = (tt, tt)
  InRoundOrder-snoc (x ∷ xs) entry h a =
      ((All-append _ xs (entry ∷ [])).1 (h.0, (a.0, tt)), InRoundOrder-snoc xs entry h.1 a.1)

  module _ (entry entry' : PendingCheckpoint d) (kept : entry_round d entry' ≡ entry_round d entry)
      (after : Entries) where
    -- One entry is changed, and not its round.
    InRoundOrder-middle :
        (before : Entries)
        → InRoundOrder d (before ++ (entry ∷ after))
        → InRoundOrder d (before ++ (entry' ∷ after))
    InRoundOrder-middle [] h =
        (subst (λ n. All (λ later. n ≤ entry_round d later) after) (sym kept) h.0, h.1)
    InRoundOrder-middle (x ∷ xs) h =
        let parts = (All-append _ xs (entry ∷ after)).0 h.0 in
        (
          (All-append _ xs (entry' ∷ after)).1
              (parts.0, (subst (λ n. entry_round d x ≤ n) (sym kept) parts.1.0, parts.1.1)),
          InRoundOrder-middle xs h.1,
        )

    IsOrdered-middle :
        (bound : ℕ) (before : Entries)
        → IsOrdered bound (before ++ (entry ∷ after))
        → IsOrdered bound (before ++ (entry' ∷ after))
    IsOrdered-middle bound before h =
        let parts = (All-append _ before (entry ∷ after)).0 h.1 in
        (
          InRoundOrder-middle before h.0,
          (All-append _ before (entry' ∷ after)).1
              (parts.0, (subst (λ n. n ≤ bound) (sym kept) parts.1.0, parts.1.1)),
        )

  settle-IsOrdered :
      (bound : ℕ) (c : CheckpointCertifier d) (place : Place d)
      (changed : PendingCheckpoint d × Bool)
      → IsOrdered bound (place.before ++ (changed.0 ∷ place.after))
      → IsOrdered bound (settle d c place changed).0.pending
  settle-IsOrdered bound c place (entry, false) h = h
  settle-IsOrdered bound c place (entry, true) h =
      let a = advance-Advanced d (place.before ++ (entry ∷ place.after)) c.watermark in
      IsOrdered-suffix bound a.popped _ (subst (IsOrdered bound) a.split h)

  record_at-IsOrdered :
      (bound : ℕ) (c : CheckpointCertifier d) (subdag : d.BlockReference) (author : d.Authority)
      (checkpoint : Checkpoint d) (o : Option (Place d))
      (result : CheckpointCertifier d × Option CheckpointTimings)
      → locate d checkpoint.anchor c.pending ≡ o
      → record_at d c subdag author checkpoint o ≡ ok result
      → IsOrdered bound c.pending
      → IsOrdered bound result.0.pending
  unfolding record_at
  record_at-IsOrdered bound c subdag author checkpoint none result missing e h =
      subst (λ (s : CheckpointCertifier d × Option CheckpointTimings). IsOrdered bound s.0.pending)
        (ok-injective e) h
  record_at-IsOrdered bound c subdag author checkpoint (some place) result found e h =
      let here = locate-IsPlace d checkpoint.anchor c.pending place found in
      let (changed, counted, final) =
        bind-eq-ok (record_entry d c.committee c.quorum subdag author checkpoint place.entry)
          (λ outcome. ok (settle d c place outcome)) e in
      let votes =
        record_entry-Votes d checkpoint c.committee c.quorum subdag author place.entry changed
          counted in
      subst (λ (s : CheckpointCertifier d × Option CheckpointTimings). IsOrdered bound s.0.pending)
        (ok-injective final)
        (settle-IsOrdered bound c place changed (
          IsOrdered-middle place.entry changed.0
            (ap (λ (l : Checkpoint d). d.round l.anchor) votes.local) place.after bound place.before
            (subst (IsOrdered bound) here.whole h)))

  run-IsOrdered :
      (bound : ℕ) (c c' : CheckpointCertifier d) (calls : List (Call d))
      → IsOrdered bound c.pending
      → MintsInOrder bound calls
      → run d c calls ≡ ok c'
      → InRoundOrder d c'.pending
  unfolding run step push record_vote
  run-IsOrdered bound c c' [] h m e =
      subst (λ (s : CheckpointCertifier d). InRoundOrder d s.pending) (ok-injective e) h.0
  run-IsOrdered bound c c' (mint anchor commitment timings ∷ calls) h m e =
      let above = weaken bound (d.round anchor) c.pending m.0 h.1 in
      run-IsOrdered (d.round anchor) (push d c anchor commitment timings).0 c' calls
        (
          InRoundOrder-snoc c.pending (minted d anchor commitment timings) h.0 above,
          (All-append _ c.pending (minted d anchor commitment timings ∷ [])).1
              (above, (omega arith, tt)),
        )
        m.1 e
  run-IsOrdered bound c c' (vote subdag author checkpoint ∷ calls) h m e =
      let (next, first, rest) =
        bind-eq-ok (step d c (vote subdag author checkpoint)) (λ c. run d c calls) e in
      let (result, recorded, final) =
        bind-eq-ok (record_vote d c subdag author checkpoint) (λ r. ok r.0) first in
      run-IsOrdered bound next c' calls
        (subst (λ (s : CheckpointCertifier d). IsOrdered bound s.pending) (ok-injective final)
          (record_at-IsOrdered bound c subdag author checkpoint _ result refl recorded h))
        m rest

  -- After any calls of a new certifier that return and mint anchors in the order of their rounds, the window is in
  -- round order, so that the search for the anchor of a vote finds the first entry with it, and nothing
  -- exactly if no entry has it.
  pub run-InRoundOrder :
      (committee : d.Committee) (quorum : ℕ) (calls : List (Call d)) (c : CheckpointCertifier d)
      → MintsInOrder 0 calls
      → run d (new_certifier d committee quorum) calls ≡ ok c
      → InRoundOrder d c.pending
        × ((anchor : d.BlockReference)
            → ((locate d anchor c.pending ≡ none) × Unminted d anchor c.pending)
              ⊎ ((place : Place d) × (locate d anchor c.pending ≡ some place)
                  × IsFirst d anchor c.pending place))
  run-InRoundOrder committee quorum calls c m e =
      let ordered = run-IsOrdered 0 (new_certifier d committee quorum) c calls (tt, tt) m e in
      (ordered, λ anchor. locate-Located d anchor c.pending ordered)
