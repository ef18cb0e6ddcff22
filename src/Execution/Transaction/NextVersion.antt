-- ===== src/Execution/Transaction/NextVersion.antt =====
-- What `next_version` computes, on every branch.
use blockchain_validator.Prelude.{
  ℕ, ◌+◌, ◌^◌, ◌≤◌, max, ◌≡◌, refl, ◌⊎◌, inl, inr, ap, ◌∙◌, none, some, List, [], ◌∷◌, arith,
  Option-cases, Bool-cases, ltb,
}
use blockchain_validator.Outcome.{ok, panic, version_overflow}
use blockchain_validator.Execution.Object.{ObjectId, Object, IsU64, next}
use blockchain_validator.Execution.Transaction.{
  Transaction, AccessMode, read_only, write_only, read_write, StateView, highest_input,
  next_version,
}

abbrev Inputs : Type 0
Inputs = List (ObjectId × AccessMode)

-- Every input that is read exists at a version of at most `bound`.
abbrev pub ReadsUpTo : StateView → ℕ → Inputs → Type 0
ReadsUpTo view bound [] = Unit
ReadsUpTo view bound ((id, write_only) ∷ inputs) = ReadsUpTo view bound inputs
ReadsUpTo view bound ((id, _) ∷ inputs) =
    ((o : Object) × (view.latest id ≡ some o) × (o.version ≤ bound)) × ReadsUpTo view bound inputs

-- Some input that is read stands at this version.
abbrev pub ReadsAt : StateView → ℕ → Inputs → Type 0
ReadsAt view version [] = ⊥
ReadsAt view version ((id, write_only) ∷ inputs) = ReadsAt view version inputs
ReadsAt view version ((id, _) ∷ inputs) =
    ((o : Object) × (view.latest id ≡ some o) × (o.version ≡ version)) ⊎ ReadsAt view version inputs

-- Some input that is read does not exist.
abbrev pub ReadsMissing : StateView → Inputs → Type 0
ReadsMissing view [] = ⊥
ReadsMissing view ((id, write_only) ∷ inputs) = ReadsMissing view inputs
ReadsMissing view ((id, _) ∷ inputs) = (view.latest id ≡ none) ⊎ ReadsMissing view inputs

-- `version` is the highest of `start` and the versions read.
pub record IsHighest (view : StateView) (inputs : Inputs) (start version : ℕ) : Type 0 where
  pub above : start ≤ version
  pub reads : ReadsUpTo view version inputs
  pub attained : (version ≡ start) ⊎ ReadsAt view version inputs

abbrev Highest : StateView → Inputs → ℕ → Type 0
Highest view inputs start =
    ((highest_input view inputs start ≡ none) × ReadsMissing view inputs)
    ⊎ ((version : ℕ) × (highest_input view inputs start ≡ some version)
        × IsHighest view inputs start version)

module _ (view : StateView) where
  -- One input that is read: with what the rest computes, either way.
  read_step :
      (id : ObjectId) (inputs : Inputs) (start : ℕ)
      → ((start' : ℕ) → Highest view inputs start')
      → Highest view ((id, read_only) ∷ inputs) start
  unfolding highest_input
  read_step id inputs start rest = elim (Option-cases (view.latest id)) [
    | inl e ↦ inl (rw (e, highest_input), inl e)
    | inr (o, e) ↦ elim (rest (max start o.version)) [
      | inl (h, m) ↦ inl (rw (e, highest_input) h, inr m)
      | inr (v, h, highest) ↦ inr (
        v,
        rw (e, highest_input) h,
        record {
          above = omega (arith, highest.above);
          reads = ((o, e, omega (arith, highest.above)), highest.reads);
          attained = attain o e v highest.attained;
        },
      )
    ]
  ]
    where
      attain :
          (o : Object)
          → view.latest id ≡ some o
          → (v : ℕ) → (v ≡ max start o.version) ⊎ ReadsAt view v inputs
          → (v ≡ start)
            ⊎ (((o : Object) × (view.latest id ≡ some o) × (o.version ≡ v)) ⊎ ReadsAt view v inputs)
      attain o e v (inr at) = inr (inr at)
      attain o e v (inl m) = elim (Bool-cases (ltb start o.version)) [
        | inl h ↦ inr (inl (o, e, ground arith))
        | inr h ↦ inl (ground arith)
      ]

  inputs-Highest : (inputs : Inputs) (start : ℕ) → Highest view inputs start
  unfolding highest_input
  inputs-Highest [] start =
      inr (start, refl, record { above = omega arith; reads = tt; attained = inl refl })
  inputs-Highest ((id, write_only) ∷ inputs) start = elim (inputs-Highest inputs start) [
    | inl h ↦ inl h
    | inr (v, e, h) ↦ inr (v, e, record { above = h.above; reads = h.reads; attained = h.attained })
  ]
  inputs-Highest ((id, read_only) ∷ inputs) start =
      read_step id inputs start (inputs-Highest inputs)
  inputs-Highest ((id, read_write) ∷ inputs) start =
      elim (read_step id inputs start (inputs-Highest inputs)) [
        | inl h ↦ inl h
        | inr (v, e, h) ↦
            inr (v, e, record { above = h.above; reads = h.reads; attained = h.attained })
      ]

-- Three outcomes and no other. A read input is missing, and there is no version. Or every read
-- input exists at some version of at most `highest`, which is 0 or one of theirs, and the version is
-- `highest` + 1, a u64. Or `highest` + 1 is no u64, and the call panics.
pub next_version_cases :
    (t : Transaction) (view : StateView)
    → ((next_version t view ≡ ok none) × ReadsMissing view t.inputs)
      ⊎ ((highest : ℕ) × IsHighest view t.inputs 0 highest
          × ((IsU64 (highest + 1) × (next_version t view ≡ ok (some (highest + 1))))
              ⊎ ((2 ^ 64 ≤ highest + 1) × (next_version t view ≡ panic version_overflow))))
unfolding next_version next
next_version_cases t view = elim (inputs-Highest view t.inputs 0) [
  | inl (e, missing) ↦ inl (rw e, missing)
  | inr (v, e, h) ↦ inr (
    v,
    h,
    elim (Bool-cases (ltb (v + 1) (2 ^ 64))) [
      | inl small ↦ inl (ground arith, rw (e, next_version, small))
      | inr big ↦ inr (ground arith, rw (e, next_version, big))
    ],
  )
]

-- The highest version read is unique, so one that is known decides the outcome.
ReadsAt-le :
    (view : StateView) (a b : ℕ) (inputs : Inputs)
    → ReadsAt view a inputs
    → ReadsUpTo view b inputs
    → a ≤ b
ReadsAt-le view a b [] h r = absurd h
ReadsAt-le view a b ((id, write_only) ∷ inputs) h r = ReadsAt-le view a b inputs h r
ReadsAt-le view a b ((id, read_only) ∷ inputs) (inl h) r = ground (arith, h, r.0)
ReadsAt-le view a b ((id, read_only) ∷ inputs) (inr h) r = ReadsAt-le view a b inputs h r.1
ReadsAt-le view a b ((id, read_write) ∷ inputs) (inl h) r = ground (arith, h, r.0)
ReadsAt-le view a b ((id, read_write) ∷ inputs) (inr h) r = ReadsAt-le view a b inputs h r.1

IsHighest-le :
    (view : StateView) (inputs : Inputs) (a b : ℕ)
    → IsHighest view inputs 0 a
    → IsHighest view inputs 0 b
    → a ≤ b
IsHighest-le view inputs a b h k = elim h.attained [
  | inl e ↦ omega arith
  | inr at ↦ ReadsAt-le view a b inputs at k.reads
]

ReadsMissing-absurd :
    (view : StateView) (b : ℕ) (inputs : Inputs)
    → ReadsMissing view inputs
    → ReadsUpTo view b inputs
    → ⊥
ReadsMissing-absurd view b [] h r = h
ReadsMissing-absurd view b ((id, write_only) ∷ inputs) h r = ReadsMissing-absurd view b inputs h r
ReadsMissing-absurd view b ((id, read_only) ∷ inputs) (inl h) ((o, e, _), r) = cc
ReadsMissing-absurd view b ((id, read_only) ∷ inputs) (inr h) r =
    ReadsMissing-absurd view b inputs h r.1
ReadsMissing-absurd view b ((id, read_write) ∷ inputs) (inl h) ((o, e, _), r) = cc
ReadsMissing-absurd view b ((id, read_write) ∷ inputs) (inr h) r =
    ReadsMissing-absurd view b inputs h r.1

pub next_version-eq :
    (t : Transaction) (view : StateView) (highest : ℕ)
    → IsHighest view t.inputs 0 highest
    → IsU64 (highest + 1)
    → next_version t view ≡ ok (some (highest + 1))
next_version-eq t view highest h fits = elim (next_version_cases t view) [
  | inl (_, missing) ↦ absurd (ReadsMissing-absurd view highest t.inputs missing h.reads)
  | inr (v, k, outcome) ↦
      let same : v ≡ highest = omega (
        arith,
        IsHighest-le view t.inputs v highest k h,
        IsHighest-le view t.inputs highest v h k,
      ) in
      elim outcome [
        | inl (_, e) ↦ e ∙ ap (λ (u : ℕ). ok (some (u + 1))) same
        | inr (big, _) ↦ absurd (omega arith)
      ]
]
