-- ===== src/Execution/Scheduler/Landing.antt =====
-- Where the writes of one transaction of the fake engine land in the store.
use blockchain_validator.Prelude.{
  ◌<◌, ◌≤◌, ◌≡◌, ◌⊎◌, pair_eq, refl, sym, subst, ◌∙◌, inl, inr, true, false, Option, some, List, [],
  ◌∷◌, map, arith, All, Absent, Distinct, Option-cases, ==-cases, nat_eq, list_eq, ==_refl, lt→ltb,
}
use blockchain_validator.Map
use blockchain_validator.Execution.Object.{ObjectId, Version, Object}
use blockchain_validator.Execution.Transaction.{AccessMode, read_only, write_only, read_write}
use blockchain_validator.Execution.Transaction.Verify.{ids}
use blockchain_validator.Execution.Store.{InMemoryStore, latest, moves_forward}
use blockchain_validator.Execution.Store.Invariant.{IsConsistent}
use blockchain_validator.Execution.Store.History.{last_write}
use blockchain_validator.Execution.Fake.Outputs.{
  created_object, updated_object, Writes, Writes-Absent,
}

abbrev Inputs : Type 0
Inputs = List (ObjectId × AccessMode)

abbrev Lookup : Type 0
Lookup = ObjectId → Option Object

-- What one input finds in the store afterwards.
abbrev pub Landed : Lookup → Lookup → Version → ObjectId × AccessMode → Type 0
Landed before after version (id, read_only) = after id ≡ before id
Landed before after version (id, write_only) = after id ≡ some (created_object id version)
Landed before after version (id, read_write) =
    (o : Object) × (before id ≡ some o) × (after id ≡ some (updated_object o id version))

-- Every object to be created is absent, or stands below the version.
abbrev pub CreatesForward : Lookup → Version → Inputs → Type 0
CreatesForward before version [] = Unit
CreatesForward before version ((id, write_only) ∷ inputs) =
    ((o : Object) → before id ≡ some o → o.version < version) × CreatesForward before version inputs
CreatesForward before version ((id, _) ∷ inputs) = CreatesForward before version inputs

-- Some object to be created is there already, at the version or above.
abbrev pub CreatesExisting : Lookup → Version → Inputs → Type 0
CreatesExisting before version [] = ⊥
CreatesExisting before version ((id, write_only) ∷ inputs) =
    ((o : Object) × (before id ≡ some o) × (version ≤ o.version))
    ⊎ CreatesExisting before version inputs
CreatesExisting before version ((id, _) ∷ inputs) = CreatesExisting before version inputs

pub last_write-Absent :
    (id : ObjectId) (before : Option Object) (ws : List Object)
    → Absent id (map (λ (o : Object). o.id) ws)
    → last_write id before ws ≡ before
last_write-Absent id before [] a = refl
last_write-Absent id before (o ∷ ws) a = elim (==-cases o.id id) [
  | inl (same, h) ↦ absurd (a.0 same)
  | inr (other, h) ↦ rw h (last_write-Absent id before ws a.1)
]

-- A write of another id behind the back of inputs that do not name it.
Landed-skip :
    (before : Lookup) (version : Version) (w : Object) (ws : List Object) (inputs : Inputs)
    → Absent w.id (ids inputs)
    → All (Landed before (λ id. last_write id (before id) ws) version) inputs
    → All (Landed before (λ id. last_write id (before id) (w ∷ ws)) version) inputs
Landed-skip before version w ws [] a h = tt
Landed-skip before version w ws ((id, mode) ∷ inputs) a h =
    (one mode h.0, Landed-skip before version w ws inputs a.1 h.1)
  where
    same : last_write id (before id) (w ∷ ws) ≡ last_write id (before id) ws
    same = elim (==-cases w.id id) [ inl (e, _) ↦ absurd (a.0 (sym e)) | inr (_, t) ↦ rw t ]

    one :
        (mode : AccessMode)
        → Landed before (λ id. last_write id (before id) ws) version (id, mode)
        → Landed before (λ id. last_write id (before id) (w ∷ ws)) version (id, mode)
    one read_only h = same ∙ h
    one write_only h = same ∙ h
    one read_write (o, e, h) = (o, e, same ∙ h)

last_write-head :
    (before : Option Object) (w : Object) (ws : List Object)
    → Absent w.id (map (λ (o : Object). o.id) ws)
    → last_write w.id before (w ∷ ws) ≡ some w
last_write-head before w ws a = rw (==_refl w.id) (last_write-Absent w.id (some w) ws a)

pub Writes-Landed :
    (before : Lookup) (version : Version) (inputs : Inputs) (ws : List Object)
    → Writes (record { latest = before }) version inputs ws
    → Distinct (ids inputs)
    → All (Landed before (λ id. last_write id (before id) ws) version) inputs
Writes-Landed before version [] ws w d = tt
Writes-Landed before version ((id, read_only) ∷ inputs) ws w d = (
  last_write-Absent id (before id) ws
      (Writes-Absent (record { latest = before }) version id inputs ws w d.0),
  Writes-Landed before version inputs ws w d.1,
)
Writes-Landed before version ((id, write_only) ∷ inputs) ws (rest, e, w) d =
    subst
      (λ us.
        All (Landed before (λ j. last_write j (before j) us) version) ((id, write_only) ∷ inputs))
      (sym e)
      (
        last_write-head (before id) (created_object id version) rest
            (Writes-Absent (record { latest = before }) version id inputs rest w d.0),
        Landed-skip before version (created_object id version) rest inputs d.0
            (Writes-Landed before version inputs rest w d.1),
      )
Writes-Landed before version ((id, read_write) ∷ inputs) ws (o, rest, found, e, w) d =
    subst
      (λ us.
        All (Landed before (λ j. last_write j (before j) us) version) ((id, read_write) ∷ inputs))
      (sym e)
      (
        (
          o,
          found,
          last_write-head (before id) (updated_object o id version) rest
              (Writes-Absent (record { latest = before }) version id inputs rest w d.0),
        ),
        Landed-skip before version (updated_object o id version) rest inputs d.0
            (Writes-Landed before version inputs rest w d.1),
      )

-- What `latest` shows is what the index of versions holds.
pub latest_index :
    (s : InMemoryStore) (id : ObjectId) (version : Version)
    → IsConsistent s
    → ((o : Object) → latest s id ≡ some o → o.version < version)
    → moves_forward (Map.get s.latest id) version ≡ true
unfolding latest
latest_index s id version c h = elim (Option-cases (Map.get s.latest id)) [
  | inl e ↦ rw e
  | inr (w, e) ↦
      let (o, stored) = c.stored id w e in
      let (_, same, _) = c.described id w o stored in
      let below : o.version < version = h o (rw (e, latest) stored) in
      rw e (lt→ltb w version (omega arith))
]

pub index_latest :
    (s : InMemoryStore) (id : ObjectId) (version : Version) (o : Object)
    → IsConsistent s
    → latest s id ≡ some o
    → version ≤ o.version
    → moves_forward (Map.get s.latest id) version ≡ false
unfolding latest
index_latest s id version o c e h = elim (Option-cases (Map.get s.latest id)) [
  | inl f ↦ cc (rw (f, latest) at e)
  | inr (w, f) ↦
      let stored : Map.get s.objects (id, w) ≡ some o = rw (f, latest) at e in
      let (_, same, _) = c.described id w o stored in rw f (ground arith)
]
