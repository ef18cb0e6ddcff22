-- ===== src/Execution/Store/Invariant.antt =====
-- The two indices of the store agree, and every write keeps them so.
use blockchain_validator.Prelude.{
  ◌≤◌, ◌≡◌, sym, subst, ◌⊎◌, inl, inr, true, none, some, List, [], ◌∷◌, arith, nat_eq, list_eq,
  pair_eq, ◌&&◌, ◌==◌, if◌then◌else◌, bytes_eq_iff, Option-cases,
}
use blockchain_validator.Outcome.{ok, bind-eq-ok, ok-injective}
use blockchain_validator.Map
use blockchain_validator.Execution.Object.{Bytes, ObjectId, Version, Object, Digest}
use blockchain_validator.Execution.Effects.{ExecutionOutput}
use blockchain_validator.Execution.Store.{
  InMemoryStore, default_store, get, latest, moves_forward, written, apply_write, apply_writes,
  apply,
}

pub record IsConsistent (s : InMemoryStore) : Type 0 where
  -- The recorded latest version of an id is stored.
  pub stored :
      (id : ObjectId) (v : Version)
      → Map.get s.latest id ≡ some v
      → (o : Object) × (Map.get s.objects (id, v) ≡ some o)
  -- A stored object describes its own key, and its version is at most the latest one.
  pub described :
      (id : ObjectId) (v : Version) (o : Object)
      → Map.get s.objects (id, v) ≡ some o
      → (o.id ≡ id) × (o.version ≡ v) × ((w : Version) × (Map.get s.latest id ≡ some w) × (v ≤ w))

pub default-IsConsistent : IsConsistent default_store
default-IsConsistent = record {
  stored = λ id v e. cc (Map.get-empty {V = Version} id);
  described = λ id v o e. cc (Map.get-empty {K = ObjectId × Version} {V = Object} (id, v));
}

module _ (hash : Bytes → Digest) where
  -- Either the write goes in and moves the latest version forward, or it panics.
  pub apply_write_forward :
      (s t : InMemoryStore) (o : Object)
      → apply_write hash s o ≡ ok t
      → (t ≡ written hash s o) × (moves_forward (Map.get s.latest o.id) o.version ≡ true)
  unfolding apply_write
  apply_write_forward s t o e = ground arith

  -- The two indices after a write.
  pub latest-written :
      (s : InMemoryStore) (o : Object) (id : ObjectId)
      → Map.get (written hash s o).latest id
        ≡ (if o.id == id then some o.version else Map.get s.latest id)
  latest-written s o id = Map.get-insert s.latest o.id id o.version

  pub objects-written :
      (s : InMemoryStore) (o : Object) (id : ObjectId) (v : Version)
      → Map.get (written hash s o).objects (id, v)
        ≡ (if (o.id == id) && (o.version == v) then some o else Map.get s.objects (id, v))
  objects-written s o id v = Map.get-insert s.objects (o.id, o.version) (id, v) o

  written-IsConsistent :
      (s : InMemoryStore) (o : Object)
      → moves_forward (Map.get s.latest o.id) o.version ≡ true
      → IsConsistent s
      → IsConsistent (written hash s o)
  written-IsConsistent s o forward c = record {
    stored = λ id v e. ground (
      arith,
      e,
      latest-written s o id,
      objects-written s o id v,
      bytes_eq_iff o.id id,
      c.stored id v,
    );
    described = λ id v p e. ground (
      arith,
      e,
      latest-written s o id,
      objects-written s o id v,
      bytes_eq_iff o.id id,
      c.described id v p,
    );
  }

  apply_write-IsConsistent :
      (s t : InMemoryStore) (o : Object)
      → apply_write hash s o ≡ ok t
      → IsConsistent s
      → IsConsistent t
  apply_write-IsConsistent s t o e c =
      let (went, forward) = apply_write_forward s t o e in
      subst IsConsistent (sym went) (written-IsConsistent s o forward c)

  pub apply_writes-IsConsistent :
      (s t : InMemoryStore) (os : List Object)
      → apply_writes hash s os ≡ ok t
      → IsConsistent s
      → IsConsistent t
  unfolding apply_writes
  apply_writes-IsConsistent s t [] e c = subst IsConsistent (ok-injective e) c
  apply_writes-IsConsistent s t (o ∷ os) e c =
      let (s', first, rest) = bind-eq-ok (apply_write hash s o) _ e in
      apply_writes-IsConsistent s' t os rest (apply_write-IsConsistent s s' o first c)

  -- A write with a higher version leaves every stored entry alone.
  keeps_entry :
      (s t : InMemoryStore) (o p : Object) (id : ObjectId) (v : Version)
      → apply_write hash s o ≡ ok t
      → IsConsistent s
      → get s id v ≡ some p
      → get t id v ≡ some p
  unfolding get
  keeps_entry s t o p id v e c h =
      let (went, forward) = apply_write_forward s t o e in
      subst (λ (u : InMemoryStore). Map.get u.objects (id, v) ≡ some p) (sym went)
        (ground
          (arith, objects-written s o id v, bytes_eq_iff o.id id, c.described id v p h, forward))

  apply_writes_keeps :
      (s t : InMemoryStore) (os : List Object) (p : Object) (id : ObjectId) (v : Version)
      → apply_writes hash s os ≡ ok t
      → IsConsistent s
      → get s id v ≡ some p
      → get t id v ≡ some p
  unfolding apply_writes
  apply_writes_keeps s t [] p id v e c h =
      subst (λ (u : InMemoryStore). get u id v ≡ some p) (ok-injective e) h
  apply_writes_keeps s t (o ∷ os) p id v e c h =
      let (s', first, rest) = bind-eq-ok (apply_write hash s o) _ e in
      apply_writes_keeps s' t os p id v rest (apply_write-IsConsistent s s' o first c)
        (keeps_entry s s' o p id v first c h)

  -- An `apply` that returns leaves the indices in agreement, and what any version of any object was
  -- before, it still is: no entry is overwritten or lost.
  pub apply-IsConsistent :
      (s t : InMemoryStore) (output : ExecutionOutput)
      → IsConsistent s
      → apply hash s output ≡ ok t
      → IsConsistent t
        × ((id : ObjectId) (v : Version) (p : Object) → get s id v ≡ some p → get t id v ≡ some p)
  unfolding apply
  apply-IsConsistent s t output c e = (
    apply_writes-IsConsistent s t output.writes e c,
    λ id v p h. apply_writes_keeps s t output.writes p id v e c h,
  )

-- In a store whose indices agree, `latest` answers with the stored object of that id that has the
-- highest version, and with nothing exactly if no version is stored.
pub latest-highest :
    (s : InMemoryStore) (id : ObjectId)
    → IsConsistent s
    → ((latest s id ≡ none) × ((v : Version) → get s id v ≡ none))
      ⊎ ((o : Object) × (latest s id ≡ some o)
          × (o.id ≡ id)
          × (get s id o.version ≡ some o)
          × ((v : Version) (p : Object) → get s id v ≡ some p → v ≤ o.version))
unfolding latest get
latest-highest s id c = elim (Option-cases (Map.get s.latest id)) [
  | inl e ↦ inl (
    rw (e, latest),
    λ v. elim (Option-cases (Map.get s.objects (id, v))) [
      | inl absent ↦ absent
      | inr (o, h) ↦ ground (arith, e, c.described id v o h)
    ],
  )
  | inr (w, e) ↦
      let (o, h) = c.stored id w e in
      let (named, versioned, _) = c.described id w o h in
      inr (
        o,
        rw (e, latest) h,
        named,
        subst (λ u. Map.get s.objects (id, u) ≡ some o) (sym versioned) h,
        λ v p k. ground (arith, e, versioned, c.described id v p k),
      )
]
