-- ===== src/Execution/Store/History.antt =====
-- The store as the history of its writes: what `latest` and the commitment say about it.
use blockchain_validator.Prelude.{
  ◌≡◌, refl, sym, subst, ◌∙◌, inl, inr, true, false, Option, none, some, List, [], ◌∷◌, ◌++◌, map,
  arith, All, Distinct, Absent, ==-cases, ◌==◌, if◌then◌else◌, nat_eq, list_eq, ltb, Option-cases,
  Bool-cases, Some, ==_refl, ap,
}
use blockchain_validator.Outcome.{
  Outcome-cases, ok, panic, version_not_forward, bind-eq-ok, ok-injective, ◌>>=◌,
}
use blockchain_validator.Map
use blockchain_validator.Execution.Object.{Bytes, ObjectId, Version, Object, Digest}
use blockchain_validator.Execution.Store.{
  InMemoryStore, latest, moves_forward, frame, written, apply_write, apply_writes,
}
use blockchain_validator.Execution.Store.Invariant.{
  apply_write_forward, latest-written, objects-written,
}

-- The last write of an id, after what the id held before.
abbrev pub last_write : ObjectId → Option Object → List Object → Option Object
last_write id before [] = before
last_write id before (o ∷ os) = last_write id (if o.id == id then some o else before) os

-- The commitment folded over the writes, oldest first.
abbrev pub chain : (Bytes → Digest) → Digest → List Object → Digest
chain hash commitment [] = commitment
chain hash commitment (o ∷ os) = chain hash (hash (frame commitment o)) os

-- What does not pass the old version does not pass a higher one.
overtaken :
    (p : Option Version) (v w : Version)
    → moves_forward p v ≡ true
    → moves_forward p w ≡ false
    → ltb v w ≡ false
overtaken none v w h k = cc
overtaken (some p) v w h k = ground arith

module _ (hash : Bytes → Digest) where
  latest-apply_write :
      (s t : InMemoryStore) (o : Object) (id : ObjectId)
      → apply_write hash s o ≡ ok t
      → latest t id ≡ (if o.id == id then some o else latest s id)
  unfolding latest
  latest-apply_write s t o id e =
      let (went, _) = apply_write_forward hash s t o e in
      subst (λ (u : InMemoryStore). latest u id ≡ (if o.id == id then some o else latest s id))
        (sym went)
        (elim (==-cases o.id id) [
          | inl (same, h) ↦
              rw (latest-written hash s o id, h, latest)
                (rw (objects-written hash s o id o.version, h, ==_refl o.version))
          | inr (other, h) ↦
              rw (latest-written hash s o id, h, latest)
                (elim (Option-cases (Map.get s.latest id)) [
                  | inl e ↦ rw (e, latest)
                  | inr (v, e) ↦ rw (e, latest) (rw (objects-written hash s o id v, h))
                ])
        ])

  -- A store that took a list of writes answers for each id with the last of them, and with what it
  -- had before where there is none. Its commitment is the hash chain over the writes in their order.
  pub apply_writes-history :
      (s t : InMemoryStore) (os : List Object)
      → apply_writes hash s os ≡ ok t
      → ((id : ObjectId) → latest t id ≡ last_write id (latest s id) os)
        × (t.commitment ≡ chain hash s.commitment os)
  unfolding apply_writes
  apply_writes-history s t [] e =
      let same = sym (ok-injective e) in
      (
        λ id. ap (λ (u : InMemoryStore). latest u id) same,
        ap (λ (u : InMemoryStore). u.commitment) same,
      )
  apply_writes-history s t (o ∷ os) e =
      let (s', first, rest) = bind-eq-ok (apply_write hash s o) _ e in
      let (ids, commitments) = apply_writes-history s' t os rest in
      let (went, _) = apply_write_forward hash s s' o first in
      (
        λ id. ids id ∙ ap (λ before. last_write id before os) (latest-apply_write s s' o id first),
        commitments ∙ ap (λ (u : InMemoryStore). chain hash u.commitment os) went,
      )

  -- One batch does what its parts do one after the other.
  pub apply_writes-append :
      (s : InMemoryStore) (os ps : List Object)
      → apply_writes hash s (os ++ ps) ≡ (apply_writes hash s os >>= λ t. apply_writes hash t ps)
  unfolding apply_writes
  apply_writes-append s [] ps = refl
  apply_writes-append s (o ∷ os) ps = elim (Outcome-cases (apply_write hash s o)) [
    | inl (s', e) ↦ rw e (apply_writes-append s' os ps)
    | inr (p, e) ↦ rw e
  ]

  -- Writes of distinct ids that each move forward from the store all go in.
  pub apply_writes-total :
      (s : InMemoryStore) (os : List Object)
      → Distinct (map (λ (o : Object). o.id) os)
      → All (λ (o : Object). moves_forward (Map.get s.latest o.id) o.version ≡ true) os
      → (t : InMemoryStore) × (apply_writes hash s os ≡ ok t)
  unfolding apply_writes apply_write
  apply_writes-total s [] d f = (s, refl)
  apply_writes-total s (o ∷ os) d f =
      let rest = apply_writes-total (written hash s o) os d.1 (stays os d.0 f.1) in
      (rest.0, rw f.0 rest.1)
    where
      stays :
          (os : List Object)
          → Absent o.id (map (λ (o : Object). o.id) os)
          → All (λ (o : Object). moves_forward (Map.get s.latest o.id) o.version ≡ true) os
          → All
              (λ (p : Object).
                moves_forward (Map.get (written hash s o).latest p.id) p.version ≡ true)
              os
      stays [] a f = tt
      stays (p ∷ os) a f = (
        elim (==-cases o.id p.id) [
          | inl (same, h) ↦ absurd (a.0 (sym same))
          | inr (other, h) ↦ rw (latest-written hash s o p.id, h) f.0
        ],
        stays os a.1 f.1,
      )

  -- One write of the list that does not move its id forward stops the list with a panic.
  pub apply_writes-stuck :
      (s : InMemoryStore) (os : List Object)
      → Some (λ (o : Object). moves_forward (Map.get s.latest o.id) o.version ≡ false) os
      → apply_writes hash s os ≡ panic version_not_forward
  unfolding apply_writes apply_write
  apply_writes-stuck s [] h = absurd h
  apply_writes-stuck s (o ∷ os) (inl h) = rw h
  apply_writes-stuck s (o ∷ os) (inr h) =
      elim (Bool-cases (moves_forward (Map.get s.latest o.id) o.version)) [
        | inr e ↦ rw e
        | inl e ↦ rw e (apply_writes-stuck (written hash s o) os (stays os h e))
      ]
    where
      stays :
          (os : List Object)
          → Some (λ (o : Object). moves_forward (Map.get s.latest o.id) o.version ≡ false) os
          → moves_forward (Map.get s.latest o.id) o.version ≡ true
          → Some
              (λ (p : Object).
                moves_forward (Map.get (written hash s o).latest p.id) p.version ≡ false)
              os
      stays [] h e = h
      stays (p ∷ os) (inr h) e = inr (stays os h e)
      stays (p ∷ os) (inl h) e = inl (elim (==-cases o.id p.id) [
        | inl (same, t) ↦
            rw (latest-written hash s o p.id, t)
              (overtaken (Map.get s.latest p.id) o.version p.version
                (subst (λ id. moves_forward (Map.get s.latest id) o.version ≡ true) same e) h)
        | inr (other, t) ↦ rw (latest-written hash s o p.id, t) h
      ])
