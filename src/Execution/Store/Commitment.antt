-- ===== src/Execution/Store/Commitment.antt =====
-- The commitment binds the whole write history, as far as the hash has no collision.
use mathlib.Core.List.{reverse, reverse-cons, reverse-reverse}
use native.Mathlib.Nat.{pow-suc}
use blockchain_validator.Prelude.{
  ℕ, zero, suc, ◌/◌, ◌%◌, ◌^◌, ◌<◌, ◌≡◌, ◌≢◌, refl, sym, ap, ◌∙◌, ◌⊎◌, inl, inr, List, [], ◌∷◌,
  ◌++◌, arith, length, length-append, All, All-append, ==-cases, nat_eq, list_eq,
}
use blockchain_validator.Execution.Object.{
  Bytes, IsU64, Digest, default_digest, Object, to_be_bytes,
}
use blockchain_validator.Execution.Store.{frame}
use blockchain_validator.Execution.Store.History.{chain}

length-to_be_bytes : (n v : ℕ) → length (to_be_bytes n v) ≡ n
unfolding to_be_bytes
length-to_be_bytes zero v = refl
length-to_be_bytes (suc n) v = omega (
  arith,
  length-append {0} (to_be_bytes n (v / 256)) ((v % 256) ∷ []),
  length-to_be_bytes n (v / 256),
)

-- Two concatenations with front parts of one length agree part by part.
pub append-injective {ℓ} :
    {A : Type ℓ} (xs ys : List A) {us vs : List A}
    → length xs ≡ length ys
    → xs ++ us ≡ ys ++ vs
    → (xs ≡ ys) × (us ≡ vs)
append-injective [] [] h e = (refl, e)
append-injective [] (y ∷ ys) h e = absurd (omega arith)
append-injective (x ∷ xs) [] h e = absurd (omega arith)
append-injective (x ∷ xs) (y ∷ ys) {us = us} {vs = vs} h e =
    let behind : xs ++ us ≡ ys ++ vs = cc in
    let (tails, rest) = append-injective xs ys (omega arith) behind in
    let first : x ≡ y = cc e in (λ i. first i ∷ tails i, rest)

pub to_be_bytes-injective :
    (n v w : ℕ) → v < 256 ^ n → w < 256 ^ n → to_be_bytes n v ≡ to_be_bytes n w → v ≡ w
unfolding to_be_bytes
to_be_bytes-injective zero v w hv hw e = omega arith
to_be_bytes-injective (suc n) v w hv hw e =
    let (high, low) =
      append-injective (to_be_bytes n (v / 256)) (to_be_bytes n (w / 256))
        (length-to_be_bytes n (v / 256) ∙ sym (length-to_be_bytes n (w / 256))) e in
    let same = to_be_bytes-injective n (v / 256) (w / 256) (below v hv) (below w hw) high in
    let last : v % 256 ≡ w % 256 = cc in omega arith
  where
    below : (v : ℕ) → v < 256 ^ suc n → v / 256 < 256 ^ n
    below v h = omega (arith, pow-suc 256 n)

-- What the types of the code say of a write: the id is an array of 32 bytes, the version a u64.
pub record IsWrite (o : Object) : Type 0 where
  pub id_size : length o.id ≡ 32
  pub version_range : IsU64 o.version

-- The fields can be read back from what the hasher is fed: only the last one has no fixed length.
pub frame-injective :
    (c d : Digest) (o p : Object)
    → length c ≡ 32
    → length d ≡ 32
    → IsWrite o
    → IsWrite p
    → frame c o ≡ frame d p
    → (c ≡ d) × (o ≡ p)
unfolding frame
frame-injective c d o p hc hd ho hp e =
    let (commitments, rest) = append-injective c d (hc ∙ sym hd) e in
    let (ids, rest') = append-injective o.id p.id (ho.id_size ∙ sym hp.id_size) rest in
    let (versions, contents) =
      append-injective (to_be_bytes 8 o.version) (to_be_bytes 8 p.version)
        (length-to_be_bytes 8 o.version ∙ sym (length-to_be_bytes 8 p.version)) rest' in
    let version =
      to_be_bytes-injective 8 o.version p.version ho.version_range hp.version_range versions in
    (commitments, λ i. record { id = ids i; version = version i; contents = contents i })

-- Two inputs of one hash value.
abbrev pub Collision : (Bytes → Digest) → Type 0
Collision hash = (x : Bytes) × (y : Bytes) × (x ≢ y) × (hash x ≡ hash y)

-- An input that hashes to the zero digest of the empty store.
abbrev pub ZeroPreimage : (Bytes → Digest) → Type 0
ZeroPreimage hash = (x : Bytes) × (hash x ≡ default_digest)

module _ (hash : Bytes → Digest) (size : (x : Bytes) → length (hash x) ≡ 32) where
  chain-snoc :
      (c : Digest) (os : List Object) (o : Object)
      → chain hash c (os ++ (o ∷ [])) ≡ hash (frame (chain hash c os) o)
  chain-snoc c [] o = refl
  chain-snoc c (p ∷ os) o = chain-snoc (hash (frame c p)) os o

  length-chain : (os : List Object) (c : Digest) → length c ≡ 32 → length (chain hash c os) ≡ 32
  length-chain [] c h = h
  length-chain (o ∷ os) c h = length-chain os (hash (frame c o)) (size _)

  -- The chain over writes that are listed newest first.
  back : List Object → Digest
  back newest = chain hash default_digest (reverse newest)

  back-cons : (o : Object) (older : List Object) → back (o ∷ older) ≡ hash (frame (back older) o)
  unfolding back
  back-cons o older =
      ap (chain hash default_digest) (reverse-cons o older)
      ∙ chain-snoc default_digest (reverse older) o

  length-back : (newest : List Object) → length (back newest) ≡ 32
  unfolding back
  length-back newest = length-chain (reverse newest) default_digest refl

  back-injective :
      (os ps : List Object)
      → All IsWrite os
      → All IsWrite ps
      → back os ≡ back ps
      → (os ≡ ps) ⊎ (Collision hash ⊎ ZeroPreimage hash)
  back-injective [] [] ho hp e = inl refl
  back-injective [] (p ∷ ps) ho hp e =
      inr (inr (frame (back ps) p, sym (back-cons p ps) ∙ sym e ∙ unfold back in refl))
  back-injective (o ∷ os) [] ho hp e =
      inr (inr (frame (back os) o, sym (back-cons o os) ∙ e ∙ unfold back in refl))
  back-injective (o ∷ os) (p ∷ ps) ho hp e =
      elim (==-cases (frame (back os) o) (frame (back ps) p)) [
        | inl (same, _) ↦
            let (older, newest) =
              frame-injective (back os) (back ps) o p (length-back os) (length-back ps) ho.0 hp.0
                same in
            elim (back-injective os ps ho.1 hp.1 older) [
              | inl h ↦ inl (λ i. newest i ∷ h i)
              | inr h ↦ inr h
            ]
        | inr (other, _) ↦ inr (
            inl (
              frame (back os) o,
              frame (back ps) p,
              other,
              sym (back-cons o os) ∙ e ∙ back-cons p ps,
            ))
      ]

All-reverse {ℓ κ} : {A : Type ℓ} (P : A → Type κ) (xs : List A) → All P xs → All P (reverse xs)
All-reverse P [] h = tt
All-reverse P (x ∷ xs) h =
    rw (reverse-cons x xs)
      ((All-append P (reverse xs) (x ∷ [])).1 (All-reverse P xs h.1, (h.0, tt)))

-- Under a hash of 32 bytes, and for ids of 32 bytes and versions that are u64, two write histories
-- of a fresh store with one commitment are the same, write for write and in the
-- same order, or they show a collision of the hash or an input that hashes to the zero digest.
pub chain-injective :
    (hash : Bytes → Digest)
    → ((x : Bytes) → length (hash x) ≡ 32)
    → (os ps : List Object) → All IsWrite os
    → All IsWrite ps
    → chain hash default_digest os ≡ chain hash default_digest ps
    → (os ≡ ps) ⊎ (Collision hash ⊎ ZeroPreimage hash)
unfolding back
chain-injective hash size os ps ho hp e =
    elim (back-injective hash size (reverse os) (reverse ps) (All-reverse IsWrite os ho)
      (All-reverse IsWrite ps hp)
      (ap (chain hash default_digest) (reverse-reverse os)
        ∙ e
        ∙ ap (chain hash default_digest) (sym (reverse-reverse ps)))) [
          | inl h ↦ inl (sym (reverse-reverse os) ∙ ap reverse h ∙ reverse-reverse ps)
          | inr h ↦ inr h
        ]
