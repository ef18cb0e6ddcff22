-- ===== src/Checkpoint/Certifier/Quorum.antt =====
-- Two quorums of distinct authorities overlap.
use blockchain_validator.Prelude.{
  ◌⊎◌, refl, ℕ, ◌+◌, ◌≤◌, ◌≡◌, ◌≢◌, sym, ap, ◌∙◌, inl, inr, List, [], ◌∷◌, map, arith, All, Absent,
  Distinct, Some, ==-cases, list_eq, nat_eq,
}
use blockchain_validator.Dag.{Dag}
use blockchain_validator.Checkpoint.Certifier.Tally.{Ballot, stake_of}

module _ (d : Dag) (committee : d.Committee) where
  -- The stake of a list of authorities.
  abbrev pub total : List d.Authority → ℕ
  total [] = 0
  total (a ∷ rest) = stake_of d committee a + total rest

  abbrev pub Among : List d.Authority → d.Authority → Type 0
  Among members a = Some (λ m. m ≡ a) members

  abbrev pub authors : List (Ballot d) → List d.Authority
  authors = map (λ b. b.author)

  -- A member taken out of the list.
  record Without (a : d.Authority) (members : List d.Authority) : Type 0 where
    others : List d.Authority
    stake : total members ≡ stake_of d committee a + total others
    kept : (b : d.Authority) → a ≢ b → Among members b → Among others b

  take_out : (a : d.Authority) (members : List d.Authority) → Among members a → Without a members
  take_out a [] h = absurd h
  take_out a (m ∷ ms) (inl same) = record {
    others = ms;
    stake = ap (λ x. stake_of d committee x + total ms) same;
    kept = λ b other h. elim h [ inl here ↦ absurd (other (sym same ∙ here)) | inr later ↦ later ];
  }
  take_out a (m ∷ ms) (inr later) =
      let w = take_out a ms later in
      record {
        others = m ∷ w.others;
        stake = omega (arith, w.stake);
        kept = λ b other h. elim h [ inl here ↦ inl here | inr there ↦ inr (w.kept b other there) ];
      }

  -- An authority of the list, or one without stake.
  abbrev pub IsCovered : List d.Authority → d.Authority → Type 0
  IsCovered members a = Among members a ⊎ (stake_of d committee a ≡ 0)

  still-IsCovered :
      (a : d.Authority) (members others as' : List d.Authority)
      → ((b : d.Authority) → a ≢ b → Among members b → Among others b)
      → Absent a as'
      → All (IsCovered members) as'
      → All (IsCovered others) as'
  still-IsCovered a members others [] kept absent h = tt
  still-IsCovered a members others (b ∷ bs) kept absent h = (
    elim h.0 [ inl here ↦ inl (kept b (λ e. absent.0 (sym e)) here) | inr nothing ↦ inr nothing ],
    still-IsCovered a members others bs kept absent.1 h.1,
  )

  -- Distinct authorities have no more stake than the members that cover them.
  total-bounded :
      (as' members : List d.Authority)
      → Distinct as'
      → All (IsCovered members) as'
      → total as' ≤ total members
  total-bounded [] members distinct h = omega arith
  total-bounded (a ∷ rest) members distinct h = elim h.0 [
    | inr nothing ↦ omega (arith, nothing, total-bounded rest members distinct.1 h.1)
    | inl here ↦
        let w = take_out a members here in
        omega (
          arith,
          w.stake,
          total-bounded rest w.others distinct.1
              (still-IsCovered a members w.others rest w.kept distinct.0 h.1),
        )
  ]

  -- Authorities that are in two lists, and their stake.
  pub record Overlap (members as' bs : List d.Authority) : Type 0 where
    pub common : List d.Authority
    pub distinct : Distinct common
    pub in_first : All (Among as') common
    pub in_second : All (Among bs) common
    pub stake : total as' + total bs ≤ total members + total common

  member_cases : (a : d.Authority) (bs : List d.Authority) → Among bs a ⊎ Absent a bs
  member_cases a [] = inr tt
  member_cases a (b ∷ bs) = elim (==-cases ⦃e = d.authority_eq⦄ b a) [
    | inl (same, _) ↦ inl (inl same)
    | inr (other, _) ↦ elim (member_cases a bs) [
      | inl later ↦ inl (inr later)
      | inr absent ↦ inr (other, absent)
    ]
  ]

  Absent-from : (a x : d.Authority) (as' : List d.Authority) → Absent a as' → Among as' x → x ≢ a
  Absent-from a x [] absent h = absurd h
  Absent-from a x (y ∷ ys) absent (inl same) = λ e. absent.0 (same ∙ e)
  Absent-from a x (y ∷ ys) absent (inr later) = Absent-from a x ys absent.1 later

  all-Absent :
      (a : d.Authority) (as' xs : List d.Authority)
      → Absent a as'
      → All (Among as') xs
      → Absent a xs
  all-Absent a as' [] absent h = tt
  all-Absent a as' (x ∷ xs) absent h =
      (Absent-from a x as' absent h.0, all-Absent a as' xs absent h.1)

  all-Among :
      (a : d.Authority) (as' xs : List d.Authority) → All (Among as') xs → All (Among (a ∷ as')) xs
  all-Among a as' [] h = tt
  all-Among a as' (x ∷ xs) h = (inr h.0, all-Among a as' xs h.1)

  -- Two lists of distinct authorities overlap in the stake that they have beyond that of all members.
  pub overlap :
      (members as' bs : List d.Authority)
      → Distinct as'
      → Distinct bs
      → All (IsCovered members) as'
      → All (IsCovered members) bs
      → Overlap members as' bs
  overlap members [] bs da db ca cb = record {
    common = [];
    distinct = tt;
    in_first = tt;
    in_second = tt;
    stake = omega (arith, total-bounded bs members db cb);
  }
  overlap members (a ∷ rest) bs da db ca cb = elim (member_cases a bs) [
    | inl shared ↦
        let o = overlap members rest bs da.1 db ca.1 cb in
        record {
          common = a ∷ o.common;
          distinct = (all-Absent a rest o.common da.0 o.in_first, o.distinct);
          in_first = (inl refl, all-Among a rest o.common o.in_first);
          in_second = (shared, o.in_second);
          stake = omega (arith, o.stake);
        }
    | inr absent ↦ elim ca.0 [
      | inr nothing ↦
          let o = overlap members rest bs da.1 db ca.1 cb in
          record {
            common = o.common;
            distinct = o.distinct;
            in_first = all-Among a rest o.common o.in_first;
            in_second = o.in_second;
            stake = omega (arith, nothing, o.stake);
          }
      | inl here ↦
          let w = take_out a members here in
          let o =
            overlap w.others rest bs da.1 db
              (still-IsCovered a members w.others rest w.kept da.0 ca.1)
              (still-IsCovered a members w.others bs w.kept absent cb) in
          record {
            common = o.common;
            distinct = o.distinct;
            in_first = all-Among a rest o.common o.in_first;
            in_second = o.in_second;
            stake = omega (arith, w.stake, o.stake);
          }
    ]
  ]
