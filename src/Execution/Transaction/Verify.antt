-- ===== src/Execution/Transaction/Verify.antt =====
-- What `verify` decides.
use mathlib.Core.List.{append_assoc, map-append}
use blockchain_validator.Prelude.{
  ℕ, suc, ◌≡◌, refl, sym, ap, ◌∙◌, ◌↔◌, Bool, true, false, not, List, [], ◌∷◌, ◌++◌, map, arith,
  length, length-append, any, list_eq, nat_eq, and_parts, Distinct, DistinctAfter,
  DistinctAfter-nil, take-length, any-false_iff,
}
use blockchain_validator.Execution.Object.{ObjectId, new_id}
use blockchain_validator.Execution.Transaction.{
  Transaction, AccessMode, new_function, verify, all_enumerated, listed_before,
}

-- A function id is encoded as the object id of the same value.
pub new_function-eq-new_id : (value : ℕ) → new_function value ≡ new_id value
unfolding new_function new_id
new_function-eq-new_id value = refl

abbrev Input : Type 0
Input = ObjectId × AccessMode

abbrev pub ids : List Input → List ObjectId
ids = map (λ input. input.0)

-- The test at the index behind `seen`.
listed_before-length :
    (seen rest : List Input) (id : ObjectId)
    → listed_before (seen ++ rest) (length seen) id ≡ any (λ prior. list_eq.beq prior.0 id) seen
listed_before-length seen rest id =
    ap (any (λ prior. list_eq.beq prior.0 id)) (take-length seen rest)

length_snoc : (xs : List Input) (x : Input) → length (xs ++ (x ∷ [])) ≡ suc (length xs)
length_snoc xs x = omega (arith, length-append {0} xs (x ∷ []))

not-true : (b : Bool) → not b ≡ true → b ≡ false
not-true true h = sym h
not-true false h = refl

-- The scan from an index on, against the inputs before it.
scan_iff :
    (inputs seen rest : List Input)
    → inputs ≡ seen ++ rest
    → (all_enumerated (λ index input. not (listed_before inputs index input.0)) (length seen) rest
        ≡ true)
      ↔ DistinctAfter (ids seen) (ids rest)
scan_iff inputs seen [] e = (λ h. tt, λ h. refl)
scan_iff inputs seen (x ∷ rest) e =
    let ih = scan_iff inputs (seen ++ (x ∷ [])) rest (e ∙ sym (append_assoc seen (x ∷ []) rest)) in
    let later = rw (length_snoc seen x, map-append (λ (i : Input). i.0) seen (x ∷ [])) at ih in
    let here = any-false_iff (λ (i : Input). i.0) x.0 seen in
    (
      λ h.
          let (fresh, more) = and_parts _ _ h in
          (here.0 (sym (first seen x rest e) ∙ not-true _ fresh), later.0 more),
      λ h. rw (first seen x rest e, here.1 h.0) (later.1 h.1),
    )
  where
    first :
        (seen : List Input) (x : Input) (rest : List Input)
        → inputs ≡ seen ++ (x ∷ rest)
        → listed_before inputs (length seen) x.0 ≡ any (λ prior. list_eq.beq prior.0 x.0) seen
    first seen x rest e =
        ap (λ l. listed_before l (length seen) x.0) e ∙ listed_before-length seen (x ∷ rest) x.0

-- A transaction passes exactly if no object id stands twice among its inputs, whatever the modes.
pub verify_iff : (t : Transaction) → (verify t ≡ true) ↔ Distinct (ids t.inputs)
unfolding verify
verify_iff t =
    let scan = scan_iff t.inputs [] t.inputs refl in
    let all = DistinctAfter-nil (ids t.inputs) in (λ h. all.0 (scan.0 h), λ h. scan.1 (all.1 h))
