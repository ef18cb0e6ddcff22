-- ===== src/Validator/Generator/Ids.antt =====
-- The object ids that the load generator creates.
use native.Mathlib.Nat.{
  mul_comm, mul_assoc, mul_right_comm, add-mul, suc-mul, mul-suc, pow-suc, add-zero,
}
use blockchain_validator.Prelude.{
  ℕ, zero, suc, ◌+◌, ◌-◌, ◌*◌, ◌/◌, ◌%◌, ◌^◌, ◌≤◌, ◌<◌, ◌≡◌, ◌≢◌, ◌⊎◌, refl, sym, subst, ap, ◌∙◌,
  inl, inr, arith, Absent, Distinct, replicate,
}
use blockchain_validator.Execution.Object.{ObjectId, new_id}
use blockchain_validator.Execution.Store.Commitment.{append-injective, to_be_bytes-injective}
use blockchain_validator.Validator.Generator.{
  Stream, advance_stream, shifted, object_number, next_id,
}
use blockchain_validator.Validator.Generator.Payloads.{ids}

odd_times : (o x : ℕ) → o % 2 ≡ 1 → o * x ≡ x + (o / 2 * x) * 2
odd_times o x h =
    let split : o ≡ 1 + o / 2 * 2 = omega arith in
    ap (λ k. k * x) split ∙ add-mul 1 (o / 2 * 2) x ∙ omega (arith, mul_right_comm (o / 2) 2 x)

-- An odd factor does not count for the powers of two that divide a product.
odd_divides : (m o x q : ℕ) → o % 2 ≡ 1 → o * x ≡ q * 2 ^ m → (y : ℕ) × (x ≡ y * 2 ^ m)
odd_divides zero o x q h e = (x, omega arith)
odd_divides (suc m) o x q h e =
    let doubled : o * x ≡ q * 2 ^ m * 2 =
      e ∙ ap (λ k. q * k) (pow-suc 2 m) ∙ sym (mul_assoc q (2 ^ m) 2) in
    let even : x ≡ x / 2 * 2 = omega (arith, odd_times o x h, doubled) in
    let halved : o * (x / 2) ≡ q * 2 ^ m =
      omega (arith, mul_assoc o (x / 2) 2, ap (λ k. o * k) even, doubled) in
    let (y, f) = odd_divides m o (x / 2) q h halved in
    (y, even ∙ ap (λ k. k * 2) f ∙ mul_assoc y (2 ^ m) 2 ∙ ap (λ k. y * k) (sym (pow-suc 2 m)))

-- The sum of the numbers below one.
abbrev tri : ℕ → ℕ
tri zero = 0
tri (suc k) = tri k + k

tri-add : (l a : ℕ) → tri (l + a) * 2 + a ≡ tri l * 2 + a * (a + l * 2)
tri-add l zero = omega (arith, ap tri (add-zero l))
tri-add l (suc a) =
    let product : suc a * (suc a + l * 2) ≡ a * (a + l * 2) + a + suc (a + l * 2) =
      ap (λ n. suc a * n) (omega arith)
      ∙ suc-mul a (suc (a + l * 2))
      ∙ ap (λ n. n + suc (a + l * 2)) (mul-suc a (a + l * 2)) in
    let unfolded : tri (l + suc a) ≡ tri (l + a) + (l + a) =
      ap tri {x = l + suc a} {y = suc (l + a)} (omega arith) in
    omega (arith, tri-add l a, product, unfolded)

new_id-injective : (v w : ℕ) → v < 2 ^ 64 → w < 2 ^ 64 → new_id v ≡ new_id w → v ≡ w
unfolding new_id
new_id-injective v w hv hw e =
    to_be_bytes-injective 8 v w hv hw (append-injective (replicate 24 0) (replicate 24 0) refl e).1

object_number-IsU64 : (namespace random : ℕ) → object_number namespace random < 2 ^ 64
unfolding object_number
object_number-IsU64 namespace random = omega arith

-- Generators of distinct authorities below 256 never create the same object. Above, the shift loses
-- bits of the authority.
pub namespaces_disjoint :
    (a b : ℕ) (s t : Stream) → a < 256 → b < 256 → a ≢ b → next_id a s ≢ next_id b t
unfolding next_id object_number
namespaces_disjoint a b s t ha hb other e = other (
    omega (
      arith,
      new_id-injective _ _ (object_number-IsU64 a (advance_stream s).random)
          (object_number-IsU64 b (advance_stream t).random) e,
    ))

tri-apart : (l a y : ℕ) → 0 < l → l + suc a ≤ 2 ^ 56 → suc a * (a + l * 2) ≡ y * 2 ^ 57 → ⊥
tri-apart l a q hl hk e = elim (parity (suc a)) [
  | inl odd ↦ let (y, f) = odd_divides 57 (suc a) (a + l * 2) q odd e in omega (arith, f)
  | inr even ↦
      let (y, f) =
        odd_divides 57 (a + l * 2) (suc a) q (omega (arith, even))
          (mul_comm (a + l * 2) (suc a) ∙ e) in
      omega (arith, f)
]
  where
    parity : (n : ℕ) → (n % 2 ≡ 1) ⊎ (n % 2 ≡ 0)
    parity n = ground arith

-- The random parts after `k` and after fewer steps differ, up to 2 ^ 56 steps.
random_parts_differ :
    (r l a : ℕ) → 0 < l → l + suc a ≤ 2 ^ 56 → (r + tri (l + suc a)) % 2 ^ 56 ≢ (r + tri l) % 2 ^ 56
random_parts_differ r l a hl hk e =
    tri-apart l a q hl hk (omega (arith, tri-add l (suc a), distance, product))
  where
    q : ℕ
    q = (r + tri (l + suc a)) / 2 ^ 56 - (r + tri l) / 2 ^ 56

    product : suc a * (suc a + l * 2) ≡ suc a * (a + l * 2) + suc a
    product = ap (λ n. suc a * n) (omega arith) ∙ mul-suc (suc a) (a + l * 2)

    distance : tri (l + suc a) ≡ tri l + q * 2 ^ 56
    distance = omega (arith, e, tri-add l (suc a), product)

module _ (namespace r : ℕ) where
  -- The id after `k` steps.
  numbered : ℕ → ObjectId
  numbered k = new_id (shifted namespace + (r + tri k) % 2 ^ 56)

  -- The stream after `c` steps, as far as ids depend on it.
  record IsAt (c : ℕ) (s : Stream) : Type 0 where
    counter : s.counter ≡ c
    random : s.random % 2 ^ 56 ≡ (r + tri c) % 2 ^ 56

  advance-IsAt : (c : ℕ) (s : Stream) → suc c < 2 ^ 64 → IsAt c s → IsAt (suc c) (advance_stream s)
  advance-IsAt c s h at = record {
    counter = omega (arith, at.counter, h);
    random = omega (arith, at.random, at.counter);
  }

  next_id-numbered :
      (c : ℕ) (s : Stream) → suc c < 2 ^ 64 → IsAt c s → next_id namespace s ≡ numbered (suc c)
  unfolding next_id object_number numbered
  next_id-numbered c s h at =
      ap (λ n. new_id (shifted namespace + n)) (advance-IsAt c s h at).random

  numbered-apart : (l a : ℕ) → 0 < l → l + suc a ≤ 2 ^ 56 → numbered (l + suc a) ≢ numbered l
  unfolding numbered
  numbered-apart l a hl hk e =
      random_parts_differ r l a hl hk
        (omega (arith, new_id-injective _ _ (omega arith) (omega arith) e))

  ids-Absent :
      (n c l : ℕ) (s : Stream)
      → IsAt c s
      → 0 < l
      → l ≤ c
      → c + n ≤ 2 ^ 56
      → Absent (numbered l) (ids n namespace s)
  unfolding ids
  ids-Absent zero c l s at hl hc hn = tt
  ids-Absent (suc n) c l s at hl hc hn =
      let gap : suc c ≡ l + suc (c - l) = omega (arith, hc) in
      (
        λ e.
            numbered-apart l (c - l) hl (omega (arith, gap, hn))
              (ap numbered (sym gap) ∙ sym (next_id-numbered c s (omega (arith, hn)) at) ∙ e),
        ids-Absent n (suc c) l (advance_stream s) (advance-IsAt c s (omega (arith, hn)) at) hl
            (omega (arith, hc)) (omega (arith, hn)),
      )

  ids-Distinct_from :
      (n c : ℕ) (s : Stream) → IsAt c s → c + n ≤ 2 ^ 56 → Distinct (ids n namespace s)
  unfolding ids
  ids-Distinct_from zero c s at hn = tt
  ids-Distinct_from (suc n) c s at hn =
      let next = advance-IsAt c s (omega (arith, hn)) at in
      (
        subst (λ id. Absent id (ids n namespace (advance_stream s)))
            (sym (next_id-numbered c s (omega (arith, hn)) at))
            (ids-Absent n (suc c) (suc c) (advance_stream s) next (omega arith) (omega arith)
              (omega (arith, hn))),
        ids-Distinct_from n (suc c) (advance_stream s) next (omega (arith, hn)),
      )

-- A generator creates no object twice in its first 2 ^ 56 transactions, whatever its seed.
pub ids-Distinct :
    (namespace r n : ℕ)
    → n ≤ 2 ^ 56
    → Distinct (ids n namespace (record { counter = 0; random = r }))
ids-Distinct namespace r n h =
    ids-Distinct_from namespace r n 0 (record { counter = 0; random = r })
      (record { counter = refl; random = omega arith }) (omega (arith, h))
