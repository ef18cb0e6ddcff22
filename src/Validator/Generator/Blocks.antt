-- ===== src/Validator/Generator/Blocks.antt =====
-- The blocks that the load generator ships.
use mathlib.Core.List.{append_assoc, append-nil}
use native.Mathlib.Nat.{suc-mul, mod-eq_of_lt}
use blockchain_validator.Prelude.{
  ◌≤◌, ◌%◌, ◌^◌, ◌&&◌, if◌then◌else◌, leb→le, ℕ, ◌+◌, ◌*◌, ◌<◌, ◌≡◌, refl, sym, subst, ap, ◌∙◌, inl,
  inr, Bool, true, List, [], ◌∷◌, ◌++◌, arith, length, length-append, flat_map, leb, leb→gt,
  Bool-cases, All,
}
use blockchain_validator.Execution.Object.{Bytes}
use blockchain_validator.Validator.Generator.{Shipped, send, ship_loop, ship_blocks}

abbrev pub joined : List (List Bytes) → List Bytes
joined = flat_map (λ block. block)

-- A block is not empty, and only its last transaction has it reach the size.
abbrev pub IsBlock : ℕ → ℕ → List Bytes → Type 0
IsBlock max_block_size transaction_size block =
    (0 < length block) × (length block * transaction_size < max_block_size + transaction_size)

abbrev pub but_last : List (List Bytes) → List (List Bytes)
but_last [] = []
but_last (block ∷ []) = []
but_last (block ∷ next ∷ blocks) = block ∷ but_last (next ∷ blocks)

module _ (accepts : List Bytes → Bool) where
  -- The blocks in front of the first that is refused.
  abbrev pub accepted_front : List (List Bytes) → List (List Bytes)
  accepted_front [] = []
  accepted_front (block ∷ blocks) = if accepts block then block ∷ accepted_front blocks else []

  abbrev pub all_accepted : List (List Bytes) → Bool
  all_accepted [] = true
  all_accepted (block ∷ blocks) = accepts block && all_accepted blocks

module _ (max_block_size transaction_size : ℕ) (accepts : List Bytes → Bool) where
  -- The batch as blocks, of which all but the last reach the size, and those of them that are sent.
  pub record IsShipment (batch : List Bytes) (shipped : Shipped) : Type 0 where
    pub blocks : List (List Bytes)
    pub whole : joined blocks ≡ batch
    pub bounded : All (IsBlock max_block_size transaction_size) blocks
    pub full : All (λ block. max_block_size ≤ length block * transaction_size) (but_last blocks)
    pub sent : shipped.submitted ≡ accepted_front accepts blocks
    pub complete : shipped.all_sent ≡ all_accepted accepts blocks

  full_first :
      (block : List Bytes) (blocks : List (List Bytes))
      → max_block_size ≤ length block * transaction_size
      → All (λ block. max_block_size ≤ length block * transaction_size) (but_last blocks)
      → All (λ block. max_block_size ≤ length block * transaction_size) (but_last (block ∷ blocks))
  full_first block [] b h = tt
  full_first block (next ∷ blocks) b h = (b, h)

  send-IsShipment :
      (block batch : List Bytes) (rest : Shipped)
      → IsBlock max_block_size transaction_size block
      → max_block_size ≤ length block * transaction_size
      → IsShipment batch rest
      → IsShipment (block ++ batch) (send max_block_size accepts block rest)
  send-IsShipment block batch rest b reached h = elim (Bool-cases (accepts block)) [
    | inl taken ↦ rw taken (record {
      blocks = block ∷ h.blocks;
      whole = ap (λ ts. block ++ ts) h.whole;
      bounded = (b, h.bounded);
      full = full_first block h.blocks reached h.full;
      sent = rw taken (ap (◌∷◌ block) h.sent);
      complete = rw taken h.complete;
    })
    | inr refused ↦ rw refused (record {
      blocks = block ∷ h.blocks;
      whole = ap (λ ts. block ++ ts) h.whole;
      bounded = (b, h.bounded);
      full = full_first block h.blocks reached h.full;
      sent = rw refused refl;
      complete = rw refused refl;
    })
  ]

  nothing : IsShipment [] (record { submitted = []; all_sent = true })
  nothing = record {
    blocks = [];
    whole = refl;
    bounded = tt;
    full = tt;
    sent = refl;
    complete = refl;
  }

  last-IsShipment :
      (block : List Bytes)
      → IsBlock max_block_size transaction_size block
      → IsShipment block
          (send max_block_size accepts block (record { submitted = []; all_sent = true }))
  last-IsShipment block b = elim (Bool-cases (accepts block)) [
    | inl taken ↦ rw taken (record {
      blocks = block ∷ [];
      whole = append-nil block;
      bounded = (b, tt);
      full = tt;
      sent = rw taken refl;
      complete = rw taken refl;
    })
    | inr refused ↦ rw refused (record {
      blocks = block ∷ [];
      whole = append-nil block;
      bounded = (b, tt);
      full = tt;
      sent = rw refused refl;
      complete = rw refused refl;
    })
  ]

  nothing_times : 0 * transaction_size ≡ 0
  nothing_times = omega arith

  unfolded : (n : ℕ) → (n + 1) * transaction_size ≡ n * transaction_size + transaction_size
  unfolded n = ap (λ k. k * transaction_size) (omega arith) ∙ suc-mul n transaction_size

  module _ (range : max_block_size + transaction_size ≤ 2 ^ 64) where
    ship_loop-IsShipment :
        (batch block : List Bytes)
        → length block * transaction_size < max_block_size
        → IsShipment (block ++ batch) (
            ship_loop max_block_size accepts transaction_size batch block
              (length block * transaction_size))
    unfolding ship_loop
    ship_loop-IsShipment [] [] h = nothing
    ship_loop-IsShipment [] (t ∷ ts) h =
        rw (append-nil ts) (last-IsShipment (t ∷ ts) (omega arith, omega (arith, h)))
    ship_loop-IsShipment (t ∷ ts) block h =
        let grown : (length block * transaction_size + transaction_size) % 2 ^ 64
            ≡ length (block ++ (t ∷ [])) * transaction_size =
          mod-eq_of_lt (omega (arith, h, range))
          ∙ sym (unfolded (length block))
          ∙ ap (λ n. n * transaction_size) (sym (length-append block (t ∷ []))) in
        let size : length (block ++ (t ∷ [])) * transaction_size
            ≡ length block * transaction_size + transaction_size =
          ap (λ n. n * transaction_size) (length-append block (t ∷ [])) ∙ unfolded (length block) in
        let full =
          subst (λ n. IsShipment ts (ship_loop max_block_size accepts transaction_size ts [] n))
            nothing_times (ship_loop-IsShipment ts [] (omega (arith, nothing_times, h))) in
        elim (Bool-cases (leb max_block_size (length (block ++ (t ∷ [])) * transaction_size))) [
          | inl reached ↦
              rw (grown, reached)
                (subst
                  (λ batch. IsShipment batch (
                    send max_block_size accepts (block ++ (t ∷ []))
                      (ship_loop max_block_size accepts transaction_size ts [] 0)))
                  (append_assoc block (t ∷ []) ts)
                  (send-IsShipment (block ++ (t ∷ [])) ts _
                    (omega (arith, length-append block (t ∷ [])), omega (arith, size, h))
                    (leb→le max_block_size _ reached) full))
          | inr filling ↦
              rw (grown, filling)
                (subst
                  (λ batch. IsShipment batch (
                    ship_loop max_block_size accepts transaction_size ts (block ++ (t ∷ []))
                      (length (block ++ (t ∷ [])) * transaction_size)))
                  (append_assoc block (t ∷ []) ts)
                  (ship_loop-IsShipment ts (block ++ (t ∷ [])) (leb→gt max_block_size _ filling)))
        ]

  -- Where the maximal size is not zero, and with the size of a transaction at most 2 ^ 64, a batch is
  -- cut into blocks, in order and without loss: none is empty, each but the last reaches the maximal
  -- size, and none does so without its last transaction. The blocks in front of the first that the
  -- client refuses are submitted, all of them if it refuses none, and the shipment is reported as
  -- complete exactly if it refuses none.
  pub ship_blocks-IsShipment :
      (batch : List Bytes)
      → 0 < max_block_size
      → max_block_size + transaction_size ≤ 2 ^ 64
      → IsShipment batch (ship_blocks max_block_size accepts batch transaction_size)
  unfolding ship_blocks
  ship_blocks-IsShipment batch h range =
      subst (λ n. IsShipment batch (ship_loop max_block_size accepts transaction_size batch [] n))
        nothing_times (ship_loop-IsShipment range batch [] (omega (arith, nothing_times, h)))
