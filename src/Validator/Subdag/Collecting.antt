-- ===== src/Validator/Subdag/Collecting.antt =====
-- What the pass over the payloads of a sub-dag collects.
use mathlib.Core.List.{append-nil, append_assoc}
use native.Mathlib.Nat.{mod-add-mod}
use blockchain_validator.Prelude.{
  ℕ, ◌+◌, ◌%◌, ◌^◌, ◌≡◌, refl, sym, ap, ◌∙◌, Option, none, some, List, [], ◌∷◌, ◌++◌, map, flat_map,
  arith,
}
use blockchain_validator.Dag.{Dag}
use blockchain_validator.Execution.Object.{Bytes, IsU64}
use blockchain_validator.Execution.Transaction.{Transaction}
use blockchain_validator.Checkpoint.Types.{Checkpoint}
use blockchain_validator.Validator.Envelope.{Payload, execute, attest, Envelope, Codec, from_bytes}
use blockchain_validator.Validator.Subdag.{
  Collected, nothing_collected, dispatch, collect_one, collect,
}

module _ (d : Dag) where
  abbrev Payloads : Type 0
  Payloads = List (d.Authority × Bytes)

  -- The transaction that a payload carries, with its timestamp.
  abbrev carried : ℕ → Payload d → List (Transaction × ℕ)
  carried stamp (execute t) = (t, stamp) ∷ []
  carried stamp (attest v) = []

  abbrev executable : Option (Envelope d) → List (Transaction × ℕ)
  executable none = []
  executable (some e) = carried e.timestamp_ms e.payload

  -- The vote that a payload carries, with the author of the block.
  abbrev cast : d.Authority → Payload d → List (d.Authority × Checkpoint d)
  cast author (execute t) = []
  cast author (attest v) = (author, v) ∷ []

  abbrev ballot : d.Authority → Option (Envelope d) → List (d.Authority × Checkpoint d)
  ballot author none = []
  ballot author (some e) = cast author e.payload

  abbrev pub total : List (Transaction × ℕ) → ℕ
  total [] = 0
  total ((t, stamp) ∷ rest) = stamp + total rest

  module _ (codec : Codec d) where
    abbrev pub executables : Payloads → List (Transaction × ℕ)
    executables = flat_map (λ p. executable (from_bytes d codec p.1))

    abbrev pub ballots : Payloads → List (d.Authority × Checkpoint d)
    ballots = flat_map (λ p. ballot p.0 (from_bytes d codec p.1))

    abbrev describe :
        Collected d → List (Transaction × ℕ) → List (d.Authority × Checkpoint d) → Collected d
    describe acc ts vs = record {
      transactions = acc.transactions ++ map (λ p. p.0) ts;
      votes = acc.votes ++ vs;
      stamp_sum_ms = (acc.stamp_sum_ms + total ts) % 2 ^ 64;
    }

    -- The fields of what is collected, one by one.
    same_collected :
        {ts ts' : List Transaction} {vs vs' : List (d.Authority × Checkpoint d)} {n n' : ℕ}
        → ts ≡ ts'
        → vs ≡ vs'
        → n ≡ n'
        → ◌≡◌ {A = Collected d}
            (record { transactions = ts; votes = vs; stamp_sum_ms = n })
            (record { transactions = ts'; votes = vs'; stamp_sum_ms = n' })
    same_collected e f g = λ i. record { transactions = e i; votes = f i; stamp_sum_ms = g i }

    describe-dispatch :
        (acc : Collected d) (author : d.Authority) (stamp : ℕ) (p : Payload d)
        (ts : List (Transaction × ℕ)) (vs : List (d.Authority × Checkpoint d))
        → describe (dispatch d acc author stamp p) ts vs
          ≡ describe acc (carried stamp p ++ ts) (cast author p ++ vs)
    describe-dispatch acc author stamp (execute t) ts vs =
        same_collected (append_assoc acc.transactions (t ∷ []) (map (λ p. p.0) ts)) refl (
          mod-add-mod (acc.stamp_sum_ms + stamp) (2 ^ 64) (total ts)
          ∙ ap (λ n. n % 2 ^ 64) (omega arith))
    describe-dispatch acc author stamp (attest v) ts vs =
        same_collected refl (append_assoc acc.votes ((author, v) ∷ []) vs) refl

    describe-collect_one :
        (acc : Collected d) (author : d.Authority) (o : Option (Envelope d))
        (ts : List (Transaction × ℕ)) (vs : List (d.Authority × Checkpoint d))
        → describe (collect_one d acc author o) ts vs
          ≡ describe acc (executable o ++ ts) (ballot author o ++ vs)
    describe-collect_one acc author none ts vs = refl
    describe-collect_one acc author (some e) ts vs =
        describe-dispatch acc author e.timestamp_ms e.payload ts vs

    -- The pass collects the transactions, the votes with the authors of their blocks, and the sum of
    -- the timestamps of the transactions alone.
    collect_lem :
        (acc : Collected d) (ps : Payloads)
        → describe (collect d codec acc ps) [] [] ≡ describe acc (executables ps) (ballots ps)
    unfolding collect
    collect_lem acc [] = refl
    collect_lem acc ((author, bytes) ∷ ps) =
        collect_lem (collect_one d acc author (from_bytes d codec bytes)) ps
        ∙ describe-collect_one acc author (from_bytes d codec bytes) (executables ps) (ballots ps)

    collect-IsU64 :
        (acc : Collected d) (ps : Payloads)
        → IsU64 acc.stamp_sum_ms
        → IsU64 (collect d codec acc ps).stamp_sum_ms
    unfolding collect
    collect-IsU64 acc [] h = h
    collect-IsU64 acc ((author, bytes) ∷ ps) h =
        collect-IsU64 (collect_one d acc author (from_bytes d codec bytes)) ps
          (collect_one-IsU64 (from_bytes d codec bytes))
      where
        dispatch-IsU64 :
            (stamp : ℕ) (p : Payload d) → IsU64 (dispatch d acc author stamp p).stamp_sum_ms
        dispatch-IsU64 stamp (execute t) = omega arith
        dispatch-IsU64 stamp (attest v) = h

        collect_one-IsU64 :
            (o : Option (Envelope d)) → IsU64 (collect_one d acc author o).stamp_sum_ms
        collect_one-IsU64 none = h
        collect_one-IsU64 (some e) = dispatch-IsU64 e.timestamp_ms e.payload

    pub collect-described :
        (ps : Payloads)
        → collect d codec (nothing_collected d) ps ≡ record {
          transactions = map (λ p. p.0) (executables ps);
          votes = ballots ps;
          stamp_sum_ms = total (executables ps) % 2 ^ 64;
        }
    collect-described ps =
        let all = collect_lem (nothing_collected d) ps in
        same_collected (sym (append-nil _) ∙ ap (λ (c : Collected d). c.transactions) all)
          (sym (append-nil _) ∙ ap (λ (c : Collected d). c.votes) all)
          (omega (
            arith,
            ap (λ (c : Collected d). c.stamp_sum_ms) all,
            collect-IsU64 (nothing_collected d) ps (omega arith),
          ))
