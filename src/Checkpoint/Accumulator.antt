-- ===== src/Checkpoint/Accumulator.antt =====
-- The vote accumulator of crates/checkpoint/src/certifier.rs.
use blockchain_validator.Prelude.{
  ℕ, ◌+◌, ◌%◌, Bool, true, false, Option, none, some, List, [], ◌∷◌, ◌++◌, leb, any,
}
use blockchain_validator.Outcome.{Outcome, ok, panic, authority_not_found, ◌>>=◌}
use blockchain_validator.Dag.{Dag}

pub record CheckpointAccumulator (d : Dag) : Type 0 where
  pub votes : d.AuthoritySet
  pub stake : ℕ
  pub threshold : ℕ
  pub delivered_in : List d.BlockReference

module _ (d : Dag) where
  abbrev pub new_accumulator : ℕ → CheckpointAccumulator d
  new_accumulator threshold = record {
    votes = d.no_authorities;
    stake = 0;
    threshold = threshold;
    delivered_in = [];
  }

  -- Counts a vote, if the set did not hold its author.
  unfoldable pub count_vote :
      CheckpointAccumulator d
      → ℕ
      → d.BlockReference
      → d.AuthoritySet × Bool
      → CheckpointAccumulator d
  count_vote acc stake subdag (votes, false) = record acc { votes = votes }
  count_vote acc stake subdag (votes, true) = record acc {
    votes = votes;
    stake = (acc.stake + stake) % d.stake_modulus;
    delivered_in = acc.delivered_in ++ (subdag ∷ []);
  }

  abbrev expect_stake : Option ℕ → Outcome ℕ
  expect_stake none = panic authority_not_found
  expect_stake (some stake) = ok stake

  -- The Boolean result of `add` is `stake >= threshold` in the accumulator returned.
  unfoldable pub add :
      CheckpointAccumulator d
      → d.Authority
      → d.Committee
      → d.BlockReference
      → Outcome (CheckpointAccumulator d × Bool)
  unfolding count_vote
  add acc vote committee subdag = do
    stake ← expect_stake (d.get_stake committee vote)
    let acc' = count_vote acc stake subdag (d.insert acc.votes vote)
    ok (acc', leb acc'.threshold acc'.stake)

  abbrev pub voted : CheckpointAccumulator d → d.Authority → Bool
  voted acc author = any (λ voter. d.authority_eq.beq voter author) (d.present acc.votes)

  -- The accumulator that is left, and the proof that is taken out.
  unfoldable pub clear : CheckpointAccumulator d → CheckpointAccumulator d × List d.BlockReference
  clear acc = (
    record { votes = d.clear acc.votes; stake = 0; threshold = acc.threshold; delivered_in = [] },
    acc.delivered_in,
  )
