-- ===== src/Validator/Driver/Restart.antt =====
-- A validator that restarts from its storage.
use blockchain_validator.Prelude.{
  ℕ, ◌+◌, ◌%◌, ◌^◌, ◌≡◌, refl, sym, subst, ap, ◌∙◌, Option, some, List, [], ◌∷◌, map,
}
use blockchain_validator.Outcome.{ok, bind-eq-ok, ok-injective}
use blockchain_validator.Dag.{Dag, SubDags}
use blockchain_validator.Execution.Object.{Bytes, Digest}
use blockchain_validator.Checkpoint.Certifier.{
  CheckpointCertifier, PendingCheckpoint, pending_checkpoints,
}
use blockchain_validator.Checkpoint.Certifier.Views.{erase}
use blockchain_validator.Validator.Envelope.{Codec}
use blockchain_validator.Validator.Metrics.{ValidatorMetrics, new_metrics}
use blockchain_validator.Validator.Subdag.{ExecutionState, execute_subdag, certification_status}
use blockchain_validator.Validator.Subdag.Determinism.{Alike, execute_subdag-SameResult}
use blockchain_validator.Validator.Replay.{
  CommitData, Storage, Replayed, done, fetch, replay_blocks, replay_commits, replay,
}
use blockchain_validator.Validator.Driver.{
  Delivery, Driver, Published, deliver, drive, reattest, attestation, as_millis,
}

module _ (d : Dag) (s : SubDags d) where
  -- The storage has the blocks of a commit, and they make up the sub-dag that was delivered.
  abbrev pub IsStored : (d.BlockReference → Option s.Block) → CommitData d → Delivery d s → Type 0
  IsStored get_block commit delivery =
      (blocks : List s.Block) × (fetch d s get_block commit.sub_dag ≡ done blocks)
      × (s.committed commit.leader blocks ≡ delivery.subdag)

  abbrev pub AreStored :
      (d.BlockReference → Option s.Block) → List (CommitData d) → List (Delivery d s) → Type 0
  AreStored get_block [] [] = Unit
  AreStored get_block [] (x ∷ xs) = ⊥
  AreStored get_block (c ∷ cs) [] = ⊥
  AreStored get_block (c ∷ cs) (x ∷ xs) = IsStored get_block c x × AreStored get_block cs xs

  -- What a validator shows of its state is the same in states that differ in timings alone.
  pub pending-Alike :
      (a b : ExecutionState d)
      → Alike d a b
      → pending_checkpoints d a.certifier ≡ pending_checkpoints d b.certifier
  pending-Alike a b h =
      sym (kept a.certifier.pending)
      ∙ ap (λ (c : CheckpointCertifier d). map (λ (e : PendingCheckpoint d). e.local) c.pending)
          h.certifier
      ∙ kept b.certifier.pending
    where
      kept :
          (es : List (PendingCheckpoint d))
          → map (λ (e : PendingCheckpoint d). e.local) (map (erase d (λ c. c)) es)
            ≡ map (λ (e : PendingCheckpoint d). e.local) es
      kept [] = refl
      kept (e ∷ es) = ap (◌∷◌ e.local) (kept es)

  pub status-Alike :
      (a b : ExecutionState d) → Alike d a b → certification_status d a ≡ certification_status d b
  status-Alike a b h =
      λ i. certification_status d (record { scheduler = h.scheduler i; certifier = h.certifier i })

  module _ (hash : Bytes → Digest) (codec : Codec d) where
    abbrev pub IsReplay : Driver d → Replayed d → Type 0
    IsReplay driver replayed = (driver.count ≡ replayed.count) × Alike d driver.state replayed.state

    deliver-IsReplay :
        (get_block : d.BlockReference → Option s.Block) (commit : CommitData d) (x : Delivery d s)
        (driver : Driver d) (p : Driver d × Published d) (metrics : ValidatorMetrics)
        (replayed : Replayed d)
        → IsReplay driver replayed
        → IsStored get_block commit x
        → deliver d codec s hash driver x ≡ ok p
        → (metrics' : ValidatorMetrics) × (replayed' : Replayed d) × (replay_blocks d s hash codec
              metrics replayed commit.leader
              (fetch d s get_block commit.sub_dag)
            ≡ ok (done (metrics', replayed')))
          × IsReplay p.0 replayed'
    unfolding deliver replay_blocks
    deliver-IsReplay get_block commit x driver p metrics replayed h (blocks, fetched, same) e =
        let (r, ran, final) =
          bind-eq-ok (execute_subdag d s hash codec driver.state driver.metrics x.now x.subdag) _
            e in
        let (r', ran', alike) =
          execute_subdag-SameResult d s hash codec driver.state replayed.state driver.metrics
            metrics x.now 0 x.subdag r h.1 ran in
        let ran'' = ap (execute_subdag d s hash codec replayed.state metrics 0) same ∙ ran' in
        (
          r'.metrics,
          record { count = (replayed.count + r'.executed) % 2 ^ 64; state = r'.state },
          rw fetched (rw ran'' refl),
          subst
              (λ (p : Driver d × Published d).
                IsReplay p.0
                  (record { count = (replayed.count + r'.executed) % 2 ^ 64; state = r'.state }))
              (ok-injective final) (λ i. (h.0 i + alike.executed i) % 2 ^ 64, alike.state),
        )

    replay_commits-IsReplay :
        (get_block : d.BlockReference → Option s.Block) (commits : List (CommitData d))
        (deliveries : List (Delivery d s)) (driver driver' : Driver d)
        (published : List (Published d)) (metrics : ValidatorMetrics) (replayed : Replayed d)
        → IsReplay driver replayed
        → AreStored get_block commits deliveries
        → drive d codec s hash driver deliveries ≡ ok (driver', published)
        → (replayed' : Replayed d) × (replay_commits d s hash codec get_block commits metrics
              replayed
            ≡ ok (done replayed'))
          × IsReplay driver' replayed'
    unfolding replay_commits drive deliver replay_blocks
    replay_commits-IsReplay get_block [] [] driver driver' published metrics replayed h stored e = (
      replayed,
      refl,
      subst (λ (p : Driver d × List (Published d)). IsReplay p.0 replayed) (ok-injective e) h,
    )
    replay_commits-IsReplay get_block [] (x ∷ xs) driver driver' published metrics replayed h stored
          e =
        absurd stored
    replay_commits-IsReplay get_block (c ∷ cs) [] driver driver' published metrics replayed h stored
          e =
        absurd stored
    replay_commits-IsReplay get_block (c ∷ cs) (x ∷ xs) driver driver' published metrics replayed h
          stored e =
        let (p, first, rest) = bind-eq-ok (deliver d codec s hash driver x) _ e in
        let (q, second, final) = bind-eq-ok (drive d codec s hash p.0 xs) _ rest in
        let (m, replayed₁, one, h₁) =
          deliver-IsReplay get_block c x driver p metrics replayed h stored.0 first in
        let (replayed', others, h') =
          replay_commits-IsReplay get_block cs xs p.0 q.0 q.1 m replayed₁ h₁ stored.1 second in
        (
          replayed',
          rw one others,
          subst (λ (p : Driver d × List (Published d)). IsReplay p.0 replayed') (ok-injective final)
              h',
        )

    pub replay-IsReplay :
        (storage : Storage d s) (state : ExecutionState d) (metrics : ValidatorMetrics)
        (deliveries : List (Delivery d s)) (driver : Driver d) (published : List (Published d))
        → AreStored storage.get_block storage.commits deliveries
        → drive d codec s hash (record { state = state; metrics = metrics; count = 0 }) deliveries
          ≡ ok (driver, published)
        → (replayed : Replayed d) × (replay d s hash codec (some (some storage)) state
            ≡ ok (done replayed))
          × IsReplay driver replayed
    unfolding replay
    replay-IsReplay storage state metrics deliveries driver published stored e =
        replay_commits-IsReplay storage.get_block storage.commits deliveries
          (record { state = state; metrics = metrics; count = 0 }) driver published new_metrics
          (record { count = 0; state = state })
          (refl, record { scheduler = refl; certifier = refl }) stored e

    -- A validator that ran from some state over the sub-dags that were delivered, and restarts there over
    -- a storage that has these sub-dags, comes back from replay with the count that it had, the same
    -- scheduler, store and engine, the same certification status, and the same checkpoints pending,
    -- to which it attests again.
    pub replay-restores :
        (storage : Storage d s) (state : ExecutionState d) (metrics : ValidatorMetrics)
        (deliveries : List (Delivery d s)) (driver : Driver d) (published : List (Published d))
        (now : ℕ)
        → AreStored storage.get_block storage.commits deliveries
        → drive d codec s hash (record { state = state; metrics = metrics; count = 0 }) deliveries
          ≡ ok (driver, published)
        → (replayed : Replayed d) × (replay d s hash codec (some (some storage)) state
            ≡ ok (done replayed))
          × (replayed.count ≡ driver.count)
          × (replayed.state.scheduler ≡ driver.state.scheduler)
          × (certification_status d replayed.state ≡ certification_status d driver.state)
          × (reattest d codec now replayed.state
              ≡ map
                  (attestation d codec (as_millis now))
                  (pending_checkpoints d driver.state.certifier))
    unfolding reattest
    replay-restores storage state metrics deliveries driver published now stored e =
        let (replayed, back, restored) =
          replay-IsReplay storage state metrics deliveries driver published stored e in
        (
          replayed,
          back,
          sym restored.0,
          sym restored.1.scheduler,
          sym (status-Alike driver.state replayed.state restored.1),
          ap (map (attestation d codec (as_millis now)))
              (sym (pending-Alike driver.state replayed.state restored.1)),
        )
