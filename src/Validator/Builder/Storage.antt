-- ===== src/Validator/Builder/Storage.antt =====
-- The builder keeps its own idea of the storage in step with the replica's.
use blockchain_validator.Prelude.{◌≡◌, sym, ap, ◌∙◌, Option, none, some, List, [], ◌∷◌, ℕ}
use blockchain_validator.Dag.{Dag}
use blockchain_validator.Execution.Engine.{ExecutionEngine}
use blockchain_validator.Validator.Builder.{
  ReplicaCrate, ValidatorBuilder, new_builder, Setting, registry, storage, network, metrics,
  crypto_disabled, set_option, set_options, Validator, build, build_with,
}

-- What the replica crate documents of its builder: where the log is, by default that of the private
-- configuration, and which call changes it.
pub record StorageLaws (d : Dag) (r : ReplicaCrate d)
    (storage_of : r.ReplicaBuilder → Option r.PathBuf) : Type 0 where
  pub storage-new :
      (a : d.Authority) (p : r.PublicReplicaConfig) (q : r.PrivateReplicaConfig)
      → storage_of (r.new_replica a p q) ≡ some (r.wal q)
  pub storage-storage :
      (b : r.ReplicaBuilder) (to : Option r.PathBuf) → storage_of (r.with_storage b to) ≡ to
  pub storage-registry :
      (b : r.ReplicaBuilder) (to : r.Registry) → storage_of (r.with_registry b to) ≡ storage_of b
  pub storage-network :
      (b : r.ReplicaBuilder) (to : r.Network) → storage_of (r.with_network b to) ≡ storage_of b
  pub storage-metrics :
      (b : r.ReplicaBuilder) (to : r.Metrics) → storage_of (r.with_metrics b to) ≡ storage_of b
  pub storage-crypto : (b : r.ReplicaBuilder) → storage_of (r.with_crypto_disabled b) ≡ storage_of b
  pub storage-consumer :
      (b : r.ReplicaBuilder) → storage_of (r.with_commit_consumer b) ≡ storage_of b

some-injective {ℓ} : {A : Type ℓ} {a b : A} → some a ≡ some b → a ≡ b
some-injective e = cc

module _ (d : Dag) (r : ReplicaCrate d) (storage_of : r.ReplicaBuilder → Option r.PathBuf)
    (laws : StorageLaws d r storage_of) where
  set_option-keeps :
      (b : ValidatorBuilder d r) (s : Setting d r)
      → storage_of b.replica ≡ b.wal
      → storage_of (set_option d r b s).replica ≡ (set_option d r b s).wal
  unfolding set_option
  set_option-keeps b (registry to) h = laws.storage-registry b.replica to ∙ h
  set_option-keeps b (storage to) h = laws.storage-storage b.replica to
  set_option-keeps b (network to) h = laws.storage-network b.replica to ∙ h
  set_option-keeps b (metrics to) h = laws.storage-metrics b.replica to ∙ h
  set_option-keeps b crypto_disabled h = laws.storage-crypto b.replica ∙ h

  set_options-keeps :
      (b : ValidatorBuilder d r) (ss : List (Setting d r))
      → storage_of b.replica ≡ b.wal
      → storage_of (set_options d r b ss).replica ≡ (set_options d r b ss).wal
  unfolding set_options
  set_options-keeps b [] h = h
  set_options-keeps b (s ∷ ss) h =
      set_options-keeps (set_option d r b s) ss (set_option-keeps b s h)

  -- Whatever options are set, in whatever order and how often: a validator that is built replays the
  -- log that its replica writes, and replays none exactly if the replica writes none.
  pub build-storage :
      (engine : ExecutionEngine) (a : d.Authority) (p : r.PublicReplicaConfig)
      (q : r.PrivateReplicaConfig) (ss : List (Setting d r)) (v : Validator d r)
      → build d r (set_options d r (new_builder d r engine a p q) ss) ≡ some v
      → storage_of v.replica ≡ v.wal
  unfolding build new_builder
  build-storage engine a p q ss v e =
      built (set_options d r (new_builder d r engine a p q) ss) (r.quorum_threshold _)
        (set_options-keeps (new_builder d r engine a p q) ss (laws.storage-new a p q)) e
    where
      built :
          (b : ValidatorBuilder d r) (o : Option ℕ)
          → storage_of b.replica ≡ b.wal
          → build_with d r b o ≡ some v
          → storage_of v.replica ≡ v.wal
      built b none h e = cc
      built b (some quorum) h e =
          let same = some-injective e in
          ap (λ (u : Validator d r). storage_of u.replica) (sym same)
          ∙ laws.storage-consumer b.replica
          ∙ h
          ∙ ap (λ (u : Validator d r). u.wal) same
