-- ===== src/Execution/Store.antt =====
-- crates/execution/src/store.rs. The hasher is a parameter: `hash` is what a fresh hasher returns
-- for the concatenation of the bytes that it was fed.
pub mod Invariant
pub mod History
pub mod Commitment
use blockchain_validator.Prelude.{
  ◌++◌, Bool, true, Option, none, some, List, [], ◌∷◌, ltb, if◌then◌else◌, nat_eq, list_eq, pair_eq,
}
use blockchain_validator.Outcome.{Outcome, ok, panic, version_not_forward, ◌>>=◌}
use blockchain_validator.Map
use blockchain_validator.Map.{Map}
use blockchain_validator.Execution.Object.{
  Bytes, ObjectId, Version, Object, Digest, default_digest, to_be_bytes,
}
use blockchain_validator.Execution.Effects.{ExecutionOutput}
use blockchain_validator.Execution.Transaction.{StateView}

pub record InMemoryStore : Type 0 where
  pub objects : Map (ObjectId × Version) Object
  pub latest : Map ObjectId Version
  pub commitment : Digest

abbrev pub default_store : InMemoryStore
default_store = record { objects = Map.empty; latest = Map.empty; commitment = default_digest }

unfoldable pub get : InMemoryStore → ObjectId → Version → Option Object
get s id version = Map.get s.objects (id, version)

latest_at : InMemoryStore → ObjectId → Option Version → Option Object
latest_at s id none = none
latest_at s id (some version) = Map.get s.objects (id, version)

-- `StateView::latest`
unfoldable pub latest : InMemoryStore → ObjectId → Option Object
unfolding latest_at
latest s id = latest_at s id (Map.get s.latest id)

abbrev pub view : InMemoryStore → StateView
view s = record { latest = latest s }

-- `previous.is_none_or(|p| p < version)`
abbrev pub moves_forward : Option Version → Version → Bool
moves_forward none version = true
moves_forward (some p) version = ltb p version

-- What the hasher is fed for one write.
unfoldable pub frame : Digest → Object → Bytes
frame commitment o = commitment ++ (o.id ++ (to_be_bytes 8 o.version ++ o.contents))

module _ (hash : Bytes → Digest) where
  abbrev pub written : InMemoryStore → Object → InMemoryStore
  written s o = record {
    objects = Map.insert s.objects (o.id, o.version) o;
    latest = Map.insert s.latest o.id o.version;
    commitment = hash (frame s.commitment o);
  }

  unfoldable pub apply_write : InMemoryStore → Object → Outcome InMemoryStore
  apply_write s o =
      if moves_forward (Map.get s.latest o.id) o.version
      then ok (written s o)
      else panic version_not_forward

  unfoldable pub apply_writes : InMemoryStore → List Object → Outcome InMemoryStore
  apply_writes s [] = ok s
  apply_writes s (o ∷ os) = do s' ← apply_write s o; apply_writes s' os

  unfoldable pub apply : InMemoryStore → ExecutionOutput → Outcome InMemoryStore
  unfolding apply_writes
  apply s output = apply_writes s output.writes
