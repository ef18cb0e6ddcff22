-- ===== src/Validator/Start/Resume.antt =====
-- A validator that stops and starts again goes on as if it had never stopped.
use blockchain_validator.Prelude.{
  ℕ, ◌+◌, ◌%◌, ◌^◌, ◌≡◌, refl, sym, subst, ap, ◌∙◌, some, List, [], ◌∷◌, ◌++◌, map,
}
use blockchain_validator.Outcome.{ok, bind-eq-ok, ok-injective}
use blockchain_validator.Dag.{Dag, SubDags}
use blockchain_validator.Execution.Object.{Bytes, Digest}
use blockchain_validator.Checkpoint.Certifier.{pending_checkpoints}
use blockchain_validator.Validator.Envelope.{Codec}
use blockchain_validator.Validator.Metrics.{ValidatorMetrics, observe_subdag_execution_latency}
use blockchain_validator.Validator.Subdag.{ExecutionState, execute_subdag, certification_status}
use blockchain_validator.Validator.Subdag.Determinism.{Alike, execute_subdag-SameResult}
use blockchain_validator.Validator.Replay.{Storage, done}
use blockchain_validator.Validator.Driver.{
  Delivery, Driver, Published, deliver, drive, attest_minted, reattest, attestation, as_millis,
}
use blockchain_validator.Validator.Driver.Restart.{
  AreStored, pending-Alike, status-Alike, replay-IsReplay,
}
use blockchain_validator.Validator.Start.{Started, start, start_replayed}

module _ (d : Dag) (codec : Codec d) (s : SubDags d) (hash : Bytes → Digest) where
  abbrev Near : Driver d → Driver d → Type 0
  Near a b = (a.count ≡ b.count) × Alike d a.state b.state

  deliver-Near :
      (a b : Driver d) (x : Delivery d s) (p : Driver d × Published d)
      → Near a b
      → deliver d codec s hash a x ≡ ok p
      → (b' : Driver d) × (deliver d codec s hash b x ≡ ok (b', p.1)) × Near p.0 b'
  unfolding deliver
  deliver-Near a b x p h e =
      let (r, ran, final) =
        bind-eq-ok (execute_subdag d s hash codec a.state a.metrics x.now x.subdag) _ e in
      let (r', ran', alike) =
        execute_subdag-SameResult d s hash codec a.state b.state a.metrics b.metrics x.now x.now
          x.subdag r h.1 ran in
      let same = ok-injective final in
      (
        record {
          state = r'.state;
          metrics = observe_subdag_execution_latency r'.metrics x.elapsed;
          count = (b.count + r'.executed) % 2 ^ 64;
        },
        rw ran' (
            ap
              (λ q. ok (
                record {
                  state = r'.state;
                  metrics = observe_subdag_execution_latency r'.metrics x.elapsed;
                  count = (b.count + r'.executed) % 2 ^ 64;
                },
                q,
              ))
              (sym (λ i. record {
                executed = (h.0 i + alike.executed i) % 2 ^ 64;
                certified = status-Alike d s r.state r'.state alike.state i;
                submitted = attest_minted d codec x.now (alike.minted i);
              })
                ∙ ap (λ (q : Driver d × Published d). q.1) same)),
        subst
            (λ (q : Driver d × Published d). Near q.0 (record {
              state = r'.state;
              metrics = observe_subdag_execution_latency r'.metrics x.elapsed;
              count = (b.count + r'.executed) % 2 ^ 64;
            }))
            same (λ i. (h.0 i + alike.executed i) % 2 ^ 64, alike.state),
      )

  drive-append :
      (a : Driver d) (xs ys : List (Delivery d s)) (p : Driver d × List (Published d))
      → drive d codec s hash a (xs ++ ys) ≡ ok p
      → (a₁ : Driver d) × (before : List (Published d)) × (after : List (Published d)) × (drive d
            codec s hash a xs
          ≡ ok (a₁, before))
        × (drive d codec s hash a₁ ys ≡ ok (p.0, after))
        × (p.1 ≡ before ++ after)
  unfolding drive
  drive-append a [] ys p e = (a, [], p.1, refl, e, refl)
  drive-append a (x ∷ xs) ys p e =
      let (q, first, rest) = bind-eq-ok (deliver d codec s hash a x) _ e in
      let (r, second, final) = bind-eq-ok (drive d codec s hash q.0 (xs ++ ys)) _ rest in
      let (a₁, before, after, one, two, joined) = drive-append q.0 xs ys r second in
      let same = ok-injective final in
      (
        a₁,
        q.1 ∷ before,
        after,
        rw first (rw one refl),
        two ∙ ap (λ (u : Driver d × List (Published d)). ok (u.0, after)) same,
        ap (λ (u : Driver d × List (Published d)). u.1) (sym same) ∙ ap (◌∷◌ q.1) joined,
      )

  drive-Near :
      (a b : Driver d) (xs : List (Delivery d s)) (p : Driver d × List (Published d))
      → Near a b
      → drive d codec s hash a xs ≡ ok p
      → (b' : Driver d) × (drive d codec s hash b xs ≡ ok (b', p.1)) × Near p.0 b'
  unfolding drive
  drive-Near a b [] p h e =
      let same = ok-injective e in
      (
        b,
        ap (λ (u : Driver d × List (Published d)). ok (b, u.1)) same,
        subst (λ (u : Driver d × List (Published d)). Near u.0 b) same h,
      )
  drive-Near a b (x ∷ xs) p h e =
      let (q, first, rest) = bind-eq-ok (deliver d codec s hash a x) _ e in
      let (r, second, final) = bind-eq-ok (drive d codec s hash q.0 xs) _ rest in
      let (b₁, first', h₁) = deliver-Near a b x q h first in
      let (b₂, second', h₂) = drive-Near q.0 b₁ xs r h₁ second in
      let same = ok-injective final in
      (
        b₂,
        rw first' (rw second' (ap (λ (u : Driver d × List (Published d)). ok (b₂, u.1)) same)),
        subst (λ (u : Driver d × List (Published d)). Near u.0 b₂) same h₂,
      )

  -- A validator that gets through deliveries without a stop sends certain values and payloads. It gets
  -- through a front of them alone too, and sends a first part of these. If it stops there, its storage
  -- has this front, and it starts again from the same initial state, it gets through the others: it
  -- first publishes the count and the status at the stop and attests to what was pending then, sends
  -- for the others exactly what follows that first part, and ends with the same count and in the same
  -- state but for timings.
  pub start-resumes :
      (storage : Storage d s) (state : ExecutionState d) (metrics metrics' : ValidatorMetrics)
      (now : ℕ) (front rest : List (Delivery d s)) (driver : Driver d)
      (published : List (Published d))
      → AreStored d s storage.get_block storage.commits front
      → drive d codec s hash
          (record { state = state; metrics = metrics; count = 0 })
          (front ++ rest)
        ≡ ok (driver, published)
      → (stopped : Driver d) × (before : List (Published d)) × (started : Started d) × (drive d
            codec s hash
            (record { state = state; metrics = metrics; count = 0 })
            front
          ≡ ok (stopped, before))
        × (start d codec s hash (some (some storage)) state metrics' now rest ≡ ok (done started))
        × (started.first ≡ record {
          executed = stopped.count;
          certified = certification_status d stopped.state;
          submitted =
              map
                (attestation d codec (as_millis now))
                (pending_checkpoints d stopped.state.certifier);
        })
        × (published ≡ before ++ started.published)
        × (driver.count ≡ started.driver.count)
        × Alike d driver.state started.driver.state
  unfolding start start_replayed reattest
  start-resumes storage state metrics metrics' now front rest driver published stored e =
      let (stopped, before, after, one, two, joined) =
        drive-append _ front rest (driver, published) e in
      let (replayed, back, h) =
        replay-IsReplay d s hash codec storage state metrics front stopped before stored one in
      let (driver', three, h') =
        drive-Near stopped
          (record { state = replayed.state; metrics = metrics'; count = replayed.count }) rest
          (driver, after) h two in
      (
        stopped,
        before,
        record {
          first = record {
            executed = replayed.count;
            certified = certification_status d replayed.state;
            submitted = reattest d codec now replayed.state;
          };
          published = after;
          driver = driver';
        },
        one,
        rw back (rw three refl),
        sym (λ i. record {
          executed = h.0 i;
          certified = status-Alike d s stopped.state replayed.state h.1 i;
          submitted =
              map (attestation d codec (as_millis now))
                (pending-Alike d s stopped.state replayed.state h.1 i);
        }),
        joined,
        h'.0,
        h'.1,
      )
