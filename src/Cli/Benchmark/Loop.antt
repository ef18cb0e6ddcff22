-- ===== src/Cli/Benchmark/Loop.antt =====
-- When the loop over the ticks of a benchmark ends, and what it has saved then.
use Prim.Native.String.{String}
use mathlib.Core.List.{append-nil, append_assoc}
use blockchain_validator.Prelude.{
  ℕ, ◌≡◌, ◌≢◌, ◌≤◌, ◌<◌, ◌⊎◌, refl, sym, ap, ◌∙◌, Bool, true, false, Option, none, some, List, [],
  ◌∷◌, ◌++◌, map, All, filter_map, arith, if◌then◌else◌,
}
use blockchain_validator.Cli.Text.{PathBuf}
use blockchain_validator.Cli.Library.{Replica}
use blockchain_validator.Cli.Parameters.{Orchestrator}
use blockchain_validator.Cli.Journal.{
  finished, stopped, waiting, World, Run, continue, ◌>>=◌, replied, request, done,
}
use blockchain_validator.Cli.Benchmark.{
  Call, write, Reply, Event, interrupted, tick_failed, metrics_tick, fault_update, is_over, save,
  tick_loop,
}

module _ (r : Replica) (o : Orchestrator r) (duration : ℕ) where
  -- A tick that the loop goes on after; a duration of zero has no end.
  abbrev pub GoesOn : Event r o → Type 0
  GoesOn interrupted = ⊥
  GoesOn tick_failed = ⊥
  GoesOn (metrics_tick elapsed results) = (duration ≡ 0) ⊎ (elapsed ≤ duration)
  GoesOn fault_update = Unit

  -- An interrupt, or a tick past the duration.
  abbrev pub EndsIt : Event r o → Type 0
  EndsIt interrupted = Unit
  EndsIt tick_failed = ⊥
  EndsIt (metrics_tick elapsed results) = (duration ≢ 0) × (duration < elapsed)
  EndsIt fault_update = ⊥

  -- The results of a tick, if it has any.
  abbrev pub results_of : Event r o → Option String
  results_of interrupted = none
  results_of tick_failed = none
  results_of (metrics_tick elapsed results) = results
  results_of fault_update = none

  over-GoesOn :
      (elapsed : ℕ) → (duration ≡ 0) ⊎ (elapsed ≤ duration) → is_over r o duration elapsed ≡ false
  unfolding is_over
  over-GoesOn elapsed h = ground arith

  over-EndsIt :
      (elapsed : ℕ) → (duration ≢ 0) × (duration < elapsed) → is_over r o duration elapsed ≡ true
  unfolding is_over
  over-EndsIt elapsed h = ground arith

  module _ (w : World (Call r o) (Reply r o)) (path : PathBuf)
      (writes : (before : List (Call r o)) (yaml : String)
        → w.answer before (write path yaml) ≡ some tt) where
    -- The calls that save the results of some ticks.
    abbrev saved : List (Event r o) → List (Call r o)
    saved events = map (write path) (filter_map results_of events)

    save-saved :
        (elapsed : ℕ) (results : Option String) (next : Run (Call r o) Unit)
        (before : List (Call r o))
        → (save r o w path results >>= λ _. next) before
          ≡ next (before ++ saved (metrics_tick elapsed results ∷ []))
    unfolding request continue
    save-saved elapsed none next before = ap next (sym (append-nil before))
    save-saved elapsed (some yaml) next before =
        ap
          (λ o.
            continue (λ _. next)
              (continue (λ _. done tt)
                (replied w (write path yaml) (some "Failed to save benchmark results") before o)))
          (writes before yaml)

    saved-cons :
        (e : Event r o) (events : List (Event r o))
        → saved (e ∷ events) ≡ saved (e ∷ []) ++ saved events
    saved-cons interrupted events = refl
    saved-cons tick_failed events = refl
    saved-cons fault_update events = refl
    saved-cons (metrics_tick elapsed none) events = refl
    saved-cons (metrics_tick elapsed (some yaml)) events = refl

    tick_loop-metrics :
        (elapsed : ℕ) (results : Option String) (events : List (Event r o))
        (before : List (Call r o)) (over : Bool)
        → is_over r o duration elapsed ≡ over
        → tick_loop r o w duration path (metrics_tick elapsed results ∷ events) before
          ≡ (if over then done tt else tick_loop r o w duration path events)
              (before ++ saved (metrics_tick elapsed results ∷ []))
    unfolding tick_loop
    tick_loop-metrics elapsed results events before over e =
        save-saved elapsed results
          (if is_over r o duration elapsed then done tt else tick_loop r o w duration path events)
          before
        ∙ ap
            (λ over.
              (if over then done tt else tick_loop r o w duration path events)
                (before ++ saved (metrics_tick elapsed results ∷ [])))
            e

    -- What a tick that the loop goes on after does.
    tick_loop-on :
        (e : Event r o) (events : List (Event r o)) (before : List (Call r o))
        → GoesOn e
        → tick_loop r o w duration path (e ∷ events) before
          ≡ tick_loop r o w duration path events (before ++ saved (e ∷ []))
    unfolding tick_loop
    tick_loop-on interrupted events before h = absurd h
    tick_loop-on tick_failed events before h = absurd h
    tick_loop-on fault_update events before h =
        ap (tick_loop r o w duration path events) (sym (append-nil before))
    tick_loop-on (metrics_tick elapsed results) events before h =
        tick_loop-metrics elapsed results events before false (over-GoesOn elapsed h)

    tick_loop-last :
        (e : Event r o) (events : List (Event r o)) (before : List (Call r o))
        → EndsIt e
        → tick_loop r o w duration path (e ∷ events) before
          ≡ (before ++ saved (e ∷ []), finished tt)
    unfolding tick_loop
    tick_loop-last interrupted events before h =
        ap (λ calls. (calls, finished tt)) (sym (append-nil before))
    tick_loop-last tick_failed events before h = absurd h
    tick_loop-last fault_update events before h = absurd h
    tick_loop-last (metrics_tick elapsed results) events before h =
        tick_loop-metrics elapsed results events before true (over-EndsIt elapsed h)

    saved_first :
        (e : Event r o) (events : List (Event r o)) (before : List (Call r o))
        → (before ++ saved (e ∷ [])) ++ saved events ≡ before ++ saved (e ∷ events)
    saved_first e events before =
        append_assoc before (saved (e ∷ [])) (saved events)
        ∙ ap (◌++◌ before) (sym (saved-cons e events))

    tick_loop-ends :
        (front rest : List (Event r o)) (last : Event r o) (before : List (Call r o))
        → All GoesOn front
        → EndsIt last
        → tick_loop r o w duration path (front ++ (last ∷ rest)) before
          ≡ (before ++ saved (front ++ (last ∷ [])), finished tt)
    tick_loop-ends [] rest last before on ends = tick_loop-last last rest before ends
    tick_loop-ends (e ∷ front) rest last before on ends =
        tick_loop-on e (front ++ (last ∷ rest)) before on.0
        ∙ tick_loop-ends front rest last (before ++ saved (e ∷ [])) on.1 ends
        ∙ ap (λ calls. (calls, finished tt)) (saved_first e (front ++ (last ∷ [])) before)

    tick_loop-waits :
        (events : List (Event r o)) (before : List (Call r o))
        → All GoesOn events
        → tick_loop r o w duration path events before ≡ (before ++ saved events, waiting)
    unfolding tick_loop
    tick_loop-waits [] before on = ap (λ calls. (calls, waiting)) (sym (append-nil before))
    tick_loop-waits (e ∷ events) before on =
        tick_loop-on e events before on.0
        ∙ tick_loop-waits events (before ++ saved (e ∷ [])) on.1
        ∙ ap (λ calls. (calls, waiting)) (saved_first e events before)

    tick_loop-fails :
        (front rest : List (Event r o)) (before : List (Call r o))
        → All GoesOn front
        → tick_loop r o w duration path (front ++ (tick_failed ∷ rest)) before
          ≡ (before ++ saved front, stopped (some "Benchmark tick failed"))
    unfolding tick_loop
    tick_loop-fails [] rest before on =
        ap (λ calls. (calls, stopped (some "Benchmark tick failed"))) (sym (append-nil before))
    tick_loop-fails (e ∷ front) rest before on =
        tick_loop-on e (front ++ (tick_failed ∷ rest)) before on.0
        ∙ tick_loop-fails front rest (before ++ saved (e ∷ [])) on.1
        ∙ ap (λ calls. (calls, stopped (some "Benchmark tick failed"))) (saved_first e front before)

    -- Where measurements can be written, the loop goes on over all successful ticks up to the first
    -- event that ends it. If this is an interrupt, or a tick past the duration where that is not zero,
    -- the loop finishes there, and has saved the results of all ticks so far in order. If it is a tick
    -- that fails, the loop stops there with an error, and has saved the results of the ticks before.
    -- Without such an event it has saved all results and waits for more.
    pub tick_loop-EndsFirst :
        (front : List (Event r o)) (before : List (Call r o))
        → All GoesOn front
        → ((last : Event r o) (rest : List (Event r o))
            → EndsIt last
            → tick_loop r o w duration path (front ++ (last ∷ rest)) before ≡ (
              before ++ map (write path) (filter_map results_of (front ++ (last ∷ []))),
              finished tt,
            ))
          × ((rest : List (Event r o))
              → tick_loop r o w duration path (front ++ (tick_failed ∷ rest)) before ≡ (
                before ++ map (write path) (filter_map results_of front),
                stopped (some "Benchmark tick failed"),
              ))
          × (tick_loop r o w duration path front before
              ≡ (before ++ map (write path) (filter_map results_of front), waiting))
    tick_loop-EndsFirst front before on = (
      λ last rest ends. tick_loop-ends front rest last before on ends,
      λ rest. tick_loop-fails front rest before on,
      tick_loop-waits front before on,
    )
