-- ===== src/Async/Future/Overloads.antt =====
-- The lambdas of async/future.h and async/future.cpp that wrap a function which does not ask for the
-- future, or returns nothing.
use esp_iot_framework.Prelude.{
  ℕ, ◌<◌, ◌≡◌, refl, ap, ◌∙◌, true, false, none, some, [], ◌∷◌, ◌++◌, arith, length, ◌==◌,
  if◌then◌else◌, ==_refl, ==_iff, Bool-cases, inl, inr,
}
use esp_iot_framework.Async.World.{on_error, forward, World, promise_at, Program}
use esp_iot_framework.Async.Promise.{on_finished}
use esp_iot_framework.Async.Promise.Settling.{on_finished_finished}
use esp_iot_framework.Async.Promise.Effects.{Works, told}
use esp_iot_framework.Async.Promise.Histories.{outcome_at}
use esp_iot_framework.Async.Promise.Deeds.{Outcome, failed}
use esp_iot_framework.Async.Running.{run_callback}
use esp_iot_framework.Async.Future.Outcomes.{Becomes, called, forward_settles}

module _ {S : Type 0} where
  -- `on_error(std::function<Future()>)`
  unfoldable ignoring : (World S → World S × ℕ) → ℕ → World S → World S × ℕ
  ignoring fn future w = fn w

  -- `on_error(std::function<void()>)`
  unfoldable keeping : (World S → World S) → ℕ → World S → World S × ℕ
  keeping fn future w = (fn w, future)

  -- `finally(std::function<void()>)`
  unfoldable concluding : (World S → World S) → ℕ → World S → World S
  concluding fn future w = fn w

  unchanged_at :
      (w w' : World S) (p j : ℕ)
      → promise_at w' j ≡ (if p == j then promise_at w p else promise_at w j)
      → promise_at w' j ≡ promise_at w j
  unchanged_at w w' p j e = elim (Bool-cases (p == j)) [
    | inl same ↦ e ∙ rw (same, (==_iff p j).0 same) refl
    | inr other ↦ e ∙ rw other refl
  ]

  module _ (program : Program S) where
    -- What a handler's future comes to, when it has settled already, the chained promise comes to.
    on_error-settles :
        (fn chained p f : ℕ) (o : Outcome) (w w1 : World S)
        → outcome_at w p ≡ some failed
        → program.recover fn p w ≡ (w1, f)
        → Works w1
        → chained < length w1.promises
        → outcome_at w1 chained ≡ none
        → outcome_at w1 f ≡ some o
        → (w' : World S) × (called program (on_error fn chained) p w ≡ some w')
          × (told w' f ≡ told w1 f ++ forward chained ∷ [])
          × Becomes w' (called program (forward chained) f w') chained (some o)
    unfolding run_callback
    on_error-settles fn chained p f o w w1 bad e h inside open_still settled =
        let unsuccessful : (promise_at w p).success ≡ false = ground arith in
        let done : (promise_at w1 f).finished ≡ true = ground arith in
        let w2 = on_finished w1 f (forward chained) in
        let effect = on_finished_finished w1 f (forward chained) h done in
        let same = (λ (j : ℕ). unchanged_at w1 w2 f j (effect.at j)) in
        (
          w2,
          rw (unsuccessful, e) refl,
          effect.tells f ∙ rw (==_refl f) refl,
          forward_settles program w2 f chained o effect.works (rw effect.same_length inside)
              (rw (same chained) open_still) (rw (same f) settled),
        )

    -- The error handler `fn` is a function `handler` that takes and returns nothing, the future `p` has
    -- failed, the handler leaves it so, the dispatcher at work and the chained promise pending. What
    -- `on_error` registered at `p` then calls the handler and has the dispatcher tell the chained
    -- promise that `p` is settled, and when it does the chained promise has failed too: the handler
    -- does not recover the error.
    on_error_keeps_failure :
        (handler : World S → World S) (fn chained p : ℕ) (w : World S)
        → program.recover fn ≡ keeping handler
        → outcome_at w p ≡ some failed
        → Works (handler w)
        → chained < length (handler w).promises
        → outcome_at (handler w) chained ≡ none
        → outcome_at (handler w) p ≡ some failed
        → (w' : World S) × (called program (on_error fn chained) p w ≡ some w')
          × (told w' p ≡ told (handler w) p ++ forward chained ∷ [])
          × Becomes w' (called program (forward chained) p w') chained (some failed)
    unfolding keeping
    on_error_keeps_failure handler fn chained p w e bad h inside open_still still_failed =
        on_error-settles fn chained p p failed w (handler w) bad (ap (λ r. r p w) e) h inside
          open_still still_failed

    -- The error handler `fn` is a function that takes nothing and returns the future `f`, which has
    -- settled already: the chained promise settles as `f`.
    on_error_recovers :
        (handler : World S → World S × ℕ) (fn chained p : ℕ) (o : Outcome) (w : World S)
        → program.recover fn ≡ ignoring handler
        → outcome_at w p ≡ some failed
        → Works (handler w).0
        → chained < length (handler w).0.promises
        → outcome_at (handler w).0 chained ≡ none
        → outcome_at (handler w).0 (handler w).1 ≡ some o
        → (w' : World S) × (called program (on_error fn chained) p w ≡ some w')
          × (told w' (handler w).1 ≡ told (handler w).0 (handler w).1 ++ forward chained ∷ [])
          × Becomes w' (called program (forward chained) (handler w).1 w') chained (some o)
    unfolding ignoring
    on_error_recovers handler fn chained p o w e bad h inside open_still settled =
        on_error-settles fn chained p (handler w).1 o w (handler w).0 bad (ap (λ r. r p w) e) h
          inside open_still settled
