-- ===== src/Async/Future/Outcomes.antt =====
-- What the promises that `then` and `on_error` return come to.
use esp_iot_framework.Prelude.{
  ℕ, ◌<◌, ◌≡◌, refl, ◌∙◌, true, false, Option, none, some, [], arith, ◌==◌, if◌then◌else◌, ==_refl,
  length,
}
use esp_iot_framework.Async.World.{Callback, forward, World, promise_at, Program}
use esp_iot_framework.Async.Promise.{set_success, set_error}
use esp_iot_framework.Async.Promise.Settling.{finish-Effect, set_success-Effect}
use esp_iot_framework.Async.Promise.Effects.{Works, settled_with}
use esp_iot_framework.Async.Promise.Histories.{outcome_at}
use esp_iot_framework.Async.Promise.Deeds.{Outcome, succeeded, failed}
use esp_iot_framework.Async.Running.{pass_on, run_callback}

module _ {S : Type 0} where
  -- The promise `r` has the outcome of `o`, the dispatcher works still, and no other promise changed.
  abbrev pub Becomes : World S → Option (World S) → ℕ → Option Outcome → Type 0
  Becomes w o r outcome =
      (w' : World S) × (o ≡ some w')
      × Works w'
      × (outcome_at w' r ≡ outcome)
      × ((q : ℕ) → (r == q) ≡ false → promise_at w' q ≡ promise_at w q)

  pub set_error-failed :
      (w : World S) (r : ℕ)
      → Works w
      → r < length w.promises
      → outcome_at w r ≡ none
      → outcome_at (set_error w r) r ≡ some failed
  set_error-failed w r h inside open_still =
      let pending : (promise_at w r).finished ≡ false = ground arith in
      let e = finish-Effect false w r h inside pending in
      let at : promise_at (set_error w r) r ≡ settled_with false (promise_at w r) =
        e.at r ∙ rw (==_refl r) refl in
      rw at refl

  set_error-Becomes :
      (w : World S) (r : ℕ)
      → Works w
      → r < length w.promises
      → outcome_at w r ≡ none
      → Becomes w (some (set_error w r)) r (some failed)
  set_error-Becomes w r h inside open_still =
      let pending : (promise_at w r).finished ≡ false = ground arith in
      let e = finish-Effect false w r h inside pending in
      (
        set_error w r,
        refl,
        e.works,
        set_error-failed w r h inside open_still,
        λ q other. e.at q ∙ rw other refl,
      )

  set_success-Becomes :
      (w : World S) (r v : ℕ)
      → Works w
      → r < length w.promises
      → outcome_at w r ≡ none
      → Becomes w (some (set_success w r v)) r (some (succeeded v))
  set_success-Becomes w r v h inside open_still =
      let pending : (promise_at w r).finished ≡ false = ground arith in
      let e = set_success-Effect w r v h inside pending in
      let at : promise_at (set_success w r v) r
          ≡ record { finished = true; success = true; result = v; on_finished_callbacks = [] } =
        e.at r ∙ rw (==_refl r) refl in
      (set_success w r v, refl, e.works, rw at refl, λ q other. e.at q ∙ rw other refl)

  pass_on-Becomes :
      (w : World S) (p r v : ℕ)
      → Works w
      → r < length w.promises
      → outcome_at w r ≡ none
      → outcome_at w p ≡ some (succeeded v)
      → Becomes w (pass_on w p r) r (some (succeeded v))
  unfolding pass_on
  pass_on-Becomes w p r v h inside open_still good =
      let done : (promise_at w p).finished ≡ true = ground arith in
      let success : (promise_at w p).success ≡ true = ground arith in
      let value : (promise_at w p).result ≡ v = ground arith in
      rw (pass_on, done, success, value) (set_success-Becomes w r v h inside open_still)

  -- A branch of a callback that settles `r` as `p`.
  pub copy-Becomes :
      (o : Outcome) (w : World S) (p r : ℕ)
      → Works w
      → r < length w.promises
      → outcome_at w r ≡ none
      → outcome_at w p ≡ some o
      → Becomes w
          (if (promise_at w p).success then pass_on w p r else some (set_error w r))
          r
          (some o)
  copy-Becomes (succeeded v) w p r h inside open_still settled =
      let success : (promise_at w p).success ≡ true = ground arith in
      rw success (pass_on-Becomes w p r v h inside open_still settled)
  copy-Becomes failed w p r h inside open_still settled =
      let success : (promise_at w p).success ≡ false = ground arith in
      rw success (set_error-Becomes w r h inside open_still)

  module _ (program : Program S) where
    -- What a callback does to `w`, called for the future `p`.
    abbrev pub called : Callback → ℕ → World S → Option (World S)
    called c p w = run_callback program c p (promise_at w p).success w

    -- The dispatcher works, the promise `r` is pending and the future `p` has the outcome `o`. The
    -- callback that is registered at a future which a function returned makes that outcome, value
    -- included, the outcome of `r`, and changes no other promise.
    pub forward_settles :
        (w : World S) (p r : ℕ) (o : Outcome)
        → Works w
        → r < length w.promises
        → outcome_at w r ≡ none
        → outcome_at w p ≡ some o
        → Becomes w (called (forward r) p w) r (some o)
    unfolding run_callback
    forward_settles w p r o h inside open_still settled =
        copy-Becomes o w p r h inside open_still settled
