-- ===== src/Async/Running/Steps.antt =====
-- Each step of a turn goes on, and makes progress.
use esp_iot_framework.Prelude.{
  ℕ, ◌-◌, ◌≡◌, refl, Bool, true, false, not, Option, some, ◌==◌, if◌then◌else◌, by_if, get_or, set,
}
use esp_iot_framework.Async.World.{forward, World, promise_at}
use esp_iot_framework.Async.Promise.{set_success, set_error, on_finished, on_all_step, on_any_step}
use esp_iot_framework.Async.Promise.Progress.{
  IsValid, Progress, Progress-refl, Progress-trans, finish-Progress, set_success-Progress,
  on_finished-Progress,
}
use esp_iot_framework.Async.Promise.Histories.{act}
use esp_iot_framework.Async.Promise.Deeds.{Action, register, succeed, fail}
use esp_iot_framework.Async.Running.{pass_on}

module _ {S : Type 0} where
  -- It goes on, and makes progress.
  abbrev pub GoesOn : World S → Option (World S) → Type 0
  GoesOn w o = (w' : World S) × (o ≡ some w') × Progress w w'

  pub on_all_step-Progress :
      (w : World S) (k r : ℕ) (success : Bool) → IsValid w → Progress w (on_all_step w k r success)
  unfolding on_all_step
  on_all_step-Progress w k r success v =
      let n = get_or w.counters k 0 in
      let counted = record w { counters = set w.counters k (n - 1) } in
      let less : Progress w counted = record { valid = v; later = λ p h. (h, refl, refl) } in
      let won : Progress counted (set_success counted r 0) = set_success-Progress counted r 0 v in
      by_if (Progress w) (promise_at w r).finished w
        (if not success
          then set_error w r
          else if n - 1 == 0
          then set_success counted r 0
          else counted)
        (Progress-refl w v)
        (by_if (Progress w) (not success) (set_error w r)
          (if n - 1 == 0 then set_success counted r 0 else counted) (finish-Progress false w r v)
          (by_if (Progress w) (n - 1 == 0) (set_success counted r 0) counted
            (Progress-trans w counted (set_success counted r 0) less won) less))

  pub on_any_step-Progress :
      (w : World S) (r : ℕ) (success : Bool) → IsValid w → Progress w (on_any_step w r success)
  unfolding on_any_step
  on_any_step-Progress w r true v =
      by_if (Progress w) (promise_at w r).finished w (set_success w r 0) (Progress-refl w v)
        (set_success-Progress w r 0 v)
  on_any_step-Progress w r false v =
      by_if (Progress w) (promise_at w r).finished w (set_error w r) (Progress-refl w v)
        (finish-Progress false w r v)

  pub pass_on-GoesOn :
      (w : World S) (p r : ℕ)
      → IsValid w
      → (promise_at w p).finished ≡ true
      → (promise_at w p).success ≡ true
      → GoesOn w (pass_on w p r)
  unfolding pass_on
  pass_on-GoesOn w p r v done good = (
    set_success w r (promise_at w p).result,
    rw (pass_on, done, good) refl,
    set_success-Progress w r (promise_at w p).result v,
  )

  pub settle_as-GoesOn :
      (w : World S) (wf : World S × ℕ) (chained : ℕ)
      → Progress w wf.0
      → GoesOn w (some (on_finished wf.0 wf.1 (forward chained)))
  settle_as-GoesOn w wf chained first = (
    on_finished wf.0 wf.1 (forward chained),
    refl,
    Progress-trans w wf.0 (on_finished wf.0 wf.1 (forward chained)) first
        (on_finished-Progress wf.0 wf.1 (forward chained) first.valid),
  )

  GoesOn-after : (w w' : World S) (o : Option (World S)) → Progress w w' → GoesOn w' o → GoesOn w o
  GoesOn-after w w' o first (w'', e, second) = (w'', e, Progress-trans w w' w'' first second)

  -- The last step of a sequence.
  pub end_sequence :
      (success : Bool) (w w' : World S) (p r : ℕ)
      → Progress w w'
      → (promise_at w' p).finished ≡ true
      → (promise_at w' p).success ≡ success
      → GoesOn w (if success then pass_on w' p r else some (set_error w' r))
  end_sequence true w w' p r first done s =
      GoesOn-after w w' (pass_on w' p r) first (pass_on-GoesOn w' p r first.valid done s)
  end_sequence false w w' p r first done s = (
    set_error w' r,
    refl,
    Progress-trans w w' (set_error w' r) first (finish-Progress false w' r first.valid),
  )

  pub act-Progress : (a : Action) (w : World S) (p : ℕ) → IsValid w → Progress w (act w p a)
  act-Progress (register c) w p v = on_finished-Progress w p c v
  act-Progress (succeed value) w p v = set_success-Progress w p value v
  act-Progress fail w p v = finish-Progress false w p v
