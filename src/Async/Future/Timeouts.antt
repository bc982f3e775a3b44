-- ===== src/Async/Future/Timeouts.antt =====
-- What `with_timeout` registers, and what its promise comes to.
use esp_iot_framework.Prelude.{
  ℕ, ◌<◌, ◌+◌, ◌%◌, ◌≡◌, refl, ap, sym, subst, ◌∙◌, true, false, ◌||◌, none, some, [], ◌∷◌, ◌++◌,
  arith, ◌==◌, if◌then◌else◌, ==_refl, if_false, by_if, length, length-append,
}
use esp_iot_framework.Async.World.{
  Callback, with_timeout, expire, World, blank_promise, promise_at, Program, notify,
}
use esp_iot_framework.Async.SystemTimer.{u64_mod, push, set_timeout}
use esp_iot_framework.Async.Promise.{create, on_finished, set_error}
use esp_iot_framework.Async.Promise.Settling.{on_finished_pending}
use esp_iot_framework.Async.Promise.Effects.{Works}
use esp_iot_framework.Async.Promise.Histories.{outcome_at}
use esp_iot_framework.Async.Promise.Deeds.{Outcome, failed}
use esp_iot_framework.Async.Promise.Aggregates.{get_or-snoc, get_or-snoc_default}
use esp_iot_framework.Async.Running.{pass_on, run_callback, run_alarm}
use esp_iot_framework.Async.Future.{limit, set_alarm}
use esp_iot_framework.Async.Future.Outcomes.{Becomes, set_error-failed, copy-Becomes, called}

module _ {S : Type 0} where
  -- A promise is made, an alarm is set for it, and a callback is registered at the future `p`.
  pub record Limited (w : World S) (p timeout : ℕ) (result : World S × ℕ) : Type 0 where
    pub fresh : result.1 ≡ length w.promises
    pub pending : outcome_at result.0 result.1 ≡ none
    pub still : outcome_at result.0 p ≡ none
    pub listens :
        (promise_at result.0 p).on_finished_callbacks
        ≡ (promise_at w p).on_finished_callbacks ++ with_timeout (length w.promises) ∷ []
    pub rings :
        result.0.timer.timers
        ≡ push
            (record {
              timeout_at = (w.clock + timeout) % u64_mod;
              callback = expire (length w.promises);
            })
            w.timer.timers

  on_finished-timers :
      (w : World S) (p : ℕ) (c : Callback) → (on_finished w p c).timer.timers ≡ w.timer.timers
  unfolding on_finished notify
  on_finished-timers w p c =
      by_if (λ (v : World S). v.timer.timers ≡ w.timer.timers) (promise_at w p).finished _ _ refl
        refl

  limit_lem :
      (w : World S) (p timeout : ℕ)
      → Works w
      → p < length w.promises
      → outcome_at w p ≡ none
      → 0 < timeout
      → (w.timer.initialized || w.timer_starts) ≡ true
      → Limited w p timeout (limit w p timeout)
  unfolding limit create set_timeout
  limit_lem w p timeout h inside open_still some_time starts =
      let r = length w.promises in
      let not_zero : (timeout == 0) ≡ false = ground arith in
      let timed = (set_alarm (create w).0 timeout (expire r)).0 in
      let same : promise_at timed p ≡ promise_at w p =
        get_or-snoc_default w.promises blank_promise p in
      let pending_p : (promise_at timed p).finished ≡ false =
        ap (λ q. q.finished) same ∙ ground arith in
      let wider : p < length timed.promises =
        omega (arith, length-append w.promises (blank_promise ∷ [])) in
      let q = promise_at timed p in
      let changed = record q {
        on_finished_callbacks = q.on_finished_callbacks ++ with_timeout r ∷ [];
      } in
      let e =
        on_finished_pending timed p (with_timeout r)
          (record { begun = h.begun; delivers = h.delivers }) wider pending_p in
      let at_p : promise_at (on_finished timed p (with_timeout r)) p ≡ changed =
        e.at p ∙ rw (==_refl p) refl in
      let other : (p == r) ≡ false = ground arith in
      let at_r : promise_at (on_finished timed p (with_timeout r)) r ≡ blank_promise =
        e.at r ∙ rw other (get_or-snoc w.promises blank_promise blank_promise) in
      subst (Limited w p timeout)
        (sym (if_false (w, p) (on_finished timed p (with_timeout r), r) not_zero))
        (record {
          fresh = refl;
          pending = rw at_r refl;
          still = rw (at_p, pending_p) refl;
          listens =
              ap (λ c. c.on_finished_callbacks) at_p
              ∙ ap (λ c. c.on_finished_callbacks ++ with_timeout r ∷ []) same;
          rings = on_finished-timers timed p (with_timeout r) ∙ rw starts refl;
        })

  module _ (program : Program S) where
    timed-Becomes :
        (w : World S) (p r : ℕ) (o : Outcome)
        → Works w
        → r < length w.promises
        → outcome_at w r ≡ none
        → outcome_at w p ≡ some o
        → Becomes w (called program (with_timeout r) p w) r (some o)
    unfolding run_callback
    timed-Becomes w p r o h inside open_still settled =
        let pending : (promise_at w r).finished ≡ false = ground arith in
        rw
          (if_false (some w)
            (if (promise_at w p).success then pass_on w p r else some (set_error w r)) pending)
          (copy-Becomes o w p r h inside open_still settled)

    expire_finished :
        (w : World S) (r : ℕ) (o : Outcome)
        → outcome_at w r ≡ some o
        → run_alarm program (expire r) w ≡ w
    unfolding run_alarm
    expire_finished w r o settled =
        let done : (promise_at w r).finished ≡ true = ground arith in rw (run_alarm, done) refl

    expire_pending :
        (w : World S) (r : ℕ)
        → outcome_at w r ≡ none
        → run_alarm program (expire r) w ≡ set_error w r
    unfolding run_alarm
    expire_pending w r open_still =
        let pending : (promise_at w r).finished ≡ false = ground arith in
        if_false w (set_error w r) pending

    timed_finished :
        (w : World S) (p r : ℕ) (o : Outcome)
        → outcome_at w r ≡ some o
        → called program (with_timeout r) p w ≡ some w
    unfolding run_callback
    timed_finished w p r o settled =
        let done : (promise_at w r).finished ≡ true = ground arith in rw (run_callback, done) refl

    -- The dispatcher works, `p` is pending in `w`, the timeout is not 0 and the timer starts.
    -- `with_timeout` returns a promise `r` that is pending and new, registers its callback for `r` at
    -- `p`, after those that are there, and sets a timer for `r`. In a world `early` in which `p` has the
    -- outcome `o` and `r` is pending, the callback makes `o` the outcome of `r`, and the timer then
    -- changes nothing. In a world `late` in which `r` is pending, whether `p` is or not, the timer makes
    -- `r` fail, and in any world `later` in which `r` has failed the callback changes nothing.
    pub with_timeout_settles :
        (w early late later : World S) (p timeout : ℕ) (o : Outcome)
        → Works w
        → p < length w.promises
        → outcome_at w p ≡ none
        → 0 < timeout
        → (w.timer.initialized || w.timer_starts) ≡ true
        → Works early
        → length w.promises < length early.promises
        → outcome_at early (length w.promises) ≡ none
        → outcome_at early p ≡ some o
        → Works late
        → length w.promises < length late.promises
        → outcome_at late (length w.promises) ≡ none
        → outcome_at later (length w.promises) ≡ some failed
        → let r = (limit w p timeout).1 in
          Limited w p timeout (limit w p timeout)
          × ((w' : World S) × (called program (with_timeout r) p early ≡ some w')
              × (outcome_at w' r ≡ some o)
              × (run_alarm program (expire r) w' ≡ w'))
          × (outcome_at (run_alarm program (expire r) late) r ≡ some failed)
          × (called program (with_timeout r) p later ≡ some later)
    with_timeout_settles w early late later p timeout o h inside open_still some_time starts h_early
          in_early open_early settled h_late in_late open_late failed_later =
        let l = limit_lem w p timeout h inside open_still some_time starts in
        let r = length w.promises in
        let (w', e, _, became, _) = timed-Becomes early p r o h_early in_early open_early settled in
        subst
          (λ r.
            Limited w p timeout (limit w p timeout)
            × ((w' : World S) × (called program (with_timeout r) p early ≡ some w')
                × (outcome_at w' r ≡ some o)
                × (run_alarm program (expire r) w' ≡ w'))
            × (outcome_at (run_alarm program (expire r) late) r ≡ some failed)
            × (called program (with_timeout r) p later ≡ some later))
          (sym l.fresh)
          (
            l,
            (w', e, became, expire_finished w' r o became),
            ap (λ x. outcome_at x r) (expire_pending late r open_late)
                ∙ set_error-failed late r h_late in_late open_late,
            timed_finished later p r failed failed_later,
          )
