-- ===== src/Async/Running/Safety.antt =====
-- Whatever runs, promises stay settled and no result is asked for too early.
use esp_iot_framework.Prelude.{
  ℕ, ◌≡◌, refl, sym, ap, subst, ◌∙◌, ◌⊎◌, inl, inr, Bool, true, false, not, Option, none, some,
  List, [], ◌∷◌, if◌then◌else◌, Option-cases, by_if,
}
use esp_iot_framework.Async.World.{
  Callback, user, all_step, any_step, then_future, then_value, on_error, forward, finally,
  with_timeout, sequential, Alarm, resolve, expire, alarm, Task, World, promise_at, Program,
}
use esp_iot_framework.Async.Dispatcher
use esp_iot_framework.Async.SystemTimer
use esp_iot_framework.Async.Promise.{set_success, set_error, on_finished, on_all_step, on_any_step}
use esp_iot_framework.Async.Promise.Progress.{
  Told, IsValid, Progress, Progress-refl, Progress-trans, finish-Progress, set_success-Progress,
  on_finished-Progress,
}
use esp_iot_framework.Async.Promise.Histories.{act}
use esp_iot_framework.Async.Promise.Deeds.{Action}
use esp_iot_framework.Async.Running.{
  pass_on, run_callback, run_task, run_alarm, process_dispatched, process_timers,
}
use esp_iot_framework.Async.Running.Steps.{
  GoesOn, on_all_step-Progress, on_any_step-Progress, pass_on-GoesOn, settle_as-GoesOn,
  end_sequence, act-Progress,
}

List-cases {ℓ} : {A : Type ℓ} (xs : List A) → (xs ≡ []) ⊎ ((x : A) × (ys : List A) × (xs ≡ x ∷ ys))
List-cases [] = inl refl
List-cases (x ∷ xs) = inr (x, xs, refl)

-- A turn of the dispatcher's task, of the timer's at a time (with the second time that it reads), or of
-- other code, which registers a callback or settles a promise.
pub data Turn : Type 0 where
  other_turn : ℕ → Action → Turn
  dispatcher_turn : Turn
  timer_turn : ℕ → ℕ → Turn

-- The program's functions use the promises as the classes allow.
pub record IsTame {S : Type 0} (program : Program S) : Type 0 where
  pub call :
      (f : ℕ) (success : Bool) (w : World S) → IsValid w → Progress w (program.call f success w)
  pub ring : (f : ℕ) (w : World S) → IsValid w → Progress w (program.ring f w)
  pub continue_future :
      (f p : ℕ) (w : World S) → IsValid w → Progress w (program.continue_future f p w).0
  pub continue_value :
      (f p : ℕ) (w : World S) → IsValid w → Progress w (program.continue_value f p w).0
  pub recover : (f p : ℕ) (w : World S) → IsValid w → Progress w (program.recover f p w).0
  pub conclude : (f p : ℕ) (w : World S) → IsValid w → Progress w (program.conclude f p w)
  pub has_next : (f p : ℕ) (w : World S) → IsValid w → Progress w (program.has_next f p w).0
  pub next : (f p : ℕ) (w : World S) → IsValid w → Progress w (program.next f p w).0

module _ {S : Type 0} where
  module _ (program : Program S) where
    abbrev take_turn : Turn → World S → Option (World S)
    take_turn dispatcher_turn w = elim (process_dispatched program w) [
      | some (w', _) ↦ some w'
      | none ↦ none
    ]
    take_turn (other_turn p a) w = some (act w p a)
    take_turn (timer_turn now now') w =
        some (process_timers program now' (record w { clock = now })).0

    pub take_turns : List Turn → World S → Option (World S)
    take_turns [] w = some w
    take_turns (t ∷ ts) w = elim (take_turn t w) [ some w' ↦ take_turns ts w' | none ↦ none ]

  module _ (program : Program S) (tame : IsTame program) where
    run_callback-GoesOn :
        (c : Callback) (p : ℕ) (success : Bool) (w : World S)
        → IsValid w
        → (promise_at w p).finished ≡ true
        → (promise_at w p).success ≡ success
        → GoesOn w (run_callback program c p success w)
    unfolding run_callback
    run_callback-GoesOn (user f) p success w v done s =
        (program.call f success w, refl, tame.call f success w v)
    run_callback-GoesOn (all_step k r) p success w v done s =
        (on_all_step w k r success, refl, on_all_step-Progress w k r success v)
    run_callback-GoesOn (any_step r) p success w v done s =
        (on_any_step w r success, refl, on_any_step-Progress w r success v)
    run_callback-GoesOn (then_future fn chained) p true w v done s =
        settle_as-GoesOn w (program.continue_future fn p w) chained (tame.continue_future fn p w v)
    run_callback-GoesOn (then_future fn chained) p false w v done s =
        (set_error w chained, refl, finish-Progress false w chained v)
    run_callback-GoesOn (then_value fn chained) p true w v done s =
        let (w', value) = program.continue_value fn p w in
        let first = tame.continue_value fn p w v in
        (
          set_success w' chained value,
          refl,
          Progress-trans w w' (set_success w' chained value) first
              (set_success-Progress w' chained value first.valid),
        )
    run_callback-GoesOn (then_value fn chained) p false w v done s =
        (set_error w chained, refl, finish-Progress false w chained v)
    run_callback-GoesOn (on_error fn chained) p true w v done s =
        pass_on-GoesOn w p chained v done s
    run_callback-GoesOn (on_error fn chained) p false w v done s =
        settle_as-GoesOn w (program.recover fn p w) chained (tame.recover fn p w v)
    run_callback-GoesOn (forward chained) p true w v done s = pass_on-GoesOn w p chained v done s
    run_callback-GoesOn (forward chained) p false w v done s =
        (set_error w chained, refl, finish-Progress false w chained v)
    run_callback-GoesOn (finally fn) p success w v done s =
        (program.conclude fn p w, refl, tame.conclude fn p w v)
    run_callback-GoesOn (with_timeout r) p true w v done s =
        by_if (GoesOn w) (promise_at w r).finished (some w) (pass_on w p r)
          (w, refl, Progress-refl w v) (pass_on-GoesOn w p r v done s)
    run_callback-GoesOn (with_timeout r) p false w v done s =
        by_if (GoesOn w) (promise_at w r).finished (some w) (some (set_error w r))
          (w, refl, Progress-refl w v) (set_error w r, refl, finish-Progress false w r v)
    run_callback-GoesOn (sequential r has_next_fn fn) p success w v done s =
        let (w', more) = program.has_next has_next_fn p w in
        let (w'', future) = program.next fn p w' in
        let first = tame.has_next has_next_fn p w v in
        let second = tame.next fn p w' first.valid in
        let registered = on_finished w'' future (sequential r has_next_fn fn) in
        let both = Progress-trans w w' w'' first second in
        let (done', s', _) = first.later p done in
        by_if (GoesOn w) more (some registered)
          (if success then pass_on w' p r else some (set_error w' r))
          (
            registered,
            refl,
            Progress-trans w w'' registered both
                (on_finished-Progress w'' future (sequential r has_next_fn fn) second.valid),
          )
          (end_sequence success w w' p r first done' (s' ∙ s))

    run_task-GoesOn :
        (t : Task) (w : World S)
        → IsValid w
        → (promise_at w t.promise).finished ≡ true
        → GoesOn w (run_task program t w)
    unfolding run_task
    run_task-GoesOn t w v done =
        run_callback-GoesOn t.callback t.promise (promise_at w t.promise).success w v done refl

    run_alarm-Progress : (a : Alarm) (w : World S) → IsValid w → Progress w (run_alarm program a w)
    unfolding run_alarm
    run_alarm-Progress (resolve p) w v = set_success-Progress w p 0 v
    run_alarm-Progress (expire p) w v =
        by_if (Progress w) (promise_at w p).finished w (set_error w p) (Progress-refl w v)
          (finish-Progress false w p v)
    run_alarm-Progress (alarm f) w v = tame.ring f w v

    process_dispatched_front :
        (w : World S) (t : Task) (ts : List Task)
        → w.dispatcher.dispatched ≡ t ∷ ts
        → process_dispatched program w
          ≡ (elim (run_task program t
              (record w { dispatcher = record w.dispatcher { dispatched = ts } })) [
                | some w' ↦ some (w', not (Dispatcher.is_empty ts))
                | none ↦ none
              ])
    unfolding process_dispatched Dispatcher.take_task
    process_dispatched_front w t ts e =
        ap
          (λ q.
            process_dispatched program
              (record w { dispatcher = record w.dispatcher { dispatched = q } }))
          e

    process_dispatched_idle :
        (w : World S)
        → w.dispatcher.dispatched ≡ []
        → process_dispatched program w ≡ some (w, false)
    unfolding process_dispatched Dispatcher.take_task
    process_dispatched_idle w e =
        ap
          (λ q.
            process_dispatched program
              (record w { dispatcher = record w.dispatcher { dispatched = q } }))
          e
        ∙ ap (λ q. some (record w { dispatcher = record w.dispatcher { dispatched = q } }, false))
            (sym e)

    process_dispatched-Progress :
        (w : World S)
        → IsValid w
        → (w' : World S) × (more : Bool) × (process_dispatched program w ≡ some (w', more))
          × Progress w w'
    process_dispatched-Progress w v = elim (List-cases w.dispatcher.dispatched) [
      | inl idle ↦ (w, false, process_dispatched_idle w idle, Progress-refl w v)
      | inr (t, ts, e) ↦
          let rest = record w { dispatcher = record w.dispatcher { dispatched = ts } } in
          let told : Told w (t ∷ ts) = subst (λ q. Told w q) e v in
          let (w', goes, p) = run_task-GoesOn t rest told.1 told.0 in
          (
            w',
            not (Dispatcher.is_empty ts),
            process_dispatched_front w t ts e ∙ rw goes refl,
            Progress-trans w rest w' (record { valid = told.1; later = λ p h. (h, refl, refl) }) p,
          )
    ]

    process_timers-Progress :
        (w : World S) (now' : ℕ) → IsValid w → Progress w (process_timers program now' w).0
    unfolding process_timers
    process_timers-Progress w now' v =
        elim (Option-cases (SystemTimer.take_timer w.clock now' w.timer).0) [
          | inl nothing ↦ rw (nothing, process_timers) (Progress-refl w v)
          | inr (due, e) ↦
              let rest = record w { timer = (SystemTimer.take_timer w.clock now' w.timer).1 } in
              rw (e, process_timers)
                (Progress-trans w rest (run_alarm program due.0.callback rest)
                  (record { valid = v; later = λ p h. (h, refl, refl) })
                  (run_alarm-Progress due.0.callback rest v))
        ]

    take_turn-GoesOn : (t : Turn) (w : World S) → IsValid w → GoesOn w (take_turn program t w)
    take_turn-GoesOn dispatcher_turn w v =
        let (w', more, goes, p) = process_dispatched-Progress w v in
        (w', rw (goes, take_turn) refl, p)
    take_turn-GoesOn (other_turn p a) w v = (act w p a, refl, act-Progress a w p v)
    take_turn-GoesOn (timer_turn now now') w v =
        let later = record w { clock = now } in
        let w' = (process_timers program now' later).0 in
        (
          w',
          refl,
          Progress-trans w later w' (record { valid = v; later = λ p h. (h, refl, refl) })
              (process_timers-Progress later now' v),
        )

    -- The program's functions use the promises only as their classes allow, and the promises whose
    -- callbacks wait to be called are settled, as is so where none waits. Then the tasks of the
    -- dispatcher and of the timer and other code may take turns in any order: no turn asks an unfinished promise for
    -- its result, which would abort, and a promise that is settled stays so, with the same result.
    pub take_turns-Progress :
        (ts : List Turn) (w : World S)
        → IsValid w
        → (w' : World S) × (take_turns program ts w ≡ some w') × Progress w w'
    unfolding take_turns
    take_turns-Progress [] w v = (w, refl, Progress-refl w v)
    take_turns-Progress (t ∷ ts) w v =
        let (w', goes, p) = take_turn-GoesOn t w v in
        let (w'', on, q) = take_turns-Progress ts w' p.valid in
        (w'', rw (goes, take_turns) on, Progress-trans w w' w'' p q)
