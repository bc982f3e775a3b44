-- ===== src/Async/Running.antt =====
-- The bodies of the lambdas in async/promise.h, async/promise.cpp and async/future.h, and the turns in
-- which the dispatcher's and the timer's tasks call them. `none` is an `abort()`.
pub mod Steps
pub mod Safety
pub mod TimerQueue
pub mod Timers
use esp_iot_framework.Prelude.{ℕ, zero, suc, Bool, false, Option, none, some, if◌then◌else◌}
use esp_iot_framework.Async.World.{
  Callback, user, all_step, any_step, then_future, then_value, on_error, forward, finally,
  with_timeout, sequential, Alarm, resolve, expire, alarm, Task, World, promise_at, Program,
}
use esp_iot_framework.Async.Dispatcher
use esp_iot_framework.Async.SystemTimer
use esp_iot_framework.Async.Promise.{
  set_success, set_error, result, on_finished, on_all_step, on_any_step,
}

module _ {S : Type 0} where
  -- `r->set_success(future.result())`
  unfoldable pub pass_on : World S → ℕ → ℕ → Option (World S)
  pass_on w future r = elim (result w future) [ some v ↦ some (set_success w r v) | none ↦ none ]

  module _ (program : Program S) where
    -- The lambda of a future that a function returned settles the chained promise as that future.
    abbrev settle_as : World S × ℕ → ℕ → Option (World S)
    settle_as wf chained = some (on_finished wf.0 wf.1 (forward chained))

    -- `self` is the future that the callback is registered at.
    unfoldable pub run_callback : Callback → ℕ → Bool → World S → Option (World S)
    unfolding pass_on
    run_callback (user f) self success w = some (program.call f success w)
    run_callback (all_step count_left r) self success w = some (on_all_step w count_left r success)
    run_callback (any_step r) self success w = some (on_any_step w r success)
    run_callback (then_future fn chained) self success w =
        if success
        then settle_as (program.continue_future fn self w) chained
        else some (set_error w chained)
    run_callback (then_value fn chained) self success w =
        if success
        then (let (w', value) = program.continue_value fn self w in
            some (set_success w' chained value))
        else some (set_error w chained)
    run_callback (on_error fn chained) self success w =
        if success then pass_on w self chained else settle_as (program.recover fn self w) chained
    run_callback (forward chained) self success w =
        if success then pass_on w self chained else some (set_error w chained)
    run_callback (finally fn) self success w = some (program.conclude fn self w)
    run_callback (with_timeout r) self success w =
        if (promise_at w r).finished
        then some w
        else if success
        then pass_on w self r
        else some (set_error w r)
    run_callback (sequential r has_next_fn fn) self success w =
        let (w', more) = program.has_next has_next_fn self w in
        let (w'', future) = program.next fn self w' in
        if more
        then some (on_finished w'' future (sequential r has_next_fn fn))
        else if success
        then pass_on w' self r
        else some (set_error w' r)

    -- `callback(_success)`
    unfoldable pub run_task : Task → World S → Option (World S)
    unfolding run_callback
    run_task t w = run_callback t.callback t.promise (promise_at w t.promise).success w

    unfoldable pub run_alarm : Alarm → World S → World S
    run_alarm (resolve p) w = set_success w p 0
    run_alarm (expire p) w = if (promise_at w p).finished then w else set_error w p
    run_alarm (alarm f) w = program.ring f w

    -- `Dispatcher::process_pending_tasks`, with what it returns.
    unfoldable pub process_dispatched : World S → Option (World S × Bool)
    unfolding run_task
    process_dispatched w =
        let (task, d) = Dispatcher.take_task w.dispatcher in
        elim task [
          | none ↦ some (w, false)
          | some (t, has_more) ↦ elim (run_task t (record w { dispatcher = d })) [
            | some w' ↦ some (w', has_more)
            | none ↦ none
          ]
        ]

    -- `SystemTimer::process_pending_tasks`, with the second time that the clock is read.
    unfoldable pub process_timers : ℕ → World S → World S × Bool
    unfolding run_alarm
    process_timers now' w =
        let (task, timer) = SystemTimer.take_timer w.clock now' w.timer in
        elim task [
          | none ↦ (w, false)
          | some (t, has_more) ↦ (run_alarm t.callback (record w { timer = timer }), has_more)
        ]

    -- The inner loop of `timer_task`, which takes a round for each timer that it calls; the clock
    -- stands still.
    unfoldable pub call_timers : ℕ → World S → World S
    unfolding process_timers
    call_timers zero w = w
    call_timers (suc n) w =
        let (w', has_pending) = process_timers w.clock w in
        let rest = call_timers n w' in if has_pending then rest else w'
