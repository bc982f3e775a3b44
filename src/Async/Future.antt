-- ===== src/Async/Future.antt =====
-- async/future.h and async/future.cpp: `Future`'s combinators, which register a lambda at the future
-- and return the promise that it settles. The overloads that wrap a function of fewer arguments are
-- those functions here, and `Future`'s methods those of `FutureBase`.
pub mod Outcomes
pub mod Timeouts
pub mod Overloads
use esp_iot_framework.Prelude.{ℕ, Bool, some, ◌==◌, if◌then◌else◌}
use esp_iot_framework.Async.World.{
  Alarm, then_future, then_value, on_error, finally, with_timeout, expire, resolve, World,
}
use esp_iot_framework.Async.SystemTimer
use esp_iot_framework.Async.Promise.{create, on_finished, set_error}

module _ {S : Type 0} where
  unfoldable pub chain_future : World S → ℕ → ℕ → World S × ℕ
  chain_future w future fn =
      let (w', chained) = create w in (on_finished w' future (then_future fn chained), chained)

  unfoldable pub chain_value : World S → ℕ → ℕ → World S × ℕ
  chain_value w future fn =
      let (w', chained) = create w in (on_finished w' future (then_value fn chained), chained)

  unfoldable pub chain_error : World S → ℕ → ℕ → World S × ℕ
  chain_error w future fn =
      let (w', chained) = create w in (on_finished w' future (on_error fn chained), chained)

  -- The promise that is created is not used.
  unfoldable chain_finally : World S → ℕ → ℕ → World S × ℕ
  chain_finally w future fn =
      let (w', chained) = create w in (on_finished w' future (finally fn), future)

  -- `SystemTimer::set_timeout`, and its result.
  abbrev pub set_alarm : World S → ℕ → Alarm → World S × Bool
  set_alarm w timeout a =
      let (timer, ok) = SystemTimer.set_timeout w.timer_starts w.clock timeout (some a) w.timer in
      (record w { timer = timer }, ok)

  -- `with_timeout`
  unfoldable pub limit : World S → ℕ → ℕ → World S × ℕ
  limit w future timeout =
      let (w', r) = create w in
      let timed = (set_alarm w' timeout (expire r)).0 in
      if timeout == 0 then (w, future) else (on_finished timed future (with_timeout r), r)

  -- `SystemTimer::delay`
  unfoldable pub delay : World S → ℕ → World S × ℕ
  delay w timeout_ms =
      let (w', p) = create w in
      let (timed, ok) = set_alarm w' timeout_ms (resolve p) in
      (if ok then timed else set_error timed p, p)
