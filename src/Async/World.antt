-- ===== src/Async/World.antt =====
-- What the promises of async/ live in. A promise is an index into those that were created, which the
-- code's shared pointers keep alive, and a future is its promise; a `Promise<void>` has the value 0.
-- A lambda of the source that is registered at a promise is a constructor with what it captures, save
-- the future that it is registered at. What the program's own functions do is a record of functions,
-- on the promises and on a state `S` of the program.
use esp_iot_framework.Prelude.{ℕ, Bool, false, List, [], get_or, set}
use esp_iot_framework.Async.Dispatcher.{Kernel, Dispatcher, dispatch}
use esp_iot_framework.Async.SystemTimer.{SystemTimer}

pub data Callback : Type 0 where
  user : ℕ → Callback
  all_step : ℕ → ℕ → Callback
  any_step : ℕ → Callback
  then_future : ℕ → ℕ → Callback
  then_value : ℕ → ℕ → Callback
  on_error : ℕ → ℕ → Callback
  forward : ℕ → Callback
  finally : ℕ → Callback
  with_timeout : ℕ → Callback
  sequential : ℕ → ℕ → ℕ → Callback

-- The callbacks of the timer: `SystemTimer::delay`'s, `with_timeout`'s and the program's own.
pub data Alarm : Type 0 where
  resolve : ℕ → Alarm
  expire : ℕ → Alarm
  alarm : ℕ → Alarm

pub record Promise : Type 0 where
  pub finished : Bool
  pub success : Bool
  pub result : ℕ
  pub on_finished_callbacks : List Callback

abbrev pub blank_promise : Promise
blank_promise = record { finished = false; success = false; result = 0; on_finished_callbacks = [] }

-- A dispatched function: the callback is called with whether the promise was a success.
pub record Task : Type 0 where
  pub promise : ℕ
  pub callback : Callback

-- `counters` are the shared counters of `all`.
pub record World (S : Type 0) : Type 0 where
  pub promises : List Promise
  pub counters : List ℕ
  pub kernel : Kernel
  pub dispatcher : Dispatcher Task
  pub timer : SystemTimer Alarm
  pub timer_starts : Bool
  pub clock : ℕ
  pub state : S

module _ {S : Type 0} where
  abbrev pub promise_at : World S → ℕ → Promise
  promise_at w p = get_or w.promises p blank_promise

  abbrev pub put_promise : World S → ℕ → Promise → World S
  put_promise w p q = record w { promises = set w.promises p q }

  -- `Dispatcher::dispatch` of a notification; its result is not looked at.
  unfoldable pub notify : World S → Task → World S
  notify w t = record w { dispatcher = (dispatch w.kernel t w.dispatcher).0 }

-- The functions that the program hands over, by their numbers. Each is given the future that it is
-- registered at.
pub record Program (S : Type 0) : Type 0 where
  pub call : ℕ → Bool → World S → World S
  pub ring : ℕ → World S → World S
  pub continue_future : ℕ → ℕ → World S → World S × ℕ
  pub continue_value : ℕ → ℕ → World S → World S × ℕ
  pub recover : ℕ → ℕ → World S → World S × ℕ
  pub conclude : ℕ → ℕ → World S → World S
  pub has_next : ℕ → ℕ → World S → World S × Bool
  pub next : ℕ → ℕ → World S → World S × ℕ
