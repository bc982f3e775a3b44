-- ===== src/Async/Tests.antt =====
-- Runs of async/.
use esp_iot_framework.Prelude.{
  ◌-◌, ℕ, ◌≡◌, refl, Bool, true, false, some, List, [], ◌∷◌, arith, ltb,
}
use esp_iot_framework.Async.Dispatcher
use esp_iot_framework.Async.Dispatcher.{Kernel, dispatch, turn, turns}
use esp_iot_framework.Async.Dispatcher.Calling.{
  Move, dispatches, turns_once, run, accepted, turns_call_all,
}
use esp_iot_framework.Async.World.{
  World, Program, notify, blank_promise, Callback, user, then_value, with_timeout, resolve, expire,
}
use esp_iot_framework.Async.Promise.{
  all, already_done, create, on_finished, set_success, finish, on_promise_finished, notify_all,
}
use esp_iot_framework.Async.Promise.Effects.{Works, told}
use esp_iot_framework.Async.Promise.Histories.{after, outcome_at, after_settles}
use esp_iot_framework.Async.Promise.Deeds.{register, succeed, fail, Deed, succeeded, failed}
use esp_iot_framework.Async.Promise.Aggregates.{all_steps, prepared, listens, all_settles}
use esp_iot_framework.Async.Running.{run_alarm, call_timers}
use esp_iot_framework.Async.Running.Safety.{
  IsTame, Turn, dispatcher_turn, timer_turn, other_turn, take_turns, take_turns-Progress,
}
use esp_iot_framework.Async.Promise.Progress.{Progress, Progress-refl}
use esp_iot_framework.Async.Running.Timers.{timers_of, call_each, call_timers-call_each}
use esp_iot_framework.Async.Running.TimerQueue.{IsSorted, due}
use esp_iot_framework.Async.Future.{limit}
use esp_iot_framework.Async.SystemTimer.{set_timeout}
use esp_iot_framework.Async.Future.Outcomes.{called}
use esp_iot_framework.Async.Future.Timeouts.{Limited, with_timeout_settles}

abbrev kernel : Kernel
kernel = record { in_isr = false; created = true; sent = true }

abbrev moves : List (Move ℕ)
moves = dispatches kernel 7 ∷ turns_once ∷ turns_once ∷ dispatches kernel 8 ∷ []

turns_call_all_example : (turns 8 (run (Dispatcher.init {A = ℕ}) moves)).called ≡ 7 ∷ 8 ∷ []
unfolding run accepted dispatch turn
turns_call_all_example = turns_call_all moves 8 (refl, (refl, tt)) (omega arith)

-- Promise 0 has failed, promises 1 and 2 are pending, and promise 3 is settled with 5.
abbrev world : World ℕ
world = record {
  promises =
      record { finished = true; success = false; result = 0; on_finished_callbacks = [] }
      ∷ blank_promise
      ∷ blank_promise
      ∷ record { finished = true; success = true; result = 5; on_finished_callbacks = [] }
      ∷ [];
  counters = [];
  kernel = kernel;
  dispatcher = record { initialized = true; dispatched = []; notified = false };
  timer = record {
    initialized = true;
    timers =
        record { timeout_at = 10; callback = resolve 1 }
        ∷ record { timeout_at = 20; callback = expire 2 }
        ∷ record { timeout_at = 30; callback = resolve 2 }
        ∷ [];
  };
  timer_starts = true;
  clock = 25;
  state = 0;
}

world-Works : Works world
world-Works = record { begun = refl; delivers = refl }

abbrev deeds : List Deed
deeds =
    record { target = 1; action = register (user 4) }
    ∷ record { target = 2; action = fail }
    ∷ record { target = 1; action = succeed 9 }
    ∷ record { target = 1; action = fail }
    ∷ record { target = 1; action = register (user 6) }
    ∷ []

after_settles_example :
    (outcome_at (after world deeds) 1 ≡ some (succeeded 9))
    × (told (after world deeds) 1 ≡ user 4 ∷ user 6 ∷ [])
after_settles_example = after_settles deeds world 1 world-Works (omega arith) (omega arith) refl

all_settles_example :
    (w' : World ℕ) × (all world (1 ∷ 3 ∷ 2 ∷ []) ≡ (w', 4))
    × (w' ≡ after (prepared world 3) (listens (Callback.all_step 0 4) (1 ∷ 3 ∷ 2 ∷ [])))
    × (outcome_at (all_steps w' 0 4 (true ∷ true ∷ true ∷ [])) 4 ≡ some (succeeded 0))
unfolding already_done
all_settles_example =
    all_settles world 1 3 (2 ∷ []) (true ∷ true ∷ true ∷ []) world-Works (omega arith) refl
      (omega arith)

-- A program whose functions do nothing.
abbrev program : Program ℕ
program = record {
  call = λ f success w. w;
  ring = λ f w. w;
  continue_future = λ f p w. (w, p);
  continue_value = λ f p w. (w, 3);
  recover = λ f p w. (w, p);
  conclude = λ f p w. w;
  has_next = λ f p w. (w, false);
  next = λ f p w. (w, p);
}

program-IsTame : IsTame program
program-IsTame = record {
  call = λ f success w v. Progress-refl w v;
  ring = λ f w v. Progress-refl w v;
  continue_future = λ f p w v. Progress-refl w v;
  continue_value = λ f p w v. Progress-refl w v;
  recover = λ f p w v. Progress-refl w v;
  conclude = λ f p w v. Progress-refl w v;
  has_next = λ f p w v. Progress-refl w v;
  next = λ f p w v. Progress-refl w v;
}

abbrev schedule : List Turn
schedule =
    other_turn 1 (register (then_value 0 2))
    ∷ timer_turn 25 25
    ∷ dispatcher_turn
    ∷ other_turn 3 fail
    ∷ []

take_turns-Progress_example :
    (w' : World ℕ) × (take_turns program schedule world ≡ some w') × Progress world w'
take_turns-Progress_example = take_turns-Progress program program-IsTame schedule world tt

call_timers-call_each_example :
    (call_timers program 2 world ≡ call_each program (due 25 (timers_of world)) world)
    × (due 25 (timers_of (call_timers program 2 world)) ≡ [])
    × IsSorted (timers_of (call_timers program 2 world))
call_timers-call_each_example =
    call_timers-call_each program 2 world (λ f w s. record { sorted = s; due = refl; clock = refl })
      (omega arith) (omega arith)

-- The world of `with_timeout` for the promise 1: as it returns, when the promise 1 was settled, and when
-- the time was up first.
abbrev limited : World ℕ
limited = (limit world 1 500).0

abbrev settled_early : World ℕ
settled_early = set_success limited 1 6

abbrev expired : World ℕ
expired = run_alarm program (expire 4) limited

with_timeout_settles_example :
    Limited world 1 500 (limit world 1 500)
    × ((w' : World ℕ) × (called program (with_timeout 4) 1 settled_early ≡ some w')
        × (outcome_at w' 4 ≡ some (succeeded 6))
        × (run_alarm program (expire 4) w' ≡ w'))
    × (outcome_at (run_alarm program (expire 4) limited) 4 ≡ some failed)
    × (called program (with_timeout 4) 1 expired ≡ some expired)
unfolding limit set_timeout create on_finished set_success finish on_promise_finished notify_all
    notify dispatch run_alarm
with_timeout_settles_example =
    with_timeout_settles program world settled_early limited expired 1 500 (succeeded 6) world-Works
      (omega arith) refl (omega arith) refl (record { begun = refl; delivers = refl }) (omega arith)
      refl refl (record { begun = refl; delivers = refl }) (omega arith) refl refl

abbrev finished_later : ℕ → Bool
finished_later i = ltb 2 i

-- The start and the first check are in one millisecond.
abbrev clock_at : ℕ → ℕ
clock_at i = i - 1
