-- ===== src/Async/SystemTimer.antt =====
-- async/system_timer.h and async/system_timer.cpp: the queue of the timers. `std::priority_queue` is
-- the list of its elements in order; of timers with the same time, whose order it leaves open, the
-- first that was set is ahead. A time is that of `millis64`. What the callbacks do, and the loop that
-- calls them, stands in Async.Running; when that yields (`delay_if_too_long`) is left out.
use esp_iot_framework.Prelude.{
  ℕ, ◌+◌, ◌%◌, ◌^◌, Bool, true, false, ◌||◌, Option, none, some, List, [], ◌∷◌, ltb, if◌then◌else◌,
}

pub record TimerTask {ℓ} (A : Type ℓ) : Type ℓ where
  pub timeout_at : ℕ
  pub callback : A

pub record SystemTimer {ℓ} (A : Type ℓ) : Type ℓ where
  pub initialized : Bool
  pub timers : List (TimerTask A)

abbrev pub u64_mod : ℕ
u64_mod = 2 ^ 64

module _ {ℓ} {A : Type ℓ} where
  unfoldable pub push : TimerTask A → List (TimerTask A) → List (TimerTask A)
  push t [] = t ∷ []
  push t (x ∷ xs) = if ltb t.timeout_at x.timeout_at then t ∷ x ∷ xs else x ∷ push t xs

  -- `none` is the callback `nullptr`; `started` is whether the timer's task could be created.
  unfoldable pub set_timeout : Bool → ℕ → ℕ → Option A → SystemTimer A → SystemTimer A × Bool
  set_timeout started now timeout_ms none s = (s, false)
  set_timeout started now timeout_ms (some callback) s =
      let task : TimerTask A = record {
        timeout_at = (now + timeout_ms) % u64_mod;
        callback = callback;
      } in
      if s.initialized || started
      then (record { initialized = true; timers = push task s.timers }, true)
      else (s, false)

  unfoldable pub has_pending_task : ℕ → List (TimerTask A) → Bool
  has_pending_task now [] = false
  has_pending_task now (t ∷ ts) = ltb t.timeout_at now

  -- The critical section of `process_pending_tasks`: the timer to call, and whether there are more.
  -- The clock is read twice.
  unfoldable pub take_timer : ℕ → ℕ → SystemTimer A → Option (TimerTask A × Bool) × SystemTimer A
  unfolding has_pending_task
  take_timer now now' s = elim s.timers [
    | [] ↦ (none, s)
    | t ∷ ts ↦
        if ltb t.timeout_at now
        then (some (t, has_pending_task now' ts), record s { timers = ts })
        else (none, s)
  ]
