-- ===== src/Async/Waiting.antt =====
-- async/promise.cpp: `PromiseBase::wait`. Other tasks settle the promise and the clock runs meanwhile:
-- `finished_at i` is what the `i`th reading of `_finished` gives and `millis_at i` what `millis()` does
-- then, an `unsigned long` of 32 bits.
use esp_iot_framework.Prelude.{
  ℕ, zero, suc, ◌+◌, Bool, true, not, ◌&&◌, ◌||◌, Option, none, some, ltb, ◌==◌, if◌then◌else◌,
  sub32,
}

module _ (finished_at : ℕ → Bool) (millis_at : ℕ → ℕ) where
  -- The loop, from its `i`th round on, and the reading behind it; `none` is out of rounds.
  unfoldable wait_loop : ℕ → ℕ → ℕ → ℕ → Option Bool
  wait_loop zero timeout start i = none
  wait_loop (suc n) timeout start i =
      let rest = wait_loop n timeout start (i + 1) in
      if not (finished_at i) && (timeout == 0 || ltb (sub32 (millis_at i) start) timeout)
      then rest
      else some (finished_at (i + 1))

  unfoldable pub wait : ℕ → ℕ → Option Bool
  unfolding wait_loop
  wait rounds timeout =
      if finished_at 0 then some true else wait_loop rounds timeout (millis_at 0) 1
