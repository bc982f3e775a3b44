-- ===== src/Misc/Led/Blinking.antt =====
-- What a LED's blinks and flashes come to, and which states it can reach.
use esp_iot_framework.Prelude.{
  ℕ, zero, suc, ◌+◌, ◌≤◌, ◌<◌, ◌≡◌, refl, true, false, List, [], ◌∷◌, arith, ltb, sub32, length,
}
use esp_iot_framework.Misc.Led.{Led, flash, blink, tick, ticks}

-- Each time lies more than one blink, lit and dark, behind the one before it.
abbrev Spaced : ℕ → ℕ → List ℕ → Type 0
Spaced period from [] = Unit {0}
Spaced period from (now ∷ times) = (period < sub32 now from) × Spaced period now times

-- It blinks, started at `since`, with `to_come` blinks to come and `blink_time` for each.
record Blinks (blink_time since to_come : ℕ) (l : Led) : Type 0 where
  initialized : l.initialized ≡ true
  active : l.active ≡ true
  once : l.continuously ≡ false
  start : l.start_time ≡ since
  left : l.blink_count_left ≡ to_come
  period : l.blink_active_duration + l.blink_wait_duration ≡ blink_time

tick-Blinks :
    (l : Led) (period from left now : ℕ)
    → Blinks period from (suc (suc left)) l
    → period < sub32 now from
    → Blinks period now (suc left) (tick l now)
unfolding tick
tick-Blinks l period from left now b h =
    ground (arith, b.initialized, b.active, b.once, b.start, b.left, b.period)

tick-last :
    (l : Led) (period from now : ℕ)
    → Blinks period from 1 l
    → period < sub32 now from
    → (tick l now).active ≡ false
unfolding tick
tick-last l period from now b h =
    ground (arith, b.initialized, b.active, b.once, b.start, b.left, b.period)

ticks-inactive : (times : List ℕ) (l : Led) → l.active ≡ false → (ticks l times).active ≡ false
unfolding ticks tick
ticks-inactive [] l e = e
ticks-inactive (now ∷ times) l e = ticks-inactive times (tick l now) (ground (arith, e))

ticks-Blinks :
    (times : List ℕ) (l : Led) (period from left : ℕ)
    → Blinks period from (suc left) l
    → Spaced period from times
    → (ticks l times).active ≡ ltb (length times) (suc left)
unfolding ticks
ticks-Blinks [] l period from left b h = ground (arith, b.active)
ticks-Blinks (now ∷ times) l period from zero b h =
    ground (arith, ticks-inactive times (tick l now) (tick-last l period from now b h.0))
ticks-Blinks (now ∷ times) l period from (suc left) b h = ground (
  arith,
  ticks-Blinks times (tick l now) period now left (tick-Blinks l period from left now b h.0) h.1,
)

-- A LED that was begun, is off and is told to blink `count` times, at least once and not
-- continuously, is on until it was polled `count` times, each time more than one blink after the
-- last, and off from then on.
pub blink_turns_off :
    (l : Led) (count start : ℕ) (times : List ℕ)
    → l.initialized ≡ true
    → l.active ≡ false
    → 0 < count
    → Spaced (l.blink_active_duration + l.blink_wait_duration) start times
    → (ticks (blink l count false start) times).active ≡ ltb (length times) count
unfolding blink
blink_turns_off l zero start times i a h g = absurd (omega arith)
blink_turns_off l (suc left) start times i a h g =
    let b : Blinks (l.blink_active_duration + l.blink_wait_duration) start (suc left)
        (blink l (suc left) false start) =
      ground (arith, i, a) in
    ticks-Blinks times (blink l (suc left) false start) _ start left b g

-- The times lie at least so far behind the start.
abbrev Late : ℕ → ℕ → List ℕ → Type 0
Late duration start [] = Unit {0}
Late duration start (now ∷ times) = (duration ≤ sub32 now start) × Late duration start times

tick_overdue :
    (l : Led) (duration start now : ℕ)
    → l.initialized ≡ true
    → l.active ≡ true
    → l.blink_count ≡ 0
    → l.blink_count_left ≡ 0
    → l.flash_duration ≡ duration
    → l.start_time ≡ start
    → duration ≤ sub32 now start
    → tick l now ≡ l
unfolding tick
tick_overdue l duration start now i a c z d s h = ground (arith, i, a, c, z, d, s)

ticks_overdue :
    (times : List ℕ) (l : Led) (duration start : ℕ)
    → l.initialized ≡ true
    → l.active ≡ true
    → l.blink_count ≡ 0
    → l.blink_count_left ≡ 0
    → l.flash_duration ≡ duration
    → l.start_time ≡ start
    → Late duration start times
    → ticks l times ≡ l
unfolding ticks
ticks_overdue [] l duration start i a c z d s h = refl
ticks_overdue (now ∷ times) l duration start i a c z d s h =
    rw (tick_overdue l duration start now i a c z d s h.0)
      (ticks_overdue times l duration start i a c z d s h.1)

-- A LED that was begun, is off and is told to flash for some time never goes off if every poll
-- comes when that time is over: each leaves it as the call left it, which is active.
flash_never_ends :
    (l : Led) (duration start : ℕ) (times : List ℕ)
    → l.initialized ≡ true
    → l.active ≡ false
    → Late duration start times
    → (ticks (flash l duration start) times ≡ flash l duration start)
      × ((flash l duration start).active ≡ true)
unfolding flash
flash_never_ends l duration start times i a h =
    let on : (flash l duration start).active ≡ true = ground (arith, i, a) in
    (
      ticks_overdue times (flash l duration start) duration start (ground (arith, i, a)) on
          (ground (arith, i, a)) (ground (arith, i, a)) (ground (arith, i, a))
          (ground (arith, i, a)) h,
      on,
    )
