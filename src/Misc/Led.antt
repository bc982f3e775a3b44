-- ===== src/Misc/Led.antt =====
-- misc/led.h and misc/led.cpp. `now` is what `millis()` returns, an `unsigned long` of 32 bits, and
-- what is written to the pin is recorded in order.
pub mod Blinking
use esp_iot_framework.Prelude.{
  ℕ, ◌-◌, min, Bool, true, false, not, ◌&&◌, ◌||◌, List, [], ◌∷◌, ◌++◌, ltb, ◌==◌, if◌then◌else◌,
  sub32,
}

pub data PinWrite : Type 0 where
  analog : ℕ → PinWrite
  digital : Bool → PinWrite

pub record Led : Type 0 where
  pub max_brightness : ℕ
  pub blink_active_duration : ℕ
  pub blink_wait_duration : ℕ
  pub blink_repeat_interval : ℕ
  pub brightness : ℕ
  pub active : Bool
  pub continuously : Bool
  pub blink_count : ℕ
  pub blink_count_left : ℕ
  pub flash_duration : ℕ
  pub start_time : ℕ
  pub initialized : Bool
  pub pin_writes : List PinWrite

abbrev pub init : Led
init = record {
  max_brightness = 255;
  blink_active_duration = 60;
  blink_wait_duration = 140;
  blink_repeat_interval = 3000;
  brightness = 255;
  active = false;
  continuously = false;
  blink_count = 0;
  blink_count_left = 0;
  flash_duration = 0;
  start_time = 0;
  initialized = false;
  pin_writes = [];
}

abbrev pub begin : Led → Led
begin l = record l { initialized = true }

abbrev pub refresh_led : Led → Bool → Led
refresh_led l lit = if not l.initialized then l else record l {
  pin_writes =
      l.pin_writes
      ++ ((if ltb l.brightness l.max_brightness
            then analog (if lit then l.brightness else 0)
            else digital lit)
          ∷ []);
}

unfoldable pub flash : Led → ℕ → ℕ → Led
flash l duration now =
    if not l.initialized || (l.active && l.blink_count == 0)
    then l
    else refresh_led
        (record l {
          active = true;
          start_time = now;
          flash_duration = duration;
          blink_count = 0;
          blink_count_left = 0;
          continuously = false;
        })
        true

abbrev pub turn_off : Led → Led
turn_off l =
    if not l.initialized || not l.active then l else refresh_led (record l { active = false }) false

-- `blink_count` is a `uint8_t`, as `count` is.
unfoldable pub blink : Led → ℕ → Bool → ℕ → Led
blink l count continuously now =
    if not l.initialized
    then l
    else if l.active && count == 0
    then turn_off l
    else if l.active && ltb 0 l.blink_count
    then record l {
      continuously = continuously;
      blink_count = count;
      blink_count_left = min l.blink_count_left count;
    }
    else refresh_led
        (record l {
          active = true;
          start_time = now;
          flash_duration = 0;
          blink_count = count;
          blink_count_left = count;
          continuously = continuously;
        })
        true

-- A blink that has some left.
abbrev pub tick_blink : Led → ℕ → Led
tick_blink l now =
    let delta = sub32 now l.start_time in
    let dark = refresh_led l false in
    let next = record dark { start_time = now; blink_count_left = dark.blink_count_left - 1 } in
    if ltb delta l.blink_active_duration
    then refresh_led l true
    else if not (ltb l.blink_wait_duration (delta - l.blink_active_duration))
    then dark
    else if next.blink_count_left == 0 && not next.continuously
    then turn_off next
    else next

unfoldable pub tick : Led → ℕ → Led
tick l now =
    let delta = sub32 now l.start_time in
    if not l.initialized || not l.active
    then l
    else if ltb 0 l.blink_count_left
    then tick_blink l now
    else if ltb 0 l.blink_count && l.continuously
    then if ltb l.blink_repeat_interval delta
      then refresh_led (record l { start_time = now; blink_count_left = l.blink_count }) true
      else l
    else if ltb 0 l.flash_duration && ltb delta l.flash_duration
    then turn_off l
    else l

-- The main loop's calls.
pub ticks : Led → List ℕ → Led
ticks l [] = l
ticks l (now ∷ times) = ticks (tick l now) times
