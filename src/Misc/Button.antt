-- ===== src/Misc/Button.antt =====
-- misc/button.h and misc/button.cpp. `now` is what `millis()` returns, an `unsigned long` of 32 bits,
-- and `level` what `digitalRead` does. The calls of the handlers that are set are recorded in order;
-- an `int` count that a handler gets goes through its `uint8_t`.
pub mod Clicks
pub mod Holding
use esp_iot_framework.Prelude.{
  ℕ, ◌+◌, ◌%◌, Bool, true, false, not, ◌&&◌, ◌||◌, List, [], ◌∷◌, ◌++◌, ltb, leb, ◌==◌,
  if◌then◌else◌, u8_mod, sub32,
}

pub data Call : Type 0 where
  on_click : ℕ → Call
  on_hold : ℕ → Call
  on_hold_release : ℕ → Call

pub record ButtonState : Type 0 where
  pub held : Bool
  pub count : ℕ
  pub timestamp : ℕ

pub record Button : Type 0 where
  pub silence_interval : ℕ
  pub hold_interval : ℕ
  pub hold_call_interval : ℕ
  pub press_wait_interval : ℕ
  pub reset_interval : ℕ
  pub hold_repeat : Bool
  pub hold : Bool
  pub click_count : ℕ
  pub last_impulse_time : ℕ
  pub last_button_hold_call_time : ℕ
  pub has_click_handler : Bool
  pub has_hold_handler : Bool
  pub has_hold_release_handler : Bool
  pub high_state : Bool
  pub used_for_wakeup : Bool
  pub hold_called : Bool
  pub last_interrupt_state : Bool
  pub last_state : ButtonState
  pub calls : List Call

abbrev pub init : Bool → Bool → Button
init high_state used_for_wakeup = record {
  silence_interval = 40;
  hold_interval = 500;
  hold_call_interval = 500;
  press_wait_interval = 500;
  reset_interval = 1000;
  hold_repeat = true;
  hold = false;
  click_count = 0;
  last_impulse_time = 0;
  last_button_hold_call_time = 0;
  has_click_handler = false;
  has_hold_handler = false;
  has_hold_release_handler = false;
  high_state = high_state;
  used_for_wakeup = used_for_wakeup;
  hold_called = false;
  last_interrupt_state = false;
  last_state = record { held = false; count = 0; timestamp = 0 };
  calls = [];
}

-- `digitalRead(_pin) ^ !_high_state`
abbrev pub read : Button → Bool → Bool
read b level = if b.high_state then level else not level

-- `waked_up` is the pin's bit of the wakeup status.
pub begin : Button → Bool → Bool → ℕ → Button
begin b level waked_up now =
    let b' =
      if b.used_for_wakeup && (not (read b level) && waked_up)
      then record b { last_impulse_time = now; click_count = 1 }
      else b in
    record b' { last_interrupt_state = read b level }

pub end : Button → Button
end b = record b { click_count = 0; hold = false }

abbrev pub handle_rising_interrupt : Button → ℕ → Button
handle_rising_interrupt b delta =
    if (not (b.click_count == 0) || b.hold) && ltb b.reset_interval delta
    then record b { hold = false; click_count = 0 }
    else b

abbrev pub handle_falling_interrupt : Button → ℕ → Button
handle_falling_interrupt b delta =
    if not b.hold then record b { click_count = b.click_count + 1 } else b

abbrev same : Bool → Bool → Bool
same true b = b
same false b = not b

unfoldable pub handle_interrupt_change : Button → Bool → ℕ → Button
handle_interrupt_change b level now =
    let delta = sub32 now b.last_impulse_time in
    let b' = record b { last_impulse_time = now } in
    let read_state = read b level in
    let state = if same read_state b.last_interrupt_state then not read_state else read_state in
    let b'' = record b' { last_interrupt_state = state } in
    if ltb delta b.silence_interval
    then b'
    else if state
    then handle_rising_interrupt b'' delta
    else handle_falling_interrupt b'' delta

call : Button → Bool → Call → Button
call b is_set c = if is_set then record b { calls = b.calls ++ (c ∷ []) } else b

-- The first half of `handle`: the hold begins or ends.
abbrev pub update_hold : Button → Bool → ℕ → Button
unfolding call
update_hold b state delta =
    if not b.hold && (state && leb b.hold_interval delta)
    then record b { hold = true; click_count = b.click_count + 1 }
    else if b.hold && not state
    then record (call b b.has_hold_release_handler (on_hold_release (b.click_count % u8_mod))) {
      hold = false;
      click_count = 0;
      last_interrupt_state = false;
      hold_called = false;
    }
    else b

-- The second half: the handlers of holds and clicks.
abbrev pub report : Button → ℕ → ℕ → Button
unfolding call
report b delta now =
    let shown : Bool → Button = λ held. record b {
      last_state = record { held = held; count = b.click_count % u8_mod; timestamp = now };
    } in
    if b.hold
    then if (not b.hold_called || b.hold_repeat)
        && leb b.hold_call_interval (sub32 now b.last_button_hold_call_time)
      then record (call (shown true) b.has_hold_handler (on_hold (b.click_count % u8_mod))) {
        hold_called = true;
        last_button_hold_call_time = now;
      }
      else b
    else if not (b.click_count == 0) && ltb b.press_wait_interval delta
    then record (call (shown false) b.has_click_handler (on_click (b.click_count % u8_mod))) {
      click_count = 0;
      last_interrupt_state = false;
    }
    else b

unfoldable pub handle : Button → Bool → ℕ → Button
unfolding update_hold report
handle b level now =
    let delta = sub32 now b.last_impulse_time in
    report (update_hold b (read b level) delta) delta now
