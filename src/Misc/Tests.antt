-- ===== src/Misc/Tests.antt =====
-- The theorems about the circular buffer at a buffer of two slots.
use esp_iot_framework.Prelude.{
  ℕ, ◌≡◌, refl, Bool, true, false, Option, none, some, List, [], ◌∷◌, arith,
}
use esp_iot_framework.Misc.CircularBuffer.{init, put, get}
use esp_iot_framework.Misc.CircularBuffer.Queue.{Call, run, run_queue, run-init}
use esp_iot_framework.Misc.Led.{Led, flash, blink, ticks}
use esp_iot_framework.Misc.Led.Blinking.{blink_turns_off}
use esp_iot_framework.Misc.Button.{Button, on_click, handle_interrupt_change, handle}
use esp_iot_framework.Misc.Button.Holding.{polls, hold_calls}
use esp_iot_framework.Misc.Button.{on_hold, on_hold_release}
use esp_iot_framework.Misc.Button.Clicks.{Press, presses, handle-presses}
use esp_iot_framework.Misc.Timer.{Timer, new_entry, handle_timers}
use esp_iot_framework.Misc.Timer.Slots
use esp_iot_framework.Misc.Timer.Slots.{add_takes_free_slot}
use esp_iot_framework.Misc.Timer.Round.{leave}
use esp_iot_framework.Misc.Timer.Firing.{handle_timers_fires}
use esp_iot_framework.Misc.Led
use esp_iot_framework.Misc.Button
use esp_iot_framework.Prelude.{
  Bool-cases, inl, inr, get_or, ltb, ltb→lt, if◌then◌else◌, length, ◌<◌,
}
use esp_iot_framework.Misc.Timer.{TimerEntry, blank_entry, clear, round}
use esp_iot_framework.Misc.Timer.Callbacks.{
  Keeps, AllKeep, clear-Keeps, handle_timers-IsValid, hand_over, successor_is_cleared,
}
use esp_iot_framework.Misc.Vector.{Vector, empty, of_list, destroy}
use esp_iot_framework.Misc.Vector
use esp_iot_framework.Misc.Vector.Lifetimes.{cleared_vector_leaks}

abbrev calls : List (Call {A = ℕ} 0)
calls =
    Call.puts 4
    ∷ Call.puts 5
    ∷ Call.puts 6
    ∷ Call.gets
    ∷ Call.puts 7
    ∷ Call.gets
    ∷ Call.gets
    ∷ Call.gets
    ∷ []

abbrev answers : List (Bool × Option ℕ)
answers =
    (true, none)
    ∷ (true, none)
    ∷ (false, none)
    ∷ (true, some 4)
    ∷ (true, none)
    ∷ (true, some 5)
    ∷ (true, some 7)
    ∷ (true, none)
    ∷ []

run-calls : run 0 (init 0 2) calls ≡ answers
unfolding init put get run
run-calls = refl

run-init_example : run 0 (init 0 2) calls ≡ run_queue 0 2 [] calls
run-init_example = run-init 0 2 calls (omega arith) (omega arith)

abbrev led : Led
led = record Led.init { initialized = true }

blink_turns_off_example : (ticks (blink led 2 false 1000) (1201 ∷ 1402 ∷ [])).active ≡ false
blink_turns_off_example =
    blink_turns_off led 2 1000 (1201 ∷ 1402 ∷ []) refl refl (omega arith) (ground arith)

abbrev button : Button
button = record (Button.init true false) { has_click_handler = true }

-- Two presses, the first after ten seconds; the level of the second was read when the button was up.
abbrev press_one : Press
press_one = record {
  pressed = 10000;
  pressed_level = true;
  released = 10100;
  released_level = false;
}

abbrev press_two : Press
press_two = record {
  pressed = 10300;
  pressed_level = false;
  released = 10400;
  released_level = false;
}

handle-presses_example :
    let b = handle (presses button (press_one ∷ press_two ∷ [])) false 11000 in
    (b.calls ≡ on_click 2 ∷ [])
    × (b.click_count ≡ 0)
    × (b.hold ≡ false)
    × (b.last_state ≡ record { held = false; count = 2; timestamp = 11000 })
handle-presses_example =
    handle-presses button press_one (press_two ∷ []) false 11000 refl refl refl (omega arith)
      (omega arith) (ground arith) refl (omega arith)

-- A click, and a press that is held: the polls at 600 and 1200 ring, the one at 800 does not.
abbrev held_button : Button
held_button = record button {
  click_count = 1;
  last_impulse_time = 100;
  has_hold_handler = true;
  has_hold_release_handler = true;
}

hold_calls_example :
    let b' = handle (polls held_button true (150 ∷ 599 ∷ 600 ∷ 800 ∷ 1200 ∷ [])) false 1300 in
    (b'.calls ≡ on_hold 2 ∷ on_hold 2 ∷ on_hold_release 2 ∷ [])
    × (b'.hold ≡ false)
    × (b'.click_count ≡ 0)
    × (b'.hold_called ≡ false)
hold_calls_example =
    hold_calls held_button true (150 ∷ 599 ∷ []) (800 ∷ 1200 ∷ []) 600 1300 refl refl refl refl refl
      (omega arith, omega arith, (omega arith, omega arith, tt)) (omega arith)

-- An interval that is due, and a timeout that is not.
abbrev timer : Timer
timer = record {
  entries = new_entry 5 100 true 1 0 ∷ new_entry 6 900 false 2 0 ∷ [];
  free_count = 0;
  calls = [];
}

handle_timers_fires_example :
    (t : Timer) × (handle_timers leave timer (λ i. 150) ≡ some t)
    × (t.entries ≡ new_entry 5 100 true 1 150 ∷ new_entry 6 900 false 2 0 ∷ [])
    × (t.calls ≡ (5, 1) ∷ [])
    × Slots.IsValid t
handle_timers_fires_example = handle_timers_fires timer (λ i. 150) refl

-- A callback that clears the timer whose number is its parameter.
abbrev clear_given : ℕ → ℕ → Timer → Option Timer
clear_given callback id t = if ltb id (length t.entries) then clear t id else some t

clear_given-AllKeep : AllKeep clear_given
clear_given-AllKeep callback id t v = elim (Bool-cases (ltb id (length t.entries))) [
  | inl inside ↦ rw inside (clear-Keeps t id v (ltb→lt id (length t.entries) inside))
  | inr outside ↦ rw outside (t, refl, refl, v)
]

handle_timers-IsValid_example : Keeps 2 (handle_timers clear_given timer (λ i. 1000))
handle_timers-IsValid_example =
    handle_timers-IsValid clear_given timer (λ i. 1000) clear_given-AllKeep refl

-- An interval in the first slot ends itself and sets a timeout.
abbrev successor : TimerEntry
successor = new_entry 9 50 false 0 150

below_first : (k : ℕ) → k < 0 → (get_or timer.entries k blank_entry).active ≡ true
below_first k h = absurd (omega (arith, h))

successor_is_cleared_example :
    round (hand_over 0 successor) timer 0 150
    ≡ some (record {
      entries = blank_entry ∷ new_entry 6 900 false 2 0 ∷ [];
      free_count = 1;
      calls = (5, 1) ∷ [];
    })
successor_is_cleared_example =
    successor_is_cleared timer 0 150 successor (omega arith) refl below_first refl refl

cleared_vector_leaks_example :
    (v : Vector ℕ) × (of_list 0 (3 ∷ 4 ∷ []) ≡ some v)
    × (v.values ≡ 3 ∷ 4 ∷ [])
    × (destroy v ≡ (empty, 2))
    × (destroy (Vector.clear v) ≡ (record { capacity = 2; values = [] }, 0))
cleared_vector_leaks_example = cleared_vector_leaks 0 3 (4 ∷ [])
