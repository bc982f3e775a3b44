-- ===== src/Misc/Button/Clicks.antt =====
-- How the button counts clicks: its interrupts and its poll together.
use esp_iot_framework.Prelude.{
  ℕ, suc, ◌+◌, ◌%◌, ◌≤◌, ◌<◌, ◌≡◌, refl, ap, ap₂, ◌∙◌, ◌≢◌, Bool, true, false, List, [], ◌∷◌, ◌++◌,
  arith, if◌then◌else◌, sub32, length,
}
use esp_iot_framework.Misc.Button.{Button, on_click, read, handle_interrupt_change, handle}

-- An edge is told from the one before it, whatever level the pin is read at.
handle_interrupt_change-level :
    (b : Button) (one other : Bool) (now : ℕ)
    → handle_interrupt_change b one now ≡ handle_interrupt_change b other now
unfolding handle_interrupt_change
handle_interrupt_change-level b one other now = ground arith

-- The interrupts of a press and the release after it, with the levels that were read.
pub record Press : Type 0 where
  pub pressed : ℕ
  pub pressed_level : Bool
  pub released : ℕ
  pub released_level : Bool

abbrev press : Button → Press → Button
press b p =
    handle_interrupt_change (handle_interrupt_change b p.pressed_level p.pressed) p.released_level
      p.released

pub presses : Button → List Press → Button
presses b [] = b
presses b (p ∷ ps) = presses (press b p) ps

-- Each edge comes at least `silence` after the one before it, and each press at most `reset` after
-- the release before it.
abbrev Debounced : ℕ → ℕ → ℕ → List Press → Type 0
Debounced silence reset last [] = Unit {0}
Debounced silence reset last (p ∷ ps) =
    (silence ≤ sub32 p.pressed last)
    × (sub32 p.pressed last ≤ reset)
    × (silence ≤ sub32 p.released p.pressed)
    × Debounced silence reset p.released ps

abbrev last_release : ℕ → List Press → ℕ
last_release last [] = last
last_release last (p ∷ ps) = last_release p.released ps

rising :
    (b : Button) (level : Bool) (now : ℕ)
    → b.hold ≡ false
    → b.last_interrupt_state ≡ false
    → b.silence_interval ≤ sub32 now b.last_impulse_time
    → sub32 now b.last_impulse_time ≤ b.reset_interval
    → handle_interrupt_change b level now
      ≡ record b { last_impulse_time = now; last_interrupt_state = true }
unfolding handle_interrupt_change
rising b level now h s x y = ground (arith, h, s)

rising_at_rest :
    (b : Button) (level : Bool) (now : ℕ)
    → b.hold ≡ false
    → b.click_count ≡ 0
    → b.last_interrupt_state ≡ false
    → b.silence_interval ≤ sub32 now b.last_impulse_time
    → handle_interrupt_change b level now
      ≡ record b { last_impulse_time = now; last_interrupt_state = true }
unfolding handle_interrupt_change
rising_at_rest b level now h c s x = ground (arith, h, c, s)

falling :
    (b : Button) (level : Bool) (now : ℕ)
    → b.hold ≡ false
    → b.last_interrupt_state ≡ true
    → b.silence_interval ≤ sub32 now b.last_impulse_time
    → handle_interrupt_change b level now ≡ record b {
      last_impulse_time = now;
      last_interrupt_state = false;
      click_count = b.click_count + 1;
    }
unfolding handle_interrupt_change
falling b level now h s x = ground (arith, h, s)

press-lem :
    (b : Button) (p : Press)
    → b.hold ≡ false
    → b.last_interrupt_state ≡ false
    → b.silence_interval ≤ sub32 p.pressed b.last_impulse_time
    → sub32 p.pressed b.last_impulse_time ≤ b.reset_interval
    → b.silence_interval ≤ sub32 p.released p.pressed
    → press b p ≡ record b {
      click_count = b.click_count + 1;
      last_impulse_time = p.released;
      last_interrupt_state = false;
    }
press-lem b p h s x y z = rw (rising b p.pressed_level p.pressed h s x y) (
    falling (record b { last_impulse_time = p.pressed; last_interrupt_state = true })
      p.released_level p.released h refl z)

-- Every debounced press counts as one click.
presses-lem :
    (ps : List Press) (b : Button)
    → b.hold ≡ false
    → b.last_interrupt_state ≡ false
    → Debounced b.silence_interval b.reset_interval b.last_impulse_time ps
    → presses b ps ≡ record b {
      click_count = b.click_count + length ps;
      last_impulse_time = last_release b.last_impulse_time ps;
      last_interrupt_state = false;
    }
unfolding presses
presses-lem [] b h s d =
    ap₂ (λ n e. record b { click_count = n; last_interrupt_state = e }) (omega arith) s
presses-lem (p ∷ ps) b h s d = rw (press-lem b p h s d.0 d.1 d.2) (
    presses-lem ps
      (record b {
        click_count = b.click_count + 1;
        last_impulse_time = p.released;
        last_interrupt_state = false;
      })
      h refl d.3
    ∙ ap
        (λ n. record b {
          click_count = n;
          last_impulse_time = last_release p.released ps;
          last_interrupt_state = false;
        })
        (omega arith))

-- A released button that is polled late enough reports the clicks that it counted, once.
handle-clicks :
    (b : Button) (level : Bool) (now : ℕ)
    → b.hold ≡ false
    → read b level ≡ false
    → b.click_count ≢ 0
    → b.press_wait_interval < sub32 now b.last_impulse_time
    → let b' = handle b level now in
      (b'.calls ≡ (
        if b.has_click_handler then b.calls ++ (on_click (b.click_count % 256) ∷ []) else b.calls))
      × (b'.click_count ≡ 0)
      × (b'.hold ≡ false)
      × (b'.last_state ≡ record { held = false; count = b.click_count % 256; timestamp = now })
unfolding handle
handle-clicks b level now h r c d = ground (arith, h, r)

-- A press of a button at rest, however long that was.
first_press :
    (b : Button) (p : Press)
    → b.hold ≡ false
    → b.click_count ≡ 0
    → b.last_interrupt_state ≡ false
    → b.silence_interval ≤ sub32 p.pressed b.last_impulse_time
    → b.silence_interval ≤ sub32 p.released p.pressed
    → press b p ≡ record b {
      click_count = b.click_count + 1;
      last_impulse_time = p.released;
      last_interrupt_state = false;
    }
first_press b p h c s x z = rw (rising_at_rest b p.pressed_level p.pressed h c s x) (
    falling (record b { last_impulse_time = p.pressed; last_interrupt_state = true })
      p.released_level p.released h refl z)

-- From rest, at which the button may have been for any time, one press and any number of further ones,
-- whatever levels the interrupts read: each edge comes at least the silence after the one before it, and
-- each further press at most the reset interval after the release before it. A poll late enough behind
-- the last of them calls the click handler once, with their number as a `uint8_t`; the button is at rest
-- again.
pub handle-presses :
    (b : Button) (p : Press) (ps : List Press) (level : Bool) (now : ℕ)
    → b.hold ≡ false
    → b.click_count ≡ 0
    → b.last_interrupt_state ≡ false
    → b.silence_interval ≤ sub32 p.pressed b.last_impulse_time
    → b.silence_interval ≤ sub32 p.released p.pressed
    → Debounced b.silence_interval b.reset_interval p.released ps
    → read b level ≡ false
    → b.press_wait_interval < sub32 now (last_release p.released ps)
    → let b' = handle (presses b (p ∷ ps)) level now in
      let count = suc (length ps) % 256 in
      (b'.calls ≡ (if b.has_click_handler then b.calls ++ (on_click count ∷ []) else b.calls))
      × (b'.click_count ≡ 0)
      × (b'.hold ≡ false)
      × (b'.last_state ≡ record { held = false; count = count; timestamp = now })
unfolding presses
handle-presses b p ps level now h c s x z d r l =
    let once : Button = record b {
      click_count = b.click_count + 1;
      last_impulse_time = p.released;
      last_interrupt_state = false;
    } in
    let n : b.click_count + 1 + length ps ≡ suc (length ps) = omega arith in
    let counted : presses b (p ∷ ps) ≡ record b {
      click_count = suc (length ps);
      last_impulse_time = last_release p.released ps;
      last_interrupt_state = false;
    } =
      ap (λ b'. presses b' ps) (first_press b p h c s x z)
      ∙ presses-lem ps once h refl d
      ∙ ap
          (λ k. record b {
            click_count = k;
            last_impulse_time = last_release p.released ps;
            last_interrupt_state = false;
          })
          n in
    rw counted (
      handle-clicks
        (record b {
          click_count = suc (length ps);
          last_impulse_time = last_release p.released ps;
          last_interrupt_state = false;
        })
        level now h r (omega arith) l)
