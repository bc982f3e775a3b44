-- ===== src/Misc/Button/Holding.antt =====
-- What the button's poll calls while it is held and when it is let go.
use esp_iot_framework.Prelude.{
  ℕ, ◌+◌, ◌%◌, ◌≤◌, ◌<◌, ◌≡◌, refl, sym, ap, ◌∙◌, inl, inr, Bool, true, false, not, ◌&&◌, ◌||◌,
  List, [], ◌∷◌, ◌++◌, arith, leb, if◌then◌else◌, Bool-cases, sub32, append_assoc, append-nil, ap₂,
}
use esp_iot_framework.Misc.Button.{Button, Call, on_hold, on_hold_release, read, handle}

pub polls : Button → Bool → List ℕ → Button
polls b level [] = b
polls b level (t ∷ ts) = polls (handle b level t) level ts

-- The times of polls at which a held button rings: at the first that comes `interval` after `last`, and
-- if it repeats at each that comes as long after the one before.
abbrev rings : Bool → ℕ → ℕ → List ℕ → List ℕ
rings repeats interval last [] = []
rings repeats interval last (t ∷ ts) =
    if leb interval (sub32 t last)
    then t ∷ (if repeats then rings repeats interval t ts else [])
    else rings repeats interval last ts

abbrev calls_of : ℕ → List ℕ → List Call
calls_of count [] = []
calls_of count (t ∷ ts) = on_hold count ∷ calls_of count ts

handle-early :
    (b : Button) (level : Bool) (t : ℕ)
    → b.hold ≡ false
    → sub32 t b.last_impulse_time < b.hold_interval
    → sub32 t b.last_impulse_time ≤ b.press_wait_interval
    → handle b level t ≡ b
unfolding handle
handle-early b level t h x y = ground (arith, h)

-- The button when the hold has begun.
abbrev held : Button → Button
held b = record b { hold = true; click_count = b.click_count + 1 }

handle-held :
    (b : Button) (level : Bool) (t : ℕ)
    → b.hold ≡ false
    → read b level ≡ true
    → b.hold_interval ≤ sub32 t b.last_impulse_time
    → handle b level t ≡ handle (held b) level t
unfolding handle
handle-held b level t h pressed long = ground (arith, h, pressed)

-- The button when it has rung.
abbrev rung : Button → ℕ → Button
rung b t = record b {
  last_state = record { held = true; count = b.click_count % 256; timestamp = t };
  calls = b.calls ++ on_hold (b.click_count % 256) ∷ [];
  hold_called = true;
  last_button_hold_call_time = t;
}

handle-rung :
    (b : Button) (level : Bool) (t : ℕ)
    → b.hold ≡ true
    → b.has_hold_handler ≡ true
    → read b level ≡ true
    → handle b level t ≡ (
        if (not b.hold_called || b.hold_repeat)
          && leb b.hold_call_interval (sub32 t b.last_button_hold_call_time)
        then rung b t
        else b)
unfolding handle
handle-rung b level t h set pressed = ground (arith, h, set, pressed)

handle-released :
    (b : Button) (level : Bool) (t : ℕ)
    → b.hold ≡ true
    → b.has_hold_release_handler ≡ true
    → read b level ≡ false
    → handle b level t ≡ record b {
      calls = b.calls ++ on_hold_release (b.click_count % 256) ∷ [];
      hold = false;
      click_count = 0;
      last_interrupt_state = false;
      hold_called = false;
    }
unfolding handle
handle-released b level t h set released = ground (arith, h, set, released)

-- The times at which the polls `ts` of a held button ring.
abbrev rings_of : Button → List ℕ → List ℕ
rings_of b ts =
    if not b.hold_called || b.hold_repeat
    then rings b.hold_repeat b.hold_call_interval b.last_button_hold_call_time ts
    else []

-- A held button after polls that rang at `times`.
record Rang (b b' : Button) (times : List ℕ) : Type 0 where
  calls : b'.calls ≡ b.calls ++ calls_of (b.click_count % 256) times
  hold : b'.hold ≡ true
  click_count : b'.click_count ≡ b.click_count
  high_state : b'.high_state ≡ b.high_state
  has_hold_release_handler : b'.has_hold_release_handler ≡ b.has_hold_release_handler

Rang-rung :
    (b b' : Button) (t : ℕ) (times : List ℕ)
    → b.hold ≡ true
    → Rang (rung b t) b' times
    → Rang b b' (t ∷ times)
Rang-rung b b' t times h r = record {
  calls =
      r.calls
      ∙ append_assoc b.calls (on_hold (b.click_count % 256) ∷ [])
          (calls_of (b.click_count % 256) times);
  hold = r.hold;
  click_count = r.click_count;
  high_state = r.high_state;
  has_hold_release_handler = r.has_hold_release_handler;
}

Rang-self : (b : Button) (times : List ℕ) → b.hold ≡ true → times ≡ [] → Rang b b times
Rang-self b times h nothing = record {
  calls = rw nothing (sym (append-nil b.calls));
  hold = h;
  click_count = refl;
  high_state = refl;
  has_hold_release_handler = refl;
}

held_polls :
    (ts : List ℕ) (b : Button) (level : Bool)
    → b.hold ≡ true
    → b.has_hold_handler ≡ true
    → read b level ≡ true
    → Rang b (polls b level ts) (rings_of b ts)
unfolding polls
held_polls [] b level h set pressed = Rang-self b (rings_of b []) h (ground arith)
held_polls (t ∷ ts) b level h set pressed =
    let step = handle-rung b level t h set pressed in
    elim (Bool-cases (not b.hold_called || b.hold_repeat)) [
      | inl rings_still ↦
          elim (Bool-cases (leb b.hold_call_interval (sub32 t b.last_button_hold_call_time))) [
            | inl due ↦
                let rest = held_polls ts (rung b t) level h set pressed in
                rw (step, rings_still, due)
                  (Rang-rung b (polls (rung b t) level ts) t (rings_of (rung b t) ts) h rest)
            | inr early ↦
                let rest = held_polls ts b level h set pressed in
                rw (step, rings_still, early) (rw rings_still at rest)
          ]
      | inr quiet ↦
          let rest = held_polls ts b level h set pressed in rw (step, quiet) (rw quiet at rest)
    ]

-- Polls that come before the interval of a hold is over, and that of further presses.
abbrev AllEarly : Button → List ℕ → Type 0
AllEarly b [] = Unit {0}
AllEarly b (t ∷ ts) =
    (sub32 t b.last_impulse_time < b.hold_interval)
    × (sub32 t b.last_impulse_time ≤ b.press_wait_interval)
    × AllEarly b ts

early_polls :
    (ts : List ℕ) (b : Button) (level : Bool)
    → b.hold ≡ false
    → AllEarly b ts
    → polls b level ts ≡ b
unfolding polls
early_polls [] b level h early = refl
early_polls (t ∷ ts) b level h (soon, still, early) =
    ap (λ x. polls x level ts) (handle-early b level t h soon still)
    ∙ early_polls ts b level h early

polls-append :
    (ts us : List ℕ) (b : Button) (level : Bool)
    → polls b level (ts ++ us) ≡ polls (polls b level ts) level us
unfolding polls
polls-append [] us b level = refl
polls-append (t ∷ ts) us b level = polls-append ts us (handle b level t) level

-- A button that is not held and has reported no hold, whose handlers for a hold and its end are set, is
-- polled while it is down: first at times at which since its last edge neither the interval of a hold nor
-- that in which further presses are waited for is over, and then at some that begin when that of a hold
-- is. Then it is polled when it is up. The clicks before count with the hold, so that the handlers get
-- one more, in eight bits. The handler for a hold is called at each poll at which the button rings, the
-- one for its end once, after that, and no other; the clicks are forgotten, and the button is free for
-- the next hold.
pub hold_calls :
    (b : Button) (level : Bool) (soon ts : List ℕ) (begun ended : ℕ)
    → b.hold ≡ false
    → b.hold_called ≡ false
    → b.has_hold_handler ≡ true
    → b.has_hold_release_handler ≡ true
    → read b level ≡ true
    → AllEarly b soon
    → b.hold_interval ≤ sub32 begun b.last_impulse_time
    → let b' = handle (polls b level (soon ++ begun ∷ ts)) (not level) ended in
      let count = (b.click_count + 1) % 256 in
      let times =
        rings b.hold_repeat b.hold_call_interval b.last_button_hold_call_time (begun ∷ ts) in
      (b'.calls ≡ b.calls ++ calls_of count times ++ on_hold_release count ∷ [])
      × (b'.hold ≡ false)
      × (b'.click_count ≡ 0)
      × (b'.hold_called ≡ false)
unfolding polls
hold_calls b level soon ts begun ended h fresh set set_release pressed early long =
    let x = polls (held b) level (begun ∷ ts) in
    let during : polls b level (soon ++ begun ∷ ts) ≡ x =
      polls-append soon (begun ∷ ts) b level
      ∙ ap (λ y. polls y level (begun ∷ ts)) (early_polls soon b level h early)
      ∙ ap (λ y. polls y level ts) (handle-held b level begun h pressed long) in
    let r = held_polls (begun ∷ ts) (held b) level refl set pressed in
    let up : read x (not level) ≡ false =
      let same = r.high_state in ground (arith, same, pressed) in
    let e =
      ap (λ y. handle y (not level) ended) during
      ∙ handle-released x (not level) ended r.hold (r.has_hold_release_handler ∙ set_release) up in
    let count = (b.click_count + 1) % 256 in
    let times = rings_of (held b) (begun ∷ ts) in
    let told : x.calls ++ on_hold_release (x.click_count % 256) ∷ []
        ≡ b.calls ++ calls_of count times ++ on_hold_release count ∷ [] =
      ap₂ (λ cs n. cs ++ on_hold_release (n % 256) ∷ []) r.calls r.click_count in
    (
      ap (λ (y : Button). y.calls) e ∙ told ∙ rw fresh refl,
      ap (λ (y : Button). y.hold) e,
      ap (λ (y : Button). y.click_count) e,
      ap (λ (y : Button). y.hold_called) e,
    )
