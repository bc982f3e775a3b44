-- ===== src/Misc/Timer/Round.antt =====
-- One round of a timer's loop when the callback leaves the timer alone.
use esp_iot_framework.Prelude.{
  ℕ, zero, suc, ◌+◌, ◌<◌, ◌≡◌, refl, ap, ◌∙◌, inl, inr, true, false, Option, some, List, [], ◌∷◌,
  ◌++◌, arith, if◌then◌else◌, ==_refl, Bool-cases, length, get_or, set, length-append, length-set,
  get_or-set_self,
}
use esp_iot_framework.Misc.Timer.{
  TimerEntry, blank_entry, Timer, clear, is_due, start_entry, fire, round,
}
use esp_iot_framework.Misc.Timer.Slots.{clear_busy}

-- A callback that leaves the timer alone.
abbrev pub leave : ℕ → ℕ → Timer → Option Timer
leave callback parameter t = some t

-- An entry after a round: one that was due starts its interval anew if it repeats, and is gone if not.
abbrev pub after_round : TimerEntry → ℕ → TimerEntry
after_round e now =
    if is_due e now then if e.repeat then record e { created_at = now } else blank_entry else e

-- The entries after the rounds from index `i` on, and the callbacks that are called in them.
abbrev pub after_rounds : (ℕ → ℕ) → ℕ → List TimerEntry → List TimerEntry
after_rounds clock i [] = []
after_rounds clock i (e ∷ es) = after_round e (clock i) ∷ after_rounds clock (i + 1) es

abbrev pub due_calls : (ℕ → ℕ) → ℕ → List TimerEntry → List (ℕ × ℕ)
due_calls clock i [] = []
due_calls clock i (e ∷ es) =
    if is_due e (clock i)
    then (e.callback, e.parameter) ∷ due_calls clock (i + 1) es
    else due_calls clock (i + 1) es

get_or-middle :
    (xs : List TimerEntry) (e d : TimerEntry) (ys : List TimerEntry)
    → get_or (xs ++ e ∷ ys) (length xs) d ≡ e
get_or-middle [] e d ys = refl
get_or-middle (x ∷ xs) e d ys = get_or-middle xs e d ys

set-middle :
    (xs : List TimerEntry) (e f : TimerEntry) (ys : List TimerEntry)
    → set (xs ++ e ∷ ys) (length xs) f ≡ xs ++ f ∷ ys
set-middle [] e f ys = refl
set-middle (x ∷ xs) e f ys = ap (λ zs. x ∷ zs) (set-middle xs e f ys)

-- The timer when the entries before `es` have had their round.
abbrev pub timer_at : List TimerEntry → List TimerEntry → ℕ → List (ℕ × ℕ) → Timer
timer_at xs es n calls = record { entries = xs ++ es; free_count = n; calls = calls }

pub set-set : (es : List TimerEntry) (i : ℕ) (e f : TimerEntry) → set (set es i e) i f ≡ set es i f
set-set [] i e f = refl
set-set (x ∷ es) zero e f = refl
set-set (x ∷ es) (suc i) e f = ap (λ zs. x ∷ zs) (set-set es i e f)

-- The timer when the callback of entry `i` is called.
abbrev pub started : Timer → ℕ → TimerEntry → ℕ → Timer
started t i e now = record t {
  entries = set t.entries i (start_entry e now);
  calls = t.calls ++ (e.callback, e.parameter) ∷ [];
}

fire-leave :
    (t : Timer) (i now : ℕ) (e : TimerEntry)
    → get_or t.entries i blank_entry ≡ e
    → fire leave t i now ≡ (
        if (get_or (started t i e now).entries i blank_entry).repeat
        then some (started t i e now)
        else clear (started t i e now) i)
unfolding fire
fire-leave t i now e at_i =
    rw (at_i, length-set t.entries i (start_entry e now), ==_refl (length t.entries), fire)

fire_repeating :
    (t : Timer) (i now : ℕ) (e : TimerEntry)
    → get_or t.entries i blank_entry ≡ e
    → i < length t.entries
    → e.repeat ≡ true
    → fire leave t i now
      ≡ some (record t {
        entries = set t.entries i (record e { created_at = now });
        calls = t.calls ++ (e.callback, e.parameter) ∷ [];
      })
fire_repeating t i now e at_i h r =
    let kept = get_or-set_self t.entries i (start_entry e now) blank_entry h in
    fire-leave t i now e at_i ∙ rw (kept) (ground (arith, r))

fire_once :
    (t : Timer) (i now : ℕ) (e : TimerEntry)
    → get_or t.entries i blank_entry ≡ e
    → i < length t.entries
    → e.active ≡ true
    → e.repeat ≡ false
    → fire leave t i now
      ≡ some (record t {
        entries = set t.entries i blank_entry;
        free_count = t.free_count + 1;
        calls = t.calls ++ (e.callback, e.parameter) ∷ [];
      })
fire_once t i now e at_i h a r =
    let kept = get_or-set_self t.entries i (start_entry e now) blank_entry h in
    let busy : (get_or (started t i e now).entries i blank_entry).active ≡ true =
      rw kept (ground (arith, a, r)) in
    let still : (get_or (started t i e now).entries i blank_entry).repeat ≡ false =
      rw kept (ground (arith, r)) in
    let inside : i < length (started t i e now).entries =
      omega (arith, length-set t.entries i (start_entry e now)) in
    fire-leave t i now e at_i
    ∙ rw (
      still,
      clear_busy (started t i e now) i inside busy,
      set-set t.entries i (start_entry e now) blank_entry,
    )

round-fire :
    (t : Timer) (i now : ℕ) (e : TimerEntry)
    → get_or t.entries i blank_entry ≡ e
    → round leave t i now ≡ (if is_due e now then fire leave t i now else some t)
unfolding round
round-fire t i now e at_i = rw (at_i, round)

pub round-lem :
    (xs es : List TimerEntry) (e : TimerEntry) (n : ℕ) (calls : List (ℕ × ℕ)) (now : ℕ)
    → round leave (timer_at xs (e ∷ es) n calls) (length xs) now
      ≡ some (
          timer_at xs
            (after_round e now ∷ es)
            (if is_due e now then if e.repeat then n else n + 1 else n)
            (if is_due e now then calls ++ (e.callback, e.parameter) ∷ [] else calls))
round-lem xs es e n calls now =
    let t = timer_at xs (e ∷ es) n calls in
    let here = get_or-middle xs e blank_entry es in
    let inside : length xs < length (xs ++ e ∷ es) = omega (arith, length-append xs (e ∷ es)) in
    round-fire t (length xs) now e here ∙ elim (Bool-cases (is_due e now)) [
      | inr early ↦ simp early
      | inl due ↦ elim (Bool-cases e.repeat) [
        | inl again ↦
            let fired = fire_repeating t (length xs) now e here inside again in
            simp (due, again)
              (fired ∙ ap some (rw (set-middle xs e (record e { created_at = now }) es, again)))
        | inr once ↦
            let fired = fire_once t (length xs) now e here inside (ground (arith, due)) once in
            simp (due, once) (fired ∙ ap some (rw (set-middle xs e blank_entry es)))
      ]
    ]
