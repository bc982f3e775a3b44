-- ===== src/Misc/Timer/Callbacks.antt =====
-- A pass of a timer's loop when the callbacks use the timer themselves.
use esp_iot_framework.Prelude.{
  ℕ, zero, suc, ◌+◌, ◌<◌, ◌≤◌, ◌≡◌, refl, sym, ap, ◌∙◌, inl, inr, true, false, Option, none, some,
  List, [], ◌∷◌, ◌++◌, arith, ◌==◌, if◌then◌else◌, ==_refl, Bool-cases, by_if, if_false, length,
  get_or, set, length-set, get_or-set_self, get_or-set_ne,
}
use esp_iot_framework.Misc.Timer.{
  TimerEntry, blank_entry, Timer, add, clear, is_due, start_entry, fire, round, rounds,
  handle_timers,
}
use esp_iot_framework.Misc.Timer.Slots.{
  free_slots, IsValid, free_slots-give, clear_busy, clear_idle,
}
use esp_iot_framework.Misc.Timer.Round.{started, set-set}
use esp_iot_framework.Misc.Timer.Reuse.{cleared_slot_is_next}

-- A callback returns, with as many slots as before and the free ones counted.
abbrev pub Keeps : ℕ → Option Timer → Type 0
Keeps n o = (t' : Timer) × (o ≡ some t') × (length t'.entries ≡ n) × IsValid t'

start_entry-active : (e : TimerEntry) (now : ℕ) → (start_entry e now).active ≡ e.active
start_entry-active e now = ground arith

-- An entry in place of one that is as much in use.
free_slots-same :
    (es : List TimerEntry) (i : ℕ) (e : TimerEntry)
    → (get_or es i blank_entry).active ≡ e.active
    → free_slots (set es i e) ≡ free_slots es
free_slots-same [] i e h = refl
free_slots-same (x ∷ es) zero e h = ground (arith, h)
free_slots-same (x ∷ es) (suc i) e h = ground (arith, free_slots-same es i e h)

pub clear-Keeps :
    (t : Timer) (i : ℕ) → IsValid t → i < length t.entries → Keeps (length t.entries) (clear t i)
clear-Keeps t i v h = elim (Bool-cases (get_or t.entries i blank_entry).active) [
  | inl busy ↦ (
    record t { entries = set t.entries i blank_entry; free_count = t.free_count + 1 },
    clear_busy t i h busy,
    length-set t.entries i blank_entry,
    omega (arith, v, free_slots-give t.entries i h busy),
  )
  | inr free ↦ (t, clear_idle t i h free, refl, v)
]

module _ (run_callback : ℕ → ℕ → Timer → Option Timer) where
  -- Whatever a callback does to a timer, it returns, and keeps the slots.
  abbrev pub AllKeep : Type 0
  AllKeep =
      (callback parameter : ℕ) (t : Timer)
      → IsValid t
      → Keeps (length t.entries) (run_callback callback parameter t)

  fire-returned :
      (t t' : Timer) (i now : ℕ) (e : TimerEntry)
      → get_or t.entries i blank_entry ≡ e
      → run_callback e.callback e.parameter (started t i e now) ≡ some t'
      → length t'.entries ≡ length t.entries
      → fire run_callback t i now
        ≡ (if (get_or t'.entries i blank_entry).repeat then some t' else clear t' i)
  unfolding fire
  fire-returned t t' i now e at_i called same =
      rw (at_i, called, same, ==_refl (length t.entries), fire)

  started-IsValid :
      (t : Timer) (i now : ℕ)
      → IsValid t
      → let t' = started t i (get_or t.entries i blank_entry) now in
        IsValid t' × (length t'.entries ≡ length t.entries)
  started-IsValid t i now v =
      let e = get_or t.entries i blank_entry in
      (
        v ∙ sym (free_slots-same t.entries i (start_entry e now) (sym (start_entry-active e now))),
        length-set t.entries i (start_entry e now),
      )

  fire-Keeps :
      (t : Timer) (i now : ℕ)
      → AllKeep
      → IsValid t
      → i < length t.entries
      → Keeps (length t.entries) (fire run_callback t i now)
  fire-Keeps t i now keep v h =
      let e = get_or t.entries i blank_entry in
      let (w, same) = started-IsValid t i now v in
      let (t', called, same', v') = keep e.callback e.parameter (started t i e now) w in
      let all_same : length t'.entries ≡ length t.entries = same' ∙ same in
      let cleared = clear-Keeps t' i v' (omega (arith, h, all_same)) in
      rw (fire-returned t t' i now e refl called all_same) (
        by_if (Keeps (length t.entries)) (get_or t'.entries i blank_entry).repeat (some t')
          (clear t' i) (t', refl, all_same, v') (rw all_same at cleared))

  round-Keeps :
      (t : Timer) (i now : ℕ)
      → AllKeep
      → IsValid t
      → i < length t.entries
      → Keeps (length t.entries) (round run_callback t i now)
  unfolding round
  round-Keeps t i now keep v h =
      by_if (Keeps (length t.entries)) (is_due (get_or t.entries i blank_entry) now)
        (fire run_callback t i now) (some t) (fire-Keeps t i now keep v h) (t, refl, refl, v)

  rounds-Keeps :
      (n i : ℕ) (t : Timer) (clock : ℕ → ℕ)
      → AllKeep
      → IsValid t
      → i + n ≤ length t.entries
      → Keeps (length t.entries) (rounds run_callback clock n t i)
  unfolding rounds
  rounds-Keeps zero i t clock keep v h = (t, refl, refl, v)
  rounds-Keeps (suc n) i t clock keep v h =
      let (t', e, same, v') = round-Keeps t i (clock i) keep v (omega arith) in
      let rest = rounds-Keeps n (i + 1) t' clock keep v' (omega (arith, same)) in
      rw (e, rounds) (rw same at rest)

  -- The timer knows how many slots are free. Whatever the callbacks do with it, setting and clearing
  -- timers, their own among them: if each of them returns and keeps the slots, of which it leaves as
  -- many as there are, a pass of the loop returns without an access outside the array, there are as
  -- many slots as before, and the free ones are counted right.
  pub handle_timers-IsValid :
      (t : Timer) (clock : ℕ → ℕ)
      → AllKeep
      → IsValid t
      → Keeps (length t.entries) (handle_timers run_callback t clock)
  unfolding handle_timers
  handle_timers-IsValid t clock keep v =
      by_if (Keeps (length t.entries)) (length t.entries == t.free_count) (some t)
        (rounds run_callback clock (length t.entries) t 0) (t, refl, refl, v)
        (rounds-Keeps (length t.entries) 0 t clock keep v (omega arith))

abbrev after_clear : TimerEntry → Option Timer → Option Timer
after_clear e none = none
after_clear e (some t) = some (add t e true).1

-- A callback that clears its own timer, at `id`, and sets another.
abbrev pub hand_over : ℕ → TimerEntry → ℕ → ℕ → Timer → Option Timer
hand_over id e callback parameter t = after_clear e (clear t id)

handed_over :
    (t : Timer) (id callback parameter : ℕ) (e : TimerEntry)
    → id < length t.entries
    → (get_or t.entries id blank_entry).active ≡ true
    → ((k : ℕ) → k < id → (get_or t.entries k blank_entry).active ≡ true)
    → hand_over id e callback parameter t ≡ some (record t { entries = set t.entries id e })
handed_over t id callback parameter e h busy below =
    let (t', cleared, added) = cleared_slot_is_next t id e h busy below in
    ap (after_clear e) cleared ∙ ap (λ p. some p.1) added

-- A timer is due, and the slots before its slot are in use. Its callback clears it and sets a timeout.
-- The timeout takes the slot that became free, and is cleared in its turn as the round goes on: it never
-- runs.
pub successor_is_cleared :
    (t : Timer) (id now : ℕ) (e : TimerEntry)
    → id < length t.entries
    → is_due (get_or t.entries id blank_entry) now ≡ true
    → ((k : ℕ) → k < id → (get_or t.entries k blank_entry).active ≡ true)
    → e.active ≡ true
    → e.repeat ≡ false
    → let due = get_or t.entries id blank_entry in
      round (hand_over id e) t id now
      ≡ some (record t {
        entries = set t.entries id blank_entry;
        free_count = t.free_count + 1;
        calls = t.calls ++ (due.callback, due.parameter) ∷ [];
      })
unfolding round
successor_is_cleared t id now e h due below active once =
    let x = get_or t.entries id blank_entry in
    let s = started t id x now in
    let in_s : id < length s.entries =
      omega (arith, h, length-set t.entries id (start_entry x now)) in
    let there = get_or-set_self t.entries id (start_entry x now) blank_entry h in
    let busy : (get_or s.entries id blank_entry).active ≡ true =
      let was : x.active ≡ true = ground (arith, due) in
      ap (λ (y : TimerEntry). y.active) there ∙ start_entry-active x now ∙ was in
    let called = handed_over s id x.callback x.parameter e in_s busy (λ k less.
      ap (λ (y : TimerEntry). y.active)
        (get_or-set_ne t.entries id k (start_entry x now) blank_entry
          (λ eq. absurd (omega (arith, eq, less))))
      ∙ below k less) in
    let t' = record s { entries = set s.entries id e } in
    let same = length-set s.entries id e ∙ length-set t.entries id (start_entry x now) in
    let e_there = get_or-set_self s.entries id e blank_entry in_s in
    rw due (
      fire-returned (hand_over id e) t t' id now x refl called same
      ∙ if_false (some t') (clear t' id) (ap (λ (y : TimerEntry). y.repeat) e_there ∙ once)
      ∙ clear_busy t' id (omega (arith, in_s, length-set s.entries id e))
          (ap (λ (y : TimerEntry). y.active) e_there ∙ active)
      ∙ ap (λ es. some (record t' { entries = es; free_count = t.free_count + 1 }))
          (set-set s.entries id e blank_entry
            ∙ set-set t.entries id (start_entry x now) blank_entry))
