-- ===== src/Misc/Timer/Reuse.antt =====
-- The slot that a cleared timer leaves is the next one's.
use esp_iot_framework.Prelude.{
  ℕ, zero, suc, ◌+◌, ◌-◌, ◌<◌, ◌≡◌, refl, ap, ap₂, ◌∙◌, true, false, some, List, [], ◌∷◌, arith,
  ◌==◌, length, get_or, set, length-set, get_or-set_self, get_or-set_ne,
}
use esp_iot_framework.Misc.Timer.{TimerEntry, blank_entry, Timer, find_free, make_room, add, clear}
use esp_iot_framework.Misc.Timer.Slots.{clear_busy, take_slot_found}
use esp_iot_framework.Misc.Timer.Round.{set-set}

first_free :
    (es : List TimerEntry) (i : ℕ)
    → i < length es
    → (get_or es i blank_entry).active ≡ false
    → ((k : ℕ) → k < i → (get_or es k blank_entry).active ≡ true)
    → find_free es ≡ some i
unfolding find_free
first_free [] i h free busy = absurd (omega arith)
first_free (e ∷ es) zero h free busy = rw free refl
first_free (e ∷ es) (suc i) h free busy =
    let rest =
      first_free es i (omega arith) free (λ k below. busy (suc k) (omega (arith, below))) in
    rw (busy 0 (omega arith), rest) (ap some (omega arith))

room_is_there :
    (t : Timer) (e : TimerEntry) (i : ℕ)
    → find_free t.entries ≡ some i
    → 0 < t.free_count
    → add t e true
      ≡ (some i, record t { entries = set t.entries i e; free_count = t.free_count - 1 })
unfolding add make_room
room_is_there t e i found room =
    let some_free : (t.free_count == 0) ≡ false = ground arith in
    rw some_free (take_slot_found t e i found)

-- All slots before one in use are in use: when it is cleared, the next timer takes it.
pub cleared_slot_is_next :
    (t : Timer) (i : ℕ) (e : TimerEntry)
    → i < length t.entries
    → (get_or t.entries i blank_entry).active ≡ true
    → ((k : ℕ) → k < i → (get_or t.entries k blank_entry).active ≡ true)
    → (t' : Timer) × (clear t i ≡ some t')
      × (add t' e true ≡ (some i, record t { entries = set t.entries i e }))
cleared_slot_is_next t i e h busy below =
    let es = set t.entries i blank_entry in
    let t' = record t { entries = es; free_count = t.free_count + 1 } in
    let inside : i < length es = omega (arith, length-set t.entries i blank_entry) in
    let free : (get_or es i blank_entry).active ≡ false =
      ap (λ (x : TimerEntry). x.active) (get_or-set_self t.entries i blank_entry blank_entry h) in
    let found = first_free es i inside free (λ k less.
      ap (λ (x : TimerEntry). x.active)
        (get_or-set_ne t.entries i k blank_entry blank_entry
          (λ same. absurd (omega (arith, same, less))))
      ∙ below k less) in
    (
      t',
      clear_busy t i h busy,
      room_is_there t' e i found (omega arith)
          ∙ ap₂ (λ xs n. (some i, record t { entries = xs; free_count = n }))
              (set-set t.entries i blank_entry e) (omega arith),
    )
