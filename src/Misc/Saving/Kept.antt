-- ===== src/Misc/Saving/Kept.antt =====
-- A scheduled save is kept through saves, passes of the timer and timers of other parts, until its time.
use native.Mathlib.Decide.{ℕ_discrete}
use esp_iot_framework.Prelude.{
  ℕ, ◌≡◌, refl, sym, ap, ◌∙◌, ◌≢◌, inl, inr, Bool, true, false, Option, none, some, List, [], ◌∷◌,
  arith, Bool-cases,
}
use esp_iot_framework.Misc.Storage
use esp_iot_framework.Misc.Storage.{Storage, save_interval, on_save_timer, begin}
use esp_iot_framework.Misc.Storage.Persistence.{save-save_timer_id}
use esp_iot_framework.Misc.Timer.{TimerEntry, Timer, new_entry, add}
use esp_iot_framework.Misc.Timer.Slots
use esp_iot_framework.Misc.Timer.Slots.{add_takes_free_slot, clear_frees_slot}
use esp_iot_framework.Misc.Saving.{
  commit_callback, Device, release, save, Action, changes, saves, adds, polls, act, run,
}
use esp_iot_framework.Misc.Saving.Scheduled.{
  entry_at, save_entry, is_commit, Pending, IsSound, is_inside, poll_lem,
}

-- When the storage's entry is gone, it has none.
record Released (t t' : Timer) : Type 0 where
  counted : Slots.IsValid t'
  no_commit : (k : ℕ) → is_commit (entry_at t'.entries k) ≡ false
  others :
      (k : ℕ)
      → is_commit (entry_at t.entries k) ≡ false
      → entry_at t'.entries k ≡ entry_at t.entries k

release-Released :
    (o : Option ℕ) (t : Timer)
    → Slots.IsValid t
    → Pending o t.entries
    → (t' : Timer) × (release o t ≡ some t') × Released t t'
unfolding release
release-Released none t v h = (t, refl, record { counted = v; no_commit = h; others = λ k e. refl })
release-Released (some id) t v (now, there, others) =
    let inside = is_inside t.entries id (ap (λ (e : TimerEntry). e.active) there) in
    let (t', e, freed, same, calls, v') = clear_frees_slot t id v inside in
    (
      t',
      e,
      record {
        counted = v';
        no_commit = λ k. elim (ℕ_discrete k id) [
          | yes here ↦ rw here (rw freed refl)
          | no other ↦ rw (same k other) (others k other)
        ];
        others = λ k plain. same k (λ here. absurd (
            let wrong : is_commit (entry_at t.entries id) ≡ true = rw there refl in
            let plain' : is_commit (entry_at t.entries id) ≡ false = rw here at plain in cc));
      },
    )

-- What an entry that was added to the timer changes of the storage's.
Pending-add :
    (o : Option ℕ) (es es' : List TimerEntry) (i : ℕ) (e : TimerEntry)
    → is_commit e ≡ false
    → (entry_at es i).active ≡ false
    → entry_at es' i ≡ e
    → ((j : ℕ) → j ≢ i → entry_at es' j ≡ entry_at es j)
    → Pending o es
    → Pending o es'
Pending-add none es es' i e plain free at_i same h = λ k. elim (ℕ_discrete k i) [
  | yes here ↦ rw (here, at_i) plain
  | no other ↦ rw (same k other) (h k)
]
Pending-add (some id) es es' i e plain free at_i same (now, there, others) =
    let apart : id ≢ i = λ here.
      let busy : (entry_at es i).active ≡ true =
        ap (λ k. (entry_at es k).active) (sym here) ∙ ap (λ (x : TimerEntry). x.active) there in
      absurd (cc) in
    (
      now,
      same id apart ∙ there,
      λ k ne. elim (ℕ_discrete k i) [
        | yes here ↦ rw (here, at_i) plain
        | no other ↦ rw (same k other) (others k ne)
      ],
    )

-- A storage with a file system schedules a commit. What other parts have set stays.
pub save_lem :
    (d : Device) (now : ℕ)
    → IsSound d
    → d.storage.has_fs ≡ true
    → (d' : Device) × (id : ℕ) × (save d now true ≡ some d')
      × (d'.storage ≡ Storage.save d.storage (some id))
      × (entry_at d'.timer.entries id ≡ save_entry now)
      × ((k : ℕ)
          → is_commit (entry_at d.timer.entries k) ≡ false
          → (entry_at d.timer.entries k).active ≡ true
          → entry_at d'.timer.entries k ≡ entry_at d.timer.entries k)
      × IsSound d'
unfolding save
save_lem d now v fs =
    let (t, released, r) = release-Released d.storage.save_timer_id d.timer v.counted v.pending in
    let (i, found, free, here, same, counted) =
      add_takes_free_slot t (save_entry now) true r.counted refl (λ full. refl) in
    let t' = (add t (save_entry now) true).1 in
    let id = (add t (save_entry now) true).0 in
    let s' = Storage.save d.storage id in
    let held : s'.save_timer_id ≡ some i = save-save_timer_id d.storage id fs ∙ found in
    (
      record { storage = s'; timer = t' },
      i,
      rw (released, fs, save),
      ap (Storage.save d.storage) found,
      here,
      λ k plain busy.
          let before = r.others k plain in
          let apart : k ≢ i = λ at_i.
            let idle : (entry_at t.entries k).active ≡ false = rw at_i free in
            let busy' : (entry_at t.entries k).active ≡ true = rw before busy in absurd (cc) in
          same k apart ∙ before,
      record {
        counted = counted;
        pending = rw held (now, here, λ k other. rw (same k other) (r.no_commit k));
      },
    )

save-no_fs : (d : Device) (now : ℕ) → d.storage.has_fs ≡ false → save d now true ≡ some d
unfolding save
save-no_fs d now h = simp h

-- The callbacks of other parts are not the storage's.
abbrev AllOther : List Action → Type 0
AllOther [] = Unit {0}
AllOther (adds callback interval repeat parameter now ∷ actions) =
    (callback ≢ commit_callback) × AllOther actions
AllOther (changes bytes ∷ actions) = AllOther actions
AllOther (saves now ∷ actions) = AllOther actions
AllOther (polls clock ∷ actions) = AllOther actions

add-IsSound :
    (d : Device) (callback interval : ℕ) (repeat : Bool) (parameter now : ℕ)
    → IsSound d
    → callback ≢ commit_callback
    → IsSound (record d {
      timer = (add d.timer (new_entry callback interval repeat parameter now) true).1;
    })
add-IsSound d callback interval repeat parameter now v other =
    let e = new_entry callback interval repeat parameter now in
    let plain : is_commit e ≡ false = ground arith in
    let (i, found, free, here, same, counted) =
      add_takes_free_slot d.timer e true v.counted refl (λ full. refl) in
    record {
      counted = counted;
      pending =
          Pending-add d.storage.save_timer_id d.timer.entries (add d.timer e true).1.entries i e
            plain free here same v.pending;
    }

-- The step returns, with a sound device.
abbrev Goes : Option Device → Type 0
Goes o = (d' : Device) × (o ≡ some d') × IsSound d'

save-Goes : (d : Device) (now : ℕ) → IsSound d → Goes (save d now true)
save-Goes d now v = elim (Bool-cases d.storage.has_fs) [
  | inl fs ↦ let (d', id, e, storage, here, others, v') = save_lem d now v fs in (d', e, v')
  | inr no_fs ↦ (d, save-no_fs d now no_fs, v)
]

run-step :
    (d d' : Device) (a : Action) (actions : List Action)
    → act d a ≡ some d'
    → Goes (run d' actions)
    → Goes (run d (a ∷ actions))
unfolding run
run-step d d' a actions e g = rw (e, run) g

-- The storage's entry in the timer is where the storage thinks it is, and it has no other; the timer
-- knows how many slots are free. In any sequence of changes of the value, saves, passes of the timer and
-- timers that other parts set, with callbacks of their own and while there is memory for more slots, no
-- access is outside the timer's array, and at its end all that is so again.
pub run-IsSound :
    (actions : List Action) (d : Device)
    → IsSound d
    → AllOther actions
    → (d' : Device) × (run d actions ≡ some d') × IsSound d'
unfolding act run
run-IsSound [] d v h = (d, refl, v)
run-IsSound (changes bytes ∷ actions) d v h =
    run-IsSound actions (record d { storage = record d.storage { bytes = bytes } })
      (record { counted = v.counted; pending = v.pending }) h
run-IsSound (saves now ∷ actions) d v h =
    let (d', e, v') = save-Goes d now v in
    run-step d d' (saves now) actions e (run-IsSound actions d' v' h)
run-IsSound (adds callback interval repeat parameter now ∷ actions) d v h =
    run-IsSound actions
      (record d { timer = (add d.timer (new_entry callback interval repeat parameter now) true).1 })
      (add-IsSound d callback interval repeat parameter now v h.0) h.1
run-IsSound (polls clock ∷ actions) d v h =
    let (d', e, storage, entries, v') = poll_lem d clock v in
    run-step d d' (polls clock) actions e (run-IsSound actions d' v' h)
