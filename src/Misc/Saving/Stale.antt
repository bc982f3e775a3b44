-- ===== src/Misc/Saving/Stale.antt =====
-- What a forced save leaves behind: the storage keeps the number of a timer that is not its any more.
use esp_iot_framework.Prelude.{
  ℕ, ◌<◌, ◌≡◌, refl, sym, ap, subst, ◌∙◌, ◌≢◌, true, some, arith, length, get_or-set_self,
  get_or-set_ne, set, length-set,
}
use esp_iot_framework.Misc.Storage
use esp_iot_framework.Misc.Storage.Persistence.{force_save-fields}
use esp_iot_framework.Misc.Timer.{TimerEntry, blank_entry, Timer, add, clear}
use esp_iot_framework.Misc.Timer.Reuse.{cleared_slot_is_next}
use esp_iot_framework.Misc.Saving.{Device, release, save, force_save}
use esp_iot_framework.Misc.Saving.Scheduled.{entry_at, save_entry, IsSound, Pending, is_inside}

-- A save of a storage with a file system, whose number is that of a timer in use.
save_over :
    (d : Device) (t : Timer) (id now : ℕ)
    → d.storage.has_fs ≡ true
    → d.storage.save_timer_id ≡ some id
    → release (some id) d.timer ≡ some t
    → save d now true
      ≡ some (record {
        storage = Storage.save d.storage (add t (save_entry now) true).0;
        timer = (add t (save_entry now) true).1;
      })
unfolding save
save_over d t id now fs held e = simp (fs, held, e)

force_over :
    (d : Device) (t : Timer) (id : ℕ)
    → d.storage.save_timer_id ≡ some id
    → release (some id) d.timer ≡ some t
    → force_save d ≡ some (record { storage = Storage.force_save d.storage; timer = t })
unfolding force_save
force_over d t id held e =
    let released : release d.storage.save_timer_id d.timer ≡ some t =
      ap (λ o. release o d.timer) held ∙ e in
    rw (released, force_save) refl

-- The timer with `e` at `id`.
abbrev with_entry : Timer → ℕ → TimerEntry → Timer
with_entry t id e = record t { entries = set t.entries id e }

at_same :
    (t : Timer) (id : ℕ) (e : TimerEntry)
    → id < length t.entries
    → entry_at (with_entry t id e).entries id ≡ e
at_same t id e inside = get_or-set_self t.entries id e blank_entry inside

at_other :
    (t : Timer) (id k : ℕ) (e : TimerEntry)
    → k ≢ id
    → entry_at (with_entry t id e).entries k ≡ entry_at t.entries k
at_other t id k e other = get_or-set_ne t.entries id k e blank_entry (λ same. other (sym same))

-- The first slots are in use, that of `id` the last of them: it is cleared and taken by `e`, then cleared
-- and taken by `e'`.
taken_twice :
    (t : Timer) (id : ℕ) (e e' : TimerEntry)
    → id < length t.entries
    → (entry_at t.entries id).active ≡ true
    → ((k : ℕ) → k < id → (entry_at t.entries k).active ≡ true)
    → e.active ≡ true
    → (t1 : Timer) × (t3 : Timer) × (clear t id ≡ some t1)
      × ((add t1 e true).1 ≡ with_entry t id e)
      × (clear (with_entry t id e) id ≡ some t3)
      × ((add t3 e' true).1 ≡ with_entry (with_entry t id e) id e')
taken_twice t id e e' inside active below busy =
    let (t1, cleared, next) = cleared_slot_is_next t id e inside active below in
    let t2 = with_entry t id e in
    let (t3, cleared3, next3) =
      cleared_slot_is_next t2 id e' (omega (arith, inside, length-set t.entries id e))
        (ap (λ (x : TimerEntry). x.active) (at_same t id e inside) ∙ busy)
        (λ k less.
          ap (λ (x : TimerEntry). x.active)
            (at_other t id k e (λ same. absurd (omega (arith, same, less))))
          ∙ below k less) in
    (t1, t3, cleared, ap (λ p. p.1) next, cleared3, ap (λ p. p.1) next3)

-- The storage and the timer agree on a save that is scheduled, and the timer's slots before its slot are
-- in use. The save is forced; then another part sets a timer;
-- then the value is saved again. That clears the other part's timer, which is in no slot any more: its
-- slot is the storage's, and the other slots are as they were before it was set.
pub forced_save_is_stale :
    (d : Device) (id now : ℕ) (e : TimerEntry)
    → IsSound d
    → d.storage.has_fs ≡ true
    → d.storage.save_timer_id ≡ some id
    → ((k : ℕ) → k < id → (entry_at d.timer.entries k).active ≡ true)
    → e.active ≡ true
    → (forced : Device) × (last : Device) × (force_save d ≡ some forced)
      × (let added = record forced { timer = (add forced.timer e true).1 } in
          (entry_at added.timer.entries id ≡ e) × (save added now true ≡ some last))
      × (entry_at last.timer.entries id ≡ save_entry now)
      × ((k : ℕ) → k ≢ id → entry_at last.timer.entries k ≡ entry_at d.timer.entries k)
unfolding release
forced_save_is_stale d id now e v fs held below busy =
    let (scheduled, there, others) = subst (λ o. Pending o d.timer.entries) held v.pending in
    let active : (entry_at d.timer.entries id).active ≡ true =
      ap (λ (x : TimerEntry). x.active) there in
    let inside = is_inside d.timer.entries id active in
    let inside2 : id < length (with_entry d.timer id e).entries =
      omega (arith, inside, length-set d.timer.entries id e) in
    let (t1, t3, cleared, taken, cleared3, taken3) =
      taken_twice d.timer id e (save_entry now) inside active below busy in
    let forced : Device = record { storage = Storage.force_save d.storage; timer = t1 } in
    let fields = force_save-fields d.storage in
    let added : Device = record forced { timer = (add t1 e true).1 } in
    let last : Device = record {
      storage = Storage.save added.storage (add t3 (save_entry now) true).0;
      timer = (add t3 (save_entry now) true).1;
    } in
    (
      forced,
      last,
      force_over d t1 id held cleared,
      (
        ap (λ (x : Timer). entry_at x.entries id) taken ∙ at_same d.timer id e inside,
        save_over added t3 id now (ap (λ (x : Storage.Storage). x.has_fs) fields ∙ fs)
            (ap (λ (x : Storage.Storage). x.save_timer_id) fields ∙ held)
            (ap (λ (x : Timer). release (some id) x) taken ∙ cleared3),
      ),
      ap (λ (x : Timer). entry_at x.entries id) taken3
          ∙ at_same (with_entry d.timer id e) id (save_entry now) inside2,
      λ k other.
          ap (λ (x : Timer). entry_at x.entries k) taken3
          ∙ at_other (with_entry d.timer id e) id k (save_entry now) other
          ∙ at_other d.timer id k e other,
    )
