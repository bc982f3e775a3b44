-- ===== src/Misc/Saving/Surviving.antt =====
-- What a restart finds after a save: the value that the storage had when the time of the save was up.
use esp_iot_framework.Prelude.{
  ℕ, ◌+◌, ◌≤◌, ◌<◌, ◌≡◌, refl, sym, ap, ◌∙◌, true, false, Option, none, some, List, arith,
  if◌then◌else◌, length, Bytes, sub32,
}
use esp_iot_framework.Misc.Storage
use esp_iot_framework.Misc.Storage.{
  Storage, save_interval, on_save_timer, commit_impl, begin, is_pending_commit,
}
use esp_iot_framework.Misc.Storage.Persistence
use esp_iot_framework.Misc.Storage.Persistence.{begin-commit_impl, commit_impl-save_timer_id}
use esp_iot_framework.Misc.Timer.{TimerEntry, is_due}
use esp_iot_framework.Misc.Timer.Round.{after_round}
use esp_iot_framework.Misc.Saving.{Device, save, poll}
use esp_iot_framework.Misc.Saving.Scheduled.{
  entry_at, save_entry, IsSound, after_rounds-at, after_pass, on_save_timer-save_timer_id, poll_lem,
}
use esp_iot_framework.Misc.Saving.Kept.{save_lem}

-- A save changes two fields of a storage.
save-fields :
    (s : Storage) (o : Option ℕ)
    → s.has_fs ≡ true
    → Storage.save s o
      ≡ record s { save_timer_id = o; timer_calls = (Storage.save s o).timer_calls }
unfolding Storage.save
save-fields s o fs = ground (arith, fs)

early-is_due : (now at : ℕ) → sub32 at now < save_interval → is_due (save_entry now) at ≡ false
early-is_due now at h = ground arith

late-is_due : (now at : ℕ) → save_interval ≤ sub32 at now → is_due (save_entry now) at ≡ true
late-is_due now at h = ground arith

pass_at :
    (o : Option ℕ) (s : Storage) (es : List TimerEntry) (clock : ℕ → ℕ) (id now : ℕ)
    → o ≡ some id
    → entry_at es id ≡ save_entry now
    → after_pass o s es clock ≡ (if is_due (save_entry now) (clock id) then on_save_timer s else s)
pass_at o s es clock id now held there = rw (held, there) refl

abbrev pub with_bytes : Device → Bytes → Device
with_bytes d bytes = record d { storage = record d.storage { bytes = bytes } }

-- A storage that starts with what a file holds.
abbrev pub restarted : Storage → Option Bytes → Storage
restarted s f = record s { has_fs = false; bytes = s.blank; file = f }

-- What the storage is after a pass, when its save was scheduled for `now` at `id`.
passed :
    (d : Device) (clock : ℕ → ℕ) (id now : ℕ)
    → IsSound d
    → d.storage.save_timer_id ≡ some id
    → entry_at d.timer.entries id ≡ save_entry now
    → (d' : Device) × (poll d clock ≡ some d')
      × (d'.storage
          ≡ (if is_due (save_entry now) (clock id) then on_save_timer d.storage else d.storage))
      × (entry_at d'.timer.entries id ≡ after_round (save_entry now) (clock id))
      × IsSound d'
passed d clock id now v held there =
    let (d', e, storage, entries, v') = poll_lem d clock v in
    let zero_plus : 0 + id ≡ id = omega arith in
    (
      d',
      e,
      storage ∙ pass_at d.storage.save_timer_id d.storage d.timer.entries clock id now held there,
      ap (λ es. entry_at es id) entries
          ∙ after_rounds-at d.timer.entries clock 0 id
          ∙ rw (there, zero_plus) refl,
      v',
    )

-- The storage of a device whose save was scheduled, then whose value changed.
abbrev changed : Storage → ℕ → Bytes → Storage
changed s id bytes = record s {
  save_timer_id = some id;
  timer_calls = (Storage.save s (some id)).timer_calls;
  bytes = bytes;
}

saved_then_changed :
    (d : Device) (now : ℕ) (bytes : Bytes)
    → IsSound d
    → d.storage.has_fs ≡ true
    → (saved : Device) × (id : ℕ) × (save d now true ≡ some saved)
      × ((with_bytes saved bytes).storage ≡ changed d.storage id bytes)
      × (entry_at saved.timer.entries id ≡ save_entry now)
      × IsSound (with_bytes saved bytes)
saved_then_changed d now bytes v fs =
    let (saved, id, e, storage, there, others, v') = save_lem d now v fs in
    (
      saved,
      id,
      e,
      ap (λ (s : Storage). record s { bytes = bytes })
          (storage ∙ save-fields d.storage (some id) fs),
      there,
      record { counted = v'.counted; pending = v'.pending },
    )

-- What was committed is there after a restart.
changed_survives :
    (s : Storage) (id : ℕ) (bytes : Bytes) (f : Option Bytes)
    → s.has_fs ≡ true
    → Persistence.IsValid s
    → length bytes ≡ length s.bytes
    → length s.blank ≡ length s.bytes
    → f ≡ (on_save_timer (changed s id bytes)).file
    → (begin (restarted s f)).bytes ≡ bytes
unfolding on_save_timer
changed_survives s id bytes f fs valid same_size blank_size e =
    begin-commit_impl (record (changed s id bytes) { save_timer_id = none }) (restarted s f)
      (record {
        version = valid.version;
        header = valid.header;
        size = omega (arith, valid.size, same_size);
      })
      fs refl refl (blank_size ∙ sym same_size) e

-- The storage has a file system and is well formed, the value that it starts with is as long as the one
-- that it has, and its entry in the timer is where it thinks it is. It is saved, then its value changes to one of the same size. While the save's interval has not passed,
-- a pass of the timer writes nothing. The first pass after that writes the file: a storage that starts
-- on it has the changed value. Then nothing is pending any more.
pub saved_value_survives :
    (d : Device) (now : ℕ) (bytes : Bytes) (soon late : ℕ → ℕ)
    → IsSound d
    → d.storage.has_fs ≡ true
    → Persistence.IsValid d.storage
    → length bytes ≡ length d.storage.bytes
    → length d.storage.blank ≡ length d.storage.bytes
    → ((i : ℕ) → sub32 (soon i) now < save_interval)
    → ((i : ℕ) → save_interval ≤ sub32 (late i) now)
    → (saved : Device) × (waiting : Device) × (committed : Device) × (save d now true ≡ some saved)
      × (poll (with_bytes saved bytes) soon ≡ some waiting)
      × (waiting.storage.file ≡ d.storage.file)
      × (poll waiting late ≡ some committed)
      × ((begin (restarted d.storage committed.storage.file)).bytes ≡ bytes)
      × (is_pending_commit committed.storage ≡ false)
saved_value_survives d now bytes soon late v fs valid same_size blank_size early due =
    let (saved, id, e, is_changed, there, v') = saved_then_changed d now bytes v fs in
    let after = changed d.storage id bytes in
    let (waiting, e', storage', there', v'') =
      passed (with_bytes saved bytes) soon id now v'
        (ap (λ (s : Storage). s.save_timer_id) is_changed) there in
    let not_yet = early-is_due now (soon id) (early id) in
    let kept : waiting.storage ≡ after = storage' ∙ rw not_yet is_changed in
    let (committed, e'', storage'', gone, v3) =
      passed waiting late id now v'' (ap (λ (s : Storage). s.save_timer_id) kept)
        (there' ∙ rw not_yet refl) in
    let now_due = late-is_due now (late id) (due id) in
    let written : committed.storage ≡ on_save_timer after =
      storage'' ∙ rw now_due (ap on_save_timer kept) in
    (
      saved,
      waiting,
      committed,
      e,
      e',
      ap (λ (s : Storage). s.file) kept,
      e'',
      changed_survives d.storage id bytes committed.storage.file fs valid same_size blank_size
          (ap (λ (s : Storage). s.file) written),
      ap (λ (s : Storage). is_pending_commit s) written
          ∙ rw (on_save_timer-save_timer_id after, is_pending_commit) refl,
    )
