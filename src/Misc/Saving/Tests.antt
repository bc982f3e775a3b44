-- ===== src/Misc/Saving/Tests.antt =====
-- The theorems about a storage and its timer, and about the time, at concrete ones.
use esp_iot_framework.Prelude.{
  ℕ, zero, suc, ◌<◌, ◌≡◌, refl, ◌≢◌, true, false, none, some, List, [], ◌∷◌, arith,
}
use esp_iot_framework.Misc.Storage.{Storage, begin, is_pending_commit}
use esp_iot_framework.Misc.Storage.Persistence
use esp_iot_framework.Misc.Timer.{TimerEntry, new_entry, add}
use esp_iot_framework.Misc.Saving.{
  Device, save, force_save, poll, Action, changes, saves, adds, polls, run,
}
use esp_iot_framework.Misc.Saving.Scheduled.{entry_at, is_commit, save_entry, IsSound}
use esp_iot_framework.Misc.Saving.Kept.{run-IsSound}
use esp_iot_framework.Misc.Saving.Surviving.{with_bytes, restarted, saved_value_survives}
use esp_iot_framework.Misc.Saving.Stale.{forced_save_is_stale}

abbrev storage : Storage
storage = record {
  has_fs = true;
  blank = 0 ∷ 0 ∷ [];
  bytes = 1 ∷ 2 ∷ [];
  version = 1;
  header = 0xd0c1f2c3;
  save_timer_id = none;
  file = none;
  writes = 0;
  timer_calls = [];
}

-- The timer of another part, and no save.
abbrev device : Device
device = record {
  storage = storage;
  timer = record { entries = new_entry 5 100 true 1 0 ∷ []; free_count = 0; calls = [] };
}

no_commit : (k : ℕ) → is_commit (entry_at device.timer.entries k) ≡ false
no_commit zero = refl
no_commit (suc zero) = refl
no_commit (suc (suc k)) = refl

device-IsSound : IsSound device
device-IsSound = record { counted = refl; pending = no_commit }

abbrev actions : List Action
actions =
    saves 10
    ∷ adds 6 500 false 0 20
    ∷ changes (3 ∷ 4 ∷ [])
    ∷ polls (λ i. 600)
    ∷ saves 700
    ∷ polls (λ i. 61000)
    ∷ []

run-IsSound_example : (d' : Device) × (run device actions ≡ some d') × IsSound d'
run-IsSound_example =
    run-IsSound actions device device-IsSound ((λ e. absurd (omega (arith, e))), tt)

valid : Persistence.IsValid storage
valid = record { version = omega arith; header = omega arith; size = omega arith }

saved_value_survives_example :
    (saved : Device) × (waiting : Device) × (committed : Device) × (save device 10 true
      ≡ some saved)
    × (poll (with_bytes saved (3 ∷ 4 ∷ [])) (λ i. 60009) ≡ some waiting)
    × (waiting.storage.file ≡ none)
    × (poll waiting (λ i. 60010) ≡ some committed)
    × ((begin (restarted storage committed.storage.file)).bytes ≡ 3 ∷ 4 ∷ [])
    × (is_pending_commit committed.storage ≡ false)
saved_value_survives_example =
    saved_value_survives device 10 (3 ∷ 4 ∷ []) (λ i. 60009) (λ i. 60010) device-IsSound refl valid
      refl refl (λ i. omega arith) (λ i. omega arith)

-- A save is scheduled, in the second slot.
abbrev scheduled : Device
scheduled = record {
  storage = record storage { save_timer_id = some 1 };
  timer = record {
    entries = new_entry 5 100 true 1 0 ∷ save_entry 10 ∷ [];
    free_count = 0;
    calls = [];
  };
}

no_other : (k : ℕ) → k ≢ 1 → is_commit (entry_at scheduled.timer.entries k) ≡ false
no_other zero ne = refl
no_other (suc zero) ne = absurd (ne refl)
no_other (suc (suc k)) ne = refl

busy_below : (k : ℕ) → k < 1 → (entry_at scheduled.timer.entries k).active ≡ true
busy_below zero h = refl
busy_below (suc k) h = absurd (omega (arith, h))

abbrev watchdog : TimerEntry
watchdog = new_entry 7 30000 false 0 900

forced_save_is_stale_example :
    (forced : Device) × (last : Device) × (force_save scheduled ≡ some forced)
    × (let added = record forced { timer = (add forced.timer watchdog true).1 } in
        (entry_at added.timer.entries 1 ≡ watchdog) × (save added 1000 true ≡ some last))
    × (entry_at last.timer.entries 1 ≡ save_entry 1000)
    × ((k : ℕ) → k ≢ 1 → entry_at last.timer.entries k ≡ entry_at scheduled.timer.entries k)
forced_save_is_stale_example =
    forced_save_is_stale scheduled 1 1000 watchdog
      (record { counted = refl; pending = (10, refl, no_other) }) refl refl busy_below refl
