-- ===== src/Misc/Saving.antt =====
-- misc/storage.h on misc/timer.cpp: a storage and the timer that it schedules its commits with. The
-- storage's lambda, with the storage's address, is the callback 0; other parts of the program have
-- timers with other callbacks in the same timer, which leave the timer alone. `none` is an access
-- outside the timer's array.
mod Tests
pub mod Scheduled
pub mod Kept
pub mod Surviving
pub mod Stale
use esp_iot_framework.Prelude.{
  ℕ, Bool, true, Option, none, some, List, [], ◌∷◌, ◌==◌, if◌then◌else◌, length, drop, Bytes, not,
}
use esp_iot_framework.Misc.Storage
use esp_iot_framework.Misc.Storage.{Storage, save_interval, on_save_timer}
use esp_iot_framework.Misc.Timer
use esp_iot_framework.Misc.Timer.{Timer, add_timeout, clear, handle_timers}
use esp_iot_framework.Misc.Timer.Round.{leave}

abbrev pub commit_callback : ℕ
commit_callback = 0

pub record Device : Type 0 where
  pub storage : Storage
  pub timer : Timer

-- `_timer.clear_timeout(_save_timer_id)`, if a save is scheduled.
unfoldable pub release : Option ℕ → Timer → Option Timer
release none t = some t
release (some id) t = clear t id

-- `Storage::save`
unfoldable pub save : Device → ℕ → Bool → Option Device
unfolding release
save d now allocates =
    let scheduled : Option Device = elim (release d.storage.save_timer_id d.timer) [
      | none ↦ none
      | some t ↦
          let (id, t') = add_timeout t commit_callback save_interval 0 now allocates in
          some (record { storage = Storage.save d.storage id; timer = t' })
    ] in
    if not d.storage.has_fs then some d else scheduled

-- `Storage::force_save`
unfoldable pub force_save : Device → Option Device
unfolding release
force_save d = elim (release d.storage.save_timer_id d.timer) [
  | none ↦ none
  | some t ↦ some (record { storage = Storage.force_save d.storage; timer = t })
]

-- What the callbacks that a pass called did to the storage.
unfoldable pub run_calls : List (ℕ × ℕ) → Storage → Storage
run_calls [] s = s
run_calls ((callback, parameter) ∷ calls) s =
    run_calls calls (if callback == commit_callback then on_save_timer s else s)

-- `Timer::handle_timers`
unfoldable pub poll : Device → (ℕ → ℕ) → Option Device
unfolding run_calls
poll d clock = elim (handle_timers leave d.timer clock) [
  | none ↦ none
  | some t ↦
      some
        (record { storage = run_calls (drop (length d.timer.calls) t.calls) d.storage; timer = t })
]

-- What a program does: the value changes, it is saved, another part sets a timeout or an interval, or
-- the main loop handles the timers.
pub data Action : Type 0 where
  changes : Bytes → Action
  saves : ℕ → Action
  adds : ℕ → ℕ → Bool → ℕ → ℕ → Action
  polls : (ℕ → ℕ) → Action

unfoldable pub act : Device → Action → Option Device
unfolding save poll
act d (changes bytes) = some (record d { storage = record d.storage { bytes = bytes } })
act d (saves now) = save d now true
act d (adds callback interval repeat parameter now) = some (record d {
  timer = (Timer.add d.timer (Timer.new_entry callback interval repeat parameter now) true).1;
})
act d (polls clock) = poll d clock

unfoldable pub run : Device → List Action → Option Device
unfolding act
run d [] = some d
run d (a ∷ actions) = elim (act d a) [ none ↦ none | some d' ↦ run d' actions ]
