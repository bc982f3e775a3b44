-- ===== src/Misc/Timer.antt =====
-- misc/timer.h and misc/timer.cpp. The array is the list of its entries, empty for a null pointer, and
-- its length is `_count`. `now` is what `millis()` returns; an `unsigned long` has 32 bits. `none` is
-- an access outside the array, or through a reference into an array that has moved. What a callback
-- does to the timer is a parameter of the loop, and the callbacks that were called are recorded.
pub mod Slots
pub mod Round
pub mod Firing
pub mod Reuse
pub mod Callbacks
use esp_iot_framework.Prelude.{
  ℕ, zero, suc, ◌+◌, ◌-◌, Bool, true, false, not, ◌&&◌, Option, none, some, List, [], ◌∷◌, ◌++◌,
  ltb, leb, ◌==◌, if◌then◌else◌, u32_max, sub32, length, get_or, set, replicate,
}

pub record TimerEntry : Type 0 where
  pub active : Bool
  pub repeat : Bool
  pub callback : ℕ
  pub parameter : ℕ
  pub interval : ℕ
  pub created_at : ℕ

abbrev pub blank_entry : TimerEntry
blank_entry = record {
  active = false;
  repeat = false;
  callback = 0;
  parameter = 0;
  interval = 0;
  created_at = 0;
}

pub record Timer : Type 0 where
  pub entries : List TimerEntry
  pub free_count : ℕ
  pub calls : List (ℕ × ℕ)

abbrev pub init : Timer
init = record { entries = []; free_count = 0; calls = [] }

abbrev pub grow_amount : ℕ
grow_amount = 8

-- `_grow`; `allocates` is whether `new` succeeded.
abbrev pub grow : Timer → Bool → Timer
grow t allocates =
    if allocates
    then record t {
      entries = t.entries ++ replicate grow_amount blank_entry;
      free_count = t.free_count + grow_amount;
    }
    else t

-- The loop of `_add`: the first entry that is not active.
pub find_free : List TimerEntry → Option ℕ
find_free [] = none
find_free (e ∷ es) =
    if e.active then elim (find_free es) [ some i ↦ some (i + 1) | none ↦ none ] else some 0

-- The array that `_add` looks for a slot in.
unfoldable pub make_room : Timer → Bool → Timer
make_room t allocates = if t.free_count == 0 then grow t allocates else t

unfoldable pub take_slot : Timer → TimerEntry → Option ℕ × Timer
unfolding find_free
take_slot t entry = elim (find_free t.entries) [
  | some i ↦ (some i, record t { entries = set t.entries i entry; free_count = t.free_count - 1 })
  | none ↦ (none, t)
]

-- `_add`; without a free slot it returns `-1ul`.
unfoldable pub add : Timer → TimerEntry → Bool → Option ℕ × Timer
unfolding make_room take_slot
add t entry allocates = take_slot (make_room t allocates) entry

-- The entry that `_add` makes; `parameter` is the pointer that the callback is called with.
abbrev pub new_entry : ℕ → ℕ → Bool → ℕ → ℕ → TimerEntry
new_entry callback interval repeat parameter now = record {
  active = true;
  repeat = repeat;
  callback = callback;
  parameter = parameter;
  interval = interval;
  created_at = now;
}

abbrev pub add_timeout : Timer → ℕ → ℕ → ℕ → ℕ → Bool → Option ℕ × Timer
add_timeout t callback interval parameter now allocates =
    add t (new_entry callback interval false parameter now) allocates

abbrev pub add_interval : Timer → ℕ → ℕ → ℕ → ℕ → Bool → Option ℕ × Timer
add_interval t callback interval parameter now allocates =
    add t (new_entry callback interval true parameter now) allocates

-- `_clear`, which `clear_timeout` and `clear_interval` are: the id is not checked.
unfoldable pub clear : Timer → ℕ → Option Timer
clear t timer_id =
    if length t.entries == 0
    then some t
    else if leb (length t.entries) timer_id
    then none
    else if not (get_or t.entries timer_id blank_entry).active
    then some t
    else some
        (record t { entries = set t.entries timer_id blank_entry; free_count = t.free_count + 1 })

abbrev pub is_due : TimerEntry → ℕ → Bool
is_due e now = e.active && not (ltb (sub32 now e.created_at) e.interval)

-- What is noted in an entry before its callback is called.
abbrev pub start_entry : TimerEntry → ℕ → TimerEntry
start_entry e now =
    if e.repeat then record e { created_at = now } else record e { interval = u32_max }

module _ (run_callback : ℕ → ℕ → Timer → Option Timer) where
  -- The callback of an entry that is due, and what follows it.
  unfoldable pub fire : Timer → ℕ → ℕ → Option Timer
  unfolding clear
  fire t i now =
      let e = get_or t.entries i blank_entry in
      let started = record t {
        entries = set t.entries i (start_entry e now);
        calls = t.calls ++ (e.callback, e.parameter) ∷ [];
      } in
      elim (run_callback e.callback e.parameter started) [
        | none ↦ none
        | some t' ↦
            if not (length t'.entries == length t.entries)
            then none
            else if (get_or t'.entries i blank_entry).repeat
            then some t'
            else clear t' i
      ]

  unfoldable pub round : Timer → ℕ → ℕ → Option Timer
  unfolding fire
  round t i now = if is_due (get_or t.entries i blank_entry) now then fire t i now else some t

  -- `n` rounds from index `i` on: an array that grows ends the loop, so the length at first is enough.
  -- `clock i` is what `millis()` returns in the round of index `i`.
  pub rounds : (ℕ → ℕ) → ℕ → Timer → ℕ → Option Timer
  unfolding round
  rounds clock zero t i = some t
  rounds clock (suc n) t i = elim (round t i (clock i)) [
    | none ↦ none
    | some t' ↦ rounds clock n t' (i + 1)
  ]

  unfoldable pub handle_timers : Timer → (ℕ → ℕ) → Option Timer
  unfolding rounds
  handle_timers t clock =
      if length t.entries == t.free_count then some t else rounds clock (length t.entries) t 0
