-- ===== src/Misc/CircularBuffer.antt =====
-- misc/circular_buffer.h. `acquire` and `pop` return a pointer into the array, here the index of the
-- slot, and the caller writes or reads through it by `store` and `load`. The template's `Size` is the
-- field `size`; `T{}`, with which the array is filled at first, is the parameter `blank`.
pub mod Window
pub mod Queue
use esp_iot_framework.Prelude.{
  ℕ, ◌%◌, Bool, true, false, not, Option, none, some, List, ltb, leb, ◌==◌, if◌then◌else◌, add32,
  sub32, get_or, set, replicate,
}

pub record CircularBuffer {ℓ} (A : Type ℓ) : Type ℓ where
  pub buffer : List A
  pub size : ℕ
  pub used : ℕ
  pub next_index : ℕ

module _ {ℓ} {A : Type ℓ} where
  unfoldable pub init : A → ℕ → CircularBuffer A
  init blank size = record { buffer = replicate size blank; size = size; used = 0; next_index = 0 }

  abbrev pub can_acquire : CircularBuffer A → Bool
  can_acquire b = ltb b.used b.size

  abbrev pub can_pop : CircularBuffer A → Bool
  can_pop b = not (b.used == 0)

  unfoldable pub acquire : CircularBuffer A → Option ℕ × CircularBuffer A
  acquire b =
      let next = add32 b.next_index 1 in
      if not (can_acquire b) then (none, b) else (
        some b.next_index,
        record b { used = add32 b.used 1; next_index = if leb b.size next then 0 else next },
      )

  unfoldable pub pop : CircularBuffer A → Option ℕ × CircularBuffer A
  pop b =
      let index = sub32 (add32 b.size b.next_index) b.used % b.size in
      if not (can_pop b) then (none, b) else (some index, record b { used = sub32 b.used 1 })

  -- `*p = value` and `*p` for a pointer that the buffer handed out.
  abbrev pub store : CircularBuffer A → ℕ → A → CircularBuffer A
  store b i value = record b { buffer = set b.buffer i value }

  abbrev pub load : CircularBuffer A → A → ℕ → A
  load b blank i = get_or b.buffer i blank

  -- A producer acquires a slot and fills it; `false` tells that there was none.
  unfoldable pub put : CircularBuffer A → A → Bool × CircularBuffer A
  unfolding acquire
  put b value =
      let (slot, b') = acquire b in
      elim slot [ none ↦ (false, b') | some i ↦ (true, store b' i value) ]

  -- A consumer pops a slot and reads it before the next call.
  unfoldable pub get : A → CircularBuffer A → Option A × CircularBuffer A
  unfolding pop
  get blank b =
      let (slot, b') = pop b in
      elim slot [ none ↦ (none, b') | some i ↦ (some (load b' blank i), b') ]
