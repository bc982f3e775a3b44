-- ===== src/Misc/Vector.antt =====
-- misc/vector.h. The memory has `capacity` places, of which the first `size` hold a value: it is the
-- list of those values. Sizes are of 32 bits. `new` is assumed to succeed, and the values to be
-- movable; `none` is the abort of an index out of range.
pub mod Contents
pub mod Lifetimes
use esp_iot_framework.Prelude.{
  ℕ, zero, suc, ◌+◌, ◌-◌, min, max, Bool, true, false, Option, none, some, List, [], ◌∷◌, ◌++◌, leb,
  ◌==◌, if◌then◌else◌, add32, length, set, get_elem?,
}

abbrev min_capacity_growth : ℕ
min_capacity_growth = 8

abbrev max_capacity_growth : ℕ
max_capacity_growth = 64

pub record Vector {ℓ} (A : Type ℓ) : Type ℓ where
  pub capacity : ℕ
  pub values : List A

abbrev pub new_size : ℕ → ℕ
new_size capacity = add32 capacity (max min_capacity_growth (min max_capacity_growth capacity))

module _ {ℓ} {A : Type ℓ} where
  abbrev pub empty : Vector A
  empty = record { capacity = 0; values = [] }

  abbrev size : Vector A → ℕ
  size v = length v.values

  unfoldable pub reserve : Vector A → ℕ → Bool × Vector A
  reserve v capacity =
      if leb capacity v.capacity then (false, v) else (true, record v { capacity = capacity })

  abbrev pub grow_if_needed : Vector A → Vector A
  unfolding reserve
  grow_if_needed v = if size v == v.capacity then (reserve v (new_size v.capacity)).1 else v

  -- Both `push` and `emplace`: `none` is a write behind the memory.
  unfoldable pub push : Vector A → A → Option (Vector A)
  unfolding grow_if_needed
  push v value =
      let v' = grow_if_needed v in
      if leb v'.capacity (size v')
      then none
      else some (record v' { values = v'.values ++ value ∷ [] })

  abbrev pub drop_last : List A → List A
  drop_last [] = []
  drop_last (x ∷ []) = []
  drop_last (x ∷ y ∷ xs) = x ∷ drop_last (y ∷ xs)

  unfoldable pub pop : Vector A → Vector A
  pop v = record v { values = drop_last v.values }

  -- The loops of `resize` and `clear`; `n` rounds.
  pub pops : ℕ → Vector A → Vector A
  unfolding pop
  pops zero v = v
  pops (suc n) v = pops n (pop v)

  pub pushes : ℕ → Vector A → A → Option (Vector A)
  unfolding push
  pushes zero v value = some v
  pushes (suc n) v value = elim (push v value) [ none ↦ none | some v' ↦ pushes n v' value ]

  -- The first loop takes `_size - size` rounds and the second `size - _size`.
  unfoldable pub resize : Vector A → ℕ → A → Option (Vector A)
  unfolding reserve pops pushes
  resize v new_length value =
      let v' = pops (size v - new_length) (reserve v new_length).1 in
      if new_length == size v then some v else pushes (new_length - size v') v' value

  unfoldable pub clear : Vector A → Vector A
  unfolding pops
  clear v = pops (size v) v

  unfoldable at_index : Vector A → ℕ → Option A
  at_index v index = if leb (size v) index then none else get_elem? v.values index

  -- The constructors: `value` is the given one or a `T()`. The loop of the second is over the
  -- initializer list.
  unfoldable pub filled : ℕ → A → Option (Vector A)
  unfolding resize
  filled n value = resize empty n value

  pub assign : Vector A → ℕ → List A → Option (Vector A)
  assign v index [] = some v
  assign v index (x ∷ xs) =
      let rest = assign (record v { values = set v.values index x }) (index + 1) xs in
      if leb (size v) index then none else rest

  abbrev pub assign_all : List A → Option (Vector A) → Option (Vector A)
  assign_all init none = none
  assign_all init (some v) = assign v 0 init

  unfoldable pub of_list : A → List A → Option (Vector A)
  unfolding filled
  of_list value init = assign_all init (filled (length init) value)

  -- The destructor, with the number of places that it frees.
  unfoldable pub destroy : Vector A → Vector A × ℕ
  destroy v = if size v == 0 then (v, 0) else (empty, v.capacity)
