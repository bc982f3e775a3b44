-- ===== src/Misc/Timer/Slots.antt =====
-- The slots of a timer: how many are free, which one an entry takes, and what clearing gives back.
use esp_iot_framework.Prelude.{
  ℕ, zero, suc, ◌+◌, ◌-◌, ◌<◌, ◌≡◌, refl, sym, ap, ◌∙◌, ◌≢◌, inl, inr, Bool, true, false, some,
  List, [], ◌∷◌, ◌++◌, arith, ◌==◌, if◌then◌else◌, ==_iff, Bool-cases, length, get_or, set,
  replicate, get_or-set_self, get_or-set_ne,
}
use esp_iot_framework.Misc.Timer.{
  TimerEntry, blank_entry, Timer, grow_amount, find_free, make_room, take_slot, add, clear,
}

abbrev pub free_slots : List TimerEntry → ℕ
free_slots [] = 0
free_slots (e ∷ es) = if e.active then free_slots es else suc (free_slots es)

-- The timer knows how many of its entries are free.
abbrev pub IsValid : Timer → Type 0
IsValid t = t.free_count ≡ free_slots t.entries

free_slots-append :
    (xs ys : List TimerEntry) → free_slots (xs ++ ys) ≡ free_slots xs + free_slots ys
free_slots-append [] ys = omega arith
free_slots-append (x ∷ xs) ys = ground (arith, free_slots-append xs ys)

free_slots-blank : (n : ℕ) → free_slots (replicate n blank_entry) ≡ n
free_slots-blank zero = refl
free_slots-blank (suc n) = ap suc (free_slots-blank n)

free_slots-take :
    (es : List TimerEntry) (i : ℕ) (e : TimerEntry)
    → i < length es
    → (get_or es i blank_entry).active ≡ false
    → e.active ≡ true
    → free_slots es ≡ suc (free_slots (set es i e))
free_slots-take [] i e h f a = absurd (omega arith)
free_slots-take (x ∷ es) zero e h f a = ground (arith, f, a)
free_slots-take (x ∷ es) (suc i) e h f a = ground (arith, free_slots-take es i e (omega arith) f a)

pub free_slots-give :
    (es : List TimerEntry) (i : ℕ)
    → i < length es
    → (get_or es i blank_entry).active ≡ true
    → free_slots (set es i blank_entry) ≡ suc (free_slots es)
free_slots-give [] i h f = absurd (omega arith)
free_slots-give (x ∷ es) zero h f = ground (arith, f)
free_slots-give (x ∷ es) (suc i) h f = ground (arith, free_slots-give es i (omega arith) f)

-- A free slot is found if there is one.
find_free-some :
    (es : List TimerEntry)
    → 0 < free_slots es
    → (i : ℕ) × (find_free es ≡ some i)
      × (i < length es)
      × ((get_or es i blank_entry).active ≡ false)
unfolding find_free
find_free-some [] h = absurd (omega arith)
find_free-some (e ∷ es) h = elim (Bool-cases e.active) [
  | inl busy ↦
      let (i, found, inside, free) = find_free-some es (ground (arith, busy)) in
      (i + 1, rw (busy, found), omega arith, ground (arith, free))
  | inr free ↦ (0, rw free, omega arith, free)
]

make_room-IsValid :
    (t : Timer) (allocates : Bool)
    → IsValid t
    → (t.free_count ≡ 0 → allocates ≡ true)
    → IsValid (make_room t allocates) × (0 < free_slots (make_room t allocates).entries)
unfolding make_room
make_room-IsValid t allocates v h = elim (Bool-cases (t.free_count == 0)) [
  | inl full ↦
      let a = h ((==_iff _ _).0 full) in
      let n = free_slots-append t.entries (replicate grow_amount blank_entry) in
      let m = free_slots-blank grow_amount in
      rw (full, a) (omega (arith, n, m, v), omega (arith, n, m))
  | inr room ↦ rw room (v, ground (arith, v, room))
]

get_or-blanks :
    (es : List TimerEntry) (n j : ℕ)
    → get_or (es ++ replicate n blank_entry) j blank_entry ≡ get_or es j blank_entry
get_or-blanks [] zero j = refl
get_or-blanks [] (suc n) zero = refl
get_or-blanks [] (suc n) (suc j) = get_or-blanks [] n j
get_or-blanks (e ∷ es) n zero = refl
get_or-blanks (e ∷ es) n (suc j) = get_or-blanks es n j

get_or-make_room :
    (t : Timer) (allocates : Bool) (j : ℕ)
    → get_or (make_room t allocates).entries j blank_entry ≡ get_or t.entries j blank_entry
unfolding make_room
get_or-make_room t allocates j = ground (arith, get_or-blanks t.entries grow_amount j)

pub take_slot_found :
    (t : Timer) (e : TimerEntry) (i : ℕ)
    → find_free t.entries ≡ some i
    → take_slot t e
      ≡ (some i, record t { entries = set t.entries i e; free_count = t.free_count - 1 })
unfolding take_slot
take_slot_found t e i found = rw (found, take_slot)

add-make_room :
    (t : Timer) (e : TimerEntry) (allocates : Bool) (i : ℕ)
    → find_free (make_room t allocates).entries ≡ some i
    → add t e allocates ≡ (
      some i,
      record (make_room t allocates) {
        entries = set (make_room t allocates).entries i e;
        free_count = (make_room t allocates).free_count - 1;
      },
    )
unfolding add
add-make_room t e allocates i found = take_slot_found (make_room t allocates) e i found

-- The timer knows how many slots are free. Adding an entry, with a free slot or memory for more of
-- them, takes a slot that was free, changes no other, and keeps count of the free ones.
pub add_takes_free_slot :
    (t : Timer) (e : TimerEntry) (allocates : Bool)
    → IsValid t
    → e.active ≡ true
    → (t.free_count ≡ 0 → allocates ≡ true)
    → let (id, t') = add t e allocates in
      (i : ℕ) × (id ≡ some i)
      × ((get_or t.entries i blank_entry).active ≡ false)
      × (get_or t'.entries i blank_entry ≡ e)
      × ((j : ℕ) → j ≢ i → get_or t'.entries j blank_entry ≡ get_or t.entries j blank_entry)
      × IsValid t'
add_takes_free_slot t e allocates v a h =
    let (w, some_free) = make_room-IsValid t allocates v h in
    let (i, found, inside, free) = find_free-some (make_room t allocates).entries some_free in
    let added = add-make_room t e allocates i found in
    let before = get_or-make_room t allocates in
    rw added (
      i,
      refl,
      rw (before i) at free,
      get_or-set_self (make_room t allocates).entries i e blank_entry inside,
      λ j ne.
          get_or-set_ne (make_room t allocates).entries i j e blank_entry (λ same. ne (sym same))
          ∙ before j,
      omega (arith, w, free_slots-take (make_room t allocates).entries i e inside free a),
    )

pub clear_busy :
    (t : Timer) (i : ℕ)
    → i < length t.entries
    → (get_or t.entries i blank_entry).active ≡ true
    → clear t i
      ≡ some (record t { entries = set t.entries i blank_entry; free_count = t.free_count + 1 })
unfolding clear
clear_busy t i h a = ground (arith, a)

pub clear_idle :
    (t : Timer) (i : ℕ)
    → i < length t.entries
    → (get_or t.entries i blank_entry).active ≡ false
    → clear t i ≡ some t
unfolding clear
clear_idle t i h a = ground (arith, a)

-- The timer knows how many slots are free. Clearing a slot of the array frees it, whether it was in
-- use or not, changes no other, and keeps count of the free ones.
pub clear_frees_slot :
    (t : Timer) (i : ℕ)
    → IsValid t
    → i < length t.entries
    → (t' : Timer) × (clear t i ≡ some t')
      × ((get_or t'.entries i blank_entry).active ≡ false)
      × ((j : ℕ) → j ≢ i → get_or t'.entries j blank_entry ≡ get_or t.entries j blank_entry)
      × (t'.calls ≡ t.calls)
      × IsValid t'
clear_frees_slot t i v h = elim (Bool-cases (get_or t.entries i blank_entry).active) [
  | inl busy ↦ (
    record t { entries = set t.entries i blank_entry; free_count = t.free_count + 1 },
    clear_busy t i h busy,
    ap (λ e. e.active) (get_or-set_self t.entries i blank_entry blank_entry h),
    λ j ne. get_or-set_ne t.entries i j blank_entry blank_entry (λ same. ne (sym same)),
    refl,
    omega (arith, v, free_slots-give t.entries i h busy),
  )
  | inr free ↦ (t, clear_idle t i h free, free, λ j ne. refl, refl, v)
]
