-- ===== src/Misc/CircularBuffer/Queue.antt =====
-- The circular buffer is a bounded queue: `acquire` makes room at its end for the value that the
-- caller stores, and `pop` hands out its oldest value.
use esp_iot_framework.Prelude.{
  ℕ, suc, ◌+◌, ◌-◌, ◌%◌, ◌≤◌, ◌<◌, ◌≡◌, refl, ap, ap₂, ◌∙◌, ◌≢◌, inl, inr, Bool, true, false,
  Option, none, some, List, [], ◌∷◌, ◌++◌, arith, ltb, leb, ◌==◌, if◌then◌else◌, ltb→lt, leb→le,
  ==_iff, Bool-cases, add32, sub32, length, get_or, set, length-replicate, length-set,
  get_or-set_self,
}
use native.Mathlib.Nat.{mod-eq_of_lt}
use esp_iot_framework.Misc.CircularBuffer.{CircularBuffer, init, put, get}
use esp_iot_framework.Misc.CircularBuffer.Window.{
  after, place, window, window-snoc, window-set, length-window, window-pop, window-none,
}

-- The size leaves room for the sum of two indices in a `size_t`.
pub record IsValid {ℓ} {A : Type ℓ} (b : CircularBuffer A) : Type ℓ where
  pub array : length b.buffer ≡ b.size
  pub positive : 0 < b.size
  pub small : b.size < 2147483648
  pub within : b.used ≤ b.size
  pub next : b.next_index < b.size

module _ {ℓ} {A : Type ℓ} (blank : A) where
  -- The index of the oldest value.
  abbrev oldest : CircularBuffer A → ℕ
  oldest b =
      if leb b.used b.next_index then b.next_index - b.used else b.size + b.next_index - b.used

  -- The queue, oldest value first.
  abbrev pub contents : CircularBuffer A → List A
  contents b = window blank b.buffer b.size (oldest b) b.used

  pub length-contents : (b : CircularBuffer A) → length (contents b) ≡ b.used
  length-contents b = length-window blank b.buffer b.size (oldest b) b.used

  -- A bounded queue, as a client sees it.
  abbrev enqueue : ℕ → List A → A → Bool × List A
  enqueue size q value = if ltb (length q) size then (true, q ++ (value ∷ [])) else (false, q)

  abbrev pub dequeue : List A → Option A × List A
  dequeue [] = (none, [])
  dequeue (v ∷ q) = (some v, q)

  init-IsValid : (size : ℕ) → 0 < size → size < 2147483648 → IsValid (init blank size)
  unfolding init
  init-IsValid size h k = ground (arith, length-replicate size blank)

  put-IsValid : (b : CircularBuffer A) (value : A) → IsValid b → IsValid (put b value).1
  unfolding put
  put-IsValid b value v = ground (arith, length-set b.buffer b.next_index value)

  get-IsValid : (b : CircularBuffer A) → IsValid b → IsValid (get blank b).1
  unfolding get
  get-IsValid b v = ground arith

  -- The slot that `pop` hands out.
  pop_index :
      (b : CircularBuffer A)
      → IsValid b
      → sub32 (add32 b.size b.next_index) b.used % b.size ≡ oldest b
  pop_index b v = elim (Bool-cases (leb b.used b.next_index)) [
    | inl low ↦
        let le : b.used ≤ b.next_index = leb→le _ _ low in
        let e : sub32 (add32 b.size b.next_index) b.used ≡ b.size + (b.next_index - b.used) =
          omega arith in
        rw (low, e) (grind arith)
    | inr high ↦
        let e : sub32 (add32 b.size b.next_index) b.used ≡ b.size + b.next_index - b.used =
          ground arith in
        rw (high, e) (mod-eq_of_lt (ground arith))
  ]

  put_room :
      (b : CircularBuffer A) (value : A)
      → IsValid b
      → b.used < b.size
      → put b value ≡ (
        true,
        record b {
          buffer = set b.buffer b.next_index value;
          used = b.used + 1;
          next_index = after b.size b.next_index;
        },
      )
  unfolding put
  put_room b value v h = ground arith

  put_full :
      (b : CircularBuffer A) (value : A)
      → IsValid b
      → ltb b.used b.size ≡ false
      → put b value ≡ (false, b)
  unfolding put
  put_full b value v h = ground arith

  get_nonempty :
      (b : CircularBuffer A)
      → IsValid b
      → b.used ≢ 0
      → get blank b ≡ (some (get_or b.buffer (oldest b) blank), record b { used = b.used - 1 })
  unfolding get
  get_nonempty b v h = ground (arith, pop_index b v)

  contents-put_room :
      (b : CircularBuffer A) (value : A)
      → IsValid b
      → b.used < b.size
      → contents (record b {
        buffer = set b.buffer b.next_index value;
        used = b.used + 1;
        next_index = after b.size b.next_index;
      })
        ≡ contents b ++ (value ∷ [])
  contents-put_room b value v h =
      let buffer' : List A = set b.buffer b.next_index value in
      let b' : CircularBuffer A = record b {
        buffer = buffer';
        used = b.used + 1;
        next_index = after b.size b.next_index;
      } in
      let start : oldest b < b.size = ground arith in
      let same : oldest b' ≡ oldest b = ground arith in
      let free : place b.size (oldest b) b.used ≡ b.next_index = ground arith in
      let more : b.used + 1 ≡ suc b.used = omega arith in
      let kept = window-set blank b.buffer b.size (oldest b) b.used value start h in
      ap₂ (λ i n. window blank buffer' b.size i n) same more
      ∙ window-snoc blank buffer' b.size (oldest b) b.used start h
      ∙ ap₂ (λ xs x. xs ++ (x ∷ [])) (rw free at kept)
          (ap (λ i. get_or buffer' i blank) free
            ∙ get_or-set_self b.buffer b.next_index value blank (omega arith))

  contents-get_nonempty :
      (b : CircularBuffer A)
      → IsValid b
      → b.used ≢ 0
      → contents b ≡ get_or b.buffer (oldest b) blank ∷ contents (record b { used = b.used - 1 })
  contents-get_nonempty b v h =
      let same : after b.size (oldest b) ≡ oldest (record b { used = b.used - 1 }) = ground arith in
      window-pop blank b.buffer b.size (oldest b) b.used h
      ∙ ap (λ i. get_or b.buffer (oldest b) blank ∷ window blank b.buffer b.size i (b.used - 1))
          same

  get_empty : (b : CircularBuffer A) → b.used ≡ 0 → get blank b ≡ (none, b)
  unfolding get
  get_empty b h = ground arith

  -- A value that is put into a buffer with room comes behind all that it holds; a full buffer takes
  -- nothing and says so.
  pub put_refines :
      (b : CircularBuffer A) (value : A)
      → IsValid b
      → let (done, b') = put b value in (done, contents b') ≡ enqueue b.size (contents b) value
  put_refines b value v = elim (Bool-cases (ltb b.used b.size)) [
    | inl room ↦
        let h : b.used < b.size = ltb→lt _ _ room in
        rw (length-contents b, room, put_room b value v h, contents-put_room b value v h)
    | inr full ↦ rw (length-contents b, full, put_full b value v full)
  ]

  -- What is read is the oldest value, and the others stay in their order; an empty buffer gives none.
  pub get_refines :
      (b : CircularBuffer A)
      → IsValid b
      → let (out, b') = get blank b in (out, contents b') ≡ dequeue (contents b)
  get_refines b v = elim (Bool-cases (b.used == 0)) [
    | inl empty ↦
        let h : b.used ≡ 0 = (==_iff _ _).0 empty in
        rw (get_empty b h, window-none blank b.buffer b.size (oldest b) b.used h)
    | inr some_left ↦
        let h : b.used ≢ 0 = ground arith in rw (get_nonempty b v h, contents-get_nonempty b v h)
  ]

  -- The calls that a client makes, and what it sees of each: whether a value was taken, or a value.
  pub data Call : Type ℓ where
    puts : A → Call
    gets : Call

  unfoldable pub run : CircularBuffer A → List Call → List (Bool × Option A)
  run b [] = []
  run b (puts value ∷ calls) = let (done, b') = put b value in (done, none) ∷ run b' calls
  run b (gets ∷ calls) = let (out, b') = get blank b in (true, out) ∷ run b' calls

  pub run_queue : ℕ → List A → List Call → List (Bool × Option A)
  run_queue size q [] = []
  run_queue size q (puts value ∷ calls) =
      let (done, q') = enqueue size q value in (done, none) ∷ run_queue size q' calls
  run_queue size q (gets ∷ calls) =
      let (out, q') = dequeue q in (true, out) ∷ run_queue size q' calls

  size-put : (b : CircularBuffer A) (value : A) → (put b value).1.size ≡ b.size
  unfolding put
  size-put b value = ground arith

  size-get : (b : CircularBuffer A) → (get blank b).1.size ≡ b.size
  unfolding get
  size-get b = ground arith

  run_refines :
      (calls : List Call) (b : CircularBuffer A)
      → IsValid b
      → run b calls ≡ run_queue b.size (contents b) calls
  unfolding run run_queue
  run_refines [] b v = refl
  run_refines (puts value ∷ calls) b v =
      rw (
        run_refines calls (put b value).1 (put-IsValid b value v),
        ← put_refines b value v,
        size-put,
      )
  run_refines (gets ∷ calls) b v =
      rw (run_refines calls (get blank b).1 (get-IsValid b v), ← get_refines b v, size-get)

  -- No sequence of calls, from a fresh buffer of at least one and fewer than 2 ^ 31 slots on, tells
  -- it from a queue that holds at most `size` values.
  pub run-init :
      (size : ℕ) (calls : List Call)
      → 0 < size
      → size < 2147483648
      → run (init blank size) calls ≡ run_queue size [] calls
  unfolding init
  run-init size calls h k = run_refines calls (init blank size) (init-IsValid size h k)
