-- ===== src/Protocol/Binary/Strings.antt =====
-- `update_string_list_value`: a list of terminated strings fills consecutive slots.
use esp_iot_framework.Prelude.{
  ℕ, zero, suc, ◌+◌, ◌-◌, ◌%◌, ◌≤◌, ◌<◌, min, ◌≡◌, refl, sym, ◌∙◌, ◌≢◌, inl, inr, false, List, [],
  ◌∷◌, ◌++◌, arith, ltb, leb, ◌==◌, if◌then◌else◌, ==_iff, Bool-cases, length, get_or, set, drop,
  length-append, take-append, length-set, get_or-set_self, get_or-set_ne, Bytes, write_at, strnlen,
  length-write_at, c_string, HasNoZero, strnlen-terminated, append_assoc,
}
use esp_iot_framework.Protocol.Types.{ResponseCode, code, PacketHeader}
use esp_iot_framework.Protocol.Binary.{store_string, update_strings, update_string_list_value}
use esp_iot_framework.Protocol.Binary.Updates.{stored_reads_back}

-- What a client sends: each string with its terminator.
abbrev pub terminated : List Bytes → Bytes
terminated [] = []
terminated (s ∷ ss) = s ++ 0 ∷ terminated ss

-- The strings are C strings, each no longer than a slot.
abbrev FitSlots : ℕ → List Bytes → Type 0
FitSlots str_size [] = Unit {0}
FitSlots str_size (s ∷ ss) = HasNoZero s × (length s ≤ str_size) × FitSlots str_size ss

-- The slots of the destination have their size.
abbrev AreSlots : ℕ → List Bytes → Type 0
AreSlots str_size [] = Unit {0}
AreSlots str_size (d ∷ ds) = (length d ≡ str_size) × AreSlots str_size ds

-- Slot `k` of the result, by what was sent for the slots from `at` on.
abbrev pub expected : ℕ → List Bytes → ℕ → Bytes → Bytes
expected at [] k old = old
expected at (s ∷ ss) k old = if k == at then s else expected (at + 1) ss k old

AreSlots-get_or :
    (n : ℕ) (ds : List Bytes) (i : ℕ) → AreSlots n ds → i < length ds → length (get_or ds i []) ≡ n
AreSlots-get_or n [] i v h = absurd (omega arith)
AreSlots-get_or n (d ∷ ds) zero v h = v.0
AreSlots-get_or n (d ∷ ds) (suc i) v h = AreSlots-get_or n ds i v.1 (omega arith)

AreSlots-set :
    (n : ℕ) (ds : List Bytes) (i : ℕ) (s : Bytes)
    → length s ≡ n
    → AreSlots n ds
    → AreSlots n (set ds i s)
AreSlots-set n [] i s e v = v
AreSlots-set n (d ∷ ds) zero s e v = (e, v.1)
AreSlots-set n (d ∷ ds) (suc i) s e v = (v.0, AreSlots-set n ds i s e v.1)

-- A string that fits a slot is stored so that it reads back.
store_string_lem :
    (slot : Bytes) (str_size : ℕ) (s rest : Bytes)
    → str_size < 256
    → length slot ≡ str_size
    → HasNoZero s
    → length s ≤ str_size
    → (length (store_string slot str_size (s ++ rest) (length s)) ≡ str_size)
      × (c_string (store_string slot str_size (s ++ rest) (length s)) str_size ≡ s)
unfolding store_string
store_string_lem slot n s rest b e z h =
    let m : min (length s % 256) n ≡ length s = omega arith in
    rw (m, take-append s rest, ← e)
      (
        ground (arith, length-set (write_at slot 0 s) (length s) 0, length-write_at slot 0 s),
        stored_reads_back slot s z (omega arith),
      )

drop-terminated : (s rest : Bytes) → drop (length s + 1) (s ++ 0 ∷ rest) ≡ rest
drop-terminated [] rest = refl
drop-terminated (b ∷ s) rest = ground (arith, drop-terminated s rest)

-- The slots after the loop, given the terminated strings that are left and the slots before it.
record Stored (n at : ℕ) (ss ds result : List Bytes) : Type 0 where
  slots : AreSlots n result
  count : length result ≡ length ds
  texts :
      (k : ℕ)
      → k < length ds
      → c_string (get_or result k []) n ≡ expected at ss k (c_string (get_or ds k []) n)

-- One round of the loop takes one string of the input.
update_strings_round :
    (fuel : ℕ) (ds : List Bytes) (n count at : ℕ) (s more : Bytes) (left : ℕ)
    → HasNoZero s
    → at < count
    → update_strings (suc fuel) ds n count at (s ++ 0 ∷ more) (length s + 1 + left)
      ≡ update_strings fuel
          (set ds at (store_string (get_or ds at []) n (s ++ 0 ∷ more) (length s)))
          n
          count
          (at + 1)
          more
          left
unfolding update_strings
update_strings_round fuel ds n count at s more left z h =
    let a : strnlen (s ++ 0 ∷ more) (length s + 1 + left) ≡ length s =
      strnlen-terminated s more (length s + 1 + left) z (omega arith) in
    let b : (length s + 1 + left == 0) ≡ false = ground arith in
    let c : leb count at ≡ false = ground arith in
    let d : length s + 1 + left - (length s + 1) ≡ left = omega arith in
    rw (a, b, c, drop-terminated s more, d)

update_strings_done :
    (fuel : ℕ) (ds : List Bytes) (n count at : ℕ) (input : Bytes)
    → update_strings fuel ds n count at input 0 ≡ ds
unfolding update_strings
update_strings_done zero ds n count at input = refl
update_strings_done (suc fuel) ds n count at input = refl

expected-below :
    (at : ℕ) (ss : List Bytes) (k : ℕ) (old : Bytes) → k < at → expected at ss k old ≡ old
expected-below at [] k old h = refl
expected-below at (s ∷ ss) k old h = ground (arith, expected-below (at + 1) ss k old)

-- After a round the rest of the loop finds the slots with one text more.
Stored-cons :
    (n at : ℕ) (s slot : Bytes) (ss ds result : List Bytes)
    → at < length ds
    → c_string slot n ≡ s
    → Stored n (at + 1) ss (set ds at slot) result
    → Stored n at (s ∷ ss) ds result
Stored-cons n at s slot ss ds result h e st = record {
  slots = st.slots;
  count = st.count ∙ length-set ds at slot;
  texts = λ k hk.
      let now = st.texts k (omega (arith, length-set ds at slot)) in
      let below = expected-below (at + 1) ss k (c_string (get_or (set ds at slot) k []) n) in
      elim (Bool-cases (k == at)) [
        | inl same ↦
            let i : k ≡ at = (==_iff k at).0 same in
            rw same (now ∙ below (omega arith) ∙ (rw (i, get_or-set_self ds at slot [] h) e))
        | inr other ↦
            let i : at ≢ k = ground arith in rw other (rw (get_or-set_ne ds at k slot [] i) at now)
      ];
}

update_strings-Stored :
    (ss : List Bytes) (fuel : ℕ) (ds : List Bytes) (n count at : ℕ) (rest : Bytes)
    → n < 256
    → length (terminated ss) ≤ fuel
    → count ≡ length ds
    → at + length ss ≤ count
    → FitSlots n ss
    → AreSlots n ds
    → Stored n at ss ds
        (update_strings fuel ds n count at (terminated ss ++ rest) (length (terminated ss)))
update_strings-Stored [] fuel ds n count at rest b f c h z v =
    rw (update_strings_done fuel ds n count at rest)
      (record { slots = v; count = refl; texts = λ k h. refl })
update_strings-Stored (s ∷ ss) zero ds n count at rest b f c h z v =
    absurd (omega (arith, length-append s (0 ∷ terminated ss)))
update_strings-Stored (s ∷ ss) (suc fuel) ds n count at rest b f c h z v =
    let more : Bytes = terminated ss ++ rest in
    let slot : Bytes = store_string (get_or ds at []) n (s ++ 0 ∷ more) (length s) in
    let size : length (s ++ 0 ∷ terminated ss) ≡ length s + 1 + length (terminated ss) =
      omega (arith, length-append s (0 ∷ terminated ss)) in
    let old = AreSlots-get_or n ds at v (omega arith) in
    let kept = store_string_lem (get_or ds at []) n s (0 ∷ more) b old z.0 z.1 in
    let after =
      update_strings-Stored ss fuel (set ds at slot) n count (at + 1) rest b (omega arith)
        (c ∙ sym (length-set ds at slot)) (omega arith) z.2 (AreSlots-set n ds at slot kept.0 v) in
    rw
      (
        append_assoc s (0 ∷ terminated ss) rest,
        size,
        update_strings_round fuel ds n count at s more (length (terminated ss)) z.0 (omega arith),
      )
      (Stored-cons n at s slot ss ds _ (omega arith) kept.1 after)

-- The slots have fewer than 256 bytes each. A list of strings, not an empty one, that fit their
-- slots, and that fit the slots from index `dst_index` on, is accepted: those slots then hold the
-- strings, in their order, and every other slot holds what it held. `rest` is what lies behind the
-- packet in memory.
pub update_string_list_value_lem :
    (destination : List Bytes) (str_size dst_index : ℕ) (header : PacketHeader) (ss : List Bytes)
    (rest : Bytes)
    → str_size < 256
    → header.size ≡ 1 + length (terminated ss)
    → ss ≢ []
    → dst_index + length ss ≤ length destination
    → FitSlots str_size ss
    → AreSlots str_size destination
    → let (response, changed) =
        update_string_list_value destination str_size
          (length destination)
          header
          (dst_index ∷ terminated ss ++ rest) in
      (response ≡ code ResponseCode.ok)
      × (length changed ≡ length destination)
      × ((k : ℕ)
          → k < length destination
          → c_string (get_or changed k []) str_size
            ≡ expected dst_index ss k (c_string (get_or destination k []) str_size))
unfolding update_string_list_value
update_string_list_value_lem ds n at header [] rest b e ne h z v = absurd (ne refl)
update_string_list_value_lem ds n at header (s ∷ ss) rest b e ne h z v =
    let stored =
      update_strings-Stored (s ∷ ss) header.size ds n (length ds) at rest b (omega arith) refl h z
        v in
    let left : header.size - 1 ≡ length (terminated (s ∷ ss)) = omega arith in
    let long : ltb header.size 2 ≡ false = ground (arith, length-append s (0 ∷ terminated ss)) in
    let inside : leb (length ds) at ≡ false = ground arith in
    rw (long, inside, left) (refl, stored.count, stored.texts)
