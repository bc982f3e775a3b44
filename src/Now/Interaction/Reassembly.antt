-- ===== src/Now/Interaction/Reassembly.antt =====
-- A receiver's memory of one message, after some of its parts.
use esp_iot_framework.Prelude.{
  ℕ, zero, suc, ◌+◌, ◌-◌, ◌*◌, ◌/◌, ◌%◌, ◌≤◌, ◌<◌, ◌≡◌, refl, ap, ◌∙◌, inl, inr, Bool, true, false,
  ◌&&◌, ◌||◌, List, [], ◌∷◌, arith, ltb, leb, ◌==◌, if◌then◌else◌, ==_iff, in_range, Bool-cases,
  length, get_or, take, drop, length-take, take-all, Bytes, write_at, length-write_at,
  get_or-write_at, get_or-drop, get_or-take, bytes_ext,
}
use mathlib.Core.List.{Permᴰ}
use esp_iot_framework.Now.Interaction.{EspNowMessage, new_message, add_part}
use esp_iot_framework.Now.Interaction.Fragments.{
  parts, chunk, chunk_size, fragment_header, fragment, range_from, length-chunk,
}

abbrev pub elem : ℕ → List ℕ → Bool
elem k [] = false
elem k (x ∷ xs) = x == k || elem k xs

abbrev pub total_size : Bytes → List ℕ → ℕ
total_size text [] = 0
total_size text (k ∷ ks) = chunk_size text k + total_size text ks

-- The memory that is allocated for a message.
abbrev capacity : Bytes → ℕ
capacity text = if parts (length text) == 1 then length text else parts (length text) * 245

module _ (message_id sender : ℕ) (is_response : Bool) (text : Bytes) where
  -- The message holds the parts `ks`, whatever their order.
  pub record Holds (m : EspNowMessage) (ks : List ℕ) : Type 0 where
    pub id : m.id ≡ message_id
    pub mac : m.mac_addr ≡ sender
    pub received : m.received_count ≡ length ks % 256
    pub count : m.parts_count ≡ parts (length text)
    pub size : m.size ≡ total_size text ks % 65536
    pub memory : length m.bytes ≡ capacity text
    pub filled :
        (k j : ℕ)
        → elem k ks ≡ true
        → k < parts (length text)
        → j < chunk_size text k
        → get_or m.bytes (245 * k + j) 0 ≡ get_or text (245 * k + j) 0

  in_memory :
      (k j : ℕ) → k < parts (length text) → j < chunk_size text k → 245 * k + j < capacity text
  in_memory k j h i = elim (Bool-cases (parts (length text) == 1)) [
    | inl one ↦ rw one (omega arith)
    | inr more ↦ rw more (omega arith)
  ]

  get_or-chunk :
      (k i : ℕ)
      → 245 * k ≤ i
      → i < 245 * k + chunk_size text k
      → get_or (chunk text k) (i - 245 * k) 0 ≡ get_or text i 0
  get_or-chunk k i h l =
      get_or-take 245 (drop (245 * k) text) (i - 245 * k) (omega arith)
      ∙ get_or-drop (245 * k) text (i - 245 * k)
      ∙ ap (λ n. get_or text n 0) (omega arith)

  pub new_message-Holds :
      (fresh : ℕ → Bytes)
      → ((n : ℕ) → length (fresh n) ≡ n)
      → (k : ℕ) → k < parts (length text)
      → Holds (new_message fresh (fragment_header message_id is_response text k) sender) []
  unfolding new_message
  new_message-Holds fresh h k i = record {
    id = refl;
    mac = refl;
    received = refl;
    count = refl;
    size = refl;
    memory = h _ ∙ elim (Bool-cases (parts (length text) == 1)) [
      | inl one ↦ rw one (ground arith)
      | inr more ↦ rw more
    ];
    filled = λ k j e. absurd (cc);
  }

  add_part-filled :
      (m : EspNowMessage) (ks : List ℕ) (k : ℕ)
      → Holds m ks
      → (i j : ℕ) → elem i (k ∷ ks) ≡ true
      → i < parts (length text)
      → j < chunk_size text i
      → get_or (write_at m.bytes (245 * k) (chunk text k)) (245 * i + j) 0
        ≡ get_or text (245 * i + j) 0
  add_part-filled m ks k v i j e hi hj =
      let at : ℕ = 245 * i + j in
      let read =
        get_or-write_at m.bytes (245 * k) (chunk text k) at
          (omega (arith, v.memory, in_memory i j hi hj)) in
      elim (Bool-cases (leb (245 * k) at && ltb at (245 * k + length (chunk text k)))) [
        | inl inside ↦
            let (low, high) = in_range (245 * k) (245 * k + length (chunk text k)) at inside in
            read ∙ rw inside (get_or-chunk k at low (omega (arith, length-chunk text k)))
        | inr outside ↦ elim (Bool-cases (k == i)) [
          | inl same ↦ absurd (ground (arith, length-chunk text k, ==_iff k i))
          | inr other ↦ read ∙ rw outside (v.filled i j (rw other at e) hi hj)
        ]
      ]

  -- Part `k` is added to what the message holds.
  pub add_part-Holds :
      (m : EspNowMessage) (ks : List ℕ) (k : ℕ)
      → k < parts (length text)
      → Holds m ks
      → Holds
          (add_part m
            (fragment_header message_id is_response text k)
            (fragment message_id is_response text k))
          (k ∷ ks)
  unfolding add_part
  add_part-Holds m ks k h v = record {
    id = v.id;
    mac = v.mac;
    received = omega (arith, v.received);
    count = v.count;
    size = omega (arith, v.size);
    memory = length-write_at m.bytes (245 * k) (take (chunk_size text k) (chunk text k)) ∙ v.memory;
    filled = λ i j e hi hj.
        rw (take-all (chunk_size text k) (chunk text k) (omega (arith, length-chunk text k)))
          (add_part-filled m ks k v i j e hi hj);
  }

  -- A message that holds every part once is the text.
  pub Holds-text :
      (m : EspNowMessage) (ks : List ℕ)
      → Holds m ks
      → length text < 65536
      → ((k : ℕ) → k < parts (length text) → elem k ks ≡ true)
      → total_size text ks ≡ length text
      → (m.size ≡ length text) × (take m.size m.bytes ≡ text)
  Holds-text m ks v small all sum =
      let size : m.size ≡ length text = omega (arith, v.size) in
      let room : length text ≤ length m.bytes = ground (arith, v.memory) in
      (
        size,
        rw size (
            bytes_ext (take (length text) m.bytes) text
              (omega (arith, length-take (length text) m.bytes))
              (λ j h.
                let h' : j < length text = omega (arith, length-take (length text) m.bytes) in
                let at : 245 * (j / 245) + j % 245 ≡ j = omega arith in
                get_or-take (length text) m.bytes j h'
                ∙ rw at at (
                    v.filled (j / 245) (j % 245) (all (j / 245) (omega arith)) (omega arith)
                      (omega arith)))),
      )

-- Each of these is the same for a list and for any rearrangement of it.
pub elem-Permᴰ : {xs ys : List ℕ} (k : ℕ) → Permᴰ xs ys → elem k xs ≡ elem k ys
elem-Permᴰ k Permᴰ.nil = refl
elem-Permᴰ k (Permᴰ.cons e p) = ground (arith, elem-Permᴰ k p)
elem-Permᴰ k (Permᴰ.swap e f) = ground arith
elem-Permᴰ k (Permᴰ.trans p q) = elem-Permᴰ k p ∙ elem-Permᴰ k q

pub total_size-Permᴰ :
    {xs ys : List ℕ} (text : Bytes) → Permᴰ xs ys → total_size text xs ≡ total_size text ys
total_size-Permᴰ text Permᴰ.nil = refl
total_size-Permᴰ text (Permᴰ.cons e p) = ground (arith, total_size-Permᴰ text p)
total_size-Permᴰ text (Permᴰ.swap e f) = ground arith
total_size-Permᴰ text (Permᴰ.trans p q) = total_size-Permᴰ text p ∙ total_size-Permᴰ text q

pub length-Permᴰ : {xs ys : List ℕ} → Permᴰ xs ys → length xs ≡ length ys
length-Permᴰ Permᴰ.nil = refl
length-Permᴰ (Permᴰ.cons e p) = ap suc (length-Permᴰ p)
length-Permᴰ (Permᴰ.swap e f) = refl
length-Permᴰ (Permᴰ.trans p q) = length-Permᴰ p ∙ length-Permᴰ q

pub elem-range_from : (k n i : ℕ) → elem i (range_from k n) ≡ (leb k i && ltb i (k + n))
elem-range_from k zero i = ground arith
elem-range_from k (suc n) i = ground (arith, elem-range_from (k + 1) n i)

pub length-range_from : (k n : ℕ) → length (range_from k n) ≡ n
length-range_from k zero = refl
length-range_from k (suc n) = ap suc (length-range_from (k + 1) n)

pub total_size-range_from :
    (text : Bytes) (k n : ℕ)
    → parts (length text - 245 * k) ≡ n
    → total_size text (range_from k n) ≡ length text - 245 * k
total_size-range_from text k zero e = omega arith
total_size-range_from text k (suc n) e =
    omega (arith, total_size-range_from text (k + 1) n (omega arith))
