-- ===== src/Now/Interaction/Fragments.antt =====
-- The packets that a message is cut into.
use esp_iot_framework.Prelude.{
  ℕ, zero, suc, ◌+◌, ◌-◌, ◌*◌, ◌/◌, ◌%◌, ◌≤◌, min, ◌≡◌, refl, sym, ap, ◌∙◌, inl, inr, Bool, true,
  false, ◌&&◌, none, some, List, [], ◌∷◌, ◌++◌, map, arith, ltb, leb, ◌==◌, if◌then◌else◌, leb→le,
  Bool-cases, u8_mod, length, take, drop, length-take, length-drop, take-all, Bytes, drop-all,
}
use native.Mathlib.Nat.{sub-zero}
use esp_iot_framework.Now.Interaction.{
  max_data_length, InteractionPacketHeader, interaction_header_bytes, total_packets_count,
  send_packets, send_impl,
}

-- The number of parts of a message of `n` bytes.
abbrev pub parts : ℕ → ℕ
parts n = (n + 244) / 245

-- Part `k` of a message, without the text (`chunk`), and as a packet (`fragment`).
abbrev pub chunk : Bytes → ℕ → Bytes
chunk text k = take 245 (drop (245 * k) text)

abbrev pub chunk_size : Bytes → ℕ → ℕ
chunk_size text k = min (length text - 245 * k) 245

abbrev pub fragment_header : ℕ → Bool → Bytes → ℕ → InteractionPacketHeader
fragment_header id is_response text k = record {
  id = id;
  is_response = is_response;
  index = k;
  count = parts (length text);
  size = chunk_size text k;
}

abbrev pub fragment : ℕ → Bool → Bytes → ℕ → Bytes
fragment id is_response text k =
    interaction_header_bytes (fragment_header id is_response text k) ++ chunk text k

-- The numbers from `k` on, `n` of them.
abbrev pub range_from : ℕ → ℕ → List ℕ
range_from k zero = []
range_from k (suc n) = k ∷ range_from (k + 1) n

pub length-chunk : (text : Bytes) (k : ℕ) → length (chunk text k) ≡ chunk_size text k
length-chunk text k =
    omega (arith, length-take 245 (drop (245 * k) text), length-drop (245 * k) text)

take-min : (xs : Bytes) (m n : ℕ) → length xs ≡ m → take (min m n) xs ≡ take n xs
take-min xs m n h = elim (Bool-cases (leb m n)) [
  | inl short ↦
      let le : m ≤ n = leb→le _ _ short in
      take-all (min m n) xs (omega arith) ∙ sym (take-all n xs (omega arith))
  | inr long ↦ ap (λ k. take k xs) (ground arith)
]

drop-nil : (n : ℕ) → drop {A = ℕ} n [] ≡ []
drop-nil zero = refl
drop-nil (suc n) = refl

drop-drop : (m n : ℕ) (xs : Bytes) → drop m (drop n xs) ≡ drop (n + m) xs
drop-drop m zero xs = ap (λ k. drop k xs) (omega arith)
drop-drop m (suc n) [] = drop-nil m ∙ sym (drop-nil (suc n + m))
drop-drop m (suc n) (x ∷ xs) =
    drop-drop m n xs ∙ (let e : suc n + m ≡ suc (n + m) = omega arith in rw e)

-- What is left behind part `k` is what is left from part `k + 1` on.
drop-chunk :
    (text : Bytes) (k : ℕ)
    → drop (chunk_size text k) (drop (245 * k) text) ≡ drop (245 * (k + 1)) text
drop-chunk text k =
    drop-drop (chunk_size text k) (245 * k) text
    ∙ elim (Bool-cases (leb (245 * (k + 1)) (length text))) [
      | inl whole ↦ ap (λ n. drop n text) (ground arith)
      | inr end_ ↦
          let past : length text ≤ 245 * k + chunk_size text k = ground arith in
          let past' : length text ≤ 245 * (k + 1) = ground arith in
          drop-all _ text past ∙ sym (drop-all _ text past')
    ]

-- What is left to send, from part `k` on.
send_packets-fragments :
    (n fuel id : ℕ) (is_response : Bool) (text : Bytes) (k : ℕ)
    → length text - 245 * k ≤ fuel
    → parts (length text - 245 * k) ≡ n
    → k + n ≤ 255
    → send_packets fuel id is_response k
        (parts (length text))
        (drop (245 * k) text)
        (length text - 245 * k)
      ≡ map (fragment id is_response text) (range_from k n)
unfolding send_packets
send_packets-fragments zero zero id r text k f e h = refl
send_packets-fragments zero (suc fuel) id r text k f e h = ground arith
send_packets-fragments (suc n) zero id r text k f e h = absurd (omega arith)
send_packets-fragments (suc n) (suc fuel) id r text k f e h =
    let more : (length text - 245 * k == 0) ≡ false = ground arith in
    let index : (k + 1) % u8_mod ≡ k + 1 = omega arith in
    let left : length text - 245 * k - chunk_size text k ≡ length text - 245 * (k + 1) =
      omega arith in
    let part =
      take-min (drop (245 * k) text) (length text - 245 * k) 245 (length-drop (245 * k) text) in
    rw (more, index, left, drop-chunk text k, part)
      (ap (λ ps. fragment id r text k ∷ ps)
        (send_packets-fragments n fuel id r text (k + 1) (omega arith) (omega arith) (omega arith)))

-- A message of 1 to 62475 bytes is sent as its parts, in their order: every packet carries the
-- message's id, its own number and the number of parts, and at most 245 bytes of the text. Any other
-- message is refused and nothing is sent.
pub send_impl-fragments :
    (id : ℕ) (is_response : Bool) (text : Bytes)
    → send_impl id is_response text (length text) ≡ (
        if ltb 0 (length text) && leb (length text) max_data_length
        then some (map (fragment id is_response text) (range_from 0 (parts (length text))))
        else none)
unfolding send_impl
send_impl-fragments id r text = elim (Bool-cases (length text == 0)) [
  | inl empty ↦ let e : ltb 0 (length text) ≡ false = ground arith in rw (empty, e)
  | inr bytes_there ↦
      let some_there : ltb 0 (length text) ≡ true = ground arith in
      elim (Bool-cases (ltb max_data_length (length text))) [
        | inl long ↦
            let over : leb (length text) max_data_length ≡ false = ground arith in
            rw (bytes_there, some_there, long, over)
        | inr fits ↦
            let under : leb (length text) max_data_length ≡ true = ground arith in
            let le : length text ≤ 62475 = ground arith in
            let total : total_packets_count (length text) ≡ parts (length text) = ground arith in
            rw (bytes_there, some_there, fits, under, total)
              (ap some (
                rw sub-zero at (
                  send_packets-fragments (parts (length text)) (length text) id r text 0
                    (omega arith) (omega arith) (omega arith))))
      ]
]
