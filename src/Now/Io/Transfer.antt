-- ===== src/Now/Io/Transfer.antt =====
-- What is sent as items arrives as the same items.
use esp_iot_framework.Prelude.{
  ℕ, suc, ◌+◌, ◌%◌, ◌≤◌, ◌<◌, ◌≡◌, refl, sym, ap, ◌∙◌, ◌≢◌, true, false, none, some, List, [], ◌∷◌,
  ◌++◌, map, arith, ltb, leb, ◌==◌, if◌then◌else◌, u16_mod, length, get_or, take, drop, take-all,
  Bytes, write_at, write_at-zero, drop-all, append-nil, lookup,
}
use mathlib.Core.List.{Permᴰ}
use esp_iot_framework.Now.Interaction.{
  EspNowMessage, Interaction, on_message, message_key, max_data_length, receive_all,
}
use esp_iot_framework.Now.Interaction.Fragments.{parts, fragment, range_from, send_impl-fragments}
use esp_iot_framework.Now.Interaction.Acceptance.{is_deliverable}
use esp_iot_framework.Now.Interaction.Delivery.{receive_all_delivers}
use esp_iot_framework.Now.Io.{packet_header_size, fill_packet_data, make_packet, send, parse}

write_at_nothing : (m : Bytes) → write_at m 0 [] ≡ m
write_at_nothing [] = refl
write_at_nothing (x ∷ m) = refl

header_then_items :
    (m items : Bytes) (type count : ℕ)
    → length m ≡ 2 + length items
    → write_at (write_at m 0 (type ∷ count ∷ [])) 2 items ≡ type ∷ count ∷ items
header_then_items [] items type count h = absurd (omega arith)
header_then_items (x ∷ []) items type count h = absurd (omega arith)
header_then_items (x ∷ y ∷ m) items type count h =
    let same : length items ≡ length m = omega arith in
    ap (λ r. type ∷ count ∷ r)
      (ap (λ r. write_at r 0 items) (write_at_nothing m)
        ∙ write_at-zero m items (omega arith)
        ∙ rw (drop-all (length items) m (omega arith)) (append-nil items))

-- The packet of items is its header and the items.
make_packet-items :
    (stack : ℕ → Bytes) (type count : ℕ) (items : Bytes)
    → ((n : ℕ) → length (stack n) ≡ n)
    → count ≢ 0
    → make_packet stack type count (some items) (length items) ≡ type ∷ count ∷ items
unfolding make_packet fill_packet_data
make_packet-items stack type count items h c =
    let some_items : (count == 0) ≡ false = ground arith in
    let n = packet_header_size + length items in
    rw (some_items, take-all (length items) items (omega arith))
      (header_then_items (stack n) items type count (h n))

-- A message whose bytes begin with a packet is parsed to it.
record Parsed (m : EspNowMessage) (kind number : ℕ) (items : Bytes) : Type 0 where
  id : (parse m).id ≡ m.id
  mac_addr : (parse m).mac_addr ≡ m.mac_addr
  type : (parse m).type ≡ kind
  count : (parse m).count ≡ number
  bytes : take (length items) (parse m).bytes ≡ items

parse-Parsed :
    (xs : Bytes) (m : EspNowMessage) (type count : ℕ) (items : Bytes)
    → m.bytes ≡ xs
    → take (suc (suc (length items))) xs ≡ type ∷ count ∷ items
    → Parsed m type count items
unfolding parse
parse-Parsed [] m type count items b e = absurd (cc)
parse-Parsed (x ∷ []) m type count items b e = absurd (omega (arith, ap length e))
parse-Parsed (x ∷ y ∷ xs) m type count items b e = record {
  id = refl;
  mac_addr = refl;
  type = rw b (ap (λ bs. get_or bs 0 0) e);
  count = rw b (ap (λ bs. get_or bs 1 0) e);
  bytes = rw b (ap (λ bs. drop 2 bs) e);
}

parse-size : (m : EspNowMessage) (n : ℕ) → m.size ≡ 2 + n → n < 65000 → (parse m).size ≡ n
unfolding parse
parse-size m n e h = omega arith

send-fragments :
    (stack : ℕ → Bytes) (id type count : ℕ) (items : Bytes)
    → ((n : ℕ) → length (stack n) ≡ n)
    → count ≢ 0
    → packet_header_size + length items ≤ max_data_length
    → let packet = type ∷ count ∷ items in
      send stack id false type count (some items) (length items)
      ≡ some (map (fragment id false packet) (range_from 0 (parts (length packet))))
unfolding send
send-fragments stack id type count items h c small =
    let packet : Bytes = type ∷ count ∷ items in
    let size : (packet_header_size + length items) % u16_mod ≡ length packet = omega arith in
    let bytes_there : ltb 0 (length packet) ≡ true = ground arith in
    let fits : leb (length packet) max_data_length ≡ true = ground arith in
    rw (make_packet-items stack type count items h c, size)
      (send_impl-fragments id false packet ∙ rw (bytes_there, fits))

-- Items that are sent, not none of them, are cut into packets; in whatever order these arrive at a
-- receiver that has a callback and holds no part of them, that gets one message, which is parsed to
-- the kind, the number and the bytes of the items, with the sender's address and the id. The whole
-- must be a message that is deliverable, of at most 62475 bytes.
pub items_arrive :
    (heap stack : ℕ → Bytes) (s : Interaction) (sender id type count : ℕ) (items : Bytes)
    (ks : List ℕ)
    → ((n : ℕ) → length (heap n) ≡ n)
    → ((n : ℕ) → length (stack n) ≡ n)
    → count ≢ 0
    → packet_header_size + length items ≤ max_data_length
    → is_deliverable (type ∷ count ∷ items) ≡ true
    → Permᴰ ks (range_from 0 (parts (packet_header_size + length items)))
    → s.has_callback ≡ true
    → lookup (message_key id false sender) s.messages ≡ none
    → let packet = type ∷ count ∷ items in
      (send stack id false type count (some items) (length items)
        ≡ some (map (fragment id false packet) (range_from 0 (parts (length packet)))))
      × ((m : EspNowMessage) × ((receive_all heap s sender
              (map (fragment id false packet) ks)).events
            ≡ s.events ++ on_message m ∷ [])
          × ((parse m).id ≡ id)
          × ((parse m).mac_addr ≡ sender)
          × ((parse m).type ≡ type)
          × ((parse m).count ≡ count)
          × ((parse m).size ≡ length items)
          × (take (parse m).size (parse m).bytes ≡ items))
items_arrive heap stack s sender id type count items ks hh hs c small d p cb held =
    let packet : Bytes = type ∷ count ∷ items in
    let n : 2 + length items ≡ length packet = omega arith in
    let (m, m_id, m_mac, m_size, m_text, m_events, _, _) =
      receive_all_delivers heap s sender id false packet ks hh (omega arith) (omega arith) d
        (rw n at p) held in
    let parsed = parse-Parsed m.bytes m type count items refl (rw m_size at m_text) in
    let size = parse-size m (length items) (m_size ∙ sym n) (omega arith) in
    (
      send-fragments stack id type count items hs c small,
      (
        m,
        m_events ∙ ap (λ b. s.events ++ (if b then on_message m ∷ [] else [])) cb,
        parsed.id ∙ m_id,
        parsed.mac_addr ∙ m_mac,
        parsed.type,
        parsed.count,
        size,
        rw size parsed.bytes,
      ),
    )
