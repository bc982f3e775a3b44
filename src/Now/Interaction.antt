-- ===== src/Now/Interaction.antt =====
-- network/base/async_now_interactions.cpp: a message is cut into packets, and a receiver puts the
-- packets of a message together. A packet that is handed to `AsyncEspNow::send` is its bytes. What a
-- receiver hands on is recorded in order. `ESP_NOW_MAX_DATA_LEN` is 250. A MAC address is a number
-- below 2 ^ 48, and `is_response` is the byte of a `bool`, so a message's key is a number too.
pub mod Fragments
pub mod Acceptance
pub mod Reassembly
pub mod Delivery
use esp_iot_framework.Prelude.{
  ℕ, zero, suc, ◌+◌, ◌-◌, ◌*◌, ◌/◌, ◌%◌, min, Bool, not, ◌&&◌, Option, none, some, List, [], ◌∷◌,
  ◌++◌, ltb, ◌==◌, if◌then◌else◌, u8_mod, u16_mod, length, get_or, take, drop, Bytes, write_at, Map,
  lookup, insert, erase,
}

abbrev pub interaction_header_length : ℕ
interaction_header_length = 5

abbrev pub max_packet_data_length : ℕ
max_packet_data_length = 245

abbrev pub max_data_length : ℕ
max_data_length = 255 * max_packet_data_length

pub record InteractionPacketHeader : Type 0 where
  pub id : ℕ
  pub is_response : Bool
  pub index : ℕ
  pub count : ℕ
  pub size : ℕ

abbrev pub flag_byte : Bool → ℕ
flag_byte b = if b then 1 else 0

abbrev pub interaction_header_bytes : InteractionPacketHeader → Bytes
interaction_header_bytes h = h.id ∷ flag_byte h.is_response ∷ h.index ∷ h.count ∷ h.size ∷ []

abbrev pub read_interaction_header : Bytes → InteractionPacketHeader
read_interaction_header packet = record {
  id = get_or packet 0 0;
  is_response = not (get_or packet 1 0 == 0);
  index = get_or packet 2 0;
  count = get_or packet 3 0;
  size = get_or packet 4 0;
}

-- The number of packets goes through a `uint8_t`.
abbrev pub total_packets_count : ℕ → ℕ
total_packets_count size =
    (size / max_packet_data_length + (if size % max_packet_data_length == 0 then 0 else 1)) % u8_mod

-- The loop of `_send_impl`. A round takes at least one byte, so `remaining` rounds are enough.
pub send_packets : ℕ → ℕ → Bool → ℕ → ℕ → Bytes → ℕ → List Bytes
send_packets zero id is_response index count bytes remaining = []
send_packets (suc fuel) id is_response index count bytes remaining =
    let n = min remaining max_packet_data_length in
    let header : InteractionPacketHeader = record {
      id = id;
      is_response = is_response;
      index = index;
      count = count;
      size = n;
    } in
    let packet = interaction_header_bytes header ++ take n bytes in
    let rest =
      send_packets fuel id is_response ((index + 1) % u8_mod) count (drop n bytes)
        (remaining - n) in
    if remaining == 0 then [] else packet ∷ rest

-- `none` is the errored future, with nothing sent. `bytes` is the memory behind a pointer that is not
-- null.
pub send_impl : ℕ → Bool → Bytes → ℕ → Option (List Bytes)
send_impl id is_response bytes size =
    if size == 0
    then none
    else if ltb max_data_length size
    then none
    else some (send_packets size id is_response 0 (total_packets_count size) bytes size)

pub record EspNowMessage : Type 0 where
  pub id : ℕ
  pub mac_addr : ℕ
  pub received_count : ℕ
  pub parts_count : ℕ
  pub size : ℕ
  pub bytes : Bytes

abbrev pub message_key : ℕ → Bool → ℕ → ℕ
message_key id is_response mac = id + u8_mod * flag_byte is_response + 65536 * mac

-- A promise that was resolved with a message, or a message given to the callback.
pub data Event : Type 0 where
  resolved : ℕ → EspNowMessage → Event
  on_message : EspNowMessage → Event

-- `requests` maps an id to the promise of its response; `has_callback` is whether `_on_message_cb` is
-- set.
pub record Interaction : Type 0 where
  pub requests : Map ℕ
  pub messages : Map EspNowMessage
  pub has_callback : Bool
  pub events : List Event

abbrev pub is_ill_formed : InteractionPacketHeader → Bool
is_ill_formed h =
    not (h.count == 1) && (ltb h.index (h.size - 1) && not (h.size == max_packet_data_length))

-- The packet's data is copied to its place; the code does not check that it lies in the memory.
unfoldable pub add_part : EspNowMessage → InteractionPacketHeader → Bytes → EspNowMessage
add_part m h packet = record m {
  size = (m.size + h.size) % u16_mod;
  received_count = (m.received_count + 1) % u8_mod;
  bytes =
      write_at m.bytes (max_packet_data_length * h.index)
        (take h.size (drop interaction_header_length packet));
}

-- The end of `_on_packet_received`, for a message that has all its parts.
unfoldable pub complete : Interaction → InteractionPacketHeader → EspNowMessage → Interaction
complete s h m =
    if h.is_response
    then elim (lookup h.id s.requests) [
      | some promise ↦ record s {
        requests = erase h.id s.requests;
        events = s.events ++ (resolved promise m ∷ []);
      }
      | none ↦ s
    ]
    else if s.has_callback
    then record s { events = s.events ++ (on_message m ∷ []) }
    else s

-- `fresh n` is the memory that `new uint8_t[n]` returns.
module _ (fresh : ℕ → Bytes) where
  unfoldable pub new_message : InteractionPacketHeader → ℕ → EspNowMessage
  new_message h mac = record {
    id = h.id;
    mac_addr = mac;
    received_count = 0;
    parts_count = h.count;
    size = 0;
    bytes = fresh (if h.count == 1 then h.size else h.count * max_packet_data_length);
  }

  abbrev pub pending : Interaction → InteractionPacketHeader → ℕ → EspNowMessage
  pending s h mac = elim (lookup (message_key h.id h.is_response mac) s.messages) [
    | some m ↦ m
    | none ↦ new_message h mac
  ]

  -- What a packet that passed both tests does.
  unfoldable pub accept_part : Interaction → ℕ → InteractionPacketHeader → Bytes → Interaction
  accept_part s mac h packet =
      let key = message_key h.id h.is_response mac in
      let m = add_part (pending s h mac) h packet in
      let s' = complete s h m in
      if not (m.received_count == m.parts_count)
      then record s { messages = insert key m s.messages }
      else record s' { messages = erase key s'.messages }

  -- `size` is the packet's.
  unfoldable pub on_packet_received : Interaction → ℕ → ℕ → Bytes → Interaction
  on_packet_received s mac size packet =
      let h = read_interaction_header packet in
      if ltb size interaction_header_length
      then s
      else if is_ill_formed h
      then s
      else accept_part s mac h packet

  pub receive_all : Interaction → ℕ → List Bytes → Interaction
  receive_all s mac [] = s
  receive_all s mac (p ∷ ps) = receive_all (on_packet_received s mac (length p) p) mac ps
