-- ===== src/Now/Io.antt =====
-- network/server/now_io.h and network/server/now_io.cpp: packets of items over the interactions. A
-- packet is laid out in an array on the stack (`fresh n` is the memory of one of `n` bytes), handed to
-- the interactions with its size, a `uint16_t`, and read from the message that arrives.
pub mod Transfer
pub mod Server
pub mod Answers
use esp_iot_framework.Prelude.{
  ℕ, ◌+◌, ◌-◌, ◌%◌, Bool, ◌&&◌, Option, none, some, List, [], ◌∷◌, ◌==◌, if◌then◌else◌, u16_mod,
  get_or, take, drop, Bytes, write_at,
}
use esp_iot_framework.Now.Interaction.{EspNowMessage, send_impl}

-- `SpecialPacketTypes`
abbrev pub ping_type : ℕ
ping_type = 0xf0

abbrev pub discovery_type : ℕ
discovery_type = 0xf1

abbrev system_response_type : ℕ
system_response_type = 0xff

abbrev pub packet_header_size : ℕ
packet_header_size = 2

-- `bytes` is the memory that `data` points to.
pub record NowPacket : Type 0 where
  pub id : ℕ
  pub mac_addr : ℕ
  pub type : ℕ
  pub count : ℕ
  pub size : ℕ
  pub bytes : Bytes

-- `bytes` is `none` for a null pointer.
unfoldable pub fill_packet_data : Bytes → ℕ → ℕ → Option Bytes → ℕ → Bytes
fill_packet_data out_packet type count bytes size =
    let headed = write_at out_packet 0 (type ∷ count ∷ []) in
    elim bytes [
      | some d ↦ if count == 0 then headed else write_at headed packet_header_size (take size d)
      | none ↦ headed
    ]

module _ (fresh : ℕ → Bytes) where
  unfoldable pub make_packet : ℕ → ℕ → Option Bytes → ℕ → Bytes
  unfolding fill_packet_data
  make_packet type count bytes size =
      fill_packet_data (fresh (packet_header_size + size)) type count bytes size

  -- `send` and `request` when `is_response` is false, and `respond` when it is true: the packets that
  -- are handed to the transport, under the id that the interactions chose or that is answered.
  unfoldable pub send : ℕ → Bool → ℕ → ℕ → Option Bytes → ℕ → Option (List Bytes)
  unfolding make_packet
  send id is_response type count bytes size =
      send_impl id is_response (make_packet type count bytes size)
        ((packet_header_size + size) % u16_mod)

-- `NowPacket::parse`: the size is a `uint16_t`.
unfoldable pub parse : EspNowMessage → NowPacket
parse m = record {
  id = m.id;
  mac_addr = m.mac_addr;
  type = get_or m.bytes 0 0;
  count = get_or m.bytes 1 0;
  size = (m.size + u16_mod - packet_header_size) % u16_mod;
  bytes = drop packet_header_size m.bytes;
}

-- The test of `ping` and `discovery`.
abbrev pub is_valid_answer : NowPacket → Bool
is_valid_answer response =
    (response.type == system_response_type) && ((response.count == 0) && (response.size == 0))
