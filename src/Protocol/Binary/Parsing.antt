-- ===== src/Protocol/Binary/Parsing.antt =====
-- `parse_packet` against the layout of a packet in memory.
use esp_iot_framework.Prelude.{
  ℕ, zero, suc, ◌+◌, ◌%◌, u8_mod, ◌≤◌, ◌<◌, ◌≡◌, ◌≢◌, ◌⊎◌, inl, inr, not, [], ◌∷◌, ◌++◌, arith, ltb,
  ◌==◌, if◌then◌else◌, Bool-cases, length, get_or, drop, Bytes,
}
use esp_iot_framework.Protocol.Types.{
  ResponseCode, Response, code, PacketHeader, Packet, header_size, header_bytes, read_header,
  PacketParsingResponse,
}
use esp_iot_framework.Protocol.Binary.{packet_signature, parse_packet}

-- The values that a header's fields can hold.
pub record IsHeader (h : PacketHeader) : Type 0 where
  pub signature : h.signature < 65536
  pub request_id : h.request_id < 65536
  pub size : h.size < 65536

abbrev pub AreBytes : Bytes → Type 0
AreBytes [] = Unit {0}
AreBytes (b ∷ bs) = (b < 256) × AreBytes bs

-- A header's fields are read back from its memory.
read_header-header_bytes :
    (h : PacketHeader) (rest : Bytes) → IsHeader h → read_header (header_bytes h ++ rest) ≡ h
read_header-header_bytes h rest v = ground arith

-- A header with the signature, whose size is that of the data that follows it, at most 249 bytes, is
-- accepted if the length given is that of both, whatever lies behind them in the buffer: the header and a
-- pointer to the data come back, and the request id.
pub parse_packet-header_bytes :
    (h : PacketHeader) (payload rest : Bytes)
    → IsHeader h
    → h.signature ≡ packet_signature
    → h.size ≡ length payload
    → header_size + length payload < 256
    → parse_packet (header_bytes h ++ (payload ++ rest)) (header_size + length payload)
      ≡ PacketParsingResponse.ok (record { header = h; bytes = payload ++ rest }) h.request_id
unfolding parse_packet
parse_packet-header_bytes h payload rest v s e short =
    ground (arith, read_header-header_bytes h (payload ++ rest) v)

header_bytes-read_header :
    (buffer : Bytes)
    → header_size ≤ length buffer
    → AreBytes buffer
    → header_bytes (read_header buffer) ++ drop header_size buffer ≡ buffer
header_bytes-read_header (a ∷ b ∷ c ∷ d ∷ e ∷ f ∷ g ∷ rest) h v = ground arith
header_bytes-read_header _ h v = absurd (omega arith)

-- Whatever is accepted is well formed: it carries the signature, the length given is that of the
-- header and the data that it announces, the id is the header's, and the header's memory followed by
-- the data is the buffer that was parsed. The buffer holds at least `length` bytes, fewer than 256.
parse_packet_sound :
    (buffer : Bytes) (length_given : ℕ) (p : Packet) (id : ℕ)
    → AreBytes buffer
    → length_given ≤ length buffer
    → length_given < 256
    → parse_packet buffer length_given ≡ PacketParsingResponse.ok p id
    → (p.header.signature ≡ packet_signature)
      × (header_size + p.header.size ≡ length_given)
      × (id ≡ p.header.request_id)
      × (header_bytes p.header ++ p.bytes ≡ buffer)
unfolding parse_packet
parse_packet_sound buffer n p id v h short e = ground (arith, header_bytes-read_header buffer)

-- A refusal never depends on the data: too short a packet is answered for request 0 with
-- PACKET_LENGTH_EXCEEDED, and any other refusal for the packet's own request with BAD_REQUEST,
-- because the signature or the announced size is wrong.
parse_packet_refused :
    (buffer : Bytes) (length_given : ℕ) (r : Response) (id : ℕ)
    → length_given < 256
    → parse_packet buffer length_given ≡ PacketParsingResponse.fail r id
    → ((length_given < header_size) × (r ≡ code ResponseCode.packet_length_exceeded) × (id ≡ 0))
      ⊎ ((header_size ≤ length_given)
          × (r ≡ code ResponseCode.bad_request)
          × (id ≡ (read_header buffer).request_id)
          × (((read_header buffer).signature ≢ packet_signature)
              ⊎ (header_size + (read_header buffer).size ≢ length_given)))
unfolding parse_packet
parse_packet_refused buffer n r id short e = grind arith

-- The id that the answer to a packet carries.
abbrev pub answered_id : Bytes → ℕ → ℕ
answered_id buffer n = if ltb n header_size then 0 else (read_header buffer).request_id

-- The two outcomes of parsing, with the id that either hands to the answer.
pub parse_packet_cases :
    (buffer : Bytes) (n : ℕ)
    → ((p : Packet) × (parse_packet buffer n
          ≡ PacketParsingResponse.ok p (answered_id buffer (n % u8_mod))))
      ⊎ ((c : ResponseCode) × (parse_packet buffer n
            ≡ PacketParsingResponse.fail (code c) (answered_id buffer (n % u8_mod))))
unfolding parse_packet
parse_packet_cases buffer n = elim (Bool-cases (ltb (n % u8_mod) header_size)) [
  | inl short ↦ inr (ResponseCode.packet_length_exceeded, rw short)
  | inr long ↦ elim (Bool-cases (not ((read_header buffer).signature == packet_signature))) [
    | inl wrong ↦ inr (ResponseCode.bad_request, rw (long, wrong))
    | inr right ↦ elim (Bool-cases (not (header_size + (read_header buffer).size == n % u8_mod))) [
      | inl wrong ↦ inr (ResponseCode.bad_request, rw (long, right, wrong))
      | inr exact ↦ inl (
        record { header = read_header buffer; bytes = drop header_size buffer },
        rw (long, right, exact),
      )
    ]
  ]
]

get_or-AreBytes : (bs : Bytes) (i : ℕ) → AreBytes bs → get_or bs i 0 < 256
get_or-AreBytes [] i v = omega arith
get_or-AreBytes (b ∷ bs) zero v = v.0
get_or-AreBytes (b ∷ bs) (suc i) v = get_or-AreBytes bs i v.1

pub answered_id-lt : (buffer : Bytes) (n : ℕ) → AreBytes buffer → answered_id buffer n < 65536
answered_id-lt buffer n v = ground (arith, get_or-AreBytes buffer 2 v, get_or-AreBytes buffer 3 v)

pub parse_packet_short :
    (buffer : Bytes) (n : ℕ)
    → n % u8_mod < header_size
    → parse_packet buffer n
      ≡ PacketParsingResponse.fail (code ResponseCode.packet_length_exceeded) 0
unfolding parse_packet
parse_packet_short buffer n h = ground arith
