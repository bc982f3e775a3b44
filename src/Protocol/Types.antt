-- ===== src/Protocol/Types.antt =====
-- network/protocol/type.h: response codes, the packed header, and what parsing a packet returns.
-- The template's `PacketEnumT` is an enum over `uint8_t`, as `SystemPacketTypeEnum` is, so that the
-- packed header has seven bytes. `reinterpret_cast` of a buffer is `read_header`, and the bytes of a
-- header that is copied out are `header_bytes`; both chips are little-endian.
use esp_iot_framework.Prelude.{
  ℕ, Bool, true, false, [], ◌∷◌, ◌++◌, Option, none, some, le16, of_le16, get_or, Bytes,
}

pub data ResponseCode : Type 0 where
  ok bad_request bad_command too_many_request packet_length_exceeded internal_error : ResponseCode

-- The tag `ResponseType` and the union beside it. A buffer is its size and the memory it points to.
pub data Response : Type 0 where
  code : ResponseCode → Response
  string : Bytes → Response
  binary : ℕ → Bytes → Response

unfoldable pub is_ok : Response → Bool
is_ok (code ResponseCode.ok) = true
is_ok (code _) = false
is_ok (string s) = true
is_ok (binary size bytes) = true

-- The enumerators of `SystemPacketTypeEnum`.
abbrev pub response_string : ℕ
response_string = 0xf0

abbrev pub response_binary : ℕ
response_binary = 0xf1

-- The text that a code is sent as.
abbrev pub code_text : ResponseCode → Bytes
code_text ResponseCode.ok = b'O' ∷ b'K' ∷ []
code_text ResponseCode.bad_request =
    b'B' ∷ b'A' ∷ b'D' ∷ b' ' ∷ b'R' ∷ b'E' ∷ b'Q' ∷ b'U' ∷ b'E' ∷ b'S' ∷ b'T' ∷ []
code_text ResponseCode.bad_command =
    b'B' ∷ b'A' ∷ b'D' ∷ b' ' ∷ b'C' ∷ b'O' ∷ b'M' ∷ b'M' ∷ b'A' ∷ b'N' ∷ b'D' ∷ []
code_text ResponseCode.too_many_request =
    b'T' ∷ b'O' ∷ b'O' ∷ b' ' ∷ b'M' ∷ b'A' ∷ b'N' ∷ b'Y' ∷ b' ' ∷ b'R' ∷ b'E' ∷ b'Q' ∷ b'U' ∷ b'E'
    ∷ b'S' ∷ b'T' ∷ b'S' ∷ []
code_text ResponseCode.packet_length_exceeded =
    b'P' ∷ b'A' ∷ b'C' ∷ b'K' ∷ b'E' ∷ b'T' ∷ b' ' ∷ b'L' ∷ b'E' ∷ b'N' ∷ b'G' ∷ b'T' ∷ b'H' ∷ b' '
    ∷ b'E' ∷ b'X' ∷ b'C' ∷ b'E' ∷ b'E' ∷ b'D' ∷ b'E' ∷ b'D' ∷ []
code_text ResponseCode.internal_error =
    b'I' ∷ b'N' ∷ b'T' ∷ b'E' ∷ b'R' ∷ b'N' ∷ b'A' ∷ b'L' ∷ b' ' ∷ b'E' ∷ b'R' ∷ b'R' ∷ b'O' ∷ b'R'
    ∷ []

-- `none` is the null pointer that a response of another type gives.
unfoldable code_string : Response → Option Bytes
code_string (code c) = some (code_text c)
code_string (string s) = none
code_string (binary size bytes) = none

pub record PacketHeader : Type 0 where
  pub signature : ℕ
  pub request_id : ℕ
  pub type : ℕ
  pub size : ℕ

abbrev pub header_size : ℕ
header_size = 7

-- The memory of a header.
abbrev pub header_bytes : PacketHeader → Bytes
header_bytes h = le16 h.signature ++ (le16 h.request_id ++ (h.type ∷ le16 h.size))

-- The header that lies at the start of a buffer.
abbrev pub read_header : Bytes → PacketHeader
read_header buffer = record {
  signature = of_le16 (get_or buffer 0 0) (get_or buffer 1 0);
  request_id = of_le16 (get_or buffer 2 0) (get_or buffer 3 0);
  type = get_or buffer 4 0;
  size = of_le16 (get_or buffer 5 0) (get_or buffer 6 0);
}

-- The header, and the memory that `data` points to.
pub record Packet : Type 0 where
  pub header : PacketHeader
  pub bytes : Bytes

pub data PacketParsingResponse : Type 0 where
  ok : Packet → ℕ → PacketParsingResponse
  fail : Response → ℕ → PacketParsingResponse
