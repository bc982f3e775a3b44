-- ===== src/Protocol/Binary.antt =====
-- network/protocol/binary.h: parsing a packet, and writing a packet's data into a parameter. A
-- function that writes through a pointer takes the memory behind it and returns it changed.
pub mod Parsing
pub mod Updates
pub mod Strings
use esp_iot_framework.Prelude.{
  ℕ, zero, suc, ◌+◌, ◌-◌, ◌*◌, ◌%◌, not, List, [], if◌then◌else◌, ltb, leb, ◌==◌, u8_mod, min,
  get_or, set, take, drop, Bytes, write_at, strnlen,
}
use esp_iot_framework.Protocol.Types.{
  ResponseCode, Response, code, binary, PacketHeader, header_size, read_header,
  PacketParsingResponse,
}

-- `PACKET_SIGNATURE`.
abbrev pub packet_signature : ℕ
packet_signature = 0xDABA

-- `length` is a `uint8_t`: what a caller passes is cut to eight bits.
unfoldable pub parse_packet : Bytes → ℕ → PacketParsingResponse
parse_packet buffer given =
    let length = given % u8_mod in
    let header = read_header buffer in
    if ltb length header_size
    then PacketParsingResponse.fail (code ResponseCode.packet_length_exceeded) 0
    else if not (header.signature == packet_signature)
    then PacketParsingResponse.fail (code ResponseCode.bad_request) header.request_id
    else if not (header_size + header.size == length)
    then PacketParsingResponse.fail (code ResponseCode.bad_request) header.request_id
    else PacketParsingResponse.ok (record { header = header; bytes = drop header_size buffer })
        header.request_id

-- `serialize`: `sizeof(obj)` goes through a `uint16_t` field.
serialize : Bytes → ℕ → Response
serialize obj size_of = binary (size_of % 65536) obj

-- `update_parameter_value`, both overloads: `size` is `sizeof(T)` in the first.
unfoldable pub update_parameter_value : Bytes → ℕ → PacketHeader → Bytes → Response × Bytes
update_parameter_value parameter size header bytes =
    if not (header.size == size)
    then (code ResponseCode.bad_request, parameter)
    else (code ResponseCode.ok, write_at parameter 0 (take size bytes))

-- The array of `count` elements, each of `size_of` bytes, is one block of memory; the index is the
-- first byte of the data, a `uint8_t` as `count` is.
unfoldable pub update_parameter_value_array :
    Bytes → ℕ → ℕ → PacketHeader → Bytes → Response × Bytes
update_parameter_value_array array count size_of header bytes =
    let index = get_or bytes 0 0 in
    if not (header.size == size_of + 1)
    then (code ResponseCode.bad_request, array)
    else if leb count index
    then (code ResponseCode.bad_request, array)
    else (code ResponseCode.ok, write_at array (index * size_of) (take size_of (drop 1 bytes)))

unfoldable pub update_string_value : Bytes → ℕ → PacketHeader → Bytes → Response × Bytes
update_string_value str max_size header bytes =
    if ltb max_size header.size
    then (code ResponseCode.bad_request, str)
    else let copied = write_at str 0 (take header.size bytes) in
      (code ResponseCode.ok, if ltb header.size max_size then set copied header.size 0 else copied)

-- One string of the list: `(uint8_t) length` bytes are copied, at most `str_size`.
unfoldable pub store_string : Bytes → ℕ → Bytes → ℕ → Bytes
store_string slot str_size input length =
    let copied = write_at slot 0 (take (min (length % u8_mod) str_size) input) in
    if ltb length str_size then set copied length 0 else copied

-- The loop of `update_string_list_value`: `left` is `header.size - offset`, and each round takes at
-- least one byte of it, so `header.size` rounds are enough. `dst_index` is below `max_count`, a
-- `uint8_t`, when it is incremented, so it does not wrap.
unfoldable pub update_strings : ℕ → List Bytes → ℕ → ℕ → ℕ → Bytes → ℕ → List Bytes
unfolding store_string
update_strings zero destination str_size max_count dst_index input left = destination
update_strings (suc fuel) destination str_size max_count dst_index input left =
    let length = strnlen input left in
    let stored =
      set destination dst_index
        (store_string (get_or destination dst_index []) str_size input length) in
    let rest =
      update_strings fuel stored str_size max_count (dst_index + 1) (drop (length + 1) input)
        (left - (length + 1)) in
    if left == 0 then destination else if leb max_count dst_index then destination else rest

unfoldable pub update_string_list_value :
    List Bytes → ℕ → ℕ → PacketHeader → Bytes → Response × List Bytes
update_string_list_value destination str_size max_count header bytes =
    let dst_index = get_or bytes 0 0 in
    if ltb header.size 2
    then (code ResponseCode.bad_request, destination)
    else if leb max_count dst_index
    then (code ResponseCode.bad_request, destination)
    else (
      code ResponseCode.ok,
      update_strings header.size destination str_size max_count dst_index (drop 1 bytes)
          (header.size - 1),
    )
