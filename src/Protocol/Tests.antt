-- ===== src/Protocol/Tests.antt =====
-- The theorems about the protocol at packets that a client sends, and runs of the code.
use esp_iot_framework.Prelude.{
  ℕ, ◌<◌, ◌≡◌, refl, List, [], ◌∷◌, ◌++◌, arith, length, get_or, Bytes, c_string,
}
use esp_iot_framework.Protocol.Types.{
  ResponseCode, code, PacketHeader, Packet, header_bytes, PacketParsingResponse,
}
use esp_iot_framework.Protocol.Binary.{parse_packet, update_string_list_value}
use esp_iot_framework.Protocol.Binary.Parsing.{parse_packet-header_bytes}
use esp_iot_framework.Protocol.Binary.Strings.{terminated, expected, update_string_list_value_lem}

abbrev set_request : PacketHeader
set_request = record { signature = 0xDABA; request_id = 258; type = 5; size = 3 }

abbrev payload : Bytes
payload = 1 ∷ 2 ∷ 3 ∷ []

abbrev received : Bytes
received = header_bytes set_request ++ (payload ++ 9 ∷ [])

abbrev packet : Packet
packet = record { header = set_request; bytes = payload ++ 9 ∷ [] }

parse_packet-header_bytes_example : parse_packet received 10 ≡ PacketParsingResponse.ok packet 258
parse_packet-header_bytes_example =
    parse_packet-header_bytes set_request payload (9 ∷ [])
      (record { signature = omega arith; request_id = omega arith; size = omega arith }) refl refl
      (omega arith)

abbrev foreign : Bytes
foreign = 0xDA ∷ 0xBA ∷ 2 ∷ 1 ∷ 5 ∷ 0 ∷ 0 ∷ []

parse_packet-foreign :
    parse_packet foreign 7 ≡ PacketParsingResponse.fail (code ResponseCode.bad_request) 258
unfolding parse_packet
parse_packet-foreign = refl

abbrev three : Bytes
three = 7 ∷ 7 ∷ 7 ∷ []

abbrev slots : List Bytes
slots = three ∷ three ∷ three ∷ []

abbrev names : List Bytes
names = (1 ∷ []) ∷ (4 ∷ 5 ∷ 6 ∷ []) ∷ []

abbrev list_request : PacketHeader
list_request = record { signature = 0xDABA; request_id = 3; type = 5; size = 7 }

update_string_list_value_lem_example :
    let (response, changed) =
      update_string_list_value slots 3 3 list_request (1 ∷ terminated names ++ []) in
    (response ≡ code ResponseCode.ok)
    × (length changed ≡ 3)
    × ((k : ℕ)
        → k < 3
        → c_string (get_or changed k []) 3 ≡ expected 1 names k (c_string (get_or slots k []) 3))
update_string_list_value_lem_example =
    update_string_list_value_lem slots 3 1 list_request names [] (omega arith) refl
      (λ e. ground arith) (omega arith) (ground arith) (ground arith)
