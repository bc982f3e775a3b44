-- ===== src/Network/Tests.antt =====
-- The theorems about the WebSocket server at one with two clients and a fixed string.
use esp_iot_framework.Prelude.{
  ℕ, ◌≡◌, refl, [], ◌∷◌, ◌++◌, arith, ◌==◌, if◌then◌else◌, replicate, Bytes, lookup, update,
}
use esp_iot_framework.Base.Parameter.{fixed_string}
use esp_iot_framework.Misc.CircularBuffer
use esp_iot_framework.Misc.CircularBuffer.{CircularBuffer, load, get}
use esp_iot_framework.Protocol.Types.{ResponseCode, code, PacketHeader, header_bytes}
use esp_iot_framework.Network.WebSocket.{
  WebSocketServer, WebSocketRequest, blank_request, max_packet_queue, max_packet_size, sent,
  message, response_message, handle_packet_data, handle_connection, data_received, on_event,
}
use esp_iot_framework.Network.WebSocket.Messages.{messages_to, count, IsMessage}
use esp_iot_framework.Network.WebSocket.Dispatch.{packet_of, handle_packet_data_writes}
use esp_iot_framework.Network.WebSocket.Requests.{
  waiting, handle_connection_answers, handle_connection_long_request,
}
use esp_iot_framework.Network.WebSocket.Receiving.{request_of, on_event_data}

abbrev reply : Bytes
reply = 1 ∷ 2 ∷ []

-- Packets of type 5 write the fixed string at address 1, packets of type 6 read it.
abbrev server_with : CircularBuffer WebSocketRequest → WebSocketServer
server_with queue = record {
  commands = (1, 0) ∷ [];
  data_requests = (6, 1) ∷ [];
  notifications = [];
  parameters = (5, 1) ∷ [];
  parameters_packet_type = (1, 5) ∷ [];
  request_queue = queue;
  client_count = 2;
  store = λ p. fixed_string (9 ∷ 9 ∷ 9 ∷ []);
  effects = [];
}

abbrev server : WebSocketServer
server = server_with (CircularBuffer.init blank_request max_packet_queue)

abbrev write_header : PacketHeader
write_header = record { signature = 0xDABA; request_id = 258; type = 5; size = 2 }

handle_packet_data_writes_example :
    let (response, s) =
      handle_packet_data (3 ∷ 4 ∷ []) server 3 (packet_of write_header (reply ++ [])) in
    (response ≡ code ResponseCode.ok)
    × (s.store ≡ update server.store 1 (fixed_string (1 ∷ 2 ∷ 0 ∷ [])))
    × ((client : ℕ)
        → messages_to client s.effects ≡ (
            if client == 3
            then []
            else replicate (count client (3 ∷ 4 ∷ [])) (message 0 5 3 (1 ∷ 2 ∷ 0 ∷ []))))
unfolding lookup
handle_packet_data_writes_example =
    handle_packet_data_writes (3 ∷ 4 ∷ []) server 3 1 write_header reply [] refl refl

abbrev request_with : ℕ → WebSocketRequest
request_with size = record {
  client_id = 3;
  size = size;
  bytes = header_bytes write_header ++ reply;
}

abbrev queue_with : ℕ → CircularBuffer WebSocketRequest
queue_with size = record {
  buffer = request_with size ∷ request_with 9 ∷ [];
  size = 2;
  used = 2;
  next_index = 0;
}

handle_connection_answers_example :
    let s = server_with (queue_with 9) in
    let s' = handle_connection (3 ∷ 4 ∷ []) s in
    (waiting s' ≡ request_with 9 ∷ [])
    × ((m : Bytes) × (messages_to 3 s'.effects ≡ m ∷ []) × IsMessage 258 m)
handle_connection_answers_example =
    handle_connection_answers (3 ∷ 4 ∷ []) (server_with (queue_with 9)) (request_with 9)
      (request_with 9 ∷ []) (ground arith) refl (ground arith)

handle_connection_long_request_example :
    let s = server_with (queue_with 257) in
    handle_connection (3 ∷ 4 ∷ []) s ≡ record s {
      request_queue = (get blank_request (queue_with 257)).1;
      effects = sent 3 (response_message 0 (code ResponseCode.packet_length_exceeded)) ∷ [];
    }
handle_connection_long_request_example =
    handle_connection_long_request (3 ∷ 4 ∷ []) (server_with (queue_with 257)) (request_with 257)
      (request_with 9 ∷ []) (ground arith) refl (omega arith) (omega arith)

-- One request waits, and the next slot holds nothing yet.
abbrev half_full : CircularBuffer WebSocketRequest
half_full = record {
  buffer = request_with 9 ∷ blank_request ∷ [];
  size = 2;
  used = 1;
  next_index = 1;
}

on_event_data_example :
    let s = server_with half_full in
    let s' = on_event s 4 data_received reply 2 in
    (waiting s' ≡ request_with 9 ∷ request_of 4 reply 2 (replicate max_packet_size 0) ∷ [])
    × (s'.effects ≡ [])
unfolding blank_request
on_event_data_example =
    on_event_data (server_with half_full) 4 reply 2 (ground arith) (omega arith) refl
