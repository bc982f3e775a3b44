-- ===== src/Network/WebSocket.antt =====
-- network/server/ws.h. The parameters that the server points to lie in a store, by address, so that
-- two packet types may share one. What the server hands to code that is not its own is recorded in
-- order: a message given to AsyncWebSocket for a client, a call of a registered command, and a
-- notification of the bus, whose call back into this server returns at once (`sender == this`).
-- `clients` are the ids of the clients that AsyncWebSocket lists.
pub mod Requests
pub mod Receiving
pub mod Messages
pub mod Dispatch
use esp_iot_framework.Prelude.{
  ℕ, ◌-◌, ◌%◌, Bool, true, false, not, none, some, List, [], ◌∷◌, ◌++◌, ltb, ◌==◌, if◌then◌else◌,
  u8_mod, u16_mod, u32_max, add32, length, take, replicate, Bytes, write_at, Map, lookup, insert,
  update,
}
use esp_iot_framework.Base.Parameter.{Parameter, size_of, get_value, set_value}
use esp_iot_framework.Misc.CircularBuffer
use esp_iot_framework.Misc.CircularBuffer.{CircularBuffer, can_acquire, acquire, store, load}
use esp_iot_framework.Protocol.Types.{
  ResponseCode, Response, code, string, binary, response_string, response_binary, code_text,
  header_bytes, Packet, PacketParsingResponse,
}
use esp_iot_framework.Protocol.Binary.{packet_signature, parse_packet}

abbrev pub max_packet_size : ℕ
max_packet_size = 260

abbrev pub max_packet_body_size : ℕ
max_packet_body_size = 4096

abbrev pub max_packet_queue : ℕ
max_packet_queue = 10

-- `data` is an array of `max_packet_size` bytes.
pub record WebSocketRequest : Type 0 where
  pub client_id : ℕ
  pub size : ℕ
  pub bytes : Bytes

unfoldable pub blank_request : WebSocketRequest
blank_request = record { client_id = 0; size = 0; bytes = replicate max_packet_size 0 }

pub data Effect : Type 0 where
  sent : ℕ → Bytes → Effect
  command : ℕ → Bytes → ℕ → Effect
  notified : ℕ → Effect

pub record WebSocketServer : Type 0 where
  pub commands : Map ℕ
  pub data_requests : Map ℕ
  pub notifications : Map ℕ
  pub parameters : Map ℕ
  pub parameters_packet_type : Map ℕ
  pub request_queue : CircularBuffer WebSocketRequest
  pub client_count : ℕ
  pub store : ℕ → Parameter
  pub effects : List Effect

emit : WebSocketServer → Effect → WebSocketServer
emit s e = record s { effects = s.effects ++ (e ∷ []) }

unfoldable pub init : (ℕ → Parameter) → WebSocketServer
init store = record {
  commands = [];
  data_requests = [];
  notifications = [];
  parameters = [];
  parameters_packet_type = [];
  request_queue = CircularBuffer.init blank_request max_packet_queue;
  client_count = 0;
  store = store;
  effects = [];
}

-- A command is named by a number; a parameter is its address.
unfoldable pub register_command : WebSocketServer → ℕ → ℕ → WebSocketServer
register_command s type cmd = record s { commands = insert type cmd s.commands }

unfoldable pub register_data_request : WebSocketServer → ℕ → ℕ → WebSocketServer
register_data_request s type p = record s { data_requests = insert type p s.data_requests }

unfoldable pub register_notification : WebSocketServer → ℕ → ℕ → WebSocketServer
register_notification s type p = record s {
  notifications = insert type p s.notifications;
  parameters_packet_type = insert p type s.parameters_packet_type;
}

unfoldable pub register_parameter : WebSocketServer → ℕ → ℕ → WebSocketServer
register_parameter s type p = record s {
  parameters = insert type p s.parameters;
  parameters_packet_type = insert p type s.parameters_packet_type;
}

-- A message: a header, and as many bytes of the memory as its `uint16_t` size says.
abbrev pub message : ℕ → ℕ → ℕ → Bytes → Bytes
message request_id type size memory =
    header_bytes (record {
      signature = packet_signature;
      request_id = request_id;
      type = type;
      size = size % u16_mod;
    })
    ++ take (size % u16_mod) memory

-- `strlen` of a code's text, or of a string response, is its length.
unfoldable pub response_message : ℕ → Response → Bytes
response_message request_id (code c) =
    message request_id response_string (length (code_text c)) (code_text c)
response_message request_id (string s) = message request_id response_string (length s) s
response_message request_id (binary size memory) =
    if ltb max_packet_body_size size
    then message request_id response_string (length (code_text ResponseCode.internal_error))
        (code_text ResponseCode.internal_error)
    else message request_id response_binary size memory

unfoldable pub send_response : WebSocketServer → ℕ → ℕ → Response → WebSocketServer
unfolding emit
send_response s client_id request_id response =
    emit s (sent client_id (response_message request_id response))

-- `_notify_clients`: a message to each client that is listed, but the sender.
unfoldable pub broadcast : List ℕ → ℕ → Bytes → List Effect
broadcast [] sender_id m = []
broadcast (c ∷ cs) sender_id m =
    if sender_id == c then broadcast cs sender_id m else sent c m ∷ broadcast cs sender_id m

unfoldable pub notify_clients : List ℕ → WebSocketServer → ℕ → ℕ → Bytes → ℕ → WebSocketServer
unfolding broadcast
notify_clients clients s sender_id type memory size = if s.client_count == 0 then s else record s {
  effects = s.effects ++ broadcast clients sender_id (message 0 type size memory);
}

-- `_notify_clients` with a parameter's memory and size, as all its callers have it.
abbrev notify_parameter : List ℕ → WebSocketServer → ℕ → ℕ → ℕ → WebSocketServer
notify_parameter clients s sender_id type p =
    notify_clients clients s sender_id type (get_value (s.store p)) (size_of (s.store p))

-- `-1` as a `uint32_t` is no client's id.
unfoldable pub send_notification : List ℕ → WebSocketServer → ℕ → WebSocketServer
unfolding notify_clients
send_notification clients s type = elim (lookup type s.notifications) [
  | some p ↦ notify_parameter clients s u32_max type p
  | none ↦ elim (lookup type s.parameters) [
    | some p ↦ notify_parameter clients s u32_max type p
    | none ↦ s
  ]
]

-- `sender` is whether the notification comes from this server.
unfoldable pub process_notification : List ℕ → WebSocketServer → Bool → ℕ → WebSocketServer
unfolding notify_clients
process_notification clients s true p = s
process_notification clients s false p = elim (lookup p s.parameters_packet_type) [
  | some type ↦ notify_parameter clients s u32_max type p
  | none ↦ s
]

-- The update of a parameter that a packet carries a value for.
pub update_parameter : List ℕ → WebSocketServer → ℕ → Packet → ℕ → Response × WebSocketServer
unfolding emit notify_clients
update_parameter clients s client_id packet p =
    let (success, changed) = set_value (s.store p) packet.bytes packet.header.size in
    let s' = emit (record s { store = update s.store p changed }) (notified p) in
    if success
    then (code ResponseCode.ok, notify_parameter clients s' client_id packet.header.type p)
    else (code ResponseCode.bad_request, s)

unfoldable pub handle_packet_data :
    List ℕ → WebSocketServer → ℕ → Packet → Response × WebSocketServer
unfolding emit update_parameter
handle_packet_data clients s client_id packet = elim (lookup packet.header.type s.commands) [
  | some cmd ↦ (code ResponseCode.ok, emit s (command cmd packet.bytes packet.header.size))
  | none ↦ elim (lookup packet.header.type s.data_requests) [
    | some p ↦ (binary (size_of (s.store p) % u16_mod) (get_value (s.store p)), s)
    | none ↦ elim (lookup packet.header.type s.parameters) [
      | some p ↦ update_parameter clients s client_id packet p
      | none ↦ (code ResponseCode.bad_command, s)
    ]
  ]
]

-- What one request that was popped leads to.
pub answer_request : List ℕ → WebSocketServer → WebSocketRequest → WebSocketServer
unfolding send_response handle_packet_data
answer_request clients s request = elim (parse_packet request.bytes request.size) [
  | PacketParsingResponse.ok packet request_id ↦
      let (response, s') = handle_packet_data clients s request.client_id packet in
      send_response s' request.client_id request_id response
  | PacketParsingResponse.fail response request_id ↦
      send_response s request.client_id request_id response
]

-- The `while` returns in its first round: a call answers one request at most.
unfoldable pub handle_connection : List ℕ → WebSocketServer → WebSocketServer
unfolding answer_request
handle_connection clients s =
    let (request, queue) = CircularBuffer.get blank_request s.request_queue in
    elim request [
      | none ↦ record s { request_queue = queue }
      | some r ↦ answer_request clients (record s { request_queue = queue }) r
    ]

pub data EventType : Type 0 where
  connect disconnect data_received other : EventType

-- The slot that was acquired keeps what it held behind the new data.
abbrev pub fill_request : WebSocketRequest → ℕ → Bytes → ℕ → WebSocketRequest
fill_request old client_id bytes len = record {
  client_id = client_id;
  size = len;
  bytes = write_at old.bytes 0 (take len bytes);
}

on_data : WebSocketServer → ℕ → Bytes → ℕ → WebSocketServer
unfolding send_response
on_data s client_id bytes len =
    if len == 0
    then send_response s client_id 65535 (code ResponseCode.packet_length_exceeded)
    else if ltb max_packet_size len
    then send_response s client_id 65535 (code ResponseCode.packet_length_exceeded)
    else if not (can_acquire s.request_queue)
    then send_response s client_id 65535 (code ResponseCode.too_many_request)
    else let (slot, queue) = acquire s.request_queue in
      elim slot [
        | none ↦ s
        | some i ↦ record s {
          request_queue =
              CircularBuffer.store queue i
                (fill_request (load queue blank_request i) client_id bytes len);
        }
      ]

-- `client` is the id of the client that the event is about.
unfoldable pub on_event : WebSocketServer → ℕ → EventType → Bytes → ℕ → WebSocketServer
unfolding on_data
on_event s client connect bytes len = record s { client_count = add32 s.client_count 1 }
on_event s client disconnect bytes len = record s {
  client_count = if ltb 0 s.client_count then s.client_count - 1 else s.client_count;
}
on_event s client data_received bytes len = on_data s client bytes len
on_event s client other bytes len = s
