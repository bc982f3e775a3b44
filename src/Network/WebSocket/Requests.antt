-- ===== src/Network/WebSocket/Requests.antt =====
-- What a call of `handle_connection` does with the requests that wait.
use esp_iot_framework.Prelude.{
  ℕ, ◌%◌, ◌≤◌, ◌≡◌, refl, ap, ◌∙◌, inl, inr, Bool, true, false, List, [], ◌∷◌, ◌++◌, arith, ◌==◌,
  if◌then◌else◌, ==_refl, Option-cases, u8_mod, length, replicate, Bytes, append-nil, lookup,
}
use esp_iot_framework.Base.Parameter.{
  Parameter, value, complex, fixed_string, generated, size_of, get_value, set_value,
}
use esp_iot_framework.Misc.CircularBuffer.{get}
use esp_iot_framework.Misc.CircularBuffer.Queue.{IsValid, contents, dequeue, get_refines}
use esp_iot_framework.Protocol.Types.{ResponseCode, Response, code, Packet, PacketParsingResponse}
use esp_iot_framework.Protocol.Binary.{parse_packet}
use esp_iot_framework.Protocol.Binary.Parsing.{
  AreBytes, answered_id, answered_id-lt, parse_packet_short, parse_packet_cases,
}
use esp_iot_framework.Network.WebSocket.{
  WebSocketServer, WebSocketRequest, blank_request, Effect, sent, command, message,
  response_message, send_response, update_parameter, handle_packet_data, answer_request,
  handle_connection, max_packet_size, emit,
}
use esp_iot_framework.Network.WebSocket.Dispatch.{
  update_parameter_accepted, update_parameter_refused, messages_to-told_broadcast,
}
use esp_iot_framework.Network.WebSocket.Messages.{
  messages_to, messages_to-append, count, IsResponse, IsMessage, response_message-IsMessage,
}

abbrev pub waiting : WebSocketServer → List WebSocketRequest
waiting s = contents blank_request s.request_queue

-- What handling a packet leaves alone: the queue, and what was sent to the client that asked.
record Quiet (s : WebSocketServer) (client : ℕ) (out : Response × WebSocketServer) : Type 0 where
  response : IsResponse out.0
  queue : out.1.request_queue ≡ s.request_queue
  messages : messages_to client out.1.effects ≡ messages_to client s.effects

not_to_self :
    (client : ℕ) (clients : List ℕ) (n : ℕ) (ms : List Bytes) (m : Bytes)
    → ms
        ++ (if n == 0
            then []
            else if client == client
            then []
            else replicate (count client clients) m)
      ≡ ms
not_to_self client clients n ms m = rw ==_refl (ground (arith, append-nil ms))

update_parameter-Quiet :
    (clients : List ℕ) (s : WebSocketServer) (client p : ℕ) (packet : Packet) (r : Bool × Parameter)
    → set_value (s.store p) packet.bytes packet.header.size ≡ r
    → Quiet s client (update_parameter clients s client packet p)
update_parameter-Quiet clients s client p packet (true, changed) e =
    let m = message 0 packet.header.type (size_of changed) (get_value changed) in
    let told = messages_to-told_broadcast clients client client p s.client_count s.effects m in
    rw (update_parameter_accepted clients s client p packet changed e) (record {
      response = tt;
      queue = refl;
      messages = told ∙ not_to_self client clients s.client_count (messages_to client s.effects) m;
    })
update_parameter-Quiet clients s client p packet (false, q) e =
    rw (update_parameter_refused clients s client p packet q e)
      (record { response = tt; queue = refl; messages = refl })

length-get_value : (p : Parameter) → length (get_value p) ≡ size_of p
length-get_value (value m) = refl
length-get_value (complex m) = refl
length-get_value (fixed_string m) = refl
length-get_value (generated m) = refl

handle_packet_data-Quiet :
    (clients : List ℕ) (s : WebSocketServer) (client : ℕ) (packet : Packet)
    → Quiet s client (handle_packet_data clients s client packet)
unfolding handle_packet_data emit
handle_packet_data-Quiet clients s client packet =
    elim (Option-cases (lookup packet.header.type s.commands)) [
      | inr (cmd, e) ↦
          rw (e, handle_packet_data)
            (record {
              response = tt;
              queue = refl;
              messages =
                  rw
                    (messages_to-append client s.effects
                      (command cmd packet.bytes packet.header.size ∷ []))
                    (append-nil (messages_to client s.effects));
            })
      | inl e ↦ elim (Option-cases (lookup packet.header.type s.data_requests)) [
        | inr (p, f) ↦
            rw (e, f, handle_packet_data)
              (record {
                response = ground (arith, length-get_value (s.store p));
                queue = refl;
                messages = refl;
              })
        | inl f ↦ elim (Option-cases (lookup packet.header.type s.parameters)) [
          | inr (p, g) ↦
              rw (e, f, g, handle_packet_data)
                (update_parameter-Quiet clients s client p packet
                  (set_value (s.store p) packet.bytes packet.header.size) refl)
          | inl g ↦
              rw (e, f, g, handle_packet_data)
                (record { response = tt; queue = refl; messages = refl })
        ]
      ]
    ]

messages_to-sent :
    (client : ℕ) (es : List Effect) (m : Bytes)
    → messages_to client (es ++ (sent client m ∷ [])) ≡ messages_to client es ++ (m ∷ [])
messages_to-sent client es m =
    messages_to-append client es (sent client m ∷ [])
    ∙ ap (λ ms. messages_to client es ++ ms) (rw (==_refl client))

-- A request that was popped is answered by one message to its client, which has the protocol's layout
-- and carries the request's id, or 0 if it was too short to have one.
answer_request_lem :
    (clients : List ℕ) (s : WebSocketServer) (r : WebSocketRequest)
    → AreBytes r.bytes
    → let s' = answer_request clients s r in
      (s'.request_queue ≡ s.request_queue)
      × ((reply : Bytes) × (messages_to r.client_id s'.effects
            ≡ messages_to r.client_id s.effects ++ (reply ∷ []))
          × IsMessage (answered_id r.bytes (r.size % u8_mod)) reply)
unfolding answer_request send_response
answer_request_lem clients s r v =
    let id = answered_id r.bytes (r.size % u8_mod) in
    let small = answered_id-lt r.bytes (r.size % u8_mod) v in
    elim (parse_packet_cases r.bytes r.size) [
      | inl (packet, e) ↦
          let quiet = handle_packet_data-Quiet clients s r.client_id packet in
          let out = handle_packet_data clients s r.client_id packet in
          rw (e, answer_request)
            (
              quiet.queue,
              (
                response_message id out.0,
                messages_to-sent r.client_id out.1.effects (response_message id out.0)
                    ∙ ap (λ ms. ms ++ (response_message id out.0 ∷ [])) quiet.messages,
                response_message-IsMessage id out.0 small quiet.response,
              ),
            )
      | inr (c, e) ↦
          rw (e, answer_request)
            (
              refl,
              (
                response_message id (code c),
                messages_to-sent r.client_id s.effects (response_message id (code c)),
                response_message-IsMessage id (code c) small tt,
              ),
            )
    ]

-- The loop takes the oldest request that waits.
handle_connection-next :
    (clients : List ℕ) (s : WebSocketServer) (r : WebSocketRequest) (rs : List WebSocketRequest)
    → IsValid s.request_queue
    → waiting s ≡ r ∷ rs
    → let queue = (get blank_request s.request_queue).1 in
      (handle_connection clients s ≡ answer_request clients (record s { request_queue = queue }) r)
      × (contents blank_request queue ≡ rs)
unfolding handle_connection
handle_connection-next clients s r rs v w =
    let popped = get_refines blank_request s.request_queue v ∙ ap (dequeue blank_request) w in
    (rw (ap (λ out. out.0) popped, handle_connection) refl, ap (λ out. out.1) popped)

-- The queue is well formed and the oldest request that waits holds bytes. One call of the loop
-- answers that request, and no other: its client gets one message more, in the protocol's layout,
-- with the request's id (0 for a request too short to have one, its length being cut to eight
-- bits), and the other requests wait on in their order.
pub handle_connection_answers :
    (clients : List ℕ) (s : WebSocketServer) (r : WebSocketRequest) (rs : List WebSocketRequest)
    → IsValid s.request_queue
    → waiting s ≡ r ∷ rs
    → AreBytes r.bytes
    → let s' = handle_connection clients s in
      (waiting s' ≡ rs)
      × ((reply : Bytes) × (messages_to r.client_id s'.effects
            ≡ messages_to r.client_id s.effects ++ (reply ∷ []))
          × IsMessage (answered_id r.bytes (r.size % u8_mod)) reply)
handle_connection_answers clients s r rs v w b =
    let (next, left) = handle_connection-next clients s r rs v w in
    let queue = (get blank_request s.request_queue).1 in
    let answer = answer_request_lem clients (record s { request_queue = queue }) r b in
    rw next (ap (λ q. contents blank_request q) answer.0 ∙ left, answer.1)

answer_request_fail :
    (clients : List ℕ) (s : WebSocketServer) (r : WebSocketRequest) (response : Response) (id : ℕ)
    → parse_packet r.bytes r.size ≡ PacketParsingResponse.fail response id
    → answer_request clients s r
      ≡ record s { effects = s.effects ++ (sent r.client_id (response_message id response) ∷ []) }
unfolding answer_request send_response
answer_request_fail clients s r response id e = rw (e, answer_request)

-- The queue is well formed and the oldest request that waits has 256 to 260 bytes. The parser is
-- handed its length cut to eight bits: whatever the packet holds, the answer is
-- PACKET_LENGTH_EXCEEDED for request 0, and the server changes in nothing else.
pub handle_connection_long_request :
    (clients : List ℕ) (s : WebSocketServer) (r : WebSocketRequest) (rs : List WebSocketRequest)
    → IsValid s.request_queue
    → waiting s ≡ r ∷ rs
    → 256 ≤ r.size
    → r.size ≤ max_packet_size
    → handle_connection clients s ≡ record s {
      request_queue = (get blank_request s.request_queue).1;
      effects =
          s.effects
          ++ (sent r.client_id (response_message 0 (code ResponseCode.packet_length_exceeded))
              ∷ []);
    }
handle_connection_long_request clients s r rs v w h k =
    let (next, left) = handle_connection-next clients s r rs v w in
    let short = parse_packet_short r.bytes r.size (omega arith) in
    next ∙ answer_request_fail clients (record s { request_queue = _ }) r _ 0 short
