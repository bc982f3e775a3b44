-- ===== src/Network/WebSocket/Messages.antt =====
-- The messages that the server sends: their layout, and to whom they go.
use esp_iot_framework.Prelude.{
  ℕ, suc, ◌+◌, ◌%◌, ◌≤◌, ◌<◌, ◌≡◌, refl, inl, inr, List, [], ◌∷◌, ◌++◌, arith, ltb, ◌==◌,
  if◌then◌else◌, Bool-cases, u16_mod, length, replicate, length-take, Bytes,
}
use esp_iot_framework.Protocol.Types.{
  ResponseCode, Response, code, string, binary, response_string, response_binary, code_text,
  header_size, read_header,
}
use esp_iot_framework.Protocol.Binary.{packet_signature}
use esp_iot_framework.Network.WebSocket.{
  Effect, sent, command, notified, message, response_message, broadcast, max_packet_body_size,
}

-- The messages that were sent to a client, oldest first.
abbrev pub messages_to : ℕ → List Effect → List Bytes
messages_to client [] = []
messages_to client (sent c m ∷ es) =
    if c == client then m ∷ messages_to client es else messages_to client es
messages_to client (command cmd bytes size ∷ es) = messages_to client es
messages_to client (notified p ∷ es) = messages_to client es

pub messages_to-append :
    (client : ℕ) (xs ys : List Effect)
    → messages_to client (xs ++ ys) ≡ messages_to client xs ++ messages_to client ys
messages_to-append client [] ys = refl
messages_to-append client (sent c m ∷ xs) ys = ground (arith, messages_to-append client xs ys)
messages_to-append client (command cmd bytes size ∷ xs) ys = messages_to-append client xs ys
messages_to-append client (notified p ∷ xs) ys = messages_to-append client xs ys

abbrev pub count : ℕ → List ℕ → ℕ
count c [] = 0
count c (x ∷ xs) = if x == c then suc (count c xs) else count c xs

-- A broadcast reaches every client as often as it is listed, but for the sender, which it does not
-- reach.
pub messages_to-broadcast :
    (clients : List ℕ) (sender client : ℕ) (m : Bytes)
    → messages_to client (broadcast clients sender m)
      ≡ (if client == sender then [] else replicate (count client clients) m)
unfolding broadcast
messages_to-broadcast [] sender client m = ground arith
messages_to-broadcast (c ∷ cs) sender client m =
    ground (arith, messages_to-broadcast cs sender client m)

-- The response's memory holds the bytes that it announces.
abbrev pub IsResponse : Response → Type 0
IsResponse (code c) = Unit {0}
IsResponse (string s) = length s < 65536
IsResponse (binary size memory) = (size < 65536) × (size ≤ length memory)

abbrev pub IsMessage : ℕ → Bytes → Type 0
IsMessage request_id m =
    ((read_header m).signature ≡ packet_signature)
    × ((read_header m).request_id ≡ request_id)
    × (length m ≡ header_size + (read_header m).size)

message-IsMessage :
    (request_id type size : ℕ) (memory : Bytes)
    → request_id < 65536
    → size < 65536
    → size ≤ length memory
    → IsMessage request_id (message request_id type size memory)
message-IsMessage request_id type size memory i h k =
    omega (arith, length-take (size % u16_mod) memory)

length-code_text : (c : ResponseCode) → length (code_text c) < 65536
length-code_text ResponseCode.ok = omega arith
length-code_text ResponseCode.bad_request = omega arith
length-code_text _ = omega arith

-- Whatever is answered, the message has the protocol's layout: the signature, the id of the request,
-- and a size that is the number of bytes behind the header.
pub response_message-IsMessage :
    (request_id : ℕ) (r : Response)
    → request_id < 65536
    → IsResponse r
    → IsMessage request_id (response_message request_id r)
unfolding response_message
response_message-IsMessage i (code c) h v =
    message-IsMessage i response_string (length (code_text c)) (code_text c) h (length-code_text c)
      (omega arith)
response_message-IsMessage i (string s) h v =
    message-IsMessage i response_string (length s) s h v (omega arith)
response_message-IsMessage i (binary size memory) h v =
    elim (Bool-cases (ltb max_packet_body_size size)) [
      | inl long ↦ rw long (
          message-IsMessage i response_string (length (code_text ResponseCode.internal_error))
            (code_text ResponseCode.internal_error) h (omega arith) (omega arith))
      | inr fits ↦ rw fits (message-IsMessage i response_binary size memory h v.0 v.1)
    ]
