-- ===== src/Network/WebSocket/Dispatch.antt =====
-- What a packet makes the server do: commands, data requests and updates of parameters.
use esp_iot_framework.Prelude.{
  update_same, ℕ, ◌%◌, ◌≡◌, refl, sym, ap, ap₂, ◌∙◌, inl, inr, true, false, none, some, List, [],
  ◌∷◌, ◌++◌, arith, ◌==◌, if◌then◌else◌, Bool-cases, u16_mod, length, replicate, Bytes, append-nil,
  lookup, update,
}
use esp_iot_framework.Base.Parameter.{
  Parameter, value, complex, fixed_string, generated, size_of, get_value, set_value,
}
use esp_iot_framework.Misc.CircularBuffer.{store}
use esp_iot_framework.Protocol.Types.{ResponseCode, Response, code, binary, PacketHeader, Packet}
use esp_iot_framework.Network.WebSocket.{
  WebSocketServer, Effect, notified, message, broadcast, update_parameter, handle_packet_data,
}
use esp_iot_framework.Base.Parameter.Laws.{accepts, with_memory, padded, set_value_lem}
use esp_iot_framework.Network.WebSocket.Messages.{
  messages_to, messages_to-append, messages_to-broadcast, count,
}

-- The kinds of packet do not mix: a command's type is looked up first, then that of a data request,
-- then that of a parameter.
pub data Route : Type 0 where
  runs : ℕ → Route
  reads : ℕ → Route
  writes : ℕ → Route
  unknown : Route

abbrev pub route : WebSocketServer → ℕ → Route
route s type = elim (lookup type s.commands) [
  | some cmd ↦ runs cmd
  | none ↦ elim (lookup type s.data_requests) [
    | some p ↦ reads p
    | none ↦ elim (lookup type s.parameters) [ some p ↦ writes p | none ↦ unknown ]
  ]
]

abbrev pub packet_of : PacketHeader → Bytes → Packet
packet_of header bytes = record { header = header; bytes = bytes }

pub handle_packet_data-update_parameter :
    (clients : List ℕ) (s : WebSocketServer) (client_id p : ℕ) (packet : Packet)
    → route s packet.header.type ≡ writes p
    → handle_packet_data clients s client_id packet ≡ update_parameter clients s client_id packet p
unfolding handle_packet_data
handle_packet_data-update_parameter clients s client_id p packet h = ground arith

pub update_parameter_refused :
    (clients : List ℕ) (s : WebSocketServer) (client_id p : ℕ) (packet : Packet) (q : Parameter)
    → set_value (s.store p) packet.bytes packet.header.size ≡ (false, q)
    → update_parameter clients s client_id packet p ≡ (code ResponseCode.bad_request, s)
unfolding update_parameter
update_parameter_refused clients s client_id p packet q e = rw e

pub update_parameter_accepted :
    (clients : List ℕ) (s : WebSocketServer) (client_id p : ℕ) (packet : Packet)
    (changed : Parameter)
    → set_value (s.store p) packet.bytes packet.header.size ≡ (true, changed)
    → let told = s.effects ++ (notified p ∷ []) in
      let m = message 0 packet.header.type (size_of changed) (get_value changed) in
      update_parameter clients s client_id packet p ≡ (
        code ResponseCode.ok,
        record s {
          store = update s.store p changed;
          effects = if s.client_count == 0 then told else told ++ broadcast clients client_id m;
        },
      )
unfolding update_parameter
update_parameter_accepted clients s client_id p packet changed e =
    rw (e, update_same s.store p changed)
      (elim (Bool-cases (s.client_count == 0)) [ inl empty ↦ rw empty | inr full ↦ rw full ])

messages_to-told :
    (client p : ℕ) (es : List Effect)
    → messages_to client (es ++ (notified p ∷ [])) ≡ messages_to client es
messages_to-told client p es = rw (messages_to-append client es (notified p ∷ [])) (append-nil _)

pub messages_to-told_broadcast :
    (clients : List ℕ) (sender client p n : ℕ) (es : List Effect) (m : Bytes)
    → messages_to client (
        if n == 0
        then es ++ (notified p ∷ [])
        else (es ++ (notified p ∷ [])) ++ broadcast clients sender m)
      ≡ messages_to client es
        ++ (if n == 0
            then []
            else if client == sender
            then []
            else replicate (count client clients) m)
messages_to-told_broadcast clients sender client p n es m = elim (Bool-cases (n == 0)) [
  | inl empty ↦ rw (empty, append-nil) (messages_to-told client p es)
  | inr full ↦ rw (
    full,
    messages_to-append client (es ++ (notified p ∷ [])) (broadcast clients sender m),
    messages_to-told client p es,
    messages_to-broadcast clients sender client m,
  )
]

-- A packet of a parameter's type carries a value for it (`given`, with anything behind it in memory).
-- Exactly if the parameter accepts data of that size the answer is OK, else BAD_REQUEST. An accepted
-- value is stored at the parameter's address and at no other, and, while a client is connected, every
-- client but the sender gets it, once for each time that it is listed; a refused one changes nothing
-- and is sent to nobody.
pub handle_packet_data_writes :
    (clients : List ℕ) (s : WebSocketServer) (client_id p : ℕ) (header : PacketHeader)
    (given rest : Bytes)
    → route s header.type ≡ writes p
    → header.size ≡ length given
    → let packet = packet_of header (given ++ rest) in
      let (response, s') = handle_packet_data clients s client_id packet in
      let accepted = accepts (s.store p) (length given) in
      let changed = with_memory (s.store p) (padded (size_of (s.store p)) given) in
      (response ≡ code (if accepted then ResponseCode.ok else ResponseCode.bad_request))
      × (s'.store ≡ (if accepted then update s.store p changed else s.store))
      × ((client : ℕ)
          → messages_to client s'.effects
            ≡ messages_to client s.effects
              ++ (if accepted
                  then if s.client_count == 0
                    then []
                    else if client == client_id
                    then []
                    else replicate
                        (count client clients)
                        (message 0 header.type (size_of changed) (get_value changed))
                  else []))
handle_packet_data_writes clients s client_id p header given rest h e =
    let packet = packet_of header (given ++ rest) in
    let routed = handle_packet_data-update_parameter clients s client_id p packet h in
    let set_to =
      ap (λ n. set_value (s.store p) (given ++ rest) n) e ∙ set_value_lem (s.store p) given rest in
    elim (Bool-cases (accepts (s.store p) (length given))) [
      | inl taken ↦
          let changed = with_memory (s.store p) (padded (size_of (s.store p)) given) in
          let m = message 0 header.type (size_of changed) (get_value changed) in
          rw
            (
              routed,
              update_parameter_accepted clients s client_id p packet changed (rw taken at set_to),
              taken,
            )
            (
              refl,
              refl,
              λ client.
                  messages_to-told_broadcast clients client_id client p s.client_count s.effects m,
            )
      | inr refused ↦
          rw
            (
              routed,
              update_parameter_refused clients s client_id p packet (s.store p)
                  (rw refused at set_to),
              refused,
            )
            (refl, refl, λ client. sym (append-nil (messages_to client s.effects)))
    ]

handle_packet_data_reads :
    (clients : List ℕ) (s : WebSocketServer) (client_id p : ℕ) (packet : Packet)
    → route s packet.header.type ≡ reads p
    → handle_packet_data clients s client_id packet
      ≡ (binary (size_of (s.store p) % u16_mod) (get_value (s.store p)), s)
unfolding handle_packet_data
handle_packet_data_reads clients s client_id p packet h = ground arith

get_value-with_memory : (p : Parameter) (m : Bytes) → get_value (with_memory p m) ≡ m
get_value-with_memory (value _) m = refl
get_value-with_memory (complex _) m = refl
get_value-with_memory (fixed_string _) m = refl
get_value-with_memory (generated _) m = refl

size_of-with_memory : (p : Parameter) (m : Bytes) → size_of (with_memory p m) ≡ length m
size_of-with_memory (value _) m = refl
size_of-with_memory (complex _) m = refl
size_of-with_memory (fixed_string _) m = refl
size_of-with_memory (generated _) m = refl

asked_after :
    (clients : List ℕ) (s : WebSocketServer) (reader p : ℕ) (packet : Packet)
    (store : ℕ → Parameter) (effects : List Effect)
    → route s packet.header.type ≡ reads p
    → (handle_packet_data clients (record s { store = store; effects = effects }) reader packet).0
      ≡ binary (size_of (store p) % u16_mod) (get_value (store p))
asked_after clients s reader p packet store effects k =
    ap (λ out. out.0)
      (handle_packet_data_reads clients (record s { store = store; effects = effects }) reader p
        packet k)

-- What one client writes is what any client reads: a data request for the parameter that an accepted
-- packet wrote is answered with the value of that packet, padded to the parameter's size.
handle_packet_data_reads_back :
    (clients : List ℕ) (s : WebSocketServer) (writer reader p : ℕ) (written asked : PacketHeader)
    (given rest any : Bytes)
    → route s written.type ≡ writes p
    → route s asked.type ≡ reads p
    → written.size ≡ length given
    → accepts (s.store p) (length given) ≡ true
    → let after = (handle_packet_data clients s writer (packet_of written (given ++ rest))).1 in
      let stored = padded (size_of (s.store p)) given in
      (handle_packet_data clients after reader (packet_of asked any)).0
      ≡ binary (length stored % u16_mod) stored
handle_packet_data_reads_back clients s writer reader p written asked given rest any h k e taken =
    let packet = packet_of written (given ++ rest) in
    let set_to =
      ap (λ n. set_value (s.store p) (given ++ rest) n) e ∙ set_value_lem (s.store p) given rest in
    let changed = with_memory (s.store p) (padded (size_of (s.store p)) given) in
    let after =
      handle_packet_data-update_parameter clients s writer p packet h
      ∙ update_parameter_accepted clients s writer p packet changed (rw taken at set_to) in
    let shown : Parameter → Response = λ q. binary (size_of q % u16_mod) (get_value q) in
    rw after (
      asked_after clients s reader p (packet_of asked any) (update s.store p changed) _ k
      ∙ ap shown (update_same s.store p changed)
      ∙ ap₂ binary
          (ap (λ n. n % u16_mod)
            (size_of-with_memory (s.store p) (padded (size_of (s.store p)) given)))
          (get_value-with_memory (s.store p) (padded (size_of (s.store p)) given)))
