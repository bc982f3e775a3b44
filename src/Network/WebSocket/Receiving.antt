-- ===== src/Network/WebSocket/Receiving.antt =====
-- What an event of AsyncWebSocket does to the requests that wait.
use esp_iot_framework.Prelude.{
  ◌≤◌, ◌∙◌, take, drop, length-take, write_at-zero, ℕ, ◌≡◌, refl, sym, ap, inl, inr, true, false,
  ◌&&◌, some, [], ◌∷◌, ◌++◌, arith, ltb, leb, ◌==◌, if◌then◌else◌, Bool-cases, add32, length, set,
  Bytes,
}
use esp_iot_framework.Misc.CircularBuffer.{CircularBuffer, can_acquire, acquire, load, put}
use esp_iot_framework.Misc.CircularBuffer.Queue.{IsValid, length-contents, put_refines}
use esp_iot_framework.Protocol.Types.{ResponseCode, code}
use esp_iot_framework.Network.WebSocket.{
  WebSocketServer, WebSocketRequest, blank_request, sent, response_message, data_received,
  fill_request, on_data, on_event, max_packet_size,
}
use esp_iot_framework.Network.WebSocket.Requests.{waiting}

acquire_room :
    (q : CircularBuffer WebSocketRequest)
    → can_acquire q ≡ true
    → acquire q ≡ (
      some q.next_index,
      record q {
        used = add32 q.used 1;
        next_index = if leb q.size (add32 q.next_index 1) then 0 else add32 q.next_index 1;
      },
    )
unfolding acquire
acquire_room q h = rw h

put_acquired :
    (q : CircularBuffer WebSocketRequest) (r : WebSocketRequest)
    → can_acquire q ≡ true
    → (put q r).1 ≡ record q {
      buffer = set q.buffer q.next_index r;
      used = add32 q.used 1;
      next_index = if leb q.size (add32 q.next_index 1) then 0 else add32 q.next_index 1;
    }
unfolding put
put_acquired q r h = ground arith

-- Acquiring a slot and filling it is one `put`.
on_data_queued :
    (s : WebSocketServer) (client : ℕ) (bytes : Bytes) (len : ℕ)
    → (len == 0) ≡ false
    → ltb max_packet_size len ≡ false
    → can_acquire s.request_queue ≡ true
    → let old = load s.request_queue blank_request s.request_queue.next_index in
      on_data s client bytes len
      ≡ record s { request_queue = (put s.request_queue (fill_request old client bytes len)).1 }
unfolding on_data acquire
on_data_queued s client bytes len a b c =
    let old = load s.request_queue blank_request s.request_queue.next_index in
    let filled = put_acquired s.request_queue (fill_request old client bytes len) c in
    rw (a, b, acquire_room s.request_queue c, c)
      (ap (λ q. record s { request_queue = q }) (sym filled))

-- A request of a client with `len` bytes of the data, and behind them what the slot held.
abbrev pub request_of : ℕ → Bytes → ℕ → Bytes → WebSocketRequest
request_of client bytes len old = record {
  client_id = client;
  size = len;
  bytes = take len bytes ++ drop len old;
}

fill_request-request_of :
    (old : WebSocketRequest) (client : ℕ) (bytes : Bytes) (len : ℕ)
    → len ≤ length bytes
    → len ≤ length old.bytes
    → fill_request old client bytes len ≡ request_of client bytes len old.bytes
fill_request-request_of old client bytes len given room =
    let n : length (take len bytes) ≡ len = omega (arith, length-take len bytes) in
    let copied = write_at-zero old.bytes (take len bytes) (omega (arith, n)) in
    ap (λ m. record { client_id = client; size = len; bytes = m })
      (copied ∙ ap (λ k. take len bytes ++ drop k old.bytes) n)

-- The queue is well formed, its slots have the memory of a request, and the event brings `len` bytes. A
-- message that is not empty, and not longer than a request may be, waits behind the others while there
-- is room: the client's id, the length and those bytes, and in the slot's memory behind them what the
-- slot held before; nothing is sent. Any other message is dropped: the queue stays, and the client
-- alone gets one message, whose id is 0xffff.
pub on_event_data :
    (s : WebSocketServer) (client : ℕ) (bytes : Bytes) (len : ℕ)
    → IsValid s.request_queue
    → len ≤ length bytes
    → length (load s.request_queue blank_request s.request_queue.next_index).bytes ≡ max_packet_size
    → let s' = on_event s client data_received bytes len in
      let old = load s.request_queue blank_request s.request_queue.next_index in
      let taken = ltb 0 len && leb len max_packet_size in
      let room = ltb (length (waiting s)) s.request_queue.size in
      (waiting s' ≡ (
        if taken && room
        then waiting s ++ (request_of client bytes len old.bytes ∷ [])
        else waiting s))
      × (s'.effects ≡ (
          if taken && room
          then s.effects
          else s.effects
            ++ (sent client (
                  response_message 65535 (
                    code (
                      if taken
                      then ResponseCode.too_many_request
                      else ResponseCode.packet_length_exceeded)))
                ∷ [])))
unfolding on_event
on_event_data s client bytes len v given memory =
    let q = s.request_queue in
    let old = load q blank_request q.next_index in
    let new = fill_request old client bytes len in
    let queued = put_refines blank_request q new v in
    rw (length-contents blank_request q) (elim (Bool-cases (len == 0)) [
      | inl empty ↦
          let none_taken : ltb 0 len ≡ false = ground arith in
          rw (empty, none_taken, on_data) (refl, refl)
      | inr bytes_there ↦
          let some_taken : ltb 0 len ≡ true = ground arith in
          elim (Bool-cases (ltb max_packet_size len)) [
            | inl long ↦
                let over : leb len max_packet_size ≡ false = ground arith in
                rw (bytes_there, some_taken, long, over, on_data) (refl, refl)
            | inr fits ↦
                let under : leb len max_packet_size ≡ true = ground arith in
                elim (Bool-cases (can_acquire q)) [
                  | inl room ↦
                      let same =
                        fill_request-request_of old client bytes len given
                          (ground (arith, memory)) in
                      rw
                        (
                          on_data_queued s client bytes len bytes_there fits room,
                          some_taken,
                          under,
                          room,
                        )
                        (
                          ap (λ out. out.1) (rw (length-contents blank_request q, room) at queued)
                              ∙ ap (λ r. waiting s ++ (r ∷ [])) same,
                          refl,
                        )
                  | inr full ↦ rw (bytes_there, some_taken, fits, under, full, on_data) (refl, refl)
                ]
          ]
    ])
