-- ===== src/Network/Bus/Propagation.antt =====
-- A change that comes in by the WebSocket server goes out by the MQTT server.
use esp_iot_framework.Prelude.{
  update_same, ℕ, ◌≡◌, refl, sym, ap, ◌∙◌, Bool, true, false, some, List, [], ◌∷◌, ◌++◌, arith,
  ◌==◌, if◌then◌else◌, length, drop, drop-append, Bytes, append_assoc, lookup, update,
}
use esp_iot_framework.Base.Parameter.{size_of, get_value, set_value, Conversions, to_string}
use esp_iot_framework.Base.Parameter.Laws.{accepts, with_memory, padded, set_value_lem}
use esp_iot_framework.Protocol.Types.{Response, PacketHeader, Packet}
use esp_iot_framework.Network.WebSocket
use esp_iot_framework.Network.WebSocket.{WebSocketServer, message, broadcast, notify_clients}
use esp_iot_framework.Network.WebSocket.Dispatch.{
  route, writes, packet_of, handle_packet_data-update_parameter, update_parameter_accepted,
}
use esp_iot_framework.Network.Mqtt
use esp_iot_framework.Network.Mqtt.{MqttServer, connected, published, state_is}
use esp_iot_framework.Network.Mqtt.Messages.{publish_connected}
use esp_iot_framework.Network.Bus.{
  web_socket_server, mqtt_server, Device, web_socket_notifications, calls, notify_all,
  handle_packet,
}

web_socket_notifications-broadcast :
    (clients : List ℕ) (sender : ℕ) (m : Bytes)
    → web_socket_notifications (broadcast clients sender m) ≡ []
unfolding web_socket_notifications broadcast
web_socket_notifications-broadcast [] sender m = refl
web_socket_notifications-broadcast (c ∷ cs) sender m =
    ground (arith, web_socket_notifications-broadcast cs sender m)

told_update :
    (es : List WebSocket.Effect) (p : ℕ) (alone : Bool) (clients : List ℕ) (sender : ℕ) (m : Bytes)
    → let told = es ++ WebSocket.notified p ∷ [] in
      web_socket_notifications
        (drop (length es) (if alone then told else told ++ broadcast clients sender m))
      ≡ p ∷ []
unfolding web_socket_notifications
told_update es p true clients sender m = rw (drop-append es (WebSocket.notified p ∷ []))
told_update es p false clients sender m =
    rw
      (
        append_assoc es (WebSocket.notified p ∷ []) (broadcast clients sender m),
        drop-append es (WebSocket.notified p ∷ broadcast clients sender m),
      )
      (ap (λ ps. p ∷ ps) (web_socket_notifications-broadcast clients sender m))

own_web_socket :
    (clients : List ℕ) (s : WebSocketServer) (p : ℕ)
    → WebSocket.process_notification clients s true p ≡ s
unfolding WebSocket.process_notification
own_web_socket clients s p = refl

foreign_mqtt :
    (c : ℕ → Conversions) (m : MqttServer) (p : ℕ) (topic : Bytes)
    → m.state ≡ connected
    → lookup p m.parameters_topic ≡ some topic
    → (Mqtt.process_notification c m false p).effects
      ≡ m.effects ++ published (m.topic_prefix ++ topic) 1 true (to_string (c p) (m.store p)) ∷ []
unfolding Mqtt.process_notification
foreign_mqtt c m p topic e told =
    rw (told, Mqtt.process_notification) (publish_connected m topic (to_string (c p) (m.store p)) e)

-- What the bus makes of one notification of the WebSocket server.
after_web_socket :
    (c : ℕ → Conversions) (clients : List ℕ) (d : Device) (p : ℕ)
    → d.subscriptions ≡ web_socket_server ∷ mqtt_server ∷ []
    → notify_all c clients d web_socket_server (p ∷ [])
      ≡ record d { mqtt = Mqtt.process_notification c d.mqtt false p }
after_web_socket c clients d p subs =
    ap (λ ss. calls c clients d ss web_socket_server p) subs
    ∙ ap (λ s. record d { web_socket = s; mqtt = Mqtt.process_notification c d.mqtt false p })
        (own_web_socket clients d.web_socket p)

-- A device whose WebSocket server made a step.
abbrev stepped : Device → WebSocketServer → Device
stepped d s = record d { web_socket = s; mqtt = record d.mqtt { store = s.store } }

-- What a packet leads to, by what the server alone makes of it.
after_packet :
    (c : ℕ → Conversions) (clients : List ℕ) (d : Device) (client_id p : ℕ) (packet : Packet)
    (r : Response) (s : WebSocketServer)
    → d.subscriptions ≡ web_socket_server ∷ mqtt_server ∷ []
    → WebSocket.handle_packet_data clients d.web_socket client_id packet ≡ (r, s)
    → web_socket_notifications (drop (length d.web_socket.effects) s.effects) ≡ p ∷ []
    → handle_packet c clients d client_id packet
      ≡ (r, record (stepped d s) { mqtt = Mqtt.process_notification c (stepped d s).mqtt false p })
unfolding handle_packet
after_packet c clients d client_id p packet r s subs e n =
    let outcome : Response × WebSocketServer → Response × Device = λ out. (
      out.0,
      notify_all c clients (stepped d out.1) web_socket_server
          (web_socket_notifications (drop (length d.web_socket.effects) out.1.effects)),
    ) in
    ap outcome e
    ∙ ap (λ ps. (r, notify_all c clients (stepped d s) web_socket_server ps)) n
    ∙ ap (λ d'. (r, d')) (after_web_socket c clients (stepped d s) p subs)

-- The WebSocket server subscribed to the bus first and the MQTT server second. A value that a
-- WebSocket client sets, and that the parameter accepts, is published once by the MQTT server, if
-- that is connected and has a topic for the parameter: retained, under its prefix, and as the text
-- of the value that was stored. The WebSocket server does what it does without the bus.
pub packet_is_published :
    (c : ℕ → Conversions) (clients : List ℕ) (d : Device) (client_id p : ℕ) (header : PacketHeader)
    (given rest topic : Bytes)
    → d.subscriptions ≡ web_socket_server ∷ mqtt_server ∷ []
    → route d.web_socket header.type ≡ writes p
    → header.size ≡ length given
    → accepts (d.web_socket.store p) (length given) ≡ true
    → d.mqtt.state ≡ connected
    → lookup p d.mqtt.parameters_topic ≡ some topic
    → let packet = packet_of header (given ++ rest) in
      let (response, d') = handle_packet c clients d client_id packet in
      let old = d.web_socket.store p in
      let changed = with_memory old (padded (size_of old) given) in
      ((response, d'.web_socket)
        ≡ WebSocket.handle_packet_data clients d.web_socket client_id packet)
      × (d'.mqtt.effects
          ≡ d.mqtt.effects
            ++ published (d.mqtt.topic_prefix ++ topic) 1 true (to_string (c p) changed) ∷ [])
packet_is_published c clients d client_id p header given rest topic subs h e taken on told =
    let w = d.web_socket in
    let packet = packet_of header (given ++ rest) in
    let changed = with_memory (w.store p) (padded (size_of (w.store p)) given) in
    let set_to =
      ap (λ n. set_value (w.store p) (given ++ rest) n) e ∙ set_value_lem (w.store p) given rest in
    let step =
      handle_packet_data-update_parameter clients w client_id p packet h
      ∙ update_parameter_accepted clients w client_id p packet changed (rw taken at set_to) in
    let m = message 0 header.type (size_of changed) (get_value changed) in
    let final =
      after_packet c clients d client_id p packet _ _ subs step
        (told_update w.effects p (w.client_count == 0) clients client_id m) in
    (
      ap (λ o. (o.0, o.1.web_socket)) final ∙ sym step,
      ap (λ o. o.1.mqtt.effects) final
          ∙ foreign_mqtt c (record d.mqtt { store = update w.store p changed }) p topic on told
          ∙ ap
              (λ q.
                d.mqtt.effects
                ++ published (d.mqtt.topic_prefix ++ topic) 1 true (to_string (c p) q) ∷ [])
              (update_same w.store p changed),
    )
