-- ===== src/Network/Bus/Broadcasting.antt =====
-- A change that comes in by the MQTT server goes out by the WebSocket server.
use esp_iot_framework.Prelude.{
  update_same, ℕ, ◌≡◌, refl, sym, ap, ◌∙◌, inl, inr, Bool, true, false, none, some, List, [], ◌∷◌,
  ◌++◌, arith, ◌==◌, if◌then◌else◌, Bool-cases, u32_max, length, drop, drop-append, Bytes,
  append-nil, append_assoc, lookup, update,
}
use esp_iot_framework.Base.Parameter.{Parameter, size_of, get_value, Conversions, parse, to_string}
use esp_iot_framework.Network.WebSocket
use esp_iot_framework.Network.WebSocket.{WebSocketServer, message, broadcast, notify_clients}
use esp_iot_framework.Network.Topics.{find}
use esp_iot_framework.Network.Mqtt
use esp_iot_framework.Network.Mqtt.{MqttServer, connected, published, state_is}
use esp_iot_framework.Network.Mqtt.Messages.{on_message-prefix, process_message_parameter}
use esp_iot_framework.Network.Bus.{
  web_socket_server, mqtt_server, Device, mqtt_notifications, calls, notify_all, handle_message,
}

publish-effects :
    (m : MqttServer) (topic payload : Bytes)
    → (Mqtt.publish m topic payload).effects
      ≡ m.effects
        ++ (if state_is m connected
            then published (m.topic_prefix ++ topic) 1 true payload ∷ []
            else [])
unfolding Mqtt.publish Mqtt.emit
publish-effects m topic payload = elim (Bool-cases (state_is m connected)) [
  | inl on ↦ simp on
  | inr off ↦ simp off (sym (append-nil m.effects))
]

publish-store :
    (m : MqttServer) (topic payload : Bytes) → (Mqtt.publish m topic payload).store ≡ m.store
unfolding Mqtt.publish Mqtt.emit
publish-store m topic payload = ground arith

only_published :
    (on : Bool) (topic payload : Bytes)
    → mqtt_notifications (if on then published topic 1 true payload ∷ [] else []) ≡ []
unfolding mqtt_notifications
only_published true topic payload = refl
only_published false topic payload = refl

-- What the MQTT server recorded when it stored a value: one notification.
told_message :
    (m : MqttServer) (p : ℕ) (topic payload : Bytes)
    → mqtt_notifications (
        drop
          (length m.effects)
          (Mqtt.publish (Mqtt.emit m (Mqtt.notified p)) topic payload).effects)
      ≡ p ∷ []
unfolding mqtt_notifications Mqtt.emit
told_message m p topic payload =
    let told = Mqtt.emit m (Mqtt.notified p) in
    let sent : List Mqtt.Effect =
      if state_is told connected
      then published (told.topic_prefix ++ topic) 1 true payload ∷ []
      else [] in
    rw
      (
        publish-effects told topic payload,
        append_assoc m.effects (Mqtt.notified p ∷ []) sent,
        drop-append m.effects (Mqtt.notified p ∷ sent),
      )
      (ap (λ ps. p ∷ ps)
        (only_published (state_is told connected) (told.topic_prefix ++ topic) payload))

notify_clients-effects :
    (clients : List ℕ) (s : WebSocketServer) (sender type : ℕ) (memory : Bytes) (n : ℕ)
    → (notify_clients clients s sender type memory n).effects
      ≡ s.effects
        ++ (if s.client_count == 0 then [] else broadcast clients sender (message 0 type n memory))
unfolding notify_clients
notify_clients-effects clients s sender type memory n = elim (Bool-cases (s.client_count == 0)) [
  | inl empty ↦ simp empty (sym (append-nil s.effects))
  | inr full ↦ simp full
]

foreign_web_socket :
    (clients : List ℕ) (s : WebSocketServer) (p type : ℕ)
    → lookup p s.parameters_packet_type ≡ some type
    → (WebSocket.process_notification clients s false p).effects
      ≡ s.effects
        ++ (if s.client_count == 0
            then []
            else broadcast clients u32_max
                (message 0 type (size_of (s.store p)) (get_value (s.store p))))
unfolding WebSocket.process_notification
foreign_web_socket clients s p type e =
    rw (e, WebSocket.process_notification)
      (notify_clients-effects clients s u32_max type (get_value (s.store p)) (size_of (s.store p)))

after_mqtt :
    (c : ℕ → Conversions) (clients : List ℕ) (d : Device) (p : ℕ)
    → d.subscriptions ≡ web_socket_server ∷ mqtt_server ∷ []
    → notify_all c clients d mqtt_server (p ∷ [])
      ≡ record d { web_socket = WebSocket.process_notification clients d.web_socket false p }
unfolding Mqtt.process_notification
after_mqtt c clients d p subs = ap (λ ss. calls c clients d ss mqtt_server p) subs

-- The same for a message.
after_message :
    (c : ℕ → Conversions) (clients : List ℕ) (d : Device) (topic payload : Bytes) (p : ℕ)
    (s : MqttServer)
    → d.subscriptions ≡ web_socket_server ∷ mqtt_server ∷ []
    → Mqtt.on_message c d.mqtt topic payload ≡ s
    → mqtt_notifications (drop (length d.mqtt.effects) s.effects) ≡ p ∷ []
    → let w = record d.web_socket { store = s.store } in
      handle_message c clients d topic payload
      ≡ record d { mqtt = s; web_socket = WebSocket.process_notification clients w false p }
unfolding handle_message
after_message c clients d topic payload p s subs e n =
    let stepped_by : MqttServer → Device =
      λ m. record d { mqtt = m; web_socket = record d.web_socket { store = m.store } } in
    let outcome : MqttServer → Device = λ m.
      notify_all c clients (stepped_by m) mqtt_server
        (mqtt_notifications (drop (length d.mqtt.effects) m.effects)) in
    ap outcome e
    ∙ ap (λ ps. notify_all c clients (stepped_by s) mqtt_server ps) n
    ∙ after_mqtt c clients (stepped_by s) p subs

-- The WebSocket server subscribed to the bus first and the MQTT server second. A message under the
-- prefix and a parameter's topic, that is no command's, and that could be parsed reaches the
-- WebSocket clients, if the parameter has a packet type: if any client is connected, each one that
-- is listed, and has an id below the greatest one, gets the value that was stored. The MQTT server
-- does what it does without the bus.
pub message_is_broadcast :
    (c : ℕ → Conversions) (clients : List ℕ) (d : Device) (p type : ℕ)
    (topic topic_out payload : Bytes) (changed : Parameter)
    → d.subscriptions ≡ web_socket_server ∷ mqtt_server ∷ []
    → find topic d.mqtt.commands ≡ none
    → find topic d.mqtt.parameters ≡ some (topic_out, p)
    → parse (c p) (d.mqtt.store p) payload ≡ (true, changed)
    → lookup p d.web_socket.parameters_packet_type ≡ some type
    → let d' = handle_message c clients d (d.mqtt.topic_prefix ++ topic) payload in
      (d'.mqtt ≡ Mqtt.on_message c d.mqtt (d.mqtt.topic_prefix ++ topic) payload)
      × (d'.web_socket.effects
          ≡ d.web_socket.effects
            ++ (if d.web_socket.client_count == 0
                then []
                else broadcast clients u32_max
                    (message 0 type (size_of changed) (get_value changed))))
unfolding Mqtt.emit
message_is_broadcast c clients d p type topic topic_out payload changed subs n e r known =
    let m = d.mqtt in
    let stored : MqttServer = record m { store = update m.store p changed } in
    let step =
      on_message-prefix c m topic payload
      ∙ process_message_parameter c m topic topic_out payload p true changed n e r in
    let final =
      after_message c clients d (m.topic_prefix ++ topic) payload p _ subs step
        (told_message stored p topic_out (to_string (c p) changed)) in
    let now_holds =
      ap (λ f. f p)
        (publish-store (Mqtt.emit stored (Mqtt.notified p)) topic_out (to_string (c p) changed))
      ∙ update_same m.store p changed in
    (
      ap (λ d'. d'.mqtt) final ∙ sym step,
      ap (λ d'. d'.web_socket.effects) final
          ∙ foreign_web_socket clients (record d.web_socket { store = _ }) p type known
          ∙ ap
              (λ q.
                d.web_socket.effects
                ++ (if d.web_socket.client_count == 0
                    then []
                    else broadcast clients u32_max (message 0 type (size_of q) (get_value q))))
              now_holds,
    )
