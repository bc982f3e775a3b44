-- ===== src/Network/Bus.antt =====
-- misc/notification_bus.h between the two servers of a device. A notification that a server's step
-- recorded is handed to the subscribers, in the order in which they subscribed; the bus is called when
-- the parameter has been stored, and no subscriber stores any. The parameters are shared, so that what
-- one server stored is in the other's store.
pub mod Propagation
pub mod Broadcasting
mod Tests
use esp_iot_framework.Prelude.{ℕ, Bool, true, false, List, [], ◌∷◌, ◌++◌, length, drop, Bytes}
use esp_iot_framework.Base.Parameter.{Conversions}
use esp_iot_framework.Protocol.Types.{Response, Packet}
use esp_iot_framework.Network.WebSocket
use esp_iot_framework.Network.WebSocket.{WebSocketServer}
use esp_iot_framework.Network.Mqtt
use esp_iot_framework.Network.Mqtt.{MqttServer}

pub data Subscriber : Type 0 where
  web_socket_server mqtt_server : Subscriber

pub record Device : Type 0 where
  pub subscriptions : List Subscriber
  pub web_socket : WebSocketServer
  pub mqtt : MqttServer

-- `subscribe`
abbrev subscribe : Device → Subscriber → Device
subscribe d s = record d { subscriptions = d.subscriptions ++ s ∷ [] }

abbrev is_same : Subscriber → Subscriber → Bool
is_same web_socket_server web_socket_server = true
is_same mqtt_server mqtt_server = true
is_same web_socket_server mqtt_server = false
is_same mqtt_server web_socket_server = false

-- The notifications that were recorded, oldest first.
pub web_socket_notifications : List WebSocket.Effect → List ℕ
web_socket_notifications [] = []
web_socket_notifications (WebSocket.notified p ∷ es) = p ∷ web_socket_notifications es
web_socket_notifications (WebSocket.sent client m ∷ es) = web_socket_notifications es
web_socket_notifications (WebSocket.command cmd bytes size ∷ es) = web_socket_notifications es

pub mqtt_notifications : List Mqtt.Effect → List ℕ
mqtt_notifications [] = []
mqtt_notifications (Mqtt.notified p ∷ es) = p ∷ mqtt_notifications es
mqtt_notifications (Mqtt.connects ∷ es) = mqtt_notifications es
mqtt_notifications (Mqtt.disconnects force ∷ es) = mqtt_notifications es
mqtt_notifications (Mqtt.subscribed topic qos ∷ es) = mqtt_notifications es
mqtt_notifications (Mqtt.published topic qos retained payload ∷ es) = mqtt_notifications es
mqtt_notifications (Mqtt.command cmd payload ∷ es) = mqtt_notifications es

module _ (c : ℕ → Conversions) (clients : List ℕ) where
  -- A subscriber's callback.
  abbrev call : Device → Subscriber → Subscriber → ℕ → Device
  call d web_socket_server sender p = record d {
    web_socket =
        WebSocket.process_notification clients d.web_socket (is_same sender web_socket_server) p;
  }
  call d mqtt_server sender p = record d {
    mqtt = Mqtt.process_notification c d.mqtt (is_same sender mqtt_server) p;
  }

  -- The loop of `notify_parameter_changed`.
  abbrev pub calls : Device → List Subscriber → Subscriber → ℕ → Device
  calls d [] sender p = d
  calls d (s ∷ ss) sender p = calls (call d s sender p) ss sender p

  abbrev notify_parameter_changed : Device → Subscriber → ℕ → Device
  notify_parameter_changed d sender p = calls d d.subscriptions sender p

  abbrev pub notify_all : Device → Subscriber → List ℕ → Device
  notify_all d sender [] = d
  notify_all d sender (p ∷ ps) = notify_all (notify_parameter_changed d sender p) sender ps

  -- A packet of a WebSocket client, and a message from the MQTT broker.
  unfoldable pub handle_packet : Device → ℕ → Packet → Response × Device
  unfolding web_socket_notifications
  handle_packet d client_id packet =
      let (response, server) = WebSocket.handle_packet_data clients d.web_socket client_id packet in
      let d' = record d { web_socket = server; mqtt = record d.mqtt { store = server.store } } in
      let told = web_socket_notifications (drop (length d.web_socket.effects) server.effects) in
      (response, notify_all d' web_socket_server told)

  unfoldable pub handle_message : Device → Bytes → Bytes → Device
  unfolding mqtt_notifications
  handle_message d topic payload =
      let server = Mqtt.on_message c d.mqtt topic payload in
      let d' = record d {
        mqtt = server;
        web_socket = record d.web_socket { store = server.store };
      } in
      notify_all d' mqtt_server (mqtt_notifications (drop (length d.mqtt.effects) server.effects))
