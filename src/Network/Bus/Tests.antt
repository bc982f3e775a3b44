-- ===== src/Network/Bus/Tests.antt =====
-- The theorems about the bus at a device with one parameter.
use esp_iot_framework.Prelude.{ℕ, ◌≡◌, refl, true, [], ◌∷◌, ◌++◌, u32_max, Bytes, lookup}
use esp_iot_framework.Base.Tests.{conversions}
use esp_iot_framework.Base.Parameter.{
  Parameter, Conversions, fixed_string, set_value, parse, to_string,
}
use esp_iot_framework.Protocol.Types.{PacketHeader}
use esp_iot_framework.Misc.CircularBuffer
use esp_iot_framework.Network.WebSocket
use esp_iot_framework.Network.WebSocket.{
  WebSocketServer, blank_request, max_packet_queue, message, broadcast,
}
use esp_iot_framework.Network.WebSocket.Dispatch.{packet_of}
use esp_iot_framework.Network.Topics.{find, text_eq}
use esp_iot_framework.Network.Mqtt
use esp_iot_framework.Network.Mqtt.{MqttServer, connected, published}
use esp_iot_framework.Network.Bus.{
  web_socket_server, mqtt_server, Device, handle_packet, handle_message,
}
use esp_iot_framework.Network.Bus.Propagation.{packet_is_published}
use esp_iot_framework.Network.Bus.Broadcasting.{message_is_broadcast}

abbrev name_in : Bytes
name_in = b'i' ∷ []

abbrev name_out : Bytes
name_out = b'u' ∷ []

abbrev hi : Bytes
hi = b'h' ∷ b'i' ∷ []

abbrev hi_stored : Parameter
hi_stored = fixed_string (b'h' ∷ b'i' ∷ 0 ∷ [])

abbrev device : Device
device = record {
  subscriptions = web_socket_server ∷ mqtt_server ∷ [];
  web_socket = record {
    commands = [];
    data_requests = [];
    notifications = [];
    parameters = (5, 1) ∷ [];
    parameters_packet_type = (1, 5) ∷ [];
    request_queue = CircularBuffer.init blank_request max_packet_queue;
    client_count = 2;
    store = λ p. fixed_string (9 ∷ 9 ∷ 9 ∷ []);
    effects = [];
  };
  mqtt = record {
    commands = [];
    notifications = [];
    parameters = (name_in, (name_out, 1)) ∷ [];
    parameters_topic = (1, name_out) ∷ [];
    topic_prefix = b'/' ∷ [];
    state = connected;
    state_change_time = 0;
    last_connection_attempt_time = 0;
    store = λ p. fixed_string (9 ∷ 9 ∷ 9 ∷ []);
    effects = [];
  };
}

abbrev write_header : PacketHeader
write_header = record { signature = 0xDABA; request_id = 258; type = 5; size = 2 }

-- Both parameters are of one type.
abbrev converts : ℕ → Conversions
converts p = conversions

packet_is_published_example :
    let packet = packet_of write_header (hi ++ []) in
    let (response, d) = handle_packet converts (3 ∷ 4 ∷ []) device 3 packet in
    ((response, d.web_socket)
      ≡ WebSocket.handle_packet_data (3 ∷ 4 ∷ []) device.web_socket 3 packet)
    × (d.mqtt.effects ≡ published (b'/' ∷ name_out) 1 true (to_string conversions hi_stored) ∷ [])
unfolding lookup
packet_is_published_example =
    packet_is_published converts (3 ∷ 4 ∷ []) device 3 1 write_header hi [] name_out refl refl refl
      refl refl refl

message_is_broadcast_example :
    let d = handle_message converts (3 ∷ 4 ∷ []) device (b'/' ∷ name_in) hi in
    (d.mqtt ≡ Mqtt.on_message converts device.mqtt (b'/' ∷ name_in) hi)
    × (d.web_socket.effects ≡ broadcast (3 ∷ 4 ∷ []) u32_max (message 0 5 3 (b'h' ∷ b'i' ∷ 0 ∷ [])))
unfolding lookup find text_eq parse set_value
message_is_broadcast_example =
    message_is_broadcast converts (3 ∷ 4 ∷ []) device 1 5 name_in name_out hi hi_stored refl refl
      refl refl refl
