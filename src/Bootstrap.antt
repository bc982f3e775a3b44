-- ===== src/Bootstrap.antt =====
-- bootstrap.h: `Bootstrap`, which starts the parts of a device and runs them from a timer. The parts are
-- the models of their own files; what is done with libraries (ArduinoOTA, DNSServer, the web server, the
-- restart) is recorded in order, and what the environment answers in a round is a record. A state is
-- published under its number; which subscribers that calls is recorded. The QR code and the texts that
-- are printed are left out.
pub mod Starting
pub mod Ready
mod Tests
use esp_iot_framework.Prelude.{
  ℕ, Bool, true, not, Option, none, List, [], ◌∷◌, ◌++◌, ◌==◌, if◌then◌else◌, Bytes,
}
use esp_iot_framework.Network.Wifi
use esp_iot_framework.Network.Wifi.{WifiManager, WifiMode, WifiManagerState, ap, sta, sta_ap}
use esp_iot_framework.Network.WebSocket
use esp_iot_framework.Network.WebSocket.{WebSocketServer}
use esp_iot_framework.Network.Mqtt
use esp_iot_framework.Network.Mqtt.{MqttServer}
use esp_iot_framework.Misc.EventTopic
use esp_iot_framework.Misc.EventTopic.{EventTopic, Call}
use esp_iot_framework.Misc.Storage
use esp_iot_framework.Misc.Storage.{Storage}
use esp_iot_framework.Misc.Timer
use esp_iot_framework.Misc.Timer.{Timer}
use esp_iot_framework.Base.Parameter.{Parameter}

pub data BootstrapState : Type 0 where
  uninitialized wifi_connect initializing ready : BootstrapState

pub record BootstrapConfig : Type 0 where
  pub mdns_name : Bytes
  pub wifi_mode : WifiMode
  pub wifi_ssid : Bytes
  pub wifi_password : Bytes
  pub wifi_connection_timeout : ℕ
  pub mqtt_enabled : Bool

pub data Service : Type 0 where
  ota_begin ota_handle web_socket_begin web_begin mqtt_begin dns_start dns_next : Service

pub record Bootstrap : Type 0 where
  pub config : BootstrapConfig
  pub wifi : WifiManager
  pub ws : WebSocketServer
  pub mqtt : MqttServer
  pub timer : Timer
  pub storage : Storage
  pub state : BootstrapState
  pub has_dns : Bool
  pub topic : EventTopic
  pub services : List Service
  pub published : List Call

-- What the environment answers in a round of the service loop.
pub record Round : Type 0 where
  pub now : ℕ
  pub later : ℕ
  pub mode_is_ap : Bool
  pub is_connected : Bool
  pub mqtt_connected : Bool
  pub clients : List ℕ

abbrev state_number : BootstrapState → ℕ
state_number uninitialized = 0
state_number wifi_connect = 1
state_number initializing = 2
state_number ready = 3

abbrev service_loop_interval : ℕ
service_loop_interval = 20

abbrev restart_delay : ℕ
restart_delay = 500

-- The callbacks that the timer calls.
abbrev service_loop_callback : ℕ
service_loop_callback = 0

abbrev restart_callback : ℕ
restart_callback = 1

-- `begin`; `allocates` is whether the timer gets memory.
unfoldable begin : Bootstrap → BootstrapConfig → (ℕ → Parameter) → ℕ → Bool → Bootstrap
begin b config store now allocates = record b {
  config = config;
  wifi = Wifi.init config.wifi_ssid config.wifi_password 5000 none;
  ws = WebSocket.init store;
  mqtt = Mqtt.init store;
  timer =
      (Timer.add_interval b.timer service_loop_callback service_loop_interval 0 now allocates).1;
}

unfoldable pub change_state : Bootstrap → BootstrapState → Bootstrap
change_state b s = if state_number b.state == state_number s then b else record b {
  state = s;
  published = b.published ++ EventTopic.publish b.topic 0 (state_number s) 0;
}

unfoldable save_changes : Bootstrap → Option ℕ → Bootstrap
save_changes b id =
    if not (Storage.is_pending_commit b.storage)
    then record b { storage = Storage.save b.storage id }
    else b

unfoldable restart : Bootstrap → ℕ → Bool → Bootstrap
restart b now allocates =
    let saved =
      if Storage.is_pending_commit b.storage then Storage.force_save b.storage else b.storage in
    record b {
      storage = saved;
      timer = (Timer.add_timeout b.timer restart_callback restart_delay 0 now allocates).1;
    }

-- `_after_init`
unfoldable pub after_init : Bootstrap → Bootstrap
after_init b = elim b.wifi.current_mode [
  | ap ↦ record b { has_dns = true; services = b.services ++ dns_start ∷ [] }
  | sta ↦ b
  | sta_ap ↦ b
]

-- What the state `INITIALIZING` starts.
unfoldable pub start_services : Bootstrap → ℕ → Bootstrap
unfolding after_init
start_services b now =
    let begun = record b {
      services = b.services ++ ota_begin ∷ web_socket_begin ∷ web_begin ∷ [];
    } in
    after_init (
      if b.config.mqtt_enabled
      then record begun {
        services = begun.services ++ mqtt_begin ∷ [];
        mqtt = Mqtt.begin (Mqtt.set_prefix b.mqtt b.config.mdns_name) now;
      }
      else begun)

module _ (chip_id : Bytes) where
  abbrev poll_wifi : Bootstrap → Round → Bootstrap
  poll_wifi b r = record b {
    wifi = Wifi.handle_connection chip_id b.wifi r.mode_is_ap r.is_connected r.now;
  }

  -- What the state `READY` does.
  unfoldable pub run_services : Bootstrap → Round → Bootstrap
  run_services b r =
      let polled = poll_wifi b r in
      record polled {
        services =
            (polled.services ++ ota_handle ∷ []) ++ (if polled.has_dns then dns_next ∷ [] else []);
        ws = WebSocket.handle_connection r.clients polled.ws;
        mqtt = Mqtt.handle_connection polled.mqtt r.mqtt_connected r.now r.later;
      }

  -- `_service_loop`
  unfoldable pub service_loop : Bootstrap → Round → Bootstrap
  unfolding change_state start_services run_services
  service_loop b r = elim b.state [
    | uninitialized ↦
        change_state
          (record b {
            wifi =
                Wifi.connect chip_id b.wifi b.config.wifi_mode b.config.wifi_connection_timeout
                  r.now;
          })
          wifi_connect
    | wifi_connect ↦
        let polled = poll_wifi b r in
        elim polled.wifi.state [
          | WifiManagerState.connected ↦ change_state polled initializing
          | WifiManagerState.disconnected ↦ polled
          | WifiManagerState.connecting ↦ polled
        ]
    | initializing ↦ change_state (start_services b r.now) ready
    | ready ↦ run_services b r
  ]
