-- ===== src/Bootstrap/Tests.antt =====
-- Runs of the start of a device.
use esp_iot_framework.Prelude.{
  ℕ, ◌≡◌, refl, Bool, true, false, ◌&&◌, none, List, [], ◌∷◌, ◌++◌, if◌then◌else◌,
}
use esp_iot_framework.Base.Parameter.{Parameter}
use esp_iot_framework.Network.Wifi
use esp_iot_framework.Network.Wifi.{WifiMode}
use esp_iot_framework.Network.WebSocket
use esp_iot_framework.Network.Mqtt
use esp_iot_framework.Misc.EventTopic
use esp_iot_framework.Misc.EventTopic.{EventTopic}
use esp_iot_framework.Misc.Timer
use esp_iot_framework.Bootstrap.{
  Bootstrap, BootstrapConfig, Round, wifi_connect, ready, uninitialized,
}
use esp_iot_framework.Bootstrap.Starting.{
  run, announced, BegunIf, started, is_ready, all_services, run-IsStarting,
}
use esp_iot_framework.Bootstrap.Ready.{station_starts}

abbrev config : WifiMode → BootstrapConfig
config mode = record {
  mdns_name = b'd' ∷ [];
  wifi_mode = mode;
  wifi_ssid = b'n' ∷ [];
  wifi_password = [];
  wifi_connection_timeout = 0;
  mqtt_enabled = true;
}

abbrev store : ℕ → Parameter
store p = Parameter.value (0 ∷ [])

-- One subscriber for every state, and one for `READY`.
abbrev subscribed : EventTopic
subscribed = EventTopic.subscribe (EventTopic.subscribe_all EventTopic.init 7 1) 8 3 2

-- A device before its first round.
abbrev device : WifiMode → Bootstrap
device mode = record {
  config = config mode;
  wifi = record {
    ssid = b'n' ∷ [];
    password = Wifi.default_password;
    connection_check_interval = 5000;
    current_mode = WifiMode.ap;
    state = Wifi.WifiManagerState.disconnected;
    connection_interval = 0;
    connection_begin_time = 0;
    last_connection_check = 0;
    access_point_ssid = none;
    wifi_calls = [];
  };
  ws = WebSocket.init store;
  mqtt = Mqtt.init store;
  timer = Timer.init;
  storage = record {
    has_fs = true;
    blank = [];
    bytes = [];
    version = 1;
    header = 0;
    save_timer_id = none;
    file = none;
    writes = 0;
    timer_calls = [];
  };
  state = uninitialized;
  has_dns = false;
  topic = subscribed;
  services = [];
  published = [];
}

abbrev round : Bool → Round
round connected = record {
  now = 100;
  later = 100;
  mode_is_ap = false;
  is_connected = connected;
  mqtt_connected = false;
  clients = [];
}

abbrev rounds : List Round
rounds = round false ∷ round false ∷ round true ∷ round true ∷ round true ∷ []

run-IsStarting_example :
    let b' = run [] (device WifiMode.sta) rounds in
    (b'.published ≡ announced subscribed b'.state)
    × (started b'.services ≡ (if is_ready b'.state then all_services true b'.has_dns else []))
    × BegunIf (is_ready b'.state && true) (b'd' ∷ []) (Mqtt.init store) b'.mqtt
run-IsStarting_example = run-IsStarting [] rounds (device WifiMode.sta) refl refl refl refl refl

station_starts_example :
    ((run [] (device WifiMode.sta) (round false ∷ round false ∷ [])).state ≡ wifi_connect)
    × ((run []
          (device WifiMode.sta)
          ((round false ∷ round false ∷ []) ++ round true ∷ round false ∷ [])).state
        ≡ ready)
station_starts_example =
    station_starts [] (device WifiMode.sta) (round false) (round false ∷ []) (round true)
      (round false) refl refl refl refl (refl, tt) refl
