-- ===== src/Network/Wifi.antt =====
-- network/wifi.h and network/wifi.cpp. The calls of the `WiFi` object are recorded in order; what it
-- answers (`mode_is_ap` for `getMode() == WIFI_AP`, `is_connected`) and what `millis()` returns, an
-- `unsigned long` of 32 bits, are arguments. `chip_id` is the text of the chip's id, and
-- `access_point_ssid` the function's `static String`, which is made at the first call.
pub mod Connecting
mod Tests
use esp_iot_framework.Prelude.{
  ℕ, Bool, not, ◌&&◌, Option, none, some, List, [], ◌∷◌, ◌++◌, ltb, if◌then◌else◌, sub32, length,
  Bytes,
}

pub data WifiManagerState : Type 0 where
  disconnected connecting connected : WifiManagerState

pub data WifiMode : Type 0 where
  ap sta sta_ap : WifiMode

pub data WifiCall : Type 0 where
  disconnect : WifiCall
  mode : WifiMode → WifiCall
  soft_ap : Bytes → Bytes → WifiCall
  begin : Bytes → Bytes → WifiCall

pub record WifiManager : Type 0 where
  pub ssid : Bytes
  pub password : Bytes
  pub connection_check_interval : ℕ
  pub current_mode : WifiMode
  pub state : WifiManagerState
  pub connection_interval : ℕ
  pub connection_begin_time : ℕ
  pub last_connection_check : ℕ
  pub access_point_ssid : Option Bytes
  pub wifi_calls : List WifiCall

-- "12345678"
abbrev pub default_password : Bytes
default_password = b'1' ∷ b'2' ∷ b'3' ∷ b'4' ∷ b'5' ∷ b'6' ∷ b'7' ∷ b'8' ∷ []

abbrev pub default_connection_interval : ℕ
default_connection_interval = 120000

-- The two texts are C strings, without their terminators.
unfoldable pub init : Bytes → Bytes → ℕ → Option Bytes → WifiManager
init ssid password connection_check_interval access_point_ssid = record {
  ssid = ssid;
  password = if ltb (length password) 8 then default_password else password;
  connection_check_interval = connection_check_interval;
  current_mode = ap;
  state = disconnected;
  connection_interval = 0;
  connection_begin_time = 0;
  last_connection_check = 0;
  access_point_ssid = access_point_ssid;
  wifi_calls = [];
}

module _ (chip_id : Bytes) where
  abbrev pub access_point_name : WifiManager → Bytes
  access_point_name w = elim w.access_point_ssid [
    | some name ↦ name
    | none ↦ w.ssid ++ b'_' ∷ chip_id
  ]

  -- `_connect_ap`
  unfoldable pub connect_ap : WifiManager → WifiManager
  connect_ap w =
      let name = access_point_name w in
      elim w.state [
        | disconnected ↦ record w {
          access_point_ssid = some name;
          wifi_calls = w.wifi_calls ++ mode ap ∷ soft_ap name w.password ∷ [];
          ssid = name;
          state = connected;
        }
        | connecting ↦ w
        | connected ↦ w
      ]

  -- The first part of `_connect_sta_step`: what it does in the state `DISCONNECTED`.
  unfoldable pub begin_sta : WifiManager → ℕ → WifiManager
  begin_sta w now =
      let station_mode : WifiMode = elim w.current_mode [
        | sta ↦ sta
        | sta_ap ↦ sta_ap
        | ap ↦ sta_ap
      ] in
      record w {
        wifi_calls = w.wifi_calls ++ mode station_mode ∷ begin w.ssid w.password ∷ [];
        state = connecting;
        connection_begin_time = now;
      }

  -- `connect`: the step that it makes for a station is made in the state `DISCONNECTED`.
  unfoldable pub connect : WifiManager → WifiMode → ℕ → ℕ → WifiManager
  unfolding connect_ap begin_sta
  connect w wanted connection_interval now =
      let w' = record w {
        wifi_calls = w.wifi_calls ++ disconnect ∷ [];
        current_mode = wanted;
        connection_interval = connection_interval;
        state = disconnected;
      } in
      elim w.state [
        | connecting ↦ w
        | disconnected ↦ elim wanted [
          | ap ↦ connect_ap w'
          | sta ↦ begin_sta w' now
          | sta_ap ↦ begin_sta w' now
        ]
        | connected ↦ elim wanted [
          | ap ↦ connect_ap w'
          | sta ↦ begin_sta w' now
          | sta_ap ↦ begin_sta w' now
        ]
      ]

  -- `_connect_sta_step`
  unfoldable pub connect_sta_step : WifiManager → Bool → ℕ → WifiManager
  unfolding connect begin_sta
  connect_sta_step w is_connected now = elim w.state [
    | connected ↦ w
    | disconnected ↦ begin_sta w now
    | connecting ↦
        if is_connected
        then record w { state = connected }
        else if ltb 0 w.connection_interval
            && ltb w.connection_interval (sub32 now w.connection_begin_time)
        then connect (record w { state = disconnected }) ap default_connection_interval now
        else w
  ]

  -- The rest of `handle_connection`, unless the manager is connecting.
  unfoldable pub check_connection : WifiManager → Bool → Bool → ℕ → WifiManager
  unfolding connect
  check_connection w mode_is_ap is_connected now =
      let checked = record w { last_connection_check = now } in
      if ltb (sub32 now w.last_connection_check) w.connection_check_interval
      then w
      else if not mode_is_ap && not is_connected
      then connect (record checked { state = disconnected }) w.current_mode
          default_connection_interval now
      else checked

  unfoldable pub handle_connection : WifiManager → Bool → Bool → ℕ → WifiManager
  unfolding connect_sta_step check_connection
  handle_connection w mode_is_ap is_connected now = elim w.state [
    | connecting ↦ elim w.current_mode [
      | ap ↦ w
      | sta ↦ connect_sta_step w is_connected now
      | sta_ap ↦ connect_sta_step w is_connected now
    ]
    | disconnected ↦ check_connection w mode_is_ap is_connected now
    | connected ↦ check_connection w mode_is_ap is_connected now
  ]
