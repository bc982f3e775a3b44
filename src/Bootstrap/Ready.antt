-- ===== src/Bootstrap/Ready.antt =====
-- How a device comes to be ready: with an access point of its own, and as a station.
use esp_iot_framework.Prelude.{
  ◌≡◌, refl, true, false, List, [], ◌∷◌, ◌++◌, arith, if◌then◌else◌, Bytes,
}
use esp_iot_framework.Network.Wifi
use esp_iot_framework.Network.Wifi.{WifiMode, WifiManagerState, sta}
use esp_iot_framework.Network.Mqtt
use esp_iot_framework.Bootstrap.{
  uninitialized, wifi_connect, initializing, ready, Bootstrap, Round, change_state, after_init,
  start_services, service_loop,
}
use esp_iot_framework.Bootstrap.Starting.{run}

module _ (chip_id : Bytes) where
  ap_first :
      (b : Bootstrap) (r : Round)
      → b.state ≡ uninitialized
      → b.config.wifi_mode ≡ WifiMode.ap
      → b.wifi.state ≡ WifiManagerState.disconnected
      → ((service_loop chip_id b r).state ≡ wifi_connect)
        × ((service_loop chip_id b r).wifi.state ≡ WifiManagerState.connected)
        × ((service_loop chip_id b r).wifi.current_mode ≡ WifiMode.ap)
  unfolding service_loop change_state Wifi.connect Wifi.connect_ap
  ap_first b r s m d = ground arith

  ap_second :
      (b : Bootstrap) (r : Round)
      → b.state ≡ wifi_connect
      → b.wifi.state ≡ WifiManagerState.connected
      → b.wifi.current_mode ≡ WifiMode.ap
      → ((service_loop chip_id b r).state ≡ initializing)
        × ((service_loop chip_id b r).wifi.current_mode ≡ WifiMode.ap)
  unfolding service_loop change_state Wifi.handle_connection Wifi.check_connection Wifi.connect
      Wifi.connect_ap
  ap_second b r s c m = ground arith

  ap_third :
      (b : Bootstrap) (r : Round)
      → b.state ≡ initializing
      → b.wifi.current_mode ≡ WifiMode.ap
      → ((service_loop chip_id b r).state ≡ ready) × ((service_loop chip_id b r).has_dns ≡ true)
  unfolding service_loop change_state start_services after_init
  ap_third b r s m = ground arith

  run-append :
      (xs ys : List Round) (b : Bootstrap)
      → run chip_id b (xs ++ ys) ≡ run chip_id (run chip_id b xs) ys
  unfolding run
  run-append [] ys b = refl
  run-append (x ∷ xs) ys b = run-append xs ys (service_loop chip_id b x)

  -- A device with an access point of its own, whose Wi-Fi manager is disconnected: three rounds after the
  -- start, whatever they meet, it is ready and has a DNS server.
  access_point_starts :
      (b : Bootstrap) (r r' r'' : Round)
      → b.state ≡ uninitialized
      → b.config.wifi_mode ≡ WifiMode.ap
      → b.wifi.state ≡ WifiManagerState.disconnected
      → let b' = run chip_id b (r ∷ r' ∷ r'' ∷ []) in (b'.state ≡ ready) × (b'.has_dns ≡ true)
  unfolding run
  access_point_starts b r r' r'' s m d =
      let (s_first, c, m_first) = ap_first b r s m d in
      let b_first = service_loop chip_id b r in
      let (s_second, m_second) = ap_second b_first r' s_first c m_first in
      ap_third (service_loop chip_id b_first r') r'' s_second m_second

  -- A station that waits for its network, with no limit.
  record IsWaiting (b : Bootstrap) : Type 0 where
    here : b.state ≡ wifi_connect
    seeks : b.wifi.state ≡ WifiManagerState.connecting
    as_station : b.wifi.current_mode ≡ WifiMode.sta
    no_limit : b.wifi.connection_interval ≡ 0

  sta_first :
      (b : Bootstrap) (r : Round)
      → b.state ≡ uninitialized
      → b.config.wifi_mode ≡ WifiMode.sta
      → b.config.wifi_connection_timeout ≡ 0
      → b.wifi.state ≡ WifiManagerState.disconnected
      → IsWaiting (service_loop chip_id b r)
  unfolding service_loop change_state Wifi.connect Wifi.begin_sta
  sta_first b r s m z d = ground arith

  sta_waits :
      (b : Bootstrap) (r : Round)
      → r.is_connected ≡ false
      → IsWaiting b
      → IsWaiting (service_loop chip_id b r)
  unfolding service_loop Wifi.handle_connection Wifi.connect_sta_step
  sta_waits b r n w = ground arith

  abbrev AllWait : List Round → Type 0
  AllWait [] = Unit {0}
  AllWait (r ∷ rs) = (r.is_connected ≡ false) × AllWait rs

  run-IsWaiting :
      (rs : List Round) (b : Bootstrap) → AllWait rs → IsWaiting b → IsWaiting (run chip_id b rs)
  unfolding run
  run-IsWaiting [] b n w = w
  run-IsWaiting (r ∷ rs) b n w =
      run-IsWaiting rs (service_loop chip_id b r) n.1 (sta_waits b r n.0 w)

  sta_connects :
      (b : Bootstrap) (r : Round)
      → r.is_connected ≡ true
      → IsWaiting b
      → ((service_loop chip_id b r).state ≡ initializing)
        × ((service_loop chip_id b r).wifi.current_mode ≡ WifiMode.sta)
        × ((service_loop chip_id b r).has_dns ≡ b.has_dns)
  unfolding service_loop change_state Wifi.handle_connection Wifi.connect_sta_step
  sta_connects b r y w = ground arith

  sta_last :
      (b : Bootstrap) (r : Round)
      → b.state ≡ initializing
      → b.wifi.current_mode ≡ WifiMode.sta
      → ((service_loop chip_id b r).state ≡ ready)
        × ((service_loop chip_id b r).has_dns ≡ b.has_dns)
        × ((service_loop chip_id b r).mqtt ≡ (
            if b.config.mqtt_enabled
            then Mqtt.begin (Mqtt.set_prefix b.mqtt b.config.mdns_name) r.now
            else b.mqtt))
  unfolding service_loop change_state start_services after_init
  sta_last b r s m = ground arith

  -- A device that joins a network as a station, with no limit for the connection, and whose Wi-Fi manager
  -- is disconnected: it waits in `WIFI_CONNECT` for as many rounds as find no connection, and is
  -- ready two rounds after that, the first of which finds one.
  pub station_starts :
      (b : Bootstrap) (r : Round) (rs : List Round) (found last : Round)
      → b.state ≡ uninitialized
      → b.config.wifi_mode ≡ WifiMode.sta
      → b.config.wifi_connection_timeout ≡ 0
      → b.wifi.state ≡ WifiManagerState.disconnected
      → AllWait rs
      → found.is_connected ≡ true
      → ((run chip_id b (r ∷ rs)).state ≡ wifi_connect)
        × ((run chip_id b ((r ∷ rs) ++ found ∷ last ∷ [])).state ≡ ready)
  unfolding run
  station_starts b r rs found last s m z d no_network yes_found =
      let b_first = service_loop chip_id b r in
      let w = run-IsWaiting rs b_first no_network (sta_first b r s m z d) in
      let b_second = run chip_id b_first rs in
      let (i, m_second, _) = sta_connects b_second found yes_found w in
      let (done, _, _) = sta_last (service_loop chip_id b_second found) last i m_second in
      (w.here, rw (run-append rs (found ∷ last ∷ []) b_first) done)
