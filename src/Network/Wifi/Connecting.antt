-- ===== src/Network/Wifi/Connecting.antt =====
-- The states of the Wi-Fi manager: which it can reach, and what becomes of a connection.
use esp_iot_framework.Prelude.{
  ℕ, ◌≤◌, ◌≡◌, ◌≢◌, Bool, true, false, not, ◌&&◌, ◌||◌, Option, none, List, [], ◌∷◌, ◌++◌, arith,
  ltb, if◌then◌else◌, sub32, length, Bytes, append_assoc,
}
use esp_iot_framework.Network.Wifi.{
  WifiManagerState, disconnected, connecting, connected, WifiMode, ap, sta, sta_ap, disconnect,
  mode, soft_ap, begin, WifiManager, init, default_connection_interval, access_point_name,
  connect_ap, begin_sta, connect, connect_sta_step, check_connection, handle_connection,
}

-- What a program does with a manager.
pub data Step : Type 0 where
  connects : WifiMode → ℕ → ℕ → Step
  handles : Bool → Bool → ℕ → Step

module _ (chip_id : Bytes) where
  abbrev step : WifiManager → Step → WifiManager
  step w (connects wanted interval now) = connect chip_id w wanted interval now
  step w (handles mode_is_ap is_connected now) =
      handle_connection chip_id w mode_is_ap is_connected now

  pub run : WifiManager → List Step → WifiManager
  run w [] = w
  run w (s ∷ ss) = run (step w s) ss

  abbrev is_consistent : WifiManagerState → WifiMode → Bool
  is_consistent connecting ap = false
  is_consistent connecting sta = true
  is_consistent connecting sta_ap = true
  is_consistent disconnected wanted = true
  is_consistent connected wanted = true

  -- An access point is never waited for, and a password is one that Wi-Fi takes.
  pub record IsValid (w : WifiManager) : Type 0 where
    pub mode : is_consistent w.state w.current_mode ≡ true
    pub password : 8 ≤ length w.password

  connect-IsValid :
      (w : WifiManager) (wanted : WifiMode) (interval now : ℕ)
      → IsValid w
      → IsValid (connect chip_id w wanted interval now)
  unfolding connect connect_ap begin_sta
  connect-IsValid w wanted interval now v = ground (arith, v.mode, v.password)

  connect_sta_step-IsValid :
      (w : WifiManager) (is_connected : Bool) (now : ℕ)
      → is_consistent connecting w.current_mode ≡ true
      → IsValid w
      → IsValid (connect_sta_step chip_id w is_connected now)
  unfolding connect_sta_step begin_sta
  connect_sta_step-IsValid w is_connected now m v = ground (
    arith,
    v.mode,
    v.password,
    connect-IsValid (record w { state = disconnected }) ap default_connection_interval now,
  )

  handle_connection-IsValid :
      (w : WifiManager) (mode_is_ap is_connected : Bool) (now : ℕ)
      → IsValid w
      → IsValid (handle_connection chip_id w mode_is_ap is_connected now)
  unfolding handle_connection check_connection
  handle_connection-IsValid w mode_is_ap is_connected now v =
      let checked = record w { last_connection_check = now; state = disconnected } in
      ground (
        arith,
        v.mode,
        v.password,
        connect_sta_step-IsValid w is_connected now,
        connect-IsValid checked w.current_mode default_connection_interval now,
      )

  run_keeps : (ss : List Step) (w : WifiManager) → IsValid w → IsValid (run w ss)
  unfolding run
  run_keeps [] w v = v
  run_keeps (connects wanted interval now ∷ ss) w v =
      run_keeps ss (connect chip_id w wanted interval now) (connect-IsValid w wanted interval now v)
  run_keeps (handles mode_is_ap is_connected now ∷ ss) w v =
      run_keeps ss (handle_connection chip_id w mode_is_ap is_connected now)
        (handle_connection-IsValid w mode_is_ap is_connected now v)

-- Whatever a program does with a manager, in any order, it never waits for an access point, and its
-- password has at least the eight characters that Wi-Fi wants.
pub run-init-IsValid :
    (chip_id ssid password : Bytes) (check_interval : ℕ) (made : Option Bytes) (ss : List Step)
    → IsValid chip_id (run chip_id (init ssid password check_interval made) ss)
unfolding init
run-init-IsValid chip_id ssid password check_interval made ss =
    run_keeps chip_id ss (init ssid password check_interval made) (ground arith)

-- A poll of a manager that waits for a station: with a connection it is connected; without one, when
-- there is a limit and the time is beyond it, it starts the access point and is connected as one;
-- else it waits on. Only the access point makes calls.
handle_connection_polls :
    (chip_id : Bytes) (w : WifiManager) (mode_is_ap is_connected : Bool) (now : ℕ)
    → w.state ≡ connecting
    → is_consistent chip_id w.state w.current_mode ≡ true
    → let w' = handle_connection chip_id w mode_is_ap is_connected now in
      let elapsed = sub32 now w.connection_begin_time in
      let late = ltb 0 w.connection_interval && ltb w.connection_interval elapsed in
      let gives_up = not is_connected && late in
      (w'.state ≡ (if is_connected || late then connected else connecting))
      × (w'.current_mode ≡ (if gives_up then ap else w.current_mode))
      × (w'.wifi_calls ≡ (
          if gives_up
          then w.wifi_calls
            ++ disconnect ∷ mode ap ∷ soft_ap (access_point_name chip_id w) w.password ∷ []
          else w.wifi_calls))
unfolding handle_connection connect_sta_step connect connect_ap
handle_connection_polls chip_id w mode_is_ap is_connected now e c = ground (
  arith,
  e,
  c,
  append_assoc w.wifi_calls (disconnect ∷ [])
      (mode ap ∷ soft_ap (access_point_name chip_id w) w.password ∷ []),
)

-- A manager that is not connecting, and was never an access point, becomes one and is then told to
-- connect to a network: it looks for one with the access point's name, which is not the network's
-- own.
connect_after_access_point :
    (chip_id : Bytes) (w : WifiManager) (wait wait_again now later : ℕ)
    → w.state ≢ connecting
    → w.access_point_ssid ≡ none
    → let name = w.ssid ++ b'_' ∷ chip_id in
      (connect chip_id (connect chip_id w ap wait now) sta wait_again later).wifi_calls
      ≡ ((w.wifi_calls ++ disconnect ∷ []) ++ mode ap ∷ soft_ap name w.password ∷ [])
        ++ disconnect ∷ []
        ++ mode sta ∷ begin name w.password ∷ []
unfolding connect connect_ap begin_sta
connect_after_access_point chip_id w wait wait_again now later c n = ground (arith, n)

-- A manager that is connected as a station, and finds at a check that it is not any more, waits for
-- a new connection from then on, with the default limit of two minutes, whatever limit it was
-- given.
handle_connection_lost :
    (chip_id : Bytes) (w : WifiManager) (now : ℕ)
    → w.state ≡ connected
    → is_consistent chip_id connecting w.current_mode ≡ true
    → w.connection_check_interval ≤ sub32 now w.last_connection_check
    → let w' = handle_connection chip_id w false false now in
      (w'.state ≡ connecting)
      × (w'.current_mode ≡ w.current_mode)
      × (w'.connection_begin_time ≡ now)
      × (w'.connection_interval ≡ default_connection_interval)
unfolding handle_connection check_connection connect begin_sta
handle_connection_lost chip_id w now e c h = ground (arith, e, c)
