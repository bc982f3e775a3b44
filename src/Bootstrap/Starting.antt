-- ===== src/Bootstrap/Starting.antt =====
-- The order in which a device starts.
use esp_iot_framework.Prelude.{
  ℕ, ◌≡◌, refl, ap, sym, subst, ◌∙◌, Bool, true, false, ◌&&◌, List, [], ◌∷◌, ◌++◌, arith,
  if◌then◌else◌, Bytes, append-nil, append_assoc, inl, inr, ◌⊎◌,
}
use esp_iot_framework.Misc.EventTopic
use esp_iot_framework.Misc.EventTopic.{EventTopic, Call}
use esp_iot_framework.Network.Mqtt
use esp_iot_framework.Network.Mqtt.{MqttServer, MqttServerState, Effect, connects}
use esp_iot_framework.Network.Mqtt.Connection.{begin_connects, handle_connection-Extends, idle}
use esp_iot_framework.Bootstrap.{
  BootstrapState, uninitialized, wifi_connect, initializing, ready, Service, ota_begin, ota_handle,
  web_socket_begin, web_begin, mqtt_begin, dns_start, dns_next, Bootstrap, Round, change_state,
  after_init, start_services, run_services, service_loop,
}

-- The services that were started.
abbrev pub started : List Service → List Service
started [] = []
started (ota_begin ∷ ss) = ota_begin ∷ started ss
started (ota_handle ∷ ss) = started ss
started (web_socket_begin ∷ ss) = web_socket_begin ∷ started ss
started (web_begin ∷ ss) = web_begin ∷ started ss
started (mqtt_begin ∷ ss) = mqtt_begin ∷ started ss
started (dns_start ∷ ss) = dns_start ∷ started ss
started (dns_next ∷ ss) = started ss

started-append : (xs ys : List Service) → started (xs ++ ys) ≡ started xs ++ started ys
started-append [] ys = refl
started-append (ota_begin ∷ xs) ys = ground (arith, started-append xs ys)
started-append (ota_handle ∷ xs) ys = started-append xs ys
started-append (web_socket_begin ∷ xs) ys = ground (arith, started-append xs ys)
started-append (web_begin ∷ xs) ys = ground (arith, started-append xs ys)
started-append (mqtt_begin ∷ xs) ys = ground (arith, started-append xs ys)
started-append (dns_start ∷ xs) ys = ground (arith, started-append xs ys)
started-append (dns_next ∷ xs) ys = started-append xs ys

-- What subscribers were called for on the way to a state.
abbrev pub announced : EventTopic → BootstrapState → List Call
announced t uninitialized = []
announced t wifi_connect = EventTopic.publish t 0 1 0
announced t initializing = EventTopic.publish t 0 1 0 ++ EventTopic.publish t 0 2 0
announced t ready =
    (EventTopic.publish t 0 1 0 ++ EventTopic.publish t 0 2 0) ++ EventTopic.publish t 0 3 0

abbrev pub is_ready : BootstrapState → Bool
is_ready uninitialized = false
is_ready wifi_connect = false
is_ready initializing = false
is_ready ready = true

abbrev pub all_services : Bool → Bool → List Service
all_services mqtt_enabled has_dns =
    (ota_begin ∷ web_socket_begin ∷ web_begin ∷ (if mqtt_enabled then mqtt_begin ∷ [] else []))
    ++ (if has_dns then dns_start ∷ [] else [])

-- What became of the MQTT server `m`: nothing unless it was begun. If it was, it has the prefix `name`
-- and began to connect, before all else that it did since.
abbrev pub BegunIf : Bool → Bytes → MqttServer → MqttServer → Type 0
BegunIf false name m m' = m' ≡ m
BegunIf true name m m' =
    (m'.topic_prefix ≡ name)
    × (rest : List Effect) × (m'.effects ≡ (m.effects ++ connects ∷ []) ++ rest)

-- How a device is that started as `b`.
record IsStarting (b b' : Bootstrap) : Type 0 where
  pub same_config : b'.config ≡ b.config
  pub same_topic : b'.topic ≡ b.topic
  pub announces : b'.published ≡ announced b.topic b'.state
  pub starts :
      started b'.services
      ≡ (if is_ready b'.state then all_services b.config.mqtt_enabled b'.has_dns else [])
  pub no_dns : is_ready b'.state ≡ false → b'.has_dns ≡ false
  pub begins :
      BegunIf (is_ready b'.state && b.config.mqtt_enabled) b.config.mdns_name b.mqtt b'.mqtt

State-cases :
    (s : BootstrapState)
    → (s ≡ uninitialized) ⊎ ((s ≡ wifi_connect) ⊎ ((s ≡ initializing) ⊎ (s ≡ ready)))
State-cases uninitialized = inl refl
State-cases wifi_connect = inr (inl refl)
State-cases initializing = inr (inr (inl refl))
State-cases ready = inr (inr (inr refl))

module _ (chip_id : Bytes) where
  unfoldable pub run : Bootstrap → List Round → Bootstrap
  run b [] = b
  run b (r ∷ rs) = run (service_loop chip_id b r) rs

  -- The round of each state.
  service_loop-uninitialized :
      (b b' : Bootstrap) (r : Round)
      → b'.state ≡ uninitialized
      → IsStarting b b'
      → IsStarting b (service_loop chip_id b' r)
  unfolding service_loop change_state
  service_loop-uninitialized b b' r e v = ground arith

  service_loop-wifi_connect :
      (b b' : Bootstrap) (r : Round)
      → b'.state ≡ wifi_connect
      → IsStarting b b'
      → IsStarting b (service_loop chip_id b' r)
  unfolding service_loop change_state
  service_loop-wifi_connect b b' r e v = ground arith

  service_loop-initializing :
      (b b' : Bootstrap) (r : Round)
      → b.mqtt.state ≡ MqttServerState.uninitialized
      → b'.state ≡ initializing
      → IsStarting b b'
      → IsStarting b (service_loop chip_id b' r)
  unfolding service_loop change_state start_services after_init
  service_loop-initializing b b' r i e v =
      let three = ota_begin ∷ web_socket_begin ∷ web_begin ∷ [] in
      let begun = begin_connects b.mqtt b.config.mdns_name r.now i in
      ground (
        arith,
        begun,
        started-append b'.services three,
        started-append (b'.services ++ three) (dns_start ∷ []),
        started-append (b'.services ++ three) (mqtt_begin ∷ []),
        started-append ((b'.services ++ three) ++ mqtt_begin ∷ []) (dns_start ∷ []),
      )

  polled_BegunIf :
      (begun : Bool) (name : Bytes) (m m' : MqttServer) (client_connected : Bool) (now later : ℕ)
      → m.state ≡ MqttServerState.uninitialized
      → BegunIf begun name m m'
      → BegunIf begun name m (Mqtt.handle_connection m' client_connected now later)
  polled_BegunIf false name m m' client_connected now later i same =
      subst (λ x. Mqtt.handle_connection x client_connected now later ≡ m) (sym same)
        (idle m client_connected now later i)
  polled_BegunIf true name m m' client_connected now later i (prefix, rest, e) =
      let (same, more, grown) = handle_connection-Extends m' client_connected now later in
      (
        same ∙ prefix,
        rest ++ more,
        grown ∙ ap (λ es. es ++ more) e ∙ append_assoc (m.effects ++ connects ∷ []) rest more,
      )

  service_loop-ready :
      (b b' : Bootstrap) (r : Round)
      → b.mqtt.state ≡ MqttServerState.uninitialized
      → b'.state ≡ ready
      → IsStarting b b'
      → IsStarting b (service_loop chip_id b' r)
  unfolding service_loop run_services
  service_loop-ready b b' r i e v =
      let polled =
        polled_BegunIf (is_ready b'.state && b.config.mqtt_enabled) b.config.mdns_name b.mqtt
          b'.mqtt r.mqtt_connected r.now r.later i v.begins in
      ground (
        arith,
        polled,
        started-append b'.services (ota_handle ∷ []),
        started-append (b'.services ++ ota_handle ∷ []) (dns_next ∷ []),
        append-nil (b'.services ++ ota_handle ∷ []),
        append-nil (started b'.services),
      )

  service_loop-IsStarting :
      (b b' : Bootstrap) (r : Round)
      → b.mqtt.state ≡ MqttServerState.uninitialized
      → IsStarting b b'
      → IsStarting b (service_loop chip_id b' r)
  service_loop-IsStarting b b' r i v = elim (State-cases b'.state) [
    | inl e ↦ service_loop-uninitialized b b' r e v
    | inr (inl e) ↦ service_loop-wifi_connect b b' r e v
    | inr (inr (inl e)) ↦ service_loop-initializing b b' r i e v
    | inr (inr (inr e)) ↦ service_loop-ready b b' r i e v
  ]

  run-keeps :
      (rs : List Round) (b b' : Bootstrap)
      → b.mqtt.state ≡ MqttServerState.uninitialized
      → IsStarting b b'
      → IsStarting b (run b' rs)
  unfolding run
  run-keeps [] b b' i v = v
  run-keeps (r ∷ rs) b b' i v =
      run-keeps rs b (service_loop chip_id b' r) i (service_loop-IsStarting b b' r i v)

  -- Whatever the rounds of the service loop meet, from a device in which nothing was started or
  -- published and whose MQTT server was not begun: the subscribers were told of each state on the way to
  -- the present one, once and in the order in which the states follow each other. The services, each once
  -- and in their order, were started if that state is `READY`, among them MQTT if it is enabled and the
  -- DNS server if there is one, and none was before. The MQTT server is what it was at first unless the
  -- state is `READY` and MQTT is enabled; then it has the device's name for its prefix, and began to
  -- connect before all else that it did.
  pub run-IsStarting :
      (rs : List Round) (b : Bootstrap)
      → b.state ≡ uninitialized
      → b.published ≡ []
      → b.services ≡ []
      → b.has_dns ≡ false
      → b.mqtt.state ≡ MqttServerState.uninitialized
      → let b' = run b rs in
        (b'.published ≡ announced b.topic b'.state)
        × (started b'.services
            ≡ (if is_ready b'.state then all_services b.config.mqtt_enabled b'.has_dns else []))
        × BegunIf (is_ready b'.state && b.config.mqtt_enabled) b.config.mdns_name b.mqtt b'.mqtt
  run-IsStarting rs b s p none_started no_dns idle_mqtt =
      let v : IsStarting b b = record {
        same_config = refl;
        same_topic = refl;
        announces = ground arith;
        starts = ground arith;
        no_dns = λ _. no_dns;
        begins = rw s refl;
      } in
      let k = run-keeps rs b b idle_mqtt v in (k.announces, k.starts, k.begins)
