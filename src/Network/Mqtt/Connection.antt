-- ===== src/Network/Mqtt/Connection.antt =====
-- When the MQTT server connects, and what it subscribes to.
use esp_iot_framework.Prelude.{
  ℕ, ◌<◌, ◌≡◌, refl, ◌⊎◌, inl, inr, Bool, true, false, ◌||◌, some, List, [], ◌∷◌, ◌++◌, arith, ltb,
  if◌then◌else◌, Bool-cases, u32_mod, add32, sub32, Bytes, ap, sym, ◌∙◌, ◌&&◌, not, append-nil,
  append_assoc, by_if,
}
use esp_iot_framework.Network.Topics.{TopicMap, find, topics, text_eq, text_eq_iff}
use esp_iot_framework.Network.Mqtt.{
  uninitialized, connecting, connected, disconnected, set_prefix, begin, state_is, Effect, connects,
  disconnects, subscribed, published, command, notified, MqttServer, reconnect_timeout,
  connection_timeout, emit, change_state, connect, handle_connection, subscriptions, on_connect,
}
use esp_iot_framework.Network.Mqtt.Messages.{text_eq_refl}

-- Any effect that is a subscription of the topic.
abbrev is_subscribed : Bytes → List Effect → Bool
is_subscribed topic [] = false
is_subscribed topic (subscribed t qos ∷ es) = text_eq t topic || is_subscribed topic es
is_subscribed topic (connects ∷ es) = is_subscribed topic es
is_subscribed topic (disconnects force ∷ es) = is_subscribed topic es
is_subscribed topic (published t qos retained payload ∷ es) = is_subscribed topic es
is_subscribed topic (command cmd payload ∷ es) = is_subscribed topic es
is_subscribed topic (notified p ∷ es) = is_subscribed topic es

is_subscribed-append :
    (topic : Bytes) (xs ys : List Effect)
    → is_subscribed topic (xs ++ ys) ≡ (is_subscribed topic xs || is_subscribed topic ys)
is_subscribed-append topic [] ys = refl
is_subscribed-append topic (subscribed t qos ∷ xs) ys =
    ground (arith, is_subscribed-append topic xs ys)
is_subscribed-append topic (connects ∷ xs) ys = is_subscribed-append topic xs ys
is_subscribed-append topic (disconnects force ∷ xs) ys = is_subscribed-append topic xs ys
is_subscribed-append topic (published t qos retained payload ∷ xs) ys =
    is_subscribed-append topic xs ys
is_subscribed-append topic (command cmd payload ∷ xs) ys = is_subscribed-append topic xs ys
is_subscribed-append topic (notified p ∷ xs) ys = is_subscribed-append topic xs ys

is_subscribed-subscriptions :
    {V : Type 0} (prefix topic : Bytes) (v : V) (m : TopicMap V)
    → find topic m ≡ some v
    → is_subscribed (prefix ++ topic) (subscriptions prefix (topics m)) ≡ true
unfolding subscriptions find topics
is_subscribed-subscriptions prefix topic v [] e = absurd (cc)
is_subscribed-subscriptions prefix topic v ((j, w) ∷ m) e = elim (Bool-cases (text_eq j topic)) [
  | inl same ↦ rw ((text_eq_iff j topic).0 same) (ground (arith, text_eq_refl (prefix ++ topic)))
  | inr other ↦ ground (arith, is_subscribed-subscriptions prefix topic v m (rw other at e))
]

-- At a connection the server subscribes to the topic of every command and of every parameter's input,
-- under the prefix, and is connected.
on_connect_subscribes :
    (m : MqttServer) (topic : Bytes) (now cmd : ℕ) (target : Bytes × ℕ)
    → (find topic m.commands ≡ some cmd) ⊎ (find topic m.parameters ≡ some target)
    → (is_subscribed (m.topic_prefix ++ topic) (on_connect m now).effects ≡ true)
      × ((on_connect m now).state ≡ connected)
unfolding on_connect
on_connect_subscribes m topic now cmd target h =
    let inputs = subscriptions m.topic_prefix (topics m.parameters) in
    let all =
      is_subscribed-append (m.topic_prefix ++ topic)
        (m.effects ++ subscriptions m.topic_prefix (topics m.commands)) inputs in
    let first =
      is_subscribed-append (m.topic_prefix ++ topic) m.effects
        (subscriptions m.topic_prefix (topics m.commands)) in
    (
      elim h [
        | inl e ↦
            ground
              (arith, all, first, is_subscribed-subscriptions m.topic_prefix topic cmd m.commands e)
        | inr e ↦ ground (
          arith,
          all,
          first,
          is_subscribed-subscriptions m.topic_prefix topic target m.parameters e,
        )
      ],
      refl,
    )

retry :
    (m : MqttServer) (now later : ℕ)
    → m.state ≡ disconnected
    → reconnect_timeout < sub32 now m.last_connection_attempt_time
    → handle_connection m false now later ≡ (
        if ltb connection_timeout (sub32 now later)
        then emit (change_state (connect m later) disconnected later) (disconnects true)
        else connect m later)
unfolding handle_connection
retry m now later e r = ground (arith, e)

-- A server whose connection is lost, and whose client is not connected, tries again when the wait
-- is over: it is connecting, and the client was told to connect. That holds if the clock does not
-- advance within the call; if it does by a millisecond the attempt is given up at once, and the
-- client disconnected.
handle_connection_retries :
    (m : MqttServer) (now : ℕ)
    → m.state ≡ disconnected
    → now < u32_mod
    → reconnect_timeout < sub32 now m.last_connection_attempt_time
    → (handle_connection m false now now ≡ connect m now)
      × ((handle_connection m false now (add32 now 1)).state ≡ disconnected)
      × ((handle_connection m false now (add32 now 1)).effects
          ≡ (m.effects ++ connects ∷ []) ++ disconnects true ∷ [])
unfolding handle_connection emit
handle_connection_retries m now e h r =
    let none_passed : ltb connection_timeout (sub32 now now) ≡ false = ground arith in
    let wrapped : ltb connection_timeout (sub32 now (add32 now 1)) ≡ true = ground arith in
    (
      rw (retry m now now e r, none_passed),
      rw (retry m now (add32 now 1) e r, wrapped),
      rw (retry m now (add32 now 1) e r, wrapped),
    )

-- A server that was not begun begins to connect.
pub begin_connects :
    (m : MqttServer) (name : Bytes) (now : ℕ)
    → m.state ≡ uninitialized
    → ((begin (set_prefix m name) now).topic_prefix ≡ name)
      × (rest : List Effect) × ((begin (set_prefix m name) now).effects
          ≡ (m.effects ++ connects ∷ []) ++ rest)
unfolding begin emit
begin_connects m name now i =
    (rw (i, begin) refl, [], rw (i, begin) (sym (append-nil (m.effects ++ connects ∷ []))))

-- A server that was not begun does nothing.
pub idle :
    (m : MqttServer) (client_connected : Bool) (now later : ℕ)
    → m.state ≡ uninitialized
    → handle_connection m client_connected now later ≡ m
unfolding handle_connection
idle m client_connected now later i = ground arith

-- A round adds to what the server did, and leaves the prefix alone.
abbrev Extends : MqttServer → MqttServer → Type 0
Extends m m' =
    (m'.topic_prefix ≡ m.topic_prefix) × (rest : List Effect) × (m'.effects ≡ m.effects ++ rest)

Extends-refl : (m : MqttServer) → Extends m m
Extends-refl m = (refl, [], sym (append-nil m.effects))

Extends-trans : (m m' m'' : MqttServer) → Extends m m' → Extends m' m'' → Extends m m''
Extends-trans m m' m'' (p, xs, e) (q, ys, f) =
    (q ∙ p, xs ++ ys, f ∙ ap (λ es. es ++ ys) e ∙ append_assoc m.effects xs ys)

connect-Extends : (m : MqttServer) (now : ℕ) → Extends m (connect m now)
unfolding emit
connect-Extends m now = (refl, connects ∷ [], refl)

pub handle_connection-Extends :
    (m : MqttServer) (client_connected : Bool) (now later : ℕ)
    → Extends m (handle_connection m client_connected now later)
unfolding handle_connection emit
handle_connection-Extends m client_connected now later =
    let due =
      state_is m disconnected && ltb reconnect_timeout (sub32 now m.last_connection_attempt_time) in
    let m' = if due then connect m later else m in
    let first : Extends m m' =
      by_if (Extends m) due _ _ (connect-Extends m later) (Extends-refl m) in
    let late = record (change_state m' disconnected later) {
      effects = m'.effects ++ disconnects true ∷ [];
    } in
    by_if (Extends m) (state_is m uninitialized) _ _ (Extends-refl m) (
      by_if (Extends m)
        (state_is m' connecting
          && (not client_connected && ltb connection_timeout (sub32 now m'.state_change_time)))
        _ _ (Extends-trans m m' late first (refl, disconnects true ∷ [], refl)) first)
