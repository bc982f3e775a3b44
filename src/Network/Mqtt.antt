-- ===== src/Network/Mqtt.antt =====
-- network/server/mqtt.h and network/server/mqtt.cpp. The parameters that the server points to lie in a
-- store, by address. What the server hands to code that is not its own is recorded in order: calls of
-- AsyncMqttClient, of a registered command, and a notification of the bus, whose call back into this
-- server returns at once (`sender == this`). A text is its bytes, none of them zero; `now` is what
-- `millis()` returns, an `unsigned long` of 32 bits. The Arduino core's conversions for each
-- parameter's type are a parameter, by its address.
pub mod Messages
pub mod Connection
use esp_iot_framework.Prelude.{
  ℕ, Bool, true, false, not, ◌&&◌, Option, none, some, List, [], ◌∷◌, ◌++◌, ltb, ◌==◌,
  if◌then◌else◌, sub32, Bytes, Map, lookup, insert, update,
}
use esp_iot_framework.Base.Parameter.{Parameter, Conversions, parse, to_string}
use esp_iot_framework.Network.Topics.{TopicMap, find, put, topics}

pub data MqttServerState : Type 0 where
  uninitialized connecting connected disconnected : MqttServerState

-- A publication has its topic, its quality of service, whether it is retained, and its payload.
pub data Effect : Type 0 where
  connects : Effect
  disconnects : Bool → Effect
  subscribed : Bytes → ℕ → Effect
  published : Bytes → ℕ → Bool → Bytes → Effect
  command : ℕ → Bytes → Effect
  notified : ℕ → Effect

pub record MqttServer : Type 0 where
  pub commands : TopicMap ℕ
  pub notifications : TopicMap ℕ
  pub parameters : TopicMap (Bytes × ℕ)
  pub parameters_topic : Map Bytes
  pub topic_prefix : Bytes
  pub state : MqttServerState
  pub state_change_time : ℕ
  pub last_connection_attempt_time : ℕ
  pub store : ℕ → Parameter
  pub effects : List Effect

abbrev pub connection_timeout : ℕ
connection_timeout = 15000

abbrev pub reconnect_timeout : ℕ
reconnect_timeout = 5000

abbrev pub init : (ℕ → Parameter) → MqttServer
init store = record {
  commands = [];
  notifications = [];
  parameters = [];
  parameters_topic = [];
  topic_prefix = [];
  state = uninitialized;
  state_change_time = 0;
  last_connection_attempt_time = 0;
  store = store;
  effects = [];
}

abbrev pub set_prefix : MqttServer → Bytes → MqttServer
set_prefix m str = record m { topic_prefix = str }

-- A command is named by a number.
abbrev pub register_command : MqttServer → Bytes → ℕ → MqttServer
register_command m topic cmd = record m { commands = put topic cmd m.commands }

-- The parameter is not the null pointer.
abbrev pub register_notification : MqttServer → Bytes → ℕ → MqttServer
register_notification m topic p = record m {
  notifications = put topic p m.notifications;
  parameters_topic = insert p topic m.parameters_topic;
}

abbrev pub register_parameter : MqttServer → Bytes → Bytes → ℕ → MqttServer
register_parameter m topic_in topic_out p = record m {
  parameters = put topic_in (topic_out, p) m.parameters;
  parameters_topic = insert p topic_out m.parameters_topic;
}

abbrev pub state_is : MqttServer → MqttServerState → Bool
state_is m wanted = elim m.state [
  | uninitialized ↦ elim wanted [
    | uninitialized ↦ true
    | connecting ↦ false
    | connected ↦ false
    | disconnected ↦ false
  ]
  | connecting ↦ elim wanted [
    | uninitialized ↦ false
    | connecting ↦ true
    | connected ↦ false
    | disconnected ↦ false
  ]
  | connected ↦ elim wanted [
    | uninitialized ↦ false
    | connecting ↦ false
    | connected ↦ true
    | disconnected ↦ false
  ]
  | disconnected ↦ elim wanted [
    | uninitialized ↦ false
    | connecting ↦ false
    | connected ↦ false
    | disconnected ↦ true
  ]
]

unfoldable pub emit : MqttServer → Effect → MqttServer
emit m e = record m { effects = m.effects ++ e ∷ [] }

-- `_publish`
unfoldable pub publish : MqttServer → Bytes → Bytes → MqttServer
unfolding emit
publish m topic payload =
    if not (state_is m connected)
    then m
    else emit m (published (m.topic_prefix ++ topic) 1 true payload)

abbrev pub change_state : MqttServer → MqttServerState → ℕ → MqttServer
change_state m state now = record m { state = state; state_change_time = now }

-- `_connect`
abbrev pub connect : MqttServer → ℕ → MqttServer
unfolding emit
connect m now =
    emit (record (change_state m connecting now) { last_connection_attempt_time = now }) connects

-- `begin`: the callbacks are set, and the server subscribes to the bus.
unfoldable pub begin : MqttServer → ℕ → MqttServer
unfolding emit
begin m now = elim m.state [
  | uninitialized ↦ connect m now
  | connecting ↦ m
  | connected ↦ m
  | disconnected ↦ m
]

-- `now` is the time that is read first, and `later` that which `_connect` and `_change_state` read.
-- `client_connected` is what the client says; the client calls `_on_disconnect` after this returns.
unfoldable pub handle_connection : MqttServer → Bool → ℕ → ℕ → MqttServer
unfolding emit
handle_connection m client_connected now later =
    let m' =
      if state_is m disconnected && ltb reconnect_timeout (sub32 now m.last_connection_attempt_time)
      then connect m later
      else m in
    if state_is m uninitialized
    then m
    else if state_is m' connecting
        && (not client_connected && ltb connection_timeout (sub32 now m'.state_change_time))
    then emit (change_state m' disconnected later) (disconnects true)
    else m'

-- The two loops of `_on_connect`, each over a map's topics.
pub subscriptions : Bytes → List Bytes → List Effect
subscriptions prefix [] = []
subscriptions prefix (topic ∷ ts) = subscribed (prefix ++ topic) 1 ∷ subscriptions prefix ts

unfoldable pub on_connect : MqttServer → ℕ → MqttServer
unfolding subscriptions
on_connect m now =
    change_state
      (record m {
        effects =
            (m.effects ++ subscriptions m.topic_prefix (topics m.commands))
            ++ subscriptions m.topic_prefix (topics m.parameters);
        last_connection_attempt_time = now;
      })
      connected now

abbrev pub on_disconnect : MqttServer → ℕ → MqttServer
on_disconnect m now = change_state m disconnected now

-- The loop over the prefix: `none` if the topic has another.
pub cut_prefix : Bytes → Bytes → Option Bytes
cut_prefix [] topic = some topic
cut_prefix (c ∷ prefix) [] = none
cut_prefix (c ∷ prefix) (t ∷ topic) = if t == c then cut_prefix prefix topic else none

module _ (c : ℕ → Conversions) where
  unfoldable pub send_notification : MqttServer → Bytes → MqttServer
  unfolding publish
  send_notification m topic =
      if not (state_is m connected) then m else elim (find topic m.notifications) [
        | some p ↦ publish m topic (to_string (c p) (m.store p))
        | none ↦ elim (find topic m.parameters) [
          | some (topic_out, p) ↦ publish m topic (to_string (c p) (m.store p))
          | none ↦ m
        ]
      ]

  -- A message for the parameter at an address.
  unfoldable pub process_parameter : MqttServer → Bytes → ℕ → Bytes → MqttServer
  unfolding emit publish
  process_parameter m topic_out p payload =
      let (success, changed) = parse (c p) (m.store p) payload in
      let m' = record m { store = update m.store p changed } in
      if success
      then publish (emit m' (notified p)) topic_out (to_string (c p) (m'.store p))
      else m'

  unfoldable pub process_message : MqttServer → Bytes → Bytes → MqttServer
  unfolding emit process_parameter
  process_message m topic payload = elim (find topic m.commands) [
    | some cmd ↦ emit m (command cmd payload)
    | none ↦ elim (find topic m.parameters) [
      | some (topic_out, p) ↦ process_parameter m topic_out p payload
      | none ↦ m
    ]
  ]

  unfoldable pub on_message : MqttServer → Bytes → Bytes → MqttServer
  unfolding process_message cut_prefix
  on_message m topic payload =
      process_message m (elim (cut_prefix m.topic_prefix topic) [ some cut ↦ cut | none ↦ topic ])
        payload

  -- `sender` is whether the notification comes from this server.
  unfoldable pub process_notification : MqttServer → Bool → ℕ → MqttServer
  unfolding publish
  process_notification m true p = m
  process_notification m false p = elim (lookup p m.parameters_topic) [
    | some topic ↦ publish m topic (to_string (c p) (m.store p))
    | none ↦ m
  ]
