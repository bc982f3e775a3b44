-- ===== src/Network/Mqtt/Messages.antt =====
-- Which commands and parameters a message reaches, and what is published.
use esp_iot_framework.Prelude.{
  update_same, ℕ, ◌≡◌, refl, sym, ◌∙◌, Bool, true, false, none, some, [], ◌∷◌, ◌++◌, arith,
  if◌then◌else◌, Bytes, append-nil, append_assoc, lookup, lookup-insert, update,
}
use esp_iot_framework.Base.Parameter.{Parameter, Conversions, parse, to_string}
use esp_iot_framework.Network.Topics.{TopicMap, find, put, find-put, text_eq, text_eq_iff}
use esp_iot_framework.Network.Mqtt.{
  connected, published, command, notified, MqttServer, register_command, register_parameter,
  state_is, emit, publish, cut_prefix, send_notification, process_parameter, process_message,
  on_message, process_notification,
}

cut_prefix-append : (prefix topic : Bytes) → cut_prefix prefix (prefix ++ topic) ≡ some topic
unfolding cut_prefix
cut_prefix-append [] topic = refl
cut_prefix-append (c ∷ prefix) topic = ground (arith, cut_prefix-append prefix topic)

pub text_eq_refl : (t : Bytes) → text_eq t t ≡ true
text_eq_refl t = (text_eq_iff t t).1 refl

find-put_self :
    {V : Type 0} (topic : Bytes) (v : V) (m : TopicMap V) → find topic (put topic v m) ≡ some v
find-put_self topic v m = rw (find-put topic topic v m, text_eq_refl topic)

pub on_message-prefix :
    (c : ℕ → Conversions) (m : MqttServer) (topic payload : Bytes)
    → on_message c m (m.topic_prefix ++ topic) payload ≡ process_message c m topic payload
unfolding on_message
on_message-prefix c m topic payload = rw (cut_prefix-append m.topic_prefix topic)

process_message_command :
    (c : ℕ → Conversions) (m : MqttServer) (topic payload : Bytes) (cmd : ℕ)
    → find topic m.commands ≡ some cmd
    → process_message c m topic payload
      ≡ record m { effects = m.effects ++ command cmd payload ∷ [] }
unfolding process_message emit
process_message_command c m topic payload cmd e = rw (e, process_message)

-- A message under the prefix and a command's topic calls the command that was registered for the
-- topic last, with the payload, and does nothing else.
on_message-register_command :
    (c : ℕ → Conversions) (m : MqttServer) (topic payload : Bytes) (cmd : ℕ)
    → let m' = register_command m topic cmd in
      on_message c m' (m'.topic_prefix ++ topic) payload
      ≡ record m' { effects = m.effects ++ command cmd payload ∷ [] }
on_message-register_command c m topic payload cmd =
    on_message-prefix c (register_command m topic cmd) topic payload
    ∙ process_message_command c (register_command m topic cmd) topic payload cmd
        (find-put_self topic cmd m.commands)

pub process_message_parameter :
    (c : ℕ → Conversions) (m : MqttServer) (topic topic_out payload : Bytes) (p : ℕ)
    (success : Bool) (changed : Parameter)
    → find topic m.commands ≡ none
    → find topic m.parameters ≡ some (topic_out, p)
    → parse (c p) (m.store p) payload ≡ (success, changed)
    → process_message c m topic payload ≡ (
        let m' = record m { store = update m.store p changed } in
        if success then publish (emit m' (notified p)) topic_out (to_string (c p) changed) else m')
unfolding process_message process_parameter
process_message_parameter c m topic topic_out payload p success changed n e r =
    rw (n, e, r, process_message, process_parameter, update_same m.store p changed)

-- What an update leaves: its store, its state and its effects.
record Updated (m : MqttServer) (topic_out : Bytes) (p : ℕ) (shown : Bytes) (success : Bool)
    (changed : Parameter) (m' : MqttServer) : Type 0 where
  store : m'.store ≡ update m.store p changed
  state : m'.state ≡ m.state
  effects :
      m'.effects
      ≡ m.effects
        ++ (if success
            then notified p
              ∷ (if state_is m connected
                  then published (m.topic_prefix ++ topic_out) 1 true shown ∷ []
                  else [])
            else [])

updated :
    (m : MqttServer) (topic_out : Bytes) (p : ℕ) (shown : Bytes) (success : Bool)
    (changed : Parameter)
    → Updated m topic_out p shown success changed (
        let m' = record m { store = update m.store p changed } in
        if success then publish (emit m' (notified p)) topic_out shown else m')
unfolding publish emit
updated m topic_out p shown true changed = record {
  store = ground arith;
  state = ground arith;
  effects = ground (
    arith,
    append_assoc m.effects (notified p ∷ [])
        (published (m.topic_prefix ++ topic_out) 1 true shown ∷ []),
  );
}
updated m topic_out p shown false changed = record {
  store = refl;
  state = refl;
  effects = sym (append-nil m.effects);
}

-- A message under the prefix and a parameter's topic, that is no command's, is parsed into the
-- parameter. If it could be, the bus is told, and what the parameter now prints as is published,
-- retained, under the prefix and the parameter's topic for output, unless the server is not connected.
-- If it could not, nothing is told or published.
on_message_parameter :
    (c : ℕ → Conversions) (m : MqttServer) (topic topic_out payload : Bytes) (p : ℕ)
    → find topic m.commands ≡ none
    → find topic m.parameters ≡ some (topic_out, p)
    → let (success, changed) = parse (c p) (m.store p) payload in
      let m' = on_message c m (m.topic_prefix ++ topic) payload in
      (m'.store ≡ update m.store p changed)
      × (m'.state ≡ m.state)
      × (m'.effects
          ≡ m.effects
            ++ (if success
                then notified p
                  ∷ (if state_is m connected
                      then published (m.topic_prefix ++ topic_out) 1 true (to_string (c p) changed)
                        ∷ []
                      else [])
                else []))
on_message_parameter c m topic topic_out payload p n e =
    let (success, changed) = parse (c p) (m.store p) payload in
    let outcome =
      on_message-prefix c m topic payload
      ∙ process_message_parameter c m topic topic_out payload p success changed n e refl in
    let u = updated m topic_out p (to_string (c p) changed) success changed in
    rw outcome (u.store, u.state, u.effects)

pub publish_connected :
    (m : MqttServer) (topic payload : Bytes)
    → m.state ≡ connected
    → (publish m topic payload).effects
      ≡ m.effects ++ published (m.topic_prefix ++ topic) 1 true payload ∷ []
unfolding publish emit
publish_connected m topic payload e = rw e

-- A parameter is registered on a connected server, under a topic for input that has no notification
-- of its own. A notification that the program sends by that topic is published under it, though a
-- change that the bus tells of is published under the topic for output.
send_notification_topic :
    (c : ℕ → Conversions) (m : MqttServer) (topic_in topic_out : Bytes) (p : ℕ)
    → m.state ≡ connected
    → find topic_in m.notifications ≡ none
    → let m' = register_parameter m topic_in topic_out p in
      let text = to_string (c p) (m.store p) in
      ((send_notification c m' topic_in).effects
        ≡ m.effects ++ published (m.topic_prefix ++ topic_in) 1 true text ∷ [])
      × ((process_notification c m' false p).effects
          ≡ m.effects ++ published (m.topic_prefix ++ topic_out) 1 true text ∷ [])
unfolding send_notification process_notification
send_notification_topic c m topic_in topic_out p e n =
    let m' = register_parameter m topic_in topic_out p in
    let known = find-put_self topic_in (topic_out, p) m.parameters in
    let told : lookup p m'.parameters_topic ≡ some topic_out =
      ground (arith, lookup-insert p p topic_out m.parameters_topic) in
    (
      rw (e, n, known) (publish_connected m' topic_in (to_string (c p) (m.store p)) e),
      rw (told, process_notification)
          (publish_connected m' topic_out (to_string (c p) (m.store p)) e),
    )
