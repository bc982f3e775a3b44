-- ===== src/Now/Running/Exchange.antt =====
-- A request from one device to another and back: network/base/async_now_interactions.cpp at both ends.
use esp_iot_framework.Prelude.{
  ℕ, ◌≤◌, ◌<◌, ◌≡◌, refl, sym, ap, subst, ◌∙◌, ◌≢◌, Bool, true, false, none, some, List, [], ◌∷◌,
  ◌++◌, map, arith, ltb, leb, ◌&&◌, length, take, Bytes, lookup,
}
use mathlib.Core.List.{Permᴰ}
use esp_iot_framework.Async.World.{World, promise_at}
use esp_iot_framework.Async.Promise.Effects.{Works}
use esp_iot_framework.Async.Promise.Deeds.{succeeded}
use esp_iot_framework.Async.Promise.Histories.{outcome_at}
use esp_iot_framework.Now.Interaction
use esp_iot_framework.Now.Interaction.{
  max_data_length, Interaction, EspNowMessage, on_message, message_key, receive_all,
}
use esp_iot_framework.Now.Interaction.Fragments.{parts, fragment, range_from, send_impl-fragments}
use esp_iot_framework.Now.Interaction.Acceptance.{is_deliverable}
use esp_iot_framework.Now.Interaction.Delivery.{delivered, receive_all_delivers}
use esp_iot_framework.Now.Requests.{Node, requests_of}
use esp_iot_framework.Now.Io.Server.{message_at}
use esp_iot_framework.Now.Running.Hearing.{events_of, hear}
use esp_iot_framework.Now.Running.Responses.{response_resolves_request}

-- A text that is sent, and whose last packet is not dropped.
pub record IsSendable (text : Bytes) : Type 0 where
  pub some_bytes : length text ≢ 0
  pub small : length text ≤ max_data_length
  pub deliverable : is_deliverable text ≡ true

-- An order in which the packets of a text arrive.
abbrev IsArrival : Bytes → List ℕ → Type 0
IsArrival text ks = Permᴰ ks (range_from 0 (parts (length text)))

-- The packets that `_send_impl` sends.
abbrev pub Sends : ℕ → Bool → Bytes → Type 0
Sends id is_response text =
    Interaction.send_impl id is_response text (length text)
    ≡ some (map (fragment id is_response text) (range_from 0 (parts (length text))))

sendable-Sends : (id : ℕ) (r : Bool) (text : Bytes) → IsSendable text → Sends id r text
sendable-Sends id r text v =
    let sent : (ltb 0 (length text) && leb (length text) max_data_length) ≡ true =
      ground (arith, v.some_bytes, v.small) in
    send_impl-fragments id r text ∙ rw sent refl

-- The device `b` has a callback. A device that waits for the response to a request of the id `id`, with
-- a promise that is pending and a dispatcher at work, sends it the question; `b` sends its answer as
-- the response to the message that it got. Neither device holds a part of such a message before. Both
-- texts can be sent, and the packets of either arrive in whatever order. Then `b`'s callback is called
-- with one message, which has the question and the sender's address; the promise has succeeded with one
-- that has the answer and the address of `b`; and the request waits no more.
pub request_is_answered :
    (fresh : ℕ → Bytes) (b : Interaction) (w : World Node) (a_mac b_mac id promise : ℕ)
    (question answer : Bytes) (ks js : List ℕ)
    → ((n : ℕ) → length (fresh n) ≡ n)
    → IsSendable question
    → IsSendable answer
    → IsArrival question ks
    → IsArrival answer js
    → b.has_callback ≡ true
    → lookup (message_key id false a_mac) b.messages ≡ none
    → lookup (message_key id true b_mac) w.state.interaction.messages ≡ none
    → lookup id (requests_of w) ≡ some promise
    → Works w
    → promise < length w.promises
    → (promise_at w promise).finished ≡ false
    → let b' = receive_all fresh b a_mac (map (fragment id false question) ks) in
      (m : EspNowMessage) × Sends id false question
      × Sends m.id true answer
      × (b'.events ≡ b.events ++ on_message m ∷ [])
      × (m.mac_addr ≡ a_mac)
      × (take m.size m.bytes ≡ question)
      × (let w' = hear fresh b_mac w (map (fragment m.id true answer) js) in
          (place : ℕ) × (r : EspNowMessage) × (outcome_at w' promise ≡ some (succeeded place))
          × (message_at (events_of w') place ≡ some r)
          × (r.mac_addr ≡ b_mac)
          × (take r.size r.bytes ≡ answer)
          × (lookup id (requests_of w') ≡ none))
request_is_answered fresh b w a_mac b_mac id promise question answer ks js hf vq va p q listens
      free_b free_w waits h inside pending =
    let (m, same_id, from, size, whole, events, requests, others) =
      receive_all_delivers fresh b a_mac id false question ks hf vq.some_bytes vq.small
        vq.deliverable p free_b in
    let called : delivered b id false m ≡ on_message m ∷ [] = rw listens refl in
    let (place, r, outcome, got, r_id, r_from, r_whole, tells, forgotten) =
      response_resolves_request fresh w b_mac id promise answer js hf va.some_bytes va.small
        va.deliverable q free_w waits h inside pending in
    (
      m,
      sendable-Sends id false question vq,
      sendable-Sends m.id true answer va,
      events ∙ ap (λ es. b.events ++ es) called,
      from,
      whole,
      subst
          (λ i.
            let w' = hear fresh b_mac w (map (fragment i true answer) js) in
            (place : ℕ) × (r : EspNowMessage) × (outcome_at w' promise ≡ some (succeeded place))
            × (message_at (events_of w') place ≡ some r)
            × (r.mac_addr ≡ b_mac)
            × (take r.size r.bytes ≡ answer)
            × (lookup id (requests_of w') ≡ none))
          (sym same_id) (place, r, outcome, got, r_from, r_whole, forgotten),
    )
