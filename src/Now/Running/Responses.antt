-- ===== src/Now/Running/Responses.antt =====
-- What becomes of the promise of a request when its response arrives:
-- network/base/async_now_interactions.cpp on the promises.
use esp_iot_framework.Prelude.{
  ℕ, ◌≤◌, ◌<◌, ◌≡◌, refl, ap, ◌∙◌, ◌≢◌, true, false, none, some, List, [], ◌∷◌, ◌++◌, map, ==_refl,
  length, take, Bytes, lookup, erase, lookup-erase,
}
use mathlib.Core.List.{Permᴰ}
use esp_iot_framework.Async.World.{World, promise_at}
use esp_iot_framework.Async.Promise.Effects.{Works, told}
use esp_iot_framework.Async.Promise.Deeds.{succeeded}
use esp_iot_framework.Async.Promise.Histories.{outcome_at}
use esp_iot_framework.Now.Interaction.{
  max_data_length, Interaction, EspNowMessage, resolved, message_key, pending, receive_all,
}
use esp_iot_framework.Now.Interaction.Fragments.{parts, fragment, range_from}
use esp_iot_framework.Now.Interaction.Acceptance.{is_deliverable}
use esp_iot_framework.Now.Interaction.Delivery.{delivered, receive_all_delivers}
use esp_iot_framework.Now.Requests.{Node, requests_of}
use esp_iot_framework.Now.Io.Server.{message_at}
use esp_iot_framework.Now.Running.Hearing.{events_of, hear, message_at-append, resolves}

-- A request waits for its response, with a promise that exists and is pending, and the dispatcher
-- works. The response, of 1 to 62475 bytes and deliverable, comes from any address, of whose messages
-- with the id no part is held; its packets arrive in whatever order. Then the promise has succeeded with
-- a message of that sender, id and text, each callback that was registered at it is dispatched once,
-- and the request waits no more.
pub response_resolves_request :
    (fresh : ℕ → Bytes) (w : World Node) (sender id promise : ℕ) (text : Bytes) (ks : List ℕ)
    → ((n : ℕ) → length (fresh n) ≡ n)
    → length text ≢ 0
    → length text ≤ max_data_length
    → is_deliverable text ≡ true
    → Permᴰ ks (range_from 0 (parts (length text)))
    → lookup (message_key id true sender) w.state.interaction.messages ≡ none
    → lookup id (requests_of w) ≡ some promise
    → Works w
    → promise < length w.promises
    → (promise_at w promise).finished ≡ false
    → let w' = hear fresh sender w (map (fragment id true text) ks) in
      (place : ℕ) × (m : EspNowMessage) × (outcome_at w' promise ≡ some (succeeded place))
      × (message_at (events_of w') place ≡ some m)
      × (m.id ≡ id)
      × (m.mac_addr ≡ sender)
      × (take m.size m.bytes ≡ text)
      × (told w' promise ≡ told w promise ++ (promise_at w promise).on_finished_callbacks)
      × (lookup id (requests_of w') ≡ none)
response_resolves_request fresh w sender id promise text ks hf ne small d p free waits h inside
      pending =
    let s = w.state.interaction in
    let packets = map (fragment id true text) ks in
    let (m, same_id, from, size, whole, events, requests, others) =
      receive_all_delivers fresh s sender id true text ks hf ne small d p free in
    let added : delivered s id true m ≡ resolved promise m ∷ [] = rw waits refl in
    let ends = events ∙ ap (λ es. s.events ++ es) added in
    let (outcome, tells, out) = resolves fresh sender packets w promise m h inside pending ends in
    let left : (receive_all fresh s sender packets).requests ≡ erase id s.requests =
      requests ∙ (rw waits refl) in
    (
      length s.events,
      m,
      outcome,
      ap (λ (x : Interaction). message_at x.events (length s.events)) out
          ∙ ap (λ es. message_at es (length s.events)) ends
          ∙ message_at-append s.events promise m,
      same_id,
      from,
      whole,
      tells,
      ap (λ (x : Interaction). lookup id x.requests) out
          ∙ ap (λ r. lookup id r) left
          ∙ lookup-erase id id s.requests
          ∙ rw (==_refl id) refl,
    )
