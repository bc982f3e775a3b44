-- ===== src/Now/Requests/Tests.antt =====
-- Runs of requests.
use mathlib.Core.List.{Permᴰ}
use esp_iot_framework.Now.Interaction.Fragments.{fragment}
use esp_iot_framework.Now.Io.Server.{message_at, on_ping_answer, on_discovery_answer}
use esp_iot_framework.Now.Io.Answers.{comes_to, answer_decides}
use esp_iot_framework.Now.Running.Hearing.{hear, events_of}
use esp_iot_framework.Prelude.{
  map, take, length-replicate, Bytes, ℕ, replicate, ◌≡◌, refl, true, false, none, some, [], ◌∷◌,
  arith, lookup,
}
use esp_iot_framework.Async.World.{World, blank_promise}
use esp_iot_framework.Now.Requests
use esp_iot_framework.Async.Promise.Effects.{Works}
use esp_iot_framework.Async.Promise.Histories.{outcome_at}
use esp_iot_framework.Async.Promise.Deeds.{failed, succeeded}
use esp_iot_framework.Now.Transport
use esp_iot_framework.Now.Interaction.{InteractionPacketHeader, EspNowMessage, resolved, complete}
use esp_iot_framework.Now.Io.Server.{discover_hub}
use esp_iot_framework.Now.Running.{recover_with}
use esp_iot_framework.Now.Running.Search.{begun}
use esp_iot_framework.Now.Requests.{Node, forgets, requests_of, open_request}
use esp_iot_framework.Now.Requests.Reuse.{open_request_forgotten}
use esp_iot_framework.Now.Running.Exchange.{IsSendable, Sends, request_is_answered}
use esp_iot_framework.Now.Interaction.{Interaction, receive_all, on_message}

-- The promise 0 waits under the id 9.
abbrev world : World Node
world = record {
  promises = blank_promise ∷ [];
  counters = [];
  kernel = record { in_isr = false; created = true; sent = true };
  dispatcher = record { initialized = true; dispatched = []; notified = false };
  timer = record { initialized = true; timers = [] };
  timer_starts = true;
  clock = 0;
  state = record {
    initialized = true;
    id = 9;
    transport = Transport.init;
    interaction = record {
      requests = (9, 0) ∷ [];
      messages = [];
      has_callback = false;
      events = [];
    };
    closures = [];
    cells = [];
    drivers = record {
      dispatcher_begins = true;
      inits = true;
      registers_send = true;
      registers_receive = true;
      peer_exists = true;
      adds_peer = true;
      deletes_peer = true;
      sends = true;
      sets_promiscuous = true;
      sets_channel = true;
    };
  };
}

world-Works : Works world
world-Works = record { begun = refl; delivers = refl }

abbrev header : InteractionPacketHeader
header = record { id = 9; is_response = true; index = 0; count = 1; size = 1 }

abbrev response : EspNowMessage
response = record {
  id = 9;
  mac_addr = 77;
  received_count = 1;
  parts_count = 1;
  size = 1;
  bytes = 5 ∷ [];
}

open_request_forgotten_example :
    let (w', new) = open_request world 9 in
    let forgotten = (recover_with (some (forgets 9)) 1 w').0 in
    (outcome_at w' 0 ≡ some failed)
    × (lookup 9 (requests_of w') ≡ some new)
    × (outcome_at forgotten new ≡ none)
    × (complete forgotten.state.interaction header response ≡ forgotten.state.interaction)
unfolding lookup
open_request_forgotten_example =
    open_request_forgotten world 9 0 1 header response world-Works refl (omega arith) refl refl refl

-- A search for a hub, with a second try, over a transport that was begun and requests that were not.
abbrev tuned_world : World Node
tuned_world = record world {
  state = record world.state {
    initialized = false;
    transport = record Transport.init { initialized = true };
  };
}

abbrev started : World Node
started = (discover_hub (λ n. replicate n 0) tuned_world 0).0

-- Two parts, of 245 bytes and of one.
abbrev long_text : Bytes
long_text = replicate 246 5

-- The other device, which has a callback.
abbrev listener : Interaction
listener = record world.state.interaction { has_callback = true }

abbrev no_bytes : ℕ → Bytes
no_bytes n = replicate n 0

question-IsSendable : IsSendable (5 ∷ [])
question-IsSendable = record { some_bytes = omega arith; small = omega arith; deliverable = refl }

long_text-IsSendable : IsSendable long_text
long_text-IsSendable = record { some_bytes = omega arith; small = omega arith; deliverable = refl }

request_is_answered_example :
    let b' = receive_all no_bytes listener 66 (map (fragment 9 false (5 ∷ [])) (0 ∷ [])) in
    (m : EspNowMessage) × Sends 9 false (5 ∷ [])
    × Sends m.id true long_text
    × (b'.events ≡ on_message m ∷ [])
    × (m.mac_addr ≡ 66)
    × (take m.size m.bytes ≡ 5 ∷ [])
    × (let w' = hear no_bytes 77 world (map (fragment m.id true long_text) (1 ∷ 0 ∷ [])) in
        (place : ℕ) × (r : EspNowMessage) × (outcome_at w' 0 ≡ some (succeeded place))
        × (message_at (events_of w') place ≡ some r)
        × (r.mac_addr ≡ 77)
        × (take r.size r.bytes ≡ long_text)
        × (lookup 9 (requests_of w') ≡ none))
unfolding lookup
request_is_answered_example =
    request_is_answered no_bytes listener world 66 77 9 0 (5 ∷ []) long_text (0 ∷ []) (1 ∷ 0 ∷ [])
      (λ n. length-replicate n 0) question-IsSendable long_text-IsSendable
      (Permᴰ.cons refl Permᴰ.nil) (Permᴰ.swap refl refl) refl refl refl refl world-Works
      (omega arith) refl

-- A device that was found, at 77.
abbrev answer : EspNowMessage
answer = record {
  id = 9;
  mac_addr = 77;
  received_count = 1;
  parts_count = 1;
  size = 2;
  bytes = 255 ∷ 0 ∷ [];
}

abbrev answered : World Node
answered = record world {
  promises =
      record { finished = true; success = true; result = 0; on_finished_callbacks = [] } ∷ [];
  state = record world.state {
    interaction = record world.state.interaction { events = resolved 0 answer ∷ [] };
    cells = 5 ∷ [];
  };
}

answer_decides_example :
    (comes_to (on_ping_answer answered 0) ≡ some (succeeded 0))
    × (comes_to (on_discovery_answer answered 0 0) ≡ some (succeeded 0))
    × ((on_discovery_answer answered 0 0).0.state.cells ≡ 77 ∷ [])
unfolding message_at
answer_decides_example =
    answer_decides answered 0 0 answer (255 ∷ 0 ∷ []) (record { begun = refl; delivers = refl })
      refl refl refl (omega arith)
