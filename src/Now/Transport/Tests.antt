-- ===== src/Now/Transport/Tests.antt =====
-- Runs of the transport.
use esp_iot_framework.Prelude.{ℕ, ◌<◌, ◌≡◌, refl, true, false, none, some, [], ◌∷◌, arith, lookup}
use esp_iot_framework.Async.World.{World, blank_promise}
use esp_iot_framework.Async.Promise.Effects.{Works}
use esp_iot_framework.Async.Promise.Histories.{outcome_at}
use esp_iot_framework.Async.Promise.Deeds.{succeeded, failed}
use esp_iot_framework.Now.Transport.{Answers, AsyncEspNow, init, waiting, send}
use esp_iot_framework.Now.Transport.Confirming.{send_each, sent_events, sent_events-send_each}
use esp_iot_framework.Now.Transport.Outcomes.{outcomes}
use esp_iot_framework.Now.Transport.Refusing.{send_forgets_oldest}

abbrev answers : Answers
answers = record {
  dispatcher_begins = true;
  inits = true;
  registers_send = true;
  registers_receive = true;
  peer_exists = true;
  adds_peer = true;
  deletes_peer = true;
  sends = true;
  sets_promiscuous = true;
  sets_channel = true;
}

abbrev transport : AsyncEspNow
transport = record init { initialized = true }

abbrev world : World ℕ
world = record {
  promises = blank_promise ∷ [];
  counters = [];
  kernel = record { in_isr = false; created = true; sent = true };
  dispatcher = record { initialized = true; dispatched = []; notified = false };
  timer = record { initialized = true; timers = [] };
  timer_starts = true;
  clock = 0;
  state = 0;
}

world-Works : Works world
world-Works = record { begun = refl; delivers = refl }

sent_events-send_each_example :
    let (t', w', ps) = send_each answers transport world 77 ((1 ∷ []) ∷ (2 ∷ []) ∷ []) in
    let (t'', w'') = sent_events t' w' 77 (true ∷ false ∷ []) in
    (t'.sent ≡ (77, 1 ∷ []) ∷ (77, 2 ∷ []) ∷ [])
    × (outcomes w'' ps ≡ some (succeeded 0) ∷ some failed ∷ [])
    × (waiting t'' 77 ≡ [])
unfolding lookup
sent_events-send_each_example =
    sent_events-send_each answers transport world 77 ((1 ∷ []) ∷ (2 ∷ []) ∷ []) (true ∷ false ∷ [])
      world-Works refl refl refl refl refl

abbrev busy : AsyncEspNow
busy = record transport { send_order = (77, 0 ∷ []) ∷ [] }

send_forgets_oldest_example :
    let (t', w', q) = send (record answers { sends = false }) busy world 77 (5 ∷ []) in
    (waiting t' 77 ≡ q ∷ []) × (outcome_at w' q ≡ some failed) × (outcome_at w' 0 ≡ none) × (0 < q)
unfolding lookup
send_forgets_oldest_example =
    send_forgets_oldest (record answers { sends = false }) busy world 77 0 [] (5 ∷ []) world-Works
      refl refl refl refl (omega arith) refl
