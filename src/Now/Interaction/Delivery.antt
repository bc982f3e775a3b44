-- ===== src/Now/Interaction/Delivery.antt =====
-- A message arrives whole, in whatever order its packets do.
use esp_iot_framework.Prelude.{
  ℕ, suc, ◌+◌, ◌≤◌, ◌<◌, ◌≡◌, refl, sym, ap, ◌∙◌, ◌≢◌, Bool, true, false, not, ◌||◌, none, some,
  List, [], ◌∷◌, ◌++◌, map, arith, ltb, ◌==◌, if◌then◌else◌, ltb→lt, lt→ltb, ==_refl, length, take,
  Bytes, append-nil, Map, lookup, insert, erase, lookup-insert, lookup-erase,
}
use mathlib.Core.List.{Permᴰ}
use esp_iot_framework.Now.Interaction.{
  max_data_length, InteractionPacketHeader, EspNowMessage, Interaction, Event, resolved, on_message,
  message_key, new_message, add_part, complete, pending, accept_part, on_packet_received,
  receive_all,
}
use esp_iot_framework.Now.Interaction.Fragments.{parts, fragment_header, fragment, range_from}
use esp_iot_framework.Now.Interaction.Reassembly.{
  elem, total_size, Holds, new_message-Holds, add_part-Holds, Holds-text, elem-Permᴰ,
  total_size-Permᴰ, length-Permᴰ, elem-range_from, length-range_from, total_size-range_from,
}
use esp_iot_framework.Now.Interaction.Acceptance.{
  is_deliverable, read-fragment, well_formed, receive_all-nil, receive_all-cons, accepted,
}

abbrev rev_onto : List ℕ → List ℕ → List ℕ
rev_onto [] ys = ys
rev_onto (x ∷ xs) ys = rev_onto xs (x ∷ ys)

module _ (fresh : ℕ → Bytes) (sender id : ℕ) (is_response : Bool) (text : Bytes)
    (s : Interaction) where
  abbrev key : ℕ
  key = message_key id is_response sender

  abbrev head : ℕ → InteractionPacketHeader
  head k = fragment_header id is_response text k

  abbrev packet : ℕ → Bytes
  packet k = fragment id is_response text k

  abbrev with_messages : Map EspNowMessage → Interaction
  with_messages x = record s { messages = x }

  complete-with_messages :
      (x : Map EspNowMessage) (k : ℕ) (m : EspNowMessage)
      → complete (with_messages x) (head k) m ≡ record (complete s (head 0) m) { messages = x }
  unfolding complete
  complete-with_messages x k m = ground arith

  -- The receiver after the parts `ks` arrived: it has done with the message what is done with a
  -- complete one, it has forgotten its parts, and what it holds of other messages is what it held.
  record Received (ks : List ℕ) (out : Interaction) : Type 0 where
    pub message : EspNowMessage
    pub holds : Holds id sender is_response text message ks
    pub events : out.events ≡ (complete s (head 0) message).events
    pub requests : out.requests ≡ (complete s (head 0) message).requests
    pub others : (j : ℕ) → lookup j out.messages ≡ (if key == j then none else lookup j s.messages)

  step :
      (x : Map EspNowMessage) (k : ℕ)
      → is_deliverable text ≡ true
      → k < parts (length text)
      → on_packet_received fresh (with_messages x) sender (length (packet k)) (packet k)
        ≡ accept_part fresh (with_messages x) sender (head k) (packet k)
  step x k d h =
      accepted fresh sender (with_messages x) (length (packet k)) (packet k) (head k)
        (read-fragment id is_response text k) (ground arith) (well_formed id is_response text k d h)

  more_to_come :
      (x : Map EspNowMessage) (k : ℕ) (m : EspNowMessage)
      → pending fresh (with_messages x) (head k) sender ≡ m
      → ((add_part m (head k) (packet k)).received_count
          == (add_part m (head k) (packet k)).parts_count)
        ≡ false
      → accept_part fresh (with_messages x) sender (head k) (packet k)
        ≡ with_messages (insert key (add_part m (head k) (packet k)) x)
  unfolding accept_part
  more_to_come x k m e n =
      let outcome : EspNowMessage → Interaction = λ q.
        let m' = add_part q (head k) (packet k) in
        let s' = complete (with_messages x) (head k) m' in
        if not (m'.received_count == m'.parts_count)
        then with_messages (insert key m' x)
        else record s' { messages = erase key s'.messages } in
      ap outcome e ∙ rw n

  all_here :
      (x : Map EspNowMessage) (k : ℕ) (m : EspNowMessage)
      → pending fresh (with_messages x) (head k) sender ≡ m
      → ((add_part m (head k) (packet k)).received_count
          == (add_part m (head k) (packet k)).parts_count)
        ≡ true
      → accept_part fresh (with_messages x) sender (head k) (packet k)
        ≡ record (complete s (head 0) (add_part m (head k) (packet k))) { messages = erase key x }
  unfolding accept_part
  all_here x k m e n =
      let outcome : EspNowMessage → Interaction = λ q.
        let m' = add_part q (head k) (packet k) in
        let s' = complete (with_messages x) (head k) m' in
        if not (m'.received_count == m'.parts_count)
        then with_messages (insert key m' x)
        else record s' { messages = erase key s'.messages } in
      let forget : Interaction → Interaction = λ q. record q { messages = erase key q.messages } in
      ap outcome e ∙ rw n (ap forget (complete-with_messages x k (add_part m (head k) (packet k))))

  pending-insert :
      (x : Map EspNowMessage) (k : ℕ) (m : EspNowMessage)
      → pending fresh (with_messages (insert key m x)) (head k) sender ≡ m
  pending-insert x k m =
      let found : lookup key (insert key m x) ≡ some m =
        rw (lookup-insert key key m x, ==_refl key) in
      rw (found, pending)

  module _ (deliverable : is_deliverable text ≡ true) (small : length text ≤ 62475) where
    -- The parts `k ∷ todo` arrive at a receiver that holds the parts `done`.
    receive_rest :
        (todo : List ℕ) (k : ℕ) (done : List ℕ) (x : Map EspNowMessage) (m : EspNowMessage)
        → k < parts (length text)
        → ((i : ℕ) → elem i todo ≡ true → i < parts (length text))
        → length done + suc (length todo) ≡ parts (length text)
        → pending fresh (with_messages x) (head k) sender ≡ m
        → Holds id sender is_response text m done
        → ((j : ℕ) → (key == j) ≡ false → lookup j x ≡ lookup j s.messages)
        → Received
            (rev_onto todo (k ∷ done))
            (receive_all fresh (with_messages x) sender (map packet (k ∷ todo)))
    receive_rest [] k done x m h below n e v others =
        let m' = add_part m (head k) (packet k) in
        let v' = add_part-Holds id sender is_response text m done k h v in
        let last : (m'.received_count == m'.parts_count) ≡ true =
          ground (arith, v'.received, v'.count) in
        rw
          (
            receive_all-cons fresh sender,
            step x k deliverable h,
            all_here x k m e last,
            receive_all-nil fresh sender,
          )
          (record {
            message = m';
            holds = v';
            events = refl;
            requests = refl;
            others = λ j. ground (arith, lookup-erase j key x, others j);
          })
    receive_rest (k' ∷ todo) k done x m h below n e v others =
        let m' = add_part m (head k) (packet k) in
        let v' = add_part-Holds id sender is_response text m done k h v in
        let open_ : (m'.received_count == m'.parts_count) ≡ false =
          ground (arith, v'.received, v'.count) in
        rw (receive_all-cons fresh sender, step x k deliverable h, more_to_come x k m e open_)
          (receive_rest todo k' (k ∷ done) (insert key m' x) m' (below k' (rw ==_refl refl))
            (λ i hi. below i (ground (arith, hi))) (omega arith) (pending-insert x k' m') v'
            (λ j hj. ground (arith, lookup-insert j key m' x, others j)))

-- What becomes of a complete message: a response goes to the request that waits for its id, if there
-- is one, and any other message to the callback, if it is set.
abbrev pub delivered : Interaction → ℕ → Bool → EspNowMessage → List Event
delivered s id is_response m =
    if is_response
    then elim (lookup id s.requests) [ some promise ↦ resolved promise m ∷ [] | none ↦ [] ]
    else if s.has_callback
    then on_message m ∷ []
    else []

abbrev requests_left : Interaction → ℕ → Bool → Map ℕ
requests_left s id is_response =
    if is_response
    then elim (lookup id s.requests) [ some promise ↦ erase id s.requests | none ↦ s.requests ]
    else s.requests

pub complete-delivered :
    (s : Interaction) (h : InteractionPacketHeader) (m : EspNowMessage)
    → ((complete s h m).events ≡ s.events ++ delivered s h.id h.is_response m)
      × ((complete s h m).requests ≡ requests_left s h.id h.is_response)
unfolding complete
complete-delivered s h m = (ground (arith, append-nil s.events), ground arith)

rev_onto_facts :
    (text : Bytes) (xs ys : List ℕ)
    → (total_size text (rev_onto xs ys) ≡ total_size text xs + total_size text ys)
      × ((k : ℕ) → elem k (rev_onto xs ys) ≡ (elem k xs || elem k ys))
rev_onto_facts text [] ys = (omega arith, λ k. refl)
rev_onto_facts text (x ∷ xs) ys =
    let (sizes, elems) = rev_onto_facts text xs (x ∷ ys) in
    (omega (arith, sizes), λ k. ground (arith, elems k))

-- A message of 1 to 62475 bytes that is deliverable arrives whole in whatever order its packets
-- arrive, at a receiver that holds no part of it: one message with the sender's address, the
-- message's id, its size and its text is handed on, a response to the request that waits for its id
-- and any other message to the callback; the request waits no more; no part of the message is kept,
-- and what is held of other messages stays.
pub receive_all_delivers :
    (fresh : ℕ → Bytes) (s : Interaction) (sender id : ℕ) (is_response : Bool) (text : Bytes)
    (ks : List ℕ)
    → ((n : ℕ) → length (fresh n) ≡ n)
    → length text ≢ 0
    → length text ≤ max_data_length
    → is_deliverable text ≡ true
    → Permᴰ ks (range_from 0 (parts (length text)))
    → lookup (message_key id is_response sender) s.messages ≡ none
    → let out = receive_all fresh s sender (map (fragment id is_response text) ks) in
      (m : EspNowMessage) × (m.id ≡ id)
      × (m.mac_addr ≡ sender)
      × (m.size ≡ length text)
      × (take m.size m.bytes ≡ text)
      × (out.events ≡ s.events ++ delivered s id is_response m)
      × (out.requests ≡ requests_left s id is_response)
      × ((j : ℕ)
          → lookup j out.messages
            ≡ (if message_key id is_response sender == j then none else lookup j s.messages))
receive_all_delivers fresh s sender id r text [] hf ne small d p none_held =
    absurd (omega (arith, length-Permᴰ p, length-range_from 0 (parts (length text))))
receive_all_delivers fresh s sender id r text (k ∷ todo) hf ne small d p none_held =
    let n = parts (length text) in
    let within : (i : ℕ) → elem i (k ∷ todo) ≡ ltb i n =
      λ i. elem-Permᴰ i p ∙ elem-range_from 0 n i ∙ ground arith in
    let below : (i : ℕ) → elem i (k ∷ todo) ≡ true → i < n =
      λ i h. ltb→lt i n (sym (within i) ∙ h) in
    let first : k < n = below k (rw ==_refl refl) in
    let count = length-Permᴰ p ∙ length-range_from 0 n in
    let start = new_message fresh (fragment_header id r text k) sender in
    let got =
      receive_rest fresh sender id r text s d small todo k [] s.messages start first
        (λ i h. below i (ground (arith, h))) (omega (arith, count)) (rw (none_held, pending))
        (new_message-Holds id sender r text fresh hf k first) (λ j e. refl) in
    let (sizes, elems) = rev_onto_facts text todo (k ∷ []) in
    let whole =
      Holds-text id sender r text got.message (rev_onto todo (k ∷ [])) got.holds (omega arith)
        (λ i h. ground (arith, elems i, within i, lt→ltb i n h))
        (omega
          (arith, sizes, total_size-Permᴰ text p, total_size-range_from text 0 n (omega arith))) in
    let ends = complete-delivered s (fragment_header id r text 0) got.message in
    (
      got.message,
      got.holds.id,
      got.holds.mac,
      whole.0,
      whole.1,
      got.events ∙ ends.0,
      got.requests ∙ ends.1,
      got.others,
    )
