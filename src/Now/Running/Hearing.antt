-- ===== src/Now/Running/Hearing.antt =====
-- What the packets that arrive at a node do to its promises: `_on_packet_received` of
-- network/base/async_now_interactions.cpp on the promises.
use esp_iot_framework.Prelude.{
  ℕ, ◌≤◌, ◌<◌, ◌≡◌, refl, sym, ap, ap₂, get_or, ◌⊎◌, subst, ◌∙◌, true, false, some, List, [], ◌∷◌,
  ◌++◌, arith, ==_refl, by_if, not, ltb, ◌==◌, inl, inr, length, drop, Bytes, append-nil,
  append_assoc, length-append, drop-append,
}
use esp_iot_framework.Async.World.{World, promise_at}
use esp_iot_framework.Async.Promise.{set_success}
use esp_iot_framework.Async.Promise.Effects.{Works, told}
use esp_iot_framework.Async.Promise.Settling.{set_success-Effect}
use esp_iot_framework.Async.Promise.Deeds.{succeeded}
use esp_iot_framework.Async.Promise.Histories.{outcome_at}
use esp_iot_framework.Async.Untouched.{set_success-state}
use esp_iot_framework.Now.Interaction.{
  Interaction, InteractionPacketHeader, EspNowMessage, Event, resolved, on_message, complete,
  accept_part, add_part, pending, read_interaction_header, interaction_header_length, is_ill_formed,
  on_packet_received, receive_all,
}
use esp_iot_framework.Now.Interaction.Acceptance.{receive_all-nil, receive_all-cons}
use esp_iot_framework.Now.Interaction.Delivery.{delivered, complete-delivered}
use esp_iot_framework.Now.Requests.{Node, with_state, resolve_new, receive}
use esp_iot_framework.Now.Io.Server.{message_at}

abbrev pub events_of : World Node → List Event
events_of w = w.state.interaction.events

-- A node whose interactions went on, and nothing else.
abbrev heard : World Node → Interaction → World Node
heard w s = with_state w (record w.state { interaction = s })

-- What a packet adds to the events: one, if it completes a message that is waited for.
abbrev Adds : Interaction → Interaction → Type 0
Adds s s' = (new : List Event) × (s'.events ≡ s.events ++ new) × (length new ≤ 1)

complete-Adds :
    (s : Interaction) (h : InteractionPacketHeader) (m : EspNowMessage) → Adds s (complete s h m)
complete-Adds s h m = (delivered s h.id h.is_response m, (complete-delivered s h m).0, ground arith)

Adds-same : (s : Interaction) → Adds s s
Adds-same s = ([], sym (append-nil s.events), omega arith)

no_items : (es : List Event) → length es ≡ 0 → es ≡ []
no_items [] h = refl
no_items (e ∷ es) h = absurd (omega (arith, h))

ends_there : (xs ys : List Event) → xs ++ ys ≡ [] → (xs ≡ []) × (ys ≡ [])
ends_there [] ys h = (refl, h)
ends_there (x ∷ xs) ys h = absurd (omega (arith, ap length h))

-- Of two lists that make up one item, one holds it.
one_item :
    (xs ys : List Event) (r : Event)
    → xs ++ ys ≡ r ∷ []
    → ((xs ≡ []) × (ys ≡ r ∷ [])) ⊎ ((xs ≡ r ∷ []) × (ys ≡ []))
one_item [] ys r h = inl (refl, h)
one_item (x ∷ xs) ys r h =
    let (none_left, none_follow) = ends_there xs ys (ap (drop 1) h) in
    inr (ap₂ (λ y zs. y ∷ zs) (ap (λ es. get_or es 0 r) h) none_left, none_follow)

pub message_at-append :
    (es : List Event) (p : ℕ) (m : EspNowMessage)
    → message_at (es ++ resolved p m ∷ []) (length es) ≡ some m
unfolding message_at
message_at-append [] p m = refl
message_at-append (resolved q n ∷ es) p m = message_at-append es p m
message_at-append (on_message n ∷ es) p m = message_at-append es p m

module _ (fresh : ℕ → Bytes) (mac : ℕ) where
  -- Packets arrive, one after the other.
  pub hear : World Node → List Bytes → World Node
  hear w [] = w
  hear w (p ∷ ps) = hear (receive fresh w mac (length p) p) ps

  abbrev received_after : Interaction → Bytes → Interaction
  received_after s p = on_packet_received fresh s mac (length p) p

  packet-Adds : (s : Interaction) (p : Bytes) → Adds s (received_after s p)
  unfolding on_packet_received accept_part
  packet-Adds s p =
      let h = read_interaction_header p in
      let m = add_part (pending fresh s h mac) h p in
      let taken : Adds s (accept_part fresh s mac h p) =
        by_if (Adds s) (not (m.received_count == m.parts_count)) _ _ (Adds-same s)
          (complete-Adds s h m) in
      by_if (Adds s) (ltb (length p) interaction_header_length) _ _ (Adds-same s)
        (by_if (Adds s) (is_ill_formed h) _ _ (Adds-same s) taken)

  all_Add :
      (ps : List Bytes) (s : Interaction)
      → (new : List Event) × ((receive_all fresh s mac ps).events ≡ s.events ++ new)
  all_Add [] s = ([], rw (receive_all-nil fresh mac s) (sym (append-nil s.events)))
  all_Add (p ∷ ps) s =
      let (new, e, few) = packet-Adds s p in
      let (more, e') = all_Add ps (received_after s p) in
      (
        new ++ more,
        rw (receive_all-cons fresh mac s p ps)
            (e' ∙ ap (λ es. es ++ more) e ∙ append_assoc s.events new more),
      )

  receive-new :
      (w : World Node) (p : Bytes) (new : List Event)
      → (received_after w.state.interaction p).events ≡ events_of w ++ new
      → receive fresh w mac (length p) p
        ≡ resolve_new new (length (events_of w)) (heard w (received_after w.state.interaction p))
  unfolding receive
  receive-new w p new e =
      ap
        (λ es.
          resolve_new es (length (events_of w)) (heard w (received_after w.state.interaction p)))
        (ap (drop (length (events_of w))) e ∙ drop-append (events_of w) new)

  -- Packets that add no event leave all else alone.
  silent :
      (ps : List Bytes) (w : World Node)
      → (receive_all fresh w.state.interaction mac ps).events ≡ events_of w
      → hear w ps ≡ heard w (receive_all fresh w.state.interaction mac ps)
  unfolding hear resolve_new
  silent [] w h = rw (receive_all-nil fresh mac w.state.interaction) refl
  silent (p ∷ ps) w h =
      let s = w.state.interaction in
      let s' = received_after s p in
      let (new, e, few) = packet-Adds s p in
      let (more, e') = all_Add ps s' in
      let same = ap (λ (x : Interaction). x.events) (receive_all-cons fresh mac s p ps) in
      let nothing : new ≡ [] = no_items new (
        omega (
          arith,
          ap length e,
          length-append s.events new,
          ap length e',
          length-append s'.events more,
          ap length same,
          ap length h,
        )) in
      let quiet : s'.events ≡ s.events =
        e ∙ ap (λ es. s.events ++ es) nothing ∙ append-nil s.events in
      let step : receive fresh w mac (length p) p ≡ heard w s' =
        receive-new w p new e ∙ ap (λ es. resolve_new es (length s.events) (heard w s')) nothing in
      ap (λ x. hear x ps) step
      ∙ silent ps (heard w s') (sym same ∙ h ∙ sym quiet)
      ∙ ap (heard w) (sym (receive_all-cons fresh mac s p ps))

  -- What the node comes to when one promise is resolved.
  abbrev Resolves : World Node → World Node → ℕ → Interaction → Type 0
  Resolves w w' promise out =
      (outcome_at w' promise ≡ some (succeeded (length (events_of w))))
      × (told w' promise ≡ told w promise ++ (promise_at w promise).on_finished_callbacks)
      × (w'.state.interaction ≡ out)

  resolve_one :
      (ps : List Bytes) (w : World Node) (s' : Interaction) (promise place : ℕ) (m : EspNowMessage)
      → Works w
      → promise < length w.promises
      → (promise_at w promise).finished ≡ false
      → length (events_of w) ≡ place
      → (receive_all fresh s' mac ps).events ≡ s'.events
      → Resolves w
          (hear (resolve_new (resolved promise m ∷ []) place (heard w s')) ps)
          promise
          (receive_all fresh s' mac ps)
  unfolding resolve_new
  resolve_one ps w s' promise place m h inside pending here quiet =
      let start = heard w s' in
      let w' = set_success start promise place in
      let e =
        set_success-Effect start promise place (record { begun = h.begun; delivers = h.delivers })
          inside pending in
      let same : w'.state.interaction ≡ s' =
        ap (λ (n : Node). n.interaction) (set_success-state start promise place) in
      let ends : hear w' ps ≡ heard w' (receive_all fresh w'.state.interaction mac ps) =
        silent ps w' (rw same quiet) in
      let at : promise_at w' promise
          ≡ record { finished = true; success = true; result = place; on_finished_callbacks = [] } =
        e.at promise ∙ rw (==_refl promise) refl in
      subst (λ x. Resolves w x promise (receive_all fresh s' mac ps)) (sym ends)
        (
          rw (at, here) refl,
          e.tells promise ∙ rw (==_refl promise) refl,
          ap (λ s. receive_all fresh s mac ps) same,
        )

  -- Some packets complete one response, whose promise is pending.
  pub resolves :
      (ps : List Bytes) (w : World Node) (promise : ℕ) (m : EspNowMessage)
      → Works w
      → promise < length w.promises
      → (promise_at w promise).finished ≡ false
      → (receive_all fresh w.state.interaction mac ps).events
        ≡ events_of w ++ resolved promise m ∷ []
      → Resolves w (hear w ps) promise (receive_all fresh w.state.interaction mac ps)
  unfolding hear resolve_new
  resolves [] w promise m h inside pending ends =
      let nothing =
        ap (λ (x : Interaction). x.events) (receive_all-nil fresh mac w.state.interaction) in
      absurd (
        omega (
          arith,
          ap length (sym nothing ∙ ends),
          length-append (events_of w) (resolved promise m ∷ []),
        ))
  resolves (p ∷ ps) w promise m h inside pending ends =
      let s = w.state.interaction in
      let s' = received_after s p in
      let (new, e, few) = packet-Adds s p in
      let (more, e') = all_Add ps s' in
      let cons = receive_all-cons fresh mac s p ps in
      let same = ap (λ (x : Interaction). x.events) cons in
      let split : new ++ more ≡ resolved promise m ∷ [] =
        sym (drop-append s.events (new ++ more))
        ∙ ap (drop (length s.events))
            (sym (e' ∙ ap (λ es. es ++ more) e ∙ append_assoc s.events new more) ∙ sym same ∙ ends)
        ∙ drop-append s.events (resolved promise m ∷ []) in
      elim (one_item new more (resolved promise m) split) [
        | inl (nothing, follows) ↦
            let quiet : s'.events ≡ s.events =
              e ∙ ap (λ es. s.events ++ es) nothing ∙ append-nil s.events in
            let step : receive fresh w mac (length p) p ≡ heard w s' =
              receive-new w p new e
              ∙ ap (λ es. resolve_new es (length s.events) (heard w s')) nothing in
            let rest =
              resolves ps (heard w s') promise m (record { begun = h.begun; delivers = h.delivers })
                inside pending (e' ∙ ap (λ es. s'.events ++ es) follows) in
            subst (λ x. Resolves w (hear x ps) promise (receive_all fresh s mac (p ∷ ps)))
              (sym step)
              (rest.0 ∙ ap (λ es. some (succeeded (length es))) quiet, rest.1, rest.2 ∙ sym cons)
        | inr (found, ended) ↦
            let step =
              receive-new w p new e
              ∙ ap (λ es. resolve_new es (length s.events) (heard w s')) found in
            let got =
              resolve_one ps w s' promise (length s.events) m h inside pending refl
                (e' ∙ ap (λ es. s'.events ++ es) ended ∙ append-nil s'.events) in
            subst (λ x. Resolves w (hear x ps) promise (receive_all fresh s mac (p ∷ ps)))
              (sym step) (got.0, got.1, got.2 ∙ sym cons)
      ]
