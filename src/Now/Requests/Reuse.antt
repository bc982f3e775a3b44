-- ===== src/Now/Requests/Reuse.antt =====
-- What becomes of a request whose id is used again while it waits for its response.
use esp_iot_framework.Prelude.{
  ℕ, ◌<◌, ◌≡◌, refl, sym, ap, subst, ◌∙◌, true, false, none, some, [], ◌∷◌, ◌++◌, arith, ==_refl,
  length, lookup, insert, erase, lookup-insert, lookup-erase,
}
use esp_iot_framework.Async.World.{blank_promise, World, promise_at}
use esp_iot_framework.Async.Promise.{create, set_error}
use esp_iot_framework.Async.Promise.Settling.{finish-Effect}
use esp_iot_framework.Async.Promise.Effects.{Works, settled_with}
use esp_iot_framework.Async.Promise.Histories.{outcome_at}
use esp_iot_framework.Async.Promise.Deeds.{failed}
use esp_iot_framework.Async.Promise.Aggregates.{get_or-snoc_default}
use esp_iot_framework.Now.Interaction.{
  Interaction, InteractionPacketHeader, EspNowMessage, complete,
}
use esp_iot_framework.Now.Transport.Outcomes.{get_or-past}
use esp_iot_framework.Now.Running.{recover_with}
use esp_iot_framework.Now.Requests.{
  Node, forgets, requests_of, with_requests, cancel_existing, open_request,
}

-- Settling a promise leaves the state of the program alone.
cancel_existing_found :
    (w : World Node) (id old : ℕ)
    → lookup id (requests_of w) ≡ some old
    → cancel_existing w id ≡ set_error (with_requests w (erase id (requests_of w))) old
unfolding cancel_existing
cancel_existing_found w id old e = rw (e, cancel_existing) refl

abbrev opened : World Node → ℕ → World Node
opened c id =
    with_requests (record c { promises = c.promises ++ blank_promise ∷ [] })
      (insert id (length c.promises) (requests_of c))

open_request-opened :
    (w : World Node) (id : ℕ)
    → open_request w id ≡ (opened (cancel_existing w id) id, length (cancel_existing w id).promises)
unfolding open_request create
open_request-opened w id = refl

complete_unexpected :
    (s : Interaction) (h : InteractionPacketHeader) (m : EspNowMessage)
    → h.is_response ≡ true
    → lookup h.id s.requests ≡ none
    → complete s h m ≡ s
unfolding complete
complete_unexpected s h m response absent = rw (response, absent, complete) refl

-- What the new request and the lambda of the old one come to, for an old one that was cancelled in `c`.
abbrev IsForgotten : World Node → ℕ → ℕ → ℕ → ℕ → InteractionPacketHeader → EspNowMessage → Type 0
IsForgotten w' new id old self h m =
    let forgotten = (recover_with (some (forgets id)) self w').0 in
    (outcome_at w' old ≡ some failed)
    × (lookup id (requests_of w') ≡ some new)
    × (outcome_at forgotten new ≡ none)
    × (complete forgotten.state.interaction h m ≡ forgotten.state.interaction)

opened-IsForgotten :
    (c : World Node) (id old self : ℕ) (h : InteractionPacketHeader) (m : EspNowMessage)
    → outcome_at c old ≡ some failed
    → h.is_response ≡ true
    → h.id ≡ id
    → IsForgotten (opened c id) (length c.promises) id old self h m
opened-IsForgotten c id old self h m lost response same_id =
    let new = length c.promises in
    let requests = insert id new (requests_of c) in
    let at : (j : ℕ) → promise_at (opened c id) j ≡ promise_at c j =
      get_or-snoc_default c.promises blank_promise in
    let fresh : promise_at (opened c id) new ≡ blank_promise =
      at new ∙ get_or-past c.promises blank_promise new (omega arith) in
    let absent : lookup h.id (erase id requests) ≡ none =
      rw same_id (lookup-erase id id requests ∙ rw (==_refl id) refl) in
    let s = (recover_with (some (forgets id)) self (opened c id)).0.state.interaction in
    (
      rw (at old) lost,
      lookup-insert id id new (requests_of c) ∙ rw (==_refl id) refl,
      rw fresh refl,
      complete_unexpected s h m response absent,
    )

-- The dispatcher works, and a pending promise `old` is under the id. A request with that id makes `old`
-- fail and puts a promise of its own under it. When the failure comes to the lambda that `old`'s request
-- gave to `on_error`, that takes the id out, and with it the new promise, which is pending: a response
-- with the id that is complete then changes nothing.
pub open_request_forgotten :
    (w : World Node) (id old self : ℕ) (h : InteractionPacketHeader) (m : EspNowMessage)
    → Works w
    → lookup id (requests_of w) ≡ some old
    → old < length w.promises
    → outcome_at w old ≡ none
    → h.is_response ≡ true
    → h.id ≡ id
    → let (w', new) = open_request w id in
      let forgotten = (recover_with (some (forgets id)) self w').0 in
      (outcome_at w' old ≡ some failed)
      × (lookup id (requests_of w') ≡ some new)
      × (outcome_at forgotten new ≡ none)
      × (complete forgotten.state.interaction h m ≡ forgotten.state.interaction)
open_request_forgotten w id old self h m works found inside pending response same_id =
    let erased = with_requests w (erase id (requests_of w)) in
    let c = cancel_existing w id in
    let still : (promise_at erased old).finished ≡ false = ground arith in
    let e =
      finish-Effect false erased old (record { begun = works.begun; delivers = works.delivers })
        inside still in
    let at : promise_at (set_error erased old) old ≡ settled_with false (promise_at erased old) =
      e.at old ∙ rw (==_refl old) refl in
    let lost : outcome_at c old ≡ some failed =
      ap (λ x. outcome_at x old) (cancel_existing_found w id old found) ∙ rw at refl in
    subst (λ r. IsForgotten r.0 r.1 id old self h m) (sym (open_request-opened w id))
      (opened-IsForgotten c id old self h m lost response same_id)
