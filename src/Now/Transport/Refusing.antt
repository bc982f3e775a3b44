-- ===== src/Now/Transport/Refusing.antt =====
-- What a packet that the ESP-NOW driver refuses does, and a channel that it does not set.
use esp_iot_framework.Prelude.{
  if◌then◌else◌, ℕ, suc, ◌<◌, ◌≡◌, refl, sym, ap, subst, ◌∙◌, true, false, none, some, List, [],
  ◌∷◌, ◌++◌, arith, ◌==◌, ==_refl, length, drop, length-append, Bytes, insert,
}
use esp_iot_framework.Async.World.{blank_promise, World, promise_at}
use esp_iot_framework.Async.Promise.{create, set_error}
use esp_iot_framework.Async.Promise.Settling.{finish-Effect}
use esp_iot_framework.Async.Promise.Effects.{Works, settled_with}
use esp_iot_framework.Async.Promise.Histories.{outcome_at}
use esp_iot_framework.Async.Promise.Deeds.{failed}
use esp_iot_framework.Async.Promise.Aggregates.{get_or-snoc_default}
use esp_iot_framework.Now.Transport.{Answers, AsyncEspNow, waiting, send, change_channel}
use esp_iot_framework.Now.Transport.Outcomes.{waiting-insert, get_or-past}

module _ {S : Type 0} where
  created : World S → World S
  created w = record w { promises = w.promises ++ blank_promise ∷ [] }

  send_refused :
      (a : Answers) (t : AsyncEspNow) (w : World S) (mac : ℕ) (b : Bytes)
      → t.initialized ≡ true
      → a.peer_exists ≡ true
      → a.sends ≡ false
      → send a t w mac b ≡ (
        record t {
          send_order = insert mac (drop 1 (waiting t mac ++ length w.promises ∷ [])) t.send_order;
        },
        set_error (created w) (length w.promises),
        length w.promises,
      )
  unfolding send create created
  send_refused a t w mac b ready known refused = ground arith

  -- The transport has begun and knows the peer, for which the promise `p` waits, pending and first of
  -- all, and `ps` behind it. If the driver refuses a packet, its promise has failed but waits now, last of
  -- all, while `p` waits no more and is still pending: the event for its packet will settle another.
  pub send_forgets_oldest :
      (a : Answers) (t : AsyncEspNow) (w : World S) (mac p : ℕ) (ps : List ℕ) (b : Bytes)
      → Works w
      → t.initialized ≡ true
      → a.peer_exists ≡ true
      → a.sends ≡ false
      → waiting t mac ≡ p ∷ ps
      → p < length w.promises
      → outcome_at w p ≡ none
      → let (t', w', q) = send a t w mac b in
        (waiting t' mac ≡ ps ++ q ∷ [])
        × (outcome_at w' q ≡ some failed)
        × (outcome_at w' p ≡ none)
        × (p < q)
  unfolding created
  send_forgets_oldest a t w mac p ps b h ready known refused front inside pending =
      let q = length w.promises in
      let w' = created w in
      let longer : length w'.promises ≡ suc q =
        length-append w.promises (blank_promise ∷ []) ∙ omega arith in
      let fresh : promise_at w' q ≡ blank_promise =
        get_or-snoc_default w.promises blank_promise q
        ∙ get_or-past w.promises blank_promise q (omega arith) in
      let e =
        finish-Effect false w' q (record { begun = h.begun; delivers = h.delivers })
          (rw longer (omega arith)) (ap (λ r. r.finished) fresh) in
      let other : (q == p) ≡ false = ground arith in
      let at_q : promise_at (set_error w' q) q ≡ settled_with false (promise_at w' q) =
        e.at q ∙ rw (==_refl q) refl in
      let at_p : promise_at (set_error w' q) p ≡ promise_at w p =
        e.at p ∙ rw other (get_or-snoc_default w.promises blank_promise p) in
      subst
        (λ r.
          (waiting r.0 mac ≡ ps ++ r.2 ∷ [])
          × (outcome_at r.1 r.2 ≡ some failed)
          × (outcome_at r.1 p ≡ none)
          × (p < r.2))
        (sym (send_refused a t w mac b ready known refused))
        (
          waiting-insert t mac (drop 1 (waiting t mac ++ q ∷ [])) ∙ rw front refl,
          rw at_q refl,
          rw at_p pending,
          inside,
        )

-- Whenever the radio becomes promiscuous, the driver is asked for the channel and `change_channel` reports
-- success, but the channel is that which was asked for only if the driver also set it.
change_channel_lem :
    (a : Answers) (t : AsyncEspNow) (channel : ℕ)
    → t.initialized ≡ true
    → a.sets_promiscuous ≡ true
    → let (t', success) = change_channel a t channel in
      (success ≡ true)
      × (t'.channels ≡ t.channels ++ channel ∷ [])
      × (t'.radio_channel ≡ (if a.sets_channel then channel else t.radio_channel))
unfolding change_channel
change_channel_lem a t channel ready promiscuous = (
  rw (ready, promiscuous, change_channel) refl,
  rw (ready, promiscuous, change_channel) refl,
  rw (ready, promiscuous, change_channel) refl,
)
