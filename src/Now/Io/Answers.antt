-- ===== src/Now/Io/Answers.antt =====
-- The lambdas of `ping` and `discovery` of network/server/now_io.cpp: which answer is one.
use esp_iot_framework.Prelude.{
  ℕ, suc, ◌+◌, ◌-◌, ◌%◌, ◌<◌, ◌≡◌, refl, sym, ap, ◌∙◌, Bool, false, ◌&&◌, Option, some, [], ◌∷◌,
  arith, if◌then◌else◌, ◌==◌, ==_refl, Bool-cases, inl, inr, length, get_or, set, take, Bytes,
  u16_mod, get_or-take, length-append,
}
use esp_iot_framework.Async.World.{World, promise_at, blank_promise}
use esp_iot_framework.Async.Promise.{create, successful, errored}
use esp_iot_framework.Async.Promise.Effects.{Works}
use esp_iot_framework.Async.Promise.Settling.{finish-Effect, set_success-Effect}
use esp_iot_framework.Async.Promise.Aggregates.{get_or-snoc}
use esp_iot_framework.Async.Promise.Deeds.{Outcome, succeeded, failed}
use esp_iot_framework.Async.Promise.Histories.{outcome_at}
use esp_iot_framework.Async.Untouched.{errored-state, successful-state}
use esp_iot_framework.Now.Interaction.{EspNowMessage}
use esp_iot_framework.Now.Requests.{Node}
use esp_iot_framework.Now.Io.{packet_header_size, parse, is_valid_answer}
use esp_iot_framework.Now.Io.Server.{message_at, response_of, on_ping_answer, on_discovery_answer}

-- The two bytes of a system response without items.
abbrev is_answer : Bytes → Bool
is_answer (a ∷ b ∷ []) = (a == 0xff) && (b == 0)
is_answer text = false

valid_lem :
    (m : EspNowMessage) (text : Bytes)
    → m.size ≡ length text
    → take m.size m.bytes ≡ text
    → length text < u16_mod
    → is_valid_answer (parse m) ≡ is_answer text
unfolding parse
valid_lem m [] size e small = rw size (ground arith)
valid_lem m (a ∷ []) size e small = rw size (ground arith)
valid_lem m (a ∷ b ∷ []) size e small =
    let type : get_or m.bytes 0 0 ≡ a =
      sym (get_or-take m.size m.bytes 0 (omega arith)) ∙ ap (λ xs. get_or xs 0 0) e in
    let count : get_or m.bytes 1 0 ≡ b =
      sym (get_or-take m.size m.bytes 1 (omega arith)) ∙ ap (λ xs. get_or xs 1 0) e in
    rw (size, type, count) (ground arith)
valid_lem m (a ∷ b ∷ c ∷ text) size e small =
    let longer : ((m.size + u16_mod - packet_header_size) % u16_mod == 0) ≡ false =
      ground (arith, size) in
    ground (arith, longer)

module _ {S : Type 0} where
  created-length : (w : World S) → length (create w).0.promises ≡ suc (length w.promises)
  unfolding create
  created-length w = length-append w.promises (blank_promise ∷ []) ∙ omega arith

  successful-outcome :
      (w : World S) (v : ℕ)
      → Works w
      → outcome_at (successful w v).0 (successful w v).1 ≡ some (succeeded v)
  unfolding successful create
  successful-outcome w v h =
      let w' = (create w).0 in
      let p = length w.promises in
      let fresh : promise_at w' p ≡ blank_promise =
        get_or-snoc w.promises blank_promise blank_promise in
      let e =
        set_success-Effect w' p v (record { begun = h.begun; delivers = h.delivers })
          (omega (arith, created-length w)) (ap (λ q. q.finished) fresh) in
      rw (e.at p) (rw (==_refl p) refl)

  errored-outcome : (w : World S) → Works w → outcome_at (errored w).0 (errored w).1 ≡ some failed
  unfolding errored create
  errored-outcome w h =
      let w' = (create w).0 in
      let p = length w.promises in
      let fresh : promise_at w' p ≡ blank_promise =
        get_or-snoc w.promises blank_promise blank_promise in
      let e =
        finish-Effect false w' p (record { begun = h.begun; delivers = h.delivers })
          (omega (arith, created-length w)) (ap (λ q. q.finished) fresh) in
      rw (e.at p) (rw (==_refl p) refl)

-- What a future comes to.
abbrev pub comes_to : World Node × ℕ → Option Outcome
comes_to result = outcome_at result.0 result.1

-- The value of the future that the lambda is given is the place of a received message with the text.
-- `ping` succeeds exactly if the text is that of a system response without items, and fails otherwise;
-- so does `discovery`, which stores the sender's address in the first case, and changes no cell in the
-- other.
pub answer_decides :
    (w : World Node) (self out : ℕ) (m : EspNowMessage) (text : Bytes)
    → Works w
    → message_at w.state.interaction.events (promise_at w self).result ≡ some m
    → m.size ≡ length text
    → take m.size m.bytes ≡ text
    → length text < u16_mod
    → let decided = if is_answer text then some (succeeded 0) else some failed in
      (comes_to (on_ping_answer w self) ≡ decided)
      × (comes_to (on_discovery_answer w self out) ≡ decided)
      × ((on_discovery_answer w self out).0.state.cells
          ≡ (if is_answer text then set w.state.cells out m.mac_addr else w.state.cells))
unfolding on_ping_answer on_discovery_answer response_of parse
answer_decides w self out m text h received size e small =
    let v = valid_lem m text size e small in
    elim (Bool-cases (is_answer text)) [
      | inl good ↦
          let valid = v ∙ good in
          rw (received, valid, good, on_ping_answer, on_discovery_answer, response_of)
            (
              successful-outcome w 0 h,
              successful-outcome _ 0 (record { begun = h.begun; delivers = h.delivers }),
              ap (λ (n : Node). n.cells) (successful-state _ 0),
            )
      | inr bad ↦
          let valid = v ∙ bad in
          rw (received, valid, bad, on_ping_answer, on_discovery_answer, response_of)
            (errored-outcome w h, errored-outcome w h, ap (λ (n : Node). n.cells) (errored-state w))
    ]
