-- ===== src/Now/Running/Cells.antt =====
-- What sending and asking change of the cells that the lambdas share and of the channels that the Wi-Fi
-- driver was asked for: nothing but the cell of a channel, and the channels by it, when it is tried.
use esp_iot_framework.Prelude.{
  ℕ, ◌≤◌, ◌≡◌, refl, ap, ap₂, ◌∙◌, Bool, true, false, List, [], ◌∷◌, ◌++◌, arith, inl, inr, Bytes,
  u8_mod, ◌+◌, ◌%◌, get_or, set, by_if, Option-cases, lookup, ltb, not,
}
use esp_iot_framework.Async.World.{World}
use esp_iot_framework.Async.Promise.{create, errored}
use esp_iot_framework.Async.Untouched.{
  finish-state, errored-state, all-state, any-state, chain_future-state, chain_value-state,
  chain_error-state, delay-state,
}
use esp_iot_framework.Now.Transport
use esp_iot_framework.Now.Transport.{Answers, AsyncEspNow}
use esp_iot_framework.Now.Interaction
use esp_iot_framework.Now.Requests.{
  Node, send_packet, send_packets, send_impl, send, cancel_existing, open_request, request_impl,
  request, set_channel, configure_peer_channel, try_channel, requests_of,
}
use esp_iot_framework.Now.Io.Server
use esp_iot_framework.Now.Io.Server.{discovery, discover_hub_channel, try_hub_channel}

module _ {S : Type 0} where
  -- The world of a result of the transport is in the state of `w`.
  abbrev Leaves : World S → AsyncEspNow × World S × ℕ → Type 0
  Leaves w result = result.1.state ≡ w.state

  transmit-Leaves :
      (a : Answers) (t : AsyncEspNow) (w : World S) (mac : ℕ) (bytes : Bytes)
      → Leaves w (Transport.send_packet a t w mac bytes)
  unfolding Transport.send_packet create
  transmit-Leaves a t w mac bytes = by_if (Leaves w) a.sends _ _ refl (finish-state false _ _)

  send-Leaves :
      (a : Answers) (t : AsyncEspNow) (w : World S) (mac : ℕ) (bytes : Bytes)
      → Leaves w (Transport.send a t w mac bytes)
  unfolding Transport.send
  send-Leaves a t w mac bytes = by_if (Leaves w) (not t.initialized) _ _ (errored-state w) (
      by_if (Leaves w) (not (Transport.register_peer a t mac).1) _ _ (errored-state w)
        (transmit-Leaves a (Transport.register_peer a t mac).0 w mac bytes))

-- Whether the transport is initialized, and the channels.
abbrev pub tuning : AsyncEspNow → Bool × List ℕ
tuning t = (t.initialized, t.channels)

pub register_peer-tuning :
    (a : Answers) (t : AsyncEspNow) (mac : ℕ)
    → tuning (Transport.register_peer a t mac).0 ≡ tuning t
unfolding Transport.register_peer
register_peer-tuning a t mac =
    let P : AsyncEspNow × Bool → Type 0 = λ r. tuning r.0 ≡ tuning t in
    by_if P (not t.initialized) _ _ refl
      (by_if P a.peer_exists _ _ refl (by_if P (not a.adds_peer) _ _ refl refl))

module _ {S : Type 0} where
  -- The transport of a result is tuned as `t`.
  abbrev Tuned : AsyncEspNow → AsyncEspNow × World S × ℕ → Type 0
  Tuned t result = tuning result.0 ≡ tuning t

  transmit-Tuned :
      (a : Answers) (t : AsyncEspNow) (w : World S) (mac : ℕ) (bytes : Bytes)
      → Tuned t (Transport.send_packet a t w mac bytes)
  unfolding Transport.send_packet
  transmit-Tuned a t w mac bytes = by_if (Tuned t) a.sends _ _ refl refl

  send-Tuned :
      (a : Answers) (t : AsyncEspNow) (w : World S) (mac : ℕ) (bytes : Bytes)
      → Tuned t (Transport.send a t w mac bytes)
  unfolding Transport.send
  send-Tuned a t w mac bytes =
      let registered = register_peer-tuning a t mac in
      by_if (Tuned t) (not t.initialized) _ _ refl (
        by_if (Tuned t) (not (Transport.register_peer a t mac).1) _ _ registered
          (transmit-Tuned a (Transport.register_peer a t mac).0 w mac bytes ∙ registered))

abbrev pub cells : World Node → List ℕ
cells w = w.state.cells

abbrev pub channels : World Node → List ℕ
channels w = w.state.transport.channels

-- The cells and the channels.
abbrev marks : World Node → List ℕ × List ℕ
marks w = (cells w, channels w)

pub same_marks :
    {s t : Node}
    → s ≡ t
    → Path (List ℕ × List ℕ) (s.cells, s.transport.channels) (t.cells, t.transport.channels)
same_marks e = ap (λ (s : Node). (s.cells, s.transport.channels)) e

-- The world of a result has the cells and the channels of `w`.
abbrev Keeps : World Node → World Node × ℕ → Type 0
Keeps w result = marks result.0 ≡ marks w

errored-Keeps : (w : World Node) → Keeps w (errored w)
errored-Keeps w = same_marks (errored-state w)

send_packet-Keeps : (w : World Node) (mac : ℕ) (p : Bytes) → Keeps w (send_packet w mac p)
unfolding send_packet
send_packet-Keeps w mac p =
    ap₂ (λ xs ys. (xs, ys))
      (ap (λ (s : Node). s.cells) (send-Leaves w.state.drivers w.state.transport w mac p))
      (ap (λ r. r.1) (send-Tuned w.state.drivers w.state.transport w mac p))

send_packets-marks :
    (ps : List Bytes) (w : World Node) (mac : ℕ) → marks (send_packets w mac ps).0 ≡ marks w
unfolding send_packets
send_packets-marks [] w mac = refl
send_packets-marks (p ∷ ps) w mac =
    send_packets-marks ps (send_packet w mac p).0 mac ∙ send_packet-Keeps w mac p

-- The packets are sent, and the future is that of their promises.
send_parts-Keeps :
    (w : World Node) (id : ℕ) (is_response : Bool) (mac : ℕ) (bytes : Bytes) (size : ℕ)
    → Keeps w (send_impl w id is_response mac bytes size)
unfolding send_impl
send_parts-Keeps w id is_response mac bytes size =
    elim (Option-cases (Interaction.send_impl id is_response bytes size)) [
      | inl refused ↦ rw (refused, send_impl) (errored-Keeps w)
      | inr (ps, e) ↦
          rw (e, send_impl)
            (same_marks (chain_value-state _ _ _)
              ∙ same_marks (all-state (send_packets w mac ps).0 (send_packets w mac ps).1)
              ∙ send_packets-marks ps w mac)
    ]

send-Keeps : (w : World Node) (mac : ℕ) (bytes : Bytes) (size : ℕ) → Keeps w (send w mac bytes size)
unfolding send
send-Keeps w mac bytes size =
    by_if (Keeps w) (not w.state.initialized) _ _ (errored-Keeps w)
      (send_parts-Keeps _ w.state.id false mac bytes size)

cancel_existing-marks : (w : World Node) (id : ℕ) → marks (cancel_existing w id) ≡ marks w
unfolding cancel_existing
cancel_existing-marks w id = elim (Option-cases (lookup id (requests_of w))) [
  | inl e ↦ rw (e, cancel_existing) refl
  | inr (old, e) ↦ rw (e, cancel_existing) (same_marks (finish-state false _ old))
]

request_impl-Keeps :
    (w : World Node) (id mac : ℕ) (bytes : Bytes) (size : ℕ)
    → Keeps w (request_impl w id mac bytes size)
unfolding request_impl open_request create
request_impl-Keeps w id mac bytes size =
    same_marks (chain_error-state _ _ _)
    ∙ same_marks (chain_future-state _ _ _)
    ∙ send_parts-Keeps _ id false mac bytes size
    ∙ cancel_existing-marks w id

request-Keeps :
    (w : World Node) (mac : ℕ) (bytes : Bytes) (size : ℕ) → Keeps w (request w mac bytes size)
unfolding request
request-Keeps w mac bytes size =
    by_if (Keeps w) (not w.state.initialized) _ _ (errored-Keeps w)
      (request_impl-Keeps _ w.state.id mac bytes size)

discovery-Keeps : (fresh : ℕ → Bytes) (w : World Node) (out : ℕ) → Keeps w (discovery fresh w out)
unfolding discovery Server.request
discovery-Keeps fresh w out =
    same_marks (chain_future-state _ _ _)
    ∙ same_marks (chain_value-state _ _ _)
    ∙ request-Keeps w _ _ _

discover_hub_channel-Keeps :
    (fresh : ℕ → Bytes) (w : World Node) (channel out : ℕ)
    → Keeps (set_channel w channel).0 (discover_hub_channel fresh w channel out)
unfolding discover_hub_channel
discover_hub_channel-Keeps fresh w channel out =
    let tuned = (set_channel w channel).0 in
    by_if (Keeps tuned) (not (set_channel w channel).1) _ _ (errored-Keeps tuned) (
      same_marks (chain_error-state _ _ _)
      ∙ same_marks (chain_future-state _ _ _)
      ∙ same_marks (any-state _ _)
      ∙ same_marks (delay-state _ _)
      ∙ discovery-Keeps fresh tuned out)

configure_peer_channel-Keeps :
    (w : World Node) (mac channel : ℕ)
    → Keeps (set_channel w channel).0 (configure_peer_channel w mac channel)
unfolding configure_peer_channel
configure_peer_channel-Keeps w mac channel =
    let tuned = (set_channel w channel).0 in
    by_if (Keeps tuned) (not (set_channel w channel).1) _ _ (errored-Keeps tuned) (
      same_marks (chain_error-state _ _ _)
      ∙ same_marks (chain_value-state _ _ _)
      ∙ send-Keeps tuned mac (0 ∷ []) 1)

-- The transport is initialized, and the radio becomes promiscuous when it is asked to.
pub record IsTunable (w : World Node) : Type 0 where
  pub initialized : w.state.transport.initialized ≡ true
  pub promiscuous : w.state.drivers.sets_promiscuous ≡ true

set_channel-marks :
    (w : World Node) (channel : ℕ)
    → IsTunable w
    → channel ≤ 14
    → marks (set_channel w channel).0 ≡ (cells w, channels w ++ channel ∷ [])
unfolding set_channel Transport.change_channel
set_channel-marks w channel h few =
    let inside : ltb 14 channel ≡ false = ground arith in
    rw (inside, h.initialized, h.promiscuous) refl

-- The world after the channel in a cell was tried.
abbrev pub Tries : World Node → ℕ → World Node → Type 0
Tries w cell w' =
    let channel = get_or (cells w) cell 0 in
    marks w' ≡ (set (cells w) cell ((channel + 1) % u8_mod), channels w ++ channel ∷ [])

pub try_hub_channel-Tries :
    (fresh : ℕ → Bytes) (w : World Node) (out cell : ℕ)
    → IsTunable w
    → get_or (cells w) cell 0 ≤ 14
    → Tries w cell (try_hub_channel fresh w out cell).0
unfolding try_hub_channel
try_hub_channel-Tries fresh w out cell h few =
    discover_hub_channel-Keeps fresh _ (get_or (cells w) cell 0) out
    ∙ set_channel-marks _ (get_or (cells w) cell 0)
        (record { initialized = h.initialized; promiscuous = h.promiscuous }) few

pub try_channel-Tries :
    (w : World Node) (mac cell : ℕ)
    → IsTunable w
    → get_or (cells w) cell 0 ≤ 14
    → Tries w cell (try_channel w mac cell).0
unfolding try_channel
try_channel-Tries w mac cell h few =
    configure_peer_channel-Keeps _ mac (get_or (cells w) cell 0)
    ∙ set_channel-marks _ (get_or (cells w) cell 0)
        (record { initialized = h.initialized; promiscuous = h.promiscuous }) few
