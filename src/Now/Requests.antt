-- ===== src/Now/Requests.antt =====
-- network/base/async_now_interactions.cpp over the transport: sending, requests and the search for a
-- peer's channel. A lambda that is handed to a future is a closure, kept in the state under its number;
-- a message's value is its place among the messages that were received. What the drivers answer is
-- part of the state.
pub mod Reuse
mod Tests
use esp_iot_framework.Prelude.{
  ℕ, ◌+◌, ◌%◌, Bool, true, false, not, ◌&&◌, ◌||◌, none, some, List, [], ◌∷◌, ◌++◌, ltb,
  if◌then◌else◌, u8_mod, length, get_or, set, drop, Bytes, Map, lookup, insert, erase,
}
use esp_iot_framework.Async.World.{World}
use esp_iot_framework.Async.Promise.{create, set_success, set_error, errored, all, start_sequence}
use esp_iot_framework.Async.Future.{chain_future, chain_value, chain_error}
use esp_iot_framework.Now.Transport
use esp_iot_framework.Now.Transport.{Answers, AsyncEspNow}
use esp_iot_framework.Now.Interaction
use esp_iot_framework.Now.Interaction.{Interaction, Event, resolved, on_message}

-- `answers` is the lambda of `_send_impl`, `awaits` and `forgets` are those of `_request_impl`, the next two
-- those of `_configure_peer_channel`, and the next two, with the cell of the channel, those of
-- `discover_peer_channel`. The others are those of network/server/now_io.cpp: of `request`, `ping`,
-- `discovery`, `_discover_hub_channel` and, with the one of the channel, `discover_hub`. A cell is memory
-- that lambdas share: a channel, or the address that `out_mac_addr` points to.
pub data Closure : Type 0 where
  answers : ℕ → Closure
  awaits : ℕ → Closure
  forgets : ℕ → Closure
  valid_channel : ℕ → Closure
  invalid_channel : Closure
  has_channel : ℕ → Closure
  next_channel : ℕ → ℕ → Closure
  reads_packet : Closure
  confirms_ping : Closure
  stores_address : ℕ → Closure
  confirms_hub : ℕ → ℕ → Closure
  refuses_hub : Closure
  next_hub : ℕ → ℕ → Closure
  verifies_hub : ℕ → Closure
  hub_verified : ℕ → Closure

pub record Node : Type 0 where
  pub initialized : Bool
  pub id : ℕ
  pub transport : AsyncEspNow
  pub interaction : Interaction
  pub closures : List Closure
  pub cells : List ℕ
  pub drivers : Answers

abbrev pub with_state : World Node → Node → World Node
with_state w n = record w { state = n }

abbrev pub requests_of : World Node → Map ℕ
requests_of w = w.state.interaction.requests

abbrev pub with_requests : World Node → Map ℕ → World Node
with_requests w m =
    with_state w (record w.state { interaction = record w.state.interaction { requests = m } })

-- A lambda is made.
abbrev pub close : World Node → Closure → World Node × ℕ
close w c = (
  with_state w (record w.state { closures = w.state.closures ++ c ∷ [] }),
  length w.state.closures,
)

unfoldable pub begin : World Node → World Node × Bool
begin w =
    let (t, ok) = Transport.begin w.state.drivers w.state.transport in
    if w.state.initialized
    then (w, false)
    else if not ok
    then (with_state w (record w.state { transport = t }), false)
    else (
      with_state w
          (record w.state { transport = record t { has_callback = true }; initialized = true }),
      true,
    )

unfoldable end : World Node → World Node
end w =
    if not w.state.initialized
    then w
    else with_state w (record w.state {
      interaction = record w.state.interaction { has_callback = false };
      initialized = false;
      transport = Transport.end w.state.transport;
    })

unfoldable pub send_packet : World Node → ℕ → Bytes → World Node × ℕ
send_packet w mac packet =
    let (t, w', p) = Transport.send w.state.drivers w.state.transport w mac packet in
    (with_state w' (record w'.state { transport = t }), p)

unfoldable pub send_packets : World Node → ℕ → List Bytes → World Node × List ℕ
send_packets w mac [] = (w, [])
send_packets w mac (p ∷ ps) =
    let (w', f) = send_packet w mac p in let (w'', fs) = send_packets w' mac ps in (w'', f ∷ fs)

-- `_send_impl`
unfoldable pub send_impl : World Node → ℕ → Bool → ℕ → Bytes → ℕ → World Node × ℕ
unfolding send_packets
send_impl w id is_response mac bytes size = elim (Interaction.send_impl id is_response bytes size) [
  | none ↦ errored w
  | some packets ↦
      let (sent, futures) = send_packets w mac packets in
      let (aggregated, future) = all sent futures in
      let (closed, fn) = close aggregated (answers id) in chain_value closed future fn
]

-- `_id++`
abbrev pub next_id : World Node → World Node
next_id w = with_state w (record w.state { id = (w.state.id + 1) % u8_mod })

unfoldable pub send : World Node → ℕ → Bytes → ℕ → World Node × ℕ
unfolding send_impl
send w mac bytes size =
    if not w.state.initialized
    then errored w
    else send_impl (next_id w) w.state.id false mac bytes size

unfoldable pub respond : World Node → ℕ → ℕ → Bytes → ℕ → World Node × ℕ
unfolding send_impl
respond w id mac bytes size =
    if not w.state.initialized then errored w else send_impl w id true mac bytes size

-- A request with the same id is cancelled.
unfoldable pub cancel_existing : World Node → ℕ → World Node
cancel_existing w id = elim (lookup id (requests_of w)) [
  | some existing ↦ set_error (with_requests w (erase id (requests_of w))) existing
  | none ↦ w
]

-- The start of `_request_impl`: the promise of the response.
unfoldable pub open_request : World Node → ℕ → World Node × ℕ
unfolding cancel_existing
open_request w id =
    let (w', promise) = create (cancel_existing w id) in
    (with_requests w' (insert id promise (requests_of w')), promise)

unfoldable pub request_impl : World Node → ℕ → ℕ → Bytes → ℕ → World Node × ℕ
unfolding open_request send_impl
request_impl w id mac bytes size =
    let (opened, promise) = open_request w id in
    let (sent, send_future) = send_impl opened id false mac bytes size in
    let (closed, await) = close sent (awaits promise) in
    let (chained, future) = chain_future closed send_future await in
    let (closed', forget) = close chained (forgets id) in chain_error closed' future forget

unfoldable pub request : World Node → ℕ → Bytes → ℕ → World Node × ℕ
unfolding request_impl
request w mac bytes size =
    if not w.state.initialized
    then errored w
    else request_impl (next_id w) w.state.id mac bytes size

-- The guard of an attempt: the channel is one, and the Wi-Fi driver is asked for it.
unfoldable pub set_channel : World Node → ℕ → World Node × Bool
set_channel w channel =
    let (t, ok) = Transport.change_channel w.state.drivers w.state.transport channel in
    if ltb 14 channel then (w, false) else (with_state w (record w.state { transport = t }), ok)

unfoldable pub configure_peer_channel : World Node → ℕ → ℕ → World Node × ℕ
unfolding set_channel send
configure_peer_channel w mac channel =
    let (tuned, ok) = set_channel w channel in
    let (sent, future) = send tuned mac (0 ∷ []) 1 in
    let (closed, confirm) = close sent (valid_channel channel) in
    let (chained, valid) = chain_value closed future confirm in
    let (closed', refuse) = close chained invalid_channel in
    if not ok then errored tuned else chain_error closed' valid refuse

-- `(*channel)++`, and the attempt with the channel before.
unfoldable pub try_channel : World Node → ℕ → ℕ → World Node × ℕ
unfolding configure_peer_channel
try_channel w mac cell =
    let channel = get_or w.state.cells cell 0 in
    configure_peer_channel
      (with_state w (record w.state { cells = set w.state.cells cell ((channel + 1) % u8_mod) }))
      mac channel

unfoldable pub discover_peer_channel : World Node → ℕ → World Node × ℕ
unfolding try_channel
discover_peer_channel w mac =
    let t = w.state.transport in
    let known = t.initialized && w.state.drivers.peer_exists in
    let registered = if known then t else (Transport.register_peer w.state.drivers t mac).0 in
    let cell = length w.state.cells in
    let prepared =
      with_state w (record w.state { transport = registered; cells = w.state.cells ++ 0 ∷ [] }) in
    let (tried, first) = try_channel prepared mac cell in
    let (closed, more) = close tried (has_channel cell) in
    let (closed', next) = close closed (next_channel mac cell) in
    start_sequence closed' first more next

-- The promises that a packet resolved are settled.
unfoldable pub resolve_new : List Event → ℕ → World Node → World Node
resolve_new [] place w = w
resolve_new (resolved promise m ∷ es) place w =
    resolve_new es (place + 1) (set_success w promise place)
resolve_new (on_message m ∷ es) place w = resolve_new es (place + 1) w

unfoldable pub receive : (ℕ → Bytes) → World Node → ℕ → ℕ → Bytes → World Node
unfolding resolve_new
receive fresh w mac size packet =
    let old = length w.state.interaction.events in
    let s = Interaction.on_packet_received fresh w.state.interaction mac size packet in
    resolve_new (drop old s.events) old (with_state w (record w.state { interaction = s }))
