-- ===== src/Now/Io/Server.antt =====
-- network/server/now_io.cpp: `NowIo` over the requests and the promises, and the templates of
-- network/server/now_io.h. An item is its bytes. A future of a packet has the place of its message
-- among those that were received as its value, for `_process_message` adds nothing to it.
use esp_iot_framework.Prelude.{
  ℕ, zero, suc, ◌+◌, ◌*◌, ◌%◌, Bool, true, false, not, ◌||◌, Option, none, some, List, [], ◌∷◌,
  ◌++◌, if◌then◌else◌, u8_mod, u16_mod, length, get_or, set, Bytes,
}
use esp_iot_framework.Async.World.{World, promise_at}
use esp_iot_framework.Async.Promise.{successful, errored, any, start_sequence}
use esp_iot_framework.Async.Future.{chain_future, chain_value, chain_error, delay}
use esp_iot_framework.Now.Interaction.{EspNowMessage, Event, resolved, on_message}
use esp_iot_framework.Now.Requests
use esp_iot_framework.Now.Requests.{
  Node, Closure, has_channel, reads_packet, confirms_ping, stores_address, confirms_hub,
  refuses_hub, next_hub, verifies_hub, hub_verified, with_state, close, set_channel,
}
use esp_iot_framework.Now.Io.{
  NowPacket, packet_header_size, ping_type, discovery_type, make_packet, parse, is_valid_answer,
}

-- `BROADCAST_MAC`
abbrev pub broadcast_mac : ℕ
broadcast_mac = 0xffffffffffff

unfoldable begin : World Node → World Node × Bool
begin w =
    let (w', ok) = Requests.begin w in
    let interaction = record w'.state.interaction { has_callback = true } in
    if ok
    then (with_state w' (record w'.state { interaction = interaction }), true)
    else (w', false)

-- `_on_message_received`: the packets that the program's callback, if it is set, was called with.
unfoldable on_message_received : Bool → List NowPacket → EspNowMessage → List NowPacket
on_message_received has_packet_cb calls message =
    if has_packet_cb then calls ++ parse message ∷ [] else calls

unfoldable pub message_at : List Event → ℕ → Option EspNowMessage
message_at [] place = none
message_at (resolved promise m ∷ es) zero = some m
message_at (on_message m ∷ es) zero = some m
message_at (e ∷ es) (suc place) = message_at es place

-- The packet that the future `self` has as its value.
unfoldable pub response_of : World Node → ℕ → Option NowPacket
unfolding message_at
response_of w self = elim (message_at w.state.interaction.events (promise_at w self).result) [
  | some m ↦ some (parse m)
  | none ↦ none
]

-- The lambda of `ping`.
unfoldable pub on_ping_answer : World Node → ℕ → World Node × ℕ
on_ping_answer w self = elim (response_of w self) [
  | some response ↦ if is_valid_answer response then successful w 0 else errored w
  | none ↦ errored w
]

-- The lambda of `discovery`.
unfoldable pub on_discovery_answer : World Node → ℕ → ℕ → World Node × ℕ
on_discovery_answer w self out = elim (response_of w self) [
  | some response ↦
      let stored =
        with_state w (record w.state { cells = set w.state.cells out response.mac_addr }) in
      if is_valid_answer response then successful stored 0 else errored w
  | none ↦ errored w
]

-- The lambda of `_discover_hub_channel`.
unfoldable pub on_hub_answer : World Node → ℕ → ℕ → World Node × ℕ
on_hub_answer w request channel =
    let q = promise_at w request in
    if not q.finished || not q.success then errored w else successful w channel

-- The templates: a vector's or an array's items, each of the same size.
pub concat : List Bytes → Bytes
concat [] = []
concat (item ∷ items) = item ++ concat items

module _ (fresh : ℕ → Bytes) where
  unfoldable send : World Node → ℕ → ℕ → ℕ → Option Bytes → ℕ → World Node × ℕ
  send w mac type count bytes size =
      Requests.send w mac (make_packet fresh type count bytes size)
        ((packet_header_size + size) % u16_mod)

  unfoldable pub request : World Node → ℕ → ℕ → ℕ → Option Bytes → ℕ → World Node × ℕ
  request w mac type count bytes size =
      let (asked, request_future) =
        Requests.request w mac (make_packet fresh type count bytes size)
          ((packet_header_size + size) % u16_mod) in
      let (closed, fn) = close asked reads_packet in chain_value closed request_future fn

  unfoldable respond : World Node → ℕ → ℕ → ℕ → ℕ → Option Bytes → ℕ → World Node × ℕ
  respond w id mac type count bytes size =
      Requests.respond w id mac (make_packet fresh type count bytes size)
        ((packet_header_size + size) % u16_mod)

  unfoldable send_items : World Node → ℕ → ℕ → ℕ → List Bytes → World Node × ℕ
  unfolding concat send
  send_items w mac type item_size items =
      send w mac type (length items % u8_mod) (some (concat items))
        (item_size * length items % u16_mod)

  unfoldable request_items : World Node → ℕ → ℕ → ℕ → List Bytes → World Node × ℕ
  unfolding concat request
  request_items w mac type item_size items =
      request w mac type (length items % u8_mod) (some (concat items))
        (item_size * length items % u16_mod)

  -- An array and a single item; the templates for vectors do not compile.
  unfoldable respond_items : World Node → ℕ → ℕ → ℕ → ℕ → List Bytes → World Node × ℕ
  unfolding concat respond
  respond_items w id mac type item_size items =
      respond w id mac type (length items % u8_mod) (some (concat items))
        (item_size * length items % u16_mod)

  unfoldable pub ping : World Node → ℕ → World Node × ℕ
  unfolding request
  ping w mac =
      let (asked, f) = request w mac ping_type 0 none 0 in
      let (closed, fn) = close asked confirms_ping in chain_future closed f fn

  -- `out` is the cell that `out_mac_addr` points to.
  unfoldable pub discovery : World Node → ℕ → World Node × ℕ
  unfolding request
  discovery w out =
      let (asked, f) = request w broadcast_mac discovery_type 0 none 0 in
      let (closed, fn) = close asked (stores_address out) in chain_future closed f fn

  unfoldable pub discover_hub_channel : World Node → ℕ → ℕ → World Node × ℕ
  unfolding set_channel discovery
  discover_hub_channel w channel out =
      let (tuned, ok) = set_channel w channel in
      let (asked, request_future) = discovery tuned out in
      let (delayed, delay_future) = delay asked 100 in
      let (raced, first) = any delayed (request_future ∷ delay_future ∷ []) in
      let (closed, fn) = close raced (confirms_hub request_future channel) in
      let (chained, confirmed) = chain_future closed first fn in
      let (closed', refuse) = close chained refuses_hub in
      if not ok then errored tuned else chain_error closed' confirmed refuse

  -- `(*channel)++`, and the attempt with the channel before.
  unfoldable pub try_hub_channel : World Node → ℕ → ℕ → World Node × ℕ
  unfolding discover_hub_channel
  try_hub_channel w out cell =
      let channel = get_or w.state.cells cell 0 in
      discover_hub_channel
        (with_state w (record w.state { cells = set w.state.cells cell ((channel + 1) % u8_mod) }))
        channel out

  unfoldable pub discover_hub : World Node → ℕ → World Node × ℕ
  unfolding try_hub_channel
  discover_hub w out =
      let cell = length w.state.cells in
      let prepared = with_state w (record w.state { cells = w.state.cells ++ 0 ∷ [] }) in
      let (tried, first) = try_hub_channel prepared out cell in
      let (closed, more) = close tried (has_channel cell) in
      let (closed', next) = close closed (next_hub out cell) in
      let (searching, discovery_future) = start_sequence closed' first more next in
      let (closed'', verify) = close searching (verifies_hub out) in
      let (verifying, verified) = chain_future closed'' discovery_future verify in
      let (closed''', finish) = close verifying (hub_verified discovery_future) in
      chain_future closed''' verified finish
