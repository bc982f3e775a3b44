-- ===== src/Now/Running.antt =====
-- The bodies of the lambdas of network/base/async_now_interactions.cpp and network/server/now_io.cpp.
pub mod Cells
pub mod Search
pub mod Hearing
pub mod Responses
pub mod Exchange
use esp_iot_framework.Prelude.{
  ℕ, Bool, false, not, ◌&&◌, Option, some, ltb, get_elem?, get_or, Bytes, erase,
}
use esp_iot_framework.Async.World.{World, Program, promise_at}
use esp_iot_framework.Now.Requests.{
  Node, Closure, answers, awaits, forgets, valid_channel, has_channel, next_channel, reads_packet,
  confirms_ping, stores_address, confirms_hub, next_hub, verifies_hub, hub_verified, requests_of,
  with_requests, try_channel,
}
use esp_iot_framework.Now.Io.Server.{
  on_ping_answer, on_discovery_answer, on_hub_answer, ping, try_hub_channel,
}

abbrev closure_at : World Node → ℕ → Option Closure
closure_at w fn = get_elem? w.state.closures fn

abbrev pub recover_with : Option Closure → ℕ → World Node → World Node × ℕ
recover_with (some (forgets id)) self w = (with_requests w (erase id (requests_of w)), self)
recover_with c self w = (w, self)

abbrev value_with : Option Closure → ℕ → World Node → World Node × ℕ
value_with (some (answers id)) self w = (w, id)
value_with (some (valid_channel channel)) self w = (w, channel)
value_with (some reads_packet) self w = (w, (promise_at w self).result)
value_with c self w = (w, 0)

abbrev pub more_with : Option Closure → ℕ → World Node → World Node × Bool
more_with (some (has_channel cell)) self w =
    (w, not (promise_at w self).success && ltb (get_or w.state.cells cell 0) 14)
more_with c self w = (w, false)

module _ (fresh : ℕ → Bytes) where
  unfoldable future_with : Option Closure → ℕ → World Node → World Node × ℕ
  unfolding on_ping_answer on_discovery_answer on_hub_answer ping
  future_with (some (awaits promise)) self w = (w, promise)
  future_with (some confirms_ping) self w = on_ping_answer w self
  future_with (some (stores_address out)) self w = on_discovery_answer w self out
  future_with (some (confirms_hub request channel)) self w = on_hub_answer w request channel
  future_with (some (verifies_hub out)) self w = ping fresh w (get_or w.state.cells out 0)
  future_with (some (hub_verified discovery_future)) self w = (w, discovery_future)
  future_with c self w = (w, self)

  unfoldable pub next_with : Option Closure → ℕ → World Node → World Node × ℕ
  unfolding try_channel try_hub_channel
  next_with (some (next_channel mac cell)) self w = try_channel w mac cell
  next_with (some (next_hub out cell)) self w = try_hub_channel fresh w out cell
  next_with c self w = (w, self)

  abbrev node_program : Program Node
  node_program = record {
    call = λ f success w. w;
    ring = λ f w. w;
    continue_future = λ fn self w. future_with (closure_at w fn) self w;
    continue_value = λ fn self w. value_with (closure_at w fn) self w;
    recover = λ fn self w. recover_with (closure_at w fn) self w;
    conclude = λ fn self w. w;
    has_next = λ fn self w. more_with (closure_at w fn) self w;
    next = λ fn self w. next_with (closure_at w fn) self w;
  }
