-- ===== src/Now/Transport.antt =====
-- network/base/async_now.h and network/base/async_now.cpp: `AsyncEspNow`. A MAC address is a number, as
-- `mac_to_key` makes it. What the ESP-NOW driver, the Wi-Fi driver and the dispatcher answer is a record, and
-- the packets that the driver took, those that the receiver's callback got, and the channels that the Wi-Fi
-- driver was asked to set, are recorded in order.
pub mod Outcomes
pub mod Confirming
pub mod Refusing
mod Tests
use esp_iot_framework.Prelude.{
  ℕ, ◌%◌, Bool, true, false, not, ◌&&◌, ◌||◌, none, some, List, [], ◌∷◌, ◌++◌, ◌==◌, if◌then◌else◌,
  u8_mod, length, drop, Bytes, Map, lookup, insert,
}
use esp_iot_framework.Async.World.{World}
use esp_iot_framework.Async.Promise.{create, set_success, set_error, errored}

pub record Answers : Type 0 where
  pub dispatcher_begins : Bool
  pub inits : Bool
  pub registers_send : Bool
  pub registers_receive : Bool
  pub peer_exists : Bool
  pub adds_peer : Bool
  pub deletes_peer : Bool
  pub sends : Bool
  pub sets_promiscuous : Bool
  pub sets_channel : Bool

pub record EspNowPacket : Type 0 where
  pub mac_addr : ℕ
  pub size : ℕ
  pub bytes : Bytes

pub record AsyncEspNow : Type 0 where
  pub initialized : Bool
  pub peers : List ℕ
  pub send_order : Map (List ℕ)
  pub has_callback : Bool
  pub sent : List (ℕ × Bytes)
  pub received : List EspNowPacket
  pub channels : List ℕ
  pub radio_channel : ℕ

abbrev pub init : AsyncEspNow
init = record {
  initialized = false;
  peers = [];
  send_order = [];
  has_callback = false;
  sent = [];
  received = [];
  channels = [];
  radio_channel = 0;
}

unfoldable pub begin : Answers → AsyncEspNow → AsyncEspNow × Bool
begin a t =
    if t.initialized || not a.dispatcher_begins || not a.inits
    then (t, false)
    else if not (a.registers_send && a.registers_receive)
    then (t, false)
    else (record t { initialized = true }, true)

unfoldable pub end : AsyncEspNow → AsyncEspNow
end t = if not t.initialized then t else record t { has_callback = false; initialized = false }

-- The promises that wait for the driver's event about a peer, oldest first.
abbrev pub waiting : AsyncEspNow → ℕ → List ℕ
waiting t mac = elim (lookup mac t.send_order) [ some ps ↦ ps | none ↦ [] ]

unfoldable pub register_peer : Answers → AsyncEspNow → ℕ → AsyncEspNow × Bool
register_peer a t mac =
    if not t.initialized
    then (t, false)
    else if a.peer_exists
    then (t, true)
    else if not a.adds_peer
    then (t, false)
    else (record t { send_order = insert mac [] t.send_order; peers = t.peers ++ mac ∷ [] }, true)

-- The first peer with the address is erased.
pub erase_peer : ℕ → List ℕ → List ℕ
erase_peer mac [] = []
erase_peer mac (p ∷ ps) = if p == mac then ps else p ∷ erase_peer mac ps

-- The code needs that a peer of the driver is one of `_peers`.
unfoldable pub unregister_peer : Answers → AsyncEspNow → ℕ → AsyncEspNow × Bool
unfolding erase_peer
unregister_peer a t mac =
    if not t.initialized
    then (t, false)
    else if not a.peer_exists
    then (t, true)
    else (record t { peers = erase_peer mac t.peers }, a.deletes_peer)

-- The results of the second and the third call are dropped.
unfoldable pub change_channel : Answers → AsyncEspNow → ℕ → AsyncEspNow × Bool
change_channel a t channel =
    if not t.initialized then (t, false) else if not a.sets_promiscuous then (t, false) else (
      record t {
        channels = t.channels ++ channel ∷ [];
        radio_channel = if a.sets_channel then channel else t.radio_channel;
      },
      true,
    )

module _ {S : Type 0} where
  -- What follows the registration of the peer.
  unfoldable pub send_packet :
      Answers → AsyncEspNow → World S → ℕ → Bytes → AsyncEspNow × World S × ℕ
  send_packet a t w mac bytes =
      let (w', p) = create w in
      let queue = waiting t mac ++ p ∷ [] in
      if a.sends
      then (
        record t { send_order = insert mac queue t.send_order; sent = t.sent ++ (mac, bytes) ∷ [] },
        w',
        p,
      )
      else (record t { send_order = insert mac (drop 1 queue) t.send_order }, set_error w' p, p)

  unfoldable pub send : Answers → AsyncEspNow → World S → ℕ → Bytes → AsyncEspNow × World S × ℕ
  unfolding register_peer send_packet
  send a t w mac bytes =
      let (t', registered) = register_peer a t mac in
      if not t.initialized
      then (t, (errored w).0, (errored w).1)
      else if not registered
      then (t', (errored w).0, (errored w).1)
      else send_packet a t' w mac bytes

  -- `_on_sent`; `success` is whether the status is ESP_NOW_SEND_SUCCESS.
  unfoldable pub on_sent : AsyncEspNow → World S → ℕ → Bool → AsyncEspNow × World S
  on_sent t w mac success = elim (waiting t mac) [
    | [] ↦ (t, w)
    | p ∷ ps ↦ (
      record t { send_order = insert mac ps t.send_order },
      if success then set_success w p 0 else set_error w p,
    )
  ]

-- `_on_receive`; the size goes through a `uint8_t`.
unfoldable pub on_receive : AsyncEspNow → ℕ → Bytes → AsyncEspNow
on_receive t mac bytes =
    let packet : EspNowPacket = record {
      mac_addr = mac;
      size = length bytes % u8_mod;
      bytes = bytes;
    } in
    if t.has_callback then record t { received = t.received ++ packet ∷ [] } else t
