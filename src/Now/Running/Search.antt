-- ===== src/Now/Running/Search.antt =====
-- The channels that `discover_hub` of network/server/now_io.cpp and `discover_peer_channel` of
-- network/base/async_now_interactions.cpp try.
use esp_iot_framework.Prelude.{
  ℕ, zero, suc, ◌+◌, ◌≤◌, ◌≡◌, true, some, List, [], ◌∷◌, ◌++◌, Bytes, length, get_or,
}
use esp_iot_framework.Async.World.{World}
use esp_iot_framework.Now.Transport
use esp_iot_framework.Now.Requests.{
  Node, Closure, has_channel, next_channel, next_hub, discover_peer_channel,
}
use esp_iot_framework.Now.Io.Server.{discover_hub}
use esp_iot_framework.Now.Running.{more_with, next_with}
use esp_iot_framework.Now.Running.Cells.{cells, channels, IsTunable}

abbrev pub channels_from : ℕ → ℕ → List ℕ
channels_from k zero = []
channels_from k (suc n) = k ∷ channels_from (suc k) n

abbrev channel_in : World Node → ℕ → ℕ
channel_in w cell = get_or (cells w) cell 0

module _ (fresh : ℕ → Bytes) where
  -- A search that begins in a world: the lambda that it tries channels with, the cell of the channel,
  -- and the world after its first try.
  pub data Begins : World Node → Closure → ℕ → World Node → Type 0 where
    for_hub :
        (w : World Node) (out : ℕ)
        → Begins w (next_hub out (length (cells w))) (length (cells w)) (discover_hub fresh w out).0
    for_peer :
        (w : World Node) (mac : ℕ)
        → Begins w
            (next_channel mac (length (cells w)))
            (length (cells w))
            (discover_peer_channel w mac).0

  -- How a search goes on, with the number of tries: what runs in between leaves the cell alone and asks
  -- the driver for no channel.
  pub data Search (c : Closure) (cell : ℕ) : World Node → World Node → ℕ → Type 0 where
    begun : (w : World Node) → Search c cell w w 0
    elsewhere :
        (w w' w'' : World Node) (n : ℕ)
        → Search c cell w w' n
        → channel_in w'' cell ≡ channel_in w' cell
        → channels w'' ≡ channels w'
        → Search c cell w w'' n
    tries :
        (w w' : World Node) (n self : ℕ)
        → Search c cell w w' n
        → IsTunable w'
        → (more_with (some (has_channel cell)) self w').1 ≡ true
        → Search c cell w (next_with fresh (some c) self w').0 (suc n)

  -- After the first channel, `n` more were tried since the world `w`.
  record Reached (w : World Node) (cell : ℕ) (v : World Node) (n : ℕ) : Type 0 where
    asked : channels v ≡ channels w ++ channels_from 0 (suc n)
    at : channel_in v cell ≡ 1 + n
    few : n ≤ 13
