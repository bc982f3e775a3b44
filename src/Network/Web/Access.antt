-- ===== src/Network/Web/Access.antt =====
-- Whose requests the authentication handler takes, to redirect them elsewhere.
use esp_iot_framework.Prelude.{ℕ, ◌<◌, ◌≡◌, Bool, not, ◌&&◌, arith, ◌==◌}
use esp_iot_framework.Network.Web.{address, WebAuthHandler, can_handle}

-- The handler takes a request exactly if its credentials are wrong and, where local addresses are
-- allowed, it does not come from one of 192.168.0.0/16.
can_handle_lem :
    (h : WebAuthHandler) (a b c d : ℕ) (authenticate : ℕ → ℕ → Bool)
    → a < 256
    → b < 256
    → c < 256
    → d < 256
    → can_handle h (record { remote_address = address a b c d; authenticate = authenticate })
      ≡ not (authenticate h.user h.password) && not (h.allow_local && ((a == 192) && (b == 168)))
unfolding can_handle
can_handle_lem h a b c d authenticate ha hb hc hd = ground arith
