-- ===== src/Network/Web.antt =====
-- network/web.h and network/web.cpp: `WebServer`, whose calls of the library's server are recorded, and
-- `WebAuthHandler`, whose `handleRequest` is a redirect. Handlers, methods and functions are numbers,
-- but for the logger and the function of the root. An address is the four bytes of an IPv4 address,
-- which the ESP's little-endian memory holds as a number, the first byte lowest; lwIP's `PP_HTONL`
-- turns the order of a number's bytes around. Whether the credentials are right is what the web server
-- library answers.
pub mod Access
use esp_iot_framework.Prelude.{
  Option, none, some, List, [], ◌∷◌, ◌++◌, false, ℕ, ◌+◌, ◌*◌, ◌/◌, ◌%◌, ◌^◌, Bool, true, false,
  not, ◌&&◌, Option, none, some, List, [], ◌∷◌, ◌==◌, if◌then◌else◌,
}

abbrev pub address : ℕ → ℕ → ℕ → ℕ → ℕ
address a b c d = a + 2 ^ 8 * b + 2 ^ 16 * c + 2 ^ 24 * d

unfoldable pp_htonl : ℕ → ℕ
pp_htonl x =
    x % 2 ^ 8 * 2 ^ 24
    + x / 2 ^ 8 % 2 ^ 8 * 2 ^ 16
    + x / 2 ^ 16 % 2 ^ 8 * 2 ^ 8
    + x / 2 ^ 24 % 2 ^ 8

pub record WebAuthHandler : Type 0 where
  pub user : ℕ
  pub password : ℕ
  pub allow_local : Bool

-- What a handler sees of a request: the client's address, and what `authenticate` answers.
pub record Request : Type 0 where
  pub remote_address : ℕ
  pub authenticate : ℕ → ℕ → Bool

-- `PP_HTONL(0xffff0000)` is `0xffff`, and `x & 0xffff` is `x % 2 ^ 16`.
unfoldable pub can_handle : WebAuthHandler → Request → Bool
unfolding pp_htonl
can_handle h request =
    let is_local = request.remote_address % (pp_htonl 0xffff0000 + 1) == pp_htonl 0xc0a80000 in
    let auth_required = if h.allow_local then not is_local else true in
    auth_required && not (request.authenticate h.user h.password)

set_allow_local : WebAuthHandler → Bool → WebAuthHandler
set_allow_local h value = record h { allow_local = value }

-- `WebLogger` takes no request.
logger_can_handle : Request → Bool
logger_can_handle request = false

data ServerCall : Type 0 where
  add_logger : ServerCall
  added : ℕ → ServerCall
  serve_root : ServerCall
  serve_uri : ℕ → ℕ → ℕ → ServerCall
  serve_static : ℕ → ServerCall
  begin_server : ServerCall

record WebServer : Type 0 where
  pub port : ℕ
  pub fs : Option ℕ
  pub calls : List ServerCall

-- `debug` is whether `DEBUG` is set.
web_server : Bool → ℕ → WebServer
web_server debug port = record {
  port = port;
  fs = none;
  calls = if debug then add_logger ∷ [] else [];
}

abbrev request_server : WebServer → List ServerCall → WebServer
request_server s calls = record s { calls = s.calls ++ calls }

begin : WebServer → ℕ → WebServer
begin s fs =
    request_server (record s { fs = some fs }) (serve_root ∷ serve_static fs ∷ begin_server ∷ [])

on : WebServer → ℕ → ℕ → ℕ → WebServer
on s uri method on_request = request_server s (serve_uri uri method on_request ∷ [])

add_handler : WebServer → ℕ → WebServer
add_handler s handler = request_server s (added handler ∷ [])
