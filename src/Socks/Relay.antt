-- ===== src/Socks/Relay.antt =====
-- The TCP requests of socks5/server.js: the CONNECT to the HTTP proxy, and what is piped.
use block_proxy.Common.{ℕ, Bool, true, ◌||◌, [], ◌∷◌, ◌++◌, none, some, if◌then◌else◌}
use block_proxy.Common.Texts.{ascii_text, has_prefix}
use block_proxy.Wire.Buffer.{Bytes, Text}
use block_proxy.Manager.Forward.{connect_request, index_of, crlf}
use block_proxy.Socks.Address.{response}
use block_proxy.Socks.State.{Phase, connecting, relaying, over, Client, write, destroy, refuse}

-- `/^HTTP\/1\.[01] 200/`, on the bytes: what it asks for is ASCII.
unfoldable pub is_http_ok : Bytes → Bool
is_http_ok b = has_prefix b (ascii_text "HTTP/1.0 200") || has_prefix b (ascii_text "HTTP/1.1 200")

-- The proxy's socket is connected: `utf8` encodes the request, `decimal` prints the port.
module _ (utf8 : Text → Bytes) (decimal : ℕ → Text) where
  unfoldable pub proxy_connected : Client → Client
  proxy_connected c = record c {
    forwarded = c.forwarded ++ (utf8 (connect_request decimal c.host c.port) ∷ []);
  }

-- onProxyData, with the whole answer so far: what stands behind its header is not passed on.
unfoldable pub answered : Client → Bytes → Client
answered c b =
    if is_http_ok b
    then record (write c (response 0)) { phase = relaying; buffer = b }
    else record (refuse c 5) { phase = over; proxy_destroyed = true; buffer = b }

unfoldable pub on_answer : Client → Bytes → Client
on_answer c b = elim (index_of b (crlf ++ crlf)) [
  | none ↦ record c { buffer = b }
  | some i ↦ answered c b
]

unfoldable pub proxy_answers : Client → Bytes → Client
proxy_answers c b = if c.destroyed || c.proxy_destroyed then c else on_answer c (c.buffer ++ b)

-- 'data' of the proxy's socket: the answer, then the pipe to the client.
unfoldable pub proxy_data : Client → Phase → Bytes → Client
proxy_data c connecting b = proxy_answers c b
proxy_data c relaying b = if c.destroyed then c else write c b
proxy_data c _ b = c

-- 'data' of the client's socket once the request is taken: it is lost until the pipe is there.
unfoldable pub client_data : Client → Phase → Bytes → Client
client_data c relaying b =
    if c.proxy_destroyed then c else record c { forwarded = c.forwarded ++ (b ∷ []) }
client_data c _ b = c

-- 'error' of the proxy's socket.
unfoldable pub proxy_error : Client → Client
proxy_error c = if c.destroyed then c else refuse c 5

-- 'timeout' of either socket, and 'error' of the client's.
abbrev pub proxy_timeout : Client → Client
proxy_timeout c = record c { proxy_destroyed = true }

abbrev pub client_timeout : Client → Client
client_timeout c = destroy c
