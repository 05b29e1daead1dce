-- ===== src/Socks/State.antt =====
-- The state of createConnectionHandler of socks5/server.js: its counters and its sockets.
use block_proxy.Common.{
  ℕ, ◌+◌, ◌-◌, Bool, true, false, List, [], ◌∷◌, ◌++◌, Option, set, ltb, leb, if◌then◌else◌,
}
use block_proxy.Wire.Buffer.{Bytes, Text}
use block_proxy.Socks.Address.{response}

-- Which read of the handshake a connection waits for, or what it became: `connecting` waits for the
-- answer of the HTTP proxy, `relaying` pipes both ways, `associated` relays datagrams.
pub data Phase : Type 0 where
  greeting authenticating requesting connecting relaying associated over : Phase

pub record Datagram : Type 0 where
  pub host : Text
  pub port : ℕ
  pub content : Bytes

-- A client's socket, with the variables of its closures. `handshaking`, `tcp_counted` and
-- `udp_counted` are true until finishHandshake, the TCP cleanup and the UDP cleanup ran; `buffer` is
-- what the proxy answered so far, or the bytes of UDP frames that are not complete; `written` is
-- what was written to the client, `forwarded` what was written to the proxy's socket, `sent` the
-- datagrams.
pub record Client : Type 0 where
  pub phase : Phase
  pub handshaking : Bool
  pub tcp_counted : Bool
  pub udp_counted : Bool
  pub destroyed : Bool
  pub proxy_destroyed : Bool
  pub host : Text
  pub port : ℕ
  pub buffer : Bytes
  pub written : List Bytes
  pub forwarded : List Bytes
  pub sent : List Datagram

-- `authCredentials` may lack either name; then no text equals it.
pub record Server : Type 0 where
  pub username : Option Text
  pub password : Option Text
  pub clients : List Client
  pub handshaking_sockets : ℕ
  pub active_udp : ℕ
  pub active_tcp : ℕ
  pub accepted_tcp : ℕ
  pub closed_tcp : ℕ
  pub rejected_tcp : ℕ
  pub peak_tcp : ℕ
  pub max_tcp : ℕ

unfoldable pub new : Option Text → Option Text → ℕ → Server
new username password max_tcp = record {
  username = username;
  password = password;
  clients = [];
  handshaking_sockets = 0;
  active_udp = 0;
  active_tcp = 0;
  accepted_tcp = 0;
  closed_tcp = 0;
  rejected_tcp = 0;
  peak_tcp = 0;
  max_tcp = max_tcp;
}

abbrev pub new_client : Client
new_client = record {
  phase = greeting;
  handshaking = true;
  tcp_counted = false;
  udp_counted = false;
  destroyed = false;
  proxy_destroyed = false;
  host = [];
  port = 0;
  buffer = [];
  written = [];
  forwarded = [];
  sent = [];
}

-- A new connection: `handshakingSockets++`.
unfoldable pub accept : Server → Server
accept s = record s {
  clients = s.clients ++ (new_client ∷ []);
  handshaking_sockets = s.handshaking_sockets + 1;
}

abbrev pub put : Server → ℕ → Client → Server
put s id c = record s { clients = set s.clients id c }

abbrev pub write : Client → Bytes → Client
write c b = record c { written = c.written ++ (b ∷ []) }

-- `socket.destroy()`: nothing is read any more; the 'close' event is a step of its own.
abbrev pub destroy : Client → Client
destroy c = record c { destroyed = true }

-- `sendResponse(socket, status); socket.destroy()`
abbrev pub refuse : Client → ℕ → Client
refuse c status = destroy (write c (response status))

-- finishHandshake
unfoldable pub finish_handshake : Server → ℕ → Client → Server
finish_handshake s id c =
    if c.handshaking
    then record (put s id (record c { handshaking = false })) {
      handshaking_sockets = s.handshaking_sockets - 1;
    }
    else put s id c

-- What finishHandshake leaves of the client.
abbrev pub finished : Client → Client
finished c = record c { handshaking = false }

-- handleTcpRequest: refused at the limit, else counted; the proxy's socket is being connected.
unfoldable pub handle_tcp_request : Server → ℕ → Client → Text → ℕ → Server
handle_tcp_request s id c host port =
    if leb s.max_tcp s.active_tcp
    then record (put s id (record (refuse c 5) { phase = over })) {
      rejected_tcp = s.rejected_tcp + 1;
    }
    else record (put s id
        (record c { phase = connecting; tcp_counted = true; host = host; port = port })) {
          active_tcp = s.active_tcp + 1;
          accepted_tcp = s.accepted_tcp + 1;
          peak_tcp = if ltb s.peak_tcp (s.active_tcp + 1) then s.active_tcp + 1 else s.peak_tcp;
        }

-- handleUdpAssociate
unfoldable pub handle_udp_associate : Server → ℕ → Client → Server
handle_udp_associate s id c =
    record (put s id (record (write c (response 0)) { phase = associated; udp_counted = true })) {
      active_udp = s.active_udp + 1;
    }

-- The two cleanups, each of which acts once.
unfoldable pub tcp_cleanup : Server → ℕ → Client → Server
tcp_cleanup s id c =
    if c.tcp_counted
    then record (put s id
        (record c { tcp_counted = false; proxy_destroyed = true; destroyed = true })) {
          active_tcp = s.active_tcp - 1;
          closed_tcp = s.closed_tcp + 1;
        }
    else put s id c

unfoldable pub udp_cleanup : Server → ℕ → Client → Server
udp_cleanup s id c =
    if c.udp_counted
    then record (put s id (record c { udp_counted = false })) { active_udp = s.active_udp - 1 }
    else put s id c
