-- ===== src/Socks/Steps.antt =====
-- The events of the SOCKS5 server, in any order: chunks, ends and timeouts of its sockets.
use block_proxy.Common.{
  ℕ, Bool, true, false, List, [], ◌∷◌, Option, none, some, get_elem?, if◌then◌else◌,
}
use block_proxy.Wire.Buffer.{Bytes, Text, Node}
use block_proxy.Socks.State.{
  Phase, connecting, relaying, associated, over, Client, Server, accept, put, destroy,
  finish_handshake, tcp_cleanup, udp_cleanup,
}
use block_proxy.Socks.Handshake.{handshake_data, handshake_fails}
use block_proxy.Socks.Relay.{
  proxy_connected, proxy_data, client_data, proxy_error, proxy_timeout, client_timeout,
}
use block_proxy.Socks.Udp.{udp_data, udp_message}

-- A client is named by the number of its connection.
pub data Event : Type 0 where
  connects : Event
  client_sends : ℕ → Bytes → Event
  client_fails client_idles client_closes : ℕ → Event
  proxy_connects proxy_fails proxy_idles proxy_closes : ℕ → Event
  proxy_sends : ℕ → Bytes → Event
  udp_receives : ℕ → Text → ℕ → Bytes → Event

-- Which counters a client still stands in, given the phase it is in.
abbrev pub is_relay : Phase → Bool
is_relay connecting = true
is_relay relaying = true
is_relay _ = false

module _ (node : Node) (decimal : ℕ → Text) where
  open node use {utf8}

  -- 'data' of the client's socket.
  unfoldable pub client_chunk : Server → ℕ → Client → Phase → Bytes → Server
  client_chunk s id c associated b = put s id (udp_data node c b)
  client_chunk s id c relaying b = put s id (client_data c relaying b)
  client_chunk s id c connecting b = s
  client_chunk s id c over b = s
  client_chunk s id c p b = handshake_data node s id c p b

  -- 'error' of the client's socket, and the end or the timeout of a read of the handshake: the
  -- handshake is over, the proxy's socket is destroyed, or the relay of datagrams is cleaned up.
  unfoldable pub client_error : Server → ℕ → Client → Phase → Server
  client_error s id c associated = udp_cleanup s id c
  client_error s id c connecting = put s id (proxy_timeout c)
  client_error s id c relaying = put s id (proxy_timeout c)
  client_error s id c p = handshake_fails node s id c p

  -- 'close' of the client's socket: finishHandshake, and the cleanup of what the connection became.
  abbrev pub tcp_undone : Server → ℕ → Server
  tcp_undone s id = elim (get_elem? s.clients id) [ none ↦ s | some c ↦ tcp_cleanup s id c ]

  abbrev pub udp_undone : Server → ℕ → Server
  udp_undone s id = elim (get_elem? s.clients id) [ none ↦ s | some c ↦ udp_cleanup s id c ]

  unfoldable pub client_closed : Server → ℕ → Client → Server
  client_closed s id c =
      udp_undone (tcp_undone (finish_handshake s id (record (destroy c) { phase = over })) id) id

  -- 'message' of the UDP socket, which an associated client has.
  unfoldable pub on_udp : Server → ℕ → Client → Phase → Text → ℕ → Bytes → Server
  on_udp s id c associated address port content = put s id (udp_message c address port content)
  on_udp s id c _ address port content = s

  abbrev pub at_client : Server → Option Client → (Client → Server) → Server
  at_client s none act = s
  at_client s (some c) act = act c

  unfoldable pub step : Server → Event → Server
  step s connects = accept s
  step s (client_sends id b) =
      at_client s (get_elem? s.clients id)
        λ c. if c.destroyed then s else client_chunk s id c c.phase b
  step s (client_fails id) = at_client s (get_elem? s.clients id) λ c. client_error s id c c.phase
  step s (client_idles id) = at_client s (get_elem? s.clients id) λ c. put s id (client_timeout c)
  step s (client_closes id) = at_client s (get_elem? s.clients id) λ c. client_closed s id c
  step s (proxy_connects id) =
      at_client s (get_elem? s.clients id)
        λ c. if is_relay c.phase then put s id (proxy_connected utf8 decimal c) else s
  step s (proxy_fails id) =
      at_client s (get_elem? s.clients id)
        λ c. if is_relay c.phase then put s id (proxy_error c) else s
  step s (proxy_idles id) = at_client s (get_elem? s.clients id) λ c. put s id (proxy_timeout c)
  step s (proxy_closes id) = at_client s (get_elem? s.clients id) λ c. tcp_cleanup s id c
  step s (proxy_sends id b) =
      at_client s (get_elem? s.clients id) λ c. put s id (proxy_data c c.phase b)
  step s (udp_receives id address port content) =
      at_client s (get_elem? s.clients id) λ c. on_udp s id c c.phase address port content

  unfoldable pub run : Server → List Event → Server
  run s [] = s
  run s (e ∷ es) = run (step s e) es
