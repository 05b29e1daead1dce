-- ===== src/Manager/Calls.antt =====
-- The calls and the frames of TunnelManager: forward, _createReverseForwardStream, handleFrame.
use block_proxy.Common.{
  ℕ, ◌+◌, ◌&&◌, true, false, [], ◌∷◌, ◌++◌, Option, none, some, Result, ok, err, length, get_elem?,
  ltb, leb, if◌then◌else◌,
}
use block_proxy.Wire.Buffer.{Bytes, Text}
use block_proxy.Wire.Address.{Addr, domain}
use block_proxy.Wire.Frame.{Frame, chunk, connect, close, connect_ok, connect_failed, ping, pong}
use block_proxy.Manager.State.{
  Manager, Entry, Direction, reverse, forward, raw, insert, lookup, next_reqid,
  matches_tunnel_domain, put, send, is_reverse, clear_active_request, destroy_stream,
  destroy_socket,
}

-- The messages of the streams that `forward` returns when it refuses.
pub data Refusal : Type 0 where
  tunnel_disconnected tunnel_reverse_limit : Refusal

-- The fields of a new entry, in either direction.
abbrev pub new_entry : Direction → ℕ → ℕ → Text → ℕ → ℕ → Entry
new_entry direction reqid session host port now = record {
  reqid = reqid;
  session = session;
  direction = direction;
  host = host;
  port = port;
  confirmed = false;
  counted = true;
  timeout = true;
  idle_timer = false;
  last_activity = now;
  response = [];
  stream_destroyed = false;
  socket_destroyed = false;
  pushed = [];
  written = [];
}

-- `_activeRequests.set(reqid, entry)`, for a new entry.
abbrev pub add_entry : Manager → Entry → Manager
add_entry m e = record m {
  entries = m.entries ++ (e ∷ []);
  active = insert m.active e.reqid (length m.entries);
}

unfoldable pub create_reverse : Manager → ℕ → Text → ℕ → Manager
create_reverse m session host port =
    let reqid = next_reqid m.reqid_counter in
    let counted = record m { reqid_counter = reqid; reverse_count = m.reverse_count + 1 } in
    let added = add_entry counted (new_entry reverse reqid session host port m.now) in
    send added (connect reqid domain (Addr.text host) port) session

-- forward(host, port), with what getActiveSessionId of the server returns; the result is the number
-- of the new entry.
unfoldable pub forward_for : Manager → Text → ℕ → Option ℕ → Result Refusal (Manager × ℕ)
forward_for m host port none = err tunnel_disconnected
forward_for m host port (some session) =
    if leb m.max_reverse m.reverse_count
    then err tunnel_reverse_limit
    else ok (create_reverse m session host port, length m.entries)

unfoldable pub forward_call : Manager → Option ℕ → Text → ℕ → Result Refusal (Manager × ℕ)
forward_call m active_session host port =
    if m.connected then forward_for m host port active_session else err tunnel_disconnected

-- resetIdleTimer of a reverse request.
abbrev pub reset_idle : Manager → Entry → Entry
reset_idle m e = record e {
  idle_timer = if is_reverse e && ltb 0 m.reverse_idle_timeout then true else e.idle_timer;
}

abbrev pub touch : Manager → Entry → Entry
touch m e = record e { last_activity = m.now }

-- CONNECT_OK, with the handler of 'tunnel-connect-ok', which reverse streams have.
unfoldable pub confirm : Manager → ℕ → Entry → Manager
confirm m id e =
    let t = reset_idle m (record (touch m e) { confirmed = true }) in
    put m id (record t { timeout = if is_reverse e then false else t.timeout })

abbrev pub push_to : Entry → Option Bytes → Entry
push_to e bytes = record e { pushed = e.pushed ++ (bytes ∷ []) }

unfoldable pub receive : Manager → ℕ → Entry → Bytes → Manager
receive m id e bytes =
    let t = reset_idle m (touch m e) in
    put m id (
      if is_reverse e
      then push_to t (some bytes)
      else record t { written = t.written ++ (raw bytes ∷ []) })

unfoldable pub push_end : Manager → ℕ → Manager
push_end m id = elim (get_elem? m.entries id) [ none ↦ m | some e ↦ put m id (push_to e none) ]

unfoldable pub close_received : Manager → ℕ → Entry → ℕ → Manager
close_received m id e reqid =
    let t = put m id (touch m e) in
    if is_reverse e
    then push_end (clear_active_request t reqid) id
    else clear_active_request (destroy_socket t id) reqid

unfoldable pub failure_received : Manager → ℕ → Entry → ℕ → Manager
failure_received m id e reqid =
    let t = put m id (touch m e) in
    clear_active_request (destroy_stream (if is_reverse e then t else destroy_socket t id) id) reqid

-- _handleForwardConnect: refused for a domain of the tunnel itself and at the limit.
unfoldable pub accept_forward : Manager → ℕ → Text → ℕ → ℕ → Manager
accept_forward m reqid host port session =
    record (add_entry m (new_entry forward reqid session host port m.now)) {
      forward_count = m.forward_count + 1;
    }

unfoldable pub handle_forward_connect : Manager → ℕ → Text → ℕ → ℕ → Manager
handle_forward_connect m reqid host port session =
    if matches_tunnel_domain m host
    then send m (connect_failed reqid) session
    else if leb m.max_forward m.forward_count
    then send m (connect_failed reqid) session
    else accept_forward m reqid host port session

-- The address of a decoded CONNECT is a text.
abbrev pub host_of : Addr → Text
host_of (Addr.text t) = t
host_of (Addr.raw b) = b

-- The `switch` of handleFrame, on an entry of the map.
unfoldable pub frame_for : Manager → Frame → ℕ → Option (ℕ × Entry) → Manager
frame_for m f reqid none = m
frame_for m (connect_ok _) reqid (some (id, e)) = confirm m id e
frame_for m (chunk _ bytes) reqid (some (id, e)) = receive m id e bytes
frame_for m (close _) reqid (some (id, e)) = close_received m id e reqid
frame_for m (connect_failed _) reqid (some (id, e)) = failure_received m id e reqid
frame_for m _ reqid (some (id, e)) = m

-- handleFrame. The frames without a request id find no entry.
unfoldable pub handle_frame : Manager → Frame → ℕ → Manager
handle_frame m (connect reqid atyp addr port) session =
    handle_forward_connect m reqid (host_of addr) port session
handle_frame m (ping payload) session = send m (pong payload) session
handle_frame m (connect_ok reqid) session = frame_for m (connect_ok reqid) reqid (lookup m reqid)
handle_frame m (chunk reqid bytes) session = frame_for m (chunk reqid bytes) reqid (lookup m reqid)
handle_frame m (close reqid) session = frame_for m (close reqid) reqid (lookup m reqid)
handle_frame m (connect_failed reqid) session =
    frame_for m (connect_failed reqid) reqid (lookup m reqid)
handle_frame m _ session = m
