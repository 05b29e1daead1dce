-- ===== src/Manager/Forward/Sockets.antt =====
-- The timers of TunnelManager and the socket of a forward request.
use block_proxy.Common.{
  ℕ, ◌+◌, ◌-◌, Bool, true, false, ◌&&◌, not, [], ◌∷◌, ◌++◌, Option, none, some, length, get_elem?,
  take, drop, ltb, if◌then◌else◌, text_eq,
}
use block_proxy.Wire.Buffer.{Bytes, Text}
use block_proxy.Wire.Frame.{connect_ok, connect_failed}
use block_proxy.Manager.State.{
  Manager, Entry, request, find, put, send, clear_active_request, destroy_stream, destroy_socket,
}
use block_proxy.Manager.Calls.{touch}
use block_proxy.Manager.Forward.Sending.{send_close_to_client, send_data_to_client}

-- `b.indexOf(pattern)`, from a position on.
unfoldable pub index_from : Bytes → Bytes → ℕ → Option ℕ
index_from pattern [] i = if text_eq pattern [] then some i else none
index_from pattern (x ∷ b) i =
    let rest = index_from pattern b (i + 1) in
    if text_eq (take (length pattern) (x ∷ b)) pattern then some i else rest

abbrev pub index_of : Bytes → Bytes → Option ℕ
index_of b pattern = index_from pattern b 0

abbrev pub crlf : Bytes
crlf = 13 ∷ 10 ∷ []

-- `cleanup` of a forward request, which acts once.
unfoldable pub cleanup : Manager → ℕ → Entry → Manager
cleanup m id e =
    if e.counted
    then destroy_socket
        (clear_active_request
          (record (put m id (record e { counted = false; idle_timer = false })) {
            forward_count = m.forward_count - 1;
          })
          e.reqid)
        id
    else m

abbrev pub still_active : Manager → ℕ → Bool
still_active m reqid = elim (find m.active reqid) [ none ↦ false | some id ↦ true ]

-- The timers, each when it is armed and fires: it is armed no longer.
unfoldable pub forward_timeout : Manager → ℕ → Entry → Manager
forward_timeout m id e =
    let fired = record e { timeout = false } in
    cleanup (send (put m id fired) (connect_failed e.reqid) e.session) id fired

unfoldable pub forward_idle : Manager → ℕ → Entry → Manager
forward_idle m id e =
    let fired = record e { idle_timer = false } in cleanup (put m id fired) id fired

unfoldable pub reverse_timeout : Manager → ℕ → Entry → Manager
reverse_timeout m id e =
    let fired = put m id (record e { timeout = false }) in
    if still_active fired e.reqid && not e.confirmed
    then destroy_stream (clear_active_request fired e.reqid) id
    else fired

unfoldable pub reverse_idle : Manager → ℕ → Entry → Manager
reverse_idle m id e = destroy_stream (put m id (record e { idle_timer = false })) id

-- 'connect' of the socket: the CONNECT request for the local proxy, `decimal` printing the port.
unfoldable pub connect_request : (ℕ → Text) → Text → ℕ → Text
connect_request decimal host port =
    let target = host ++ (b':' ∷ decimal port) in
    (b'C' ∷ b'O' ∷ b'N' ∷ b'N' ∷ b'E' ∷ b'C' ∷ b'T' ∷ b' ' ∷ target)
    ++ ((b' ' ∷ b'H' ∷ b'T' ∷ b'T' ∷ b'P' ∷ b'/' ∷ b'1' ∷ b'.' ∷ b'1' ∷ crlf)
        ++ ((b'H' ∷ b'o' ∷ b's' ∷ b't' ∷ b':' ∷ b' ' ∷ target) ++ (crlf ++ crlf)))

unfoldable pub socket_connected : (ℕ → Text) → Manager → ℕ → Entry → Manager
socket_connected decimal m id e =
    put m id
      (record e { written = e.written ++ (request (connect_request decimal e.host e.port) ∷ []) })

-- 'data' of the socket, once the response to CONNECT is complete: `head` is where its blank line is.
-- The status line is searched as bytes: " 2" is found in them where it is found in the text.
abbrev pub status_line : Bytes → Bytes
status_line response = elim (index_of response crlf) [ none ↦ [] | some i ↦ take i response ]

abbrev pub is_success : Bytes → Bool
is_success response = elim (index_of (status_line response) (b' ' ∷ b'2' ∷ [])) [
  | none ↦ false
  | some i ↦ true
]

unfoldable pub response_complete : Manager → ℕ → Entry → Bytes → ℕ → Manager
response_complete m id e response head =
    let failed = record e { response = response } in
    let remaining = drop (head + 4) response in
    let done = record e { response = []; timeout = false; confirmed = true; idle_timer = true } in
    let answered = send (put m id done) (connect_ok e.reqid) e.session in
    if is_success response
    then if ltb 0 (length remaining)
      then send_data_to_client answered e.reqid remaining e.session
      else answered
    else cleanup (send (put m id failed) (connect_failed e.reqid) e.session) id failed

unfoldable pub response_data : Manager → ℕ → Entry → Bytes → Manager
response_data m id e bytes =
    let response = e.response ++ bytes in
    let t = touch m e in
    elim (index_of response (crlf ++ crlf)) [
      | none ↦ put m id (record t { response = response })
      | some head ↦ response_complete (put m id t) id t response head
    ]

unfoldable pub socket_data : Manager → ℕ → Entry → Bytes → Manager
socket_data m id e bytes =
    if e.confirmed
    then send_data_to_client (put m id (record (touch m e) { idle_timer = true })) e.reqid bytes
        e.session
    else response_data m id e bytes

-- `cleanup`, with the entry as it stands.
unfoldable pub close_now : Manager → ℕ → Manager
close_now m id = elim (get_elem? m.entries id) [ none ↦ m | some e ↦ cleanup m id e ]

-- 'close' and 'error' of the socket.
unfoldable pub socket_closed : Manager → ℕ → Entry → Manager
socket_closed m id e =
    let touched = send_close_to_client m e.reqid e.session in
    let told = if e.confirmed && still_active m e.reqid then touched else m in close_now told id

unfoldable pub socket_error : Manager → ℕ → Entry → Manager
socket_error m id e =
    if e.confirmed
    then socket_closed m id e
    else cleanup (send m (connect_failed e.reqid) e.session) id e
