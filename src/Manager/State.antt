-- ===== src/Manager/State.antt =====
-- The state of the class TunnelManager of tunnel/manager.js, and _clearActiveRequest.
use block_proxy.Common.{ℕ, ◌+◌, ◌-◌, Bool, true, false, ◌&&◌}
use block_proxy.Common.{
  List, [], ◌∷◌, ◌++◌, Option, none, some, length, get_elem?, set, drop, ltb, leb, ◌==◌,
  if◌then◌else◌, text_eq,
}
use block_proxy.Wire.Buffer.{Bytes, Text}
use block_proxy.Wire.Frame.{Frame, close}

pub data Direction : Type 0 where
  reverse forward : Direction

-- What is written to the socket of a forward request: a string, or the bytes of a DATA frame.
pub data Written : Type 0 where
  request : Text → Written
  raw : Bytes → Written

-- An entry of _activeRequests with its stream, its socket and the variables of its closures.
-- `counted` is the field of that name for a reverse request, and for a forward one `!cleaned`;
-- `timeout` and `idle_timer` say that the timer is armed. `pushed` is what the stream was given to
-- read, with `none` for the null at the end; `written` is what the socket was given to write.
pub record Entry : Type 0 where
  pub reqid : ℕ
  pub session : ℕ
  pub direction : Direction
  pub host : Text
  pub port : ℕ
  pub confirmed : Bool
  pub counted : Bool
  pub timeout : Bool
  pub idle_timer : Bool
  pub last_activity : ℕ
  pub response : Bytes
  pub stream_destroyed : Bool
  pub socket_destroyed : Bool
  pub pushed : List (Option Bytes)
  pub written : List Written

-- Session ids are numbers here: the code only compares them. `entries` holds every entry ever made,
-- at its number, since timers and sockets keep theirs after it left the map; `active` is the map
-- _activeRequests, from request ids to numbers of entries; `sent` is what was given to sendFrame
-- and sendEncodedFrame of the server, with the session; `pending` holds what the loops that wait
-- for setImmediate have yet to send; `now` is Date.now().
pub record Manager : Type 0 where
  pub tunnel_domains : List Text
  pub reqid_counter : ℕ
  pub entries : List Entry
  pub active : List (ℕ × ℕ)
  pub forward_count : ℕ
  pub reverse_count : ℕ
  pub max_forward : ℕ
  pub max_reverse : ℕ
  pub reverse_idle_timeout : ℕ
  pub connected : Bool
  pub client_address : Option Text
  pub session_tokens : List (ℕ × Option Text)
  pub sent : List (ℕ × Frame)
  pub pending : List (ℕ × List Frame)
  pub now : ℕ

-- The map operations of JavaScript: `get`, `set`, which keeps the place of a key, and `delete`.
module _ {A : Type 0} where
  unfoldable pub find : List (ℕ × A) → ℕ → Option A
  find [] k = none
  find ((k', v) ∷ m) k = let rest = find m k in if k' == k then some v else rest

  unfoldable pub insert : List (ℕ × A) → ℕ → A → List (ℕ × A)
  insert [] k v = (k, v) ∷ []
  insert ((k', v') ∷ m) k v =
      let rest = insert m k v in if k' == k then (k, v) ∷ m else (k', v') ∷ rest

  unfoldable pub delete : List (ℕ × A) → ℕ → List (ℕ × A)
  delete [] k = []
  delete ((k', v) ∷ m) k = let rest = delete m k in if k' == k then rest else (k', v) ∷ rest

-- The constructor, for the limits and the domains of its configuration.
unfoldable pub new : List Text → ℕ → ℕ → ℕ → Manager
new tunnel_domains max_forward max_reverse reverse_idle_timeout = record {
  tunnel_domains = tunnel_domains;
  reqid_counter = 0;
  entries = [];
  active = [];
  forward_count = 0;
  reverse_count = 0;
  max_forward = max_forward;
  max_reverse = max_reverse;
  reverse_idle_timeout = reverse_idle_timeout;
  connected = false;
  client_address = none;
  session_tokens = [];
  sent = [];
  pending = [];
  now = 0;
}

-- `host.endsWith('.' + domain)`
unfoldable pub ends_with : Text → Text → Bool
ends_with host suffix =
    leb (length suffix) (length host) && text_eq (drop (length host - length suffix) host) suffix

unfoldable pub matches_any : List Text → Text → Bool
matches_any [] host = false
matches_any (d ∷ ds) host =
    let rest = matches_any ds host in
    if text_eq host d then true else if ends_with host (b'.' ∷ d) then true else rest

unfoldable pub matches_tunnel_domain : Manager → Text → Bool
matches_tunnel_domain m host = matches_any m.tunnel_domains host

-- The counter is taken after a step, and 32767 is followed by 1.
unfoldable pub next_reqid : ℕ → ℕ
next_reqid counter = if ltb 0x7fff (counter + 1) then 1 else counter + 1

abbrev pub put : Manager → ℕ → Entry → Manager
put m id e = record m { entries = set m.entries id e }

abbrev pub send : Manager → Frame → ℕ → Manager
send m f session = record m { sent = m.sent ++ ((session, f) ∷ []) }

-- An entry of the map, with its number.
unfoldable pub entry_at : Manager → Option ℕ → Option (ℕ × Entry)
entry_at m none = none
entry_at m (some id) = elim (get_elem? m.entries id) [ none ↦ none | some e ↦ some (id, e) ]

unfoldable pub lookup : Manager → ℕ → Option (ℕ × Entry)
lookup m reqid = entry_at m (find m.active reqid)

-- _clearActiveRequest: the timers stop, a counted reverse request is counted off, the entry leaves.
abbrev pub forget : Manager → ℕ → Manager
forget m reqid = record m { active = delete m.active reqid }

abbrev pub disarm : Entry → Entry
disarm e = record e { timeout = false; idle_timer = false }

abbrev pub is_reverse : Entry → Bool
is_reverse e = elim e.direction [ reverse ↦ true | forward ↦ false ]

abbrev pub uncount : Manager → ℕ → Entry → Manager
uncount m id e = record (put m id (record e { counted = false })) {
  reverse_count = m.reverse_count - 1;
}

unfoldable pub clear_found : Manager → ℕ → Option (ℕ × Entry) → Manager
clear_found m reqid none = m
clear_found m reqid (some (id, e)) =
    if is_reverse e && e.counted
    then forget (uncount m id (disarm e)) reqid
    else forget (put m id (disarm e)) reqid

unfoldable pub clear_active_request : Manager → ℕ → Manager
clear_active_request m reqid = clear_found m reqid (lookup m reqid)

-- _sendClose, and what `destroy` and `end` of a TunnelDuplex do by it (_destroy, _final).
unfoldable pub close_found : Manager → ℕ → Option (ℕ × Entry) → Manager
close_found m reqid none = m
close_found m reqid (some (id, e)) =
    clear_active_request
      (send (put m id (record e { last_activity = m.now })) (close reqid) e.session) reqid

unfoldable pub send_close : Manager → ℕ → Manager
send_close m reqid = close_found m reqid (lookup m reqid)

-- `stream.destroy(error)`, which does nothing on a destroyed stream.
unfoldable pub destroy_stream : Manager → ℕ → Manager
destroy_stream m id = elim (get_elem? m.entries id) [
  | none ↦ m
  | some e ↦
      if e.stream_destroyed
      then m
      else send_close (put m id (record e { stream_destroyed = true })) e.reqid
]

-- `socket.destroy()`; its 'close' event is a step of its own.
unfoldable pub destroy_socket : Manager → ℕ → Manager
destroy_socket m id = elim (get_elem? m.entries id) [
  | none ↦ m
  | some e ↦ put m id (record e { socket_destroyed = true })
]
