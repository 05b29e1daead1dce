-- ===== src/Xhttp/State.antt =====
-- The state of the class XhttpHandler of tunnel/xhttpHandler.js, and what it writes to a stream.
use block_proxy.Common.{
  length, ℕ, ◌+◌, Bool, true, false, ◌&&◌, ◌||◌, not, List, [], ◌∷◌, ◌++◌, Option, none, some, ltb,
  ◌==◌, if◌then◌else◌, text_eq,
}
use block_proxy.Wire.Buffer.{Bytes, Text}
use block_proxy.Wire.Frame.{Frame}
use block_proxy.Upload.Queue.{Queue}
use block_proxy.Manager.State.{find, insert}

-- A session; its id and its stream's response are numbers, as the code only compares them. The
-- timers are armed or not. The close sets `closed` and takes the session from the map at once, so
-- the sessions of the map are those that are not closed. `reads` counts the reads of the consume
-- loop that were answered; it waits for the next.
pub record Session : Type 0 where
  pub session_id : ℕ
  pub token : Text
  pub client_id : Text
  pub upload_queue : Queue
  pub sse_res : Option ℕ
  pub capabilities : List Text
  pub keepalive_timer : Bool
  pub last_sse_write : ℕ
  pub cleanup_timer : Bool
  pub connected_order : ℕ
  pub last_activity : ℕ
  pub last_ping : Option Bytes
  pub ping_attempts : ℕ
  pub pong_probe : Bool
  pub reads : ℕ

-- The callbacks: a session created or closed, a frame for the manager.
pub data Notice : Type 0 where
  created closed : ℕ → Text → Notice
  arrived : Frame → ℕ → Notice

-- What is written to a stream: the retry line, or the event of a frame.
pub data Sse : Type 0 where
  retry : Sse
  event : Frame → Sse

pub record Handler : Type 0 where
  pub username : Text
  pub password : Text
  pub max_buffered : ℕ
  pub padding_enabled : Bool
  pub liveness_timeout : ℕ
  pub takeover_grace : ℕ
  pub probe_max_attempts : ℕ
  pub sessions : List (ℕ × Session)
  pub token_sessions : List (Text × List ℕ)
  pub session_order : ℕ
  pub notices : List Notice
  pub written : List (ℕ × Sse)
  pub ended : List ℕ
  pub now : ℕ

abbrev pub notify : Handler → Notice → Handler
notify h n = record h { notices = h.notices ++ (n ∷ []) }

abbrev pub save : Handler → Session → Handler
save h s = record h { sessions = insert h.sessions s.session_id s }

abbrev pub is_open : Session → Bool
is_open s = elim s.sse_res [ none ↦ false | some r ↦ true ]

unfoldable pub member : List ℕ → ℕ → Bool
member [] x = false
member (y ∷ ys) x = let rest = member ys x in if y == x then true else rest

unfoldable pub remove : List ℕ → ℕ → List ℕ
remove [] x = []
remove (y ∷ ys) x = let rest = remove ys x in if y == x then rest else y ∷ rest

-- _tokenSessions, a map from tokens to sets of session ids.
unfoldable pub ids_of : List (Text × List ℕ) → Text → List ℕ
ids_of [] token = []
ids_of ((t, ids) ∷ m) token = let rest = ids_of m token in if text_eq t token then ids else rest

unfoldable pub register : List (Text × List ℕ) → Text → ℕ → List (Text × List ℕ)
register [] token id = (token, id ∷ []) ∷ []
register ((t, ids) ∷ m) token id =
    let rest = register m token id in
    if text_eq t token
    then (t, if member ids id then ids else ids ++ (id ∷ [])) ∷ m
    else (t, ids) ∷ rest

abbrev pub keep_nonempty : Text → List ℕ → List (Text × List ℕ) → List (Text × List ℕ)
keep_nonempty t [] m = m
keep_nonempty t (i ∷ ids) m = (t, i ∷ ids) ∷ m

unfoldable pub unregister : List (Text × List ℕ) → Text → ℕ → List (Text × List ℕ)
unregister [] token id = []
unregister ((t, ids) ∷ m) token id =
    let rest = unregister m token id in
    if text_eq t token then keep_nonempty t (remove ids id) m else (t, ids) ∷ rest

-- _clearPongProbe, _armPongProbe and _scheduleKeepalive: the times are drawn at random, and a timer
-- fires by a step of its own.
abbrev pub clear_pong_probe : Session → Session
clear_pong_probe s = record s { pong_probe = false }

abbrev pub arm_pong_probe : Session → Session
arm_pong_probe s = record s { pong_probe = true }

abbrev pub schedule_keepalive : Session → Session
schedule_keepalive s = if is_open s then record s { keepalive_timer = true } else s

abbrev pub writable : Handler → Session → Bool
writable h s = elim s.sse_res [ none ↦ false | some r ↦ not (member h.ended r) ]

-- _writeSse. A keepalive that is pending is put off; it stays armed.
unfoldable pub write_to : Handler → Session → Option ℕ → Sse → Handler × Session × Bool
write_to h s none chunk = (h, s, false)
write_to h s (some r) chunk = if member h.ended r then (h, s, false) else (
  record h { written = h.written ++ ((r, chunk) ∷ []) },
  record s { last_sse_write = h.now },
  true,
)

unfoldable pub write_sse : Handler → Session → Sse → Handler × Session × Bool
write_sse h s chunk = write_to h s s.sse_res chunk

-- pushFrame and sendEncodedFrame; the number of a session may be unknown.
unfoldable pub push_found : Handler → Option Session → Frame → Handler × Bool
push_found h none f = (h, false)
push_found h (some s) f =
    let (h', s', sent) = write_sse h s (event f) in
    if is_open s then (save h' s', sent) else (h, false)

unfoldable pub push_frame : Handler → ℕ → Frame → Handler × Bool
push_frame h id f = push_found h (find h.sessions id) f

-- getActiveSessionId and getActiveSessionIdForToken: the open session that connected last.
unfoldable pub latest_of : List (ℕ × Session) → Option ℕ → ℕ → Option ℕ
latest_of [] latest order = latest
latest_of ((id, s) ∷ m) latest order =
    let newer = is_open s && ltb order s.connected_order in
    latest_of m (if newer then some id else latest) (if newer then s.connected_order else order)

unfoldable pub get_active_session_id : Handler → Option ℕ
get_active_session_id h = latest_of h.sessions none 0

unfoldable pub sessions_of : Handler → List ℕ → List (ℕ × Session)
sessions_of h [] = []
sessions_of h (id ∷ ids) = elim (find h.sessions id) [
  | none ↦ sessions_of h ids
  | some s ↦ (id, s) ∷ sessions_of h ids
]

unfoldable pub get_active_session_id_for_token : Handler → Text → Option ℕ
get_active_session_id_for_token h token =
    latest_of (sessions_of h (ids_of h.token_sessions token)) none 0

unfoldable pub any_open : List (ℕ × Session) → Bool
any_open [] = false
any_open ((id, s) ∷ m) = is_open s || any_open m

unfoldable pub has_active_sse : Handler → Text → Bool
has_active_sse h token = any_open (sessions_of h (ids_of h.token_sessions token))

-- getConnectionCounts; every session is authenticated.
pub record Counts : Type 0 where
  pub active : ℕ
  pub draining : ℕ
  pub total : ℕ

abbrev pub is_id : Option ℕ → ℕ → Bool
is_id none id = false
is_id (some a) id = id == a

unfoldable pub count_from : List (ℕ × Session) → Option ℕ → Counts → Counts
count_from [] current c = c
count_from ((id, s) ∷ m) current c = count_from m current (record {
  active = if is_open s && is_id current id then c.active + 1 else c.active;
  draining = if is_open s && not (is_id current id) then c.draining + 1 else c.draining;
  total = c.total + 1;
})

unfoldable pub get_connection_counts : Handler → Counts
get_connection_counts h =
    count_from h.sessions (get_active_session_id h) (record { active = 0; draining = 0; total = 0 })

unfoldable pub set_credentials : Handler → Text → Text → Handler
set_credentials h username password = record h { username = username; password = password }

-- _readBody, on the chunks that arrive before the end: `none` where the body grows too large, and
-- the request is destroyed.
abbrev pub max_post_body_size : ℕ
max_post_body_size = 70000

unfoldable pub read_chunks : ℕ → Bytes → List Bytes → Option Bytes
read_chunks total seen [] = some seen
read_chunks total seen (c ∷ chunks) =
    let more = read_chunks (total + length c) (seen ++ c) chunks in
    if ltb max_post_body_size (total + length c) then none else more

unfoldable pub read_body : List Bytes → Option Bytes
read_body chunks = read_chunks 0 [] chunks
