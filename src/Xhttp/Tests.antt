-- ===== src/Xhttp/Tests.antt =====
-- Runs of the session handler, and the theorems on it at concrete inputs.
use block_proxy.Common.{
  if◌then◌else◌, ◌==◌, ◌↔◌, ◌&&◌, length, ◌≤◌, ◌<◌, ◌+◌, ℕ, ◌≡◌, refl, true, false, [], ◌∷◌, none,
  some, ok, ◌⊎◌, text_eq,
}
use block_proxy.Wire.Buffer.{Bytes, Text}
use block_proxy.Wire.Frame.{Frame}
use block_proxy.Wire.Frame.Decode.{decode_frame}
use block_proxy.Wire.Tests.{ascii}
use block_proxy.Upload.Queue.{new}
use block_proxy.Manager.State.{find, delete}
use block_proxy.Xhttp.Routes.{
  route, upload, sub_route, starts_with, upload_route, split_from, or_root, parse_seq, signed,
  skip_spaces, zero_only, unsigned, digits_value,
}
use block_proxy.Xhttp.State.{
  max_post_body_size, read_body, Session, Handler, is_open, get_active_session_id, unregister,
  remove, member, ids_of,
}
use block_proxy.Xhttp.Sessions.{
  close_session, close_found, close_each, sweep_stale_sessions, stale_ids,
}
use block_proxy.Xhttp.Requests.{
  handle_upload, upload_for, upload_read, upload_body, queue_overflow, handle_create, handle_close,
  handle_stream,
}
use block_proxy.Xhttp.Active.{Among, NoneLater, get_active_session_id-NoneLater}
use block_proxy.Xhttp.Access.{
  IsAuthorized, IsToken, handle_create-access, handle_close-access, handle_stream-access,
}
use block_proxy.Xhttp.Bodies.{joined, read_body-joined}
use block_proxy.Xhttp.Closing.{IsAlive, sweep_stale_sessions-find}
use block_proxy.Xhttp.Tokens.{has_token, close_session-find}

abbrev session : ℕ → ℕ → ℕ → Session
session id order last_activity = record {
  session_id = id;
  token = b'u' ∷ b':' ∷ b'p' ∷ [];
  client_id = b'c' ∷ [];
  upload_queue = new 64;
  sse_res = some (id + 100);
  capabilities = [];
  keepalive_timer = true;
  last_sse_write = 0;
  cleanup_timer = false;
  connected_order = order;
  last_activity = last_activity;
  last_ping = none;
  ping_attempts = 0;
  pong_probe = false;
  reads = 0;
}

-- Two sessions with open streams, of which the first has been silent for too long.
abbrev two_sessions : Handler
two_sessions = record {
  username = b'u' ∷ [];
  password = b'p' ∷ [];
  max_buffered = 64;
  padding_enabled = false;
  liveness_timeout = 90;
  takeover_grace = 60;
  probe_max_attempts = 10;
  sessions = (5, session 5 1 0) ∷ (6, session 6 2 80) ∷ [];
  token_sessions = (b'u' ∷ b':' ∷ b'p' ∷ [], 5 ∷ 6 ∷ []) ∷ [];
  session_order = 2;
  notices = [];
  written = [];
  ended = [];
  now = 100;
}

-- A hash that keeps the text.
abbrev plain : Text → Text
plain t = t

upload_path_example :
    route (b'/' ∷ b'x' ∷ []) (b'P' ∷ b'O' ∷ b'S' ∷ b'T' ∷ []) (
      b'/' ∷ b'x' ∷ b'/' ∷ b'u' ∷ b'p' ∷ b'l' ∷ b'o' ∷ b'a' ∷ b'd' ∷ b'/' ∷ b'7' ∷ b'/' ∷ b'1'
      ∷ b'2' ∷ [])
    ≡ some (upload (b'7' ∷ []) (b'1' ∷ b'2' ∷ []))
unfolding route sub_route starts_with upload_route split_from or_root text_eq
upload_path_example = refl

seq_example : parse_seq (b'1' ∷ b'2' ∷ b'x' ∷ []) ≡ some 12
unfolding parse_seq signed skip_spaces zero_only unsigned digits_value
seq_example = refl

six_stays : find (sweep_stale_sessions two_sessions).sessions 6 ≡ some (session 6 2 80)
unfolding find delete sweep_stale_sessions stale_ids close_each close_session close_found unregister
    remove text_eq
six_stays = refl

sweep_stale_sessions-find_example :
    (find (sweep_stale_sessions two_sessions).sessions 6 ≡ some (session 6 2 80)) ↔ (
      (find two_sessions.sessions 6 ≡ some (session 6 2 80))
      × IsAlive two_sessions (session 6 2 80))
unfolding find
sweep_stale_sessions-find_example =
    sweep_stale_sessions-find two_sessions 6 (session 6 2 80) (refl, (refl, tt))

close_session-find_example :
    (find (close_session two_sessions 5).sessions 6
      ≡ (if 5 == 6 then none else find two_sessions.sessions 6))
    × (member (ids_of (close_session two_sessions 5).token_sessions (b'u' ∷ b':' ∷ b'p' ∷ [])) 6 ≡ (
        if has_token (find two_sessions.sessions 5) (b'u' ∷ b':' ∷ b'p' ∷ []) && (5 == 6)
        then false
        else member (ids_of two_sessions.token_sessions (b'u' ∷ b':' ∷ b'p' ∷ [])) 6))
unfolding ids_of
close_session-find_example =
    close_session-find two_sessions 5 6 (b'u' ∷ b':' ∷ b'p' ∷ []) (refl, tt)

get_active_session_id-NoneLater_example :
    ((get_active_session_id two_sessions ≡ none) × NoneLater 0 two_sessions.sessions)
    ⊎ ((id : ℕ) × (s : Session) × Among id s two_sessions.sessions
        × (is_open s ≡ true)
        × (get_active_session_id two_sessions ≡ some id)
        × NoneLater s.connected_order two_sessions.sessions)
get_active_session_id-NoneLater_example = get_active_session_id-NoneLater two_sessions

handle_close-access_example :
    ((handle_close plain two_sessions (b'x' ∷ []) 5).0 ≡ two_sessions)
    ⊎ (IsToken plain two_sessions (b'x' ∷ [])
        × ((s : Session) × (find two_sessions.sessions 5 ≡ some s)
            × (s.token ≡ (b'x' ∷ []))
            × ((handle_close plain two_sessions (b'x' ∷ []) 5).0 ≡ close_session two_sessions 5)))
handle_close-access_example = handle_close-access plain two_sessions (b'x' ∷ []) 5

handle_stream-access_example :
    ((handle_stream plain two_sessions (b'x' ∷ []) (some 5) none 105).0 ≡ two_sessions)
    ⊎ (IsToken plain two_sessions (b'x' ∷ [])
        × ((s : Session) × (k : ℕ) × (some 5 ≡ some k)
            × (find two_sessions.sessions k ≡ some s)
            × ((s.client_id ≡ []) ⊎ (none ≡ some s.client_id))))
handle_stream-access_example = handle_stream-access plain two_sessions (b'x' ∷ []) (some 5) none 105

-- A frame of type 9, which there is not.
abbrev no_frame : Bytes
no_frame = 0 ∷ 1 ∷ 9 ∷ []

handle_create-access_example :
    ((handle_create plain ascii two_sessions 7 (some no_frame)).0 ≡ two_sessions)
    ⊎ ((b : Bytes) × (f : Frame) × (n : ℕ) × (some no_frame ≡ some b)
        × (decode_frame ascii b ≡ ok (f, n))
        × IsAuthorized two_sessions f)
handle_create-access_example = handle_create-access plain ascii two_sessions 7 (some no_frame)

read_body-joined_example :
    ((read_body ((1 ∷ []) ∷ (2 ∷ []) ∷ []) ≡ some (joined ((1 ∷ []) ∷ (2 ∷ []) ∷ [])))
      × (length (joined ((1 ∷ []) ∷ (2 ∷ []) ∷ [])) ≤ max_post_body_size))
    ⊎ ((read_body ((1 ∷ []) ∷ (2 ∷ []) ∷ []) ≡ none)
        × (max_post_body_size < length (joined ((1 ∷ []) ∷ (2 ∷ []) ∷ []))))
read_body-joined_example = read_body-joined ((1 ∷ []) ∷ (2 ∷ []) ∷ [])

-- A body that comes in after its session was closed is answered with 503.
late_upload :
    (handle_upload two_sessions 5 (b'0' ∷ []) ≡ ok 0)
    × ((upload_read (close_session two_sessions 5) 5 0 (some (1 ∷ []))).1 ≡ queue_overflow)
unfolding handle_upload upload_for upload_read upload_body parse_seq signed skip_spaces zero_only
    unsigned digits_value find delete close_session close_found
late_upload = (refl, refl)
