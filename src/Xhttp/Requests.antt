-- ===== src/Xhttp/Requests.antt =====
-- The handlers of the routes of tunnel/xhttpHandler.js: create, close, upload and stream.
use block_proxy.Common.{
  ℕ, ◌+◌, ◌-◌, Bool, true, false, ◌&&◌, ◌||◌, List, [], ◌∷◌, ◌++◌, Option, none, some, Result, ok,
  err, ltb, if◌then◌else◌, text_eq,
}
use block_proxy.Wire.Buffer.{Bytes, Text, Node}
use block_proxy.Wire.Frame.{Frame, auth, auth_ok, capabilities}
use block_proxy.Wire.Address.{Error}
use block_proxy.Wire.Frame.Decode.{decode_frame}
use block_proxy.Upload.Queue.{Queue, new, push, read}
use block_proxy.Manager.State.{find}
use block_proxy.Xhttp.Routes.{trim, parse_seq}
use block_proxy.Xhttp.State.{
  Session, Handler, created, retry, event, notify, save, is_open, ids_of, register,
  schedule_keepalive, write_sse,
}
use block_proxy.Xhttp.Sessions.{close_session, end_stream}

-- The answers, by their status and their `error`.
pub data Answer : Type 0 where
  created_session : ℕ → List Text → Answer
  done streaming : Answer
  bad_request bad_frame auth_required client_id_required bad_seq missing_parameter : Answer
  auth_failed invalid_token forbidden session_not_found tunnel_occupied queue_overflow : Answer

unfoldable pub status : Answer → ℕ
status (created_session id caps) = 200
status done = 200
status streaming = 200
status bad_request = 400
status bad_frame = 400
status auth_required = 400
status client_id_required = 400
status bad_seq = 400
status missing_parameter = 400
status auth_failed = 401
status invalid_token = 401
status forbidden = 403
status session_not_found = 404
status tunnel_occupied = 409
status queue_overflow = 503

abbrev pub padding_name : Text
padding_name = b'p' ∷ b'a' ∷ b'd' ∷ b'd' ∷ b'i' ∷ b'n' ∷ b'g' ∷ []

abbrev pub batch_name : Text
batch_name =
    b'u' ∷ b'p' ∷ b'l' ∷ b'o' ∷ b'a' ∷ b'd' ∷ b'-' ∷ b'b' ∷ b'a' ∷ b't' ∷ b'c' ∷ b'h' ∷ b'-' ∷ b'v'
    ∷ b'1' ∷ []

abbrev pub h2_name : Text
h2_name = b'u' ∷ b'p' ∷ b'l' ∷ b'o' ∷ b'a' ∷ b'd' ∷ b'-' ∷ b'h' ∷ b'2' ∷ b'-' ∷ b'v' ∷ b'1' ∷ []

unfoldable pub has : List Text → Text → Bool
has [] t = false
has (c ∷ cs) t = text_eq c t || has cs t

unfoldable pub negotiate : Handler → List Text → List Text
negotiate h client =
    (if h.padding_enabled && has client padding_name then padding_name ∷ [] else [])
    ++ ((if has client batch_name then batch_name ∷ [] else [])
        ++ (if has client h2_name then h2_name ∷ [] else []))

-- The loop over the sessions of the token: sessions of the same client without a stream are closed,
-- those of other clients are collected.
unfoldable pub takeover_found : Handler → Text → ℕ → Option Session → Handler × List Session
takeover_found h client_id id none = (h, [])
takeover_found h client_id id (some s) =
    if text_eq s.client_id client_id
    then (if is_open s then h else close_session h id, [])
    else (h, s ∷ [])

unfoldable pub takeover : Handler → Text → List ℕ → Handler × List Session
takeover h client_id [] = (h, [])
takeover h client_id (id ∷ ids) =
    let (h1, some_foreign) = takeover_found h client_id id (find h.sessions id) in
    let (h2, more_foreign) = takeover h1 client_id ids in (h2, some_foreign ++ more_foreign)

unfoldable pub all_stale : Handler → List Session → Bool
all_stale h [] = true
all_stale h (s ∷ ss) = ltb h.takeover_grace (h.now - s.last_activity) && all_stale h ss

unfoldable pub close_foreign : Handler → List Session → Handler
close_foreign h [] = h
close_foreign h (s ∷ ss) = close_foreign (close_session h s.session_id) ss

-- The new session, its timer for the stream armed and its consume loop at the first read.
unfoldable pub new_session : Handler → ℕ → Text → Text → List Text → Session
new_session h id token client_id caps = record {
  session_id = id;
  token = token;
  client_id = client_id;
  upload_queue = read (new h.max_buffered) 0;
  sse_res = none;
  capabilities = caps;
  keepalive_timer = false;
  last_sse_write = 0;
  cleanup_timer = true;
  connected_order = 0;
  last_activity = h.now;
  last_ping = none;
  ping_attempts = 0;
  pong_probe = false;
  reads = 0;
}

unfoldable pub add_session : Handler → ℕ → Text → Text → List Text → Handler × Answer
add_session h id token client_id client_caps =
    let caps = negotiate h client_caps in
    let s = new_session h id token client_id caps in
    (
      notify (record (save h s) { token_sessions = register h.token_sessions token id })
          (created id token),
      created_session id caps,
    )

unfoldable pub settle : Handler → ℕ → Text → Text → List Text → List Session → Handler × Answer
settle h id token client_id caps foreign =
    if all_stale h foreign
    then add_session (close_foreign h foreign) id token client_id caps
    else (h, tunnel_occupied)

-- _computeToken, where `hash` is the SHA-256 of a text in hexadecimal.
module _ (hash : Text → Text) where
  unfoldable pub compute_token : Handler → Text
  compute_token h = hash (h.username ++ (b':' ∷ h.password))

  unfoldable pub create_for : Handler → ℕ → Text → List Text → Handler × Answer
  create_for h id [] caps = (h, client_id_required)
  create_for h id (c ∷ client) caps =
      let token = compute_token h in
      let (taken, foreign) = takeover h (c ∷ client) (ids_of h.token_sessions token) in
      settle taken id token (c ∷ client) caps foreign

  abbrev pub client_of : Option Text → Text
  client_of none = []
  client_of (some t) = trim t

  -- _handleCreate, on the decoded body; `id` is the new UUID.
  unfoldable pub create_with : Handler → ℕ → Frame → Handler × Answer
  create_with h id (auth username password caps client_id) =
      if text_eq username h.username && text_eq password h.password
      then create_for h id (client_of client_id) caps
      else (h, auth_failed)
  create_with h id _ = (h, auth_required)

  unfoldable pub create_decoded : Handler → ℕ → Result Error (Frame × ℕ) → Handler × Answer
  create_decoded h id (err e) = (h, bad_frame)
  create_decoded h id (ok (f, bytes_read)) = create_with h id f

  -- A body is `none` where reading it failed or it grew too large.
  unfoldable pub handle_create : Node → Handler → ℕ → Option Bytes → Handler × Answer
  handle_create node h id none = (h, bad_request)
  handle_create node h id (some body) = create_decoded h id (decode_frame node body)

  -- _verifyToken; an empty token, or none, is refused.
  unfoldable pub verify_token : Handler → Text → Bool
  verify_token h [] = false
  verify_token h (c ∷ t) = text_eq (c ∷ t) (compute_token h)

  -- _handleClose
  unfoldable pub close_requested : Handler → Text → ℕ → Option Session → Handler × Answer
  close_requested h token id none = (h, session_not_found)
  close_requested h token id (some s) =
      if text_eq s.token token then (close_session h id, done) else (h, forbidden)

  unfoldable pub handle_close : Handler → Text → ℕ → Handler × Answer
  handle_close h token id =
      if verify_token h token
      then close_requested h token id (find h.sessions id)
      else (h, invalid_token)

  -- _handleStream: `r` is the response, and a `clientId` that is missing is `none`.
  abbrev pub written_to : Handler × Session × Bool → Handler × Session
  written_to (h, s, sent) = (h, s)

  abbrev pub announce : Handler → Session → List Text → Handler × Session
  announce h s [] = (h, s)
  announce h s (c ∷ caps) = written_to (write_sse h s (event (capabilities (c ∷ caps))))

  unfoldable pub open_stream : Handler → Session → ℕ → Handler
  open_stream h s r =
      let order = h.session_order + 1 in
      let opened = record s { cleanup_timer = false; sse_res = some r; connected_order = order } in
      let (h1, s1) =
        written_to
          (write_sse (record (end_stream h s.sse_res) { session_order = order }) opened retry) in
      let (h2, s2) = written_to (write_sse h1 s1 (event auth_ok)) in
      let (h3, s3) = announce h2 s2 s2.capabilities in save h3 (schedule_keepalive s3)

  abbrev pub owns : Session → Option Text → Bool
  owns s client_id = elim s.client_id [
    | [] ↦ true
    | c ∷ t ↦ elim client_id [ none ↦ false | some given ↦ text_eq given (c ∷ t) ]
  ]

  unfoldable pub stream_for : Handler → Option Session → Option Text → ℕ → Handler × Answer
  stream_for h none client_id r = (h, session_not_found)
  stream_for h (some s) client_id r =
      if owns s client_id then (open_stream h s r, streaming) else (h, forbidden)

  unfoldable pub stream_checked : Handler → Text → Option ℕ → Option Text → ℕ → Handler × Answer
  stream_checked h token none client_id r = (h, missing_parameter)
  stream_checked h token (some id) client_id r =
      if verify_token h token
      then stream_for h (find h.sessions id) client_id r
      else (h, invalid_token)

  unfoldable pub handle_stream : Handler → Text → Option ℕ → Option Text → ℕ → Handler × Answer
  handle_stream h [] id client_id r = (h, missing_parameter)
  handle_stream h (c ∷ token) id client_id r = stream_checked h (c ∷ token) id client_id r

-- _handleUpload up to _readBody: the answer, or the number under which the body is awaited.
unfoldable pub upload_for : Option ℕ → Option Session → Result Answer ℕ
upload_for none found = err bad_seq
upload_for (some seq) none = err session_not_found
upload_for (some seq) (some s) = ok seq

unfoldable pub handle_upload : Handler → ℕ → Text → Result Answer ℕ
handle_upload h id seq = upload_for (parse_seq seq) (find h.sessions id)

-- The callback of _readBody, where the body is `none` if reading it failed. A session that was closed
-- since the look-up has a closed queue, which refuses the body, and to close it again does nothing.
unfoldable pub upload_pushed : Handler → Session → Queue × Bool → Handler × Answer
upload_pushed h s (q, true) = (save h (record s { upload_queue = q }), done)
upload_pushed h s (q, false) =
    (close_session (save h (record s { upload_queue = q })) s.session_id, queue_overflow)

unfoldable pub upload_body : Handler → Option Session → ℕ → Bytes → Handler × Answer
upload_body h none seq body = (h, queue_overflow)
upload_body h (some s) seq body = upload_pushed h s (push s.upload_queue seq body)

unfoldable pub upload_read : Handler → ℕ → ℕ → Option Bytes → Handler × Answer
upload_read h id seq none = (h, bad_request)
upload_read h id seq (some []) = (h, done)
upload_read h id seq (some (b ∷ body)) = upload_body h (find h.sessions id) seq (b ∷ body)
