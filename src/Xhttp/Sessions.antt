-- ===== src/Xhttp/Sessions.antt =====
-- _closeSession, the timers, the probes and the consume loop of tunnel/xhttpHandler.js.
use block_proxy.Common.{
  ℕ, ◌+◌, ◌-◌, Bool, true, false, ◌&&◌, ◌||◌, not, List, [], ◌∷◌, Option, none, some, Result, ok,
  err, get_elem?, ltb, leb, ◌==◌, if◌then◌else◌, text_eq,
}
use block_proxy.Wire.Buffer.{Bytes, Node}
use block_proxy.Wire.Frame.{Frame, ping, pong}
use block_proxy.Wire.Address.{Error}
use block_proxy.Wire.Frame.Decode.{decode_frames}
use block_proxy.Upload.Queue.{read}
use block_proxy.Manager.State.{find, delete}
use block_proxy.Xhttp.State.{
  Session, Handler, closed, arrived, event, notify, save, is_open, unregister, clear_pong_probe,
  arm_pong_probe, schedule_keepalive, writable, write_sse,
}

-- _closeSession: the session leaves both maps, its queue is closed, its stream is ended.
abbrev pub end_stream : Handler → Option ℕ → Handler
end_stream h none = h
end_stream h (some r) = record h { ended = r ∷ h.ended }

unfoldable pub close_found : Handler → ℕ → Option Session → Handler
close_found h id none = h
close_found h id (some s) =
    notify
      (end_stream
        (record h {
          sessions = delete h.sessions id;
          token_sessions = unregister h.token_sessions s.token id;
        })
        s.sse_res)
      (closed id s.token)

unfoldable pub close_session : Handler → ℕ → Handler
close_session h id = close_found h id (find h.sessions id)

unfoldable pub close_each : Handler → List ℕ → Handler
close_each h [] = h
close_each h (id ∷ ids) = close_each (close_session h id) ids

-- _sweepStaleSessions, over the sessions that the map has when it starts.
abbrev pub is_stale : Handler → Session → Bool
is_stale h s = is_open s && ltb h.liveness_timeout (h.now - s.last_activity)

unfoldable pub stale_ids : Handler → List (ℕ × Session) → List ℕ
stale_ids h [] = []
stale_ids h ((id, s) ∷ m) = let rest = stale_ids h m in if is_stale h s then id ∷ rest else rest

unfoldable pub sweep_stale_sessions : Handler → Handler
sweep_stale_sessions h = close_each h (stale_ids h h.sessions)

unfoldable pub keys_of : List (ℕ × Session) → List ℕ
keys_of [] = []
keys_of ((id, s) ∷ m) = id ∷ keys_of m

unfoldable pub close_all : Handler → Handler
close_all h = close_each h (keys_of h.sessions)

-- The timer that waits for a stream, when it fires.
unfoldable pub cleanup_timeout : Handler → Session → Handler
cleanup_timeout h s = if is_open s then h else close_session h s.session_id

-- The 'close' of a stream's response: an older response than the session's is ignored.
abbrev pub is_stream : Session → ℕ → Bool
is_stream s r = elim s.sse_res [ none ↦ false | some current ↦ current == r ]

unfoldable pub sse_closed : Handler → Session → ℕ → Handler
sse_closed h s r =
    if is_stream s r
    then save h (record (clear_pong_probe s) {
      sse_res = none;
      keepalive_timer = false;
      cleanup_timer = true;
    })
    else h

-- _sendProbePing, with the eight bytes that randomBytes gives.
unfoldable pub probe_sent : Handler × Session × Bool → Bytes → Handler × Session × Bool
probe_sent (h, s, false) payload = (h, s, false)
probe_sent (h, s, true) payload = (
  h,
  schedule_keepalive
      (arm_pong_probe (record s { last_ping = some payload; ping_attempts = s.ping_attempts + 1 })),
  true,
)

unfoldable pub send_probe_ping : Handler → Session → Bytes → Handler × Session × Bool
send_probe_ping h s payload =
    if writable h s
    then probe_sent (write_sse h s (event (ping payload))) payload
    else (h, s, false)

abbrev pub saved : Handler × Session × Bool → Handler
saved (h, s, sent) = save h s

-- The probe's timer, when it fires: the session is closed when the pings are used up.
unfoldable pub pong_probe_timeout : Handler → Session → Bytes → Handler
pong_probe_timeout h s payload =
    let fired = record s { pong_probe = false } in
    if not (is_open s) || (s.ping_attempts == 0)
    then save h fired
    else if leb h.probe_max_attempts s.ping_attempts
    then close_session (save h fired) s.session_id
    else saved (send_probe_ping h fired payload)

-- The keepalive's timer, when it fires: no second ping while one waits for its pong.
unfoldable pub keepalive_fires : Handler → Session → Bytes → Handler
keepalive_fires h s payload =
    let fired = record s { keepalive_timer = false } in
    if writable h s
    then if ltb 0 s.ping_attempts
      then save h (schedule_keepalive fired)
      else saved (send_probe_ping h fired payload)
    else save h fired

-- The frames of a payload in the consume loop: each is a sign of life and goes to the manager.
abbrev pub is_last_ping : Session → Bytes → Bool
is_last_ping s payload = elim s.last_ping [ none ↦ false | some p ↦ text_eq payload p ]

unfoldable pub ponged : Session → Frame → Session
ponged s (pong payload) = if is_last_ping s payload then record s { last_ping = none } else s
ponged s _ = s

abbrev pub alive : Handler → Session → Session
alive h s = clear_pong_probe (record s { last_activity = h.now; ping_attempts = 0 })

unfoldable pub frames_arrive : Handler → Session → List Frame → Handler
frames_arrive h s [] = save h s
frames_arrive h s (f ∷ fs) =
    frames_arrive (notify h (arrived f s.session_id)) (ponged (alive h s) f) fs

module _ (node : Node) where
  -- A payload that cannot be decoded is skipped.
  unfoldable pub decoded : Handler → Session → Option (Result Error (List Frame)) → Handler
  decoded h s none = save h s
  decoded h s (some (err e)) = save h s
  decoded h s (some (ok fs)) = frames_arrive h s fs

  -- _startConsumeLoop: the first read; then a turn for each read that was answered. A turn ends
  -- with the next read, unless the queue is closed.
  abbrev pub next_read : Session → Session
  next_read s = record s { upload_queue = read s.upload_queue s.reads }

  unfoldable pub turn : Handler → Session → Option (ℕ × Option Bytes) → Handler
  turn h s none = h
  turn h s (some (reader, none)) = close_session h s.session_id
  turn h s (some (reader, some payload)) =
      let on = record s { reads = s.reads + 1 } in
      let next = if on.upload_queue.closed then on else next_read on in
      decoded h next (decode_frames node payload)

  unfoldable pub consume : Handler → Session → Handler
  consume h s = turn h s (get_elem? s.upload_queue.resolved s.reads)
