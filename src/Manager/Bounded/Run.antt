-- ===== src/Manager/Bounded/Run.antt =====
-- That every event of TunnelManager keeps the counts exact and within the limits.
use block_proxy.Common.{ℕ, zero, suc, ◌+◌, ◌≡◌, refl, ◌∙◌, arith, false, ◌&&◌, not}
use block_proxy.Common.{
  List, [], ◌∷◌, ◌++◌, Option, none, some, length, get_elem?, set, drop, ltb, ◌==◌, inl, inr,
  Option-cases, if_rule,
}
use block_proxy.Common.Counts.{tally_of}
use block_proxy.Wire.Buffer.{Bytes, Text}
use block_proxy.Wire.Frame.{Frame, connect_failed}
use block_proxy.Manager.State.{Manager, Entry, send, is_reverse, lookup, new, delete}
use block_proxy.Manager.Calls.{touch}
use block_proxy.Manager.Forward.{
  resume, touch_found, send_close_to_client, send_data, still_active, forward_timeout, forward_idle,
  reverse_timeout, reverse_idle, socket_connected, is_success, response_complete, response_data,
  socket_data, socket_closed, close_now, socket_error, drop_entry, drop_session, set_connected,
  set_disconnected, index_of, crlf,
}
use block_proxy.Manager.Steps.{
  Event, called, framed, stream_written, stream_ended, stream_destroyed, reverse_times_out,
  reverse_idles, forward_times_out, forward_idles, socket_connects, socket_closes, socket_fails,
  socket_receives, immediate, session_up, session_down, time_passes, at_forward, at_reverse,
  at_open_stream, step, run,
}
use block_proxy.Manager.Limits.{
  IsCounted, get_elem?-set, lookup-held, put-IsCounted, clear-IsCounted, send_close-IsCounted,
  destroy_stream-IsCounted, destroy_socket-IsCounted,
}
use block_proxy.Manager.Bounded.{
  forward_call-IsCounted, cleanup-IsCounted, handle_frame-IsCounted, send_frames-IsCounted,
  touch_found-IsCounted, send_data_to_client-IsCounted, data_for-IsCounted,
}

-- A put at one number keeps the direction at every other.
set-is_reverse :
    (es : List Entry) (i j : ℕ) (x v e e' : Entry)
    → get_elem? es i ≡ some x
    → is_reverse v ≡ is_reverse x
    → get_elem? es j ≡ some e
    → get_elem? (set es i v) j ≡ some e'
    → is_reverse e' ≡ is_reverse e
set-is_reverse [] i j x v e e' h k p q = cc
set-is_reverse (y ∷ es) zero zero x v e e' h k p q = cc
set-is_reverse (y ∷ es) zero (suc j) x v e e' h k p q = cc
set-is_reverse (y ∷ es) (suc i) zero x v e e' h k p q = cc
set-is_reverse (y ∷ es) (suc i) (suc j) x v e e' h k p q = set-is_reverse es i j x v e e' h k p q

touch_found-is_reverse :
    (m : Manager) (o : Option (ℕ × Entry)) (id : ℕ) (e e' : Entry)
    → ((i : ℕ) (x : Entry) → o ≡ some (i, x) → get_elem? m.entries i ≡ some x)
    → get_elem? m.entries id ≡ some e
    → get_elem? (touch_found m o).entries id ≡ some e'
    → is_reverse e' ≡ is_reverse e
unfolding touch_found
touch_found-is_reverse m none id e e' held h k = cc
touch_found-is_reverse m (some (i, x)) id e e' held h k =
    set-is_reverse m.entries i id x (touch m x) e e' (held i x refl) refl h k

close_now-IsCounted :
    (m : Manager) (id : ℕ) (e : Entry)
    → IsCounted m
    → ((e' : Entry) → get_elem? m.entries id ≡ some e' → is_reverse e' ≡ false)
    → IsCounted (close_now m id)
unfolding close_now
close_now-IsCounted m id e w h = elim (Option-cases (get_elem? m.entries id)) [
  | inl n ↦ rw (n, close_now) w
  | inr (e', s) ↦ rw (s, close_now) (cleanup-IsCounted m id e' w s (h e' s))
]

module _ (m : Manager) (id : ℕ) (e : Entry) where
  Forwards : Type 0
  Forwards = IsCounted m × (get_elem? m.entries id ≡ some e) × (is_reverse e ≡ false)

  forward_timeout-IsCounted : Forwards → IsCounted (forward_timeout m id e)
  unfolding forward_timeout Forwards
  forward_timeout-IsCounted (w, h, r) =
      cleanup-IsCounted _ id _ (put-IsCounted m id e _ w h refl refl)
        (get_elem?-set m.entries id e _ h) r

  forward_idle-IsCounted : Forwards → IsCounted (forward_idle m id e)
  unfolding forward_idle Forwards
  forward_idle-IsCounted (w, h, r) =
      cleanup-IsCounted _ id _ (put-IsCounted m id e _ w h refl refl)
        (get_elem?-set m.entries id e _ h) r

  response_complete-IsCounted :
      (response : Bytes) (head : ℕ) → Forwards → IsCounted (response_complete m id e response head)
  unfolding response_complete Forwards
  response_complete-IsCounted response head (w, h, r) =
      let answered = put-IsCounted m id e _ w h refl refl in
      if_rule (λ (r : Manager). IsCounted r) (is_success response)
        (λ _.
          if_rule (λ (r : Manager). IsCounted r) (ltb 0 (length (drop (head + 4) response)))
            (λ _. send_data_to_client-IsCounted _ e.reqid _ e.session answered) (λ _. answered))
        (λ _.
          cleanup-IsCounted _ id _ (put-IsCounted m id e _ w h refl refl)
            (get_elem?-set m.entries id e _ h) r)

  socket_closed-IsCounted : Forwards → IsCounted (socket_closed m id e)
  unfolding socket_closed Forwards send_close_to_client
  socket_closed-IsCounted (w, h, r) =
      let held = lookup-held m e.reqid in
      let o = lookup m e.reqid in
      if_rule (λ (t : Manager). IsCounted (close_now t id)) (e.confirmed && still_active m e.reqid)
        (λ _.
          close_now-IsCounted _ id e (touch_found-IsCounted m o w held)
            λ e' k. touch_found-is_reverse m o id e e' held h k ∙ r)
        (λ _. close_now-IsCounted m id e w λ e' k. cc)

module _ (m : Manager) (id : ℕ) (e : Entry) where
  response_data-IsCounted :
      (bytes : Bytes) → Forwards m id e → IsCounted (response_data m id e bytes)
  unfolding response_data Forwards
  response_data-IsCounted bytes (w, h, r) =
      let t = put-IsCounted m id e (touch m e) w h refl refl in
      elim (Option-cases (index_of (e.response ++ bytes) (crlf ++ crlf))) [
        | inl n ↦ rw (n, response_data) (put-IsCounted m id e _ w h refl refl)
        | inr (head, s) ↦
            rw (s, response_data)
              (response_complete-IsCounted _ id _ (e.response ++ bytes) head
                (t, get_elem?-set m.entries id e _ h, r))
      ]

  socket_data-IsCounted : (bytes : Bytes) → Forwards m id e → IsCounted (socket_data m id e bytes)
  unfolding socket_data Forwards
  socket_data-IsCounted bytes (w, h, r) =
      if_rule (λ (r : Manager). IsCounted r) e.confirmed
        (λ _.
          send_data_to_client-IsCounted _ e.reqid bytes e.session
            (put-IsCounted m id e _ w h refl refl))
        (λ _. response_data-IsCounted bytes (w, h, r))

  socket_error-IsCounted : Forwards m id e → IsCounted (socket_error m id e)
  unfolding socket_error Forwards
  socket_error-IsCounted (w, h, r) =
      if_rule (λ (r : Manager). IsCounted r) e.confirmed
        (λ _. socket_closed-IsCounted m id e (w, h, r))
        (λ _. cleanup-IsCounted (send m (connect_failed e.reqid) e.session) id e w h r)

  reverse_timeout-IsCounted :
      IsCounted m → get_elem? m.entries id ≡ some e → IsCounted (reverse_timeout m id e)
  unfolding reverse_timeout
  reverse_timeout-IsCounted w h =
      let t = put-IsCounted m id e (record e { timeout = false }) w h refl refl in
      if_rule (λ (r : Manager). IsCounted r) (still_active m e.reqid && not e.confirmed)
        (λ _. destroy_stream-IsCounted _ id (clear-IsCounted _ e.reqid t)) (λ _. t)

at_forward-IsCounted :
    (m : Manager) (id : ℕ) (act : Entry → Manager)
    → IsCounted m
    → ((e : Entry) → Forwards m id e → IsCounted (act e))
    → IsCounted (at_forward m (get_elem? m.entries id) act)
unfolding Forwards
at_forward-IsCounted m id act w k = elim (Option-cases (get_elem? m.entries id)) [
  | inl n ↦ rw n w
  | inr (e, s) ↦
      rw s (if_rule (λ (r : Manager). IsCounted r) (is_reverse e) (λ _. w) (λ b. k e (w, s, b)))
]

at_reverse-IsCounted :
    (m : Manager) (id : ℕ) (act : Entry → Manager)
    → IsCounted m
    → ((e : Entry) → get_elem? m.entries id ≡ some e → IsCounted (act e))
    → IsCounted (at_reverse m (get_elem? m.entries id) act)
at_reverse-IsCounted m id act w k = elim (Option-cases (get_elem? m.entries id)) [
  | inl n ↦ rw n w
  | inr (e, s) ↦ rw s (if_rule (λ (r : Manager). IsCounted r) (is_reverse e) (λ _. k e s) (λ _. w))
]

at_open_stream-IsCounted :
    (m : Manager) (o : Option Entry) (act : Entry → Manager)
    → IsCounted m
    → ((e : Entry) → IsCounted (act e))
    → IsCounted (at_open_stream m o act)
at_open_stream-IsCounted m none act w k = w
at_open_stream-IsCounted m (some e) act w k =
    if_rule (λ (r : Manager). IsCounted r) e.stream_destroyed (λ _. w) (λ _. k e)

drop_entry-IsCounted :
    (m : Manager) (session reqid : ℕ) (o : Option (ℕ × Entry))
    → IsCounted m
    → IsCounted (drop_entry m session reqid o)
unfolding drop_entry
drop_entry-IsCounted m session reqid none w = w
drop_entry-IsCounted m session reqid (some (id, e)) w =
    if_rule (λ (r : Manager). IsCounted r) (e.session == session)
      (λ _. clear-IsCounted _ reqid (
        if_rule (λ (r : Manager). IsCounted r) (is_reverse e) (λ _. destroy_stream-IsCounted m id w)
          (λ _. destroy_socket-IsCounted m id w)))
      (λ _. w)

drop_session-IsCounted :
    (m : Manager) (session : ℕ) (ps : List (ℕ × ℕ))
    → IsCounted m
    → IsCounted (drop_session m session ps)
unfolding drop_session
drop_session-IsCounted m session [] w = w
drop_session-IsCounted m session ((reqid, id) ∷ ps) w =
    drop_session-IsCounted (drop_entry m session reqid (lookup m reqid)) session ps
      (drop_entry-IsCounted m session reqid (lookup m reqid) w)

resume-IsCounted :
    (m : Manager) (ps : List (ℕ × List Frame)) → IsCounted m → IsCounted (resume m ps)
unfolding resume
resume-IsCounted m [] w = w
resume-IsCounted m ((session, fs) ∷ ps) w =
    send_frames-IsCounted (record m { pending = ps }) session fs w

new-IsCounted :
    (domains : List Text) (max_forward max_reverse idle : ℕ)
    → IsCounted (new domains max_forward max_reverse idle)
unfolding new tally_of
new-IsCounted domains max_forward max_reverse idle = (refl, refl, omega arith, omega arith)

module _ (decimal : ℕ → Text) where
  step-IsCounted : (m : Manager) (v : Event) → IsCounted m → IsCounted (step decimal m v)
  unfolding step send_data reverse_idle socket_connected set_connected set_disconnected Forwards
  step-IsCounted m (called active_session host port) w =
      forward_call-IsCounted m active_session host port w
  step-IsCounted m (framed f session) w = handle_frame-IsCounted m f session w
  step-IsCounted m (stream_written id bytes) w =
      at_open_stream-IsCounted m _ _ w
        λ e. data_for-IsCounted m e.reqid bytes (lookup m e.reqid) w (lookup-held m e.reqid)
  step-IsCounted m (stream_ended id) w =
      at_open_stream-IsCounted m _ _ w λ e. send_close-IsCounted m e.reqid w
  step-IsCounted m (stream_destroyed id) w = destroy_stream-IsCounted m id w
  step-IsCounted m (reverse_times_out id) w = at_reverse-IsCounted m id _ w λ e h.
      if_rule (λ (r : Manager). IsCounted r) e.timeout (λ _. reverse_timeout-IsCounted m id e w h)
        (λ _. w)
  step-IsCounted m (reverse_idles id) w = at_reverse-IsCounted m id _ w λ e h.
      if_rule (λ (r : Manager). IsCounted r) e.idle_timer
        (λ _.
          destroy_stream-IsCounted _ id
            (put-IsCounted m id e (record e { idle_timer = false }) w h refl refl))
        (λ _. w)
  step-IsCounted m (forward_times_out id) w = at_forward-IsCounted m id _ w λ e f.
      if_rule (λ (r : Manager). IsCounted r) e.timeout (λ _. forward_timeout-IsCounted m id e f)
        (λ _. w)
  step-IsCounted m (forward_idles id) w = at_forward-IsCounted m id _ w λ e f.
      if_rule (λ (r : Manager). IsCounted r) e.idle_timer (λ _. forward_idle-IsCounted m id e f)
        (λ _. w)
  step-IsCounted m (socket_connects id) w =
      at_forward-IsCounted m id _ w λ e f. put-IsCounted m id e _ w f.1 refl refl
  step-IsCounted m (socket_receives id bytes) w =
      at_forward-IsCounted m id _ w λ e f. socket_data-IsCounted m id e bytes f
  step-IsCounted m (socket_closes id) w =
      at_forward-IsCounted m id _ w λ e f. socket_closed-IsCounted m id e f
  step-IsCounted m (socket_fails id) w =
      at_forward-IsCounted m id _ w λ e f. socket_error-IsCounted m id e f
  step-IsCounted m immediate w = resume-IsCounted m m.pending w
  step-IsCounted m (session_up session address token) w = w
  step-IsCounted m (session_down session active_session) w =
      drop_session-IsCounted (record m { session_tokens = delete m.session_tokens session }) session
        m.active w
  step-IsCounted m (time_passes t) w = w

  run_from-IsCounted : (m : Manager) (vs : List Event) → IsCounted m → IsCounted (run decimal m vs)
  unfolding run
  run_from-IsCounted m [] w = w
  run_from-IsCounted m (v ∷ vs) w = run_from-IsCounted (step decimal m v) vs (step-IsCounted m v w)

  -- After any calls, frames, timers, socket events and session changes, the counts of reverse and
  -- forward requests are those of the entries that still count, and neither exceeds its limit.
  pub run-IsCounted :
      (domains : List Text) (max_forward max_reverse idle : ℕ) (vs : List Event)
      → IsCounted (run decimal (new domains max_forward max_reverse idle) vs)
  run-IsCounted domains max_forward max_reverse idle vs =
      run_from-IsCounted (new domains max_forward max_reverse idle) vs
        (new-IsCounted domains max_forward max_reverse idle)
