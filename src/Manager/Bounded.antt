-- ===== src/Manager/Bounded.antt =====
-- The calls, the frames and the clean-up of TunnelManager keep the counts exact and within the limits.
pub mod Run
use block_proxy.Common.{
  ℕ, zero, suc, ◌+◌, ◌-◌, ◌≤◌, ◌≡◌, refl, sym, ap, ◌∙◌, arith, Bool, true, false, ◌&&◌, not,
}
use block_proxy.Common.{
  List, [], ◌∷◌, ◌++◌, Option, none, some, Result, ok, err, length, get_elem?, set, drop, ltb, leb,
  ◌==◌, if◌then◌else◌, inl, inr, Bool-cases, Option-cases, if_rule, leb→le,
}
use mathlib.Core.Bool.{false≢true}
use block_proxy.Common.Counts.{unit_of, tally_of, tally_of-set, tally_of-back}
use block_proxy.Wire.Buffer.{Bytes, Text}
use block_proxy.Wire.Frame.{
  Frame, chunk, connect, close, connect_ok, connect_failed, ping, pong, padding, auth_ok, auth_fail,
  auth, capabilities, error, unknown,
}
use block_proxy.Manager.Chunks.{data_frames}
use block_proxy.Manager.State.{
  Manager, Entry, Direction, reverse, forward, find, put, send, is_reverse, lookup,
  clear_active_request, next_reqid, send_close, destroy_stream, destroy_socket,
  matches_tunnel_domain, new,
}
use block_proxy.Manager.Calls.{
  Refusal, new_entry, add_entry, create_reverse, forward_for, forward_call, reset_idle, touch,
  confirm, push_to, receive, push_end, close_received, failure_received, accept_forward, host_of,
  handle_forward_connect, frame_for, handle_frame,
}
use block_proxy.Manager.Forward.{
  send_frames, resume, touch_found, send_data_to_client, send_close_to_client, data_for, send_data,
  cleanup, still_active, forward_timeout, forward_idle, reverse_timeout, reverse_idle,
  socket_connected, is_success, response_complete, response_data, socket_data, socket_closed,
  socket_error, drop_entry, drop_session, set_connected, set_disconnected, index_of, crlf,
}
use block_proxy.Manager.Steps.{Event, step, run, after_call}
use block_proxy.Manager.Limits.{
  IsCounted, counts_reverse, counts_forward, get_elem?-set, lookup-held, put-IsCounted,
  clear-IsCounted, send_close-IsCounted, destroy_stream-IsCounted, destroy_socket-IsCounted,
}

create_reverse-IsCounted :
    (m : Manager) (session : ℕ) (host : Text) (port : ℕ)
    → IsCounted m
    → leb m.max_reverse m.reverse_count ≡ false
    → IsCounted (create_reverse m session host port)
unfolding create_reverse
create_reverse-IsCounted m session host port (a, b, c, d) h =
    let v = new_entry reverse (next_reqid m.reqid_counter) session host port m.now in
    (
      omega (arith, tally_of-back counts_reverse m.entries v),
      omega (arith, tally_of-back counts_forward m.entries v),
      ground arith,
      d,
    )

pub forward_call-IsCounted :
    (m : Manager) (active_session : Option ℕ) (host : Text) (port : ℕ)
    → IsCounted m
    → IsCounted (after_call m (forward_call m active_session host port))
unfolding forward_call forward_for
forward_call-IsCounted m none host port w =
    if_rule (λ (r : Result Refusal (Manager × ℕ)). IsCounted (after_call m r)) m.connected (λ b. w)
      (λ b. w)
forward_call-IsCounted m (some session) host port w =
    let Keeps = λ (r : Result Refusal (Manager × ℕ)). IsCounted (after_call m r) in
    if_rule Keeps m.connected
      (λ b.
        if_rule Keeps (leb m.max_reverse m.reverse_count) (λ c. w)
          (λ c. create_reverse-IsCounted m session host port w c))
      (λ b. w)

accept_forward-IsCounted :
    (m : Manager) (reqid : ℕ) (host : Text) (port session : ℕ)
    → IsCounted m
    → leb m.max_forward m.forward_count ≡ false
    → IsCounted (accept_forward m reqid host port session)
unfolding accept_forward
accept_forward-IsCounted m reqid host port session (a, b, c, d) h =
    let v = new_entry forward reqid session host port m.now in
    (
      omega (arith, tally_of-back counts_reverse m.entries v),
      omega (arith, tally_of-back counts_forward m.entries v),
      c,
      ground arith,
    )

confirm-IsCounted :
    (m : Manager) (id : ℕ) (e : Entry)
    → IsCounted m
    → get_elem? m.entries id ≡ some e
    → IsCounted (confirm m id e)
unfolding confirm
confirm-IsCounted m id e w h = put-IsCounted m id e _ w h refl refl

receive-IsCounted :
    (m : Manager) (id : ℕ) (e : Entry) (d : Bytes)
    → IsCounted m
    → get_elem? m.entries id ≡ some e
    → IsCounted (receive m id e d)
unfolding receive
receive-IsCounted m id e d w h =
    if_rule (λ (v : Entry). IsCounted (put m id v)) (is_reverse e)
      (λ _. put-IsCounted m id e _ w h refl refl) (λ _. put-IsCounted m id e _ w h refl refl)

forward_only :
    (a b : Bool)
    → a ≡ false
    → b ≡ true
    → (unit_of (a && b) ≡ 0)
      × (unit_of (not a && b) ≡ 1)
      × (unit_of (a && false) ≡ 0)
      × (unit_of (not a && false) ≡ 0)
forward_only true b h k = absurd (false≢true (sym h))
forward_only false b h k = (refl, ap unit_of k, refl, refl)

pub cleanup-IsCounted :
    (m : Manager) (id : ℕ) (e : Entry)
    → IsCounted m
    → get_elem? m.entries id ≡ some e
    → is_reverse e ≡ false
    → IsCounted (cleanup m id e)
unfolding cleanup
cleanup-IsCounted m id e (a, b, c, d) h r =
    let v : Entry = record e { counted = false; idle_timer = false } in
    let x = tally_of-set counts_reverse m.entries id e v h in
    let y = tally_of-set counts_forward m.entries id e v h in
    if_rule (λ (r : Manager). IsCounted r) e.counted
      (λ k. destroy_socket-IsCounted _ id (
        clear-IsCounted (record (put m id v) { forward_count = m.forward_count - 1 }) e.reqid
          (
            omega (arith, forward_only (is_reverse e) e.counted r k),
            omega (arith, forward_only (is_reverse e) e.counted r k),
            c,
            omega arith,
          )))
      (λ k. (a, b, c, d))

push_end-IsCounted : (m : Manager) (id : ℕ) → IsCounted m → IsCounted (push_end m id)
unfolding push_end
push_end-IsCounted m id w = elim (Option-cases (get_elem? m.entries id)) [
  | inl n ↦ rw (n, push_end) w
  | inr (e, s) ↦ rw (s, push_end) (put-IsCounted m id e (push_to e none) w s refl refl)
]

close_received-IsCounted :
    (m : Manager) (id : ℕ) (e : Entry) (reqid : ℕ)
    → IsCounted m
    → get_elem? m.entries id ≡ some e
    → IsCounted (close_received m id e reqid)
unfolding close_received
close_received-IsCounted m id e reqid w h =
    let t = put-IsCounted m id e (touch m e) w h refl refl in
    if_rule (λ (r : Manager). IsCounted r) (is_reverse e)
      (λ _. push_end-IsCounted _ id (clear-IsCounted _ reqid t))
      (λ _. clear-IsCounted _ reqid (destroy_socket-IsCounted _ id t))

failure_received-IsCounted :
    (m : Manager) (id : ℕ) (e : Entry) (reqid : ℕ)
    → IsCounted m
    → get_elem? m.entries id ≡ some e
    → IsCounted (failure_received m id e reqid)
unfolding failure_received
failure_received-IsCounted m id e reqid w h =
    let t = put-IsCounted m id e (touch m e) w h refl refl in
    clear-IsCounted _ reqid (
      destroy_stream-IsCounted _ id (
        if_rule (λ (r : Manager). IsCounted r) (is_reverse e) (λ _. t)
          (λ _. destroy_socket-IsCounted _ id t)))

frame_for-IsCounted :
    (m : Manager) (f : Frame) (reqid : ℕ) (o : Option (ℕ × Entry))
    → IsCounted m
    → ((id : ℕ) (e : Entry) → o ≡ some (id, e) → get_elem? m.entries id ≡ some e)
    → IsCounted (frame_for m f reqid o)
unfolding frame_for
frame_for-IsCounted m f reqid none w h = w
frame_for-IsCounted m (connect_ok r) reqid (some (id, e)) w h =
    confirm-IsCounted m id e w (h id e refl)
frame_for-IsCounted m (chunk r d) reqid (some (id, e)) w h =
    receive-IsCounted m id e d w (h id e refl)
frame_for-IsCounted m (close r) reqid (some (id, e)) w h =
    close_received-IsCounted m id e reqid w (h id e refl)
frame_for-IsCounted m (connect_failed r) reqid (some (id, e)) w h =
    failure_received-IsCounted m id e reqid w (h id e refl)
frame_for-IsCounted m _ reqid (some (id, e)) w h = w

pub handle_frame-IsCounted :
    (m : Manager) (f : Frame) (session : ℕ) → IsCounted m → IsCounted (handle_frame m f session)
unfolding handle_frame handle_forward_connect
handle_frame-IsCounted m (connect reqid atyp addr port) session w =
    if_rule (λ (r : Manager). IsCounted r) (matches_tunnel_domain m (host_of addr)) (λ _. w)
      λ _.
        if_rule (λ (r : Manager). IsCounted r) (leb m.max_forward m.forward_count) (λ _. w)
          λ full. accept_forward-IsCounted m reqid (host_of addr) port session w full
handle_frame-IsCounted m (ping payload) session w = w
handle_frame-IsCounted m (connect_ok reqid) session w =
    frame_for-IsCounted m (connect_ok reqid) reqid (lookup m reqid) w (lookup-held m reqid)
handle_frame-IsCounted m (chunk reqid d) session w =
    frame_for-IsCounted m (chunk reqid d) reqid (lookup m reqid) w (lookup-held m reqid)
handle_frame-IsCounted m (close reqid) session w =
    frame_for-IsCounted m (close reqid) reqid (lookup m reqid) w (lookup-held m reqid)
handle_frame-IsCounted m (connect_failed reqid) session w =
    frame_for-IsCounted m (connect_failed reqid) reqid (lookup m reqid) w (lookup-held m reqid)
handle_frame-IsCounted m _ session w = w

pub send_frames-IsCounted :
    (m : Manager) (session : ℕ) (fs : List Frame)
    → IsCounted m
    → IsCounted (send_frames m session fs)
unfolding send_frames
send_frames-IsCounted m session [] w = w
send_frames-IsCounted m session (f ∷ fs) w = w

pub touch_found-IsCounted :
    (m : Manager) (o : Option (ℕ × Entry))
    → IsCounted m
    → ((id : ℕ) (e : Entry) → o ≡ some (id, e) → get_elem? m.entries id ≡ some e)
    → IsCounted (touch_found m o)
unfolding touch_found
touch_found-IsCounted m none w h = w
touch_found-IsCounted m (some (id, e)) w h =
    put-IsCounted m id e (touch m e) w (h id e refl) refl refl

pub send_data_to_client-IsCounted :
    (m : Manager) (reqid : ℕ) (d : Bytes) (session : ℕ)
    → IsCounted m
    → IsCounted (send_data_to_client m reqid d session)
unfolding send_data_to_client
send_data_to_client-IsCounted m reqid d session w =
    send_frames-IsCounted _ session _
      (touch_found-IsCounted m (lookup m reqid) w (lookup-held m reqid))

pub data_for-IsCounted :
    (m : Manager) (reqid : ℕ) (d : Bytes) (o : Option (ℕ × Entry))
    → IsCounted m
    → ((id : ℕ) (e : Entry) → o ≡ some (id, e) → get_elem? m.entries id ≡ some e)
    → IsCounted (data_for m reqid d o)
unfolding data_for
data_for-IsCounted m reqid d none w h = w
data_for-IsCounted m reqid d (some (id, e)) w h =
    send_frames-IsCounted _ e.session _ (put-IsCounted m id e _ w (h id e refl) refl refl)
