-- ===== src/Manager/Steps.antt =====
-- The events that a TunnelManager reacts to, in any order: calls, frames, timers, sockets, sessions.
use block_proxy.Common.{
  ℕ, ◌+◌, List, [], ◌∷◌, Option, none, some, Result, ok, err, get_elem?, if◌then◌else◌,
}
use block_proxy.Wire.Buffer.{Bytes, Text}
use block_proxy.Wire.Frame.{Frame}
use block_proxy.Manager.State.{Manager, Entry, is_reverse, send_close, destroy_stream}
use block_proxy.Manager.Calls.{Refusal, forward_call, handle_frame}
use block_proxy.Manager.Forward.{
  resume, send_data, forward_timeout, forward_idle, reverse_timeout, reverse_idle, socket_connected,
  socket_data, socket_closed, socket_error, set_connected, set_disconnected,
}

-- Entries are named by their number: a timer and a socket belong to one entry for good.
pub data Event : Type 0 where
  called : Option ℕ → Text → ℕ → Event
  framed : Frame → ℕ → Event
  stream_written : ℕ → Bytes → Event
  stream_ended stream_destroyed : ℕ → Event
  reverse_times_out reverse_idles forward_times_out forward_idles : ℕ → Event
  socket_connects socket_closes socket_fails : ℕ → Event
  socket_receives : ℕ → Bytes → Event
  immediate : Event
  session_up : ℕ → Option Text → Option Text → Event
  session_down : ℕ → Option ℕ → Event
  time_passes : ℕ → Event

abbrev pub after_call : Manager → Result Refusal (Manager × ℕ) → Manager
after_call m (ok (m', id)) = m'
after_call m (err e) = m

-- What the closures of one direction do for an entry, if there is such an entry.
abbrev pub at_forward : Manager → Option Entry → (Entry → Manager) → Manager
at_forward m none act = m
at_forward m (some e) act = if is_reverse e then m else act e

abbrev pub at_reverse : Manager → Option Entry → (Entry → Manager) → Manager
at_reverse m none act = m
at_reverse m (some e) act = if is_reverse e then act e else m

abbrev pub at_open_stream : Manager → Option Entry → (Entry → Manager) → Manager
at_open_stream m none act = m
at_open_stream m (some e) act = if e.stream_destroyed then m else act e

module _ (decimal : ℕ → Text) where
  unfoldable pub step : Manager → Event → Manager
  step m (called active_session host port) = after_call m (forward_call m active_session host port)
  step m (framed f session) = handle_frame m f session
  step m (stream_written id bytes) =
      at_open_stream m (get_elem? m.entries id) λ e. send_data m e.reqid bytes
  step m (stream_ended id) = at_open_stream m (get_elem? m.entries id) λ e. send_close m e.reqid
  step m (stream_destroyed id) = destroy_stream m id
  step m (reverse_times_out id) =
      at_reverse m (get_elem? m.entries id) λ e. if e.timeout then reverse_timeout m id e else m
  step m (reverse_idles id) =
      at_reverse m (get_elem? m.entries id) λ e. if e.idle_timer then reverse_idle m id e else m
  step m (forward_times_out id) =
      at_forward m (get_elem? m.entries id) λ e. if e.timeout then forward_timeout m id e else m
  step m (forward_idles id) =
      at_forward m (get_elem? m.entries id) λ e. if e.idle_timer then forward_idle m id e else m
  step m (socket_connects id) =
      at_forward m (get_elem? m.entries id) λ e. socket_connected decimal m id e
  step m (socket_receives id bytes) =
      at_forward m (get_elem? m.entries id) λ e. socket_data m id e bytes
  step m (socket_closes id) = at_forward m (get_elem? m.entries id) λ e. socket_closed m id e
  step m (socket_fails id) = at_forward m (get_elem? m.entries id) λ e. socket_error m id e
  step m immediate = resume m m.pending
  step m (session_up session address token) = set_connected m session address token
  step m (session_down session active_session) = set_disconnected m session active_session
  step m (time_passes t) = record m { now = m.now + t }

  unfoldable pub run : Manager → List Event → Manager
  run m [] = m
  run m (e ∷ es) = run (step m e) es
