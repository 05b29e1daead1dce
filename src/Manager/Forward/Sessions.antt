-- ===== src/Manager/Forward/Sessions.antt =====
-- setConnected of TunnelManager, and its counts by session.
use block_proxy.Common.{
  ℕ, ◌+◌, Bool, true, false, List, [], ◌∷◌, Option, none, some, get_elem?, ltb, ◌==◌, if◌then◌else◌,
}
use block_proxy.Wire.Buffer.{Text}
use block_proxy.Manager.State.{
  Manager, Entry, insert, delete, lookup, is_reverse, clear_active_request, destroy_stream,
  destroy_socket,
}

-- setConnected. The loop visits the entries that the map has when it starts: a round removes no
-- entry but its own.
unfoldable pub drop_entry : Manager → ℕ → ℕ → Option (ℕ × Entry) → Manager
drop_entry m session reqid none = m
drop_entry m session reqid (some (id, e)) =
    if e.session == session
    then clear_active_request (if is_reverse e then destroy_stream m id else destroy_socket m id)
        reqid
    else m

unfoldable pub drop_session : Manager → ℕ → List (ℕ × ℕ) → Manager
drop_session m session [] = m
drop_session m session ((reqid, id) ∷ rest) =
    drop_session (drop_entry m session reqid (lookup m reqid)) session rest

-- The address is kept when the call brings none; the token is what getSessionToken returns.
unfoldable pub set_connected : Manager → ℕ → Option Text → Option Text → Manager
set_connected m session address token = record m {
  connected = true;
  client_address = elim address [ none ↦ m.client_address | some a ↦ some a ];
  session_tokens = insert m.session_tokens session token;
}

-- With what getActiveSessionId of the server returns after the loop.
abbrev pub is_some : {A : Type 0} → Option A → Bool
is_some o = elim o [ none ↦ false | some a ↦ true ]

unfoldable pub set_disconnected : Manager → ℕ → Option ℕ → Manager
set_disconnected m session active_session =
    let left =
      drop_session (record m { session_tokens = delete m.session_tokens session }) session
        m.active in
    record left {
      connected = is_some active_session;
      client_address = if is_some active_session then left.client_address else none;
    }

-- getSessionActiveRequestCount and getSessionDrainState, over the entries of the map. An entry's
-- `lastActivityAt` of 0 counts as now.
unfoldable pub count_for : Manager → ℕ → List (ℕ × ℕ) → ℕ
count_for m session [] = 0
count_for m session ((reqid, id) ∷ rest) = elim (get_elem? m.entries id) [
  | none ↦ count_for m session rest
  | some e ↦ (if e.session == session then 1 else 0) + count_for m session rest
]

unfoldable pub session_active_request_count : Manager → ℕ → ℕ
session_active_request_count m session = count_for m session m.active

abbrev pub or_now : Manager → ℕ → ℕ
or_now m t = if t == 0 then m.now else t

abbrev pub max_of : ℕ → ℕ → ℕ
max_of a b = if ltb a b then b else a

unfoldable pub drain_from : Manager → ℕ → List (ℕ × ℕ) → ℕ → ℕ → ℕ × ℕ
drain_from m session [] count last = (count, last)
drain_from m session ((reqid, id) ∷ rest) count last = elim (get_elem? m.entries id) [
  | none ↦ drain_from m session rest count last
  | some e ↦
      let ours = e.session == session in
      drain_from m session rest (if ours then count + 1 else count)
        (if ours then max_of last (or_now m e.last_activity) else last)
]

unfoldable pub session_drain_state : Manager → ℕ → ℕ × ℕ
session_drain_state m session = drain_from m session m.active 0 0

unfoldable pub reload_config : Manager → List Text → Manager
reload_config m tunnel_domains = record m { tunnel_domains = tunnel_domains }
