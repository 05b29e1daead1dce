-- ===== src/Manager/Tests.antt =====
-- Runs of the tunnel manager, and the theorems on it at concrete inputs.
use block_proxy.Common.{
  ℕ, ◌↔◌, ◌⊎◌, ◌==◌, true, false, text_eq, ◌≡◌, refl, List, [], ◌∷◌, none, some, All,
}
use block_proxy.Wire.Buffer.{Text, decimal}
use block_proxy.Wire.Address.{domain, Addr}
use block_proxy.Wire.Frame.{chunk, connect, connect_ok}
use block_proxy.Manager.Chunks.{chunks, chunks_from, data_frames, data_of, data_frames-whole, Fits}
use block_proxy.Manager.State.{
  Entry, Manager, new, matches_tunnel_domain, matches_any, lookup, entry_at, find, insert,
  next_reqid, ends_with,
}
use block_proxy.Manager.Calls.{
  handle_frame, handle_forward_connect, frame_for, forward_call, forward_for, create_reverse,
  accept_forward, confirm,
}
use block_proxy.Manager.Forward.{
  set_disconnected, set_connected, index_from, response_complete, response_data,
  send_data_to_client, send_frames, socket_data, touch_found,
}
use block_proxy.Manager.Steps.{Event, called, framed, socket_receives, session_up, run, step}
use block_proxy.Manager.Limits.{IsCounted}
use block_proxy.Manager.Domains.{AnyUnder, matches_tunnel_domain-AnyUnder}
use block_proxy.Manager.Disconnect.{set_disconnected-lookup}
use block_proxy.Manager.Bounded.Run.{run-IsCounted}

abbrev example_com : Text
example_com = b'e' ∷ b'.' ∷ b'c' ∷ []

-- A reverse and a forward request; the limit of one refuses a second reverse request.
abbrev two_requests : List Event
two_requests =
    session_up 7 none none
    ∷ called (some 7) example_com 443
    ∷ called (some 7) example_com 80
    ∷ framed (connect_ok 1) 7
    ∷ framed (connect 9 domain (Addr.text (b'x' ∷ [])) 80) 7
    ∷ socket_receives 1 (b'A' ∷ b' ' ∷ b'2' ∷ 13 ∷ 10 ∷ 13 ∷ 10 ∷ b'h' ∷ b'i' ∷ [])
    ∷ []

abbrev manager : List Event → Manager
manager vs = run decimal (new (example_com ∷ []) 5 1 300) vs

two_counts : (manager two_requests).reverse_count ≡ 1
unfolding run step handle_frame handle_forward_connect matches_tunnel_domain matches_any frame_for
    lookup entry_at find forward_call set_connected forward_for new create_reverse insert next_reqid
    text_eq accept_forward confirm chunks chunks_from data_frames index_from response_complete
    response_data send_data_to_client send_frames socket_data touch_found ends_with decimal
two_counts = refl

sent_frames : (manager two_requests).sent ≡ (
    (7, connect 1 domain (Addr.text example_com) 443)
    ∷ (7, connect_ok 9)
    ∷ (7, chunk 9 (b'h' ∷ b'i' ∷ []))
    ∷ [])
unfolding run step handle_frame handle_forward_connect matches_tunnel_domain matches_any frame_for
    lookup entry_at find forward_call set_connected forward_for new create_reverse insert next_reqid
    text_eq accept_forward confirm chunks chunks_from data_frames index_from response_complete
    response_data send_data_to_client send_frames socket_data touch_found ends_with decimal
sent_frames = refl

run-IsCounted_example : IsCounted (manager two_requests)
run-IsCounted_example = run-IsCounted decimal (example_com ∷ []) 5 1 300 two_requests

data_frames-whole_example :
    (data_of (data_frames 3 (1 ∷ 2 ∷ [])) ≡ 1 ∷ 2 ∷ []) × All (Fits 3) (data_frames 3 (1 ∷ 2 ∷ []))
data_frames-whole_example = data_frames-whole 3 (1 ∷ 2 ∷ [])

matches_tunnel_domain-AnyUnder_example :
    (matches_tunnel_domain (manager []) (b'a' ∷ b'.' ∷ example_com) ≡ true)
    ↔ AnyUnder (manager []).tunnel_domains (b'a' ∷ b'.' ∷ example_com)
matches_tunnel_domain-AnyUnder_example =
    matches_tunnel_domain-AnyUnder (manager []) (b'a' ∷ b'.' ∷ example_com)

set_disconnected-lookup_example :
    (lookup (set_disconnected (manager two_requests) 7 none) 1 ≡ none)
    ⊎ ((id : ℕ) × (e : Entry) × (lookup (set_disconnected (manager two_requests) 7 none) 1
          ≡ some (id, e))
        × ((e.session == 7) ≡ false))
set_disconnected-lookup_example = set_disconnected-lookup (manager two_requests) 7 none 1
