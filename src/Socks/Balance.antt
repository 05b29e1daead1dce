-- ===== src/Socks/Balance.antt =====
-- The counters of socks5/server.js against its sockets.
pub mod Handshakes
pub mod Setup
pub mod Run
use block_proxy.Common.{
  ℕ, zero, suc, ◌+◌, ◌-◌, ◌≤◌, ◌≡◌, refl, sym, ap, ◌∙◌, arith, Bool, true, false, ◌&&◌, ◌||◌, not,
  List, [], ◌∷◌, ◌++◌, Option, none, some, get_elem?, set, ltb, leb, if◌then◌else◌, inl, inr,
  Bool-cases, if_rule,
}
use mathlib.Core.Bool.{false≢true}
use block_proxy.Common.Counts.{unit_of, tally_of, tally_of-set, tally_of-back}
use block_proxy.Wire.Buffer.{Text}
use block_proxy.Socks.State.{
  Phase, greeting, authenticating, requesting, Client, Server, new, new_client, accept, put,
  finish_handshake, finished, handle_tcp_request, handle_udp_associate, tcp_cleanup, udp_cleanup,
}

abbrev pub is_setup : Phase → Bool
is_setup greeting = true
is_setup authenticating = true
is_setup requesting = true
is_setup _ = false

-- A client that is counted before its request was taken; there is none.
abbrev pub is_early : Client → Bool
is_early c = is_setup c.phase && (c.tcp_counted || c.udp_counted)

-- The counters are those of the clients that count; every request that was accepted is open or
-- closed; what is open is within the peak, and the peak within the limit.
abbrev pub IsBalanced : Server → Type 0
IsBalanced s =
    (s.handshaking_sockets ≡ tally_of (λ c. c.handshaking) s.clients)
    × (s.active_tcp ≡ tally_of (λ c. c.tcp_counted) s.clients)
    × (s.active_udp ≡ tally_of (λ c. c.udp_counted) s.clients)
    × (s.accepted_tcp ≡ s.active_tcp + s.closed_tcp)
    × (s.active_tcp ≤ s.peak_tcp)
    × (s.peak_tcp ≤ s.max_tcp)
    × (tally_of is_early s.clients ≡ 0)

-- A client is stored at the number, in the same counters as the one that takes its place.
abbrev pub Holds : Server → ℕ → Client → Type 0
Holds s id c =
    (d : Client) × (get_elem? s.clients id ≡ some d)
    × (c.handshaking ≡ d.handshaking)
    × (c.tcp_counted ≡ d.tcp_counted)
    × (c.udp_counted ≡ d.udp_counted)

pub none_early :
    (cs : List Client) (id : ℕ) (c : Client)
    → tally_of is_early cs ≡ 0
    → get_elem? cs id ≡ some c
    → is_early c ≡ false
unfolding tally_of
none_early [] id c h e = cc
none_early (d ∷ cs) zero c h e =
    let same : d ≡ c = cc in
    elim (Bool-cases (is_early c)) [
      | inl f ↦ absurd (omega (arith, ap (λ x. unit_of (is_early x)) same, ap unit_of f))
      | inr f ↦ f
    ]
none_early (d ∷ cs) (suc id) c h e = none_early cs id c (omega arith) e

pub get_elem?-set :
    (cs : List Client) (i : ℕ) (c v : Client)
    → get_elem? cs i ≡ some c
    → get_elem? (set cs i v) i ≡ some v
get_elem?-set [] i c v h = cc
get_elem?-set (x ∷ cs) zero c v h = refl
get_elem?-set (x ∷ cs) (suc i) c v h = get_elem?-set cs i c v h

pub early_zero :
    (s : Server) (id : ℕ) (c v : Client)
    → tally_of is_early s.clients ≡ 0
    → get_elem? s.clients id ≡ some c
    → is_early v ≡ false
    → tally_of is_early (set s.clients id v) ≡ 0
early_zero s id c v g e f = omega (arith, tally_of-set is_early s.clients id c v e, ap unit_of f)

pub put-IsBalanced :
    (s : Server) (id : ℕ) (v : Client)
    → IsBalanced s
    → Holds s id v
    → is_early v ≡ false
    → IsBalanced (put s id v)
put-IsBalanced s id v (a, b, c, d, e, f, g) (x, h, p, q, r) k = (
  omega (arith, tally_of-set (λ c. c.handshaking) s.clients id x v h, ap unit_of p),
  omega (arith, tally_of-set (λ c. c.tcp_counted) s.clients id x v h, ap unit_of q),
  omega (arith, tally_of-set (λ c. c.udp_counted) s.clients id x v h, ap unit_of r),
  d,
  e,
  f,
  early_zero s id x v g h k,
)
