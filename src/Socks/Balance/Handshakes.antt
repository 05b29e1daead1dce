-- ===== src/Socks/Balance/Handshakes.antt =====
-- finishHandshake, the two kinds of request and their cleanups keep the counters balanced.
use block_proxy.Common.{
  ℕ, ◌≡◌, refl, sym, ap, ◌∙◌, arith, Bool, true, false, ◌&&◌, ◌||◌, some, get_elem?, leb, if_rule,
}
use block_proxy.Common.Counts.{unit_of, tally_of-set, tally_of-back}
use block_proxy.Wire.Buffer.{Text}
use block_proxy.Socks.State.{
  connecting, associated, Client, Server, new_client, accept, finish_handshake, finished,
  handle_tcp_request, handle_udp_associate, tcp_cleanup, udp_cleanup,
}
use block_proxy.Socks.Balance.{
  IsBalanced, Holds, is_early, is_setup, early_zero, put-IsBalanced, get_elem?-set,
}

pub accept-IsBalanced : (s : Server) → IsBalanced s → IsBalanced (accept s)
unfolding accept
accept-IsBalanced s (a, b, c, d, e, f, g) = (
  omega (arith, tally_of-back (λ c. c.handshaking) s.clients new_client),
  omega (arith, tally_of-back (λ c. c.tcp_counted) s.clients new_client),
  omega (arith, tally_of-back (λ c. c.udp_counted) s.clients new_client),
  d,
  e,
  f,
  omega (arith, tally_of-back is_early s.clients new_client),
)

pub finish_handshake-IsBalanced :
    (s : Server) (id : ℕ) (v : Client)
    → IsBalanced s
    → Holds s id v
    → is_early v ≡ false
    → IsBalanced (finish_handshake s id v)
unfolding finish_handshake
finish_handshake-IsBalanced s id v (a, b, c, d, e, f, g) (x, h, p, q, r) k =
    let w = finished v in
    if_rule (λ (t : Server). IsBalanced t) v.handshaking
      (λ on. (
        omega
            (arith, tally_of-set (λ c. c.handshaking) s.clients id x w h, ap unit_of (sym p ∙ on)),
        omega (arith, tally_of-set (λ c. c.tcp_counted) s.clients id x w h, ap unit_of q),
        omega (arith, tally_of-set (λ c. c.udp_counted) s.clients id x w h, ap unit_of r),
        d,
        e,
        f,
        early_zero s id x w g h k,
      ))
      (λ _. put-IsBalanced s id v (a, b, c, d, e, f, g) (x, h, p, q, r) k)

pub finish_handshake-Holds :
    (s : Server) (id : ℕ) (v : Client)
    → Holds s id v
    → Holds (finish_handshake s id v) id (finished v)
unfolding finish_handshake
finish_handshake-Holds s id v (x, h, p, q, r) =
    if_rule (λ (t : Server). Holds t id (finished v)) v.handshaking
      (λ _. (finished v, get_elem?-set s.clients id x (finished v) h, refl, refl, refl))
      (λ off. (v, get_elem?-set s.clients id x v h, sym off, refl, refl))

pub handle_tcp_request-IsBalanced :
    (s : Server) (id : ℕ) (v : Client) (host : Text) (port : ℕ)
    → IsBalanced s
    → Holds s id v
    → v.tcp_counted ≡ false
    → IsBalanced (handle_tcp_request s id v host port)
unfolding handle_tcp_request
handle_tcp_request-IsBalanced s id v host port (a, b, c, d, e, f, g) (x, h, p, q, r) out =
    let w : Client = record v {
      phase = connecting;
      tcp_counted = true;
      host = host;
      port = port;
    } in
    let old = ap unit_of (sym q ∙ out) in
    if_rule (λ (t : Server). IsBalanced t) (leb s.max_tcp s.active_tcp)
      (λ _. put-IsBalanced s id _ (a, b, c, d, e, f, g) (x, h, p, q, r) refl)
      (λ free. (
        omega (arith, tally_of-set (λ c. c.handshaking) s.clients id x w h, ap unit_of p),
        omega (arith, tally_of-set (λ c. c.tcp_counted) s.clients id x w h, old),
        omega (arith, tally_of-set (λ c. c.udp_counted) s.clients id x w h, ap unit_of r),
        omega arith,
        ground arith,
        ground arith,
        early_zero s id x w g h refl,
      ))

pub handle_udp_associate-IsBalanced :
    (s : Server) (id : ℕ) (v : Client)
    → IsBalanced s
    → Holds s id v
    → v.udp_counted ≡ false
    → IsBalanced (handle_udp_associate s id v)
unfolding handle_udp_associate
handle_udp_associate-IsBalanced s id v (a, b, c, d, e, f, g) (x, h, p, q, r) out =
    let w : Client = record v { phase = associated; udp_counted = true } in
    let old = ap unit_of (sym r ∙ out) in
    (
      omega (arith, tally_of-set (λ c. c.handshaking) s.clients id x _ h, ap unit_of p),
      omega (arith, tally_of-set (λ c. c.tcp_counted) s.clients id x _ h, ap unit_of q),
      omega (arith, tally_of-set (λ c. c.udp_counted) s.clients id x _ h, old),
      d,
      e,
      f,
      early_zero s id x _ g h refl,
    )

without_tcp : (a t u : Bool) → (a && (t || u)) ≡ false → (a && (false || u)) ≡ false
without_tcp true true u h = cc
without_tcp true false u h = h
without_tcp false t u h = refl

without_udp : (a t u : Bool) → (a && (t || u)) ≡ false → (a && (t || false)) ≡ false
without_udp true true u h = cc
without_udp true false u h = refl
without_udp false t u h = refl

pub tcp_cleanup-IsBalanced :
    (s : Server) (id : ℕ) (v : Client)
    → IsBalanced s
    → get_elem? s.clients id ≡ some v
    → is_early v ≡ false
    → IsBalanced (tcp_cleanup s id v)
unfolding tcp_cleanup
tcp_cleanup-IsBalanced s id v (a, b, c, d, e, f, g) h k =
    let w : Client = record v { tcp_counted = false; proxy_destroyed = true; destroyed = true } in
    let here = tally_of-set (λ c. c.tcp_counted) s.clients id v w h in
    if_rule (λ (t : Server). IsBalanced t) v.tcp_counted
      (λ on. (
        omega (arith, tally_of-set (λ c. c.handshaking) s.clients id v w h),
        omega (arith, here, ap unit_of on),
        omega (arith, tally_of-set (λ c. c.udp_counted) s.clients id v w h),
        omega (arith, here, ap unit_of on),
        omega arith,
        f,
        early_zero s id v w g h (without_tcp (is_setup v.phase) v.tcp_counted v.udp_counted k),
      ))
      (λ _. put-IsBalanced s id v (a, b, c, d, e, f, g) (v, h, refl, refl, refl) k)

pub udp_cleanup-IsBalanced :
    (s : Server) (id : ℕ) (v : Client)
    → IsBalanced s
    → get_elem? s.clients id ≡ some v
    → is_early v ≡ false
    → IsBalanced (udp_cleanup s id v)
unfolding udp_cleanup
udp_cleanup-IsBalanced s id v (a, b, c, d, e, f, g) h k =
    let w : Client = record v { udp_counted = false } in
    if_rule (λ (t : Server). IsBalanced t) v.udp_counted
      (λ on. (
        omega (arith, tally_of-set (λ c. c.handshaking) s.clients id v w h),
        omega (arith, tally_of-set (λ c. c.tcp_counted) s.clients id v w h),
        omega (arith, tally_of-set (λ c. c.udp_counted) s.clients id v w h, ap unit_of on),
        d,
        e,
        f,
        early_zero s id v w g h (without_udp (is_setup v.phase) v.tcp_counted v.udp_counted k),
      ))
      (λ _. put-IsBalanced s id v (a, b, c, d, e, f, g) (v, h, refl, refl, refl) k)
