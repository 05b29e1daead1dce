-- ===== src/Socks/Balance/Setup.antt =====
-- The handshake of the SOCKS5 server keeps the counters balanced.
use block_proxy.Common.{
  ℕ, ◌≡◌, refl, ap, ◌∙◌, Bool, true, false, ◌&&◌, ◌||◌, Option, none, some, Result, ok, err, length,
  get_elem?, ltb, ◌==◌, if_rule,
}
use block_proxy.Wire.Buffer.{Bytes, Node}
use block_proxy.Socks.Address.{Target, AddressError, parse_address}
use block_proxy.Socks.State.{
  Phase, greeting, authenticating, requesting, connecting, relaying, associated, over, Client,
  Server, put, finished,
}
use block_proxy.Socks.Handshake.{
  choose_method, on_greeting, authorized, read_credentials, on_credentials, on_command, on_request,
  handshake_data, handshake_fails,
}
use block_proxy.Socks.Balance.{IsBalanced, Holds, is_early, is_setup, none_early, put-IsBalanced}
use block_proxy.Socks.Balance.Handshakes.{
  finish_handshake-IsBalanced, finish_handshake-Holds, handle_tcp_request-IsBalanced,
  handle_udp_associate-IsBalanced,
}

both_off : (a t u : Bool) → (a && (t || u)) ≡ false → a ≡ true → (t ≡ false) × (u ≡ false)
both_off true true u h e = cc
both_off true false u h e = (refl, h)
both_off false t u h e = cc

early_off : (a t u : Bool) → t ≡ false → u ≡ false → (a && (t || u)) ≡ false
early_off true t u h k = rw (h, k) refl
early_off false t u h k = refl

module _ (node : Node) (s : Server) (id : ℕ) (c : Client) where
  -- A stored client in a server whose counters are balanced.
  abbrev pub Stored : Type 0
  Stored = IsBalanced s × (get_elem? s.clients id ≡ some c)

  off : Stored → is_setup c.phase ≡ true → (c.tcp_counted ≡ false) × (c.udp_counted ≡ false)
  off (w, h) e =
      both_off (is_setup c.phase) c.tcp_counted c.udp_counted (none_early s.clients id c w.6 h) e

  -- A write that keeps the counts, with a phase in which an early count would show only if there
  -- was one.
  same-IsBalanced :
      (v : Client)
      → Stored
      → (v.handshaking ≡ c.handshaking)
        × (v.tcp_counted ≡ c.tcp_counted)
        × (v.udp_counted ≡ c.udp_counted)
      → is_early v ≡ false
      → IsBalanced (put s id v)
  same-IsBalanced v (w, h) (p, q, r) k = put-IsBalanced s id v w (c, h, p, q, r) k

  -- While the handshake goes on, any phase is fine.
  setup-IsBalanced :
      (v : Client)
      → Stored
      → is_setup c.phase ≡ true
      → (v.handshaking ≡ c.handshaking)
        × (v.tcp_counted ≡ c.tcp_counted)
        × (v.udp_counted ≡ c.udp_counted)
      → IsBalanced (put s id v)
  setup-IsBalanced v st e (p, q, r) =
      let (t, u) = off st e in
      same-IsBalanced v st (p, q, r)
        (early_off (is_setup v.phase) v.tcp_counted v.udp_counted (q ∙ t) (r ∙ u))

  on_greeting-IsBalanced :
      (m : Option ℕ) → Stored → is_setup c.phase ≡ true → IsBalanced (put s id (on_greeting c m))
  unfolding on_greeting
  on_greeting-IsBalanced none st e = setup-IsBalanced _ st e (refl, refl, refl)
  on_greeting-IsBalanced (some m) st e = setup-IsBalanced _ st e (refl, refl, refl)

  on_credentials-IsBalanced :
      (b : Bytes)
      → Stored
      → is_setup c.phase ≡ true
      → IsBalanced (put s id (on_credentials node s c b))
  unfolding on_credentials
  on_credentials-IsBalanced b st e =
      if_rule (λ (v : Client). IsBalanced (put s id v))
        (authorized node s (read_credentials node b))
        (λ _. setup-IsBalanced _ st e (refl, refl, refl))
        (λ _. setup-IsBalanced _ st e (refl, refl, refl))

  on_command-IsBalanced :
      (cmd : Option ℕ) (t : Result AddressError Target)
      → Stored
      → is_setup c.phase ≡ true
      → IsBalanced (on_command node s id c cmd t)
  unfolding on_command
  on_command-IsBalanced cmd (err x) st e = setup-IsBalanced _ st e (refl, refl, refl)
  on_command-IsBalanced none (ok t) st e = setup-IsBalanced _ st e (refl, refl, refl)
  on_command-IsBalanced (some cmd) (ok t) st e =
      let (w, h) = st in
      let holds : Holds s id c = (c, h, refl, refl, refl) in
      let done = finish_handshake-IsBalanced s id c w holds (none_early s.clients id c w.6 h) in
      let still = finish_handshake-Holds s id c holds in
      if_rule (λ (r : Server). IsBalanced r) (cmd == 1)
        (λ _. handle_tcp_request-IsBalanced _ id (finished c) t.host t.port done still (off st e).0)
        λ _.
          if_rule (λ (r : Server). IsBalanced r) (cmd == 3)
            (λ _. handle_udp_associate-IsBalanced _ id (finished c) done still (off st e).1)
            λ _. setup-IsBalanced _ st e (refl, refl, refl)

  pub handshake_data-IsBalanced :
      (p : Phase) (b : Bytes) → c.phase ≡ p → Stored → IsBalanced (handshake_data node s id c p b)
  unfolding handshake_data on_request
  handshake_data-IsBalanced greeting b e st =
      on_greeting-IsBalanced (choose_method b) st (ap is_setup e)
  handshake_data-IsBalanced authenticating b e st = on_credentials-IsBalanced b st (ap is_setup e)
  handshake_data-IsBalanced requesting b e st =
      if_rule (λ (r : Server). IsBalanced r) (ltb (length b) 4)
        (λ _. setup-IsBalanced _ st (ap is_setup e) (refl, refl, refl))
        (λ _. on_command-IsBalanced (get_elem? b 1) (parse_address node b 3) st (ap is_setup e))
  handshake_data-IsBalanced connecting b e st = st.0
  handshake_data-IsBalanced relaying b e st = st.0
  handshake_data-IsBalanced associated b e st = st.0
  handshake_data-IsBalanced over b e st = st.0

  pub handshake_fails-IsBalanced :
      (p : Phase) → c.phase ≡ p → Stored → IsBalanced (handshake_fails node s id c p)
  unfolding handshake_fails
  handshake_fails-IsBalanced greeting e st =
      setup-IsBalanced _ st (ap is_setup e) (refl, refl, refl)
  handshake_fails-IsBalanced authenticating e st =
      setup-IsBalanced _ st (ap is_setup e) (refl, refl, refl)
  handshake_fails-IsBalanced requesting e st =
      setup-IsBalanced _ st (ap is_setup e) (refl, refl, refl)
  handshake_fails-IsBalanced connecting e st = st.0
  handshake_fails-IsBalanced relaying e st = st.0
  handshake_fails-IsBalanced associated e st = st.0
  handshake_fails-IsBalanced over e st = st.0

  -- A write of a client whose phase and counts stay.
  pub kept-IsBalanced :
      (v : Client)
      → Stored
      → (v.handshaking ≡ c.handshaking)
        × (v.tcp_counted ≡ c.tcp_counted)
        × (v.udp_counted ≡ c.udp_counted)
      → v.phase ≡ c.phase
      → IsBalanced (put s id v)
  kept-IsBalanced v st (p, q, r) f =
      let (w, h) = st in
      same-IsBalanced v st (p, q, r) (rw (f, q, r) (none_early s.clients id c w.6 h))

  -- A write of a client that is past the handshake.
  pub past-IsBalanced :
      (v : Client)
      → Stored
      → (v.handshaking ≡ c.handshaking)
        × (v.tcp_counted ≡ c.tcp_counted)
        × (v.udp_counted ≡ c.udp_counted)
      → is_setup v.phase ≡ false
      → IsBalanced (put s id v)
  past-IsBalanced v st same f = same-IsBalanced v st same (rw f refl)
