-- ===== src/Socks/Balance/Run.antt =====
-- Every event of the SOCKS5 server keeps the counters balanced.
use block_proxy.Common.{
  ℕ, ◌≡◌, refl, arith, false, ◌||◌, List, [], ◌∷◌, ◌++◌, Option, get_elem?, inl, inr, Option-cases,
  if_rule,
}
use block_proxy.Common.Counts.{tally_of}
use block_proxy.Wire.Buffer.{Bytes, Text, Node}
use block_proxy.Manager.Forward.{index_of, crlf}
use block_proxy.Socks.State.{
  Phase, greeting, authenticating, requesting, connecting, relaying, associated, over, Client,
  Server, new, put, destroy,
}
use block_proxy.Socks.Relay.{
  proxy_connected, proxy_data, proxy_answers, on_answer, answered, client_data, proxy_error,
  is_http_ok,
}
use block_proxy.Socks.Udp.{udp_data, udp_message}
use block_proxy.Socks.Steps.{
  Event, connects, client_sends, client_fails, client_idles, client_closes, proxy_connects,
  proxy_fails, proxy_idles, proxy_closes, proxy_sends, udp_receives, is_relay, client_chunk,
  client_error, tcp_undone, udp_undone, client_closed, on_udp, at_client, step, run,
}
use block_proxy.Socks.Balance.{IsBalanced, is_early, none_early}
use block_proxy.Socks.Balance.Handshakes.{
  accept-IsBalanced, finish_handshake-IsBalanced, tcp_cleanup-IsBalanced, udp_cleanup-IsBalanced,
}
use block_proxy.Socks.Balance.Setup.{
  Stored, handshake_data-IsBalanced, handshake_fails-IsBalanced, kept-IsBalanced, past-IsBalanced,
}

module _ (node : Node) (decimal : ℕ → Text) where
  module _ (s : Server) (id : ℕ) (c : Client) where
    on_answer-IsBalanced :
        (b : Bytes)
        → Stored node s id c
        → c.phase ≡ connecting
        → IsBalanced (put s id (on_answer c b))
    unfolding on_answer answered
    on_answer-IsBalanced b st e = elim (Option-cases (index_of b (crlf ++ crlf))) [
      | inl n ↦ rw (n, on_answer) (kept-IsBalanced node s id c _ st (refl, refl, refl) refl)
      | inr (i, n) ↦
          rw (n, on_answer)
            (if_rule (λ (v : Client). IsBalanced (put s id v)) (is_http_ok b)
              (λ _. past-IsBalanced node s id c _ st (refl, refl, refl) refl)
              (λ _. past-IsBalanced node s id c _ st (refl, refl, refl) refl))
    ]

    proxy_data-IsBalanced :
        (p : Phase) (b : Bytes)
        → c.phase ≡ p
        → Stored node s id c
        → IsBalanced (put s id (proxy_data c p b))
    unfolding proxy_data proxy_answers
    proxy_data-IsBalanced connecting b e st =
        if_rule (λ (v : Client). IsBalanced (put s id v)) (c.destroyed || c.proxy_destroyed)
          (λ _. kept-IsBalanced node s id c c st (refl, refl, refl) refl)
          (λ _. on_answer-IsBalanced (c.buffer ++ b) st e)
    proxy_data-IsBalanced relaying b e st =
        if_rule (λ (v : Client). IsBalanced (put s id v)) c.destroyed
          (λ _. kept-IsBalanced node s id c c st (refl, refl, refl) refl)
          (λ _. kept-IsBalanced node s id c _ st (refl, refl, refl) refl)
    proxy_data-IsBalanced _ b e st = kept-IsBalanced node s id c c st (refl, refl, refl) refl

    client_chunk-IsBalanced :
        (p : Phase) (b : Bytes)
        → c.phase ≡ p
        → Stored node s id c
        → IsBalanced (client_chunk node decimal s id c p b)
    unfolding client_chunk udp_data client_data
    client_chunk-IsBalanced associated b e st =
        kept-IsBalanced node s id c _ st (refl, refl, refl) refl
    client_chunk-IsBalanced relaying b e st =
        if_rule (λ (v : Client). IsBalanced (put s id v)) c.proxy_destroyed
          (λ _. kept-IsBalanced node s id c c st (refl, refl, refl) refl)
          (λ _. kept-IsBalanced node s id c _ st (refl, refl, refl) refl)
    client_chunk-IsBalanced connecting b e st = st.0
    client_chunk-IsBalanced over b e st = st.0
    client_chunk-IsBalanced greeting b e st = handshake_data-IsBalanced node s id c greeting b e st
    client_chunk-IsBalanced authenticating b e st =
        handshake_data-IsBalanced node s id c authenticating b e st
    client_chunk-IsBalanced requesting b e st =
        handshake_data-IsBalanced node s id c requesting b e st

    early : Stored node s id c → is_early c ≡ false
    early (w, h) = none_early s.clients id c w.6 h

    client_error-IsBalanced :
        (p : Phase)
        → c.phase ≡ p
        → Stored node s id c
        → IsBalanced (client_error node decimal s id c p)
    unfolding client_error
    client_error-IsBalanced associated e st = udp_cleanup-IsBalanced s id c st.0 st.1 (early st)
    client_error-IsBalanced connecting e st =
        kept-IsBalanced node s id c _ st (refl, refl, refl) refl
    client_error-IsBalanced relaying e st = kept-IsBalanced node s id c _ st (refl, refl, refl) refl
    client_error-IsBalanced over e st = handshake_fails-IsBalanced node s id c over e st
    client_error-IsBalanced greeting e st = handshake_fails-IsBalanced node s id c greeting e st
    client_error-IsBalanced authenticating e st =
        handshake_fails-IsBalanced node s id c authenticating e st
    client_error-IsBalanced requesting e st = handshake_fails-IsBalanced node s id c requesting e st

    proxy_error-IsBalanced : Stored node s id c → IsBalanced (put s id (proxy_error c))
    unfolding proxy_error
    proxy_error-IsBalanced st =
        if_rule (λ (v : Client). IsBalanced (put s id v)) c.destroyed
          (λ _. kept-IsBalanced node s id c c st (refl, refl, refl) refl)
          (λ _. kept-IsBalanced node s id c _ st (refl, refl, refl) refl)

    udp_message-IsBalanced :
        (address : Text) (port : ℕ) (b : Bytes)
        → Stored node s id c
        → IsBalanced (put s id (udp_message c address port b))
    unfolding udp_message
    udp_message-IsBalanced address port b st =
        if_rule (λ (v : Client). IsBalanced (put s id v)) c.destroyed
          (λ _. kept-IsBalanced node s id c c st (refl, refl, refl) refl)
          (λ _. kept-IsBalanced node s id c _ st (refl, refl, refl) refl)

  tcp_undone-IsBalanced :
      (s : Server) (id : ℕ) → IsBalanced s → IsBalanced (tcp_undone node decimal s id)
  tcp_undone-IsBalanced s id w = elim (Option-cases (get_elem? s.clients id)) [
    | inl n ↦ rw (n, tcp_undone) w
    | inr (c, h) ↦
        rw (h, tcp_undone) (tcp_cleanup-IsBalanced s id c w h (none_early s.clients id c w.6 h))
  ]

  udp_undone-IsBalanced :
      (s : Server) (id : ℕ) → IsBalanced s → IsBalanced (udp_undone node decimal s id)
  udp_undone-IsBalanced s id w = elim (Option-cases (get_elem? s.clients id)) [
    | inl n ↦ rw (n, udp_undone) w
    | inr (c, h) ↦
        rw (h, udp_undone) (udp_cleanup-IsBalanced s id c w h (none_early s.clients id c w.6 h))
  ]

  at_client-IsBalanced :
      (s : Server) (id : ℕ) (act : Client → Server)
      → IsBalanced s
      → ((c : Client) → Stored node s id c → IsBalanced (act c))
      → IsBalanced (at_client node decimal s (get_elem? s.clients id) act)
  at_client-IsBalanced s id act w k = elim (Option-cases (get_elem? s.clients id)) [
    | inl n ↦ rw n w
    | inr (c, h) ↦ rw h (k c (w, h))
  ]

  on_udp-IsBalanced :
      (s : Server) (id : ℕ) (c : Client) (p : Phase) (address : Text) (port : ℕ) (b : Bytes)
      → Stored node s id c
      → IsBalanced (on_udp node decimal s id c p address port b)
  unfolding on_udp
  on_udp-IsBalanced s id c associated address port b st =
      udp_message-IsBalanced s id c address port b st
  on_udp-IsBalanced s id c _ address port b st = st.0

  step-IsBalanced : (s : Server) (e : Event) → IsBalanced s → IsBalanced (step node decimal s e)
  unfolding step client_closed proxy_connected
  step-IsBalanced s connects w = accept-IsBalanced s w
  step-IsBalanced s (client_sends id b) w = at_client-IsBalanced s id _ w λ c st.
      if_rule (λ (r : Server). IsBalanced r) c.destroyed (λ _. w)
        (λ _. client_chunk-IsBalanced s id c c.phase b refl st)
  step-IsBalanced s (client_fails id) w =
      at_client-IsBalanced s id _ w λ c st. client_error-IsBalanced s id c c.phase refl st
  step-IsBalanced s (client_idles id) w =
      at_client-IsBalanced s id _ w λ c st. kept-IsBalanced node s id c _ st (refl, refl, refl) refl
  step-IsBalanced s (client_closes id) w = at_client-IsBalanced s id _ w λ c st.
      udp_undone-IsBalanced _ id (
        tcp_undone-IsBalanced _ id (
          finish_handshake-IsBalanced s id (record (destroy c) { phase = over }) w
            (c, st.1, refl, refl, refl) refl))
  step-IsBalanced s (proxy_connects id) w = at_client-IsBalanced s id _ w λ c st.
      if_rule (λ (r : Server). IsBalanced r) (is_relay c.phase)
        (λ _. kept-IsBalanced node s id c _ st (refl, refl, refl) refl) (λ _. w)
  step-IsBalanced s (proxy_fails id) w = at_client-IsBalanced s id _ w λ c st.
      if_rule (λ (r : Server). IsBalanced r) (is_relay c.phase)
        (λ _. proxy_error-IsBalanced s id c st) (λ _. w)
  step-IsBalanced s (proxy_idles id) w =
      at_client-IsBalanced s id _ w λ c st. kept-IsBalanced node s id c _ st (refl, refl, refl) refl
  step-IsBalanced s (proxy_closes id) w =
      at_client-IsBalanced s id _ w λ c st. tcp_cleanup-IsBalanced s id c w st.1 (early s id c st)
  step-IsBalanced s (proxy_sends id b) w =
      at_client-IsBalanced s id _ w λ c st. proxy_data-IsBalanced s id c c.phase b refl st
  step-IsBalanced s (udp_receives id address port b) w =
      at_client-IsBalanced s id _ w λ c st. on_udp-IsBalanced s id c c.phase address port b st

  run_from-IsBalanced :
      (s : Server) (es : List Event) → IsBalanced s → IsBalanced (run node decimal s es)
  unfolding run
  run_from-IsBalanced s [] w = w
  run_from-IsBalanced s (e ∷ es) w =
      run_from-IsBalanced (step node decimal s e) es (step-IsBalanced s e w)

  new-IsBalanced :
      (username password : Option Text) (max_tcp : ℕ) → IsBalanced (new username password max_tcp)
  unfolding new tally_of
  new-IsBalanced username password max_tcp =
      (refl, refl, refl, omega arith, omega arith, omega arith, refl)

  -- After any events of any connections, the counts of handshakes, of TCP requests and of UDP
  -- relays are those of the sockets that count; every TCP request that was accepted is open or was
  -- closed; and never were more open at once than the limit.
  pub run-IsBalanced :
      (username password : Option Text) (max_tcp : ℕ) (es : List Event)
      → IsBalanced (run node decimal (new username password max_tcp) es)
  run-IsBalanced username password max_tcp es =
      run_from-IsBalanced (new username password max_tcp) es
        (new-IsBalanced username password max_tcp)
