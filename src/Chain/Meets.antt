-- ===== src/Chain/Meets.antt =====
-- The SOCKS5 client of the chain proxy, met by the SOCKS5 server of the same repository.
use block_proxy.Common.{
  ℕ, ◌+◌, ◌-◌, ◌*◌, ◌/◌, ◌%◌, ◌<◌, ◌≤◌, ◌≡◌, refl, ap, ◌∙◌, arith, true, false, ◌&&◌, [], ◌∷◌, ◌++◌,
  some, ok, length, get_elem?, set, leb, ltb, if_off, if_on, text_eq_refl, take_all, drop_skip,
  get_elem?-append, length-append,
}
use block_proxy.Wire.Buffer.{
  Bytes, Text, Node, IsWellFormed, slice, slice-append, read_u16be-append,
}
use block_proxy.Socks.Address.{parse_address, parse_typed, parse_domain, with_port}
use block_proxy.Socks.State.{
  Client, Server, new_client, connecting, put, write, authenticating, requesting, finished,
  finish_handshake, handle_tcp_request,
}
use block_proxy.Socks.Handshake.{
  password_at, read_credentials, is_text, authorized, on_credentials, on_command, on_request,
  on_greeting, choose_method, choose_from, handshake_data,
}
use block_proxy.Socks.Steps.{client_sends, client_chunk, step, run}
use block_proxy.Socks.Balance.{get_elem?-set}
use block_proxy.Chain.Link.{waiting}
use block_proxy.Chain.Socks.{
  auth_bytes, request_bytes, greeting, socks5_connect, on_data, on_stage, on_step, method_chosen,
  authenticated, send_socks5_request,
}

small_size : (n : ℕ) → n ≤ 255 → n % 256 ≡ n
small_size n h = omega arith

port_bytes : (n : ℕ) → n < 65536 → (n / 256 % 256) * 256 + n % 256 ≡ n
port_bytes n h = omega arith

-- The server reads the request as the client's target.
pub parse_address-request_bytes :
    (node : Node) (host : Text) (port : ℕ)
    → IsWellFormed host
    → length (node.utf8 host) ≤ 255
    → port < 65536
    → parse_address node (request_bytes (node.utf8 host) port) 3
      ≡ ok (record { host = host; port = port; next_offset = 5 + length (node.utf8 host) + 2 })
unfolding parse_address parse_typed parse_domain with_port
parse_address-request_bytes node host port w hl hp =
    let h = node.utf8 host in
    let hi = port / 256 % 256 in
    let lo = port % 256 in
    let inside =
      slice-append (5 ∷ 1 ∷ 0 ∷ 3 ∷ length h ∷ []) h (hi ∷ lo ∷ []) 5 (5 + length h) refl
        (omega arith) in
    let tail =
      read_u16be-append (5 ∷ 1 ∷ 0 ∷ 3 ∷ length h ∷ h) [] hi lo (5 + length h) (omega arith) in
    rw (small_size (length h) hl)
      (rw (inside, node.from_utf8-utf8 host w, tail, port_bytes port hp) refl)

password_whole :
    (node : Node) (version : ℕ) (u p : Bytes)
    → password_at node (version ∷ length u ∷ (u ++ (length p ∷ p))) (length u) (some (length p))
      ≡ some (node.from_utf8 u, node.from_utf8 p)
unfolding password_at
password_whole node version u p =
    let b = version ∷ length u ∷ (u ++ (length p ∷ p)) in
    let fits : ltb (length b) (2 + length u + 1 + length p) ≡ false =
      ground (arith, length-append u (length p ∷ p)) in
    let first =
      slice-append (version ∷ length u ∷ []) u (length p ∷ p) 2 (2 + length u) refl (omega arith) in
    let behind =
      drop_skip (version ∷ length u ∷ u) (length p ∷ p) (2 + length u + 1) 1 (omega arith) in
    let second : slice b (2 + length u + 1) (2 + length u + 1 + length p) ≡ p =
      rw (behind, slice)
        (take_all (2 + length u + 1 + length p - (2 + length u + 1)) p (omega arith)) in
    if_off _ _ (ltb (length b) (2 + length u + 1 + length p)) fits
    ∙ ap some (λ i. (node.from_utf8 (first i), node.from_utf8 (second i)))

-- The server reads the credentials that the client sends.
pub read_credentials-auth_bytes :
    (node : Node) (username password : Text)
    → IsWellFormed username
    → IsWellFormed password
    → length (node.utf8 username) ≤ 255
    → length (node.utf8 password) ≤ 255
    → read_credentials node (auth_bytes (node.utf8 username) (node.utf8 password))
      ≡ some (username, password)
unfolding read_credentials password_at
read_credentials-auth_bytes node username password wu wp hu hp =
    let u = node.utf8 username in
    let p = node.utf8 password in
    rw (small_size (length u) hu, small_size (length p) hp)
      (rw (get_elem?-append (2 + length u) (1 ∷ length u ∷ u) (length p) p (omega arith)) (
        password_whole node 1 u p
        ∙ ap some (λ i. (node.from_utf8-utf8 username wu i, node.from_utf8-utf8 password wp i))))

authorized_own :
    (node : Node) (s : Server) (u p : Text)
    → s.username ≡ some u
    → s.password ≡ some p
    → authorized node s (some (u, p)) ≡ true
unfolding authorized
authorized_own node s u p hu hp =
    (λ i. is_text node (hu i) u && is_text node (hp i) p) ∙ rw (text_eq_refl u, text_eq_refl p) refl

step-client_sends :
    (node : Node) (decimal : ℕ → Text) (s : Server) (id : ℕ) (c : Client) (b : Bytes)
    → get_elem? s.clients id ≡ some c
    → c.destroyed ≡ false
    → step node decimal s (client_sends id b) ≡ client_chunk node decimal s id c c.phase b
unfolding step
step-client_sends node decimal s id c b h d = rw h (if_off _ _ c.destroyed d)

abbrev pub greeted : Client
greeted = record (write new_client (5 ∷ 2 ∷ [])) { phase = authenticating }

abbrev pub let_in : Client
let_in = record (write greeted (1 ∷ 0 ∷ [])) { phase = requesting }

module _ (node : Node) (decimal : ℕ → Text) (s : Server) (id : ℕ) where
  -- The server's three answers to the client's three chunks.
  step-greeting :
      (x : ℕ) (u : Text)
      → get_elem? s.clients id ≡ some new_client
      → step node decimal s (client_sends id (greeting (x ∷ u))) ≡ put s id greeted
  unfolding client_chunk handshake_data on_greeting choose_method choose_from greeting
  step-greeting x u h = step-client_sends node decimal s id new_client (greeting (x ∷ u)) h refl

  step-auth_bytes :
      (b : Bytes) (u p : Text)
      → get_elem? s.clients id ≡ some greeted
      → read_credentials node b ≡ some (u, p)
      → s.username ≡ some u
      → s.password ≡ some p
      → step node decimal s (client_sends id b) ≡ put s id let_in
  unfolding client_chunk handshake_data on_credentials
  step-auth_bytes b u p h r hu hp =
      step-client_sends node decimal s id greeted b h refl
      ∙ ap (put s id) (
          if_on _ _ (authorized node s (read_credentials node b))
            (ap (authorized node s) r ∙ authorized_own node s u p hu hp))

  step-request_bytes :
      (host : Text) (port : ℕ)
      → get_elem? s.clients id ≡ some let_in
      → IsWellFormed host
      → length (node.utf8 host) ≤ 255
      → port < 65536
      → s.active_tcp < s.max_tcp
      → (c : Client) × (get_elem?
            (step node decimal s (client_sends id (request_bytes (node.utf8 host) port))).clients
            id
          ≡ some c)
        × (c.phase ≡ connecting)
        × (c.host ≡ host)
        × (c.port ≡ port)
        × (c.written ≡ (5 ∷ 2 ∷ []) ∷ (1 ∷ 0 ∷ []) ∷ [])
  unfolding client_chunk handshake_data on_request on_command finish_handshake handle_tcp_request
  step-request_bytes host port h w hl hp limit =
      let b = request_bytes (node.utf8 host) port in
      let c : Client = record (finished let_in) {
        phase = connecting;
        tcp_counted = true;
        host = host;
        port = port;
      } in
      let long : ltb (length b) 4 ≡ false = ground arith in
      let free : leb s.max_tcp s.active_tcp ≡ false = ground arith in
      let taken =
        step-client_sends node decimal s id let_in b h refl
        ∙ if_off _ _ (ltb (length b) 4) long
        ∙ ap (on_command node s id let_in (some 1))
            (parse_address-request_bytes node host port w hl hp)
        ∙ if_off _ _ (leb s.max_tcp s.active_tcp) free in
      let found =
        get_elem?-set (set s.clients id (finished let_in)) id (finished let_in) c
          (get_elem?-set s.clients id let_in (finished let_in) h) in
      (c, ap (λ t. get_elem? t.clients id) taken ∙ found, refl, refl, refl, refl)

module _ (node : Node) (host : Text) (port x : ℕ) (u password : Text) where
  -- What the client has written once the server let it in.
  socks5_connect_lets_in :
      length (node.utf8 (x ∷ u)) ≤ 255
      → length (node.utf8 password) ≤ 255
      → length (node.utf8 host) ≤ 255
      → let answer = on_data node host port (x ∷ u) password in
        answer (answer (socks5_connect node host port (x ∷ u) password) (5 ∷ 2 ∷ [])) (1 ∷ 0 ∷ [])
        ≡ record {
          stage = waiting 2;
          buffer = [];
          written =
              greeting (x ∷ u)
              ∷ auth_bytes (node.utf8 (x ∷ u)) (node.utf8 password)
              ∷ request_bytes (node.utf8 host) port
              ∷ [];
          put_back = [];
        }
  unfolding on_data on_stage on_step method_chosen authenticated send_socks5_request socks5_connect
  socks5_connect_lets_in hu hp hh =
      let a : ltb 255 (length (node.utf8 (x ∷ u))) ≡ false = ground arith in
      let b : ltb 255 (length (node.utf8 password)) ≡ false = ground arith in
      let c : ltb 255 (length (node.utf8 host)) ≡ false = ground arith in rw (a, b) (rw c refl)

  -- A client with the server's credentials, given the server's answers, writes three chunks; the
  -- server answers them with these answers and then connects to the client's target, if the number
  -- of its TCP requests is below the limit.
  pub run-socks5_connect :
      (decimal : ℕ → Text) (s : Server) (id : ℕ)
      → get_elem? s.clients id ≡ some new_client
      → s.username ≡ some (x ∷ u)
      → s.password ≡ some password
      → s.active_tcp < s.max_tcp
      → IsWellFormed (x ∷ u)
      → IsWellFormed password
      → IsWellFormed host
      → length (node.utf8 (x ∷ u)) ≤ 255
      → length (node.utf8 password) ≤ 255
      → length (node.utf8 host) ≤ 255
      → port < 65536
      → let answer = on_data node host port (x ∷ u) password in
        (first second third : Bytes) × (c : Client) × ((answer
            (answer (socks5_connect node host port (x ∷ u) password) (5 ∷ 2 ∷ []))
            (1 ∷ 0 ∷ [])).written
          ≡ first ∷ second ∷ third ∷ [])
        × (get_elem?
              (run node decimal s (
                client_sends id first
                ∷ client_sends id second
                ∷ client_sends id third
                ∷ [])).clients
              id
            ≡ some c)
        × (c.phase ≡ connecting)
        × (c.host ≡ host)
        × (c.port ≡ port)
        × (c.written ≡ (5 ∷ 2 ∷ []) ∷ (1 ∷ 0 ∷ []) ∷ [])
  unfolding run
  run-socks5_connect decimal s id h su sp limit wu wp wh lu lp lh hp =
      let one = greeting (x ∷ u) in
      let two = auth_bytes (node.utf8 (x ∷ u)) (node.utf8 password) in
      let three = request_bytes (node.utf8 host) port in
      let s1 = put s id greeted in
      let s2 = put s1 id let_in in
      let found1 = get_elem?-set s.clients id new_client greeted h in
      let found2 = get_elem?-set s1.clients id greeted let_in found1 in
      let first = step-greeting node decimal s id x u h in
      let second =
        step-auth_bytes node decimal s1 id two (x ∷ u) password found1
          (read_credentials-auth_bytes node (x ∷ u) password wu wp lu lp) su sp in
      let (c, found, e, f, g, w) =
        step-request_bytes node decimal s2 id host port found2 wh lh hp limit in
      (
        one,
        two,
        three,
        c,
        ap (λ k. k.written) (socks5_connect_lets_in lu lp lh),
        ap (λ t. get_elem? (step node decimal t (client_sends id three)).clients id)
              (ap (λ t. step node decimal t (client_sends id two)) first ∙ second)
            ∙ found,
        e,
        f,
        g,
        w,
      )
