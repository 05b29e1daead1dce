-- ===== src/Socks/Handshake.antt =====
-- The handshake of socks5/server.js: the method negotiation, the authentication and the request.
use block_proxy.Common.{
  ℕ, ◌+◌, Bool, false, ◌&&◌, [], ◌∷◌, Option, none, some, Result, ok, err, length, get_elem?, ltb,
  ◌==◌, if◌then◌else◌, text_eq,
}
use block_proxy.Wire.Buffer.{Bytes, Text, Node, slice}
use block_proxy.Socks.Address.{Target, AddressError, parse_address}
use block_proxy.Socks.State.{
  Phase, greeting, authenticating, requesting, over, Client, Server, put, write, destroy, refuse,
  finish_handshake, finished, handle_tcp_request, handle_udp_associate,
}

-- The loop over the offered methods: authentication wins over none, and 255 stands for neither.
unfoldable pub choose_from : ℕ → Bytes → ℕ
choose_from method [] = method
choose_from method (m ∷ ms) =
    choose_from (if m == 2 then 2 else if (m == 0) && (method == 255) then 0 else method) ms

-- The chosen method, and `none` for a greeting of the wrong length.
unfoldable pub choose_method : Bytes → Option ℕ
choose_method (version ∷ nmethods ∷ methods) =
    if length methods == nmethods then some (choose_from 255 methods) else none
choose_method _ = none

unfoldable pub on_greeting : Client → Option ℕ → Client
on_greeting c none = record (destroy c) { phase = over }
on_greeting c (some method) = record (write c (5 ∷ method ∷ [])) {
  phase = if method == 2 then authenticating else requesting;
}

module _ (node : Node) where
  open node use {from_utf8}

  -- The user name and the password of an authentication, `none` where it is too short.
  unfoldable pub password_at : Bytes → ℕ → Option ℕ → Option (Text × Text)
  password_at b ulen none = none
  password_at b ulen (some plen) =
      if ltb (length b) (2 + ulen + 1 + plen)
      then none
      else some (
        from_utf8 (slice b 2 (2 + ulen)),
        from_utf8 (slice b (2 + ulen + 1) (2 + ulen + 1 + plen)),
      )

  unfoldable pub read_credentials : Bytes → Option (Text × Text)
  read_credentials (version ∷ ulen ∷ b) =
      password_at (version ∷ ulen ∷ b) ulen (get_elem? (version ∷ ulen ∷ b) (2 + ulen))
  read_credentials _ = none

  abbrev pub is_text : Option Text → Text → Bool
  is_text none t = false
  is_text (some u) t = text_eq t u

  unfoldable pub authorized : Server → Option (Text × Text) → Bool
  authorized s none = false
  authorized s (some (username, password)) =
      is_text s.username username && is_text s.password password

  unfoldable pub on_credentials : Server → Client → Bytes → Client
  on_credentials s c b =
      if authorized s (read_credentials b)
      then record (write c (1 ∷ 0 ∷ [])) { phase = requesting }
      else record (destroy (write c (1 ∷ 255 ∷ []))) { phase = over }

  unfoldable pub on_command : Server → ℕ → Client → Option ℕ → Result AddressError Target → Server
  on_command s id c cmd (err e) = put s id (record (refuse c 8) { phase = over })
  on_command s id c none (ok target) = put s id (record (refuse c 7) { phase = over })
  on_command s id c (some cmd) (ok target) =
      if cmd == 1
      then handle_tcp_request (finish_handshake s id c) id (finished c) target.host target.port
      else if cmd == 3
      then handle_udp_associate (finish_handshake s id c) id (finished c)
      else put s id (record (refuse c 7) { phase = over })

  unfoldable pub on_request : Server → ℕ → Client → Bytes → Server
  on_request s id c b =
      if ltb (length b) 4
      then put s id (record (destroy c) { phase = over })
      else on_command s id c (get_elem? b 1) (parse_address node b 3)

  -- A chunk that arrives in one of the three reads of the handshake.
  unfoldable pub handshake_data : Server → ℕ → Client → Phase → Bytes → Server
  handshake_data s id c greeting b = put s id (on_greeting c (choose_method b))
  handshake_data s id c authenticating b = put s id (on_credentials s c b)
  handshake_data s id c requesting b = on_request s id c b
  handshake_data s id c _ b = s

  -- A read that ends, fails or times out: the socket is destroyed.
  unfoldable pub handshake_fails : Server → ℕ → Client → Phase → Server
  handshake_fails s id c greeting = put s id (record (destroy c) { phase = over })
  handshake_fails s id c authenticating = put s id (record (destroy c) { phase = over })
  handshake_fails s id c requesting = put s id (record (destroy c) { phase = over })
  handshake_fails s id c _ = s
