-- ===== src/Socks/Access.antt =====
-- Who gets through the handshake of the SOCKS5 server.
use block_proxy.Common.{
  both, ℕ, ◌≡◌, refl, sym, ap, ◌∙◌, true, false, [], ◌∷◌, ◌++◌, Option, none, some, length,
  get_elem?, ◌==◌, ==_refl, All, if_off, text_eq→eq, ◌⊎◌, inl, inr, Bool-cases,
}
use block_proxy.Wire.Buffer.{Bytes, Text, Node}
use block_proxy.Socks.State.{greeting, requesting, over, Client, Server, put, write}
use block_proxy.Socks.Handshake.{
  choose_from, choose_method, on_greeting, read_credentials, is_text, authorized, on_credentials,
  on_request, handshake_data,
}
use block_proxy.Socks.Steps.{client_sends, client_chunk, step, run}
use block_proxy.Socks.Balance.{get_elem?-set}

-- What an authentication leaves: the client may go on, or it was told of the failure and is gone.
abbrev pub IsAdmitted : Client → Client → Type 0
IsAdmitted c v = (v.phase ≡ requesting) × (v.written ≡ c.written ++ ((1 ∷ 0 ∷ []) ∷ []))

abbrev pub IsRefused : Client → Client → Type 0
IsRefused c v =
    (v.phase ≡ over) × (v.destroyed ≡ true) × (v.written ≡ c.written ++ ((1 ∷ 255 ∷ []) ∷ []))

module _ (node : Node) where
  is_text-eq : (o : Option Text) (t : Text) → is_text node o t ≡ true → o ≡ some t
  is_text-eq none t h = cc
  is_text-eq (some u) t h = ap some (sym (text_eq→eq t u h))

  authorized-eq :
      (s : Server) (o : Option (Text × Text))
      → authorized node s o ≡ true
      → (username : Text) × (password : Text) × (o ≡ some (username, password))
        × (s.username ≡ some username)
        × (s.password ≡ some password)
  unfolding authorized
  authorized-eq s none h = cc
  authorized-eq s (some (u, p)) h =
      let (a, b) = both (is_text node s.username u) (is_text node s.password p) h in
      (u, p, refl, is_text-eq s.username u a, is_text-eq s.password p b)

  -- An authentication admits a client only if it carries the user name and the password of the
  -- server, and then it says so; any other one, a short one included, is answered with a failure
  -- and the socket is destroyed.
  pub on_credentials-access :
      (s : Server) (c : Client) (b : Bytes)
      → (((username : Text) × (password : Text) × (read_credentials node b
              ≡ some (username, password))
            × (s.username ≡ some username)
            × (s.password ≡ some password))
          × IsAdmitted c (on_credentials node s c b))
        ⊎ IsRefused c (on_credentials node s c b)
  unfolding on_credentials
  on_credentials-access s c b = elim (Bool-cases (authorized node s (read_credentials node b))) [
    | inl e ↦ inl (authorized-eq s (read_credentials node b) e, rw e (refl, refl))
    | inr e ↦ inr (rw e (refl, refl, refl))
  ]

abbrev pub IsOther : ℕ → Type 0
IsOther m = (m == 0 ≡ false) × (m == 2 ≡ false)

choose_from_other : (ms : Bytes) → All IsOther ms → choose_from 255 ms ≡ 255
unfolding choose_from
choose_from_other [] h = refl
choose_from_other (m ∷ ms) h = rw (h.0.0, h.0.1) (choose_from_other ms h.1)

greeted :
    (c : Client) (v : ℕ) (ms : Bytes)
    → All IsOther ms
    → on_greeting c (choose_method (v ∷ length ms ∷ ms))
      ≡ record (write c (5 ∷ 255 ∷ [])) { phase = requesting }
unfolding on_greeting choose_method
greeted c v ms h = rw (==_refl (length ms), choose_from_other ms h) refl

module _ (node : Node) (decimal : ℕ → Text) where
  -- A client that offers neither of the two methods is told that none is acceptable, and its next
  -- chunk is taken as a request all the same, whatever credentials the server has.
  pub run_unacceptable :
      (s : Server) (id : ℕ) (c : Client) (v : ℕ) (ms request : Bytes)
      → get_elem? s.clients id ≡ some c
      → c.phase ≡ greeting
      → c.destroyed ≡ false
      → All IsOther ms
      → let told : Client = record (write c (5 ∷ 255 ∷ [])) { phase = requesting } in
        run node decimal s (client_sends id (v ∷ length ms ∷ ms) ∷ client_sends id request ∷ [])
        ≡ on_request node (put s id told) id told request
  unfolding run step client_chunk handshake_data
  run_unacceptable s id c v ms request h p d o =
      let told : Client = record (write c (5 ∷ 255 ∷ [])) { phase = requesting } in
      let b = v ∷ length ms ∷ ms in
      let first : step node decimal s (client_sends id b) ≡ put s id told = rw h (
        if_off _ _ c.destroyed d
        ∙ ap (λ q. client_chunk node decimal s id c q b) p
        ∙ ap (put s id) (greeted c v ms o)) in
      rw first (rw (get_elem?-set s.clients id c told h) (if_off _ _ c.destroyed d))
