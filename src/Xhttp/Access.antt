-- ===== src/Xhttp/Access.antt =====
-- What a request without the right credentials or token can do to the tunnel's sessions: nothing.
use block_proxy.Common.{
  both, ℕ, ◌≡◌, ◌≢◌, refl, true, false, ◌&&◌, List, [], ◌∷◌, Option, none, some, ok, text_eq,
  text_eq→eq, ◌++◌, ap, ◌⊎◌, inl, inr, Bool-cases, if_rule, Result-cases, Option-cases,
}
use block_proxy.Wire.Buffer.{Bytes, Text, Node}
use block_proxy.Wire.Frame.{
  Frame, connect, chunk, close, connect_ok, connect_failed, ping, pong, padding, auth_ok, auth_fail,
  auth, capabilities, error, unknown,
}
use block_proxy.Wire.Frame.Decode.{decode_frame}
use block_proxy.Manager.State.{find}
use block_proxy.Xhttp.Routes.{trim}
use block_proxy.Xhttp.State.{Session, Handler}
use block_proxy.Xhttp.Sessions.{close_session}
use block_proxy.Xhttp.Requests.{
  Answer, close_requested, handle_create, create_decoded, create_with, create_for, client_of,
  handle_close, handle_stream, stream_checked, stream_for, owns, verify_token, compute_token,
}

-- An AUTH frame with the credentials and a client id that is not blank.
abbrev pub IsAuthorized : Handler → Frame → Type 0
IsAuthorized h (auth username password caps client_id) =
    (username ≡ h.username)
    × (password ≡ h.password)
    × ((t : Text) × (client_id ≡ some t) × (trim t ≢ []))
IsAuthorized h _ = ⊥

module _ (hash : Text → Text) where
  create_for-client :
      (h : Handler) (id : ℕ) (client : Text) (caps : List Text)
      → ((create_for hash h id client caps).0 ≡ h) ⊎ (client ≢ [])
  unfolding create_for
  create_for-client h id [] caps = inl refl
  create_for-client h id (c ∷ client) caps = inr (λ e. cc)

  create_client :
      (h : Handler) (id : ℕ) (client_id : Option Text) (caps : List Text)
      → ((create_for hash h id (client_of hash client_id) caps).0 ≡ h)
        ⊎ ((t : Text) × (client_id ≡ some t) × (trim t ≢ []))
  unfolding create_for
  create_client h id none caps = inl refl
  create_client h id (some t) caps = elim (create_for-client h id (trim t) caps) [
    | inl e ↦ inl e
    | inr e ↦ inr (t, refl, e)
  ]

  create_with-access :
      (h : Handler) (id : ℕ) (f : Frame) → ((create_with hash h id f).0 ≡ h) ⊎ IsAuthorized h f
  unfolding create_with
  create_with-access h id (auth username password caps client_id) =
      if_rule
        (λ (r : Handler × Answer).
          (r.0 ≡ h) ⊎ IsAuthorized h (auth username password caps client_id))
        (text_eq username h.username && text_eq password h.password)
        (λ e. elim (create_client h id client_id caps) [
          | inl f ↦ inl f
          | inr c ↦
              let (u, p) = both (text_eq username h.username) (text_eq password h.password) e in
              inr (text_eq→eq username h.username u, text_eq→eq password h.password p, c)
        ])
        (λ _. inl refl)
  create_with-access h id (connect reqid atyp addr port) = inl refl
  create_with-access h id (chunk reqid d) = inl refl
  create_with-access h id (close reqid) = inl refl
  create_with-access h id (connect_ok reqid) = inl refl
  create_with-access h id (connect_failed reqid) = inl refl
  create_with-access h id (ping p) = inl refl
  create_with-access h id (pong p) = inl refl
  create_with-access h id (padding p) = inl refl
  create_with-access h id auth_ok = inl refl
  create_with-access h id auth_fail = inl refl
  create_with-access h id (capabilities caps) = inl refl
  create_with-access h id (error message) = inl refl
  create_with-access h id (unknown t p) = inl refl

  -- A create request changes the sessions only if its body could be read and decodes to an AUTH
  -- frame with the handler's user name and password and a client id that is not blank.
  pub handle_create-access :
      (node : Node) (h : Handler) (id : ℕ) (body : Option Bytes)
      → ((handle_create hash node h id body).0 ≡ h)
        ⊎ ((b : Bytes) × (f : Frame) × (n : ℕ) × (body ≡ some b)
            × (decode_frame node b ≡ ok (f, n))
            × IsAuthorized h f)
  unfolding handle_create create_decoded
  handle_create-access node h id none = inl refl
  handle_create-access node h id (some b) = elim (Result-cases (decode_frame node b)) [
    | inr (e, s) ↦ inl (rw s refl)
    | inl ((f, n), s) ↦ elim (create_with-access h id f) [
      | inl u ↦ inl (rw s u)
      | inr a ↦ inr (b, f, n, refl, s, a)
    ]
  ]

  -- The user name and the password of the configuration, hashed as one text.
  abbrev pub IsToken : Handler → Text → Type 0
  IsToken h token = token ≡ hash (h.username ++ (b':' ∷ h.password))

  verify_token-IsToken :
      (h : Handler) (token : Text) → verify_token hash h token ≡ true → IsToken h token
  unfolding verify_token compute_token
  verify_token-IsToken h [] e = cc
  verify_token-IsToken h (c ∷ t) e = text_eq→eq (c ∷ t) (hash (h.username ++ (b':' ∷ h.password))) e

  -- A close request changes nothing, or it carries the hash of the user name and the password, that
  -- is the token of the session it names, and closes that session.
  pub handle_close-access :
      (h : Handler) (token : Text) (id : ℕ)
      → ((handle_close hash h token id).0 ≡ h)
        ⊎ (IsToken h token
            × ((s : Session) × (find h.sessions id ≡ some s)
                × (s.token ≡ token)
                × ((handle_close hash h token id).0 ≡ close_session h id)))
  unfolding handle_close close_requested
  handle_close-access h token id = elim (Bool-cases (verify_token hash h token)) [
    | inr e ↦ inl (rw e refl)
    | inl e ↦ elim (Option-cases (find h.sessions id)) [
      | inl n ↦ inl (rw (e, n) refl)
      | inr (s, f) ↦ elim (Bool-cases (text_eq s.token token)) [
        | inr o ↦ inl (rw (e, f, o) refl)
        | inl o ↦
            inr (
              verify_token-IsToken h token e,
              (s, f, text_eq→eq s.token token o, rw (e, f, o) refl),
            )
      ]
    ]
  ]

  owns-cases :
      (s : Session) (client_id : Option Text)
      → owns hash s client_id ≡ true
      → (s.client_id ≡ []) ⊎ (client_id ≡ some s.client_id)
  owns-cases s client_id o = of_text s.client_id client_id o
    where
      of_text :
          (own : Text) (given : Option Text)
          → (elim own [
            | [] ↦ true
            | c ∷ t ↦ elim given [ none ↦ false | some g ↦ text_eq g (c ∷ t) ]
          ])
            ≡ true
          → (own ≡ []) ⊎ (given ≡ some own)
      of_text [] given e = inl refl
      of_text (c ∷ t) none e = cc
      of_text (c ∷ t) (some g) e = inr (ap some (text_eq→eq g (c ∷ t) e))

  -- A stream request opens a stream or changes anything else only with the hash of the user name
  -- and the password, for a session of the map, and with the client id that session has, if it has
  -- one.
  pub handle_stream-access :
      (h : Handler) (token : Text) (id : Option ℕ) (client_id : Option Text) (r : ℕ)
      → ((handle_stream hash h token id client_id r).0 ≡ h)
        ⊎ (IsToken h token
            × ((s : Session) × (k : ℕ) × (id ≡ some k)
                × (find h.sessions k ≡ some s)
                × ((s.client_id ≡ []) ⊎ (client_id ≡ some s.client_id))))
  unfolding handle_stream stream_checked stream_for
  handle_stream-access h [] id client_id r = inl refl
  handle_stream-access h (c ∷ t) none client_id r = inl refl
  handle_stream-access h (c ∷ t) (some k) client_id r =
      elim (Bool-cases (verify_token hash h (c ∷ t))) [
        | inr e ↦ inl (rw (e, stream_checked) refl)
        | inl e ↦ elim (Option-cases (find h.sessions k)) [
          | inl n ↦ inl (rw (e, n) refl)
          | inr (s, f) ↦ elim (Bool-cases (owns hash s client_id)) [
            | inr o ↦ inl (rw (e, f, o) refl)
            | inl o ↦
                inr (verify_token-IsToken h (c ∷ t) e, (s, k, refl, f, owns-cases s client_id o))
          ]
        ]
      ]
