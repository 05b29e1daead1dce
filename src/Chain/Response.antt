-- ===== src/Chain/Response.antt =====
-- The answer of a SOCKS5 proxy to the request: its length, and the chunks in which it comes.
use block_proxy.Common.{
  ℕ, ◌+◌, ◌≤◌, ◌≡◌, refl, sym, ap, ◌∙◌, arith, true, false, ◌&&◌, [], ◌∷◌, ◌++◌, none, some, length,
  drop_within, leb, ◌==◌, ◌⊎◌, inl, inr, Bool-cases, length-append, append_assoc,
}
use block_proxy.Wire.Buffer.{Bytes, Text, Node}
use block_proxy.Chain.Link.{waiting, Link, resolve}
use block_proxy.Chain.Socks.{
  ResponseLength, incomplete, invalid, complete, at_least, domain_length,
  get_socks5_connect_response_length, two, connect_response, on_step, on_stage, on_data,
}

-- Nothing is known yet, or what is known stays when more bytes follow: an invalid type, or a length
-- of two bytes at least that are all there.
abbrev IsSettled : Bytes → ResponseLength → ResponseLength → Type 0
IsSettled b before after =
    (before ≡ incomplete)
    ⊎ ((after ≡ before)
        × ((before ≡ invalid) ⊎ ((n : ℕ) × (before ≡ complete n) × (n ≤ length b) × (2 ≤ n))))

at_least-append : (b x : Bytes) (n : ℕ) → 2 ≤ n → IsSettled b (at_least b n) (at_least (b ++ x) n)
at_least-append b x n h = elim (Bool-cases (leb n (length b))) [
  | inl e ↦
      let more : leb n (length (b ++ x)) ≡ true = ground (arith, length-append b x) in
      inr (rw (e, more) refl, inr (n, rw e refl, ground arith, h))
  | inr e ↦ inl (rw e refl)
]

length-IsSettled :
    (b x : Bytes)
    → IsSettled b
        (get_socks5_connect_response_length b)
        (get_socks5_connect_response_length (b ++ x))
unfolding get_socks5_connect_response_length domain_length
length-IsSettled [] x = inl refl
length-IsSettled (a ∷ []) x = inl refl
length-IsSettled (a ∷ b ∷ []) x = inl refl
length-IsSettled (a ∷ b ∷ c ∷ []) x = inl refl
length-IsSettled (a ∷ b ∷ c ∷ atyp ∷ []) x = elim (Bool-cases (atyp == 1)) [
  | inl e ↦ rw e (at_least-append (a ∷ b ∷ c ∷ atyp ∷ []) x 10 (omega arith))
  | inr e ↦ elim (Bool-cases (atyp == 3)) [
    | inl f ↦ inl (rw (e, f) refl)
    | inr f ↦ elim (Bool-cases (atyp == 4)) [
      | inl g ↦ rw (e, f, g) (at_least-append (a ∷ b ∷ c ∷ atyp ∷ []) x 22 (omega arith))
      | inr g ↦ rw (e, f, g) (inr (refl, inl refl))
    ]
  ]
]
length-IsSettled (a ∷ b ∷ c ∷ atyp ∷ d ∷ rest) x = elim (Bool-cases (atyp == 1)) [
  | inl e ↦ rw e (at_least-append (a ∷ b ∷ c ∷ atyp ∷ d ∷ rest) x 10 (omega arith))
  | inr e ↦ elim (Bool-cases (atyp == 3)) [
    | inl f ↦ rw (e, f) (at_least-append (a ∷ b ∷ c ∷ atyp ∷ d ∷ rest) x (5 + d + 2) (omega arith))
    | inr f ↦ elim (Bool-cases (atyp == 4)) [
      | inl g ↦ rw (e, f, g) (at_least-append (a ∷ b ∷ c ∷ atyp ∷ d ∷ rest) x 22 (omega arith))
      | inr g ↦ rw (e, f, g) (inr (refl, inl refl))
    ]
  ]
]

module _ (node : Node) (host : Text) (port : ℕ) (username password : Text) where
  abbrev answer : Link → Bytes → Link
  answer = on_data node host port username password

  resolved_whole :
      (k : Link) (b x : Bytes) (n : ℕ)
      → n ≤ length b
      → 2 ≤ n
      → answer (connect_response k b (complete n)) x ≡ connect_response k (b ++ x) (complete n)
  unfolding connect_response on_data on_stage
  resolved_whole k [] x n h l = absurd (omega arith)
  resolved_whole k (a ∷ []) x n h l = absurd (omega arith)
  resolved_whole k (a ∷ c ∷ b) x n h l = elim (Bool-cases ((a == 5) && (c == 0))) [
    | inl e ↦ rw (e, connect_response) (ap (resolve k) (sym (drop_within n (a ∷ c ∷ b) x h)))
    | inr e ↦ rw (e, connect_response) refl
  ]

  at_response :
      (k : Link) (c : Bytes)
      → k.stage ≡ waiting 2
      → answer k c
        ≡ connect_response k (k.buffer ++ c) (get_socks5_connect_response_length (k.buffer ++ c))
  unfolding on_data on_stage on_step
  at_response k c h = ap (λ q. on_stage node host port username password k q c) h

  connect_response_buffer :
      (k : Link) (b c : Bytes) (r : ResponseLength)
      → connect_response (record k { buffer = b }) c r ≡ connect_response k c r
  unfolding connect_response
  connect_response_buffer k b c incomplete = refl
  connect_response_buffer k b c invalid = refl
  connect_response_buffer k b c (complete n) = elim (two c) [
    | none ↦ refl
    | some (version, status) ↦ elim ((version == 5) && (status == 0)) [ true ↦ refl | false ↦ refl ]
  ]

  -- While the client waits for the answer to its request, two chunks do what both in one do: the
  -- promise ends alike, and the bytes behind the answer are put back or read later in order.
  pub on_data-append :
      (k : Link) (a x : Bytes) → k.stage ≡ waiting 2 → answer (answer k a) x ≡ answer k (a ++ x)
  unfolding on_data on_stage connect_response
  on_data-append k a x h =
      let b = k.buffer ++ a in
      let first = at_response k a h in
      let whole =
        at_response k (a ++ x) h
        ∙ ap (λ c. connect_response k c (get_socks5_connect_response_length c))
            (sym (append_assoc k.buffer a x)) in
      elim (length-IsSettled b x) [
        | inl e ↦
            ap (λ q. answer q x) (first ∙ ap (connect_response k b) e)
            ∙ at_response (record k { buffer = b }) x h
            ∙ connect_response_buffer k b (b ++ x) (get_socks5_connect_response_length (b ++ x))
            ∙ sym whole
        | inr (same, inl e) ↦
            ap (λ q. answer q x) (first ∙ ap (connect_response k b) e)
            ∙ sym (whole ∙ ap (connect_response k (b ++ x)) (same ∙ e))
        | inr (same, inr (n, e, fits, two_bytes)) ↦
            ap (λ q. answer q x) (first ∙ ap (connect_response k b) e)
            ∙ resolved_whole k b x n fits two_bytes
            ∙ sym (whole ∙ ap (connect_response k (b ++ x)) (same ∙ e))
      ]
