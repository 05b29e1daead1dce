-- ===== src/Filter/Passwords.antt =====
-- Who gets through checkProxyAuth of proxy/proxy.js.
use block_proxy.Common.{
  ℕ, ◌≡◌, ◌≢◌, refl, sym, ap, ◌∙◌, false, ◌||◌, List, [], ◌∷◌, ◌++◌, append_assoc, append-nil,
  Option, none, some, ==_refl, if_off, if_on, text_eq, text_eq_refl, ◌⊎◌, inl, inr, Bool-cases,
}
use block_proxy.Common.Texts.{IsFree, ascii_text, split_at}
use block_proxy.Wire.Buffer.{Text}
use block_proxy.Mitm.Hosts.{auth_pass, header}
use block_proxy.Mitm.Ends.{either}
use block_proxy.Filter.Attacker.{AccessLog}
use block_proxy.Filter.Auth.{
  Headers, parse_headers, AuthConfig, allowed, auth_required, throws, is_none_set, kept_out,
  check_credentials, check_header, good_or, check_host, check_proxy_auth,
}
use block_proxy.Filter.Entitled.{
  Carries, check_header-Carries, IsExcepted, auth_pass-IsExcepted, IsOpen, is_none_set-IsOpen,
  IsTolerated, kept_out-IsTolerated,
}

split_at-append :
    (seen s t : Text) (sep : ℕ)
    → IsFree sep s
    → split_at sep seen (s ++ (sep ∷ t)) ≡ (seen ++ s) ∷ split_at sep [] t
unfolding split_at
split_at-append seen [] t sep h = rw (==_refl sep, append-nil seen) refl
split_at-append seen (c ∷ s) t sep h =
    rw h.0 (rw (split_at-append (seen ++ (c ∷ [])) s t sep h.1, append_assoc seen (c ∷ []) s) refl)

longer : (p rest : Text) (c : ℕ) → text_eq p (p ++ (c ∷ rest)) ≡ false
unfolding text_eq
longer [] rest c = refl
longer (d ∷ p) rest c = rw (==_refl d) (longer p rest c)

-- With a colon in the configured password, the right credentials are refused: the decoded text is
-- cut at every colon, and only the second part is compared.
pub check_credentials-colon :
    (decode : Text → Text) (user first rest : Text)
    → IsFree b':' user
    → IsFree b':' first
    → check_credentials decode
        (record { auth_username = some user; auth_password = some (first ++ (b':' ∷ rest)) })
        (user ++ (b':' ∷ (first ++ (b':' ∷ rest))))
      ≡ false
unfolding check_credentials
check_credentials-colon decode user first rest hu hf =
    rw (split_at-append [] user (first ++ (b':' ∷ rest)) b':' hu, check_credentials)
      (rw (split_at-append [] first rest b':' hf, text_eq_refl user) (longer first rest b':'))

throws≢allowed : throws ≢ allowed
throws≢allowed h = cc

auth_required≢allowed : auth_required ≢ allowed
auth_required≢allowed h = cc

module _ (decode : Text → Text) (config : AuthConfig) where
  -- The request names a host, and it needs no password for it or carries the right one.
  abbrev pub IsCleared : Headers → Option Text → Option Text → Type 0
  IsCleared headers url o =
      (host : Text) × (o ≡ some host)
      × (IsExcepted host url
          ⊎ Carries decode config (header headers (ascii_text "proxy-authorization")))

module _ (decode : Text → Text) (config : AuthConfig) (log : AccessLog) (ip : Text) (now : ℕ) where
  check_host-IsCleared :
      (headers : Headers) (url o : Option Text)
      → ((check_host decode config log ip now headers url o).0 ≡ allowed)
      → IsCleared decode config headers url o
  unfolding check_host
  check_host-IsCleared headers url none h = absurd (throws≢allowed h)
  check_host-IsCleared headers url (some host) h =
      let value = header headers (ascii_text "proxy-authorization") in
      elim (Bool-cases (auth_pass host url || check_header decode config value)) [
        | inl e ↦ elim (either (auth_pass host url) (check_header decode config value) e) [
          | inl p ↦ (host, refl, inl (auth_pass-IsExcepted host url p))
          | inr p ↦ (host, refl, inr (check_header-Carries decode config value p))
        ]
        | inr e ↦
            absurd (auth_required≢allowed (sym (ap (λ b. (good_or decode b log ip now).0) e) ∙ h))
      ]

  -- A request passes the check only from this machine, or with an empty user name configured, or
  -- else if its address is not taken for an attacker (or is 255.255.255.254, or starts with
  -- 192.168.) and its host header or URL is excepted or its Proxy-Authorization header carries the
  -- configured user name and password.
  pub check_proxy_auth-IsEntitled :
      (raw : List Text) (url : Option Text)
      → (check_proxy_auth decode config log ip now raw url).0 ≡ allowed
      → IsOpen config ip
        ⊎ (IsTolerated log ip now
            × IsCleared decode config
                (parse_headers raw)
                url
                (header (parse_headers raw) (ascii_text "host")))
  unfolding check_proxy_auth
  check_proxy_auth-IsEntitled raw url h =
      let open_to = text_eq ip (ascii_text "127.0.0.1") || is_none_set config.auth_username in
      elim (Bool-cases open_to) [
        | inl e ↦ inl (is_none_set-IsOpen config ip e)
        | inr e ↦ elim (Bool-cases (kept_out log ip now)) [
          | inl k ↦
              let refused : check_proxy_auth decode config log ip now raw url
                  ≡ (auth_required, log) =
                if_off _ _ open_to e ∙ if_on _ _ (kept_out log ip now) k in
              absurd (auth_required≢allowed (sym (ap (λ r. r.0) refused) ∙ h))
          | inr k ↦
              let asked : check_proxy_auth decode config log ip now raw url
                  ≡ check_host decode config log ip now (parse_headers raw) url
                      (header (parse_headers raw) (ascii_text "host")) =
                if_off _ _ open_to e ∙ if_off _ _ (kept_out log ip now) k in
              inr (
                kept_out-IsTolerated log ip now k,
                check_host-IsCleared (parse_headers raw) url
                    (header (parse_headers raw) (ascii_text "host"))
                    (sym (ap (λ r. r.0) asked) ∙ h),
              )
        ]
      ]
