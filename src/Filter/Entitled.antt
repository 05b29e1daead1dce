-- ===== src/Filter/Entitled.antt =====
-- What the tests of checkProxyAuth of proxy/proxy.js say of a request: its credentials, its host, its
-- URL and its address.
use block_proxy.Common.{
  ℕ, ◌≡◌, refl, sym, ap, ◌∙◌, true, false, ◌||◌, [], ◌∷◌, ◌++◌, append-nil, Option, none, some,
  text_eq, text_eq→eq, both, take, drop, take-append-drop, subst, ◌⊎◌, inl, inr, Bool-cases,
}
use block_proxy.Common.Texts.{IsFree, ascii_text, has_prefix}
use block_proxy.Common.Contained.{has_prefix-split, split_at-cases}
use block_proxy.Wire.Buffer.{Text}
use block_proxy.Mitm.Hosts.{auth_pass, ends_in_any, trim_host, pass_hosts, streams, is_stream_url}
use block_proxy.Mitm.Ends.{EndsInAny, either, ends_in_any-EndsInAny, trim_host-cases}
use block_proxy.Filter.Attacker.{AccessLog, is_bad_guy}
use block_proxy.Filter.Auth.{
  AuthConfig, is_none_set, same, kept_out, check_credentials, check_header,
}

-- The decoded text starts with the user name and the password of the configuration, with a colon
-- between them, and ends there or goes on with a colon; where no password is configured, it is the
-- user name.
abbrev pub Names : AuthConfig → Text → Type 0
Names config decoded =
    (user : Text) × (config.auth_username ≡ some user)
    × (((config.auth_password ≡ none) × (decoded ≡ user))
        ⊎ ((password rest : Text) × (config.auth_password ≡ some password)
            × (decoded ≡ user ++ (b':' ∷ (password ++ rest)))
            × ((rest ≡ []) ⊎ ((more : Text) × (rest ≡ b':' ∷ more)))))

same-some : (t : Text) (o : Option Text) → same (some t) o ≡ true → o ≡ some t
same-some t none h = cc
same-some t (some u) h = ap some (sym (text_eq→eq t u h))

same-none : (o : Option Text) → same none o ≡ true → o ≡ none
same-none none h = refl
same-none (some u) h = cc

module _ (decode : Text → Text) (config : AuthConfig) where
  check_credentials-Names :
      (decoded : Text) → check_credentials decode config decoded ≡ true → Names config decoded
  unfolding check_credentials
  check_credentials-Names decoded h = elim (split_at-cases b':' [] decoded) [
    | inl s ↦
        let (u, p) = both _ _ (rw s at h) in
        (
          decoded,
          same-some decoded config.auth_username u,
          inl (same-none config.auth_password p, refl),
        )
    | inr (a, b, w, s) ↦
        let (u, p) = both _ _ (rw s at h) in
        (
          a,
          same-some a config.auth_username u,
          inr (elim (split_at-cases b':' [] b) [
            | inl t ↦
                let k = same-some b config.auth_password (rw t at p) in
                (b, [], k, w ∙ ap (λ q. a ++ (b':' ∷ q)) (sym (append-nil b)), inl refl)
            | inr (c, d, v, t) ↦
                let k = same-some c config.auth_password (rw t at p) in
                (c, b':' ∷ d, k, w ∙ ap (λ q. a ++ (b':' ∷ q)) v, inr (d, refl))
          ]),
        )
  ]

  -- The header that a request carries says Basic, and its credentials decode to those of the
  -- configuration.
  abbrev pub Carries : Option Text → Type 0
  Carries value =
      (credentials : Text) × (value ≡ some (ascii_text "Basic " ++ credentials))
      × Names config (decode credentials)

  pub check_header-Carries :
      (value : Option Text) → check_header decode config value ≡ true → Carries value
  unfolding check_header has_prefix
  check_header-Carries none h = cc
  check_header-Carries (some value) h =
      let (basic, right) = both (has_prefix value (ascii_text "Basic ")) _ h in
      let front = text_eq→eq (take 6 value) (ascii_text "Basic ") basic in
      (
        drop 6 value,
        ap some (sym (take-append-drop 6 value) ∙ ap (λ t. t ++ drop 6 value) front),
        check_credentials-Names (decode (drop 6 value)) right,
      )

-- A host or a URL that needs no password: the host, or what stands in front of its first colon, ends
-- in one of the excepted hosts, or the URL ends in the name of a kind of stream.
abbrev pub IsExcepted : Text → Option Text → Type 0
IsExcepted host url =
    EndsInAny pass_hosts host
    ⊎ (((name rest : Text) × IsFree b':' name
          × (host ≡ name ++ (b':' ∷ rest))
          × EndsInAny pass_hosts name)
        ⊎ ((u : Text) × (url ≡ some u) × EndsInAny streams u))

pub auth_pass-IsExcepted :
    (host : Text) (url : Option Text) → auth_pass host url ≡ true → IsExcepted host url
unfolding auth_pass
auth_pass-IsExcepted host url h = elim (either (ends_in_any host pass_hosts) _ h) [
  | inl e ↦ inl (ends_in_any-EndsInAny host pass_hosts e)
  | inr later ↦ elim (either (ends_in_any (trim_host host) pass_hosts) (is_stream_url url) later) [
    | inl e ↦ trimmed (trim_host-cases host) (ends_in_any-EndsInAny (trim_host host) pass_hosts e)
    | inr e ↦ inr (inr (streamed url e))
  ]
]
  where
    trimmed :
        (trim_host host ≡ host)
          ⊎ ((name rest : Text) × IsFree b':' name
              × (host ≡ name ++ (b':' ∷ rest))
              × (trim_host host ≡ name))
        → EndsInAny pass_hosts (trim_host host)
        → IsExcepted host url
    trimmed (inl e) i = inl (subst (EndsInAny pass_hosts) e i)
    trimmed (inr (name, rest, free, s, e)) i =
        inr (inl (name, rest, free, s, subst (EndsInAny pass_hosts) e i))

    streamed :
        (o : Option Text) → is_stream_url o ≡ true → (u : Text) × (o ≡ some u) × EndsInAny streams u
    streamed none e = cc
    streamed (some u) e = (u, refl, ends_in_any-EndsInAny u streams e)

-- A request needs no password when it comes from this machine or when the configured user name is
-- empty.
abbrev pub IsOpen : AuthConfig → Text → Type 0
IsOpen config ip = (ip ≡ ascii_text "127.0.0.1") ⊎ (config.auth_username ≡ some [])

pub is_none_set-IsOpen :
    (config : AuthConfig) (ip : Text)
    → (text_eq ip (ascii_text "127.0.0.1") || is_none_set config.auth_username) ≡ true
    → IsOpen config ip
is_none_set-IsOpen config ip h = elim (either (text_eq ip (ascii_text "127.0.0.1")) _ h) [
  | inl e ↦ inl (text_eq→eq ip (ascii_text "127.0.0.1") e)
  | inr e ↦ inr (empty config.auth_username e)
]
  where
    empty : (o : Option Text) → is_none_set o ≡ true → o ≡ some []
    empty none e = cc
    empty (some []) e = refl
    empty (some (c ∷ t)) e = cc

-- An address that is no attacker's, or one of those that are never kept out.
abbrev pub IsTolerated : AccessLog → Text → ℕ → Type 0
IsTolerated log ip now =
    (is_bad_guy log ip now ≡ false)
    ⊎ ((ip ≡ ascii_text "255.255.255.254") ⊎ ((rest : Text) × (ip ≡ ascii_text "192.168." ++ rest)))

pub kept_out-IsTolerated :
    (log : AccessLog) (ip : Text) (now : ℕ) → kept_out log ip now ≡ false → IsTolerated log ip now
unfolding kept_out
kept_out-IsTolerated log ip now h = elim (Bool-cases (text_eq ip (ascii_text "255.255.255.254"))) [
  | inl e ↦ inr (inl (text_eq→eq ip (ascii_text "255.255.255.254") e))
  | inr e ↦ elim (Bool-cases (has_prefix ip (ascii_text "192.168."))) [
    | inl f ↦ inr (inr (has_prefix-split ip (ascii_text "192.168.") f))
    | inr f ↦ inl (rw (e, f) at h)
  ]
]
