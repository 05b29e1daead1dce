-- ===== src/Filter/Auth.antt =====
-- checkProxyAuth of proxy/proxy.js: the password of the HTTP proxy.
use block_proxy.Common.{
  ℕ, Bool, true, false, ◌&&◌, ◌||◌, not, List, [], ◌∷◌, Option, none, some, get_elem?, drop,
  if◌then◌else◌, text_eq,
}
use block_proxy.Common.Texts.{ascii_text, has_prefix, to_lower, split_at}
use block_proxy.Wire.Buffer.{Text}
use block_proxy.Mitm.Hosts.{auth_pass, header}
use block_proxy.Filter.Attacker.{AccessLog, is_bad_guy, set_good_guy}

-- parseHeaders, of names and values in turn: a name that comes again takes the later value.
abbrev pub Headers : Type 0
Headers = List (Text × Text)

unfoldable pub set_header : Headers → Text → Text → Headers
set_header [] name value = (name, value) ∷ []
set_header ((n, v) ∷ headers) name value =
    let rest = set_header headers name value in
    if text_eq n name then (n, value) ∷ headers else (n, v) ∷ rest

unfoldable pub parse_from : Headers → List Text → Headers
parse_from headers (name ∷ value ∷ raw) = parse_from (set_header headers (to_lower name) value) raw
parse_from headers _ = headers

abbrev pub parse_headers : List Text → Headers
parse_headers raw = parse_from [] raw

-- The user name and the password of the configuration; `none` for undefined.
pub record AuthConfig : Type 0 where
  pub auth_username : Option Text
  pub auth_password : Option Text

pub data Outcome : Type 0 where
  allowed auth_required throws : Outcome

-- `===` on texts that may be undefined.
abbrev pub same : Option Text → Option Text → Bool
same none none = true
same (some a) (some b) = text_eq a b
same _ _ = false

abbrev pub is_none_set : Option Text → Bool
is_none_set (some []) = true
is_none_set _ = false

-- An address that is kept out whatever it sends.
unfoldable pub kept_out : AccessLog → Text → ℕ → Bool
kept_out log ip now =
    not (text_eq ip (ascii_text "255.255.255.254"))
    && (not (has_prefix ip (ascii_text "192.168.")) && is_bad_guy log ip now)

-- `decode` is that of base64 and UTF-8.
module _ (decode : Text → Text) where
  -- `const [user, pass] = decoded.split(':')`
  unfoldable pub check_credentials : AuthConfig → Text → Bool
  check_credentials config decoded =
      let parts = split_at b':' [] decoded in
      same (get_elem? parts 0) config.auth_username && same (get_elem? parts 1) config.auth_password

  unfoldable pub check_header : AuthConfig → Option Text → Bool
  check_header config none = false
  check_header config (some value) =
      has_prefix value (ascii_text "Basic ") && check_credentials config (decode (drop 6 value))

  abbrev pub good_or : Bool → AccessLog → Text → ℕ → Outcome × AccessLog
  good_or true log ip now = (allowed, set_good_guy log ip now)
  good_or false log ip now = (auth_required, log)

  -- Without a host header authPass throws.
  unfoldable pub check_host :
      AuthConfig → AccessLog → Text → ℕ → Headers → Option Text → Option Text → Outcome × AccessLog
  check_host config log ip now headers url none = (throws, log)
  check_host config log ip now headers url (some host) =
      good_or
        (auth_pass host url
          || check_header config (header headers (ascii_text "proxy-authorization")))
        log ip now

  unfoldable pub check_proxy_auth :
      AuthConfig → AccessLog → Text → ℕ → List Text → Option Text → Outcome × AccessLog
  check_proxy_auth config log ip now raw url =
      let headers = parse_headers raw in
      if text_eq ip (ascii_text "127.0.0.1") || is_none_set config.auth_username
      then (allowed, log)
      else if kept_out log ip now
      then (auth_required, log)
      else check_host config log ip now headers url (header headers (ascii_text "host"))
