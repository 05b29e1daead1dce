-- ===== src/Certs/Names.antt =====
-- normalizeHostname of proxy/proxy-core/cert-lifecycle.js.
use block_proxy.Common.{
  ℕ, ◌+◌, Bool, false, ◌&&◌, ◌||◌, [], ◌∷◌, Option, none, some, take, drop, ltb, ◌==◌,
  if◌then◌else◌,
}
use block_proxy.Common.Texts.{index_of_char, last_index_of_char, to_lower}
use block_proxy.Wire.Buffer.{Text}
use block_proxy.Xhttp.Routes.{trim}
use block_proxy.Mitm.Hosts.{are_digits}

-- `.replace(/\.$/, '')`
unfoldable pub drop_dot : Text → Text
drop_dot [] = []
drop_dot (c ∷ []) = if c == b'.' then [] else c ∷ []
drop_dot (c ∷ d ∷ t) = c ∷ drop_dot (d ∷ t)

-- `/[\/\\\0]/`
unfoldable pub has_separator : Text → Bool
has_separator [] = false
has_separator (c ∷ t) = (c == b'/') || ((c == 92) || ((c == 0) || has_separator t))

-- A port behind the last colon, if the colon is not the first character.
unfoldable pub strip_port : Text → Option ℕ → Text
strip_port host none = host
strip_port host (some colon) =
    if ltb 0 colon && are_digits (drop (colon + 1) host) then take colon host else host

-- What stands between the brackets.
abbrev pub inside_brackets : Text → Option ℕ → Option Text
inside_brackets t none = none
inside_brackets t (some close) = some (take close t)

unfoldable pub bare_host : Text → Option Text
bare_host [] = some []
bare_host (c ∷ t) =
    if c == b'['
    then inside_brackets t (index_of_char t b']')
    else some (strip_port (c ∷ t) (last_index_of_char (c ∷ t) b':'))

abbrev pub or_host : Text → Text → Text
or_host [] host = host
or_host (c ∷ t) host = c ∷ t

-- `none` where the code throws; `domain_to_ascii` is that of Node's url module.
module _ (domain_to_ascii : Text → Text) where
  unfoldable pub checked_host : Text → Option Text
  checked_host [] = none
  checked_host (c ∷ t) =
      if has_separator (c ∷ t) then none else some (or_host (domain_to_ascii (c ∷ t)) (c ∷ t))

  unfoldable pub normalize_hostname : Text → Option Text
  normalize_hostname hostname = elim (bare_host (trim hostname)) [
    | none ↦ none
    | some host ↦ checked_host (drop_dot (to_lower host))
  ]
