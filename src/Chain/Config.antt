-- ===== src/Chain/Config.antt =====
-- parseChainProxyAddress of proxy/proxy.js.
use block_proxy.Common.{
  ℕ, ◌+◌, ◌||◌, [], ◌∷◌, Option, none, some, take, drop, ltb, ◌==◌, if◌then◌else◌,
}
use block_proxy.Common.Texts.{index_of_char, last_index_of_char}
use block_proxy.Wire.Buffer.{Text}
use block_proxy.Xhttp.Routes.{parse_seq}

pub record ChainProxy : Type 0 where
  pub username : Text
  pub password : Text
  pub host : Text
  pub port : ℕ

-- The part in front of the last `@`: up to its first colon the user name, behind it the password.
unfoldable pub split_auth : Text → Text × Text
split_auth auth = elim (index_of_char auth b':') [
  | none ↦ (auth, [])
  | some i ↦ (take i auth, drop (i + 1) auth)
]

-- What is returned where `parseInt` gave a number; `parse_seq` leaves out negative ones.
unfoldable pub with_host : Text → Text → Text → Option ℕ → Option ChainProxy
with_host username password host none = none
with_host username password [] (some port) = none
with_host username password (c ∷ host) (some port) =
    if (port == 0) || ltb 65535 port
    then none
    else some (record { username = username; password = password; host = c ∷ host; port = port })

unfoldable pub host_part : Text → Text → Text → Option ChainProxy
host_part username password part = elim (last_index_of_char part b':') [
  | none ↦ none
  | some i ↦ with_host username password (take i part) (parse_seq (drop (i + 1) part))
]

-- For an address that is a text; the empty one is refused as it has no colon.
unfoldable pub parse_chain_proxy_address : Text → Option ChainProxy
parse_chain_proxy_address address = elim (last_index_of_char address b'@') [
  | none ↦ host_part [] [] address
  | some at ↦
      let (username, password) = split_auth (take at address) in
      host_part username password (drop (at + 1) address)
]
