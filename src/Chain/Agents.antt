-- ===== src/Chain/Agents.antt =====
-- The agents for requests through the chain proxy, and the start of a tunnel, in proxy/proxy.js.
use block_proxy.Common.{
  ℕ, Bool, true, false, ◌&&◌, not, List, [], ◌∷◌, ◌++◌, Option, none, some, ◌==◌, if◌then◌else◌,
  text_eq,
}
use block_proxy.Common.Texts.{ascii_text}
use block_proxy.Wire.Buffer.{Bytes, Text, Node}
use block_proxy.Chain.Config.{ChainProxy, parse_chain_proxy_address}
use block_proxy.Chain.Link.{Link}
use block_proxy.Chain.Socks.{socks5_connect}
use block_proxy.Chain.Http.{http_connect}

-- What the key of the cache is made of: two agents with the same parts are one.
pub record AgentKey : Type 0 where
  pub is_https : Bool
  pub is_socks5 : Bool
  pub proxy : ChainProxy

abbrev pub same_flag : Bool → Bool → Bool
same_flag true b = b
same_flag false b = not b

abbrev pub same_proxy : ChainProxy → ChainProxy → Bool
same_proxy a b =
    text_eq a.username b.username
    && (text_eq a.password b.password && (text_eq a.host b.host && (a.port == b.port)))

abbrev pub same_key : AgentKey → AgentKey → Bool
same_key a b =
    same_flag a.is_https b.is_https
    && (same_flag a.is_socks5 b.is_socks5 && same_proxy a.proxy b.proxy)

pub data AgentKind : Type 0 where
  socks_agent https_agent http_agent : AgentKind

pub record Agent : Type 0 where
  pub kind : AgentKind
  pub url : Text

abbrev pub AgentCache : Type 0
AgentCache = List (AgentKey × Agent)

unfoldable pub cached : AgentCache → AgentKey → Option Agent
cached [] key = none
cached ((k, a) ∷ cache) key = let rest = cached cache key in if same_key k key then some a else rest

-- `encode` is encodeURIComponent, `decimal` prints the port.
module _ (encode : Text → Text) (decimal : ℕ → Text) where
  unfoldable pub auth_of : Text → Text → Text
  auth_of [] password = []
  auth_of (c ∷ username) password =
      encode (c ∷ username) ++ (b':' ∷ (encode password ++ (b'@' ∷ [])))

  abbrev pub address_of : ChainProxy → Text
  address_of p = auth_of p.username p.password ++ (p.host ++ (b':' ∷ decimal p.port))

  unfoldable pub new_agent : AgentKey → Agent
  new_agent key =
      if key.is_socks5
      then record { kind = socks_agent; url = ascii_text "socks5://" ++ address_of key.proxy }
      else record {
        kind = if key.is_https then https_agent else http_agent;
        url = ascii_text "http://" ++ address_of key.proxy;
      }

  abbrev pub or_new_agent : AgentCache → AgentKey → Option Agent → Agent × AgentCache
  or_new_agent cache key none = (new_agent key, cache ++ ((key, new_agent key) ∷ []))
  or_new_agent cache key (some a) = (a, cache)

  unfoldable pub get_chain_proxy_agent : AgentCache → AgentKey → Agent × AgentCache
  get_chain_proxy_agent cache key = or_new_agent cache key (cached cache key)

  -- The agent of a request; `none` for the proxy's own one.
  abbrev pub agent_for : AgentCache → Bool → Text → Option ChainProxy → Option Agent × AgentCache
  agent_for cache is_https type none = (none, cache)
  agent_for cache is_https type (some p) =
      let (a, left) : Agent × AgentCache = get_chain_proxy_agent cache (record {
        is_https = is_https;
        is_socks5 = text_eq type (ascii_text "socks5");
        proxy = p;
      }) in
      (some a, left)

  unfoldable pub pass_request_with_http_agent :
      AgentCache → Bool → Text → Text → Bool → Option Agent × AgentCache
  pass_request_with_http_agent cache enabled address type is_https =
      if enabled
      then agent_for cache is_https type (parse_chain_proxy_address address)
      else (none, cache)

-- connectViaChainProxy, once the socket to the chain proxy is connected.
unfoldable pub connect_via_chain_proxy :
    Node → (Bytes → Text) → (ℕ → Text) → Text → ChainProxy → Text → ℕ → Link
connect_via_chain_proxy node base64 decimal type p host port =
    if text_eq type (ascii_text "socks5")
    then socks5_connect node host port p.username p.password
    else http_connect node base64 decimal host port p.username p.password
