-- ===== src/Filter/Decide.antt =====
-- The decisions of proxy/proxy.js: beforeDealHttpsRequest and beforeSendRequest.
use block_proxy.Common.{
  ℕ, ◌+◌, ◌-◌, Bool, true, false, ◌&&◌, ◌||◌, not, List, [], ◌∷◌, Option, none, some, take, drop,
  if◌then◌else◌, text_eq,
}
use block_proxy.Common.Texts.{ascii_text, index_of_char, last_index_of_char, has_prefix, includes}
use block_proxy.Wire.Buffer.{Text}
use block_proxy.Mitm.Registry.{Rule, is_empty}
use block_proxy.Mitm.Hosts.{are_digits, filtered_mitm_domains, ends_with_any, match_ua}
use block_proxy.Mitm.Handler.{should_mitm, choose_rule}
use block_proxy.Filter.Blocks.{BlockItem, Clock, should_block_host}
use block_proxy.Filter.Auth.{Outcome, allowed, auth_required, throws, Headers}

-- The host of a CONNECT: without brackets, or without a port.
abbrev pub or_whole : Text → Option ℕ → ℕ → Text
or_whole host none from = host
or_whole host (some i) from = take (i - from) (drop from host)

unfoldable pub without_port : Text → Option ℕ → Text
without_port host none = host
without_port host (some i) = if are_digits (drop (i + 1) host) then take i host else host

unfoldable pub connect_host : Text → Text
connect_host host =
    if has_prefix host (ascii_text "[")
    then or_whole host (index_of_char host b']') 1
    else without_port host (last_index_of_char host b':')

-- What is known when a request comes in: the configuration, the rules, and the clock.
pub record Settings : Type 0 where
  pub vpn_proxy : Text
  pub enable_mitm : Bool
  pub rules : List Rule
  pub youtube : Bool
  pub own_hosts : List Text
  pub own_addresses : Text
  pub proxy_port : Text
  pub now : Clock

-- A CONNECT is refused, taken apart or passed on as it is; `fails` where the check of the password
-- threw.
pub data HttpsDecision : Type 0 where
  refused decrypt pass_through fails : HttpsDecision

abbrev pub has_items : List BlockItem → Bool
has_items [] = false
has_items (item ∷ items) = true

-- `is_ip` is net.isIPv4 or net.isIPv6, `is_tunnel_domain` the tunnel manager's test.
module _ (is_regexp : Text → Bool) (test : Text → Text → Bool) (is_ip : Text → Bool)
    (is_tunnel_domain : Text → Bool) where
  unfoldable pub deal_https_host : Settings → List BlockItem → Text → HttpsDecision
  deal_https_host s items host =
      if is_tunnel_domain host
      then pass_through
      else if s.enable_mitm && should_mitm s.rules host
      then decrypt
      else if is_ip host || not s.enable_mitm
      then pass_through
      else if has_items items && should_block_host is_regexp test host items [] s.now
      then decrypt
      else pass_through

  unfoldable pub before_deal_https_request :
      Settings → Outcome → List BlockItem → Text → HttpsDecision
  before_deal_https_request s auth items host =
      if not (is_empty s.vpn_proxy) then decrypt else elim auth [
        | throws ↦ fails
        | auth_required ↦ refused
        | allowed ↦ deal_https_host s items (connect_host host)
      ]

-- What becomes of a request: a page of the proxy's own, the network, a 407, the answer of a rule, the
-- second proxy, the empty or the plain page of a blocked host, or an exception.
pub data Decision : Type 0 where
  own_page forwarded asks_auth rewritten via_vpn blocked_empty blocked_page thrown : Decision

-- The parts of the request that count.
pub record Request : Type 0 where
  pub url : Text
  pub hostname : Text
  pub port : Text
  pub headers : Headers

module _ (is_regexp : Text → Bool) (test : Text → Text → Bool) (is_ip : Text → Bool)
    (hostname_of : Text → Text) (answers : Rule → Text → Bool) where
  -- A request for the proxy's own port at one of its names, or for this machine.
  unfoldable pub is_own : Settings → Request → Bool
  is_own s r =
      (text_eq r.port s.proxy_port
        && (includes s.own_addresses r.hostname || some_equal r.hostname s.own_hosts))
      || (text_eq r.hostname (ascii_text "localhost")
          || text_eq r.hostname (ascii_text "127.0.0.1"))
    where
      some_equal : Text → List Text → Bool
      some_equal h [] = false
      some_equal h (t ∷ ts) = text_eq h t || some_equal h ts

  -- `answers` tells whether a rule's callback gives an answer for a URL.
  unfoldable pub rewrites : Settings → Text → Option Rule → Bool
  rewrites s url none = false
  rewrites s url (some rule) = answers rule url

  abbrev pub rewrites_request : Settings → Text → Bool
  rewrites_request s url =
      rewrites s url (choose_rule hostname_of test (ascii_text "beforeSendRequest") url s.rules)

  abbrev pub is_http : Text → Bool
  is_http url = not (has_prefix url (ascii_text "https:"))

  unfoldable pub without_rules : Settings → Request → Decision
  without_rules s r =
      if rewrites_request s r.url
      then rewritten
      else if not (is_empty s.vpn_proxy)
      then via_vpn
      else forwarded

  unfoldable pub with_rules : Settings → Request → List BlockItem → Decision
  with_rules s r items =
      if should_block_host is_regexp test r.hostname items r.url s.now
      then if ends_with_any r.hostname filtered_mitm_domains then blocked_empty else blocked_page
      else if rewrites_request s r.url
      then rewritten
      else forwarded

  unfoldable pub filtered : Settings → Request → List BlockItem → Decision
  filtered s r items = if has_items items then with_rules s r items else without_rules s r

  unfoldable pub before_send_request : Settings → Request → Outcome → List BlockItem → Decision
  before_send_request s r auth items =
      if is_own s r
      then own_page
      else if is_ip r.hostname
      then forwarded
      else if s.youtube && match_ua r.headers r.hostname
      then forwarded
      else if is_http r.url
      then elim auth [ throws ↦ thrown | auth_required ↦ asks_auth | allowed ↦ filtered s r items ]
      else filtered s r items
