-- ===== src/Mitm/Handler.antt =====
-- The rules at work, in proxy/proxy.js: which hosts are taken apart, and which rule handles a URL.
use block_proxy.Common.{
  ℕ, Bool, true, false, ◌&&◌, List, [], ◌∷◌, ◌++◌, ◌==◌, Option, none, some, map, if◌then◌else◌,
  text_eq,
}
use block_proxy.Common.Texts.{ascii_text, to_lower, includes}
use block_proxy.Wire.Buffer.{Text}
use block_proxy.Mitm.Registry.{Rule}
use block_proxy.Mitm.Hosts.{trim_host, ends_in, ends_in_any}

-- `[...new Set(list)]`: each text once, where it first stands.
unfoldable pub member : Text → List Text → Bool
member t [] = false
member t (u ∷ us) = if text_eq u t then true else member t us

unfoldable pub distinct_from : List Text → List Text → List Text
distinct_from seen [] = seen
distinct_from seen (t ∷ ts) = distinct_from (if member t seen then seen else seen ++ (t ∷ [])) ts

abbrev pub distinct : List Text → List Text
distinct ts = distinct_from [] ts

abbrev pub hosts_of : List Rule → List Text
hosts_of rules = map (λ r. r.host) rules

unfoldable pub should_mitm : List Rule → Text → Bool
should_mitm rules host = ends_in_any (trim_host host) (distinct (hosts_of rules))

-- `hostname` is that of `new URL`, `test` the match of a regular expression.
module _ (hostname : Text → Text) (test : Text → Text → Bool) where
  unfoldable pub matches : Text → Text → Rule → Bool
  matches type url r =
      text_eq (to_lower r.rule_type) (to_lower type)
      && (ends_in (hostname url) r.host && test r.regexp url)

  -- The rule whose callback MITMHandler calls: the first that matches.
  unfoldable pub choose_rule : Text → Text → List Rule → Option Rule
  choose_rule type url [] = none
  choose_rule type url (r ∷ rules) =
      let rest = choose_rule type url rules in if matches type url r then some r else rest

-- getResponseRules: the rules for responses, with the case of their type as it is written.
unfoldable pub get_response_rules : List Rule → List Rule
get_response_rules [] = []
get_response_rules (r ∷ rules) =
    let rest = get_response_rules rules in
    if text_eq r.rule_type (ascii_text "beforeSendResponse") then r ∷ rest else rest

-- parseResponseFromZippedChunk: how the body is unpacked before the callback of a response rule;
-- an encoding that is missing matches none of the three.
pub data Unpacking : Type 0 where
  gunzip inflate brotli_decompress as_it_is : Unpacking

unfoldable pub unpacking : Option Text → ℕ → Unpacking
unpacking none size = as_it_is
unpacking (some encoding) size =
    let e = to_lower encoding in
    if size == 0
    then as_it_is
    else if includes e (ascii_text "gzip")
    then gunzip
    else if includes e (ascii_text "deflate")
    then inflate
    else if includes e (ascii_text "br")
    then brotli_decompress
    else as_it_is
