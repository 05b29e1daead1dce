-- ===== src/Mitm/Tests.antt =====
-- The rules of the MITM proxy at concrete inputs.
use block_proxy.Common.{◌≡◌, refl, true, false, [], ◌∷◌, List, none, some, text_eq}
use block_proxy.Common.Texts.{ascii_text, to_lower, has_suffix, last_index_of_char, index_of_char}
use block_proxy.Wire.Buffer.{Text}
use block_proxy.Mitm.Registry.{
  Rule, Group, RawRule, Export, rule_array, rule_object, other_value, effective_groups, set_group,
  get_group, all_groups, normalize_rule_exports, group_of, valid_rules, compile_rule, compile_with,
  get_enabled_rules, get_enabled_groups, flat_rules, is_group_enabled, switch_of,
  is_builtin_youtube_enabled,
}
use block_proxy.Mitm.Hosts.{all_digits, trim_host, ends_in_any, auth_pass}
use block_proxy.Mitm.Handler.{should_mitm, matches, choose_rule}
use block_proxy.Mitm.Chosen.{should_mitm-choose_rule}
use block_proxy.Mitm.Override.{or_else, group_from, get_group-all_groups}

abbrev raw : Text → RawRule
raw host = record {
  rule_type = ascii_text "beforeSendResponse";
  host = host;
  regexp = ascii_text ".";
  callback = some 1;
}

abbrev builtin : List (Text × Export)
builtin =
    (ascii_text "Youtube", rule_array (some (raw (ascii_text "tube.com")) ∷ none ∷ []))
    ∷ (ascii_text "Broken", other_value)
    ∷ []

abbrev cli : List (Text × Export)
cli = (ascii_text "Youtube", rule_object [] [] (some (raw (ascii_text "My.com")) ∷ [])) ∷ []

abbrev groups : List Group
groups = all_groups (λ t. true) builtin cli []

get_group-all_groups_example :
    get_group (effective_groups [] groups) (ascii_text "Youtube")
    ≡ or_else (group_from (λ t. true) "external:docker" "外部自定义规则" [] (ascii_text "Youtube")) (
        or_else
          (group_from (λ t. true) "external:cli" "外部自定义规则" cli (ascii_text "Youtube"))
          (group_from (λ t. true) "builtin" "内置规则" builtin (ascii_text "Youtube")))
get_group-all_groups_example =
    get_group-all_groups (λ t. true) builtin cli [] (ascii_text "Youtube")

youtube_overridden :
    (is_builtin_youtube_enabled [] (effective_groups [] groups) ≡ false)
    × (is_builtin_youtube_enabled [] (effective_groups [] (all_groups (λ t. true) builtin [] []))
        ≡ true)
    × (get_enabled_rules
          ((ascii_text "external:cli:Youtube", false) ∷ [])
          (effective_groups [] groups)
        ≡ [])
unfolding all_groups normalize_rule_exports group_of valid_rules compile_rule compile_with
    effective_groups set_group get_group text_eq is_builtin_youtube_enabled is_group_enabled
    switch_of get_enabled_rules get_enabled_groups flat_rules
youtube_overridden = (refl, refl, refl)

abbrev rules : List Rule
rules =
    record {
      rule_type = ascii_text "beforeSendRequest";
      host = ascii_text "b.c";
      regexp = [];
      callback = 1;
    }
    ∷ record {
      rule_type = ascii_text "beforeSendResponse";
      host = ascii_text "B.c";
      regexp = [];
      callback = 2;
    }
    ∷ []

abbrev host_of : Text → Text
host_of url = ascii_text "a.b.c"

abbrev response : Text
response = ascii_text "beforeSendResponse"

abbrev second : Rule
second = record {
  rule_type = ascii_text "beforeSendResponse";
  host = ascii_text "B.c";
  regexp = [];
  callback = 2;
}

second_chosen : choose_rule host_of (λ e u. true) response [] rules ≡ some second
unfolding choose_rule matches text_eq to_lower has_suffix
second_chosen = refl

should_mitm-choose_rule_example : should_mitm rules (ascii_text "a.b.c:443") ≡ true
unfolding all_digits
should_mitm-choose_rule_example =
    should_mitm-choose_rule host_of (λ e u. true) response [] rules second b'4' (ascii_text "43")
      second_chosen (refl, (refl, (refl, (refl, (refl, tt))))) refl

auth_pass_zhihu :
    (auth_pass (ascii_text "www.zhihu.com:80") none ≡ true)
    × (auth_pass (ascii_text "a.b") (some (ascii_text "/x.TS")) ≡ true)
unfolding auth_pass ends_in_any has_suffix to_lower trim_host text_eq last_index_of_char
    index_of_char all_digits
auth_pass_zhihu = (refl, refl)
