-- ===== src/Mitm/Registry.antt =====
-- proxy/mitm/registry.js: the groups of rules, their override by key and their switches.
use block_proxy.Common.{
  ℕ, Bool, true, false, ◌&&◌, not, List, [], ◌∷◌, ◌++◌, Option, none, some, length, if◌then◌else◌,
  text_eq,
}
use block_proxy.Common.Texts.{ascii_text}
use block_proxy.Wire.Buffer.{Text}

-- A rule as a module exports it: an empty text stands for a field that is missing, `none` for a
-- callback that is no function; functions are numbers.
pub record RawRule : Type 0 where
  pub rule_type : Text
  pub host : Text
  pub regexp : Text
  pub callback : Option ℕ

pub record Rule : Type 0 where
  pub rule_type : Text
  pub host : Text
  pub regexp : Text
  pub callback : ℕ

-- What a key of the exports holds: an array of rules, an object with such an array, or neither. An
-- item that is no object is `none`.
pub data Export : Type 0 where
  rule_array : List (Option RawRule) → Export
  rule_object : Text → Text → List (Option RawRule) → Export
  other_value : Export

pub record Group : Type 0 where
  pub source : Text
  pub key : Text
  pub name : Text
  pub description : Text
  pub rules : List Rule

abbrev pub id_of : Group → Text
id_of g = g.source ++ (b':' ∷ g.key)

abbrev pub is_empty : Text → Bool
is_empty [] = true
is_empty (c ∷ t) = false

abbrev pub or_text : Text → Text → Text
or_text t default = if is_empty t then default else t

-- `is_regexp` tells which texts `new RegExp` takes.
module _ (is_regexp : Text → Bool) where
  unfoldable pub compile_with : RawRule → Option ℕ → Option Rule
  compile_with r none = none
  compile_with r (some callback) =
      if not (is_empty r.rule_type)
        && (not (is_empty r.host) && (not (is_empty r.regexp) && is_regexp r.regexp))
      then some (record {
        rule_type = r.rule_type;
        host = r.host;
        regexp = r.regexp;
        callback = callback;
      })
      else none

  unfoldable pub compile_rule : Option RawRule → Option Rule
  compile_rule none = none
  compile_rule (some r) = compile_with r r.callback

  -- `rules.map(compileRule).filter(Boolean)`
  unfoldable pub valid_rules : List (Option RawRule) → List Rule
  valid_rules [] = []
  valid_rules (r ∷ rs) =
      let rest = valid_rules rs in elim (compile_rule r) [ none ↦ rest | some rule ↦ rule ∷ rest ]

  unfoldable pub group_of : Text → Text → Text → Export → List Group
  group_of source description key (rule_array rules) =
      record {
        source = source;
        key = key;
        name = key;
        description = description;
        rules = valid_rules rules;
      }
      ∷ []
  group_of source description key (rule_object name own rules) =
      record {
        source = source;
        key = key;
        name = or_text name key;
        description = or_text own description;
        rules = valid_rules rules;
      }
      ∷ []
  group_of source description key other_value = []

  -- The exports as the list of their keys and values.
  unfoldable pub normalize_rule_exports : Text → Text → List (Text × Export) → List Group
  normalize_rule_exports source description [] = []
  normalize_rule_exports source description ((key, value) ∷ exports) =
      group_of source description key value ++ normalize_rule_exports source description exports

  -- The groups of the three sources, in the order in which they are set.
  unfoldable pub all_groups :
      List (Text × Export) → List (Text × Export) → List (Text × Export) → List Group
  all_groups builtin cli docker =
      normalize_rule_exports (ascii_text "builtin") (ascii_text "内置规则") builtin
      ++ (normalize_rule_exports (ascii_text "external:cli") (ascii_text "外部自定义规则") cli
          ++ normalize_rule_exports (ascii_text "external:docker") (ascii_text "外部自定义规则") docker)

-- `effectiveByKey.set`: a key that is there keeps its place.
unfoldable pub set_group : List Group → Group → List Group
set_group [] g = g ∷ []
set_group (h ∷ groups) g =
    let rest = set_group groups g in if text_eq h.key g.key then g ∷ groups else h ∷ rest

unfoldable pub effective_groups : List Group → List Group → List Group
effective_groups effective [] = effective
effective_groups effective (g ∷ groups) = effective_groups (set_group effective g) groups

-- `effectiveByKey.get`
unfoldable pub get_group : List Group → Text → Option Group
get_group [] key = none
get_group (g ∷ groups) key =
    let rest = get_group groups key in if text_eq g.key key then some g else rest

-- `config.rule_modules`: what it says of an id, `none` for an id that is missing.
unfoldable pub switch_of : List (Text × Bool) → Text → Option Bool
switch_of [] id = none
switch_of ((i, on) ∷ switches) id =
    let rest = switch_of switches id in if text_eq i id then some on else rest

abbrev pub is_on : Option Bool → Bool
is_on none = true
is_on (some on) = on

unfoldable pub is_group_enabled : List (Text × Bool) → Group → Bool
is_group_enabled switches g = is_on (switch_of switches (id_of g))

unfoldable pub get_enabled_groups : List (Text × Bool) → List Group → List Group
get_enabled_groups switches [] = []
get_enabled_groups switches (g ∷ groups) =
    let rest = get_enabled_groups switches groups in
    if is_group_enabled switches g then g ∷ rest else rest

unfoldable pub flat_rules : List Group → List Rule
flat_rules [] = []
flat_rules (g ∷ groups) = g.rules ++ flat_rules groups

unfoldable pub get_enabled_rules : List (Text × Bool) → List Group → List Rule
get_enabled_rules switches groups = flat_rules (get_enabled_groups switches groups)

unfoldable pub is_builtin_youtube_enabled : List (Text × Bool) → List Group → Bool
is_builtin_youtube_enabled switches groups = elim (get_group groups (ascii_text "Youtube")) [
  | none ↦ false
  | some g ↦ text_eq (id_of g) (ascii_text "builtin:Youtube") && is_group_enabled switches g
]

-- getRuleModules: the id, the source, the key, the name and the description, the switch, the count.
pub record Module : Type 0 where
  pub id : Text
  pub group : Group
  pub enabled : Bool
  pub rule_count : ℕ

unfoldable pub get_rule_modules : List (Text × Bool) → List Group → List Module
get_rule_modules switches [] = []
get_rule_modules switches (g ∷ groups) =
    record {
      id = id_of g;
      group = g;
      enabled = is_group_enabled switches g;
      rule_count = length g.rules;
    }
    ∷ get_rule_modules switches groups
