-- ===== src/Mitm/Override.antt =====
-- Which group of rules a key stands for.
use block_proxy.Common.{
  ◌≡◌, refl, sym, ap, ◌∙◌, Bool, true, false, List, [], ◌∷◌, Option, none, some, if◌then◌else◌,
  text_eq, text_eq→eq, text_eq_off, ◌++◌, inl, inr, Bool-cases,
}
use Prim.Native.String.{String}
use block_proxy.Common.Texts.{ascii_text}
use block_proxy.Wire.Buffer.{Text}
use block_proxy.Mitm.Registry.{
  Export, normalize_rule_exports, all_groups, Group, set_group, effective_groups, get_group,
}

-- The last group of a list with a key.
unfoldable pub last_group : List Group → Text → Option Group
last_group [] key = none
last_group (g ∷ groups) key = elim (last_group groups key) [
  | some later ↦ some later
  | none ↦ if text_eq g.key key then some g else none
]

get_group-set_group :
    (groups : List Group) (g : Group) (key : Text)
    → get_group (set_group groups g) key
      ≡ (if text_eq g.key key then some g else get_group groups key)
unfolding get_group set_group
get_group-set_group [] g key = refl
get_group-set_group (h ∷ groups) g key = elim (Bool-cases (text_eq h.key g.key)) [
  | inl e ↦ elim (Bool-cases (text_eq g.key key)) [
    | inl f ↦ rw (e, f) refl
    | inr f ↦ let k = ap (λ q. text_eq q key) (text_eq→eq h.key g.key e) ∙ f in rw (e, f, k) refl
  ]
  | inr e ↦ elim (Bool-cases (text_eq h.key key)) [
    | inl f ↦ rw (e, f, text_eq_off h.key g.key key e f) refl
    | inr f ↦ rw (e, f) (get_group-set_group groups g key)
  ]
]

abbrev pub or_else : Option Group → Option Group → Option Group
or_else none o = o
or_else (some g) o = some g

or_else_if :
    (b : Bool) (g : Group) (o : Option Group)
    → (if b then some g else o) ≡ or_else (if b then some g else none) o
or_else_if true g o = refl
or_else_if false g o = refl

get_group-effective_from :
    (effective groups : List Group) (key : Text)
    → get_group (effective_groups effective groups) key
      ≡ or_else (last_group groups key) (get_group effective key)
unfolding effective_groups last_group
get_group-effective_from effective [] key = refl
get_group-effective_from effective (g ∷ groups) key =
    get_group-effective_from (set_group effective g) groups key
    ∙ ap (or_else (last_group groups key)) (get_group-set_group effective g key)
    ∙ choice (last_group groups key)
  where
    choice :
        (later : Option Group)
        → or_else later (if text_eq g.key key then some g else get_group effective key)
          ≡ or_else
              (elim later [ some h ↦ some h | none ↦ if text_eq g.key key then some g else none ])
              (get_group effective key)
    choice (some h) = refl
    choice none = or_else_if (text_eq g.key key) g (get_group effective key)

or_else-none : (o : Option Group) → or_else o none ≡ o
or_else-none none = refl
or_else-none (some g) = refl

last_group-append :
    (xs ys : List Group) (key : Text)
    → last_group (xs ++ ys) key ≡ or_else (last_group ys key) (last_group xs key)
unfolding last_group
last_group-append [] ys key = sym (or_else-none (last_group ys key))
last_group-append (x ∷ xs) ys key =
    ap
      (λ o. elim o as (λ _. Option Group) [
        | some later ↦ some later
        | none ↦ if text_eq x.key key then some x else none
      ])
      (last_group-append xs ys key)
    ∙ choice (last_group ys key) (last_group xs key)
  where
    choice :
        (later earlier : Option Group)
        → (elim (or_else later earlier) as (λ _. Option Group) [
          | some found ↦ some found
          | none ↦ if text_eq x.key key then some x else none
        ])
          ≡ or_else later (elim earlier as (λ _. Option Group) [
            | some found ↦ some found
            | none ↦ if text_eq x.key key then some x else none
          ])
    choice none earlier = refl
    choice (some g) earlier = refl

module _ (is_regexp : Text → Bool) where
  -- The last group with a key that the exports of a source give.
  abbrev pub group_from : String → String → List (Text × Export) → Text → Option Group
  group_from source description exports key =
      last_group
        (normalize_rule_exports is_regexp (ascii_text source) (ascii_text description) exports) key

  -- A key stands for the group that the rule file of the Docker image gives it, else for that of the
  -- file of the command line, else for the built-in one; within a source the last group counts.
  pub get_group-all_groups :
      (builtin cli docker : List (Text × Export)) (key : Text)
      → get_group (effective_groups [] (all_groups is_regexp builtin cli docker)) key
        ≡ or_else (group_from "external:docker" "外部自定义规则" docker key) (
            or_else
              (group_from "external:cli" "外部自定义规则" cli key)
              (group_from "builtin" "内置规则" builtin key))
  unfolding all_groups get_group
  get_group-all_groups builtin cli docker key =
      let b = normalize_rule_exports is_regexp (ascii_text "builtin") (ascii_text "内置规则") builtin in
      let c =
        normalize_rule_exports is_regexp (ascii_text "external:cli") (ascii_text "外部自定义规则") cli in
      let d =
        normalize_rule_exports is_regexp (ascii_text "external:docker") (ascii_text "外部自定义规则")
          docker in
      get_group-effective_from [] (b ++ (c ++ d)) key
      ∙ or_else-none (last_group (b ++ (c ++ d)) key)
      ∙ last_group-append b (c ++ d) key
      ∙ ap (λ o. or_else o (last_group b key)) (last_group-append c d key)
      ∙ or_else_assoc (last_group d key) (last_group c key) (last_group b key)
    where
      or_else_assoc : (x y z : Option Group) → or_else (or_else x y) z ≡ or_else x (or_else y z)
      or_else_assoc none y z = refl
      or_else_assoc (some g) y z = refl
