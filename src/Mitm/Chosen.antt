-- ===== src/Mitm/Chosen.antt =====
-- The rule that handles a URL, and the hosts that are taken apart for it.
use block_proxy.Common.{
  ℕ, ◌+◌, ◌≡◌, refl, sym, ap, ◌∙◌, arith, Bool, true, false, ◌||◌, List, [], ◌∷◌, ◌++◌, none, some,
  length, All, if_off, if_on, text_eq, text_eq→eq, ◌==◌, ◌⊎◌, inl, inr, Bool-cases, both,
  take-append, drop_skip,
}
use mathlib.Core.Bool.{false≢true}
use block_proxy.Common.Texts.{IsFree, index_of_char-append, last_index_of_char-append, to_lower}
use block_proxy.Wire.Buffer.{Text}
use block_proxy.Xhttp.Routes.{is_digit}
use block_proxy.Mitm.Registry.{Rule}
use block_proxy.Mitm.Hosts.{all_digits, trim_host, ends_in, ends_in_any}
use block_proxy.Mitm.Handler.{member, distinct_from, hosts_of, should_mitm, matches, choose_rule}

or_assoc : (a b c : Bool) → ((a || b) || c) ≡ (a || (b || c))
or_assoc true b c = refl
or_assoc false b c = refl

-- What a test on some item of a list says does not change when an item is added that is there.
ends_in_any-append :
    (h : Text) (xs ys : List Text)
    → ends_in_any h (xs ++ ys) ≡ (ends_in_any h xs || ends_in_any h ys)
unfolding ends_in_any
ends_in_any-append h [] ys = refl
ends_in_any-append h (x ∷ xs) ys =
    ap (λ q. ends_in h x || q) (ends_in_any-append h xs ys)
    ∙ sym (or_assoc (ends_in h x) (ends_in_any h xs) (ends_in_any h ys))

or_false : (b : Bool) → b ≡ (b || false)
or_false true = refl
or_false false = refl

or_true : (b : Bool) → (b || true) ≡ true
or_true true = refl
or_true false = refl

absorbed : (a b : Bool) → (a ≡ true → b ≡ true) → (b || a) ≡ b
absorbed true b f = rw (f refl) refl
absorbed false true f = refl
absorbed false false f = refl

member-ends_in_any :
    (h t : Text) (us : List Text)
    → member t us ≡ true
    → ends_in h t ≡ true
    → ends_in_any h us ≡ true
unfolding member ends_in_any
member-ends_in_any h t [] m e = absurd (false≢true m)
member-ends_in_any h t (u ∷ us) m e = elim (Bool-cases (text_eq u t)) [
  | inl f ↦
      ap (λ q. ends_in h q || ends_in_any h us) (text_eq→eq u t f)
      ∙ ap (λ q. q || ends_in_any h us) e
  | inr f ↦
      let later =
        member-ends_in_any h t us (sym (if_off true (member t us) (text_eq u t) f) ∙ m) e in
      ap (λ q. ends_in h u || q) later ∙ or_true (ends_in h u)
]

pub ends_in_any-distinct_from :
    (h : Text) (seen ts : List Text)
    → ends_in_any h (distinct_from seen ts) ≡ (ends_in_any h seen || ends_in_any h ts)
unfolding distinct_from ends_in_any
ends_in_any-distinct_from h seen [] = or_false (ends_in_any h seen)
ends_in_any-distinct_from h seen (t ∷ ts) = elim (Bool-cases (member t seen)) [
  | inl e ↦ rw e (
      ends_in_any-distinct_from h seen ts
      ∙ ap (λ q. q || ends_in_any h ts)
          (sym (absorbed (ends_in h t) (ends_in_any h seen) (member-ends_in_any h t seen e)))
      ∙ or_assoc (ends_in_any h seen) (ends_in h t) (ends_in_any h ts))
  | inr e ↦ rw e (
      ends_in_any-distinct_from h (seen ++ (t ∷ [])) ts
      ∙ ap (λ q. q || ends_in_any h ts)
          (ends_in_any-append h seen (t ∷ [])
            ∙ ap (λ q. ends_in_any h seen || q) (sym (or_false (ends_in h t))))
      ∙ or_assoc (ends_in_any h seen) (ends_in h t) (ends_in_any h ts))
]

digit_not_colon : (c : ℕ) → is_digit c ≡ true → (c == b':') ≡ false
digit_not_colon c h = ground arith

pub digits-IsFree : (t : Text) → all_digits t ≡ true → IsFree b':' t
unfolding all_digits
digits-IsFree [] h = tt
digits-IsFree (c ∷ t) h =
    let (first, rest) = both (is_digit c) (all_digits t) h in
    (digit_not_colon c first, digits-IsFree t rest)

trim_host_port :
    (h t : Text) (d : ℕ)
    → IsFree b':' h
    → all_digits (d ∷ t) ≡ true
    → trim_host (h ++ (b':' ∷ d ∷ t)) ≡ h
unfolding trim_host
trim_host_port h t d f g =
    let behind = drop_skip h (b':' ∷ d ∷ t) (length h + 1) 1 refl in
    rw (last_index_of_char-append h (d ∷ t) b':' (digits-IsFree (d ∷ t) g), trim_host)
      (rw (behind, g, index_of_char-append h (d ∷ t) b':' f)
        (take-append (length h) h (b':' ∷ d ∷ t) refl))

module _ (hostname : Text → Text) (test : Text → Text → Bool) (type url : Text) where
  -- The rule that handles a URL is the first of the rules that matches; if there is none, then none
  -- of the rules matches.
  pub choose_rule-IsFirst :
      (rules : List Rule)
      → ((choose_rule hostname test type url rules ≡ none)
          × All (λ r. matches hostname test type url r ≡ false) rules)
        ⊎ ((r : Rule) × (before after : List Rule) × (choose_rule hostname test type url rules
              ≡ some r)
            × (rules ≡ before ++ (r ∷ after))
            × All (λ q. matches hostname test type url q ≡ false) before
            × (matches hostname test type url r ≡ true))
  unfolding choose_rule
  choose_rule-IsFirst [] = inl (refl, tt)
  choose_rule-IsFirst (r ∷ rules) = elim (Bool-cases (matches hostname test type url r)) [
    | inl e ↦ inr (r, [], rules, if_on _ _ (matches hostname test type url r) e, refl, tt, e)
    | inr e ↦ elim (choose_rule-IsFirst rules) [
      | inl (n, all) ↦ inl (if_off _ _ (matches hostname test type url r) e ∙ n, (e, all))
      | inr (q, before, after, c, split, none_before, m) ↦ inr (
        q,
        r ∷ before,
        after,
        if_off _ _ (matches hostname test type url r) e ∙ c,
        ap (◌∷◌ r) split,
        (e, none_before),
        m,
      )
    ]
  ]

  chosen-ends_in_any :
      (rules : List Rule) (r : Rule)
      → choose_rule hostname test type url rules ≡ some r
      → ends_in_any (hostname url) (hosts_of rules) ≡ true
  unfolding choose_rule matches ends_in_any
  chosen-ends_in_any [] r h = cc
  chosen-ends_in_any (q ∷ rules) r h = elim (Bool-cases (matches hostname test type url q)) [
    | inl e ↦
        let (of_type, at_host) = both (text_eq (to_lower q.rule_type) (to_lower type)) _ e in
        let (ends, tested) = both (ends_in (hostname url) q.host) (test q.regexp url) at_host in
        ap (λ b. b || ends_in_any (hostname url) (hosts_of rules)) ends
    | inr e ↦
        ap (λ b. ends_in (hostname url) q.host || b)
          (chosen-ends_in_any rules r (sym (if_off _ _ (matches hostname test type url q) e) ∙ h))
        ∙ or_true (ends_in (hostname url) q.host)
  ]

  -- A rule that handles a URL has its host taken apart, where that host has no colon in it, as a
  -- name or an IPv4 address: shouldMitm accepts the host with a colon and a port of digits behind.
  pub should_mitm-choose_rule :
      (rules : List Rule) (r : Rule) (d : ℕ) (digits : Text)
      → choose_rule hostname test type url rules ≡ some r
      → IsFree b':' (hostname url)
      → all_digits (d ∷ digits) ≡ true
      → should_mitm rules (hostname url ++ (b':' ∷ d ∷ digits)) ≡ true
  unfolding should_mitm ends_in_any
  should_mitm-choose_rule rules r d digits h f g =
      ap (λ t. ends_in_any t (distinct_from [] (hosts_of rules)))
        (trim_host_port (hostname url) digits d f g)
      ∙ ends_in_any-distinct_from (hostname url) [] (hosts_of rules)
      ∙ chosen-ends_in_any rules r h
