-- ===== src/Filter/Reasons.antt =====
-- Why beforeDealHttpsRequest of proxy/proxy.js takes a connection apart.
use block_proxy.Common.{
  ℕ, ◌+◌, ◌≡◌, refl, sym, ap, ◌∙◌, Bool, true, false, ◌&&◌, ◌||◌, not, List, [], ◌∷◌, ◌++◌, length,
  if◌then◌else◌, if_off, if_on, ◌⊎◌, inl, inr, Bool-cases, both, drop_skip, take-append, text_eq,
}
use mathlib.Core.Bool.{false≢true}
use block_proxy.Common.Texts.{IsFree, ascii_text, has_prefix, includes, last_index_of_char-append}
use block_proxy.Common.Contained.{includes-split}
use block_proxy.Wire.Buffer.{Text}
use block_proxy.Manager.State.{Manager, matches_tunnel_domain}
use block_proxy.Manager.Domains.{AnyUnder, matches_tunnel_domain-AnyUnder}
use block_proxy.Mitm.Registry.{Rule, is_empty}
use block_proxy.Mitm.Hosts.{all_digits, ends_in_any}
use block_proxy.Mitm.Handler.{should_mitm, hosts_of, distinct_from}
use block_proxy.Mitm.Chosen.{ends_in_any-distinct_from, digits-IsFree}
use block_proxy.Mitm.Ends.{EndsInAny, either, ends_in_any-EndsInAny, trim_host-IsFree}
use block_proxy.Filter.Blocks.{
  BlockItem, plain, detailed, Clock, current_day, on_day, on_url, holds_now, blocks, some_blocks,
  should_block_host,
}
use block_proxy.Filter.Auth.{Outcome, allowed, auth_required, throws}
use block_proxy.Filter.Decide.{
  Settings, decrypt, pass_through, refused, fails, has_items, connect_host, without_port,
  deal_https_host, before_deal_https_request,
}

reasons :
    (t m w i x y : Bool)
    → (if t
        then pass_through
        else if m && w
        then decrypt
        else if i || not m
        then pass_through
        else if x && y
        then decrypt
        else pass_through)
      ≡ decrypt
    → (t ≡ false) × (m ≡ true) × ((w ≡ true) ⊎ ((i ≡ false) × (x ≡ true) × (y ≡ true)))
reasons true m w i x y h = cc
reasons false false w true x y h = cc
reasons false false w false x y h = cc
reasons false true true i x y h = (refl, refl, inl refl)
reasons false true false true x y h = cc
reasons false true false false true true h = (refl, refl, inr (refl, refl, refl))
reasons false true false false true false h = cc
reasons false true false false false y h = cc

not-true : (b : Bool) → not b ≡ true → b ≡ false
not-true true h = cc
not-true false h = refl

connect_host-port :
    (name : Text) (d : ℕ) (digits : Text)
    → IsFree b'[' name
    → all_digits (d ∷ digits) ≡ true
    → connect_host (name ++ (b':' ∷ d ∷ digits)) ≡ name
unfolding connect_host without_port has_prefix text_eq
connect_host-port name d digits f g =
    let behind = drop_skip name (b':' ∷ d ∷ digits) (length name + 1) 1 refl in
    rw
      (
        no_bracket name (d ∷ digits) f,
        last_index_of_char-append name (d ∷ digits) b':' (digits-IsFree (d ∷ digits) g),
        without_port,
      )
      (rw (behind, g) (take-append (length name) name (b':' ∷ d ∷ digits) refl))
  where
    no_bracket :
        (n t : Text) → IsFree b'[' n → has_prefix (n ++ (b':' ∷ t)) (ascii_text "[") ≡ false
    no_bracket [] t h = refl
    no_bracket (c ∷ n) t h = rw h.0 refl

-- A rule of the block list that holds for a name at a time: its text stands in the name, and the day
-- and the time are its own.
abbrev pub Holds : Clock → Text → BlockItem → Type 0
Holds now name (plain t) = (p q : Text) × (name ≡ p ++ (t ++ q))
Holds now name (detailed r) =
    ((p q : Text) × (name ≡ p ++ (r.filter_host ++ q)))
    × (on_day r.filter_weekday (current_day now) ≡ true)
    × (holds_now r now ≡ true)

abbrev pub SomeHolds : Clock → Text → List BlockItem → Type 0
SomeHolds now name [] = ⊥
SomeHolds now name (item ∷ items) = Holds now name item ⊎ SomeHolds now name items

blocks-Holds :
    (is_regexp : Text → Bool) (test : Text → Text → Bool) (name : Text) (now : Clock)
    (item : BlockItem)
    → blocks is_regexp test name [] now item ≡ true
    → Holds now name item
unfolding blocks
blocks-Holds is_regexp test name now (plain t) h = includes-split name t h
blocks-Holds is_regexp test name now (detailed r) h =
    let (filled, at_host) = both (not (is_empty r.filter_host)) _ h in
    let (found, in_time) = both (includes name r.filter_host) _ at_host in
    let (day, later) = both (on_day r.filter_weekday (current_day now)) _ in_time in
    let (url, time) = both (on_url is_regexp test r.filter_match_rule []) _ later in
    (includes-split name r.filter_host found, day, time)

should_block_host-SomeHolds :
    (is_regexp : Text → Bool) (test : Text → Text → Bool) (name : Text) (now : Clock)
    (items : List BlockItem)
    → should_block_host is_regexp test name items [] now ≡ true
    → SomeHolds now name items
unfolding should_block_host some_blocks
should_block_host-SomeHolds is_regexp test name now items h = elim (Bool-cases (is_empty name)) [
  | inl e ↦ absurd (false≢true (sym (if_on _ _ (is_empty name) e) ∙ h))
  | inr e ↦ some_holds items (sym (if_off _ _ (is_empty name) e) ∙ h)
]
  where
    some_holds :
        (is : List BlockItem)
        → some_blocks is_regexp test name [] now is ≡ true
        → SomeHolds now name is
    some_holds [] g = cc
    some_holds (i ∷ is) g =
        elim (either (blocks is_regexp test name [] now i)
          (some_blocks is_regexp test name [] now is) g) [
            | inl b ↦ inl (blocks-Holds is_regexp test name now i b)
            | inr b ↦ inr (some_holds is b)
          ]

should_mitm-EndsInAny :
    (rules : List Rule) (name : Text)
    → IsFree b':' name
    → should_mitm rules name ≡ true
    → EndsInAny (hosts_of rules) name
unfolding should_mitm ends_in_any
should_mitm-EndsInAny rules name f h = ends_in_any-EndsInAny name (hosts_of rules) (
    sym (ends_in_any-distinct_from name [] (hosts_of rules))
    ∙ sym (ap (λ t. ends_in_any t (distinct_from [] (hosts_of rules))) (trim_host-IsFree name f))
    ∙ h)

module _ (is_regexp : Text → Bool) (test : Text → Text → Bool) (is_ip : Text → Bool)
    (m : Manager) where
  -- What must hold of a name for its connection to be taken apart: it is not a domain of the tunnel
  -- or a name under one, the MITM proxy is switched on, and the name ends in the host of a rule, or
  -- it is no address and a rule of the block list holds for it now.
  abbrev pub IsWatched : Settings → List BlockItem → Text → Type 0
  IsWatched s items name =
      (¬ AnyUnder m.tunnel_domains name)
      × (s.enable_mitm ≡ true)
      × (EndsInAny (hosts_of s.rules) name ⊎ ((is_ip name ≡ false) × SomeHolds s.now name items))

  name-IsWatched :
      (s : Settings) (items : List BlockItem) (name : Text)
      → IsFree b':' name
      → deal_https_host is_regexp test is_ip (matches_tunnel_domain m) s items name ≡ decrypt
      → IsWatched s items name
  unfolding deal_https_host
  name-IsWatched s items name f h =
      let (out, on, why) =
        reasons (matches_tunnel_domain m name) s.enable_mitm (should_mitm s.rules name) (is_ip name)
          (has_items items) (should_block_host is_regexp test name items [] s.now) h in
      (
        λ u. false≢true (sym out ∙ (matches_tunnel_domain-AnyUnder m name).1 u),
        on,
        elim why [
          | inl r ↦ inl (should_mitm-EndsInAny s.rules name f r)
          | inr (i, x, b) ↦ inr (i, should_block_host-SomeHolds is_regexp test name s.now items b)
        ],
      )

  -- A CONNECT to a name without a colon or an opening bracket, as a domain or an IPv4 address, and a
  -- port of digits is taken apart only if a second proxy is configured, or if the client passed the
  -- check of the password, the MITM proxy is switched on, and the name is neither a domain of the
  -- tunnel nor under one, and ends in the host of a rule or is no bare address and has the text of a
  -- rule of the block list in it that holds at that day and time.
  pub before_deal_https_request-IsWatched :
      (s : Settings) (auth : Outcome) (items : List BlockItem) (name : Text) (d : ℕ) (digits : Text)
      → IsFree b':' name
      → IsFree b'[' name
      → all_digits (d ∷ digits) ≡ true
      → before_deal_https_request is_regexp test is_ip
          (matches_tunnel_domain m)
          s
          auth
          items
          (name ++ (b':' ∷ d ∷ digits))
        ≡ decrypt
      → (is_empty s.vpn_proxy ≡ false) ⊎ ((auth ≡ allowed) × IsWatched s items name)
  unfolding before_deal_https_request
  before_deal_https_request-IsWatched s auth items name d digits fc fb g h =
      elim (Bool-cases (not (is_empty s.vpn_proxy))) [
        | inl e ↦ inl (not-true (is_empty s.vpn_proxy) e)
        | inr e ↦ inr (checked auth (sym (if_off _ _ (not (is_empty s.vpn_proxy)) e) ∙ h))
      ]
    where
      checked :
          (o : Outcome)
          → (elim o [
            | throws ↦ fails
            | auth_required ↦ refused
            | allowed ↦
                deal_https_host is_regexp test is_ip
                  (matches_tunnel_domain m)
                  s
                  items
                  (connect_host (name ++ (b':' ∷ d ∷ digits)))
          ])
            ≡ decrypt
          → (o ≡ allowed) × IsWatched s items name
      checked throws w = cc
      checked auth_required w = cc
      checked allowed w = (
        refl,
        name-IsWatched s items name fc (
            ap (deal_https_host is_regexp test is_ip (matches_tunnel_domain m) s items)
              (sym (connect_host-port name d digits fb g))
            ∙ w),
      )
