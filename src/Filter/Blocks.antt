-- ===== src/Filter/Blocks.antt =====
-- The block rules of proxy/proxy.js: whom they are for, when they hold and what they block.
use block_proxy.Common.{
  ℕ, Bool, true, false, ◌&&◌, ◌||◌, not, List, [], ◌∷◌, ◌++◌, Option, none, some, length, take,
  drop, ltb, ◌==◌, if◌then◌else◌, text_eq,
}
use block_proxy.Common.Texts.{
  ascii_text, has_prefix, includes, index_of_char, to_lower, split_at, join, is_hex,
}
use block_proxy.Wire.Buffer.{Text, decimal}
use block_proxy.Xhttp.Routes.{trim}
use block_proxy.Mitm.Registry.{is_empty}

-- normalizeMacAddress; `none` where it throws.
unfoldable pub hex_part : Text → Option Text
hex_part (c ∷ []) = if is_hex c then some (b'0' ∷ c ∷ []) else none
hex_part (c ∷ d ∷ []) = if is_hex c && is_hex d then some (c ∷ d ∷ []) else none
hex_part _ = none

unfoldable pub hex_parts : List Text → Option (List Text)
hex_parts [] = some []
hex_parts (p ∷ ps) = elim (hex_part p) [
  | none ↦ none
  | some q ↦ elim (hex_parts ps) [ none ↦ none | some qs ↦ some (q ∷ qs) ]
]

unfoldable pub normalize_mac_address : Text → Option Text
normalize_mac_address mac =
    let parts = split_at b':' [] (to_lower (trim mac)) in
    if length parts == 6
    then elim (hex_parts parts) [ none ↦ none | some qs ↦ some (join (b':' ∷ []) qs) ]
    else none

-- A rule of the configuration; an empty text stands for a field that is missing.
pub record BlockRule : Type 0 where
  pub filter_host : Text
  pub filter_weekday : Option (List ℕ)
  pub filter_match_rule : Text
  pub filter_start_time : Text
  pub filter_end_time : Text
  pub filter_mac : Text

-- The old format is a text, the new one an object.
pub data BlockItem : Type 0 where
  plain : Text → BlockItem
  detailed : BlockRule → BlockItem

abbrev pub mac_of : BlockItem → Text
mac_of (plain t) = []
mac_of (detailed r) = r.filter_mac

-- getMacByIp; the devices are pairs of an address and a MAC address.
unfoldable pub find_mac : List (Text × Text) → Text → Text
find_mac [] ip = []
find_mac ((i, mac) ∷ devices) ip =
    let rest = find_mac devices ip in if text_eq i ip then mac else rest

unfoldable pub get_mac_by_ip : List (Text × Text) → Text → Text → Text
get_mac_by_ip devices local_mac ip =
    if is_empty ip
    then []
    else if text_eq ip (ascii_text "127.0.0.1")
    then local_mac
    else find_mac devices ip

abbrev pub same_mac : Option Text → Option Text → Bool
same_mac (some a) (some b) = text_eq a b
same_mac _ _ = false

-- getBlockRules: an item whose comparison throws is left out.
abbrev pub is_for : Text → BlockItem → Bool
is_for mac item =
    is_empty (mac_of item)
    || same_mac (normalize_mac_address (mac_of item)) (normalize_mac_address mac)

unfoldable pub get_block_rules : Text → List BlockItem → List BlockItem
get_block_rules mac [] = []
get_block_rules mac (item ∷ items) =
    let rest = get_block_rules mac items in if is_for mac item then item ∷ rest else rest

-- What `new Date()` says: the hours, the minutes, and the day of the week from 0 for Sunday.
pub record Clock : Type 0 where
  pub hours : ℕ
  pub minutes : ℕ
  pub day : ℕ

-- `n.toString().padStart(2, '0')`
abbrev pub two_digits : ℕ → Text
two_digits n = if ltb n 10 then b'0' ∷ decimal n else decimal n

abbrev pub time_text : ℕ → ℕ → Text
time_text hours minutes = two_digits hours ++ (b':' ∷ two_digits minutes)

abbrev pub current_day : Clock → ℕ
current_day now = if now.day == 0 then 7 else now.day

-- `s <= t` on texts: by the first unit that differs.
unfoldable pub text_leb : Text → Text → Bool
text_leb [] t = true
text_leb (c ∷ s) [] = false
text_leb (c ∷ s) (d ∷ t) = elim (c == d) [ true ↦ text_leb s t | false ↦ ltb c d ]

-- From the start to the end, over midnight where the start is the later of the two.
unfoldable pub in_window : Text → Text → Text → Bool
in_window start end now =
    if not (text_leb start end)
    then text_leb start now || text_leb now end
    else text_leb start now && text_leb now end

unfoldable pub holds_now : BlockRule → Clock → Bool
holds_now r now =
    if is_empty r.filter_start_time || is_empty r.filter_end_time
    then true
    else in_window r.filter_start_time r.filter_end_time (time_text now.hours now.minutes)

unfoldable pub contains_day : List ℕ → ℕ → Bool
contains_day [] d = false
contains_day (e ∷ days) d = (e == d) || contains_day days d

abbrev pub on_day : Option (List ℕ) → ℕ → Bool
on_day none d = true
on_day (some days) d = contains_day days d

-- `test` matches a regular expression, `is_regexp` tells which texts are one. A rule whose text is
-- none got the expression that matches the empty text only.
module _ (is_regexp : Text → Bool) (test : Text → Text → Bool) where
  unfoldable pub on_url : Text → Text → Bool
  on_url match_rule url =
      if is_empty url || is_empty (trim match_rule)
      then true
      else if is_regexp match_rule
      then test match_rule url
      else false

  unfoldable pub blocks : Text → Text → Clock → BlockItem → Bool
  blocks host url now (plain t) = includes host t
  blocks host url now (detailed r) =
      not (is_empty r.filter_host)
      && (includes host r.filter_host
          && (on_day r.filter_weekday (current_day now)
              && (on_url r.filter_match_rule url && holds_now r now)))

  unfoldable pub some_blocks : Text → Text → Clock → List BlockItem → Bool
  some_blocks host url now [] = false
  some_blocks host url now (item ∷ items) =
      blocks host url now item || some_blocks host url now items

  unfoldable pub should_block_host : Text → List BlockItem → Text → Clock → Bool
  should_block_host host items url now =
      if is_empty host then false else some_blocks host url now items

-- normalizeIP: the brackets of `[address]:port`, then the prefix of an IPv4 address as an IPv6 one.
unfoldable pub unbracketed : Text → Text
unbracketed [] = []
unbracketed (c ∷ t) = if c == b'[' then inside (index_of_char t b']') else c ∷ t
  where
    inside : Option ℕ → Text
    inside none = c ∷ t
    inside (some i) = if i == 0 then c ∷ t else take i t

unfoldable pub normalize_ip : Text → Text
normalize_ip raw =
    let ip = unbracketed raw in
    if has_prefix (to_lower ip) (ascii_text "::ffff:") then drop 7 ip else ip
