-- ===== src/Wire/Buffer.antt =====
-- The Node buffer and text functions that tunnel/protocol.js and socks5/server.js call.
-- A buffer is a list of byte values, a text the list of its UTF-16 code units.
use block_proxy.Common.{ℕ, ◌+◌, ◌-◌, ◌*◌, ◌/◌, ◌%◌, ◌<◌, ◌≡◌, refl, arith}
use block_proxy.Common.{List, [], ◌∷◌, ◌++◌, Option, none, some, Bool, true, false}
use block_proxy.Common.{length, take, drop, get_elem?, ltb, leb, ◌==◌, ◌&&◌, if◌then◌else◌, All}
use block_proxy.Common.{take-append, drop-append, get_elem?-append, length-append, append_assoc}

abbrev pub Bytes : Type 0
Bytes = List ℕ

abbrev pub Text : Type 0
Text = List ℕ

abbrev pub IsByte : ℕ → Type 0
IsByte b = b < 256

-- `Buffer.from([x])` keeps the low eight bits.
abbrev pub byte : ℕ → ℕ
byte x = x % 256

-- `b.slice(from, to)` is clamped to the buffer.
abbrev pub slice : Bytes → ℕ → ℕ → Bytes
slice b from to = take (to - from) (drop from b)

-- `b.writeUInt16BE(x, …)` into two fresh bytes, for x in range.
abbrev pub u16be : ℕ → Bytes
u16be x = x / 256 ∷ x % 256 ∷ []

-- `b.readUInt16BE(i)`, `none` where Node throws because fewer than two bytes are left.
abbrev pub read_u16be : Bytes → ℕ → Option ℕ
read_u16be b i = elim (get_elem? b i) [
  | none ↦ none
  | some hi ↦ elim (get_elem? b (i + 1)) [ none ↦ none | some lo ↦ some (hi * 256 + lo) ]
]

abbrev is_high : ℕ → Bool
is_high c = leb 0xd800 c && ltb c 0xdc00

abbrev is_low : ℕ → Bool
is_low c = leb 0xdc00 c && ltb c 0xe000

-- Every surrogate stands in a pair: the texts that UTF-8 can carry.
unfoldable pub well_formed : Text → Bool
well_formed [] = true
well_formed (c ∷ []) = if is_high c then false else if is_low c then false else true
well_formed (c ∷ d ∷ t) =
    let pair = is_low d && well_formed t in
    let rest = well_formed (d ∷ t) in if is_high c then pair else if is_low c then false else rest

abbrev pub IsWellFormed : Text → Type 0
IsWellFormed t = well_formed t ≡ true

-- The decimal numeral of a byte, as a template literal prints it.
unfoldable pub decimal : ℕ → Text
decimal n =
    if ltb n 10
    then (n + 48) ∷ []
    else if ltb n 100
    then (n / 10 + 48) ∷ (n % 10 + 48) ∷ []
    else (n / 100 + 48) ∷ (n / 10 % 10 + 48) ∷ (n % 10 + 48) ∷ []

-- What the code relies on of Node's text conversions: UTF-8 both ways, and `Number` of a text as
-- the byte that `Buffer.from` keeps of it.
pub record Node : Type 0 where
  pub utf8 : Text → Bytes
  pub from_utf8 : Bytes → Text
  pub number_byte : Text → ℕ
  pub from_utf8-utf8 : (t : Text) → IsWellFormed t → from_utf8 (utf8 t) ≡ t
  pub number_byte-decimal : (n : ℕ) → IsByte n → number_byte (decimal n) ≡ n

-- `t.split('.')`
cons_first : ℕ → List Text → List Text
cons_first c [] = (c ∷ []) ∷ []
cons_first c (t ∷ ts) = (c ∷ t) ∷ ts

unfoldable pub split_dots : Text → List Text
unfolding cons_first
split_dots [] = [] ∷ []
split_dots (c ∷ t) = if c == b'.' then [] ∷ split_dots t else cons_first c (split_dots t)

-- A dot in front of which no other stands ends the first part.
pub split_dots-append :
    (s t : Text) → All (λ c. b'.' < c) s → split_dots (s ++ (b'.' ∷ t)) ≡ s ∷ split_dots t
unfolding split_dots
split_dots-append [] t h = refl
split_dots-append (c ∷ s) t h = ground (arith, split_dots-append s t h.1)

pub split_dots_last : (s : Text) → All (λ c. b'.' < c) s → split_dots s ≡ s ∷ []
unfolding split_dots
split_dots_last [] h = refl
split_dots_last (c ∷ s) h = ground (arith, split_dots_last s h.1)

pub decimal_no_dot : (n : ℕ) → All (λ c. b'.' < c) (decimal n)
unfolding decimal
decimal_no_dot n = ground arith

-- `b.toString('hex')`, `Buffer.from(t, 'hex')` (which stops at the first pair that is no byte)
-- and `t.replace(/:/g, '')`.
unfoldable pub hex_digit : ℕ → ℕ
hex_digit x = if ltb x 10 then x + 48 else x + 87

unfoldable pub hex : Bytes → Text
hex [] = []
hex (b ∷ bs) = hex_digit (b / 16) ∷ hex_digit (b % 16) ∷ hex bs

unfoldable pub hex_value : ℕ → Option ℕ
hex_value c =
    if leb b'0' c && leb c b'9'
    then some (c - 48)
    else if leb b'a' c && leb c b'f'
    then some (c - 87)
    else if leb b'A' c && leb c b'F'
    then some (c - 55)
    else none

unfoldable pub from_hex : Text → Bytes
from_hex [] = []
from_hex (c ∷ []) = []
from_hex (c ∷ d ∷ t) = elim (hex_value c) [
  | none ↦ []
  | some x ↦ elim (hex_value d) [ none ↦ [] | some y ↦ (x * 16 + y) ∷ from_hex t ]
]

unfoldable pub strip_colons : Text → Text
strip_colons [] = []
strip_colons (c ∷ t) = let rest = strip_colons t in if c == b':' then rest else c ∷ rest

hex_value-hex_digit : (x : ℕ) → x < 16 → hex_value (hex_digit x) ≡ some x
unfolding hex_value hex_digit
hex_value-hex_digit x h = ground arith

strip_colons-hex : (bs : Bytes) → All IsByte bs → strip_colons (hex bs) ≡ hex bs
unfolding strip_colons hex hex_digit
strip_colons-hex [] h = refl
strip_colons-hex (b ∷ bs) h = ground (arith, strip_colons-hex bs h.1)

from_hex-hex : (bs : Bytes) → All IsByte bs → from_hex (hex bs) ≡ bs
unfolding hex from_hex
from_hex-hex [] h = refl
from_hex-hex (b ∷ bs) h =
    ground (arith, hex_value-hex_digit (b / 16), hex_value-hex_digit (b % 16), from_hex-hex bs h.1)

-- The hexadecimal text of a buffer reads back as the buffer, colons or no colons in between.
pub from_hex-strip_colons-hex : (bs : Bytes) → All IsByte bs → from_hex (strip_colons (hex bs)) ≡ bs
from_hex-strip_colons-hex bs h = rw (strip_colons-hex bs h) (from_hex-hex bs h)

-- Reading inside a buffer, at an offset that is the length of what stands in front.
pub slice-append :
    (pre mid post : Bytes) (from to : ℕ)
    → from ≡ length pre
    → to ≡ length pre + length mid
    → slice (pre ++ (mid ++ post)) from to ≡ mid
slice-append pre mid post from to h k =
    rw (drop-append from pre (mid ++ post) h) (take-append (to - from) mid post (omega arith))

pub read_u16be-append :
    (pre post : Bytes) (hi lo i : ℕ)
    → i ≡ length pre
    → read_u16be (pre ++ (hi ∷ lo ∷ post)) i ≡ some (hi * 256 + lo)
read_u16be-append pre post hi lo i h =
    let second =
      get_elem?-append (i + 1) (pre ++ (hi ∷ [])) lo post
        (omega (arith, length-append pre (hi ∷ []))) in
    let shifted = rw (append_assoc pre (hi ∷ []) (lo ∷ post)) at second in
    rw (get_elem?-append i pre hi (lo ∷ post) h, shifted, read_u16be)
