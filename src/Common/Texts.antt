-- ===== src/Common/Texts.antt =====
-- Texts as lists of codes: literals, and the searches and cuts of JavaScript's strings.
use Prim.Native.Char.{code}
use Prim.Native.Nat.{ℕ, ◌+◌, ◌-◌}
use Prim.Native.String.{String}
use native.Mathlib.Omega.{arith}
use mathlib.Core.Path.{◌≡◌, refl, ap}
use mathlib.Core.Bool.{Bool, true, false, ◌&&◌, ◌||◌}
use mathlib.Core.List.{List, [], ◌∷◌, ◌++◌}
use mathlib.Core.Option.{Option, none, some}
use block_proxy.Common.Lists.{length, take, drop, All}
use block_proxy.Common.Tests.{leb, ◌==◌, ==_refl, if◌then◌else◌, text_eq}

-- A literal of ASCII characters.
abbrev pub ascii_text : String → List ℕ
ascii_text String.[] = []
ascii_text (String.◌∷◌ c s) = code c ∷ ascii_text s

-- `t.startsWith(p)`, `t.endsWith(p)`
unfoldable pub has_prefix : List ℕ → List ℕ → Bool
has_prefix t p = text_eq (take (length p) t) p

unfoldable pub has_suffix : List ℕ → List ℕ → Bool
has_suffix t p = leb (length p) (length t) && text_eq (drop (length t - length p) t) p

-- `t.includes(p)`
unfoldable pub includes : List ℕ → List ℕ → Bool
includes [] p = text_eq [] p
includes (c ∷ t) p = let later = includes t p in if has_prefix (c ∷ t) p then true else later

-- `t.indexOf(c)` and `t.lastIndexOf(c)` for one character.
unfoldable pub index_of_char : List ℕ → ℕ → Option ℕ
index_of_char [] c = none
index_of_char (d ∷ t) c =
    let later = elim (index_of_char t c) as (λ _. Option ℕ) [
      | none ↦ none
      | some i ↦ some (i + 1)
    ] in
    if d == c then some 0 else later

unfoldable pub last_index_of_char : List ℕ → ℕ → Option ℕ
last_index_of_char [] c = none
last_index_of_char (d ∷ t) c = elim (last_index_of_char t c) [
  | none ↦ if d == c then some 0 else none
  | some i ↦ some (i + 1)
]

-- `t.toLowerCase()`, for the letters of ASCII.
abbrev pub lower : ℕ → ℕ
lower c = if leb 65 c && leb c 90 then c + 32 else c

unfoldable pub to_lower : List ℕ → List ℕ
to_lower [] = []
to_lower (c ∷ t) = lower c ∷ to_lower t

-- `[0-9a-f]`
abbrev pub is_hex : ℕ → Bool
is_hex c = (leb b'0' c && leb c b'9') || (leb b'a' c && leb c b'f')

-- `t.split(c)` for one character.
unfoldable pub split_at : ℕ → List ℕ → List ℕ → List (List ℕ)
split_at sep seen [] = seen ∷ []
split_at sep seen (c ∷ t) =
    let ends = c == sep in
    let rest = split_at sep (if ends then [] else seen ++ (c ∷ [])) t in
    if ends then seen ∷ rest else rest

-- `ts.join(sep)`
unfoldable pub join : List ℕ → List (List ℕ) → List ℕ
join sep [] = []
join sep (t ∷ []) = t
join sep (t ∷ u ∷ ts) = t ++ (sep ++ join sep (u ∷ ts))

-- A text without the character, and where the character is found in front of or behind one.
abbrev pub IsFree : ℕ → List ℕ → Type 0
IsFree c t = All (λ d. (d == c) ≡ false) t

pub index_of_char-append :
    (s t : List ℕ) (c : ℕ) → IsFree c s → index_of_char (s ++ (c ∷ t)) c ≡ some (length s)
unfolding index_of_char
index_of_char-append [] t c h = rw (==_refl c) refl
index_of_char-append (d ∷ s) t c h =
    rw (h.0, index_of_char-append s t c h.1) (ap some (omega arith))

pub last_index_of_char-none : (t : List ℕ) (c : ℕ) → IsFree c t → last_index_of_char t c ≡ none
unfolding last_index_of_char
last_index_of_char-none [] c h = refl
last_index_of_char-none (d ∷ t) c h = rw (last_index_of_char-none t c h.1, h.0) refl

pub last_index_of_char-append :
    (s t : List ℕ) (c : ℕ) → IsFree c t → last_index_of_char (s ++ (c ∷ t)) c ≡ some (length s)
unfolding last_index_of_char
last_index_of_char-append [] t c h = rw (last_index_of_char-none t c h, ==_refl c) refl
last_index_of_char-append (d ∷ s) t c h =
    rw (last_index_of_char-append s t c h) (ap some (omega arith))
