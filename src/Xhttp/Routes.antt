-- ===== src/Xhttp/Routes.antt =====
-- The routing of handleRequest of tunnel/xhttpHandler.js, and the paths that it takes apart.
use block_proxy.Common.{
  ℕ, ◌+◌, ◌-◌, ◌*◌, Bool, ◌&&◌, ◌||◌, List, [], ◌∷◌, ◌++◌, Option, none, some, length, take, drop,
  leb, ◌==◌, if◌then◌else◌, text_eq,
}
use block_proxy.Wire.Buffer.{Text}

-- What a request is for, by its method and the path below the base path.
pub data Route : Type 0 where
  create stream preflight not_found disguise : Route
  close : Text → Route
  upload : Text → Text → Route

unfoldable pub starts_with : Text → Text → Bool
starts_with t prefix = text_eq (take (length prefix) t) prefix

-- `t.split('/')`
unfoldable pub split_from : Text → Text → List Text
split_from seen [] = seen ∷ []
split_from seen (c ∷ t) =
    let ends = c == b'/' in
    let rest = split_from (if ends then [] else seen ++ (c ∷ [])) t in
    if ends then seen ∷ rest else rest

abbrev pub split_slashes : Text → List Text
split_slashes t = split_from [] t

abbrev pub post : Text
post = b'P' ∷ b'O' ∷ b'S' ∷ b'T' ∷ []

abbrev pub get : Text
get = b'G' ∷ b'E' ∷ b'T' ∷ []

abbrev pub options : Text
options = b'O' ∷ b'P' ∷ b'T' ∷ b'I' ∷ b'O' ∷ b'N' ∷ b'S' ∷ []

abbrev pub create_path : Text
create_path = b'/' ∷ b'c' ∷ b'r' ∷ b'e' ∷ b'a' ∷ b't' ∷ b'e' ∷ []

abbrev pub close_path : Text
close_path = b'/' ∷ b'c' ∷ b'l' ∷ b'o' ∷ b's' ∷ b'e' ∷ b'/' ∷ []

abbrev pub upload_path : Text
upload_path = b'/' ∷ b'u' ∷ b'p' ∷ b'l' ∷ b'o' ∷ b'a' ∷ b'd' ∷ b'/' ∷ []

abbrev pub stream_path : Text
stream_path = b'/' ∷ b's' ∷ b't' ∷ b'r' ∷ b'e' ∷ b'a' ∷ b'm' ∷ []

-- `if (sessionId)`: the empty string is no session id.
unfoldable pub close_route : Text → Route
close_route [] = not_found
close_route (c ∷ t) = close (c ∷ t)

unfoldable pub upload_route : List Text → Route
upload_route (session ∷ seq ∷ []) = upload session seq
upload_route _ = not_found

unfoldable pub sub_route : Text → Text → Route
sub_route method sub =
    if text_eq sub create_path && text_eq method post
    then create
    else if starts_with sub close_path && text_eq method post
    then close_route (drop (length close_path) sub)
    else if starts_with sub upload_path && text_eq method post
    then upload_route (split_slashes (drop (length upload_path) sub))
    else if text_eq sub stream_path && text_eq method get
    then stream
    else if text_eq method options
    then preflight
    else disguise

-- `pathname.slice(base.length) || '/'`
unfoldable pub or_root : Text → Text
or_root [] = b'/' ∷ []
or_root (c ∷ t) = c ∷ t

-- handleRequest: `none` where it returns false.
unfoldable pub route : Text → Text → Text → Option Route
route base method path =
    if starts_with path (base ++ (b'/' ∷ [])) || text_eq path base
    then some (sub_route method (or_root (drop (length base) path)))
    else none

abbrev pub is_digit : ℕ → Bool
is_digit c = leb 48 c && leb c 57

-- The digits that `parseInt` reads, as a number; numbers above 2^53 are not rounded here.
unfoldable pub digits_value : ℕ → Text → ℕ
digits_value n [] = n
digits_value n (c ∷ t) =
    let more = digits_value (n * 10 + (c - 48)) t in if is_digit c then more else n

unfoldable pub unsigned : Text → Option ℕ
unsigned [] = none
unsigned (c ∷ t) = if is_digit c then some (digits_value 0 (c ∷ t)) else none

-- White space of JavaScript, for `parseInt` and `trim`.
abbrev pub is_space : ℕ → Bool
is_space c =
    (leb 9 c && leb c 13)
    || (c == 32)
    || (c == 160)
    || (c == 0x1680)
    || (leb 0x2000 c && leb c 0x200a)
    || (c == 0x2028)
    || (c == 0x2029)
    || (c == 0x202f)
    || (c == 0x205f)
    || (c == 0x3000)
    || (c == 0xfeff)

unfoldable pub skip_spaces : Text → Text
skip_spaces [] = []
skip_spaces (c ∷ t) = let rest = skip_spaces t in if is_space c then rest else c ∷ t

-- Of the negative numbers, `seq < 0` lets only -0 pass.
unfoldable pub zero_only : Option ℕ → Option ℕ
zero_only none = none
zero_only (some n) = if n == 0 then some 0 else none

unfoldable pub signed : Text → Option ℕ
signed [] = none
signed (c ∷ t) =
    if c == b'-' then zero_only (unsigned t) else if c == b'+' then unsigned t else unsigned (c ∷ t)

-- `parseInt(seq, 10)`, with `none` for what `isNaN(seq) || seq < 0` refuses.
unfoldable pub parse_seq : Text → Option ℕ
parse_seq t = signed (skip_spaces t)

-- `t.trim()`
unfoldable pub trim_end : Text → Text
trim_end [] = []
trim_end (c ∷ t) = elim (trim_end t) [ [] ↦ if is_space c then [] else c ∷ [] | d ∷ u ↦ c ∷ d ∷ u ]

unfoldable pub trim : Text → Text
trim t = trim_end (skip_spaces t)
