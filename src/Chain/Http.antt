-- ===== src/Chain/Http.antt =====
-- httpConnect of proxy/proxy.js: a CONNECT to an HTTP proxy.
use block_proxy.Common.{
  ℕ, ◌+◌, Bool, false, [], ◌∷◌, ◌++◌, Option, none, some, get_elem?, take, drop, ◌==◌,
  if◌then◌else◌,
}
use block_proxy.Common.Texts.{ascii_text, split_at}
use block_proxy.Wire.Buffer.{Bytes, Text, Node}
use block_proxy.Manager.Forward.{index_of, crlf}
use block_proxy.Xhttp.Routes.{parse_seq}
use block_proxy.Chain.Link.{Stage, waiting, resolved, failed, Link, send, fail, resolve}

-- The status code, `none` for a part that is missing or no number.
unfoldable pub status_code : Text → Option ℕ
status_code answer = elim (index_of answer crlf) [
  | none ↦ none
  | some i ↦ elim (get_elem? (split_at b' ' [] (take i answer)) 1) [
    | none ↦ none
    | some part ↦ parse_seq part
  ]
]

abbrev pub is_ok : Option ℕ → Bool
is_ok none = false
is_ok (some code) = code == 200

-- `base64` is that of Node's buffers, `decimal` prints the port.
module _ (node : Node) (base64 : Bytes → Text) (decimal : ℕ → Text) where
  open node use {utf8, from_utf8}

  unfoldable pub auth_line : Text → Text → Text
  auth_line [] password = []
  auth_line (c ∷ username) password =
      ascii_text "Proxy-Authorization: Basic "
      ++ (base64 (utf8 ((c ∷ username) ++ (b':' ∷ password))) ++ crlf)

  abbrev pub authority : Text → ℕ → Text
  authority host port = host ++ (b':' ∷ decimal port)

  unfoldable pub lines : Text → ℕ → Text → Text → Text
  lines host port username password =
      ascii_text "CONNECT "
      ++ (authority host port
          ++ (ascii_text " HTTP/1.1"
              ++ (crlf
                  ++ (ascii_text "Host: "
                      ++ (authority host port
                          ++ (crlf ++ (auth_line username password ++ crlf)))))))

  -- What stands behind the header is put back, if there is anything.
  unfoldable pub behind : Text → Bytes
  behind [] = []
  behind (c ∷ rest) = utf8 (c ∷ rest)

  unfoldable pub answered : Link → Text → Option ℕ → Link
  answered k text none = record k { buffer = text }
  answered k text (some header_end) =
      if is_ok (status_code text) then resolve k (behind (drop (header_end + 4) text)) else fail k

  -- A chunk, decoded on its own; `buffer` holds the text so far.
  unfoldable pub on_stage : Link → Stage → Bytes → Link
  on_stage k (waiting n) b =
      let text = k.buffer ++ from_utf8 b in answered k text (index_of text (crlf ++ crlf))
  on_stage k resolved b = record k { put_back = k.put_back ++ b }
  on_stage k failed b = k

  unfoldable pub on_data : Link → Bytes → Link
  on_data k b = on_stage k k.stage b

  unfoldable pub http_connect : Text → ℕ → Text → Text → Link
  http_connect host port username password =
      send (record { stage = waiting 0; buffer = []; written = []; put_back = [] })
        (utf8 (lines host port username password))
