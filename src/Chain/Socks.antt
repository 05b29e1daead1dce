-- ===== src/Chain/Socks.antt =====
-- socks5Connect of proxy/proxy.js: a client of SOCKS5, with a user name and a password or without.
use block_proxy.Common.{
  ℕ, zero, suc, ◌+◌, ◌/◌, ◌%◌, ◌&&◌, ◌||◌, not, [], ◌∷◌, ◌++◌, Option, none, some, length,
  get_elem?, drop, leb, ltb, ◌==◌, if◌then◌else◌,
}
use block_proxy.Wire.Buffer.{Bytes, Text, Node}
use block_proxy.Chain.Link.{Stage, waiting, resolved, failed, Link, send, fail, resolve}

-- getSocks5ConnectResponseLength: null, -1 or a length.
pub data ResponseLength : Type 0 where
  incomplete invalid : ResponseLength
  complete : ℕ → ResponseLength

abbrev pub at_least : Bytes → ℕ → ResponseLength
at_least b n = if leb n (length b) then complete n else incomplete

unfoldable pub domain_length : Bytes → Option ℕ → ResponseLength
domain_length b none = incomplete
domain_length b (some len) = at_least b (5 + len + 2)

unfoldable pub get_socks5_connect_response_length : Bytes → ResponseLength
get_socks5_connect_response_length b = elim (get_elem? b 3) [
  | none ↦ incomplete
  | some atyp ↦
      if atyp == 1
      then at_least b 10
      else if atyp == 3
      then domain_length b (get_elem? b 4)
      else if atyp == 4
      then at_least b 22
      else invalid
]

unfoldable pub greeting : Text → Bytes
greeting [] = 5 ∷ 1 ∷ 0 ∷ []
greeting (c ∷ username) = 5 ∷ 2 ∷ 0 ∷ 2 ∷ []

-- `Buffer.alloc` with the lengths in single bytes; the code has refused longer names.
abbrev pub auth_bytes : Bytes → Bytes → Bytes
auth_bytes user password = 1 ∷ length user % 256 ∷ (user ++ (length password % 256 ∷ password))

abbrev pub request_bytes : Bytes → ℕ → Bytes
request_bytes host port =
    5 ∷ 1 ∷ 0 ∷ 3 ∷ length host % 256 ∷ (host ++ (port / 256 % 256 ∷ port % 256 ∷ []))

-- The first two bytes of an answer, if they are there.
abbrev pub two : Bytes → Option (ℕ × ℕ)
two (a ∷ b ∷ rest) = some (a, b)
two _ = none

-- Each step sees the whole buffer.
unfoldable pub connect_response : Link → Bytes → ResponseLength → Link
connect_response k b incomplete = record k { buffer = b }
connect_response k b invalid = fail k
connect_response k b (complete n) = elim (two b) [
  | none ↦ fail k
  | some (version, status) ↦
      if (version == 5) && (status == 0) then resolve k (drop n b) else fail k
]

module _ (node : Node) (target_host : Text) (target_port : ℕ) (username password : Text) where
  open node use {utf8}

  unfoldable pub send_socks5_request : Link → Link
  send_socks5_request k =
      if ltb 255 (length (utf8 target_host))
      then fail k
      else send k (request_bytes (utf8 target_host) target_port)

  unfoldable pub method_chosen : Link → Bytes → Option (ℕ × ℕ) → Link
  method_chosen k b none = record k { buffer = b }
  method_chosen k b (some (version, method)) =
      if not (version == 5) || (method == 255)
      then fail k
      else if method == 2
      then record (send k (auth_bytes (utf8 username) (utf8 password))) {
        stage = waiting 1;
        buffer = [];
      }
      else send_socks5_request (record k { stage = waiting 2; buffer = [] })

  unfoldable pub authenticated : Link → Bytes → Option (ℕ × ℕ) → Link
  authenticated k b none = record k { buffer = b }
  authenticated k b (some (version, status)) =
      if (version == 1) && (status == 0)
      then send_socks5_request (record k { stage = waiting 2; buffer = [] })
      else fail k

  unfoldable pub on_step : Link → ℕ → Bytes → Link
  on_step k zero b = method_chosen k b (two b)
  on_step k (suc zero) b = authenticated k b (two b)
  on_step k (suc (suc zero)) b = connect_response k b (get_socks5_connect_response_length b)
  on_step k (suc (suc (suc n))) b = k

  -- A chunk. Once the promise is resolved, it goes to whoever reads the socket then.
  unfoldable pub on_stage : Link → Stage → Bytes → Link
  on_stage k (waiting n) b = on_step k n (k.buffer ++ b)
  on_stage k resolved b = record k { put_back = k.put_back ++ b }
  on_stage k failed b = k

  unfoldable pub on_data : Link → Bytes → Link
  on_data k b = on_stage k k.stage b

  unfoldable pub socks5_connect : Link
  socks5_connect =
      let started : Link = record { stage = waiting 0; buffer = []; written = []; put_back = [] } in
      if ltb 255 (length (utf8 username)) || ltb 255 (length (utf8 password))
      then fail started
      else send started (greeting username)
