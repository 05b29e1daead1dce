-- ===== src/Socks/Udp.antt =====
-- The UDP relay of socks5/server.js: frames of the client's socket, each with a datagram.
pub mod Chunks
use block_proxy.Common.{
  ℕ, zero, suc, ◌+◌, ◌-◌, ◌*◌, ◌%◌, Bool, true, false, ◌&&◌, ◌||◌, not, List, [], ◌∷◌, ◌++◌, Option,
  none, some, length, get_elem?, take, drop, ltb, leb, ◌==◌, if◌then◌else◌,
}
use block_proxy.Wire.Buffer.{Bytes, Text, Node, slice, read_u16be, u16be, split_dots}
use block_proxy.Xhttp.Routes.{unsigned}
use block_proxy.Socks.Address.{dotted_bytes, udp_ipv6_host}
use block_proxy.Socks.State.{Datagram, Client, write, destroy}

-- What `udpSocket.send` is called with: not for an empty content.
unfoldable pub datagram : Text → Option ℕ → Bytes → Option Datagram
datagram host none content = none
datagram host (some port) [] = none
datagram host (some port) (b ∷ content) =
    some (record { host = host; port = port; content = b ∷ content })

module _ (node : Node) where
  open node use {from_utf8}

  unfoldable pub domain_payload : Bytes → Option ℕ → Option Datagram
  domain_payload p none = none
  domain_payload p (some len) =
      if ltb (length p) (5 + len + 2)
      then none
      else datagram (from_utf8 (slice p 5 (5 + len))) (read_u16be p (5 + len))
          (drop (5 + len + 2) p)

  unfoldable pub typed_payload : Bytes → ℕ → Option Datagram
  typed_payload p atyp =
      if atyp == 1
      then datagram (dotted_bytes (slice p 4 8)) (read_u16be p 8) (drop 10 p)
      else if atyp == 3
      then domain_payload p (get_elem? p 4)
      else if (atyp == 4) && leb 22 (length p)
      then datagram (udp_ipv6_host (slice p 4 20)) (read_u16be p 20) (drop 22 p)
      else none

  -- A payload: two reserved bytes, the fragment, all 0, then the address and the content.
  unfoldable pub payload_datagram : Bytes → Option Datagram
  payload_datagram (a ∷ b ∷ c ∷ atyp ∷ p) =
      if leb 10 (length (a ∷ b ∷ c ∷ atyp ∷ p)) && ((a == 0) && ((b == 0) && (c == 0)))
      then typed_payload (a ∷ b ∷ c ∷ atyp ∷ p) atyp
      else none
  payload_datagram _ = none

  abbrev pub to_list : Option Datagram → List Datagram
  to_list none = []
  to_list (some d) = d ∷ []

-- One round of the `while`: it waits for more bytes, gives the connection up at the length 0, or
-- cuts a payload off.
pub data Round : Type 0 where
  waits gives_up : Round
  cuts : Bytes → Bytes → Round

unfoldable pub round_of : Bytes → Round
round_of (hi ∷ lo ∷ b) =
    let size = hi * 256 + lo in
    if size == 0
    then gives_up
    else if ltb (length b) size
    then waits
    else cuts (take size b) (drop size b)
round_of _ = waits

module _ (node : Node) where
  -- The loop; each round takes a byte at least. The result: the bytes left, the datagrams, and
  -- whether the socket was destroyed.
  unfoldable pub rounds : ℕ → Bytes → List Datagram → Bytes × List Datagram × Bool
  rounds zero b sent = (b, sent, false)
  rounds (suc fuel) b sent = elim (round_of b) [
    | waits ↦ (b, sent, false)
    | gives_up ↦ (b, sent, true)
    | cuts p rest ↦ rounds fuel rest (sent ++ to_list node (payload_datagram node p))
  ]

  unfoldable pub take_frames : Bytes → List Datagram → Bytes × List Datagram × Bool
  take_frames b sent = rounds (length b) b sent

  unfoldable pub udp_data : Client → Bytes → Client
  udp_data c b =
      let (rest, sent, gone) = take_frames (c.buffer ++ b) c.sent in
      record c { buffer = rest; sent = sent; destroyed = gone || c.destroyed }

-- 'message' of the UDP socket: the frame that carries it to the client. `parseInt` of the parts of
-- the address; a part that is missing or no number leaves 0.
abbrev pub part_byte : Option Text → ℕ
part_byte none = 0
part_byte (some t) = elim (unsigned t) [ none ↦ 0 | some n ↦ n % 256 ]

unfoldable pub reply_payload : List Text → ℕ → Bytes → Bytes
reply_payload parts port content =
    0
    ∷ 0
    ∷ 0
    ∷ 1
    ∷ part_byte (get_elem? parts 0)
    ∷ part_byte (get_elem? parts 1)
    ∷ part_byte (get_elem? parts 2)
    ∷ part_byte (get_elem? parts 3)
    ∷ (u16be port ++ content)

unfoldable pub reply_frame : Text → ℕ → Bytes → Bytes
reply_frame address port content =
    let payload = reply_payload (split_dots address) port content in
    u16be (length payload) ++ payload

unfoldable pub udp_message : Client → Text → ℕ → Bytes → Client
udp_message c address port content =
    if c.destroyed then c else write c (reply_frame address port content)
