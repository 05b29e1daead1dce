-- ===== src/Socks/Address.antt =====
-- parseAddress of socks5/server.js, the addresses of its UDP frames, and sendResponse.
use block_proxy.Common.{
  ℕ, ◌+◌, ◌/◌, ◌%◌, Bool, true, false, ◌&&◌, ◌||◌, [], ◌∷◌, ◌++◌, map, Option, none, some, Result,
  ok, err, get_elem?, ◌==◌, if◌then◌else◌,
}
use block_proxy.Common.Texts.{is_hex, join}
use block_proxy.Wire.Buffer.{Bytes, Text, Node, slice, read_u16be, u16be, decimal, hex_digit}

pub record Target : Type 0 where
  pub host : Text
  pub port : ℕ
  pub next_offset : ℕ

-- A port that lies outside the buffer, or another address type.
pub data AddressError : Type 0 where
  out_of_range unsupported_type : AddressError

-- `bytes.join('.')`
unfoldable pub dotted_bytes : Bytes → Text
dotted_bytes b = join (b'.' ∷ []) (map decimal b)

-- The digits of the bytes, two for each, with a colon in front of every second byte but the first.
unfoldable pub hextets_from : Bool → Bytes → Text
hextets_from odd [] = []
hextets_from false (b ∷ bs) = b':' ∷ hex_digit (b / 16) ∷ hex_digit (b % 16) ∷ hextets_from true bs
hextets_from true (b ∷ bs) = hex_digit (b / 16) ∷ hex_digit (b % 16) ∷ hextets_from false bs

unfoldable pub hextets : Bytes → Text
hextets [] = []
hextets (b ∷ bs) = hex_digit (b / 16) ∷ hex_digit (b % 16) ∷ hextets_from true bs

-- `.replace(/00/g, '0')`
unfoldable pub halve_zeros : Text → Text
halve_zeros [] = []
halve_zeros (c ∷ []) = c ∷ []
halve_zeros (c ∷ d ∷ t) = elim ((c == b'0') && (d == b'0')) [
  | true ↦ b'0' ∷ halve_zeros t
  | false ↦ c ∷ halve_zeros (d ∷ t)
]

-- `.replace(/(^|:)0+([0-9a-f]+)/g, '$1$2')`: at the start of a group, zeros that a digit follows.
unfoldable pub strip_zeros : Bool → Text → Text
strip_zeros at_start [] = []
strip_zeros at_start (c ∷ []) = c ∷ []
strip_zeros at_start (c ∷ d ∷ t) =
    let dropped = at_start && ((c == b'0') && is_hex d) in
    let rest = strip_zeros (dropped || (c == b':')) (d ∷ t) in if dropped then rest else c ∷ rest

abbrev pub bracketed : Text → Text
bracketed t = b'[' ∷ (t ++ (b']' ∷ []))

unfoldable pub ipv6_host : Bytes → Text
ipv6_host b = bracketed (strip_zeros true (halve_zeros (hextets b)))

-- The host of a UDP frame, where the first `replace` is missing.
unfoldable pub udp_ipv6_host : Bytes → Text
udp_ipv6_host b = bracketed (strip_zeros true (hextets b))

unfoldable pub with_port : Text → Option ℕ → ℕ → Result AddressError Target
with_port host none next = err out_of_range
with_port host (some port) next = ok (record { host = host; port = port; next_offset = next })

module _ (node : Node) where
  open node use {from_utf8}

  -- A missing length reads as undefined, and the port then lies at no offset.
  unfoldable pub parse_domain : Bytes → ℕ → Option ℕ → Result AddressError Target
  parse_domain b offset none = err out_of_range
  parse_domain b offset (some len) =
      with_port (from_utf8 (slice b (offset + 2) (offset + 2 + len)))
        (read_u16be b (offset + 2 + len)) (offset + 2 + len + 2)

  unfoldable pub parse_typed : Bytes → ℕ → Option ℕ → Result AddressError Target
  parse_typed b offset none = err unsupported_type
  parse_typed b offset (some atyp) =
      if atyp == 1
      then with_port (dotted_bytes (slice b (offset + 1) (offset + 5))) (read_u16be b (offset + 5))
          (offset + 7)
      else if atyp == 3
      then parse_domain b offset (get_elem? b (offset + 1))
      else if atyp == 4
      then with_port (ipv6_host (slice b (offset + 1) (offset + 17))) (read_u16be b (offset + 17))
          (offset + 19)
      else err unsupported_type

  unfoldable pub parse_address : Bytes → ℕ → Result AddressError Target
  parse_address b offset = parse_typed b offset (get_elem? b offset)

-- sendResponse, which is only called for address type 1, with 0.0.0.0 and port 0.
unfoldable pub response : ℕ → Bytes
response status = 5 ∷ status ∷ 0 ∷ 1 ∷ 0 ∷ 0 ∷ 0 ∷ 0 ∷ u16be 0
