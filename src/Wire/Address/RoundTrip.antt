-- ===== src/Wire/Address/RoundTrip.antt =====
-- Addresses as the tunnel means them, and what encodeAddress and decodeAddress make of them.
use block_proxy.Common.{ℕ, ◌+◌, ◌-◌, ◌≤◌, ◌≡◌, refl, arith}
use block_proxy.Common.{[], ◌∷◌, ◌++◌, some, length, All}
use block_proxy.Common.{ok, take-append}
use block_proxy.Wire.Buffer.{Bytes, Text, IsByte, Node, IsWellFormed, decimal, split_dots, hex}
use block_proxy.Wire.Buffer.{
  split_dots-append, split_dots_last, decimal_no_dot, from_hex-strip_colons-hex,
}
use block_proxy.Wire.Address.{
  Addr, text, octet, dotted, encode_address, decode_address, ipv4, domain, ipv6,
}

pub data WireAddress : Type 0 where
  v4 : ℕ → ℕ → ℕ → ℕ → WireAddress
  name : Text → WireAddress
  v6 : Bytes → WireAddress

abbrev pub atyp_of : WireAddress → ℕ
atyp_of (v4 a b c d) = ipv4
atyp_of (name t) = domain
atyp_of (v6 bs) = ipv6

-- The string that stands for the address in a frame.
abbrev pub addr_of : WireAddress → Addr
addr_of (v4 a b c d) = text (dotted (decimal a) (decimal b) (decimal c) (decimal d))
addr_of (name t) = text t
addr_of (v6 bs) = text (hex bs)

module _ (node : Node) where
  open node use {utf8, number_byte, from_utf8-utf8, number_byte-decimal}

  abbrev pub IsSendable : WireAddress → Type 0
  IsSendable (v4 a b c d) = IsByte a × IsByte b × IsByte c × IsByte d
  IsSendable (name t) = IsWellFormed t × (length (utf8 t) ≤ 255)
  IsSendable (v6 bs) = (length bs ≡ 16) × All IsByte bs

  abbrev pub wire_bytes : WireAddress → Bytes
  wire_bytes (v4 a b c d) = 1 ∷ a ∷ b ∷ c ∷ d ∷ []
  wire_bytes (name t) = 3 ∷ length (utf8 t) ∷ utf8 t
  wire_bytes (v6 bs) = 4 ∷ bs

  split-dotted :
      (a b c d : ℕ)
      → split_dots (dotted (decimal a) (decimal b) (decimal c) (decimal d))
        ≡ decimal a ∷ decimal b ∷ decimal c ∷ decimal d ∷ []
  unfolding dotted
  split-dotted a b c d = rw (
    split_dots-append (decimal a) _ (decimal_no_dot a),
    split_dots-append (decimal b) _ (decimal_no_dot b),
    split_dots-append (decimal c) _ (decimal_no_dot c),
    split_dots_last (decimal d) (decimal_no_dot d),
  )

  pub encode_address-wire :
      (w : WireAddress)
      → IsSendable w
      → encode_address node (atyp_of w) (addr_of w) ≡ ok (wire_bytes w)
  unfolding encode_address
  encode_address-wire (v4 a b c d) h = rw (split-dotted a b c d) (
      ground (
        arith,
        number_byte-decimal a,
        number_byte-decimal b,
        number_byte-decimal c,
        number_byte-decimal d,
      ))
  encode_address-wire (name t) h = ground arith
  encode_address-wire (v6 bs) h = rw (from_hex-strip_colons-hex bs h.1)

  -- What stands behind the address is left alone.
  pub decode_address-wire :
      (w : WireAddress) (x y z : ℕ) (rest : Bytes)
      → IsSendable w
      → decode_address node (x ∷ y ∷ z ∷ (wire_bytes w ++ rest)) 3
        ≡ ok (record {
          atyp = atyp_of w;
          addr = addr_of w;
          bytes_read = some (length (wire_bytes w));
        })
  unfolding decode_address octet
  decode_address-wire (v4 a b c d) x y z rest h = refl
  decode_address-wire (name t) x y z rest h =
      rw (take-append (5 + length (utf8 t) - 5) (utf8 t) rest (omega arith), from_utf8-utf8 t h.0)
        (ground arith)
  decode_address-wire (v6 bs) x y z rest h =
      rw (take-append 16 bs rest (omega arith)) (ground arith)
