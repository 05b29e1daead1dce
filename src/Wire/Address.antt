-- ===== src/Wire/Address.antt =====
-- encodeAddress and decodeAddress of tunnel/protocol.js.
pub mod RoundTrip
use block_proxy.Common.{ℕ, zero, suc, ◌+◌, ◌-◌, ◌*◌, ◌/◌, ◌%◌, ◌≤◌, ◌<◌, ◌≡◌, refl, ap, ◌∙◌, arith}
use block_proxy.Common.{List, [], ◌∷◌, ◌++◌, Option, none, some, Bool, true, false, map}
use block_proxy.Common.{length, take, drop, get_elem?, ltb, leb, ◌==◌, ◌&&◌, if◌then◌else◌, All}
use block_proxy.Common.{Result, ok, err, get_elem?-append, length-append, append_assoc}
use block_proxy.Wire.Buffer.{
  Bytes, Text, IsByte, byte, slice, Node, IsWellFormed, decimal, split_dots, hex, from_hex,
  strip_colons,
}

-- The errors that protocol.js throws, and those that Node throws inside it.
pub data Error : Type 0 where
  unknown_atyp capability_too_long capabilities_too_short capability_overruns : Error
  client_id_too_long client_id_overruns trailing_bytes unknown_type frame_too_large : Error
  buffer_too_short incomplete_header incomplete_frame : Error
  out_of_range type_error : Error

abbrev pub ipv4 : ℕ
ipv4 = 1

abbrev pub domain : ℕ
domain = 3

abbrev pub ipv6 : ℕ
ipv6 = 4

-- The `addr` of a frame: a string, or a buffer.
pub data Addr : Type 0 where
  text : Text → Addr
  raw : Bytes → Addr

-- What decodeAddress returns; a `bytesRead` that is NaN is `none`.
pub record Decoded : Type 0 where
  pub atyp : ℕ
  pub addr : Addr
  pub bytes_read : Option ℕ

-- `${b[i]}`: a missing byte prints as "undefined".
unfoldable pub octet : Option ℕ → Text
octet none = 0x75 ∷ 0x6e ∷ 0x64 ∷ 0x65 ∷ 0x66 ∷ 0x69 ∷ 0x6e ∷ 0x65 ∷ 0x64 ∷ []
octet (some b) = decimal b

unfoldable pub dotted : Text → Text → Text → Text → Text
dotted a b c d = a ++ (b'.' ∷ (b ++ (b'.' ∷ (c ++ (b'.' ∷ d)))))

module _ (node : Node) where
  open node use {utf8, from_utf8, number_byte}

  encode_ipv4 : Addr → Result Error Bytes
  encode_ipv4 (text t) = ok (byte ipv4 ∷ map (λ p. byte (number_byte p)) (split_dots t))
  encode_ipv4 (raw b) = err type_error

  domain_bytes : Addr → Bytes
  domain_bytes (text t) = utf8 t
  domain_bytes (raw b) = b

  ipv6_bytes : Addr → Bytes
  ipv6_bytes (text t) = from_hex (strip_colons t)
  ipv6_bytes (raw b) = b

  unfoldable pub encode_address : ℕ → Addr → Result Error Bytes
  unfolding encode_ipv4 domain_bytes ipv6_bytes
  encode_address atyp addr =
      if atyp == ipv4
      then encode_ipv4 addr
      else if atyp == domain
      then ok (atyp ∷ byte (length (domain_bytes addr)) ∷ domain_bytes addr)
      else if atyp == ipv6
      then ok (atyp ∷ ipv6_bytes addr)
      else err unknown_atyp

  -- With the length byte missing, Node's slice is empty and `bytesRead` is NaN.
  decode_domain : Bytes → ℕ → Decoded
  decode_domain b offset = elim (get_elem? b offset) [
    | none ↦ record { atyp = domain; addr = text (from_utf8 []); bytes_read = none }
    | some len ↦ record {
      atyp = domain;
      addr = text (from_utf8 (slice b (offset + 1) (offset + 1 + len)));
      bytes_read = some (2 + len);
    }
  ]

  decode_at : Bytes → ℕ → ℕ → Result Error Decoded
  unfolding decode_domain
  decode_at b offset atyp =
      if atyp == ipv4
      then ok (record {
        atyp = ipv4;
        addr = text (
            dotted (octet (get_elem? b offset)) (octet (get_elem? b (offset + 1)))
              (octet (get_elem? b (offset + 2))) (octet (get_elem? b (offset + 3))));
        bytes_read = some 5;
      })
      else if atyp == domain
      then ok (decode_domain b offset)
      else if atyp == ipv6
      then ok (record {
        atyp = ipv6;
        addr = text (hex (slice b offset (offset + 16)));
        bytes_read = some 17;
      })
      else err unknown_atyp

  -- A missing type byte ends in a TypeError, in the text of the error thrown.
  unfoldable pub decode_address : Bytes → ℕ → Result Error Decoded
  unfolding decode_at
  decode_address b offset = elim (get_elem? b offset) [
    | none ↦ err type_error
    | some atyp ↦ decode_at b (offset + 1) atyp
  ]
