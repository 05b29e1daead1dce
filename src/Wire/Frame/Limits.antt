-- ===== src/Wire/Frame/Limits.antt =====
-- Frames of tunnel/protocol.js outside the format: texts too long for their length byte, and an
-- AUTH frame that ends behind the password.
use block_proxy.Common.{◌+◌, ◌-◌, ◌%◌, ◌<◌, ◌≡◌, refl, arith, some, []}
use block_proxy.Common.{◌∷◌, ◌++◌, length, take, ltb, ◌==◌, if◌then◌else◌, ok, err}
use block_proxy.Common.{
  append-nil, drop_skip, get_elem?_skip, get_elem?_past, take_all, length-append,
}
use block_proxy.Wire.Buffer.{Bytes, Text, Node, slice, slice-append}
use block_proxy.Wire.Address.{client_id_overruns, trailing_bytes}
use block_proxy.Wire.Capabilities.{decode_capabilities}
use block_proxy.Wire.Frame.{auth, error, auth_type, error_type}
use block_proxy.Wire.Frame.Encode.{encode_payload, encode_frame}
use block_proxy.Wire.Frame.Decode.{decode_payload, decode_frame, decode_client_id}
use block_proxy.Wire.Frame.RoundTrip.{encode_frame-inv, decode_frame-framed}

module _ (node : Node) where
  open node use {utf8, from_utf8}

  error_payload :
      (m : Text) → encode_payload node (error m) ≡ ok (error_type ∷ length (utf8 m) % 256 ∷ utf8 m)
  unfolding encode_payload
  error_payload m = refl

  -- The other side reads of an ERROR message as many bytes as its length leaves modulo 256.
  pub decode_frame-error :
      (m : Text) (b : Bytes)
      → encode_frame node (error m) ≡ ok b
      → decode_frame node b
        ≡ ok (error (from_utf8 (take (length (utf8 m) % 256) (utf8 m))), length b)
  unfolding decode_payload
  decode_frame-error m b e =
      let (p, q, r, s) = encode_frame-inv node (error m) b e in
      let same : p ≡ error_type ∷ length (utf8 m) % 256 ∷ utf8 m = cc (error_payload m) in
      let read =
        decode_frame-framed node (error (from_utf8 (take (length (utf8 m) % 256) (utf8 m)))) p [] r
          (rw same (ground arith)) in
      rw s (rw append-nil at read)

  -- An AUTH payload that ends behind the password, as decodeCapabilities allows for: the offset 0
  -- that it returns sends decodeFrame back to the type byte, 32, as the length of a client id.
  pub decode_payload-bare_auth :
      (u p : Bytes)
      → length u < 256
      → length p < 256
      → let b = auth_type ∷ length u ∷ (u ++ (length p ∷ p)) in
        decode_payload node b ≡ (
          if ltb (length b) 33
          then err client_id_overruns
          else if length b == 33
          then ok (auth (from_utf8 u) (from_utf8 p) [] (some (from_utf8 (slice b 1 33))))
          else err trailing_bytes)
  unfolding decode_payload decode_client_id decode_capabilities
  decode_payload-bare_auth u p hu hp =
      let front = auth_type ∷ length u ∷ u in
      let behind = length p ∷ p in
      let size = length-append u (length p ∷ p) in
      ground (
        arith,
        size,
        slice-append (auth_type ∷ length u ∷ []) u behind 2 (2 + length u),
        get_elem?_skip front behind (2 + length u) 0,
        drop_skip front behind (3 + length u) 1,
        take_all (3 + length u + length p - (3 + length u)) p,
        get_elem?_past (3 + length u + length p) (front ++ behind),
      )
