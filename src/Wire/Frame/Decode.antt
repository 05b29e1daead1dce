-- ===== src/Wire/Frame/Decode.antt =====
-- decodeFrame and decodeFrames of tunnel/protocol.js.
use block_proxy.Common.{ℕ, zero, suc, ◌+◌, ◌-◌, ◌*◌}
use block_proxy.Common.{List, [], ◌∷◌, ◌++◌, Option, none, some, true, false, not}
use block_proxy.Common.{length, get_elem?, get_or, drop, ltb, ◌==◌, if◌then◌else◌}
use block_proxy.Common.{Result, ok, err, ◌>>=◌, ◌>>◌, throw_if}
use block_proxy.Wire.Buffer.{Bytes, Text, slice, read_u16be, Node}
use block_proxy.Wire.Address.{Error, decode_address}
use block_proxy.Wire.Address.{
  client_id_overruns, trailing_bytes, buffer_too_short, incomplete_header, incomplete_frame,
  out_of_range,
}
use block_proxy.Wire.Capabilities.{decode_capabilities}
use block_proxy.Wire.Frame.{
  Frame, connect, chunk, close, connect_ok, connect_failed, ping, pong, padding, auth_ok, auth_fail,
  auth, capabilities, error, unknown,
}
use block_proxy.Wire.Frame.{
  connect_type, data_type, close_type, connect_ok_type, ping_type, pong_type, auth_type,
  auth_ok_type, auth_fail_type, error_type, capabilities_type, padding_type, connect_failed_type,
}

-- `(payload[1] << 8) | payload[2]`: a byte that is missing counts as 0.
abbrev pub reqid_of : Bytes → ℕ
reqid_of p = get_or p 1 0 * 256 + get_or p 2 0

-- `payload.readUInt16BE(i)`
abbrev or_throw {ℓ} : {A : Type ℓ} → Option A → Error → Result Error A
or_throw none e = err e
or_throw (some a) e = ok a

module _ (node : Node) where
  open node use {from_utf8}

  -- With `bytesRead` NaN the read of the port throws.
  decode_connect : Bytes → Result Error Frame
  decode_connect p = do
    a ← decode_address node p 3
    n ← or_throw a.bytes_read out_of_range
    port ← or_throw (read_u16be p (3 + n)) out_of_range
    ok (connect (reqid_of p) a.atyp a.addr port)

  unfoldable pub decode_client_id : Bytes → ℕ → Result Error (Option Text × ℕ)
  decode_client_id p offset = elim (get_elem? p offset) [
    | none ↦ ok (none, offset)
    | some len ↦
        if ltb (length p) (offset + 1 + len)
        then err client_id_overruns
        else ok (some (from_utf8 (slice p (offset + 1) (offset + 1 + len))), offset + 1 + len)
  ]

  -- A length byte that is missing makes the offset NaN, and no NaN is the end of the payload.
  decode_auth : Bytes → Result Error Frame
  decode_auth p = do
    ulen ← or_throw (get_elem? p 1) trailing_bytes
    let username = from_utf8 (slice p 2 (2 + ulen))
    plen ← or_throw (get_elem? p (2 + ulen)) trailing_bytes
    let password = from_utf8 (slice p (3 + ulen) (3 + ulen + plen))
    (caps, caps_end) ← decode_capabilities node p (3 + ulen + plen)
    (client_id, end) ← decode_client_id p caps_end
    throw_if (not (end == length p)) trailing_bytes
    ok (auth username password caps client_id)

  decode_caps : Bytes → Result Error Frame
  decode_caps p = do (caps, _) ← decode_capabilities node p 1; ok (capabilities caps)

  decode_error : Bytes → Frame
  decode_error p = elim (get_elem? p 1) [
    | none ↦ error (from_utf8 [])
    | some len ↦ error (from_utf8 (slice p 2 (2 + len)))
  ]

  -- The switch of decodeFrame.
  decode_typed : ℕ → Bytes → Result Error Frame
  unfolding decode_connect decode_auth decode_caps decode_error
  decode_typed type p =
      if type == connect_type
      then decode_connect p
      else if type == data_type
      then ok (chunk (reqid_of p) (drop 3 p))
      else if type == close_type
      then ok (close (reqid_of p))
      else if type == connect_ok_type
      then ok (connect_ok (reqid_of p))
      else if type == connect_failed_type
      then ok (connect_failed (reqid_of p))
      else if type == ping_type
      then ok (ping (drop 1 p))
      else if type == pong_type
      then ok (pong (drop 1 p))
      else if type == padding_type
      then ok (padding (drop 1 p))
      else if type == auth_ok_type
      then ok auth_ok
      else if type == auth_fail_type
      then ok auth_fail
      else if type == auth_type
      then decode_auth p
      else if type == capabilities_type
      then decode_caps p
      else if type == error_type
      then ok (decode_error p)
      else ok (unknown (some type) (drop 1 p))

  unfoldable pub decode_payload : Bytes → Result Error Frame
  unfolding decode_typed
  decode_payload [] = ok (unknown none [])
  decode_payload (type ∷ p) = decode_typed type (type ∷ p)

  -- The frame, and the field `bytesRead`.
  unfoldable pub decode_frame : Bytes → Result Error (Frame × ℕ)
  decode_frame b = do
    throw_if (ltb (length b) 2) buffer_too_short
    len ← or_throw (read_u16be b 0) out_of_range
    throw_if (ltb (length b) (2 + len)) incomplete_frame
    f ← decode_payload (slice b 2 (2 + len))
    ok (f, 2 + len)

  -- One round of the loop of decodeFrames at an offset inside the buffer: a frame and its end.
  unfoldable pub next_frame : Bytes → ℕ → Result Error (Frame × ℕ)
  next_frame b offset = do
    throw_if (ltb (length b - offset) 2) incomplete_header
    len ← or_throw (read_u16be b offset) out_of_range
    let end = offset + 2 + len
    throw_if (ltb (length b) end) incomplete_frame
    (f, _) ← decode_frame (slice b offset end)
    ok (f, end)

  -- `none`: the fuel is used up.
  unfoldable pub decode_loop : ℕ → Bytes → ℕ → List Frame → Option (Result Error (List Frame))
  decode_loop zero b offset frames = none
  decode_loop (suc fuel) b offset frames = elim (ltb offset (length b)) [
    | false ↦ some (ok frames)
    | true ↦ elim (next_frame b offset) [
      | err e ↦ some (err e)
      | ok (f, end) ↦ decode_loop fuel b end (frames ++ (f ∷ []))
    ]
  ]

  -- Each round takes two bytes at least, so `length b + 1` rounds are enough.
  unfoldable pub decode_frames : Bytes → Option (Result Error (List Frame))
  decode_frames b = decode_loop (length b + 1) b 0 []
