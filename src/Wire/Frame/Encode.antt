-- ===== src/Wire/Frame/Encode.antt =====
-- encodeFrame of tunnel/protocol.js.
use block_proxy.Common.{ℕ, ◌/◌, ◌%◌}
use block_proxy.Common.{List, [], ◌∷◌, ◌++◌, Option, none, some}
use block_proxy.Common.{length, ltb, if◌then◌else◌}
use block_proxy.Common.{Result, ok, err, ◌>>=◌, ◌>>◌, throw_if}
use block_proxy.Wire.Buffer.{Bytes, Text, byte, u16be, Node}
use block_proxy.Wire.Address.{Error, Addr, encode_address}
use block_proxy.Wire.Address.{client_id_too_long, unknown_type, frame_too_large, out_of_range}
use block_proxy.Wire.Capabilities.{encode_capabilities}
use block_proxy.Wire.Frame.{
  Frame, connect, chunk, close, connect_ok, connect_failed, ping, pong, padding, auth_ok, auth_fail,
  auth, capabilities, error, unknown,
}
use block_proxy.Wire.Frame.{
  connect_type, data_type, close_type, connect_ok_type, ping_type, pong_type, auth_type,
  auth_ok_type, auth_fail_type, error_type, capabilities_type, padding_type, connect_failed_type,
  max_frame_payload,
}

-- `Buffer.from([type, reqid >> 8, reqid & 0xFF])`
abbrev pub tagged : ℕ → ℕ → Bytes
tagged type reqid = byte type ∷ byte (reqid / 256) ∷ reqid % 256 ∷ []

-- `buf.writeUInt16BE(x, 0)` into two bytes: Node throws on a larger number.
unfoldable pub write_u16be : ℕ → Result Error Bytes
write_u16be x = if ltb 0xffff x then err out_of_range else ok (u16be x)

module _ (node : Node) where
  open node use {utf8}

  encode_connect : ℕ → ℕ → Addr → ℕ → Result Error Bytes
  unfolding write_u16be
  encode_connect reqid atyp addr port = do
    a ← encode_address node atyp addr
    p ← write_u16be port
    ok (tagged connect_type reqid ++ (a ++ p))

  -- An empty client id is falsy, and then nothing is written.
  unfoldable pub encode_client_id : Option Text → Result Error Bytes
  encode_client_id none = ok []
  encode_client_id (some []) = ok []
  encode_client_id (some (c ∷ t)) = do
    throw_if (ltb 255 (length (utf8 (c ∷ t)))) client_id_too_long
    ok (byte (length (utf8 (c ∷ t))) ∷ utf8 (c ∷ t))

  encode_auth : Text → Text → List Text → Option Text → Result Error Bytes
  encode_auth username password caps client_id = do
    let u = utf8 username
    let p = utf8 password
    c ← encode_capabilities node caps
    i ← encode_client_id client_id
    ok (auth_type ∷ byte (length u) ∷ (u ++ (byte (length p) ∷ (p ++ (c ++ i)))))

  encode_caps : List Text → Result Error Bytes
  encode_caps caps = do c ← encode_capabilities node caps; ok (capabilities_type ∷ c)

  -- The switch: the payload of the frame.
  unfoldable pub encode_payload : Frame → Result Error Bytes
  unfolding encode_connect encode_auth encode_caps
  encode_payload (connect reqid atyp addr port) = encode_connect reqid atyp addr port
  encode_payload (chunk reqid d) = ok (tagged data_type reqid ++ d)
  encode_payload (close reqid) = ok (tagged close_type reqid)
  encode_payload (connect_ok reqid) = ok (tagged connect_ok_type reqid)
  encode_payload (connect_failed reqid) = ok (tagged connect_failed_type reqid)
  encode_payload (ping p) = ok (ping_type ∷ p)
  encode_payload (pong p) = ok (pong_type ∷ p)
  encode_payload (padding d) = ok (padding_type ∷ d)
  encode_payload auth_ok = ok (auth_ok_type ∷ [])
  encode_payload auth_fail = ok (auth_fail_type ∷ [])
  encode_payload (auth u p caps client_id) = encode_auth u p caps client_id
  encode_payload (capabilities caps) = encode_caps caps
  encode_payload (error m) = ok (error_type ∷ byte (length (utf8 m)) ∷ utf8 m)
  encode_payload (unknown type d) = err unknown_type

  unfoldable pub encode_frame : Frame → Result Error Bytes
  encode_frame f = do
    p ← encode_payload f
    throw_if (ltb max_frame_payload (length p)) frame_too_large
    ok (u16be (length p) ++ p)
