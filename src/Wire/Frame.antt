-- ===== src/Wire/Frame.antt =====
-- The frames of tunnel/protocol.js: FRAME_TYPES and the objects that encodeFrame takes.
pub mod Encode
pub mod Decode
pub mod RoundTrip
pub mod Stream
pub mod Limits
use block_proxy.Common.{ℕ, ◌-◌, List, Option}
use block_proxy.Wire.Buffer.{Bytes, Text}
use block_proxy.Wire.Address.{Addr}

-- A frame by its type, with the fields that the code sets or reads for it: the request id, the
-- address type, the address and the port of a CONNECT, and so on. An absent `payload` or `data` is
-- an empty buffer, an absent `clientId` is `none`; `unknown` is any other type, or none at all.
pub data Frame : Type 0 where
  connect : ℕ → ℕ → Addr → ℕ → Frame
  chunk : ℕ → Bytes → Frame
  close connect_ok connect_failed : ℕ → Frame
  ping pong padding : Bytes → Frame
  auth_ok auth_fail : Frame
  auth : Text → Text → List Text → Option Text → Frame
  capabilities : List Text → Frame
  error : Text → Frame
  unknown : Option ℕ → Bytes → Frame

abbrev pub connect_type : ℕ
connect_type = 0x01

abbrev pub data_type : ℕ
data_type = 0x02

abbrev pub close_type : ℕ
close_type = 0x03

abbrev pub connect_ok_type : ℕ
connect_ok_type = 0x04

abbrev pub ping_type : ℕ
ping_type = 0x10

abbrev pub pong_type : ℕ
pong_type = 0x11

abbrev pub auth_type : ℕ
auth_type = 0x20

abbrev pub auth_ok_type : ℕ
auth_ok_type = 0x21

abbrev pub auth_fail_type : ℕ
auth_fail_type = 0x22

abbrev pub error_type : ℕ
error_type = 0x23

abbrev pub capabilities_type : ℕ
capabilities_type = 0x24

abbrev pub padding_type : ℕ
padding_type = 0x30

abbrev pub connect_failed_type : ℕ
connect_failed_type = 0x81

abbrev pub max_frame_payload : ℕ
max_frame_payload = 0xffff

-- MAX_DATA_CHUNK: what a DATA frame holds beside its type and its request id.
abbrev pub max_data_chunk : ℕ
max_data_chunk = max_frame_payload - 3
