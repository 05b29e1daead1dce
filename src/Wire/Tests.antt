-- ===== src/Wire/Tests.antt =====
-- The frames of tunnel/protocol.js at concrete inputs, over ASCII texts.
use block_proxy.Common.{
  ℕ, zero, suc, ◌+◌, ◌-◌, ◌*◌, ◌≤◌, ◌≡◌, refl, arith, List, [], ◌∷◌, ◌++◌, some, Result, ok, err,
  take,
}
use block_proxy.Wire.Buffer.{Bytes, Text, IsByte, Node, decimal, well_formed}
use block_proxy.Wire.Address.{
  Error, text, incomplete_frame, client_id_overruns, encode_address, decode_address, dotted, octet,
}
use block_proxy.Wire.Address.RoundTrip.{v4, name, addr_of}
use block_proxy.Wire.Frame.{Frame, connect, ping, error}
use block_proxy.Wire.Frame.Encode.{encode_payload, encode_frame}
use block_proxy.Wire.Frame.Decode.{decode_payload, decode_frame, decode_frames}
use block_proxy.Wire.Frame.RoundTrip.{decode_frame-encode_frame, IsWire}
use block_proxy.Wire.Frame.Stream.{
  decode_frame_truncated, decode_frame_local, decode_frames_total, decode_frames-encode_batch,
  encode_batch,
}
use block_proxy.Wire.Frame.Limits.{decode_frame-error, decode_payload-bare_auth}

abbrev read_decimal : Text → ℕ
read_decimal (a ∷ []) = a - 48
read_decimal (a ∷ b ∷ []) = (a - 48) * 10 + (b - 48)
read_decimal (a ∷ b ∷ c ∷ []) = (a - 48) * 100 + (b - 48) * 10 + (c - 48)
read_decimal t = 0

pub read_decimal-decimal : (n : ℕ) → IsByte n → read_decimal (decimal n) ≡ n
unfolding decimal
read_decimal-decimal n h = ground arith

-- A runtime whose texts are ASCII.
abbrev pub ascii : Node
ascii = record {
  utf8 = λ t. t;
  from_utf8 = λ b. b;
  number_byte = read_decimal;
  from_utf8-utf8 = λ t h. refl;
  number_byte-decimal = read_decimal-decimal;
}

-- "ab.c"
abbrev host : Text
host = 97 ∷ 98 ∷ 46 ∷ 99 ∷ []

abbrev to_host : Frame
to_host = connect 258 3 (text host) 443

abbrev to_host_bytes : Bytes
to_host_bytes = 0 ∷ 11 ∷ 1 ∷ 1 ∷ 2 ∷ 3 ∷ 4 ∷ 97 ∷ 98 ∷ 46 ∷ 99 ∷ 1 ∷ 187 ∷ []

to_host_encoded : encode_frame ascii to_host ≡ ok to_host_bytes
unfolding encode_frame encode_payload encode_address
to_host_encoded = refl

to_host-IsWire : IsWire ascii to_host
unfolding well_formed
to_host-IsWire = (omega arith, omega arith, (name host, (refl, omega arith), refl, refl))

ipv4_round_trip :
    decode_frame ascii (0 ∷ 10 ∷ 1 ∷ 0 ∷ 7 ∷ 1 ∷ 127 ∷ 0 ∷ 0 ∷ 1 ∷ 0 ∷ 80 ∷ [])
    ≡ ok (connect 7 1 (addr_of (v4 127 0 0 1)) 80, 12)
unfolding decode_frame decode_payload decode_address dotted decimal octet
ipv4_round_trip = refl

decode_frame-encode_frame_example :
    decode_frame ascii (to_host_bytes ++ (9 ∷ 9 ∷ [])) ≡ ok (to_host, 13)
decode_frame-encode_frame_example =
    decode_frame-encode_frame ascii to_host to_host_bytes (9 ∷ 9 ∷ []) to_host-IsWire
      to_host_encoded

decode_frame_truncated_example : decode_frame ascii (take 7 to_host_bytes) ≡ err incomplete_frame
decode_frame_truncated_example =
    decode_frame_truncated ascii to_host to_host_bytes 7 to_host_encoded (omega arith)

ping_decoded : decode_frame ascii (0 ∷ 2 ∷ 16 ∷ 5 ∷ []) ≡ ok (ping (5 ∷ []), 4)
unfolding decode_frame decode_payload
ping_decoded = refl

decode_frame_local_example :
    (4 ≤ 4) × (decode_frame ascii ((0 ∷ 2 ∷ 16 ∷ 5 ∷ []) ++ (1 ∷ [])) ≡ ok (ping (5 ∷ []), 4))
decode_frame_local_example =
    decode_frame_local ascii (0 ∷ 2 ∷ 16 ∷ 5 ∷ []) (1 ∷ []) (ping (5 ∷ [])) 4 ping_decoded

decode_frames_total_example :
    (r : Result Error (List Frame)) × (decode_frames ascii (0 ∷ 2 ∷ 16 ∷ []) ≡ some r)
decode_frames_total_example = decode_frames_total ascii (0 ∷ 2 ∷ 16 ∷ [])

abbrev batch_bytes : Bytes
batch_bytes = to_host_bytes ++ (0 ∷ 2 ∷ 16 ∷ 5 ∷ [])

batch_encoded : encode_batch ascii (to_host ∷ ping (5 ∷ []) ∷ []) ≡ ok batch_bytes
unfolding encode_batch encode_frame encode_payload encode_address
batch_encoded = refl

decode_frames-encode_batch_example :
    decode_frames ascii batch_bytes ≡ some (ok (to_host ∷ ping (5 ∷ []) ∷ []))
decode_frames-encode_batch_example =
    decode_frames-encode_batch ascii (to_host ∷ ping (5 ∷ []) ∷ []) batch_bytes
      (to_host-IsWire, (tt, tt)) batch_encoded

-- 300 times the letter a.
letters : ℕ → Text
letters zero = []
letters (suc n) = 97 ∷ letters n

long_encoded : encode_frame ascii (error (letters 300)) ≡ ok (1 ∷ 46 ∷ 0x23 ∷ 44 ∷ letters 300)
unfolding encode_frame encode_payload letters
long_encoded = refl

decode_frame-error_example :
    decode_frame ascii (1 ∷ 46 ∷ 0x23 ∷ 44 ∷ letters 300) ≡ ok (error (letters 44), 304)
unfolding letters
decode_frame-error_example =
    decode_frame-error ascii (letters 300) (1 ∷ 46 ∷ 0x23 ∷ 44 ∷ letters 300) long_encoded

decode_payload-bare_auth_example :
    decode_payload ascii (0x20 ∷ 1 ∷ 117 ∷ 1 ∷ 112 ∷ []) ≡ err client_id_overruns
decode_payload-bare_auth_example =
    decode_payload-bare_auth ascii (117 ∷ []) (112 ∷ []) (omega arith) (omega arith)
