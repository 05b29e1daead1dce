-- ===== src/Wire/Frame/RoundTrip.antt =====
-- encodeFrame then decodeFrame.
use block_proxy.Common.{ℕ, ◌+◌, ◌-◌, ◌*◌, ◌/◌, ◌%◌, ◌≤◌, ◌<◌, ◌≡◌, refl, arith}
use block_proxy.Common.{
  List, [], ◌∷◌, ◌++◌, Option, none, some, length, All, ok, get_elem?_skip, length-append,
}
use block_proxy.Common.{
  append_assoc, append-nil, take-append, drop_skip, ◌≢◌, get_elem?_past, take_all, >>=-eq-ok,
}
use block_proxy.Wire.Buffer.{Bytes, Text, byte, u16be, Node, slice-append, read_u16be-append}
use block_proxy.Wire.Address.RoundTrip.{
  WireAddress, atyp_of, addr_of, IsSendable, wire_bytes, encode_address-wire, decode_address-wire,
}
use block_proxy.Wire.Capabilities.RoundTrip.{
  IsName, item_bytes, encode_capabilities-wire, decode_capabilities-wire,
}
use block_proxy.Wire.Frame.{
  Frame, connect, chunk, close, connect_ok, connect_failed, ping, pong, padding, auth_ok, auth_fail,
  auth, capabilities, error, unknown,
}
use block_proxy.Wire.Frame.{
  connect_type, data_type, close_type, connect_ok_type, ping_type, pong_type, auth_type,
  auth_ok_type, auth_fail_type, error_type, capabilities_type, padding_type, connect_failed_type,
  max_frame_payload,
}
use block_proxy.Wire.Frame.Encode.{encode_payload, encode_frame, encode_client_id, tagged}
use block_proxy.Wire.Frame.Decode.{decode_payload, decode_frame, decode_client_id}

abbrev pub IsU16 : ℕ → Type 0
IsU16 x = x < 65536

module _ (node : Node) where
  open node use {utf8, from_utf8, from_utf8-utf8}

  -- A client id is left out or is no empty text.
  abbrev pub IsClientId : Option Text → Type 0
  IsClientId none = Unit {0}
  IsClientId (some t) = (t ≢ []) × IsName node t

  abbrev pub client_bytes : Option Text → Bytes
  client_bytes none = []
  client_bytes (some t) = length (utf8 t) ∷ utf8 t

  -- The frames that fit the format: numbers in range, texts that UTF-8 can carry, no text longer
  -- than its length byte can tell.
  abbrev pub IsWire : Frame → Type 0
  IsWire (connect reqid atyp addr port) =
      IsU16 reqid
      × IsU16 port
      × ((w : WireAddress) × IsSendable node w × (atyp ≡ atyp_of w) × (addr ≡ addr_of w))
  IsWire (chunk reqid d) = IsU16 reqid
  IsWire (close reqid) = IsU16 reqid
  IsWire (connect_ok reqid) = IsU16 reqid
  IsWire (connect_failed reqid) = IsU16 reqid
  IsWire (auth u p caps client_id) =
      IsName node u
      × IsName node p
      × All (IsName node) caps
      × (length caps ≤ 255)
      × IsClientId client_id
  IsWire (capabilities caps) = All (IsName node) caps × (length caps ≤ 255)
  IsWire (error m) = IsName node m
  IsWire (unknown type d) = ⊥
  IsWire _ = Unit {0}

  -- The payload is written, and reads back as the frame.
  abbrev pub Carries : Frame → Bytes → Type 0
  Carries f p = (encode_payload node f ≡ ok p) × (decode_payload node p ≡ ok f)

  connect-Carries :
      (reqid port : ℕ) (w : WireAddress)
      → IsU16 reqid
      → IsU16 port
      → IsSendable node w
      → Carries
          (connect reqid (atyp_of w) (addr_of w) port)
          (tagged connect_type reqid ++ (wire_bytes node w ++ u16be port))
  unfolding encode_payload decode_payload
  connect-Carries reqid port w hr hp hw =
      let front = tagged connect_type reqid ++ wire_bytes node w in
      let port_read =
        read_u16be-append front [] (port / 256) (port % 256) (3 + length (wire_bytes node w))
          (omega arith) in
      (
        ground (arith, encode_address-wire node w hw),
        ground (
          arith,
          decode_address-wire node w (byte connect_type) (byte (reqid / 256)) (reqid % 256)
              (u16be port) hw,
          port_read,
        ),
      )

  encode_client_id-wire :
      (i : Option Text) → IsClientId i → encode_client_id node i ≡ ok (client_bytes i)
  unfolding encode_client_id
  encode_client_id-wire none h = refl
  encode_client_id-wire (some []) h = absurd (h.0 refl)
  encode_client_id-wire (some (c ∷ t)) h = ground arith

  decode_client_id-wire :
      (i : Option Text) (pre : Bytes)
      → IsClientId i
      → decode_client_id node (pre ++ client_bytes i) (length pre)
        ≡ ok (i, length (pre ++ client_bytes i))
  unfolding decode_client_id
  decode_client_id-wire none pre h =
      rw (append-nil pre) (rw (get_elem?_past (length pre) pre (omega arith), decode_client_id))
  decode_client_id-wire (some t) pre h =
      let bytes = length (utf8 t) ∷ utf8 t in
      let size = length-append pre bytes in
      let from = drop_skip pre bytes (length pre + 1) 1 refl in
      let whole =
        take_all (length pre + 1 + length (utf8 t) - (length pre + 1)) (utf8 t) (omega arith) in
      rw (get_elem?_skip pre bytes (length pre) 0 (omega arith), decode_client_id)
        (rw (from, whole, from_utf8-utf8 t h.1.0) (ground (arith, size)))

  auth-Carries :
      (u p : Text) (caps : List Text) (client_id : Option Text)
      → IsWire (auth u p caps client_id)
      → Carries (auth u p caps client_id) (
          auth_type
          ∷ length (utf8 u)
          ∷ (utf8 u
              ++ (length (utf8 p)
                  ∷ (utf8 p ++ ((length caps ∷ item_bytes node caps) ++ client_bytes client_id)))))
  unfolding encode_payload decode_payload
  auth-Carries u p caps client_id (hu, hp, hc, hn, hi) =
      let U = utf8 u in
      let P = utf8 p in
      let I = client_bytes client_id in
      let C = length caps ∷ item_bytes node caps in
      let front = auth_type ∷ length U ∷ U in
      let behind = length P ∷ (P ++ (C ++ I)) in
      let names = auth_type ∷ length U ∷ (U ++ (length P ∷ P)) in
      let pre = auth_type ∷ length U ∷ (U ++ (length P ∷ (P ++ C))) in
      let c =
        decode_capabilities-wire node caps names I (3 + length U + length P) hc
          (omega (arith, length-append U (length P ∷ P))) in
      let caps_read = rw (append_assoc U (length P ∷ P) (C ++ I)) at c in
      let i = decode_client_id-wire client_id pre hi in
      let client_read = rw (append_assoc U (length P ∷ (P ++ C)) I, append_assoc P C I) at i in
      (
        ground
            (arith, encode_capabilities-wire node caps hc hn, encode_client_id-wire client_id hi),
        ground (
          arith,
          slice-append (auth_type ∷ length U ∷ []) U behind 2 (2 + length U),
          get_elem?_skip front behind (2 + length U) 0,
          drop_skip front behind (3 + length U) 1,
          take-append (3 + length U + length P - (3 + length U)) P (C ++ I),
          from_utf8-utf8 u hu.0,
          from_utf8-utf8 p hp.0,
          caps_read,
          client_read,
          length-append U (length P ∷ (P ++ C)),
          length-append P C,
        ),
      )

  pub encode_payload-Carries : (f : Frame) → IsWire f → (p : Bytes) × Carries f p
  unfolding encode_payload decode_payload
  encode_payload-Carries (connect reqid atyp addr port) (hr, hp, (w, hw, e, k)) = (
    tagged connect_type reqid ++ (wire_bytes node w ++ u16be port),
    rw (e, k) (connect-Carries reqid port w hr hp hw),
  )
  encode_payload-Carries (chunk reqid d) h = (tagged data_type reqid ++ d, (refl, ground arith))
  encode_payload-Carries (close reqid) h = (tagged close_type reqid, (refl, ground arith))
  encode_payload-Carries (connect_ok reqid) h = (tagged connect_ok_type reqid, (refl, ground arith))
  encode_payload-Carries (connect_failed reqid) h =
      (tagged connect_failed_type reqid, (refl, ground arith))
  encode_payload-Carries (ping p) h = (ping_type ∷ p, (refl, refl))
  encode_payload-Carries (pong p) h = (pong_type ∷ p, (refl, refl))
  encode_payload-Carries (padding d) h = (padding_type ∷ d, (refl, refl))
  encode_payload-Carries auth_ok h = (auth_ok_type ∷ [], (refl, refl))
  encode_payload-Carries auth_fail h = (auth_fail_type ∷ [], (refl, refl))
  encode_payload-Carries (auth u p caps client_id) h = (_, auth-Carries u p caps client_id h)
  encode_payload-Carries (capabilities caps) h =
      let c = decode_capabilities-wire node caps (capabilities_type ∷ []) [] 1 h.0 refl in
      let caps_read = rw (append-nil (item_bytes node caps)) at c in
      (
        capabilities_type ∷ length caps ∷ item_bytes node caps,
        (
          ground (arith, encode_capabilities-wire node caps h.0 h.1),
          rw (caps_read, decode_payload),
        ),
      )
  encode_payload-Carries (error m) h = (
    error_type ∷ length (utf8 m) ∷ utf8 m,
    (
      ground arith,
      rw (
        take_all (2 + length (utf8 m) - 2) (utf8 m) (omega arith),
        from_utf8-utf8 m h.0,
        decode_payload,
      ),
    ),
  )
  encode_payload-Carries (unknown type d) h = elim h [ ]

  pub encode_frame-inv :
      (f : Frame) (b : Bytes)
      → encode_frame node f ≡ ok b
      → (p : Bytes) × (encode_payload node f ≡ ok p)
        × (length p ≤ max_frame_payload)
        × (b ≡ u16be (length p) ++ p)
  unfolding encode_frame
  encode_frame-inv f b e =
      let (p, q, r) = >>=-eq-ok (encode_payload node f) _ e in (p, q, ground arith, ground arith)

  -- A frame is read by its length prefix: the payload behind it is decoded, the rest left alone.
  pub decode_frame-framed :
      (f : Frame) (p rest : Bytes)
      → length p ≤ max_frame_payload
      → decode_payload node p ≡ ok f
      → decode_frame node ((u16be (length p) ++ p) ++ rest) ≡ ok (f, length (u16be (length p) ++ p))
  unfolding decode_frame
  decode_frame-framed f p rest h e =
      let size = length-append p rest in
      let len : length p / 256 * 256 + length p % 256 ≡ length p = omega arith in
      let whole = take-append (2 + length p - 2) p rest (omega arith) in
      rw len (ground (arith, size, whole))

  -- For a frame that fits the format, decodeFrame returns the frame that encodeFrame was given and
  -- the length of what it wrote, whatever bytes follow.
  pub decode_frame-encode_frame :
      (f : Frame) (b rest : Bytes)
      → IsWire f
      → encode_frame node f ≡ ok b
      → decode_frame node (b ++ rest) ≡ ok (f, length b)
  decode_frame-encode_frame f b rest h e =
      let (p, q, r, s) = encode_frame-inv f b e in
      let (p', (q', t)) = encode_payload-Carries f h in
      let same : p' ≡ p = cc in
      let read = rw same at t in rw s (decode_frame-framed f p rest r read)

  -- encodeFrame refuses no frame that fits the format and leaves the payload within 65535 bytes.
  pub encode_frame_total :
      (f : Frame)
      → IsWire f
      → (p : Bytes) × (encode_payload node f ≡ ok p)
        × (length p ≤ max_frame_payload → encode_frame node f ≡ ok (u16be (length p) ++ p))
  unfolding encode_frame
  encode_frame_total f h = let (p, (q, t)) = encode_payload-Carries f h in (p, q, λ r. ground arith)
