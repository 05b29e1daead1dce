-- ===== src/Wire/Frame/Stream.antt =====
-- decodeFrames on the body of an upload, and what any input makes decodeFrame and decodeFrames do.
use block_proxy.Common.{
  ℕ, zero, suc, ◌+◌, ◌-◌, ◌*◌, ◌/◌, ◌%◌, ◌≤◌, ◌<◌, ◌≡◌, refl, ap, arith, inl, inr,
}
use block_proxy.Common.{
  List, [], ◌∷◌, ◌++◌, some, length, take, All, Result, ok, err, ◌>>=◌, length-append, length-take,
}
use block_proxy.Common.{
  append_assoc, append-nil, Result-cases, Bool-cases, ltb, if◌then◌else◌, take_within, ltb→lt,
  >>=-eq-ok,
}
use block_proxy.Wire.Buffer.{Bytes, Node, u16be, slice-append, read_u16be-append}
use block_proxy.Wire.Address.{Error, buffer_too_short, incomplete_frame}
use block_proxy.Wire.Frame.{Frame, max_frame_payload}
use block_proxy.Wire.Frame.Encode.{encode_frame}
use block_proxy.Wire.Frame.Decode.{decode_frame, next_frame, decode_loop, decode_frames}
use block_proxy.Wire.Frame.RoundTrip.{IsWire, encode_frame-inv, decode_frame-encode_frame}

module _ (node : Node) where
  framed_truncated :
      (p : Bytes) (k : ℕ)
      → length p ≤ max_frame_payload
      → k < 2 + length p
      → decode_frame node (take k (u16be (length p) ++ p))
        ≡ (if ltb k 2 then err buffer_too_short else err incomplete_frame)
  unfolding decode_frame
  framed_truncated p zero r h = refl
  framed_truncated p (suc zero) r h = refl
  framed_truncated p (suc (suc k)) r h = ground (arith, length-take k p)

  -- A frame cut short is never taken for another: the error says what is missing.
  pub decode_frame_truncated :
      (f : Frame) (b : Bytes) (k : ℕ)
      → encode_frame node f ≡ ok b
      → k < length b
      → decode_frame node (take k b)
        ≡ (if ltb k 2 then err buffer_too_short else err incomplete_frame)
  decode_frame_truncated f b k e h =
      let (p, q, r, s) = encode_frame-inv node f b e in
      rw s (framed_truncated p k r (omega (arith, ap length s)))

  -- A frame that is read lies within the buffer, and what follows it plays no part.
  pub decode_frame_local :
      (b rest : Bytes) (f : Frame) (n : ℕ)
      → decode_frame node b ≡ ok (f, n)
      → (n ≤ length b) × (decode_frame node (b ++ rest) ≡ ok (f, n))
  unfolding decode_frame
  decode_frame_local [] rest f n e = absurd (ground arith)
  decode_frame_local (x ∷ []) rest f n e = absurd (ground arith)
  decode_frame_local (hi ∷ lo ∷ c) rest f n e =
      let len = hi * 256 + lo in
      (ground arith, ground (arith, length-append c rest, take_within (2 + len - 2) c rest))

  -- The loop ends on every input: a round moves the offset on by two bytes at least.
  next_frame_moves :
      (b : Bytes) (offset : ℕ) (f : Frame) (end : ℕ)
      → next_frame node b offset ≡ ok (f, end)
      → (offset + 2 ≤ end) × (end ≤ length b)
  unfolding next_frame
  next_frame_moves b offset f end e = ground arith

  decode_loop_total :
      (fuel : ℕ) (b : Bytes) (offset : ℕ) (frames : List Frame)
      → length b - offset < fuel
      → (r : Result Error (List Frame)) × (decode_loop node fuel b offset frames ≡ some r)
  unfolding decode_loop
  decode_loop_total zero b offset frames h = absurd (omega arith)
  decode_loop_total (suc fuel) b offset frames h = elim (Bool-cases (ltb offset (length b))) [
    | inr e ↦ (ok frames, rw (e, decode_loop))
    | inl e ↦ elim (Result-cases (next_frame node b offset)) [
      | inr (x, n) ↦ (err x, rw (e, n, decode_loop))
      | inl ((f, end), n) ↦
          rw (e, n, decode_loop)
            (decode_loop_total fuel b end (frames ++ (f ∷ []))
              (omega (arith, next_frame_moves b offset f end n, ltb→lt offset (length b) e)))
    ]
  ]

  -- On every input the loop of decodeFrames ends, with the frames or with an error.
  pub decode_frames_total :
      (b : Bytes) → (r : Result Error (List Frame)) × (decode_frames node b ≡ some r)
  unfolding decode_frames
  decode_frames_total b = decode_loop_total (length b + 1) b 0 [] (omega arith)

  -- The body of a batch: the frames one after the other.
  unfoldable pub encode_batch : List Frame → Result Error Bytes
  encode_batch [] = ok []
  encode_batch (f ∷ fs) = do b ← encode_frame node f; bs ← encode_batch fs; ok (b ++ bs)

  -- Every frame of the batch has its header, so the batch is longer than what is left of it.
  read_first :
      (f : Frame) (b pre rest : Bytes)
      → IsWire node f
      → encode_frame node f ≡ ok b
      → next_frame node (pre ++ (b ++ rest)) (length pre) ≡ ok (f, length pre + length b)
  unfolding next_frame
  read_first f b pre rest h e =
      let (p, q, r, s) = encode_frame-inv node f b e in
      let hi = length p / 256 in
      let lo = length p % 256 in
      let start = read_u16be-append pre (p ++ rest) hi lo (length pre) refl in
      let size : hi * 256 + lo ≡ length p = omega arith in
      let frame =
        slice-append pre (u16be (length p) ++ p) rest (length pre) (length pre + 2 + length p) refl
          (omega arith) in
      let alone = rw (append-nil b, s) at (decode_frame-encode_frame node f b [] h e) in
      rw s (
        ground (
          arith,
          start,
          size,
          frame,
          alone,
          length-append pre (u16be (length p) ++ (p ++ rest)),
          length-append p rest,
        ))

  encode_frame_size : (f : Frame) (b : Bytes) → encode_frame node f ≡ ok b → 2 ≤ length b
  encode_frame_size f b e =
      let (p, q, r, s) = encode_frame-inv node f b e in omega (arith, ap length s)

  decode_loop-encode_batch :
      (fs : List Frame) (b pre : Bytes) (fuel : ℕ) (seen : List Frame)
      → All (IsWire node) fs
      → encode_batch fs ≡ ok b
      → length b < fuel
      → decode_loop node fuel (pre ++ b) (length pre) seen ≡ some (ok (seen ++ fs))
  unfolding encode_batch decode_loop
  decode_loop-encode_batch fs b pre zero seen h e r = absurd (omega arith)
  decode_loop-encode_batch [] b pre (suc fuel) seen h e r =
      rw append-nil (ground (arith, length-append pre b))
  decode_loop-encode_batch (f ∷ fs) b pre (suc fuel) seen h e r =
      let (c, p, q) = >>=-eq-ok (encode_frame node f) _ e in
      let (d, p', q') = >>=-eq-ok (encode_batch fs) _ q in
      let split : b ≡ c ++ d = cc in
      let more = encode_frame_size f c p in
      let ih =
        decode_loop-encode_batch fs d (pre ++ c) fuel (seen ++ (f ∷ [])) h.1 p'
          (omega (arith, ap length split, length-append c d)) in
      let rest =
        rw (append_assoc pre c d, length-append pre c, append_assoc seen (f ∷ []) fs) at ih in
      rw split (
        ground
          (arith, read_first f c pre d h.0 p, rest, length-append pre (c ++ d), length-append c d))

  -- decodeFrames takes a batch of frames that fit the format apart into those frames, in order.
  pub decode_frames-encode_batch :
      (fs : List Frame) (b : Bytes)
      → All (IsWire node) fs
      → encode_batch fs ≡ ok b
      → decode_frames node b ≡ some (ok fs)
  unfolding decode_frames
  decode_frames-encode_batch fs b h e =
      decode_loop-encode_batch fs b [] (length b + 1) [] h e (omega arith)
