-- ===== src/Manager/Chunks.antt =====
-- The loop of _sendData and _sendDataToClient of tunnel/manager.js, which cuts data into DATA frames.
use block_proxy.Common.{
  take-append-drop, ℕ, zero, suc, ◌+◌, ◌-◌, ◌≤◌, ◌<◌, ◌≡◌, refl, ap, sym, ◌∙◌, arith, List, [], ◌∷◌,
  ◌++◌, length, take, drop, map, ltb, if◌then◌else◌,
}
use block_proxy.Common.{
  All, length-take-le, length-drop, Bool-cases, inl, inr, lt→ltb, drop_past, ltb→lt,
}
use block_proxy.Wire.Buffer.{Bytes, slice}
use block_proxy.Wire.Frame.{Frame, chunk, max_data_chunk}

-- `for (offset = 0; offset < data.length; offset += MAX_DATA_CHUNK)`, with fuel for the rounds.
unfoldable pub chunks_from : ℕ → Bytes → ℕ → List Bytes
chunks_from zero d offset = []
chunks_from (suc fuel) d offset =
    let rest = chunks_from fuel d (offset + max_data_chunk) in
    if ltb offset (length d) then slice d offset (offset + max_data_chunk) ∷ rest else []

-- Each round takes a byte at least.
unfoldable pub chunks : Bytes → List Bytes
chunks d = chunks_from (length d) d 0

-- The frames that are sent for the data of a request.
unfoldable pub data_frames : ℕ → Bytes → List Frame
data_frames reqid d = map (chunk reqid) (chunks d)

-- The data of one request among the frames of a batch, put together.
abbrev pub data_of : List Frame → Bytes
data_of [] = []
data_of (chunk reqid d ∷ fs) = d ++ data_of fs
data_of (f ∷ fs) = data_of fs

drop-nil : (n : ℕ) → drop {A = ℕ} n [] ≡ []
drop-nil zero = refl
drop-nil (suc n) = refl

suc_add : (m n : ℕ) → suc (m + n) ≡ suc m + n
suc_add m n = omega arith

add_sub : (m n : ℕ) → m + n - m ≡ n
add_sub m n = omega arith

drop-drop : (m n : ℕ) (d : Bytes) → drop n (drop m d) ≡ drop (m + n) d
drop-drop zero n d = ap (λ k. drop k d) (omega arith)
drop-drop (suc m) n [] = drop-nil n ∙ sym (drop-nil (suc m + n))
drop-drop (suc m) n (x ∷ d) = drop-drop m n d ∙ ap (λ k. drop k (x ∷ d)) (suc_add m n)

chunks_from-data :
    (fuel : ℕ) (d : Bytes) (offset reqid : ℕ)
    → length d ≤ offset + fuel
    → data_of (map (chunk reqid) (chunks_from fuel d offset)) ≡ drop offset d
unfolding chunks_from
chunks_from-data zero d offset reqid h = sym (drop_past offset d (omega arith))
chunks_from-data (suc fuel) d offset reqid h = elim (Bool-cases (ltb offset (length d))) [
  | inl e ↦
      let ih = chunks_from-data fuel d (offset + max_data_chunk) reqid (omega arith) in
      rw (e, ih, sym (drop-drop offset max_data_chunk d), add_sub offset max_data_chunk)
        (take-append-drop max_data_chunk (drop offset d))
  | inr e ↦ rw e (sym (drop_past offset d (ground (arith, lt→ltb offset (length d)))))
]

-- A DATA frame of the request with bytes in it, and no more than a frame can carry.
abbrev pub Fits : ℕ → Frame → Type 0
Fits reqid (chunk r d) = (r ≡ reqid) × (0 < length d) × (length d ≤ max_data_chunk)
Fits reqid _ = ⊥

length-take_pos : (n : ℕ) (d : Bytes) → 0 < n → 0 < length d → 0 < length (take n d)
length-take_pos zero d h k = absurd (omega arith)
length-take_pos (suc n) [] h k = absurd (omega arith)
length-take_pos (suc n) (x ∷ d) h k = omega arith

chunks_from-Fits :
    (fuel : ℕ) (d : Bytes) (offset reqid : ℕ)
    → All (Fits reqid) (map (chunk reqid) (chunks_from fuel d offset))
unfolding chunks_from
chunks_from-Fits zero d offset reqid = tt
chunks_from-Fits (suc fuel) d offset reqid = elim (Bool-cases (ltb offset (length d))) [
  | inl e ↦
      let more = ltb→lt offset (length d) e in
      let left = length-drop offset d in
      rw (e, add_sub offset max_data_chunk)
        (
          (
            refl,
            length-take_pos max_data_chunk (drop offset d) (omega arith) (omega arith),
            length-take-le max_data_chunk (drop offset d),
          ),
          chunks_from-Fits fuel d (offset + max_data_chunk) reqid,
        )
  | inr e ↦ rw e tt
]

-- The DATA frames that are made for one write hold the bytes of that write whole and in order; each
-- has the request id, holds at least a byte and fits the frame's 16-bit length.
pub data_frames-whole :
    (reqid : ℕ) (d : Bytes)
    → (data_of (data_frames reqid d) ≡ d) × All (Fits reqid) (data_frames reqid d)
unfolding data_frames chunks
data_frames-whole reqid d =
    (chunks_from-data (length d) d 0 reqid (omega arith), chunks_from-Fits (length d) d 0 reqid)
