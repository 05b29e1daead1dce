-- ===== src/Upload/Heap.antt =====
-- The binary heap inside UploadQueue of tunnel/uploadQueue.js.
pub mod Slots
pub mod Up
pub mod Down
pub mod Contents
use block_proxy.Common.{ℕ, zero, suc, ◌+◌, ◌-◌, ◌*◌, ◌/◌, Bool, ◌&&◌, List, [], ◌∷◌, ◌++◌}
use block_proxy.Common.{Option, none, some, length, get_or, set, take, ltb, ◌==◌, if◌then◌else◌}

pub record Item : Type 0 where
  pub seq : ℕ
  pub payload : List ℕ

-- `this._heap[i]`. Every index that the methods below read is under the length (the loops test it),
-- so the item that stands for `undefined` is never seen.
abbrev pub at : List Item → ℕ → Item
at h i = get_or h i (record { seq = 0; payload = [] })

abbrev pub key : List Item → ℕ → ℕ
key h i = (at h i).seq

-- `[h[i], h[j]] = [h[j], h[i]]`
unfoldable pub swap : List Item → ℕ → ℕ → List Item
swap h i j = set (set h i (at h j)) j (at h i)

-- `(i - 1) >> 1`
abbrev pub parent : ℕ → ℕ
parent i = (i - 1) / 2

-- _heapBubbleUp. The index falls in each round, so it is fuel enough.
unfoldable pub bubble_up : ℕ → List Item → ℕ → List Item
bubble_up zero h i = h
bubble_up (suc fuel) h i =
    let rest = bubble_up fuel (swap h i (parent i)) (parent i) in
    if ltb 0 i then (if ltb (key h i) (key h (parent i)) then rest else h) else h

-- The two tests of _heapBubbleDown.
unfoldable pub smallest : List Item → ℕ → ℕ
smallest h i =
    let left = 2 * i + 1 in
    let right = 2 * i + 2 in
    let s = if ltb left (length h) && ltb (key h left) (key h i) then left else i in
    if ltb right (length h) && ltb (key h right) (key h s) then right else s

-- _heapBubbleDown. The index rises in each round and stays under the length.
unfoldable pub bubble_down : ℕ → List Item → ℕ → List Item
bubble_down zero h i = h
bubble_down (suc fuel) h i =
    let s = smallest h i in let rest = bubble_down fuel (swap h i s) s in if s == i then h else rest

-- _heapPush
unfoldable pub heap_push : List Item → Item → List Item
heap_push h x = bubble_up (length h) (h ++ (x ∷ [])) (length h)

-- _heapShift, after `pop` has taken the last item off: it goes to the root, if items are left.
unfoldable pub refill : List Item → Item → List Item
refill [] last = []
refill (x ∷ h) last = bubble_down (suc (length h)) (last ∷ h) 0

-- `none` on the empty heap, where the method returns `undefined`.
unfoldable pub heap_shift : List Item → Option (Item × List Item)
unfolding refill
heap_shift [] = none
heap_shift (x ∷ h) = some (x, refill (take (length h) (x ∷ h)) (at (x ∷ h) (length h)))
