-- ===== src/Upload/Heap/Up.antt =====
-- _heapBubbleUp puts the heap in order.
use block_proxy.Common.{
  ℕ, zero, suc, ◌≤◌, ◌<◌, ◌≡◌, ◌≢◌, refl, arith, Bool, List, length, ltb, Bool-cases, inl, inr,
}
use block_proxy.Upload.Heap.{Item, key, swap, parent, bubble_up}
use block_proxy.Upload.Heap.Slots.{count, at-swap, length-swap, count-swap}

-- No item comes before the item above it.
abbrev pub IsHeap : List Item → Type 0
IsHeap h = (c : ℕ) → 0 < c → c < length h → key h (parent c) ≤ key h c

-- In order but for the step from `i` to the item above, which the items under `i` also respect.
pub record IsRising (h : List Item) (i : ℕ) : Type 0 where
  pub inside : i < length h
  pub steps : (c : ℕ) → 0 < c → c < length h → c ≢ i → key h (parent c) ≤ key h c
  pub across : (c : ℕ) → 0 < c → c < length h → parent c ≡ i → 0 < i → key h (parent i) ≤ key h c

swap-IsRising :
    (h : List Item) (i : ℕ)
    → IsRising h i
    → 0 < i
    → key h i < key h (parent i)
    → IsRising (swap h i (parent i)) (parent i)
swap-IsRising h i r pos below =
    let up : parent i < length h = omega (arith, r.inside) in
    let look = λ (c : ℕ). at-swap h i (parent i) c r.inside up in
    let size = length-swap h i (parent i) in
    record {
      inside = omega arith;
      steps = λ c p q n. ground (arith, look c, look (parent c), size, r.steps c, r.across c);
      across = λ c p q e n.
          ground (arith, look c, look (parent (parent i)), size, r.steps c, r.steps (parent i));
    }

pub bubble_up-IsHeap :
    (fuel : ℕ) (h : List Item) (i : ℕ) → i ≤ fuel → IsRising h i → IsHeap (bubble_up fuel h i)
unfolding bubble_up
bubble_up-IsHeap zero h i f r = λ c p q. r.steps c p q (omega arith)
bubble_up-IsHeap (suc fuel) h i f r =
    let up : parent i < length h = omega (arith, r.inside) in
    elim (Bool-cases (ltb 0 i)) [
      | inr root ↦ rw (root, bubble_up) (λ c p q. r.steps c p q (ground arith))
      | inl inner ↦ elim (Bool-cases (ltb (key h i) (key h (parent i)))) [
        | inl below ↦
            rw (inner, bubble_up)
              (rw below (
                bubble_up-IsHeap fuel (swap h i (parent i)) (parent i) (ground arith)
                  (swap-IsRising h i r (ground arith) (ground arith))))
        | inr settled ↦ rw (inner, bubble_up) (rw settled (λ c p q. ground (arith, r.steps c)))
      ]
    ]

pub count-bubble_up :
    (p : Item → Bool) (fuel : ℕ) (h : List Item) (i : ℕ)
    → i < length h
    → count p (bubble_up fuel h i) ≡ count p h
unfolding bubble_up
count-bubble_up p zero h i b = refl
count-bubble_up p (suc fuel) h i b = ground (
  arith,
  count-bubble_up p fuel (swap h i (parent i)) (parent i),
  length-swap h i (parent i),
  count-swap p h i (parent i),
)
