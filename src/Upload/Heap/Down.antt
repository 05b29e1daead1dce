-- ===== src/Upload/Heap/Down.antt =====
-- _heapBubbleDown puts the heap in order.
use block_proxy.Common.{
  ℕ, zero, suc, ◌+◌, ◌*◌, ◌≤◌, ◌<◌, ◌≡◌, ◌≢◌, refl, arith, ◌⊎◌, Bool, List, length, ◌==◌,
  Bool-cases, inl, inr,
}
use block_proxy.Upload.Heap.{Item, key, swap, parent, smallest, bubble_down}
use block_proxy.Upload.Heap.Slots.{count, at-swap, length-swap, count-swap}
use block_proxy.Upload.Heap.Up.{IsHeap}

-- In order but for the steps from `i` down to its children, which also respect the item above `i`.
pub record IsSinking (h : List Item) (i : ℕ) : Type 0 where
  pub inside : i < length h
  pub steps : (c : ℕ) → 0 < c → c < length h → parent c ≢ i → key h (parent c) ≤ key h c
  pub across : (c : ℕ) → 0 < c → c < length h → parent c ≡ i → 0 < i → key h (parent i) ≤ key h c

-- `smallest` stays or goes to a child, and nothing at `i` or right under it comes before it.
record IsLeast (h : List Item) (i s : ℕ) : Type 0 where
  within : s < length h
  near : (s ≢ i) → (0 < s) × (parent s ≡ i) × (key h s < key h i) × (i < s)
  top : key h s ≤ key h i
  under : (c : ℕ) → 0 < c → c < length h → parent c ≡ i → key h s ≤ key h c

two_children : (c i : ℕ) → 0 < c → parent c ≡ i → (c ≡ 2 * i + 1) ⊎ (c ≡ 2 * i + 2)
two_children c i p e = omega arith

smallest-IsLeast : (h : List Item) (i : ℕ) → i < length h → IsLeast h i (smallest h i)
unfolding smallest
smallest-IsLeast h i b = record {
  within = ground arith;
  near = λ n. ground arith;
  top = ground arith;
  under = λ c p q e. elim (two_children c i p e) [ inl l ↦ ground arith | inr r ↦ ground arith ];
}

swap-IsSinking :
    (h : List Item) (i s : ℕ) → IsSinking h i → IsLeast h i s → s ≢ i → IsSinking (swap h i s) s
swap-IsSinking h i s r l n =
    let look = λ (c : ℕ). at-swap h i s c r.inside l.within in
    let size = length-swap h i s in
    let near = l.near n in
    record {
      inside = omega (arith, l.within);
      steps = λ c p q m. ground (
        arith,
        look c,
        look (parent c),
        size,
        near,
        r.steps c,
        r.across c,
        r.across s,
        l.under c,
      );
      across = λ c p q e m. ground (arith, look c, look (parent s), size, near, r.steps c);
    }

pub bubble_down-IsHeap :
    (fuel : ℕ) (h : List Item) (i : ℕ)
    → length h ≤ i + fuel
    → IsSinking h i
    → IsHeap (bubble_down fuel h i)
unfolding bubble_down
bubble_down-IsHeap zero h i f r = absurd (omega (arith, r.inside))
bubble_down-IsHeap (suc fuel) h i f r =
    let s = smallest h i in
    let l = smallest-IsLeast h i r.inside in
    elim (Bool-cases (s == i)) [
      | inl stays ↦ rw (stays, bubble_down) (λ c p q. ground (arith, r.steps c, l.under c))
      | inr moves ↦
          let n : s ≢ i = ground arith in
          rw (moves, bubble_down)
            (bubble_down-IsHeap fuel (swap h i s) s (omega (arith, length-swap h i s, (l.near n).3))
              (swap-IsSinking h i s r l n))
    ]

pub count-bubble_down :
    (p : Item → Bool) (fuel : ℕ) (h : List Item) (i : ℕ)
    → i < length h
    → count p (bubble_down fuel h i) ≡ count p h
unfolding bubble_down
count-bubble_down p zero h i b = refl
count-bubble_down p (suc fuel) h i b =
    let s = smallest h i in
    ground (
      arith,
      count-bubble_down p fuel (swap h i s) s,
      length-swap h i s,
      (smallest-IsLeast h i b).within,
      count-swap p h i s,
    )
