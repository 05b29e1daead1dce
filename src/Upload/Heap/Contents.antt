-- ===== src/Upload/Heap/Contents.antt =====
-- What _heapPush and _heapShift keep: the order, and the items.
use block_proxy.Common.{
  ℕ, zero, suc, ◌+◌, ◌≤◌, ◌<◌, ◌≡◌, refl, arith, Bool, true, List, [], ◌∷◌, ◌++◌, length, ltb, take,
  some, none, subst, length-append, length-take,
}
use block_proxy.Upload.Heap.{Item, at, key, parent, heap_push, heap_shift, refill}
use block_proxy.Upload.Heap.Slots.{
  one, count, count-back, count-take, count_none, at-front, at-take,
}
use block_proxy.Upload.Heap.Up.{IsHeap, IsRising, bubble_up-IsHeap, count-bubble_up}
use block_proxy.Upload.Heap.Down.{bubble_down-IsHeap, count-bubble_down}

-- One more item in the array, at its end.
pub back-IsRising : (h : List Item) (x : Item) → IsHeap h → IsRising (h ++ (x ∷ [])) (length h)
back-IsRising h x v =
    let size = length-append h (x ∷ []) in
    record {
      inside = omega arith;
      steps = λ c p q n. ground (arith, size, at-front h x c, at-front h x (parent c), v c);
      across = λ c p q e n. absurd (omega arith);
    }

-- _heapPush adds the item, and the heap stays in order.
pub heap_push-IsHeap : (h : List Item) (x : Item) → IsHeap h → IsHeap (heap_push h x)
unfolding heap_push
heap_push-IsHeap h x v =
    bubble_up-IsHeap (length h) (h ++ (x ∷ [])) (length h) (omega arith) (back-IsRising h x v)

pub count-heap_push :
    (p : Item → Bool) (h : List Item) (x : Item) → count p (heap_push h x) ≡ count p h + one (p x)
unfolding heap_push
count-heap_push p h x = omega (
  arith,
  count-bubble_up p (length h) (h ++ (x ∷ [])) (length h) (omega (arith, length-append h (x ∷ []))),
  count-back p h x,
)

root_least : (k : ℕ) (h : List Item) (i : ℕ) → IsHeap h → i < k → i < length h → key h 0 ≤ key h i
root_least zero h i v f b = absurd (omega arith)
root_least (suc k) h i v f b = ground (arith, v i, root_least k h (parent i) v)

-- No item of a heap comes before the root.
pub root_first :
    (x : Item) (h : List Item) → IsHeap (x ∷ h) → count (λ y. ltb y.seq x.seq) (x ∷ h) ≡ 0
root_first x h v =
    count_none (λ y. ltb y.seq x.seq) (x ∷ h)
      λ i b. ground (arith, root_least (suc i) (x ∷ h) i v (omega arith) b)

-- A new root changes nothing behind it.
at_behind : (a b : Item) (k : List Item) (c : ℕ) → 0 < c → at (a ∷ k) c ≡ at (b ∷ k) c
at_behind a b k zero p = absurd (omega arith)
at_behind a b k (suc c) p = refl

-- What _heapShift hands to `refill`.
abbrev last : Item → List Item → Item
last x h = at (x ∷ h) (length h)

abbrev front : Item → List Item → List Item
front x h = take (length h) (x ∷ h)

pub count-refill :
    (p : Item → Bool) (x : Item) (h : List Item)
    → count p (refill (front x h) (last x h)) + one (p x) ≡ count p (x ∷ h)
unfolding refill count
count-refill p x [] = omega arith
count-refill p x (y ∷ h) =
    let k = take (length h) (y ∷ h) in
    omega (
      arith,
      count-bubble_down p (suc (length k)) (last x (y ∷ h) ∷ k) 0 (omega arith),
      count-take p (length (y ∷ h)) (x ∷ y ∷ h) refl,
    )

pub refill-IsHeap :
    (x : Item) (h : List Item) → IsHeap (x ∷ h) → IsHeap (refill (front x h) (last x h))
unfolding refill
refill-IsHeap x [] v = λ c p q. absurd (omega arith)
refill-IsHeap x (y ∷ h) v =
    let k = take (length h) (y ∷ h) in
    let z = last x (y ∷ h) in
    let size : length k ≡ length h = length-take (length h) (y ∷ h) (omega arith) in
    let look = λ (c : ℕ). at-take (length (y ∷ h)) (x ∷ y ∷ h) c in
    bubble_down-IsHeap (suc (length k)) (z ∷ k) 0 (omega arith) (record {
      inside = omega arith;
      steps = λ c p q n. ground (
        arith,
        size,
        look c,
        look (parent c),
        at_behind z x k c,
        at_behind z x k (parent c),
        v c,
      );
      across = λ c p q e n. absurd (omega arith);
    })

-- _heapShift takes one item out, keeps the order, and no item comes before the one taken.
module _ (top : Item) (rest : List Item) where
  pub count-heap_shift :
      (h : List Item) (p : Item → Bool)
      → heap_shift h ≡ some (top, rest)
      → count p rest + one (p top) ≡ count p h
  unfolding heap_shift
  count-heap_shift [] p e = cc
  count-heap_shift (x ∷ h) p e = ground (arith, count-refill p x h)

  pub heap_shift-IsHeap : (h : List Item) → heap_shift h ≡ some (top, rest) → IsHeap h → IsHeap rest
  unfolding heap_shift
  heap_shift-IsHeap [] e v = cc
  heap_shift-IsHeap (x ∷ h) e v =
      let same : refill (front x h) (last x h) ≡ rest = cc in
      subst IsHeap same (refill-IsHeap x h v)

  pub heap_shift_first :
      (h : List Item)
      → heap_shift h ≡ some (top, rest)
      → IsHeap h
      → count (λ y. ltb y.seq top.seq) h ≡ 0
  unfolding heap_shift
  heap_shift_first [] e v = cc
  heap_shift_first (x ∷ h) e v =
      let same : x ≡ top = cc in
      subst (λ (z : Item). count (λ y. ltb y.seq z.seq) (x ∷ h) ≡ 0) same (root_first x h v)

pub heap_shift_empty : (h : List Item) → heap_shift h ≡ none → h ≡ []
unfolding heap_shift
heap_shift_empty [] e = refl
heap_shift_empty (x ∷ h) e = cc

pub length-count : (h : List Item) → length h ≡ count (λ x. true) h
unfolding count
length-count [] = refl
length-count (x ∷ h) = omega (arith, length-count h)
