-- ===== src/Upload/Heap/Slots.antt =====
-- Reads, writes and swaps in the array of the heap, and how often an item is in it.
use block_proxy.Common.{
  ℕ, zero, suc, ◌+◌, ◌<◌, ◌≡◌, refl, arith, Bool, true, false, List, [], ◌∷◌, ◌++◌,
}
use block_proxy.Common.{length, set, take, ◌==◌, if◌then◌else◌, length-set}
use block_proxy.Upload.Heap.{Item, at, swap}

abbrev pub one : Bool → ℕ
one true = 1
one false = 0

-- How many items pass the test.
unfoldable pub count : (Item → Bool) → List Item → ℕ
count p [] = 0
count p (x ∷ h) = one (p x) + count p h

-- The same items, each as often.
abbrev pub Same : List Item → List Item → Type 0
Same h k = (p : Item → Bool) → count p h ≡ count p k

pub at-set :
    (h : List Item) (i j : ℕ) (v : Item)
    → i < length h
    → at (set h i v) j ≡ (if i == j then v else at h j)
at-set [] i j v b = absurd (omega arith)
at-set (x ∷ h) zero zero v b = refl
at-set (x ∷ h) zero (suc j) v b = ground arith
at-set (x ∷ h) (suc i) zero v b = ground arith
at-set (x ∷ h) (suc i) (suc j) v b = ground (arith, at-set h i j v)

pub length-swap : (h : List Item) (i j : ℕ) → length (swap h i j) ≡ length h
unfolding swap
length-swap h i j = simp length-set

pub at-swap :
    (h : List Item) (i j c : ℕ)
    → i < length h
    → j < length h
    → at (swap h i j) c ≡ (if j == c then at h i else if i == c then at h j else at h c)
unfolding swap
at-swap h i j c hi hj =
    ground (
      arith,
      at-set (set h i (at h j)) j c (at h i),
      at-set h i c (at h j),
      length-set h i (at h j),
    )

pub at-front : (h : List Item) (x : Item) (i : ℕ) → i < length h → at (h ++ (x ∷ [])) i ≡ at h i
at-front [] x i b = absurd (omega arith)
at-front (y ∷ h) x zero b = refl
at-front (y ∷ h) x (suc i) b = at-front h x i (omega arith)

pub at-take : (n : ℕ) (h : List Item) (i : ℕ) → i < n → at (take n h) i ≡ at h i
at-take zero h i b = absurd (omega arith)
at-take (suc n) [] i b = refl
at-take (suc n) (x ∷ h) zero b = refl
at-take (suc n) (x ∷ h) (suc i) b = at-take n h i (omega arith)

module _ (p : Item → Bool) where
  -- A write gives up the old item for the new one.
  count-set :
      (h : List Item) (i : ℕ) (v : Item)
      → i < length h
      → count p (set h i v) + one (p (at h i)) ≡ count p h + one (p v)
  unfolding count
  count-set [] i v b = absurd (omega arith)
  count-set (x ∷ h) zero v b = omega arith
  count-set (x ∷ h) (suc i) v b = omega (arith, count-set h i v (omega arith))

  pub count-swap :
      (h : List Item) (i j : ℕ) → i < length h → j < length h → count p (swap h i j) ≡ count p h
  unfolding swap
  count-swap h i j hi hj =
      let kept : at (set h i (at h j)) j ≡ at h j = ground (arith, at-set h i j (at h j)) in
      let size = length-set h i (at h j) in
      let second = rw kept at (count-set (set h i (at h j)) j (at h i) (omega arith)) in
      omega (arith, second, count-set h i (at h j) hi)

  pub count-back : (h : List Item) (x : Item) → count p (h ++ (x ∷ [])) ≡ count p h + one (p x)
  unfolding count
  count-back [] x = omega arith
  count-back (y ∷ h) x = omega (arith, count-back h x)

  pub count-take :
      (n : ℕ) (h : List Item) → length h ≡ suc n → count p (take n h) + one (p (at h n)) ≡ count p h
  unfolding count
  count-take zero (x ∷ []) e = omega arith
  count-take zero (x ∷ y ∷ h) e = absurd (omega arith)
  count-take (suc n) (x ∷ h) e = omega (arith, count-take n h (omega arith))
  count-take n [] e = absurd (omega arith)

  pub count_hit : (h : List Item) (i : ℕ) → i < length h → p (at h i) ≡ true → 0 < count p h
  unfolding count
  count_hit [] i b e = absurd (omega arith)
  count_hit (x ∷ h) zero b e = ground arith
  count_hit (x ∷ h) (suc i) b e = omega (arith, count_hit h i (omega arith) e)

  pub count_none : (h : List Item) → ((i : ℕ) → i < length h → p (at h i) ≡ false) → count p h ≡ 0
  unfolding count
  count_none [] f = refl
  count_none (x ∷ h) f =
      ground (arith, f 0 (omega arith), count_none h (λ i b. f (suc i) (omega arith)))
