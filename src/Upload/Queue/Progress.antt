-- ===== src/Upload/Queue/Progress.antt =====
-- No frame is held back: with distinct numbers, the queue delivers all that the uploads allow.
use block_proxy.Common.{
  ℕ, zero, suc, ◌+◌, ◌≤◌, ◌≡◌, ◌≢◌, refl, ap, sym, subst, arith, Bool, true, false, List, [], ◌∷◌,
  length, ltb, ◌==◌, some, inl, inr,
}
use block_proxy.Common.{Option-cases, Bool-cases}
use mathlib.Core.Path.{subst₂}
use native.Mathlib.Decide.{ℕ_discrete}
use block_proxy.Upload.Heap.{Item, heap_shift}
use block_proxy.Upload.Heap.Slots.{one, count}
use block_proxy.Upload.Heap.Up.{IsHeap}
use block_proxy.Upload.Heap.Contents.{
  count-heap_shift, heap_shift-IsHeap, heap_shift_first, heap_shift_empty, length-count,
}
use block_proxy.Upload.Queue.{
  Queue, Payload, Call, pushes, reads, closes, deliver, hand_over, drain,
}
use block_proxy.Upload.Queue.InOrder.{drain_rule, fields-deliver_to}

abbrev pub under : ℕ → Item → Bool
under n x = ltb x.seq n

abbrev pub numbered : ℕ → Item → Bool
numbered n x = x.seq == n

-- How often a number was uploaded.
abbrev pub tally : ℕ → List ℕ → ℕ
tally s [] = 0
tally s (n ∷ ns) = one (n == s) + tally s ns

-- The items under n + 1 are those under n and those numbered n.
pub count-under_suc :
    (n : ℕ) (h : List Item) → count (under (n + 1)) h ≡ count (under n) h + count (numbered n) h
unfolding count
count-under_suc n [] = refl
count-under_suc n (x ∷ h) = ground (arith, count-under_suc n h)

count-under_mono : (m n : ℕ) (h : List Item) → m ≤ n → count (under m) h ≤ count (under n) h
unfolding count
count-under_mono m n [] e = omega arith
count-under_mono m n (x ∷ h) e = ground (arith, count-under_mono m n h e)

abbrev pub Distinct : List ℕ → Type 0
Distinct seen = (s : ℕ) → tally s seen ≤ 1

-- The heap beside the number expected next: in order, nothing that is behind, and every number
-- uploaded (`seen`) is behind or in the heap, and no other.
pub record Tracks (seen : List ℕ) (h : List Item) (n : ℕ) : Type 0 where
  pub ordered : IsHeap h
  pub ahead : count (under n) h ≡ 0
  pub kept : (s : ℕ) → tally s seen ≡ one (ltb s n) + count (numbered s) h

pub hand_over_fields :
    (q : Queue) (p : Payload)
    → ((hand_over q p).heap ≡ q.heap)
      × ((hand_over q p).next_seq ≡ q.next_seq + 1)
      × ((hand_over q p).closed ≡ q.closed)
unfolding hand_over deliver
hand_over_fields q p = let (h, n, c) = fields-deliver_to q.waiters q p in (h, ap (λ k. k + 1) n, c)

module _ (seen : List ℕ) (distinct : Distinct seen) where
  -- The root with the expected number leaves, and the next number is expected.
  take_next :
      (h : List Item) (n : ℕ) (top : Item) (rest : List Item)
      → Tracks seen h n
      → heap_shift h ≡ some (top, rest)
      → top.seq ≡ n
      → Tracks seen rest (n + 1)
  take_next h n top rest t e same =
      let taken = λ (p : Item → Bool). count-heap_shift top rest h p e in
      record {
        ordered = heap_shift-IsHeap top rest h e t.ordered;
        ahead = ground (
          arith,
          count-under_suc n rest,
          taken (under n),
          taken (numbered n),
          t.ahead,
          t.kept n,
          distinct n,
        );
        kept = λ s. ground (arith, t.kept s, taken (numbered s));
      }

  abbrev pub IsTracking : Queue → Type 0
  IsTracking q = Tracks seen q.heap q.next_seq

  round_tracks :
      (q : Queue) (top : Item) (rest : List Item)
      → IsTracking q
      → heap_shift q.heap ≡ some (top, rest)
      → top.seq ≡ q.next_seq
      → IsTracking (hand_over (record q { heap = rest }) top.payload)
  round_tracks q top rest t e same =
      let (h, n, _) = hand_over_fields (record q { heap = rest }) top.payload in
      subst₂ (Tracks seen) (sym h) (sym n) (take_next q.heap q.next_seq top rest t e same)

  pub drain_tracks : (fuel : ℕ) (q : Queue) → IsTracking q → IsTracking (drain fuel q)
  drain_tracks = drain_rule IsTracking round_tracks

-- When _drainHeap is done, the heap is empty or its root has another number than the expected.
abbrev pub HasStopped : Queue → Type 0
HasStopped q =
    (top : Item) (rest : List Item) → heap_shift q.heap ≡ some (top, rest) → top.seq ≢ q.next_seq

shift_shrinks :
    (h : List Item) (top : Item) (rest : List Item)
    → heap_shift h ≡ some (top, rest)
    → length h ≡ length rest + 1
shift_shrinks h top rest e =
    omega (arith, length-count h, length-count rest, count-heap_shift top rest h (λ x. true) e)

pub drain_stops : (fuel : ℕ) (q : Queue) → length q.heap ≤ fuel → HasStopped (drain fuel q)
unfolding drain
drain_stops zero q f = λ top rest e. absurd (omega (arith, shift_shrinks q.heap top rest e))
drain_stops (suc fuel) q f = elim (Option-cases (heap_shift q.heap)) [
  | inl e ↦ rw (e, drain) (λ top rest e'. cc)
  | inr ((top, rest), e) ↦ elim (Bool-cases (top.seq == q.next_seq)) [
    | inl n ↦
        let q' = hand_over (record q { heap = rest }) top.payload in
        let same = (hand_over_fields (record q { heap = rest }) top.payload).0 in
        rw (e, drain)
          (rw n
            (drain_stops fuel q' (omega (arith, ap length same, shift_shrinks q.heap top rest e))))
    | inr n ↦ rw (e, drain) (rw n (other top rest e n))
  ]
]
  where
    other :
        (top : Item) (rest : List Item)
        → heap_shift q.heap ≡ some (top, rest)
        → (top.seq == q.next_seq) ≡ false
        → HasStopped q
    other top rest e n top' rest' e' =
        let same : top ≡ top' = cc in subst (λ (x : Item). x.seq ≢ q.next_seq) same (ground arith)

-- A heap in order whose root has not the expected number holds no item that could leave.
pub stopped_waits :
    (seen : List ℕ) (q : Queue)
    → Tracks seen q.heap q.next_seq
    → HasStopped q
    → count (under (q.next_seq + 1)) q.heap ≡ 0
unfolding count
stopped_waits seen q t stop = elim (Option-cases (heap_shift q.heap)) [
  | inl e ↦ subst (λ h. count (under (q.next_seq + 1)) h ≡ 0) (sym (heap_shift_empty q.heap e)) refl
  | inr ((top, rest), e) ↦
      let taken = count-heap_shift top rest q.heap (under q.next_seq) e in
      let other = stop top rest e in
      let later : q.next_seq + 1 ≤ top.seq = ground (arith, t.ahead) in
      omega (
        arith,
        heap_shift_first top rest q.heap e t.ordered,
        count-under_mono (q.next_seq + 1) top.seq q.heap later,
      )
]

-- While the queue is open: nothing that could be delivered is held back.
pub record Settled (seen : List ℕ) (q : Queue) : Type 0 where
  pub tracks : Tracks seen q.heap q.next_seq
  pub waits : count (under (q.next_seq + 1)) q.heap ≡ 0

abbrev pub IsFine : List ℕ → Queue → Type 0
IsFine seen q = q.closed ≡ false → Settled seen q

-- The history of uploads, with no number uploaded twice.
abbrev pub uploaded : List ℕ → List Call → List ℕ
uploaded seen [] = seen
uploaded seen (pushes seq p ∷ cs) = uploaded (seq ∷ seen) cs
uploaded seen (reads r ∷ cs) = uploaded seen cs
uploaded seen (closes ∷ cs) = uploaded seen cs

abbrev pub Apart : List ℕ → List Call → Type 0
Apart seen [] = Unit {0}
Apart seen (pushes seq p ∷ cs) = (tally seq seen ≡ 0) × Apart (seq ∷ seen) cs
Apart seen (reads r ∷ cs) = Apart seen cs
Apart seen (closes ∷ cs) = Apart seen cs

pub Distinct-cons :
    (seq : ℕ) (seen : List ℕ) → tally seq seen ≡ 0 → Distinct seen → Distinct (seq ∷ seen)
Distinct-cons seq seen e d s = elim (ℕ_discrete seq s) [
  | yes h ↦ ground (arith, subst (λ t. tally t seen ≡ 0) h e)
  | no h ↦ ground (arith, d s)
]
