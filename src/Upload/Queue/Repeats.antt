-- ===== src/Upload/Queue/Repeats.antt =====
-- A number that is uploaded twice ahead of its turn.
use block_proxy.Common.{
  ℕ, zero, suc, ◌<◌, ◌≡◌, refl, ap, sym, subst, ◌∙◌, arith, Bool, false, List, length, ltb, ◌==◌,
  some, if_rule,
}
use mathlib.Core.Bool.{false≢true}
use block_proxy.Upload.Heap.{Item, heap_shift}
use block_proxy.Upload.Queue.{Queue, Payload, hand_over, drain, push}
use block_proxy.Upload.Queue.Progress.{hand_over_fields}

-- The root of the heap has a number that is already behind the queue.
abbrev pub IsStale : Queue → Type 0
IsStale q =
    (top : Item) × (rest : List Item) × (heap_shift q.heap ≡ some (top, rest))
    × (top.seq < q.next_seq)

drain_stale : (fuel : ℕ) (q : Queue) → IsStale q → drain fuel q ≡ q
unfolding drain
drain_stale zero q s = refl
drain_stale (suc fuel) q (top, rest, e, b) =
    let other : (top.seq == q.next_seq) ≡ false = ground arith in rw (e, drain) (rw other refl)

hand_over-IsStale : (q : Queue) (p : Payload) → IsStale q → IsStale (hand_over q p)
hand_over-IsStale q p (top, rest, e, b) =
    let (h, n, _) = hand_over_fields q p in (top, rest, ap heap_shift h ∙ e, omega (arith, n))

-- On an open queue whose root is stale, the expected frame is delivered and no other, though the
-- heap may hold the frames that come next; and the root is stale again.
pub push-IsStale :
    (q : Queue) (p : Payload)
    → q.closed ≡ false
    → IsStale q
    → ((push q q.next_seq p).0 ≡ hand_over q p) × IsStale (push q q.next_seq p).0
push-IsStale q p open_ s =
    let only = delivered q p open_ s in (only, subst IsStale (sym only) (hand_over-IsStale q p s))
  where
    delivered :
        (q : Queue) (p : Payload)
        → q.closed ≡ false
        → IsStale q
        → (push q q.next_seq p).0 ≡ hand_over q p
    delivered q p open_ s =
        let Only = λ (r : Queue × Bool). r.0 ≡ hand_over q p in
        unfold push in
        if_rule Only q.closed (λ e. absurd (false≢true (sym open_ ∙ e)))
          λ _.
            if_rule Only (ltb q.next_seq q.next_seq) (λ e. absurd (ground arith))
              λ _.
                if_rule Only (q.next_seq == q.next_seq)
                  (λ _.
                    drain_stale (length (hand_over q p).heap) (hand_over q p)
                      (hand_over-IsStale q p s))
                  (λ e. absurd (ground arith))
