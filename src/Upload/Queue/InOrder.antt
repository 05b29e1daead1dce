-- ===== src/Upload/Queue/InOrder.antt =====
-- Frames leave the queue in the order of their numbers, each once, however they arrive.
use block_proxy.Common.{
  ℕ, zero, suc, ◌≡◌, refl, ap, sym, ◌∙◌, arith, Bool, true, false, not, List, [], ◌∷◌, ◌++◌, length,
  ltb, leb, ◌==◌, some, none, Option, ◌⊎◌, inl, inr, map,
}
use block_proxy.Common.{
  append_assoc, append-nil, Option-cases, Bool-cases, text_eq, text_eq_refl, text_eq→eq, if_rule,
  ==→eq,
}
use native.Mathlib.Numerals.{add-one}
use mathlib.Core.Path.{ap₂}
use block_proxy.Upload.Heap.{Item, heap_shift}
use block_proxy.Upload.Heap.Slots.{count}
use block_proxy.Upload.Heap.Contents.{count-heap_shift, count-heap_push}
use block_proxy.Upload.Queue.{
  Queue, Payload, Call, pushes, reads, closes, new, deliver, deliver_to, hand_over, drain, close,
  push, push_ahead, read, read_from, step, run, got, handed,
}

-- What holds of a queue and of what one round makes of it holds when _drainHeap is done.
pub drain_rule {ℓ} :
    (P : Queue → Type ℓ)
    → ((q : Queue) (top : Item) (rest : List Item)
        → P q
        → heap_shift q.heap ≡ some (top, rest)
        → top.seq ≡ q.next_seq
        → P (hand_over (record q { heap = rest }) top.payload))
    → (fuel : ℕ) (q : Queue) → P q
    → P (drain fuel q)
unfolding drain
drain_rule P round zero q h = h
drain_rule P round (suc fuel) q h = elim (Option-cases (heap_shift q.heap)) [
  | inl e ↦ rw (e, drain) h
  | inr ((top, rest), e) ↦ elim (Bool-cases (top.seq == q.next_seq)) [
    | inl n ↦
        rw (e, drain)
          (rw n (
            drain_rule P round fuel (hand_over (record q { heap = rest }) top.payload)
              (round q top rest h e (ground arith))))
    | inr n ↦ rw (e, drain) (rw n h)
  ]
]

-- What a delivery leaves alone.
pub fields-deliver_to :
    (ws : List ℕ) (q : Queue) (p : Payload)
    → ((deliver_to ws q p).heap ≡ q.heap)
      × ((deliver_to ws q p).next_seq ≡ q.next_seq)
      × ((deliver_to ws q p).closed ≡ q.closed)
unfolding deliver_to
fields-deliver_to [] q p = (refl, refl, refl)
fields-deliver_to (w ∷ ws) q p = (refl, refl, refl)

module _ (stream : ℕ → Payload) where
  -- The first n payloads of the stream.
  abbrev pub sent : ℕ → List Payload
  sent zero = []
  sent (suc n) = sent n ++ (stream n ∷ [])

  -- An item that carries another payload than the stream has under its number.
  abbrev foreign : Item → Bool
  foreign x = not (text_eq x.payload (stream x.seq))

  pub record Ordered (q : Queue) : Type 0 where
    pub delivered : handed q ≡ sent q.next_seq
    pub genuine : count foreign q.heap ≡ 0
    pub idle : (q.ready ≡ []) ⊎ (q.waiters ≡ [])

  got-append : (a b : List (ℕ × Option Payload)) → got (a ++ b) ≡ got a ++ got b
  got-append [] b = refl
  got-append ((r, some p) ∷ a) b = ap (◌∷◌ p) (got-append a b)
  got-append ((r, none) ∷ a) b = got-append a b

  got_nulls : (ws : List ℕ) → got (map (λ w. (w, none)) ws) ≡ []
  got_nulls [] = refl
  got_nulls (w ∷ ws) = got_nulls ws

  handed-deliver_to :
      (ws : List ℕ) (q : Queue) (p : Payload)
      → (q.ready ≡ []) ⊎ (ws ≡ [])
      → handed (deliver_to ws q p) ≡ handed q ++ (p ∷ [])
  unfolding deliver_to
  handed-deliver_to [] q p i = sym (append_assoc (got q.resolved) q.ready (p ∷ []))
  handed-deliver_to (w ∷ ws) q p (inl e) =
      rw (e, got-append q.resolved ((w, some p) ∷ []), append-nil, append-nil)
  handed-deliver_to (w ∷ ws) q p (inr e) = cc

  idle-deliver_to :
      (ws : List ℕ) (q : Queue) (p : Payload)
      → q.waiters ≡ ws
      → (q.ready ≡ []) ⊎ (ws ≡ [])
      → ((deliver_to ws q p).ready ≡ []) ⊎ ((deliver_to ws q p).waiters ≡ [])
  unfolding deliver_to
  idle-deliver_to [] q p h i = inr h
  idle-deliver_to (w ∷ ws) q p h (inl e) = inl e
  idle-deliver_to (w ∷ ws) q p h (inr e) = cc

  pub hand_over-Ordered :
      (q : Queue) (p : Payload) → Ordered q → p ≡ stream q.next_seq → Ordered (hand_over q p)
  unfolding hand_over deliver
  hand_over-Ordered q p o e =
      let (same_heap, same_next, _) = fields-deliver_to q.waiters q p in
      record {
        delivered =
            rw (same_next, add-one)
              (handed-deliver_to q.waiters q p o.idle ∙ ap₂ (λ a b. a ++ (b ∷ [])) o.delivered e);
        genuine = rw same_heap o.genuine;
        idle = idle-deliver_to q.waiters q p refl o.idle;
      }

  genuine_item : (x : Item) → foreign x ≡ false → x.payload ≡ stream x.seq
  genuine_item x e = text_eq→eq x.payload (stream x.seq) (ground arith)

  round-Ordered :
      (q : Queue) (top : Item) (rest : List Item)
      → Ordered q
      → heap_shift q.heap ≡ some (top, rest)
      → top.seq ≡ q.next_seq
      → Ordered (hand_over (record q { heap = rest }) top.payload)
  round-Ordered q top rest o e n =
      let taken = count-heap_shift top rest q.heap foreign e in
      let own : foreign top ≡ false = ground (arith, taken, o.genuine) in
      hand_over-Ordered (record q { heap = rest }) top.payload
        (record {
          delivered = o.delivered;
          genuine = omega (arith, taken, o.genuine);
          idle = o.idle;
        })
        (genuine_item top own ∙ ap stream n)

  close-Ordered : (q : Queue) → Ordered q → Ordered (close q)
  unfolding close
  close-Ordered q o =
      if_rule Ordered q.closed (λ _. o)
        (λ _. record {
          delivered =
              rw (got-append q.resolved (map (λ w. (w, none)) q.waiters), got_nulls, append-nil)
                o.delivered;
          genuine = unfold count in refl;
          idle = inr refl;
        })

  push_ahead-Ordered :
      (q : Queue) (seq : ℕ) (p : Payload)
      → p ≡ stream seq
      → Ordered q
      → Ordered (push_ahead q seq p).0
  unfolding push_ahead
  push_ahead-Ordered q seq p e o =
      let item : Item = record { seq = seq; payload = p } in
      let own : text_eq p (stream seq) ≡ true = rw e (text_eq_refl (stream seq)) in
      if_rule (λ (r : Queue × Bool). Ordered r.0) (leb q.max_buffered (length q.heap))
        (λ _. close-Ordered q o)
        (λ _. record {
          delivered = o.delivered;
          genuine = ground (arith, own, count-heap_push foreign q.heap item, o.genuine);
          idle = o.idle;
        })

  push-Ordered :
      (q : Queue) (seq : ℕ) (p : Payload) → p ≡ stream seq → Ordered q → Ordered (push q seq p).0
  unfolding push
  push-Ordered q seq p e o =
      if_rule (λ (r : Queue × Bool). Ordered r.0) q.closed (λ _. o)
        λ _.
          if_rule (λ (r : Queue × Bool). Ordered r.0) (ltb seq q.next_seq) (λ _. o)
            λ _.
              if_rule (λ (r : Queue × Bool). Ordered r.0) (seq == q.next_seq)
                (λ n.
                  drain_rule Ordered round-Ordered (length (hand_over q p).heap) (hand_over q p)
                    (hand_over-Ordered q p o (e ∙ ap stream (==→eq seq q.next_seq n))))
                (λ _. push_ahead-Ordered q seq p e o)

  read_from-Ordered :
      (r : List Payload) (q : Queue) (reader : ℕ)
      → q.ready ≡ r
      → Ordered q
      → Ordered (read_from r q reader)
  unfolding read_from
  read_from-Ordered [] q reader e o =
      if_rule Ordered q.closed
        (λ _. record {
          delivered = rw (got-append q.resolved ((reader, none) ∷ []), append-nil) o.delivered;
          genuine = o.genuine;
          idle = o.idle;
        })
        (λ _. record { delivered = o.delivered; genuine = o.genuine; idle = inl e })
  read_from-Ordered (p ∷ r) q reader e o = record {
    delivered =
        rw (got-append q.resolved ((reader, some p) ∷ []), append_assoc)
          (ap (◌++◌ (got q.resolved)) (sym e) ∙ o.delivered);
    genuine = o.genuine;
    idle = ground (arith, o.idle);
  }

  -- Every upload carries the payload that the stream has under its number.
  abbrev pub FromStream : List Call → Type 0
  FromStream [] = Unit {0}
  FromStream (pushes seq p ∷ cs) = (p ≡ stream seq) × FromStream cs
  FromStream (c ∷ cs) = FromStream cs

  run-Ordered : (q : Queue) (cs : List Call) → FromStream cs → Ordered q → Ordered (run q cs)
  unfolding run step read
  run-Ordered q [] f o = o
  run-Ordered q (pushes seq p ∷ cs) f o =
      run-Ordered (push q seq p).0 cs f.1 (push-Ordered q seq p f.0 o)
  run-Ordered q (reads r ∷ cs) f o =
      run-Ordered (read q r) cs f (read_from-Ordered q.ready q r refl o)
  run-Ordered q (closes ∷ cs) f o = run-Ordered (close q) cs f (close-Ordered q o)

  -- After any calls, with uploads in any order and as often as they like, what readers got and what
  -- is ready for them is the beginning of the stream, up to the number that is expected next.
  pub handed-run :
      (max_buffered : ℕ) (cs : List Call)
      → FromStream cs
      → let q = run (new max_buffered) cs in handed q ≡ sent q.next_seq
  handed-run max_buffered cs f = (run-Ordered (new max_buffered) cs f start).delivered
    where
      start : Ordered (new max_buffered)
      start = unfold new count in record { delivered = refl; genuine = refl; idle = inl refl }
