-- ===== src/Upload/Queue/Complete.antt =====
-- What the number expected next says of the uploads.
use block_proxy.Common.{
  ℕ, ◌+◌, ◌<◌, ◌≡◌, refl, sym, ◌∙◌, arith, Bool, true, false, List, [], ◌∷◌, length, ltb, leb, ◌==◌,
}
use block_proxy.Common.{if_rule, ==→eq}
use mathlib.Core.Path.{subst₂}
use mathlib.Core.Bool.{false≢true}
use block_proxy.Upload.Heap.{Item}
use block_proxy.Upload.Heap.Slots.{count}
use block_proxy.Upload.Heap.Contents.{count-heap_push, heap_push-IsHeap}
use block_proxy.Upload.Queue.{
  Queue, Payload, Call, pushes, reads, closes, new, hand_over, drain, close, push, push_ahead, read,
  read_from, step, run,
}
use block_proxy.Upload.Queue.Progress.{
  under, numbered, tally, Distinct, Tracks, Settled, IsFine, hand_over_fields, drain_tracks,
  drain_stops, stopped_waits, uploaded, Apart, Distinct-cons, count-under_suc,
}

close_closes : (q : Queue) → (close q).closed ≡ true
unfolding close
close_closes q = if_rule (λ (r : Queue). r.closed ≡ true) q.closed (λ e. e) (λ _. refl)

module _ (seen : List ℕ) (q : Queue) (seq : ℕ) (p : Payload) (fresh : tally seq seen ≡ 0) where
  -- A frame with a later number goes into the heap, or closes a queue that is full.
  push_ahead-IsFine : Settled seen q → q.next_seq < seq → IsFine (seq ∷ seen) (push_ahead q seq p).0
  unfolding push_ahead
  push_ahead-IsFine v later =
      let item : Item = record { seq = seq; payload = p } in
      let t = v.tracks in
      let added = λ (f : Item → Bool). count-heap_push f q.heap item in
      if_rule (λ (r : Queue × Bool). IsFine (seq ∷ seen) r.0) (leb q.max_buffered (length q.heap))
        (λ _ open_. absurd (false≢true (sym open_ ∙ close_closes q)))
        (λ _ _. record {
          tracks = record {
            ordered = heap_push-IsHeap q.heap item t.ordered;
            ahead = ground (arith, added (under q.next_seq), t.ahead);
            kept = λ s. ground (arith, added (numbered s), t.kept s, t.kept seq);
          };
          waits = ground (arith, added (under (q.next_seq + 1)), v.waits);
        })

  -- The expected frame is delivered, and then all that it held up.
  push_next-IsFine :
      Distinct seen
      → Settled seen q
      → seq ≡ q.next_seq
      → let d = hand_over q p in IsFine (seq ∷ seen) (drain (length d.heap) d)
  push_next-IsFine distinct v same open_ =
      let d = hand_over q p in
      let (h, n, _) = hand_over_fields q p in
      let t = v.tracks in
      let start : Tracks (seq ∷ seen) d.heap d.next_seq =
        subst₂ (Tracks (seq ∷ seen)) (sym h) (sym n) (record {
          ordered = t.ordered;
          ahead = v.waits;
          kept = λ s. ground (arith, t.kept s, t.kept seq);
        }) in
      let done =
        drain_tracks (seq ∷ seen) (Distinct-cons seq seen fresh distinct) (length d.heap) d start in
      record {
        tracks = done;
        waits =
            stopped_waits (seq ∷ seen) (drain (length d.heap) d) done
              (drain_stops (length d.heap) d (omega arith));
      }

  push-IsFine : Distinct seen → IsFine seen q → IsFine (seq ∷ seen) (push q seq p).0
  unfolding push
  push-IsFine distinct v =
      if_rule (λ (r : Queue × Bool). IsFine (seq ∷ seen) r.0) q.closed
        (λ e open_. absurd (false≢true (sym open_ ∙ e)))
        λ e.
          let now = v e in
          if_rule (λ (r : Queue × Bool). IsFine (seq ∷ seen) r.0) (ltb seq q.next_seq)
            (λ old. absurd (ground (arith, now.tracks.kept seq)))
            λ new_.
              if_rule (λ (r : Queue × Bool). IsFine (seq ∷ seen) r.0) (seq == q.next_seq)
                (λ n. push_next-IsFine distinct now (==→eq seq q.next_seq n))
                (λ n. push_ahead-IsFine now (ground arith))

read_from-IsFine :
    (seen : List ℕ) (r : List Payload) (q : Queue) (reader : ℕ)
    → IsFine seen q
    → IsFine seen (read_from r q reader)
unfolding read_from
read_from-IsFine seen [] q reader v =
    if_rule (λ (r : Queue). IsFine seen r) q.closed (λ e open_. absurd (false≢true (sym open_ ∙ e)))
      (λ e _. record { tracks = (v e).tracks; waits = (v e).waits })
read_from-IsFine seen (p ∷ r) q reader v =
    λ open_. record { tracks = (v open_).tracks; waits = (v open_).waits }

run-IsFine :
    (seen : List ℕ) (q : Queue) (cs : List Call)
    → Distinct seen
    → Apart seen cs
    → IsFine seen q
    → IsFine (uploaded seen cs) (run q cs)
unfolding run step read
run-IsFine seen q [] d a v = v
run-IsFine seen q (pushes seq p ∷ cs) d a v =
    run-IsFine (seq ∷ seen) (push q seq p).0 cs (Distinct-cons seq seen a.0 d) a.1
      (push-IsFine seen q seq p a.0 d v)
run-IsFine seen q (reads r ∷ cs) d a v =
    run-IsFine seen (read q r) cs d a (read_from-IsFine seen q.ready q r v)
run-IsFine seen q (closes ∷ cs) d a v =
    run-IsFine seen (close q) cs d a (λ open_. absurd (false≢true (sym open_ ∙ close_closes q)))

-- If no number is uploaded twice and the queue has not overflowed, the number expected next is the
-- least that was not uploaded: no frame waits whose predecessors have all arrived.
pub next_seq-run :
    (max_buffered : ℕ) (cs : List Call)
    → Apart [] cs
    → let q = run (new max_buffered) cs in
      q.closed ≡ false
      → ((s : ℕ) → s < q.next_seq → 0 < tally s (uploaded [] cs))
        × (tally q.next_seq (uploaded [] cs) ≡ 0)
next_seq-run max_buffered cs a open_ =
    let q = run (new max_buffered) cs in
    let v = run-IsFine [] (new max_buffered) cs (λ s. omega arith) a start open_ in
    let n = q.next_seq in
    (
      λ s h. ground (arith, v.tracks.kept s),
      ground (arith, v.tracks.kept n, count-under_suc n q.heap, v.waits),
    )
  where
    start : IsFine [] (new max_buffered)
    start _ =
        unfold new count in
        record {
          tracks = record {
            ordered = λ c p q. absurd (omega arith);
            ahead = refl;
            kept = λ s. ground arith;
          };
          waits = refl;
        }
