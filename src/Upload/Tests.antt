-- ===== src/Upload/Tests.antt =====
-- The upload queue of tunnel/uploadQueue.js at concrete histories.
use block_proxy.Common.{ℕ, ◌<◌, ◌≡◌, refl, arith, List, [], ◌∷◌, false}
use block_proxy.Upload.Heap.{heap_push, heap_shift, bubble_up, bubble_down, smallest, swap}
use block_proxy.Upload.Queue.{
  Queue, Payload, Call, pushes, reads, new, deliver, deliver_to, hand_over, drain, push, push_ahead,
  read, read_from, step, run, handed,
}
use block_proxy.Upload.Queue.InOrder.{handed-run, sent}
use block_proxy.Upload.Queue.Progress.{tally, uploaded}
use block_proxy.Upload.Queue.Complete.{next_seq-run}
use block_proxy.Upload.Queue.Readers.{line, line-run}
use block_proxy.Upload.Queue.Repeats.{push-IsStale, IsStale}

abbrev frame : ℕ → Payload
frame n = n ∷ 7 ∷ []

-- A reader waits; 2, 1 and 3 arrive before 0, and 1 once more.
abbrev history : List Call
history =
    reads 100
    ∷ pushes 2 (frame 2)
    ∷ pushes 1 (frame 1)
    ∷ pushes 3 (frame 3)
    ∷ pushes 0 (frame 0)
    ∷ pushes 1 (frame 1)
    ∷ reads 101
    ∷ []

history_result : handed (run (new 64) history) ≡ frame 0 ∷ frame 1 ∷ frame 2 ∷ frame 3 ∷ []
unfolding run step new push push_ahead read read_from hand_over deliver deliver_to drain heap_push
    heap_shift bubble_up bubble_down smallest swap
history_result = refl

handed-run_example : handed (run (new 64) history) ≡ sent frame (run (new 64) history).next_seq
handed-run_example = handed-run frame 64 history (refl, (refl, (refl, (refl, (refl, tt)))))

abbrev once : List Call
once = pushes 2 (frame 2) ∷ pushes 0 (frame 0) ∷ reads 100 ∷ []

once_open : (run (new 64) once).closed ≡ false
unfolding run step new push push_ahead read read_from hand_over deliver deliver_to drain heap_push
    heap_shift bubble_up bubble_down smallest swap
once_open = refl

next_seq-run_example :
    ((s : ℕ) → s < (run (new 64) once).next_seq → 0 < tally s (uploaded [] once))
    × (tally (run (new 64) once).next_seq (uploaded [] once) ≡ 0)
next_seq-run_example = next_seq-run 64 once (refl, (refl, tt)) once_open

line-run_example : line (run (new 64) history) ≡ 100 ∷ 101 ∷ []
line-run_example = line-run 64 history

-- 1 arrives twice before 0: the second copy stays in the heap as a stale root.
repeated : Queue
repeated =
    run (new 64)
      (pushes 1 (frame 1) ∷ pushes 1 (frame 1) ∷ pushes 0 (frame 0) ∷ pushes 3 (frame 3) ∷ [])

repeated_open : repeated.closed ≡ false
unfolding repeated run step new push push_ahead read read_from hand_over deliver deliver_to drain
    heap_push heap_shift bubble_up bubble_down smallest swap
repeated_open = refl

repeated-IsStale : IsStale repeated
unfolding repeated run step new push push_ahead read read_from hand_over deliver deliver_to drain
    heap_push heap_shift bubble_up bubble_down smallest swap
repeated-IsStale = (
  record { seq = 1; payload = frame 1 },
  record { seq = 3; payload = frame 3 } ∷ [],
  refl,
  omega arith,
)

-- Frame 2 is delivered, frame 3, which has arrived, is not.
push-IsStale_example :
    ((push repeated repeated.next_seq (frame 2)).0 ≡ hand_over repeated (frame 2))
    × IsStale (push repeated repeated.next_seq (frame 2)).0
push-IsStale_example = push-IsStale repeated (frame 2) repeated_open repeated-IsStale
