-- ===== src/Upload/Queue.antt =====
-- The class UploadQueue of tunnel/uploadQueue.js.
pub mod InOrder
pub mod Progress
pub mod Complete
pub mod Readers
pub mod Repeats
use block_proxy.Common.{ℕ, zero, suc, ◌+◌, Bool, true, false, List, [], ◌∷◌, ◌++◌, map}
use block_proxy.Common.{Option, none, some, length, ltb, leb, ◌==◌, if◌then◌else◌}
use block_proxy.Upload.Heap.{Item, heap_push, heap_shift}

abbrev pub Payload : Type 0
Payload = List ℕ

-- A reader is the number of its call of `read`. `resolved` is no field of the class: it is the
-- sequence of the promises that were resolved, with `none` for the null of a closed queue.
pub record Queue : Type 0 where
  pub heap : List Item
  pub next_seq : ℕ
  pub ready : List Payload
  pub waiters : List ℕ
  pub closed : Bool
  pub max_buffered : ℕ
  pub resolved : List (ℕ × Option Payload)

unfoldable pub new : ℕ → Queue
new max_buffered = record {
  heap = [];
  next_seq = 0;
  ready = [];
  waiters = [];
  closed = false;
  max_buffered = max_buffered;
  resolved = [];
}

-- _deliver
unfoldable pub deliver_to : List ℕ → Queue → Payload → Queue
deliver_to [] q p = record q { ready = q.ready ++ (p ∷ []) }
deliver_to (w ∷ ws) q p = record q { waiters = ws; resolved = q.resolved ++ ((w, some p) ∷ []) }

unfoldable pub deliver : Queue → Payload → Queue
deliver q p = deliver_to q.waiters q p

-- `this._deliver(payload); this._nextSeq++`
unfoldable pub hand_over : Queue → Payload → Queue
hand_over q p = let d = deliver q p in record d { next_seq = d.next_seq + 1 }

-- _drainHeap, with the length of the heap for fuel: each round takes an item out.
unfoldable pub drain : ℕ → Queue → Queue
drain zero q = q
drain (suc fuel) q = elim (heap_shift q.heap) [
  | none ↦ q
  | some (top, rest) ↦ elim (top.seq == q.next_seq) [
    | true ↦ drain fuel (hand_over (record q { heap = rest }) top.payload)
    | false ↦ q
  ]
]

abbrev pub drain_heap : Queue → Queue
drain_heap q = drain (length q.heap) q

-- close: the waiters get null, and what is buffered out of order is dropped.
unfoldable pub close : Queue → Queue
close q = if q.closed then q else record q {
  closed = true;
  waiters = [];
  resolved = q.resolved ++ map (λ w. (w, none)) q.waiters;
  heap = [];
}

unfoldable pub push_ahead : Queue → ℕ → Payload → Queue × Bool
push_ahead q seq p =
    if leb q.max_buffered (length q.heap)
    then (close q, false)
    else (record q { heap = heap_push q.heap (record { seq = seq; payload = p }) }, true)

unfoldable pub push : Queue → ℕ → Payload → Queue × Bool
push q seq p =
    if q.closed
    then (q, false)
    else if ltb seq q.next_seq
    then (q, true)
    else if seq == q.next_seq
    then (drain_heap (hand_over q p), true)
    else push_ahead q seq p

-- read: answered at once from `ready`, or with null on a closed queue; else the reader waits.
unfoldable pub read_from : List Payload → Queue → ℕ → Queue
read_from (p ∷ rest) q reader = record q {
  ready = rest;
  resolved = q.resolved ++ ((reader, some p) ∷ []);
}
read_from [] q reader =
    if q.closed
    then record q { resolved = q.resolved ++ ((reader, none) ∷ []) }
    else record q { waiters = q.waiters ++ (reader ∷ []) }

unfoldable pub read : Queue → ℕ → Queue
read q reader = read_from q.ready q reader

-- A history of calls, from any number of uploads and readers.
pub data Call : Type 0 where
  pushes : ℕ → Payload → Call
  reads : ℕ → Call
  closes : Call

unfoldable pub step : Queue → Call → Queue
step q (pushes seq p) = (push q seq p).0
step q (reads reader) = read q reader
step q closes = close q

unfoldable pub run : Queue → List Call → Queue
run q [] = q
run q (c ∷ cs) = run (step q c) cs

-- The payloads that left the reordering, in the order in which they did: those that readers got,
-- then those that wait in `ready`.
abbrev pub got : List (ℕ × Option Payload) → List Payload
got [] = []
got ((r, some p) ∷ rs) = p ∷ got rs
got ((r, none) ∷ rs) = got rs

abbrev pub handed : Queue → List Payload
handed q = got q.resolved ++ q.ready
