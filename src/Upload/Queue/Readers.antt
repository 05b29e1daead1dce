-- ===== src/Upload/Queue/Readers.antt =====
-- Who gets the frames, and what a close does.
use block_proxy.Common.{
  ℕ, ◌≡◌, refl, ap, sym, ◌∙◌, Bool, true, List, [], ◌∷◌, ◌++◌, length, ltb, leb, ◌==◌, map, Option,
  none, some,
}
use block_proxy.Common.{if_rule, append_assoc, append-nil, ◌⊎◌, inl, inr}
use mathlib.Core.Bool.{false≢true}
use block_proxy.Upload.Queue.{
  Queue, Payload, Call, pushes, reads, closes, new, deliver, deliver_to, hand_over, close, push,
  push_ahead, read, read_from, step, run,
}
use block_proxy.Upload.Queue.InOrder.{drain_rule}

abbrev pub readers : List (ℕ × Option Payload) → List ℕ
readers = map (λ a. a.0)

-- The readers that have their answer, then those that wait: the order in which they asked.
abbrev pub line : Queue → List ℕ
line q = readers q.resolved ++ q.waiters

-- The calls of `read`, in order.
abbrev pub asked : List Call → List ℕ
asked [] = []
asked (reads r ∷ cs) = r ∷ asked cs
asked (pushes seq p ∷ cs) = asked cs
asked (closes ∷ cs) = asked cs

readers-append : (a b : List (ℕ × Option Payload)) → readers (a ++ b) ≡ readers a ++ readers b
readers-append [] b = refl
readers-append (x ∷ a) b = ap (◌∷◌ x.0) (readers-append a b)

readers_nulls : (ws : List ℕ) → readers (map (λ w. (w, none)) ws) ≡ ws
readers_nulls [] = refl
readers_nulls (w ∷ ws) = ap (◌∷◌ w) (readers_nulls ws)

line-deliver_to :
    (ws : List ℕ) (q : Queue) (p : Payload) → q.waiters ≡ ws → line (deliver_to ws q p) ≡ line q
unfolding deliver_to
line-deliver_to [] q p e = refl
line-deliver_to (w ∷ ws) q p e =
    rw (readers-append q.resolved ((w, some p) ∷ []), append_assoc)
      (ap (◌++◌ (readers q.resolved)) (sym e))

line-hand_over : (q : Queue) (p : Payload) → line (hand_over q p) ≡ line q
unfolding hand_over deliver
line-hand_over q p = line-deliver_to q.waiters q p refl

line-close : (q : Queue) → line (close q) ≡ line q
unfolding close
line-close q =
    if_rule (λ (r : Queue). line r ≡ line q) q.closed (λ _. refl)
      (λ _.
        rw (readers-append q.resolved (map (λ w. (w, none)) q.waiters), readers_nulls, append-nil))

line-push : (q : Queue) (seq : ℕ) (p : Payload) → line (push q seq p).0 ≡ line q
unfolding push push_ahead
line-push q seq p =
    let Keeps = λ (r : Queue × Bool). line r.0 ≡ line q in
    if_rule Keeps q.closed (λ _. refl)
      λ _.
        if_rule Keeps (ltb seq q.next_seq) (λ _. refl)
          λ _.
            if_rule Keeps (seq == q.next_seq)
              (λ _.
                drain_rule (λ r. line r ≡ line q)
                  (λ r top rest same _ _.
                    line-hand_over (record r { heap = rest }) top.payload ∙ same)
                  (length (hand_over q p).heap) (hand_over q p) (line-hand_over q p))
              (λ _.
                if_rule Keeps (leb q.max_buffered (length q.heap)) (λ _. line-close q) (λ _. refl))

-- Nobody waits while a frame is ready, nor once the queue is closed.
pub record IsIdle (q : Queue) : Type 0 where
  pub one_side : (q.ready ≡ []) ⊎ (q.waiters ≡ [])
  pub over : q.closed ≡ true → q.waiters ≡ []

deliver_to-IsIdle :
    (ws : List ℕ) (q : Queue) (p : Payload) → q.waiters ≡ ws → IsIdle q → IsIdle (deliver_to ws q p)
unfolding deliver_to
deliver_to-IsIdle [] q p e i = record { one_side = inr e; over = λ c. e }
deliver_to-IsIdle (w ∷ ws) q p e i = record {
  one_side = elim i.one_side [ inl r ↦ inl r | inr n ↦ cc ];
  over = λ c. let none_waits = i.over c in cc;
}

hand_over-IsIdle : (q : Queue) (p : Payload) → IsIdle q → IsIdle (hand_over q p)
unfolding hand_over deliver
hand_over-IsIdle q p i =
    let d = deliver_to-IsIdle q.waiters q p refl i in
    record { one_side = d.one_side; over = d.over }

close-IsIdle : (q : Queue) → IsIdle q → IsIdle (close q)
unfolding close
close-IsIdle q i =
    if_rule IsIdle q.closed (λ _. i) (λ _. record { one_side = inr refl; over = λ _. refl })

push-IsIdle : (q : Queue) (seq : ℕ) (p : Payload) → IsIdle q → IsIdle (push q seq p).0
unfolding push push_ahead
push-IsIdle q seq p i =
    let Keeps = λ (r : Queue × Bool). IsIdle r.0 in
    if_rule Keeps q.closed (λ _. i)
      λ _.
        if_rule Keeps (ltb seq q.next_seq) (λ _. i)
          λ _.
            if_rule Keeps (seq == q.next_seq)
              (λ _.
                drain_rule IsIdle
                  (λ r top rest v _ _.
                    hand_over-IsIdle (record r { heap = rest }) top.payload
                      (record { one_side = v.one_side; over = v.over }))
                  (length (hand_over q p).heap) (hand_over q p) (hand_over-IsIdle q p i))
              (λ _.
                if_rule Keeps (leb q.max_buffered (length q.heap)) (λ _. close-IsIdle q i)
                  (λ _. record { one_side = i.one_side; over = i.over }))

read_from-IsIdle :
    (ready : List Payload) (q : Queue) (reader : ℕ)
    → q.ready ≡ ready
    → IsIdle q
    → IsIdle (read_from ready q reader)
unfolding read_from
read_from-IsIdle [] q reader e i =
    if_rule IsIdle q.closed (λ _. record { one_side = i.one_side; over = i.over })
      (λ c. record { one_side = inl e; over = λ d. absurd (false≢true (sym c ∙ d)) })
read_from-IsIdle (p ∷ ready) q reader e i =
    let nobody : q.waiters ≡ [] = elim i.one_side [ inl r ↦ cc | inr n ↦ n ] in
    record { one_side = inr nobody; over = λ _. nobody }

line-read_from :
    (ready : List Payload) (q : Queue) (reader : ℕ)
    → q.ready ≡ ready
    → IsIdle q
    → line (read_from ready q reader) ≡ line q ++ (reader ∷ [])
unfolding read_from
line-read_from [] q reader e i =
    if_rule (λ (r : Queue). line r ≡ line q ++ (reader ∷ [])) q.closed
      (λ c. rw (readers-append q.resolved ((reader, none) ∷ []), i.over c, append-nil, append-nil))
      (λ _. sym (append_assoc (readers q.resolved) q.waiters (reader ∷ [])))
line-read_from (p ∷ ready) q reader e i =
    let nobody : q.waiters ≡ [] = elim i.one_side [ inl r ↦ cc | inr n ↦ n ] in
    rw (readers-append q.resolved ((reader, some p) ∷ []), nobody, append-nil, append-nil)

line-run-from : (q : Queue) (cs : List Call) → IsIdle q → line (run q cs) ≡ line q ++ asked cs
unfolding run step read
line-run-from q [] i = sym (append-nil (line q))
line-run-from q (pushes seq p ∷ cs) i =
    line-run-from (push q seq p).0 cs (push-IsIdle q seq p i)
    ∙ ap (λ l. l ++ asked cs) (line-push q seq p)
line-run-from q (reads r ∷ cs) i =
    line-run-from (read q r) cs (read_from-IsIdle q.ready q r refl i)
    ∙ ap (λ l. l ++ asked cs) (line-read_from q.ready q r refl i)
    ∙ append_assoc (line q) (r ∷ []) (asked cs)
line-run-from q (closes ∷ cs) i =
    line-run-from (close q) cs (close-IsIdle q i) ∙ ap (λ l. l ++ asked cs) (line-close q)

-- Readers are answered in the order in which they asked, each once: those with an answer, and then
-- those that wait, are the calls of `read`.
pub line-run : (max_buffered : ℕ) (cs : List Call) → line (run (new max_buffered) cs) ≡ asked cs
unfolding new
line-run max_buffered cs = line-run-from (new max_buffered) cs start
  where
    start : IsIdle (new max_buffered)
    start = record { one_side = inl refl; over = λ _. refl }
