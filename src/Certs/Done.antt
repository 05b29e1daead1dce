-- ===== src/Certs/Done.antt =====
-- The workers of prewarmCerts try every domain once.
use block_proxy.Common.{
  ℕ, zero, suc, ◌+◌, ◌<◌, ◌≤◌, ◌≡◌, refl, sym, ap, ◌∙◌, arith, Bool, true, false, List, [], ◌∷◌,
  ◌++◌, Option, none, some, length, get_elem?, take, leb, ◌==◌, if◌then◌else◌, if_rule, ==→eq,
  take_all, ◌⊎◌, inl, inr,
}
use block_proxy.Wire.Buffer.{Text}
use block_proxy.Certs.Prewarm.{
  Pool, next_domain, work, launch, idle, start, settled, settle_each, or_four, min_of,
}

get_elem?_end : (ts : List Text) (n : ℕ) → get_elem? ts n ≡ none → n ≤ length ts → n ≡ length ts
get_elem?_end [] zero h k = refl
get_elem?_end [] (suc n) h k = absurd (omega arith)
get_elem?_end (t ∷ ts) zero h k = cc
get_elem?_end (t ∷ ts) (suc n) h k = ap suc (get_elem?_end ts n h (omega arith))

take_next :
    (ts : List Text) (n : ℕ) (t : Text)
    → get_elem? ts n ≡ some t
    → (take (n + 1) ts ≡ take n ts ++ (t ∷ [])) × (n + 1 ≤ length ts)
take_next [] n t h = cc
take_next (u ∷ ts) zero t h = (cc, omega arith)
take_next (u ∷ ts) (suc n) t h =
    let (e, k) = take_next ts n t h in
    let next : suc n + 1 ≡ suc (n + 1) = omega arith in
    (ap (λ m. take m (u ∷ ts)) next ∙ ap (◌∷◌ u) e, omega arith)

-- What was tried is the queue up to the cursor, and every domain tried is done or waited for.
abbrev IsFair : List Text → Pool → Type 0
IsFair queue p =
    (p.queue ≡ queue)
    × (p.tried ≡ take p.cursor queue)
    × (p.success + p.fail + p.running ≡ p.cursor)
    × (p.cursor ≤ length queue)

-- Some worker runs, or the queue is used up.
abbrev IsBusy : List Text → Pool → Type 0
IsBusy queue p = (0 < p.running) ⊎ (p.cursor ≡ length queue)

-- A worker that has just got its turn takes the next domain or ends.
next_domain-IsFair :
    (queue : List Text) (p : Pool) (o : Option Text)
    → get_elem? queue p.cursor ≡ o
    → p.queue ≡ queue
    → p.tried ≡ take p.cursor queue
    → p.success + p.fail + p.running ≡ p.cursor + 1
    → p.cursor ≤ length queue
    → 0 < p.running
    → IsFair queue (next_domain p o) × IsBusy queue (next_domain p o)
unfolding next_domain
next_domain-IsFair queue p none h q t s c r =
    ((q, t, omega arith, c), inr (get_elem?_end queue p.cursor h c))
next_domain-IsFair queue p (some d) h q t s c r =
    let (e, k) = take_next queue p.cursor d h in
    ((q, ap (λ ts. ts ++ (d ∷ [])) t ∙ sym e, omega arith, k), inl r)

launch-IsFair :
    (queue : List Text) (n : ℕ) (p : Pool)
    → IsFair queue p
    → (0 < n) ⊎ IsBusy queue p
    → IsFair queue (launch n p) × IsBusy queue (launch n p)
unfolding launch
launch-IsFair queue zero p f (inl h) = absurd (omega arith)
launch-IsFair queue zero p f (inr b) = (f, b)
launch-IsFair queue (suc n) p (q, t, s, c) h =
    let more : Pool = record p { running = p.running + 1 } in
    let (f, b) =
      next_domain-IsFair queue more (get_elem? p.queue p.cursor)
        (ap (λ ts. get_elem? ts p.cursor) (sym q)) q t (omega arith) c (omega arith) in
    launch-IsFair queue n (work more) f (inr b)

settled-IsFair :
    (queue : List Text) (p : Pool) (b : Bool)
    → IsFair queue p
    → 0 < p.running
    → IsFair queue (settled p b) × IsBusy queue (settled p b)
unfolding settled
settled-IsFair queue p true (q, t, s, c) r =
    next_domain-IsFair queue (record p { success = p.success + 1 }) (get_elem? p.queue p.cursor)
      (ap (λ ts. get_elem? ts p.cursor) (sym q)) q t (omega arith) c r
settled-IsFair queue p false (q, t, s, c) r =
    next_domain-IsFair queue (record p { fail = p.fail + 1 }) (get_elem? p.queue p.cursor)
      (ap (λ ts. get_elem? ts p.cursor) (sym q)) q t (omega arith) c r

next_domain-counts :
    (p : Pool) (o : Option Text)
    → (next_domain p o).success + (next_domain p o).fail ≡ p.success + p.fail
unfolding next_domain
next_domain-counts p none = refl
next_domain-counts p (some d) = refl

settled-counts :
    (p : Pool) (b : Bool) → (settled p b).success + (settled p b).fail ≡ p.success + p.fail + 1
unfolding settled
settled-counts p true =
    next_domain-counts (record p { success = p.success + 1 }) (get_elem? p.queue p.cursor)
    ∙ omega arith
settled-counts p false =
    next_domain-counts (record p { fail = p.fail + 1 }) (get_elem? p.queue p.cursor) ∙ omega arith

-- All is done, or so many more certificates are.
abbrev IsFurther : List Text → Pool → ℕ → Type 0
IsFurther queue p n = (p.success + p.fail ≡ length queue) ⊎ (n ≤ p.success + p.fail)

-- One more certificate, if a worker waits for it.
turn-IsFurther :
    (queue : List Text) (p : Pool) (b : Bool) (n : ℕ)
    → IsFair queue p
    → IsBusy queue p
    → IsFurther queue p n
    → let q = if p.running == 0 then p else settled p b in
      IsFair queue q × IsBusy queue q × IsFurther queue q (n + 1)
turn-IsFurther queue p b n (q, t, s, c) busy g =
    if_rule (λ r. IsFair queue r × IsBusy queue r × IsFurther queue r (n + 1)) (p.running == 0)
      (λ e.
        let none_left = ==→eq p.running 0 e in
        (
          (q, t, s, c),
          busy,
          inl (elim busy [ inl r ↦ absurd (omega arith) | inr all ↦ omega arith ]),
        ))
      (λ e.
        let runs : 0 < p.running = ground arith in
        let (f, still) = settled-IsFair queue p b (q, t, s, c) runs in
        (
          f,
          still,
          inr (elim g [
            | inl all ↦ absurd (omega arith)
            | inr k ↦ omega (arith, settled-counts p b)
          ]),
        ))

settle_each-IsFair :
    (queue : List Text) (p : Pool) (bs : List Bool) (n : ℕ)
    → IsFair queue p
    → IsBusy queue p
    → IsFurther queue p n
    → IsFair queue (settle_each p bs) × IsFurther queue (settle_each p bs) (n + length bs)
unfolding settle_each
settle_each-IsFair queue p [] n f b g =
    (f, elim g [ inl all ↦ inl all | inr k ↦ inr (omega arith) ])
settle_each-IsFair queue p (b ∷ bs) n f busy g =
    let (f2, busy2, g2) = turn-IsFurther queue p b n f busy g in
    let (fair, further) =
      settle_each-IsFair queue (if p.running == 0 then p else settled p b) bs (n + 1) f2 busy2 g2 in
    (fair, elim further [ inl all ↦ inl all | inr k ↦ inr (omega arith) ])

finished :
    (queue : List Text) (p : Pool)
    → IsFair queue p
    → IsFurther queue p (length queue)
    → (p.tried ≡ queue) × (p.running ≡ 0) × (p.success + p.fail ≡ length queue)
finished queue p (q, t, s, c) g =
    let all : p.success + p.fail ≡ length queue = elim g [ inl e ↦ e | inr k ↦ omega arith ] in
    (t ∙ take_all p.cursor queue (omega arith), omega arith, all)

some_worker : (a n : ℕ) → 0 < a → (0 < min_of a n) ⊎ (0 ≡ n)
some_worker a zero h = inr refl
some_worker a (suc n) h = inl (if_rule (λ m. 0 < m) (leb a (suc n)) (λ e. h) (λ e. omega arith))

four_positive : (a : ℕ) → 0 < or_four a
four_positive zero = omega arith
four_positive (suc a) = omega arith

-- Once as many certificates are there or have failed as there are domains, every domain was tried
-- once and in order, no worker waits, and the successes and the failures add up to the domains.
pub settle_each-start :
    (queue : List Text) (concurrency : ℕ) (bs : List Bool)
    → length bs ≡ length queue
    → let p = settle_each (start queue concurrency) bs in
      (p.tried ≡ queue) × (p.running ≡ 0) × (p.success + p.fail ≡ length queue)
unfolding start
settle_each-start queue concurrency bs h =
    let workers = min_of (or_four concurrency) (length queue) in
    let (f, busy) =
      launch-IsFair queue workers (idle queue) (refl, refl, refl, omega arith)
        (elim (some_worker (or_four concurrency) (length queue) (four_positive concurrency)) [
          | inl k ↦ inl k
          | inr k ↦ inr (inr k)
        ]) in
    let (fair, further) =
      settle_each-IsFair queue (launch workers (idle queue)) bs 0 f busy (inr (omega arith)) in
    finished queue (settle_each (launch workers (idle queue)) bs) fair
      (elim further [ inl all ↦ inl all | inr k ↦ inr (omega arith) ])
