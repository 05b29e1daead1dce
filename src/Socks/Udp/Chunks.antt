-- ===== src/Socks/Udp/Chunks.antt =====
-- How the frames of the UDP relay are cut into chunks plays no part.
use block_proxy.Common.{
  ◌⊎◌, ℕ, zero, suc, ◌+◌, ◌*◌, ◌≤◌, ◌<◌, ◌≡◌, refl, sym, ◌∙◌, arith, Bool, true, false, List, [],
  ◌∷◌, ◌++◌, length, drop, ltb, ◌==◌, length-append, length-drop, take_within, lt→ltb, inl, inr,
  Bool-cases,
}
use block_proxy.Wire.Buffer.{Bytes, Node}
use block_proxy.Socks.State.{Datagram}
use block_proxy.Socks.Udp.{
  Round, waits, gives_up, cuts, round_of, rounds, take_frames, payload_datagram, to_list,
}

drop_within : (n : ℕ) (b x : Bytes) → n ≤ length b → drop n (b ++ x) ≡ drop n b ++ x
drop_within zero b x h = refl
drop_within (suc n) [] x h = absurd (omega arith)
drop_within (suc n) (c ∷ b) x h = drop_within n b x (omega arith)

-- A round that does not wait sees no further than the frame.
abbrev IsLocal : Bytes → Bytes → Round → Type 0
IsLocal b x waits = Unit {0}
IsLocal b x gives_up = round_of (b ++ x) ≡ gives_up
IsLocal b x (cuts p rest) = (round_of (b ++ x) ≡ cuts p (rest ++ x)) × (length rest < length b)

round_of-IsLocal : (b x : Bytes) → IsLocal b x (round_of b)
unfolding round_of
round_of-IsLocal [] x = tt
round_of-IsLocal (hi ∷ []) x = tt
round_of-IsLocal (hi ∷ lo ∷ b) x =
    let size = hi * 256 + lo in
    elim (Bool-cases (size == 0)) [
      | inl e ↦ rw (e, e) refl
      | inr e ↦ elim (Bool-cases (ltb (length b) size)) [
        | inl f ↦ rw (e, f) tt
        | inr f ↦
            let fits : size ≤ length b = ground (arith, lt→ltb (length b) size) in
            let more : ltb (length (b ++ x)) size ≡ false = ground (arith, length-append b x) in
            rw (e, f)
              (
                rw (e, more, take_within size b x fits, drop_within size b x fits) refl,
                omega (arith, length-drop size b),
              )
      ]
    ]

round_cut :
    (b x p rest : Bytes)
    → round_of b ≡ cuts p rest
    → (round_of (b ++ x) ≡ cuts p (rest ++ x)) × (length rest < length b)
round_cut b x p rest e = let q = round_of-IsLocal b x in rw e at q

round_breaks : (b x : Bytes) → round_of b ≡ gives_up → round_of (b ++ x) ≡ gives_up
round_breaks b x e = let q = round_of-IsLocal b x in rw e at q

Round-cases :
    (r : Round)
    → (r ≡ waits) ⊎ ((r ≡ gives_up) ⊎ ((p : Bytes) × (rest : Bytes) × (r ≡ cuts p rest)))
Round-cases waits = inl refl
Round-cases gives_up = inr (inl refl)
Round-cases (cuts p rest) = inr (inr (p, rest, refl))

module _ (node : Node) where
  rounds_wait :
      (n : ℕ) (b : Bytes) (sent : List Datagram)
      → round_of b ≡ waits
      → rounds node (suc n) b sent ≡ (b, sent, false)
  unfolding rounds
  rounds_wait n b sent e = rw (e, rounds) refl

  rounds_break :
      (n : ℕ) (b : Bytes) (sent : List Datagram)
      → round_of b ≡ gives_up
      → rounds node (suc n) b sent ≡ (b, sent, true)
  unfolding rounds
  rounds_break n b sent e = rw (e, rounds) refl

  rounds_cut :
      (n : ℕ) (b p rest : Bytes) (sent : List Datagram)
      → round_of b ≡ cuts p rest
      → rounds node (suc n) b sent
        ≡ rounds node n rest (sent ++ to_list node (payload_datagram node p))
  unfolding rounds
  rounds_cut n b p rest sent e = rw (e, rounds) refl

  -- More fuel than bytes changes nothing.
  rounds-fuel :
      (n m : ℕ) (b : Bytes) (sent : List Datagram)
      → length b ≤ n
      → length b ≤ m
      → rounds node n b sent ≡ rounds node m b sent
  unfolding rounds round_of
  rounds-fuel zero zero b sent h k = refl
  rounds-fuel zero (suc m) [] sent h k = refl
  rounds-fuel zero (suc m) (c ∷ b) sent h k = absurd (omega arith)
  rounds-fuel (suc n) zero [] sent h k = refl
  rounds-fuel (suc n) zero (c ∷ b) sent h k = absurd (omega arith)
  rounds-fuel (suc n) (suc m) b sent h k = elim (Round-cases (round_of b)) [
    | inl e ↦ rounds_wait n b sent e ∙ sym (rounds_wait m b sent e)
    | inr (inl e) ↦ rounds_break n b sent e ∙ sym (rounds_break m b sent e)
    | inr (inr (p, rest, e)) ↦
        let less = (round_cut b [] p rest e).1 in
        rw (rounds_cut n b p rest sent e, rounds_cut m b p rest sent e)
          (rounds-fuel n m rest (sent ++ to_list node (payload_datagram node p)) (omega arith)
            (omega arith))
  ]

  -- What the loop does with the bytes left and further bytes.
  abbrev pub goes_on : Bytes × List Datagram × Bool → Bytes → Bytes × List Datagram × Bool
  goes_on (rest, sent, true) x = (rest ++ x, sent, true)
  goes_on (rest, sent, false) x = take_frames node (rest ++ x) sent

  rounds-append :
      (n m : ℕ) (b x : Bytes) (sent : List Datagram)
      → length b ≤ n
      → length (b ++ x) ≤ m
      → rounds node m (b ++ x) sent ≡ goes_on (rounds node n b sent) x
  unfolding rounds take_frames round_of
  rounds-append zero m [] x sent h k = rounds-fuel m (length x) x sent k (omega arith)
  rounds-append zero m (c ∷ b) x sent h k = absurd (omega arith)
  rounds-append (suc n) zero [] [] sent h k = refl
  rounds-append (suc n) zero [] (y ∷ x) sent h k = absurd (omega arith)
  rounds-append (suc n) zero (c ∷ b) x sent h k = absurd (omega arith)
  rounds-append (suc n) (suc m) b x sent h k = elim (Round-cases (round_of b)) [
    | inl e ↦
        rw (rounds_wait n b sent e)
          (rounds-fuel (suc m) (length (b ++ x)) (b ++ x) sent k (omega arith))
    | inr (inl e) ↦
        rw (rounds_break n b sent e, rounds_break m (b ++ x) sent (round_breaks b x e)) refl
    | inr (inr (p, rest, e)) ↦
        let (cut, less) = round_cut b x p rest e in
        rw (rounds_cut n b p rest sent e, rounds_cut m (b ++ x) p (rest ++ x) sent cut)
          (rounds-append n m rest x (sent ++ to_list node (payload_datagram node p)) (omega arith)
            (omega (arith, length-append rest x, length-append b x)))
  ]

  -- However the client's bytes are cut into chunks, the relay sends the same datagrams, keeps the
  -- same bytes and gives the connection up at the same byte: a chunk and then another is the same
  -- as both in one, and what follows a connection that was given up is not looked at.
  pub take_frames-append :
      (b x : Bytes) (sent : List Datagram)
      → take_frames node (b ++ x) sent ≡ goes_on (take_frames node b sent) x
  unfolding take_frames
  take_frames-append b x sent =
      rounds-append (length b) (length (b ++ x)) b x sent (omega arith) (omega arith)
