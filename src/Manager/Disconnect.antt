-- ===== src/Manager/Disconnect.antt =====
-- setConnected(sessionId, false) of tunnel/manager.js: no request of the session stays active.
use block_proxy.Common.{
  ℕ, zero, suc, ◌≡◌, ◌≢◌, refl, sym, subst, ap, ◌∙◌, arith, true, false, ◌&&◌, List, [], ◌∷◌,
  Option, none, some, get_elem?, set, ◌==◌, ==→eq, if◌then◌else◌, ◌⊎◌, inl, inr, Bool-cases,
  Option-cases, if_rule,
}
use block_proxy.Wire.Frame.{close}
use block_proxy.Manager.State.{
  Manager, Entry, find, delete, put, send, is_reverse, entry_at, lookup, forget, disarm, uncount,
  clear_found, clear_active_request, close_found, send_close, destroy_stream, destroy_socket,
}
use block_proxy.Manager.Forward.{drop_entry, drop_session, set_disconnected}
use block_proxy.Manager.Limits.{lookup-held}
use block_proxy.Manager.Maps.{find-delete, find-delete_other}

-- Nothing enters the map, and the entries keep their sessions.
abbrev Shrinks : Manager → Manager → Type 0
Shrinks m m' =
    ((k id : ℕ) → find m'.active k ≡ some id → find m.active k ≡ some id)
    × ((i : ℕ) (e' : Entry)
        → get_elem? m'.entries i ≡ some e'
        → (e : Entry) × (get_elem? m.entries i ≡ some e) × (e.session ≡ e'.session))

differ : (k j : ℕ) → (k == j) ≡ false → k ≢ j
differ k j e q = ground arith

Shrinks-refl : (m : Manager) → Shrinks m m
Shrinks-refl m = (λ k id h. h, λ i e h. (e, h, refl))

Shrinks-trans : (a b c : Manager) → Shrinks a b → Shrinks b c → Shrinks a c
Shrinks-trans a b c (f, g) (f', g') = (
  λ k id h. f k id (f' k id h),
  λ i e h. let (x, p, q) = g' i e h in let (y, r, s) = g i x p in (y, r, s ∙ q),
)

set-session :
    (es : List Entry) (i j : ℕ) (x v e' : Entry)
    → get_elem? es i ≡ some x
    → v.session ≡ x.session
    → get_elem? (set es i v) j ≡ some e'
    → (e : Entry) × (get_elem? es j ≡ some e) × (e.session ≡ e'.session)
set-session [] i j x v e' h k p = cc
set-session (y ∷ es) zero zero x v e' h k p =
    let a : y ≡ x = cc in
    let b : v ≡ e' = cc in (y, refl, ap (λ r. r.session) a ∙ sym k ∙ ap (λ r. r.session) b)
set-session (y ∷ es) zero (suc j) x v e' h k p = (e', p, refl)
set-session (y ∷ es) (suc i) zero x v e' h k p = (e', p, refl)
set-session (y ∷ es) (suc i) (suc j) x v e' h k p = set-session es i j x v e' h k p

put-Shrinks :
    (m : Manager) (id : ℕ) (e v : Entry)
    → get_elem? m.entries id ≡ some e
    → v.session ≡ e.session
    → Shrinks m (put m id v)
put-Shrinks m id e v h k = (λ j i p. p, λ i e' p. set-session m.entries id i e v e' h k p)

delete-some : (m : List (ℕ × ℕ)) (k j id : ℕ) → find (delete m k) j ≡ some id → find m j ≡ some id
delete-some m k j id h = elim (Bool-cases (k == j)) [
  | inl e ↦ let gone = subst (λ x. find (delete m k) x ≡ none) (==→eq k j e) (find-delete m k) in cc
  | inr e ↦ sym (find-delete_other m k j (differ k j e)) ∙ h
]

forget-Shrinks : (m : Manager) (k : ℕ) → Shrinks m (forget m k)
forget-Shrinks m k = (λ j id h. delete-some m.active k j id h, λ i e h. (e, h, refl))

clear-Shrinks : (m : Manager) (k : ℕ) → Shrinks m (clear_active_request m k)
unfolding clear_active_request clear_found
clear-Shrinks m k = elim (Option-cases (lookup m k)) [
  | inl n ↦ rw n (Shrinks-refl m)
  | inr ((id, e), s) ↦
      let held = lookup-held m k id e s in
      rw s (
        if_rule (λ (r : Manager). Shrinks m r) (is_reverse e && e.counted)
          (λ _.
            Shrinks-trans m (uncount m id (disarm e)) (forget (uncount m id (disarm e)) k)
              (put-Shrinks m id e _ held refl) (forget-Shrinks (uncount m id (disarm e)) k))
          (λ _.
            Shrinks-trans m (put m id (disarm e)) (forget (put m id (disarm e)) k)
              (put-Shrinks m id e (disarm e) held refl) (forget-Shrinks (put m id (disarm e)) k)))
]

send_close-Shrinks : (m : Manager) (k : ℕ) → Shrinks m (send_close m k)
unfolding send_close close_found
send_close-Shrinks m k = elim (Option-cases (lookup m k)) [
  | inl n ↦ rw n (Shrinks-refl m)
  | inr ((id, e), s) ↦
      let v : Entry = record e { last_activity = m.now } in
      let sent = send (put m id v) (close k) e.session in
      rw s (
        Shrinks-trans m sent (clear_active_request sent k)
          (put-Shrinks m id e v (lookup-held m k id e s) refl) (clear-Shrinks sent k))
]

destroy_stream-Shrinks : (m : Manager) (id : ℕ) → Shrinks m (destroy_stream m id)
unfolding destroy_stream
destroy_stream-Shrinks m id = elim (Option-cases (get_elem? m.entries id)) [
  | inl n ↦ rw (n, destroy_stream) (Shrinks-refl m)
  | inr (e, s) ↦
      let v : Entry = record e { stream_destroyed = true } in
      rw (s, destroy_stream)
        (if_rule (λ (r : Manager). Shrinks m r) e.stream_destroyed (λ _. Shrinks-refl m)
          (λ _.
            Shrinks-trans m (put m id v) (send_close (put m id v) e.reqid)
              (put-Shrinks m id e v s refl) (send_close-Shrinks (put m id v) e.reqid)))
]

destroy_socket-Shrinks : (m : Manager) (id : ℕ) → Shrinks m (destroy_socket m id)
unfolding destroy_socket
destroy_socket-Shrinks m id = elim (Option-cases (get_elem? m.entries id)) [
  | inl n ↦ rw (n, destroy_socket) (Shrinks-refl m)
  | inr (e, s) ↦
      rw (s, destroy_socket) (put-Shrinks m id e (record e { socket_destroyed = true }) s refl)
]

-- The request id finds no entry of the session.
abbrev IsFree : Manager → ℕ → ℕ → Type 0
IsFree m session k =
    (id : ℕ) (e : Entry) → lookup m k ≡ some (id, e) → (e.session == session) ≡ false

entry_at-inv :
    (m : Manager) (o : Option ℕ) (id : ℕ) (e : Entry)
    → entry_at m o ≡ some (id, e)
    → (o ≡ some id) × (get_elem? m.entries id ≡ some e)
unfolding entry_at
entry_at-inv m none id e h = cc
entry_at-inv m (some i) id e h = elim (Option-cases (get_elem? m.entries i)) [
  | inl n ↦ let q : none ≡ some (id, e) = rw (n, entry_at) at h in cc
  | inr (x, s) ↦
      let q : some (i, x) ≡ some (id, e) = rw (s, entry_at) at h in
      let a : i ≡ id = cc in
      let b : x ≡ e = cc in
      (ap some a, subst (λ j. get_elem? m.entries j ≡ some e) a (s ∙ ap some b))
]

lookup-intro :
    (m : Manager) (k id : ℕ) (e : Entry)
    → find m.active k ≡ some id
    → get_elem? m.entries id ≡ some e
    → lookup m k ≡ some (id, e)
unfolding lookup entry_at
lookup-intro m k id e f g = rw f (rw (g, entry_at) refl)

lookup_absent : (m : Manager) (k : ℕ) → find m.active k ≡ none → lookup m k ≡ none
unfolding lookup entry_at
lookup_absent m k f = rw f refl

Shrinks-IsFree :
    (m m' : Manager) (session k : ℕ) → Shrinks m m' → IsFree m session k → IsFree m' session k
unfolding lookup
Shrinks-IsFree m m' session k (f, g) free id e' h =
    let (p, q) = entry_at-inv m' (find m'.active k) id e' h in
    let (e, r, s) = g id e' q in
    subst (λ x. (x == session) ≡ false) s (free id e (lookup-intro m k id e (f k id p) r))

clear-active : (m : Manager) (k : ℕ) → lookup (clear_active_request m k) k ≡ none
unfolding clear_active_request clear_found
clear-active m k = elim (Option-cases (lookup m k)) [
  | inl n ↦ rw (n, n) refl
  | inr ((id, e), s) ↦ rw s (
      if_rule (λ (r : Manager). lookup r k ≡ none) (is_reverse e && e.counted)
        (λ _. lookup_absent (forget (uncount m id (disarm e)) k) k (find-delete m.active k))
        (λ _. lookup_absent (forget (put m id (disarm e)) k) k (find-delete m.active k)))
]

drop_entry-Shrinks :
    (m : Manager) (session k : ℕ) (o : Option (ℕ × Entry)) → Shrinks m (drop_entry m session k o)
unfolding drop_entry
drop_entry-Shrinks m session k none = Shrinks-refl m
drop_entry-Shrinks m session k (some (id, e)) =
    let ended : Manager = if is_reverse e then destroy_stream m id else destroy_socket m id in
    if_rule (λ (r : Manager). Shrinks m r) (e.session == session)
      (λ _.
        Shrinks-trans m ended (clear_active_request ended k)
          (if_rule (λ (r : Manager). Shrinks m r) (is_reverse e) (λ _. destroy_stream-Shrinks m id)
            (λ _. destroy_socket-Shrinks m id))
          (clear-Shrinks ended k))
      (λ _. Shrinks-refl m)

drop_entry-IsFree :
    (m : Manager) (session k : ℕ) → IsFree (drop_entry m session k (lookup m k)) session k
unfolding drop_entry
drop_entry-IsFree m session k = elim (Option-cases (lookup m k)) [
  | inl n ↦ rw n (λ id e h. cc)
  | inr ((i, x), s) ↦
      let ended : Manager = if is_reverse x then destroy_stream m i else destroy_socket m i in
      rw s (
        if_rule (λ (r : Manager). IsFree r session k) (x.session == session)
          (λ _ id e h. let gone = clear-active ended k in cc)
          (λ other id e h.
            let same : x ≡ e = cc in subst (λ y. (y.session == session) ≡ false) same other))
]

drop_session-IsFree :
    (ps : List (ℕ × ℕ)) (m : Manager) (session k : ℕ)
    → (find ps k ≡ none → IsFree m session k)
    → IsFree (drop_session m session ps) session k
unfolding drop_session find
drop_session-IsFree [] m session k h = h refl
drop_session-IsFree ((r, id) ∷ ps) m session k h =
    drop_session-IsFree ps (drop_entry m session r (lookup m r)) session k λ rest.
      elim (Bool-cases (r == k)) [
        | inl e ↦
            subst (λ x. IsFree (drop_entry m session x (lookup m x)) session k) (sym (==→eq r k e))
              (drop_entry-IsFree m session k)
        | inr e ↦
            Shrinks-IsFree m (drop_entry m session r (lookup m r)) session k
              (drop_entry-Shrinks m session r (lookup m r)) (h (rw e rest))
      ]

disconnected-IsFree :
    (m : Manager) (session : ℕ) (active_session : Option ℕ) (k : ℕ)
    → IsFree (set_disconnected m session active_session) session k
unfolding set_disconnected lookup entry_at
disconnected-IsFree m session active_session k =
    let started : Manager = record m { session_tokens = delete m.session_tokens session } in
    drop_session-IsFree m.active started session k
      λ none_left id e h. let q = lookup_absent started k none_left in cc

-- When a session is disconnected, a request id finds no entry any more, or an entry of another
-- session, whatever requests were active.
pub set_disconnected-lookup :
    (m : Manager) (session : ℕ) (active_session : Option ℕ) (k : ℕ)
    → (lookup (set_disconnected m session active_session) k ≡ none)
      ⊎ ((id : ℕ) × (e : Entry) × (lookup (set_disconnected m session active_session) k
            ≡ some (id, e))
          × ((e.session == session) ≡ false))
set_disconnected-lookup m session active_session k =
    elim (Option-cases (lookup (set_disconnected m session active_session) k)) [
      | inl n ↦ inl n
      | inr ((id, e), h) ↦ inr (id, e, h, disconnected-IsFree m session active_session k id e h)
    ]
