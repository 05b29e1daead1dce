-- ===== src/Manager/Limits.antt =====
-- The counts of TunnelManager: _reverseCount and _forwardCount against their limits.
use block_proxy.Common.{ℕ, zero, suc, ◌≤◌, ◌≡◌, refl, ap, arith, Bool, true, false, ◌&&◌, not}
use block_proxy.Common.{
  List, [], ◌∷◌, Option, none, some, get_elem?, set, inl, inr, Option-cases, if_rule,
}
use block_proxy.Common.Counts.{unit_of, tally_of, tally_of-set}
use block_proxy.Wire.Frame.{close}
use block_proxy.Manager.State.{
  Manager, Entry, find, put, send, is_reverse, entry_at, lookup, disarm, uncount, clear_found,
  clear_active_request, close_found, send_close, destroy_stream, destroy_socket,
}

-- The entries that each limit counts.
abbrev pub counts_reverse : Entry → Bool
counts_reverse e = is_reverse e && e.counted

abbrev pub counts_forward : Entry → Bool
counts_forward e = not (is_reverse e) && e.counted

-- The counts are those of the counted entries, and within their limits.
abbrev pub IsCounted : Manager → Type 0
IsCounted m =
    (m.reverse_count ≡ tally_of counts_reverse m.entries)
    × (m.forward_count ≡ tally_of counts_forward m.entries)
    × (m.reverse_count ≤ m.max_reverse)
    × (m.forward_count ≤ m.max_forward)

pub get_elem?-set :
    (es : List Entry) (i : ℕ) (e v : Entry)
    → get_elem? es i ≡ some e
    → get_elem? (set es i v) i ≡ some v
get_elem?-set [] i e v h = cc
get_elem?-set (x ∷ es) zero e v h = refl
get_elem?-set (x ∷ es) (suc i) e v h = get_elem?-set es i e v h

entry_at-held :
    (m : Manager) (o : Option ℕ) (id : ℕ) (e : Entry)
    → entry_at m o ≡ some (id, e)
    → get_elem? m.entries id ≡ some e
unfolding entry_at
entry_at-held m none id e h = cc
entry_at-held m (some i) id e h = elim (Option-cases (get_elem? m.entries i)) [
  | inl n ↦ cc (rw (n, entry_at) at h)
  | inr (e', s) ↦ let k = rw (s, entry_at) at h in cc
]

pub lookup-held :
    (m : Manager) (reqid id : ℕ) (e : Entry)
    → lookup m reqid ≡ some (id, e)
    → get_elem? m.entries id ≡ some e
unfolding lookup
lookup-held m reqid id e h = entry_at-held m (find m.active reqid) id e h

pub put-IsCounted :
    (m : Manager) (id : ℕ) (e v : Entry)
    → IsCounted m
    → get_elem? m.entries id ≡ some e
    → counts_reverse v ≡ counts_reverse e
    → counts_forward v ≡ counts_forward e
    → IsCounted (put m id v)
put-IsCounted m id e v (a, b, c, d) h r f = (
  omega (arith, tally_of-set counts_reverse m.entries id e v h, ap unit_of r),
  omega (arith, tally_of-set counts_forward m.entries id e v h, ap unit_of f),
  c,
  d,
)

unit_both : (a b : Bool) → (a && b) ≡ true → unit_of (a && b) ≡ 1
unit_both a b h = ap unit_of h

unit_left : (a b : Bool) → (a && b) ≡ true → unit_of (not a && b) ≡ 0
unit_left true b h = refl
unit_left false b h = cc

unit_of-false : (a : Bool) → unit_of (a && false) ≡ 0
unit_of-false true = refl
unit_of-false false = refl

uncount-IsCounted :
    (m : Manager) (id : ℕ) (e : Entry)
    → IsCounted m
    → get_elem? m.entries id ≡ some e
    → (is_reverse e && e.counted) ≡ true
    → IsCounted (uncount m id (disarm e))
uncount-IsCounted m id e (a, b, c, d) h r =
    let v : Entry = record (disarm e) { counted = false } in
    let x = tally_of-set counts_reverse m.entries id e v h in
    let y = tally_of-set counts_forward m.entries id e v h in
    (
      omega (arith, unit_both (is_reverse e) e.counted r, unit_of-false (is_reverse e)),
      omega (arith, unit_left (is_reverse e) e.counted r, unit_of-false (not (is_reverse e))),
      omega arith,
      d,
    )

pub clear-IsCounted :
    (m : Manager) (reqid : ℕ) → IsCounted m → IsCounted (clear_active_request m reqid)
unfolding clear_active_request clear_found
clear-IsCounted m reqid w = elim (Option-cases (lookup m reqid)) [
  | inl n ↦ rw n w
  | inr ((id, e), s) ↦
      let held = lookup-held m reqid id e s in
      rw s (
        if_rule (λ (r : Manager). IsCounted r) (is_reverse e && e.counted)
          (λ b. uncount-IsCounted m id e w held b)
          (λ b. put-IsCounted m id e (disarm e) w held refl refl))
]

pub send_close-IsCounted : (m : Manager) (reqid : ℕ) → IsCounted m → IsCounted (send_close m reqid)
unfolding send_close close_found
send_close-IsCounted m reqid w = elim (Option-cases (lookup m reqid)) [
  | inl n ↦ rw n w
  | inr ((id, e), s) ↦
      let v : Entry = record e { last_activity = m.now } in
      rw s (
        clear-IsCounted (send (put m id v) (close reqid) e.session) reqid
          (put-IsCounted m id e v w (lookup-held m reqid id e s) refl refl))
]

pub destroy_stream-IsCounted :
    (m : Manager) (id : ℕ) → IsCounted m → IsCounted (destroy_stream m id)
unfolding destroy_stream
destroy_stream-IsCounted m id w = elim (Option-cases (get_elem? m.entries id)) [
  | inl n ↦ rw (n, destroy_stream) w
  | inr (e, s) ↦
      let v : Entry = record e { stream_destroyed = true } in
      rw (s, destroy_stream)
        (if_rule (λ (r : Manager). IsCounted r) e.stream_destroyed (λ b. w)
          (λ b. send_close-IsCounted (put m id v) e.reqid (put-IsCounted m id e v w s refl refl)))
]

pub destroy_socket-IsCounted :
    (m : Manager) (id : ℕ) → IsCounted m → IsCounted (destroy_socket m id)
unfolding destroy_socket
destroy_socket-IsCounted m id w = elim (Option-cases (get_elem? m.entries id)) [
  | inl n ↦ rw (n, destroy_socket) w
  | inr (e, s) ↦
      rw (s, destroy_socket)
        (put-IsCounted m id e (record e { socket_destroyed = true }) w s refl refl)
]
