-- ===== src/Xhttp/Active.antt =====
-- getActiveSessionId of tunnel/xhttpHandler.js: the session that the manager sends new requests to.
use block_proxy.Common.{
  Bool-cases, ℕ, ◌≤◌, ◌≡◌, refl, sym, arith, Bool, true, false, ◌&&◌, List, [], ◌∷◌, Option, none,
  some, ltb, if◌then◌else◌, ◌⊎◌, inl, inr, subst, ltb→lt, lt→ltb,
}
use mathlib.Core.Bool.{false≢true}
use block_proxy.Xhttp.State.{Session, Handler, is_open, latest_of, get_active_session_id}

-- A session of the map under this id.
abbrev pub Among : ℕ → Session → List (ℕ × Session) → Type 0
Among id s [] = ⊥
Among id s ((k, t) ∷ m) = ((k ≡ id) × (t ≡ s)) ⊎ Among id s m

-- What the result of the search says: a session at which every open one connected by then, or the
-- one that the search began with.
abbrev IsBest : List (ℕ × Session) → Option ℕ → ℕ → Option ℕ → Type 0
IsBest m latest order found =
    (order' : ℕ) × (order ≤ order')
    × ((id : ℕ) (s : Session) → Among id s m → is_open s ≡ true → s.connected_order ≤ order')
    × (((found ≡ latest) × (order' ≡ order))
        ⊎ ((id : ℕ) × (s : Session) × Among id s m
            × (is_open s ≡ true)
            × (found ≡ some id)
            × (s.connected_order ≡ order')))

open_and : (a b : Bool) → (a && b) ≡ true → (a ≡ true) × (b ≡ true)
open_and true b h = (refl, h)
open_and false b h = cc

not_newer : (a : Bool) (x y : ℕ) → (a && ltb x y) ≡ false → a ≡ true → y ≤ x
not_newer true x y h e = ground (arith, lt→ltb x y)
not_newer false x y h e = absurd (false≢true e)

all_cons :
    (k : ℕ) (t : Session) (m : List (ℕ × Session)) (o : ℕ)
    → (is_open t ≡ true → t.connected_order ≤ o)
    → ((id : ℕ) (s : Session) → Among id s m → is_open s ≡ true → s.connected_order ≤ o)
    → (id : ℕ) (s : Session) → Among id s ((k, t) ∷ m)
    → is_open s ≡ true
    → s.connected_order ≤ o
all_cons k t m o here rest id s (inl (p, q)) op =
    subst (λ x. is_open x ≡ true → x.connected_order ≤ o) q here op
all_cons k t m o here rest id s (inr a) op = rest id s a op

Found : List (ℕ × Session) → Option ℕ → ℕ → Option ℕ → ℕ → Type 0
Found m latest order found o =
    ((found ≡ latest) × (o ≡ order))
    ⊎ ((id : ℕ) × (s : Session) × Among id s m
        × (is_open s ≡ true)
        × (found ≡ some id)
        × (s.connected_order ≡ o))

here-Found :
    (k : ℕ) (t : Session) (m : List (ℕ × Session)) (latest : Option ℕ) (order : ℕ)
    (found : Option ℕ) (o : ℕ)
    → is_open t ≡ true
    → Found m (some k) t.connected_order found o
    → Found ((k, t) ∷ m) latest order found o
unfolding Found
here-Found k t m latest order found o op (inl (f, g)) = inr (k, t, inl (refl, refl), op, f, sym g)
here-Found k t m latest order found o op (inr (id, s, a, x, y, z)) = inr (id, s, inr a, x, y, z)

later-Found :
    (k : ℕ) (t : Session) (m : List (ℕ × Session)) (latest : Option ℕ) (order : ℕ)
    (found : Option ℕ) (o : ℕ)
    → Found m latest order found o
    → Found ((k, t) ∷ m) latest order found o
unfolding Found
later-Found k t m latest order found o (inl q) = inl q
later-Found k t m latest order found o (inr (id, s, a, x, y, z)) = inr (id, s, inr a, x, y, z)

cons-IsBest :
    (k : ℕ) (t : Session) (m : List (ℕ × Session)) (latest : Option ℕ) (order : ℕ) (newer : Bool)
    → (is_open t && ltb order t.connected_order) ≡ newer
    → ((l : Option ℕ) (o : ℕ) → IsBest m l o (latest_of m l o))
    → IsBest ((k, t) ∷ m) latest order (
        latest_of m (if newer then some k else latest) (if newer then t.connected_order else order))
unfolding Found
cons-IsBest k t m latest order true e ih =
    let (o, le, all, found) = ih (some k) t.connected_order in
    let (op, later) = open_and (is_open t) _ e in
    (
      o,
      omega (arith, ltb→lt order t.connected_order later),
      all_cons k t m o (λ _. le) all,
      here-Found k t m latest order _ o op found,
    )
cons-IsBest k t m latest order false e ih =
    let (o, le, all, found) = ih latest order in
    (
      o,
      le,
      all_cons k t m o (λ op. omega (arith, not_newer (is_open t) order t.connected_order e op))
          all,
      later-Found k t m latest order _ o found,
    )

latest_of-IsBest :
    (m : List (ℕ × Session)) (latest : Option ℕ) (order : ℕ)
    → IsBest m latest order (latest_of m latest order)
unfolding latest_of
latest_of-IsBest [] latest order = (order, omega arith, λ id s k o. absurd k, inl (refl, refl))
latest_of-IsBest ((k, t) ∷ m) latest order =
    cons-IsBest k t m latest order (is_open t && ltb order t.connected_order) refl
      (latest_of-IsBest m)

-- No open session of the map connected after the given place in the order.
abbrev pub NoneLater : ℕ → List (ℕ × Session) → Type 0
NoneLater o [] = Unit {0}
NoneLater o ((k, t) ∷ m) = ((is_open t ≡ false) ⊎ (t.connected_order ≤ o)) × NoneLater o m

all-NoneLater :
    (m : List (ℕ × Session)) (o : ℕ)
    → ((id : ℕ) (s : Session) → Among id s m → is_open s ≡ true → s.connected_order ≤ o)
    → NoneLater o m
all-NoneLater [] o h = tt
all-NoneLater ((k, t) ∷ m) o h = (
  elim (Bool-cases (is_open t)) [ inl e ↦ inr (h k t (inl (refl, refl)) e) | inr e ↦ inl e ],
  all-NoneLater m o λ id s a op. h id s (inr a) op,
)

-- New requests go to a session of the map whose stream is open, and no open session has connected
-- later; if there is none to go to, no open session has a place in the order.
pub get_active_session_id-NoneLater :
    (h : Handler)
    → ((get_active_session_id h ≡ none) × NoneLater 0 h.sessions)
      ⊎ ((id : ℕ) × (s : Session) × Among id s h.sessions
          × (is_open s ≡ true)
          × (get_active_session_id h ≡ some id)
          × NoneLater s.connected_order h.sessions)
unfolding get_active_session_id
get_active_session_id-NoneLater h =
    let (o, le, all, found) = latest_of-IsBest h.sessions none 0 in
    elim found [
      | inl (f, g) ↦ inl (f, all-NoneLater h.sessions 0 λ id s a op. omega (arith, all id s a op))
      | inr (id, s, a, op, f, g) ↦ inr (
        id,
        s,
        a,
        op,
        f,
        all-NoneLater h.sessions s.connected_order
            λ id' s' a' op'. omega (arith, all id' s' a' op'),
      )
    ]
