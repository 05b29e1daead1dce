-- ===== src/Xhttp/Closing.antt =====
-- _closeSession and the sweeps of tunnel/xhttpHandler.js: who is gone afterwards, and who is not.
use block_proxy.Common.{
  ℕ, ◌-◌, ◌≤◌, ltb, ◌↔◌, ◌≡◌, ◌≢◌, refl, sym, subst, ◌∙◌, arith, true, false, List, [], ◌∷◌, Option,
  none, some, ◌==◌, ==→eq, ap, if◌then◌else◌, ◌⊎◌, inl, inr, Bool-cases, Option-cases, if_rule,
}
use block_proxy.Manager.Maps.{find-delete, find-delete_other}
use block_proxy.Manager.State.{find, delete}
use block_proxy.Xhttp.State.{Session, Handler, member}
use block_proxy.Xhttp.Sessions.{
  close_found, close_session, close_each, is_stale, stale_ids, sweep_stale_sessions, end_stream,
}

end_stream-sessions : (h : Handler) (r : Option ℕ) → (end_stream h r).sessions ≡ h.sessions
end_stream-sessions h none = refl
end_stream-sessions h (some r) = refl

close_session-sessions :
    (h : Handler) (id : ℕ)
    → ((close_session h id).sessions ≡ delete h.sessions id)
      ⊎ ((close_session h id ≡ h) × (find h.sessions id ≡ none))
unfolding close_session close_found
close_session-sessions h id = elim (Option-cases (find h.sessions id)) [
  | inl n ↦ inr (rw n refl, n)
  | inr (s, e) ↦ inl (rw e (end_stream-sessions _ s.sse_res))
]

gone : (h : Handler) (id : ℕ) → find (close_session h id).sessions id ≡ none
gone h id = elim (close_session-sessions h id) [
  | inl e ↦ rw e (find-delete h.sessions id)
  | inr (e, n) ↦ rw e n
]

pub close_session-others :
    (h : Handler) (id j : ℕ) → id ≢ j → find (close_session h id).sessions j ≡ find h.sessions j
close_session-others h id j k = elim (close_session-sessions h id) [
  | inl e ↦ rw e (find-delete_other h.sessions id j k)
  | inr (e, n) ↦ rw e refl
]

differ : (i k : ℕ) → (i == k) ≡ false → i ≢ k
differ i k c q = ground arith

pub find-close_session :
    (h : Handler) (id j : ℕ)
    → find (close_session h id).sessions j ≡ (if id == j then none else find h.sessions j)
find-close_session h id j = elim (Bool-cases (id == j)) [
  | inl e ↦ rw e (ap (λ k. find (close_session h id).sessions k) (sym (==→eq id j e)) ∙ gone h id)
  | inr e ↦ rw e (close_session-others h id j (differ id j e))
]

-- What is found after some closes was found before.
close_each-find :
    (ids : List ℕ) (h : Handler) (k : ℕ) (s : Session)
    → find (close_each h ids).sessions k ≡ some s
    → (find h.sessions k ≡ some s) × (member ids k ≡ false)
unfolding close_each member
close_each-find [] h k s e = (e, refl)
close_each-find (id ∷ ids) h k s e =
    let (f, g) = close_each-find ids (close_session h id) k s e in
    elim (Bool-cases (id == k)) [
      | inl c ↦
          let none_left = gone h id in
          let same = ==→eq id k c in
          let nothing = subst (λ j. find (close_session h id).sessions j ≡ none) same none_left in
          cc
      | inr c ↦ (sym (close_session-others h id k (differ id k c)) ∙ f, rw c g)
    ]

stale_ids-member :
    (h : Handler) (m : List (ℕ × Session)) (k : ℕ) (s : Session)
    → find m k ≡ some s
    → is_stale h s ≡ true
    → member (stale_ids h m) k ≡ true
unfolding find stale_ids member
stale_ids-member h [] k s e st = cc
stale_ids-member h ((k', v) ∷ m) k s e st = elim (Bool-cases (k' == k)) [
  | inl c ↦
      let found : some v ≡ some s = rw c at e in
      let same : v ≡ s = cc in
      let old : is_stale h v ≡ true = subst (λ x. is_stale h x ≡ true) (sym same) st in
      rw (old, c) refl
  | inr c ↦
      let later = stale_ids-member h m k s (rw c at e) st in
      if_rule (λ ids. member ids k ≡ true) (is_stale h v) (λ _. rw c later) (λ _. later)
]

-- A map from ids holds each id once.
abbrev pub IsMap : List (ℕ × Session) → Type 0
IsMap [] = Unit
IsMap ((k, s) ∷ m) = (find m k ≡ none) × IsMap m

stale_ids-absent :
    (h : Handler) (m : List (ℕ × Session)) (k : ℕ)
    → find m k ≡ none
    → member (stale_ids h m) k ≡ false
unfolding find stale_ids member
stale_ids-absent h [] k n = refl
stale_ids-absent h ((k', v) ∷ m) k n = elim (Bool-cases (k' == k)) [
  | inl c ↦ let found : some v ≡ none = rw c at n in cc
  | inr c ↦
      let later = stale_ids-absent h m k (rw c at n) in
      if_rule (λ ids. member ids k ≡ false) (is_stale h v) (λ _. rw c later) (λ _. later)
]

stale_ids-kept :
    (h : Handler) (m : List (ℕ × Session)) (k : ℕ) (s : Session)
    → IsMap m
    → find m k ≡ some s
    → is_stale h s ≡ false
    → member (stale_ids h m) k ≡ false
unfolding find stale_ids member
stale_ids-kept h [] k s o e st = refl
stale_ids-kept h ((k', v) ∷ m) k s (n, o) e st = elim (Bool-cases (k' == k)) [
  | inl c ↦
      let found : some v ≡ some s = rw c at e in
      let same : v ≡ s = cc in
      let young : is_stale h v ≡ false = subst (λ x. is_stale h x ≡ false) (sym same) st in
      let once = subst (λ j. find m j ≡ none) (==→eq k' k c) n in
      rw young (stale_ids-absent h m k once)
  | inr c ↦
      let later = stale_ids-kept h m k s o (rw c at e) st in
      if_rule (λ ids. member ids k ≡ false) (is_stale h v) (λ _. rw c later) (λ _. later)
]

close_each-kept :
    (ids : List ℕ) (h : Handler) (k : ℕ)
    → member ids k ≡ false
    → find (close_each h ids).sessions k ≡ find h.sessions k
unfolding close_each member
close_each-kept [] h k e = refl
close_each-kept (id ∷ ids) h k e = elim (Bool-cases (id == k)) [
  | inl c ↦ let found : true ≡ false = rw c at e in cc
  | inr c ↦
      close_each-kept ids (close_session h id) k (rw c at e)
      ∙ close_session-others h id k (differ id k c)
]

-- No stream is open, or the other side was heard of within the timeout.
abbrev pub IsAlive : Handler → Session → Type 0
IsAlive h s = (s.sse_res ≡ none) ⊎ (h.now - s.last_activity ≤ h.liveness_timeout)

late : (a b : ℕ) → ltb a b ≡ false → b ≤ a
late a b h = ground arith

on_time : (a b : ℕ) → b ≤ a → ltb a b ≡ false
on_time a b h = ground arith

is_stale-IsAlive : (h : Handler) (s : Session) → is_stale h s ≡ false → IsAlive h s
is_stale-IsAlive h s e = elim (Option-cases s.sse_res) [
  | inl n ↦ inl n
  | inr (r, o) ↦ inr (late h.liveness_timeout (h.now - s.last_activity) (rw o at e))
]

IsAlive-is_stale : (h : Handler) (s : Session) → IsAlive h s → is_stale h s ≡ false
IsAlive-is_stale h s (inl n) = rw n refl
IsAlive-is_stale h s (inr t) = elim (Option-cases s.sse_res) [
  | inl n ↦ rw n refl
  | inr (r, o) ↦ rw o (on_time h.liveness_timeout (h.now - s.last_activity) t)
]

-- In a map that holds each id once, a session is found after a sweep exactly when it was found
-- before and has no open stream, or was heard of within the timeout: the sweep closes every open
-- stream that has been silent for longer, and nothing else.
pub sweep_stale_sessions-find :
    (h : Handler) (k : ℕ) (s : Session)
    → IsMap h.sessions
    → (find (sweep_stale_sessions h).sessions k ≡ some s)
      ↔ ((find h.sessions k ≡ some s) × IsAlive h s)
unfolding sweep_stale_sessions
sweep_stale_sessions-find h k s o = (
  λ e.
      let (f, g) = close_each-find (stale_ids h h.sessions) h k s e in
      (
        f,
        elim (Bool-cases (is_stale h s)) [
          | inl st ↦ let there = stale_ids-member h h.sessions k s f st in cc
          | inr st ↦ is_stale-IsAlive h s st
        ],
      ),
  λ (e : (find h.sessions k ≡ some s) × IsAlive h s).
      close_each-kept (stale_ids h h.sessions) h k
        (stale_ids-kept h h.sessions k s o e.0 (IsAlive-is_stale h s e.1))
      ∙ e.0,
)
