-- ===== src/Xhttp/Tokens.antt =====
-- _closeSession of tunnel/xhttpHandler.js on both maps: the sessions by their ids, and the ids by
-- their tokens.
use block_proxy.Common.{
  ℕ, arith, ◌≡◌, refl, subst, ap, ◌∙◌, Bool, false, ◌&&◌, List, [], ◌∷◌, Option, none, some, ◌==◌,
  ==→eq, if◌then◌else◌, inl, inr, Bool-cases, Option-cases, text_eq, text_eq→eq, text_eq_off,
}
use block_proxy.Wire.Buffer.{Text}
use block_proxy.Manager.State.{find}
use block_proxy.Xhttp.State.{Session, Handler, member, remove, ids_of, keep_nonempty, unregister}
use block_proxy.Xhttp.Sessions.{close_found, close_session, end_stream}
use block_proxy.Xhttp.Closing.{find-close_session}

-- A map from tokens holds each token once.
abbrev pub IsTokenMap : List (Text × List ℕ) → Type 0
IsTokenMap [] = Unit
IsTokenMap ((t, ids) ∷ m) = (ids_of m t ≡ []) × IsTokenMap m

member-remove :
    (ids : List ℕ) (id j : ℕ) → member (remove ids id) j ≡ (if id == j then false else member ids j)
unfolding member remove
member-remove [] id j = elim (Bool-cases (id == j)) [ inl e ↦ rw e refl | inr e ↦ rw e refl ]
member-remove (i ∷ ids) id j = elim (Bool-cases (i == id)) [
  | inl e ↦
      let same : (i == j) ≡ (id == j) = ap (λ k. k == j) (==→eq i id e) in
      elim (Bool-cases (id == j)) [
        | inl f ↦ rw (e, f) (member-remove ids id j ∙ rw f refl)
        | inr f ↦ rw (e, same, f) (member-remove ids id j ∙ rw f refl)
      ]
  | inr e ↦ elim (Bool-cases (i == j)) [
    | inl f ↦ let apart : (id == j) ≡ false = ground arith in rw (e, f, apart) refl
    | inr f ↦ rw (e, f) (member-remove ids id j)
  ]
]

ids_of-keep_nonempty :
    (t u : Text) (ids : List ℕ) (m : List (Text × List ℕ))
    → ids_of m t ≡ []
    → ids_of (keep_nonempty t ids m) u ≡ (if text_eq t u then ids else ids_of m u)
unfolding ids_of
ids_of-keep_nonempty t u [] m n = elim (Bool-cases (text_eq t u)) [
  | inl e ↦ rw e (subst (λ q. ids_of m q ≡ []) (text_eq→eq t u e) n)
  | inr e ↦ rw e refl
]
ids_of-keep_nonempty t u (i ∷ ids) m n = refl

member-unregister :
    (m : List (Text × List ℕ)) (t u : Text) (id j : ℕ)
    → IsTokenMap m
    → member (ids_of (unregister m t id) u) j
      ≡ (if text_eq t u && (id == j) then false else member (ids_of m u) j)
unfolding unregister ids_of member
member-unregister [] t u id j o = elim (Bool-cases (text_eq t u && (id == j))) [
  | inl e ↦ rw e refl
  | inr e ↦ rw e refl
]
member-unregister ((t', ids) ∷ m) t u id j (n, o) = elim (Bool-cases (text_eq t' t)) [
  | inl e ↦
      let same : text_eq t' u ≡ text_eq t u = ap (λ q. text_eq q u) (text_eq→eq t' t e) in
      rw e (
        ap (λ q. member q j) (ids_of-keep_nonempty t' u (remove ids id) m n)
        ∙ elim (Bool-cases (text_eq t u)) [
          | inl f ↦ rw (same, f) (member-remove ids id j)
          | inr f ↦ rw (same, f) refl
        ])
  | inr e ↦ elim (Bool-cases (text_eq t' u)) [
    | inl f ↦ rw (e, f, text_eq_off t' t u e f) refl
    | inr f ↦ rw (e, f) (member-unregister m t u id j o)
  ]
]

end_stream-token_sessions :
    (h : Handler) (r : Option ℕ) → (end_stream h r).token_sessions ≡ h.token_sessions
end_stream-token_sessions h none = refl
end_stream-token_sessions h (some r) = refl

-- The session that is closed stands under its own token only.
abbrev pub has_token : Option Session → Text → Bool
has_token none t = false
has_token (some s) t = text_eq s.token t

close_session-token_sessions :
    (h : Handler) (id j : ℕ) (t : Text)
    → IsTokenMap h.token_sessions
    → member (ids_of (close_session h id).token_sessions t) j ≡ (
        if has_token (find h.sessions id) t && (id == j)
        then false
        else member (ids_of h.token_sessions t) j)
unfolding close_session close_found
close_session-token_sessions h id j t o = elim (Option-cases (find h.sessions id)) [
  | inl n ↦ rw n refl
  | inr (s, e) ↦ rw e (
      ap (λ m. member (ids_of m t) j) (end_stream-token_sessions _ s.sse_res)
      ∙ member-unregister h.token_sessions s.token t id j o)
]

-- After a close, where the map from tokens holds each token once: the session is found no more, and
-- what is found under every other id stays; the id is gone from the set of the session's token, and
-- every other id stays in the set of every token.
pub close_session-find :
    (h : Handler) (id j : ℕ) (t : Text)
    → IsTokenMap h.token_sessions
    → (find (close_session h id).sessions j ≡ (if id == j then none else find h.sessions j))
      × (member (ids_of (close_session h id).token_sessions t) j ≡ (
          if has_token (find h.sessions id) t && (id == j)
          then false
          else member (ids_of h.token_sessions t) j))
close_session-find h id j t o = (find-close_session h id j, close_session-token_sessions h id j t o)
