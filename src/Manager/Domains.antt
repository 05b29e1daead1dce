-- ===== src/Manager/Domains.antt =====
-- matchesTunnelDomain of tunnel/manager.js: the hosts that belong to the tunnel.
use block_proxy.Common.{
  take-append-drop, both, ℕ, ◌+◌, ◌-◌, ◌≡◌, ◌↔◌, refl, sym, ap, ◌∙◌, arith, true, List, [], ◌∷◌,
  ◌++◌, length, take, drop, leb, length-append, drop-append, text_eq, text_eq_refl, text_eq→eq, ◌⊎◌,
  inl, inr, Bool-cases,
}
use block_proxy.Wire.Buffer.{Text}
use block_proxy.Manager.State.{Manager, ends_with, matches_any, matches_tunnel_domain}

-- The domain itself, or a name under it.
abbrev pub IsUnder : Text → Text → Type 0
IsUnder host d = (host ≡ d) ⊎ ((p : Text) × (host ≡ p ++ (b'.' ∷ d)))

abbrev pub AnyUnder : List Text → Text → Type 0
AnyUnder [] host = ⊥
AnyUnder (d ∷ ds) host = IsUnder host d ⊎ AnyUnder ds host

ends_with-split :
    (host suffix : Text) → ends_with host suffix ≡ true → (p : Text) × (host ≡ p ++ suffix)
unfolding ends_with
ends_with-split host suffix h =
    let n = length host - length suffix in
    let (fits, same) = both (leb (length suffix) (length host)) _ h in
    (
      take n host,
      sym (take-append-drop n host)
          ∙ ap (◌++◌ (take n host)) (text_eq→eq (drop n host) suffix same),
    )

sub_back : (a b : ℕ) → a + b - b ≡ a
sub_back a b = omega arith

fits_back : (a b : ℕ) → leb b (a + b) ≡ true
fits_back a b = ground arith

ends_with-append : (p suffix : Text) → ends_with (p ++ suffix) suffix ≡ true
unfolding ends_with
ends_with-append p suffix =
    rw
      (
        length-append p suffix,
        fits_back (length p) (length suffix),
        sub_back (length p) (length suffix),
        drop-append (length p) p suffix refl,
      )
      (text_eq_refl suffix)

matches_any-found : (ds : List Text) (host : Text) → matches_any ds host ≡ true → AnyUnder ds host
unfolding matches_any
matches_any-found [] host h = cc
matches_any-found (d ∷ ds) host h = elim (Bool-cases (text_eq host d)) [
  | inl e ↦ inl (inl (text_eq→eq host d e))
  | inr e ↦ elim (Bool-cases (ends_with host (b'.' ∷ d))) [
    | inl f ↦ inl (inr (ends_with-split host (b'.' ∷ d) f))
    | inr f ↦ inr (matches_any-found ds host (rw (e, f) at h))
  ]
]

found-matches_any : (ds : List Text) (host : Text) → AnyUnder ds host → matches_any ds host ≡ true
unfolding matches_any
found-matches_any [] host h = absurd h
found-matches_any (d ∷ ds) host (inl (inl e)) = rw (e, text_eq_refl d) refl
found-matches_any (d ∷ ds) host (inl (inr (p, e))) = elim (Bool-cases (text_eq host d)) [
  | inl f ↦ rw f refl
  | inr f ↦
      let ends : ends_with host (b'.' ∷ d) ≡ true = rw e (ends_with-append p (b'.' ∷ d)) in
      rw (f, ends) refl
]
found-matches_any (d ∷ ds) host (inr h) = elim (Bool-cases (text_eq host d)) [
  | inl f ↦ rw f refl
  | inr f ↦ elim (Bool-cases (ends_with host (b'.' ∷ d))) [
    | inl g ↦ rw (f, g) refl
    | inr g ↦ rw (f, g) (found-matches_any ds host h)
  ]
]

-- A host matches exactly when it is one of the tunnel's domains or ends in a dot and one of them.
pub matches_tunnel_domain-AnyUnder :
    (m : Manager) (host : Text)
    → (matches_tunnel_domain m host ≡ true) ↔ AnyUnder m.tunnel_domains host
unfolding matches_tunnel_domain
matches_tunnel_domain-AnyUnder m host =
    (matches_any-found m.tunnel_domains host, found-matches_any m.tunnel_domains host)
