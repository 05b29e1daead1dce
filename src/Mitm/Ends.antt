-- ===== src/Mitm/Ends.antt =====
-- What the tests on the end of a host in proxy/proxy.js say of the host.
use block_proxy.Common.{
  Bool, ◌≡◌, refl, true, false, ◌||◌, List, [], ◌∷◌, ◌++◌, take, drop, ◌+◌, ◌⊎◌, inl, inr,
  Bool-cases, Option-cases,
}
use block_proxy.Common.Texts.{
  IsFree, to_lower, index_of_char, last_index_of_char, last_index_of_char-none,
}
use block_proxy.Common.Contained.{has_suffix-split, index_of_char-split}
use block_proxy.Wire.Buffer.{Text}
use block_proxy.Mitm.Hosts.{trim_host, are_digits, ends_in, ends_in_any}

-- The host ends in the item, in any case of the letters.
abbrev pub EndsIn : Text → Text → Type 0
EndsIn host item = (p : Text) × (to_lower host ≡ p ++ to_lower item)

abbrev pub EndsInAny : List Text → Text → Type 0
EndsInAny [] host = ⊥
EndsInAny (item ∷ items) host = EndsIn host item ⊎ EndsInAny items host

pub either : (a b : Bool) → (a || b) ≡ true → (a ≡ true) ⊎ (b ≡ true)
either true b h = inl refl
either false b h = inr h

pub ends_in_any-EndsInAny :
    (host : Text) (items : List Text) → ends_in_any host items ≡ true → EndsInAny items host
unfolding ends_in_any
ends_in_any-EndsInAny host [] h = cc
ends_in_any-EndsInAny host (item ∷ items) h =
    elim (either (ends_in host item) (ends_in_any host items) h) [
      | inl e ↦ inl (has_suffix-split (to_lower host) (to_lower item) e)
      | inr e ↦ inr (ends_in_any-EndsInAny host items e)
    ]

-- A host without a colon is not cut; another one is kept or cut at its first colon.
pub trim_host-IsFree : (host : Text) → IsFree b':' host → trim_host host ≡ host
unfolding trim_host
trim_host-IsFree host f = rw (last_index_of_char-none host b':' f, trim_host) refl

pub trim_host-cases :
    (host : Text)
    → (trim_host host ≡ host)
      ⊎ ((name rest : Text) × IsFree b':' name
          × (host ≡ name ++ (b':' ∷ rest))
          × (trim_host host ≡ name))
unfolding trim_host
trim_host-cases host = elim (Option-cases (last_index_of_char host b':')) [
  | inl n ↦ inl (rw (n, trim_host) refl)
  | inr (i, e) ↦ elim (Bool-cases (are_digits (drop (i + 1) host))) [
    | inr g ↦ inl (rw (e, trim_host) (rw g refl))
    | inl g ↦ elim (Option-cases (index_of_char host b':')) [
      | inl n ↦ inl (rw (e, trim_host) (rw (g, n) refl))
      | inr (j, f) ↦
          let (rest, free, s) = index_of_char-split host b':' j f in
          inr (take j host, rest, free, s, rw (e, trim_host) (rw (g, f) refl))
    ]
  ]
]
