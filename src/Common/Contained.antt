-- ===== src/Common/Contained.antt =====
-- What a search in a text says of the text: the parts around what was found.
use Prim.Native.Nat.{ℕ, suc, ◌+◌, ◌-◌}
use native.Mathlib.Omega.{arith}
use mathlib.Core.Path.{◌≡◌, refl, sym, ap, ◌∙◌}
use mathlib.Core.Logic.{◌⊎◌, inl, inr}
use mathlib.Core.Bool.{true}
use mathlib.Core.List.{List, [], ◌∷◌, ◌++◌, append_assoc, append-nil}
use mathlib.Core.Option.{none, some}
use block_proxy.Common.Lists.{length, take, drop, take-append-drop}
use block_proxy.Common.Tests.{leb, ◌==◌, ==→eq, text_eq, text_eq→eq, both, Bool-cases, Option-cases}
use block_proxy.Common.Texts.{IsFree, has_prefix, has_suffix, includes, index_of_char, split_at}

pub has_prefix-split : (t p : List ℕ) → has_prefix t p ≡ true → (q : List ℕ) × (t ≡ p ++ q)
unfolding has_prefix
has_prefix-split t p h = (
  drop (length p) t,
  sym (take-append-drop (length p) t)
      ∙ ap (λ q. q ++ drop (length p) t) (text_eq→eq (take (length p) t) p h),
)

pub has_suffix-split : (t p : List ℕ) → has_suffix t p ≡ true → (q : List ℕ) × (t ≡ q ++ p)
unfolding has_suffix
has_suffix-split t p h =
    let n = length t - length p in
    let (fits, same) = both (leb (length p) (length t)) _ h in
    (take n t, sym (take-append-drop n t) ∙ ap (◌++◌ (take n t)) (text_eq→eq (drop n t) p same))

pub includes-split : (t p : List ℕ) → includes t p ≡ true → (q r : List ℕ) × (t ≡ q ++ (p ++ r))
unfolding includes text_eq
includes-split [] [] h = ([], [], refl)
includes-split [] (d ∷ p) h = cc
includes-split (c ∷ t) p h = elim (Bool-cases (has_prefix (c ∷ t) p)) [
  | inl e ↦ let (r, s) = has_prefix-split (c ∷ t) p e in ([], r, s)
  | inr e ↦ let (q, r, s) = includes-split t p (rw e at h) in (c ∷ q, r, ap (◌∷◌ c) s)
]

pub index_of_char-split :
    (t : List ℕ) (c i : ℕ)
    → index_of_char t c ≡ some i
    → (rest : List ℕ) × IsFree c (take i t) × (t ≡ take i t ++ (c ∷ rest))
unfolding index_of_char
index_of_char-split [] c i h = cc
index_of_char-split (d ∷ t) c i h = elim (Bool-cases (d == c)) [
  | inl e ↦
      let found : some 0 ≡ some i = rw e at h in
      let first : 0 ≡ i = cc in rw (sym first) (t, tt, ap (λ q. q ∷ t) (==→eq d c e))
  | inr e ↦ elim (Option-cases (index_of_char t c)) [
    | inl n ↦ let found : none ≡ some i = rw (e, n) at h in cc
    | inr (j, f) ↦
        let found : some (j + 1) ≡ some i = rw (e, f) at h in
        let same : j + 1 ≡ i = cc in
        let next : suc j ≡ i = omega arith in
        let (rest, free, s) = index_of_char-split t c j f in
        rw (sym next) (rest, (e, free), ap (◌∷◌ d) s)
  ]
]

-- The first part of a split text, and what is behind the first separator.
pub split_at-cases :
    (sep : ℕ) (seen t : List ℕ)
    → (split_at sep seen t ≡ (seen ++ t) ∷ [])
      ⊎ ((a b : List ℕ) × (t ≡ a ++ (sep ∷ b))
          × (split_at sep seen t ≡ (seen ++ a) ∷ split_at sep [] b))
unfolding split_at
split_at-cases sep seen [] = inl (ap (λ q. q ∷ []) (sym (append-nil seen)))
split_at-cases sep seen (c ∷ t) = elim (Bool-cases (c == sep)) [
  | inl e ↦ inr (
    [],
    t,
    ap (λ q. q ∷ t) (==→eq c sep e),
    rw e (ap (λ q. q ∷ split_at sep [] t) (sym (append-nil seen))),
  )
  | inr e ↦ elim (split_at-cases sep (seen ++ (c ∷ [])) t) [
    | inl s ↦ inl (rw e (s ∙ ap (λ q. q ∷ []) (append_assoc seen (c ∷ []) t)))
    | inr (a, b, w, s) ↦ inr (
      c ∷ a,
      b,
      ap (◌∷◌ c) w,
      rw e (s ∙ ap (λ q. q ∷ split_at sep [] b) (append_assoc seen (c ∷ []) a)),
    )
  ]
]
