-- ===== src/Manager/Maps.antt =====
-- Laws of the map operations of State.
use block_proxy.Common.{
  ℕ, ◌≡◌, ◌≢◌, refl, sym, ◌∙◌, List, [], ◌∷◌, none, ◌==◌, ==→eq, inl, inr, Bool-cases,
}
use block_proxy.Manager.State.{find, delete}

pub find-delete : {A : Type 0} (m : List (ℕ × A)) (k : ℕ) → find (delete m k) k ≡ none
unfolding find delete
find-delete [] k = refl
find-delete ((k', v) ∷ m) k = elim (Bool-cases (k' == k)) [
  | inl e ↦ rw e (find-delete m k)
  | inr e ↦ rw (e, e) (find-delete m k)
]

pub find-delete_other :
    {A : Type 0} (m : List (ℕ × A)) (k j : ℕ) → k ≢ j → find (delete m k) j ≡ find m j
unfolding find delete
find-delete_other [] k j h = refl
find-delete_other ((k', v) ∷ m) k j h = elim (Bool-cases (k' == k)) [
  | inl e ↦ elim (Bool-cases (k' == j)) [
    | inl f ↦ absurd (h (sym (==→eq k' k e) ∙ ==→eq k' j f))
    | inr f ↦ rw (e, f) (find-delete_other m k j h)
  ]
  | inr e ↦ elim (Bool-cases (k' == j)) [
    | inl f ↦ rw (e, f) refl
    | inr f ↦ rw (e, f) (find-delete_other m k j h)
  ]
]
