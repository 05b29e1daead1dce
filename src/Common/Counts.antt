-- ===== src/Common/Counts.antt =====
-- How many elements of a list pass a test, and what a write does to that.
use Prim.Native.Nat.{ℕ, zero, suc, ◌+◌}
use mathlib.Core.Path.{◌≡◌}
use mathlib.Core.Bool.{Bool, true, false}
use mathlib.Core.List.{List, [], ◌∷◌, ◌++◌}
use mathlib.Core.Option.{some}
use native.Mathlib.Omega.{arith}
use block_proxy.Common.Lists.{get_elem?, set}

abbrev pub unit_of : Bool → ℕ
unit_of true = 1
unit_of false = 0

module _ {ℓ} {A : Type ℓ} (p : A → Bool) where
  unfoldable pub tally_of : List A → ℕ
  tally_of [] = 0
  tally_of (x ∷ xs) = unit_of (p x) + tally_of xs

  pub tally_of-set :
      (xs : List A) (i : ℕ) (x v : A)
      → get_elem? xs i ≡ some x
      → tally_of (set xs i v) + unit_of (p x) ≡ tally_of xs + unit_of (p v)
  unfolding tally_of
  tally_of-set [] i x v e = ground arith
  tally_of-set (y ∷ xs) zero x v e = ground arith
  tally_of-set (y ∷ xs) (suc i) x v e = ground (arith, tally_of-set xs i x v e)

  pub tally_of-back :
      (xs : List A) (x : A) → tally_of (xs ++ (x ∷ [])) ≡ tally_of xs + unit_of (p x)
  unfolding tally_of
  tally_of-back [] x = omega arith
  tally_of-back (y ∷ xs) x = omega (arith, tally_of-back xs x)
