-- ===== src/Common/Results.antt =====
-- Code that throws: a value or the error, with `do` blocks.
use mathlib.Core.Path.{◌≡◌, refl}
use mathlib.Core.Bool.{Bool, true, false}
use mathlib.Core.Logic.{◌⊎◌, inl, inr}

pub data Result {ℓ} (Thrown : Type 0) (Value : Type ℓ) : Type ℓ where
  err : Thrown → Result Thrown Value
  ok : Value → Result Thrown Value

module _ {Thrown : Type 0} where
  pub Result-cases {ℓ} :
      {Value : Type ℓ} (r : Result Thrown Value)
      → ((v : Value) × (r ≡ ok v)) ⊎ ((t : Thrown) × (r ≡ err t))
  Result-cases (err t) = inr (t, refl)
  Result-cases (ok v) = inl (v, refl)

  -- `if (bad) throw new Error(...)`
  abbrev pub throw_if : Bool → Thrown → Result Thrown (Unit {0})
  throw_if false t = ok tt
  throw_if true t = err t

  infixl 5 ◌>>◌
  -- What follows a statement that may throw.
  abbrev pub ◌>>◌ {κ} :
      {Next : Type κ} → Result Thrown (Unit {0}) → Result Thrown Next → Result Thrown Next
  err t >> next = err t
  ok _ >> next = next

  module _ {ℓ κ} {Value : Type ℓ} {Next : Type κ} where
    infixl 5 ◌>>=◌
    abbrev pub ◌>>=◌ : Result Thrown Value → (Value → Result Thrown Next) → Result Thrown Next
    err t >>= next = err t
    ok v >>= next = next v

    -- The value that a chain without an error passed on.
    pub >>=-eq-ok :
        (r : Result Thrown Value) (next : Value → Result Thrown Next) {w : Next}
        → r >>= next ≡ ok w
        → (v : Value) × (r ≡ ok v) × (next v ≡ ok w)
    >>=-eq-ok (err t) next q = cc
    >>=-eq-ok (ok v) next q = (v, refl, q)
