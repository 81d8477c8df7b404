-- ===== src/Errors/Result.antt =====
-- A Go function that returns a value and an error: the value where the error is nil.
use quackridge.Prelude.{◌≡◌, refl, ◌⊎◌, inl, inr}
use quackridge.Errors.Defs.{GoError}

pub data Result {ℓ} (V : Type ℓ) : Type ℓ where
  ok : V → Result V
  err : GoError → Result V

pub Result-cases {ℓ} :
    {A : Type ℓ} (r : Result A) → ((a : A) × (r ≡ ok a)) ⊎ ((e : GoError) × (r ≡ err e))
Result-cases (ok a) = inl (a, refl)
Result-cases (err e) = inr (e, refl)
