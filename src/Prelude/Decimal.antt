-- ===== src/Prelude/Decimal.antt =====
-- strconv.Itoa and %d of a number that is not negative. The fuel is one more than the number, and
-- each digit divides the number by ten.
use Prim.Native.Nat.{ℕ, zero, suc, ◌+◌, ◌-◌, ◌*◌, ◌/◌, ◌%◌, ◌<◌}
use mathlib.Core.Path.{◌≡◌, refl, ◌∙◌}
use mathlib.Core.Logic.{inl, inr}
use mathlib.Core.List.{[], ◌∷◌, ◌++◌}
use native.Mathlib.Omega.{arith}
use quackridge.Prelude.Tests.{ltb, if◌then◌else◌, Bool-cases}
use quackridge.Prelude.Text.{Text}

unfoldable pub decimal_fuel : (fuel n : ℕ) → Text
decimal_fuel zero n = []
decimal_fuel (suc fuel) n =
    let rest = decimal_fuel fuel (n / 10) in
    if ltb n 10 then (48 + n) ∷ [] else rest ++ ((48 + n % 10) ∷ [])

unfoldable pub decimal : ℕ → Text
decimal n = decimal_fuel (suc n) n

-- The number that digits denote, after those already read.
unfoldable pub read_digits : (seen : ℕ) → Text → ℕ
read_digits seen [] = seen
read_digits seen (c ∷ s) = read_digits (seen * 10 + (c - 48)) s

read_digits-append :
    (seen : ℕ) (s t : Text) → read_digits seen (s ++ t) ≡ read_digits (read_digits seen s) t
unfolding read_digits
read_digits-append seen [] t = refl
read_digits-append seen (c ∷ s) t = read_digits-append (seen * 10 + (c - 48)) s t

-- A last digit.
read_digits-last : (seen d : ℕ) → read_digits seen ((48 + d) ∷ []) ≡ seen * 10 + d
unfolding read_digits
read_digits-last seen d = omega arith

read_digits-fuel : (fuel n : ℕ) → n < fuel → read_digits 0 (decimal_fuel fuel n) ≡ n
unfolding decimal_fuel
read_digits-fuel zero n h = absurd (omega arith)
read_digits-fuel (suc fuel) n h = elim (Bool-cases (ltb n 10)) [
  | inl small ↦ rw small (read_digits-last 0 n ∙ omega arith)
  | inr large ↦
      let ih = read_digits-fuel fuel (n / 10) (ground arith) in
      rw large (
        read_digits-append 0 (decimal_fuel fuel (n / 10)) ((48 + n % 10) ∷ [])
        ∙ (read_digits-last (read_digits 0 (decimal_fuel fuel (n / 10))) (n % 10)
            ∙ omega (arith, ih)))
]

-- The fuel is enough for every number: what is printed is read back.
pub read_digits-decimal : (n : ℕ) → read_digits 0 (decimal n) ≡ n
unfolding decimal
read_digits-decimal n = read_digits-fuel (suc n) n (omega arith)
