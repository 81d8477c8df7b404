-- ===== src/Prelude/Int.antt =====
-- Go's int where a sign matters: the integers, with the comparisons that the code makes.
use Prim.Native.Nat.{ℕ, suc}
use mathlib.Core.Bool.{Bool, true, false}
use mathlib.Core.List.{◌∷◌}
use quackridge.Prelude.Text.{Text}
use quackridge.Prelude.Decimal.{decimal}
use quackridge.Prelude.Tests.{ltb, ◌==◌}

-- `negsuc n` is -(n + 1).
pub data ℤ : Type 0 where
  pos : ℕ → ℤ
  negsuc : ℕ → ℤ

-- a < b
abbrev pub ltb_ℤ : ℤ → ℤ → Bool
ltb_ℤ (pos a) (pos b) = ltb a b
ltb_ℤ (pos a) (negsuc b) = false
ltb_ℤ (negsuc a) (pos b) = true
ltb_ℤ (negsuc a) (negsuc b) = ltb b a

-- a <= 0
abbrev pub is_not_positive : ℤ → Bool
is_not_positive (pos a) = a == 0
is_not_positive (negsuc a) = true

-- a == n
abbrev pub eq_ℤ : ℤ → ℕ → Bool
eq_ℤ (pos a) n = a == n
eq_ℤ (negsuc a) n = false

-- The number that a value known to be at least 0 is.
abbrev pub natural_part : ℤ → ℕ
natural_part (pos a) = a
natural_part (negsuc a) = 0

-- strconv.Itoa
unfoldable pub itoa : ℤ → Text
itoa (pos n) = decimal n
itoa (negsuc n) = b'-' ∷ decimal (suc n)
