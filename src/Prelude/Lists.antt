-- ===== src/Prelude/Lists.antt =====
-- Lists measured by native numbers, and sets of texts as lists.
use Prim.Native.Nat.{ℕ, zero, suc, ◌+◌, ◌≤◌}
use mathlib.Core.Path.{◌≡◌, refl}
use mathlib.Core.Bool.{Bool, true, false, ◌&&◌, ◌||◌}
use mathlib.Core.Logic.{◌⊎◌, inl, inr}
use mathlib.Core.List.{List, [], ◌∷◌, ◌++◌}
use native.Mathlib.Omega.{arith}
use quackridge.Prelude.Tests.{Bool-cases}
use quackridge.Prelude.Text.{Text, text_eq, text_eq_iff}

module _ {ℓ} {A : Type ℓ} where
  abbrev pub length : List A → ℕ
  length [] = 0
  length (x ∷ xs) = suc (length xs)

  pub length-append : (xs ys : List A) → length (xs ++ ys) ≡ length xs + length ys
  length-append [] ys = omega arith
  length-append (x ∷ xs) ys = omega (arith, length-append xs ys)

module _ {ℓ} {A : Type ℓ} where
  abbrev pub take : ℕ → List A → List A
  take zero xs = []
  take (suc n) [] = []
  take (suc n) (x ∷ xs) = x ∷ take n xs

  pub length-take-le : (n : ℕ) (xs : List A) → length (take n xs) ≤ n
  length-take-le zero xs = omega arith
  length-take-le (suc n) [] = omega arith
  length-take-le (suc n) (x ∷ xs) = omega (arith, length-take-le n xs)

-- `all p xs` and `any p xs` that run in tests.
unfoldable pub all {ℓ} : {A : Type ℓ} → (A → Bool) → List A → Bool
all p [] = true
all p (x ∷ xs) = p x && all p xs

-- A predicate at every element, and at some element.
abbrev pub All {ℓ κ} : {A : Type ℓ} → (A → Type κ) → List A → Type κ
All P [] = Unit
All P (x ∷ xs) = P x × All P xs

-- Membership of a text in a list, as a type.
abbrev pub In : Text → List Text → Type 0
In t [] = ⊥
In t (x ∷ xs) = (x ≡ t) ⊎ In t xs

-- slices.Contains, and the membership test of a map[string]struct{}.
unfoldable pub contains : List Text → Text → Bool
contains [] t = false
contains (x ∷ xs) t = text_eq x t || contains xs t

pub contains-In : (xs : List Text) (t : Text) → contains xs t ≡ true → In t xs
unfolding contains
contains-In [] t h = cc
contains-In (x ∷ xs) t h = elim (Bool-cases (text_eq x t)) [
  | inl e ↦ inl ((text_eq_iff x t).0 e)
  | inr e ↦ inr (contains-In xs t (ground arith))
]

pub In-contains : (xs : List Text) (t : Text) → In t xs → contains xs t ≡ true
unfolding contains
In-contains [] t h = absurd h
In-contains (x ∷ xs) t (inl e) = ground (arith, text_eq_iff x t)
In-contains (x ∷ xs) t (inr h) = ground (arith, In-contains xs t h)

pub contains-append :
    (xs ys : List Text) (t : Text) → contains (xs ++ ys) t ≡ (contains xs t || contains ys t)
unfolding contains
contains-append [] ys t = refl
contains-append (x ∷ xs) ys t = ground (arith, contains-append xs ys t)
