-- ===== src/Prelude/Sort.antt =====
-- slices.Sort on texts. The sorted order of a list is unique, so an insertion sort stands for it.
use quackridge.Prelude.{
  ◌≡◌, refl, ◌⊎◌, inl, inr, true, false, ◌||◌, List, [], ◌∷◌, arith, if◌then◌else◌, Bool-cases,
}
use quackridge.Prelude.Text.{Text, text_eq, text_leb}
use quackridge.Prelude.Lists.{contains}

unfoldable pub sort_insert : Text → List Text → List Text
sort_insert t [] = t ∷ []
sort_insert t (x ∷ xs) =
    let rest = sort_insert t xs in if text_leb t x then t ∷ x ∷ xs else x ∷ rest

unfoldable pub sort : List Text → List Text
unfolding sort_insert
sort [] = []
sort (x ∷ xs) = sort_insert x (sort xs)

pub text_leb_refl : (s : Text) → text_leb s s ≡ true
unfolding text_leb
text_leb_refl [] = refl
text_leb_refl (a ∷ s) = ground (arith, text_leb_refl s)

pub text_leb_total : (s t : Text) → text_leb s t ≡ false → text_leb t s ≡ true
unfolding text_leb
text_leb_total [] t h = cc
text_leb_total (a ∷ s) [] h = refl
text_leb_total (a ∷ s) (b ∷ t) h = ground (arith, text_leb_total s t)

pub text_leb_trans :
    (s t u : Text) → text_leb s t ≡ true → text_leb t u ≡ true → text_leb s u ≡ true
unfolding text_leb
text_leb_trans [] t u h k = refl
text_leb_trans (a ∷ s) [] u h k = cc
text_leb_trans (a ∷ s) (b ∷ t) [] h k = cc
text_leb_trans (a ∷ s) (b ∷ t) (c ∷ u) h k = ground (arith, text_leb_trans s t u)

pub text_leb_antisymm : (s t : Text) → text_leb s t ≡ true → text_leb t s ≡ true → s ≡ t
unfolding text_leb
text_leb_antisymm [] [] h k = refl
text_leb_antisymm [] (b ∷ t) h k = cc
text_leb_antisymm (a ∷ s) [] h k = cc
text_leb_antisymm (a ∷ s) (b ∷ t) h k = ground (arith, text_leb_antisymm s t)

-- Every element is at most the next.
abbrev pub IsSorted : List Text → Type 0
IsSorted [] = Unit
IsSorted (x ∷ []) = Unit
IsSorted (x ∷ y ∷ r) = (text_leb x y ≡ true) × IsSorted (y ∷ r)

pub sort_insert-IsSorted : (t : Text) (xs : List Text) → IsSorted xs → IsSorted (sort_insert t xs)
unfolding sort_insert
sort_insert-IsSorted t [] h = tt
sort_insert-IsSorted t (x ∷ []) h = elim (Bool-cases (text_leb t x)) [
  | inl e ↦ rw e (e, tt)
  | inr e ↦ rw e (text_leb_total t x e, tt)
]
sort_insert-IsSorted t (x ∷ y ∷ r) h = elim (Bool-cases (text_leb t x)) [
  | inl e ↦ rw e (e, h)
  | inr e ↦ rw e (
      below (text_leb_total t x e) (Bool-cases (text_leb t y)) (sort_insert-IsSorted t (y ∷ r) h.1))
]
  where
    below :
        text_leb x t ≡ true
        → (text_leb t y ≡ true) ⊎ (text_leb t y ≡ false)
        → IsSorted (sort_insert t (y ∷ r))
        → IsSorted (x ∷ sort_insert t (y ∷ r))
    below l (inl e) s = rw e (l, (e, h.1))
    below l (inr e) s = rw e (h.0, (rw e at s))

pub sort-IsSorted : (xs : List Text) → IsSorted (sort xs)
unfolding sort
sort-IsSorted [] = tt
sort-IsSorted (x ∷ xs) = sort_insert-IsSorted x (sort xs) (sort-IsSorted xs)

pub sort_insert_comm :
    (s t : Text) (xs : List Text)
    → sort_insert s (sort_insert t xs) ≡ sort_insert t (sort_insert s xs)
unfolding sort_insert
sort_insert_comm s t [] = ground (arith, text_leb_total s t, text_leb_antisymm s t)
sort_insert_comm s t (x ∷ xs) = ground (
  arith,
  sort_insert_comm s t xs,
  text_leb_total s t,
  text_leb_total t s,
  text_leb_antisymm s t,
  text_leb_trans s t x,
  text_leb_trans t s x,
  text_leb_total s x,
  text_leb_total t x,
  text_leb_trans x s t,
  text_leb_trans x t s,
)

pub contains-sort_insert :
    (x t : Text) (xs : List Text) → contains (sort_insert x xs) t ≡ (text_eq x t || contains xs t)
unfolding sort_insert contains
contains-sort_insert x t [] = refl
contains-sort_insert x t (y ∷ ys) = ground (arith, contains-sort_insert x t ys)

pub contains-sort : (xs : List Text) (t : Text) → contains (sort xs) t ≡ contains xs t
unfolding sort contains
contains-sort [] t = refl
contains-sort (x ∷ xs) t = ground (arith, contains-sort_insert x t (sort xs), contains-sort xs t)
