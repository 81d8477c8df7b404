-- ===== src/Source/Alias.antt =====
-- source.go ValidateAlias and engine.go validIdentifier: two tests of one set of names, one by a
-- regular expression and one by a loop.
use quackridge.Prelude.{
  ℕ, zero, suc, ◌≡◌, refl, Bool, true, false, not, ◌&&◌, ◌||◌, [], ◌∷◌, ◌++◌, arith, ltb, leb, ◌==◌,
  if◌then◌else◌,
}
use quackridge.Prelude.Text.{Text}
use quackridge.Prelude.Lists.{length, take}

abbrev pub is_lower : ℕ → Bool
is_lower c = leb b'a' c && leb c b'z'

abbrev pub is_digit : ℕ → Bool
is_digit c = leb b'0' c && leb c b'9'

-- [a-z0-9_]
abbrev pub is_word : ℕ → Bool
is_word c = is_lower c || is_digit c || c == b'_'

-- Anchored at both ends: the class, at least 0 and at most n times, and then the end of the text.
unfoldable pub at_most : ℕ → (ℕ → Bool) → Text → Bool
at_most n p [] = true
at_most zero p (c ∷ s) = false
at_most (suc n) p (c ∷ s) = p c && at_most n p s

-- aliasPattern.MatchString, for ^[a-z][a-z0-9_]{0,62}$
unfoldable pub matches_alias : Text → Bool
matches_alias [] = false
matches_alias (c ∷ s) = is_lower c && at_most 62 is_word s

-- The loop of validIdentifier over value[1:]. Outside ASCII a rune fails the test as its bytes do.
unfoldable pub all_word : Text → Bool
all_word [] = true
all_word (c ∷ s) =
    if (ltb c b'a' || ltb b'z' c) && (ltb c b'0' || ltb b'9' c) && not (c == b'_')
    then false
    else all_word s

-- validIdentifier
unfoldable pub valid_identifier : Text → Bool
valid_identifier [] = false
valid_identifier (c ∷ s) =
    if ltb 63 (length (c ∷ s)) || ltb c b'a' || ltb b'z' c then false else all_word s

at_most-length : (n : ℕ) (s : Text) → at_most n is_word s ≡ (leb (length s) n && all_word s)
unfolding at_most all_word
at_most-length n [] = ground arith
at_most-length zero (c ∷ s) = ground arith
at_most-length (suc n) (c ∷ s) = ground (arith, at_most-length n s)

-- The alias check of the configuration and the identifier check of the engine accept the same
-- texts, so no alias that a valid document holds is refused by the engine, nor the converse.
pub matches_alias-valid_identifier : (s : Text) → matches_alias s ≡ valid_identifier s
unfolding matches_alias valid_identifier
matches_alias-valid_identifier [] = refl
matches_alias-valid_identifier (c ∷ s) = ground (arith, at_most-length 62 s)

pub all_word-append : (s t : Text) → all_word (s ++ t) ≡ (all_word s && all_word t)
unfolding all_word
all_word-append [] t = refl
all_word-append (c ∷ s) t = ground (arith, all_word-append s t)

pub all_word-take : (n : ℕ) (s : Text) → all_word s ≡ true → all_word (take n s) ≡ true
unfolding all_word
all_word-take zero s h = refl
all_word-take (suc n) [] h = refl
all_word-take (suc n) (c ∷ s) h = ground (arith, all_word-take n s)
