-- ===== src/Policy/TempTable.antt =====
-- policy.go tempTablePattern:
-- (?is)^\s*CREATE\s+(?:OR\s+REPLACE\s+)?TEMP(?:ORARY)?\s+TABLE\s+(qr_tmp_[a-z0-9_]{1,55})\s+AS\s+((?:SELECT|WITH)\b.*)$
-- as a matcher that reads the text once. What follows a space run, a keyword or the name is never
-- what that part could also have read, so the regular expression has one way to match.
pub mod Language
pub mod Tail
use quackridge.Prelude.{
  ℕ, zero, suc, ◌+◌, Bool, true, false, not, ◌&&◌, ◌||◌, Option, none, some, [], ◌∷◌, leb, ◌==◌,
  if◌then◌else◌,
}
use quackridge.Prelude.Text.{Text, lit}
use quackridge.Source.Alias.{is_lower, is_word}

infixl 10 ◌>>=◌
abbrev pub ◌>>=◌ : {A B : Type 0} → Option A → (A → Option B) → Option B
none >>= f = none
some a >>= f = f a

-- \s
abbrev pub is_space : ℕ → Bool
is_space c = c == 9 || c == 10 || c == 12 || c == 13 || c == 32

-- \s*
unfoldable pub skip_space : Text → Text
skip_space [] = []
skip_space (c ∷ s) = if is_space c then skip_space s else c ∷ s

-- \s+
unfoldable pub some_space : Text → Option Text
some_space [] = none
some_space (c ∷ s) = if is_space c then some (skip_space s) else none

-- The UTF-8 bytes of U+017F and U+212A, which fold to s and k.
unfoldable pub long_s : Text → Option Text
long_s (a ∷ b ∷ s) = if a == 0xc5 && b == 0xbf then some s else none
long_s _ = none

unfoldable pub kelvin : Text → Option Text
kelvin (a ∷ b ∷ c ∷ s) = if a == 0xe2 && b == 0x84 && c == 0xaa then some s else none
kelvin _ = none

-- A character of the pattern, given in lower case, under (?i).
unfoldable pub eat_char : ℕ → Text → Option Text
eat_char l [] = none
eat_char l (c ∷ s) =
    if c == l || is_lower l && c + 32 == l
    then some s
    else if l == b's'
    then long_s (c ∷ s)
    else if l == b'k'
    then kelvin (c ∷ s)
    else none

unfoldable pub eat_word : Text → Text → Option Text
eat_word [] s = some s
eat_word (l ∷ ls) s = eat_char l s >>= eat_word ls

-- [a-z0-9_] under (?i), one rune.
unfoldable pub name_char : Text → Option Text
name_char [] = none
name_char (c ∷ s) =
    if is_word c || leb b'A' c && leb c b'Z'
    then some s
    else if c == 0xc5
    then long_s (c ∷ s)
    else kelvin (c ∷ s)

-- Up to n runes of the class, greedily: what is left, and how many more could have been read.
unfoldable pub name_run : ℕ → Text → ℕ × Text
name_run zero s = (0, s)
name_run (suc n) s = elim (name_char s) [ none ↦ (suc n, s) | some rest ↦ name_run n rest ]

-- [a-z0-9_]{1,55}: a run of at least one rune and, tried up to 56, of at most 55.
unfoldable pub short_name : Text → Option Text
short_name s =
    let (left, rest) = name_run 56 s in if left == 0 || left == 56 then none else some rest

-- (?: … )?
abbrev pub optional : Option Text → Text → Text
optional none s = s
optional (some rest) s = rest

-- \b after a keyword: no word character follows.
abbrev pub at_boundary : Text → Bool
at_boundary [] = true
at_boundary (c ∷ s) = not (is_word c || leb b'A' c && leb c b'Z')

-- (?:SELECT|WITH)\b.*$ matches here.
unfoldable pub starts_query : Text → Bool
starts_query s =
    elim (eat_word (lit "select") s) [ none ↦ false | some rest ↦ at_boundary rest ]
    || elim (eat_word (lit "with") s) [ none ↦ false | some rest ↦ at_boundary rest ]

unfoldable pub or_replace : Text → Option Text
or_replace s = do
  a ← eat_word (lit "or") s
  b ← some_space a
  c ← eat_word (lit "replace") b
  some_space c

-- The second group of the match, `matches[2]`: the query of CREATE TEMP TABLE … AS.
unfoldable pub temp_table_body : Text → Option Text
temp_table_body query = do
  a ← eat_word (lit "create") (skip_space query)
  b ← some_space a
  c ← eat_word (lit "temp") (optional (or_replace b) b)
  d ← some_space (optional (eat_word (lit "orary") c) c)
  e ← eat_word (lit "table") d
  f ← some_space e
  g ← eat_word (lit "qr_tmp_") f
  h ← short_name g
  i ← some_space h
  j ← eat_word (lit "as") i
  k ← some_space j
  if starts_query k then some k else none
