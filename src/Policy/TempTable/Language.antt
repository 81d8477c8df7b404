-- ===== src/Policy/TempTable/Language.antt =====
-- The language of tempTablePattern of policy.go, part by part, apart from how it is matched.
use quackridge.Prelude.{ℕ, suc, ◌+◌, ◌≤◌, ◌≡◌, ◌⊎◌, true, false, ◌&&◌, ◌||◌, [], ◌∷◌, ◌++◌, leb}
use quackridge.Prelude.Text.{Text, lit, is_empty}
use quackridge.Prelude.Lists.{all}
use quackridge.Source.Alias.{is_lower, is_word}
use quackridge.Policy.TempTable.{is_space, at_boundary}

-- A set of texts.
abbrev pub Language : Type 1
Language = Text → Type 0

infixr 30 ◌then◌
-- One part behind another.
abbrev pub ◌then◌ : Language → Language → Language
(L then M) t = (a : Text) × (b : Text) × L a × M b × (t ≡ a ++ b)

-- (?: … )?
abbrev pub Optional : Language → Language
Optional L t = (t ≡ []) ⊎ L t

-- The spellings of a lower-case character of the pattern under (?i).
pub data Folds (l : ℕ) : Text → Type 0 where
  same : Folds l (l ∷ [])
  upper : (c : ℕ) → is_lower l ≡ true → c + 32 ≡ l → Folds l (c ∷ [])
  long_s : l ≡ b's' → Folds l (0xc5 ∷ 0xbf ∷ [])
  kelvin_sign : l ≡ b'k' → Folds l (0xe2 ∷ 0x84 ∷ 0xaa ∷ [])

-- The spellings of a word under (?i).
pub data Word : Text → Text → Type 0 where
  word_end : Word [] []
  letter : {l : ℕ} {ls p q : Text} → Folds l p → Word ls q → Word (l ∷ ls) (p ++ q)

-- \s*
abbrev pub Spaces : Language
Spaces t = all is_space t ≡ true

-- \s+
abbrev pub Gap : Language
Gap t = (is_empty t ≡ false) × (all is_space t ≡ true)

-- [a-z0-9_] under (?i)
pub data NameChar : Text → Type 0 where
  plain : (c : ℕ) → is_word c || leb b'A' c && leb c b'Z' ≡ true → NameChar (c ∷ [])
  folded_s : NameChar (0xc5 ∷ 0xbf ∷ [])
  folded_k : NameChar (0xe2 ∷ 0x84 ∷ 0xaa ∷ [])

-- n of them
pub data Run : ℕ → Text → Type 0 where
  run_end : Run 0 []
  one_more : {n : ℕ} {p q : Text} → NameChar p → Run n q → Run (suc n) (p ++ q)

-- [a-z0-9_]{1,55}
abbrev pub ShortName : Language
ShortName t = (n : ℕ) × Run n t × (1 ≤ n) × (n ≤ 55)

-- OR\s+REPLACE\s+
abbrev pub OrReplace : Language
OrReplace = Word (lit "or") then Gap then Word (lit "replace") then Gap

-- All of the pattern before the query.
abbrev pub Header : Language
Header =
    (Spaces then Word (lit "create"))
    then Gap
    then (Optional OrReplace then Word (lit "temp"))
    then (Optional (Word (lit "orary")) then Gap)
    then Word (lit "table")
    then Gap
    then Word (lit "qr_tmp_")
    then ShortName
    then Gap
    then Word (lit "as")
    then Gap

-- (?:SELECT|WITH)\b.*
abbrev pub Query : Language
Query t =
    (w : Text) × (rest : Text) × (Word (lit "select") w ⊎ Word (lit "with") w)
    × (t ≡ w ++ rest)
    × (at_boundary rest ≡ true)
