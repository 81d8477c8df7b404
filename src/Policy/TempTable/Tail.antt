-- ===== src/Policy/TempTable/Tail.antt =====
-- What the matcher of the temporary table's pattern accepts is in the pattern's language.
use quackridge.Prelude.{
  ℕ, zero, suc, ◌+◌, ◌≡◌, refl, sym, ap, ◌∙◌, inl, inr, true, ◌&&◌, ◌||◌, Option, none, some, [],
  ◌∷◌, ◌++◌, arith, leb, ◌==◌, if◌then◌else◌, Bool-cases, Option-cases,
}
use quackridge.Prelude.Text.{Text, lit}
use quackridge.Prelude.Lists.{all}
use mathlib.Core.List.{append_assoc}
use quackridge.Source.Alias.{is_lower, is_word}
use quackridge.Policy.TempTable.{
  ◌>>=◌, is_space, skip_space, some_space, eat_char, eat_word, name_char, name_run, short_name,
  at_boundary, optional, starts_query, or_replace, temp_table_body,
}
use quackridge.Policy.TempTable
use quackridge.Policy.TempTable.Language.{
  Language, ◌then◌, Optional, Folds, same, upper, long_s, kelvin_sign, Word, word_end, letter,
  Spaces, Gap, NameChar, plain, folded_s, folded_k, Run, run_end, one_more, ShortName, OrReplace,
  Header, Query,
}

-- `Splits L s t`: s is a text of the language L and t behind it.
abbrev pub Splits : Language → Text → Text → Type 0
Splits L s t = (p : Text) × L p × (s ≡ p ++ t)

-- An eater leaves what is behind a text of the language.
abbrev Eats : Language → (Text → Option Text) → Type 0
Eats L f = (s t : Text) → f s ≡ some t → Splits L s t

Splits-then : {L M : Language} {s u t : Text} → Splits L s u → Splits M u t → Splits (L then M) s t
Splits-then {t = t} (p, l, e) (q, k, f) =
    (p ++ q, (p, q, l, k, refl), rw (e, f, append_assoc p q t))

skip_space-Splits : (s : Text) → Splits Spaces s (skip_space s)
unfolding skip_space all
skip_space-Splits [] = ([], refl, refl)
skip_space-Splits (c ∷ s) = elim (Bool-cases (is_space c)) [
  | inl h ↦ let (p, l, e) = skip_space-Splits s in rw h (c ∷ p, rw (h, l) refl, ap (λ x. c ∷ x) e)
  | inr h ↦ rw h ([], refl, refl)
]

some_space-Eats : Eats Gap some_space
unfolding some_space all
some_space-Eats [] t h = cc
some_space-Eats (c ∷ s) t h = elim (Bool-cases (is_space c)) [
  | inl e ↦
      let k : skip_space s ≡ t = ground arith in
      let (p, l, f) = skip_space-Splits s in
      (c ∷ p, (refl, rw (e, l) refl), ap (λ x. c ∷ x) (f ∙ ap (λ x. p ++ x) k))
  | inr e ↦ absurd (ground arith)
]

long_s-Eats : (s t : Text) → TempTable.long_s s ≡ some t → s ≡ 0xc5 ∷ 0xbf ∷ t
unfolding TempTable.long_s
long_s-Eats [] t h = cc
long_s-Eats (a ∷ []) t h = cc
long_s-Eats (a ∷ b ∷ s) t h = ground arith

kelvin-Eats : (s t : Text) → TempTable.kelvin s ≡ some t → s ≡ 0xe2 ∷ 0x84 ∷ 0xaa ∷ t
unfolding TempTable.kelvin
kelvin-Eats [] t h = cc
kelvin-Eats (a ∷ []) t h = cc
kelvin-Eats (a ∷ b ∷ []) t h = cc
kelvin-Eats (a ∷ b ∷ c ∷ s) t h = ground arith

then_Eats :
    {L M : Language} (f g : Text → Option Text)
    → Eats L f
    → Eats M g
    → Eats (L then M) (λ s. f s >>= g)
then_Eats f g ef eg s t h = elim (Option-cases (f s)) [
  | inl e ↦ absurd (ground arith)
  | inr (u, e) ↦ Splits-then (ef s u e) (eg u t (ground arith))
]

after_Eats :
    {L M : Language} (p : Text → Text) (f : Text → Option Text)
    → ((s : Text) → Splits L s (p s))
    → Eats M f
    → Eats (L then M) (λ s. f (p s))
after_Eats p f ep ef s t h = Splits-then (ep s) (ef (p s) t h)

eat_char-Eats : (l : ℕ) → Eats (Folds l) (eat_char l)
unfolding eat_char
eat_char-Eats l [] t h = cc
eat_char-Eats l (c ∷ s) t h = elim (Bool-cases (c == l)) [
  | inl e ↦ let f : c ≡ l = ground arith in (l ∷ [], same, ground arith)
  | inr e ↦ elim (Bool-cases (is_lower l && c + 32 == l)) [
    | inl f ↦ (c ∷ [], upper c (ground arith) (ground arith), ground arith)
    | inr f ↦ elim (Bool-cases (l == b's')) [
      | inl g ↦ (0xc5 ∷ 0xbf ∷ [], long_s (ground arith), long_s-Eats (c ∷ s) t (ground arith))
      | inr g ↦ elim (Bool-cases (l == b'k')) [
        | inl k ↦ (
          0xe2 ∷ 0x84 ∷ 0xaa ∷ [],
          kelvin_sign (ground arith),
          kelvin-Eats (c ∷ s) t (ground arith),
        )
        | inr k ↦ absurd (ground arith)
      ]
    ]
  ]
]

eat_word-Eats : (w : Text) → Eats (Word w) (eat_word w)
unfolding eat_word
eat_word-Eats [] s t h = ([], word_end, ground arith)
eat_word-Eats (l ∷ ls) s t h =
    let (w, (p, q, a, b, e), f) =
      then_Eats (eat_char l) (eat_word ls) (eat_char-Eats l) (eat_word-Eats ls) s t h in
    (p ++ q, letter a b, f ∙ ap (λ x. x ++ t) e)

name_char-Eats : Eats NameChar name_char
unfolding name_char
name_char-Eats [] t h = cc
name_char-Eats (c ∷ s) t h = elim (Bool-cases (is_word c || leb b'A' c && leb c b'Z')) [
  | inl e ↦ (c ∷ [], plain c e, ground arith)
  | inr e ↦ elim (Bool-cases (c == 0xc5)) [
    | inl f ↦ (0xc5 ∷ 0xbf ∷ [], folded_s, long_s-Eats (c ∷ s) t (ground arith))
    | inr f ↦ (0xe2 ∷ 0x84 ∷ 0xaa ∷ [], folded_k, kelvin-Eats (c ∷ s) t (ground arith))
  ]
]

-- The run that is read, with as many characters as the counter has lost.
name_run-Run :
    (n : ℕ) (s : Text) → (k : ℕ) × Splits (Run k) s (name_run n s).1 × (k + (name_run n s).0 ≡ n)
unfolding name_run
name_run-Run zero s = (0, ([], run_end, refl), refl)
name_run-Run (suc n) s = elim (Option-cases (name_char s)) [
  | inl e ↦ rw (e, name_run) (0, ([], run_end, refl), omega arith)
  | inr (rest, e) ↦
      let (k, (q, r, f), g) = name_run-Run n rest in
      let (p, c, d) = name_char-Eats s rest e in
      rw (e, name_run)
        (
          suc k,
          (p ++ q, one_more c r, d ∙ ap (λ x. p ++ x) f ∙ sym (append_assoc p q _)),
          ground arith,
        )
]

short_name-Eats : Eats ShortName short_name
unfolding short_name
short_name-Eats s t h =
    let (k, (p, r, e), g) = name_run-Run 56 s in
    let f : (name_run 56 s).1 ≡ t = ground arith in
    (p, (k, r, ground arith, ground arith), e ∙ ap (λ x. p ++ x) f)

optional-Splits :
    {L : Language} (f : Text → Option Text) (s : Text)
    → Eats L f
    → Splits (Optional L) s (optional (f s) s)
optional-Splits f s ef = elim (Option-cases (f s)) [
  | inl e ↦ rw e ([], inl refl, refl)
  | inr (t, e) ↦ let (p, l, g) = ef s t e in rw e (p, inr l, g)
]

or_replace-Eats : Eats OrReplace or_replace
unfolding or_replace
or_replace-Eats =
    then_Eats _ _ (eat_word-Eats (lit "or")) (
      then_Eats _ _ some_space-Eats (then_Eats _ _ (eat_word-Eats (lit "replace")) some_space-Eats))

starts_query-Query : (s : Text) → starts_query s ≡ true → Query s
unfolding starts_query
starts_query-Query s h = elim (Option-cases (eat_word (lit "select") s)) [
  | inr (rest, e) ↦ elim (Bool-cases (at_boundary rest)) [
    | inl b ↦ let (w, l, f) = eat_word-Eats (lit "select") s rest e in (w, rest, inl l, f, b)
    | inr b ↦ elim (Option-cases (eat_word (lit "with") s)) [
      | inr (more, g) ↦
          let (w, l, f) = eat_word-Eats (lit "with") s more g in (w, more, inr l, f, ground arith)
      | inl g ↦ absurd (ground arith)
    ]
  ]
  | inl e ↦ elim (Option-cases (eat_word (lit "with") s)) [
    | inr (more, g) ↦
        let (w, l, f) = eat_word-Eats (lit "with") s more g in (w, more, inr l, f, ground arith)
    | inl g ↦ absurd (ground arith)
  ]
]

-- An eater of the header's rest that ends with the query.
abbrev Ends : Language → (Text → Option Text) → Type 0
Ends L f = (s t : Text) → f s ≡ some t → Splits L s t × Query t

last_Ends :
    {L : Language} (f : Text → Option Text)
    → Eats L f
    → Ends L (λ s. f s >>= (λ k. if starts_query k then some k else none))
last_Ends {L} f ef s t h = elim (Option-cases (f s)) [
  | inl e ↦ absurd (ground arith)
  | inr (k, e) ↦
      let same_text : k ≡ t = ground arith in
      let starts : starts_query k ≡ true = ground arith in
      let both : Splits L s k × Query k = (ef s k e, starts_query-Query k starts) in
      rw same_text at both
]

then_Ends :
    {L M : Language} (f g : Text → Option Text)
    → Eats L f
    → Ends M g
    → Ends (L then M) (λ s. f s >>= g)
then_Ends f g ef eg s t h = elim (Option-cases (f s)) [
  | inl e ↦ absurd (ground arith)
  | inr (u, e) ↦ let (more, starts) = eg u t (ground arith) in (Splits-then (ef s u e) more, starts)
]

-- A statement that the matcher accepts is a text of the pattern up to the query, which is CREATE, OR
-- REPLACE or not, TEMP or TEMPORARY, TABLE, a name of qr_tmp_ and 1 to 55 characters, and AS, with
-- white space between, and behind it the captured query, which starts with the word SELECT or WITH.
pub temp_table_body-Header :
    (query body : Text) → temp_table_body query ≡ some body → Splits Header query body × Query body
unfolding temp_table_body
temp_table_body-Header =
    then_Ends _ _ (after_Eats skip_space _ skip_space-Splits (eat_word-Eats (lit "create"))) (
      then_Ends _ _ some_space-Eats (
        then_Ends _ _
          (after_Eats (λ b. optional (or_replace b) b) _
            (λ b. optional-Splits or_replace b or_replace-Eats) (eat_word-Eats (lit "temp")))
          (then_Ends _ _
            (after_Eats (λ c. optional (eat_word (lit "orary") c) c) _
              (λ c. optional-Splits (eat_word (lit "orary")) c (eat_word-Eats (lit "orary")))
              some_space-Eats)
            (then_Ends _ _ (eat_word-Eats (lit "table")) (
              then_Ends _ _ some_space-Eats (
                then_Ends _ _ (eat_word-Eats (lit "qr_tmp_")) (
                  then_Ends _ _ short_name-Eats (
                    then_Ends _ _ some_space-Eats (
                      then_Ends _ _ (eat_word-Eats (lit "as"))
                        (last_Ends _ some_space-Eats))))))))))
