-- ===== src/Engine/Sql/Quote.antt =====
-- Quoted values read back: no value ends its literal early.
use quackridge.Prelude.{
  ℕ, ◌≡◌, refl, ap, ◌∙◌, inl, inr, Bool, true, false, Option, none, some, List, [], ◌∷◌, ◌++◌,
  arith, ◌==◌, if◌then◌else◌, Bool-cases,
}
use quackridge.Prelude.Text.{Text, lit}
use quackridge.Prelude.Lists.{contains}
use quackridge.Prelude.Maps.{Map, lookup, insert}
use mathlib.Core.List.{append_assoc}
use quackridge.Errors.Result.{ok, Result-cases}
use quackridge.Source.Alias.{valid_identifier}
use quackridge.Engine.Sql.{
  escape, single, quoted, closing, odbc_field, attach_options, attach_statement, normalize,
  allowed_options, create_secret_statement, trim_semicolon, odbc_connection_string,
}

-- What follows a value in a reader's result.
abbrev pub keep : ℕ → Option (Text × Text) → Option (Text × Text)
keep c none = none
keep c (some (value, rest)) = some (c ∷ value, rest)

-- How SQL reads a literal behind its opening quote: two quotes stand for one, and a quote without a
-- second one ends the literal. `seen`: the last byte was a quote.
unfoldable pub read_quoted : (q : ℕ) → (seen : Bool) → Text → Option (Text × Text)
read_quoted q false [] = none
read_quoted q true [] = some ([], [])
read_quoted q false (c ∷ s) =
    let ended = read_quoted q true s in
    let inside = read_quoted q false s in if c == q then ended else keep c inside
read_quoted q true (c ∷ s) =
    let inside = read_quoted q false s in if c == q then keep q inside else some ([], c ∷ s)

-- The text does not start with the quote.
abbrev pub starts_with : ℕ → Text → Bool
starts_with q [] = false
starts_with q (c ∷ s) = c == q

read-end :
    (q : ℕ) (rest : Text) → starts_with q rest ≡ false → read_quoted q true rest ≡ some ([], rest)
unfolding read_quoted
read-end q [] h = refl
read-end q (c ∷ rest) h = ground arith

read-plain :
    (q c : ℕ) (s : Text)
    → (c == q) ≡ false
    → read_quoted q false (c ∷ s) ≡ keep c (read_quoted q false s)
unfolding read_quoted
read-plain q c s h = rw h refl

read-double :
    (q c : ℕ) (s : Text)
    → (c == q) ≡ true
    → read_quoted q false (q ∷ q ∷ s) ≡ keep c (read_quoted q false s)
unfolding read_quoted
read-double q c s h = ground arith

-- A quoted value is read back whole, whatever quotes it has, and what follows it is left.
pub read-escape :
    (q : ℕ) (value rest : Text)
    → starts_with q rest ≡ false
    → read_quoted q false (escape q value ++ (q ∷ rest)) ≡ some (value, rest)
unfolding escape
read-escape q [] rest h = unfold read_quoted in ground (arith, read-end q rest h)
read-escape q (c ∷ value) rest h =
    let tail = escape q value ++ (q ∷ rest) in
    let more = read-escape q value rest h in
    elim (Bool-cases (c == q)) [
      | inl e ↦ rw e (read-double q c tail e ∙ ap (keep c) more)
      | inr e ↦ rw e (read-plain q c tail e ∙ ap (keep c) more)
    ]

-- The literal that the ATTACH statement starts with is the whole connection text, or empty where
-- there is a secret, and what follows it is the list of options alone.
pub read-attach_statement :
    (connection alias kind secret_name : Text) (has_secret read_only is_postgres : Bool)
    → (body : Text) × (attach_statement connection alias kind secret_name has_secret read_only
          is_postgres
        ≡ lit "ATTACH '" ++ body)
      × (read_quoted single false body
          ≡ some (
            (if has_secret then [] else connection),
            attach_options alias kind secret_name has_secret read_only is_postgres,
          ))
unfolding attach_statement quoted lit
read-attach_statement connection alias kind secret_name has_secret read_only is_postgres =
    let rest = attach_options alias kind secret_name has_secret read_only is_postgres in
    let shown = if has_secret then [] else connection in
    (
      escape single shown ++ (single ∷ rest),
      refl,
      read-escape single shown rest (unfold attach_options in refl),
    )

-- The user name and the password of an ODBC connection string are read back whole, so neither can
-- add an attribute of its own.
pub read-odbc_connection_string :
    (connection : Text) (u p : ℕ) (username password : Text)
    → (body : Text) × (tail : Text) × (odbc_connection_string connection
          (u ∷ username)
          (p ∷ password)
        ≡ trim_semicolon connection ++ (lit ";UID={" ++ body))
      × (read_quoted closing false body ≡ some (u ∷ username, lit ";PWD={" ++ tail))
      × (read_quoted closing false tail ≡ some (p ∷ password, []))
unfolding odbc_connection_string odbc_field lit
read-odbc_connection_string connection u p username password =
    let tail = escape closing (p ∷ password) ++ (closing ∷ []) in
    (
      escape closing (u ∷ username) ++ (closing ∷ (lit ";PWD={" ++ tail)),
      tail,
      ap (λ t. trim_semicolon connection ++ (59 ∷ 85 ∷ 73 ∷ 68 ∷ 61 ∷ 123 ∷ t))
          (append_assoc (escape closing (u ∷ username)) (closing ∷ []) (lit ";PWD={" ++ tail)),
      read-escape closing (u ∷ username) (lit ";PWD={" ++ tail) refl,
      read-escape closing (p ∷ password) [] refl,
    )

module _ (to_upper : Text → Text) where
  -- Every option of a secret is allowed for its type, and no two are the same up to case.
  abbrev pub OptionsOk : List Text → Map Text → Map Text → Type 0
  OptionsOk allowed seen [] = Unit
  OptionsOk allowed seen ((raw, value) ∷ rest) =
      (contains allowed (to_upper raw) ≡ true)
      × (lookup (to_upper raw) seen ≡ none)
      × OptionsOk allowed (insert (to_upper raw) value seen) rest

  normalize-OptionsOk :
      (allowed : List Text) (seen values m : Map Text)
      → normalize to_upper allowed seen values ≡ ok m
      → OptionsOk allowed seen values
  unfolding normalize
  normalize-OptionsOk allowed seen [] m h = tt
  normalize-OptionsOk allowed seen ((raw, value) ∷ rest) m h = (
    ground arith,
    ground arith,
    normalize-OptionsOk allowed (insert (to_upper raw) value seen) rest m (ground arith),
  )

  -- A secret statement is made only for a type that is an identifier, with options that are allowed
  -- for the type and all different up to case.
  pub create_secret_statement-OptionsOk :
      (name kind : Text) (values : Map Text) (statement : Text)
      → create_secret_statement to_upper name kind values ≡ ok statement
      → (valid_identifier kind ≡ true) × OptionsOk (allowed_options kind) [] values
  unfolding create_secret_statement
  create_secret_statement-OptionsOk name kind values statement h =
      elim (Result-cases (normalize to_upper (allowed_options kind) [] values)) [
        | inl (m, e) ↦ (ground arith, normalize-OptionsOk (allowed_options kind) [] values m e)
        | inr (x, e) ↦ absurd (ground arith)
      ]
