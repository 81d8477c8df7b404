-- ===== src/Source/Odbc/Connection/Reading.antt =====
-- How an ODBC connection string is read, and what the adapter's and the engine's functions together
-- give a driver to read.
use quackridge.Prelude.{
  ℕ, ◌≡◌, refl, sym, ap, ◌∙◌, inl, inr, Bool, true, false, not, ◌||◌, Option, none, some, List, [],
  ◌∷◌, ◌++◌, arith, ◌==◌, if◌then◌else◌, Bool-cases, and_parts,
}
use quackridge.Prelude.Text.{Text, lit, text_eq, is_empty}
use quackridge.Prelude.Maps.{Map, lookup}
use quackridge.Prelude.Lists.{all, All}
use mathlib.Core.List.{append_assoc, append-nil}
use quackridge.Engine.Sql.{escape, closing}
use quackridge.Engine.Sql.Quote.{read_quoted, read-escape, starts_with}
use quackridge.Source.Odbc.Connection.{
  OdbcConfig, holds_byte, contains_any, reserved_bytes, braced, join_semicolon, connection_value,
  property_parts,
}

-- What stands before the byte, and the rest with it.
unfoldable pub read_until : ℕ → Text → Text × Text
read_until b [] = ([], [])
read_until b (c ∷ s) = let r = read_until b s in if c == b then ([], c ∷ s) else (c ∷ r.0, r.1)

-- A value in braces, where two closing braces stand for one, or up to the semicolon.
unfoldable pub read_value : Text → Option (Text × Text)
read_value [] = some ([], [])
read_value (c ∷ s) =
    if c == b'{' then read_quoted closing false s else some (read_until b';' (c ∷ s))

-- What follows the key: the equals sign and the value.
abbrev pub keyed : (key : Text) → Option (Text × Text) → Option (Text × Text × Text)
keyed key none = none
keyed key (some (value, rest)) = some (key, value, rest)

unfoldable pub read_rest : (key : Text) → Text → Option (Text × Text × Text)
read_rest key [] = none
read_rest key (c ∷ s) = keyed key (read_value s)

unfoldable pub read_field : Text → Option (Text × Text × Text)
read_field s = read_rest (read_until b'=' s).0 (read_until b'=' s).1

-- A text of attributes, each behind a semicolon, reads as these keys and values and nothing else.
abbrev pub Reads : Text → Map Text → Type 0
Reads s [] = s ≡ []
Reads s ((key, value) ∷ entries) =
    (t : Text) × (rest : Text) × (s ≡ b';' ∷ t)
    × (read_field t ≡ some (key, value, rest))
    × Reads rest entries

-- A text that stops a plain value.
abbrev pub stops : ℕ → Text → Bool
stops b [] = true
stops b (c ∷ s) = c == b

abbrev pub lacks : ℕ → Text → Bool
lacks b v = all (λ c. not (c == b)) v

read_until-append :
    (b : ℕ) (v rest : Text)
    → lacks b v ≡ true
    → stops b rest ≡ true
    → read_until b (v ++ rest) ≡ (v, rest)
unfolding read_until all
read_until-append b [] [] h k = refl
read_until-append b [] (c ∷ rest) h k = ground arith
read_until-append b (c ∷ v) rest h k =
    let (h0, h1) = and_parts (not (c == b)) (lacks b v) h in
    let r = read_until-append b v rest h1 k in ground arith

-- A part of the string, whatever other part or end follows it.
abbrev pub PartReads : Text → Text × Text → Type 0
PartReads part (key, value) =
    (rest : Text) → stops b';' rest ≡ true → read_field (part ++ rest) ≡ some (key, value, rest)

field-read :
    (key value body rest : Text)
    → lacks b'=' key ≡ true
    → read_value (body ++ rest) ≡ some (value, rest)
    → read_field ((key ++ (b'=' ∷ body)) ++ rest) ≡ some (key, value, rest)
unfolding read_field read_rest
field-read key value body rest h k =
    let e = ap read_field (append_assoc key (b'=' ∷ body) rest) in
    let u = read_until-append b'=' key (b'=' ∷ (body ++ rest)) h refl in
    e ∙ ap (λ (x : Text × Text). read_rest x.0 x.1) u ∙ ap (keyed key) k

not_closing : (rest : Text) → stops b';' rest ≡ true → starts_with closing rest ≡ false
not_closing [] h = refl
not_closing (c ∷ rest) h = ground arith

pub braced-PartReads :
    (key value : Text)
    → lacks b'=' key ≡ true
    → PartReads (key ++ (b'=' ∷ braced value)) (key, value)
unfolding read_value
braced-PartReads key value h rest k = field-read key value (braced value) rest h (
    ap (read_quoted closing false) (append_assoc (escape closing value) (closing ∷ []) rest)
    ∙ read-escape closing value rest (not_closing rest k))

-- What a value without ";{}" lacks.
pub plain-lacks : (v : Text) → contains_any reserved_bytes v ≡ false → lacks b';' v ≡ true
unfolding contains_any holds_byte all
plain-lacks [] h = refl
plain-lacks (c ∷ v) h = let more = plain-lacks v in ground arith

plain_value :
    (x : ℕ) (value rest : Text)
    → contains_any reserved_bytes (x ∷ value) ≡ false
    → stops b';' rest ≡ true
    → read_value ((x ∷ value) ++ rest) ≡ some (x ∷ value, rest)
unfolding read_value contains_any holds_byte
plain_value x value rest c k =
    let r = read_until-append b';' (x ∷ value) rest (plain-lacks (x ∷ value) c) k in ground arith

plain-PartReads :
    (key value : Text)
    → lacks b'=' key ≡ true
    → is_empty value ≡ false
    → contains_any reserved_bytes value ≡ false
    → PartReads (key ++ (b'=' ∷ value)) (key, value)
plain-PartReads key [] h e c rest k = ground arith
plain-PartReads key (x ∷ value) h e c rest k =
    field-read key (x ∷ value) (x ∷ value) rest h (plain_value x value rest c k)

-- The attributes of a connection, and those of its credentials.
abbrev pub value_in : Map Text → Text → Text
value_in m key = elim (lookup key m) [ none ↦ [] | some value ↦ value ]

abbrev pub entries_of : Map Text → List Text → Map Text
entries_of m [] = []
entries_of m (key ∷ rest) = (key, value_in m key) ∷ entries_of m rest

abbrev pub first_entry : OdbcConfig → Text × Text
first_entry c = if not (is_empty c.dsn) then (lit "DSN", c.dsn) else (lit "Driver", c.driver)

abbrev pub credential_entries : (username password : Text) → Map Text
credential_entries u p =
    (if is_empty u then [] else (lit "UID", u) ∷ [])
    ++ (if is_empty p then [] else (lit "PWD", p) ∷ [])

-- The parts, each behind a semicolon.
abbrev pub prefixed : List Text → Text
prefixed [] = []
prefixed (p ∷ ps) = b';' ∷ (p ++ prefixed ps)

pub prefixed-join : (p : Text) (ps : List Text) → join_semicolon (p ∷ ps) ≡ p ++ prefixed ps
unfolding join_semicolon
prefixed-join p [] = sym (append-nil p)
prefixed-join p (q ∷ ps) = ap (λ t. p ++ (b';' ∷ t)) (prefixed-join q ps)

pub stops-prefixed :
    (ps : List Text) (tail : Text)
    → stops b';' tail ≡ true
    → stops b';' (prefixed ps ++ tail) ≡ true
stops-prefixed [] tail h = h
stops-prefixed (p ∷ ps) tail h = refl

module _ (trim_space : Text → Text) where
  value-PartReads :
      (key value : Text)
      → lacks b'=' key ≡ true
      → PartReads (key ++ (b'=' ∷ connection_value trim_space value)) (key, value)
  unfolding connection_value
  value-PartReads key value h =
      elim (Bool-cases (
        is_empty value
        || (not (text_eq value (trim_space value)) || contains_any reserved_bytes value))) [
          | inl e ↦ rw e (braced-PartReads key value h)
          | inr e ↦ rw e (plain-PartReads key value h (ground arith) (ground arith))
        ]

  pub parts-Reads :
      (m : Map Text) (ks : List Text) (tail : Text) (more : Map Text)
      → All (λ key. lacks b'=' key ≡ true) ks
      → stops b';' tail ≡ true
      → Reads tail more
      → Reads (prefixed (property_parts trim_space m ks) ++ tail) (entries_of m ks ++ more)
  unfolding property_parts
  parts-Reads m [] tail more h k r = r
  parts-Reads m (key ∷ ks) tail more (h, hs) k r =
      let part = key ++ (b'=' ∷ connection_value trim_space (value_in m key)) in
      let rest = prefixed (property_parts trim_space m ks) ++ tail in
      (
        part ++ rest,
        rest,
        ap (λ t. b';' ∷ t) (append_assoc part (prefixed (property_parts trim_space m ks)) tail),
        value-PartReads key (value_in m key) h rest
            (stops-prefixed (property_parts trim_space m ks) tail k),
        parts-Reads m ks tail more hs k r,
      )
