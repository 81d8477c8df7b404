-- ===== src/Source/Odbc/Connection/Whole.antt =====
-- The whole connection string, as the engine hands it to the driver, read back.
use quackridge.Prelude.{
  ℕ, ◌≡◌, refl, ap, ◌∙◌, inl, inr, Bool, true, false, not, ◌||◌, none, List, [], ◌∷◌, ◌++◌, arith,
  ◌==◌, if◌then◌else◌, Bool-cases, and_parts,
}
use quackridge.Prelude.Text.{Text, lit, text_eq, is_empty, text_leb}
use quackridge.Prelude.Maps.{Map, keys}
use quackridge.Prelude.Lists.{all, All}
use quackridge.Prelude.Sort.{sort, sort_insert}
use mathlib.Core.Path.{subst}
use mathlib.Core.List.{append_assoc, append-nil}
use quackridge.Source.Attacher.{Surroundings}
use quackridge.Engine.Sql.{escape, closing, odbc_field, trim_semicolon, odbc_connection_string}
use quackridge.Source.Odbc.{check_properties, valid_property_key, is_key_byte}
use quackridge.Source.Odbc.Connection.{
  OdbcConfig, contains_any, reserved_bytes, braced, join_semicolon, connection_value,
  property_parts, first_part, connection_string,
}
use quackridge.Source.Odbc.Connection.Reading.{
  Reads, lacks, stops, prefixed, prefixed-join, stops-prefixed, braced-PartReads, plain-lacks,
  parts-Reads, entries_of, first_entry, credential_entries, PartReads,
}

-- The last byte is no semicolon.
unfoldable ends_well : Text → Bool
ends_well [] = true
ends_well (c ∷ []) = not (c == b';')
ends_well (c ∷ d ∷ s) = ends_well (d ∷ s)

trim-ends_well : (s : Text) → ends_well s ≡ true → trim_semicolon s ≡ s
unfolding ends_well trim_semicolon
trim-ends_well [] h = refl
trim-ends_well (c ∷ []) h = ground arith
trim-ends_well (c ∷ d ∷ s) h = ap (λ t. c ∷ t) (trim-ends_well (d ∷ s) h)

ends_well-append :
    (a b : Text) → is_empty b ≡ false → ends_well b ≡ true → ends_well (a ++ b) ≡ true
unfolding ends_well
ends_well-append [] b e h = h
ends_well-append (c ∷ []) [] e h = ground arith
ends_well-append (c ∷ []) (d ∷ b) e h = h
ends_well-append (c ∷ d ∷ a) b e h = ends_well-append (d ∷ a) b e h

ends_well-lacks : (v : Text) → lacks b';' v ≡ true → ends_well v ≡ true
unfolding ends_well all
ends_well-lacks [] h = refl
ends_well-lacks (c ∷ []) h = ground arith
ends_well-lacks (c ∷ d ∷ v) h = ends_well-lacks (d ∷ v) (ground arith)

ends_well-braced : (v : Text) → ends_well (braced v) ≡ true
unfolding ends_well
ends_well-braced v = ends_well-append (b'{' ∷ escape closing v) (closing ∷ []) refl refl

not_empty_append : (a : Text) (c : ℕ) (b : Text) → is_empty (a ++ (c ∷ b)) ≡ false
not_empty_append [] c b = refl
not_empty_append (x ∷ a) c b = refl

-- A part of the string: not empty, and no semicolon at its end.
abbrev IsPart : Text → Type 0
IsPart p = (is_empty p ≡ false) × (ends_well p ≡ true)

ends_well-join :
    (p : Text) (ps : List Text) → IsPart p → All IsPart ps → IsPart (join_semicolon (p ∷ ps))
unfolding join_semicolon
ends_well-join p [] h hs = h
ends_well-join p (q ∷ ps) h (g, gs) =
    let (e, w) = ends_well-join q ps g gs in
    (
      not_empty_append p b';' (join_semicolon (q ∷ ps)),
      ends_well-append p (b';' ∷ join_semicolon (q ∷ ps)) refl
          (ends_well-append (b';' ∷ []) (join_semicolon (q ∷ ps)) e w),
    )

keyed-IsPart : (key value : Text) → IsPart value → IsPart (key ++ (b'=' ∷ value))
keyed-IsPart key value (e, w) = (
  not_empty_append key b'=' value,
  ends_well-append key (b'=' ∷ value) refl (ends_well-append (b'=' ∷ []) value e w),
)

module _ (trim_space : Text → Text) where
  value-IsPart : (value : Text) → IsPart (connection_value trim_space value)
  unfolding connection_value
  value-IsPart value =
      elim (Bool-cases (
        is_empty value
        || (not (text_eq value (trim_space value)) || contains_any reserved_bytes value))) [
          | inl e ↦ rw e (refl, ends_well-braced value)
          | inr e ↦ rw e (ground arith, ends_well-lacks value (plain-lacks value (ground arith)))
        ]

  parts-IsPart : (m : Map Text) (ks : List Text) → All IsPart (property_parts trim_space m ks)
  unfolding property_parts
  parts-IsPart m [] = tt
  parts-IsPart m (key ∷ ks) =
      (keyed-IsPart key (connection_value trim_space _) (value-IsPart _), parts-IsPart m ks)

All-sort_insert :
    (b : ℕ) (k : Text) (ks : List Text)
    → lacks b k ≡ true
    → All (λ key. lacks b key ≡ true) ks
    → All (λ key. lacks b key ≡ true) (sort_insert k ks)
unfolding sort_insert
All-sort_insert b k [] h hs = (h, tt)
All-sort_insert b k (x ∷ ks) h (g, gs) = elim (Bool-cases (text_leb k x)) [
  | inl e ↦ rw e (h, (g, gs))
  | inr e ↦ rw e (g, All-sort_insert b k ks h gs)
]

All-sort :
    (b : ℕ) (ks : List Text)
    → All (λ key. lacks b key ≡ true) ks
    → All (λ key. lacks b key ≡ true) (sort ks)
unfolding sort
All-sort b [] h = tt
All-sort b (k ∷ ks) (h, hs) = All-sort_insert b k (sort ks) h (All-sort b ks hs)

is_key_byte-lacks : (key : Text) → all is_key_byte key ≡ true → lacks b'=' key ≡ true
unfolding all is_key_byte
is_key_byte-lacks [] h = refl
is_key_byte-lacks (c ∷ key) h =
    let (h0, h1) = and_parts (is_key_byte c) (all is_key_byte key) h in
    let more = is_key_byte-lacks key h1 in ground arith

-- A credential behind what comes before it.
field-Reads :
    (name value tail : Text) (more : Map Text)
    → lacks b'=' name ≡ true
    → stops b';' tail ≡ true
    → Reads tail more
    → Reads
        (odbc_field (b';' ∷ (name ++ (b'=' ∷ b'{' ∷ []))) value ++ tail)
        ((if is_empty value then [] else (name, value) ∷ []) ++ more)
unfolding odbc_field lit
field-Reads name [] tail more h k r = r
field-Reads name (c ∷ value) tail more h k r =
    let body = escape closing (c ∷ value) ++ (closing ∷ []) in
    (
      (name ++ (b'=' ∷ braced (c ∷ value))) ++ tail,
      tail,
      ap (λ t. b';' ∷ (t ++ tail)) (append_assoc name (b'=' ∷ b'{' ∷ []) body),
      braced-PartReads name (c ∷ value) h tail k,
      r,
    )

stops-field :
    (name value tail : Text)
    → stops b';' tail ≡ true
    → stops b';' (odbc_field (b';' ∷ name) value ++ tail) ≡ true
unfolding odbc_field
stops-field name [] tail h = h
stops-field name (c ∷ value) tail h = refl

stops-one : (name value : Text) → stops b';' (odbc_field (b';' ∷ name) value) ≡ true
unfolding odbc_field
stops-one name [] = refl
stops-one name (c ∷ value) = refl

last-Reads :
    (p : Text)
    → Reads (odbc_field (lit ";PWD={") p) (if is_empty p then [] else (lit "PWD", p) ∷ [])
unfolding lit all
last-Reads p =
    let entry : Map Text = if is_empty p then [] else (lit "PWD", p) ∷ [] in
    subst (λ (m : Map Text). Reads (odbc_field (lit ";PWD={") p) m) (append-nil entry)
      (subst (λ (t : Text). Reads t (entry ++ [])) (append-nil (odbc_field (lit ";PWD={") p))
        (field-Reads (lit "PWD") p [] [] refl refl refl))

module _ (s : Surroundings) (trim_space : Text → Text) where
  keys-lacks :
      (m : Map Text)
      → check_properties s trim_space m ≡ none
      → All (λ key. lacks b'=' key ≡ true) (keys m)
  unfolding check_properties valid_property_key
  keys-lacks [] h = tt
  keys-lacks ((key, value) ∷ m) h =
      (is_key_byte-lacks key (ground arith), keys-lacks m (ground arith))

  first-PartReads : (c : OdbcConfig) → PartReads (first_part trim_space c) (first_entry c)
  unfolding first_part lit all
  first-PartReads c = elim (Bool-cases (is_empty c.dsn)) [
    | inl e ↦ rw e (braced-PartReads (lit "Driver") c.driver refl)
    | inr e ↦ rw e (braced-PartReads (lit "DSN") c.dsn refl)
  ]

  first-IsPart : (c : OdbcConfig) → IsPart (first_part trim_space c)
  unfolding first_part lit
  first-IsPart c = elim (Bool-cases (is_empty c.dsn)) [
    | inl e ↦ rw e (keyed-IsPart (lit "Driver") (braced c.driver) (refl, ends_well-braced c.driver))
    | inr e ↦ rw e (keyed-IsPart (lit "DSN") (braced c.dsn) (refl, ends_well-braced c.dsn))
  ]

  stops-tail :
      (u p : Text) → stops b';' (odbc_field (lit ";UID={") u ++ odbc_field (lit ";PWD={") p) ≡ true
  unfolding lit
  stops-tail u p =
      stops-field (lit "UID={") u (odbc_field (lit ";PWD={") p) (stops-one (lit "PWD={") p)

  tail-Reads :
      (u p : Text)
      → Reads (odbc_field (lit ";UID={") u ++ odbc_field (lit ";PWD={") p) (credential_entries u p)
  unfolding lit all
  tail-Reads u p =
      field-Reads (lit "UID") u (odbc_field (lit ";PWD={") p)
        (if is_empty p then [] else (lit "PWD", p) ∷ []) refl (stops-one (lit "PWD={") p)
        (last-Reads p)

  -- The connection string that the engine hands to a driver, a semicolon put before it, is read as
  -- these attributes and no others, whatever the values, the user name and the password hold, if
  -- the names of the properties passed Validate: the data source or the driver, each property in
  -- the order of the names, and the user name and the password where they are not empty.
  pub connection_string-Reads :
      (c : OdbcConfig) (username password : Text)
      → check_properties s trim_space c.properties ≡ none
      → Reads (b';' ∷ odbc_connection_string (connection_string trim_space c) username password) (
          first_entry c
          ∷ (entries_of c.properties (sort (keys c.properties))
              ++ credential_entries username password))
  unfolding odbc_connection_string connection_string
  connection_string-Reads c u p h =
      let ks = sort (keys c.properties) in
      let parts = property_parts trim_space c.properties ks in
      let first = first_part trim_space c in
      let password = odbc_field (lit ";PWD={") p in
      let tail = odbc_field (lit ";UID={") u ++ password in
      let rest = prefixed parts ++ tail in
      let stop = stops-tail u p in
      let trimmed =
        trim-ends_well (join_semicolon (first ∷ parts))
          (ends_well-join first parts (first-IsPart c)
            (parts-IsPart trim_space c.properties ks)).1 in
      let e =
        ap (λ t. t ++ tail) (trimmed ∙ prefixed-join first parts)
        ∙ append_assoc first (prefixed parts) tail in
      (
        first ++ rest,
        rest,
        ap (λ t. b';' ∷ t) e,
        first-PartReads c rest (stops-prefixed parts tail stop),
        parts-Reads trim_space c.properties ks tail (credential_entries u p)
            (All-sort b'=' (keys c.properties) (keys-lacks c.properties h)) stop (tail-Reads u p),
      )
