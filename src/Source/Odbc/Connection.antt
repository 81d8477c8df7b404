-- ===== src/Source/Odbc/Connection.antt =====
-- odbc.go connectionString.
pub mod Reading
pub mod Whole
use quackridge.Prelude.{
  ℕ, ◌+◌, ap, Bool, false, not, ◌||◌, none, some, List, [], ◌∷◌, ◌++◌, ◌==◌, if◌then◌else◌,
}
use quackridge.Prelude.Text.{Text, lit, text_eq, is_empty}
use quackridge.Prelude.Maps.{Map, lookup, keys}
use quackridge.Prelude.Sort.{sort}
use quackridge.Engine.Sql.{escape, closing}

-- Config
pub record OdbcConfig : Type 0 where
  pub dsn : Text
  pub driver : Text
  pub properties : Map Text
  pub database_type : Text

unfoldable pub holds_byte : Text → ℕ → Bool
holds_byte [] c = false
holds_byte (b ∷ bs) c = b == c || holds_byte bs c

-- strings.ContainsAny, of bytes.
unfoldable pub contains_any : (bytes : Text) → Text → Bool
contains_any bytes [] = false
contains_any bytes (c ∷ s) = holds_byte bytes c || contains_any bytes s

-- The bytes of ";{}".
abbrev pub reserved_bytes : Text
reserved_bytes = b';' ∷ b'{' ∷ b'}' ∷ []

abbrev pub braced : Text → Text
braced value = b'{' ∷ (escape closing value ++ (closing ∷ []))

-- strings.Join(parts, ";")
unfoldable pub join_semicolon : List Text → Text
join_semicolon [] = []
join_semicolon (t ∷ []) = t
join_semicolon (t ∷ u ∷ rest) = t ++ (b';' ∷ join_semicolon (u ∷ rest))

module _ (trim_space : Text → Text) where
  -- connectionValue
  unfoldable pub connection_value : Text → Text
  connection_value value =
      if is_empty value
        || (not (text_eq value (trim_space value)) || contains_any reserved_bytes value)
      then braced value
      else value

  -- The parts after the first: the properties by their sorted keys.
  unfoldable pub property_parts : Map Text → List Text → List Text
  property_parts properties [] = []
  property_parts properties (key ∷ rest) =
      (key
        ++ (b'='
            ∷ connection_value (elim (lookup key properties) [ none ↦ [] | some value ↦ value ])))
      ∷ property_parts properties rest

  unfoldable pub first_part : OdbcConfig → Text
  first_part c =
      if not (is_empty c.dsn) then lit "DSN=" ++ braced c.dsn else lit "Driver=" ++ braced c.driver

  -- connectionString
  unfoldable pub connection_string : OdbcConfig → Text
  connection_string c =
      join_semicolon (first_part c ∷ property_parts c.properties (sort (keys c.properties)))
