-- ===== src/Engine/Sql.antt =====
-- engine.go: the SQL texts that are built from values: quoteIdentifier, quoteStringList,
-- createSecretStatement, the ATTACH statement, extensionSQLPath, odbcConnectionString; and
-- validateVersionPair. `to_upper` is strings.ToUpper.
pub mod Quote
use quackridge.Prelude.{
  ℕ, ◌+◌, ◌/◌, ap, Bool, true, not, ◌&&◌, ◌||◌, Option, none, some, List, [], ◌∷◌, ◌++◌, map, leb,
  ◌==◌, if◌then◌else◌, is_some,
}
use quackridge.Prelude.Text.{Text, lit, text_eq, is_empty, replace_byte}
use quackridge.Prelude.Lists.{length, all, contains}
use quackridge.Prelude.Maps.{Map, lookup, insert, keys}
use quackridge.Prelude.Sort.{sort}
use quackridge.Errors.Defs.{GoError, public, source_unavailable, protocol_mismatch}
use quackridge.Errors.Result.{Result, ok, err}
use quackridge.Version.{duckdb_version, extension_versions}
use quackridge.Source.Alias.{valid_identifier}

-- strings.ReplaceAll(value, q, q + q) for a quote q of one byte.
unfoldable pub escape : (q : ℕ) → Text → Text
escape q [] = []
escape q (c ∷ s) = if c == q then q ∷ q ∷ escape q s else c ∷ escape q s

abbrev pub single : ℕ
single = 39

abbrev pub double : ℕ
double = 34

-- "'" + strings.ReplaceAll(value, "'", "''") + "'" and what follows.
unfoldable pub quoted : (q : ℕ) → Text → (rest : Text) → Text
quoted q value rest = q ∷ (escape q value ++ (q ∷ rest))

-- quoteIdentifier
unfoldable pub quote_identifier : Text → Text
quote_identifier value = quoted double value []

-- strings.Join(parts, ", ")
unfoldable pub join_comma : List Text → Text
join_comma [] = []
join_comma (t ∷ []) = t
join_comma (t ∷ u ∷ rest) = t ++ (lit ", " ++ join_comma (u ∷ rest))

-- The loop of quoteStringList.
unfoldable pub quote_items : List Text → List Text
quote_items [] = []
quote_items (v ∷ rest) =
    let more = quote_items rest in if is_empty v then more else quoted single v [] ∷ more

-- quoteStringList
unfoldable pub quote_string_list : List Text → Text
quote_string_list values = lit "[" ++ (join_comma (quote_items values) ++ lit "]")

-- extensionSQLPath; 92 is the backslash.
unfoldable pub extension_sql_path : Text → Text
extension_sql_path path = escape single (replace_byte 92 (lit "/") path)

-- The options that a secret may have, by the type of its source.
unfoldable pub postgres_options : List Text
postgres_options =
    lit "HOST"
    ∷ lit "HOSTADDR"
    ∷ lit "PORT"
    ∷ lit "DATABASE"
    ∷ lit "DBNAME"
    ∷ lit "USER"
    ∷ lit "PASSWORD"
    ∷ lit "SSLMODE"
    ∷ lit "SSLROOTCERT"
    ∷ lit "CONNECT_TIMEOUT"
    ∷ lit "APPLICATION_NAME"
    ∷ lit "KEEPALIVES"
    ∷ lit "KEEPALIVES_IDLE"
    ∷ lit "OPTIONS"
    ∷ []

unfoldable pub mysql_options : List Text
mysql_options =
    lit "HOST"
    ∷ lit "PORT"
    ∷ lit "DATABASE"
    ∷ lit "USER"
    ∷ lit "PASSWORD"
    ∷ lit "SSL_MODE"
    ∷ lit "SSL_CA"
    ∷ lit "SSL_CAPATH"
    ∷ lit "SSL_CERT"
    ∷ lit "SSL_CIPHER"
    ∷ lit "SSL_CRL"
    ∷ lit "SSL_CRLPATH"
    ∷ lit "SSL_KEY"
    ∷ []

unfoldable pub allowed_options : Text → List Text
allowed_options kind = if text_eq kind (lit "mysql") then mysql_options else postgres_options

abbrev pub unavailable : Text → GoError
unavailable message = public source_unavailable message

module _ (to_upper : Text → Text) where
  -- The loop over the values.
  unfoldable pub normalize : (allowed : List Text) → Map Text → Map Text → Result (Map Text)
  normalize allowed seen [] = ok seen
  normalize allowed seen ((raw, value) ∷ rest) =
      let next = normalize allowed (insert (to_upper raw) value seen) rest in
      if not (contains allowed (to_upper raw))
      then err (unavailable (lit "secret option is invalid"))
      else if is_some (lookup (to_upper raw) seen)
      then err (unavailable (lit "secret option is duplicated"))
      else next

  -- key + " '" + … + "'"; a missing key reads as the empty text.
  unfoldable pub secret_part : Map Text → Text → Text
  secret_part normalized key =
      key ++ (32 ∷ quoted single (elim (lookup key normalized) [ some v ↦ v | none ↦ [] ]) [])

  unfoldable pub secret_text : (name kind : Text) → Map Text → Text
  secret_text name kind normalized =
      lit "CREATE OR REPLACE SECRET "
      ++ (quote_identifier name
          ++ (lit " ("
              ++ (join_comma
                    ((lit "TYPE " ++ kind) ∷ map (secret_part normalized) (sort (keys normalized)))
                  ++ lit ")")))

  -- createSecretStatement
  unfoldable pub create_secret_statement : (name kind : Text) → Map Text → Result Text
  create_secret_statement name kind values =
      if not (valid_identifier kind)
      then err (unavailable (lit "secret type is invalid"))
      else elim (normalize (allowed_options kind) [] values) [
        | err e ↦ err e
        | ok normalized ↦ ok (secret_text name kind normalized)
      ]

-- The end of the ATTACH statement, after the connection. `is_postgres` is
-- strings.EqualFold(attachment.Type, "postgres").
unfoldable pub attach_options :
    (alias kind secret_name : Text) → (has_secret read_only is_postgres : Bool) → Text
attach_options alias kind secret_name has_secret read_only is_postgres =
    lit " AS "
    ++ (quote_identifier alias
        ++ (lit " (TYPE "
            ++ (quote_identifier kind
                ++ ((if has_secret then lit ", SECRET " ++ quote_identifier secret_name else [])
                    ++ ((if read_only then lit ", READ_ONLY" else [])
                        ++ ((if is_postgres then lit ", SECRET_STORAGE_TABLE ''" else [])
                            ++ lit ")"))))))

-- The statement of Attach; a source with a secret has no connection text.
unfoldable pub attach_statement :
    (connection alias kind secret_name : Text) → (has_secret read_only is_postgres : Bool) → Text
attach_statement connection alias kind secret_name has_secret read_only is_postgres =
    lit "ATTACH "
    ++ quoted single (if has_secret then [] else connection)
        (attach_options alias kind secret_name has_secret read_only is_postgres)

-- strings.TrimSuffix(connection, ";")
unfoldable pub trim_semicolon : Text → Text
trim_semicolon [] = []
trim_semicolon (c ∷ []) = if c == b';' then [] else c ∷ []
trim_semicolon (c ∷ d ∷ s) = c ∷ trim_semicolon (d ∷ s)

abbrev pub closing : ℕ
closing = b'}'

unfoldable pub odbc_field : (name value : Text) → Text
odbc_field name value = if is_empty value then [] else name ++ (escape closing value ++ lit "}")

-- odbcConnectionString
unfoldable pub odbc_connection_string : (connection username password : Text) → Text
odbc_connection_string connection username password =
    trim_semicolon connection
    ++ (odbc_field (lit ";UID={") username ++ odbc_field (lit ";PWD={") password)

-- safeCatalogIdentifier
unfoldable pub safe_catalog_identifier : Text → Bool
safe_catalog_identifier value =
    not (is_empty value) && leb (length value) 255 && all (λ c. not (c == 0)) value

-- strings.TrimPrefix(version, "v")
unfoldable pub trim_v : Text → Text
trim_v [] = []
trim_v (c ∷ s) = if c == b'v' then s else c ∷ s

abbrev pub bad_extensions : GoError
bad_extensions = public protocol_mismatch (lit "unsupported DuckDB extension version pair")

-- !loaded || version != expected
unfoldable pub version_differs : Map Text → Text → Bool
version_differs extensions name = elim (lookup name extensions) [
  | none ↦ true
  | some version ↦
      not (text_eq version (elim (lookup name extension_versions) [ none ↦ [] | some e ↦ e ]))
]

-- validateVersionPair
unfoldable pub validate_version_pair : (engine_version : Text) → Map Text → Option GoError
validate_version_pair engine_version extensions =
    if not (text_eq (trim_v engine_version) duckdb_version)
    then some (public protocol_mismatch (lit "unsupported DuckDB version pair"))
    else if version_differs extensions (lit "httpfs") || version_differs extensions (lit "quack")
    then some bad_extensions
    else none
