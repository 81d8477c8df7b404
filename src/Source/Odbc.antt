-- ===== src/Source/Odbc.antt =====
-- odbc.go: the adapter of ODBC sources.
pub mod Connection
use quackridge.Prelude.{
  ℕ, ◌+◌, ◌-◌, ◌*◌, ◌%◌, ap, Bool, not, ◌&&◌, ◌||◌, Option, none, some, List, [], ◌∷◌, ◌++◌, leb,
  ◌==◌, if◌then◌else◌,
}
use quackridge.Prelude.Text.{Text, lit, text_eq, is_empty, contains_text}
use quackridge.Prelude.Maps.{Map}
use quackridge.Prelude.Lists.{contains, all}
use quackridge.Errors.Defs.{GoError, foreign, wrapped}
use quackridge.Errors.Result.{Result, ok, err}
use quackridge.Reconcile.Stage.{hex}
use quackridge.Engine.Sql.{escape, double}
use quackridge.Engine.Odbc.{OdbcObject, OdbcAttachment}
use quackridge.Source.{Definition}
use quackridge.Source.Rows.{Rows}
use quackridge.Source.Attacher.{Surroundings, ◌then_check◌, fails_if, validate_names}
use quackridge.Source.Odbc.Connection.{OdbcConfig, connection_string, contains_any, reserved_bytes}

-- Credential
pub record OdbcCredential : Type 0 where
  pub username : Text
  pub password : Text

-- DecodeCredential; `unmarshal` is json.Unmarshal into a Credential.
unfoldable pub decode_credential :
    (unmarshal : Text → Option OdbcCredential) → Text → Result OdbcCredential
decode_credential unmarshal raw =
    if is_empty raw then ok (record { username = []; password = [] }) else elim (unmarshal raw) [
      | none ↦ err (foreign (lit "ODBC credential must contain username and password JSON"))
      | some credential ↦ ok credential
    ]

-- The Attacher interface over a state E.
pub record OdbcAttacher (E : Type 0) : Type 0 where
  pub attach_odbc : OdbcAttachment → E → Option GoError × E
  pub odbc_query : (id connection username password query : Text) → E → Result (Rows OdbcObject) × E
  pub clear_odbc : (id : Text) → E → E
  pub detach : (alias id : Text) → E → Option GoError × E

-- databaseType
unfoldable pub database_type : OdbcConfig → Text
database_type c = if is_empty c.database_type then lit "odbc" else c.database_type

unfoldable pub known_types : List Text
known_types =
    lit "odbc"
    ∷ lit "postgres"
    ∷ lit "mysql"
    ∷ lit "mariadb"
    ∷ lit "sqlite"
    ∷ lit "duckdb"
    ∷ lit "sqlserver"
    ∷ lit "oracle"
    ∷ []

-- The bytes of ";={}\r\n".
abbrev pub dsn_bytes : Text
dsn_bytes = b'=' ∷ 13 ∷ 10 ∷ reserved_bytes

unfoldable pub is_key_byte : ℕ → Bool
is_key_byte c =
    (leb b'A' c && leb c b'Z')
    || ((leb b'a' c && leb c b'z') || ((leb b'0' c && leb c b'9') || c == b'_'))

module _ (s : Surroundings) (trim_space : Text → Text) where
  -- validDSN
  unfoldable pub valid_dsn : Text → Bool
  valid_dsn value =
      text_eq value (trim_space value)
      && (not (is_empty value) && not (contains_any dsn_bytes value))

  -- validPropertyKey; the loop is over the characters, of which only ASCII ones pass.
  unfoldable pub valid_property_key : Text → Bool
  valid_property_key value =
      not (is_empty value || not (text_eq value (trim_space value))) && all is_key_byte value

  -- What makes a property a secret.
  unfoldable pub is_secret_property : Text → Bool
  is_secret_property key =
      let upper = s.to_upper (trim_space key) in
      contains (lit "UID" ∷ lit "USER" ∷ lit "PWD" ∷ lit "PASSWORD" ∷ []) upper
      || (contains_text upper (lit "PASS")
          || (contains_text upper (lit "SECRET")
              || (contains_text upper (lit "TOKEN")
                  || (contains_text upper (lit "CREDENTIAL") || contains_any reserved_bytes key))))

  abbrev pub bad_property : Text → Bool
  bad_property key = not (valid_property_key key) || is_secret_property key

  -- The loop over the properties.
  unfoldable pub check_properties : Map Text → Option GoError
  check_properties [] = none
  check_properties ((key, _) ∷ rest) =
      fails_if (bad_property key) (lit "ODBC property is invalid") then_check check_properties rest

  -- Validate
  unfoldable pub validate_odbc : OdbcConfig → Definition → Option GoError
  validate_odbc c d =
      validate_names d
      then_check fails_if
          ((is_empty c.dsn && is_empty c.driver)
            || (not (is_empty c.dsn) && not (is_empty c.driver)))
          (lit "exactly one of dsn or driver is required")
      then_check fails_if (not (is_empty c.dsn) && not (valid_dsn c.dsn))
          (lit "ODBC dsn must be a non-secret data source name")
      then_check fails_if (not (contains known_types (database_type c)))
          (lit "ODBC database_type is unsupported")
      then_check check_properties c.properties

-- reservedSchema, of a schema in lower case.
unfoldable pub reserved_schemas : (database_type : Text) → List Text
reserved_schemas t =
    if text_eq t (lit "postgres") || text_eq t (lit "duckdb")
    then lit "information_schema" ∷ lit "pg_catalog" ∷ []
    else if text_eq t (lit "mysql") || text_eq t (lit "mariadb")
    then lit "information_schema" ∷ lit "mysql" ∷ lit "performance_schema" ∷ lit "sys" ∷ []
    else if text_eq t (lit "sqlserver")
    then lit "information_schema" ∷ lit "sys" ∷ []
    else if text_eq t (lit "oracle")
    then lit "sys" ∷ lit "system" ∷ lit "outln" ∷ lit "xdb" ∷ []
    else lit "information_schema" ∷ []

unfoldable pub reserved_schema : (to_lower : Text → Text) → (database_type schema : Text) → Bool
reserved_schema to_lower t schema = contains (reserved_schemas t) (to_lower schema)

abbrev pub backtick : ℕ
backtick = 96

unfoldable pub quote_of : (database_type : Text) → ℕ
quote_of t = if text_eq t (lit "mysql") || text_eq t (lit "mariadb") then backtick else double

abbrev pub quote_name : (q : ℕ) → Text → Text
quote_name q value = q ∷ (escape q value ++ (q ∷ []))

-- remoteName
unfoldable pub remote_name : (database_type schema name : Text) → Text
remote_name t schema name =
    if text_eq t (lit "sqlite")
    then quote_name (quote_of t) name
    else quote_name (quote_of t) schema ++ (b'.' ∷ quote_name (quote_of t) name)

-- The query of discover.
unfoldable pub discovery_query : (database_type : Text) → Text
discovery_query t =
    if text_eq t (lit "sqlite")
    then lit
        "SELECT 'main' table_schema, name table_name, CASE WHEN type = 'view' THEN 'view' ELSE 'table' END object_type FROM sqlite_master WHERE type IN ('table', 'view') AND name NOT LIKE 'sqlite_%'"
    else if text_eq t (lit "oracle")
    then lit
        "SELECT owner table_schema, table_name, 'table' object_type FROM all_tables UNION ALL SELECT owner, view_name table_name, 'view' object_type FROM all_views"
    else lit
        "SELECT table_schema, table_name, CASE WHEN table_type = 'VIEW' THEN 'view' ELSE 'table' END object_type FROM information_schema.tables"

abbrev pub undiscovered : GoError → GoError
undiscovered x = wrapped (lit "ODBC metadata discovery failed") x

-- newProbeID; `random` is what rand.Read gives.
unfoldable pub probe_id : Result Text → Result Text
probe_id (err e) = err e
probe_id (ok value) = ok (lit "probe_" ++ hex value)

-- The loop of discover: rows of reserved schemas are passed over.
unfoldable pub read_objects :
    (to_lower : Text → Text)
    → (database_type : Text) → List (Result OdbcObject)
    → Option GoError
    → Result (List OdbcObject)
read_objects to_lower t [] none = ok []
read_objects to_lower t [] (some e) = err e
read_objects to_lower t (err e ∷ rest) final = err (undiscovered e)
read_objects to_lower t (ok o ∷ rest) final = elim (read_objects to_lower t rest final) [
  | err e ↦ err e
  | ok os ↦
      if reserved_schema to_lower t o.schema
      then ok os
      else ok
          (record o { remote_select = lit "SELECT * FROM " ++ remote_name t o.schema o.name } ∷ os)
]

module _ {E : Type 0} (s : Surroundings) (trim_space : Text → Text)
    (attacher : OdbcAttacher E) where
  -- discover; the deferred call clears the probe's credentials whatever happens.
  unfoldable pub discover :
      Result Text → OdbcConfig → OdbcCredential → E → Result (List OdbcObject) × E
  discover random c k e = elim (probe_id random) [
    | err x ↦ (err (wrapped (lit "create ODBC metadata probe") x), e)
    | ok probe ↦
        let (result, e') =
          attacher.odbc_query probe (connection_string trim_space c) k.username k.password
            (discovery_query (database_type c)) e in
        (
          elim result [
            | err x ↦ err (undiscovered x)
            | ok rows ↦ read_objects s.to_lower (database_type c) rows.scanned rows.final
          ],
          attacher.clear_odbc probe e',
        )
  ]

  unfoldable pub odbc_attachment :
      OdbcConfig → OdbcCredential → Definition → List OdbcObject → OdbcAttachment
  odbc_attachment c k d objects = record {
    id = d.id;
    name = d.name;
    alias = d.alias;
    database_type = database_type c;
    connection = connection_string trim_space c;
    username = k.username;
    password = k.password;
    objects = objects;
  }

  -- Attach
  unfoldable pub attach_source :
      Result Text → OdbcConfig → OdbcCredential → Definition → E → Option GoError × E
  attach_source random c k d e = elim (validate_odbc s trim_space c d) [
    | some x ↦ (some x, e)
    | none ↦
        let (result, e') = discover random c k e in
        elim result [
          | err x ↦ (some x, e')
          | ok objects ↦ attacher.attach_odbc (odbc_attachment c k d objects) e'
        ]
  ]

  -- Health; `close_rows` is what Close of the rows returns.
  unfoldable pub odbc_health :
      (close_rows : Option GoError)
      → Result Text
      → OdbcConfig
      → OdbcCredential
      → E
      → Option GoError × E
  odbc_health close_rows random c k e =
      let unhealthy : GoError = foreign (lit "ODBC health check failed") in
      elim (probe_id random) [
        | err x ↦ (some unhealthy, e)
        | ok probe ↦
            let (result, e') =
              attacher.odbc_query probe (connection_string trim_space c) k.username k.password
                (lit "SELECT 1") e in
            (
              elim result [ err x ↦ some unhealthy | ok rows ↦ close_rows ],
              attacher.clear_odbc probe e',
            )
      ]
