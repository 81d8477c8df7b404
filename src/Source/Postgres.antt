-- ===== src/Source/Postgres.antt =====
-- postgres.go: the adapter of PostgreSQL.
use quackridge.Prelude.{
  Bool, true, false, not, ◌&&◌, ◌||◌, Option, none, some, List, [], ◌∷◌, ◌++◌, if◌then◌else◌,
}
use quackridge.Prelude.Text.{Text, lit, text_eq, is_empty}
use quackridge.Prelude.Maps.{Map, insert}
use quackridge.Prelude.Lists.{contains}
use quackridge.Prelude.Int.{ℤ, itoa, is_not_positive}
use quackridge.Errors.Defs.{GoError, foreign, wrapped}
use quackridge.Errors.Result.{Result, ok, err}
use quackridge.Engine.Runtime.{Attachment}
use quackridge.Source.{Definition}
use quackridge.Source.Rows.{MetadataRow, read_metadata}
use quackridge.Source.Attacher.{
  Attacher, Surroundings, ◌then_check◌, fails_if, validate_names, bad_port, check_connectivity,
  remote_query, or_detach, register_remote,
}

-- Config
pub record PostgresConfig : Type 0 where
  pub host : Text
  pub port : ℤ
  pub database : Text
  pub user : Text
  pub ssl_mode : Text
  pub root_cert_ref : Text
  pub options : Map Text

-- Credential
pub record PostgresCredential : Type 0 where
  pub password : Text
  pub root_certificate_path : Text

unfoldable pub ssl_modes : List Text
ssl_modes =
    lit "disable"
    ∷ lit "allow"
    ∷ lit "prefer"
    ∷ lit "require"
    ∷ lit "verify-ca"
    ∷ lit "verify-full"
    ∷ []

-- validSSLMode
unfoldable pub valid_ssl_mode : Text → Bool
valid_ssl_mode mode = contains ssl_modes mode

unfoldable pub safe_options : List Text
safe_options =
    lit "connect_timeout"
    ∷ lit "application_name"
    ∷ lit "keepalives"
    ∷ lit "keepalives_idle"
    ∷ lit "options"
    ∷ []

abbrev pub verifies : Text → Bool
verifies mode = text_eq mode (lit "verify-ca") || text_eq mode (lit "verify-full")

abbrev pub certificate_required : Text → Text
certificate_required mode = lit "root certificate reference is required for " ++ mode

module _ (s : Surroundings) where
  open s use {to_lower, to_upper}

  -- safeOption
  unfoldable pub safe_option : Text → Bool
  safe_option key = contains safe_options (to_lower key)

  -- The loop over the options.
  unfoldable pub add_options : Map Text → (values : Map Text) → Map Text
  add_options [] values = values
  add_options ((key, value) ∷ rest) values =
      add_options rest (if safe_option key then insert (to_upper key) value values else values)

  unfoldable pub base_values : PostgresConfig → PostgresCredential → Map Text
  base_values c k =
      (lit "HOST", c.host)
      ∷ (lit "PORT", itoa c.port)
      ∷ (lit "DATABASE", c.database)
      ∷ (lit "USER", c.user)
      ∷ (lit "PASSWORD", k.password)
      ∷ (lit "SSLMODE", c.ssl_mode)
      ∷ []

  -- secretValues
  unfoldable pub secret_values : PostgresConfig → PostgresCredential → Map Text
  secret_values c k =
      let values = add_options c.options (base_values c k) in
      if is_empty k.root_certificate_path
      then values
      else insert (lit "SSLROOTCERT") k.root_certificate_path values

  -- The checks of Validate up to the network.
  unfoldable pub validate_config : PostgresConfig → PostgresCredential → Definition → Option GoError
  validate_config c k d =
      validate_names d
      then_check fails_if (is_empty c.host || (is_empty c.database || is_empty c.user))
          (lit "host, database, and user are required")
      then_check fails_if (bad_port c.port) (lit "invalid PostgreSQL port")
      then_check fails_if (not (valid_ssl_mode c.ssl_mode)) (lit "invalid PostgreSQL SSL mode")
      then_check fails_if
          (verifies c.ssl_mode && (is_empty c.root_cert_ref || is_empty k.root_certificate_path))
          (certificate_required c.ssl_mode)
      then_check fails_if (is_empty k.password) (lit "PostgreSQL credential is unavailable")

  -- Validate
  unfoldable pub validate_postgres :
      PostgresConfig → PostgresCredential → Definition → Option GoError
  validate_postgres c k d =
      validate_config c k d
      then_check check_connectivity s (lit "PostgreSQL connectivity check failed") c.host c.port

  unfoldable pub postgres_attachment : PostgresConfig → PostgresCredential → Definition → Attachment
  postgres_attachment c k d = record {
    id = d.id;
    name = d.name;
    alias = d.alias;
    kind = lit "postgres";
    database_type = lit "postgres";
    connection = [];
    secret = secret_values c k;
    read_only = true;
  }

abbrev pub postgres_opening : (column : Text) → Text
postgres_opening column = lit "SELECT " ++ (column ++ lit " FROM postgres_query('")

unfoldable pub read_only_query : Text → Text
read_only_query alias =
    remote_query (postgres_opening (lit "setting")) alias
      (lit "', 'SELECT current_setting(''transaction_read_only'') AS setting')")

unfoldable pub postgres_objects_query : Text → Text
postgres_objects_query alias =
    remote_query (postgres_opening (lit "table_schema, table_name, object_type")) alias (
      lit
        "', 'SELECT table_schema, table_name, CASE WHEN table_type = ''VIEW'' THEN ''view'' ELSE ''table'' END AS object_type FROM information_schema.tables')")

unfoldable pub roles_query : Text → Text
roles_query alias =
    remote_query
      (postgres_opening (lit "rolsuper, rolcreaterole, rolcreatedb, rolreplication, rolbypassrls"))
      alias
      (lit
        "', 'SELECT rolsuper, rolcreaterole, rolcreatedb, rolreplication, rolbypassrls FROM pg_roles WHERE rolname = current_user')")

unfoldable pub grants_query : Text → Text
grants_query alias = remote_query (postgres_opening (lit "write_grants")) alias (
    lit
      "', 'SELECT count(*)::BIGINT AS write_grants FROM information_schema.role_table_grants WHERE grantee = current_user AND privilege_type <> ''SELECT''')")

abbrev pub any_flag : List Bool → Bool
any_flag [] = false
any_flag (b ∷ rest) = b || any_flag rest

module _ {E : Type 0} (attacher : Attacher E) where
  -- verifyReadOnly
  unfoldable pub verify_read_only : (alias : Text) → E → Option GoError
  verify_read_only alias e = elim (attacher.read_text (read_only_query alias) e) [
    | err x ↦ some (wrapped (lit "verify PostgreSQL read-only transaction") x)
    | ok setting ↦
        if not (text_eq setting (lit "on"))
        then some (foreign (lit "PostgreSQL role does not default to read-only transactions"))
        else none
  ]

  unfoldable pub register_postgres : Definition → E → Option GoError × E
  register_postgres d e =
      register_remote attacher (lit "load PostgreSQL object metadata")
        (postgres_objects_query d.alias) d e

  -- Attach once the engine has attached the source.
  unfoldable pub finish_postgres : Definition → E → Option GoError × E
  finish_postgres d e = elim (verify_read_only d.alias e) [
    | some x ↦ or_detach attacher d (some x, e)
    | none ↦ or_detach attacher d (register_postgres d e)
  ]

  -- Attach
  unfoldable pub attach_postgres :
      Surroundings → PostgresConfig → PostgresCredential → Definition → E → Option GoError × E
  attach_postgres s c k d e = elim (validate_postgres s c k d) [
    | some x ↦ (some x, e)
    | none ↦
        let (error, e') = attacher.attach (postgres_attachment s c k d) e in
        elim error [ some x ↦ (some x, e') | none ↦ finish_postgres d e' ]
  ]

  -- Metadata
  unfoldable pub postgres_metadata : Definition → E → Result (List MetadataRow)
  postgres_metadata d e = read_metadata (attacher.query_metadata d.id e)

  -- Health
  unfoldable pub postgres_health : Definition → E → Option GoError
  postgres_health d e =
      elim (attacher.read_number
        (remote_query (postgres_opening (lit "value")) d.alias (lit "', 'SELECT 1 AS value')")) e) [
          | ok n ↦ none
          | err x ↦ some (wrapped (lit "PostgreSQL health check failed") x)
        ]

  abbrev pub role_warning : Text
  role_warning = lit "PostgreSQL role has elevated role attributes"

  abbrev pub grant_warning : Text
  grant_warning = lit "PostgreSQL role has non-SELECT table grants"

  -- PostureWarnings once the attributes are known.
  unfoldable pub grant_warnings : List Text → Definition → E → Result (List Text)
  grant_warnings warnings d e = elim (attacher.read_number (grants_query d.alias) e) [
    | err x ↦ err (wrapped (lit "inspect PostgreSQL grants") x)
    | ok grants ↦ ok (if is_not_positive grants then warnings else warnings ++ (grant_warning ∷ []))
  ]

  -- PostureWarnings
  unfoldable pub posture_warnings : Definition → E → Result (List Text)
  posture_warnings d e = elim (attacher.read_flags (roles_query d.alias) e) [
    | err x ↦ err (wrapped (lit "inspect PostgreSQL role posture") x)
    | ok flags ↦ grant_warnings (if any_flag flags then role_warning ∷ [] else []) d e
  ]
