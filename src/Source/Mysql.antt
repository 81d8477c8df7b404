-- ===== src/Source/Mysql.antt =====
-- mysql.go: the adapter of MySQL and MariaDB.
use quackridge.Prelude.{
  Bool, true, not, ◌&&◌, ◌||◌, Option, none, some, List, [], ◌∷◌, ◌++◌, if◌then◌else◌,
}
use quackridge.Prelude.Text.{Text, lit, text_eq, is_empty, contains_text}
use quackridge.Prelude.Maps.{Map}
use quackridge.Prelude.Lists.{contains}
use quackridge.Prelude.Int.{ℤ, itoa}
use quackridge.Errors.Defs.{GoError, wrapped}
use quackridge.Errors.Result.{ok, err}
use quackridge.Engine.Runtime.{Attachment}
use quackridge.Source.{Definition}
use quackridge.Source.Attacher.{
  Attacher, Surroundings, ◌then_check◌, fails_if, validate_names, bad_port, check_connectivity,
  remote_query, or_detach, register_remote,
}

-- Config, and the password of Credential.
pub record MysqlConfig : Type 0 where
  pub host : Text
  pub port : ℤ
  pub database : Text
  pub user : Text
  pub ssl_mode : Text
  pub password : Text

unfoldable pub mysql_ssl_modes : List Text
mysql_ssl_modes =
    lit "disabled" ∷ lit "required" ∷ lit "verify_ca" ∷ lit "verify_identity" ∷ lit "preferred" ∷ []

abbrev pub is_mysql_type : Text → Bool
is_mysql_type kind = is_empty kind || (text_eq kind (lit "mysql") || text_eq kind (lit "mariadb"))

-- secretValues
unfoldable pub mysql_values : MysqlConfig → Map Text
mysql_values c =
    (lit "HOST", c.host)
    ∷ (lit "PORT", itoa c.port)
    ∷ (lit "DATABASE", c.database)
    ∷ (lit "USER", c.user)
    ∷ (lit "PASSWORD", c.password)
    ∷ (lit "SSL_MODE", c.ssl_mode)
    ∷ []

-- Validate
unfoldable pub validate_mysql : Surroundings → MysqlConfig → Definition → Option GoError
validate_mysql s c d =
    validate_names d
    then_check fails_if (is_empty c.host || (is_empty c.database || is_empty c.user))
        (lit "host, database, and user are required")
    then_check fails_if (not (is_mysql_type d.database_type))
        (lit "MySQL database type must be mysql or mariadb")
    then_check fails_if (bad_port c.port) (lit "invalid MySQL port")
    then_check fails_if (not (contains mysql_ssl_modes c.ssl_mode)) (lit "invalid MySQL SSL mode")
    then_check check_connectivity s (lit "MySQL connectivity check failed") c.host c.port

unfoldable pub mysql_attachment : MysqlConfig → Definition → Attachment
mysql_attachment c d = record {
  id = d.id;
  name = d.name;
  alias = d.alias;
  kind = lit "mysql";
  database_type = if is_empty d.database_type then lit "mysql" else d.database_type;
  connection = [];
  secret = mysql_values c;
  read_only = true;
}

abbrev pub mysql_opening : (column : Text) → Text
mysql_opening column = lit "SELECT " ++ (column ++ lit " FROM mysql_query('")

unfoldable pub version_query : Text → Text
version_query alias =
    remote_query (mysql_opening (lit "version")) alias (lit "', 'SELECT VERSION() AS version')")

unfoldable pub mysql_objects_query : Text → Text
mysql_objects_query alias =
    remote_query (mysql_opening (lit "table_schema, table_name, object_type")) alias (
      lit
        "', 'SELECT table_schema, table_name, CASE WHEN table_type = ''VIEW'' THEN ''view'' ELSE ''table'' END AS object_type FROM information_schema.tables')")

abbrev pub mysql_unhealthy : GoError → GoError
mysql_unhealthy x = wrapped (lit "MySQL health check failed") x

module _ {E : Type 0} (s : Surroundings) (attacher : Attacher E) where
  open attacher use {attach, update_database_type, read_text, read_number}

  unfoldable pub register_mysql : Definition → E → Option GoError × E
  register_mysql d e = or_detach attacher d (
      register_remote attacher (lit "load MySQL object metadata") (mysql_objects_query d.alias) d e)

  -- The version is known.
  unfoldable pub record_mariadb : (version : Text) → Definition → E → Option GoError × E
  record_mariadb version d e =
      let (error, e') = or_detach attacher d (update_database_type d.id (lit "mariadb") e) in
      if is_empty d.database_type && contains_text (s.to_lower version) (lit "mariadb")
      then elim error [ some x ↦ (some x, e') | none ↦ register_mysql d e' ]
      else register_mysql d e

  -- Attach once the engine has attached the source.
  unfoldable pub finish_mysql : Definition → E → Option GoError × E
  finish_mysql d e = elim (read_text (version_query d.alias) e) [
    | err x ↦ or_detach attacher d (some (mysql_unhealthy x), e)
    | ok version ↦ record_mariadb version d e
  ]

  -- Attach
  unfoldable pub attach_mysql : MysqlConfig → Definition → E → Option GoError × E
  attach_mysql c d e = elim (validate_mysql s c d) [
    | some x ↦ (some x, e)
    | none ↦
        let (error, e') = attach (mysql_attachment c d) e in
        elim error [ some x ↦ (some x, e') | none ↦ finish_mysql d e' ]
  ]

  -- Health
  unfoldable pub mysql_health : Definition → E → Option GoError
  mysql_health d e =
      elim (read_number
        (remote_query (mysql_opening (lit "value")) d.alias (lit "', 'SELECT 1 AS value')")) e) [
          | ok n ↦ none
          | err x ↦ some (mysql_unhealthy x)
        ]
