-- ===== src/Checks/AdapterRuns.antt =====
-- Runs of the adapters.
use quackridge.Reconcile.Factories.Certificate.{validate_postgres-build_postgres}
use quackridge.Reconcile.Factories.{build_postgres}
use quackridge.Config.Document.{Source}
use quackridge.Prelude.Decimal.{decimal, decimal_fuel}
use quackridge.Prelude.Lists.{all, contains}
use quackridge.Source.Alias.{at_most, matches_alias}
use quackridge.Prelude.{◌≡◌, refl, true, none, some, List, [], ◌∷◌, ◌++◌, is_some}
use quackridge.Prelude.Text.{Text, lit, text_eq, contains_text, text_leb, ascii_lower, ascii_upper}
use quackridge.Prelude.Maps.{lookup, insert}
use quackridge.Prelude.Int.{pos, itoa}
use quackridge.Prelude.Sort.{sort}
use quackridge.Errors.Defs.{foreign}
use quackridge.Errors.Result.{ok, Result}
use quackridge.Engine.Sql.{odbc_connection_string, escape, odbc_field, trim_semicolon}
use quackridge.Source.{Definition}
use quackridge.Source.Rows.{Rows, read_all, read_rows}
use quackridge.Source.Attacher.{
  Attacher, Surroundings, check_connectivity, or_detach, register_remote, remote_query,
  store_objects, store_rows, validate_names,
}
use quackridge.Source.Postgres.{
  PostgresConfig, PostgresCredential, attach_postgres, add_options, base_values, finish_postgres,
  postgres_attachment, postgres_objects_query, read_only_query, register_postgres, safe_option,
  safe_options, secret_values, ssl_modes, valid_ssl_mode, validate_config, validate_postgres,
  verify_read_only, verifies,
}
use quackridge.Source.Mysql.{MysqlConfig}
use quackridge.Source.Attaching.{Cleaned, attach_postgres-Cleaned}
use quackridge.Source.Odbc.{check_properties, is_key_byte, is_secret_property, valid_property_key}
use quackridge.Source.Odbc.Connection.{
  OdbcConfig, connection_string, connection_value, contains_any, first_part, holds_byte,
  join_semicolon, property_parts,
}
use quackridge.Source.Odbc.Connection.Reading.{Reads, first_entry, entries_of, credential_entries}
use quackridge.Source.Odbc.Connection.Whole.{connection_string-Reads}

abbrev surroundings : Surroundings
surroundings = record {
  stat = λ t. none;
  is_regular = λ t. true;
  is_abs = λ t. true;
  dial = λ h p. none;
  close_dialed = λ h p. none;
  to_lower = ascii_lower;
  to_upper = ascii_upper;
}

-- An engine that is its list of catalogs; the remote setting is off.
abbrev Catalogs : Type 0
Catalogs = List Text

abbrev tail_of : Catalogs → Catalogs
tail_of [] = []
tail_of (c ∷ rest) = rest

abbrev no_rows : {V : Type 0} → Rows V
no_rows = record { scanned = []; final = none }

abbrev attacher : Attacher Catalogs
attacher = record {
  attach = λ a e. (none, a.alias ∷ e);
  detach = λ a i e. (none, tail_of e);
  register_object_types = λ i o e. (some (foreign (lit "disk")), e);
  update_database_type = λ i t e. (none, e);
  query_metadata = λ i e. ok no_rows;
  query_objects = λ q e. ok no_rows;
  read_text = λ q e. ok (lit "on");
  read_number = λ q e. ok (pos 1);
  read_flags = λ q e. ok [];
}

abbrev crm : Definition
crm = record {
  id = lit "1";
  name = lit "CRM";
  alias = lit "crm";
  connector_type = lit "postgres";
  database_type = [];
  enabled = true;
}

abbrev config : PostgresConfig
config = record {
  host = lit "db";
  port = pos 5432;
  database = lit "crm";
  user = lit "u";
  ssl_mode = lit "require";
  root_cert_ref = [];
  options = (lit "Options", lit "-c x=1") ∷ [];
}

abbrev credential : PostgresCredential
credential = record { password = lit "p"; root_certificate_path = [] }

attach_postgres-Cleaned_example :
    Cleaned surroundings attacher crm
      (postgres_attachment surroundings config credential crm)
      (lit "a" ∷ [])
      (attach_postgres attacher surroundings config credential crm (lit "a" ∷ []))
    × ((attach_postgres attacher surroundings config credential crm (lit "a" ∷ [])).0 ≡ none
        → (validate_postgres surroundings config credential crm ≡ none)
          × (verify_read_only attacher crm.alias
                (attacher.attach
                  (postgres_attachment surroundings config credential crm)
                  (lit "a" ∷ [])).1
              ≡ none))
attach_postgres-Cleaned_example =
    attach_postgres-Cleaned surroundings attacher config credential crm (lit "a" ∷ [])

postgres_run :
    (attach_postgres attacher surroundings config credential crm []).0 ≡ some (foreign (lit "disk"))
unfolding attach_postgres validate_postgres validate_config validate_names lit matches_alias at_most
    valid_ssl_mode contains ssl_modes text_eq check_connectivity finish_postgres verify_read_only
    or_detach register_postgres register_remote store_rows escape decimal decimal_fuel itoa insert
    remote_query store_objects add_options base_values postgres_attachment postgres_objects_query
    read_only_query safe_option safe_options secret_values read_all read_rows
postgres_run = refl

abbrev mysql : MysqlConfig
mysql = record {
  host = lit "db";
  port = pos 3306;
  database = lit "crm";
  user = lit "u";
  ssl_mode = lit "required";
  password = lit "p";
}

-- A property value and a password that try to add attributes.
abbrev odbc : OdbcConfig
odbc = record {
  dsn = lit "erp";
  driver = [];
  properties = (lit "Database", lit "a;UID=root") ∷ (lit "App", lit "x=1") ∷ [];
  database_type = [];
}

abbrev trim_nothing : Text → Text
trim_nothing t = t

properties_run : check_properties surroundings trim_nothing odbc.properties ≡ none
unfolding check_properties valid_property_key lit text_eq all is_key_byte is_secret_property
    contains ascii_upper contains_text contains_any holds_byte
properties_run = refl

string_run :
    odbc_connection_string (connection_string trim_nothing odbc) (lit "u") (lit "p};UID={r")
    ≡ lit "DSN={erp};App=x=1;Database={a;UID=root};UID={u};PWD={p}};UID={r}"
unfolding odbc_connection_string lit trim_semicolon connection_string join_semicolon property_parts
    sort text_leb first_part escape connection_value lookup text_eq contains_any holds_byte
    odbc_field
string_run = refl

connection_string-Reads_example :
    Reads
      (b';'
        ∷ odbc_connection_string (connection_string trim_nothing odbc) (lit "u") (lit "p};UID={r"))
      (first_entry odbc
        ∷ (entries_of odbc.properties (sort (lit "Database" ∷ lit "App" ∷ []))
            ++ credential_entries (lit "u") (lit "p};UID={r")))
connection_string-Reads_example =
    connection_string-Reads surroundings trim_nothing odbc (lit "u") (lit "p};UID={r")
      properties_run

-- A source that asks for the server's certificate to be verified.
abbrev verifying : PostgresConfig
verifying = record config { ssl_mode = lit "verify-full"; root_cert_ref = lit "crm-ca" }

abbrev configured : Source
configured = record {
  id = lit "1";
  name = lit "CRM";
  alias = lit "crm";
  kind = lit "postgres";
  database_type = [];
  enabled = true;
  credential_ref = lit "crm";
  options = lit "{}";
}

abbrev decode : Text → Result PostgresConfig
decode t = ok verifying

built : build_postgres decode configured (lit "p") ≡ ok (verifying, credential)
unfolding build_postgres lit
built = refl

verifying_mode : verifies verifying.ssl_mode ≡ true
unfolding text_eq lit
verifying_mode = refl

validate_postgres-build_postgres_example :
    is_some (validate_postgres surroundings verifying credential crm) ≡ true
validate_postgres-build_postgres_example =
    validate_postgres-build_postgres surroundings decode configured (lit "p") verifying credential
      crm built verifying_mode
