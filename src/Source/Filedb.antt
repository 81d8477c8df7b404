-- ===== src/Source/Filedb.antt =====
-- filedb.go: the adapter of SQLite and DuckDB files.
use quackridge.Prelude.{true, not, ◌&&◌, ◌||◌, Option, none, some, List, [], if◌then◌else◌, is_some}
use quackridge.Prelude.Text.{Text, lit, text_eq, is_empty}
use quackridge.Prelude.Int.{ℤ, eq_ℤ}
use quackridge.Errors.Defs.{GoError, foreign}
use quackridge.Errors.Result.{Result, ok, err}
use quackridge.Engine.Runtime.{Attachment}
use quackridge.Source.{Definition}
use quackridge.Source.Rows.{MetadataRow, read_metadata}
use quackridge.Source.Attacher.{Attacher, Surroundings, ◌then_check◌, fails_if, validate_names}

-- Adapter without its engine; the path is that of Config.
pub record FileAdapter : Type 0 where
  pub connector : Text
  pub path : Text

module _ (s : Surroundings) where
  unfoldable pub check_file : Text → Option GoError
  check_file path =
      fails_if (is_some (s.stat path) || not (s.is_regular path))
        (lit "database file is unavailable")

  -- Validate
  unfoldable pub validate_file : FileAdapter → Definition → Option GoError
  validate_file a d =
      validate_names d
      then_check fails_if
          (not (text_eq a.connector (lit "sqlite")) && not (text_eq a.connector (lit "duckdb")))
          (lit "unsupported file connector")
      then_check fails_if
          (not (is_empty d.database_type) && not (text_eq d.database_type a.connector))
          (lit "file database type must match its connector")
      then_check fails_if (not (s.is_abs a.path)) (lit "database path must be absolute")
      then_check check_file a.path

unfoldable pub file_attachment : FileAdapter → Definition → Attachment
file_attachment a d = record {
  id = d.id;
  name = d.name;
  alias = d.alias;
  kind = a.connector;
  database_type = a.connector;
  connection = a.path;
  secret = [];
  read_only = true;
}

module _ {E : Type 0} (s : Surroundings) (attacher : Attacher E) where
  -- Attach
  unfoldable pub attach_file : FileAdapter → Definition → E → Option GoError × E
  attach_file a d e = elim (validate_file s a d) [
    | some x ↦ (some x, e)
    | none ↦ attacher.attach (file_attachment a d) e
  ]

  -- Metadata
  unfoldable pub file_metadata : Definition → E → Result (List MetadataRow)
  file_metadata d e = read_metadata (attacher.query_metadata d.id e)

  -- Health; the statement takes the alias as its argument.
  unfoldable pub file_health : (count_of : Text → E → Result ℤ) → Definition → E → Option GoError
  file_health count_of d e =
      let failure : GoError = foreign (lit "database file health check failed") in
      elim (count_of d.alias e) [
        | err x ↦ some failure
        | ok count ↦ if not (eq_ℤ count 1) then some failure else none
      ]

  -- Cleanup
  unfoldable pub cleanup_source : Definition → E → Option GoError × E
  cleanup_source d e = attacher.detach d.alias d.id e
