-- ===== src/Source/Rows.antt =====
-- source.go ReadMetadata and the rows of a query. postgres.go Metadata has the same body.
use quackridge.Prelude.{Bool, Option, none, some, List, [], ◌∷◌, if◌then◌else◌}
use quackridge.Prelude.Text.{Text}
use quackridge.Prelude.Int.{ℤ}
use quackridge.Errors.Defs.{GoError}
use quackridge.Errors.Result.{Result, ok, err}

-- sql.Rows: what Scan makes of each row, and what Err returns after the last.
pub record Rows (V : Type 0) : Type 0 where
  pub scanned : List (Result V)
  pub final : Option GoError

-- `for rows.Next() { if err := rows.Scan(…); err != nil { return nil, err }; … }` and rows.Err().
-- The rows that Go returns beside an error of Err are left out.
unfoldable pub read_all :
    {V U : Type 0} → (V → U) → List (Result V) → Option GoError → Result (List U)
read_all f [] none = ok []
read_all f [] (some e) = err e
read_all f (err e ∷ rest) final = err e
read_all f (ok v ∷ rest) final = elim (read_all f rest final) [
  | err e ↦ err e
  | ok us ↦ ok (f v ∷ us)
]

unfoldable pub read_rows : {V U : Type 0} → (V → U) → Rows V → Result (List U)
read_rows f rows = read_all f rows.scanned rows.final

-- sql.NullString, sql.NullInt64 and sql.NullBool.
pub record Null (V : Type 0) : Type 0 where
  pub value : V
  pub is_valid : Bool

-- nullStringPointer, and the three tests of the loop.
unfoldable pub null_pointer : {V : Type 0} → Null V → Option V
null_pointer n = if n.is_valid then some n.value else none

-- The variables that Scan fills.
pub record Scanned : Type 0 where
  pub source_id : Text
  pub source_name : Text
  pub connector_type : Text
  pub database_type : Text
  pub source_health : Text
  pub catalog_name : Text
  pub schema_name : Null Text
  pub object_name : Null Text
  pub object_type : Null Text
  pub column_name : Null Text
  pub ordinal : Null ℤ
  pub duckdb_type : Null Text
  pub nullable : Null Bool
  pub is_system_schema : Null Bool
  pub error_code : Null Text

-- MetadataRow
pub record MetadataRow : Type 0 where
  pub source_id : Text
  pub source_name : Text
  pub connector_type : Text
  pub database_type : Text
  pub source_health : Text
  pub catalog_name : Text
  pub schema_name : Option Text
  pub object_name : Option Text
  pub object_type : Option Text
  pub column_name : Option Text
  pub ordinal_position : Option ℤ
  pub duckdb_type : Option Text
  pub nullable : Option Bool
  pub is_system_schema : Option Bool
  pub error_code : Option Text

-- The body of the loop of ReadMetadata.
unfoldable pub metadata_row : Scanned → MetadataRow
metadata_row s = record {
  source_id = s.source_id;
  source_name = s.source_name;
  connector_type = s.connector_type;
  database_type = s.database_type;
  source_health = s.source_health;
  catalog_name = s.catalog_name;
  schema_name = null_pointer s.schema_name;
  object_name = null_pointer s.object_name;
  object_type = null_pointer s.object_type;
  column_name = null_pointer s.column_name;
  ordinal_position = null_pointer s.ordinal;
  duckdb_type = null_pointer s.duckdb_type;
  nullable = null_pointer s.nullable;
  is_system_schema = null_pointer s.is_system_schema;
  error_code = null_pointer s.error_code;
}

-- ReadMetadata, given what Query returns.
unfoldable pub read_metadata : Result (Rows Scanned) → Result (List MetadataRow)
read_metadata (err e) = err e
read_metadata (ok rows) = read_rows metadata_row rows
