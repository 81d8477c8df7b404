-- ===== src/Policy/Tree.antt =====
-- policy.go inspectTree and unsafeObjectName, over the tree that DuckDB's json_serialize_sql gives.
-- `to_lower` is strings.ToLower.
use quackridge.Prelude.{
  ◌≡◌, ◌↔◌, Bool, true, false, not, ◌&&◌, ◌||◌, none, some, List, [], ◌∷◌, arith, ◌==◌,
  if◌then◌else◌,
}
use quackridge.Prelude.Text.{Text, lit, text_eq, has_prefix, contains_text, has_suffix}
use quackridge.Prelude.Lists.{contains}
use quackridge.Json.{
  Value, Fields, object, member, as_string, string_or_empty, as_object, Within, every, every_iff,
}

-- forbiddenFunctions
unfoldable pub forbidden_functions : List Text
forbidden_functions =
    lit "getenv"
    ∷ lit "glob"
    ∷ lit "http_get"
    ∷ lit "http_post"
    ∷ lit "postgres_attach"
    ∷ lit "postgres_execute"
    ∷ lit "postgres_query"
    ∷ lit "postgres_scan"
    ∷ lit "mysql_attach"
    ∷ lit "mysql_execute"
    ∷ lit "mysql_query"
    ∷ lit "mysql_scan"
    ∷ lit "odbc_begin_transaction"
    ∷ lit "odbc_close"
    ∷ lit "odbc_commit"
    ∷ lit "odbc_connect"
    ∷ lit "odbc_copy"
    ∷ lit "odbc_query"
    ∷ lit "odbc_rollback"
    ∷ lit "quackridge_odbc_connection"
    ∷ lit "query"
    ∷ lit "query_table"
    ∷ lit "read_blob"
    ∷ lit "read_csv"
    ∷ lit "read_csv_auto"
    ∷ lit "read_json"
    ∷ lit "read_json_auto"
    ∷ lit "read_ndjson"
    ∷ lit "read_parquet"
    ∷ lit "read_text"
    ∷ lit "setvariable"
    ∷ lit "which_secret"
    ∷ []

-- allowedTableFunctions
unfoldable pub allowed_table_functions : List Text
allowed_table_functions =
    lit "duckdb_columns"
    ∷ lit "duckdb_schemas"
    ∷ lit "duckdb_tables"
    ∷ lit "duckdb_types"
    ∷ lit "duckdb_views"
    ∷ lit "generate_series"
    ∷ lit "quackridge_active_queries_v1"
    ∷ lit "quackridge_metadata_v2"
    ∷ lit "range"
    ∷ lit "unnest"
    ∷ lit "whoami"
    ∷ []

-- The test of a lower-cased function name.
unfoldable pub is_denied : Text → Bool
is_denied name =
    contains forbidden_functions name
    || has_prefix name (lit "postgres_")
    || has_prefix name (lit "mysql_")
    || has_prefix name (lit "odbc_")
    || has_prefix name (lit "read_")
    || has_prefix name (lit "http_")

-- strings.ContainsAny(name, `/\\`): a slash or a backslash.
unfoldable pub has_separator : Text → Bool
has_separator [] = false
has_separator (c ∷ s) = c == b'/' || c == 92 || has_separator s

module _ (to_lower : Text → Text) where
  -- unsafeObjectName
  unfoldable pub unsafe_object_name : Value → Bool
  unsafe_object_name value =
      let name = string_or_empty value in
      let lower = to_lower name in
      has_separator name
      || contains_text lower (lit "://")
      || has_suffix lower (lit ".csv")
      || has_suffix lower (lit ".json")
      || has_suffix lower (lit ".parquet")
      || has_suffix lower (lit ".duckdb")

  -- The check of a "function_name" that is a string.
  unfoldable pub function_ok : Fields → Bool
  function_ok node = elim (as_string (member (lit "function_name") node)) [
    | some name ↦ not (is_denied (to_lower name))
    | none ↦ true
  ]

  -- The check of a table function.
  unfoldable pub table_function_ok : Fields → Bool
  table_function_ok node =
      if text_eq (string_or_empty (member (lit "type") node)) (lit "TABLE_FUNCTION")
      then contains allowed_table_functions (
          to_lower (
            string_or_empty
              (member (lit "function_name") (as_object (member (lit "function") node)))))
      else true

  -- The check of a base table: none of its three names is unsafe.
  unfoldable pub base_table_ok : Fields → Bool
  base_table_ok node =
      if text_eq (string_or_empty (member (lit "type") node)) (lit "BASE_TABLE")
      then not (unsafe_object_name (member (lit "catalog_name") node))
        && not (unsafe_object_name (member (lit "schema_name") node))
        && not (unsafe_object_name (member (lit "table_name") node))
      else true

  -- What inspectTree tests at one object before it goes on to the children.
  unfoldable pub node_ok : Fields → Bool
  node_ok node = function_ok node && table_function_ok node && base_table_ok node

  -- inspectTree: lists and objects are walked to every depth.
  unfoldable pub inspect_tree : Value → Bool
  inspect_tree = every node_ok

  -- inspectTree accepts a tree exactly when, at every depth, each object with a function name has
  -- one that is not denied, each table function is on the allow list, and each base table has
  -- three names that denote no file.
  pub inspect_tree_iff :
      (tree : Value)
      → (inspect_tree tree ≡ true) ↔ (
          (node : Fields)
          → Within (object node) tree
          → (function_ok node ≡ true)
            × (table_function_ok node ≡ true)
            × (base_table_ok node ≡ true))
  unfolding inspect_tree node_ok
  inspect_tree_iff tree = (
    λ h node w.
        let e = (every_iff node_ok tree).0 h node w in (ground arith, ground arith, ground arith),
    λ h. (every_iff node_ok tree).1 (λ node w. let e = h node w in ground arith),
  )
