-- ===== src/Engine/Diagnostics.antt =====
-- engine.go Reload, Diagnostics, Query and QueryRow.
use quackridge.Prelude.{Option, none, some, List, [], ◌∷◌}
use quackridge.Prelude.Text.{Text, lit}
use quackridge.Prelude.Maps.{Map, insert}
use quackridge.Prelude.Lists.{length}
use quackridge.Prelude.Decimal.{decimal}
use quackridge.Errors.Defs.{GoError}
use quackridge.Errors.Result.{Result, ok, err}
use quackridge.Json.{Value, string, number, object, Fields, done, field}
use quackridge.Version.{duckdb_version}
use quackridge.Source.Rows.{Rows, read_rows}
use quackridge.Engine.Runtime.{Engine, not_running, internal_failure}

-- The map of the settings, a later row over an earlier one.
unfoldable pub settings_map : List (Text × Text) → Map Text → Map Text
settings_map [] m = m
settings_map ((name, value) ∷ rest) m = settings_map rest (insert name value m)

unfoldable pub settings_fields : Map Text → Fields
settings_fields [] = done
settings_fields ((name, value) ∷ rest) = field name (string value) (settings_fields rest)

abbrev pub unreadable : GoError → GoError
unreadable e = internal_failure (lit "read engine diagnostics") e

module _ {D : Type 0} where
  -- Reload; `ping` is PingContext.
  unfoldable pub reload_engine : (ping : D → Option GoError) → Engine D → Option GoError
  reload_engine ping r = elim r.db [
    | none ↦ some not_running
    | some d ↦ elim (ping d) [
      | some e ↦ some (internal_failure (lit "validate engine during reload") e)
      | none ↦ none
    ]
  ]

  unfoldable pub diagnostics_of : Engine D → List (Text × Text) → Value
  diagnostics_of r rows = object (
      field (lit "duckdb_version") (string duckdb_version) (
        field (lit "endpoint") (string r.memory.endpoint) (
          field (lit "source_count") (number (decimal (length r.memory.sources)))
            (field (lit "settings") (object (settings_fields (settings_map rows []))) done))))

  -- Diagnostics; `query` is the query of the settings, whose rows are a name and a value.
  unfoldable pub diagnostics : (query : D → Result (Rows (Text × Text))) → Engine D → Result Value
  diagnostics query r = elim r.db [
    | none ↦ err not_running
    | some d ↦ elim (query d) [
      | err e ↦ err (unreadable e)
      | ok rows ↦ elim (read_rows (λ (x : Text × Text). x) rows) [
        | err e ↦ err (unreadable e)
        | ok settings ↦ ok (diagnostics_of r settings)
      ]
    ]
  ]
