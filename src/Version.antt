-- ===== src/Version.antt =====
-- version.go: the product's constants and capability set.
use quackridge.Prelude.{ℕ, List, [], ◌∷◌}
use quackridge.Prelude.Text.{Text, lit}
use quackridge.Prelude.Maps.{Map}

unfoldable pub product : Text
product = lit "quackridge"

abbrev pub protocol_version : ℕ
protocol_version = 2

abbrev pub metadata_version : ℕ
metadata_version = 2

unfoldable pub duckdb_version : Text
duckdb_version = lit "1.5.5"

-- The value of a development build; release builds replace it by the linker.
unfoldable pub dev_version : Text
dev_version = lit "0.1.0-dev"

-- Capabilities; a copy of the slice is the slice.
unfoldable pub capabilities : List Text
capabilities =
    lit "cancellation_noop"
    ∷ lit "metadata_v2"
    ∷ lit "pairing_v2"
    ∷ lit "query_ids"
    ∷ lit "sticky_sessions"
    ∷ []

-- ExtensionVersions
unfoldable pub extension_versions : Map Text
extension_versions =
    (lit "httpfs", lit "827222f")
    ∷ (lit "mysql_scanner", lit "7267164")
    ∷ (lit "odbc_scanner", lit "274a330")
    ∷ (lit "postgres_scanner", lit "41223e5")
    ∷ (lit "quack", lit "c154811")
    ∷ (lit "sqlite_scanner", lit "f79b1db")
    ∷ []
