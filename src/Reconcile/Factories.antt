-- ===== src/Reconcile/Factories.antt =====
-- postgres.go and connectors.go: the adapters that the factories build. The `decode` parameters are
-- json.Decoder with unknown fields refused.
pub mod Certificate
use quackridge.Prelude.{ap, Option, [], if◌then◌else◌}
use quackridge.Prelude.Text.{Text, lit, is_empty}
use quackridge.Errors.Defs.{foreign}
use quackridge.Errors.Result.{Result, ok, err}
use quackridge.Config.Document.{Source}
use quackridge.Source.Filedb.{FileAdapter}
use quackridge.Source.Postgres.{PostgresConfig, PostgresCredential}
use quackridge.Source.Mysql.{MysqlConfig}
use quackridge.Source.Odbc.{OdbcCredential, decode_credential}
use quackridge.Source.Odbc.Connection.{OdbcConfig}

-- PostgresFactory.Build
unfoldable pub build_postgres :
    (decode : Text → Result PostgresConfig)
    → Source
    → (credential : Text) → Result (PostgresConfig × PostgresCredential)
build_postgres decode s credential = elim (decode s.options) [
  | err e ↦ err e
  | ok options ↦
      if is_empty credential
      then err (foreign (lit "PostgreSQL credential is empty"))
      else ok (options, record { password = credential; root_certificate_path = [] })
]

-- MySQLFactory.Build
unfoldable pub build_mysql :
    (decode : Text → Result MysqlConfig) → Source → (credential : Text) → Result MysqlConfig
build_mysql decode s credential = elim (decode s.options) [
  | err e ↦ err e
  | ok options ↦ ok (record options { password = credential })
]

-- ODBCFactory.Build
unfoldable pub build_odbc :
    (decode : Text → Result OdbcConfig)
    → (unmarshal : Text → Option OdbcCredential) → Source
    → (credential : Text) → Result (OdbcConfig × OdbcCredential)
build_odbc decode unmarshal s credential = elim (decode s.options) [
  | err e ↦ err e
  | ok options ↦ elim (decode_credential unmarshal credential) [
    | err e ↦ err e
    | ok value ↦ ok (options, value)
  ]
]

-- FileFactory.Build; the decoded option is the path.
unfoldable pub build_file :
    (decode : Text → Result Text) → (connector : Text) → Source → Result FileAdapter
build_file decode connector s = elim (decode s.options) [
  | err e ↦ err e
  | ok path ↦ ok (record { connector = connector; path = path })
]
