-- ===== src/Source.antt =====
-- internal/source: definitions, aliases, the adapter registry, reconnect delays.
pub mod Alias
pub mod Registry
pub mod Backoff
pub mod Rows
pub mod Attacher
pub mod Filedb
pub mod Postgres
pub mod Mysql
pub mod Odbc
pub mod Attaching
use quackridge.Prelude.{Bool}
use quackridge.Prelude.Text.{Text}

-- Definition
pub record Definition : Type 0 where
  pub id : Text
  pub name : Text
  pub alias : Text
  pub connector_type : Text
  pub database_type : Text
  pub enabled : Bool
