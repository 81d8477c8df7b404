-- ===== src/Reconcile/Factories/Certificate.antt =====
-- The factory of PostgreSQL sources and the modes that verify the server's certificate.
use quackridge.Prelude.{◌≡◌, true, arith, is_some}
use quackridge.Prelude.Text.{Text, is_empty}
use quackridge.Errors.Result.{Result, ok}
use quackridge.Config.Document.{Source}
use quackridge.Source.{Definition}
use quackridge.Source.Attacher.{Surroundings}
use quackridge.Source.Postgres.{
  PostgresConfig, PostgresCredential, verifies, validate_config, validate_postgres,
}
use quackridge.Reconcile.Factories.{build_postgres}

no_certificate :
    (decode : Text → Result PostgresConfig) (s : Source) (credential : Text) (c : PostgresConfig)
    (k : PostgresCredential)
    → build_postgres decode s credential ≡ ok (c, k)
    → is_empty k.root_certificate_path ≡ true
unfolding build_postgres
no_certificate decode s credential c k h = ground arith

-- A PostgreSQL source that the factory builds with the mode verify-ca or verify-full is refused by
-- Validate, whatever its root certificate reference, its credential and the network.
pub validate_postgres-build_postgres :
    (surroundings : Surroundings) (decode : Text → Result PostgresConfig) (s : Source)
    (credential : Text) (c : PostgresConfig) (k : PostgresCredential) (d : Definition)
    → build_postgres decode s credential ≡ ok (c, k)
    → verifies c.ssl_mode ≡ true
    → is_some (validate_postgres surroundings c k d) ≡ true
unfolding validate_postgres validate_config
validate_postgres-build_postgres surroundings decode s credential c k d h v =
    let n = no_certificate decode s credential c k h in ground arith
