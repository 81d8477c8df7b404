-- ===== src/Engine/Boot/Configure.antt =====
-- engine.go configure, lockConfiguration and installMetadataRelation.
use quackridge.Prelude.{ℕ, List, [], ◌∷◌, ◌++◌, ltb, if◌then◌else◌}
use quackridge.Prelude.Text.{Text, lit, is_empty}
use quackridge.Prelude.Int.{ℤ, is_not_positive, natural_part}
use quackridge.Prelude.Decimal.{decimal}
use quackridge.Errors.Defs.{GoError, public, resource_exhausted}
use quackridge.Errors.Result.{ok, err}
use quackridge.Service.Defs.{Options}
use quackridge.Engine.Sql.{quoted, single, quote_string_list}
use quackridge.Engine.Runtime.{
  Statement, text, create_sources, create_objects, create_metadata, create_active_queries,
  internal_failure,
}
use quackridge.Engine.Boot.{Host, Action, ◌>>=◌, with_error, execute}

abbrev pub or_default : Text → Text → Text
or_default value default = if is_empty value then default else value

-- The number of threads: four where the option is not positive.
unfoldable pub thread_count : ℤ → ℕ
thread_count threads = if is_not_positive threads then 4 else natural_part threads

-- "SET GLOBAL name = 'value'"
abbrev pub set_text : Text → Text → Statement
set_text name value = text (lit "SET GLOBAL " ++ (name ++ (lit " = " ++ quoted single value [])))

abbrev pub set_raw : Text → Text → Statement
set_raw name value = text (lit "SET GLOBAL " ++ (name ++ (lit " = " ++ value)))

-- The statements of configure; `join` is filepath.Join.
unfoldable pub settings : (join : Text → Text → Text) → Options → (sandbox : Text) → List Statement
settings join options sandbox =
    set_raw (lit "autoinstall_known_extensions") (lit "false")
    ∷ set_raw (lit "autoload_known_extensions") (lit "false")
    ∷ set_raw (lit "allow_community_extensions") (lit "false")
    ∷ set_raw (lit "allow_unsigned_extensions") (lit "false")
    ∷ set_raw (lit "allow_persistent_secrets") (lit "false")
    ∷ set_raw (lit "allow_unredacted_secrets") (lit "false")
    ∷ set_text (lit "default_secret_storage") (lit "memory")
    ∷ set_text (lit "secret_directory") (join sandbox (lit "secrets"))
    ∷ set_text (lit "temp_directory") (join sandbox (lit "temp"))
    ∷ set_raw (lit "enable_global_s3_configuration") (lit "false")
    ∷ set_raw (lit "allowed_directories") (quote_string_list (sandbox ∷ options.extension_dir ∷ []))
    ∷ set_raw (lit "allowed_paths") (quote_string_list options.allowed_paths)
    ∷ set_raw (lit "threads") (decimal (thread_count options.threads))
    ∷ set_text (lit "memory_limit") (or_default options.memory_limit (lit "1GB"))
    ∷ set_text (lit "max_temp_directory_size") (or_default options.temp_limit (lit "1GB"))
    ∷ []

abbrev pub too_many_threads : GoError
too_many_threads = public resource_exhausted (lit "thread limit exceeds the supported maximum")

module _ {D : Type 0} (host : Host D) where
  -- The loop over the statements.
  unfoldable pub execute_all : List Statement → Action D (Unit {0})
  execute_all [] b = (ok tt, b)
  execute_all (s ∷ rest) b = (execute host s >>= λ _. execute_all rest) b

  -- configure
  unfoldable pub configure : Options → (sandbox : Text) → Action D (Unit {0})
  configure options sandbox b =
      if ltb 64 (thread_count options.threads)
      then (err too_many_threads, b)
      else with_error (internal_failure (lit "lock engine configuration"))
          (execute_all (settings host.driver.join_path options sandbox)) b

  abbrev pub lock_statement : Statement
  lock_statement = set_raw (lit "lock_configuration") (lit "true")

  -- lockConfiguration
  unfoldable pub lock_configuration : Action D (Unit {0})
  lock_configuration =
      with_error (internal_failure (lit "lock engine configuration")) (execute host lock_statement)

  -- installMetadataRelation
  unfoldable pub install_metadata_relation : Action D (Unit {0})
  install_metadata_relation =
      with_error (internal_failure (lit "create source registry")) (execute host create_sources)
      >>= λ _.
          with_error (internal_failure (lit "create object registry")) (execute host create_objects)
          >>= λ _.
              with_error (internal_failure (lit "create metadata relation"))
                (execute host create_metadata)
              >>= λ _.
                  with_error (internal_failure (lit "create active-query relation"))
                    (execute host create_active_queries)
