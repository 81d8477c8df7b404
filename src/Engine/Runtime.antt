-- ===== src/Engine/Runtime.antt =====
-- engine.go Runtime: the state in memory and what its operations run on the database. Operations
-- hold the mutex from end to end, so each is one step; contexts and logging are left out.
pub mod Outcome
pub mod Metadata
use quackridge.Prelude.{
  ◌+◌, ap, Bool, false, not, ◌||◌, Option, none, some, List, [], ◌∷◌, ◌++◌, if◌then◌else◌,
}
use quackridge.Prelude.Text.{Text, lit, text_eq, is_empty}
use quackridge.Prelude.Maps.{Map, lookup, insert}
use quackridge.Prelude.Int.{ℤ}
use quackridge.Errors.Defs.{
  GoError, code_text, public, public_because, internal, source_unavailable, protocol_mismatch,
}
use quackridge.Errors.Result.{Result, ok, err}
use quackridge.Version.{extension_versions}
use quackridge.Service.Defs.{SourceStatus}
use quackridge.Source.Alias.{valid_identifier}
use quackridge.Engine.Sql.{
  extension_sql_path, quote_identifier, create_secret_statement, attach_statement, unavailable,
}

-- A statement that the runtime executes: a text that it builds, or one of its fixed statements with
-- their arguments.
pub data Statement : Type 0 where
  text : Text → Statement
  upsert_source :
      (id name kind database_type alias health : Text) (error_code : Option Text) → Statement
  register_objects : (id alias : Text) → Statement
  delete_source : (id : Text) → Statement
  delete_objects : (id : Text) → Statement
  insert_object : (id schema name kind : Text) → Statement
  update_database_type : (database_type id : Text) → Statement
  quack_stop : (endpoint : Text) → Statement
  quack_serve : (endpoint token : Text) → Statement
  quack_identify : (host meta : Text) → Statement
  create_sources create_objects create_metadata create_active_queries : Statement
  insert_odbc_source : (id name database_type alias : Text) → Statement

-- The driver over the database's state D, the file system, and two functions of strings.
pub record Driver (D : Type 0) : Type 0 where
  pub exec : Statement → D → Option GoError × D
  pub extension_version : Text → D → Result Text
  pub begin : D → Option GoError × D
  pub commit : D → Option GoError × D
  pub rollback : D → D
  pub odbc_connect : (connection username password : Text) → D → Result ℤ × D
  pub close_odbc : ℤ → D → Option GoError × D
  pub stat : Text → Option GoError
  pub is_regular : Text → Bool
  pub join_path : Text → Text → Text
  pub to_upper : Text → Text
  pub equal_fold : Text → Text → Bool

-- Attachment
pub record Attachment : Type 0 where
  pub id : Text
  pub name : Text
  pub alias : Text
  pub kind : Text
  pub database_type : Text
  pub connection : Text
  pub secret : Map Text
  pub read_only : Bool

-- ObjectType
pub record ObjectType : Type 0 where
  pub schema : Text
  pub name : Text
  pub kind : Text

-- The fields of Runtime that the operations below use. A set is a list, as a nil map reads.
pub record Memory : Type 0 where
  pub endpoint : Text
  pub token : Text
  pub extension_dir : Text
  pub loaded : List Text
  pub odbc_handles : Map ℤ
  pub resolver : Map Text
  pub sources : Map SourceStatus

-- A running engine: its memory and its database.
pub record Live (D : Type 0) : Type 0 where
  pub memory : Memory
  pub world : D

-- Runtime; db == nil is `none`.
pub record Engine (D : Type 0) : Type 0 where
  pub memory : Memory
  pub db : Option D

abbrev pub failed : Text → GoError → GoError
failed message e = public_because source_unavailable message e

-- internal
abbrev pub internal_failure : Text → GoError → GoError
internal_failure action e = public_because internal (action ++ lit " failed") e

abbrev pub not_running : GoError
not_running = unavailable (lit "engine is not running")

-- The guard of the operations, and their effect on a running engine.
unfoldable pub while_running :
    {D : Type 0} → (Live D → Option GoError × Live D) → Engine D → Option GoError × Engine D
while_running body r = elim r.db [
  | none ↦ (some not_running, r)
  | some d ↦
      let (error, l) = body (record { memory = r.memory; world = d }) in
      (error, record { memory = l.memory; db = some l.world })
]

-- The map of ensureConnectorExtension; an unsupported type is `none`.
unfoldable pub extension_of : Text → Option Text
extension_of kind =
    if text_eq kind (lit "postgres")
    then some (lit "postgres_scanner")
    else if text_eq kind (lit "mysql")
    then some (lit "mysql_scanner")
    else if text_eq kind (lit "sqlite")
    then some (lit "sqlite_scanner")
    else if text_eq kind (lit "odbc")
    then some (lit "odbc_scanner")
    else if text_eq kind (lit "duckdb")
    then some []
    else none

unfoldable pub holds : List Text → Text → Bool
holds [] t = false
holds (x ∷ xs) t = text_eq x t || holds xs t

abbrev pub database_type_of : Attachment → Text
database_type_of a = if is_empty a.database_type then a.kind else a.database_type

abbrev pub secret_name : Text → Text
secret_name alias = lit "qr_secret_" ++ alias

-- The SourceStatus that recordSource stores; no code is the empty text.
unfoldable pub status_of : Attachment → (health : Text) → (code : Option Text) → SourceStatus
status_of a health code = record {
  id = a.id;
  name = a.name;
  kind = a.kind;
  health = health;
  error_code = elim code [ none ↦ [] | some c ↦ c ];
}

module _ {D : Type 0} (driver : Driver D) where
  open driver use {
    exec, extension_version, begin, commit, rollback, close_odbc, stat, is_regular, join_path,
    to_upper, equal_fold,
  }

  abbrev pub run : Statement → Live D → Option GoError × Live D
  run s l = let (error, d) = exec s l.world in (error, record l { world = d })

  -- `_, _ = r.db.ExecContext(…)`
  abbrev pub run_ignored : Statement → Live D → Live D
  run_ignored s l = record l { world = (exec s l.world).1 }

  -- loadExtension
  unfoldable pub load_extension : Text → Live D → Option GoError × Live D
  load_extension path l = elim (stat path) [
    | some e ↦ (some (public_because internal (lit "required extension is unavailable") e), l)
    | none ↦
        if not (is_regular path)
        then (some (public internal (lit "required extension is unavailable")), l)
        else let (error, l') =
            run (text (lit "LOAD '" ++ (extension_sql_path path ++ lit "'"))) l in
          (
            elim error [
              | some e ↦ some (internal_failure (lit "load required extension") e)
              | none ↦ none
            ],
            l',
          )
  ]

  abbrev pub version_mismatch : Text
  version_mismatch = lit "unsupported source connector extension version"

  -- The version of an extension that was loaded.
  unfoldable pub check_version : (extension : Text) → Live D → Option GoError × Live D
  check_version extension l = elim (extension_version extension l.world) [
    | err e ↦ (some (public_because protocol_mismatch version_mismatch e), l)
    | ok version ↦
        if text_eq version (elim (lookup extension extension_versions) [ none ↦ [] | some v ↦ v ])
        then (none, record l { memory = record l.memory { loaded = extension ∷ l.memory.loaded } })
        else (some (public protocol_mismatch version_mismatch), l)
  ]

  -- ensureConnectorExtension
  unfoldable pub ensure_connector_extension : (kind : Text) → Live D → Option GoError × Live D
  ensure_connector_extension kind l = elim (extension_of kind) [
    | none ↦ (some (unavailable (lit "source connector is unsupported")), l)
    | some extension ↦
        let path = join_path l.memory.extension_dir (extension ++ lit ".duckdb_extension") in
        let (error, l') = load_extension path l in
        if is_empty extension || holds l.memory.loaded extension then (none, l) else elim error [
          | some e ↦ (some (failed (lit "source connector extension is unavailable") e), l')
          | none ↦ check_version extension l'
        ]
  ]

  -- recordSource
  unfoldable pub record_source : Attachment → (health : Text) → Option Text → Live D → Live D
  record_source a health code l =
      run_ignored (upsert_source a.id a.name a.kind (database_type_of a) a.alias health code)
        (record l {
          memory = record l.memory {
            sources = insert a.id (status_of a health code) l.memory.sources;
          };
        })

  abbrev pub record_unavailable : Attachment → Live D → Live D
  record_unavailable a l =
      record_source a (lit "unavailable") (some (code_text source_unavailable)) l

  abbrev pub detach_text : Text → Statement
  detach_text alias = text (lit "DETACH " ++ quote_identifier alias)

  abbrev pub drop_secret : Text → Statement
  drop_secret alias = text (lit "DROP SECRET " ++ quote_identifier (secret_name alias))

  -- Attach once the catalog is attached: the metadata, and the status.
  unfoldable pub attach_objects : Attachment → Live D → Option GoError × Live D
  attach_objects a l =
      let (error, l') = run (register_objects a.id a.alias) l in
      elim error [
        | some e ↦ (
          some (internal_failure (lit "register attached object metadata") e),
          run_ignored (detach_text a.alias) l',
        )
        | none ↦ (none, record_source a (lit "ready") none l')
      ]

  unfoldable pub attach_metadata : Attachment → Live D → Option GoError × Live D
  attach_metadata a l =
      let (error, l') =
        run (upsert_source a.id a.name a.kind (database_type_of a) a.alias (lit "ready") none) l in
      elim error [
        | some e ↦ (
          some (internal_failure (lit "register source metadata") e),
          run_ignored (detach_text a.alias) l',
        )
        | none ↦ attach_objects a l'
      ]

  -- The ATTACH itself.
  unfoldable pub attach_catalog : Attachment → Live D → Option GoError × Live D
  attach_catalog a l =
      let has_secret = not (is_empty a.secret) in
      let statement =
        attach_statement a.connection a.alias a.kind (secret_name a.alias) has_secret a.read_only
          (equal_fold a.kind (lit "postgres")) in
      let (error, l') = run (text statement) l in
      elim error [
        | some e ↦ (
          some (failed (lit "source attach failed") e),
          record_unavailable a (if has_secret then run_ignored (drop_secret a.alias) l' else l'),
        )
        | none ↦ attach_metadata a l'
      ]

  unfoldable pub attach_secret : Text → Attachment → Live D → Option GoError × Live D
  attach_secret statement a l =
      let (error, l') = run (text statement) l in
      elim error [
        | some e ↦ (some (failed (lit "source credential setup failed") e), record_unavailable a l')
        | none ↦ attach_catalog a l'
      ]

  unfoldable pub attach_credential : Attachment → Live D → Option GoError × Live D
  attach_credential a l =
      if is_empty a.secret
      then attach_catalog a l
      else elim (create_secret_statement to_upper (secret_name a.alias) a.kind a.secret) [
        | err e ↦ (some e, record_unavailable a l)
        | ok statement ↦ attach_secret statement a l
      ]

  unfoldable pub attach_live : Attachment → Live D → Option GoError × Live D
  attach_live a l =
      if not (valid_identifier a.alias) || not (valid_identifier a.kind)
      then (some (unavailable (lit "source identifier is invalid")), l)
      else let (error, l') = ensure_connector_extension a.kind l in
        elim error [ some e ↦ (some e, record_unavailable a l') | none ↦ attach_credential a l' ]

  -- Attach
  unfoldable pub attach : Attachment → Engine D → Option GoError × Engine D
  attach a r = while_running (attach_live a) r
