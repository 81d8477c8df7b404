-- ===== src/Engine/Odbc.antt =====
-- engine.go AttachODBC, ODBCQuery, ClearODBC and the resolver of connection strings.
pub mod Tracked
pub mod Cleanup
use quackridge.Prelude.{
  ◌+◌, ◌*◌, ap, Bool, not, ◌||◌, Option, none, some, List, [], ◌∷◌, ◌++◌, map, if◌then◌else◌,
}
use quackridge.Prelude.Text.{Text, lit, text_eq}
use quackridge.Prelude.Maps.{Map, lookup, remove, insert}
use quackridge.Prelude.Int.{ℤ, itoa}
use quackridge.Errors.Defs.{GoError, foreign}
use quackridge.Errors.Result.{Result, ok, err}
use quackridge.Service.Defs.{SourceStatus}
use quackridge.Source.Alias.{valid_identifier}
use quackridge.Engine.Sql.{
  quote_identifier, quoted, single, safe_catalog_identifier, unavailable, odbc_connection_string,
}
use quackridge.Engine.Runtime.{
  Statement, text, insert_odbc_source, Driver, ObjectType, Live, Engine, failed, internal_failure,
  not_running, while_running, run, run_ignored, detach_text, ensure_connector_extension,
}
use quackridge.Engine.Runtime.Metadata.{register_object_types}

-- ODBCObject
pub record OdbcObject : Type 0 where
  pub schema : Text
  pub name : Text
  pub kind : Text
  pub remote_select : Text

-- ODBCAttachment
pub record OdbcAttachment : Type 0 where
  pub id : Text
  pub name : Text
  pub alias : Text
  pub database_type : Text
  pub connection : Text
  pub username : Text
  pub password : Text
  pub objects : List OdbcObject

abbrev pub attach_memory : Text → Statement
attach_memory alias = text (lit "ATTACH ':memory:' AS " ++ quote_identifier alias)

abbrev pub create_schema : (alias schema : Text) → Statement
create_schema alias schema = text (
    lit "CREATE SCHEMA IF NOT EXISTS "
    ++ (quote_identifier alias ++ (lit "." ++ quote_identifier schema)))

abbrev pub create_view : (alias : Text) → ℤ → OdbcObject → Statement
create_view alias handle o = text (
    lit "CREATE VIEW "
    ++ (quote_identifier alias
        ++ (lit "."
            ++ (quote_identifier o.schema
                ++ (lit "."
                    ++ (quote_identifier o.name
                        ++ (lit " AS SELECT * FROM odbc_query("
                            ++ (itoa handle
                                ++ (lit ", " ++ quoted single o.remote_select (lit ")"))))))))))

abbrev pub bad_object : OdbcObject → Bool
bad_object o =
    not (safe_catalog_identifier o.schema)
    || (not (safe_catalog_identifier o.name)
        || not (text_eq o.kind (lit "table") || text_eq o.kind (lit "view")))

abbrev pub object_type : OdbcObject → ObjectType
object_type o = record { schema = o.schema; name = o.name; kind = o.kind }

unfoldable pub ready_odbc : OdbcAttachment → SourceStatus
ready_odbc a = record {
  id = a.id;
  name = a.name;
  kind = lit "odbc";
  health = lit "ready";
  error_code = [];
}

module _ {D : Type 0} (driver : Driver D) where
  open driver use {odbc_connect, close_odbc}

  -- The view of one object, once its schema is there.
  unfoldable pub add_view : (alias : Text) → ℤ → OdbcObject → Live D → Option GoError × Live D
  add_view alias handle o l =
      let (error, l') = run driver (create_view alias handle o) l in
      (elim error [ some e ↦ some (failed (lit "ODBC relation setup failed") e) | none ↦ none ], l')

  unfoldable pub add_object : (alias : Text) → ℤ → OdbcObject → Live D → Option GoError × Live D
  add_object alias handle o l =
      let (error, l') = run driver (create_schema alias o.schema) l in
      if bad_object o
      then (some (unavailable (lit "ODBC metadata contains an unsupported identifier")), l)
      else elim error [
        | some e ↦ (some (failed (lit "ODBC schema setup failed") e), l')
        | none ↦ add_view alias handle o l'
      ]

  -- The loop over the objects.
  unfoldable pub add_objects :
      (alias : Text) → ℤ → List OdbcObject → Live D → Option GoError × Live D
  add_objects alias handle [] l = (none, l)
  add_objects alias handle (o ∷ rest) l =
      let (error, l') = add_object alias handle o l in
      elim error [ some e ↦ (some e, l') | none ↦ add_objects alias handle rest l' ]

  -- The rows of the source and of its objects.
  unfoldable pub register_odbc : OdbcAttachment → Live D → Option GoError × Live D
  register_odbc a l =
      let (error, l') = run driver (insert_odbc_source a.id a.name a.database_type a.alias) l in
      elim error [
        | some e ↦ (some (internal_failure (lit "register ODBC source metadata") e), l')
        | none ↦
            let (error', d) =
              register_object_types driver a.id (map object_type a.objects) l'.world in
            (error', record l' { world = d })
      ]

  -- The closure `fail`.
  abbrev pub give_back : (alias : Text) → ℤ → Live D → Live D
  give_back alias handle l =
      let l' = run_ignored driver (detach_text driver alias) l in
      record l' { world = (close_odbc handle l'.world).1 }

  -- All that may fail once the catalog is attached.
  unfoldable pub fill_catalog : OdbcAttachment → ℤ → Live D → Option GoError × Live D
  fill_catalog a handle l =
      let (error, l') = add_objects a.alias handle a.objects l in
      elim error [ some e ↦ (some e, l') | none ↦ register_odbc a l' ]

  unfoldable pub finish_odbc : OdbcAttachment → ℤ → Live D → Option GoError × Live D
  finish_odbc a handle l =
      let (error, l') = fill_catalog a handle l in
      elim error [
        | some e ↦ (some e, give_back a.alias handle l')
        | none ↦ (
          none,
          record l' {
            memory = record l'.memory {
              odbc_handles = insert a.id handle l'.memory.odbc_handles;
              sources = insert a.id (ready_odbc a) l'.memory.sources;
            };
          },
        )
      ]

  -- The catalog of a connection.
  unfoldable pub attach_handle : OdbcAttachment → ℤ → Live D → Option GoError × Live D
  attach_handle a handle l =
      let (error, l') = run driver (attach_memory a.alias) l in
      elim error [
        | some e ↦ (
          some (failed (lit "ODBC catalog setup failed") e),
          record l' { world = (close_odbc handle l'.world).1 },
        )
        | none ↦ finish_odbc a handle l'
      ]

  unfoldable pub connect_odbc : OdbcAttachment → Live D → Option GoError × Live D
  connect_odbc a l =
      let (result, d) = odbc_connect a.connection a.username a.password l.world in
      elim result [
        | err e ↦ (some (failed (lit "ODBC connection setup failed") e), record l { world = d })
        | ok handle ↦ attach_handle a handle (record l { world = d })
      ]

  unfoldable pub attach_odbc_live : OdbcAttachment → Live D → Option GoError × Live D
  attach_odbc_live a l =
      let (error, l') = ensure_connector_extension driver (lit "odbc") l in
      if not (valid_identifier a.alias) || not (valid_identifier a.database_type)
      then (some (unavailable (lit "ODBC source identifier is invalid")), l)
      else elim error [ some e ↦ (some e, l') | none ↦ connect_odbc a l' ]

  -- AttachODBC
  unfoldable pub attach_odbc : OdbcAttachment → Engine D → Option GoError × Engine D
  attach_odbc a r = while_running (attach_odbc_live a) r

  -- odbcResolver.set, as ODBCQuery calls it
  unfoldable pub set_connection : (id connection : Text) → Live D → Live D
  set_connection id connection l = record l {
    memory = record l.memory { resolver = insert id connection l.memory.resolver };
  }

  -- The statement of ODBCQuery: it names the source, not its credentials.
  unfoldable pub query_statement : (id query : Text) → Text
  query_statement id query =
      lit "SELECT * FROM odbc_query(quackridge_odbc_connection("
      ++ quoted single id (lit "), " ++ quoted single query (lit ")"))

  -- ODBCQuery on a running engine; `rows` is QueryContext, over its results V.
  unfoldable pub query_live :
      {V : Type 0}
      → (rows : Text → D → Result V × D) → (id connection username password query : Text) → Live D
      → Result V × Live D
  query_live rows id connection username password query l =
      let (error, l') = ensure_connector_extension driver (lit "odbc") l in
      elim error [
        | some e ↦ (err e, l')
        | none ↦
            let l'' = set_connection id (odbc_connection_string connection username password) l' in
            let (result, d) = rows (query_statement id query) l''.world in
            (result, record l'' { world = d })
      ]

  -- ODBCQuery
  unfoldable pub odbc_query :
      {V : Type 0}
      → (rows : Text → D → Result V × D) → (id connection username password query : Text) → Engine D
      → Result V × Engine D
  odbc_query rows id connection username password query r = elim r.db [
    | none ↦ (err not_running, r)
    | some d ↦
        let (result, l) =
          query_live rows id connection username password query
            (record { memory = r.memory; world = d }) in
        (result, record { memory = l.memory; db = some l.world })
  ]

-- odbcResolver.Executor: what the function in the statement returns.
unfoldable pub resolve : Map Text → Text → Result Text
resolve resolver id = elim (lookup id resolver) [
  | some connection ↦ ok connection
  | none ↦ err (foreign (lit "ODBC source is unavailable"))
]

-- ClearODBC; a runtime that is not running has an empty resolver.
unfoldable pub clear_odbc : {D : Type 0} → Text → Engine D → Engine D
clear_odbc id r = record r { memory = record r.memory { resolver = remove id r.memory.resolver } }
