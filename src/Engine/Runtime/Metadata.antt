-- ===== src/Engine/Runtime/Metadata.antt =====
-- engine.go Runtime: detaching, object metadata, the token and the list of sources.
use quackridge.Prelude.{not, ◌||◌, Option, none, some, List, [], ◌∷◌, if◌then◌else◌}
use quackridge.Prelude.Text.{Text, lit, text_eq, text_leb}
use quackridge.Prelude.Maps.{Map, lookup, remove}
use quackridge.Errors.Defs.{GoError, public, internal}
use quackridge.Errors.Result.{Result, ok, err}
use quackridge.Service.Defs.{SourceStatus}
use quackridge.Source.Alias.{valid_identifier}
use quackridge.Engine.Sql.{unavailable}
use quackridge.Engine.Runtime.{
  delete_source, delete_objects, insert_object, update_database_type, quack_stop, quack_serve,
  Driver, ObjectType, Live, Engine, failed, internal_failure, while_running, run, run_ignored,
  detach_text, drop_secret,
}

module _ {D : Type 0} (driver : Driver D) where
  open driver use {exec, begin, commit, rollback, close_odbc}

  -- The ODBC handle of the source, if it has one, is closed.
  unfoldable pub close_handle : Text → Live D → Live D
  close_handle id l = elim (lookup id l.memory.odbc_handles) [
    | none ↦ l
    | some handle ↦ record {
      memory = record l.memory { odbc_handles = remove id l.memory.odbc_handles };
      world = (close_odbc handle l.world).1;
    }
  ]

  -- Detach once the catalog is detached.
  unfoldable pub forget : (alias id : Text) → Live D → Live D
  forget alias id l =
      let l1 =
        run_ignored driver (delete_objects id) (
          run_ignored driver (delete_source id)
            (run_ignored driver (drop_secret driver alias) l)) in
      let l2 =
        close_handle id
          (record l1 { memory = record l1.memory { sources = remove id l1.memory.sources } }) in
      record l2 { memory = record l2.memory { resolver = remove id l2.memory.resolver } }

  unfoldable pub detach_live : (alias id : Text) → Live D → Option GoError × Live D
  detach_live alias id l =
      let (error, l') = run driver (detach_text driver alias) l in
      if not (valid_identifier alias)
      then (some (unavailable (lit "source identifier is invalid")), l)
      else elim error [
        | some e ↦ (some (failed (lit "source detach failed") e), l')
        | none ↦ (none, forget alias id l')
      ]

  -- Detach
  unfoldable pub detach : (alias id : Text) → Engine D → Option GoError × Engine D
  detach alias id r = while_running (detach_live alias id) r

  -- The loop of registerObjectTypes, inside the transaction.
  unfoldable pub insert_objects : (id : Text) → List ObjectType → D → Option GoError × D
  insert_objects id [] d = (none, d)
  insert_objects id (o ∷ rest) d =
      let (error, d') = exec (insert_object id o.schema o.name o.kind) d in
      let next = insert_objects id rest d' in
      if not (text_eq o.kind (lit "table") || text_eq o.kind (lit "view"))
      then (some (public internal (lit "object metadata type is invalid")), d)
      else elim error [
        | some e ↦ (some (internal_failure (lit "insert object metadata") e), d')
        | none ↦ next
      ]

  -- The statements of the transaction.
  unfoldable pub replace_objects : (id : Text) → List ObjectType → D → Option GoError × D
  replace_objects id objects d =
      let (error, d') = exec (delete_objects id) d in
      elim error [
        | some e ↦ (some (internal_failure (lit "replace object metadata") e), d')
        | none ↦ insert_objects id objects d'
      ]

  -- Commit, or the deferred Rollback on an error; after a Commit it has no effect.
  unfoldable pub end_transaction : Option GoError × D → Option GoError × D
  end_transaction (some e, d) = (some e, rollback d)
  end_transaction (none, d) =
      let (error, d') = commit d in
      (
        elim error [
          | some e ↦ some (internal_failure (lit "commit object metadata") e)
          | none ↦ none
        ],
        d',
      )

  -- registerObjectTypes
  unfoldable pub register_object_types : (id : Text) → List ObjectType → D → Option GoError × D
  register_object_types id objects d =
      let (error, d') = begin d in
      elim error [
        | some e ↦ (some (internal_failure (lit "begin metadata update") e), d')
        | none ↦ end_transaction (replace_objects id objects d')
      ]

  -- UpdateDatabaseType
  unfoldable pub update_type : (id database_type : Text) → Engine D → Option GoError × Engine D
  update_type id database_type r = elim r.db [
    | none ↦ (some (unavailable (lit "database type is invalid")), r)
    | some d ↦
        let (error, d') = exec (update_database_type database_type id) d in
        if not (valid_identifier database_type)
        then (some (unavailable (lit "database type is invalid")), r)
        else (
          elim error [
            | some e ↦ some (internal_failure (lit "update source database type") e)
            | none ↦ none
          ],
          record r { db = some d' },
        )
  ]

  -- RotateToken once the old listener is stopped.
  unfoldable pub serve_new : (token : Text) → Live D → Option GoError × Live D
  serve_new token l =
      let (error, l') = run driver (quack_serve l.memory.endpoint token) l in
      elim error [
        | some e ↦ (
          some (internal_failure (lit "rotate token") e),
          run_ignored driver (quack_serve l.memory.endpoint l.memory.token) l',
        )
        | none ↦ (none, record l' { memory = record l'.memory { token = token } })
      ]

  unfoldable pub rotate_live : (random : Result Text) → Live D → Option GoError × Live D
  rotate_live (err e) l = (some (internal_failure (lit "rotate token") e), l)
  rotate_live (ok token) l =
      let (error, l') = run driver (quack_stop l.memory.endpoint) l in
      elim error [
        | some e ↦ (some (internal_failure (lit "rotate token") e), l')
        | none ↦ serve_new token l'
      ]

  -- RotateToken; `random` is what randomToken returns.
  unfoldable pub rotate_token : (random : Result Text) → Engine D → Option GoError × Engine D
  rotate_token random r = while_running (rotate_live random) r

-- slices.SortFunc by ID.
unfoldable pub insert_by_id : SourceStatus → List SourceStatus → List SourceStatus
insert_by_id s [] = s ∷ []
insert_by_id s (t ∷ rest) =
    let more = insert_by_id s rest in if text_leb s.id t.id then s ∷ t ∷ rest else t ∷ more

-- Sources
unfoldable pub list_sources : Map SourceStatus → List SourceStatus
list_sources [] = []
list_sources ((id, status) ∷ rest) = insert_by_id status (list_sources rest)
