-- ===== src/Engine/Odbc/Tracked.antt =====
-- A world that tracks what is open and attached, and the steps of AttachODBC that change neither.
use quackridge.Prelude.{
  ◌≡◌, refl, inl, inr, Bool, true, false, ◌||◌, Option, none, some, List, [], ◌∷◌, ◌++◌, map, arith,
  Option-cases, is_some,
}
use quackridge.Prelude.Text.{Text, lit, has_prefix}
use quackridge.Prelude.Int.{ℤ}
use quackridge.Errors.Defs.{GoError}
use quackridge.Errors.Result.{ok, err}
use quackridge.Engine.Sql.{extension_sql_path}
use quackridge.Engine.Runtime.{
  extension_of, insert_object, delete_objects, insert_odbc_source, Statement, text, Driver,
  ObjectType, Memory, Live, detach_text, load_extension, check_version, ensure_connector_extension,
}
use quackridge.Engine.Runtime.Metadata.{
  register_object_types, replace_objects, insert_objects, end_transaction,
}
use quackridge.Engine.Odbc.{
  OdbcObject, OdbcAttachment, attach_memory, create_schema, create_view, object_type, add_view,
  add_object, add_objects, register_odbc, fill_catalog,
}

-- The statement attaches or detaches a catalog.
abbrev pub changes_catalogs : Statement → Bool
changes_catalogs (text t) = has_prefix t (lit "ATTACH ") || has_prefix t (lit "DETACH ")
changes_catalogs _ = false

schema-kept : (alias schema : Text) → changes_catalogs (create_schema alias schema) ≡ false
unfolding has_prefix lit
schema-kept alias schema = refl

view-kept :
    (alias : Text) (h : ℤ) (o : OdbcObject) → changes_catalogs (create_view alias h o) ≡ false
unfolding has_prefix lit
view-kept alias h o = refl

load_kept :
    (path : Text)
    → changes_catalogs (text (lit "LOAD '" ++ (extension_sql_path path ++ lit "'"))) ≡ false
unfolding has_prefix lit
load_kept path = refl

-- The ODBC connections that are open in a world, and the catalogs that are attached, last first.
pub record IsTracked {D : Type 0} (driver : Driver D) (opened : D → List ℤ)
    (catalogs : D → List Text) : Type 0 where
  pub connects :
      (c u p : Text) (h : ℤ) (d : D)
      → (driver.odbc_connect c u p d).0 ≡ ok h
      → opened (driver.odbc_connect c u p d).1 ≡ h ∷ opened d
  pub connect_fails :
      (c u p : Text) (e : GoError) (d : D)
      → (driver.odbc_connect c u p d).0 ≡ err e
      → opened (driver.odbc_connect c u p d).1 ≡ opened d
  pub connects_only : (c u p : Text) (d : D) → catalogs (driver.odbc_connect c u p d).1 ≡ catalogs d
  pub closes :
      (h : ℤ) (hs : List ℤ) (d : D)
      → opened d ≡ h ∷ hs
      → (driver.close_odbc h d).0 ≡ none
      → opened (driver.close_odbc h d).1 ≡ hs
  pub close_fails :
      (h : ℤ) (d : D)
      → is_some (driver.close_odbc h d).0 ≡ true
      → opened (driver.close_odbc h d).1 ≡ opened d
  pub closes_only : (h : ℤ) (d : D) → catalogs (driver.close_odbc h d).1 ≡ catalogs d
  pub attaches :
      (a : Text) (d : D)
      → (driver.exec (attach_memory a) d).0 ≡ none
      → catalogs (driver.exec (attach_memory a) d).1 ≡ a ∷ catalogs d
  pub attach_fails :
      (a : Text) (d : D)
      → is_some (driver.exec (attach_memory a) d).0 ≡ true
      → catalogs (driver.exec (attach_memory a) d).1 ≡ catalogs d
  pub detaches :
      (a : Text) (rest : List Text) (d : D)
      → catalogs d ≡ a ∷ rest
      → (driver.exec (detach_text driver a) d).0 ≡ none
      → catalogs (driver.exec (detach_text driver a) d).1 ≡ rest
  pub detach_fails :
      (a : Text) (d : D)
      → is_some (driver.exec (detach_text driver a) d).0 ≡ true
      → catalogs (driver.exec (detach_text driver a) d).1 ≡ catalogs d
  pub executes : (s : Statement) (d : D) → opened (driver.exec s d).1 ≡ opened d
  pub executes_only :
      (s : Statement) (d : D)
      → changes_catalogs s ≡ false
      → catalogs (driver.exec s d).1 ≡ catalogs d
  pub transacts :
      (d : D)
      → (opened (driver.begin d).1 ≡ opened d)
        × (catalogs (driver.begin d).1 ≡ catalogs d)
        × (opened (driver.commit d).1 ≡ opened d)
        × (catalogs (driver.commit d).1 ≡ catalogs d)
        × (opened (driver.rollback d) ≡ opened d)
        × (catalogs (driver.rollback d) ≡ catalogs d)

-- What the memory keeps while an extension is loaded.
abbrev pub Keeps : Memory → Memory → Type 0
Keeps m m' = (m'.odbc_handles ≡ m.odbc_handles) × (m'.sources ≡ m.sources)

module _ {D : Type 0} (driver : Driver D) (opened : D → List ℤ) (catalogs : D → List Text)
    (t : IsTracked driver opened catalogs) where
  abbrev pub Same : D → D → Type 0
  Same d d' = (opened d' ≡ opened d) × (catalogs d' ≡ catalogs d)

  exec-Same : (s : Statement) (d : D) → changes_catalogs s ≡ false → Same d (driver.exec s d).1
  exec-Same s d h = (t.executes s d, t.executes_only s d h)

  add_object-Same :
      (alias : Text) (h : ℤ) (o : OdbcObject) (l : Live D)
      → Same l.world (add_object driver alias h o l).1.world
        × Keeps l.memory (add_object driver alias h o l).1.memory
  unfolding add_object add_view
  add_object-Same alias h o l =
      let d' = (driver.exec (create_schema alias o.schema) l.world).1 in
      let one = exec-Same (create_schema alias o.schema) l.world (schema-kept alias o.schema) in
      let two = exec-Same (create_view alias h o) d' (view-kept alias h o) in ground arith

  add_objects-Same :
      (alias : Text) (h : ℤ) (os : List OdbcObject) (l : Live D)
      → Same l.world (add_objects driver alias h os l).1.world
        × Keeps l.memory (add_objects driver alias h os l).1.memory
  unfolding add_objects
  add_objects-Same alias h [] l = ((refl, refl), (refl, refl))
  add_objects-Same alias h (o ∷ rest) l =
      let one = add_object-Same alias h o l in
      let two = add_objects-Same alias h rest (add_object driver alias h o l).1 in ground arith

  insert_objects-Same :
      (id : Text) (l : List ObjectType) (d : D) → Same d (insert_objects driver id l d).1
  unfolding insert_objects
  insert_objects-Same id [] d = (refl, refl)
  insert_objects-Same id (o ∷ rest) d =
      let s = insert_object id o.schema o.name o.kind in
      let one = exec-Same s d refl in
      let two = insert_objects-Same id rest (driver.exec s d).1 in ground arith

  end_transaction-Same :
      (d : D) (x : Option GoError × D) → Same d x.1 → Same d (end_transaction driver x).1
  unfolding end_transaction
  end_transaction-Same d (some e, d') h = let k = t.transacts d' in ground arith
  end_transaction-Same d (none, d') h = let k = t.transacts d' in ground arith

  register_object_types-Same :
      (id : Text) (l : List ObjectType) (d : D) → Same d (register_object_types driver id l d).1
  unfolding register_object_types replace_objects
  register_object_types-Same id l d =
      let d1 = (driver.begin d).1 in
      let k = t.transacts d in
      let one = exec-Same (delete_objects id) d1 refl in
      let two = insert_objects-Same id l (driver.exec (delete_objects id) d1).1 in
      let three = end_transaction-Same d (replace_objects driver id l d1) (ground arith) in
      ground arith

  pub fill_catalog-Same :
      (a : OdbcAttachment) (h : ℤ) (l : Live D)
      → Same l.world (fill_catalog driver a h l).1.world
        × Keeps l.memory (fill_catalog driver a h l).1.memory
  unfolding fill_catalog register_odbc
  fill_catalog-Same a h l =
      let l1 = (add_objects driver a.alias h a.objects l).1 in
      let one = add_objects-Same a.alias h a.objects l in
      let s = insert_odbc_source a.id a.name a.database_type a.alias in
      let two = exec-Same s l1.world refl in
      let three =
        register_object_types-Same a.id (map object_type a.objects) (driver.exec s l1.world).1 in
      ground arith

  load_extension-Same :
      (path : Text) (l : Live D)
      → Same l.world (load_extension driver path l).1.world
        × Keeps l.memory (load_extension driver path l).1.memory
  unfolding load_extension
  load_extension-Same path l =
      let e =
        exec-Same (text (lit "LOAD '" ++ (extension_sql_path path ++ lit "'"))) l.world
          (load_kept path) in
      ground arith

  pub ensure-Same :
      (kind : Text) (l : Live D)
      → Same l.world (ensure_connector_extension driver kind l).1.world
        × Keeps l.memory (ensure_connector_extension driver kind l).1.memory
  unfolding ensure_connector_extension check_version
  ensure-Same kind l = elim (Option-cases (extension_of kind)) [
    | inl e ↦ ground arith
    | inr (x, e) ↦
        let k =
          load_extension-Same
            (driver.join_path l.memory.extension_dir (x ++ lit ".duckdb_extension")) l in
        ground arith
  ]
