-- ===== src/Checks/OdbcRuns.antt =====
-- Runs of the engine's ODBC sources.
use quackridge.Version.{extension_versions}
use quackridge.Prelude.Lists.{all}
use quackridge.Prelude.Decimal.{decimal, decimal_fuel}
use quackridge.Engine.Runtime.Metadata.{
  end_transaction, insert_objects, register_object_types, replace_objects,
}
use quackridge.Source.Alias.{all_word, valid_identifier}
use quackridge.Prelude.{
  ℕ, zero, suc, ◌≡◌, refl, ap, ◌∙◌, true, false, Option, none, some, List, [], ◌∷◌, ◌++◌, arith,
  if◌then◌else◌,
}
use quackridge.Prelude.Text.{Text, lit, text_eq, has_prefix, replace_byte, ascii_upper}
use quackridge.Prelude.Maps.{lookup, insert}
use quackridge.Prelude.Int.{ℤ, pos, itoa}
use quackridge.Errors.Defs.{GoError, foreign}
use quackridge.Errors.Result.{ok}
use quackridge.Engine.Sql.{
  escape, double, quoted, quote_identifier, extension_sql_path, safe_catalog_identifier,
}
use quackridge.Engine.Sql.Quote.{read_quoted, read-escape}
use quackridge.Engine.Runtime.{
  Statement, text, Driver, Memory, check_version, ensure_connector_extension, extension_of, holds,
  load_extension, while_running,
}
use quackridge.Engine.Boot.Stop.{no_memory}
use quackridge.Engine.Odbc.{
  OdbcObject, OdbcAttachment, attach_odbc, attach_memory, add_object, add_objects, add_view,
  attach_handle, attach_odbc_live, connect_odbc, fill_catalog, finish_odbc, ready_odbc,
  register_odbc,
}
use quackridge.Engine.Odbc.Tracked.{IsTracked, changes_catalogs}
use quackridge.Engine.Odbc.Cleanup.{Balanced, attach_odbc-Balanced}

-- A world: the open connections and the attached catalogs, last first.
abbrev World : Type 0
World = List ℤ × List Text

unfoldable skip : ℕ → Text → Text
skip zero s = s
skip (suc n) [] = []
skip (suc n) (c ∷ s) = skip n s

abbrev tail_of {ℓ} : {A : Type ℓ} → List A → List A
tail_of [] = []
tail_of (x ∷ xs) = xs

abbrev name_of : Option (Text × Text) → Text
name_of none = []
name_of (some (name, _)) = name

-- The name that an ATTACH of an empty catalog has.
abbrev name_in : Text → Text
name_in t = name_of (read_quoted double false (skip 22 t))

unfoldable exec_text : Text → World → Option GoError × World
exec_text t d =
    if has_prefix t (lit "ATTACH ")
    then (none, (d.0, name_in t ∷ d.1))
    else if has_prefix t (lit "DETACH ")
    then (none, (d.0, tail_of d.1))
    else if has_prefix t (lit "CREATE VIEW ")
    then (some (foreign (lit "no view")), d)
    else (none, d)

abbrev exec_one : Statement → World → Option GoError × World
exec_one (text t) d = exec_text t d
exec_one _ d = (none, d)

abbrev tracked : Driver World
tracked = record {
  exec = exec_one;
  extension_version = λ t d. ok (lit "274a330");
  begin = λ d. (none, d);
  commit = λ d. (none, d);
  rollback = λ d. d;
  odbc_connect = λ c u p d. (ok (pos 7), (pos 7 ∷ d.0, d.1));
  close_odbc = λ h d. (none, (tail_of d.0, d.1));
  stat = λ t. none;
  is_regular = λ t. true;
  join_path = λ a b. a ++ b;
  to_upper = ascii_upper;
  equal_fold = λ a b. text_eq a b;
}

abbrev attach_text : Text → Text
attach_text a = lit "ATTACH ':memory:' AS " ++ quote_identifier a

skip-attach : (a : Text) → skip 22 (attach_text a) ≡ escape double a ++ (double ∷ [])
unfolding lit skip quote_identifier quoted
skip-attach a = refl

name_in-attach : (a : Text) → name_in (attach_text a) ≡ a
unfolding read_quoted skip lit quote_identifier quoted escape
name_in-attach a =
    ap (λ x. name_of (read_quoted double false x)) (skip-attach a)
    ∙ ap name_of (read-escape double a [] refl)

attaches :
    (a : Text) (d : World) → (tracked.exec (attach_memory a) d).1.1 ≡ name_in (attach_text a) ∷ d.1
unfolding exec_text has_prefix lit
attaches a d = refl

opened_kept : (s : Statement) (d : World) → (tracked.exec s d).1.0 ≡ d.0
unfolding exec_text
opened_kept s d = ground arith

catalogs_kept :
    (s : Statement) (d : World) → changes_catalogs s ≡ false → (tracked.exec s d).1.1 ≡ d.1
unfolding exec_text
catalogs_kept s d h = ground arith

detach-drops :
    (a : Text) (d : World)
    → (tracked.exec (text (lit "DETACH " ++ quote_identifier a)) d).1.1 ≡ tail_of d.1
unfolding exec_text has_prefix lit
detach-drops a d = refl

attach_succeeds : (a : Text) (d : World) → (tracked.exec (attach_memory a) d).0 ≡ none
unfolding exec_text has_prefix lit
attach_succeeds a d = refl

detach_succeeds :
    (a : Text) (d : World) → (tracked.exec (text (lit "DETACH " ++ quote_identifier a)) d).0 ≡ none
unfolding exec_text has_prefix lit
detach_succeeds a d = refl

tracked-IsTracked : IsTracked tracked (λ d. d.0) (λ d. d.1)
tracked-IsTracked = record {
  connects = λ c u p h d e. ground arith;
  connect_fails = λ c u p e d x. ground arith;
  connects_only = λ c u p d. refl;
  closes = λ h hs d e f. ap tail_of e;
  close_fails = λ h d e. ground arith;
  closes_only = λ h d. refl;
  attaches = λ a d e. attaches a d ∙ ap (λ x. x ∷ d.1) (name_in-attach a);
  attach_fails = λ a d e. let n = attach_succeeds a d in ground arith;
  detaches = λ a rest d e f. detach-drops a d ∙ ap tail_of e;
  detach_fails = λ a d e. let n = detach_succeeds a d in ground arith;
  executes = opened_kept;
  executes_only = catalogs_kept;
  transacts = λ d. (refl, refl, refl, refl, refl, refl);
}

abbrev objects : List OdbcObject
objects =
    record {
      schema = lit "dbo";
      name = lit "t";
      kind = lit "table";
      remote_select = lit "SELECT 1";
    }
    ∷ []

abbrev erp : OdbcAttachment
erp = record {
  id = lit "1";
  name = lit "ERP";
  alias = lit "erp";
  database_type = lit "odbc";
  connection = lit "DSN=erp";
  username = lit "u";
  password = lit "p";
  objects = objects;
}

abbrev memory : Memory
memory = record no_memory { loaded = lit "odbc_scanner" ∷ [] }

-- The view fails: the connection is closed and the catalog detached.
failing :
    (attach_odbc tracked erp (record { memory = memory; db = some ([], []) })).1.db ≡ some ([], [])
unfolding attach_odbc while_running attach_odbc_live valid_identifier lit all_word
    ensure_connector_extension extension_of text_eq holds connect_odbc attach_handle exec_text
    has_prefix finish_odbc fill_catalog add_objects add_object skip add_view ready_odbc
    register_odbc end_transaction insert_objects register_object_types replace_objects check_version
    load_extension read_quoted escape extension_sql_path quote_identifier quoted
    safe_catalog_identifier decimal decimal_fuel itoa all insert lookup replace_byte
    extension_versions
failing = refl

attach_odbc-Balanced_example :
    (d' : World) × ((attach_odbc tracked erp (record { memory = memory; db = some ([], []) })).1.db
      ≡ some d')
    × Balanced tracked
        (λ d. d.0)
        (λ d. d.1)
        tracked-IsTracked
        erp
        memory
        ([], [])
        (
          (attach_odbc tracked erp (record { memory = memory; db = some ([], []) })).0,
          record {
            memory =
                (attach_odbc tracked erp (record { memory = memory; db = some ([], []) })).1.memory;
            world = d';
          },
        )
attach_odbc-Balanced_example =
    attach_odbc-Balanced tracked (λ d. d.0) (λ d. d.1) tracked-IsTracked erp memory ([], [])
