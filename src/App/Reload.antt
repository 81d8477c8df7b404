-- ===== src/App/Reload.antt =====
-- runtime.go Reload, rebuild and restore: a reload that changes the allow list replaces the engine.
-- Engines with their managers are an interface. RebindLoader only refuses a nil loader, so its error
-- is left out; `manager_error` is the error of newManager.
pub mod Kept
use quackridge.Prelude.{◌-◌, ap, Option, none, some, List, [], ◌∷◌, if◌then◌else◌}
use quackridge.Prelude.Text.{Text, lit}
use quackridge.Prelude.Int.{pos}
use quackridge.Errors.Defs.{GoError, wrapped, joined}
use quackridge.Errors.Result.{Result, ok, err}
use quackridge.Config.Document.{Document}
use quackridge.Service.Defs.{Options, SourceStatus}
use quackridge.Protocol.Identity.{texts_eq}
use quackridge.App.{file_paths, merge_paths}

-- engine.Runtime and reconcile.Manager together. The manager's reload takes what its loader returns.
pub record Engines (E : Type 0) : Type 0 where
  pub fresh : E
  pub start : Options → E → Result Text × E
  pub stop : E → Option GoError × E
  pub reload_manager : Result Document → E → Option GoError × E
  pub reload_engine : E → Option GoError
  pub manager_error : Option GoError

-- Runtime
pub record App (E : Type 0) : Type 0 where
  pub engine : E
  pub failures : List SourceStatus
  pub options : Options
  pub base_paths : List Text
  pub document : Document

module _ {E : Type 0} (engines : Engines E) where
  open engines use {fresh, start, stop, reload_manager, reload_engine, manager_error}

  -- A new engine with the options, and its manager reloaded; an engine that does not reload is
  -- stopped. The texts are those of the two errors.
  unfoldable pub bring_up :
      (start_text reload_text : Text) → Options → Result Document → Option GoError × E
  bring_up start_text reload_text options loaded =
      let (started, e1) = start options fresh in
      let (error, e2) = reload_manager loaded e1 in
      elim started [
        | err x ↦ (some (wrapped start_text x), e1)
        | ok endpoint ↦ elim error [
          | some x ↦ (some (wrapped reload_text x), (stop e2).1)
          | none ↦ (none, e2)
        ]
      ]

  -- restore
  unfoldable pub restore : Document → Options → App E → Option GoError × App E
  restore document options r =
      let (error, e) =
        bring_up (lit "restore previous engine") (lit "restore previous sources") options
          (ok document) in
      elim manager_error [
        | some x ↦ (some (wrapped (lit "restore previous engine") x), r)
        | none ↦ elim error [
          | some x ↦ (some x, r)
          | none ↦ (none, record r { engine = e; options = options; document = document })
        ]
      ]

  -- errors.Join(err, restoreErr), with what restore leaves.
  unfoldable pub fail_restored : GoError → App E → Option GoError × App E
  fail_restored x r =
      let (error, r') = restore r.document r.options r in
      (some (elim error [ none ↦ x | some y ↦ joined x y ]), r')

  -- The start, reload and stop of the probe engine: its error. `loaded` is what the loader returns.
  unfoldable pub probe : Options → Result Document → Option GoError
  probe options loaded =
      let (started, e1) = start (record options { listen_port = pos 0; token = [] }) fresh in
      let (error, e2) = reload_manager loaded e1 in
      elim started [
        | err x ↦ some (wrapped (lit "validate reloaded engine") x)
        | ok endpoint ↦ elim error [
          | some x ↦ some x
          | none ↦ elim (stop e2).0 [
            | some x ↦ some (wrapped (lit "stop reload validation engine") x)
            | none ↦ none
          ]
        ]
      ]

  -- rebuild once the old engine is stopped.
  unfoldable pub replace_engine :
      (document : Document) → Options → Result Document → App E → Option GoError × App E
  replace_engine document options loaded r =
      let (error, e) =
        bring_up (lit "restart engine for file-source allowlist")
          (lit "reattach sources after engine restart") options loaded in
      elim error [
        | some x ↦ fail_restored x r
        | none ↦
            (none, record r { engine = e; options = options; failures = []; document = document })
      ]

  -- rebuild once the probe has succeeded.
  unfoldable pub swap_engine :
      (document : Document) → Options → Result Document → App E → Option GoError × App E
  swap_engine document options loaded r =
      let (error, e) = stop r.engine in
      elim error [
        | some x ↦ fail_restored x (record r { engine = e })
        | none ↦ replace_engine document options loaded (record r { engine = e })
      ]

  -- rebuild; the probe's manager and the new one load the configuration again.
  unfoldable pub rebuild :
      (document : Document)
      → List Text
      → (probed loaded : Result Document) → App E
      → Option GoError × App E
  rebuild document allowed_paths probed loaded r =
      let options = record r.options { allowed_paths = allowed_paths } in
      elim manager_error [
        | some x ↦ (some x, r)
        | none ↦ elim (probe options probed) [
          | some x ↦ (some x, r)
          | none ↦ swap_engine document options loaded r
        ]
      ]

  -- Reload where the allow list stays as it is.
  unfoldable pub reload_in_place :
      (document : Document) → (loaded : Result Document) → App E → Option GoError × App E
  reload_in_place document loaded r =
      let (error, e) = reload_manager loaded r.engine in
      let r' : App E = record r { engine = e } in
      elim error [
        | some x ↦ (some x, r')
        | none ↦ elim (reload_engine e) [
          | some x ↦ (some x, r')
          | none ↦ (none, record r' { failures = []; document = document })
        ]
      ]

  -- Reload: the loader is called once here, and once more by each manager.
  unfoldable pub reload :
      (path_of : Text → Option Text)
      → (first probed loaded : Result Document) → App E
      → Option GoError × App E
  reload path_of first probed loaded r = elim first [
    | err x ↦ (some x, r)
    | ok document ↦
        let next_paths = merge_paths (r.base_paths ∷ file_paths path_of document.sources ∷ []) in
        if texts_eq next_paths r.options.allowed_paths
        then reload_in_place document loaded r
        else rebuild document next_paths probed loaded r
  ]
