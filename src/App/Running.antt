-- ===== src/App/Running.antt =====
-- runtime.go Start, Stop and RotateToken.
pub mod Token
use quackridge.Prelude.{ap, Option, none, some, List, [], ◌∷◌, map}
use quackridge.Prelude.Text.{Text, lit}
use quackridge.Prelude.Int.{ℤ}
use quackridge.Errors.Defs.{GoError, public_because, source_unavailable, code_text}
use quackridge.Errors.Result.{Result, ok, err}
use quackridge.Config.Document.{Document}
use quackridge.Service.Defs.{Options, SourceStatus}
use quackridge.Reconcile.Manager.{Failure}
use quackridge.App.{file_paths, merge_paths}
use quackridge.App.Reload.{App, Engines}

-- The operations of an engine and its manager that Start and RotateToken use besides Reload's, and
-- endpointAddress, which is package net's and strconv's.
pub record Runner (E : Type 0) : Type 0 where
  pub engines : Engines E
  pub bootstrap : E → Result (List Failure) × E
  pub token : E → Text
  pub rotate : E → Option GoError × E
  pub endpoint_address : Text → Option (Text × ℤ)

abbrev pub load_failure : GoError → GoError
load_failure e = public_because source_unavailable (lit "load source configuration failed") e

-- The status of a source that did not come up.
unfoldable pub failed_status : Failure → SourceStatus
failed_status f = record {
  id = f.id;
  name = f.name;
  kind = f.kind;
  health = lit "unavailable";
  error_code = code_text source_unavailable;
}

abbrev pub with_address : Option (Text × ℤ) → Options → Options
with_address none options = options
with_address (some (host, port)) options = record options { listen_host = host; listen_port = port }

module _ {E : Type 0} (runner : Runner E) where
  open runner use {engines, bootstrap, token, rotate, endpoint_address}

  -- Start once the sources are bootstrapped.
  unfoldable pub bootstrapped :
      (endpoint : Text) → Result (List Failure) × E → App E → Result Text × App E
  bootstrapped endpoint (err x, e) r =
      (err (load_failure x), record r { engine = (engines.stop e).1 })
  bootstrapped endpoint (ok failures, e) r =
      (ok endpoint, record r { engine = e; failures = map failed_status failures })

  -- Start once the engine is started.
  unfoldable pub engine_started :
      Document → Options → (endpoint : Text) → E → App E → Result Text × App E
  engine_started document options endpoint e r =
      let options' = record (with_address (endpoint_address endpoint) options) {
        token = token e;
      } in
      bootstrapped endpoint (bootstrap e)
        (record r { engine = e; options = options'; document = document })

  unfoldable pub start_engine : Document → Options → Result Text × E → App E → Result Text × App E
  start_engine document options (err x, e) r = (err x, record r { engine = e })
  start_engine document options (ok endpoint, e) r = engine_started document options endpoint e r

  -- Start; `loaded` is what the loader returns.
  unfoldable pub start_app :
      (path_of : Text → Option Text)
      → (loaded : Result Document) → Options
      → App E
      → Result Text × App E
  start_app path_of (err x) options r = (err (load_failure x), r)
  start_app path_of (ok document) options r =
      let base = merge_paths (options.allowed_paths ∷ []) in
      let allowed = merge_paths (base ∷ file_paths path_of document.sources ∷ []) in
      let options' = record options { allowed_paths = allowed } in
      start_engine document options' (engines.start options' r.engine)
        (record r { base_paths = base })

  -- Stop
  unfoldable pub stop_app : App E → Option GoError × App E
  stop_app r =
      let (error, e) = engines.stop r.engine in (error, record r { engine = e; failures = [] })

  -- RotateToken
  unfoldable pub rotate_app : App E → Option GoError × App E
  rotate_app r =
      let (error, e) = rotate r.engine in
      elim error [
        | some x ↦ (some x, record r { engine = e })
        | none ↦ (none, record r { engine = e; options = record r.options { token = token e } })
      ]
