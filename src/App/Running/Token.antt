-- ===== src/App/Running/Token.antt =====
-- The token that the application would start a new engine with is the one that clients have.
use quackridge.Prelude.{◌≡◌, true, Option, none, is_some}
use quackridge.Prelude.Text.{Text}
use quackridge.Errors.Result.{Result, ok}
use quackridge.Config.Document.{Document}
use quackridge.Service.Defs.{Options}
use quackridge.App.Reload.{App, reload}
use quackridge.App.Running.{Runner, start_app, rotate_app}

module _ {E : Type 0} (runner : Runner E) where
  -- The states that a start without an error, rotations, and reloads without an error lead to.
  pub data Reachable : App E → Type 0 where
    started :
        (path_of : Text → Option Text) (loaded : Result Document) (options : Options) (r : App E)
        (endpoint : Text)
        → (start_app runner path_of loaded options r).0 ≡ ok endpoint
        → Reachable (start_app runner path_of loaded options r).1
    rotated : (r : App E) → Reachable r → Reachable (rotate_app runner r).1
    reloaded :
        (path_of : Text → Option Text) (first probed loaded : Result Document) (r : App E)
        → Reachable r
        → (reload runner.engines path_of first probed loaded r).0 ≡ none
        → Reachable (reload runner.engines path_of first probed loaded r).1

  -- `Holds t e`: since t was read from the engine, or the engine was started with it, the engine has
  -- seen calls of its manager and refused rotations alone.
  pub data Holds : Text → E → Type 0 where
    read : (e : E) → Holds (runner.token e) e
    started_with :
        (o : Options) (e : E) (endpoint : Text)
        → (runner.engines.start o e).0 ≡ ok endpoint
        → Holds o.token (runner.engines.start o e).1
    bootstrapping : {t : Text} {e : E} → Holds t e → Holds t (runner.bootstrap e).1
    reloading :
        {t : Text} {e : E} (l : Result Document)
        → Holds t e
        → Holds t (runner.engines.reload_manager l e).1
    refused_rotation :
        {t : Text} {e : E}
        → is_some (runner.rotate e).0 ≡ true
        → Holds t e
        → Holds t (runner.rotate e).1

  abbrev pub KeepsToken : App E → Type 0
  KeepsToken r = Holds r.options.token r.engine
