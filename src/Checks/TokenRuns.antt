-- ===== src/Checks/TokenRuns.antt =====
-- A run of the application: a start, a rotation and a reload.
use quackridge.Prelude.{false, Option, none, [], ◌∷◌}
use quackridge.Prelude.Text.{Text, lit}
use quackridge.Prelude.Int.{pos}
use quackridge.Errors.Result.{ok}
use quackridge.Config.Document.{Document}
use quackridge.Service.Defs.{Options}
use quackridge.App.Reload.{App}
use quackridge.App.Running.{Runner, start_app}

-- An engine is its token; a rotation adds a byte to it.
abbrev chosen : Text → Text
chosen [] = lit "random"
chosen (c ∷ t) = c ∷ t

abbrev runner : Runner Text
runner = record {
  engines = record {
    fresh = [];
    start = λ o e. (ok (lit "quack:127.0.0.1:9494"), chosen o.token);
    stop = λ e. (none, []);
    reload_manager = λ l e. (none, e);
    reload_engine = λ e. none;
    manager_error = none;
  };
  bootstrap = λ e. (ok [], e);
  token = λ e. e;
  rotate = λ e. (none, b'x' ∷ e);
  endpoint_address = λ t. none;
}

abbrev options : Options
options = record {
  extension_dir = lit "/opt/";
  allowed_paths = [];
  listen_host = [];
  listen_port = pos 0;
  token = [];
  memory_limit = [];
  temp_limit = [];
  threads = pos 0;
  query_timeout = pos 0;
  has_logger = false;
}

abbrev document : Document
document = record { version = pos 1; sources = [] }

abbrev no_path : Text → Option Text
no_path t = none

abbrev new_app : App Text
new_app = record {
  engine = [];
  failures = [];
  options = options;
  base_paths = [];
  document = document;
}

abbrev running : App Text
running = (start_app runner no_path (ok document) options new_app).1
