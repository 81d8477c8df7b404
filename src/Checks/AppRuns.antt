-- ===== src/Checks/AppRuns.antt =====
-- Runs of internal/secrets and internal/app.
use quackridge.Protocol.Identity.{texts_eq}
use quackridge.Engine.Runtime.Metadata.{insert_by_id, list_sources}
use quackridge.Policy.Sources.{add_to_set}
use quackridge.Prelude.{ℕ, suc, ◌≡◌, refl, true, Option, none, some, List, [], ◌∷◌, is_some}
use quackridge.Prelude.Text.{Text, lit, text_eq, text_leb, ascii_upper}
use quackridge.Prelude.Lists.{contains}
use quackridge.Prelude.Maps.{insert}
use quackridge.Errors.Result.{ok, err}
use quackridge.Prelude.Sort.{sort}
use quackridge.Prelude.Int.{pos}
use quackridge.Errors.Defs.{foreign}
use quackridge.Config.Document.{Document}
use quackridge.Service.Defs.{SourceStatus}
use quackridge.App.Reload.{Engines, App, reload, probe, rebuild}
use quackridge.App.Reload.Kept.{Reloaded, reload-Reloaded}
use quackridge.Secrets.{
  not_found, memory_get, Call, put, delete, after_call, replay, latest, refused, memory_lem,
  environment_key, key_runes,
}
use quackridge.App.{
  merge_paths, sources_locked, add_groups, add_paths, by_id, file_paths, source_paths,
}

-- Two credentials, a refused one, and the first deleted and put again.
abbrev calls : List Call
calls =
    put (lit "r1") (lit "new")
    ∷ delete (lit "r1")
    ∷ put (lit "r3") []
    ∷ put (lit "r2") (lit "x")
    ∷ put (lit "r1") (lit "pw")
    ∷ []

memory_lem_example :
    (memory_get (lit "r1") (replay calls)
      ≡ elim (latest (lit "r1") calls) [ none ↦ err not_found | some value ↦ ok value ])
    × (is_some (after_call (delete (lit "r3")) (replay calls)).1
        ≡ refused (delete (lit "r3")) calls)
memory_lem_example = memory_lem calls (lit "r1") (delete (lit "r3"))

key_run :
    environment_key ascii_upper (λ t. t) [] (lit "crm-db.1") ≡ lit "QUACKRIDGE_SECRET_CRM_DB_1"
unfolding environment_key lit key_runes ascii_upper
key_run = refl

abbrev groups : List (List Text)
groups = (lit "/b" ∷ [] ∷ lit "/a" ∷ []) ∷ (lit "/b" ∷ []) ∷ []

merged : merge_paths groups ≡ lit "/a" ∷ lit "/b" ∷ []
unfolding merge_paths sort add_groups add_paths lit add_to_set contains text_eq text_leb
merged = refl

abbrev status : Text → Text → SourceStatus
status id health = record {
  id = id;
  name = id;
  kind = lit "odbc";
  health = health;
  error_code = [];
}

-- A failure hides the engine's status of the same source.
hidden :
    sources_locked
      (status (lit "2") (lit "ready") ∷ status (lit "1") (lit "ready") ∷ [])
      (status (lit "2") (lit "unavailable") ∷ [])
    ≡ status (lit "1") (lit "ready") ∷ status (lit "2") (lit "unavailable") ∷ []
unfolding sources_locked list_sources by_id insert text_eq lit insert_by_id text_leb
hidden = refl

-- Engines that are numbers: 0 is fresh, and an engine with a file on its allow list does not start.
abbrev toy : Engines ℕ
toy = record {
  fresh = 0;
  start = λ o n. elim o.allowed_paths [
    | [] ↦ (ok (lit "quack:127.0.0.1:9494"), suc n)
    | p ∷ rest ↦ (err (foreign (lit "file is missing")), n)
  ];
  stop = λ n. (none, 0);
  reload_manager = λ d n. (none, n);
  reload_engine = λ n. none;
  manager_error = none;
}

abbrev files : Document
files = record {
  version = pos 1;
  sources =
      record {
        id = lit "1";
        name = lit "a";
        alias = lit "a";
        kind = lit "duckdb";
        database_type = [];
        enabled = true;
        credential_ref = [];
        options = lit "/a";
      }
      ∷ [];
}

abbrev app : App ℕ
app = record {
  engine = 1;
  failures = [];
  options = record {
    extension_dir = lit "/opt";
    allowed_paths = [];
    listen_host = lit "127.0.0.1";
    listen_port = pos 9494;
    token = lit "t";
    memory_limit = [];
    temp_limit = [];
    threads = pos 2;
    query_timeout = pos 5;
    has_logger = true;
  };
  base_paths = [];
  document = record { version = pos 1; sources = [] };
}

abbrev path_option : Text → Option Text
path_option t = some t

-- The probe of the new allow list fails, so the engine is not touched.
probe_fails : (reload toy path_option (ok files) (ok files) (ok files) app).1.engine ≡ 1
unfolding reload texts_eq merge_paths sort add_groups add_paths file_paths source_paths text_eq lit
    add_to_set contains text_leb rebuild probe
probe_fails = refl

reload-Reloaded_example :
    Reloaded files
      (record app.options {
        allowed_paths = merge_paths (app.base_paths ∷ file_paths path_option files.sources ∷ []);
      })
      app
      (reload toy path_option (ok files) (ok files) (ok files) app)
reload-Reloaded_example = reload-Reloaded toy path_option files (ok files) (ok files) app
