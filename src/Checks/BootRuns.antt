-- ===== src/Checks/BootRuns.antt =====
-- Runs of the engine's start and stop.
use quackridge.Prelude.Decimal.{decimal, decimal_fuel}
use quackridge.Engine.Boot.Configure.{
  configure, execute_all, install_metadata_relation, lock_configuration, settings, thread_count,
}
use quackridge.Engine.Sql.{
  escape, extension_sql_path, join_comma, quote_items, quote_string_list, quoted, trim_v,
  validate_version_pair, version_differs,
}
use quackridge.Prelude.{
  ℕ, suc, ◌≡◌, refl, true, false, not, Option, none, some, [], ◌∷◌, ◌++◌, is_some,
}
use quackridge.Prelude.Text.{lit, text_eq, replace_byte, ascii_upper}
use quackridge.Prelude.Maps.{lookup}
use quackridge.Prelude.Int.{pos, itoa}
use quackridge.Errors.Defs.{GoError, foreign}
use quackridge.Errors.Result.{ok}
use quackridge.Service.Defs.{Options}
use quackridge.Version.{extension_versions, duckdb_version}
use quackridge.Engine.Runtime.{Driver, Engine}
use quackridge.Engine.Boot.{Host, nothing_held, Booting}
use quackridge.Engine.Boot.Start.{
  start, boot, boot_sandboxed, choose_port, choose_token, is_loopback, load, make_sandbox_dir,
  ping_database, publish, serve, settle, started, trim_left, trim_right, verify_version_pair,
}
use quackridge.Engine.Boot.Resources.Sandboxed.{all_held}
use quackridge.Engine.Boot.Resources.Whole.{start-Settled, Settled}
use quackridge.Engine.Boot.Stop.{
  stop, new_engine, make_all, stop_calls, stop_lem, stop_live, close_handles,
}

-- A world that counts the calls.
abbrev counting : Driver ℕ
counting = record {
  exec = λ s d. (none, suc d);
  extension_version = λ t d. ok (lit "1");
  begin = λ d. (none, d);
  commit = λ d. (none, d);
  rollback = λ d. d;
  odbc_connect = λ c u p d. (ok (pos 7), d);
  close_odbc = λ h d. (some (foreign (lit "gone")), suc d);
  stat = λ t. none;
  is_regular = λ t. true;
  join_path = λ a b. a ++ b;
  to_upper = ascii_upper;
  equal_fold = λ a b. text_eq a b;
}

abbrev call : ℕ → Option GoError × ℕ
call d = (none, suc d)

abbrev host : Host ℕ
host = record {
  driver = counting;
  open_database = call;
  ping = λ d. none;
  engine_version = λ d. ok (lit "v1.5.5");
  loaded_versions = λ d. ok extension_versions;
  make_sandbox = λ d. (ok (lit "/tmp/q"), suc d);
  install_policy = call;
  open_connection = call;
  register_resolver = call;
  close_connection = call;
  close_policy = call;
  close_database = call;
  remove_all = λ t. call;
  random_token = ok (lit "secret");
  free_port = λ t. ok 5000;
  join_host_port = λ h p. h ++ (lit ":" ++ p);
  is_loopback_ip = λ t. text_eq t (lit "127.0.0.1");
  identity_json = lit "{}";
}

abbrev options : Options
options = record {
  extension_dir = lit "/opt/";
  allowed_paths = [];
  listen_host = [];
  listen_port = pos 0;
  token = [];
  memory_limit = [];
  temp_limit = [];
  threads = pos 0;
  query_timeout = pos 0;
  has_logger = false;
}

abbrev fresh : Booting ℕ
fresh = record { held = nothing_held; executed = []; world = 0 }

start_run : (start host options new_engine fresh).result ≡ ok (lit "quack:127.0.0.1:5000")
unfolding start lit settle boot ping_database load verify_version_pair validate_version_pair text_eq
    trim_v duckdb_version version_differs lookup extension_versions make_sandbox_dir boot_sandboxed
    configure thread_count execute_all install_metadata_relation lock_configuration settings
    choose_port choose_token is_loopback publish serve started trim_left trim_right escape
    extension_sql_path join_comma quote_items quote_string_list quoted decimal decimal_fuel itoa
    replace_byte
start_run = refl

start_token : (start host options new_engine fresh).engine.memory.token ≡ lit "secret"
unfolding start lit settle boot ping_database load verify_version_pair validate_version_pair text_eq
    trim_v duckdb_version version_differs lookup extension_versions make_sandbox_dir boot_sandboxed
    configure thread_count execute_all install_metadata_relation lock_configuration settings
    choose_port choose_token is_loopback publish serve started trim_left trim_right escape
    extension_sql_path join_comma quote_items quote_string_list quoted decimal decimal_fuel itoa
    replace_byte
start_token = refl

elsewhere :
    (start host (record options { listen_host = lit "10.0.0.1" }) new_engine fresh).booting.held
    ≡ nothing_held
unfolding start lit settle boot ping_database load verify_version_pair validate_version_pair text_eq
    trim_v duckdb_version version_differs lookup extension_versions make_sandbox_dir boot_sandboxed
    configure thread_count execute_all install_metadata_relation lock_configuration settings
    choose_port choose_token is_loopback publish serve started trim_left trim_right escape
    extension_sql_path join_comma quote_items quote_string_list quoted decimal decimal_fuel itoa
    replace_byte
elsewhere = refl

start-Settled_example :
    Settled host options new_engine
      (start host options new_engine fresh).result
      (start host options new_engine fresh).engine
      (start host options new_engine fresh).booting
start-Settled_example = start-Settled host options new_engine fresh refl refl

abbrev running : Engine ℕ
running = record {
  memory = record (start host options new_engine fresh).engine.memory {
    odbc_handles = (lit "1", pos 7) ∷ (lit "2", pos 8) ∷ [];
  };
  db = some 5;
}

stop_run : (stop host running (all_held (lit "/tmp/q")) 5).world ≡ 12
unfolding stop stop_live lit close_handles
stop_run = refl

stop_lem_example :
    (not (is_some (stop host running (all_held (lit "/tmp/q")) 5).error)
      ≡ (make_all (stop_calls host running.memory (lit "/tmp/q")) 5).0)
    × ((stop host running (all_held (lit "/tmp/q")) 5).world
        ≡ (make_all (stop_calls host running.memory (lit "/tmp/q")) 5).1)
    × ((stop host running (all_held (lit "/tmp/q")) 5).held ≡ nothing_held)
    × ((stop host running (all_held (lit "/tmp/q")) 5).engine ≡ new_engine)
stop_lem_example = stop_lem host running (all_held (lit "/tmp/q")) 5 5 refl
