-- ===== src/Checks/ServiceRuns.antt =====
-- Runs of internal/service.
use quackridge.Prelude.{ℕ, suc, ◌≡◌, refl, true, false, none, some, [], ◌∷◌}
use quackridge.Prelude.Text.{lit, text_eq}
use quackridge.Prelude.Int.{pos}
use quackridge.Errors.Result.{ok}
use quackridge.Errors.Defs.{GoError, foreign}
use quackridge.Service.Defs.{
  can_start, stopped_status, Options, Runtime, Service, new, sanitize, not_running, is_up,
  has_unavailable_source,
}
use quackridge.Service.Ops.{
  begin_start, start, reload, stop, finish_status, finish_reload, finish_start,
}
use quackridge.Service.Lifecycle.{IsResting, new-IsResting, ops-IsResting, reload_transactional}
use quackridge.Service.Concurrent.{
  in_start, here, next, start_begins, finishes, finish, Observed, initial, Reach-Observed,
}

-- A runtime that counts its starts, has one source that is not ready, and fails to reload.
abbrev toy : Runtime ℕ
toy = record {
  start = λ n o. (ok (lit "quack://127.0.0.1:9494"), suc n);
  reload = λ n. (some (foreign (lit "reload failed")), n);
  stop = λ n. (none, n);
  sources = λ n.
      record {
        id = lit "1";
        name = lit "crm";
        kind = lit "postgres";
        health = lit "failed";
        error_code = [];
      }
      ∷ [];
}

abbrev options : Options
options = record {
  extension_dir = lit "/opt";
  allowed_paths = [];
  listen_host = lit "127.0.0.1";
  listen_port = pos 9494;
  token = lit "t";
  memory_limit = [];
  temp_limit = [];
  threads = pos 2;
  query_timeout = pos 5;
  has_logger = true;
}

abbrev fresh : Service ℕ
fresh = new 0

abbrev running : Service ℕ
running = (start toy 7 options fresh).0

ops-IsResting_example :
    IsResting (start toy 7 options fresh).0.status
    × IsResting (reload toy fresh).0.status
    × IsResting (stop toy fresh).0.status
ops-IsResting_example = ops-IsResting toy 7 options fresh (new-IsResting 0)

reload_run : (reload toy running).1 ≡ some (foreign (lit "reload failed"))
unfolding reload start new stopped_status finish_start has_unavailable_source text_eq lit
    finish_reload
reload_run = refl

reload_transactional_example :
    (is_up running.status.state ≡ false → reload toy running ≡ (running, some not_running))
    × (is_up running.status.state ≡ true
        → ((reload toy running).1 ≡ (toy.reload running.runtime).0)
          × ((e : GoError)
              → (toy.reload running.runtime).0 ≡ some e
              → (reload toy running).0 ≡ record {
                runtime = (toy.reload running.runtime).1;
                status = record running.status { last_error = sanitize e };
              }))
reload_transactional_example = reload_transactional toy running

fresh_stopped : can_start (initial {R = ℕ} 0).service.status.state ≡ true
unfolding new stopped_status
fresh_stopped = refl

-- A status read while a start is in flight, which ends before the reader asks for the sources.
Reach-Observed_example :
    Observed toy
      (in_start options)
      (finish_status (begin_start fresh).status (
        toy.sources
          (finish toy 5
            (record { service = begin_start fresh; phase = in_start options })).runtime))
      (finish toy 5 (record { service = begin_start fresh; phase = in_start options })).runtime
Reach-Observed_example =
    Reach-Observed toy 0 (next here (start_begins options refl fresh_stopped))
      (next here (finishes 5))
