-- ===== src/Service/Ops.antt =====
-- service.go: Start, Reload, Stop and Status. Each operation is cut where the source releases
-- `mu` to call the runtime: `begin_*` runs before the call and `finish_*` after it, both under `mu`;
-- `opMu` is held all along.
use quackridge.Prelude.{ℕ, Option, none, some, List, [], if◌then◌else◌}
use quackridge.Prelude.Text.{Text}
use quackridge.Errors.Defs.{GoError}
use quackridge.Errors.Result.{Result, ok, err}
use quackridge.Service.Defs.{
  State, starting, reloading, stopping, failed, SourceStatus, Status, Options, Runtime, Service,
  stopped_status, sanitize, already_active, not_running, can_start, is_up, is_stopped, up_state,
}

-- The end of Status, after it has copied the status and released `mu`: while that status is up, the
-- sources that are read now decide the state.
unfoldable pub finish_status : Status → List SourceStatus → Status
finish_status st found =
    if is_up st.state then record st { state = up_state found; sources = found } else st

module _ {R : Type 0} where
  unfoldable pub begin_start : Service R → Service R
  begin_start s = record s { status = record s.status { state = starting; last_error = [] } }

  unfoldable pub begin_reload : Service R → Service R
  begin_reload s = record s { status = record s.status { state = reloading } }

  unfoldable pub begin_stop : Service R → Service R
  begin_stop s = record s { status = record s.status { state = stopping } }

module _ {R : Type 0} (ops : Runtime R) where
  -- `now` is time.Now().UTC() at the end of the start.
  unfoldable pub finish_start : (now : ℕ) → Result Text → R → Status → Service R × Option GoError
  finish_start now (err e) r st = (
    record { runtime = r; status = record st { state = failed; last_error = sanitize e } },
    some e,
  )
  finish_start now (ok endpoint) r st =
      let found = ops.sources r in
      (
        record {
          runtime = r;
          status = record st {
            state = up_state found;
            endpoint = endpoint;
            started_at = some now;
            sources = found;
          };
        },
        none,
      )

  -- Start
  unfoldable pub start : (now : ℕ) → Options → Service R → Service R × Option GoError
  start now opts s =
      let (result, r) = ops.start s.runtime opts in
      if can_start s.status.state
      then finish_start now result r (begin_start s).status
      else (s, some already_active)

  -- The end of Reload; `previous` is the state before it.
  unfoldable pub finish_reload : State → Option GoError → R → Status → Service R × Option GoError
  finish_reload previous (some e) r st = (
    record { runtime = r; status = record st { state = previous; last_error = sanitize e } },
    some e,
  )
  finish_reload previous none r st =
      let found = ops.sources r in
      (
        record {
          runtime = r;
          status = record st { state = up_state found; last_error = []; sources = found };
        },
        none,
      )

  -- Reload
  unfoldable pub reload : Service R → Service R × Option GoError
  reload s =
      let previous = s.status.state in
      let (result, r) = ops.reload s.runtime in
      if is_up previous
      then finish_reload previous result r (begin_reload s).status
      else (s, some not_running)

  unfoldable pub finish_stop : Option GoError → R → Status → Service R × Option GoError
  finish_stop (some e) r st = (
    record { runtime = r; status = record st { state = failed; last_error = sanitize e } },
    some e,
  )
  finish_stop none r st = (record { runtime = r; status = stopped_status }, none)

  -- Stop
  unfoldable pub stop : Service R → Service R × Option GoError
  stop s =
      let (result, r) = ops.stop s.runtime in
      if is_stopped s.status.state then (s, none) else finish_stop result r (begin_stop s).status

  -- Status where nothing happens between its two reads.
  unfoldable pub status : Service R → Status
  status s = finish_status s.status (ops.sources s.runtime)
