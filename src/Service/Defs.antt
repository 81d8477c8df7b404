-- ===== src/Service/Defs.antt =====
-- service.go: the lifecycle facade over an engine runtime. The runtime is an interface of the
-- source and a parameter here; a method returns the new service and its error (nil is `none`).
use quackridge.Prelude.{ℕ, Bool, true, false, Option, none, some, List, [], ◌∷◌, if◌then◌else◌}
use quackridge.Prelude.Text.{Text, lit, text_eq}
use quackridge.Prelude.Int.{ℤ}
use quackridge.Errors.Defs.{GoError, public, internal, public_part, public_text}
use quackridge.Errors.Result.{Result}
use quackridge.Version.{capabilities}

pub data State : Type 0 where
  stopped starting ready degraded reloading stopping failed : State

pub record SourceStatus : Type 0 where
  pub id : Text
  pub name : Text
  pub kind : Text
  pub health : Text
  pub error_code : Text

-- `started_at` is `none` for the zero time.
pub record Status : Type 0 where
  pub state : State
  pub endpoint : Text
  pub started_at : Option ℕ
  pub sources : List SourceStatus
  pub last_error : Text
  pub capability_set : List Text

-- Of the logger only whether it is set matters.
pub record Options : Type 0 where
  pub extension_dir : Text
  pub allowed_paths : List Text
  pub listen_host : Text
  pub listen_port : ℤ
  pub token : Text
  pub memory_limit : Text
  pub temp_limit : Text
  pub threads : ℤ
  pub query_timeout : ℤ
  pub has_logger : Bool

-- The Runtime interface over the runtime's own state R.
pub record Runtime (R : Type 0) : Type 0 where
  pub start : R → Options → Result Text × R
  pub reload : R → Option GoError × R
  pub stop : R → Option GoError × R
  pub sources : R → List SourceStatus

pub record Service (R : Type 0) : Type 0 where
  pub runtime : R
  pub status : Status

-- Status{State: StateStopped, Capabilities: Capabilities()}
unfoldable pub stopped_status : Status
stopped_status = record {
  state = stopped;
  endpoint = [];
  started_at = none;
  sources = [];
  last_error = [];
  capability_set = capabilities;
}

-- New
unfoldable pub new : {R : Type 0} → R → Service R
new r = record { runtime = r; status = stopped_status }

-- hasUnavailableSource
unfoldable pub has_unavailable_source : List SourceStatus → Bool
has_unavailable_source [] = false
has_unavailable_source (s ∷ rest) =
    if text_eq s.health (lit "ready") then has_unavailable_source rest else true

-- sanitize
unfoldable pub sanitize : GoError → Text
sanitize e = elim (public_part e) [
  | some p ↦ public_text p.code p.message
  | none ↦ public_text internal (lit "internal failure")
]

abbrev pub already_active : GoError
already_active = public internal (lit "service is already active")

abbrev pub not_running : GoError
not_running = public internal (lit "service is not running")

-- s.status.State != StateStopped && s.status.State != StateFailed, negated
abbrev pub can_start : State → Bool
can_start stopped = true
can_start failed = true
can_start _ = false

-- previous == StateReady || previous == StateDegraded
abbrev pub is_up : State → Bool
is_up ready = true
is_up degraded = true
is_up _ = false

abbrev pub is_stopped : State → Bool
is_stopped stopped = true
is_stopped _ = false

-- The state that the sources decide.
abbrev pub up_state : List SourceStatus → State
up_state sources = if has_unavailable_source sources then degraded else ready
