-- ===== src/Doctor/Live.antt =====
-- doctor.go checkDaemon, addSourceDiagnosticChecks and loopbackEndpoint, and Run.
use quackridge.Prelude.{
  ℕ, zero, suc, Bool, false, not, ◌||◌, Option, none, some, List, [], ◌∷◌, ◌++◌, if◌then◌else◌,
}
use quackridge.Prelude.Text.{Text, lit, text_eq, is_empty, has_prefix}
use quackridge.Prelude.Maps.{Map}
use quackridge.Errors.Result.{Result, ok, err}
use quackridge.Json.{
  Value, null, string, array, object, Items, end, item, Fields, member, string_or_empty,
}
use quackridge.Config.Document.{Document}
use quackridge.Control.{Response}
use quackridge.Doctor.{
  Check, Report, level_ok, level_warning, level_error, one, no_failure, ConfigFiles,
  check_configuration, check_version_pair, Stores, check_credentials,
}
use quackridge.Doctor.Bundle.{BundleFiles, check_extensions}

-- control.Call by address and operation, os.Lstat, net.SplitHostPort (the host, or no address), and
-- net.ParseIP with IsLoopback.
pub record Network : Type 0 where
  pub call : (address operation : Text) → Result Response
  pub is_socket : Text → Bool
  pub split_host : Text → Option Text
  pub is_loopback_ip : Text → Bool

-- strings.TrimPrefix(endpoint, "quack:")
unfoldable pub trim_quack : Text → Text
trim_quack endpoint = if has_prefix endpoint (lit "quack:") then skip 6 endpoint else endpoint
  where
    skip : ℕ → Text → Text
    skip zero s = s
    skip (suc n) [] = []
    skip (suc n) (c ∷ s) = skip n s

-- loopbackEndpoint
unfoldable pub loopback_endpoint : Network → Text → Bool
loopback_endpoint n endpoint = elim (n.split_host (trim_quack endpoint)) [
  | none ↦ false
  | some host ↦ n.is_loopback_ip host
]

abbrev pub malformed : Map Value → List Check
malformed details =
    one (lit "source_diagnostics") level_error (lit "live source diagnostics are malformed") details

abbrev pub of_source : Text → Map Value
of_source id = (lit "source_id", string id) ∷ []

-- The loop over the warnings.
unfoldable pub warning_checks : (id : Text) → Items → List Check
warning_checks id end = []
warning_checks id (item w rest) =
    (if is_empty (string_or_empty w)
      then malformed (of_source id)
      else one (lit "source_posture") level_warning (string_or_empty w) (of_source id))
    ++ warning_checks id rest

abbrev pub warnings_of : (id : Text) → Value → List Check
warnings_of id (array ws) = warning_checks id ws
warnings_of id _ = malformed (of_source id)

-- One entry that is an object.
unfoldable pub entry_checks : Fields → List Check
entry_checks diagnostic =
    let id = string_or_empty (member (lit "id") diagnostic) in
    let health = string_or_empty (member (lit "health") diagnostic) in
    if is_empty id || is_empty health
    then malformed []
    else (if not (text_eq health (lit "ready"))
        then one (lit "source_health") level_error (lit "source connectivity check failed")
            (of_source id)
        else [])
      ++ warnings_of id (member (lit "warnings") diagnostic)

abbrev pub value_checks : Value → List Check
value_checks (object diagnostic) = entry_checks diagnostic
value_checks _ = malformed []

unfoldable pub entries_checks : Items → List Check
entries_checks end = []
entries_checks (item v rest) = value_checks v ++ entries_checks rest

-- addSourceDiagnosticChecks
abbrev pub source_diagnostic_checks : Value → List Check
source_diagnostic_checks (array entries) = entries_checks entries
source_diagnostic_checks _ = malformed []

-- The key of a map that may be nil or, in the model, no object.
abbrev pub member_of : Text → Option Value → Value
member_of key (some (object fields)) = member key fields
member_of key _ = null

abbrev pub daemon : Text
daemon = lit "daemon"

module _ (n : Network) where
  open n use {call, is_socket}

  unfoldable pub loopback_check : (endpoint : Text) → List Check
  loopback_check endpoint =
      if not (loopback_endpoint n endpoint)
      then one (lit "loopback") level_error (lit "data-plane endpoint is not loopback-only") []
      else one (lit "loopback") level_ok (lit "data-plane endpoint is loopback-only")
          ((lit "endpoint", string endpoint) ∷ [])

  abbrev pub diagnostics_details : Option Value → Map Value
  diagnostics_details none = []
  diagnostics_details (some v) = (lit "diagnostics", v) ∷ []

  unfoldable pub diagnostics_checks : Response → List Check
  diagnostics_checks r =
      if not r.is_ok
      then one daemon level_error (lit "live diagnostics are unavailable") []
      else source_diagnostic_checks (member_of (lit "source_diagnostics") r.diagnostics)
        ++ one daemon level_ok
            (lit "live daemon, source health, and locked resource limits are available")
            (diagnostics_details r.diagnostics)

  unfoldable pub running_checks : (address endpoint : Text) → List Check
  running_checks address endpoint =
      loopback_check endpoint ++ elim (call address (lit "diagnostics")) [
        | err e ↦ one daemon level_error (lit "live diagnostics are unavailable") []
        | ok r ↦ diagnostics_checks r
      ]

  unfoldable pub status_checks : (address : Text) → Response → List Check
  status_checks address r = elim r.status [
    | none ↦ one daemon level_error (lit "daemon returned an invalid status response") []
    | some status ↦
        if not r.is_ok
        then one daemon level_error (lit "daemon returned an invalid status response") []
        else running_checks address status.endpoint
  ]

  unfoldable pub unreachable_checks : (address : Text) → List Check
  unreachable_checks address =
      if is_socket address
      then one daemon level_warning (lit "a stale control socket may be present")
          ((lit "address", string address) ∷ [])
      else one daemon level_warning
          (lit "QuackRidge is not running; live source and limit checks were skipped")
          ((lit "address", string address) ∷ [])

  -- checkDaemon
  unfoldable pub check_daemon : (address : Text) → List Check
  check_daemon address =
      if is_empty address
      then one daemon level_warning (lit "control address is unavailable; live checks were skipped")
          []
      else elim (call address (lit "status")) [
        | err e ↦ unreachable_checks address
        | ok r ↦ status_checks address r
      ]

-- Options, less what stands in the parameters.
pub record DoctorOptions : Type 0 where
  pub config_path : Text
  pub control_address : Text
  pub extension_dir : Text

unfoldable pub credential_checks : ConfigFiles → Stores → Option Document → List Check
credential_checks c s none = []
credential_checks c s (some d) = check_credentials c.is_syntax_error s d.sources

-- Run
unfoldable pub run : ConfigFiles → BundleFiles → Stores → Network → DoctorOptions → Report
run c f s n o =
    let (config_checks, document) = check_configuration c o.config_path in
    let checks =
      config_checks
      ++ (check_version_pair
          ++ (check_extensions f o.extension_dir
              ++ (credential_checks c s document ++ check_daemon n o.control_address))) in
    record { is_ok = no_failure checks; checks = checks }
