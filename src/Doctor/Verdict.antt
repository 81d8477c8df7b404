-- ===== src/Doctor/Verdict.antt =====
-- Run: what holds of the installation where the report is OK.
use quackridge.Prelude.{
  ◌≡◌, refl, ◌⊎◌, inl, inr, true, false, some, [], arith, Bool-cases, Option-cases,
}
use quackridge.Prelude.Text.{Text, lit, text_eq_iff, is_empty}
use quackridge.Errors.Defs.{GoError}
use quackridge.Errors.Result.{Result, ok, err, Result-cases}
use quackridge.Json.{
  Value, null, boolean, number, string, object, array, Items, end, item, member, string_or_empty,
}
use quackridge.Config.Document.{Document}
use quackridge.Control.{Response}
use quackridge.Service.Defs.{Status}
use quackridge.Doctor.{no_failure, one, level_error, level_ok}
use quackridge.Doctor.Live.{
  of_source, Network, loopback_endpoint, warnings_of, entry_checks, value_checks, entries_checks,
  source_diagnostic_checks, member_of, loopback_check, diagnostics_checks, running_checks,
  status_checks, check_daemon, diagnostics_details,
}
use quackridge.Doctor.Verified.{no_failure-append, no_failure-parts}

-- The diagnostics of a source that is there and ready.
unfoldable pub Ready : Value → Type 0
Ready (object d) =
    (is_empty (string_or_empty (member (lit "id") d)) ≡ false)
    × (string_or_empty (member (lit "health") d) ≡ lit "ready")
Ready null = false ≡ true
Ready (boolean b) = false ≡ true
Ready (number t) = false ≡ true
Ready (string t) = false ≡ true
Ready (array items) = false ≡ true

unfoldable pub AllReady : Items → Type 0
AllReady end = Unit
AllReady (item v rest) = Ready v × AllReady rest

abbrev pub SourcesReady : Value → Type 0
SourcesReady v = (entries : Items) × (v ≡ array entries) × AllReady entries

value_checks-Ready : (v : Value) → no_failure (value_checks v) ≡ true → Ready v
unfolding Ready no_failure entry_checks
value_checks-Ready null h = ground arith
value_checks-Ready (boolean b) h = ground arith
value_checks-Ready (number t) h = ground arith
value_checks-Ready (string t) h = ground arith
value_checks-Ready (array items) h = ground arith
value_checks-Ready (object d) h =
    let id = string_or_empty (member (lit "id") d) in
    let health = string_or_empty (member (lit "health") d) in
    let w = warnings_of id (member (lit "warnings") d) in
    let unhealthy =
      one (lit "source_health") level_error (lit "source connectivity check failed")
        (of_source id) in
    let same = text_eq_iff health (lit "ready") in
    let split = no_failure-append unhealthy w in ground arith

entries-AllReady : (entries : Items) → no_failure (entries_checks entries) ≡ true → AllReady entries
unfolding AllReady entries_checks
entries-AllReady end h = tt
entries-AllReady (item v rest) h =
    let a = no_failure-append (value_checks v) (entries_checks rest) in
    (value_checks-Ready v (ground arith), entries-AllReady rest (ground arith))

source-SourcesReady : (v : Value) → no_failure (source_diagnostic_checks v) ≡ true → SourcesReady v
unfolding no_failure
source-SourcesReady (array entries) h = (entries, refl, entries-AllReady entries h)
source-SourcesReady null h = ground arith
source-SourcesReady (boolean b) h = ground arith
source-SourcesReady (number t) h = ground arith
source-SourcesReady (string t) h = ground arith
source-SourcesReady (object d) h = ground arith

-- A daemon that answers serves on loopback and gives diagnostics in which all sources are ready.
abbrev pub IsServing : Network → (address : Text) → Response → Type 0
IsServing n address r =
    (status : Status) × (reply : Response) × (r.status ≡ some status)
    × (r.is_ok ≡ true)
    × (loopback_endpoint n status.endpoint ≡ true)
    × (n.call address (lit "diagnostics") ≡ ok reply)
    × (reply.is_ok ≡ true)
    × SourcesReady (member_of (lit "source_diagnostics") reply.diagnostics)

abbrev pub DaemonFine : Network → (address : Text) → Type 0
DaemonFine n address =
    (is_empty address ≡ true)
    ⊎ (((e : GoError) × (n.call address (lit "status") ≡ err e))
        ⊎ ((r : Response) × (n.call address (lit "status") ≡ ok r) × IsServing n address r))

diagnostics-parts :
    (n : Network) (r : Response)
    → no_failure (diagnostics_checks n r) ≡ true
    → (r.is_ok ≡ true) × SourcesReady (member_of (lit "source_diagnostics") r.diagnostics)
unfolding diagnostics_checks no_failure
diagnostics-parts n r h = elim (Bool-cases r.is_ok) [
  | inr e ↦ ground arith
  | inl e ↦
      let v = member_of (lit "source_diagnostics") r.diagnostics in
      let live =
        one (lit "daemon") level_ok
          (lit "live daemon, source health, and locked resource limits are available")
          (diagnostics_details n r.diagnostics) in
      (
        e,
        source-SourcesReady v (no_failure-parts (source_diagnostic_checks v) live (ground arith)).0,
      )
]

loopback-part :
    (n : Network) (endpoint : Text)
    → no_failure (loopback_check n endpoint) ≡ true
    → loopback_endpoint n endpoint ≡ true
unfolding loopback_check no_failure
loopback-part n endpoint h = ground arith

reply-parts :
    (n : Network) (x : Result Response)
    → no_failure (elim x [
      | err e ↦ one (lit "daemon") level_error (lit "live diagnostics are unavailable") []
      | ok r ↦ diagnostics_checks n r
    ])
      ≡ true
    → (reply : Response) × (x ≡ ok reply)
      × (reply.is_ok ≡ true)
      × SourcesReady (member_of (lit "source_diagnostics") reply.diagnostics)
unfolding no_failure
reply-parts n (err e) h = ground arith
reply-parts n (ok r) h = let (a, b) = diagnostics-parts n r h in (r, refl, a, b)

running-parts :
    (n : Network) (address endpoint : Text)
    → no_failure (running_checks n address endpoint) ≡ true
    → (loopback_endpoint n endpoint ≡ true)
      × (reply : Response) × (n.call address (lit "diagnostics") ≡ ok reply)
      × (reply.is_ok ≡ true)
      × SourcesReady (member_of (lit "source_diagnostics") reply.diagnostics)
unfolding running_checks
running-parts n address endpoint h =
    let (a, b) = no_failure-parts (loopback_check n endpoint) _ h in
    let (reply, e, k, ready) = reply-parts n (n.call address (lit "diagnostics")) b in
    (loopback-part n endpoint a, reply, e, k, ready)

status-IsServing :
    (n : Network) (address : Text) (r : Response)
    → no_failure (status_checks n address r) ≡ true
    → IsServing n address r
unfolding status_checks no_failure
status-IsServing n address r h = elim (Option-cases r.status) [
  | inl e ↦ ground arith
  | inr (status, e) ↦ elim (Bool-cases r.is_ok) [
    | inr k ↦ ground arith
    | inl k ↦
        let (a, reply, b, l, ready) = running-parts n address status.endpoint (ground arith) in
        (status, reply, e, k, a, b, l, ready)
  ]
]

pub check_daemon-DaemonFine :
    (n : Network) (address : Text)
    → no_failure (check_daemon n address) ≡ true
    → DaemonFine n address
unfolding check_daemon
check_daemon-DaemonFine n address h = elim (Bool-cases (is_empty address)) [
  | inl e ↦ inl e
  | inr e ↦ elim (Result-cases (n.call address (lit "status"))) [
    | inr (x, k) ↦ inr (inl (x, k))
    | inl (r, k) ↦ inr (inr (r, k, status-IsServing n address r (ground arith)))
  ]
]
