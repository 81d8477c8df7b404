-- ===== src/Control.antt =====
-- internal/control/control.go: the requests of the local management socket. The listener and the
-- JSON framing are left out; a nil pointer that the code would dereference is `none`.
pub mod Answers
use quackridge.Prelude.{
  ℕ, suc, ◌-◌, ◌*◌, ◌%◌, ap, Bool, true, false, not, Option, none, some, List, [], ltb,
  if◌then◌else◌,
}
use quackridge.Prelude.Text.{Text, lit, text_eq}
use quackridge.Prelude.Int.{ℤ, pos, negsuc, eq_ℤ}
use quackridge.Errors.Defs.{GoError, ErrorCode, internal, protocol_mismatch, public_part, classify}
use quackridge.Errors.Result.{Result, ok, err}
use quackridge.Version.{product, protocol_version, capabilities}
use quackridge.Service.Defs.{Status}
use quackridge.Config.Document.{Document}
use quackridge.Json.{Value}

abbrev pub control_version : ℕ
control_version = 1

-- Request
pub record Request : Type 0 where
  pub version : ℤ
  pub operation : Text
  pub origins : List Text
  pub ttl_seconds : ℤ

-- PairingChallenge; the time in nanoseconds.
pub record PairingChallenge : Type 0 where
  pub url : Text
  pub nonce : Text
  pub expires_at : ℕ

-- The map of the "version" operation.
pub record VersionInfo : Type 0 where
  pub product_name : Text
  pub product_version : Text
  pub protocol : ℕ
  pub capability_set : List Text

-- Response; a field that is left out is `none`.
pub record Response : Type 0 where
  pub version : ℕ
  pub is_ok : Bool
  pub status : Option Status
  pub error_code : Option ErrorCode
  pub message : Text
  pub pairing : Option PairingChallenge
  pub configuration : Option Document
  pub diagnostics : Option Value
  pub version_info : Option VersionInfo

-- PairingBackend and ManagementBackend, over the backend's state.
pub record PairingBackend (B : Type 0) : Type 0 where
  pub pair : List Text → (ttl : ℤ) → B → Result PairingChallenge × B
  pub rotate_token : B → Option GoError × B

pub record ManagementBackend (B : Type 0) : Type 0 where
  pub configuration : B → Result Document × B
  pub diagnostics : B → Result Value × B

-- Backend, with the result of the two type assertions.
pub record Backend (B : Type 0) : Type 0 where
  pub status : B → Status
  pub reload : B → Option GoError × B
  pub pairing : Option (PairingBackend B)
  pub management : Option (ManagementBackend B)

unfoldable pub failure : ErrorCode → Text → Response
failure code message = record {
  version = control_version;
  is_ok = false;
  status = none;
  error_code = some code;
  message = message;
  pairing = none;
  configuration = none;
  diagnostics = none;
  version_info = none;
}

-- Response{Version: Version, OK: true}
abbrev pub success : Response
success = record {
  version = control_version;
  is_ok = true;
  status = none;
  error_code = none;
  message = [];
  pairing = none;
  configuration = none;
  diagnostics = none;
  version_info = none;
}

-- An int64 from its value modulo 2^64.
unfoldable pub signed : ℕ → ℤ
signed m =
    let r = m % 18446744073709551616 in
    if ltb r 9223372036854775808 then pos r else negsuc (18446744073709551615 - r)

-- time.Duration(seconds) * time.Second, which wraps.
unfoldable pub seconds : ℤ → ℤ
seconds (pos n) = signed (n * 1000000000)
seconds (negsuc n) = signed (18446744073709551616 - suc n * 1000000000 % 18446744073709551616)

module _ {B : Type 0} (backend : Backend B) (to_lower : Text → Text) (product_version : Text) where
  unfoldable pub status_response : B → Response
  status_response b = record success { status = some (backend.status b) }

  -- The failure that a classified error is reported as.
  unfoldable pub public_failure : GoError → Option Response
  public_failure e = elim (public_part (classify to_lower e)) [
    | none ↦ none
    | some p ↦ some (failure p.code p.message)
  ]

  unfoldable pub reload_response : B → Option Response × B
  reload_response b =
      let (error, b') = backend.reload b in
      elim error [ some e ↦ (public_failure e, b') | none ↦ (some (status_response b'), b') ]

  unfoldable pub pair_response : Request → B → Response × B
  pair_response request b = elim backend.pairing [
    | none ↦ (failure internal (lit "pairing is unavailable"), b)
    | some p ↦
        let (result, b') = p.pair request.origins (seconds request.ttl_seconds) b in
        (
          elim result [
            | err e ↦ failure internal (lit "pairing failed")
            | ok challenge ↦ record success { pairing = some challenge }
          ],
          b',
        )
  ]

  unfoldable pub rotate_response : B → Response × B
  rotate_response b = elim backend.pairing [
    | none ↦ (failure internal (lit "token rotation is unavailable"), b)
    | some p ↦
        let (error, b') = p.rotate_token b in
        (
          elim error [
            | some e ↦ failure internal (lit "token rotation failed")
            | none ↦ status_response b'
          ],
          b',
        )
  ]

  unfoldable pub configuration_response : B → Response × B
  configuration_response b = elim backend.management [
    | none ↦ (failure internal (lit "configuration is unavailable"), b)
    | some m ↦
        let (result, b') = m.configuration b in
        (
          elim result [
            | err e ↦ failure internal (lit "configuration is unavailable")
            | ok document ↦ record success { configuration = some document }
          ],
          b',
        )
  ]

  unfoldable pub diagnostics_response : B → Response × B
  diagnostics_response b = elim backend.management [
    | none ↦ (failure internal (lit "diagnostics are unavailable"), b)
    | some m ↦
        let (result, b') = m.diagnostics b in
        (
          elim result [
            | err e ↦ failure internal (lit "diagnostics are unavailable")
            | ok value ↦ record success { diagnostics = some value }
          ],
          b',
        )
  ]

  unfoldable pub version_response : Response
  version_response = record success {
    version_info = some (record {
      product_name = product;
      product_version = product_version;
      protocol = protocol_version;
      capability_set = capabilities;
    });
  }

  abbrev pub answer : Response × B → Option Response × B
  answer (response, b) = (some response, b)

  -- dispatch
  unfoldable pub dispatch : Request → B → Option Response × B
  dispatch request b =
      if not (eq_ℤ request.version control_version)
      then (some (failure protocol_mismatch (lit "unsupported control protocol")), b)
      else if text_eq request.operation (lit "status")
      then (some (status_response b), b)
      else if text_eq request.operation (lit "reload")
      then reload_response b
      else if text_eq request.operation (lit "pair")
      then answer (pair_response request b)
      else if text_eq request.operation (lit "rotate_token")
      then answer (rotate_response b)
      else if text_eq request.operation (lit "configuration")
      then answer (configuration_response b)
      else if text_eq request.operation (lit "diagnostics")
      then answer (diagnostics_response b)
      else if text_eq request.operation (lit "version")
      then (some version_response, b)
      else (some (failure protocol_mismatch (lit "unknown control operation")), b)

  -- handle, from what the decoder makes of the connection.
  unfoldable pub handle : Option Request → B → Option Response × B
  handle none b = (some (failure protocol_mismatch (lit "malformed control request")), b)
  handle (some request) b = dispatch request b
