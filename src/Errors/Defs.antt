-- ===== src/Errors/Defs.antt =====
-- errors.go: error codes, the public error type, IsCode and ClassifyError; and the part of Go's
-- error chains (package errors) that they inspect.
use quackridge.Prelude.{
  Bool, true, false, ◌||◌, Option, none, some, List, [], ◌∷◌, ◌++◌, if◌then◌else◌,
}
use quackridge.Prelude.Text.{Text, lit, is_empty, contains_text}

-- The eight stable codes.
pub data ErrorCode : Type 0 where
  authentication protocol_mismatch source_unavailable rejected_statement : ErrorCode
  cancelled timeout resource_exhausted internal : ErrorCode

-- The string value of a code.
unfoldable pub code_text : ErrorCode → Text
code_text authentication = lit "QR_AUTHENTICATION"
code_text protocol_mismatch = lit "QR_PROTOCOL_MISMATCH"
code_text source_unavailable = lit "QR_SOURCE_UNAVAILABLE"
code_text rejected_statement = lit "QR_REJECTED_STATEMENT"
code_text cancelled = lit "QR_CANCELLED"
code_text timeout = lit "QR_TIMEOUT"
code_text resource_exhausted = lit "QR_RESOURCE_EXHAUSTED"
code_text internal = lit "QR_INTERNAL"

unfoldable pub code_eq : ErrorCode → ErrorCode → Bool
code_eq authentication authentication = true
code_eq protocol_mismatch protocol_mismatch = true
code_eq source_unavailable source_unavailable = true
code_eq rejected_statement rejected_statement = true
code_eq cancelled cancelled = true
code_eq timeout timeout = true
code_eq resource_exhausted resource_exhausted = true
code_eq internal internal = true
code_eq _ _ = false

-- A non-nil error value. `public` and `public_because` are *Error without and with a Cause,
-- `wrapped` is fmt.Errorf("prefix: %w", err), `joined` is errors.Join of two errors, the next two
-- are the context sentinels, and `foreign` is any other error, known by its message.
pub data GoError : Type 0 where
  public : ErrorCode → Text → GoError
  public_because : ErrorCode → Text → GoError → GoError
  wrapped : Text → GoError → GoError
  joined : GoError → GoError → GoError
  deadline_exceeded context_canceled : GoError
  foreign : Text → GoError

-- Error.Error
unfoldable pub public_text : ErrorCode → Text → Text
public_text code message =
    if is_empty message then code_text code else code_text code ++ lit ": " ++ message

-- err.Error() for every kind of error.
unfoldable pub error_text : GoError → Text
error_text (public code message) = public_text code message
error_text (public_because code message cause) = public_text code message
error_text (wrapped prefix inner) = prefix ++ lit ": " ++ error_text inner
error_text (joined a b) = error_text a ++ (10 ∷ error_text b)
error_text deadline_exceeded = lit "context deadline exceeded"
error_text context_canceled = lit "context canceled"
error_text (foreign message) = message

-- The code and message of an *Error.
pub record PublicPart : Type 0 where
  pub code : ErrorCode
  pub message : Text

abbrev pub first_of_two {ℓ} : {A : Type ℓ} → Option A → Option A → Option A
first_of_two (some a) _ = some a
first_of_two none b = b

-- errors.As(err, &target) for target *Error: the first *Error of the chain, depth first.
unfoldable pub as_public : GoError → Option GoError
as_public (public code message) = some (public code message)
as_public (public_because code message cause) = some (public_because code message cause)
as_public (wrapped _ inner) = as_public inner
as_public (joined a b) = first_of_two (as_public a) (as_public b)
as_public _ = none

unfoldable pub public_part : GoError → Option PublicPart
public_part (public code message) = some (record { code = code; message = message })
public_part (public_because code message _) = some (record { code = code; message = message })
public_part (wrapped _ inner) = public_part inner
public_part (joined a b) = first_of_two (public_part a) (public_part b)
public_part _ = none

-- errors.Is(err, context.DeadlineExceeded); an *Error unwraps to its Cause.
unfoldable pub is_deadline : GoError → Bool
is_deadline (public_because _ _ cause) = is_deadline cause
is_deadline (wrapped _ inner) = is_deadline inner
is_deadline (joined a b) = is_deadline a || is_deadline b
is_deadline deadline_exceeded = true
is_deadline _ = false

-- errors.Is(err, context.Canceled)
unfoldable pub is_canceled : GoError → Bool
is_canceled (public_because _ _ cause) = is_canceled cause
is_canceled (wrapped _ inner) = is_canceled inner
is_canceled (joined a b) = is_canceled a || is_canceled b
is_canceled context_canceled = true
is_canceled _ = false

-- IsCode
unfoldable pub is_code : GoError → ErrorCode → Bool
is_code err wanted = elim (public_part err) [ none ↦ false | some p ↦ code_eq p.code wanted ]

unfoldable pub any_of : Text → List Text → Bool
any_of s [] = false
any_of s (p ∷ ps) = contains_text s p || any_of s ps

-- The four cases of the switch, with the message of each.
unfoldable pub resource_phrases : List Text
resource_phrases =
    lit "out of memory"
    ∷ lit "memory limit"
    ∷ lit "temp directory"
    ∷ lit "temporary directory"
    ∷ lit "resource exhausted"
    ∷ []

unfoldable pub policy_phrases : List Text
policy_phrases = lit "unauthorized" ∷ lit "authorization" ∷ lit "not authorized" ∷ []

unfoldable pub source_phrases : List Text
source_phrases =
    lit "connection refused"
    ∷ lit "failed to connect"
    ∷ lit "connection closed"
    ∷ lit "server closed the connection"
    ∷ []

unfoldable pub auth_phrases : List Text
auth_phrases = lit "authentication" ∷ lit "invalid token" ∷ []

-- The switch over the lower-cased message.
unfoldable pub classify_text : Text → PublicPart
classify_text lower =
    if any_of lower resource_phrases
    then record { code = resource_exhausted; message = lit "query resource limit exceeded" }
    else if any_of lower policy_phrases
    then record { code = rejected_statement; message = lit "statement rejected by policy" }
    else if any_of lower source_phrases
    then record { code = source_unavailable; message = lit "source is unavailable" }
    else if any_of lower auth_phrases
    then record { code = authentication; message = lit "authentication failed" }
    else record { code = internal; message = lit "query failed" }

-- The error that a category and a cause make.
unfoldable pub with_cause : PublicPart → GoError → GoError
with_cause p cause = public_because p.code p.message cause

-- ClassifyError; `to_lower` is strings.ToLower.
unfoldable pub classify : (to_lower : Text → Text) → GoError → GoError
classify to_lower err = elim (as_public err) [
  | some found ↦ found
  | none ↦
      if is_deadline err
      then public_because timeout (lit "query timed out") err
      else if is_canceled err
      then public_because cancelled (lit "query cancelled") err
      else with_cause (classify_text (to_lower (error_text err))) err
]

-- ClassifyError on a possibly nil error.
unfoldable pub classify_error : (to_lower : Text → Text) → Option GoError → Option GoError
classify_error to_lower none = none
classify_error to_lower (some err) = some (classify to_lower err)
