-- ===== src/Doctor.antt =====
-- internal/doctor/doctor.go: the checks of an installation. A check only appends to the report, so
-- each is the list of what it appends. The file system, the daemon and the stores are parameters.
pub mod Bundle
pub mod Live
pub mod Verified
pub mod Verdict
use quackridge.Prelude.{
  ℕ, ◌-◌, ◌%◌, ap, Bool, true, false, not, ◌&&◌, ◌||◌, Option, none, some, List, [], ◌∷◌, ◌==◌,
  if◌then◌else◌,
}
use quackridge.Prelude.Text.{Text, lit, text_eq, is_empty}
use quackridge.Prelude.Maps.{Map}
use quackridge.Prelude.Lists.{length}
use quackridge.Prelude.Int.{itoa}
use quackridge.Prelude.Decimal.{decimal}
use quackridge.Errors.Defs.{GoError, error_text, foreign}
use quackridge.Errors.Result.{Result, ok, err}
use quackridge.Json.{Value, string, number, array, Items, end, item, object, Fields, done, field}
use quackridge.Config.Document.{Source, Document}
use quackridge.Version.{dev_version, protocol_version, duckdb_version, extension_versions}

-- Level
pub data Level : Type 0 where
  level_ok level_warning level_error : Level

-- Check; nil details are the empty map.
pub record Check : Type 0 where
  pub name : Text
  pub level : Level
  pub message : Text
  pub details : Map Value

-- Report
pub record Report : Type 0 where
  pub is_ok : Bool
  pub checks : List Check

-- add
abbrev pub one : (name : Text) → Level → (message : Text) → (details : Map Value) → List Check
one name level message details =
    record { name = name; level = level; message = message; details = details } ∷ []

abbrev pub is_failure : Check → Bool
is_failure c = elim c.level [ level_error ↦ true | level_ok ↦ false | level_warning ↦ false ]

-- The loop at the end of Run.
unfoldable pub no_failure : List Check → Bool
no_failure [] = true
no_failure (c ∷ rest) = not (is_failure c) && no_failure rest

-- What os.Stat says of the configuration: no file, another error, or its permission bits.
pub data Inspected : Type 0 where
  missing : Inspected
  unreadable : GoError → Inspected
  permissions : ℕ → Inspected

-- sanitize; `is_syntax_error` is errors.As with a *json.SyntaxError.
unfoldable pub sanitize : (is_syntax_error : GoError → Bool) → GoError → Text
sanitize is_syntax_error e = if is_syntax_error e then lit "invalid JSON" else error_text e

abbrev pub error_detail : Text → Map Value
error_detail t = (lit "error", string t) ∷ []

-- checkConfiguration; the flag says whether the credentials are checked, of the document returned.
-- `octal` is the format %04o.
pub record ConfigFiles : Type 0 where
  pub load : Result Document
  pub inspected : Inspected
  pub is_windows : Bool
  pub octal : ℕ → Text
  pub is_syntax_error : GoError → Bool

abbrev pub configuration : Text
configuration = lit "configuration"

abbrev pub config_details : Document → (path : Text) → Map Value
config_details d path =
    (lit "version", number (itoa d.version))
    ∷ (lit "sources", number (decimal (length d.sources)))
    ∷ (lit "path", string path)
    ∷ []

unfoldable pub check_permissions :
    ConfigFiles → Document → (path : Text) → Inspected → List Check × Option Document
check_permissions f d path missing = (
  one configuration level_ok (lit "configuration is valid (no file has been created yet)")
      (config_details d path),
  some d,
)
check_permissions f d path (unreadable e) = (
  one configuration level_error (lit "configuration permissions could not be inspected")
      (error_detail (sanitize f.is_syntax_error e)),
  none,
)
check_permissions f d path (permissions mode) =
    if not f.is_windows && not (mode % 64 == 0)
    then (
      one configuration level_error
          (lit "configuration must not be accessible by group or other users")
          ((lit "permissions", string (f.octal mode)) ∷ config_details d path),
      none,
    )
    else (
      one configuration level_ok (lit "configuration is valid and access-restricted")
          (config_details d path),
      some d,
    )

unfoldable pub check_configuration : ConfigFiles → (path : Text) → List Check × Option Document
check_configuration f path = elim f.load [
  | err e ↦ (
    one configuration level_error (lit "configuration could not be loaded")
        (error_detail (sanitize f.is_syntax_error e)),
    none,
  )
  | ok d ↦ check_permissions f d path f.inspected
]

abbrev pub text_fields : Map Text → Fields
text_fields [] = done
text_fields ((key, value) ∷ rest) = field key (string value) (text_fields rest)

-- checkVersion
unfoldable pub check_version_pair : List Check
check_version_pair =
    one (lit "version_pair") level_ok (lit "compiled protocol and DuckDB version pair is supported")
      ((lit "product_version", string dev_version)
        ∷ (lit "protocol_version", number (decimal protocol_version))
        ∷ (lit "duckdb_version", string duckdb_version)
        ∷ (lit "extensions", object (text_fields extension_versions))
        ∷ [])

-- The stores of checkCredentials, by their Get: the one of the options, the system's, and the
-- environment's.
abbrev pub Store : Type 0
Store = Text → Result Text

pub record Stores : Type 0 where
  pub given : Option Store
  pub provider : Text
  pub system : Result Store
  pub environment : Store

abbrev pub needs_credential : Source → Bool
needs_credential s = s.enabled && not (is_empty s.credential_ref)

unfoldable pub any_credential : List Source → Bool
any_credential [] = false
any_credential (s ∷ rest) = needs_credential s || any_credential rest

abbrev pub provider_of : Stores → Text
provider_of s = if is_empty s.provider then lit "system" else s.provider

unfoldable pub choose_store : Stores → Result Store
choose_store s = elim s.given [
  | some store ↦ ok store
  | none ↦
      if text_eq (provider_of s) (lit "system")
      then s.system
      else if text_eq (provider_of s) (lit "environment")
      then ok s.environment
      else err (foreign (lit "credential provider must be system or environment"))
]

abbrev pub lacks_credential : Store → Source → Bool
lacks_credential store s = elim (store s.credential_ref) [ err e ↦ true | ok c ↦ is_empty c ]

-- The loop over the sources.
unfoldable pub missing_credentials : Store → List Source → List Text
missing_credentials store [] = []
missing_credentials store (s ∷ rest) =
    let more = missing_credentials store rest in
    if needs_credential s && lacks_credential store s then s.id ∷ more else more

abbrev pub strings : List Text → Items
strings [] = end
strings (t ∷ rest) = item (string t) (strings rest)

abbrev pub credential_store : Text
credential_store = lit "credential_store"

abbrev pub provider_detail : Stores → Text × Value
provider_detail s = (lit "provider", string (provider_of s))

unfoldable pub report_missing : Stores → List Text → List Check
report_missing s [] =
    one credential_store level_ok (lit "credential store is accessible for every enabled source")
      (provider_detail s ∷ [])
report_missing s (id ∷ ids) =
    one credential_store level_error (lit "credentials are unavailable for enabled sources")
      (provider_detail s ∷ (lit "source_ids", array (strings (id ∷ ids))) ∷ [])

-- checkCredentials
unfoldable pub check_credentials :
    (is_syntax_error : GoError → Bool) → Stores → List Source → List Check
check_credentials is_syntax_error s sources =
    if not (any_credential sources)
    then one credential_store level_ok (lit "no enabled source requires stored credentials") []
    else elim (choose_store s) [
      | err e ↦
          one credential_store level_error (lit "credential store is unavailable")
            (provider_detail s ∷ error_detail (sanitize is_syntax_error e))
      | ok store ↦ report_missing s (missing_credentials store sources)
    ]
