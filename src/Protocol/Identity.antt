-- ===== src/Protocol/Identity.antt =====
-- identity.go: CurrentIdentity and ValidateIdentity.
pub mod Compatible
use quackridge.Prelude.{
  ℕ, ◌-◌, Bool, true, false, not, ◌&&◌, ◌||◌, Option, none, some, List, [], ◌∷◌, leb, ◌==◌,
  if◌then◌else◌,
}
use quackridge.Prelude.Text.{Text, lit, text_eq, is_empty}
use quackridge.Prelude.Lists.{length, all, contains}
use quackridge.Errors.Defs.{GoError, public, protocol_mismatch}
use quackridge.Prelude.Int.{ℤ, pos, eq_ℤ}
use quackridge.Source.Alias.{is_digit, is_lower}
use quackridge.Version.{product, protocol_version, metadata_version, capabilities}

pub record Identity : Type 0 where
  pub product_name : Text
  pub product_version : Text
  pub protocol : ℤ
  pub metadata : ℤ
  pub connector_types : List Text
  pub read_only : Bool
  pub capability_set : List Text

unfoldable pub connectors : List Text
connectors = lit "duckdb" ∷ lit "mysql" ∷ lit "odbc" ∷ lit "postgres" ∷ lit "sqlite" ∷ []

-- CurrentIdentity; `version` is the linked-in product version.
unfoldable pub current_identity : (version : Text) → Identity
current_identity version = record {
  product_name = product;
  product_version = version;
  protocol = pos protocol_version;
  metadata = pos metadata_version;
  connector_types = connectors;
  read_only = true;
  capability_set = capabilities;
}

-- [0-9A-Za-z.-]
abbrev pub is_suffix_char : ℕ → Bool
is_suffix_char c = is_digit c || is_lower c || leb b'A' c && leb c b'Z' || c == b'.' || c == b'-'

-- (?:[-+][0-9A-Za-z.-]+)?$
unfoldable pub version_suffix : Text → Bool
version_suffix [] = true
version_suffix (c ∷ s) = (c == b'-' || c == b'+') && not (is_empty s) && all is_suffix_char s

-- [0-9]+ and what follows: `more` dots with digits behind them, then the suffix.
unfoldable pub version_digits : (more : ℕ) → (seen : Bool) → Text → Bool
version_digits more seen [] = seen && more == 0
version_digits more seen (c ∷ s) =
    if is_digit c
    then version_digits more true s
    else if c == b'.' && not (more == 0)
    then seen && version_digits (more - 1) false s
    else seen && more == 0 && version_suffix (c ∷ s)

-- productVersionPattern and releaseVersionPattern, which are the same:
-- ^[0-9]+\.[0-9]+\.[0-9]+(?:[-+][0-9A-Za-z.-]+)?$
unfoldable pub matches_version : Text → Bool
matches_version s = version_digits 2 false s

-- slices.Equal
unfoldable pub texts_eq : List Text → List Text → Bool
texts_eq [] [] = true
texts_eq (a ∷ s) (b ∷ t) = text_eq a b && texts_eq s t
texts_eq _ _ = false

abbrev pub mismatch : Text → GoError
mismatch message = public protocol_mismatch message

-- The loop over the required capabilities.
unfoldable pub has_all : List Text → List Text → Bool
has_all given [] = true
has_all given (r ∷ rest) = contains given r && has_all given rest

-- ValidateIdentity
unfoldable pub validate_identity : Identity → Option GoError
validate_identity i =
    if not (text_eq i.product_name product)
    then some (mismatch (lit "server is not QuackRidge"))
    else if not (matches_version i.product_version)
    then some (mismatch (lit "product version is invalid"))
    else if not (eq_ℤ i.protocol protocol_version)
    then some (mismatch (lit "protocol version is unsupported"))
    else if not (eq_ℤ i.metadata metadata_version)
    then some (mismatch (lit "metadata version is unsupported"))
    else if not i.read_only
    then some (mismatch (lit "read-only identity is required"))
    else if not (texts_eq i.connector_types connectors)
    then some (mismatch (lit "connector capability set is unsupported"))
    else if not (length i.capability_set == length capabilities)
    then some (mismatch (lit "capability set is unsupported"))
    else if not (has_all i.capability_set capabilities)
    then some (mismatch (lit "required capability is missing"))
    else none

-- DecodeIdentity over the JSON decoder's answers: the decoded value, and whether nothing but the
-- end of the input follows it.
unfoldable pub decode_identity :
    Option Identity → (at_end : Bool) → Option Identity × Option GoError
decode_identity none at_end = (none, some (mismatch (lit "identity is malformed")))
decode_identity (some i) at_end =
    if not at_end
    then (none, some (mismatch (lit "identity is malformed")))
    else elim (validate_identity i) [ some e ↦ (none, some e) | none ↦ (some i, none) ]
