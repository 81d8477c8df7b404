-- ===== src/Config/Document.antt =====
-- config.go: Document, Source, Validate, validateOptions, containsSecretField and migrate.
-- A nil list of sources is the empty list, so Clone is the identity here and is left out.
-- `decode` stands for json.Decoder.Decode into `any` and `to_lower` for strings.ToLower.
use quackridge.Prelude.{
  ℕ, Bool, true, not, ◌&&◌, ◌||◌, Option, none, some, List, [], ◌∷◌, ◌++◌, if◌then◌else◌,
}
use quackridge.Prelude.Text.{Text, lit, is_empty, replace_byte}
use quackridge.Prelude.Lists.{contains}
use quackridge.Prelude.Int.{ℤ, eq_ℤ}
use quackridge.Errors.Defs.{GoError, foreign, wrapped}
use quackridge.Json.{Value, Fields, object, field, done, every}
use quackridge.Source.Alias.{matches_alias}

-- Source; `options` is the raw JSON.
pub record Source : Type 0 where
  pub id : Text
  pub name : Text
  pub alias : Text
  pub kind : Text
  pub database_type : Text
  pub enabled : Bool
  pub credential_ref : Text
  pub options : Text

pub record Document : Type 0 where
  pub version : ℤ
  pub sources : List Source

abbrev pub current_version : ℕ
current_version = 1

-- The field names that containsSecretField looks for.
unfoldable pub secret_fields : List Text
secret_fields =
    lit "password"
    ∷ lit "passwd"
    ∷ lit "secret"
    ∷ lit "token"
    ∷ lit "connection_string"
    ∷ lit "uri"
    ∷ []

abbrev pub required : GoError
required = foreign (lit "source id, name, and type are required")

abbrev pub bad_alias : GoError
bad_alias = foreign (lit "alias must match ^[a-z][a-z0-9_]{0,62}$")

abbrev pub duplicate : Text → Text → GoError
duplicate what value = foreign (what ++ (34 ∷ value ++ (34 ∷ [])))

-- The decoded options and strings.ToLower.
pub record Decoding : Type 0 where
  pub decode : Text → Option Value
  pub to_lower : Text → Text

module _ (decoding : Decoding) where
  open decoding use {decode, to_lower}

  -- strings.ToLower(strings.ReplaceAll(key, "-", "_"))
  unfoldable pub is_secret_key : Text → Bool
  is_secret_key key = contains secret_fields (to_lower (replace_byte b'-' (b'_' ∷ []) key))

  -- No key of one object is a secret field.
  unfoldable pub keys_ok : Fields → Bool
  keys_ok done = true
  keys_ok (field k v rest) = not (is_secret_key k) && keys_ok rest

  -- containsSecretField: any object, at any depth of objects and arrays.
  unfoldable pub contains_secret_field : Value → Bool
  contains_secret_field value = not (every keys_ok value)

  unfoldable pub check_object : Value → Option GoError
  check_object (object fs) =
      if contains_secret_field (object fs)
      then some (foreign (lit "secret-bearing fields are forbidden"))
      else none
  check_object _ = some (foreign (lit "options must be an object"))

  -- validateOptions
  unfoldable pub validate_options : Text → Option GoError
  validate_options raw =
      if is_empty raw then some (foreign (lit "options are required")) else elim (decode raw) [
        | none ↦ some (foreign (lit "invalid JSON"))
        | some value ↦ check_object value
      ]

  -- The loop of Document.Validate, with its three sets.
  unfoldable pub validate_sources :
      (ids aliases credential_refs : List Text) → List Source → Option GoError
  validate_sources ids aliases refs [] = none
  validate_sources ids aliases refs (s ∷ rest) =
      let next =
        validate_sources (s.id ∷ ids) (s.alias ∷ aliases)
          (if is_empty s.credential_ref then refs else s.credential_ref ∷ refs) rest in
      if is_empty s.id || is_empty s.name || is_empty s.kind
      then some required
      else if not (matches_alias s.alias)
      then some bad_alias
      else if contains ids s.id
      then some (duplicate (lit "duplicate source id ") s.id)
      else if contains aliases s.alias
      then some (duplicate (lit "duplicate source alias ") s.alias)
      else if not (is_empty s.credential_ref) && contains refs s.credential_ref
      then some (duplicate (lit "duplicate credential reference ") s.credential_ref)
      else elim (validate_options s.options) [
        | some e ↦ some (wrapped (lit "source options") e)
        | none ↦ next
      ]

  -- Document.Validate
  unfoldable pub validate : Document → Option GoError
  validate d =
      if eq_ℤ d.version current_version
      then validate_sources [] [] [] d.sources
      else some (foreign (lit "unsupported configuration version"))
