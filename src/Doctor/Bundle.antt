-- ===== src/Doctor/Bundle.antt =====
-- doctor.go checkExtensions, readChecksums and checkExtensionVersions.
use quackridge.Prelude.{
  Bool, false, not, ◌||◌, Option, none, some, List, [], ◌∷◌, ◌==◌, if◌then◌else◌,
}
use quackridge.Prelude.Text.{Text, lit, text_eq, is_empty}
use quackridge.Prelude.Maps.{Map, lookup, insert}
use quackridge.Prelude.Lists.{contains, length}
use quackridge.Errors.Defs.{GoError, foreign}
use quackridge.Errors.Result.{Result, ok, err}
use quackridge.Json.{Value, string}
use quackridge.Version.{duckdb_version, extension_versions}
use quackridge.Doctor.{Check, level_ok, level_warning, level_error, one, sanitize, error_detail}

-- A text file by lines, with the scanner's error after the last; the limit of 64 KB is the file's.
pub record Lines : Type 0 where
  pub lines : List Text
  pub final : Option GoError

-- os.Open with the scanner, fileSHA256, strings.Fields, hex.DecodeString, and filepath.
pub record BundleFiles : Type 0 where
  pub read_lines : Text → Result Lines
  pub hash_of : Text → Result Text
  pub fields : Text → List Text
  pub is_hex : Text → Bool
  pub base : Text → Text
  pub join : Text → Text → Text
  pub is_syntax_error : GoError → Bool

-- checksumEntry
pub record ChecksumEntry : Type 0 where
  pub name : Text
  pub hash : Text

-- strings.TrimPrefix(fields[1], "*")
unfoldable pub trim_star : Text → Text
trim_star [] = []
trim_star (c ∷ s) = if c == b'*' then s else c ∷ s

unfoldable pub required : List Text
required =
    lit "extensions.versions"
    ∷ lit "httpfs.duckdb_extension"
    ∷ lit "mysql_scanner.duckdb_extension"
    ∷ lit "odbc_scanner.duckdb_extension"
    ∷ lit "postgres_scanner.duckdb_extension"
    ∷ lit "quack.duckdb_extension"
    ∷ lit "sqlite_scanner.duckdb_extension"
    ∷ []

-- The versions that checkExtensionVersions expects.
unfoldable pub expected_versions : Map Text
expected_versions = insert (lit "duckdb") duckdb_version extension_versions

-- A missing key reads as the empty text.
abbrev pub expected_of : Text → Text
expected_of name = elim (lookup name expected_versions) [ some v ↦ v | none ↦ [] ]

-- The loop over the required names; Go visits them in any order.
unfoldable pub first_absent : (present names : List Text) → Option Text
first_absent present [] = none
first_absent present (name ∷ rest) =
    let more = first_absent present rest in if contains present name then more else some name

module _ (f : BundleFiles) where
  -- A line of the checksum manifest.
  unfoldable pub checksum_entry : List Text → Result ChecksumEntry
  checksum_entry (hash ∷ name ∷ []) =
      if not (length hash == 64)
      then err (foreign (lit "invalid checksum entry"))
      else if not (f.is_hex hash)
      then err (foreign (lit "invalid checksum digest"))
      else if not (text_eq (f.base (trim_star name)) (trim_star name))
      then err (foreign (lit "checksum entry must use a base filename"))
      else ok (record { name = trim_star name; hash = hash })
  checksum_entry _ = err (foreign (lit "invalid checksum entry"))

  -- The loop of readChecksums.
  unfoldable pub read_entries : List Text → Option GoError → Result (List ChecksumEntry)
  read_entries [] none = ok []
  read_entries [] (some e) = err e
  read_entries (line ∷ rest) final = elim (checksum_entry (f.fields line)) [
    | err e ↦ err e
    | ok entry ↦ elim (read_entries rest final) [ err e ↦ err e | ok es ↦ ok (entry ∷ es) ]
  ]

  -- readChecksums
  unfoldable pub read_checksums : (path : Text) → Result (List ChecksumEntry)
  read_checksums path = elim (f.read_lines path) [
    | err e ↦ err e
    | ok l ↦ read_entries l.lines l.final
  ]

  -- A line of the version manifest: the extension that it names.
  unfoldable pub version_entry : (seen : List Text) → List Text → Result Text
  version_entry seen (name ∷ version ∷ []) =
      if is_empty (expected_of name)
        || (not (text_eq (expected_of name) version) || contains seen name)
      then err (foreign (lit "invalid extension version entry"))
      else ok name
  version_entry seen _ = err (foreign (lit "invalid extension version entry"))

  -- The loop of checkExtensionVersions; `seen` has no name twice.
  unfoldable pub read_versions : (seen : List Text) → List Text → Option GoError → Option GoError
  read_versions seen [] (some e) = some e
  read_versions seen [] none =
      if length seen == length expected_versions
      then none
      else some (foreign (lit "extension version manifest is incomplete"))
  read_versions seen (line ∷ rest) final = elim (version_entry seen (f.fields line)) [
    | err e ↦ some e
    | ok name ↦ read_versions (name ∷ seen) rest final
  ]

  -- checkExtensionVersions
  unfoldable pub check_extension_versions : (path : Text) → Option GoError
  check_extension_versions path = elim (f.read_lines path) [
    | err e ↦ some e
    | ok l ↦ read_versions [] l.lines l.final
  ]

  abbrev pub extensions : Text
  extensions = lit "extensions"

  abbrev pub file_detail : Text → Map Value
  file_detail name = (lit "file", string name) ∷ []

  -- The file has the hash of its entry.
  unfoldable pub is_intact : (directory : Text) → ChecksumEntry → Bool
  is_intact directory entry = elim (f.hash_of (f.join directory entry.name)) [
    | err e ↦ false
    | ok actual ↦ text_eq actual entry.hash
  ]

  -- The loop over the entries: the check that ends it, or the names that are present.
  unfoldable pub verify_entries :
      (directory : Text) → (present : List Text) → List ChecksumEntry → List Check × List Text
  verify_entries directory present [] = ([], present)
  verify_entries directory present (entry ∷ rest) =
      let more = verify_entries directory (entry.name ∷ present) rest in
      if not (contains required entry.name)
      then (
        one extensions level_error (lit "extension checksum manifest contains an unexpected path")
            (file_detail entry.name),
        present,
      )
      else if not (is_intact directory entry)
      then (
        one extensions level_error (lit "extension bundle checksum verification failed")
            (file_detail entry.name),
        present,
      )
      else more

  -- The last two checks.
  unfoldable pub check_complete : (directory : Text) → (present : List Text) → List Check
  check_complete directory present = elim (first_absent present required) [
    | some name ↦
        one extensions level_error (lit "extension checksum manifest is incomplete")
          (file_detail name)
    | none ↦ elim (check_extension_versions (f.join directory (lit "extensions.versions"))) [
      | some e ↦
          one extensions level_error (lit "extension bundle version pair is unsupported")
            (error_detail (sanitize f.is_syntax_error e))
      | none ↦
          one extensions level_ok (lit "all bundled extensions match their recorded checksums")
            ((lit "directory", string directory) ∷ [])
    ]
  ]

  unfoldable pub check_entries : (directory : Text) → List ChecksumEntry → List Check
  check_entries directory entries =
      let (failed, present) = verify_entries directory [] entries in
      if is_empty failed then check_complete directory present else failed

  -- checkExtensions
  unfoldable pub check_extensions : (directory : Text) → List Check
  check_extensions directory =
      if is_empty directory
      then one extensions level_warning
          (lit
            "extension directory was not supplied; pass --extensions to verify the installed bundle")
          []
      else elim (read_checksums (f.join directory (lit "extensions.sha256"))) [
        | err e ↦
            one extensions level_error (lit "extension checksum manifest is unavailable")
              (error_detail (sanitize f.is_syntax_error e))
        | ok entries ↦ check_entries directory entries
      ]
