-- ===== src/Packaging.antt =====
-- cmd/releasemanifest/main.go: the index of a release's assets, built and verified.
pub mod Agreement
use quackridge.Prelude.{
  ◌+◌, ◌/◌, min, Bool, false, not, Option, none, some, List, [], ◌∷◌, ◌++◌, if◌then◌else◌,
}
use quackridge.Prelude.Text.{Text, lit, text_eq, is_empty}
use quackridge.Prelude.Int.{pos}
use quackridge.Errors.Defs.{GoError, foreign}
use quackridge.Errors.Result.{Result, ok, err}
use quackridge.Doctor.Bundle.{Lines, trim_star}
use quackridge.Protocol.Release.{Url, ReleaseAsset, ReleaseManifest, validate_release}

-- The release directory by the names of its files: the lines of a checksum file with the scanner's
-- error, os.Stat of a regular file, fileSHA256; strings.Fields, path.Base, and url.Parse.
pub record Directory : Type 0 where
  pub read_lines : Text → Result Lines
  pub is_regular : Text → Bool
  pub hash_of : Text → Result Text
  pub fields : Text → List Text
  pub base : Text → Text
  pub parse_url : Text → Option Url

abbrev pub checksum_name : Text → Text
checksum_name name = name ++ lit ".sha256"

abbrev pub signature_name : Text → Text
signature_name name = name ++ lit ".sigstore.json"

module _ (d : Directory) where
  -- The first line of a checksum file, once it is known to be the only one.
  unfoldable pub checksum_fields :
      (name : Text) → List Text → (more : Bool) → Option GoError → Result Text
  checksum_fields name (hash ∷ file ∷ []) more final =
      if not (text_eq (trim_star file) name)
      then err (foreign (lit "checksum file does not match its release asset"))
      else if more
      then err (foreign (lit "checksum file contains multiple entries"))
      else elim final [ some e ↦ err e | none ↦ ok hash ]
  checksum_fields name _ more final =
      err (foreign (lit "checksum file does not match its release asset"))

  unfoldable pub checksum_lines : (name : Text) → Lines → Result Text
  checksum_lines name l = elim l.lines [
    | [] ↦ err (foreign (lit "checksum file is empty"))
    | line ∷ rest ↦ checksum_fields name (d.fields line) (not (is_empty rest)) l.final
  ]

  -- readChecksum of an asset's checksum file
  unfoldable pub read_checksum : (name : Text) → Result Text
  read_checksum name = elim (d.read_lines (checksum_name name)) [
    | err e ↦ err e
    | ok l ↦ checksum_lines name l
  ]

  abbrev pub has_value : Result Text → Text → Bool
  has_value r t = elim r [ err e ↦ false | ok u ↦ text_eq u t ]

  abbrev pub asset_error : (name what : Text) → Option GoError
  asset_error name what = some (foreign (lit "release asset " ++ (name ++ what)))

  -- The body of the loop of verifyManifest.
  unfoldable pub verify_asset : ReleaseAsset → Option GoError
  verify_asset a =
      let name = d.base a.url in
      if not (d.is_regular name)
      then asset_error name (lit " is unavailable")
      else if not (has_value (read_checksum name) a.sha256)
      then asset_error name (lit " checksum does not match the manifest")
      else if not (has_value (d.hash_of name) a.sha256)
      then asset_error name (lit " content does not match its checksum")
      else if not (d.is_regular (d.base a.signature))
      then asset_error name (lit " signature bundle is unavailable")
      else none

  unfoldable pub verify_assets : List ReleaseAsset → Option GoError
  verify_assets [] = none
  verify_assets (a ∷ rest) = elim (verify_asset a) [ some e ↦ some e | none ↦ verify_assets rest ]

  -- verifyManifest of a manifest that decodes
  unfoldable pub verify_manifest : ReleaseManifest → Option GoError
  verify_manifest m = elim (validate_release d.parse_url m) [
    | some e ↦ some e
    | none ↦ verify_assets m.assets
  ]

unfoldable pub targets : List (Text × Text × Text)
targets =
    (lit "darwin", lit "amd64", lit "macOS 13")
    ∷ (lit "darwin", lit "arm64", lit "macOS 13")
    ∷ (lit "linux", lit "amd64", lit "glibc 2.35")
    ∷ []

abbrev pub archive_name : (version os arch : Text) → Text
archive_name version os arch =
    lit "quackridge_" ++ (version ++ (lit "_" ++ (os ++ (lit "_" ++ (arch ++ lit ".tar.gz")))))

abbrev pub base_url : (repository version : Text) → Text
base_url repository version =
    lit "https://github.com/"
    ++ (repository ++ (lit "/releases/download/v" ++ (version ++ lit "/")))

module _ (d : Directory) where
  unfoldable pub asset_of :
      (repository version : Text) → Text × Text × Text → (digest : Text) → ReleaseAsset
  asset_of repository version (os, arch, minimum) digest = record {
    os = os;
    arch = arch;
    url = base_url repository version ++ archive_name version os arch;
    sha256 = digest;
    signature = base_url repository version ++ signature_name (archive_name version os arch);
    minimum_os = minimum;
  }

  -- The body of the loop over the targets.
  unfoldable pub build_asset :
      (repository version : Text) → Text × Text × Text → Result ReleaseAsset
  build_asset repository version (os, arch, minimum) =
      let name = archive_name version os arch in
      elim (read_checksum d name) [
        | err e ↦ err e
        | ok digest ↦
            if not (d.is_regular (signature_name name))
            then err (foreign (lit "signature bundle for " ++ (name ++ lit " is unavailable")))
            else ok (asset_of repository version (os, arch, minimum) digest)
      ]

  unfoldable pub build_assets :
      (repository version : Text) → List (Text × Text × Text) → Result (List ReleaseAsset)
  build_assets repository version [] = ok []
  build_assets repository version (t ∷ rest) = elim (build_asset repository version t) [
    | err e ↦ err e
    | ok a ↦ elim (build_assets repository version rest) [ err e ↦ err e | ok as' ↦ ok (a ∷ as') ]
  ]

  -- run without -verify, up to the writing of the manifest
  unfoldable pub build_manifest : (version channel repository : Text) → Result ReleaseManifest
  build_manifest version channel repository = elim (build_assets repository version targets) [
    | err e ↦ err e
    | ok assets ↦
        let m : ReleaseManifest = record {
          version = version;
          channel = channel;
          minimum = pos 2;
          maximum = pos 2;
          assets = assets;
        } in
        elim (validate_release d.parse_url m) [ some e ↦ err e | none ↦ ok m ]
  ]
