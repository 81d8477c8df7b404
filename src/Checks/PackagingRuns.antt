-- ===== src/Checks/PackagingRuns.antt =====
-- A release whose manifest is built and verified.
use quackridge.Prelude.Lists.{all, contains}
use quackridge.Protocol.Identity.{matches_version, version_digits, version_suffix}
use quackridge.Doctor.Bundle.{trim_star}
use quackridge.Prelude.{◌≡◌, refl, true, none, some, [], ◌∷◌, map, ◌==◌, if◌then◌else◌}
use quackridge.Prelude.Text.{Text, lit, text_eq}
use quackridge.Errors.Result.{ok}
use quackridge.Protocol.Release.{
  ReleaseManifest, check_asset, check_assets, check_required, is_https, required, supported, target,
  validate_release,
}
use quackridge.Prelude.Int.{pos}
use quackridge.Packaging.{
  Directory, targets, asset_of, build_manifest, verify_manifest, build_asset, build_assets,
  checksum_fields, checksum_lines, read_checksum,
}
use quackridge.Packaging.Agreement.{verify_manifest-build_manifest}

abbrev digest : Text
digest = lit "aaaaaaaaaaaaaaaaaaaaaaaaaaaaaaaaaaaaaaaaaaaaaaaaaaaaaaaaaaaaaaaa"

-- The text behind its last slash.
unfoldable behind_slash : (seen : Text) → Text → Text
behind_slash seen [] = seen
behind_slash seen (c ∷ s) = behind_slash (if c == b'/' then s else seen) s

-- The text without ".sha256".
unfoldable stem : Text → Text
stem [] = []
stem (c ∷ s) = let rest = stem s in if text_eq (c ∷ s) (lit ".sha256") then [] else c ∷ rest

abbrev directory : Directory
directory = record {
  read_lines = λ t. ok (record { lines = t ∷ []; final = none });
  is_regular = λ t. true;
  hash_of = λ t. ok digest;
  fields = λ t. digest ∷ stem t ∷ [];
  base = λ t. behind_slash t t;
  parse_url = λ t. some (record { scheme = lit "https"; host = lit "github.com" });
}

abbrev manifest : ReleaseManifest
manifest = record {
  version = lit "0.1.0";
  channel = lit "stable";
  minimum = pos 2;
  maximum = pos 2;
  assets = map (λ t. asset_of directory (lit "o/q") (lit "0.1.0") t digest) targets;
}

manifest_run : build_manifest directory (lit "0.1.0") (lit "stable") (lit "o/q") ≡ ok manifest
unfolding build_manifest build_assets targets build_asset read_checksum checksum_lines
    checksum_fields text_eq trim_star stem lit validate_release matches_version version_digits
    check_assets contains supported target asset_of all version_suffix check_asset check_required
    is_https required
manifest_run = refl

verify_manifest-build_manifest_example : verify_manifest directory manifest ≡ none
unfolding targets behind_slash stem lit text_eq read_checksum checksum_lines checksum_fields
    trim_star
verify_manifest-build_manifest_example =
    verify_manifest-build_manifest directory (lit "0.1.0") (lit "stable") (lit "o/q") manifest
      ((refl, refl), ((refl, refl), ((refl, refl), tt)))
      ((refl, refl), ((refl, refl), ((refl, refl), tt))) manifest_run
