-- ===== src/Protocol/Release.antt =====
-- release.go ValidateReleaseManifest. `parse_url` is url.Parse: the scheme and the host.
pub mod Complete
use quackridge.Prelude.{
  ℕ, Bool, false, not, ◌&&◌, ◌||◌, Option, none, some, List, [], ◌∷◌, ◌++◌, leb, ◌==◌,
  if◌then◌else◌,
}
use quackridge.Prelude.Text.{Text, lit, text_eq, is_empty}
use quackridge.Prelude.Lists.{length, all, contains}
use quackridge.Errors.Defs.{GoError, foreign}
use quackridge.Prelude.Int.{ℤ, eq_ℤ}
use quackridge.Source.Alias.{is_digit}
use quackridge.Protocol.Identity.{matches_version}

pub record ReleaseAsset : Type 0 where
  pub os : Text
  pub arch : Text
  pub url : Text
  pub sha256 : Text
  pub signature : Text
  pub minimum_os : Text

pub record ReleaseManifest : Type 0 where
  pub version : Text
  pub channel : Text
  pub minimum : ℤ
  pub maximum : ℤ
  pub assets : List ReleaseAsset

-- asset.OS + "/" + asset.Arch
unfoldable pub target : ReleaseAsset → Text
target a = a.os ++ lit "/" ++ a.arch

unfoldable pub supported : List Text
supported = lit "darwin/amd64" ∷ lit "darwin/arm64" ∷ lit "linux/amd64" ∷ lit "windows/amd64" ∷ []

unfoldable pub required : List Text
required = lit "darwin/amd64" ∷ lit "darwin/arm64" ∷ lit "linux/amd64" ∷ []

abbrev pub is_hex : ℕ → Bool
is_hex c = is_digit c || leb b'a' c && leb c b'f' || leb b'A' c && leb c b'F'

-- The message of an asset's error.
abbrev pub bad_target : Text → Text → GoError
bad_target t what = foreign (lit "release target " ++ (34 ∷ (t ++ (34 ∷ what))))

-- A parsed URL's scheme and host.
pub record Url : Type 0 where
  pub scheme : Text
  pub host : Text

module _ (parse_url : Text → Option Url) where
  -- err == nil, an https scheme and a host
  unfoldable pub is_https : Text → Bool
  is_https raw = elim (parse_url raw) [
    | none ↦ false
    | some u ↦ text_eq u.scheme (lit "https") && not (is_empty u.host)
  ]

  -- The checks of one asset, after those of its target.
  unfoldable pub check_asset : ReleaseAsset → Option GoError
  check_asset a =
      if not (is_https a.url)
      then some (bad_target (target a) (lit " URL is invalid"))
      else if not (length a.sha256 == 64)
      then some (bad_target (target a) (lit " checksum is invalid"))
      else if not (all is_hex a.sha256)
      then some (bad_target (target a) (lit " checksum is invalid"))
      else if not (is_https a.signature)
      then some (bad_target (target a) (lit " signature URL is invalid"))
      else if is_empty a.minimum_os
      then some (bad_target (target a) (lit " minimum OS is missing"))
      else none

  -- The loop over the required targets.
  unfoldable pub check_required : (seen : List Text) → List Text → Option GoError
  check_required seen [] = none
  check_required seen (t ∷ rest) =
      if contains seen t
      then check_required seen rest
      else some (foreign (lit "release manifest does not contain every required target"))

  -- The loop over the assets, and the one that follows it.
  unfoldable pub check_assets : (seen : List Text) → List ReleaseAsset → Option GoError
  check_assets seen [] = check_required seen required
  check_assets seen (a ∷ rest) =
      let next = check_assets (target a ∷ seen) rest in
      if not (contains supported (target a))
      then some (bad_target (target a) (lit " is unsupported"))
      else if contains seen (target a)
      then some (bad_target (target a) (lit " is duplicated"))
      else elim (check_asset a) [ some e ↦ some e | none ↦ next ]

  -- ValidateReleaseManifest
  unfoldable pub validate_release : ReleaseManifest → Option GoError
  validate_release m =
      if not (matches_version m.version)
      then some (foreign (lit "release version is invalid"))
      else if not (text_eq m.channel (lit "prerelease") || text_eq m.channel (lit "stable"))
      then some (foreign (lit "release channel is invalid"))
      else if not (eq_ℤ m.minimum 2 && eq_ℤ m.maximum 2)
      then some (foreign (lit "release protocol range is invalid"))
      else check_assets [] m.assets
