-- ===== src/Protocol/Release/Complete.antt =====
-- What a valid release manifest holds.
use quackridge.Prelude.{◌≡◌, true, false, Option, none, List, [], ◌∷◌, ◌++◌, arith}
use mathlib.Core.List.{append-nil}
use quackridge.Prelude.Text.{Text, is_empty}
use quackridge.Prelude.Lists.{length, all, All, contains, contains-append}
use quackridge.Prelude.Int.{pos}
use quackridge.Protocol.Identity.{matches_version}
use quackridge.Protocol.Release.{
  ReleaseAsset, ReleaseManifest, Url, target, supported, required, is_hex, is_https, check_asset,
  check_required, check_assets, validate_release,
}

abbrev pub targets : List ReleaseAsset → List Text
targets [] = []
targets (a ∷ rest) = target a ∷ targets rest

-- No text of the second list stands in the first or twice in the second.
abbrev pub Apart : List Text → List Text → Type 0
Apart seen [] = Unit
Apart seen (t ∷ rest) = (contains seen t ≡ false) × Apart (t ∷ seen) rest

-- Every text of the second list stands in the first.
abbrev pub Covers : List Text → List Text → Type 0
Covers have [] = Unit
Covers have (t ∷ rest) = (contains have t ≡ true) × Covers have rest

module _ (parse_url : Text → Option Url) where
  -- What the loop has tested of an asset; hexadecimal digits may be of either case.
  pub record IsSound (a : ReleaseAsset) : Type 0 where
    pub known : contains supported (target a) ≡ true
    pub https : is_https parse_url a.url ≡ true
    pub checksum_length : length a.sha256 ≡ 64
    pub checksum_hex : all is_hex a.sha256 ≡ true
    pub signed_https : is_https parse_url a.signature ≡ true
    pub has_minimum : is_empty a.minimum_os ≡ false

  check_required-Covers :
      (seen ts : List Text) → check_required parse_url seen ts ≡ none → Covers seen ts
  unfolding check_required
  check_required-Covers seen [] h = tt
  check_required-Covers seen (t ∷ ts) h =
      (ground arith, check_required-Covers seen ts (ground arith))

  asset-IsSound :
      (a : ReleaseAsset)
      → contains supported (target a) ≡ true
      → check_asset parse_url a ≡ none
      → IsSound a
  unfolding check_asset
  asset-IsSound a k h = ground arith

  -- Covers goes over to a list that has the same members.
  Covers-mono :
      (xs ys ts : List Text)
      → ((t : Text) → contains xs t ≡ true → contains ys t ≡ true)
      → Covers xs ts
      → Covers ys ts
  Covers-mono xs ys [] f h = tt
  Covers-mono xs ys (t ∷ ts) f (h, r) = (f t h, Covers-mono xs ys ts f r)

  contains-move :
      (seen rest : List Text) (x t : Text)
      → contains ((x ∷ seen) ++ rest) t ≡ true
      → contains (seen ++ x ∷ rest) t ≡ true
  unfolding contains
  contains-move seen rest x t h =
      ground (arith, contains-append seen rest t, contains-append seen (x ∷ rest) t)

  check_assets_lem :
      (seen : List Text) (assets : List ReleaseAsset)
      → check_assets parse_url seen assets ≡ none
      → All IsSound assets × Apart seen (targets assets) × Covers (seen ++ targets assets) required
  unfolding check_assets
  check_assets_lem seen [] h = (tt, tt, rw append-nil (check_required-Covers seen required h))
  check_assets_lem seen (a ∷ rest) h =
      let (x, y, z) = check_assets_lem (target a ∷ seen) rest (ground arith) in
      (
        (asset-IsSound a (ground arith) (ground arith), x),
        (ground arith, y),
        Covers-mono _ _ required (contains-move seen (targets rest) (target a)) z,
      )

  -- A manifest that ValidateReleaseManifest accepts is for protocol 2 alone, its assets are sound,
  -- no target has two, and every required target has one.
  pub validate_release_lem :
      (m : ReleaseManifest)
      → validate_release parse_url m ≡ none
      → (matches_version m.version ≡ true)
        × (m.minimum ≡ pos 2)
        × (m.maximum ≡ pos 2)
        × All IsSound m.assets
        × Apart [] (targets m.assets)
        × Covers (targets m.assets) required
  unfolding validate_release
  validate_release_lem m h =
      let (x, y, z) = check_assets_lem [] m.assets (ground arith) in
      (ground arith, ground arith, ground arith, x, y, z)
