-- ===== src/Packaging/Agreement.antt =====
-- What the tool builds is what it verifies.
use quackridge.Prelude.{◌≡◌, ◌∙◌, inl, inr, true, none, List, [], ◌∷◌, ◌++◌, arith}
use quackridge.Prelude.Text.{Text, text_eq_refl}
use quackridge.Prelude.Lists.{All}
use mathlib.Core.Path.{subst}
use quackridge.Errors.Result.{ok, Result-cases}
use quackridge.Protocol.Release.{ReleaseAsset, ReleaseManifest}
use quackridge.Packaging.{
  Directory, signature_name, read_checksum, verify_asset, verify_assets, verify_manifest, targets,
  archive_name, base_url, asset_of, build_asset, build_assets, build_manifest,
}

-- path.Base of the two URLs of a target is the name of the file.
abbrev pub IsBase : Directory → (repository version : Text) → Text × Text × Text → Type 0
IsBase d repository version (os, arch, _) =
    (d.base (base_url repository version ++ archive_name version os arch)
      ≡ archive_name version os arch)
    × (d.base (base_url repository version ++ signature_name (archive_name version os arch))
        ≡ signature_name (archive_name version os arch))

-- The archive of a target is there and has the hash that its checksum file says.
abbrev pub IsHashed : Directory → (version : Text) → Text × Text × Text → Type 0
IsHashed d version (os, arch, _) =
    (d.is_regular (archive_name version os arch) ≡ true)
    × (d.hash_of (archive_name version os arch) ≡ read_checksum d (archive_name version os arch))

module _ (d : Directory) where
  -- An asset whose URLs lead to these files is verified.
  named :
      (a : ReleaseAsset) (name signature : Text)
      → d.base a.url ≡ name
      → d.base a.signature ≡ signature
      → d.is_regular name ≡ true
      → d.is_regular signature ≡ true
      → read_checksum d name ≡ ok a.sha256
      → d.hash_of name ≡ ok a.sha256
      → verify_asset d a ≡ none
  unfolding verify_asset
  named a name signature b c r s k h = let same = text_eq_refl a.sha256 in ground arith

  built :
      (repository version os arch minimum : Text) (a : ReleaseAsset)
      → build_asset d repository version (os, arch, minimum) ≡ ok a
      → (digest : Text) × (read_checksum d (archive_name version os arch) ≡ ok digest)
        × (d.is_regular (signature_name (archive_name version os arch)) ≡ true)
        × (asset_of d repository version (os, arch, minimum) digest ≡ a)
  unfolding build_asset
  built repository version os arch minimum a e =
      elim (Result-cases (read_checksum d (archive_name version os arch))) [
        | inr (x, k) ↦ ground arith
        | inl (digest, k) ↦ (digest, k, ground arith, ground arith)
      ]

  asset_verified :
      (repository version : Text) (t : Text × Text × Text) (a : ReleaseAsset)
      → IsBase d repository version t
      → IsHashed d version t
      → build_asset d repository version t ≡ ok a
      → verify_asset d a ≡ none
  unfolding asset_of
  asset_verified repository version (os, arch, minimum) a (b, c) (r, h) e =
      let name = archive_name version os arch in
      let (digest, k, s, q) = built repository version os arch minimum a e in
      subst (λ (x : ReleaseAsset). verify_asset d x ≡ none) q
        (named (asset_of d repository version (os, arch, minimum) digest) name (signature_name name)
          b c r s k (h ∙ k))

  assets_verified :
      (repository version : Text) (ts : List (Text × Text × Text)) (assets : List ReleaseAsset)
      → All (IsBase d repository version) ts
      → All (IsHashed d version) ts
      → build_assets d repository version ts ≡ ok assets
      → verify_assets d assets ≡ none
  unfolding build_assets verify_assets
  assets_verified repository version [] assets b h e = ground arith
  assets_verified repository version (t ∷ ts) assets (b, bs) (h, hs) e =
      elim (Result-cases (build_asset d repository version t)) [
        | inr (x, k) ↦ ground arith
        | inl (a, k) ↦ elim (Result-cases (build_assets d repository version ts)) [
          | inr (x, l) ↦ ground arith
          | inl (more, l) ↦
              let one = asset_verified repository version t a b h k in
              let rest = assets_verified repository version ts more bs hs l in ground arith
        ]
      ]

  -- A manifest that the tool builds without an error passes its own verification, if the base of
  -- each URL is the name of its file and each archive is there with the hash of its checksum file.
  pub verify_manifest-build_manifest :
      (version channel repository : Text) (m : ReleaseManifest)
      → All (IsBase d repository version) targets
      → All (IsHashed d version) targets
      → build_manifest d version channel repository ≡ ok m
      → verify_manifest d m ≡ none
  unfolding build_manifest verify_manifest
  verify_manifest-build_manifest version channel repository m b h e =
      elim (Result-cases (build_assets d repository version targets)) [
        | inr (x, k) ↦ ground arith
        | inl (assets, k) ↦
            let all_verified = assets_verified repository version targets assets b h k in
            ground arith
      ]
