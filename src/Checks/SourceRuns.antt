-- ===== src/Checks/SourceRuns.antt =====
-- Runs of internal/source and internal/protocol.
use quackridge.Prelude.{
  ◌*◌, ◌^◌, ◌≤◌, min, ◌≡◌, refl, ◌≢◌, true, Option, none, some, List, [], ◌∷◌, if◌then◌else◌,
}
use quackridge.Prelude.Text.{text_eq, text_eq_iff, Text, lit, text_eq, has_prefix}
use quackridge.Prelude.Lists.{length, all, All, contains}
use mathlib.Core.Bool.{false≢true}
use quackridge.Prelude.Maps.{Map, insert, lookup}
use quackridge.Prelude.Int.{pos}
use quackridge.Errors.Result.{ok, err}
use quackridge.Source.Registry.{new_registry, duplicate_type, register}
use quackridge.Source.Backoff.{
  Backoff, Call, failed, recovered, failure, new_backoff, replay, failures_since, failure_bounds,
  grow,
}
use quackridge.Version.{capabilities, product}
use quackridge.Protocol.Identity.{
  Identity, current_identity, validate_identity, matches_version, connectors, has_all, texts_eq,
  version_digits, version_suffix,
}
use quackridge.Protocol.Identity.Compatible.{validate_identity_lem}
use quackridge.Protocol.Release.{
  ReleaseAsset, ReleaseManifest, Url, required, validate_release, check_asset, check_assets,
  check_required, is_https, supported, target,
}
use quackridge.Protocol.Release.Complete.{IsSound, Apart, Covers, targets, validate_release_lem}

-- Adapters that are known by their type alone.
abbrev itself : Text → Text
itself t = t

abbrev two : List (Option Text)
two = some (lit "postgres") ∷ some (lit "mysql") ∷ []

abbrev registered : Map Text
registered = (lit "postgres", lit "postgres") ∷ (lit "mysql", lit "mysql") ∷ []

registry_run : new_registry itself two ≡ ok registered
unfolding new_registry register lit lookup insert text_eq
registry_run = refl

registry_duplicate :
    new_registry itself (some (lit "odbc") ∷ some (lit "odbc") ∷ [])
    ≡ err (duplicate_type (lit "odbc"))
unfolding new_registry register lit lookup insert text_eq
registry_duplicate = refl

-- Four failures of one source: 250 ms, 500 ms, 1 s, and the maximum.
abbrev short : Backoff
short = new_backoff (pos 250) (pos 1500)

abbrev crm : Text
crm = lit "crm"

delays :
    let f1 = failure short crm in
    let f2 = failure f1.0 crm in
    let f3 = failure f2.0 crm in
    let f4 = failure f3.0 crm in (f1.1 ∷ f2.1 ∷ f3.1 ∷ f4.1 ∷ []) ≡ 250 ∷ 500 ∷ 1000 ∷ 1500 ∷ []
unfolding failure grow lookup new_backoff insert text_eq lit
delays = refl

-- Two failures of crm since it was ready, and one of another source.
abbrev history : List Call
history = failed crm ∷ failed (lit "erp") ∷ failed crm ∷ recovered crm ∷ failed crm ∷ []

failure_bounds_example :
    (min short.maximum (short.base * 2 ^ min 63 (failures_since crm history))
      ≤ (failure (replay history short) crm).1)
    × ((failure (replay history short) crm).1 ≤ short.maximum)
failure_bounds_example = failure_bounds (pos 250) (pos 1500) history crm

crm≢erp : crm ≢ lit "erp"
unfolding text_eq lit
crm≢erp = λ e. false≢true ((text_eq_iff crm (lit "erp")).1 e)

abbrev ours : Identity
ours = current_identity (lit "0.1.0-dev")

identity_run : validate_identity ours ≡ none
unfolding validate_identity current_identity text_eq product lit matches_version version_digits
    version_suffix all texts_eq connectors capabilities has_all contains
identity_run = refl

validate_identity_lem_example :
    (matches_version ours.product_version ≡ true)
    × (ours ≡ record (current_identity (lit "9")) {
      product_version = ours.product_version;
      capability_set = ours.capability_set;
    })
    × (length ours.capability_set ≡ length capabilities)
    × ((t : Text) → contains ours.capability_set t ≡ contains capabilities t)
validate_identity_lem_example = validate_identity_lem ours (lit "9") identity_run

abbrev parse : Text → Option Url
parse t =
    if has_prefix t (lit "https://")
    then some (record { scheme = lit "https"; host = lit "example.com" })
    else none

abbrev asset_for : Text → Text → ReleaseAsset
asset_for os arch = record {
  os = os;
  arch = arch;
  url = lit "https://example.com/a";
  sha256 = lit "0123456789abcdef0123456789abcdef0123456789abcdef0123456789abcdef";
  signature = lit "https://example.com/s";
  minimum_os = lit "1";
}

abbrev manifest : ReleaseManifest
manifest = record {
  version = lit "1.2.3";
  channel = lit "stable";
  minimum = pos 2;
  maximum = pos 2;
  assets =
      asset_for (lit "darwin") (lit "amd64")
      ∷ asset_for (lit "darwin") (lit "arm64")
      ∷ asset_for (lit "linux") (lit "amd64")
      ∷ [];
}

manifest_run : validate_release parse manifest ≡ none
unfolding validate_release matches_version version_digits lit text_eq check_assets contains
    supported target check_asset is_https has_prefix all check_required required
manifest_run = refl

validate_release_lem_example :
    (matches_version manifest.version ≡ true)
    × (manifest.minimum ≡ pos 2)
    × (manifest.maximum ≡ pos 2)
    × All (IsSound parse) manifest.assets
    × Apart [] (targets manifest.assets)
    × Covers (targets manifest.assets) required
validate_release_lem_example = validate_release_lem parse manifest manifest_run
