-- ===== src/Doctor/Verified.antt =====
-- What each check of the doctor has found out where it reports no error.
use quackridge.Prelude.{
  ◌%◌, ◌≡◌, refl, sym, ◌∙◌, ◌⊎◌, inl, inr, Bool, true, false, ◌&&◌, ◌||◌, none, some, List, [], ◌∷◌,
  ◌++◌, arith, Bool-cases, and_parts,
}
use quackridge.Prelude.Text.{Text, lit, is_empty}
use quackridge.Prelude.Lists.{contains, All}
use quackridge.Errors.Defs.{GoError}
use quackridge.Errors.Result.{ok, Result-cases}
use quackridge.Config.Document.{Source, Document}
use quackridge.Doctor.{
  Check, no_failure, ConfigFiles, Inspected, missing, unreadable, permissions, check_permissions,
  check_configuration, Stores, Store, needs_credential, lacks_credential, any_credential,
  choose_store, missing_credentials, report_missing, check_credentials,
}
use quackridge.Doctor.Bundle.{
  BundleFiles, ChecksumEntry, required, is_intact, verify_entries, first_absent,
  check_extension_versions, check_complete, check_entries, read_checksums, check_extensions,
}

pub no_failure-append : (a b : List Check) → no_failure (a ++ b) ≡ no_failure a && no_failure b
unfolding no_failure
no_failure-append [] b = refl
no_failure-append (c ∷ a) b = let more = no_failure-append a b in ground arith

pub no_failure-parts :
    (a b : List Check) → no_failure (a ++ b) ≡ true → (no_failure a ≡ true) × (no_failure b ≡ true)
no_failure-parts a b h = and_parts (no_failure a) (no_failure b) (sym (no_failure-append a b) ∙ h)

-- The configuration loads; its file, if there is one, is closed to others except on Windows.
unfoldable pub Private : ConfigFiles → Inspected → Type 0
Private f missing = Unit
Private f (unreadable e) = false ≡ true
Private f (permissions mode) = (f.is_windows ≡ true) ⊎ (mode % 64 ≡ 0)

check_permissions-Private :
    (f : ConfigFiles) (d : Document) (path : Text) (i : Inspected)
    → no_failure (check_permissions f d path i).0 ≡ true
    → Private f i × ((check_permissions f d path i).1 ≡ some d)
unfolding check_permissions Private no_failure
check_permissions-Private f d path missing h = (tt, refl)
check_permissions-Private f d path (unreadable e) h = ground arith
check_permissions-Private f d path (permissions mode) h = ground arith

pub check_configuration-Private :
    (f : ConfigFiles) (path : Text)
    → no_failure (check_configuration f path).0 ≡ true
    → (d : Document) × (f.load ≡ ok d)
      × Private f f.inspected
      × ((check_configuration f path).1 ≡ some d)
unfolding check_configuration no_failure
check_configuration-Private f path h = elim (Result-cases f.load) [
  | inl (d, e) ↦
      let (p, q) = check_permissions-Private f d path f.inspected (ground arith) in
      (d, e, p, ground arith)
  | inr (x, e) ↦ ground arith
]

-- Every enabled source that names a credential has one that is not empty.
abbrev pub HasCredentials : Stores → List Source → Type 0
HasCredentials s sources =
    (any_credential sources ≡ false)
    ⊎ ((store : Store) × (choose_store s ≡ ok store)
        × All (λ source. (needs_credential source && lacks_credential store source) ≡ false)
            sources)

missing-All :
    (store : Store) (sources : List Source)
    → missing_credentials store sources ≡ []
    → All (λ source. (needs_credential source && lacks_credential store source) ≡ false) sources
unfolding missing_credentials
missing-All store [] h = tt
missing-All store (s ∷ rest) h = (ground arith, missing-All store rest (ground arith))

pub check_credentials-HasCredentials :
    (b : GoError → Bool) (s : Stores) (sources : List Source)
    → no_failure (check_credentials b s sources) ≡ true
    → HasCredentials s sources
unfolding check_credentials report_missing no_failure
check_credentials-HasCredentials b s sources h = elim (Bool-cases (any_credential sources)) [
  | inr e ↦ inl e
  | inl e ↦ elim (Result-cases (choose_store s)) [
    | inr (x, k) ↦ ground arith
    | inl (store, k) ↦ inr (store, k, missing-All store sources (ground arith))
  ]
]

-- Every file that the bundle must have is listed, every listed file is one of them and has the
-- listed hash, and the versions are the expected ones.
abbrev pub names_of : List ChecksumEntry → List Text
names_of [] = []
names_of (e ∷ rest) = e.name ∷ names_of rest

abbrev pub IsListed : BundleFiles → (directory : Text) → List ChecksumEntry → Type 0
IsListed f directory entries =
    All (λ entry. (contains required entry.name ≡ true) × (is_intact f directory entry ≡ true))
      entries

abbrev pub IsBundle : BundleFiles → (directory : Text) → Type 0
IsBundle f directory =
    (entries : List ChecksumEntry) × (read_checksums f (f.join directory (lit "extensions.sha256"))
      ≡ ok entries)
    × IsListed f directory entries
    × All (λ name. contains (names_of entries) name ≡ true) required
    × (check_extension_versions f (f.join directory (lit "extensions.versions")) ≡ none)

verify-IsListed :
    (f : BundleFiles) (directory : Text) (present : List Text) (entries : List ChecksumEntry)
    → is_empty (verify_entries f directory present entries).0 ≡ true
    → IsListed f directory entries
unfolding verify_entries
verify-IsListed f directory present [] h = tt
verify-IsListed f directory present (entry ∷ rest) h = (
  (ground arith, ground arith),
  verify-IsListed f directory (entry.name ∷ present) rest (ground arith),
)

verify-present :
    (f : BundleFiles) (directory name : Text) (present : List Text) (entries : List ChecksumEntry)
    → contains (verify_entries f directory present entries).1 name ≡ true
    → (contains (names_of entries) name || contains present name) ≡ true
unfolding verify_entries contains
verify-present f directory name present [] h = h
verify-present f directory name present (entry ∷ rest) h =
    let more = verify-present f directory name (entry.name ∷ present) rest in ground arith

first_absent-All :
    (present names : List Text)
    → first_absent present names ≡ none
    → All (λ name. contains present name ≡ true) names
unfolding first_absent
first_absent-All present [] h = tt
first_absent-All present (name ∷ rest) h =
    (ground arith, first_absent-All present rest (ground arith))

All-listed :
    (f : BundleFiles) (directory : Text) (entries : List ChecksumEntry) (names : List Text)
    → All (λ name. contains (verify_entries f directory [] entries).1 name ≡ true) names
    → All (λ name. contains (names_of entries) name ≡ true) names
unfolding contains
All-listed f directory entries [] h = tt
All-listed f directory entries (name ∷ rest) (h, hs) =
    let one = verify-present f directory name [] entries h in
    (ground arith, All-listed f directory entries rest hs)

complete-parts :
    (f : BundleFiles) (directory : Text) (present : List Text)
    → no_failure (check_complete f directory present) ≡ true
    → (first_absent present required ≡ none)
      × (check_extension_versions f (f.join directory (lit "extensions.versions")) ≡ none)
unfolding check_complete no_failure
complete-parts f directory present h = ground arith

-- A loop that ends early ends with an error.
failed-fails :
    (f : BundleFiles) (directory : Text) (present : List Text) (entries : List ChecksumEntry)
    → (is_empty (verify_entries f directory present entries).0 ≡ true)
      ⊎ (no_failure (verify_entries f directory present entries).0 ≡ false)
unfolding verify_entries no_failure
failed-fails f directory present [] = inl refl
failed-fails f directory present (entry ∷ rest) =
    let more = failed-fails f directory (entry.name ∷ present) rest in ground arith

entries-parts :
    (f : BundleFiles) (directory : Text) (entries : List ChecksumEntry)
    → no_failure (check_entries f directory entries) ≡ true
    → (is_empty (verify_entries f directory [] entries).0 ≡ true)
      × (no_failure (check_complete f directory (verify_entries f directory [] entries).1) ≡ true)
unfolding check_entries
entries-parts f directory entries h =
    let failed = failed-fails f directory [] entries in ground arith

pub check_extensions-IsBundle :
    (f : BundleFiles) (directory : Text)
    → no_failure (check_extensions f directory) ≡ true
    → is_empty directory ≡ false
    → IsBundle f directory
unfolding check_extensions no_failure
check_extensions-IsBundle f directory h k =
    elim (Result-cases (read_checksums f (f.join directory (lit "extensions.sha256")))) [
      | inr (x, e) ↦ ground arith
      | inl (entries, e) ↦
          let (empty, complete) = entries-parts f directory entries (ground arith) in
          let (present, versions) =
            complete-parts f directory (verify_entries f directory [] entries).1 complete in
          (
            entries,
            e,
            verify-IsListed f directory [] entries empty,
            All-listed f directory entries required (first_absent-All _ required present),
            versions,
          )
    ]
