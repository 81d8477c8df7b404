-- ===== src/Config/Service.antt =====
-- config/service.go: Add, Test and Remove, over the store and a credential store.
use quackridge.Prelude.{
  Bool, not, ◌&&◌, Option, none, some, List, [], ◌∷◌, ◌++◌, if◌then◌else◌, is_some,
}
use quackridge.Prelude.Text.{Text, lit, text_eq, is_empty}
use mathlib.Core.Option
use quackridge.Errors.Defs.{GoError, foreign, wrapped}
use quackridge.Errors.Result.{Result, ok, err}
use quackridge.Config.Document.{Source, Document, Decoding, validate}
use quackridge.Config.Store.{Disk, SaveFaults, Codec, save, load, or_else}

-- secrets.Store, over the provider's own state C.
pub record Credentials (C : Type 0) : Type 0 where
  pub get : Text → C → Result Text
  pub put : Text → Text → C → C × Option GoError
  pub delete : Text → C → C × Option GoError

-- Service; a nil Credentials is `none`, and `check` is Validator.Validate, where there is one.
pub record Service (C : Type 0) : Type 0 where
  pub codec : Codec
  pub decoding : Decoding
  pub credentials : Option (Credentials C)
  pub check : Option (Source → Text → Option GoError)

-- What the operations change.
pub record Stored (C : Type 0) : Type 0 where
  pub disk : Disk
  pub secrets : C

-- append(candidate.Sources, configured)
abbrev pub with_source : Document → Source → Document
with_source d s = record d { sources = d.sources ++ s ∷ [] }

-- The first source of an id, taken out of the list with what stands before and after it.
unfoldable pub take_out : Text → List Source → Option (Source × List Source)
take_out source_id [] = none
take_out source_id (s ∷ rest) =
    let more = take_out source_id rest in
    if text_eq s.id source_id
    then some (s, rest)
    else elim more [ none ↦ none | some (found, others) ↦ some (found, s ∷ others) ]

abbrev pub has_ref : Source → Bool
has_ref s = not (is_empty s.credential_ref)

abbrev pub incomplete : GoError
incomplete = foreign (lit "source validator and configured credential store are required")

module _ {C : Type 0} (service : Service C) where
  open service use {codec, decoding, credentials, check}

  -- s.Credentials.Put and Delete where the source has a reference; the guards of the callers make
  -- sure that the store is there.
  unfoldable pub put_ref : Source → Text → C → C × Option GoError
  put_ref s credential c = elim credentials [
    | some store ↦ if has_ref s then store.put s.credential_ref credential c else (c, none)
    | none ↦ (c, none)
  ]

  unfoldable pub delete_ref : Source → C → C × Option GoError
  delete_ref s c = elim credentials [
    | some store ↦ if has_ref s then store.delete s.credential_ref c else (c, none)
    | none ↦ (c, none)
  ]

  -- The end of Add: save, and on an error take the credential back.
  unfoldable pub add_save : SaveFaults → Document → Source → Stored C → Stored C × Option GoError
  add_save faults candidate s st =
      let (disk, error) = save codec decoding faults candidate st.disk in
      elim error [
        | none ↦ (record st { disk = disk }, none)
        | some e ↦ (record { disk = disk; secrets = (delete_ref s st.secrets).0 }, some e)
      ]

  -- Add once the candidate is valid.
  unfoldable pub add_candidate :
      SaveFaults → Document → Source → Text → Stored C → Stored C × Option GoError
  add_candidate faults candidate s credential st =
      let (secrets, error) = put_ref s credential st.secrets in
      elim error [
        | some e ↦
            (record st { secrets = secrets }, some (wrapped (lit "store source credential") e))
        | none ↦ add_save faults candidate s (record st { secrets = secrets })
      ]

  -- The candidate's and the validator's checks, in that order.
  unfoldable pub check_candidate :
      (Source → Text → Option GoError) → Document → Source → Text → Option GoError
  check_candidate validator candidate s credential =
      or_else (validate decoding candidate)
        (Option.map (wrapped (lit "validate source")) (validator s credential))

  unfoldable pub add_loaded :
      (Source → Text → Option GoError)
      → SaveFaults
      → Result Document
      → Source
      → Text
      → Stored C
      → Stored C × Option GoError
  add_loaded validator faults (err e) s credential st = (st, some e)
  add_loaded validator faults (ok d) s credential st =
      elim (check_candidate validator (with_source d s) s credential) [
        | some e ↦ (st, some e)
        | none ↦ add_candidate faults (with_source d s) s credential st
      ]

  -- Add; the first faults are those of a migration that Load writes back.
  unfoldable pub add :
      (loading saving : SaveFaults) → Source → Text → Stored C → Stored C × Option GoError
  add loading saving s credential st = elim check [
    | none ↦ (st, some incomplete)
    | some validator ↦
        let (disk, loaded) = load codec decoding loading st.disk in
        if has_ref s && not (is_some credentials)
        then (st, some incomplete)
        else add_loaded validator saving loaded s credential (record st { disk = disk })
  ]

  -- Test: the checks of Add without its effects.
  unfoldable pub test : SaveFaults → Source → Text → Stored C → Stored C × Option GoError
  test loading s credential st = elim check [
    | none ↦ (st, some (foreign (lit "source validator is required")))
    | some validator ↦
        let (disk, loaded) = load codec decoding loading st.disk in
        (
          record st { disk = disk },
          elim loaded [
            | err e ↦ some e
            | ok d ↦ or_else (validate decoding (with_source d s)) (validator s credential)
          ],
        )
  ]

  -- Remove once the shorter document is saved: on an error the whole one is saved again.
  unfoldable pub drop_credential :
      (restoring : SaveFaults) → Document → Source → Stored C → Stored C × Option GoError
  drop_credential restoring whole removed st =
      let restored = (save codec decoding restoring whole st.disk).0 in
      let (secrets, error) = delete_ref removed st.secrets in
      if has_ref removed && not (is_some credentials)
      then (record st { disk = restored }, some (foreign (lit "credential store is required")))
      else elim error [
        | some e ↦ (
          record { disk = restored; secrets = secrets },
          some (wrapped (lit "delete source credential") e),
        )
        | none ↦ (record st { secrets = secrets }, none)
      ]

  unfoldable pub remove_found :
      (saving restoring : SaveFaults)
      → Document
      → Source
      → List Source
      → Stored C
      → Stored C × Option GoError
  remove_found saving restoring whole removed others st =
      let (disk, error) = save codec decoding saving (record whole { sources = others }) st.disk in
      elim error [
        | some e ↦ (record st { disk = disk }, some e)
        | none ↦ drop_credential restoring whole removed (record st { disk = disk })
      ]

  unfoldable pub remove_loaded :
      (saving restoring : SaveFaults)
      → Result Document
      → Text
      → Stored C
      → Stored C × Option GoError
  remove_loaded saving restoring (err e) source_id st = (st, some e)
  remove_loaded saving restoring (ok d) source_id st = elim (take_out source_id d.sources) [
    | none ↦ (st, some (foreign (lit "source not found")))
    | some (removed, others) ↦ remove_found saving restoring d removed others st
  ]

  -- Remove
  unfoldable pub remove_source :
      (loading saving restoring : SaveFaults) → Text → Stored C → Stored C × Option GoError
  remove_source loading saving restoring source_id st =
      let (disk, loaded) = load codec decoding loading st.disk in
      remove_loaded saving restoring loaded source_id (record st { disk = disk })
