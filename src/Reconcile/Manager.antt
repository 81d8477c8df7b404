-- ===== src/Reconcile/Manager.antt =====
-- manager.go Manager: prepareOne, prepare, Validate, Bootstrap and Diagnostics. Adapters act on a
-- world W that holds what is attached; they, the factories and the credential store are interfaces
-- of the source and parameters here.
use quackridge.Prelude.{Bool, true, Option, none, some, List, [], ◌∷◌, ◌++◌, if◌then◌else◌}
use quackridge.Prelude.Text.{Text, lit, is_empty}
use quackridge.Prelude.Maps.{Map, lookup, insert, keys}
use quackridge.Prelude.Sort.{sort}
use quackridge.Errors.Defs.{GoError, public, public_because, foreign, source_unavailable}
use quackridge.Errors.Result.{Result, ok, err}
use quackridge.Config.Document.{Source, Document}
use quackridge.Source.{Definition}
use quackridge.Reconcile.Stage.{fingerprint}

-- source.Adapter and the optional postureInspector. Only attach and cleanup change the world.
pub record Adapters (A : Type 0) (W : Type 0) : Type 0 where
  pub validate : A → Definition → W → Option GoError
  pub attach : A → Definition → W → Option GoError × W
  pub cleanup : A → Definition → W → Option GoError × W
  pub health : A → Definition → W → Option GoError
  pub posture : A → Option (Definition → W → Result (List Text))

-- preparedSource and activeSource, which have the same fields.
pub record Prepared (A : Type 0) : Type 0 where
  pub definition : Definition
  pub adapter : A
  pub print : Text

-- Factory.Build by connector type, secrets.Store.Get, and crypto/sha256.
pub record Environment (A : Type 0) : Type 0 where
  pub factories : Map (Source → Text → Result A)
  pub get_secret : Text → Result Text
  pub sha256 : Text → Text

pub record Failure : Type 0 where
  pub id : Text
  pub name : Text
  pub kind : Text
  pub error : GoError

pub record SourceDiagnostic : Type 0 where
  pub id : Text
  pub health : Text
  pub read_only : Bool
  pub warnings : List Text

abbrev pub unavailable : Text → GoError
unavailable message = public source_unavailable message

abbrev pub unavailable_because : Text → GoError → GoError
unavailable_because message cause = public_because source_unavailable message cause

-- source.Definition{…} of a configured source.
unfoldable pub definition_of : Source → Definition
definition_of s = record {
  id = s.id;
  name = s.name;
  alias = s.alias;
  connector_type = s.kind;
  database_type = s.database_type;
  enabled = s.enabled;
}

module _ {A : Type 0} {W : Type 0} (adapters : Adapters A W) (environment : Environment A) where
  open environment use {factories, get_secret, sha256}

  -- The credential of a source; none is the empty one.
  unfoldable pub credential_of : Source → Result Text
  credential_of s =
      if is_empty s.credential_ref then ok [] else elim (get_secret s.credential_ref) [
        | ok credential ↦ ok credential
        | err e ↦ err (unavailable_because (lit "source credential is unavailable") e)
      ]

  unfoldable pub validated : W → Source → Text → A → Result (Prepared A)
  validated w s credential adapter = elim (adapters.validate adapter (definition_of s) w) [
    | some e ↦ err (unavailable_because (lit "source validation failed") e)
    | none ↦ ok (record {
      definition = definition_of s;
      adapter = adapter;
      print = fingerprint sha256 s credential;
    })
  ]

  unfoldable pub built : W → (Source → Text → Result A) → Source → Text → Result (Prepared A)
  built w factory s credential = elim (factory s credential) [
    | err e ↦ err (unavailable_because (lit "source configuration is invalid") e)
    | ok adapter ↦ validated w s credential adapter
  ]

  -- prepareOne
  unfoldable pub prepare_one : W → Source → Result (Prepared A)
  prepare_one w s = elim (lookup s.kind factories) [
    | none ↦ err (unavailable (lit "source adapter is unavailable"))
    | some factory ↦ elim (credential_of s) [
      | err e ↦ err e
      | ok credential ↦ built w factory s credential
    ]
  ]

  -- The loop of prepare.
  unfoldable pub prepare_sources : W → Map (Prepared A) → List Source → Result (Map (Prepared A))
  prepare_sources w prepared [] = ok prepared
  prepare_sources w prepared (s ∷ rest) =
      let skip = prepare_sources w prepared rest in
      elim (prepare_one w s) [
        | err e ↦ if s.enabled then err e else skip
        | ok candidate ↦
            let next = prepare_sources w (insert s.id candidate prepared) rest in
            if s.enabled then next else skip
      ]

  -- prepare, from what the loader returned.
  unfoldable pub prepare : W → Result Document → Result (Map (Prepared A))
  prepare w loaded = elim loaded [
    | err e ↦ err (unavailable_because (lit "source configuration is invalid") e)
    | ok document ↦ prepare_sources w [] document.sources
  ]

  -- Manager.Validate
  unfoldable pub validate_source : W → Source → Text → Option GoError
  validate_source w s credential = elim (lookup s.kind factories) [
    | none ↦ some (foreign (lit "source adapter is unavailable"))
    | some factory ↦ elim (factory s credential) [
      | err e ↦ some e
      | ok adapter ↦ adapters.validate adapter (definition_of s) w
    ]
  ]

  -- One enabled source of Bootstrap: prepared and attached, or an error.
  unfoldable pub bring_up : Source → W → Result (Prepared A) × W
  bring_up s w = elim (prepare_one w s) [
    | err e ↦ (err e, w)
    | ok candidate ↦
        let (error, w') = adapters.attach candidate.adapter candidate.definition w in
        (elim error [ some e ↦ err e | none ↦ ok candidate ], w')
  ]

  pub record Boot : Type 0 where
    pub active : Map (Prepared A)
    pub failures : List Failure
    pub world : W

  -- How the result of one source is recorded.
  unfoldable pub note : Source → Result (Prepared A) × W → Boot → Boot
  note s (err e, w) b = record b {
    failures = b.failures ++ record { id = s.id; name = s.name; kind = s.kind; error = e } ∷ [];
    world = w;
  }
  note s (ok candidate, w) b = record b { active = insert s.id candidate b.active; world = w }

  -- The loop of Bootstrap.
  unfoldable pub bootstrap_sources : List Source → Boot → Boot
  bootstrap_sources [] b = b
  bootstrap_sources (s ∷ rest) b =
      bootstrap_sources rest (if s.enabled then note s (bring_up s b.world) b else b)

  -- Bootstrap
  unfoldable pub bootstrap : Result Document → Map (Prepared A) → W → Result Boot
  bootstrap loaded active w = elim loaded [
    | err e ↦ err e
    | ok document ↦
        ok (
          bootstrap_sources document.sources (record { active = active; failures = []; world = w }))
  ]

  unfoldable pub posture_warnings : Prepared A → W → List Text
  posture_warnings p w = elim (adapters.posture p.adapter) [
    | none ↦ []
    | some inspect ↦ elim (inspect p.definition w) [
      | err e ↦ lit "source read-only posture could not be inspected" ∷ []
      | ok warnings ↦ warnings
    ]
  ]

  -- One round of Diagnostics.
  unfoldable pub diagnose : Text → Prepared A → W → SourceDiagnostic
  diagnose id p w = elim (adapters.health p.adapter p.definition w) [
    | some e ↦ record {
      id = id;
      health = lit "unavailable";
      read_only = true;
      warnings = lit "source connectivity check failed" ∷ posture_warnings p w;
    }
    | none ↦ record {
      id = id;
      health = lit "ready";
      read_only = true;
      warnings = posture_warnings p w;
    }
  ]

  unfoldable pub diagnose_ids : List Text → Map (Prepared A) → W → List SourceDiagnostic
  diagnose_ids [] active w = []
  diagnose_ids (id ∷ rest) active w = elim (lookup id active) [
    | none ↦ diagnose_ids rest active w
    | some p ↦ diagnose id p w ∷ diagnose_ids rest active w
  ]

  -- Diagnostics
  unfoldable pub diagnostics : Map (Prepared A) → W → List SourceDiagnostic
  diagnostics active w = diagnose_ids (sort (keys active)) active w
