-- ===== src/App/Reload/Kept.antt =====
-- What a reload of the application leaves, whatever its engines answer.
use quackridge.Prelude.{
  ◌≡◌, refl, sym, ◌⊎◌, inl, inr, Bool, true, false, Option, none, List, [], ◌∷◌, arith,
  if◌then◌else◌, Option-cases, is_some,
}
use quackridge.Prelude.Text.{Text, lit}
use mathlib.Core.Path.{subst}
use quackridge.Errors.Defs.{GoError}
use quackridge.Errors.Result.{Result, ok}
use quackridge.Config.Document.{Document}
use quackridge.Service.Defs.{Options}
use quackridge.Protocol.Identity.{texts_eq}
use quackridge.Protocol.Identity.Compatible.{texts_eq_iff}
use quackridge.App.{file_paths, merge_paths}
use quackridge.App.Reload.{
  Engines, App, bring_up, restore, fail_restored, replace_engine, swap_engine, rebuild,
  reload_in_place, reload,
}

-- An error, with the document, the options, the failures and the base paths as they were; or none,
-- with the new document and options and no failures.
abbrev pub Reloaded : {E : Type 0} → Document → Options → App E → Option GoError × App E → Type 0
Reloaded document options r (error, r') =
    (r'.base_paths ≡ r.base_paths)
    × (((is_some error ≡ true)
          × (r'.document ≡ r.document)
          × (r'.options ≡ r.options)
          × (r'.failures ≡ r.failures))
        ⊎ ((error ≡ none) × (r'.document ≡ document) × (r'.options ≡ options) × (r'.failures ≡ [])))

module _ {E : Type 0} (engines : Engines E) where
  fail_restored-Reloaded :
      (document : Document) (options : Options) (x : GoError) (r : App E)
      → Reloaded document options r (fail_restored engines x r)
  unfolding fail_restored restore
  fail_restored-Reloaded document options x r = ground arith

  replace_engine-Reloaded :
      (document : Document) (options : Options) (loaded : Result Document) (r : App E)
      → Reloaded document options r (replace_engine engines document options loaded r)
  unfolding replace_engine
  replace_engine-Reloaded document options loaded r =
      elim (Option-cases
        (bring_up engines (lit "restart engine for file-source allowlist")
          (lit "reattach sources after engine restart") options loaded).0) [
            | inl e ↦ ground arith
            | inr (x, e) ↦ ground (arith, fail_restored-Reloaded document options x r)
          ]

  swap_engine-Reloaded :
      (document : Document) (options : Options) (loaded : Result Document) (r : App E)
      → Reloaded document options r (swap_engine engines document options loaded r)
  unfolding swap_engine
  swap_engine-Reloaded document options loaded r =
      let r' : App E = record r { engine = (engines.stop r.engine).1 } in
      elim (Option-cases (engines.stop r.engine).0) [
        | inl e ↦ ground (arith, replace_engine-Reloaded document options loaded r')
        | inr (x, e) ↦ ground (arith, fail_restored-Reloaded document options x r')
      ]

  rebuild-Reloaded :
      (document : Document) (paths : List Text) (probed loaded : Result Document) (r : App E)
      → Reloaded document
          (record r.options { allowed_paths = paths })
          r
          (rebuild engines document paths probed loaded r)
  unfolding rebuild
  rebuild-Reloaded document paths probed loaded r =
      let options = record r.options { allowed_paths = paths } in
      ground (arith, swap_engine-Reloaded document options loaded r)

  reload_in_place-Reloaded :
      (document : Document) (loaded : Result Document) (r : App E)
      → Reloaded document r.options r (reload_in_place engines document loaded r)
  unfolding reload_in_place
  reload_in_place-Reloaded document loaded r = ground arith

  either_Reloaded :
      (document : Document) (options : Options) (r : App E) (c : Bool)
      (x y : Option GoError × App E)
      → (c ≡ true → Reloaded document options r x)
      → Reloaded document options r y
      → Reloaded document options r (if c then x else y)
  either_Reloaded document options r true x y h k = h refl
  either_Reloaded document options r false x y h k = k

  -- A Reload that returns an error keeps the document, the options and the failures, whether the
  -- engine was replaced, restored or neither; one that returns none has the loaded document, no
  -- failures, and the options with the allow list of that document's files.
  pub reload-Reloaded :
      (path_of : Text → Option Text) (document : Document) (probed loaded : Result Document)
      (r : App E)
      → Reloaded document
          (record r.options {
            allowed_paths = merge_paths (r.base_paths ∷ file_paths path_of document.sources ∷ []);
          })
          r
          (reload engines path_of (ok document) probed loaded r)
  unfolding reload
  reload-Reloaded path_of document probed loaded r =
      let paths = merge_paths (r.base_paths ∷ file_paths path_of document.sources ∷ []) in
      either_Reloaded document (record r.options { allowed_paths = paths }) r
        (texts_eq paths r.options.allowed_paths) _ _
        (λ h.
          subst
            (λ p.
              Reloaded document (record r.options { allowed_paths = p }) r
                (reload_in_place engines document loaded r))
            (sym ((texts_eq_iff paths r.options.allowed_paths).0 h))
            (reload_in_place-Reloaded document loaded r))
        (rebuild-Reloaded document paths probed loaded r)
