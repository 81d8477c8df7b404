-- ===== src/Checks/ReconcileRuns.antt =====
-- Runs of internal/reconcile.
use quackridge.Prelude.Sort.{sort, sort_insert}
use quackridge.Prelude.{◌≡◌, refl, Bool, true, false, Option, none, some, [], ◌∷◌, arith, is_some}
use quackridge.Prelude.Text.{Text, lit, text_eq, text_leb}
use quackridge.Prelude.Maps.{Map, lookup, insert}
use quackridge.Prelude.Int.{pos}
use quackridge.Errors.Defs.{GoError, foreign}
use quackridge.Errors.Result.{ok, err}
use quackridge.Config.Document.{Source, Document}
use quackridge.Source.Alias.{valid_identifier, all_word}
use quackridge.Reconcile.Stage.{
  stage_alias, stage_alias-valid_identifier, fingerprint, hex, hex_digit, join_nul, maximum_prefix,
}
use quackridge.Reconcile.Manager.{
  Adapters, Prepared, Environment, Boot, prepare, bootstrap, built, credential_of, definition_of,
  prepare_one, prepare_sources, validated,
}
use quackridge.Reconcile.Apply.{
  reload, apply, apply_all, apply_candidate, apply_id, apply_ids, attach_new, remove_one,
  remove_rest, replace, run_undo, staged, swap, undo_one,
}
use quackridge.Reconcile.Rollback.{RolledBack, reload_rolls_back}
use quackridge.Reconcile.Success.{chosen, reload_active}
use quackridge.Reconcile.Bootstrap.{Accounted, bootstrap_accounts}

-- A database with two places: the alias `a` takes the first, any other the second.
abbrev Places : Type 0
Places = Bool × Bool

abbrev taken : GoError
taken = foreign (lit "the place is taken")

abbrev free : GoError
free = foreign (lit "nothing is attached")

abbrev put_in : (first : Bool) → Places → Option GoError × Places
put_in true (false, q) = (none, (true, q))
put_in true (true, q) = (some taken, (true, q))
put_in false (p, false) = (none, (p, true))
put_in false (p, true) = (some taken, (p, true))

abbrev take_out : (first : Bool) → Places → Option GoError × Places
take_out true (true, q) = (none, (false, q))
take_out true (false, q) = (some free, (false, q))
take_out false (p, true) = (none, (p, false))
take_out false (p, false) = (some free, (p, false))

abbrev toy : Adapters Bool Places
toy = record {
  validate = λ a d w. none;
  attach = λ a d w. put_in (text_eq d.alias (lit "a")) w;
  cleanup = λ a d w. take_out (text_eq d.alias (lit "a")) w;
  health = λ a d w. none;
  posture = λ a. none;
}

abbrev environment : Environment Bool
environment = record {
  factories = (lit "t", λ s credential. ok true) ∷ [];
  get_secret = λ r. err (foreign (lit "no credential"));
  sha256 = λ t. t;
}

abbrev source : Text → Source
source name = record {
  id = name;
  name = name;
  alias = name;
  kind = lit "t";
  database_type = [];
  enabled = true;
  credential_ref = [];
  options = [];
}

abbrev fitting : Document
fitting = record { version = pos 1; sources = source (lit "a") ∷ source (lit "b") ∷ [] }

abbrev too_many : Document
too_many = record {
  version = pos 1;
  sources = source (lit "a") ∷ source (lit "b") ∷ source (lit "c") ∷ [];
}

abbrev nothing : Map (Prepared Bool)
nothing = []

abbrev empty : Places
empty = (false, false)

fails : is_some (reload toy environment (ok too_many) nothing empty).error ≡ true
unfolding reload prepare prepare_sources prepare_one lookup text_eq lit credential_of built
    validated apply apply_all remove_rest apply_ids sort insert text_leb apply_id sort_insert
    apply_candidate attach_new remove_one replace run_undo staged swap undo_one definition_of
    fingerprint hex hex_digit join_nul maximum_prefix stage_alias
fails = refl

reload_rolls_back_example :
    ((reload toy environment (ok too_many) nothing empty).active ≡ nothing)
    × RolledBack toy empty (reload toy environment (ok too_many) nothing empty).world
reload_rolls_back_example = reload_rolls_back toy environment (ok too_many) nothing empty fails

abbrev one : Document
one = record { version = pos 1; sources = source (lit "b") ∷ [] }

abbrev b_active : Map (Prepared Bool)
b_active = (reload toy environment (ok one) nothing empty).active

b_reload : (reload toy environment (ok one) nothing empty).error ≡ none
unfolding reload prepare prepare_sources prepare_one lookup text_eq lit credential_of built
    validated apply apply_all remove_rest apply_ids sort insert apply_id apply_candidate sort_insert
    text_leb attach_new remove_one replace run_undo staged swap undo_one definition_of fingerprint
    hex hex_digit join_nul maximum_prefix stage_alias
b_reload = refl

prepared_b : prepare toy environment empty (ok one) ≡ ok b_active
unfolding prepare reload prepare_sources prepare_one lookup text_eq lit credential_of built
    validated apply insert apply_all remove_rest apply_ids sort apply_id apply_candidate attach_new
    definition_of sort_insert text_leb remove_one replace run_undo staged swap undo_one fingerprint
    hex hex_digit join_nul maximum_prefix stage_alias
prepared_b = refl

reload_active_example :
    lookup (lit "b") (reload toy environment (ok one) nothing empty).active
    ≡ chosen nothing b_active (lit "b")
reload_active_example =
    reload_active toy environment (ok one) nothing b_active empty prepared_b b_reload (lit "b")

bootstrap_accounts_example :
    (b : Boot toy environment) × (bootstrap toy environment (ok too_many) nothing empty ≡ ok b)
    × Accounted toy environment b (source (lit "c"))
bootstrap_accounts_example =
    bootstrap_accounts toy environment too_many nothing empty
      (source (lit "a") ∷ source (lit "b") ∷ []) [] (source (lit "c")) refl refl

alias_ok : valid_identifier (lit "crm") ≡ true
unfolding valid_identifier lit all_word
alias_ok = refl

stage_alias-valid_identifier_example :
    valid_identifier (stage_alias (lit "crm") (1 ∷ 2 ∷ 3 ∷ 255 ∷ [])) ≡ true
stage_alias-valid_identifier_example =
    stage_alias-valid_identifier (lit "crm") (1 ∷ 2 ∷ 3 ∷ 255 ∷ []) alias_ok
      (omega arith, (omega arith, (omega arith, (omega arith, tt))))
