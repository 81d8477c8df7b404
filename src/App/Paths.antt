-- ===== src/App/Paths.antt =====
-- The allow list of paths.
use quackridge.Prelude.{◌≡◌, ◌∙◌, Bool, false, not, ◌&&◌, ◌||◌, List, [], ◌∷◌, arith, if◌then◌else◌}
use quackridge.Prelude.Text.{Text, text_eq_iff, is_empty}
use quackridge.Prelude.Lists.{contains}
use quackridge.Prelude.Sort.{IsSorted, sort-IsSorted, contains-sort}
use quackridge.Policy.Sources.{add_to_set}
use quackridge.App.{add_paths, add_groups, merge_paths}

abbrev pub some_contains : List (List Text) → Text → Bool
some_contains [] p = false
some_contains (group ∷ rest) p = contains group p || some_contains rest p

contains-add_paths :
    (p : Text) (set group : List Text)
    → contains (add_paths set group) p ≡ (contains set p || (contains group p && not (is_empty p)))
unfolding add_paths add_to_set contains
contains-add_paths p set [] = ground arith
contains-add_paths p set (q ∷ rest) = ground (
  arith,
  contains-add_paths p (if is_empty q then set else add_to_set q set) rest,
  text_eq_iff q p,
)

contains-add_groups :
    (p : Text) (set : List Text) (groups : List (List Text))
    → contains (add_groups set groups) p
      ≡ (contains set p || (some_contains groups p && not (is_empty p)))
unfolding add_groups
contains-add_groups p set [] = ground arith
contains-add_groups p set (group ∷ rest) =
    ground (arith, contains-add_groups p (add_paths set group) rest, contains-add_paths p set group)

-- The merged paths are sorted, and a path is among them exactly if it is not empty and stands in
-- one of the groups.
pub merge_paths_lem :
    (groups : List (List Text))
    → IsSorted (merge_paths groups)
      × ((p : Text)
          → contains (merge_paths groups) p ≡ (some_contains groups p && not (is_empty p)))
unfolding merge_paths contains
merge_paths_lem groups = (
  sort-IsSorted (add_groups [] groups),
  λ p. contains-sort (add_groups [] groups) p ∙ contains-add_groups p [] groups,
)
