-- ===== src/Policy/Sources.antt =====
-- policy.go collectSources: the catalogs of a tree's base tables, sorted, each once.
use quackridge.Prelude.{
  ◌≡◌, ◌∙◌, ◌↔◌, inl, inr, Bool, true, false, not, ◌&&◌, ◌||◌, Option, none, some, List, [], ◌∷◌,
  arith, if◌then◌else◌, Bool-cases, Option-cases,
}
use quackridge.Prelude.Text.{Text, lit, text_eq, text_eq_refl, text_eq_iff, is_empty}
use quackridge.Prelude.Lists.{contains}
use quackridge.Prelude.Sort.{sort, IsSorted, sort-IsSorted, contains-sort}
use quackridge.Json.{
  Value, Items, Fields, null, boolean, number, string, array, object, end, item, done, field,
  member, string_or_empty, Within, every, every_item, every_field, every_iff, every_fails,
}

-- set[key] = struct{}{}
unfoldable pub add_to_set : Text → List Text → List Text
add_to_set t set = if contains set t then set else t ∷ set

-- The catalog that a node adds to the set, if it is a base table outside memory.
unfoldable pub catalog_of : Fields → Option Text
catalog_of node =
    let catalog = string_or_empty (member (lit "catalog_name") node) in
    if text_eq (string_or_empty (member (lit "type") node)) (lit "BASE_TABLE")
      && not (is_empty catalog)
      && not (text_eq catalog (lit "memory"))
    then some catalog
    else none

unfoldable pub add_catalog : Option Text → List Text → List Text
add_catalog none set = set
add_catalog (some c) set = add_to_set c set

-- The closure `visit`, with the set that it fills.
unfoldable mutual
  pub visit : Value → List Text → List Text
  visit null set = set
  visit (boolean b) set = set
  visit (number n) set = set
  visit (string s) set = set
  visit (array xs) set = visit_items xs set
  visit (object fs) set = visit_fields fs (add_catalog (catalog_of fs) set)

  pub visit_items : Items → List Text → List Text
  visit_items end set = set
  visit_items (item v xs) set = visit_items xs (visit v set)

  pub visit_fields : Fields → List Text → List Text
  visit_fields done set = set
  visit_fields (field k v fs) set = visit_fields fs (visit v set)

-- collectSources
unfoldable pub collect_sources : Value → List Text
collect_sources value = sort (visit value [])

-- The node does not name the catalog.
abbrev pub is_not_catalog : Text → Fields → Bool
is_not_catalog c node = elim (catalog_of node) [ none ↦ true | some d ↦ not (text_eq d c) ]

contains-add_catalog :
    (c : Text) (node : Fields) (set : List Text)
    → contains (add_catalog (catalog_of node) set) c
      ≡ (contains set c || not (is_not_catalog c node))
unfolding add_catalog add_to_set contains
contains-add_catalog c node set = elim (Option-cases (catalog_of node)) [
  | inl e ↦ ground arith
  | inr (d, e) ↦ ground (arith, text_eq_iff d c)
]

or_not_and : (a b c : Bool) → ((a || not b) || not c) ≡ (a || not (b && c))
or_not_and a b c = ground arith

mutual
  unfolding visit every

  contains-visit :
      (c : Text) (v : Value) (set : List Text)
      → contains (visit v set) c ≡ (contains set c || not (every (is_not_catalog c) v))
  contains-visit c null set = ground arith
  contains-visit c (boolean b) set = ground arith
  contains-visit c (number n) set = ground arith
  contains-visit c (string s) set = ground arith
  contains-visit c (array xs) set = contains-visit_items c xs set
  contains-visit c (object fs) set =
      rw (contains-visit_fields c fs (add_catalog (catalog_of fs) set)) (
        rw (contains-add_catalog c fs set)
          (or_not_and (contains set c) (is_not_catalog c fs) (every_field (is_not_catalog c) fs)))

  contains-visit_items :
      (c : Text) (xs : Items) (set : List Text)
      → contains (visit_items xs set) c ≡ (contains set c || not (every_item (is_not_catalog c) xs))
  contains-visit_items c end set = ground arith
  contains-visit_items c (item v xs) set = rw (contains-visit_items c xs (visit v set)) (
      rw (contains-visit c v set) (
        or_not_and (contains set c) (every (is_not_catalog c) v)
          (every_item (is_not_catalog c) xs)))

  contains-visit_fields :
      (c : Text) (fs : Fields) (set : List Text)
      → contains (visit_fields fs set) c
        ≡ (contains set c || not (every_field (is_not_catalog c) fs))
  contains-visit_fields c done set = ground arith
  contains-visit_fields c (field k v fs) set = rw (contains-visit_fields c fs (visit v set)) (
      rw (contains-visit c v set) (
        or_not_and (contains set c) (every (is_not_catalog c) v)
          (every_field (is_not_catalog c) fs)))

contains-collected :
    (c : Text) (v : Value) → contains (sort (visit v [])) c ≡ not (every (is_not_catalog c) v)
unfolding contains
contains-collected c v = contains-sort (visit v []) c ∙ contains-visit c v []

catalog_named :
    (c : Text) (v : Value)
    → every (is_not_catalog c) v ≡ false
    → (node : Fields) × Within (object node) v × (catalog_of node ≡ some c)
catalog_named c v h =
    let (node, w, e) = every_fails (is_not_catalog c) v h in
    elim (Option-cases (catalog_of node)) [
      | inl m ↦ absurd (ground arith)
      | inr (d, m) ↦ (node, w, ground (arith, text_eq_iff d c))
    ]

catalog_found :
    (c : Text) (v : Value) (node : Fields)
    → Within (object node) v
    → catalog_of node ≡ some c
    → every (is_not_catalog c) v ≡ false
catalog_found c v node w e = elim (Bool-cases (every (is_not_catalog c) v)) [
  | inl h ↦ let ok = (every_iff (is_not_catalog c) v).0 h node w in ground (arith, text_eq_refl c)
  | inr h ↦ h
]

-- The sources of a decision are sorted, and are the catalogs that the base tables of the tree
-- name at any depth, apart from the empty one and "memory": no other, and none is missing.
pub collect_sources_lem :
    (v : Value)
    → IsSorted (collect_sources v)
      × ((c : Text)
          → (contains (collect_sources v) c ≡ true)
            ↔ ((node : Fields) × Within (object node) v × (catalog_of node ≡ some c)))
unfolding collect_sources
collect_sources_lem v = (
  sort-IsSorted (visit v []),
  λ c. (
    λ h. catalog_named c v (ground (arith, contains-collected c v)),
    λ (node, w, e). ground (arith, contains-collected c v, catalog_found c v node w e),
  ),
)
