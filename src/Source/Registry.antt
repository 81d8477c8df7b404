-- ===== src/Source/Registry.antt =====
-- source.go Registry (NewRegistry, Adapter, Types) and reconcile.New, which checks its factories in
-- the same way: a map from a type name to the one implementation that has it.
use quackridge.Prelude.{
  ◌≡◌, refl, false, Option, none, some, List, [], ◌∷◌, ◌++◌, arith, if◌then◌else◌, is_some,
}
use quackridge.Prelude.Text.{Text, lit, text_eq, text_eq_iff, is_empty}
use quackridge.Prelude.Maps.{Map, lookup, insert, lookup-insert, keys}
use quackridge.Prelude.Sort.{sort}
use quackridge.Errors.Defs.{GoError, foreign}
use quackridge.Errors.Result.{Result, ok, err}

abbrev pub type_required : GoError
type_required = foreign (lit "source adapter type is required")

-- The message ends in the quoted type name.
abbrev pub duplicate_type : Text → GoError
duplicate_type name = foreign (lit "duplicate source adapter " ++ (34 ∷ name ++ (34 ∷ [])))

module _ {A : Type 0} (type_of : A → Text) where
  -- The loop of NewRegistry; a nil adapter is `none`.
  unfoldable pub register : Map A → List (Option A) → Result (Map A)
  register m [] = ok m
  register m (none ∷ rest) = err type_required
  register m (some a ∷ rest) =
      let next = register (insert (type_of a) a m) rest in
      if is_empty (type_of a)
      then err type_required
      else if is_some (lookup (type_of a) m)
      then err (duplicate_type (type_of a))
      else next

  -- NewRegistry
  unfoldable pub new_registry : List (Option A) → Result (Map A)
  new_registry adapters = register [] adapters

-- Adapter
unfoldable pub adapter : {A : Type 0} → Map A → Text → Option A
adapter m source_type = lookup source_type m

-- Types
unfoldable pub types : {A : Type 0} → Map A → List Text
types m = sort (keys m)

module _ {A : Type 0} (type_of : A → Text) where
  -- The adapter of a list that has a type.
  unfoldable pub find_type : Text → List (Option A) → Option A
  find_type t [] = none
  find_type t (none ∷ rest) = find_type t rest
  find_type t (some a ∷ rest) = if text_eq (type_of a) t then some a else find_type t rest

  -- No nil adapter, no empty type, and no type twice, counting those of the map.
  abbrev pub Registers : Map A → List (Option A) → Type 0
  Registers m [] = Unit
  Registers m (none ∷ rest) = ⊥
  Registers m (some a ∷ rest) =
      (is_empty (type_of a) ≡ false)
      × (lookup (type_of a) m ≡ none)
      × (find_type (type_of a) rest ≡ none)
      × Registers m rest

  Registers-insert :
      (k : Text) (v : A) (m : Map A) (l : List (Option A))
      → Registers (insert k v m) l
      → (find_type k l ≡ none) × Registers m l
  unfolding find_type
  Registers-insert k v m [] h = (refl, tt)
  Registers-insert k v m (none ∷ rest) h = absurd h
  Registers-insert k v m (some a ∷ rest) h =
      let (f, r) = Registers-insert k v m rest h.3 in
      (
        ground (
          arith,
          lookup-insert k (type_of a) v m,
          text_eq_iff k (type_of a),
          text_eq_iff (type_of a) k,
        ),
        (h.0, ground (arith, lookup-insert k (type_of a) v m), h.2, r),
      )

  register-Registers :
      (m m' : Map A) (l : List (Option A))
      → register type_of m l ≡ ok m'
      → Registers m l
        × ((t : Text)
            → lookup t m' ≡ (if is_some (find_type t l) then find_type t l else lookup t m))
  unfolding register find_type
  register-Registers m m' [] h = (tt, λ t. ground arith)
  register-Registers m m' (none ∷ rest) h = cc
  register-Registers m m' (some a ∷ rest) h =
      let (r, found) = register-Registers (insert (type_of a) a m) m' rest (ground arith) in
      let (f, r') = Registers-insert (type_of a) a m rest r in
      (
        (ground arith, ground arith, f, r'),
        λ t. ground (arith, found t, lookup-insert (type_of a) t a m, text_eq_iff (type_of a) t, f),
      )

  -- NewRegistry succeeds only if every adapter is present, has a type, and no two have the same;
  -- then Adapter finds for a type the adapter of the list that has it, and nothing else.
  pub new_registry_lem :
      (l : List (Option A)) (m : Map A)
      → new_registry type_of l ≡ ok m
      → Registers [] l × ((t : Text) → adapter m t ≡ find_type t l)
  unfolding new_registry adapter lookup
  new_registry_lem l m h =
      let (r, found) = register-Registers [] m l h in (r, λ t. ground (arith, found t))
