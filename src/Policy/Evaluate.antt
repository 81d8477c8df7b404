-- ===== src/Policy/Evaluate.antt =====
-- policy.go Evaluator: the decision on a statement, and the function that DuckDB calls for it.
use quackridge.Prelude.{
  ℕ, ◌≤◌, ◌<◌, ◌≡◌, ◌⊎◌, inl, inr, Bool, true, false, not, ◌&&◌, ◌||◌, Option, none, some, List, [],
  ◌∷◌, arith, ltb, ◌==◌, if◌then◌else◌, Option-cases,
}
use quackridge.Prelude.Text.{Text, lit, is_empty}
use quackridge.Prelude.Lists.{length}
use quackridge.Json.{Value, Fields, object, member, as_bool, array_length}
use quackridge.Policy.Tree.{inspect_tree}
use quackridge.Policy.Sources.{collect_sources}
use quackridge.Policy.TempTable.{temp_table_body}

-- What DuckDB's parser and encoding/json answer about a text: the number of statements that
-- ExtractStatements finds, whether the only one prepares as a transaction statement, the JSON text
-- of json_serialize_sql (`none` on an error), the object that it decodes to; and strings.ToLower.
pub record Parser : Type 0 where
  pub count_statements : Text → ℕ
  pub prepares_transaction : Text → Bool
  pub serialize : Text → Option Text
  pub unmarshal : Text → Option Fields
  pub to_lower : Text → Text

pub record Decision : Type 0 where
  pub allowed : Bool
  pub sources : List Text

abbrev pub refused : Decision
refused = record { allowed = false; sources = [] }

-- 1 << 20
abbrev pub maximum_length : ℕ
maximum_length = 1048576

module _ (parser : Parser) where
  open parser use {count_statements, prepares_transaction, serialize, unmarshal, to_lower}

  unfoldable pub is_single_statement : Text → Bool
  is_single_statement query = count_statements query == 1

  unfoldable pub is_transaction : Text → Bool
  is_transaction query = count_statements query == 1 && prepares_transaction query

  -- The last test of selectTree.
  unfoldable pub one_statement : Option Fields → Option Value
  one_statement none = none
  one_statement (some tree) =
      if not (as_bool (member (lit "error") tree))
        && array_length (member (lit "statements") tree) == 1
      then some (object tree)
      else none

  -- selectTree: the tree, if its second result is true.
  unfoldable pub select_tree : Text → Option Value
  select_tree query = elim (serialize query) [
    | none ↦ none
    | some serialized ↦ one_statement (unmarshal serialized)
  ]

  -- A tree that passes the inspection is allowed, with its sources.
  unfoldable pub decide_tree : Value → Decision
  decide_tree tree =
      if inspect_tree to_lower tree
      then record { allowed = true; sources = collect_sources tree }
      else refused

  unfoldable pub decide_temp_table : Text → Decision
  decide_temp_table body = elim (select_tree body) [ none ↦ refused | some tree ↦ decide_tree tree ]

  -- What follows when the statement is no single SELECT.
  unfoldable pub decide_other : Text → Decision
  decide_other query = elim (temp_table_body query) [
    | some body ↦ decide_temp_table body
    | none ↦ record { allowed = is_transaction query; sources = [] }
  ]

  -- Once the length and the number of statements are checked.
  unfoldable pub decide : Text → Decision
  decide query = elim (select_tree query) [
    | some tree ↦ decide_tree tree
    | none ↦ decide_other query
  ]

  -- Evaluate
  unfoldable pub evaluate : Text → Decision
  evaluate query =
      if is_empty query || ltb maximum_length (length query)
      then refused
      else if not (is_single_statement query)
      then refused
      else decide query

  -- Allow
  unfoldable pub allow : Text → Bool
  allow query = (evaluate query).allowed

  -- The RowExecutor of quackridge_authorize; a query argument that is no string is `none`.
  unfoldable pub authorize : Option Text → Bool
  authorize none = false
  authorize (some query) = (evaluate query).allowed

  -- The three kinds of statements that a client may run, with the sources of the decision.
  abbrev pub Permitted : Text → List Text → Type 0
  Permitted query sources =
      ((tree : Value) × (select_tree query ≡ some tree)
        × (inspect_tree to_lower tree ≡ true)
        × (sources ≡ collect_sources tree))
      ⊎ ((body : Text) × (tree : Value) × (select_tree query ≡ none)
          × (temp_table_body query ≡ some body)
          × (select_tree body ≡ some tree)
          × (inspect_tree to_lower tree ≡ true)
          × (sources ≡ collect_sources tree))
      ⊎ ((select_tree query ≡ none)
          × (temp_table_body query ≡ none)
          × (prepares_transaction query ≡ true)
          × (sources ≡ []))

  decide_tree_lem :
      (tree : Value)
      → (decide_tree tree).allowed ≡ true
      → (inspect_tree to_lower tree ≡ true) × ((decide_tree tree).sources ≡ collect_sources tree)
  unfolding decide_tree
  decide_tree_lem tree h = ground arith

  decide_temp_table_lem :
      (body : Text)
      → (decide_temp_table body).allowed ≡ true
      → (tree : Value) × (select_tree body ≡ some tree)
        × (inspect_tree to_lower tree ≡ true)
        × ((decide_temp_table body).sources ≡ collect_sources tree)
  unfolding decide_temp_table
  decide_temp_table_lem body h = elim (Option-cases (select_tree body)) [
    | inl e ↦ absurd (ground arith)
    | inr (tree, e) ↦
        (tree, e, ground (arith, decide_tree_lem tree), ground (arith, decide_tree_lem tree))
  ]

  decide_other_lem :
      (query : Text)
      → select_tree query ≡ none
      → (decide_other query).allowed ≡ true
      → Permitted query (decide_other query).sources
  unfolding decide_other is_transaction
  decide_other_lem query missing h = elim (Option-cases (temp_table_body query)) [
    | inl e ↦ inr (inr (missing, e, ground arith, ground arith))
    | inr (body, e) ↦
        let (tree, x, y, z) = decide_temp_table_lem body (ground arith) in
        inr (inl (body, tree, missing, e, x, y, ground arith))
  ]

  decide_lem :
      (query : Text) → (decide query).allowed ≡ true → Permitted query (decide query).sources
  unfolding decide
  decide_lem query h = elim (Option-cases (select_tree query)) [
    | inl e ↦
        let same : decide query ≡ decide_other query = ground arith in
        rw same (decide_other_lem query e (rw same at h))
    | inr (tree, e) ↦
        inl (tree, e, ground (arith, decide_tree_lem tree), ground (arith, decide_tree_lem tree))
  ]

  evaluate_guard :
      (query : Text)
      → (evaluate query).allowed ≡ true
      → (length query ≤ maximum_length)
        × (count_statements query ≡ 1)
        × (evaluate query ≡ decide query)
  unfolding evaluate is_single_statement
  evaluate_guard query h = ground arith

  -- Evaluate allows a statement only if it is the only one of a text of at most 2^20 bytes and is
  -- of one of three kinds: a SELECT whose tree passes the inspection; CREATE TEMP TABLE qr_tmp_… AS
  -- with a SELECT whose tree passes it; or a transaction statement. The decision's sources are those
  -- of the inspected tree, and none for a transaction.
  pub evaluate-Permitted :
      (query : Text)
      → (evaluate query).allowed ≡ true
      → (length query ≤ maximum_length)
        × (count_statements query ≡ 1)
        × Permitted query (evaluate query).sources
  evaluate-Permitted query h =
      let (short, one, same) = evaluate_guard query h in
      (short, one, rw same (decide_lem query (rw same at h)))

  -- Conversely every statement of those kinds is allowed.
  pub Permitted-evaluate :
      (query : Text)
      → 0 < length query
      → length query ≤ maximum_length
      → count_statements query ≡ 1
      → {sources : List Text} → Permitted query sources
      → evaluate query ≡ record { allowed = true; sources = sources }
  unfolding evaluate is_single_statement decide decide_other decide_temp_table decide_tree
      is_transaction
  Permitted-evaluate (c ∷ query) p q one (inl (tree, a, b, e)) = ground arith
  Permitted-evaluate (c ∷ query) p q one (inr (inl (body, tree, a, b, d, e, f))) = ground arith
  Permitted-evaluate (c ∷ query) p q one (inr (inr (a, b, d, e))) = ground arith
  Permitted-evaluate [] p q one h = absurd (omega arith)
