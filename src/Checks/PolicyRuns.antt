-- ===== src/Checks/PolicyRuns.antt =====
-- Runs of internal/policy and of the error classification.
use quackridge.Prelude.{
  ◌≤◌, ◌≡◌, refl, ◌↔◌, ◌⊎◌, inl, true, none, some, [], ◌∷◌, arith, if◌then◌else◌,
}
use quackridge.Prelude.Text.{
  Text, lit, text_eq, has_prefix, contains_text, has_suffix, text_leb, ascii_lower,
}
use quackridge.Prelude.Lists.{length, In, contains}
use quackridge.Prelude.Sort.{IsSorted, sort, sort_insert}
use quackridge.Json.{
  Fields, object, array, string, end, item, done, field, Within, count_items, every, member,
}
use quackridge.Policy.Tree.{
  node_ok, function_ok, table_function_ok, base_table_ok, inspect_tree, inspect_tree_iff,
  allowed_table_functions, forbidden_functions, has_separator, is_denied, unsafe_object_name,
}
use quackridge.Policy.Sources.{
  catalog_of, collect_sources, collect_sources_lem, add_catalog, add_to_set, visit,
}
use quackridge.Policy.TempTable.{
  temp_table_body, eat_char, eat_word, kelvin, long_s, name_char, name_run, or_replace, short_name,
  skip_space, some_space, starts_query,
}
use quackridge.Policy.TempTable.Tail.{Splits, temp_table_body-Header}
use quackridge.Policy.TempTable.Language.{Header, Query}
use quackridge.Policy.Evaluate.{
  Parser, maximum_length, evaluate, select_tree, Permitted, evaluate-Permitted, Permitted-evaluate,
  decide, decide_other, decide_temp_table, decide_tree, is_single_statement, is_transaction,
  one_statement,
}
use quackridge.Errors.Defs.{GoError, wrapped, deadline_exceeded, public_part, PublicPart, classify}
use quackridge.Errors.Classify.{fixed_messages, classify_public}

-- A base table `orders` of the catalog `crm`.
abbrev orders : Fields
orders = field (lit "type") (string (lit "BASE_TABLE")) (
    field (lit "catalog_name") (string (lit "crm"))
      (field (lit "table_name") (string (lit "orders")) done))

abbrev tree : Fields
tree = field (lit "statements") (array (item (object orders) end)) done

-- A parser for which every text is one statement and every serialized text decodes to the tree;
-- only a text that starts with S serializes.
abbrev toy : Parser
toy = record {
  count_statements = λ t. 1;
  prepares_transaction = λ t. has_prefix t (lit "B");
  serialize = λ t. if has_prefix t (lit "S") then some t else none;
  unmarshal = λ t. some tree;
  to_lower = ascii_lower;
}

abbrev select : Text
select = lit "SELECT 1"

allowed_select : (evaluate toy select).allowed ≡ true
unfolding evaluate lit is_single_statement decide select_tree has_prefix one_statement member
    text_eq count_items decide_tree inspect_tree every node_ok function_ok table_function_ok
    base_table_ok unsafe_object_name decide_other decide_temp_table is_transaction add_catalog
    add_to_set catalog_of collect_sources visit eat_char eat_word kelvin long_s name_char name_run
    or_replace short_name skip_space some_space starts_query temp_table_body allowed_table_functions
    forbidden_functions has_separator is_denied contains sort sort_insert contains_text has_suffix
    text_leb ascii_lower
allowed_select = refl

evaluate-Permitted_example :
    (length select ≤ maximum_length)
    × (toy.count_statements select ≡ 1)
    × Permitted toy select (evaluate toy select).sources
evaluate-Permitted_example = evaluate-Permitted toy select allowed_select

select_tree_run : select_tree toy select ≡ some (object tree)
unfolding select_tree has_prefix lit one_statement member text_eq count_items
select_tree_run = refl

inspect_tree_run : inspect_tree ascii_lower (object tree) ≡ true
unfolding inspect_tree every node_ok function_ok member text_eq lit table_function_ok base_table_ok
    unsafe_object_name has_separator contains_text ascii_lower has_suffix
inspect_tree_run = refl

Permitted-evaluate_example :
    evaluate toy select ≡ record { allowed = true; sources = collect_sources (object tree) }
unfolding length lit
Permitted-evaluate_example =
    Permitted-evaluate toy select (omega arith) (omega arith) refl
      (inl (object tree, select_tree_run, inspect_tree_run, refl))

inspect_tree_iff_example : (inspect_tree ascii_lower (object tree) ≡ true) ↔ (
    (node : Fields)
    → Within (object node) (object tree)
    → (function_ok ascii_lower node ≡ true)
      × (table_function_ok ascii_lower node ≡ true)
      × (base_table_ok ascii_lower node ≡ true))
inspect_tree_iff_example = inspect_tree_iff ascii_lower (object tree)

collect_sources_lem_example :
    IsSorted (collect_sources (object tree))
    × ((c : Text)
        → (contains (collect_sources (object tree)) c ≡ true)
          ↔ ((node : Fields) × Within (object node) (object tree) × (catalog_of node ≡ some c)))
collect_sources_lem_example = collect_sources_lem (object tree)

collected : collect_sources (object tree) ≡ lit "crm" ∷ []
unfolding collect_sources sort visit add_catalog catalog_of text_eq member lit add_to_set contains
collected = refl

abbrev temp : Text
temp = lit "CREATE TEMP TABLE qr_tmp_a1 AS SELECT 1"

temp_run : temp_table_body temp ≡ some select
unfolding temp_table_body eat_word lit eat_char skip_space some_space or_replace short_name name_run
    name_char kelvin starts_query
temp_run = refl

temp_table_body-Header_example : Splits Header temp select × Query select
temp_table_body-Header_example = temp_table_body-Header temp select temp_run

abbrev slow : GoError
slow = wrapped (lit "query") deadline_exceeded

classify_public_example :
    (p : PublicPart) × (public_part (classify ascii_lower slow) ≡ some p)
    × ((public_part slow ≡ some p) ⊎ ((public_part slow ≡ none) × In p.message fixed_messages))
classify_public_example = classify_public ascii_lower slow
