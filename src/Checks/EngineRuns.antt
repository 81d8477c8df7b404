-- ===== src/Checks/EngineRuns.antt =====
-- Runs of internal/engine and internal/control.
use quackridge.Version.{capabilities, duckdb_version, extension_versions, product}
use quackridge.Prelude.Sort.{sort, sort_insert}
use quackridge.Prelude.{
  ℕ, suc, ◌≡◌, refl, ap, ◌⊎◌, true, false, Option, none, some, List, [], ◌∷◌, ◌++◌, if◌then◌else◌,
  is_some,
}
use quackridge.Prelude.Text.{
  Text, lit, text_eq, has_prefix, contains_text, text_leb, ascii_lower, ascii_upper,
}
use quackridge.Prelude.Lists.{contains}
use quackridge.Prelude.Maps.{Map, lookup, insert}
use quackridge.Prelude.Int.{pos}
use quackridge.Errors.Defs.{
  GoError, public_part, foreign, internal, wrapped, any_of, as_public, auth_phrases, classify,
  classify_text, code_text, error_text, is_canceled, is_deadline, policy_phrases, public_text,
  resource_phrases, source_phrases, with_cause,
}
use quackridge.Errors.Result.{Result, ok, err}
use quackridge.Service.Defs.{stopped_status}
use quackridge.Source.Alias.{valid_identifier, all_word}
use quackridge.Engine.Sql.{
  single, attach_statement, attach_options, allowed_options, create_secret_statement,
  quote_string_list, validate_version_pair, escape, join_comma, mysql_options, normalize,
  postgres_options, quote_identifier, quote_items, quoted, secret_part, secret_text, trim_v,
  version_differs,
}
use quackridge.Engine.Sql.Quote.{read_quoted, read-attach_statement}
use quackridge.Engine.Runtime.{
  Statement, insert_object, Driver, Attachment, ObjectType, Engine, attach, attach_catalog,
  attach_credential, attach_live, attach_metadata, attach_objects, ensure_connector_extension,
  extension_of, while_running, not_running, quack_serve,
}
use quackridge.Engine.Runtime.Metadata.{
  detach, register_object_types, rotate_token, end_transaction, insert_objects, replace_objects,
}
use quackridge.Engine.Runtime.Outcome.{
  Attempted, IsTransactional, attach-Attempted, detach_lem, stopping_old, serving_new,
  rotate_token_lem, register_object_types_rolls_back,
}
use quackridge.Control.{
  Request, Backend, failure, handle, reload_response, configuration_response, diagnostics_response,
  dispatch, pair_response, public_failure, rotate_response, seconds, signed, status_response,
  version_response,
}
use quackridge.Control.Answers.{Answered, handle-Answered}

-- A connection text with quotes in it does not end its literal.
abbrev tricky : Text
tricky = lit "a' AS x; --"

read-attach_statement_example :
    (body : Text) × (attach_statement tricky (lit "crm") (lit "duckdb") (lit "s") false true false
      ≡ lit "ATTACH '" ++ body)
    × (read_quoted single false body
        ≡ some (tricky, attach_options (lit "crm") (lit "duckdb") (lit "s") false true false))
read-attach_statement_example =
    read-attach_statement tricky (lit "crm") (lit "duckdb") (lit "s") false true false

statement_run :
    attach_statement (lit "a'b") (lit "crm") (lit "duckdb") [] false true false
    ≡ lit "ATTACH 'a''b' AS \"crm\" (TYPE \"duckdb\", READ_ONLY)"
unfolding attach_statement lit quoted escape attach_options quote_identifier
statement_run = refl

list_run : quote_string_list (lit "/a" ∷ [] ∷ lit "/b" ∷ []) ≡ lit "['/a', '/b']"
unfolding quote_string_list lit join_comma quote_items quoted escape
list_run = refl

abbrev options : Map Text
options = (lit "host", lit "db") ∷ (lit "Password", lit "it's") ∷ []

abbrev secret : Text
secret = lit "CREATE OR REPLACE SECRET \"s\" (TYPE postgres, HOST 'db', PASSWORD 'it''s')"

secret_run : create_secret_statement ascii_upper (lit "s") (lit "postgres") options ≡ ok secret
unfolding create_secret_statement valid_identifier lit all_word normalize contains allowed_options
    text_eq postgres_options ascii_upper lookup insert secret_text quote_identifier quoted escape
    join_comma sort mysql_options secret_part sort_insert text_leb
secret_run = refl

version_run :
    validate_version_pair
      (lit "v1.5.5")
      ((lit "quack", lit "c154811") ∷ (lit "httpfs", lit "827222f") ∷ [])
    ≡ none
unfolding validate_version_pair text_eq trim_v lit duckdb_version version_differs lookup
    extension_versions
version_run = refl

-- A database that counts the statements it has executed, with a copy of the count for each open
-- transaction; it refuses objects without a schema.
abbrev Counts : Type 0
Counts = List ℕ

abbrev bump : Counts → Counts
bump [] = []
bump (n ∷ rest) = suc n ∷ rest

abbrev drop_copy : Counts → Counts
drop_copy [] = []
drop_copy (n ∷ rest) = rest

abbrev top : Counts → ℕ
top [] = 0
top (n ∷ rest) = n

abbrev refusal : Statement → Option GoError
refusal (insert_object id [] name kind) = some (foreign (lit "schema is empty"))
refusal _ = none

abbrev toy : Driver Counts
toy = record {
  exec = λ s d. (refusal s, bump d);
  extension_version = λ t d. ok (lit "1");
  begin = λ d. (none, top d ∷ d);
  commit = λ d. (none, d);
  rollback = λ d. drop_copy d;
  odbc_connect = λ c u p d. (ok (pos 7), d);
  close_odbc = λ h d. (none, d);
  stat = λ t. none;
  is_regular = λ t. true;
  join_path = λ a b. a ++ b;
  to_upper = ascii_upper;
  equal_fold = λ a b. text_eq a b;
}

abbrev IsCopy : Counts → Counts → Type 0
IsCopy d t = (n : ℕ) × (t ≡ n ∷ d)

toy-IsTransactional : IsTransactional toy IsCopy
toy-IsTransactional = record {
  begin_fails = λ d h. cc;
  begins = λ d h. (top d, refl);
  executes = λ d t s (n, e). (suc n, ap bump e);
  commit_fails = λ d t p h. cc;
  rolls_back = λ d t (n, e). ap drop_copy e;
}

abbrev objects : List ObjectType
objects =
    record { schema = lit "main"; name = lit "t"; kind = lit "table" }
    ∷ record { schema = []; name = lit "v"; kind = lit "view" }
    ∷ []

refused_objects : is_some (register_object_types toy (lit "1") objects (5 ∷ [])).0 ≡ true
unfolding register_object_types end_transaction replace_objects insert_objects text_eq lit
refused_objects = refl

register_object_types_rolls_back_example :
    (register_object_types toy (lit "1") objects (5 ∷ [])).1 ≡ 5 ∷ []
register_object_types_rolls_back_example =
    register_object_types_rolls_back toy IsCopy toy-IsTransactional (lit "1") objects (5 ∷ [])
      refused_objects

abbrev engine : Engine Counts
engine = record {
  memory = record {
    endpoint = lit "quack:127.0.0.1:9494";
    token = lit "t";
    extension_dir = lit "/opt/";
    loaded = lit "httpfs" ∷ lit "quack" ∷ [];
    odbc_handles = (lit "2", pos 7) ∷ [];
    resolver = [];
    sources = [];
  };
  db = some (0 ∷ []);
}

abbrev crm : Attachment
crm = record {
  id = lit "1";
  name = lit "CRM";
  alias = lit "crm";
  kind = lit "duckdb";
  database_type = [];
  connection = lit "/data/crm.db";
  secret = [];
  read_only = true;
}

attach-Attempted_example :
    Attempted crm engine.memory.sources
      (attach toy crm engine).1.memory.sources
      (attach toy crm engine).0
attach-Attempted_example = attach-Attempted toy crm engine

attached : (attach toy crm engine).0 ≡ none
unfolding attach while_running attach_live valid_identifier lit all_word ensure_connector_extension
    extension_of text_eq attach_credential attach_catalog attach_metadata attach_objects
attached = refl

detach_lem_example :
    (((detach toy (lit "crm") (lit "2") engine).0 ≡ none)
      × ((j : Text)
          → (lookup j (detach toy (lit "crm") (lit "2") engine).1.memory.sources
              ≡ (if text_eq (lit "2") j then none else lookup j engine.memory.sources))
            × (lookup j (detach toy (lit "crm") (lit "2") engine).1.memory.odbc_handles
                ≡ (if text_eq (lit "2") j then none else lookup j engine.memory.odbc_handles))
            × (lookup j (detach toy (lit "crm") (lit "2") engine).1.memory.resolver
                ≡ (if text_eq (lit "2") j then none else lookup j engine.memory.resolver))))
    ⊎ ((is_some (detach toy (lit "crm") (lit "2") engine).0 ≡ true)
        × ((detach toy (lit "crm") (lit "2") engine).1.memory ≡ engine.memory))
detach_lem_example = detach_lem toy (lit "crm") (lit "2") engine

rotate_token_lem_example :
    let m = engine.memory in
    let d : Counts = 0 ∷ [] in
    ((stopping_old toy m d).0 ≡ none
      → (serving_new toy m (lit "new") d).0 ≡ none
      → rotate_token toy (ok (lit "new")) (record { memory = m; db = some d }) ≡ (
        none,
        record {
          memory = record m { token = lit "new" };
          db = some (serving_new toy m (lit "new") d).1;
        },
      ))
    × ((stopping_old toy m d).0 ≡ none
        → is_some (serving_new toy m (lit "new") d).0 ≡ true
        → (is_some (rotate_token toy (ok (lit "new")) (record { memory = m; db = some d })).0
            ≡ true)
          × ((rotate_token toy (ok (lit "new")) (record { memory = m; db = some d })).1 ≡ record {
            memory = m;
            db =
                some
                  (toy.exec (quack_serve m.endpoint m.token) (serving_new toy m (lit "new") d).1).1;
          }))
    × (is_some (stopping_old toy m d).0 ≡ true
        → (is_some (rotate_token toy (ok (lit "new")) (record { memory = m; db = some d })).0
            ≡ true)
          × ((rotate_token toy (ok (lit "new")) (record { memory = m; db = some d })).1
              ≡ record { memory = m; db = some (stopping_old toy m d).1 }))
    × ((e : GoError) (r : Engine Counts)
        → (is_some (rotate_token toy (err e) r).0 ≡ true) × ((rotate_token toy (err e) r).1 ≡ r))
    × ((random : Result Text)
        → rotate_token toy random (record { memory = m; db = none })
          ≡ (some not_running, record { memory = m; db = none }))
rotate_token_lem_example = rotate_token_lem toy (lit "new") engine.memory (0 ∷ [])

-- A backend whose reload fails with an error of a library.
abbrev lost : GoError
lost = wrapped (lit "reload") (foreign (lit "host=10.0.0.5 password=pw"))

abbrev backend : Backend ℕ
backend = record {
  status = λ b. stopped_status;
  reload = λ b. (some lost, b);
  pairing = none;
  management = none;
}

abbrev reload_request : Request
reload_request = record {
  version = pos 1;
  operation = lit "reload";
  origins = [];
  ttl_seconds = pos 0;
}

handle-Answered_example :
    Answered (handle backend ascii_lower (lit "1.0.0") (some reload_request) 0).0
handle-Answered_example = handle-Answered backend ascii_lower (lit "1.0.0") (some reload_request) 0

reload_hides :
    (handle backend ascii_lower (lit "1.0.0") (some reload_request) 0).0
    ≡ some (failure internal (lit "query failed"))
unfolding handle dispatch text_eq lit reload_response public_failure public_part classify as_public
    is_deadline is_canceled with_cause classify_text any_of resource_phrases contains_text
    ascii_lower error_text configuration_response diagnostics_response failure pair_response
    rotate_response seconds signed status_response version_response auth_phrases code_text
    policy_phrases public_text source_phrases has_prefix capabilities product
reload_hides = refl
