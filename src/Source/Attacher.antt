-- ===== src/Source/Attacher.antt =====
-- The Attacher interfaces of filedb.go, postgres.go and mysql.go over a state E, in one, and what
-- the adapters share: their first checks, the network, and the functions of package strings.
use quackridge.Prelude.{Bool, not, ◌||◌, Option, none, some, List, ◌++◌, ltb, if◌then◌else◌}
use quackridge.Prelude.Text.{Text, lit, is_empty}
use quackridge.Prelude.Int.{ℤ, is_not_positive, itoa, natural_part}
use quackridge.Errors.Defs.{GoError, foreign, wrapped}
use quackridge.Errors.Result.{Result, ok, err}
use quackridge.Engine.Sql.{escape, single}
use quackridge.Engine.Runtime.{Attachment, ObjectType}
use quackridge.Source.{Definition}
use quackridge.Source.Alias.{matches_alias}
use quackridge.Source.Rows.{Rows, Scanned, read_rows}

pub record Attacher (E : Type 0) : Type 0 where
  pub attach : Attachment → E → Option GoError × E
  pub detach : (alias id : Text) → E → Option GoError × E
  pub register_object_types : (id : Text) → List ObjectType → E → Option GoError × E
  pub update_database_type : (id database_type : Text) → E → Option GoError × E
  -- Query of the metadata relation and of a list of objects; QueryRow into a text, a number, and
  -- the five attributes of a role.
  pub query_metadata : (id : Text) → E → Result (Rows Scanned)
  pub query_objects : Text → E → Result (Rows ObjectType)
  pub read_text : Text → E → Result Text
  pub read_number : Text → E → Result ℤ
  pub read_flags : Text → E → Result (List Bool)

-- os.Stat, filepath.IsAbs, the dial with its close, strings.ToLower and strings.ToUpper, and a
-- pattern's text.
pub record Surroundings : Type 0 where
  pub stat : Text → Option GoError
  pub is_regular : Text → Bool
  pub is_abs : Text → Bool
  pub dial : (host port : Text) → Option GoError
  pub close_dialed : (host port : Text) → Option GoError
  pub to_lower : Text → Text
  pub to_upper : Text → Text

-- `if err := f(…); err != nil { return err }` of a check.
infixr 5 ◌then_check◌
abbrev pub ◌then_check◌ : Option GoError → Option GoError → Option GoError
a then_check b = elim a [ some e ↦ some e | none ↦ b ]

abbrev pub fails_if : Bool → Text → Option GoError
fails_if test message = if test then some (foreign message) else none

-- The checks that every Validate starts with; the pattern's text is aliasPattern.
unfoldable pub validate_names : Definition → Option GoError
validate_names d =
    fails_if (is_empty d.id || is_empty d.name) (lit "source id and name are required")
    then_check fails_if (not (matches_alias d.alias))
        (lit "alias must match ^[a-z][a-z0-9_]{0,62}$")

abbrev pub bad_port : ℤ → Bool
bad_port port = is_not_positive port || ltb 65535 (natural_part port)

-- The dial that postgres.go and mysql.go end their Validate with.
unfoldable pub check_connectivity :
    Surroundings → (prefix : Text) → (host : Text) → (port : ℤ) → Option GoError
check_connectivity s prefix host port = elim (s.dial host (itoa port)) [
  | some e ↦ some (wrapped prefix e)
  | none ↦ s.close_dialed host (itoa port)
]

-- A call of postgres_query or mysql_query on the source: the function with its opening, the quoted
-- alias, and the rest.
unfoldable pub remote_query : (opening : Text) → (alias : Text) → (rest : Text) → Text
remote_query opening alias rest = opening ++ (escape single alias ++ rest)

module _ {E : Type 0} (attacher : Attacher E) where
  open attacher use {detach, query_objects, register_object_types}

  -- `if err := step; err != nil { _ = a.engine.Detach(…); return err }`
  unfoldable pub or_detach : Definition → Option GoError × E → Option GoError × E
  or_detach d (none, e) = (none, e)
  or_detach d (some x, e) = (some x, (detach d.alias d.id e).1)

  -- registerObjectTypes of postgres.go and mysql.go, by its last and its first test.
  unfoldable pub store_objects : Definition → E → Result (List ObjectType) → Option GoError × E
  store_objects d e (err x) = (some x, e)
  store_objects d e (ok objects) = register_object_types d.id objects e

  unfoldable pub store_rows :
      (prefix : Text) → Definition → E → Result (Rows ObjectType) → Option GoError × E
  store_rows prefix d e (err x) = (some (wrapped prefix x), e)
  store_rows prefix d e (ok rows) = store_objects d e (read_rows (λ (o : ObjectType). o) rows)

  unfoldable pub register_remote :
      (prefix : Text) → (query : Text) → Definition → E → Option GoError × E
  register_remote prefix query d e = store_rows prefix d e (query_objects query e)
