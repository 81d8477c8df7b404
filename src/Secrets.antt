-- ===== src/Secrets.antt =====
-- internal/secrets/secrets.go: the in-memory store and the one over environment variables. A text
-- is a value, so the copies that Put and Get make of the bytes are the texts themselves, and `clear`,
-- which wipes bytes that no caller holds, has nothing to act on. `to_upper` is
-- strings.ToUpper and `runes` the decoding of a string by `range`.
use quackridge.Prelude.{
  ℕ, ◌≡◌, refl, Bool, not, ◌&&◌, ◌||◌, Option, none, some, List, [], ◌∷◌, ◌++◌, arith, leb,
  if◌then◌else◌, is_some,
}
use quackridge.Prelude.Text.{Text, lit, text_eq, text_eq_iff, is_empty}
use quackridge.Prelude.Maps.{Map, lookup, remove, insert, lookup-insert, lookup-remove}
use quackridge.Errors.Defs.{GoError, foreign}
use quackridge.Errors.Result.{Result, ok, err}
use quackridge.Source.Alias.{is_digit}

abbrev pub not_found : GoError
not_found = foreign (lit "credential not found")

abbrev pub read_only_store : GoError
read_only_store = foreign (lit "credential store is read-only")

-- Memory.Get
unfoldable pub memory_get : Text → Map Text → Result Text
memory_get reference values = elim (lookup reference values) [
  | none ↦ err not_found
  | some value ↦ ok value
]

-- Memory.Put
unfoldable pub memory_put : (reference value : Text) → Map Text → Map Text × Option GoError
memory_put reference value values =
    if is_empty reference || is_empty value
    then (values, some (foreign (lit "credential reference and value are required")))
    else (insert reference value values, none)

-- Memory.Delete
unfoldable pub memory_delete : (reference : Text) → Map Text → Map Text × Option GoError
memory_delete reference values =
    if is_some (lookup reference values)
    then (remove reference values, none)
    else (values, some not_found)

abbrev pub is_upper : ℕ → Bool
is_upper c = leb b'A' c && leb c b'Z'

-- The loop of Environment.key.
unfoldable pub key_runes : List ℕ → Text
key_runes [] = []
key_runes (c ∷ rest) = (if is_upper c || is_digit c then c else b'_') ∷ key_runes rest

-- Environment.key
unfoldable pub environment_key :
    (to_upper : Text → Text) → (runes : Text → List ℕ) → (prefix reference : Text) → Text
environment_key to_upper runes prefix reference =
    (if is_empty prefix then lit "QUACKRIDGE_SECRET_" else prefix)
    ++ key_runes (runes (to_upper reference))

-- Environment.Get; `variables` is os.LookupEnv.
unfoldable pub environment_get : (variables : Text → Option Text) → (key : Text) → Result Text
environment_get variables key = elim (variables key) [
  | none ↦ err not_found
  | some value ↦ if is_empty value then err not_found else ok value
]

-- A call of Put or Delete.
pub data Call : Type 0 where
  put : (reference value : Text) → Call
  delete : (reference : Text) → Call

unfoldable pub after_call : Call → Map Text → Map Text × Option GoError
after_call (put reference value) values = memory_put reference value values
after_call (delete reference) values = memory_delete reference values

-- The store after some calls from an empty one, the last call first.
unfoldable pub replay : List Call → Map Text
replay [] = []
replay (c ∷ earlier) = (after_call c (replay earlier)).0

-- What is stored under a reference, by the history alone: the value of the last Put for it with a
-- reference and a value that are not empty, unless a Delete of it came later.
unfoldable pub latest : Text → List Call → Option Text
latest r [] = none
latest r (put j value ∷ earlier) =
    let before = latest r earlier in
    if text_eq j r && not (is_empty j) && not (is_empty value) then some value else before
latest r (delete j ∷ earlier) =
    let before = latest r earlier in if text_eq j r then none else before

-- Whether the next call is refused, by the history alone.
unfoldable pub refused : Call → List Call → Bool
refused (put j value) earlier = is_empty j || is_empty value
refused (delete j) earlier = not (is_some (latest j earlier))

lookup-replay : (r : Text) (calls : List Call) → lookup r (replay calls) ≡ latest r calls
unfolding replay after_call latest memory_put memory_delete lookup
lookup-replay r [] = refl
lookup-replay r (put j value ∷ earlier) =
    ground (arith, lookup-replay r earlier, lookup-insert j r value (replay earlier))
lookup-replay r (delete j ∷ earlier) =
    ground (arith, lookup-replay r earlier, lookup-remove j r (replay earlier), text_eq_iff j r)

-- After any calls of Put and Delete, refused ones among them, Get returns the value that the history
-- says is stored under its reference, or that none is; and the next Put is refused exactly if its
-- reference or its value is empty, the next Delete exactly if nothing is stored under its reference.
pub memory_lem :
    (calls : List Call) (r : Text) (c : Call)
    → (memory_get r (replay calls)
        ≡ elim (latest r calls) [ none ↦ err not_found | some value ↦ ok value ])
      × (is_some (after_call c (replay calls)).1 ≡ refused c calls)
unfolding memory_get after_call refused memory_put memory_delete
memory_lem calls r (put j value) = (rw (lookup-replay r calls, memory_get) refl, ground arith)
memory_lem calls r (delete j) =
    (rw (lookup-replay r calls, memory_get) refl, ground (arith, lookup-replay j calls))
