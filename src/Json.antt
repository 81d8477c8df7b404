-- ===== src/Json.antt =====
-- What encoding/json decodes into `any`: the values that the policy and the configuration inspect.
use quackridge.Prelude.{
  ℕ, suc, ◌≡◌, sym, ◌∙◌, ◌↔◌, inl, inr, Bool, true, false, ◌&&◌, Option, none, some, [], arith,
  if◌then◌else◌, Bool-cases, and_parts,
}
use mathlib.Core.Bool.{false≢true}
use quackridge.Prelude.Text.{Text, text_eq}

mutual
  pub data Value : Type 0 where
    null : Value
    boolean : Bool → Value
    number : Text → Value
    string : Text → Value
    array : Items → Value
    object : Fields → Value

  pub data Items : Type 0 where
    end : Items
    item : Value → Items → Items

  pub data Fields : Type 0 where
    done : Fields
    field : Text → Value → Fields → Fields

-- node[key]; nil for a missing key, as a JSON null.
unfoldable pub member : Text → Fields → Value
member k done = null
member k (field j v rest) = if text_eq j k then v else member k rest

-- value.(string) and its default
abbrev pub as_string : Value → Option Text
as_string (string s) = some s
as_string _ = none

abbrev pub string_or_empty : Value → Text
string_or_empty (string s) = s
string_or_empty _ = []

-- value.(map[string]any); a nil map reads as an empty one.
abbrev pub as_object : Value → Fields
as_object (object fs) = fs
as_object _ = done

-- value.(bool)
abbrev pub as_bool : Value → Bool
as_bool (boolean b) = b
as_bool _ = false

-- len(value.([]any))
unfoldable pub count_items : Items → ℕ
count_items end = 0
count_items (item _ rest) = suc (count_items rest)

abbrev pub array_length : Value → ℕ
array_length (array xs) = count_items xs
array_length _ = 0

-- `Within w v`: w is v or stands somewhere inside it, under arrays and objects.
mutual
  pub data Within (w : Value) : Value → Type 0 where
    itself : Within w w
    in_array : {xs : Items} → WithinItems w xs → Within w (array xs)
    in_object : {fs : Fields} → WithinFields w fs → Within w (object fs)

  pub data WithinItems (w : Value) : Items → Type 0 where
    here : {v : Value} {xs : Items} → Within w v → WithinItems w (item v xs)
    later : {v : Value} {xs : Items} → WithinItems w xs → WithinItems w (item v xs)

  pub data WithinFields (w : Value) : Fields → Type 0 where
    here_field : {k : Text} {v : Value} {fs : Fields} → Within w v → WithinFields w (field k v fs)
    later_field :
        {k : Text} {v : Value} {fs : Fields} → WithinFields w fs → WithinFields w (field k v fs)

-- A recursive inspection: a test of each object, made at every depth.
unfoldable mutual
  pub every : (Fields → Bool) → Value → Bool
  every test null = true
  every test (boolean b) = true
  every test (number n) = true
  every test (string s) = true
  every test (array xs) = every_item test xs
  every test (object fs) = test fs && every_field test fs

  pub every_item : (Fields → Bool) → Items → Bool
  every_item test end = true
  every_item test (item v xs) = every test v && every_item test xs

  pub every_field : (Fields → Bool) → Fields → Bool
  every_field test done = true
  every_field test (field k v fs) = every test v && every_field test fs

-- An inspection that passes has passed at every object inside.
abbrev Passes : (Fields → Bool) → Value → Type 0
Passes test (object fs) = test fs ≡ true
Passes test _ = Unit

Passes-self : (test : Fields → Bool) (v : Value) → every test v ≡ true → Passes test v
unfolding every
Passes-self test (object fs) h = (and_parts (test fs) _ h).0
Passes-self test _ h = tt

mutual
  unfolding every

  every-Within :
      (test : Fields → Bool) (w : Value) (v : Value)
      → Within w v
      → every test v ≡ true
      → Passes test w
  every-Within test w v itself h = Passes-self test v h
  every-Within test w v (in_array {xs = xs} i) h = every_item-Within test w xs i h
  every-Within test w v (in_object {fs = gs} i) h =
      every_field-Within test w gs i (and_parts (test gs) _ h).1

  every_item-Within :
      (test : Fields → Bool) (w : Value) (xs : Items)
      → WithinItems w xs
      → every_item test xs ≡ true
      → Passes test w
  every_item-Within test w xs (here {v = v} i) h = every-Within test w v i (and_parts _ _ h).0
  every_item-Within test w xs (later {v = v} {xs = ys} i) h =
      every_item-Within test w ys i (and_parts (every test v) _ h).1

  every_field-Within :
      (test : Fields → Bool) (w : Value) (gs : Fields)
      → WithinFields w gs
      → every_field test gs ≡ true
      → Passes test w
  every_field-Within test w gs (here_field {v = v} i) h =
      every-Within test w v i (and_parts _ _ h).0
  every_field-Within test w gs (later_field {v = v} {fs = hs} i) h =
      every_field-Within test w hs i (and_parts (every test v) _ h).1

-- An inspection that fails has failed at some object inside.
mutual
  unfolding every

  not_every-Within :
      (test : Fields → Bool) (v : Value)
      → every test v ≡ false
      → (fs : Fields) × Within (object fs) v × (test fs ≡ false)
  not_every-Within test null h = absurd (false≢true (sym h))
  not_every-Within test (boolean b) h = absurd (false≢true (sym h))
  not_every-Within test (number n) h = absurd (false≢true (sym h))
  not_every-Within test (string s) h = absurd (false≢true (sym h))
  not_every-Within test (array xs) h =
      let (fs, w, e) = not_every_item-Within test xs h in (fs, in_array w, e)
  not_every-Within test (object gs) h = elim (Bool-cases (test gs)) [
    | inl p ↦ let (fs, w, e) = not_every_field-Within test gs (ground arith) in (fs, in_object w, e)
    | inr p ↦ (gs, itself, p)
  ]

  not_every_item-Within :
      (test : Fields → Bool) (xs : Items)
      → every_item test xs ≡ false
      → (fs : Fields) × WithinItems (object fs) xs × (test fs ≡ false)
  not_every_item-Within test end h = absurd (false≢true (sym h))
  not_every_item-Within test (item v xs) h = elim (Bool-cases (every test v)) [
    | inl p ↦ let (fs, w, e) = not_every_item-Within test xs (ground arith) in (fs, later w, e)
    | inr p ↦ let (fs, w, e) = not_every-Within test v p in (fs, here w, e)
  ]

  not_every_field-Within :
      (test : Fields → Bool) (gs : Fields)
      → every_field test gs ≡ false
      → (fs : Fields) × WithinFields (object fs) gs × (test fs ≡ false)
  not_every_field-Within test done h = absurd (false≢true (sym h))
  not_every_field-Within test (field k v gs) h = elim (Bool-cases (every test v)) [
    | inl p ↦
        let (fs, w, e) = not_every_field-Within test gs (ground arith) in (fs, later_field w, e)
    | inr p ↦ let (fs, w, e) = not_every-Within test v p in (fs, here_field w, e)
  ]

-- An inspection passes exactly when its test passes at every object inside.
pub every_iff :
    (test : Fields → Bool) (v : Value)
    → (every test v ≡ true) ↔ ((fs : Fields) → Within (object fs) v → test fs ≡ true)
every_iff test v = (
  λ h fs w. every-Within test (object fs) v w h,
  λ h. elim (Bool-cases (every test v)) [
    | inl p ↦ p
    | inr p ↦ let (fs, w, e) = not_every-Within test v p in absurd (false≢true (sym e ∙ h fs w))
  ],
)

pub every_fails :
    (test : Fields → Bool) (v : Value)
    → every test v ≡ false
    → (fs : Fields) × Within (object fs) v × (test fs ≡ false)
every_fails test v h = not_every-Within test v h
