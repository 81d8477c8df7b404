-- ===== src/Config/Validate.antt =====
-- What a valid document is, apart from the order in which Validate looks.
use quackridge.Prelude.{
  ◌≡◌, refl, ◌∙◌, ◌↔◌, ◌⊎◌, inl, inr, Bool, true, false, ◌||◌, none, some, List, [], ◌∷◌, arith,
  if◌then◌else◌, Option-cases,
}
use quackridge.Prelude.Text.{Text, is_empty}
use quackridge.Prelude.Lists.{All, contains}
use quackridge.Prelude.Int.{pos}
use quackridge.Json.{
  Value, Fields, null, boolean, number, string, array, object, Within, every, every_iff,
}
use quackridge.Source.Alias.{matches_alias, valid_identifier, matches_alias-valid_identifier}
use quackridge.Config.Document.{
  Source, Document, Decoding, keys_ok, contains_secret_field, check_object, validate_options,
  validate_sources, validate,
}

-- No text of the list stands in the first list or twice in the second.
abbrev pub Apart : List Text → List Text → Type 0
Apart seen [] = Unit
Apart seen (t ∷ rest) = (contains seen t ≡ false) × Apart (t ∷ seen) rest

abbrev pub ids : List Source → List Text
ids [] = []
ids (s ∷ rest) = s.id ∷ ids rest

abbrev pub aliases : List Source → List Text
aliases [] = []
aliases (s ∷ rest) = s.alias ∷ aliases rest

-- The credential references that are not empty.
abbrev pub credential_refs : List Source → List Text
credential_refs [] = []
credential_refs (s ∷ rest) =
    if is_empty s.credential_ref
    then credential_refs rest
    else s.credential_ref ∷ credential_refs rest

-- The credential set of the loop, against the filtered list.
Apart-in :
    (b : Bool) (rs : List Text) (t : Text) (more : List Text)
    → (b ≡ true) ⊎ (contains rs t ≡ false)
    → Apart (if b then rs else t ∷ rs) more
    → Apart rs (if b then more else t ∷ more)
Apart-in true rs t more c w = w
Apart-in false rs t more (inl e) w = cc
Apart-in false rs t more (inr e) w = (e, w)

Apart-out :
    (b : Bool) (rs : List Text) (t : Text) (more : List Text)
    → Apart rs (if b then more else t ∷ more)
    → ((b ≡ true) ⊎ (contains rs t ≡ false)) × Apart (if b then rs else t ∷ rs) more
Apart-out true rs t more w = (inl refl, w)
Apart-out false rs t more (e, w) = (inr e, w)

module _ (decoding : Decoding) where
  -- A source by itself: named, with an alias that the engine takes, and options that are a JSON
  -- object in which no object at any depth has a secret key.
  pub record IsSound (s : Source) : Type 0 where
    pub has_id : is_empty s.id ≡ false
    pub has_name : is_empty s.name ≡ false
    pub has_kind : is_empty s.kind ≡ false
    pub identifier : valid_identifier s.alias ≡ true
    pub options_present : is_empty s.options ≡ false
    pub fields : Fields
    pub options_decode : decoding.decode s.options ≡ some (object fields)
    pub no_secrets :
        (node : Fields) → Within (object node) (object fields) → keys_ok decoding node ≡ true

  check_object_fields :
      (v : Value)
      → check_object decoding v ≡ none
      → (fs : Fields) × (v ≡ object fs) × (every (keys_ok decoding) (object fs) ≡ true)
  unfolding check_object contains_secret_field
  check_object_fields null h = cc
  check_object_fields (boolean b) h = cc
  check_object_fields (number n) h = cc
  check_object_fields (string s) h = cc
  check_object_fields (array xs) h = cc
  check_object_fields (object fs) h = (fs, refl, ground arith)

  options_fields :
      (raw : Text)
      → validate_options decoding raw ≡ none
      → (fs : Fields) × (decoding.decode raw ≡ some (object fs))
        × (is_empty raw ≡ false)
        × (every (keys_ok decoding) (object fs) ≡ true)
  unfolding validate_options
  options_fields raw h = elim (Option-cases (decoding.decode raw)) [
    | inl e ↦ absurd (ground arith)
    | inr (v, e) ↦
        let (fs, x, y) = check_object_fields v (ground arith) in (fs, rw e (rw x), ground arith, y)
  ]

  options_ok : (s : Source) → IsSound s → validate_options decoding s.options ≡ none
  unfolding validate_options check_object contains_secret_field
  options_ok s h =
      let e = (every_iff (keys_ok decoding) (object h.fields)).1 h.no_secrets in
      let d = h.options_decode in let p = h.options_present in ground arith

  source-IsSound :
      (s : Source)
      → (is_empty s.id || is_empty s.name || is_empty s.kind) ≡ false
      → matches_alias s.alias ≡ true
      → validate_options decoding s.options ≡ none
      → IsSound s
  source-IsSound s named alias options =
      let (fs, x, y, z) = options_fields s.options options in
      record {
        has_id = ground arith;
        has_name = ground arith;
        has_kind = ground arith;
        identifier = rw (← matches_alias-valid_identifier s.alias) alias;
        options_present = y;
        fields = fs;
        options_decode = x;
        no_secrets = (every_iff (keys_ok decoding) (object fs)).0 z;
      }

  -- What one round of the loop asks of a source.
  abbrev Round : (ids aliases refs : List Text) → Source → Type 0
  Round is al rs s =
      IsSound s
      × (contains is s.id ≡ false)
      × (contains al s.alias ≡ false)
      × ((is_empty s.credential_ref ≡ true) ⊎ (contains rs s.credential_ref ≡ false))

  round :
      (is al rs : List Text) (s : Source) (rest : List Source)
      → validate_sources decoding is al rs (s ∷ rest) ≡ none
      → Round is al rs s
        × (validate_sources decoding
              (s.id ∷ is)
              (s.alias ∷ al)
              (if is_empty s.credential_ref then rs else s.credential_ref ∷ rs)
              rest
            ≡ none)
  unfolding validate_sources
  round is al rs s rest h = (
    (
      source-IsSound s (ground arith) (ground arith) (ground arith),
      ground arith,
      ground arith,
      ground arith,
    ),
    ground arith,
  )

  Round-back :
      (is al rs : List Text) (s : Source) (rest : List Source)
      → Round is al rs s
      → validate_sources decoding is al rs (s ∷ rest)
        ≡ validate_sources decoding
            (s.id ∷ is)
            (s.alias ∷ al)
            (if is_empty s.credential_ref then rs else s.credential_ref ∷ rs)
            rest
  unfolding validate_sources
  Round-back is al rs s rest (sound, i, a, c) =
      let o = options_ok s sound in let e = matches_alias-valid_identifier s.alias in ground arith

  -- All that Validate asks of the sources, given what the earlier ones have used.
  abbrev pub AllSound : (is al rs : List Text) → List Source → Type 0
  AllSound is al rs sources =
      All IsSound sources
      × Apart is (ids sources)
      × Apart al (aliases sources)
      × Apart rs (credential_refs sources)

  validate_sources-AllSound :
      (is al rs : List Text) (sources : List Source)
      → validate_sources decoding is al rs sources ≡ none
      → AllSound is al rs sources
  validate_sources-AllSound is al rs [] h = (tt, tt, tt, tt)
  validate_sources-AllSound is al rs (s ∷ rest) h =
      let ((sound, i, a, c), next) = round is al rs s rest h in
      let (x, y, z, w) =
        validate_sources-AllSound (s.id ∷ is) (s.alias ∷ al)
          (if is_empty s.credential_ref then rs else s.credential_ref ∷ rs) rest next in
      (
        (sound, x),
        (i, y),
        (a, z),
        Apart-in (is_empty s.credential_ref) rs s.credential_ref (credential_refs rest) c w,
      )

  AllSound-validate_sources :
      (is al rs : List Text) (sources : List Source)
      → AllSound is al rs sources
      → validate_sources decoding is al rs sources ≡ none
  AllSound-validate_sources is al rs [] h = unfold validate_sources in refl
  AllSound-validate_sources is al rs (s ∷ rest) ((sound, x), (i, y), (a, z), w) =
      Round-back is al rs s rest (
        sound,
        i,
        a,
        (Apart-out (is_empty s.credential_ref) rs s.credential_ref (credential_refs rest) w).0,
      )
      ∙ AllSound-validate_sources (s.id ∷ is) (s.alias ∷ al)
          (if is_empty s.credential_ref then rs else s.credential_ref ∷ rs) rest
          (
            x,
            y,
            z,
            (Apart-out (is_empty s.credential_ref) rs s.credential_ref (credential_refs rest) w).1,
          )

  -- Validate accepts a document exactly when its version is 1, every source is sound, no two
  -- have one id or one alias, and no two share a credential reference that is not empty.
  pub validate_iff :
      (d : Document)
      → (validate decoding d ≡ none) ↔ ((d.version ≡ pos 1) × AllSound [] [] [] d.sources)
  unfolding validate
  validate_iff d = (
    λ h. (ground arith, validate_sources-AllSound [] [] [] d.sources (ground arith)),
    λ (v, h). let e = AllSound-validate_sources [] [] [] d.sources h in ground arith,
  )
