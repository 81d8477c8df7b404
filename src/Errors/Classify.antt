-- ===== src/Errors/Classify.antt =====
-- What ClassifyError promises its callers: a public error, the code kept, nothing leaked.
use quackridge.Prelude.{
  ◌≡◌, refl, ◌⊎◌, inl, inr, none, some, List, [], ◌∷◌, arith, Bool-cases, Option-cases,
}
use quackridge.Prelude.Text.{Text, lit}
use quackridge.Prelude.Lists.{In}
use quackridge.Errors.Defs.{
  cancelled, timeout, GoError, public, public_because, wrapped, joined, deadline_exceeded,
  context_canceled, foreign, PublicPart, as_public, public_part, error_text, is_deadline,
  is_canceled, classify_text, with_cause, classify,
}

pub as_public-none : (e : GoError) → as_public e ≡ none → public_part e ≡ none
unfolding as_public public_part
as_public-none (public c m) h = cc
as_public-none (public_because c m e) h = cc
as_public-none (wrapped t e) h = as_public-none e h
as_public-none (joined a b) h = ground (arith, as_public-none a, as_public-none b)
as_public-none deadline_exceeded h = refl
as_public-none context_canceled h = refl
as_public-none (foreign m) h = refl

-- The error that errors.As finds is an *Error with the chain's public part.
pub as_public-part :
    (e f : GoError)
    → as_public e ≡ some f
    → (p : PublicPart) × (as_public f ≡ some f)
      × (public_part f ≡ some p)
      × (public_part e ≡ some p)
unfolding as_public public_part
as_public-part (public c m) f h =
    (record { code = c; message = m }, ground arith, ground arith, refl)
as_public-part (public_because c m e) f h =
    (record { code = c; message = m }, ground arith, ground arith, refl)
as_public-part (wrapped t e) f h = as_public-part e f h
as_public-part (joined a b) f h = elim (Option-cases (as_public a)) [
  | inl n ↦
      let (p, x, y, z) = as_public-part b f (rw n at h) in (p, x, y, rw (as_public-none a n) z)
  | inr (g, e) ↦ let (p, x, y, z) = as_public-part a f (ground arith) in (p, x, y, rw z refl)
]
as_public-part deadline_exceeded f h = cc
as_public-part context_canceled f h = cc
as_public-part (foreign m) f h = cc

-- The messages that ClassifyError gives to errors that are not public yet.
abbrev pub fixed_messages : List Text
fixed_messages =
    lit "query timed out"
    ∷ lit "query cancelled"
    ∷ lit "query resource limit exceeded"
    ∷ lit "statement rejected by policy"
    ∷ lit "source is unavailable"
    ∷ lit "authentication failed"
    ∷ lit "query failed"
    ∷ []

classify_text-In : (t : Text) → In (classify_text t).message fixed_messages
unfolding classify_text
classify_text-In t = ground arith

-- An *Error in the chain is handed back as it is.
pub classify_found :
    (to_lower : Text → Text) (e f : GoError) → as_public e ≡ some f → classify to_lower e ≡ f
unfolding classify
classify_found to_lower e f found = ground arith

-- With no *Error in the chain a new one is made, with one of the fixed messages.
pub classify_fresh :
    (to_lower : Text → Text) (e : GoError)
    → as_public e ≡ none
    → (p : PublicPart) × (classify to_lower e ≡ public_because p.code p.message e)
      × In p.message fixed_messages
unfolding classify with_cause
classify_fresh to_lower e missing = elim (Bool-cases (is_deadline e)) [
  | inl d ↦ (record { code = timeout; message = lit "query timed out" }, ground arith, inl refl)
  | inr d ↦ elim (Bool-cases (is_canceled e)) [
    | inl c ↦
        (record { code = cancelled; message = lit "query cancelled" }, ground arith, inr (inl refl))
    | inr c ↦ (
      classify_text (to_lower (error_text e)),
      ground arith,
      classify_text-In (to_lower (error_text e)),
    )
  ]
]

module _ (to_lower : Text → Text) where
  -- ClassifyError of a non-nil error always has a public part. Where the chain holds an *Error the
  -- code and message are those of the first one; otherwise the message is one of seven fixed
  -- texts, whatever the error's own text was.
  pub classify_public :
      (e : GoError)
      → ((p : PublicPart) × (public_part (classify to_lower e) ≡ some p)
          × ((public_part e ≡ some p) ⊎ ((public_part e ≡ none) × In p.message fixed_messages)))
  unfolding public_part
  classify_public e = elim (Option-cases (as_public e)) [
    | inr (f, found) ↦
        let (p, x, y, z) = as_public-part e f found in
        (p, rw (classify_found to_lower e f found) y, inl z)
    | inl missing ↦
        let (p, x, y) = classify_fresh to_lower e missing in
        (p, rw x refl, inr (as_public-none e missing, y))
  ]

  -- Classifying twice is classifying once: the contract is stable as an error is passed on.
  pub classify_idem : (e : GoError) → classify to_lower (classify to_lower e) ≡ classify to_lower e
  unfolding as_public
  classify_idem e = elim (Option-cases (as_public e)) [
    | inr (f, found) ↦
        rw (classify_found to_lower e f found)
          (classify_found to_lower f f ((as_public-part e f found).1))
    | inl missing ↦
        let (p, x, y) = classify_fresh to_lower e missing in rw x (classify_found to_lower _ _ refl)
  ]
