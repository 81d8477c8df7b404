-- ===== src/Control/Answers.antt =====
-- What a client of the control socket is answered.
use quackridge.Prelude.{
  ◌≡◌, refl, ◌⊎◌, inl, inr, Bool, true, false, Option, none, some, [], arith, if◌then◌else◌,
  Option-cases, is_some,
}
use quackridge.Prelude.Text.{Text}
use quackridge.Prelude.Lists.{In}
use quackridge.Errors.Defs.{GoError, PublicPart, public_part}
use quackridge.Errors.Classify.{fixed_messages, classify_public}
use quackridge.Control.{
  Request, Response, Backend, control_version, failure, status_response, public_failure,
  reload_response, pair_response, rotate_response, configuration_response, diagnostics_response,
  version_response, dispatch, handle,
}

-- A response of version 1 that is a success without a code and a message, or a failure with a code
-- and no payload.
abbrev pub IsAnswer : Response → Type 0
IsAnswer r =
    (r.version ≡ control_version)
    × (((r.is_ok ≡ true) × (r.error_code ≡ none) × (r.message ≡ []))
        ⊎ ((r.is_ok ≡ false)
            × (is_some r.error_code ≡ true)
            × (r.status ≡ none)
            × (r.pairing ≡ none)
            × (r.configuration ≡ none)
            × (r.diagnostics ≡ none)
            × (r.version_info ≡ none)))

-- There is a response, and it is an answer.
abbrev pub Answered : Option Response → Type 0
Answered r = (x : Response) × (r ≡ some x) × IsAnswer x

module _ {B : Type 0} (backend : Backend B) (to_lower : Text → Text) (product_version : Text) where
  failure-IsAnswer : (code : _) (message : Text) → IsAnswer (failure code message)
  unfolding failure
  failure-IsAnswer code message = ground arith

  status_response-IsAnswer : (b : B) → IsAnswer (status_response backend to_lower product_version b)
  unfolding status_response
  status_response-IsAnswer b = ground arith

  reload_response-Answered :
      (b : B) → Answered (reload_response backend to_lower product_version b).0
  unfolding reload_response public_failure
  reload_response-Answered b = elim (Option-cases (backend.reload b).0) [
    | inl e ↦ (
      status_response backend to_lower product_version (backend.reload b).1,
      ground arith,
      status_response-IsAnswer _,
    )
    | inr (x, e) ↦
        let (p, q, r) = classify_public to_lower x in
        (failure p.code p.message, ground arith, failure-IsAnswer _ _)
  ]

  pair_response-IsAnswer :
      (request : Request) (b : B)
      → IsAnswer (pair_response backend to_lower product_version request b).0
  unfolding pair_response failure
  pair_response-IsAnswer request b = ground arith

  rotate_response-IsAnswer :
      (b : B) → IsAnswer (rotate_response backend to_lower product_version b).0
  unfolding rotate_response failure status_response
  rotate_response-IsAnswer b = ground arith

  configuration_response-IsAnswer :
      (b : B) → IsAnswer (configuration_response backend to_lower product_version b).0
  unfolding configuration_response failure
  configuration_response-IsAnswer b = ground arith

  diagnostics_response-IsAnswer :
      (b : B) → IsAnswer (diagnostics_response backend to_lower product_version b).0
  unfolding diagnostics_response failure
  diagnostics_response-IsAnswer b = ground arith

  version_response-IsAnswer : IsAnswer (version_response backend to_lower product_version)
  unfolding version_response
  version_response-IsAnswer = ground arith

  some_answer : (r : Response × B) → IsAnswer r.0 → Answered (some r.0)
  some_answer r h = (r.0, refl, h)

  either_Answered :
      (c : Bool) (x y : Option Response × B)
      → Answered x.0
      → Answered y.0
      → Answered (if c then x else y).0
  either_Answered true x y h k = h
  either_Answered false x y h k = k

  -- Every request gets an answer, a malformed one too, and no nil error is dereferenced on the way:
  -- the answer is of version 1 and a success without a code and a message, or a failure with a code
  -- and without a payload.
  pub handle-Answered :
      (request : Option Request) (b : B)
      → Answered (handle backend to_lower product_version request b).0
  unfolding handle dispatch
  handle-Answered none b = (_, refl, failure-IsAnswer _ _)
  handle-Answered (some request) b =
      either_Answered _ _ _ (_, refl, failure-IsAnswer _ _)
        (either_Answered _ _ _ (_, refl, status_response-IsAnswer b)
          (either_Answered _ _ _ (reload_response-Answered b) (
            either_Answered _ _ _ (_, refl, pair_response-IsAnswer request b)
              (either_Answered _ _ _ (_, refl, rotate_response-IsAnswer b)
                (either_Answered _ _ _ (_, refl, configuration_response-IsAnswer b)
                  (either_Answered _ _ _ (_, refl, diagnostics_response-IsAnswer b)
                    (either_Answered _ _ _ (_, refl, version_response-IsAnswer)
                      (_, refl, failure-IsAnswer _ _))))))))

  -- What a client learns of a Reload that fails: the message of the first *Error in the chain, or one
  -- of seven fixed texts, never the text of another error.
  pub reload_message :
      (b : B) (e : GoError)
      → (backend.reload b).0 ≡ some e
      → (p : PublicPart) × ((reload_response backend to_lower product_version b).0
          ≡ some (failure p.code p.message))
        × ((public_part e ≡ some p) ⊎ ((public_part e ≡ none) × In p.message fixed_messages))
  unfolding reload_response public_failure
  reload_message b e h = let (p, q, r) = classify_public to_lower e in (p, ground arith, r)
