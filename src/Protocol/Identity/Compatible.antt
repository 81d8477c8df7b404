-- ===== src/Protocol/Identity/Compatible.antt =====
-- What ValidateIdentity accepts.
use quackridge.Prelude.{
  suc, ◌≤◌, ◌≡◌, refl, ◌↔◌, inl, inr, Bool, true, false, none, some, List, [], ◌∷◌, arith,
  if◌then◌else◌, Bool-cases, and_parts,
}
use quackridge.Prelude.Text.{Text, lit, text_eq, text_eq_iff}
use quackridge.Prelude.Lists.{length, contains}
use quackridge.Version.{product, capabilities}
use quackridge.Protocol.Identity.{
  Identity, connectors, current_identity, matches_version, texts_eq, has_all, validate_identity,
}
use quackridge.Errors.Defs.{GoError, is_code, protocol_mismatch, code_eq, public_part}

pub texts_eq_iff : (s t : List Text) → (texts_eq s t ≡ true) ↔ (s ≡ t)
unfolding texts_eq
texts_eq_iff [] [] = (λ _. refl, λ _. refl)
texts_eq_iff [] (b ∷ t) = (λ h. cc, λ h. cc)
texts_eq_iff (a ∷ s) [] = (λ h. cc, λ h. cc)
texts_eq_iff (a ∷ s) (b ∷ t) = ground (arith, texts_eq_iff s t, text_eq_iff a b)

-- Every refusal of ValidateIdentity has the protocol-mismatch code, so a client of another version
-- can tell it from other failures.
pub validate_identity-is_code :
    (i : Identity) (e : GoError) → validate_identity i ≡ some e → is_code e protocol_mismatch ≡ true
unfolding validate_identity is_code code_eq public_part
validate_identity-is_code i e h = ground arith

-- The list without the first occurrence of a text.
remove_first : Text → List Text → List Text
remove_first t [] = []
remove_first t (y ∷ ys) = if text_eq y t then ys else y ∷ remove_first t ys

contains-remove_first :
    (t u : Text) (ys : List Text)
    → text_eq t u ≡ false
    → contains (remove_first t ys) u ≡ contains ys u
unfolding remove_first contains
contains-remove_first t u [] h = refl
contains-remove_first t u (y ∷ ys) h =
    ground (arith, contains-remove_first t u ys, text_eq_iff y t, text_eq_iff y u, text_eq_iff t u)

length-remove_first :
    (t : Text) (ys : List Text)
    → contains ys t ≡ true
    → length ys ≡ suc (length (remove_first t ys))
unfolding remove_first contains
length-remove_first t [] h = cc
length-remove_first t (y ∷ ys) h = ground (arith, length-remove_first t ys)

-- No text stands twice in the list.
abbrev pub Nodup : List Text → Type 0
Nodup [] = Unit
Nodup (t ∷ ts) = (contains ts t ≡ false) × Nodup ts

has_all-remove_first :
    (t : Text) (given ts : List Text)
    → contains ts t ≡ false
    → has_all given ts ≡ true
    → has_all (remove_first t given) ts ≡ true
unfolding has_all contains
has_all-remove_first t given [] h k = refl
has_all-remove_first t given (u ∷ ts) h k = ground (
  arith,
  has_all-remove_first t given ts,
  contains-remove_first t u given,
  text_eq_iff u t,
  text_eq_iff t u,
)

length-has_all :
    (given ts : List Text) → Nodup ts → has_all given ts ≡ true → length ts ≤ length given
unfolding has_all
length-has_all given [] n h = omega arith
length-has_all given (t ∷ ts) (m, n) h =
    let k = and_parts (contains given t) (has_all given ts) h in
    omega (
      arith,
      length-remove_first t given k.0,
      length-has_all (remove_first t given) ts n (has_all-remove_first t given ts m k.1),
    )

-- A list of the length of another, which it covers and which repeats nothing, has no other text.
no_other :
    (given ts : List Text) (t : Text)
    → Nodup ts
    → length given ≡ length ts
    → has_all given ts ≡ true
    → contains given t ≡ true
    → contains ts t ≡ true
no_other given ts t n same h k = elim (Bool-cases (contains ts t)) [
  | inl e ↦ e
  | inr e ↦ absurd (
      omega (
        arith,
        length-remove_first t given k,
        length-has_all (remove_first t given) ts n (has_all-remove_first t given ts e h),
      ))
]

has_all-contains :
    (given ts : List Text) (t : Text)
    → has_all given ts ≡ true
    → contains ts t ≡ true
    → contains given t ≡ true
unfolding has_all contains
has_all-contains given [] t h k = cc
has_all-contains given (u ∷ ts) t h k = ground (arith, has_all-contains given ts t, text_eq_iff u t)

bool_eq : (a b : Bool) → (a ≡ true → b ≡ true) → (b ≡ true → a ≡ true) → a ≡ b
bool_eq a b f g = ground arith

capabilities-Nodup : Nodup capabilities
unfolding capabilities contains text_eq lit
capabilities-Nodup = (refl, (refl, (refl, (refl, (refl, tt)))))

-- ValidateIdentity accepts only an identity that is this protocol's: every field but the product
-- version is that of CurrentIdentity, the capabilities up to their order, and the product version
-- has the form of one.
pub validate_identity_lem :
    (i : Identity) (version : Text)
    → validate_identity i ≡ none
    → (matches_version i.product_version ≡ true)
      × (i ≡ record (current_identity version) {
        product_version = i.product_version;
        capability_set = i.capability_set;
      })
      × (length i.capability_set ≡ length capabilities)
      × ((t : Text) → contains i.capability_set t ≡ contains capabilities t)
unfolding validate_identity current_identity
validate_identity_lem i version h =
    let every : has_all i.capability_set capabilities ≡ true = ground arith in
    let same : length i.capability_set ≡ length capabilities = ground arith in
    (
      ground arith,
      ground (arith, text_eq_iff i.product_name product, texts_eq_iff i.connector_types connectors),
      same,
      λ t.
          bool_eq (contains i.capability_set t) (contains capabilities t)
            (no_other i.capability_set capabilities t capabilities-Nodup same every)
            (has_all-contains i.capability_set capabilities t every),
    )
