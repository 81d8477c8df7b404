-- ===== src/Prelude/Text.antt =====
-- Go strings and byte slices: lists of bytes, as `len`, indexing and slicing see them, and what
-- the code uses of package strings on them.
use Prim.Native.Nat.{ℕ, ◌+◌, ◌-◌}
use Prim.Native.Char.{code}
use Prim.Native.String.{String}
use mathlib.Core.Path.{◌≡◌, refl}
use mathlib.Core.Logic.{◌↔◌}
use mathlib.Core.Bool.{Bool, true, false, ◌&&◌, ◌||◌}
use mathlib.Core.List.{List, [], ◌∷◌, ◌++◌}
use native.Mathlib.Omega.{arith}
use quackridge.Prelude.Tests.{leb, ltb, ◌==◌, if◌then◌else◌}

abbrev pub Text : Type 0
Text = List ℕ

-- A literal of the source; all of them are ASCII.
unfoldable pub lit : String → Text
lit String.[] = []
lit (String.◌∷◌ c s) = code c ∷ lit s

unfoldable pub text_eq : Text → Text → Bool
text_eq [] [] = true
text_eq [] (_ ∷ _) = false
text_eq (_ ∷ _) [] = false
text_eq (a ∷ s) (b ∷ t) = a == b && text_eq s t

pub text_eq_iff : (s t : Text) → (text_eq s t ≡ true) ↔ (s ≡ t)
unfolding text_eq
text_eq_iff [] [] = (λ _. refl, λ _. refl)
text_eq_iff [] (b ∷ t) = (λ h. cc, λ h. cc)
text_eq_iff (a ∷ s) [] = (λ h. cc, λ h. cc)
text_eq_iff (a ∷ s) (b ∷ t) = ground (arith, text_eq_iff s t)

pub text_eq_refl : (s : Text) → text_eq s s ≡ true
text_eq_refl s = (text_eq_iff s s).1 refl

abbrev pub is_empty {ℓ} : {A : Type ℓ} → List A → Bool
is_empty [] = true
is_empty (_ ∷ _) = false

-- strings.HasPrefix
unfoldable pub has_prefix : Text → Text → Bool
has_prefix s [] = true
has_prefix [] (_ ∷ _) = false
has_prefix (a ∷ s) (p ∷ ps) = a == p && has_prefix s ps

-- strings.Contains
unfoldable pub contains_text : Text → Text → Bool
unfolding has_prefix
contains_text [] p = is_empty p
contains_text (a ∷ s) p = has_prefix (a ∷ s) p || contains_text s p

-- strings.HasSuffix: some tail of the text is the suffix.
unfoldable pub has_suffix : Text → Text → Bool
unfolding text_eq
has_suffix [] p = is_empty p
has_suffix (a ∷ s) p = text_eq (a ∷ s) p || has_suffix s p

-- strings.ReplaceAll for a pattern of one byte.
unfoldable pub replace_byte : ℕ → Text → Text → Text
replace_byte c by [] = []
replace_byte c by (a ∷ s) = if a == c then by ++ replace_byte c by s else a ∷ replace_byte c by s

-- Bytewise order, as slices.Sort and strings.Compare use it: `text_leb s t` is s <= t.
unfoldable pub text_leb : Text → Text → Bool
text_leb [] t = true
text_leb (_ ∷ _) [] = false
text_leb (a ∷ s) (b ∷ t) = if a == b then text_leb s t else ltb a b

-- ASCII case mapping. strings.ToLower agrees with it on ASCII texts; elsewhere it is a parameter.
unfoldable pub ascii_lower : Text → Text
ascii_lower [] = []
ascii_lower (c ∷ s) = (if leb b'A' c && leb c b'Z' then c + 32 else c) ∷ ascii_lower s

unfoldable pub ascii_upper : Text → Text
ascii_upper [] = []
ascii_upper (c ∷ s) = (if leb b'a' c && leb c b'z' then c - 32 else c) ∷ ascii_upper s
