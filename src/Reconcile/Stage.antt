-- ===== src/Reconcile/Stage.antt =====
-- manager.go fingerprint and stageAlias: what identifies a prepared source, and the temporary name
-- under which a replacement is tried. `sha256` is crypto/sha256.
use quackridge.Prelude.{
  ℕ, zero, suc, ◌+◌, ◌-◌, ◌*◌, ◌/◌, ◌%◌, ◌≤◌, ◌<◌, ◌≡◌, refl, true, List, [], ◌∷◌, ◌++◌, arith, ltb,
  if◌then◌else◌,
}
use quackridge.Prelude.Text.{Text, lit}
use quackridge.Prelude.Lists.{length, length-append, take, length-take-le}
use quackridge.Config.Document.{Source}
use quackridge.Source.Alias.{is_word, all_word, valid_identifier, all_word-append, all_word-take}

-- bytes.Join(parts, []byte{0})
unfoldable pub join_nul : List Text → Text
join_nul [] = []
join_nul (t ∷ []) = t
join_nul (t ∷ u ∷ rest) = t ++ (0 ∷ join_nul (u ∷ rest))

-- fingerprint
unfoldable pub fingerprint : (sha256 : Text → Text) → Source → (credential : Text) → Text
fingerprint sha256 s credential = sha256 (
    join_nul (
      s.id
      ∷ s.name
      ∷ s.alias
      ∷ s.kind
      ∷ s.database_type
      ∷ s.credential_ref
      ∷ s.options
      ∷ sha256 credential
      ∷ []))

-- A hexadecimal digit of hex.EncodeToString.
unfoldable pub hex_digit : ℕ → ℕ
hex_digit n = if ltb n 10 then b'0' + n else b'a' + (n - 10)

-- hex.EncodeToString
unfoldable pub hex : Text → Text
hex [] = []
hex (b ∷ s) = hex_digit (b / 16) ∷ hex_digit (b % 16) ∷ hex s

-- 63 - len("qr_stage__") - len(suffix)
unfoldable pub maximum_prefix : Text → ℕ
maximum_prefix suffix = 63 - length (lit "qr_stage__") - length suffix

-- stageAlias
unfoldable pub stage_alias : (alias : Text) → (print : Text) → Text
stage_alias alias print =
    let suffix = hex (take 4 print) in
    let kept =
      if ltb (maximum_prefix suffix) (length alias)
      then take (maximum_prefix suffix) alias
      else alias in
    lit "qr_stage_" ++ (kept ++ (b'_' ∷ suffix))

hex_digit-is_word : (n : ℕ) → n < 16 → is_word (hex_digit n) ≡ true
unfolding hex_digit
hex_digit-is_word n h = ground arith

-- All bytes are below 256.
abbrev pub AreBytes : Text → Type 0
AreBytes [] = Unit
AreBytes (b ∷ s) = (b < 256) × AreBytes s

all_word_cons : (c : ℕ) (s : Text) → is_word c ≡ true → all_word s ≡ true → all_word (c ∷ s) ≡ true
unfolding all_word
all_word_cons c s h k = ground arith

all_word-hex : (s : Text) → AreBytes s → all_word (hex s) ≡ true
unfolding hex
all_word-hex [] h = unfold all_word in refl
all_word-hex (b ∷ s) (h, r) =
    all_word_cons _ _ (hex_digit-is_word (b / 16) (omega arith))
      (all_word_cons _ _ (hex_digit-is_word (b % 16) (omega arith)) (all_word-hex s r))

length-hex : (s : Text) → length (hex s) ≡ 2 * length s
unfolding hex
length-hex [] = omega arith
length-hex (b ∷ s) = omega (arith, length-hex s)

AreBytes-take : (n : ℕ) (s : Text) → AreBytes s → AreBytes (take n s)
AreBytes-take zero s h = tt
AreBytes-take (suc n) [] h = tt
AreBytes-take (suc n) (b ∷ s) (h, r) = (h, AreBytes-take n s r)

valid_identifier-all_word : (s : Text) → valid_identifier s ≡ true → all_word s ≡ true
unfolding valid_identifier
valid_identifier-all_word [] h = cc
valid_identifier-all_word (c ∷ s) h = all_word_cons c s (ground arith) (ground arith)

-- A text made as stage aliases are is an identifier if its parts are short enough.
stage_parts :
    (kept suffix : Text)
    → all_word kept ≡ true
    → all_word suffix ≡ true
    → length kept + length suffix ≤ 53
    → valid_identifier (lit "qr_stage_" ++ (kept ++ (b'_' ∷ suffix))) ≡ true
unfolding valid_identifier lit
stage_parts kept suffix h k short =
    let tail = kept ++ (b'_' ∷ suffix) in
    let words : all_word tail ≡ true =
      ground (arith, all_word-append kept (b'_' ∷ suffix), all_word_cons b'_' suffix refl k) in
    let fits : length tail ≤ 54 = omega (arith, length-append kept (b'_' ∷ suffix)) in
    unfold all_word in ground arith

length-kept :
    (n : ℕ) (alias : Text) → length (if ltb n (length alias) then take n alias else alias) ≤ n
length-kept n alias = ground (arith, length-take-le n alias)

-- The stage alias of a source whose alias is valid is valid as well, whatever the fingerprint: it
-- fits in 63 bytes and the engine and the adapters accept it.
pub stage_alias-valid_identifier :
    (alias print : Text)
    → valid_identifier alias ≡ true
    → AreBytes print
    → valid_identifier (stage_alias alias print) ≡ true
unfolding stage_alias
stage_alias-valid_identifier alias print h b =
    let suffix = hex (take 4 print) in
    let m = maximum_prefix suffix in
    let w = valid_identifier-all_word alias h in
    stage_parts (if ltb m (length alias) then take m alias else alias) suffix
      (ground (arith, all_word-take m alias))
      (all_word-hex (take 4 print) (AreBytes-take 4 print b))
      (unfold maximum_prefix lit in
        omega (arith, length-kept m alias, length-hex (take 4 print), length-take-le 4 print))
