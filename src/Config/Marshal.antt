-- ===== src/Config/Marshal.antt =====
-- encoding/json between Save and Load of config.go: what comes back of a document that is written.
-- json.MarshalIndent indents raw options anew and escapes <, > and & in them, and replaces what is not
-- UTF-8 in a string, so a document is not always read back as it was.
use quackridge.Prelude.{
  ◌≡◌, Bool, true, false, ◌&&◌, none, List, [], ◌∷◌, ◌++◌, map, arith, if◌then◌else◌,
}
use quackridge.Prelude.Text.{Text, is_empty}
use quackridge.Prelude.Lists.{all}
use quackridge.Errors.Result.{ok}
use quackridge.Config.Document.{
  Source, Document, Decoding, validate_options, validate_sources, validate,
}
use quackridge.Config.Store.{Codec, newline}

-- utf8.ValidString, and the raw options that are read back for those that are written.
pub record Marshalling : Type 0 where
  pub is_utf8 : Text → Bool
  pub respace : Text → Text

abbrev pub respaced_source : Marshalling → Source → Source
respaced_source m s = record s { options = m.respace s.options }

-- The document that is read back.
abbrev pub respaced : Marshalling → Document → Document
respaced m d = record d { sources = map (respaced_source m) d.sources }

unfoldable pub readable_source : Marshalling → Source → Bool
readable_source m s =
    m.is_utf8 s.id
    && m.is_utf8 s.name
    && m.is_utf8 s.alias
    && m.is_utf8 s.kind
    && m.is_utf8 s.database_type
    && m.is_utf8 s.credential_ref

-- Every string of the document is UTF-8.
unfoldable pub readable : Marshalling → Document → Bool
readable m d = all (readable_source m) d.sources

-- What encoding/json documents: a document of UTF-8 strings is read back but for the spelling of its
-- raw options, which stand for the same value.
pub record IsFaithful (codec : Codec) (decoding : Decoding) (m : Marshalling) : Type 0 where
  pub reads_back :
      (d : Document) (t : Text)
      → readable m d ≡ true
      → codec.encode d ≡ ok t
      → codec.parse (t ++ newline) ≡ ok (respaced m d)
  pub keeps_options : (t : Text) → is_empty t ≡ false → is_empty (m.respace t) ≡ false
  pub keeps_value :
      (t : Text) → is_empty t ≡ false → decoding.decode (m.respace t) ≡ decoding.decode t

-- A document without one of its sources is readable if the whole is.
pub readable_less :
    (m : Marshalling) (a : List Source) (s : Source) (b : List Source)
    → all (readable_source m) (a ++ s ∷ b) ≡ true
    → all (readable_source m) (a ++ b) ≡ true
unfolding all
readable_less m [] s b h = ground arith
readable_less m (x ∷ a) s b h = ground (arith, readable_less m a s b)

module _ (codec : Codec) (decoding : Decoding) (m : Marshalling)
    (faithful : IsFaithful codec decoding m) where
  options_respaced :
      (t : Text)
      → validate_options decoding t ≡ none
      → validate_options decoding (m.respace t) ≡ none
  unfolding validate_options
  options_respaced t h = ground (arith, faithful.keeps_options t, faithful.keeps_value t)

  sources_respaced :
      (ids aliases refs : List Text) (l : List Source)
      → validate_sources decoding ids aliases refs l ≡ none
      → validate_sources decoding ids aliases refs (map (respaced_source m) l) ≡ none
  unfolding validate_sources
  sources_respaced ids aliases refs [] h = h
  sources_respaced ids aliases refs (s ∷ l) h =
      let refs' = if is_empty s.credential_ref then refs else s.credential_ref ∷ refs in
      ground (
        arith,
        options_respaced s.options,
        sources_respaced (s.id ∷ ids) (s.alias ∷ aliases) refs' l,
      )

  -- What is read back is valid if what was written is.
  pub validate-respaced :
      (d : Document) → validate decoding d ≡ none → validate decoding (respaced m d) ≡ none
  unfolding validate
  validate-respaced d h = ground (arith, sources_respaced [] [] [] d.sources)
