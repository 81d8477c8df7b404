-- ===== src/Checks/ConfigRuns.antt =====
-- Runs of internal/config.
use quackridge.Prelude.Lists.{all}
use quackridge.Prelude.{
  ◌≡◌, refl, ◌↔◌, ◌⊎◌, Bool, true, false, ◌&&◌, Option, none, some, List, [], ◌∷◌, ◌++◌, arith, ltb,
  if◌then◌else◌, is_some,
}
use quackridge.Prelude.Text.{Text, lit, text_eq, text_eq_iff, is_empty, ascii_lower}
use quackridge.Prelude.Int.{ℤ, pos, eq_ℤ}
use quackridge.Json.{object, done}
use quackridge.Errors.Defs.{GoError, foreign}
use quackridge.Errors.Result.{Result, ok, err}
use quackridge.Config.Document.{Source, Document, Decoding, validate, validate_sources}
use quackridge.Config.Validate.{AllSound, validate_iff}
use quackridge.Config.Store.{
  absent, bytes, Disk, WriteFaults, SaveFaults, Codec, newline, after_replace, save, load,
}
use quackridge.Config.Marshal.{Marshalling, IsFaithful, readable, readable_source, respaced}
use quackridge.Config.Durable.{save_atomic}
use quackridge.Config.Service.{Credentials, Service, Stored}

abbrev crm : Source
crm = record {
  id = lit "1";
  name = lit "CRM";
  alias = lit "crm";
  kind = lit "postgres";
  database_type = [];
  enabled = true;
  credential_ref = lit "r1";
  options = lit "{ }";
}

abbrev no_sources : Document
no_sources = record { version = pos 1; sources = [] }

abbrev one_source : Document
one_source = record { version = pos 1; sources = crm ∷ [] }

-- ASCII texts, and options that are read back without the space.
abbrev marshalling : Marshalling
marshalling = record {
  is_utf8 = λ t. all (λ c. ltb c 128) t;
  respace = λ t. if text_eq t (lit "{ }") then lit "{}" else t;
}

-- A codec that knows these two documents.
abbrev is_crm : Source → Bool
is_crm s =
    text_eq s.id (lit "1")
    && text_eq s.name (lit "CRM")
    && text_eq s.alias (lit "crm")
    && text_eq s.kind (lit "postgres")
    && is_empty s.database_type
    && s.enabled
    && text_eq s.credential_ref (lit "r1")
    && text_eq s.options (lit "{ }")

abbrev encode_sources : List Source → Result Text
encode_sources [] = ok []
encode_sources (s ∷ []) = if is_crm s then ok (1 ∷ []) else err (foreign (lit "unknown source"))
encode_sources (s ∷ t ∷ rest) = err (foreign (lit "too many sources"))

abbrev toy : Codec
toy = record {
  encode = λ d.
      if eq_ℤ d.version 1 then encode_sources d.sources else err (foreign (lit "unknown version"));
  parse = λ t.
      if text_eq t (10 ∷ [])
      then ok no_sources
      else if text_eq t (1 ∷ 10 ∷ [])
      then ok (respaced marshalling one_source)
      else err (foreign (lit "malformed"));
}

is_crm_lem : (s : Source) → is_crm s ≡ true → s ≡ crm
is_crm_lem s h = ground (
  arith,
  text_eq_iff s.id (lit "1"),
  text_eq_iff s.name (lit "CRM"),
  text_eq_iff s.alias (lit "crm"),
  text_eq_iff s.kind (lit "postgres"),
  text_eq_iff s.credential_ref (lit "r1"),
  text_eq_iff s.options (lit "{ }"),
)

round_trip_parts :
    (v : ℤ) (sources : List Source) (t : Text)
    → toy.encode (record { version = v; sources = sources }) ≡ ok t
    → toy.parse (t ++ newline)
      ≡ ok (respaced marshalling (record { version = v; sources = sources }))
unfolding text_eq
round_trip_parts v [] t h = ground arith
round_trip_parts v (s ∷ []) t h = ground (arith, is_crm_lem s)
round_trip_parts v (s ∷ u ∷ rest) t h = ground arith

abbrev decoding : Decoding
decoding = record { decode = λ t. some (object done); to_lower = ascii_lower }

keeps_options : (t : Text) → is_empty t ≡ false → is_empty (marshalling.respace t) ≡ false
unfolding lit
keeps_options t h = ground arith

toy-IsFaithful : IsFaithful toy decoding marshalling
toy-IsFaithful = record {
  reads_back = λ d t r h. round_trip_parts d.version d.sources t h;
  keeps_options = keeps_options;
  keeps_value = λ t h. refl;
}

validate_iff_example :
    (validate decoding one_source ≡ none)
    ↔ ((one_source.version ≡ pos 1) × AllSound decoding [] [] [] one_source.sources)
validate_iff_example = validate_iff decoding one_source

abbrev calm : WriteFaults
calm = record {
  create_temp = none;
  chmod = none;
  write = none;
  sync = none;
  close = none;
  replace = none;
  open_directory = none;
  sync_directory = none;
}

abbrev no_faults : SaveFaults
no_faults = record { mkdir = none; backup_write = calm; main_write = calm }

abbrev sync_error : GoError
sync_error = foreign (lit "sync: input/output error")

abbrev late_fault : SaveFaults
late_fault = record no_faults { main_write = record calm { sync_directory = some sync_error } }

abbrev old_disk : Disk
old_disk = record { main = bytes (10 ∷ []); backup = absent }

one_readable : readable marshalling one_source ≡ true
unfolding readable readable_source all lit
one_readable = refl

old_parsed : toy.parse (10 ∷ []) ≡ ok no_sources
unfolding text_eq
old_parsed = refl

old_valid : validate decoding no_sources ≡ none
unfolding validate validate_sources
old_valid = refl

save_atomic_example :
    ((load toy decoding no_faults (save toy decoding late_fault one_source old_disk).0
        ≡ ((save toy decoding late_fault one_source old_disk).0, ok no_sources))
      × (is_some (save toy decoding late_fault one_source old_disk).1 ≡ true))
    ⊎ ((load toy decoding no_faults (save toy decoding late_fault one_source old_disk).0 ≡ (
      (save toy decoding late_fault one_source old_disk).0,
      ok (respaced marshalling one_source),
    ))
        × (is_some (save toy decoding late_fault one_source old_disk).1
            ≡ is_some (after_replace late_fault.main_write)))
save_atomic_example =
    save_atomic toy decoding marshalling toy-IsFaithful late_fault no_faults no_sources one_source
      old_disk (10 ∷ []) one_readable refl old_parsed old_valid

-- A credential store with room for one text.
abbrev store : Credentials (Option Text)
store = record {
  get = λ r c. elim c [ none ↦ err (foreign (lit "missing")) | some t ↦ ok t ];
  put = λ r t c. (some t, none);
  delete = λ r c. (none, none);
}

abbrev service : Service (Option Text)
service = record {
  codec = toy;
  decoding = decoding;
  credentials = some store;
  check = some (λ s t. none);
}

abbrev before : Stored (Option Text)
before = record { disk = old_disk; secrets = none }

abbrev stocked : Stored (Option Text)
stocked = record {
  disk = record { main = bytes (1 ∷ 10 ∷ []); backup = absent };
  secrets = some (lit "pw");
}

abbrev stored_source : Document
stored_source = respaced marshalling one_source
