-- ===== src/Config/Store.antt =====
-- config.go Store: Load, Save, writeAtomic and migrate over the two files that the store uses.
-- A system call that may fail has its error, or `none`, as an argument; the JSON codec is a
-- parameter. A crash leaves the files as some failing call does.
use quackridge.Prelude.{◌||◌, Option, none, some, [], ◌∷◌, ◌++◌, if◌then◌else◌}
use quackridge.Prelude.Text.{Text, lit}
use mathlib.Core.Option
use quackridge.Prelude.Int.{pos, eq_ℤ}
use quackridge.Errors.Defs.{GoError, foreign, wrapped}
use quackridge.Errors.Result.{Result, ok, err}
use quackridge.Config.Document.{Document, Decoding, current_version, validate}

-- What os.ReadFile finds.
pub data Contents : Type 0 where
  absent : Contents
  unreadable : GoError → Contents
  bytes : Text → Contents

-- The file at Store.Path and the one at Path + ".bak".
pub record Disk : Type 0 where
  pub main : Contents
  pub backup : Contents

-- The calls of writeAtomic, in order.
pub record WriteFaults : Type 0 where
  pub create_temp : Option GoError
  pub chmod : Option GoError
  pub write : Option GoError
  pub sync : Option GoError
  pub close : Option GoError
  pub replace : Option GoError
  pub open_directory : Option GoError
  pub sync_directory : Option GoError

pub record SaveFaults : Type 0 where
  pub mkdir : Option GoError
  pub backup_write : WriteFaults
  pub main_write : WriteFaults

-- `if err := …; err != nil { return err }`
abbrev pub or_else : Option GoError → Option GoError → Option GoError
or_else (some e) _ = some e
or_else none rest = rest

-- The calls of writeAtomic up to the rename: an error of these leaves the target as it was.
unfoldable pub before_replace : WriteFaults → Option GoError
before_replace f =
    or_else f.create_temp
      (or_else f.chmod (or_else f.write (or_else f.sync (or_else f.close f.replace))))

-- The calls after it: an error of these is returned although the target is replaced.
unfoldable pub after_replace : WriteFaults → Option GoError
after_replace f = or_else f.open_directory f.sync_directory

-- writeAtomic
unfoldable pub write_atomic : WriteFaults → Text → Contents → Contents × Option GoError
write_atomic f content old = elim (before_replace f) [
  | some e ↦ (old, some e)
  | none ↦ (bytes content, after_replace f)
]

-- The JSON of a document and back, DisallowUnknownFields included.
pub record Codec : Type 0 where
  pub encode : Document → Result Text
  pub parse : Text → Result Document

abbrev pub newline : Text
newline = 10 ∷ []

module _ (codec : Codec) (decoding : Decoding) where
  -- The copy of the existing file to the backup, and its error.
  unfoldable pub back_up : SaveFaults → Disk → Disk × Option GoError
  back_up faults disk = copy disk.main
    where
      copy : Contents → Disk × Option GoError
      copy absent = (disk, none)
      copy (unreadable e) = (disk, some e)
      copy (bytes existing) =
          let (kept, error) = write_atomic faults.backup_write existing disk.backup in
          (record disk { backup = kept }, Option.map (wrapped (lit "backup configuration")) error)

  -- The last step of Save.
  unfoldable pub write_main : SaveFaults → Text → Disk → Disk × Option GoError
  write_main faults encoded disk =
      let (kept, error) = write_atomic faults.main_write encoded disk.main in
      (record disk { main = kept }, Option.map (wrapped (lit "save configuration")) error)

  -- Once the document is encoded.
  unfoldable pub save_encoded : SaveFaults → Text → Disk → Disk × Option GoError
  save_encoded faults encoded disk =
      let (disk', error) = back_up faults disk in
      elim faults.mkdir [
        | some e ↦ (disk, some e)
        | none ↦ elim error [ some e ↦ (disk', some e) | none ↦ write_main faults encoded disk' ]
      ]

  -- Save
  unfoldable pub save : SaveFaults → Document → Disk → Disk × Option GoError
  save faults d disk = elim (validate decoding d) [
    | some e ↦ (disk, some e)
    | none ↦ elim (codec.encode d) [
      | err e ↦ (disk, some e)
      | ok encoded ↦ save_encoded faults (encoded ++ newline) disk
    ]
  ]

  -- loadFile: `none` for fs.ErrNotExist.
  unfoldable pub load_file : Contents → Option (Result Document)
  load_file absent = none
  load_file (unreadable e) = some (err e)
  load_file (bytes content) = some (codec.parse content)

  -- The version switch of migrate.
  unfoldable pub upgrade : Document → Result Document
  upgrade d =
      if eq_ℤ d.version 0 || eq_ℤ d.version current_version
      then ok (record d { version = pos current_version })
      else err (foreign (lit "unsupported configuration version"))

  unfoldable pub checked : Document → Result Document
  checked d = elim (validate decoding d) [ some e ↦ err e | none ↦ ok d ]

  -- migrate
  unfoldable pub migrate : Document → Result Document
  migrate d = elim (upgrade d) [ err e ↦ err e | ok u ↦ checked u ]

  -- Load where the main file was read: a migrated document is written back.
  unfoldable pub settle : SaveFaults → Document → Disk → Disk × Result Document
  settle faults d disk = elim (migrate d) [
    | err e ↦ (disk, err e)
    | ok migrated ↦
        let (disk', error) = save faults migrated disk in
        if eq_ℤ d.version current_version then (disk, ok migrated) else elim error [
          | some e ↦ (disk', err (wrapped (lit "persist configuration migration") e))
          | none ↦ (disk', ok migrated)
        ]
  ]

  -- Load where the main file is there and could not be read or parsed.
  unfoldable pub recover : GoError → Disk → Result Document
  recover e disk = elim (load_file disk.backup) [
    | none ↦ err (wrapped (lit "load configuration") e)
    | some (err _) ↦ err (wrapped (lit "load configuration") e)
    | some (ok d) ↦ migrate d
  ]

  -- Load
  unfoldable pub load : SaveFaults → Disk → Disk × Result Document
  load faults disk = elim (load_file disk.main) [
    | none ↦ (disk, ok (record { version = pos current_version; sources = [] }))
    | some (ok d) ↦ settle faults d disk
    | some (err e) ↦ (disk, recover e disk)
  ]
