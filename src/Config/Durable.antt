-- ===== src/Config/Durable.antt =====
-- Save and Load together: what a save that fails or is cut off leaves for the next Load.
use quackridge.Prelude.{
  ◌≡◌, ◌∙◌, ◌⊎◌, inl, inr, true, Option, none, ◌++◌, arith, Option-cases, is_some,
}
use quackridge.Prelude.Int.{pos}
use quackridge.Prelude.Text.{Text}
use quackridge.Errors.Defs.{GoError}
use quackridge.Errors.Result.{ok, Result-cases}
use quackridge.Config.Document.{Document, Decoding, validate}
use quackridge.Config.Store.{
  Contents, bytes, Disk, SaveFaults, WriteFaults, after_replace, write_atomic, Codec, newline,
  back_up, write_main, save_encoded, save, load_file, upgrade, checked, migrate, settle, load,
}
use quackridge.Config.Marshal.{Marshalling, IsFaithful, readable, respaced, validate-respaced}

-- What a write leaves: the old contents and an error, or the new ones, with an error only where a
-- call after the rename failed.
abbrev Written : WriteFaults → Contents → Contents → Contents × Option GoError → Type 0
Written f old new (kept, error) =
    ((kept ≡ old) × (is_some error ≡ true))
    ⊎ ((kept ≡ new) × (is_some error ≡ is_some (after_replace f)))

write_atomic-Written :
    (f : WriteFaults) (content : Text) (old : Contents)
    → Written f old (bytes content) (write_atomic f content old)
unfolding write_atomic
write_atomic-Written f content old = ground arith

module _ (codec : Codec) (decoding : Decoding) where
  main-back_up :
      (faults : SaveFaults) (disk : Disk) → (back_up codec decoding faults disk).0.main ≡ disk.main
  unfolding back_up
  main-back_up faults disk = ground arith

  write_main-Written :
      (faults : SaveFaults) (content : Text) (disk : Disk)
      → Written faults.main_write disk.main (bytes content) (
        (write_main codec decoding faults content disk).0.main,
        (write_main codec decoding faults content disk).1,
      )
  unfolding write_main
  write_main-Written faults content disk =
      ground (arith, write_atomic-Written faults.main_write content disk.main)

  save_encoded-Written :
      (faults : SaveFaults) (content : Text) (disk : Disk)
      → Written faults.main_write disk.main (bytes content) (
        (save_encoded codec decoding faults content disk).0.main,
        (save_encoded codec decoding faults content disk).1,
      )
  unfolding save_encoded
  save_encoded-Written faults content disk = ground (
    arith,
    main-back_up faults disk,
    write_main-Written faults content (back_up codec decoding faults disk).0,
  )

  -- After a Save, whatever call fails, the main file is the old one and an error is returned, or it
  -- is the encoded document, which is valid.
  save_cases :
      (faults : SaveFaults) (d : Document) (disk : Disk)
      → (((save codec decoding faults d disk).0.main ≡ disk.main)
          × (is_some (save codec decoding faults d disk).1 ≡ true))
        ⊎ ((t : Text) × (codec.encode d ≡ ok t)
            × ((save codec decoding faults d disk).0.main ≡ bytes (t ++ newline))
            × (is_some (save codec decoding faults d disk).1
                ≡ is_some (after_replace faults.main_write))
            × (validate decoding d ≡ none))
  unfolding save
  save_cases faults d disk = elim (Option-cases (validate decoding d)) [
    | inr (e, f) ↦ inl (ground arith, ground arith)
    | inl v ↦ elim (Result-cases (codec.encode d)) [
      | inr (e, f) ↦ inl (ground arith, ground arith)
      | inl (t, f) ↦ elim (save_encoded-Written faults (t ++ newline) disk) [
        | inl (k, g) ↦ inl (ground arith, ground arith)
        | inr (k, g) ↦ inr (t, f, ground arith, ground arith, v)
      ]
    ]
  ]

  migrate_current :
      (d : Document)
      → d.version ≡ pos 1
      → validate decoding d ≡ none
      → migrate codec decoding d ≡ ok d
  unfolding migrate upgrade checked
  migrate_current d v h = ground arith

  -- Load depends on the main file alone where that file holds a valid current document.
  pub load_current :
      (faults : SaveFaults) (d : Document) (disk : Disk) (content : Text)
      → disk.main ≡ bytes content
      → codec.parse content ≡ ok d
      → d.version ≡ pos 1
      → validate decoding d ≡ none
      → load codec decoding faults disk ≡ (disk, ok d)
  unfolding load load_file settle
  load_current faults d disk content m p v h = ground (arith, migrate_current d)

  pub validate_version : (d : Document) → validate decoding d ≡ none → d.version ≡ pos 1
  unfolding validate
  validate_version d h = ground arith

  module _ (m : Marshalling) (faithful : IsFaithful codec decoding m) where
    -- What a Load returns where the main file holds a document that Save has written.
    load_written :
        (faults : SaveFaults) (d : Document) (disk : Disk) (t : Text)
        → readable m d ≡ true
        → codec.encode d ≡ ok t
        → disk.main ≡ bytes (t ++ newline)
        → validate decoding d ≡ none
        → load codec decoding faults disk ≡ (disk, ok (respaced m d))
    load_written faults d disk t r e w v =
        load_current faults (respaced m d) disk (t ++ newline) w (faithful.reads_back d t r e)
          (validate_version d v) (validate-respaced codec decoding m faithful d v)

    -- A Save of UTF-8 strings that returns no error is followed by a Load that returns the document,
    -- with its raw options spelled anew.
    pub load-save :
        (faults later : SaveFaults) (d : Document) (disk : Disk)
        → readable m d ≡ true
        → (save codec decoding faults d disk).1 ≡ none
        → load codec decoding later (save codec decoding faults d disk).0
          ≡ ((save codec decoding faults d disk).0, ok (respaced m d))
    load-save faults later d disk r h = elim (save_cases faults d disk) [
      | inl (kept, failed) ↦ absurd (ground arith)
      | inr (t, e, w, x, v) ↦ load_written later d _ t r e w v
    ]

    -- Where encoding/json is faithful, every string of a document is UTF-8, and the main file holds a
    -- valid current document: whatever calls of a Save fail, the next Load returns no error. It
    -- returns the old document only if the Save returned an error, and otherwise the new one, with
    -- its raw options spelled anew; the new one with an error of the Save only if the directory
    -- could not be opened or synced after the rename.
    pub save_atomic :
        (faults later : SaveFaults) (old d : Document) (disk : Disk) (content : Text)
        → readable m d ≡ true
        → disk.main ≡ bytes content
        → codec.parse content ≡ ok old
        → validate decoding old ≡ none
        → ((load codec decoding later (save codec decoding faults d disk).0
              ≡ ((save codec decoding faults d disk).0, ok old))
            × (is_some (save codec decoding faults d disk).1 ≡ true))
          ⊎ ((load codec decoding later (save codec decoding faults d disk).0
                ≡ ((save codec decoding faults d disk).0, ok (respaced m d)))
              × (is_some (save codec decoding faults d disk).1
                  ≡ is_some (after_replace faults.main_write)))
    save_atomic faults later old d disk content r n p v = elim (save_cases faults d disk) [
      | inl (kept, failed) ↦
          inl (load_current later old _ content (kept ∙ n) p (validate_version old v) v, failed)
      | inr (t, e, w, x, y) ↦ inr (load_written later d _ t r e w y, x)
    ]
