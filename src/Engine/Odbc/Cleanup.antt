-- ===== src/Engine/Odbc/Cleanup.antt =====
-- AttachODBC: what it leaves open, and what it leaves attached.
use quackridge.Prelude.{
  ◌≡◌, refl, ap, ◌∙◌, ◌⊎◌, inl, inr, Bool, true, false, not, ◌||◌, Option, none, some, List, ◌∷◌,
  if◌then◌else◌, Option-cases, is_some,
}
use quackridge.Prelude.Text.{Text, lit}
use quackridge.Prelude.Maps.{insert}
use quackridge.Prelude.Int.{ℤ}
use quackridge.Errors.Defs.{GoError}
use quackridge.Errors.Result.{Result, ok, err}
use quackridge.Source.Alias.{valid_identifier}
use quackridge.Engine.Sql.{unavailable}
use quackridge.Engine.Runtime.{
  failed, Statement, Driver, Memory, Live, while_running, detach_text, ensure_connector_extension,
}
use quackridge.Engine.Odbc.{
  OdbcAttachment, attach_memory, give_back, ready_odbc, fill_catalog, finish_odbc, attach_handle,
  connect_odbc, attach_odbc_live, attach_odbc,
}
use quackridge.Engine.Odbc.Tracked.{IsTracked, Keeps, Same, fill_catalog-Same, ensure-Same}

module _ {D : Type 0} (driver : Driver D) (opened : D → List ℤ) (catalogs : D → List Text)
    (t : IsTracked driver opened catalogs) where
  -- The connections are as they were, or the one that was opened is left because the last call,
  -- which was to close it, failed.
  abbrev pub Closed : (before after : D) → Type 0
  Closed d d' =
      (opened d' ≡ opened d)
      ⊎ ((h : ℤ) × (d0 : D) × (opened d' ≡ h ∷ opened d)
          × (is_some (driver.close_odbc h d0).0 ≡ true)
          × (d' ≡ (driver.close_odbc h d0).1))

  -- The catalogs are as they were, or the one that was attached is left because the last call but
  -- one, which was to detach it, failed.
  abbrev pub Dropped : Text → (before after : D) → Type 0
  Dropped alias d d' =
      (catalogs d' ≡ catalogs d)
      ⊎ ((h : ℤ) × (d0 : D) × (catalogs d' ≡ alias ∷ catalogs d)
          × (is_some (driver.exec (detach_text driver alias) d0).0 ≡ true)
          × (d' ≡ (driver.close_odbc h (driver.exec (detach_text driver alias) d0).1).1))

  close-Closed : (h : ℤ) (d d0 : D) → opened d0 ≡ h ∷ opened d → Closed d (driver.close_odbc h d0).1
  close-Closed h d d0 o = elim (Option-cases (driver.close_odbc h d0).0) [
    | inl f ↦ inl (t.closes h (opened d) d0 o f)
    | inr (e, f) ↦
        let failed : is_some (driver.close_odbc h d0).0 ≡ true = rw f refl in
        inr (h, d0, t.close_fails h d0 failed ∙ o, failed, refl)
  ]

  close-Dropped :
      (h : ℤ) (alias : Text) (d d0 : D)
      → catalogs d0 ≡ alias ∷ catalogs d
      → Dropped alias d (driver.close_odbc h (driver.exec (detach_text driver alias) d0).1).1
  close-Dropped h alias d d0 c =
      let s = detach_text driver alias in
      let d1 = (driver.exec s d0).1 in
      elim (Option-cases (driver.exec s d0).0) [
        | inl f ↦ inl (t.closes_only h d1 ∙ t.detaches alias (catalogs d) d0 c f)
        | inr (e, f) ↦
            let failed : is_some (driver.exec s d0).0 ≡ true = rw f refl in
            inr (h, d0, t.closes_only h d1 ∙ (t.detach_fails alias d0 failed ∙ c), failed, refl)
      ]

  -- What AttachODBC leaves: on an error all is as it was but for what a failing cleanup leaves;
  -- otherwise one connection and one catalog more, which the memory knows.
  unfoldable pub Balanced : OdbcAttachment → Memory → D → Option GoError × Live D → Type 0
  Balanced a m d (some e, l) = Closed d l.world × Dropped a.alias d l.world × Keeps m l.memory
  Balanced a m d (none, l) =
      (h : ℤ) × (opened l.world ≡ h ∷ opened d)
      × (catalogs l.world ≡ a.alias ∷ catalogs d)
      × (l.memory.odbc_handles ≡ insert a.id h m.odbc_handles)
      × (l.memory.sources ≡ insert a.id (ready_odbc a) m.sources)

  finish-Balanced :
      (a : OdbcAttachment) (h : ℤ) (m : Memory) (d : D) (l : Live D)
      → opened l.world ≡ h ∷ opened d
      → catalogs l.world ≡ a.alias ∷ catalogs d
      → Keeps m l.memory
      → Balanced a m d (finish_odbc driver a h l)
  unfolding finish_odbc Balanced
  finish-Balanced a h m d l o c k =
      go (fill_catalog driver a h l) (fill_catalog-Same driver opened catalogs t a h l)
    where
      go :
          (x : Option GoError × Live D)
          → Same driver opened catalogs t l.world x.1.world × Keeps l.memory x.1.memory
          → Balanced a m d (elim x.0 [
            | some e ↦ (some e, give_back driver a.alias h x.1)
            | none ↦ (
              none,
              record x.1 {
                memory = record x.1.memory {
                  odbc_handles = insert a.id h x.1.memory.odbc_handles;
                  sources = insert a.id (ready_odbc a) x.1.memory.sources;
                };
              },
            )
          ])
      go (some e, l') (s, k') =
          let o' = t.executes (detach_text driver a.alias) l'.world in
          let d' = (driver.exec (detach_text driver a.alias) l'.world).1 in
          (
            close-Closed h d d' (o' ∙ (s.0 ∙ o)),
            close-Dropped h a.alias d l'.world (s.1 ∙ c),
            (k'.0 ∙ k.0, k'.1 ∙ k.1),
          )
      go (none, l') (s, k') = (
        h,
        s.0 ∙ o,
        s.1 ∙ c,
        ap (insert a.id h) (k'.0 ∙ k.0),
        ap (insert a.id (ready_odbc a)) (k'.1 ∙ k.1),
      )

  attach-Balanced :
      (a : OdbcAttachment) (h : ℤ) (m : Memory) (d : D) (l : Live D)
      → opened l.world ≡ h ∷ opened d
      → catalogs l.world ≡ catalogs d
      → Keeps m l.memory
      → Balanced a m d (attach_handle driver a h l)
  unfolding attach_handle Balanced
  attach-Balanced a h m d l o c k =
      go (driver.exec s l.world) (t.executes s l.world) (t.attaches a.alias l.world)
        (t.attach_fails a.alias l.world)
    where
      s : Statement
      s = attach_memory a.alias

      go :
          (x : Option GoError × D)
          → opened x.1 ≡ opened l.world
          → (x.0 ≡ none → catalogs x.1 ≡ a.alias ∷ catalogs l.world)
          → (is_some x.0 ≡ true → catalogs x.1 ≡ catalogs l.world)
          → Balanced a m d (elim x.0 [
            | some e ↦ (
              some (failed (lit "ODBC catalog setup failed") e),
              record l { world = (driver.close_odbc h x.1).1 },
            )
            | none ↦ finish_odbc driver a h (record l { world = x.1 })
          ])
      go (none, d') o' p q =
          finish-Balanced a h m d (record l { world = d' }) (o' ∙ o)
            (p refl ∙ ap (λ x. a.alias ∷ x) c) k
      go (some e, d') o' p q =
          (close-Closed h d d' (o' ∙ o), inl (t.closes_only h d' ∙ (q refl ∙ c)), k)

  connect-Balanced :
      (a : OdbcAttachment) (m : Memory) (d : D) (l : Live D)
      → Same driver opened catalogs t d l.world
      → Keeps m l.memory
      → Balanced a m d (connect_odbc driver a l)
  unfolding connect_odbc Balanced
  connect-Balanced a m d l (o, c) k =
      go (driver.odbc_connect a.connection a.username a.password l.world)
        (t.connects_only a.connection a.username a.password l.world)
        (λ h. t.connects a.connection a.username a.password h l.world)
        (λ e. t.connect_fails a.connection a.username a.password e l.world)
    where
      go :
          (x : Result ℤ × D)
          → catalogs x.1 ≡ catalogs l.world
          → ((h : ℤ) → x.0 ≡ ok h → opened x.1 ≡ h ∷ opened l.world)
          → ((e : GoError) → x.0 ≡ err e → opened x.1 ≡ opened l.world)
          → Balanced a m d (elim x.0 [
            | err e ↦
                (some (failed (lit "ODBC connection setup failed") e), record l { world = x.1 })
            | ok h ↦ attach_handle driver a h (record l { world = x.1 })
          ])
      go (ok h, d') c' p q =
          attach-Balanced a h m d (record l { world = d' }) (p h refl ∙ ap (λ x. h ∷ x) o) (c' ∙ c)
            k
      go (err e, d') c' p q = (inl (q e refl ∙ o), inl (c' ∙ c), k)

  live-Balanced :
      (a : OdbcAttachment) (l : Live D) → Balanced a l.memory l.world (attach_odbc_live driver a l)
  unfolding attach_odbc_live Balanced
  live-Balanced a l =
      go (not (valid_identifier a.alias) || not (valid_identifier a.database_type))
        (ensure_connector_extension driver (lit "odbc") l)
        (ensure-Same driver opened catalogs t (lit "odbc") l)
    where
      go :
          (bad : Bool) (x : Option GoError × Live D)
          → Same driver opened catalogs t l.world x.1.world × Keeps l.memory x.1.memory
          → Balanced a l.memory l.world (
              if bad
              then (some (unavailable (lit "ODBC source identifier is invalid")), l)
              else elim x.0 [ some e ↦ (some e, x.1) | none ↦ connect_odbc driver a x.1 ])
      go true x h = (inl refl, inl refl, (refl, refl))
      go false (some e, l') ((o, c), k) = (inl o, inl c, k)
      go false (none, l') (s, k) = connect-Balanced a l.memory l.world l' s k

  -- Over a world that tracks the ODBC connections and the catalogs, where a call that fails opens,
  -- closes, attaches and detaches nothing: an AttachODBC that returns an error leaves the handles and
  -- statuses in memory as they were, and no connection and no catalog more, except that the
  -- connection it opened is left if odbc_close was called for it last and failed, and the catalog it
  -- attached if the DETACH before that failed. One that returns none leaves one connection and one
  -- catalog more, the handle in memory under the source's id, and the source's status ready.
  pub attach_odbc-Balanced :
      (a : OdbcAttachment) (m : Memory) (d : D)
      → (d' : D) × ((attach_odbc driver a (record { memory = m; db = some d })).1.db ≡ some d')
        × Balanced a m d (
          (attach_odbc driver a (record { memory = m; db = some d })).0,
          record {
            memory = (attach_odbc driver a (record { memory = m; db = some d })).1.memory;
            world = d';
          },
        )
  unfolding attach_odbc while_running
  attach_odbc-Balanced a m d =
      let l : Live D = record { memory = m; world = d } in
      ((attach_odbc_live driver a l).1.world, refl, live-Balanced a l)
