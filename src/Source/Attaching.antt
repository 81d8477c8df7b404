-- ===== src/Source/Attaching.antt =====
-- Attach of postgres.go and mysql.go: how an attempt ends.
use quackridge.Prelude.{
  ◌≡◌, refl, ◌⊎◌, inl, inr, Bool, true, false, ◌&&◌, Option, none, some, List, arith, if◌then◌else◌,
  Option-cases,
}
use quackridge.Prelude.Text.{Text, lit, is_empty, contains_text}
use quackridge.Errors.Defs.{GoError}
use quackridge.Source.Rows.{Rows, read_rows}
use quackridge.Errors.Result.{Result, ok, err}
use quackridge.Engine.Runtime.{Attachment, ObjectType}
use quackridge.Source.{Definition}
use quackridge.Source.Attacher.{
  Attacher, Surroundings, or_detach, register_remote, store_objects, store_rows,
}
use quackridge.Source.Postgres.{
  postgres_objects_query, PostgresConfig, PostgresCredential, validate_postgres,
  postgres_attachment, verify_read_only, register_postgres, finish_postgres, attach_postgres,
}
use quackridge.Source.Mysql.{
  mysql_objects_query, version_query, mysql_unhealthy, MysqlConfig, validate_mysql,
  mysql_attachment, register_mysql, record_mariadb, finish_mysql, attach_mysql,
}

module _ {E : Type 0} (s : Surroundings) (attacher : Attacher E) where
  -- What the engine goes through between its Attach and a Detach: updates of the source's objects
  -- and of its database type, whatever they return.
  pub data Recorded (id : Text) (start : E) : E → Type 0 where
    begun : Recorded id start start
    registered :
        {e : E} (objects : List ObjectType)
        → Recorded id start e
        → Recorded id start (attacher.register_object_types id objects e).1
    updated :
        {e : E} (kind : Text)
        → Recorded id start e
        → Recorded id start (attacher.update_database_type id kind e).1

  -- How an attempt with an attachment ends. Without an error the engine has attached the source and
  -- is left so. With one it was not called, or its Attach returned an error and was the last call, or
  -- its Attach returned none and a Detach of the source's alias and id was the last call.
  abbrev pub Cleaned : Definition → Attachment → E → Option GoError × E → Type 0
  Cleaned d a e (none, e') =
      ((attacher.attach a e).0 ≡ none) × Recorded d.id (attacher.attach a e).1 e'
  Cleaned d a e (some x, e') =
      (e' ≡ e)
      ⊎ (((attacher.attach a e).0 ≡ some x) × (e' ≡ (attacher.attach a e).1))
      ⊎ (((attacher.attach a e).0 ≡ none)
          × ((last : E) × Recorded d.id (attacher.attach a e).1 last
              × (e' ≡ (attacher.detach d.alias d.id last).1)))

  or_detach-Cleaned :
      (d : Definition) (a : Attachment) (e : E) (x : Option GoError × E)
      → (attacher.attach a e).0 ≡ none
      → Recorded d.id (attacher.attach a e).1 x.1
      → Cleaned d a e (or_detach attacher d x)
  unfolding or_detach
  or_detach-Cleaned d a e (none, e') n h = (n, h)
  or_detach-Cleaned d a e (some x, e') n h = inr (inr (n, (e', h, refl)))

  store_objects-Recorded :
      (d : Definition) (start e : E) (x : Result (List ObjectType))
      → Recorded d.id start e
      → Recorded d.id start (store_objects attacher d e x).1
  unfolding store_objects
  store_objects-Recorded d start e (err x) h = h
  store_objects-Recorded d start e (ok objects) h = registered objects h

  store_rows-Recorded :
      (prefix : Text) (d : Definition) (start e : E) (x : Result (Rows ObjectType))
      → Recorded d.id start e
      → Recorded d.id start (store_rows attacher prefix d e x).1
  unfolding store_rows
  store_rows-Recorded prefix d start e (err x) h = h
  store_rows-Recorded prefix d start e (ok rows) h =
      store_objects-Recorded d start e (read_rows (λ (o : ObjectType). o) rows) h

  register-Recorded :
      (prefix query : Text) (d : Definition) (start e : E)
      → Recorded d.id start e
      → Recorded d.id start (register_remote attacher prefix query d e).1
  unfolding register_remote
  register-Recorded prefix query d start e h =
      store_rows-Recorded prefix d start e (attacher.query_objects query e) h

  finish_postgres-Cleaned :
      (d : Definition) (a : Attachment) (e : E)
      → (attacher.attach a e).0 ≡ none
      → Cleaned d a e (finish_postgres attacher d (attacher.attach a e).1)
        × ((finish_postgres attacher d (attacher.attach a e).1).0 ≡ none
            → verify_read_only attacher d.alias (attacher.attach a e).1 ≡ none)
  unfolding finish_postgres register_postgres
  finish_postgres-Cleaned d a e n =
      let e1 : E = (attacher.attach a e).1 in
      elim (Option-cases (verify_read_only attacher d.alias e1)) [
        | inr (x, f) ↦
            rw (f, finish_postgres)
              (or_detach-Cleaned d a e (some x, e1) n begun, λ h. unfold or_detach in ground arith)
        | inl f ↦
            rw (f, finish_postgres)
              (
                or_detach-Cleaned d a e (register_postgres attacher d e1) n
                    (register-Recorded _ (postgres_objects_query d.alias) d e1 e1 begun),
                λ h. refl,
              )
      ]

  -- Whatever the engine answers, an Attach of a PostgreSQL source that returns none has passed
  -- Validate, the engine's Attach, and behind it the read-only test, and the engine is left with what
  -- was recorded since. One that returns an error has not called the engine, or returns the error of
  -- the engine's Attach, the last call, or has called Detach of the source's alias and id last.
  pub attach_postgres-Cleaned :
      (c : PostgresConfig) (k : PostgresCredential) (d : Definition) (e : E)
      → Cleaned d (postgres_attachment s c k d) e (attach_postgres attacher s c k d e)
        × ((attach_postgres attacher s c k d e).0 ≡ none
            → (validate_postgres s c k d ≡ none)
              × (verify_read_only attacher d.alias
                    (attacher.attach (postgres_attachment s c k d) e).1
                  ≡ none))
  unfolding attach_postgres
  attach_postgres-Cleaned c k d e =
      let a = postgres_attachment s c k d in
      elim (Option-cases (validate_postgres s c k d)) [
        | inr (x, f) ↦ rw (f, attach_postgres) (inl refl, λ h. ground arith)
        | inl f ↦ elim (Option-cases (attacher.attach a e).0) [
          | inr (x, g) ↦ rw (f, g, attach_postgres) (inr (inl (g, refl)), λ h. ground arith)
          | inl g ↦
              let (cleaned, tested) = finish_postgres-Cleaned d a e g in
              rw (f, g, attach_postgres) (cleaned, λ h. (refl, tested h))
        ]
      ]

  register_mysql-Cleaned :
      (d : Definition) (a : Attachment) (e last : E)
      → (attacher.attach a e).0 ≡ none
      → Recorded d.id (attacher.attach a e).1 last
      → Cleaned d a e (register_mysql s attacher d last)
  unfolding register_mysql
  register_mysql-Cleaned d a e last n h =
      or_detach-Cleaned d a e _ n
        (register-Recorded _ (mysql_objects_query d.alias) d (attacher.attach a e).1 last h)

  record_mariadb-Cleaned :
      (version : Text) (d : Definition) (a : Attachment) (e last : E)
      → (attacher.attach a e).0 ≡ none
      → Recorded d.id (attacher.attach a e).1 last
      → Cleaned d a e (record_mariadb s attacher version d last)
  unfolding record_mariadb or_detach
  record_mariadb-Cleaned version d a e last n h =
      go (is_empty d.database_type && contains_text (s.to_lower version) (lit "mariadb"))
        (attacher.update_database_type d.id (lit "mariadb") last) (updated (lit "mariadb") h)
    where
      go :
          (b : Bool) (x : Option GoError × E)
          → Recorded d.id (attacher.attach a e).1 x.1
          → Cleaned d a e (
              let (error, e') = or_detach attacher d x in
              if b
              then elim error [ some y ↦ (some y, e') | none ↦ register_mysql s attacher d e' ]
              else register_mysql s attacher d last)
      go false x k = register_mysql-Cleaned d a e last n h
      go true (none, e') k = register_mysql-Cleaned d a e e' n k
      go true (some y, e') k = inr (inr (n, (e', k, refl)))

  finish_mysql-Cleaned :
      (d : Definition) (a : Attachment) (e : E)
      → (attacher.attach a e).0 ≡ none
      → Cleaned d a e (finish_mysql s attacher d (attacher.attach a e).1)
  unfolding finish_mysql
  finish_mysql-Cleaned d a e n =
      let e1 : E = (attacher.attach a e).1 in go (attacher.read_text (version_query d.alias) e1)
    where
      go :
          (x : Result Text)
          → Cleaned d a e (elim x [
            | err y ↦ or_detach attacher d (some (mysql_unhealthy y), (attacher.attach a e).1)
            | ok version ↦ record_mariadb s attacher version d (attacher.attach a e).1
          ])
      go (err y) =
          or_detach-Cleaned d a e (some (mysql_unhealthy y), (attacher.attach a e).1) n begun
      go (ok version) = record_mariadb-Cleaned version d a e (attacher.attach a e).1 n begun

  -- The same of an Attach of a MySQL source, whichever of its steps fails.
  pub attach_mysql-Cleaned :
      (c : MysqlConfig) (d : Definition) (e : E)
      → Cleaned d (mysql_attachment c d) e (attach_mysql s attacher c d e)
  unfolding attach_mysql
  attach_mysql-Cleaned c d e =
      let a = mysql_attachment c d in
      elim (Option-cases (validate_mysql s c d)) [
        | inr (x, f) ↦ rw (f, attach_mysql) (inl refl)
        | inl f ↦ elim (Option-cases (attacher.attach a e).0) [
          | inr (x, g) ↦ rw (f, g, attach_mysql) (inr (inl (g, refl)))
          | inl g ↦ rw (f, g, attach_mysql) (finish_mysql-Cleaned d a e g)
        ]
      ]
