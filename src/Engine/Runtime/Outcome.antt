-- ===== src/Engine/Runtime/Outcome.antt =====
-- What an operation of the engine leaves in memory and in the database on each of its branches.
use quackridge.Prelude.{
  ◌≡◌, refl, sym, ap, ◌∙◌, ◌⊎◌, inl, inr, true, not, ◌||◌, Option, none, some, List, [], ◌∷◌, arith,
  if◌then◌else◌, Bool-cases, Option-cases, is_some,
}
use quackridge.Prelude.Text.{Text, lit, text_eq, text_eq_iff, is_empty}
use quackridge.Prelude.Maps.{Map, lookup, insert, lookup-remove}
use quackridge.Errors.Defs.{GoError, code_text, source_unavailable}
use quackridge.Errors.Result.{Result, ok, err, Result-cases}
use quackridge.Service.Defs.{SourceStatus}
use quackridge.Source.Alias.{valid_identifier}
use quackridge.Engine.Sql.{create_secret_statement, attach_statement}
use quackridge.Engine.Runtime.{
  Statement, Driver, Attachment, ObjectType, Memory, Live, Engine, quack_stop, quack_serve,
  not_running, while_running, status_of, delete_objects, text, detach_text, upsert_source,
  insert_object, database_type_of, load_extension, check_version, ensure_connector_extension,
  record_source, attach_objects, attach_metadata, attach_catalog, attach_secret, attach_credential,
  attach_live, attach, secret_name, run,
}
use quackridge.Engine.Runtime.Metadata.{
  close_handle, forget, detach_live, detach, insert_objects, replace_objects, end_transaction,
  register_object_types, serve_new, rotate_live, rotate_token,
}

-- The statuses after an attempt to attach: the source is ready and there is no error, or there is
-- one and the source is unavailable or its status is as it was.
abbrev pub Attempted : Attachment → (before after : Map SourceStatus) → Option GoError → Type 0
Attempted a before after error =
    ((error ≡ none) × (after ≡ insert a.id (status_of a (lit "ready") none) before))
    ⊎ ((is_some error ≡ true)
        × ((after ≡ before)
            ⊎ (after
                ≡ insert a.id
                    (status_of a (lit "unavailable") (some (code_text source_unavailable)))
                    before)))

-- What a database promises of its transactions: `Pending d t` holds while t comes from a
-- transaction that began at d.
pub record IsTransactional {D : Type 0} (driver : Driver D) (Pending : D → D → Type 0)
    : Type 0 where
  pub begin_fails : (d : D) → is_some (driver.begin d).0 ≡ true → (driver.begin d).1 ≡ d
  pub begins : (d : D) → (driver.begin d).0 ≡ none → Pending d (driver.begin d).1
  pub executes : (d t : D) (s : Statement) → Pending d t → Pending d (driver.exec s t).1
  pub commit_fails :
      (d t : D) → Pending d t → is_some (driver.commit t).0 ≡ true → (driver.commit t).1 ≡ d
  pub rolls_back : (d t : D) → Pending d t → driver.rollback t ≡ d

module _ {D : Type 0} (driver : Driver D) where
  sources-ensure :
      (kind : Text) (l : Live D)
      → (ensure_connector_extension driver kind l).1.memory.sources ≡ l.memory.sources
  unfolding ensure_connector_extension load_extension check_version
  sources-ensure kind l = ground arith

  attach_objects-Attempted :
      (a : Attachment) (l : Live D)
      → Attempted a l.memory.sources
          (attach_objects driver a l).1.memory.sources
          (attach_objects driver a l).0
  unfolding attach_objects record_source
  attach_objects-Attempted a l = ground arith

  attach_metadata-Attempted :
      (a : Attachment) (l : Live D)
      → Attempted a l.memory.sources
          (attach_metadata driver a l).1.memory.sources
          (attach_metadata driver a l).0
  unfolding attach_metadata
  attach_metadata-Attempted a l =
      let s = upsert_source a.id a.name a.kind (database_type_of a) a.alias (lit "ready") none in
      ground (arith, attach_objects-Attempted a (run driver s l).1)

  attach_catalog-Attempted :
      (a : Attachment) (l : Live D)
      → Attempted a l.memory.sources
          (attach_catalog driver a l).1.memory.sources
          (attach_catalog driver a l).0
  unfolding attach_catalog record_source
  attach_catalog-Attempted a l =
      let s = text (
        attach_statement a.connection a.alias a.kind (secret_name a.alias) (not (is_empty a.secret))
          a.read_only (driver.equal_fold a.kind (lit "postgres"))) in
      ground (arith, attach_metadata-Attempted a (run driver s l).1)

  attach_credential-Attempted :
      (a : Attachment) (l : Live D)
      → Attempted a l.memory.sources
          (attach_credential driver a l).1.memory.sources
          (attach_credential driver a l).0
  unfolding attach_credential attach_secret record_source
  attach_credential-Attempted a l =
      elim (Result-cases
        (create_secret_statement driver.to_upper (secret_name a.alias) a.kind a.secret)) [
          | inl (s, e) ↦ ground (
            arith,
            attach_catalog-Attempted a l,
            attach_catalog-Attempted a (run driver (text s) l).1,
          )
          | inr (x, e) ↦ ground (arith, attach_catalog-Attempted a l)
        ]

  -- Attach records the source as ready if it returns no error; on an error the source is recorded as
  -- unavailable or its status is as it was. No other status changes.
  pub attach-Attempted :
      (a : Attachment) (r : Engine D)
      → Attempted a r.memory.sources (attach driver a r).1.memory.sources (attach driver a r).0
  unfolding attach while_running attach_live record_source
  attach-Attempted a r = elim (Option-cases r.db) [
    | inl e ↦ ground arith
    | inr (d, e) ↦
        let l : Live D = record { memory = r.memory; world = d } in
        let l' = (ensure_connector_extension driver a.kind l).1 in
        ground (arith, sources-ensure a.kind l, attach_credential-Attempted a l')
  ]

  -- The three maps after `forget`.
  lookup-forget :
      (alias id : Text) (l : Live D) (j : Text)
      → (lookup j (forget driver alias id l).memory.sources
          ≡ (if text_eq id j then none else lookup j l.memory.sources))
        × (lookup j (forget driver alias id l).memory.odbc_handles
            ≡ (if text_eq id j then none else lookup j l.memory.odbc_handles))
        × (lookup j (forget driver alias id l).memory.resolver
            ≡ (if text_eq id j then none else lookup j l.memory.resolver))
  unfolding forget close_handle
  lookup-forget alias id l j = ground (
    arith,
    lookup-remove id j l.memory.sources,
    lookup-remove id j l.memory.odbc_handles,
    lookup-remove id j l.memory.resolver,
    text_eq_iff id j,
  )

  -- A Detach that returns no error has removed the status, the ODBC handle and the ODBC credential
  -- of the source and of no other; one that fails leaves the memory as it was.
  pub detach_lem :
      (alias id : Text) (r : Engine D)
      → (((detach driver alias id r).0 ≡ none)
          × ((j : Text)
              → (lookup j (detach driver alias id r).1.memory.sources
                  ≡ (if text_eq id j then none else lookup j r.memory.sources))
                × (lookup j (detach driver alias id r).1.memory.odbc_handles
                    ≡ (if text_eq id j then none else lookup j r.memory.odbc_handles))
                × (lookup j (detach driver alias id r).1.memory.resolver
                    ≡ (if text_eq id j then none else lookup j r.memory.resolver))))
        ⊎ ((is_some (detach driver alias id r).0 ≡ true)
            × ((detach driver alias id r).1.memory ≡ r.memory))
  unfolding detach while_running detach_live forget close_handle
  detach_lem alias id r = elim (Option-cases r.db) [
    | inl e ↦ inr (ground arith)
    | inr (d, e) ↦
        let l : Live D = record { memory = r.memory; world = d } in
        let s = detach_text driver alias in
        elim (Bool-cases (valid_identifier alias)) [
          | inr v ↦ inr (ground arith)
          | inl v ↦ elim (Option-cases (run driver s l).0) [
            | inr (x, f) ↦ inr (ground arith)
            | inl f ↦
                inl (ground arith, λ j. ground (arith, lookup-forget alias id (run driver s l).1 j))
          ]
        ]
  ]

  -- The statements of RotateToken: the old listener is stopped, and the new one served behind it.
  abbrev pub stopping_old : Memory → D → Option GoError × D
  stopping_old m d = driver.exec (quack_stop m.endpoint) d

  abbrev pub serving_new : Memory → Text → D → Option GoError × D
  serving_new m token d = driver.exec (quack_serve m.endpoint token) (stopping_old m d).1

  -- RotateToken of an engine that runs takes the random token, and returns no error, exactly when
  -- the old listener was stopped and the new one is served with that token. If only the new listener
  -- fails, the old token is served again, and the error is returned; whatever fails, the memory
  -- stays as it was. Without a running engine nothing changes.
  pub rotate_token_lem :
      (t : Text) (m : Memory) (d : D)
      → ((stopping_old m d).0 ≡ none
          → (serving_new m t d).0 ≡ none
          → rotate_token driver (ok t) (record { memory = m; db = some d })
            ≡ (none, record { memory = record m { token = t }; db = some (serving_new m t d).1 }))
        × ((stopping_old m d).0 ≡ none
            → is_some (serving_new m t d).0 ≡ true
            → (is_some (rotate_token driver (ok t) (record { memory = m; db = some d })).0 ≡ true)
              × ((rotate_token driver (ok t) (record { memory = m; db = some d })).1 ≡ record {
                memory = m;
                db = some (driver.exec (quack_serve m.endpoint m.token) (serving_new m t d).1).1;
              }))
        × (is_some (stopping_old m d).0 ≡ true
            → (is_some (rotate_token driver (ok t) (record { memory = m; db = some d })).0 ≡ true)
              × ((rotate_token driver (ok t) (record { memory = m; db = some d })).1
                  ≡ record { memory = m; db = some (stopping_old m d).1 }))
        × ((e : GoError) (r : Engine D)
            → (is_some (rotate_token driver (err e) r).0 ≡ true)
              × ((rotate_token driver (err e) r).1 ≡ r))
        × ((random : Result Text)
            → rotate_token driver random (record { memory = m; db = none })
              ≡ (some not_running, record { memory = m; db = none }))
  unfolding rotate_token while_running rotate_live serve_new
  rotate_token_lem t m d = (
    λ h k. ground arith,
    λ h k. (ground arith, ground arith),
    λ h. (ground arith, ground arith),
    λ e r. elim (Option-cases r.db) [
      | inl f ↦ (ground arith, ground arith)
      | inr (d', f) ↦ (ground arith, ground arith)
    ],
    λ random. refl,
  )

  -- What holds after each of two branches holds after the branch that is taken.
  either_branch :
      (P : D → Type 0) (x : Option GoError) (a : Option GoError × D)
      (f : GoError → Option GoError × D)
      → P a.1
      → ((e : GoError) → P (f e).1)
      → P (elim x as (λ y. Option GoError × D) [ none ↦ a | some e ↦ f e ]).1
  either_branch P none a f h k = h
  either_branch P (some e) a f h k = k e

  insert_objects-Pending :
      (Pending : D → D → Type 0) (good : IsTransactional driver Pending) (id : Text)
      (objects : List ObjectType) (d t : D)
      → Pending d t
      → Pending d (insert_objects driver id objects t).1
  unfolding insert_objects
  insert_objects-Pending Pending good id [] d t p = p
  insert_objects-Pending Pending good id (o ∷ rest) d t p =
      let s = insert_object id o.schema o.name o.kind in
      let next = good.executes d t s p in
      let more = insert_objects-Pending Pending good id rest d (driver.exec s t).1 next in
      elim (Bool-cases (text_eq o.kind (lit "table") || text_eq o.kind (lit "view"))) [
        | inr e ↦ rw e p
        | inl e ↦ rw e (either_branch (Pending d) (driver.exec s t).0 _ _ more (λ x. next))
      ]

  replace_objects-Pending :
      (Pending : D → D → Type 0) (good : IsTransactional driver Pending) (id : Text)
      (objects : List ObjectType) (d t : D)
      → Pending d t
      → Pending d (replace_objects driver id objects t).1
  unfolding replace_objects
  replace_objects-Pending Pending good id objects d t p =
      let s = delete_objects id in
      let next = good.executes d t s p in
      either_branch (Pending d) (driver.exec s t).0 _ _
        (insert_objects-Pending Pending good id objects d (driver.exec s t).1 next) (λ x. next)

  end_transaction_back :
      (Pending : D → D → Type 0) (good : IsTransactional driver Pending) (d : D)
      (x : Option GoError × D)
      → Pending d x.1
      → is_some (end_transaction driver x).0 ≡ true
      → (end_transaction driver x).1 ≡ d
  unfolding end_transaction
  end_transaction_back Pending good d (some e, t) p h = good.rolls_back d t p
  end_transaction_back Pending good d (none, t) p h = good.commit_fails d t p (ground arith)

  -- Where the database's transactions are atomic, an update of a source's objects that returns an
  -- error leaves the database as it was.
  pub register_object_types_rolls_back :
      (Pending : D → D → Type 0) (good : IsTransactional driver Pending) (id : Text)
      (objects : List ObjectType) (d : D)
      → is_some (register_object_types driver id objects d).0 ≡ true
      → (register_object_types driver id objects d).1 ≡ d
  unfolding register_object_types
  register_object_types_rolls_back Pending good id objects d h =
      elim (Option-cases (driver.begin d).0) [
        | inr (x, e) ↦ let b = good.begin_fails d (ground arith) in ground arith
        | inl e ↦
            let t = (driver.begin d).1 in
            let p = replace_objects-Pending Pending good id objects d t (good.begins d e) in
            let same : register_object_types driver id objects d
                ≡ end_transaction driver (replace_objects driver id objects t) =
              ground arith in
            ap (λ x. x.1) same
            ∙ end_transaction_back Pending good d (replace_objects driver id objects t) p
                (ap (λ x. is_some x.0) (sym same) ∙ h)
      ]
