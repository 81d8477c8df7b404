-- ===== src/Engine/Boot/Resources/Whole.antt =====
-- Start as a whole: what it leaves open and what it has executed.
use quackridge.Prelude.{
  ◌≡◌, refl, ap, ◌∙◌, Bool, true, false, Option, none, some, List, [], ◌∷◌, if◌then◌else◌,
}
use quackridge.Prelude.Text.{Text, lit, is_empty}
use quackridge.Service.Defs.{Options}
use quackridge.Errors.Defs.{public, internal}
use quackridge.Errors.Result.{Result, ok, err}
use quackridge.Engine.Runtime.{quack_serve, Statement, Engine, internal_failure}
use quackridge.Engine.Boot.{
  Host, nothing_held, Booting, Action, ◌>>=◌, cleaning, acquire, with_error, release_database,
}
use quackridge.Engine.Boot.Start.{
  load_statement, extension_path, Serving, boot_sandboxed, boot, started, Outcome, start, settle,
}
use quackridge.Engine.Boot.Resources.{
  serves, Stage, Ends, with_error-Ends, At, Ended, cleaning-Ends, acquire-Ends,
}
use quackridge.Engine.Boot.Resources.Parts.{
  published, loaded, serving, load-Ends, verify-Ends, ping-Ends, sandbox-Ends,
}
use quackridge.Engine.Boot.Resources.Sandboxed.{
  with_database, with_sandbox, all_held, drop_database, boot_sandboxed-Ends,
}

module _ {D : Type 0} (host : Host D) where
  -- Where a start ends: all is open and all has been executed, or nothing is open and no listener.
  unfoldable pub Booted : Options → Result Serving × Booting D → Type 0
  Booted options (ok s, b) =
      (sandbox : Text) × At (serving host options (all_held sandbox) sandbox s) b
  Booted options (err e, b) = (b.held ≡ nothing_held) × (serves b.executed ≡ false)

  Boots : Options → Action D Serving → Stage → Type 0
  Boots options m p = (b : Booting D) → At p b → Booted options (m b)

  then_Boots :
      {V : Type 0} (options : Options) (m : Action D V) (f : V → Action D Serving) (p : Stage)
      (q : V → Stage)
      → Ends m p q nothing_held
      → ((v : V) → Boots options (f v) (q v))
      → Boots options (m >>= f) p
  unfolding Booted Boots
  then_Boots {V} options m f p q h k b a = go (m b) (h b a)
    where
      go :
          (x : Result V × Booting D)
          → Ended {D = D} q nothing_held x
          → Booted options (elim x.0 [ ok v ↦ f v x.1 | err y ↦ (err y, x.1) ])
      go (ok v, b') t = k v b' t
      go (err y, b') t = t

  -- A step before the sandbox, with its cleanup.
  guarded :
      {V : Type 0} (m : Action D V) (p : Stage) (q : V → Stage)
      → p.held ≡ with_database
      → Ends m p q p.held
      → Ends (cleaning (release_database host) m) p q nothing_held
  guarded m p q e h =
      cleaning-Ends (release_database host) m p q p.held nothing_held h
        (λ b a. (ap drop_database (a ∙ e), refl))

  sandboxed-Boots :
      (options : Options) (sandbox : Text)
      → Boots options
          (boot_sandboxed host options sandbox)
          (record { held = with_sandbox sandbox; executed = loaded host options })
  unfolding Booted Boots
  sandboxed-Boots options sandbox b a =
      go (boot_sandboxed host options sandbox b) (boot_sandboxed-Ends host options sandbox b a)
    where
      go :
          (x : Result Serving × Booting D)
          → Ended {D = D} (serving host options (all_held sandbox) sandbox) nothing_held x
          → Booted options x
      go (ok s, b') t = (sandbox, t)
      go (err e, b') t = t

  boot-Boots :
      (options : Options)
      → Boots options (boot host options) (record { held = nothing_held; executed = [] })
  unfolding boot Boots
  boot-Boots options =
      let at : List Statement → Stage = λ l. record { held = with_database; executed = l } in
      let httpfs = extension_path host options (lit "httpfs") in
      let quack = extension_path host options (lit "quack") in
      let l1 = load_statement host httpfs ∷ [] in
      then_Boots options
        (with_error (internal_failure (lit "open DuckDB"))
          (acquire host.open_database (λ h. record h { database = true })))
        _ (record { held = nothing_held; executed = [] }) (λ _. at [])
        (with_error-Ends _ _ (record { held = nothing_held; executed = [] }) (λ _. at [])
          nothing_held
          (acquire-Ends host.open_database (λ h. record h { database = true })
            (record { held = nothing_held; executed = [] }) refl))
        (λ _.
          then_Boots options _ _ (at []) (λ _. at [])
            (guarded _ (at []) (λ _. at []) refl (ping-Ends host (at []) refl))
            (λ _.
              then_Boots options _ _ (at []) (λ _. at l1)
                (guarded _ (at []) (λ _. at l1) refl (load-Ends host httpfs (at []) refl))
                (λ _.
                  then_Boots options _ _ (at l1) (λ _. at (loaded host options))
                    (guarded _ (at l1) (λ _. at (loaded host options)) refl
                      (load-Ends host quack (at l1) refl))
                    (λ _.
                      then_Boots options _ _ (at (loaded host options))
                        (λ _. at (loaded host options))
                        (guarded _ _ _ refl (verify-Ends host (at (loaded host options)) refl))
                        (λ _.
                          then_Boots options _ _ (at (loaded host options))
                            (λ path. record {
                              held = with_sandbox path;
                              executed = loaded host options;
                            })
                            (guarded _ _ _ refl (sandbox-Ends host (at (loaded host options)) refl))
                            (λ path. sandboxed-Boots options path))))))

  -- What Start has done when it returns.
  unfoldable pub Settled : Options → Engine D → Result Text → Engine D → Booting D → Type 0
  Settled options r (ok uri) r' b =
      (r.db ≡ none)
      × (r'.db ≡ some b.world)
      × (r'.memory.endpoint ≡ uri)
      × (sandbox : Text) × (b.held ≡ all_held sandbox)
      × (b.executed ≡ quack_serve uri r'.memory.token ∷ published host options sandbox)
  Settled options r (err e) r' b = (r' ≡ r) × (b.held ≡ nothing_held) × (serves b.executed ≡ false)

  Settles : Options → Engine D → Outcome host → Type 0
  Settles options r o = Settled options r o.result o.engine o.booting

  settle-Settled :
      (options : Options) (r : Engine D) (x : Result Serving × Booting D)
      → r.db ≡ none
      → Booted options x
      → Settles options r (settle host options r x)
  unfolding settle Settled Settles Booted started
  settle-Settled options r (ok s, b) n (sandbox, a) = (n, refl, refl, sandbox, a.0, a.1)
  settle-Settled options r (err x, b) n (h, e) = (refl, h, e)

  -- A start that returns an error leaves the engine as it was, holds no database, directory, policy
  -- handle or connection, and has opened no listener. One that returns an endpoint found no started
  -- engine, holds all four, and has executed, in this order, the two loads, every setting, the
  -- activation of the authorization policy, the identity, the relations, the lock of the
  -- configuration and, last of all, the opening of the listener at that endpoint.
  pub start-Settled :
      (options : Options) (r : Engine D) (b : Booting D)
      → b.held ≡ nothing_held
      → b.executed ≡ []
      → Settled options r
          (start host options r b).result
          (start host options r b).engine
          (start host options r b).booting
  unfolding start Settled Settles Boots
  start-Settled options r b h e = go r.db refl (is_empty options.extension_dir)
    where
      refused : Text → Outcome host
      refused x = record { result = err (public internal x); engine = r; booting = b }

      go :
          (y : Option D)
          → r.db ≡ y
          → (z : Bool)
          → Settles options r (elim y [
            | some d ↦ refused (lit "engine already started")
            | none ↦
                if z
                then refused (lit "extension directory is required")
                else settle host options r (boot host options b)
          ])
      go (some d) n z = (refl, h, rw e refl)
      go none n true = (refl, h, rw e refl)
      go none n false =
          settle-Settled options r (boot host options b) n (boot-Boots options b (h, e))
