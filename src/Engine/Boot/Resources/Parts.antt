-- ===== src/Engine/Boot/Resources/Parts.antt =====
-- Start as a whole.
use quackridge.Errors.Result.{ok}
use quackridge.Errors.Defs.{GoError}
use quackridge.Prelude.{◌≡◌, inl, inr, false, some, List, [], ◌∷◌, arith, ltb, Bool-cases, refl}
use quackridge.Prelude.Text.{Text, lit}
use quackridge.Service.Defs.{Options}
use quackridge.Engine.Runtime.{
  Statement, quack_identify, create_sources, create_objects, create_metadata, create_active_queries,
  quack_serve, internal_failure,
}
use quackridge.Engine.Boot.{Host, execute, Held, value_of, with_error}
use quackridge.Engine.Boot.Configure.{
  settings, thread_count, execute_all, configure, lock_statement, lock_configuration,
  install_metadata_relation,
}
use quackridge.Engine.Boot.Start.{
  load, load_statement, extension_path, verify_version_pair, ping_database, make_sandbox_dir,
  activate_statement, listen_host, Serving, choose_token, choose_port, uri_of, publish, serve,
}
use quackridge.Engine.Boot.Resources.{
  is_serve, serves, Stage, Ends, then_Ends, with_error-Ends, execute-Ends, value_of-Ends,
}

-- The statements of a list, executed after those of another.
abbrev pub after : List Statement → List Statement → List Statement
after [] executed = executed
after (s ∷ rest) executed = after rest (s ∷ executed)

-- No statement of the list opens the listener.
abbrev pub Quiet : List Statement → Type 0
Quiet [] = Unit
Quiet (s ∷ rest) = (is_serve s ≡ false) × Quiet rest

serves-after :
    (l executed : List Statement)
    → Quiet l
    → serves executed ≡ false
    → serves (after l executed) ≡ false
serves-after [] executed q h = h
serves-after (s ∷ rest) executed (a, q) h = serves-after rest (s ∷ executed) q (ground arith)

-- What a start executes before the settings, then with them, and up to the listener, last first.
abbrev pub loaded : {D : Type 0} → Host D → Options → List Statement
loaded host options =
    load_statement host (extension_path host options (lit "quack"))
    ∷ load_statement host (extension_path host options (lit "httpfs"))
    ∷ []

abbrev pub configured : {D : Type 0} → Host D → Options → Text → List Statement
configured host options sandbox =
    after (settings host.driver.join_path options sandbox) (loaded host options)

abbrev pub published : {D : Type 0} → Host D → Options → Text → List Statement
published host options sandbox =
    lock_statement host
    ∷ create_active_queries
    ∷ create_metadata
    ∷ create_objects
    ∷ create_sources
    ∷ quack_identify (listen_host host options) host.identity_json
    ∷ activate_statement host
    ∷ configured host options sandbox

module _ {D : Type 0} (host : Host D) where
  execute_all-Ends :
      (l : List Statement) (p : Stage)
      → Quiet l
      → serves p.executed ≡ false
      → Ends (execute_all host l) p (λ _. record p { executed = after l p.executed }) p.held
  unfolding execute_all
  execute_all-Ends [] p q h = λ b a. a
  execute_all-Ends (s ∷ rest) p (a, q) h =
      let p' : Stage = record p { executed = s ∷ p.executed } in
      then_Ends (execute host s) (λ _. execute_all host rest) p (λ _. p') _ p.held
        (execute-Ends host s p h) (λ _. execute_all-Ends rest p' q (ground arith))

  settings-Quiet :
      (options : Options) (sandbox : Text) → Quiet (settings host.driver.join_path options sandbox)
  unfolding settings
  settings-Quiet options sandbox = ground arith

  pub configure-Ends :
      (options : Options) (sandbox : Text) (p : Stage)
      → serves p.executed ≡ false
      → Ends
          (configure host options sandbox)
          p
          (λ _. record p {
            executed = after (settings host.driver.join_path options sandbox) p.executed;
          })
          p.held
  unfolding configure
  configure-Ends options sandbox p h b (x, y) =
      elim (Bool-cases (ltb 64 (thread_count options.threads))) [
        | inl e ↦ rw e (x, rw y h)
        | inr e ↦ rw e (
            with_error-Ends _ _ p _ p.held
              (execute_all-Ends (settings host.driver.join_path options sandbox) p
                (settings-Quiet options sandbox) h)
              b (x, y))
      ]

  pub load-Ends :
      (path : Text) (p : Stage)
      → serves p.executed ≡ false
      → Ends
          (load host path)
          p
          (λ _. record p { executed = load_statement host path ∷ p.executed })
          p.held
  unfolding load
  load-Ends path p h b (x, y) = ground arith

  pub verify-Ends :
      (p : Stage) → serves p.executed ≡ false → Ends (verify_version_pair host) p (λ _. p) p.held
  unfolding verify_version_pair
  verify-Ends p h b (x, y) = ground arith

  pub ping-Ends :
      (p : Stage) → serves p.executed ≡ false → Ends (ping_database host) p (λ _. p) p.held
  unfolding ping_database
  ping-Ends p h b (x, y) = ground arith

  pub sandbox-Ends :
      (p : Stage)
      → serves p.executed ≡ false
      → Ends
          (make_sandbox_dir host)
          p
          (λ path. record p { held = record p.held { sandbox = some path } })
          p.held
  unfolding make_sandbox_dir
  sandbox-Ends p h b (x, y) = ground arith

  pub serves-configured :
      (options : Options) (sandbox : Text) → serves (configured host options sandbox) ≡ false
  serves-configured options sandbox =
      serves-after (settings host.driver.join_path options sandbox) (loaded host options)
        (settings-Quiet options sandbox) refl

  -- After `serve` the listener's statement is on top of the others.
  abbrev pub serving : Options → Held → Text → Serving → Stage
  serving options h sandbox s = record {
    held = h;
    executed = quack_serve s.uri s.token ∷ published host options sandbox;
  }

  -- An error that is renamed, and a statement.
  step-Ends :
      (f : GoError → GoError) (s : Statement) (p : Stage)
      → serves p.executed ≡ false
      → Ends (with_error f (execute host s)) p (λ _. record p { executed = s ∷ p.executed }) p.held
  step-Ends f s p h = with_error-Ends f (execute host s) p _ p.held (execute-Ends host s p h)

  publish-Ends :
      (options : Options) (h : Held) (sandbox uri token : Text)
      → Ends
          (publish host options uri token)
          (record {
            held = h;
            executed = activate_statement host ∷ configured host options sandbox;
          })
          (serving options h sandbox)
          h
  unfolding publish install_metadata_relation lock_configuration
  publish-Ends options h sandbox uri token =
      let c = serves-configured options sandbox in
      let at : List Statement → Stage = λ l. record { held = h; executed = l } in
      let l1 = activate_statement host ∷ configured host options sandbox in
      let l2 = quack_identify (listen_host host options) host.identity_json ∷ l1 in
      let l3 = create_sources ∷ l2 in
      let l4 = create_objects ∷ l3 in
      let l5 = create_metadata ∷ l4 in
      let l6 = create_active_queries ∷ l5 in
      let l7 = lock_statement host ∷ l6 in
      let relations =
        then_Ends _ _ (at l2) (λ _. at l3) (λ _. at l6) h (step-Ends _ _ (at l2) c)
          (λ _.
            then_Ends _ _ (at l3) (λ _. at l4) (λ _. at l6) h (step-Ends _ _ (at l3) c)
              (λ _.
                then_Ends _ _ (at l4) (λ _. at l5) (λ _. at l6) h (step-Ends _ _ (at l4) c)
                  (λ _. step-Ends _ _ (at l5) c))) in
      let served : Serving = record { uri = uri; token = token } in
      let opened =
        then_Ends
          (with_error (internal_failure (lit "start Quack")) (execute host (quack_serve uri token)))
          (λ _. value_of {D = D} (ok served)) (at l7) (λ _. at (quack_serve uri token ∷ l7))
          (serving options h sandbox) h (step-Ends _ _ (at l7) c) (λ _ b a. a) in
      then_Ends _ _ (at l1) (λ _. at l2) _ h (step-Ends _ _ (at l1) c)
        (λ _.
          then_Ends _ _ (at l2) (λ _. at l6) _ h relations
            (λ _. then_Ends _ _ (at l6) (λ _. at l7) _ h (step-Ends _ _ (at l6) c) (λ _. opened)))

  pub serve-Ends :
      (options : Options) (h : Held) (sandbox : Text)
      → Ends
          (serve host options)
          (record { held = h; executed = configured host options sandbox })
          (serving options h sandbox)
          h
  unfolding serve
  serve-Ends options h sandbox =
      let c = serves-configured options sandbox in
      let p0 : Stage = record { held = h; executed = configured host options sandbox } in
      let p1 : Stage = record {
        held = h;
        executed = activate_statement host ∷ configured host options sandbox;
      } in
      then_Ends _ _ p0 (λ _. p1) _ h (step-Ends _ _ p0 c)
        (λ _.
          then_Ends _ _ p1 (λ _. p1) _ h (value_of-Ends (choose_token host options) p1 c)
            (λ token.
              then_Ends _ _ p1 (λ _. p1) _ h (value_of-Ends (choose_port host options) p1 c)
                (λ port. publish-Ends options h sandbox (uri_of host options port) token)))
