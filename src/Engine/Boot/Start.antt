-- ===== src/Engine/Boot/Start.antt =====
-- engine.go Start, isLoopback and verifyVersionPair.
use quackridge.Prelude.{
  ℕ, Bool, true, not, ◌&&◌, ◌||◌, none, some, [], ◌∷◌, ◌++◌, ◌==◌, if◌then◌else◌,
}
use quackridge.Prelude.Text.{Text, lit, text_eq, is_empty}
use quackridge.Prelude.Int.{pos, eq_ℤ, itoa}
use quackridge.Errors.Defs.{public, public_because, internal}
use quackridge.Errors.Result.{Result, ok, err}
use quackridge.Service.Defs.{Options}
use quackridge.Engine.Sql.{extension_sql_path, validate_version_pair}
use quackridge.Engine.Runtime.{
  Statement, text, quack_serve, quack_identify, Engine, internal_failure,
}
use quackridge.Engine.Boot.{
  Host, Booting, Action, ◌>>=◌, cleaning, acquire, value_of, with_error, execute, release_database,
  release_sandbox, release_policy, release_connection,
}
use quackridge.Engine.Boot.Configure.{configure, lock_configuration, install_metadata_relation}

-- strings.Trim(host, "[]")
abbrev pub is_bracket : ℕ → Bool
is_bracket c = c == b'[' || c == b']'

unfoldable pub trim_left : Text → Text
trim_left [] = []
trim_left (c ∷ s) = let rest = trim_left s in if is_bracket c then rest else c ∷ s

unfoldable pub trim_right : Text → Text
trim_right [] = []
trim_right (c ∷ s) =
    let rest = trim_right s in if is_bracket c && is_empty rest then [] else c ∷ rest

-- The two values that a start decides on.
pub record Serving : Type 0 where
  pub uri : Text
  pub token : Text

module _ {D : Type 0} (host : Host D) where
  open host use {
    driver, open_database, ping, engine_version, loaded_versions, make_sandbox, install_policy,
    open_connection, register_resolver, random_token, free_port, join_host_port, is_loopback_ip,
    identity_json,
  }

  -- isLoopback
  unfoldable pub is_loopback : Text → Bool
  is_loopback name = text_eq name (lit "localhost") || is_loopback_ip (trim_right (trim_left name))

  abbrev pub missing_extension : Text
  missing_extension = lit "required extension is unavailable"

  abbrev pub load_statement : Text → Statement
  load_statement path = text (lit "LOAD '" ++ (extension_sql_path path ++ lit "'"))

  -- loadExtension
  unfoldable pub load : Text → Action D (Unit {0})
  load path b = elim (driver.stat path) [
    | some e ↦ (err (public_because internal missing_extension e), b)
    | none ↦
        if not (driver.is_regular path)
        then (err (public internal missing_extension), b)
        else with_error (internal_failure (lit "load required extension"))
            (execute host (load_statement path)) b
  ]

  abbrev pub extension_path : Options → Text → Text
  extension_path options name =
      driver.join_path options.extension_dir (name ++ lit ".duckdb_extension")

  -- verifyVersionPair
  unfoldable pub verify_version_pair : Action D (Unit {0})
  verify_version_pair b = elim (engine_version b.world) [
    | err e ↦ (err (internal_failure (lit "verify DuckDB version") e), b)
    | ok version ↦ elim (loaded_versions b.world) [
      | err e ↦ (err (internal_failure (lit "verify extension versions") e), b)
      | ok versions ↦
          (elim (validate_version_pair version versions) [ some e ↦ err e | none ↦ ok tt ], b)
    ]
  ]

  unfoldable pub ping_database : Action D (Unit {0})
  ping_database b = (
    elim (ping b.world) [ some e ↦ err (internal_failure (lit "start DuckDB") e) | none ↦ ok tt ],
    b,
  )

  unfoldable pub make_sandbox_dir : Action D Text
  make_sandbox_dir b =
      let (result, d) = make_sandbox b.world in
      elim result [
        | err e ↦ (err (internal_failure (lit "create engine sandbox") e), record b { world = d })
        | ok path ↦ (ok path, record b { held = record b.held { sandbox = some path }; world = d })
      ]

  abbrev pub activate_statement : Statement
  activate_statement = text (lit "SET GLOBAL quack_authorization_function = 'quackridge_authorize'")

  abbrev pub listen_host : Options → Text
  listen_host options =
      if is_empty options.listen_host then lit "127.0.0.1" else options.listen_host

  -- The token, the loopback check and the port.
  unfoldable pub choose_token : Options → Result Text
  choose_token options =
      if not (is_empty options.token) then ok options.token else elim random_token [
        | err e ↦ err (internal_failure (lit "generate token") e)
        | ok token ↦ ok token
      ]

  unfoldable pub choose_port : Options → Result Text
  choose_port options =
      if not (is_loopback (listen_host options))
      then err (public internal (lit "listener must use loopback"))
      else if not (eq_ℤ options.listen_port 0)
      then ok (itoa options.listen_port)
      else elim (free_port (listen_host options)) [
        | err e ↦ err (internal_failure (lit "allocate loopback port") e)
        | ok port ↦ ok (itoa (pos port))
      ]

  abbrev pub uri_of : Options → Text → Text
  uri_of options port = lit "quack:" ++ join_host_port (listen_host options) port

  -- From the identity to the listener, which is opened last.
  unfoldable pub publish : Options → (uri token : Text) → Action D Serving
  publish options uri token =
      with_error (internal_failure (lit "publish identity"))
        (execute host (quack_identify (listen_host options) identity_json))
      >>= λ _. install_metadata_relation host >>= λ _. lock_configuration host >>= λ _.
          with_error (internal_failure (lit "start Quack")) (execute host (quack_serve uri token))
          >>= λ _. value_of (ok (record { uri = uri; token = token }))

  -- All that follows the registration of the ODBC resolver.
  unfoldable pub serve : Options → Action D Serving
  serve options =
      with_error (internal_failure (lit "activate authorization policy"))
        (execute host activate_statement)
      >>= λ _. value_of (choose_token options) >>= λ token.
          value_of (choose_port options) >>= λ port. publish options (uri_of options port) token

  abbrev pub close_two : Text → Booting D → Booting D
  close_two sandbox b = release_sandbox host sandbox (release_database host b)

  abbrev pub close_three : Text → Booting D → Booting D
  close_three sandbox b = close_two sandbox (release_policy host b)

  -- From the sandbox on. Every error of `serve` closes three resources, and the deferred function
  -- the connection.
  unfoldable pub boot_sandboxed : Options → Text → Action D Serving
  boot_sandboxed options sandbox =
      cleaning (close_two sandbox) (configure host options sandbox) >>= λ _.
      cleaning (close_two sandbox) (
        with_error (internal_failure (lit "install authorization policy"))
          (acquire install_policy (λ h. record h { policy = true })))
      >>= λ _.
          cleaning (close_three sandbox) (
            with_error (internal_failure (lit "open ODBC credential resolver"))
              (acquire open_connection (λ h. record h { connection = true })))
          >>= λ _.
              cleaning (λ b. close_three sandbox (release_connection host b))
                (with_error (internal_failure (lit "install ODBC credential resolver"))
                  (acquire register_resolver (λ h. h)))
              >>= λ _.
                  cleaning (release_connection host)
                    (cleaning (close_three sandbox) (serve options))

  unfoldable pub boot : Options → Action D Serving
  boot options =
      with_error (internal_failure (lit "open DuckDB"))
        (acquire open_database (λ h. record h { database = true }))
      >>= λ _. cleaning (release_database host) ping_database >>= λ _.
          cleaning (release_database host) (load (extension_path options (lit "httpfs"))) >>= λ _.
          cleaning (release_database host) (load (extension_path options (lit "quack"))) >>= λ _.
          cleaning (release_database host) verify_version_pair >>= λ _.
          cleaning (release_database host) make_sandbox_dir >>= λ sandbox.
          boot_sandboxed options sandbox

  -- What Start stores in the runtime.
  unfoldable pub started : Options → Serving → D → Engine D
  started options s d = record {
    memory = record {
      endpoint = s.uri;
      token = s.token;
      extension_dir = options.extension_dir;
      loaded = lit "httpfs" ∷ lit "quack" ∷ [];
      odbc_handles = [];
      resolver = [];
      sources = [];
    };
    db = some d;
  }

  pub record Outcome : Type 0 where
    pub result : Result Text
    pub engine : Engine D
    pub booting : Booting D

  -- What Start returns and stores.
  unfoldable pub settle : Options → Engine D → Result Serving × Booting D → Outcome
  settle options r (err e, b) = record { result = err e; engine = r; booting = b }
  settle options r (ok s, b) = record {
    result = ok s.uri;
    engine = started options s b.world;
    booting = b;
  }

  -- Start
  unfoldable pub start : Options → Engine D → Booting D → Outcome
  start options r b = elim r.db [
    | some d ↦ record {
      result = err (public internal (lit "engine already started"));
      engine = r;
      booting = b;
    }
    | none ↦
        if is_empty options.extension_dir
        then record {
          result = err (public internal (lit "extension directory is required"));
          engine = r;
          booting = b;
        }
        else settle options r (boot options b)
  ]
