-- ===== src/Engine/Boot.antt =====
-- engine.go Start and Stop: the resources that a start acquires, and how each error gives them back.
-- The close of a resource may fail in Start, which ignores it.
pub mod Configure
pub mod Start
pub mod Resources
pub mod Stop
use quackridge.Prelude.{ℕ, Bool, false, Option, none, some, List, ◌∷◌}
use quackridge.Prelude.Text.{Text}
use quackridge.Prelude.Maps.{Map}
use quackridge.Errors.Defs.{GoError}
use quackridge.Errors.Result.{Result, ok, err}
use quackridge.Engine.Runtime.{Statement, Driver}

-- What Start and Stop use besides the statements: database/sql, the file system, the policy's
-- registration, crypto/rand, package net, and encoding/json of the identity.
pub record Host (D : Type 0) : Type 0 where
  pub driver : Driver D
  pub open_database : D → Option GoError × D
  pub ping : D → Option GoError
  pub engine_version : D → Result Text
  pub loaded_versions : D → Result (Map Text)
  pub make_sandbox : D → Result Text × D
  pub install_policy : D → Option GoError × D
  pub open_connection : D → Option GoError × D
  pub register_resolver : D → Option GoError × D
  pub close_connection : D → Option GoError × D
  pub close_policy : D → Option GoError × D
  pub close_database : D → Option GoError × D
  pub remove_all : Text → D → Option GoError × D
  pub random_token : Result Text
  pub free_port : Text → Result ℕ
  pub join_host_port : Text → Text → Text
  pub is_loopback_ip : Text → Bool
  pub identity_json : Text

-- What is open: the database, the sandbox directory by its path, the policy handle, and the ODBC
-- resolver's connection.
pub record Held : Type 0 where
  pub database : Bool
  pub sandbox : Option Text
  pub policy : Bool
  pub connection : Bool

abbrev pub nothing_held : Held
nothing_held = record { database = false; sandbox = none; policy = false; connection = false }

-- A start on its way: what is open, the statements executed so far (last first) and the world.
pub record Booting (D : Type 0) : Type 0 where
  pub held : Held
  pub executed : List Statement
  pub world : D

-- A part of Start: it returns a value or the error, and what it did stays done.
abbrev pub Action : Type 0 → Type 0 → Type 0
Action D V = Booting D → Result V × Booting D

infixl 5 ◌>>=◌
abbrev pub ◌>>=◌ : {D V U : Type 0} → Action D V → (V → Action D U) → Action D U
◌>>=◌ m f b = let (r, b') = m b in elim r [ ok v ↦ f v b' | err e ↦ (err e, b') ]

-- `if err := …; err != nil { cleanup; return err }`
abbrev pub cleaning : {D V : Type 0} → (Booting D → Booting D) → Action D V → Action D V
cleaning cleanup m b =
    let (r, b') = m b in elim r [ ok v ↦ (ok v, b') | err e ↦ (err e, cleanup b') ]

-- A call that returns only an error, with what it opens.
abbrev pub acquire : {D : Type 0} → (D → Option GoError × D) → (Held → Held) → Action D (Unit {0})
acquire call taken b =
    let (error, d) = call b.world in
    elim error [
      | some e ↦ (err e, record b { world = d })
      | none ↦ (ok tt, record b { held = taken b.held; world = d })
    ]

-- A value that a call returns and that opens nothing.
abbrev pub value_of : {D V : Type 0} → Result V → Action D V
value_of r b = (r, b)

-- An error of a call, passed on as another.
abbrev pub with_error : {D V : Type 0} → (GoError → GoError) → Action D V → Action D V
with_error f m b = let (r, b') = m b in elim r [ ok v ↦ (ok v, b') | err e ↦ (err (f e), b') ]

module _ {D : Type 0} (host : Host D) where
  open host use {driver, close_connection, close_policy, close_database, remove_all}

  -- ExecContext; only what succeeds is recorded as executed.
  abbrev pub execute : Statement → Action D (Unit {0})
  execute s b =
      let (error, d) = driver.exec s b.world in
      elim error [
        | some e ↦ (err e, record b { world = d })
        | none ↦ (ok tt, record b { executed = s ∷ b.executed; world = d })
      ]

  abbrev pub release_database : Booting D → Booting D
  release_database b = record b {
    held = record b.held { database = false };
    world = (close_database b.world).1;
  }

  abbrev pub release_sandbox : Text → Booting D → Booting D
  release_sandbox path b = record b {
    held = record b.held { sandbox = none };
    world = (remove_all path b.world).1;
  }

  abbrev pub release_policy : Booting D → Booting D
  release_policy b = record b {
    held = record b.held { policy = false };
    world = (close_policy b.world).1;
  }

  abbrev pub release_connection : Booting D → Booting D
  release_connection b = record b {
    held = record b.held { connection = false };
    world = (close_connection b.world).1;
  }
