-- ===== src/Engine/Boot/Stop.antt =====
-- engine.go Stop.
use quackridge.Prelude.{
  Bool, true, false, not, ◌&&◌, Option, none, some, List, [], ◌∷◌, ◌++◌, is_some, ◌≡◌, refl, sym,
  arith,
}
use quackridge.Prelude.Text.{Text}
use quackridge.Prelude.Maps.{Map}
use quackridge.Prelude.Int.{ℤ}
use quackridge.Errors.Defs.{GoError, joined}
use quackridge.Engine.Runtime.{Memory, Engine, quack_stop}
use quackridge.Engine.Boot.{Host, Held, nothing_held}

-- errors.Join, where nil is `none`.
unfoldable pub join_errors : Option GoError → Option GoError → Option GoError
join_errors none b = b
join_errors (some a) none = some a
join_errors (some a) (some b) = some (joined a b)

-- New: the runtime before it is started, and what a stop makes of it.
abbrev pub no_memory : Memory
no_memory = record {
  endpoint = [];
  token = [];
  extension_dir = [];
  loaded = [];
  odbc_handles = [];
  resolver = [];
  sources = [];
}

abbrev pub new_engine : {D : Type 0} → Engine D
new_engine = record { memory = no_memory; db = none }

-- What Stop leaves.
pub record Stopped (D : Type 0) : Type 0 where
  pub error : Option GoError
  pub engine : Engine D
  pub held : Held
  pub world : D

module _ {D : Type 0} (host : Host D) where
  open host use {driver, close_connection, close_policy, close_database, remove_all}

  -- The loop over the ODBC handles; every one is closed, whatever the others return.
  unfoldable pub close_handles : Map ℤ → D → Option GoError × D
  close_handles [] d = (none, d)
  close_handles ((_, handle) ∷ rest) d =
      let (error, d') = driver.close_odbc handle d in
      let (others, d'') = close_handles rest d' in (join_errors error others, d'')

  -- r.sandbox is the empty text where there is none.
  abbrev pub sandbox_of : Held → Text
  sandbox_of h = elim h.sandbox [ none ↦ [] | some path ↦ path ]

  -- Stop of a started engine.
  unfoldable pub stop_live : Memory → D → Held → Stopped D
  stop_live m d h =
      let (stop_error, d1) = driver.exec (quack_stop m.endpoint) d in
      let (policy_error, d2) = close_policy d1 in
      let h2 : Held = record h { policy = false } in
      let (handles_error, d3) = close_handles m.odbc_handles d2 in
      let (connection_error, d4) = close_connection d3 in
      let h4 : Held = record h2 { connection = false } in
      let (close_error, d5) = close_database d4 in
      let h5 : Held = record h4 { database = false } in
      let (remove_error, d6) = remove_all (sandbox_of h) d5 in
      record {
        error = join_errors stop_error (
            join_errors policy_error (
              join_errors (join_errors handles_error connection_error)
                (join_errors close_error remove_error)));
        engine = new_engine;
        held = record h5 { sandbox = none };
        world = d6;
      }

  -- Stop
  unfoldable pub stop : Engine D → Held → D → Stopped D
  stop r h d = elim r.db [
    | none ↦ record { error = none; engine = r; held = h; world = d }
    | some db ↦ stop_live r.memory db h
  ]

  -- The calls of a stop, in order, as a list.
  abbrev pub handle_calls : Map ℤ → List (D → Option GoError × D)
  handle_calls [] = []
  handle_calls ((_, handle) ∷ rest) = driver.close_odbc handle ∷ handle_calls rest

  abbrev pub stop_calls : Memory → Text → List (D → Option GoError × D)
  stop_calls m sandbox =
      driver.exec (quack_stop m.endpoint)
      ∷ close_policy
      ∷ (handle_calls m.odbc_handles
          ++ (close_connection ∷ close_database ∷ remove_all sandbox ∷ []))

-- Every call is made, and the first error stops none.
unfoldable pub make_all : {D : Type 0} → List (D → Option GoError × D) → D → Bool × D
make_all [] d = (true, d)
make_all (call ∷ calls) d =
    let (error, d') = call d in
    let (good, d'') = make_all calls d' in (not (is_some error) && good, d'')

good-join_errors :
    (a b : Option GoError) → not (is_some (join_errors a b)) ≡ not (is_some a) && not (is_some b)
unfolding join_errors
good-join_errors none b = refl
good-join_errors (some x) none = refl
good-join_errors (some x) (some y) = refl

module _ {D : Type 0} (host : Host D) where
  make_all-handles :
      (m : Map ℤ) (rest : List (D → Option GoError × D)) (d : D)
      → ((make_all (handle_calls host m ++ rest) d).0
          ≡ not (is_some (close_handles host m d).0)
            && (make_all rest (close_handles host m d).1).0)
        × ((make_all (handle_calls host m ++ rest) d).1
            ≡ (make_all rest (close_handles host m d).1).1)
  unfolding make_all close_handles
  make_all-handles [] rest d = (refl, refl)
  make_all-handles ((k, handle) ∷ m) rest d =
      let d' = (host.driver.close_odbc handle d).1 in
      ground (
        arith,
        make_all-handles m rest d',
        good-join_errors (host.driver.close_odbc handle d).0 (close_handles host m d').0,
      )

  -- Stop of a started engine makes all its calls, in their order and whatever the earlier ones
  -- return: stopping the listener, closing the policy handle, every ODBC handle, the connection and
  -- the database, and removing the sandbox. It returns no error exactly when none of them fails.
  -- Whatever they return, nothing stays open and the engine is as a new one, which can be started
  -- again.
  pub stop_lem :
      (r : Engine D) (h : Held) (db d : D)
      → r.db ≡ some db
      → (not (is_some (stop host r h d).error)
          ≡ (make_all (stop_calls host r.memory (sandbox_of host h)) db).0)
        × ((stop host r h d).world ≡ (make_all (stop_calls host r.memory (sandbox_of host h)) db).1)
        × ((stop host r h d).held ≡ nothing_held)
        × ((stop host r h d).engine ≡ new_engine)
  unfolding stop stop_live make_all
  stop_lem r h db d e =
      let d2 = (host.close_policy (host.driver.exec (quack_stop r.memory.endpoint) db).1).1 in
      let (good, world) =
        make_all-handles r.memory.odbc_handles
          (host.close_connection ∷ host.close_database ∷ host.remove_all (sandbox_of host h) ∷ [])
          d2 in
      rw e (simp (good-join_errors, good) (ground arith), sym world, refl, refl)
