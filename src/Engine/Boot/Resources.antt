-- ===== src/Engine/Boot/Resources.antt =====
-- Start by its parts: what is open and what is executed after each, and after an error.
pub mod Parts
pub mod Sandboxed
pub mod Whole
use quackridge.Prelude.{◌-◌, ◌≡◌, ap, Bool, true, false, ◌||◌, Option, none, some, List, [], ◌∷◌}
use quackridge.Errors.Defs.{GoError}
use quackridge.Errors.Result.{Result, ok, err}
use quackridge.Engine.Runtime.{Statement, quack_serve}
use quackridge.Engine.Boot.{
  Host, Held, Booting, Action, ◌>>=◌, cleaning, acquire, value_of, with_error, execute,
}

-- The listener is opened.
abbrev pub is_serve : Statement → Bool
is_serve (quack_serve _ _) = true
is_serve _ = false

abbrev pub serves : List Statement → Bool
serves [] = false
serves (s ∷ rest) = is_serve s || serves rest

-- What a part of Start may assume and leaves: what is open and what has been executed.
pub record Stage : Type 0 where
  pub held : Held
  pub executed : List Statement

abbrev pub At : {D : Type 0} → Stage → Booting D → Type 0
At p b = (b.held ≡ p.held) × (b.executed ≡ p.executed)

-- Where a part ends: at the stage of its value, or with an error, what is then open, and no listener.
abbrev pub Ended : {D V : Type 0} → (V → Stage) → Held → Result V × Booting D → Type 0
Ended {D = D} q e (ok v, b) = At (q v) b
Ended {D = D} q e (err x, b) = (b.held ≡ e) × (serves b.executed ≡ false)

-- From the stage p the part ends in this way.
abbrev pub Ends : {D V : Type 0} → Action D V → Stage → (V → Stage) → Held → Type 0
Ends m p q e = (b : Booting _) → At p b → Ended q e (m b)

pub then_Ends :
    {D V U : Type 0} (m : Action D V) (f : V → Action D U) (p : Stage) (q : V → Stage)
    (r : U → Stage) (e : Held)
    → Ends m p q e
    → ((v : V) → Ends (f v) (q v) r e)
    → Ends (m >>= f) p r e
then_Ends {D} {V} {U} m f p q r e h k b a = go (m b) (h b a)
  where
    go :
        (x : Result V × Booting D)
        → Ended {D = D} q e x
        → Ended {D = D} r e (elim x.0 [ ok v ↦ f v x.1 | err y ↦ (err y, x.1) ])
    go (ok v, b') t = k v b' t
    go (err y, b') t = t

pub cleaning-Ends :
    {D V : Type 0} (c : Booting D → Booting D) (m : Action D V) (p : Stage) (q : V → Stage)
    (e e' : Held)
    → Ends m p q e
    → ((b : Booting D) → b.held ≡ e → ((c b).held ≡ e') × ((c b).executed ≡ b.executed))
    → Ends (cleaning c m) p q e'
cleaning-Ends {D} {V} c m p q e e' h k b a = go (m b) (h b a)
  where
    go :
        (x : Result V × Booting D)
        → Ended {D = D} q e x
        → Ended {D = D} q e' (elim x.0 [ ok v ↦ (ok v, x.1) | err y ↦ (err y, c x.1) ])
    go (ok v, b') t = t
    go (err y, b') (t, u) = let (w, z) = k b' t in (w, rw z u)

pub with_error-Ends :
    {D V : Type 0} (f : GoError → GoError) (m : Action D V) (p : Stage) (q : V → Stage) (e : Held)
    → Ends m p q e
    → Ends (with_error f m) p q e
with_error-Ends {D} {V} f m p q e h b a = go (m b) (h b a)
  where
    go :
        (x : Result V × Booting D)
        → Ended {D = D} q e x
        → Ended {D = D} q e (elim x.0 [ ok v ↦ (ok v, x.1) | err y ↦ (err (f y), x.1) ])
    go (ok v, b') t = t
    go (err y, b') t = t

pub execute-Ends :
    {D : Type 0} (host : Host D) (s : Statement) (p : Stage)
    → serves p.executed ≡ false
    → Ends (execute host s) p (λ _. record p { executed = s ∷ p.executed }) p.held
execute-Ends {D} host s p h b (x, y) = go (host.driver.exec s b.world)
  where
    go :
        (c : Option GoError × D)
        → Ended {D = D} {V = Unit {0}}
            (λ _. record p { executed = s ∷ p.executed })
            p.held
            (elim c.0 [
              | some e ↦ (err e, record b { world = c.1 })
              | none ↦ (ok tt, record b { executed = s ∷ b.executed; world = c.1 })
            ])
    go (none, d) = (x, ap (λ l. s ∷ l) y)
    go (some e, d) = (x, rw y h)

pub acquire-Ends :
    {D : Type 0} (call : D → Option GoError × D) (taken : Held → Held) (p : Stage)
    → serves p.executed ≡ false
    → Ends (acquire call taken) p (λ _. record p { held = taken p.held }) p.held
acquire-Ends {D} call taken p h b (x, y) = go (call b.world)
  where
    go :
        (c : Option GoError × D)
        → Ended {D = D} {V = Unit {0}}
            (λ _. record p { held = taken p.held })
            p.held
            (elim c.0 [
              | some e ↦ (err e, record b { world = c.1 })
              | none ↦ (ok tt, record b { held = taken b.held; world = c.1 })
            ])
    go (none, d) = (ap taken x, y)
    go (some e, d) = (x, rw y h)

pub value_of-Ends :
    {D V : Type 0} (v : Result V) (p : Stage)
    → serves p.executed ≡ false
    → Ends {D = D} (value_of v) p (λ _. p) p.held
value_of-Ends (ok v) p h b a = a
value_of-Ends (err x) p h b (a, c) = (a, rw c h)
