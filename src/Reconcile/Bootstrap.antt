-- ===== src/Reconcile/Bootstrap.antt =====
-- What Bootstrap does with each source of a configuration.
use quackridge.Prelude.{
  ◌≡◌, refl, sym, ap, ◌⊎◌, inl, inr, Bool, true, false, List, [], ◌∷◌, ◌++◌, arith, if◌then◌else◌,
  is_some,
}
use quackridge.Prelude.Lists.{All}
use quackridge.Prelude.Maps.{Map, lookup, lookup-insert, lookup-insert_self}
use mathlib.Core.Path.{subst}
use quackridge.Errors.Defs.{GoError}
use quackridge.Errors.Result.{Result, ok, err}
use quackridge.Config.Document.{Source, Document}
use quackridge.Reconcile.Manager.{
  Adapters, Prepared, Environment, Failure, Boot, bring_up, note, bootstrap_sources, bootstrap,
}

-- A failure of the source with this error is in the list.
abbrev pub Recorded : Source → GoError → List Failure → Type 0
Recorded s e [] = ⊥
Recorded s e (f ∷ rest) =
    ((f.id ≡ s.id) × (f.name ≡ s.name) × (f.kind ≡ s.kind) × (f.error ≡ e)) ⊎ Recorded s e rest

Recorded-append :
    (s : Source) (e : GoError) (fs gs : List Failure) → Recorded s e fs → Recorded s e (fs ++ gs)
Recorded-append s e [] gs h = absurd h
Recorded-append s e (f ∷ fs) gs (inl h) = inl h
Recorded-append s e (f ∷ fs) gs (inr h) = inr (Recorded-append s e fs gs h)

Recorded-last :
    (s : Source) (e : GoError) (fs gs : List Failure) → Recorded s e gs → Recorded s e (fs ++ gs)
Recorded-last s e [] gs h = h
Recorded-last s e (f ∷ fs) gs h = inr (Recorded-last s e fs gs h)

All-at :
    {A : Type 0} (P : A → Type 0) (before : List A) {x : A} (after : List A)
    → All P (before ++ x ∷ after)
    → P x
All-at P [] after (h, _) = h
All-at P (y ∷ before) after (_, h) = All-at P before after h

module _ {A : Type 0} {W : Type 0} (adapters : Adapters A W) (environment : Environment A) where
  -- The source is active, or its failure is recorded.
  abbrev pub Accounted : Boot adapters environment → Source → Type 0
  Accounted b s =
      (is_some (lookup s.id b.active) ≡ true) ⊎ ((e : GoError) × Recorded s e b.failures)

  note_keeps :
      (t s : Source) (result : Result (Prepared A) × W) (b : Boot adapters environment)
      → Accounted b t
      → Accounted (note adapters environment s result b) t
  unfolding note
  note_keeps t s (ok c, w) b (inl h) = inl (ground (arith, lookup-insert s.id t.id c b.active))
  note_keeps t s (ok c, w) b (inr h) = inr h
  note_keeps t s (err e, w) b (inl h) = inl h
  note_keeps t s (err e, w) b (inr (x, h)) = inr (x, Recorded-append t x b.failures _ h)

  note_accounts :
      (s : Source) (result : Result (Prepared A) × W) (b : Boot adapters environment)
      → Accounted (note adapters environment s result b) s
  unfolding note
  note_accounts s (ok c, w) b = inl (ground (arith, lookup-insert_self s.id c b.active))
  note_accounts s (err e, w) b =
      inr (e, Recorded-last s e b.failures _ (inl (refl, refl, refl, refl)))

  either_Accounted :
      (t : Source) (c : Bool) (x y : Boot adapters environment)
      → Accounted x t
      → Accounted y t
      → Accounted (if c then x else y) t
  either_Accounted t true x y h k = h
  either_Accounted t false x y h k = k

  Accounted-later :
      (rest : List Source) (b : Boot adapters environment) (t : Source)
      → Accounted b t
      → Accounted (bootstrap_sources adapters environment rest b) t
  unfolding bootstrap_sources
  Accounted-later [] b t h = h
  Accounted-later (s ∷ rest) b t h =
      let noted = note adapters environment s (bring_up adapters environment s b.world) b in
      Accounted-later rest (if s.enabled then noted else b) t (
        either_Accounted t s.enabled noted b
          (note_keeps t s (bring_up adapters environment s b.world) b h) h)

  accounts-All :
      (sources : List Source) (b : Boot adapters environment)
      → All
          (λ s. s.enabled ≡ true → Accounted (bootstrap_sources adapters environment sources b) s)
          sources
  unfolding bootstrap_sources
  accounts-All [] b = tt
  accounts-All (s ∷ rest) b =
      let noted : Boot adapters environment =
        note adapters environment s (bring_up adapters environment s b.world) b in
      (
        λ e.
            subst (λ x. Accounted (bootstrap_sources adapters environment rest x) s)
              (ap (λ c. if c then noted else b) (sym e))
              (Accounted-later rest noted s
                (note_accounts s (bring_up adapters environment s b.world) b)),
        accounts-All rest (if s.enabled then noted else b),
      )

  -- Bootstrap of a document that was loaded never fails, and leaves no enabled source out, however
  -- many others fail: each one is active afterwards or stands among the failures with its id, name
  -- and type.
  pub bootstrap_accounts :
      (document : Document) (active : Map (Prepared A)) (w : W) (before after : List Source)
      (s : Source)
      → document.sources ≡ before ++ s ∷ after
      → s.enabled ≡ true
      → (b : Boot adapters environment) × (bootstrap adapters environment (ok document) active w
          ≡ ok b)
        × Accounted b s
  unfolding bootstrap
  bootstrap_accounts document active w before after s h e =
      let start : Boot adapters environment = record {
        active = active;
        failures = [];
        world = w;
      } in
      let b = bootstrap_sources adapters environment document.sources start in
      let every_source = accounts-All document.sources start in
      (
        b,
        refl,
        All-at (λ x. x.enabled ≡ true → Accounted b x) before after
            (subst (λ l. All (λ x. x.enabled ≡ true → Accounted b x) l) h every_source) e,
      )
