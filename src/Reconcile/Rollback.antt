-- ===== src/Reconcile/Rollback.antt =====
-- A Reload that fails is rolled back.
use quackridge.Prelude.{
  ◌≡◌, refl, inl, inr, Bool, true, false, Option, none, some, List, [], ◌∷◌, arith, if◌then◌else◌,
  Bool-cases, Option-cases, is_some,
}
use quackridge.Prelude.Text.{Text, text_eq}
use quackridge.Prelude.Maps.{Map, lookup, keys}
use quackridge.Prelude.Sort.{sort}
use quackridge.Errors.Result.{Result, Result-cases}
use quackridge.Config.Document.{Document}
use quackridge.Source.{Definition}
use quackridge.Reconcile.Manager.{Adapters, Prepared, Environment, prepare}
use quackridge.Reconcile.Apply.{
  Progress, staged, attach, detach, undo_one, run_undo, attach_new, swap, replace, apply_candidate,
  apply_id, apply_ids, remove_one, remove_rest, begin, apply_all, apply, reload,
}

module _ {A : Type 0} {W : Type 0} (adapters : Adapters A W) where
  -- `RolledBack w w'`: from w to w' by calls of the adapters that are nested as brackets. An
  -- attachment is taken down again by a cleanup of the same adapter and definition, a cleanup is
  -- taken back by an attach of the same, both after the calls between them; a failed call stands
  -- alone. A candidate is tried under its temporary name by an attach and a cleanup at once.
  pub data RolledBack : W → W → Type 0 where
    untouched : {w : W} → RolledBack w w
    failed_attach :
        {w w' : W} (a : A) (d : Definition)
        → is_some (adapters.attach a d w).0 ≡ true
        → RolledBack (adapters.attach a d w).1 w'
        → RolledBack w w'
    failed_cleanup :
        {w w' : W} (a : A) (d : Definition)
        → is_some (adapters.cleanup a d w).0 ≡ true
        → RolledBack (adapters.cleanup a d w).1 w'
        → RolledBack w w'
    attached :
        {w inner w' : W} (a : A) (d : Definition)
        → (adapters.attach a d w).0 ≡ none
        → RolledBack (adapters.attach a d w).1 inner
        → RolledBack (adapters.cleanup a d inner).1 w'
        → RolledBack w w'
    detached :
        {w inner w' : W} (a : A) (d : Definition)
        → (adapters.cleanup a d w).0 ≡ none
        → RolledBack (adapters.cleanup a d w).1 inner
        → RolledBack (adapters.attach a d inner).1 w'
        → RolledBack w w'

  -- Whatever is nested behind the progress, undoing it nests the whole.
  abbrev Undoes : W → Progress A W → Type 0
  Undoes w p = (w' : W) → RolledBack p.world w' → RolledBack w (run_undo adapters p.undo w')

  attach_new-Undoes :
      (w : W) (id : Text) (c : Prepared A) (p : Progress A W)
      → Undoes w p
      → Undoes w (attach_new adapters id c p)
  unfolding attach_new run_undo undo_one
  attach_new-Undoes w id c p h =
      elim (Option-cases (adapters.attach c.adapter c.definition p.world).0) [
        | inl f ↦ rw (f, attach_new) (λ w' k. h _ (attached c.adapter c.definition f k untouched))
        | inr (x, f) ↦
            rw (f, attach_new) (λ w' k. h w' (failed_attach c.adapter c.definition (rw f refl) k))
      ]

  swap-Undoes :
      (w : W) (id : Text) (current c : Prepared A) (p : Progress A W)
      → Undoes w p
      → Undoes w (swap adapters id current c p)
  unfolding swap run_undo undo_one
  swap-Undoes w id current c p h =
      let w1 : W = (detach adapters current p.world).1 in
      elim (Option-cases (detach adapters current p.world).0) [
        | inr (x, f) ↦
            rw (f, swap)
              (λ w' k. h w' (failed_cleanup current.adapter current.definition (rw f refl) k))
        | inl f ↦ elim (Option-cases (attach adapters c w1).0) [
          | inl g ↦
              rw (f, g, swap)
                (λ w' k. h _ (
                  detached current.adapter current.definition f
                    (attached c.adapter c.definition g k untouched) untouched))
          | inr (x, g) ↦
              rw (f, g, swap)
                (λ w' k. h w' (
                  detached current.adapter current.definition f
                    (failed_attach c.adapter c.definition (rw g refl) untouched) k))
        ]
      ]

  replace-Undoes :
      (w : W) (id : Text) (current c : Prepared A) (p : Progress A W)
      → Undoes w p
      → Undoes w (replace adapters id current c p)
  unfolding replace
  replace-Undoes w id current c p h =
      let d : Definition = staged id c in
      let w1 : W = (adapters.attach c.adapter d p.world).1 in
      elim (Option-cases (adapters.attach c.adapter d p.world).0) [
        | inr (x, f) ↦ rw (f, replace) (λ w' k. h w' (failed_attach c.adapter d (rw f refl) k))
        | inl f ↦ elim (Option-cases (adapters.cleanup c.adapter d w1).0) [
          | inr (x, g) ↦ rw (f, g, replace) (λ w' k. h w' (attached c.adapter d f untouched k))
          | inl g ↦
              rw (f, g, replace)
                (swap-Undoes w id current c
                  (record p { world = (adapters.cleanup c.adapter d w1).1 })
                  (λ w' k. h w' (attached c.adapter d f untouched k)))
        ]
      ]

  apply_candidate-Undoes :
      (w : W) (id : Text) (current : Option (Prepared A)) (c : Prepared A) (p : Progress A W)
      → Undoes w p
      → Undoes w (apply_candidate adapters id current c p)
  unfolding apply_candidate
  apply_candidate-Undoes w id none c p h = attach_new-Undoes w id c p h
  apply_candidate-Undoes w id (some current) c p h =
      elim (Bool-cases (text_eq current.print c.print)) [
        | inl e ↦ rw e h
        | inr e ↦ rw e (replace-Undoes w id current c p h)
      ]

  apply_id-Undoes :
      (w : W) (active prepared : Map (Prepared A)) (id : Text) (p : Progress A W)
      → Undoes w p
      → Undoes w (apply_id adapters active prepared id p)
  unfolding apply_id
  apply_id-Undoes w active prepared id p h = elim (Option-cases (lookup id prepared)) [
    | inl e ↦ rw (e, apply_id) h
    | inr (c, e) ↦ rw (e, apply_id) (apply_candidate-Undoes w id (lookup id active) c p h)
  ]

  apply_ids-Undoes :
      (w : W) (active prepared : Map (Prepared A)) (ids : List Text) (p : Progress A W)
      → Undoes w p
      → Undoes w (apply_ids adapters active prepared ids p)
  unfolding apply_ids
  apply_ids-Undoes w active prepared [] p h = h
  apply_ids-Undoes w active prepared (id ∷ rest) p h = elim (Option-cases p.error) [
    | inl e ↦
        rw (e, apply_ids)
          (apply_ids-Undoes w active prepared rest (apply_id adapters active prepared id p)
            (apply_id-Undoes w active prepared id p h))
    | inr (x, e) ↦ rw (e, apply_ids) h
  ]

  remove_one-Undoes :
      (w : W) (current : Prepared A) (p : Progress A W)
      → Undoes w p
      → Undoes w (remove_one adapters current p)
  unfolding remove_one run_undo undo_one
  remove_one-Undoes w c p h =
      elim (Option-cases (adapters.cleanup c.adapter c.definition p.world).0) [
        | inl f ↦ rw (f, remove_one) (λ w' k. h _ (detached c.adapter c.definition f k untouched))
        | inr (x, f) ↦
            rw (f, remove_one) (λ w' k. h w' (failed_cleanup c.adapter c.definition (rw f refl) k))
      ]

  either_Undoes :
      (w : W) (b : Bool) (p q : Progress A W)
      → Undoes w p
      → Undoes w q
      → Undoes w (if b then p else q)
  either_Undoes w true p q h k = h
  either_Undoes w false p q h k = k

  remove_rest-Undoes :
      (w : W) (prepared active : Map (Prepared A)) (p : Progress A W)
      → Undoes w p
      → Undoes w (remove_rest adapters prepared active p)
  unfolding remove_rest
  remove_rest-Undoes w prepared [] p h = h
  remove_rest-Undoes w prepared ((id, current) ∷ rest) p h = elim (Option-cases p.error) [
    | inr (x, e) ↦ rw (e, remove_rest) h
    | inl e ↦
        rw (e, remove_rest)
          (remove_rest-Undoes w prepared rest _ (
            either_Undoes w (is_some (lookup id prepared)) p (remove_one adapters current p) h
              (remove_one-Undoes w current p h)))
  ]

  apply_all-Undoes :
      (active prepared : Map (Prepared A)) (w : W) → Undoes w (apply_all adapters active prepared w)
  unfolding apply_all
  apply_all-Undoes active prepared w = remove_rest-Undoes w prepared active _ (
      apply_ids-Undoes w active prepared (sort (keys prepared)) (begin adapters w)
        (λ w' k. unfold run_undo in k))

  apply_rolls_back :
      (active prepared : Map (Prepared A)) (w : W)
      → is_some (apply adapters active prepared w).error ≡ true
      → ((apply adapters active prepared w).active ≡ active)
        × RolledBack w (apply adapters active prepared w).world
  unfolding apply
  apply_rolls_back active prepared w h =
      let p = apply_all adapters active prepared w in
      elim (Option-cases p.error) [
        | inl e ↦ absurd (ground arith)
        | inr (x, e) ↦ rw (e, apply) (refl, apply_all-Undoes active prepared w p.world untouched)
      ]

  -- Whatever the adapters answer, a Reload that returns an error leaves the active set as it was,
  -- and its calls of the adapters are nested: every attachment that it made is cleaned up again, and
  -- every one that it cleaned up is attached again, by the same adapter with the same definition, in
  -- the reverse order.
  pub reload_rolls_back :
      (environment : Environment A) (loaded : Result Document) (active : Map (Prepared A)) (w : W)
      → is_some (reload adapters environment loaded active w).error ≡ true
      → ((reload adapters environment loaded active w).active ≡ active)
        × RolledBack w (reload adapters environment loaded active w).world
  unfolding reload
  reload_rolls_back environment loaded active w h =
      elim (Result-cases (prepare adapters environment w loaded)) [
        | inr (e, f) ↦ rw (f, reload) (refl, untouched)
        | inl (prepared, f) ↦
            rw (f, reload) (apply_rolls_back active prepared w (rw (f, reload) at h))
      ]
