-- ===== src/Reconcile/Success.antt =====
-- What a Reload that succeeds makes of the active set, and what Bootstrap does with each source.
use quackridge.Prelude.{
  ◌≡◌, refl, inl, inr, ◌&&◌, Option, none, some, List, [], ◌∷◌, arith, if◌then◌else◌, Option-cases,
  is_some,
}
use quackridge.Prelude.Text.{Text, text_eq, text_eq_iff}
use quackridge.Prelude.Lists.{contains}
use quackridge.Prelude.Maps.{Map, lookup, insert, lookup-insert, keys}
use quackridge.Prelude.Sort.{sort, contains-sort}
use quackridge.Errors.Result.{Result, ok}
use quackridge.Config.Document.{Document}
use quackridge.Reconcile.Manager.{Adapters, Prepared, Environment, prepare}
use quackridge.Reconcile.Apply.{
  Progress, attach_new, swap, replace, apply_candidate, apply_id, apply_ids, remove_one,
  remove_rest, begin, apply_all, apply, reload,
}

-- Of an active source and its candidate, the one that stays: the active one if the fingerprints
-- agree, and the candidate otherwise.
unfoldable pub choose : {A : Type 0} → Option (Prepared A) → Prepared A → Prepared A
choose none c = c
choose (some current) c = if text_eq current.print c.print then current else c

abbrev pub chosen : {A : Type 0} → (active prepared : Map (Prepared A)) → Text → Option (Prepared A)
chosen active prepared j = elim (lookup j prepared) [
  | none ↦ none
  | some c ↦ some (choose (lookup j active) c)
]

contains-keys : {A : Type 0} (m : Map A) (j : Text) → contains (keys m) j ≡ is_some (lookup j m)
unfolding contains lookup
contains-keys [] j = refl
contains-keys ((k, v) ∷ m) j = ground (arith, contains-keys m j)

module _ {A : Type 0} {W : Type 0} (adapters : Adapters A W) where
  next-replace :
      (id : Text) (current c : Prepared A) (p : Progress A W)
      → p.error ≡ none
      → (replace adapters id current c p).error ≡ none
      → (replace adapters id current c p).next ≡ insert id c p.next
  unfolding replace swap
  next-replace id current c p e h = ground arith

  next-apply_candidate :
      (id : Text) (current : Option (Prepared A)) (c : Prepared A) (p : Progress A W)
      → p.error ≡ none
      → (apply_candidate adapters id current c p).error ≡ none
      → (apply_candidate adapters id current c p).next ≡ insert id (choose current c) p.next
  unfolding apply_candidate attach_new choose
  next-apply_candidate id none c p e h = ground arith
  next-apply_candidate id (some current) c p e h = ground (arith, next-replace id current c p)

  next-apply_id :
      (active prepared : Map (Prepared A)) (id j : Text) (p : Progress A W)
      → p.error ≡ none
      → (apply_id adapters active prepared id p).error ≡ none
      → lookup j (apply_id adapters active prepared id p).next ≡ (
          if text_eq id j && is_some (lookup j prepared)
          then chosen active prepared j
          else lookup j p.next)
  unfolding apply_id
  next-apply_id active prepared id j p e h = elim (Option-cases (lookup id prepared)) [
    | inl m ↦ ground (arith, text_eq_iff id j)
    | inr (c, m) ↦ ground (
      arith,
      text_eq_iff id j,
      next-apply_candidate id (lookup id active) c p,
      lookup-insert id j (choose (lookup id active) c) p.next,
    )
  ]

  error-apply_ids :
      (active prepared : Map (Prepared A)) (ids : List Text) (p : Progress A W)
      → (apply_ids adapters active prepared ids p).error ≡ none
      → p.error ≡ none
  unfolding apply_ids
  error-apply_ids active prepared [] p h = h
  error-apply_ids active prepared (id ∷ rest) p h = ground arith

  next-apply_ids :
      (active prepared : Map (Prepared A)) (ids : List Text) (j : Text) (p : Progress A W)
      → (apply_ids adapters active prepared ids p).error ≡ none
      → lookup j (apply_ids adapters active prepared ids p).next ≡ (
          if contains ids j && is_some (lookup j prepared)
          then chosen active prepared j
          else lookup j p.next)
  unfolding apply_ids contains
  next-apply_ids active prepared [] j p h = ground arith
  next-apply_ids active prepared (id ∷ rest) j p h =
      let e = error-apply_ids active prepared (id ∷ rest) p h in
      let q = apply_id adapters active prepared id p in
      ground (
        arith,
        next-apply_ids active prepared rest j q,
        next-apply_id active prepared id j p,
        error-apply_ids active prepared rest q,
      )

  next-remove_one :
      (current : Prepared A) (p : Progress A W) → (remove_one adapters current p).next ≡ p.next
  unfolding remove_one
  next-remove_one current p = ground arith

  next-remove_rest :
      (prepared active : Map (Prepared A)) (p : Progress A W)
      → (remove_rest adapters prepared active p).error ≡ none
      → ((remove_rest adapters prepared active p).next ≡ p.next) × (p.error ≡ none)
  unfolding remove_rest
  next-remove_rest prepared [] p h = (refl, h)
  next-remove_rest prepared ((id, current) ∷ rest) p h =
      let q : Progress A W =
        if is_some (lookup id prepared) then p else remove_one adapters current p in
      ground (arith, next-remove_rest prepared rest q, next-remove_one current p)

  -- After a Reload that returns no error the active set is the prepared one: a source is active
  -- exactly when it is enabled in the document and prepared, under the adapter it had if its
  -- fingerprint is unchanged and under the new one otherwise.
  pub reload_active :
      (environment : Environment A) (loaded : Result Document) (active prepared : Map (Prepared A))
      (w : W)
      → prepare adapters environment w loaded ≡ ok prepared
      → (reload adapters environment loaded active w).error ≡ none
      → (j : Text)
      → lookup j (reload adapters environment loaded active w).active ≡ chosen active prepared j
  unfolding reload apply apply_all lookup
  reload_active environment loaded active prepared w h e j =
      let ids = sort (keys prepared) in
      let p1 = apply_ids adapters active prepared ids (begin adapters w) in
      ground (
        arith,
        next-remove_rest prepared active p1,
        next-apply_ids active prepared ids j (begin adapters w),
        contains-sort (keys prepared) j,
        contains-keys prepared j,
      )
