-- ===== src/Reconcile/Apply.antt =====
-- manager.go apply and Reload. The undo actions form a stack that a failure runs from the last one.
use quackridge.Prelude.{Option, none, some, List, [], ◌∷◌, ◌++◌, if◌then◌else◌, is_some}
use quackridge.Prelude.Text.{Text, lit, text_eq}
use quackridge.Prelude.Maps.{Map, lookup, insert, keys}
use quackridge.Prelude.Sort.{sort}
use quackridge.Errors.Defs.{GoError}
use quackridge.Errors.Result.{Result, ok, err}
use quackridge.Config.Document.{Document}
use quackridge.Source.{Definition}
use quackridge.Reconcile.Stage.{stage_alias}
use quackridge.Reconcile.Manager.{Adapters, Prepared, Environment, unavailable_because, prepare}

-- The three closures that apply appends to `undo`.
pub data Undo (A : Type 0) : Type 0 where
  detach_new : Prepared A → Undo A
  put_back : (old replacement : Prepared A) → Undo A
  reattach : Prepared A → Undo A

-- Where apply stands: its error, the next active set, the undo stack (last first) and the world.
pub record Progress (A : Type 0) (W : Type 0) : Type 0 where
  pub error : Option GoError
  pub next : Map (Prepared A)
  pub undo : List (Undo A)
  pub world : W

-- staged: the candidate's definition under its temporary id and alias.
unfoldable pub staged : {A : Type 0} → Text → Prepared A → Definition
staged id p = record p.definition {
  id = lit "stage_" ++ id;
  alias = stage_alias p.definition.alias p.print;
}

module _ {A : Type 0} {W : Type 0} (adapters : Adapters A W) where
  abbrev pub attach : Prepared A → W → Option GoError × W
  attach p w = adapters.attach p.adapter p.definition w

  abbrev pub detach : Prepared A → W → Option GoError × W
  detach p w = adapters.cleanup p.adapter p.definition w

  unfoldable pub undo_one : Undo A → W → W
  undo_one (detach_new p) w = (detach p w).1
  undo_one (put_back old replacement) w = (attach old (detach replacement w).1).1
  undo_one (reattach p) w = (attach p w).1

  -- The deferred loop over `undo`, from the last to the first.
  unfoldable pub run_undo : List (Undo A) → W → W
  run_undo [] w = w
  run_undo (u ∷ rest) w = run_undo rest (undo_one u w)

  abbrev pub stop_with : Text → GoError → W → Progress A W → Progress A W
  stop_with message e w p = record p { error = some (unavailable_because message e); world = w }

  -- A source that was not active before.
  unfoldable pub attach_new : Text → Prepared A → Progress A W → Progress A W
  attach_new id candidate p =
      let (error, w) = attach candidate p.world in
      elim error [
        | some e ↦ stop_with (lit "source attach failed") e w p
        | none ↦ record p {
          next = insert id candidate p.next;
          undo = detach_new candidate ∷ p.undo;
          world = w;
        }
      ]

  -- The real replacement, after the staged one.
  unfoldable pub swap : Text → (current candidate : Prepared A) → Progress A W → Progress A W
  swap id current candidate p =
      let (e1, w1) = detach current p.world in
      let (e2, w2) = attach candidate w1 in
      elim e1 [
        | some e ↦ stop_with (lit "existing source cleanup failed") e w1 p
        | none ↦ elim e2 [
          | some e ↦ stop_with (lit "replacement source attach failed") e (attach current w2).1 p
          | none ↦ record p {
            next = insert id candidate p.next;
            undo = put_back current candidate ∷ p.undo;
            world = w2;
          }
        ]
      ]

  -- A source whose fingerprint has changed: tried under a temporary name first.
  unfoldable pub replace : Text → (current candidate : Prepared A) → Progress A W → Progress A W
  replace id current candidate p =
      let (e1, w1) = adapters.attach candidate.adapter (staged id candidate) p.world in
      let (e2, w2) = adapters.cleanup candidate.adapter (staged id candidate) w1 in
      elim e1 [
        | some e ↦ stop_with (lit "replacement source validation failed") e w1 p
        | none ↦ elim e2 [
          | some e ↦ stop_with (lit "replacement source cleanup failed") e w2 p
          | none ↦ swap id current candidate (record p { world = w2 })
        ]
      ]

  -- One round of the loop over the prepared ids.
  unfoldable pub apply_candidate :
      Text → Option (Prepared A) → Prepared A → Progress A W → Progress A W
  apply_candidate id none candidate p = attach_new id candidate p
  apply_candidate id (some current) candidate p =
      if text_eq current.print candidate.print
      then record p { next = insert id current p.next }
      else replace id current candidate p

  unfoldable pub apply_id :
      (active prepared : Map (Prepared A)) → Text → Progress A W → Progress A W
  apply_id active prepared id p = elim (lookup id prepared) [
    | none ↦ p
    | some candidate ↦ apply_candidate id (lookup id active) candidate p
  ]

  -- The loop; an error returns.
  unfoldable pub apply_ids :
      (active prepared : Map (Prepared A)) → List Text → Progress A W → Progress A W
  apply_ids active prepared [] p = p
  apply_ids active prepared (id ∷ rest) p = elim p.error [
    | some e ↦ p
    | none ↦ apply_ids active prepared rest (apply_id active prepared id p)
  ]

  -- One source that the new configuration has no more.
  unfoldable pub remove_one : Prepared A → Progress A W → Progress A W
  remove_one current p =
      let (error, w) = detach current p.world in
      elim error [
        | some e ↦ stop_with (lit "removed source cleanup failed") e w p
        | none ↦ record p { undo = reattach current ∷ p.undo; world = w }
      ]

  -- The loop over m.active.
  unfoldable pub remove_rest :
      (prepared : Map (Prepared A)) → Map (Prepared A) → Progress A W → Progress A W
  remove_rest prepared [] p = p
  remove_rest prepared ((id, current) ∷ rest) p = elim p.error [
    | some e ↦ p
    | none ↦
        remove_rest prepared rest (if is_some (lookup id prepared) then p else remove_one current p)
  ]

  abbrev pub begin : W → Progress A W
  begin w = record { error = none; next = []; undo = []; world = w }

  -- The body of apply up to its return.
  unfoldable pub apply_all : (active prepared : Map (Prepared A)) → W → Progress A W
  apply_all active prepared w =
      remove_rest prepared active (apply_ids active prepared (sort (keys prepared)) (begin w))

  -- apply with its deferred rollback: the new active set, the error and the world.
  pub record Applied : Type 0 where
    pub active : Map (Prepared A)
    pub error : Option GoError
    pub world : W

  unfoldable pub apply : (active prepared : Map (Prepared A)) → W → Applied
  apply active prepared w =
      let p = apply_all active prepared w in
      elim p.error [
        | some e ↦ record { active = active; error = some e; world = run_undo p.undo p.world }
        | none ↦ record { active = p.next; error = none; world = p.world }
      ]

  -- Reload
  unfoldable pub reload : Environment A → Result Document → Map (Prepared A) → W → Applied
  reload environment loaded active w = elim (prepare adapters environment w loaded) [
    | err e ↦ record { active = active; error = some e; world = w }
    | ok prepared ↦ apply active prepared w
  ]
