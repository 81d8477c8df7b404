-- ===== src/Config/Atomic.antt =====
-- What Add and Remove leave behind: the document that the next Load returns, and the credentials.
use quackridge.Prelude.{
  ◌≡◌, refl, ap, ◌∙◌, ◌⊎◌, inl, inr, true, not, Option, none, some, List, [], ◌∷◌, ◌++◌, arith,
  Bool-cases, Option-cases, is_some,
}
use quackridge.Prelude.Text.{Text, text_eq, text_eq_iff}
use quackridge.Prelude.Lists.{all}
use quackridge.Config.Marshal.{Marshalling, IsFaithful, respaced}
use quackridge.Errors.Defs.{GoError}
use quackridge.Errors.Result.{ok}
use quackridge.Config.Document.{Source, Document}
use quackridge.Config.Store.{SaveFaults, after_replace, load}
use quackridge.Config.Service.{
  Service, Stored, with_source, take_out, put_ref, delete_ref, add_save,
}

-- What is taken out has the id, and the list is what was before it and after it.
pub take_out_lem :
    (i : Text) (l : List Source) {s : Source} {others : List Source}
    → take_out i l ≡ some (s, others)
    → (s.id ≡ i)
      × ((a : List Source) × (b : List Source) × (l ≡ a ++ s ∷ b)
          × (others ≡ a ++ b)
          × (all (λ (x : Source). not (text_eq x.id i)) a ≡ true))
unfolding take_out all
take_out_lem i [] h = cc
take_out_lem i (x ∷ l) {s} {others} h = elim (Bool-cases (text_eq x.id i)) [
  | inl e ↦
      let f : x ≡ s = ground arith in
      (rw (← f) ((text_eq_iff x.id i).0 e), ([], l, rw f, ground arith, refl))
  | inr e ↦ elim (Option-cases (take_out i l)) [
    | inl n ↦ absurd (ground arith)
    | inr ((t, more), m) ↦
        let f : t ≡ s = ground arith in
        let g : others ≡ x ∷ more = ground arith in
        let (same, (a, b, p, q, first)) = take_out_lem i l m in
        (
          rw (← f) same,
          (x ∷ a, b, rw (← f) (ap (λ r. x ∷ r) p), g ∙ ap (λ r. x ∷ r) q, ground arith),
        )
  ]
]

module _ {C : Type 0} (service : Service C) where
  open service use {codec, decoding, credentials, check}

  -- How an Add ends that has loaded a document: refused, with the store's error, or with the save.
  Ends :
      (s : Source) (credential : Text) (saving : SaveFaults) (d : Document) (st : Stored C)
      → Stored C × Option GoError
      → Type 0
  Ends s credential saving d st r =
      ((r.0 ≡ st) × (is_some r.1 ≡ true))
      ⊎ ((r.0 ≡ record st { secrets = (put_ref service s credential st.secrets).0 })
          × (is_some r.1 ≡ true))
      ⊎ (r
          ≡ add_save service saving (with_source d s) s
              (record st { secrets = (put_ref service s credential st.secrets).0 }))

  module _ (m : Marshalling) (faithful : IsFaithful codec decoding m) where
    -- What the next Load returns after a save of the document with one more source, and what is then
    -- stored with it.
    abbrev pub Added :
        (later saving : SaveFaults)
        → (old : Document) → Source
        → Text
        → (st : Stored C) → Stored C × Option GoError
        → Type 0
    Added later saving old s credential st r =
        ((load codec decoding later r.0.disk ≡ (r.0.disk, ok old))
          × (is_some r.1 ≡ true)
          × ((r.0.secrets ≡ st.secrets)
              ⊎ (r.0.secrets ≡ (put_ref service s credential st.secrets).0)
              ⊎ (r.0.secrets
                  ≡ (delete_ref service s (put_ref service s credential st.secrets).0).0)))
        ⊎ ((load codec decoding later r.0.disk ≡ (r.0.disk, ok (respaced m (with_source old s))))
            × (((r.1 ≡ none) × (r.0.secrets ≡ (put_ref service s credential st.secrets).0))
                ⊎ ((is_some r.1 ≡ true)
                    × (is_some (after_replace saving.main_write) ≡ true)
                    × (r.0.secrets
                        ≡ (delete_ref service s (put_ref service s credential st.secrets).0).0))))
