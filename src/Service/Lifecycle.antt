-- ===== src/Service/Lifecycle.antt =====
-- The lifecycle as a diagram of the states between operations, and what failures leave alone.
use quackridge.Prelude.{
  ℕ, ◌≡◌, refl, ◌⊎◌, inl, inr, true, false, some, List, arith, Option-cases, is_some,
}
use quackridge.Version.{capabilities}
use quackridge.Errors.Defs.{GoError, public_part}
use quackridge.Service.Ops.{
  begin_start, begin_reload, begin_stop, start, reload, stop, status, finish_status, finish_start,
  finish_reload, finish_stop,
}
use quackridge.Service.Defs.{
  State, stopped, failed, SourceStatus, Status, Options, Runtime, Service, new, stopped_status,
  sanitize, not_running, can_start, is_up, is_stopped, up_state,
}

-- The transition diagram of an idle service.
pub data ◌⟶◌ : State → State → Type 0 where
  boot : {s u : State} → can_start s ≡ true → is_up u ≡ true → s ⟶ u
  boot_fails : {s : State} → can_start s ≡ true → s ⟶ failed
  refresh : {s u : State} → is_up s ≡ true → is_up u ≡ true → s ⟶ u
  halt : {s : State} → s ⟶ stopped
  halt_fails : {s : State} → is_stopped s ≡ false → s ⟶ failed
  stay : {s : State} → s ⟶ s

infix 40 ◌⟶◌
-- What holds of the status of a service on which no operation is running.
pub record IsResting (st : Status) : Type 0 where
  pub settled : (is_up st.state ≡ true) ⊎ (can_start st.state ≡ true)
  pub up_agrees : is_up st.state ≡ true → st.state ≡ up_state st.sources
  pub clean_stop : st.state ≡ stopped → st ≡ stopped_status
  pub capable : st.capability_set ≡ capabilities
  pub up_started : is_up st.state ≡ true → is_some st.started_at ≡ true

-- A new service is at rest.
pub new-IsResting : {R : Type 0} (r : R) → IsResting (new r).status
unfolding new stopped_status
new-IsResting r = record {
  settled = inr refl;
  up_agrees = λ h. cc;
  clean_stop = λ h. refl;
  capable = refl;
  up_started = λ h. cc;
}

up_state-is_up : (sources : List SourceStatus) → is_up (up_state sources) ≡ true
up_state-is_up sources = ground arith

module _ {R : Type 0} (ops : Runtime R) where
  start-IsResting :
      (now : ℕ) (opts : Options) (s : Service R)
      → IsResting s.status
      → IsResting (start ops now opts s).0.status
  unfolding start begin_start finish_start
  start-IsResting now opts s h = ground arith

  reload-IsResting : (s : Service R) → IsResting s.status → IsResting (reload ops s).0.status
  unfolding reload begin_reload finish_reload
  reload-IsResting s h = ground arith

  stop-IsResting : (s : Service R) → IsResting s.status → IsResting (stop ops s).0.status
  unfolding stop begin_stop finish_stop stopped_status
  stop-IsResting s h = ground arith

  -- Whatever the runtime answers, Start, Reload and Stop take a service at rest to a service at
  -- rest: stopped, failed, or up with the state that its stored sources decide.
  pub ops-IsResting :
      (now : ℕ) (opts : Options) (s : Service R)
      → IsResting s.status
      → IsResting (start ops now opts s).0.status
        × IsResting (reload ops s).0.status
        × IsResting (stop ops s).0.status
  ops-IsResting now opts s h =
      (start-IsResting now opts s h, reload-IsResting s h, stop-IsResting s h)

  -- Every operation follows the lifecycle diagram.
  pub ops-⟶ :
      (now : ℕ) (opts : Options) (s : Service R)
      → (s.status.state ⟶ (start ops now opts s).0.status.state)
        × (s.status.state ⟶ (reload ops s).0.status.state)
        × (s.status.state ⟶ (stop ops s).0.status.state)
  unfolding start begin_start finish_start reload begin_reload finish_reload stop begin_stop
      finish_stop stopped_status
  ops-⟶ now opts s = (
    grind (arith, boot, boot_fails, stay, up_state-is_up),
    grind (arith, refresh, stay, up_state-is_up),
    grind (arith, halt, halt_fails, stay),
  )

  -- A Reload of a service that is not up changes nothing and returns ErrNotRunning. A Reload of one
  -- that is up returns the runtime's error, and if there is one the service keeps the state, the
  -- endpoint, the start time and the sources, and records the sanitized error.
  pub reload_transactional :
      (s : Service R)
      → (is_up s.status.state ≡ false → reload ops s ≡ (s, some not_running))
        × (is_up s.status.state ≡ true
            → ((reload ops s).1 ≡ (ops.reload s.runtime).0)
              × ((e : GoError)
                  → (ops.reload s.runtime).0 ≡ some e
                  → (reload ops s).0 ≡ record {
                    runtime = (ops.reload s.runtime).1;
                    status = record s.status { last_error = sanitize e };
                  }))
  unfolding reload begin_reload finish_reload
  reload_transactional s = elim (Option-cases (ops.reload s.runtime).0) [
    | inl f ↦ (λ h. ground arith, λ h. (ground arith, λ e g. absurd (ground arith)))
    | inr (x, f) ↦ (λ h. ground arith, λ h. (ground arith, λ e g. ground arith))
  ]

  -- What Status reports as ready has only ready sources, what it reports as degraded has one that
  -- is not, and it never reports an up service as anything else.
  pub status_coherent :
      (s : Service R)
      → is_up (status ops s).state ≡ is_up s.status.state
        × (is_up s.status.state ≡ true → (status ops s).state ≡ up_state (status ops s).sources)
        × (is_up s.status.state ≡ false → status ops s ≡ s.status)
  unfolding status finish_status
  status_coherent s = ground arith

-- The sanitized text of an error depends on its public part alone: two errors that differ in
-- their causes, prefixes or foreign messages have the same text.
pub sanitize_public : (a b : GoError) → public_part a ≡ public_part b → sanitize a ≡ sanitize b
unfolding sanitize
sanitize_public a b h = ground arith
