-- ===== src/Service/Concurrent.antt =====
-- Operations as two critical sections under `mu`, with the runtime call between them, where
-- readers of the status and the runtime itself may run. `opMu` lets one operation in at a time.
use quackridge.Prelude.{ℕ, ◌≡◌, refl, ◌⊎◌, inr, true, false, arith}
use quackridge.Service.Defs.{
  State, starting, reloading, stopping, Options, Runtime, Service, Status, new, stopped_status,
  can_start, is_up, is_stopped, up_state,
}
use quackridge.Service.Ops.{
  begin_start, begin_reload, begin_stop, start, reload, stop, finish_status, finish_start,
  finish_reload, finish_stop,
}

-- Who holds `opMu`: nobody, or an operation whose runtime call is in flight.
pub data Phase : Type 0 where
  idle : Phase
  in_start : Options → Phase
  in_reload : State → Phase
  in_stop : Phase

pub record Machine (R : Type 0) : Type 0 where
  pub service : Service R
  pub phase : Phase

module _ {R : Type 0} (ops : Runtime R) where
  -- The end of the operation in flight.
  unfoldable pub finish : (now : ℕ) → Machine R → Service R
  finish now m = dispatch m.phase
    where
      dispatch : Phase → Service R
      dispatch idle = m.service
      dispatch (in_start opts) =
          let (result, r) = ops.start m.service.runtime opts in
          (finish_start ops now result r m.service.status).0
      dispatch (in_reload previous) =
          let (result, r) = ops.reload m.service.runtime in
          (finish_reload ops previous result r m.service.status).0
      dispatch in_stop =
          let (result, r) = ops.stop m.service.runtime in
          (finish_stop ops result r m.service.status).0

-- One atomic step. A refused operation changes nothing and is no step.
pub data Step {R : Type 0} (ops : Runtime R) : Machine R → Machine R → Type 0 where
  start_begins :
      {m : Machine R} (opts : Options)
      → m.phase ≡ idle
      → can_start m.service.status.state ≡ true
      → Step ops m (record { service = begin_start m.service; phase = in_start opts })
  reload_begins :
      {m : Machine R}
      → m.phase ≡ idle
      → is_up m.service.status.state ≡ true
      → Step ops m
          (record { service = begin_reload m.service; phase = in_reload m.service.status.state })
  stop_begins :
      {m : Machine R}
      → m.phase ≡ idle
      → is_stopped m.service.status.state ≡ false
      → Step ops m (record { service = begin_stop m.service; phase = in_stop })
  finishes :
      {m : Machine R} (now : ℕ) → Step ops m (record { service = finish ops now m; phase = idle })
  runtime_moves :
      {m : Machine R} (r : R) → Step ops m (record m { service = record m.service { runtime = r } })

pub data Reach {R : Type 0} (ops : Runtime R) (s : Machine R) : Machine R → Type 0 where
  here : Reach ops s s
  next : {t u : Machine R} → Reach ops s t → Step ops t u → Reach ops s u

-- The state that an observer sees in each phase.
abbrev pub Shows : Phase → State → Type 0
Shows idle st = (is_up st ≡ true) ⊎ (can_start st ≡ true)
Shows (in_start _) st = st ≡ starting
Shows (in_reload previous) st = (st ≡ reloading) × (is_up previous ≡ true)
Shows in_stop st = st ≡ stopping

finish-Shows :
    {R : Type 0} (ops : Runtime R) (now : ℕ) (p : Phase) (s : Service R)
    → Shows p s.status.state
    → Shows idle (finish ops now (record { service = s; phase = p })).status.state
unfolding finish finish_start finish_reload finish_stop stopped_status
finish-Shows ops now idle s h = h
finish-Shows ops now (in_start opts) s h = ground arith
finish-Shows ops now (in_reload previous) s h = ground arith
finish-Shows ops now in_stop s h = ground arith

Step-Shows :
    {R : Type 0} (ops : Runtime R) {m n : Machine R}
    → Step ops m n
    → Shows m.phase m.service.status.state
    → Shows n.phase n.service.status.state
unfolding begin_start begin_reload begin_stop
Step-Shows ops (start_begins opts i c) h = refl
Step-Shows ops (reload_begins i u) h = (refl, u)
Step-Shows ops (stop_begins i c) h = refl
Step-Shows ops (finishes {m = m} now) h = finish-Shows ops now m.phase m.service h
Step-Shows ops (runtime_moves r) h = h

Reach-Shows :
    {R : Type 0} (ops : Runtime R) {m n : Machine R}
    → Reach ops m n
    → Shows m.phase m.service.status.state
    → Shows n.phase n.service.status.state
Reach-Shows ops here h = h
Reach-Shows ops (next r st) h = Step-Shows ops st (Reach-Shows ops r h)

abbrev pub initial : {R : Type 0} → R → Machine R
initial r = record { service = new r; phase = idle }

-- What Status returns where its snapshot was taken in a phase and the sources were read from a
-- runtime: the operation in flight then, or a settled state, which is ready or degraded as those
-- sources decide if the service was up.
abbrev pub Observed : {R : Type 0} → Runtime R → Phase → Status → R → Type 0
Observed ops p st r =
    Shows p st.state
    × (is_up st.state ≡ true → (st.sources ≡ ops.sources r) × (st.state ≡ up_state (ops.sources r)))

finish_status-Observed :
    {R : Type 0} (ops : Runtime R) (p : Phase) (st : Status) (r : R)
    → Shows p st.state
    → Observed ops p (finish_status st (ops.sources r)) r
unfolding finish_status
finish_status-Observed ops idle st r h = (ground arith, λ u. (ground arith, ground arith))
finish_status-Observed ops (in_start _) st r h = (ground arith, λ u. (ground arith, ground arith))
finish_status-Observed ops (in_reload _) st r h = (ground arith, λ u. (ground arith, ground arith))
finish_status-Observed ops in_stop st r h = (ground arith, λ u. (ground arith, ground arith))

-- In every interleaving from a new service, where a Status copies the status at one moment and reads
-- the runtime's sources at that moment or any later one, whatever ran in between: the state that it
-- returns is starting, reloading or stopping exactly when the operation of that name was in flight
-- at the first moment, and otherwise settled; a ready or degraded one is decided by the sources of
-- the second moment, which are the ones it returns.
pub Reach-Observed :
    {R : Type 0} (ops : Runtime R) (r : R) {m later : Machine R}
    → Reach ops (initial r) m
    → Reach ops m later
    → Observed ops m.phase
        (finish_status m.service.status (ops.sources later.service.runtime))
        later.service.runtime
unfolding new stopped_status
Reach-Observed ops r {m} {later} reach onward =
    finish_status-Observed ops m.phase m.service.status later.service.runtime
      (Reach-Shows ops reach (inr refl))

-- With nothing between, the two sections are the whole operation.
pub sections-ops :
    {R : Type 0} (ops : Runtime R) (now : ℕ) (opts : Options) (s : Service R)
    → (can_start s.status.state ≡ true
        → finish ops now (record { service = begin_start s; phase = in_start opts })
          ≡ (start ops now opts s).0)
      × (is_up s.status.state ≡ true
          → finish ops now (record { service = begin_reload s; phase = in_reload s.status.state })
            ≡ (reload ops s).0)
      × (is_stopped s.status.state ≡ false
          → finish ops now (record { service = begin_stop s; phase = in_stop }) ≡ (stop ops s).0)
unfolding finish start reload stop begin_start begin_reload begin_stop
sections-ops ops now opts s = ground arith
