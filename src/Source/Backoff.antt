-- ===== src/Source/Backoff.antt =====
-- internal/source/backoff.go: bounded reconnect delays, one schedule for each source.
-- A delay is a Duration (int64 nanoseconds). Once NewBackoff has run, the base is positive, and a
-- delay is doubled only below half of the maximum, so no product passes the maximum.
use quackridge.Prelude.{
  ℕ, zero, suc, ◌+◌, ◌*◌, ◌/◌, ◌^◌, ◌≤◌, min, ◌≡◌, refl, ◌≢◌, none, some, List, [], ◌∷◌, arith, ltb,
  leb, if◌then◌else◌,
}
use native.Mathlib.Nat.{pow-suc, mul_assoc, mul_comm}
use quackridge.Prelude.Text.{Text, text_eq, text_eq_iff, text_eq_refl}
use quackridge.Prelude.Maps.{Map, lookup, remove, insert, lookup-insert, lookup-remove}
use quackridge.Prelude.Int.{ℤ, pos, is_not_positive, ltb_ℤ, natural_part}

pub record Backoff : Type 0 where
  pub base : ℕ
  pub maximum : ℕ
  pub attempts : Map ℕ

abbrev pub default_base : ℕ
default_base = 250000000

abbrev pub default_maximum : ℕ
default_maximum = 30000000000

-- NewBackoff
unfoldable pub new_backoff : (base maximum : ℤ) → Backoff
new_backoff base maximum =
    let b = if is_not_positive base then default_base else natural_part base in
    record {
      base = b;
      maximum = if ltb_ℤ maximum (pos b) then default_maximum else natural_part maximum;
      attempts = [];
    }

-- The loop of Failure: `attempt` rounds, left early with the maximum.
unfoldable pub grow : (maximum : ℕ) → (attempt : ℕ) → (delay : ℕ) → ℕ
grow maximum zero delay = if ltb maximum delay then maximum else delay
grow maximum (suc attempt) delay =
    let rest = grow maximum attempt (delay * 2) in if leb (maximum / 2) delay then maximum else rest

-- b.attempts[sourceID]; a missing key reads 0.
abbrev pub attempts_of : Backoff → Text → ℕ
attempts_of b source_id = elim (lookup source_id b.attempts) [ none ↦ 0 | some n ↦ n ]

-- Failure
unfoldable pub failure : Backoff → Text → Backoff × ℕ
failure b source_id =
    let attempt = attempts_of b source_id in
    (
      if ltb attempt 63
          then record b { attempts = insert source_id (attempt + 1) b.attempts }
          else b,
      grow b.maximum attempt b.base,
    )

-- Ready
unfoldable pub ready : Backoff → Text → Backoff
ready b source_id = record b { attempts = remove source_id b.attempts }

-- A delay never passes the maximum.
grow-le : (maximum attempt delay : ℕ) → grow maximum attempt delay ≤ maximum
unfolding grow
grow-le maximum zero delay = ground arith
grow-le maximum (suc attempt) delay = ground (arith, grow-le maximum attempt (delay * 2))

-- One more attempt never shortens the delay.
grow_mono :
    (maximum attempt delay : ℕ) → grow maximum attempt delay ≤ grow maximum (suc attempt) delay
unfolding grow
grow_mono maximum zero delay = ground arith
grow_mono maximum (suc attempt) delay =
    ground (arith, grow_mono maximum attempt (delay * 2), grow-le maximum attempt (delay * 2))

-- The delay is at least the exponential one, cut off at the maximum.
grow-exponential :
    (maximum attempt delay : ℕ) → min maximum (delay * 2 ^ attempt) ≤ grow maximum attempt delay
unfolding grow
grow-exponential maximum zero delay = ground arith
grow-exponential maximum (suc attempt) delay =
    let split : delay * 2 * 2 ^ attempt ≡ delay * 2 ^ suc attempt =
      rw pow-suc (rw mul_assoc (rw (mul_comm 2 (2 ^ attempt)))) in
    ground (
      arith,
      grow-exponential maximum attempt (delay * 2),
      grow-le maximum attempt (delay * 2),
      split,
    )

grow-zero : (maximum delay : ℕ) → grow maximum 0 delay ≡ min maximum delay
unfolding grow
grow-zero maximum delay = ground arith

-- A call of Failure or of Ready for a source.
pub data Call : Type 0 where
  failed : Text → Call
  recovered : Text → Call

unfoldable pub after_call : Call → Backoff → Backoff
after_call (failed s) b = (failure b s).0
after_call (recovered s) b = ready b s

-- The backoff after some calls, the last one first.
unfoldable pub replay : List Call → Backoff → Backoff
replay [] b = b
replay (c ∷ earlier) b = after_call c (replay earlier b)

-- How often a source has failed since it was last ready, or at all.
unfoldable pub failures_since : Text → List Call → ℕ
failures_since s [] = 0
failures_since s (failed t ∷ earlier) =
    let n = failures_since s earlier in if text_eq t s then suc n else n
failures_since s (recovered t ∷ earlier) =
    let n = failures_since s earlier in if text_eq t s then 0 else n

-- What the calls leave of the settings and of one source's counter.
replay_lem :
    (s : Text) (calls : List Call) (base maximum : ℤ)
    → ((replay calls (new_backoff base maximum)).base ≡ (new_backoff base maximum).base)
      × ((replay calls (new_backoff base maximum)).maximum ≡ (new_backoff base maximum).maximum)
      × (attempts_of (replay calls (new_backoff base maximum)) s ≡ min 63 (failures_since s calls))
unfolding replay failures_since after_call failure ready new_backoff lookup
replay_lem s [] base maximum = (refl, refl, refl)
replay_lem s (failed t ∷ earlier) base maximum =
    let b = replay earlier (new_backoff base maximum) in
    let (x, y, z) = replay_lem s earlier base maximum in
    (
      ground arith,
      ground arith,
      ground (arith, lookup-insert t s (attempts_of b t + 1) b.attempts, text_eq_iff t s),
    )
replay_lem s (recovered t ∷ earlier) base maximum =
    let b = replay earlier (new_backoff base maximum) in
    let (x, y, z) = replay_lem s earlier base maximum in
    (x, y, ground (arith, lookup-remove t s b.attempts, text_eq_iff t s))

delay_bounds :
    (b : Backoff) (s : Text) {base maximum n : ℕ}
    → b.base ≡ base
    → b.maximum ≡ maximum
    → attempts_of b s ≡ n
    → (min maximum (base * 2 ^ n) ≤ (failure b s).1) × ((failure b s).1 ≤ maximum)
unfolding failure
delay_bounds b s {base} {maximum} {n} x y z =
    (rw (z, x, y) (grow-exponential maximum n base), rw (z, x, y) (grow-le maximum n base))

-- After any calls of Failure and Ready for any sources, the delay that the next Failure of a source
-- returns never passes the maximum, and is at least the base doubled once for each failure of that
-- source since it was last ready, or 63 times if there are more, or the maximum if that is less.
pub failure_bounds :
    (base maximum : ℤ) (calls : List Call) (s : Text)
    → (min
          (new_backoff base maximum).maximum
          ((new_backoff base maximum).base * 2 ^ min 63 (failures_since s calls))
        ≤ (failure (replay calls (new_backoff base maximum)) s).1)
      × ((failure (replay calls (new_backoff base maximum)) s).1
          ≤ (new_backoff base maximum).maximum)
failure_bounds base maximum calls s =
    let (x, y, z) = replay_lem s calls base maximum in
    delay_bounds (replay calls (new_backoff base maximum)) s x y z

-- A second failure of a source never waits less than the first, and after Ready it waits as for the
-- first time. Neither call changes what another source waits.
pub failure_schedule :
    (b : Backoff) (s t : Text)
    → s ≢ t
    → ((failure b s).1 ≤ (failure (failure b s).0 s).1)
      × ((failure (ready b s) s).1 ≡ min b.maximum b.base)
      × ((failure (failure b s).0 t).1 ≡ (failure b t).1)
      × ((failure (ready b s) t).1 ≡ (failure b t).1)
unfolding failure ready
failure_schedule b s t d =
    let n = attempts_of b s in
    (
      ground (
        arith,
        grow_mono b.maximum n b.base,
        lookup-insert s s (n + 1) b.attempts,
        text_eq_refl s,
      ),
      ground (arith, grow-zero b.maximum b.base, lookup-remove s s b.attempts, text_eq_refl s),
      ground (arith, lookup-insert s t (n + 1) b.attempts, text_eq_iff s t),
      ground (arith, lookup-remove s t b.attempts, text_eq_iff s t),
    )
