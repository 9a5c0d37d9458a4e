-- ===== src/Policy/Breaker.antt =====
-- mas/policy.py: the circuit breaker of a phase. `now` is what `time.time()` returns, to the stamp
-- of the failure and then to the stamp of the opening.
use v.Prelude.{ℕ, ◌+◌, Bool, true, false, none, some, leb, if◌then◌else◌}
use v.Policy.Types.{BreakerState, closed, degraded, open_state, PhaseBreaker}

abbrev is_open : BreakerState → Bool
is_open open_state = true
is_open _ = false

abbrev is_degraded : BreakerState → Bool
is_degraded degraded = true
is_degraded _ = false

module _ {F : Type 0} where
  -- `breaker.failure_count` and `last_failure_at` are set already
  unfoldable pub trip : F → PhaseBreaker F → ℕ → ℕ → PhaseBreaker F
  trip now breaker degrade_threshold open_threshold =
      if leb open_threshold breaker.failure_count
      then (if is_open breaker.state
          then breaker
          else record breaker { state = open_state; opened_at = some now })
      else if leb degrade_threshold breaker.failure_count
      then record breaker { state = degraded }
      else breaker

  -- The new breaker; the code returns its `state`.
  unfoldable pub evaluate_breaker : F → F → PhaseBreaker F → Bool → ℕ → ℕ → PhaseBreaker F
  unfolding trip
  evaluate_breaker now now' breaker success degrade_threshold open_threshold =
      if success
      then (if is_degraded breaker.state
          then record breaker { state = closed; failure_count = 0 }
          else breaker)
      else trip now'
          (record breaker { failure_count = breaker.failure_count + 1; last_failure_at = some now })
          degrade_threshold open_threshold

  unfoldable pub reset_breaker : PhaseBreaker F → PhaseBreaker F
  reset_breaker breaker = record breaker { state = closed; failure_count = 0; opened_at = none }
