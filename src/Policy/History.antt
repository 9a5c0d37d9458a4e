-- ===== src/Policy/History.antt =====
-- mas/policy.py: the circuit breaker over a history of outcomes.
use v.Prelude.{
  ℕ, ◌+◌, ◌≤◌, ◌<◌, ◌≡◌, refl, Bool, true, false, List, [], ◌∷◌, arith, leb, count_if, not,
  if◌then◌else◌,
}
use v.Policy.Types.{BreakerState, closed, degraded, open_state, PhaseBreaker, default_breaker}
use v.Policy.Breaker.{evaluate_breaker, reset_breaker}

-- The state that a count of failures calls for.
abbrev pub level : ℕ → ℕ → ℕ → BreakerState
level degrade limit count =
    if leb limit count then open_state else if leb degrade count then degraded else closed

module _ {F : Type 0} (now : F) (degrade limit : ℕ) where
  unfoldable pub run_breaker : PhaseBreaker F → List Bool → PhaseBreaker F
  run_breaker b [] = b
  run_breaker b (success ∷ rest) =
      run_breaker (evaluate_breaker now now b success degrade limit) rest

  abbrev pub IsLevel : PhaseBreaker F → Type 0
  IsLevel b = b.state ≡ level degrade limit b.failure_count

  step-IsLevel :
      (b : PhaseBreaker F) (success : Bool)
      → 0 < degrade
      → degrade ≤ limit
      → IsLevel b
      → IsLevel (evaluate_breaker now now b success degrade limit)
  unfolding evaluate_breaker
  step-IsLevel b success p q h = ground arith

  run-IsLevel :
      (b : PhaseBreaker F) (history : List Bool)
      → 0 < degrade
      → degrade ≤ limit
      → IsLevel b
      → IsLevel (run_breaker b history)
  unfolding run_breaker
  run-IsLevel b [] p q h = h
  run-IsLevel b (x ∷ xs) p q h =
      run-IsLevel (evaluate_breaker now now b x degrade limit) xs p q (step-IsLevel b x p q h)

  -- With thresholds 0 < degrade ≤ limit, after any history of outcomes from a new breaker, its state
  -- is the one that its count of failures calls for: open from `limit` on, degraded from `degrade`
  -- on, else closed.
  pub run_breaker-IsLevel :
      (history : List Bool)
      → 0 < degrade
      → degrade ≤ limit
      → IsLevel (run_breaker default_breaker history)
  run_breaker-IsLevel history p q = run-IsLevel default_breaker history p q (ground arith)

  step_count :
      (b : PhaseBreaker F) (success : Bool)
      → (evaluate_breaker now now b success degrade limit).failure_count
        ≤ b.failure_count + (if success then 0 else 1)
  unfolding evaluate_breaker
  step_count b success = ground arith

  run_count :
      (b : PhaseBreaker F) (history : List Bool)
      → (run_breaker b history).failure_count ≤ b.failure_count + count_if not history
  unfolding run_breaker
  run_count b [] = omega arith
  run_count b (true ∷ xs) =
      omega (arith, step_count b true, run_count (evaluate_breaker now now b true degrade limit) xs)
  run_count b (false ∷ xs) =
      omega
        (arith, step_count b false, run_count (evaluate_breaker now now b false degrade limit) xs)

  -- With thresholds 0 < degrade ≤ limit, a breaker that is open after a history that began with a
  -- new breaker has seen at least `limit` failures.
  pub open_needs_failures :
      (history : List Bool)
      → 0 < degrade
      → degrade ≤ limit
      → (run_breaker default_breaker history).state ≡ open_state
      → limit ≤ count_if not history
  open_needs_failures history p q h =
      ground (arith, run_breaker-IsLevel history p q, run_count default_breaker history)

  step_open :
      (b : PhaseBreaker F) (success : Bool)
      → b.state ≡ open_state
      → limit ≤ b.failure_count
      → ((evaluate_breaker now now b success degrade limit).state ≡ open_state)
        × (limit ≤ (evaluate_breaker now now b success degrade limit).failure_count)
        × ((evaluate_breaker now now b success degrade limit).opened_at ≡ b.opened_at)
  unfolding evaluate_breaker
  step_open b success h q = ground arith

  -- An open breaker whose count has reached the limit stays open, with the stamp of its first
  -- opening, through every further outcome: only `reset_breaker` closes it.
  pub open_stays :
      (b : PhaseBreaker F) (history : List Bool)
      → b.state ≡ open_state
      → limit ≤ b.failure_count
      → ((run_breaker b history).state ≡ open_state)
        × ((run_breaker b history).opened_at ≡ b.opened_at)
        × ((reset_breaker (run_breaker b history)).state ≡ closed)
  unfolding run_breaker reset_breaker
  open_stays b [] h q = (h, refl, refl)
  open_stays b (x ∷ xs) h q =
      ground (arith, step_open b x h q, open_stays (evaluate_breaker now now b x degrade limit) xs)
