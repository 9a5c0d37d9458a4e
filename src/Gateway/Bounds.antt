-- ===== src/Gateway/Bounds.antt =====
-- mas/runtime/provider_gateway.py: how many executions a call of `_call_with_fallbacks` makes.
use v.Prelude.{
  ℕ, zero, suc, ◌+◌, ◌*◌, ◌≤◌, Bool, Option, List, [], ◌∷◌, ◌≡◌, refl, not, arith, length,
  Option-cases, inl, inr, if-elim,
}
use v.Prelude.Dict.{Dict}
use v.Prelude.Float.{FloatOps}
use v.Gateway.Types.{TextOps, ModelConfig, ProviderSelection, GatewayResponse, World}
use v.Gateway.Errors.{is_set, is_retryable, is_fallback_eligible, candidate_key}
use v.Gateway.Breaker.{CircuitBreaker, is_open}
use v.Gateway.Attempt.{apply_usage, apply_selection_metadata, run_before_attempt}
use v.Gateway.Progress.{
  Candidate, Progress, Step, returned, again, next_candidate, start, note_failure, skip,
  provider_available,
}
use v.Gateway.Calls.{
  executed, success, final_error_response, refused, billed, failed, settle, attempt, tries,
  exhausted, visit, walk, call_with_fallbacks,
}

-- The executions that a step has counted.
abbrev count_of : {F : Type 0} → Step F → ℕ
count_of (returned p r) = r.attempt_count
count_of (again p) = p.attempt_count
count_of (next_candidate p) = p.attempt_count

module _ {F : Type 0} ⦃fl : FloatOps F⦄ (ops : TextOps) (w : World F) (first : Candidate F) where
  settle_count :
      (p : Progress F) (index : ℕ) (config : ModelConfig F) (selection : ProviderSelection)
      (r : GatewayResponse F)
      → count_of (settle ops w first index (config, selection) p r) ≡ p.attempt_count
  unfolding settle success final_error_response failed note_failure apply_usage
      apply_selection_metadata
  settle_count p index config selection r =
      if-elim (λ (s : Step F). count_of s ≡ p.attempt_count) _ _ (not (is_set r.error)) (λ e. refl)
        (λ e.
          if-elim (λ (s : Step F). count_of s ≡ p.attempt_count) _ _
            (not (is_fallback_eligible r.error_type)) (λ f. refl)
            (λ f.
              if-elim (λ (s : Step F). count_of s ≡ p.attempt_count) _ _ (is_retryable r.error_type)
                (λ g. refl) (λ g. refl)))

  attempt_count_lem :
      (p : Progress F) (index : ℕ) (config : ModelConfig F) (selection : ProviderSelection)
      → count_of (attempt ops w first index (config, selection) p) ≤ p.attempt_count + 1
  unfolding attempt refused billed apply_usage apply_selection_metadata
  attempt_count_lem p index config selection =
      elim (Option-cases (run_before_attempt config (w.hook p.attempt_count config))) [
        | inl e ↦
            let r = executed ops w first p.attempt_count config in
            rw (e, attempt)
              (omega (arith, settle_count (billed ops w first p r) index config selection r))
        | inr (x, e) ↦ rw (e, attempt) (omega arith)
      ]

  tries_count :
      (n index : ℕ) (config : ModelConfig F) (selection : ProviderSelection) (p : Progress F)
      → count_of (tries ops w first n index (config, selection) p) ≤ p.attempt_count + n
  unfolding tries
  tries_count zero index config selection p = omega arith
  tries_count (suc n) index config selection p =
      go (attempt ops w first index (config, selection) p)
        (attempt_count_lem p index config selection) (tries_count n index config selection)
    where
      go :
          (s : Step F)
          → count_of s ≤ p.attempt_count + 1
          → ((q : Progress F)
              → count_of (tries ops w first n index (config, selection) q) ≤ q.attempt_count + n)
          → count_of (elim s [
            | returned q response ↦ returned q response
            | again q ↦ tries ops w first n index (config, selection) q
            | next_candidate q ↦ next_candidate q
          ])
            ≤ p.attempt_count + suc n
      go (returned q r) h k = omega arith
      go (again q) h k = omega (arith, k q)
      go (next_candidate q) h k = omega arith

  module _ (availability : Option (Dict Bool)) (max_retries : ℕ) where
    visit_count :
        (index : ℕ) (config : ModelConfig F) (selection : ProviderSelection) (p : Progress F)
        → count_of (visit ops w first availability max_retries index (config, selection) p)
          ≤ p.attempt_count + max_retries
    unfolding visit skip note_failure
    visit_count index config selection p =
        if-elim (λ (s : Step F). count_of s ≤ p.attempt_count + max_retries) _ _
          (not (provider_available availability config.provider)) (λ e. omega arith)
          (λ e.
            if-elim (λ (s : Step F). count_of s ≤ p.attempt_count + max_retries) _ _
              (is_open p.breaker (w.looked_at index) (candidate_key config)) (λ o. omega arith)
              (λ o. tries_count max_retries index config selection p))

    walk_count :
        (index : ℕ) (candidates : List (Candidate F)) (p : Progress F)
        → ◌≤◌
            (GatewayResponse.attempt_count
              (walk ops w first availability max_retries index candidates p).1)
            (p.attempt_count + length candidates * max_retries)
    unfolding walk exhausted apply_usage
    walk_count index [] p = omega arith
    walk_count index ((config, selection) ∷ candidates) p =
        go (visit ops w first availability max_retries index (config, selection) p)
          (visit_count index config selection p) (walk_count (suc index) candidates)
      where
        go :
            (s : Step F)
            → count_of s ≤ p.attempt_count + max_retries
            → ((q : Progress F)
                → ◌≤◌
                    (GatewayResponse.attempt_count
                      (walk ops w first availability max_retries (suc index) candidates q).1)
                    (q.attempt_count + length candidates * max_retries))
            → (let z : CircuitBreaker F × GatewayResponse F = elim s [
              | returned q response ↦ (q.breaker, response)
              | again q ↦ walk ops w first availability max_retries (suc index) candidates q
              | next_candidate q ↦
                  walk ops w first availability max_retries (suc index) candidates q
            ] in
                z.1.attempt_count ≤ p.attempt_count + suc (length candidates) * max_retries)
        go (returned q r) h k = omega arith
        go (again q) h k = omega (arith, k q)
        go (next_candidate q) h k = omega (arith, k q)

    -- A call executes no more often than its number of candidates times the tries of one.
    pub call_with_fallbacks_bounded :
        (breaker : CircuitBreaker F) (others : List (Candidate F))
        → ◌≤◌
            (GatewayResponse.attempt_count
              (call_with_fallbacks ops w availability max_retries breaker first others).1)
            (suc (length others) * max_retries)
    unfolding call_with_fallbacks
    call_with_fallbacks_bounded breaker others =
        omega (arith, walk_count 0 (first ∷ others) (start breaker))
