-- ===== src/Gateway/Calls.antt =====
-- mas/runtime/provider_gateway.py: `_call_with_fallbacks`. Telemetry is left out, and so are the
-- waits between two attempts, which show in the clock readings alone.
use v.Prelude.{
  ℕ, zero, suc, ◌+◌, String, Bool, false, Option, none, some, List, [], ◌∷◌, ◌++◌, not, ◌||◌,
  str_eq, ltb, if◌then◌else◌,
}
use v.Prelude.Dict.{Dict}
use v.Prelude.Float.{FloatOps}
use v.Gateway.Types.{TextOps, provider_value, ModelConfig, GatewayResponse, blank_response, World}
use v.Gateway.Errors.{
  is_set, or_else, is_retryable, is_unusable, is_fallback_eligible, candidate_key, attempt_metadata,
  safe_error_message,
}
use v.Gateway.Breaker.{CircuitBreaker, record_failure, is_open, reset}
use v.Gateway.Attempt.{
  record_usage, apply_usage, apply_selection_metadata, run_before_attempt, execute, sanitized,
}
use v.Gateway.Progress.{
  Candidate, Progress, Step, returned, again, next_candidate, start, provider_available,
  note_failure, skip,
}

module _ {F : Type 0} ⦃fl : FloatOps F⦄ (ops : TextOps) (w : World F) (first : Candidate F) where
  unfoldable pub executed : ℕ → ModelConfig F → GatewayResponse F
  unfolding execute sanitized
  executed n config = sanitized ops config (execute ops config (w.run n config))

  -- The response of an executor that succeeded.
  unfoldable pub success : ℕ → Candidate F → Progress F → GatewayResponse F → GatewayResponse F
  unfolding apply_usage apply_selection_metadata
  success index (config, selection) p response =
      let fallback_used = is_set p.failed_provider || ltb 0 index in
      let told = record response {
        attempt_count = p.attempt_count;
        attempts = p.attempts ++ attempt_metadata config selection "success" "" "" ∷ [];
        fallback_used = fallback_used;
        fallback_reason = p.fallback_reason;
        failed_provider = p.failed_provider;
        failed_model = p.failed_model;
        failed_error_type = p.failed_error_type;
        fallback_provider =
            if fallback_used then provider_value config.provider else response.fallback_provider;
        fallback_model =
            if fallback_used
            then or_else response.model_used config.model
            else response.fallback_model;
      } in
      apply_usage p.usage (apply_selection_metadata told first.1 first.0)

  unfoldable pub final_error_response : Progress F → GatewayResponse F → GatewayResponse F
  unfolding apply_usage apply_selection_metadata
  final_error_response p response =
      let told = record response {
        attempts = p.attempts;
        attempt_count = p.attempt_count;
        failed_provider = p.failed_provider;
        failed_model = p.failed_model;
        failed_error_type = p.failed_error_type;
        fallback_reason = p.fallback_reason;
        fallback_used = false;
      } in
      apply_usage p.usage (apply_selection_metadata told first.1 first.0)

  -- The response where the hook refuses.
  unfoldable pub refused : Progress F → GatewayResponse F → GatewayResponse F
  unfolding apply_usage apply_selection_metadata
  refused p response = apply_usage p.usage (
      apply_selection_metadata
        (record response { attempts = p.attempts; attempt_count = p.attempt_count }) first.1
        first.0)

  -- What an execution adds: the count, and its usage.
  unfoldable pub billed : Progress F → GatewayResponse F → Progress F
  unfolding record_usage
  billed p response = record p {
    attempt_count = p.attempt_count + 1;
    usage = record_usage p.usage response;
  }

  -- What a failed execution leaves.
  unfoldable pub failed : Progress F → Candidate F → GatewayResponse F → Progress F
  unfolding note_failure record_failure
  failed p (config, selection) response =
      let category = response.error_type in
      let noted = note_failure p (config, selection) "failed" category "" response.error in
      let seen = is_set p.attempted_error_type in
      record noted {
        attempted_error_type = if seen then p.attempted_error_type else category;
        attempted_error = if seen then p.attempted_error else response.error;
        breaker =
            if is_retryable category
            then record_failure p.breaker (w.failed_at p.attempt_count) (candidate_key config)
            else p.breaker;
      }

  -- After an execution.
  unfoldable pub settle : ℕ → Candidate F → Progress F → GatewayResponse F → Step F
  unfolding success final_error_response failed reset
  settle index (config, selection) p response =
      let retryable = is_retryable response.error_type in
      let after = failed p (config, selection) response in
      if not (is_set response.error)
      then returned (record p { breaker = reset p.breaker (candidate_key config) })
          (success index (config, selection) p response)
      else if not (is_fallback_eligible response.error_type)
      then returned after (final_error_response after (record response { retryable = retryable }))
      else if retryable
      then again after
      else next_candidate after

  unfoldable pub attempt : ℕ → Candidate F → Progress F → Step F
  unfolding settle refused billed executed run_before_attempt
  attempt index (config, selection) p =
      elim (run_before_attempt config (w.hook p.attempt_count config)) [
        | some refusal ↦ returned p (refused p refusal)
        | none ↦
            let response = executed p.attempt_count config in
            settle index (config, selection) (billed p response) response
      ]

  -- The retries of one candidate.
  unfoldable pub tries : ℕ → ℕ → Candidate F → Progress F → Step F
  unfolding attempt
  tries zero index candidate p = next_candidate p
  tries (suc n) index candidate p = elim (attempt index candidate p) [
    | returned q response ↦ returned q response
    | again q ↦ tries n index candidate q
    | next_candidate q ↦ next_candidate q
  ]

  -- The category and the message of a call that no candidate answered.
  unfoldable pub headline : Progress F → String × String
  unfolding safe_error_message
  headline p =
      if str_eq p.failed_error_type "quota_exceeded"
      then (
        "quota_exceeded",
        safe_error_message ops "quota_exceeded" p.failed_provider p.failed_model "",
      )
      else if is_unusable p.attempted_error_type
      then (p.attempted_error_type, p.attempted_error)
      else (
        p.last_error_type,
        or_else p.last_error "All configured provider candidates failed or were unavailable",
      )

  unfoldable pub exhausted : Progress F → GatewayResponse F
  unfolding headline apply_usage
  exhausted p = apply_usage p.usage (record blank_response {
    model_used = first.0.model;
    provider_used = provider_value first.0.provider;
    selected_model = first.0.model;
    selected_provider = provider_value first.0.provider;
    selection_reason = first.1.reason;
    task_profile = first.1.task_profile;
    fallback_reason = p.fallback_reason;
    failed_provider = p.failed_provider;
    failed_model = p.failed_model;
    failed_error_type = p.failed_error_type;
    attempt_count = p.attempt_count;
    attempts = p.attempts;
    error = (headline p).1;
    error_type = (headline p).0;
    retryable = is_retryable (headline p).0;
  })

  module _ (availability : Option (Dict Bool)) (max_retries : ℕ) where
    -- One round of the loop over the candidates.
    unfoldable pub visit : ℕ → Candidate F → Progress F → Step F
    unfolding skip tries is_open provider_available
    visit index (config, selection) p =
        if not (provider_available availability config.provider)
        then next_candidate (skip ops p (config, selection) "provider_unavailable")
        else if is_open p.breaker (w.looked_at index) (candidate_key config)
        then next_candidate (skip ops p (config, selection) "circuit_open")
        else tries max_retries index (config, selection) p

    unfoldable pub walk : ℕ → List (Candidate F) → Progress F → CircuitBreaker F × GatewayResponse F
    unfolding visit exhausted
    walk index [] p = (p.breaker, exhausted p)
    walk index (candidate ∷ candidates) p = elim (visit index candidate p) [
      | returned q response ↦ (q.breaker, response)
      | again q ↦ walk (suc index) candidates q
      | next_candidate q ↦ walk (suc index) candidates q
    ]

module _ {F : Type 0} ⦃fl : FloatOps F⦄ (ops : TextOps) where
  -- Candidates that are `first` and then `others`.
  unfoldable pub call_with_fallbacks :
      World F
      → Option (Dict Bool)
      → ℕ
      → CircuitBreaker F
      → Candidate F
      → List (Candidate F)
      → CircuitBreaker F × GatewayResponse F
  unfolding walk
  call_with_fallbacks w availability max_retries breaker first others =
      walk ops w first availability max_retries 0 (first ∷ others) (start breaker)
