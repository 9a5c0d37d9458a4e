-- ===== src/Gateway/Endings.antt =====
-- mas/runtime/provider_gateway.py: every way in which `_call_with_fallbacks` ends has an account of
-- its executions.
use v.Prelude.{
  ℕ, zero, suc, Bool, true, false, Option, some, List, [], ◌∷◌, ◌≡◌, refl, not, arith, All,
  Option-cases, inl, inr, if-elim,
}
use v.Prelude.Dict.{Dict}
use v.Prelude.Float.{FloatOps}
use v.Gateway.Types.{TextOps, ModelConfig, ProviderSelection, GatewayResponse, World}
use v.Gateway.Errors.{is_set, is_retryable, is_fallback_eligible, attempt_metadata, candidate_key}
use v.Gateway.Messages.{safe_error_message-set}
use v.Gateway.Breaker.{CircuitBreaker, is_open}
use v.Gateway.Attempt.{apply_usage, apply_selection_metadata, run_before_attempt}
use v.Gateway.Progress.{
  Candidate, Progress, Step, returned, again, next_candidate, start, provider_available,
}
use v.Gateway.Calls.{
  executed, success, final_error_response, refused, billed, settle, attempt, tries, headline,
  exhausted, visit, walk, call_with_fallbacks,
}
use v.Gateway.Account.{
  count-snoc, spend, answered, stopped, unanswered, Account, Ran, Sound, start-Ran, skip-Ran,
  failed-Ran,
}

module _ {F : Type 0} ⦃fl : FloatOps F⦄ (ops : TextOps) (w : World F) (first : Candidate F) where
  refused-Account :
      (Q : ModelConfig F → Type 0) (p : Progress F) (config : ModelConfig F) (x : GatewayResponse F)
      → Ran ops w first Q p
      → run_before_attempt config (w.hook p.attempt_count config) ≡ some x
      → Account ops w first Q (refused ops w first p x)
  unfolding refused apply_usage apply_selection_metadata
  refused-Account Q p config x h e = record {
    ran = h.ran;
    within = h.within;
    counted = h.counted;
    listed = h.listed;
    input_tokens = ground (arith, h.usage);
    output_tokens = ground (arith, h.usage);
    cache_read_tokens = ground (arith, h.usage);
    cost_usd = ground (arith, h.usage);
    ending = stopped config x h.failures (ground (arith, e, h.counted)) refl refl;
  }

  success-Account :
      (Q : ModelConfig F → Type 0) (p : Progress F) (index : ℕ) (config : ModelConfig F)
      (selection : ProviderSelection) (r : GatewayResponse F)
      → Ran ops w first Q p
      → Q config
      → r ≡ executed ops w first p.attempt_count config
      → is_set r.error ≡ false
      → Account ops w first Q
          (success ops w first index (config, selection) (billed ops w first p r) r)
  unfolding success billed spend apply_usage apply_selection_metadata
  success-Account Q p index config selection r h q e f =
      let listed = count-snoc p.attempts (attempt_metadata config selection "success" "" "") in
      record {
        ran = config ∷ h.ran;
        within = (q, h.within);
        counted = ground (arith, h.counted);
        listed = ground (arith, listed, h.listed);
        input_tokens = ground (arith, h.usage, h.counted, e);
        output_tokens = ground (arith, h.usage, h.counted, e);
        cache_read_tokens = ground (arith, h.usage, h.counted, e);
        cost_usd = ground (arith, h.usage, h.counted, e);
        ending =
            answered config h.ran refl h.failures (ground (arith, h.counted, e, f))
              (ground (arith, h.counted, e)) f;
      }

  final-Account :
      (Q : ModelConfig F → Type 0) (p : Progress F) (r : GatewayResponse F)
      → Ran ops w first Q p
      → is_set r.error ≡ true
      → Account ops w first Q (final_error_response ops w first p r)
  unfolding final_error_response apply_usage apply_selection_metadata
  final-Account Q p r h f = record {
    ran = h.ran;
    within = h.within;
    counted = h.counted;
    listed = h.listed;
    input_tokens = ground (arith, h.usage);
    output_tokens = ground (arith, h.usage);
    cache_read_tokens = ground (arith, h.usage);
    cost_usd = ground (arith, h.usage);
    ending = unanswered h.failures f;
  }

  headline_set :
      (Q : ModelConfig F → Type 0) (p : Progress F)
      → Ran ops w first Q p
      → is_set (headline ops w first p).1 ≡ true
  unfolding headline
  headline_set Q p h =
      let quota = safe_error_message-set ops "quota_exceeded" p.failed_provider p.failed_model "" in
      ground (arith, quota, h.unusable, h.message)

  exhausted-Account :
      (Q : ModelConfig F → Type 0) (p : Progress F)
      → Ran ops w first Q p
      → Account ops w first Q (exhausted ops w first p)
  unfolding exhausted apply_usage
  exhausted-Account Q p h = record {
    ran = h.ran;
    within = h.within;
    counted = h.counted;
    listed = h.listed;
    input_tokens = ground (arith, h.usage);
    output_tokens = ground (arith, h.usage);
    cache_read_tokens = ground (arith, h.usage);
    cost_usd = ground (arith, h.usage);
    ending = unanswered h.failures (headline_set Q p h);
  }

  settle-Sound :
      (Q : ModelConfig F → Type 0) (p : Progress F) (index : ℕ) (config : ModelConfig F)
      (selection : ProviderSelection) (r : GatewayResponse F)
      → Ran ops w first Q p
      → Q config
      → r ≡ executed ops w first p.attempt_count config
      → Sound ops w first Q
          (settle ops w first index (config, selection) (billed ops w first p r) r)
  unfolding settle
  settle-Sound Q p index config selection r h q e =
      if-elim (Sound ops w first Q) _ _ (not (is_set r.error))
        (λ f. success-Account Q p index config selection r h q e (ground (arith, f)))
        (λ f.
          let bad : is_set r.error ≡ true = ground (arith, f) in
          let after = failed-Ran ops w first Q p config selection r h q e bad in
          if-elim (Sound ops w first Q) _ _ (not (is_fallback_eligible r.error_type))
            (λ g. final-Account Q _ (record r { retryable = is_retryable r.error_type }) after bad)
            (λ g.
              if-elim (Sound ops w first Q) _ _ (is_retryable r.error_type) (λ t. after)
                (λ t. after)))

  attempt-Sound :
      (Q : ModelConfig F → Type 0) (p : Progress F) (index : ℕ) (config : ModelConfig F)
      (selection : ProviderSelection)
      → Ran ops w first Q p
      → Q config
      → Sound ops w first Q (attempt ops w first index (config, selection) p)
  unfolding attempt
  attempt-Sound Q p index config selection h q =
      elim (Option-cases (run_before_attempt config (w.hook p.attempt_count config))) [
        | inl none_given ↦
            rw (none_given, attempt) (settle-Sound Q p index config selection _ h q refl)
        | inr (x, e) ↦ rw (e, attempt) (refused-Account Q p config x h e)
      ]

  tries-Sound :
      (Q : ModelConfig F → Type 0) (n index : ℕ) (config : ModelConfig F)
      (selection : ProviderSelection) (p : Progress F)
      → Ran ops w first Q p
      → Q config
      → Sound ops w first Q (tries ops w first n index (config, selection) p)
  unfolding tries
  tries-Sound Q zero index config selection p h q = h
  tries-Sound Q (suc n) index config selection p h q =
      go (attempt ops w first index (config, selection) p)
        (attempt-Sound Q p index config selection h q)
        (λ p h. tries-Sound Q n index config selection p h q)
    where
      go :
          (s : Step F)
          → Sound ops w first Q s
          → ((p : Progress F)
              → Ran ops w first Q p
              → Sound ops w first Q (tries ops w first n index (config, selection) p))
          → Sound ops w first Q (elim s [
            | returned q response ↦ returned q response
            | again q ↦ tries ops w first n index (config, selection) q
            | next_candidate q ↦ next_candidate q
          ])
      go (returned q r) s k = s
      go (again q) s k = k q s
      go (next_candidate q) s k = s

  module _ (availability : Option (Dict Bool)) (max_retries : ℕ) where
    visit-Sound :
        (Q : ModelConfig F → Type 0) (index : ℕ) (config : ModelConfig F)
        (selection : ProviderSelection) (p : Progress F)
        → Ran ops w first Q p
        → Q config
        → Sound ops w first Q
            (visit ops w first availability max_retries index (config, selection) p)
    unfolding visit
    visit-Sound Q index config selection p h q =
        if-elim (Sound ops w first Q) _ _ (not (provider_available availability config.provider))
          (λ e. skip-Ran ops w first Q p (config, selection) "provider_unavailable" h)
          (λ e.
            if-elim (Sound ops w first Q) _ _
              (is_open p.breaker (w.looked_at index) (candidate_key config))
              (λ o. skip-Ran ops w first Q p (config, selection) "circuit_open" h)
              (λ o. tries-Sound Q max_retries index config selection p h q))

    walk-Account :
        (Q : ModelConfig F → Type 0) (index : ℕ) (candidates : List (Candidate F)) (p : Progress F)
        → Ran ops w first Q p
        → All (λ c. Q c.0) candidates
        → Account ops w first Q (walk ops w first availability max_retries index candidates p).1
    unfolding walk
    walk-Account Q index [] p h q = exhausted-Account Q p h
    walk-Account Q index ((config, selection) ∷ candidates) p h q =
        go (visit ops w first availability max_retries index (config, selection) p)
          (visit-Sound Q index config selection p h q.0)
          (λ p h. walk-Account Q (suc index) candidates p h q.1)
      where
        go :
            (s : Step F)
            → Sound ops w first Q s
            → ((p : Progress F)
                → Ran ops w first Q p
                → Account ops w first Q
                    (walk ops w first availability max_retries (suc index) candidates p).1)
            → Account ops w first Q (
                let z : CircuitBreaker F × GatewayResponse F = elim s [
                  | returned q response ↦ (q.breaker, response)
                  | again q ↦ walk ops w first availability max_retries (suc index) candidates q
                  | next_candidate q ↦
                      walk ops w first availability max_retries (suc index) candidates q
                ] in
                z.1)
        go (returned q r) s k = s
        go (again q) s k = k q s
        go (next_candidate q) s k = k q s

    -- Whatever the providers, the hook, the clock and the breaker do, the response of a call has an
    -- account of its executions, all of configs with any property `Q` that the candidates share: it
    -- counts them, it lists as many attempts that were not skipped, its usage is the sum of theirs,
    -- and it ends in one of three ways. Either its last execution answered it with its text and the
    -- others failed, or all failed and the hook refused with the error that it shows, or all failed
    -- and it has an error.
    pub call_with_fallbacks-Account :
        (Q : ModelConfig F → Type 0) (breaker : CircuitBreaker F) (others : List (Candidate F))
        → All (λ c. Q c.0) (first ∷ others)
        → Account ops w first Q
            (call_with_fallbacks ops w availability max_retries breaker first others).1
    unfolding call_with_fallbacks
    call_with_fallbacks-Account Q breaker others h =
        walk-Account Q 0 (first ∷ others) (start breaker) (start-Ran ops w first Q breaker) h
