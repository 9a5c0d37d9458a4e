-- ===== src/Gateway/Retries.antt =====
-- mas/runtime/provider_gateway.py: a call whose first candidate recovers within its retries.
use v.Prelude.{
  ℕ, zero, suc, ◌+◌, ◌<◌, String, Bool, true, false, Option, List, ◌≡◌, refl, ◌||◌, ◌∙◌, arith, ltb,
  if-elim,
}
use v.Prelude.Dict.{Dict}
use v.Prelude.Float.{FloatOps}
use v.Gateway.Types.{
  TextOps, Provider, anthropic, openai, provider_value, ModelConfig, ProviderSelection,
  GatewayResponse, no_objection, World,
}
use v.Gateway.Errors.{is_set, is_retryable, candidate_key}
use v.Gateway.Breaker.{CircuitBreaker, is_open, reset}
use v.Gateway.Attempt.{apply_usage, apply_selection_metadata, run_before_attempt}
use v.Gateway.Progress.{
  Candidate, Progress, Step, returned, again, start, note_failure, provider_available,
}
use v.Gateway.Calls.{
  executed, success, billed, failed, settle, attempt, tries, visit, walk, call_with_fallbacks,
}

named : (q : Provider) → is_set (provider_value q) ≡ true
named anthropic = refl
named openai = refl

told_now : (a b : Bool) → (a || b) ≡ (a || (b || false))
told_now a b = ground arith

told_after : (a b c d : Bool) (k : ℕ) → b ≡ true → (b || (c || d)) ≡ (a || (c || ltb 0 (suc k)))
told_after a b c d k h = ground (arith, h)

module _ {F : Type 0} ⦃fl : FloatOps F⦄ (ops : TextOps) (w : World F) (first : Candidate F) where
  -- The executions of a config that begin at the number `n`: `k` of them fail in a way that is
  -- tried again, and the next one succeeds.
  abbrev pub Recovers : ℕ → ℕ → ModelConfig F → Type 0
  Recovers n zero config = is_set (executed ops w first n config).error ≡ false
  Recovers n (suc k) config =
      (is_set (executed ops w first n config).error ≡ true)
      × (is_retryable (executed ops w first n config).error_type ≡ true)
      × Recovers (n + 1) k config

  -- What the response of a recovery says.
  pub record Recovered (n k : ℕ) (config : ModelConfig F) (told : Bool) (r : GatewayResponse F)
      : Type 0 where
    pub text : r.text ≡ (executed ops w first (n + k) config).text
    pub error : is_set r.error ≡ false
    pub attempt_count : r.attempt_count ≡ n + k + 1
    pub fallback_used : r.fallback_used ≡ told

  module _ (free : (n : ℕ) (config : ModelConfig F) → w.hook n config ≡ no_objection) where
    attempt-settle :
        (p : Progress F) (index : ℕ) (config : ModelConfig F) (selection : ProviderSelection)
        → attempt ops w first index (config, selection) p
          ≡ settle ops w first index
              (config, selection)
              (billed ops w first p (executed ops w first p.attempt_count config))
              (executed ops w first p.attempt_count config)
    unfolding attempt run_before_attempt
    attempt-settle p index config selection = rw (free p.attempt_count config, attempt) refl

    settle-again :
        (p : Progress F) (index : ℕ) (config : ModelConfig F) (selection : ProviderSelection)
        (r : GatewayResponse F)
        → is_set r.error ≡ true
        → is_retryable r.error_type ≡ true
        → settle ops w first index (config, selection) p r
          ≡ again (failed ops w first p (config, selection) r)
    unfolding settle
    settle-again p index config selection r e f = rw (e, f) refl

    -- Whoever has failed is named.
    failed-provider :
        (p : Progress F) (config : ModelConfig F) (selection : ProviderSelection)
        (r : GatewayResponse F)
        → is_set (failed ops w first p (config, selection) r).failed_provider ≡ true
    unfolding failed note_failure
    failed-provider p config selection r =
        if-elim (λ (t : String × String × String). is_set t.0 ≡ true) _ _ (is_set p.failed_provider)
          (λ e. e) (λ e. named config.provider)

    -- The step that a recovery gives.
    record Answer (n k : ℕ) (config : ModelConfig F) (told : Bool) (s : Step F) : Type 0 where
      state : Progress F
      response : GatewayResponse F
      step : s ≡ returned state response
      recovered : Recovered n k config told response

    tries-Answer :
        (n k index : ℕ) (config : ModelConfig F) (selection : ProviderSelection) (p : Progress F)
        → k < n
        → Recovers p.attempt_count k config
        → Answer p.attempt_count k config
            (is_set p.failed_provider || (ltb 0 index || ltb 0 k))
            (tries ops w first n index (config, selection) p)
    unfolding tries settle success billed failed note_failure apply_usage apply_selection_metadata
    tries-Answer zero k index config selection p l h = elim l [ ]
    tries-Answer (suc n) zero index config selection p l h =
        let r = executed ops w first p.attempt_count config in
        let b = billed ops w first p r in
        record {
          state = record b { breaker = reset b.breaker (candidate_key config) };
          response = success ops w first index (config, selection) b r;
          step = rw (attempt-settle p index config selection, tries) (ground (arith, h));
          recovered = record {
            text = ground arith;
            error = h;
            attempt_count = omega arith;
            fallback_used = told_now (is_set p.failed_provider) (ltb 0 index);
          };
        }
    tries-Answer (suc n) (suc k) index config selection p l h =
        let r = executed ops w first p.attempt_count config in
        let q = failed ops w first (billed ops w first p r) (config, selection) r in
        let rest = tries-Answer n k index config selection q (omega (arith, l)) h.2 in
        let step = settle-again (billed ops w first p r) index config selection r h.0 h.1 in
        record {
          state = rest.state;
          response = rest.response;
          step = rw (attempt-settle p index config selection, step, tries) rest.step;
          recovered = record {
            text = ground (arith, rest.recovered.text, add_step p.attempt_count k);
            error = rest.recovered.error;
            attempt_count = omega (arith, rest.recovered.attempt_count);
            fallback_used =
                rest.recovered.fallback_used
                ∙ told_after (is_set p.failed_provider) (is_set q.failed_provider) (ltb 0 index)
                    (ltb 0 k) k (failed-provider (billed ops w first p r) config selection r);
          };
        }
      where
        add_step : (m k : ℕ) → m + 1 + k ≡ m + suc k
        add_step m k = omega arith

  -- If the hook does not object, the provider of the first candidate is available and its breaker
  -- closed, and after `k` executions that fail in a retryable way, fewer than the tries of a
  -- candidate, one succeeds, the call is answered: with the text of that execution, without an
  -- error and after `k + 1` executions, whatever the other candidates are. It reports a fallback
  -- exactly if `k` is not 0, though no other candidate was tried.
  pub call_with_fallbacks-Recovered :
      (availability : Option (Dict Bool)) (max_retries k : ℕ) (breaker : CircuitBreaker F)
      (others : List (Candidate F))
      → ((n : ℕ) (config : ModelConfig F) → w.hook n config ≡ no_objection)
      → provider_available availability first.0.provider ≡ true
      → is_open breaker (w.looked_at 0) (candidate_key first.0) ≡ false
      → k < max_retries
      → Recovers 0 k first.0
      → Recovered 0 k first.0
          (ltb 0 k)
          (call_with_fallbacks ops w availability max_retries breaker first others).1
  unfolding call_with_fallbacks walk visit
  call_with_fallbacks-Recovered availability max_retries k breaker others free on closed l h =
      let a = tries-Answer free max_retries k 0 first.0 first.1 (start breaker) l h in
      rw (on, closed, a.step, walk, visit) a.recovered
