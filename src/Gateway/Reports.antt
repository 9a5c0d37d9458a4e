-- ===== src/Gateway/Reports.antt =====
-- mas/runtime/provider_gateway.py: what a failed call reports, through the loops of
-- `_call_with_fallbacks`.
use v.Prelude.{ℕ, zero, suc, Bool, true, Option, List, [], ◌∷◌, ◌≡◌, refl, not, if-elim}
use v.Prelude.Dict.{Dict}
use v.Prelude.Float.{FloatOps}
use v.Gateway.Types.{TextOps, ModelConfig, ProviderSelection, GatewayResponse, no_objection, World}
use v.Gateway.Errors.{is_set, candidate_key}
use v.Gateway.Breaker.{CircuitBreaker, is_open}
use v.Gateway.Attempt.{run_before_attempt}
use v.Gateway.Progress.{
  Candidate, Progress, Step, returned, again, next_candidate, start, provider_available,
}
use v.Gateway.Calls.{executed, billed, attempt, tries, visit, walk, call_with_fallbacks}
use v.Gateway.Headline.{
  first_type, last_type, called_type, Told, Reported, Telling, skip-Told, settle-Telling,
  exhausted-Reported,
}

module _ {F : Type 0} ⦃fl : FloatOps F⦄ (ops : TextOps) (w : World F) (first : Candidate F)
    (free : (n : ℕ) (config : ModelConfig F) → w.hook n config ≡ no_objection) where
  attempt-Telling :
      (p : Progress F) (index : ℕ) (config : ModelConfig F) (selection : ProviderSelection)
      → Told p
      → Telling (attempt ops w first index (config, selection) p)
  unfolding attempt run_before_attempt billed
  attempt-Telling p index config selection h =
      let r = executed ops w first p.attempt_count config in
      rw (free p.attempt_count config, attempt)
        (settle-Telling ops w first (billed ops w first p r) index config selection r (record {
          first = h.first;
          seen = h.seen;
          last = h.last;
          called = h.called;
          eligible = h.eligible;
        }))

  tries-Telling :
      (n index : ℕ) (config : ModelConfig F) (selection : ProviderSelection) (p : Progress F)
      → Told p
      → Telling (tries ops w first n index (config, selection) p)
  unfolding tries
  tries-Telling zero index config selection p h = h
  tries-Telling (suc n) index config selection p h =
      go (attempt ops w first index (config, selection) p)
        (attempt-Telling p index config selection h) (tries-Telling n index config selection)
    where
      go :
          (s : Step F)
          → Telling s
          → ((q : Progress F) → Told q → Telling (tries ops w first n index (config, selection) q))
          → Telling (elim s [
            | returned q response ↦ returned q response
            | again q ↦ tries ops w first n index (config, selection) q
            | next_candidate q ↦ next_candidate q
          ])
      go (returned q r) s k = s
      go (again q) s k = k q s
      go (next_candidate q) s k = s

  module _ (availability : Option (Dict Bool)) (max_retries : ℕ) where
    visit-Telling :
        (index : ℕ) (config : ModelConfig F) (selection : ProviderSelection) (p : Progress F)
        → Told p
        → Telling (visit ops w first availability max_retries index (config, selection) p)
    unfolding visit
    visit-Telling index config selection p h =
        if-elim Telling _ _ (not (provider_available availability config.provider))
          (λ e. skip-Told ops w first p config selection "provider_unavailable" h)
          (λ e.
            if-elim Telling _ _ (is_open p.breaker (w.looked_at index) (candidate_key config))
              (λ o. skip-Told ops w first p config selection "circuit_open" h)
              (λ o. tries-Telling max_retries index config selection p h))

    walk-Reported :
        (index : ℕ) (candidates : List (Candidate F)) (p : Progress F)
        → Told p
        → is_set
            (GatewayResponse.error (walk ops w first availability max_retries index candidates p).1)
          ≡ true
        → Reported (walk ops w first availability max_retries index candidates p).1
    unfolding walk
    walk-Reported index [] p h f = exhausted-Reported ops w first p h
    walk-Reported index ((config, selection) ∷ candidates) p h f =
        go (visit ops w first availability max_retries index (config, selection) p)
          (visit-Telling index config selection p h) (walk-Reported (suc index) candidates) f
      where
        go :
            (s : Step F)
            → Telling s
            → ((q : Progress F)
                → Told q
                → is_set (
                    GatewayResponse.error
                      (walk ops w first availability max_retries (suc index) candidates q).1)
                  ≡ true
                → Reported (walk ops w first availability max_retries (suc index) candidates q).1)
            → (let z : CircuitBreaker F × GatewayResponse F = elim s [
              | returned q response ↦ (q.breaker, response)
              | again q ↦ walk ops w first availability max_retries (suc index) candidates q
              | next_candidate q ↦
                  walk ops w first availability max_retries (suc index) candidates q
            ] in
                is_set z.1.error ≡ true → Reported z.1)
        go (returned q r) s k f = s f
        go (again q) s k f = k q s f
        go (next_candidate q) s k f = k q s f

    -- Where the hook never objects, a response with an error reports what its attempts say: the
    -- category of the last attempt if no other candidate can be tried after it, else
    -- quota_exceeded if the first attempt failed so, else the category of the first execution
    -- that failed if that is an unusable output, else that of the last attempt; and the first
    -- failure that it names has the category of its first attempt.
    pub call_with_fallbacks-Reported :
        (breaker : CircuitBreaker F) (others : List (Candidate F))
        → is_set (
            GatewayResponse.error
              (call_with_fallbacks ops w availability max_retries breaker first others).1)
          ≡ true
        → Reported (call_with_fallbacks ops w availability max_retries breaker first others).1
    unfolding call_with_fallbacks first_type last_type called_type
    call_with_fallbacks-Reported breaker others f =
        walk-Reported 0 (first ∷ others) (start breaker)
          (record { first = refl; seen = refl; last = refl; called = refl; eligible = refl }) f
