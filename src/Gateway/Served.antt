-- ===== src/Gateway/Served.antt =====
-- mas/runtime/provider_gateway.py and mas/runtime/cache.py: what a call of the gateway executes, and
-- what its cache keeps.
use v.Prelude.{
  String, Bool, true, false, Option, List, [], ◌∷◌, ◌≡◌, ◌⊎◌, refl, subst, ◌&&◌, arith, any, select,
  All, Bool-cases, Option-cases, inl, inr, if-elim,
}
use v.Prelude.Dict.{Dict}
use v.Prelude.Float.{FloatOps}
use v.Gateway.Types.{TextOps, ModelConfig, GatewayRequest, GatewayResponse, World}
use v.Gateway.Errors.{is_set, or_else}
use v.Gateway.Routing.{is_anthropic}
use v.Gateway.Breaker.{CircuitBreaker}
use v.Gateway.Cache.{Entries, cache_get}
use v.Gateway.Attempt.{apply_selection_metadata}
use v.Gateway.Progress.{Candidate}
use v.Gateway.Account.{Account, answered, stopped, unanswered}
use v.Gateway.Endings.{call_with_fallbacks-Account}
use v.Gateway.Selection.{select_model_candidates}
use v.Gateway.Chosen.{select_model_candidates-Chosen}
use v.Gateway.Serve.{
  Gateway, GatewayState, CallWorld, CallResult, responded, raised_error, unknown_provider,
  is_supported, build_cache_key, keep, serve, call,
}

module _ {F : Type 0} where
  supported_All :
      (cs : List (Candidate F))
      → All (λ c. is_anthropic c.0.provider ≡ true) (select is_supported cs)
  supported_All [] = tt
  supported_All ((config, s) ∷ cs) = elim (Bool-cases (is_anthropic config.provider)) [
    | inl e ↦ rw e (e, supported_All cs)
    | inr e ↦ rw e (supported_All cs)
  ]

  some_supported :
      (cs : List (Candidate F))
      → any is_supported cs ≡ true
      → (c : Candidate F) × (rest : List (Candidate F)) × (select is_supported cs ≡ c ∷ rest)
  some_supported [] h = absurd (ground (arith, h))
  some_supported ((config, s) ∷ cs) h = elim (Bool-cases (is_anthropic config.provider)) [
    | inl e ↦ ((config, s), select is_supported cs, rw e refl)
    | inr e ↦
        let found = some_supported cs (ground (arith, e, h)) in (found.0, found.1, rw e found.2)
  ]

module _ {F : Type 0} ⦃fl : FloatOps F⦄ (ops : TextOps) (sha256 : String → String)
    (json : Dict String → String) where
  -- How a call of the gateway ends: it raises for a provider that is not known, or it responds,
  -- from the cache and then without touching the breaker, or with an account of its executions, all
  -- of configs of the supported provider, and then a response with an error is not cached.
  pub data Served (w : CallWorld F) (s : GatewayState F) : CallResult F → Type 0 where
    not_routed : Served w s (raised_error unknown_provider)
    from_cache :
        {t : GatewayState F} {r : GatewayResponse F}
        → t.breaker ≡ s.breaker
        → r.cache_hit ≡ true
        → Served w s (responded t r)
    executed_now :
        {t : GatewayState F} {r : GatewayResponse F}
        → (first : Candidate F)
        → Account ops w.world first (λ config. is_anthropic config.provider ≡ true) r
        → (is_set r.error ≡ true
            → (t.cache ≡ s.cache)
              ⊎ ((key : String) × (t.cache ≡ (cache_get s.cache w.got_at key).0)))
        → Served w s (responded t r)

  Account-marked :
      (w : World F) (first : Candidate F) (Q : ModelConfig F → Type 0) (r : GatewayResponse F)
      (status : String)
      → Account ops w first Q r
      → Account ops w first Q (record r { cache_status = status })
  Account-marked w first Q r status a = record {
    ran = a.ran;
    within = a.within;
    counted = a.counted;
    listed = a.listed;
    input_tokens = a.input_tokens;
    output_tokens = a.output_tokens;
    cache_read_tokens = a.cache_read_tokens;
    cost_usd = a.cost_usd;
    ending = elim a.ending [
      | answered c older e f g t h ↦ answered c older e f g t h
      | stopped c x f e t u ↦ stopped c x f e t u
      | unanswered f e ↦ unanswered f e
    ];
  }

  keep-Served :
      (gateway : Gateway) (w : CallWorld F) (s : GatewayState F) (key : String) (allowed : Bool)
      (status : String) (entries : Entries F) (first : Candidate F)
      (done : CircuitBreaker F × GatewayResponse F)
      → ((entries ≡ s.cache) ⊎ ((k : String) × (entries ≡ (cache_get s.cache w.got_at k).0)))
      → Account ops w.world first (λ config. is_anthropic config.provider ≡ true) done.1
      → Served w s (keep gateway w key allowed status entries done)
  unfolding keep
  keep-Served gateway w s key allowed status entries first (breaker, r) same a =
      let marked =
        Account-marked w.world first (λ config. is_anthropic config.provider ≡ true) r status a in
      if-elim (Served w s) _ _ (is_set r.error) (λ e. executed_now first marked (λ f. same))
        (λ e.
          if-elim (Served w s) _ _ allowed
            (λ g. executed_now first marked (λ f. absurd (ground (arith, e, f))))
            (λ g. executed_now first marked (λ f. same)))

  serve-Served :
      (gateway : Gateway) (w : CallWorld F) (s : GatewayState F) (request : GatewayRequest)
      (first : Candidate F) (others : List (Candidate F))
      → All (λ c. is_anthropic c.0.provider ≡ true) (first ∷ others)
      → Served w s (serve ops sha256 json gateway w s request first others)
  unfolding serve apply_selection_metadata
  serve-Served gateway w s request first others h =
      let key = or_else request.cache_key (build_cache_key sha256 json request first.1) in
      let a =
        call_with_fallbacks-Account ops w.world first gateway.provider_availability
          gateway.max_retries (λ config. is_anthropic config.provider ≡ true) s.breaker others h in
      if-elim (Served w s) _ _ (gateway.routing_config.cache_enabled && request.allow_cache)
        (λ e. elim (Option-cases (cache_get s.cache w.got_at key).1) [
          | inl missed ↦
              rw missed (keep-Served gateway w s key true "miss" _ first _ (inr (key, refl)) a)
          | inr (cached, hit) ↦ rw hit (from_cache refl refl)
        ])
        (λ e. keep-Served gateway w s key false _ s.cache first _ (inl refl) a)

  -- Every call of the gateway raises for a provider that is not known (or a config that is not
  -- valid), or responds from the cache and leaves the breaker alone, or responds with an account of
  -- its executions, all of configs of the supported provider, where a response with an error leaves
  -- the cache as it was but for an expired entry. It never raises for want of a supported candidate.
  pub call-Served :
      (gateway : Gateway) (w : CallWorld F) (s : GatewayState F) (request : GatewayRequest)
      (config_override : Option (ModelConfig F))
      → Served w s (call ops sha256 json gateway w s request config_override)
  unfolding call
  call-Served gateway w s request config_override =
      let selected =
        select_model_candidates ops request.phase config_override request.routing_context
          gateway.routing_config in
      elim (Option-cases selected) [
        | inl e ↦ rw (e, call) not_routed
        | inr (cs, e) ↦
            let chosen =
              select_model_candidates-Chosen ops request.phase config_override
                request.routing_context gateway.routing_config cs e in
            let found = some_supported cs chosen.2.supported in
            let supported =
              subst (All (λ c. is_anthropic c.0.provider ≡ true)) found.2 (supported_All cs) in
            rw (e, call, found.2) (serve-Served gateway w s request found.0 found.1 supported)
      ]
