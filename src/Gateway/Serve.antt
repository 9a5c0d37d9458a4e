-- ===== src/Gateway/Serve.antt =====
-- mas/runtime/provider_gateway.py: `call`. Its posture check, its log and its telemetry are left out.
-- SHA-256 and JSON are arguments on texts.
use v.Prelude.{
  ℕ, String, Bool, true, false, Option, none, some, List, [], ◌∷◌, ◌&&◌, select, if◌then◌else◌,
}
use v.Prelude.Dict.{Dict}
use v.Prelude.Float.{FloatOps}
use v.Gateway.Types.{
  TextOps, ModelConfig, ProviderSelection, GatewayRequest, GatewayResponse, RoutingConfig, World,
}
use v.Gateway.Errors.{is_set, or_else}
use v.Gateway.Routing.{is_anthropic}
use v.Gateway.Breaker.{CircuitBreaker}
use v.Gateway.Cache.{Entries, cache_get, cache_put}
use v.Gateway.Attempt.{apply_selection_metadata}
use v.Gateway.Progress.{Candidate}
use v.Gateway.Calls.{call_with_fallbacks}
use v.Gateway.Selection.{select_model_candidates}

-- What is fixed when a gateway is built. `max_retries` is at least 1.
pub record Gateway : Type 0 where
  pub routing_config : RoutingConfig
  pub provider_availability : Option (Dict Bool)
  pub max_retries : ℕ

-- What a call of the gateway changes.
pub record GatewayState (F : Type 0) : Type 0 where
  pub cache : Entries F
  pub breaker : CircuitBreaker F

-- The world of a call, and the clock as the cache reads it.
pub record CallWorld (F : Type 0) : Type 0 where
  pub world : World F
  pub got_at : F
  pub put_at : F

pub data CallError : Type 0 where
  unknown_provider no_supported_provider : CallError

pub data CallResult (F : Type 0) : Type 0 where
  responded : GatewayState F → GatewayResponse F → CallResult F
  raised_error : CallError → CallResult F

-- V7_SUPPORTED_PROVIDERS
abbrev pub is_supported : {F : Type 0} → Candidate F → Bool
is_supported c = is_anthropic c.0.provider

unfoldable pub build_cache_key :
    (String → String) → (Dict String → String) → GatewayRequest → ProviderSelection → String
build_cache_key sha256 json request selection = sha256 (
    json (
      ("phase", request.phase)
      ∷ ("provider", selection.provider)
      ∷ ("model", selection.model)
      ∷ ("task_profile", selection.task_profile)
      ∷ ("task_type", request.routing_context.task_type)
      ∷ ("complexity_hint", request.routing_context.complexity_hint)
      ∷ ("risk_classification", request.routing_context.risk_classification)
      ∷ ("explicit_model", request.routing_context.explicit_model)
      ∷ ("system_prompt", request.system_prompt)
      ∷ ("user_prompt", request.user_prompt)
      ∷ []))

module _ {F : Type 0} ⦃fl : FloatOps F⦄ where
  -- The response of a call that reached `_call_with_fallbacks`, and what is cached.
  unfoldable pub keep :
      Gateway
      → CallWorld F
      → String
      → Bool
      → String
      → Entries F
      → CircuitBreaker F × GatewayResponse F
      → CallResult F
  unfolding cache_put
  keep gateway w key cache_allowed cache_status entries (breaker, r) =
      let response = record r { cache_status = cache_status } in
      let stored =
        cache_put entries w.put_at key response gateway.routing_config.cache_ttl_seconds in
      if is_set response.error
      then responded (record { cache = entries; breaker = breaker }) response
      else if cache_allowed
      then responded (record { cache = stored; breaker = breaker }) response
      else responded (record { cache = entries; breaker = breaker }) response

module _ {F : Type 0} ⦃fl : FloatOps F⦄ (ops : TextOps) (sha256 : String → String)
    (json : Dict String → String) where
  -- `call` once the candidates are known: `first` and then `others`.
  unfoldable pub serve :
      Gateway
      → CallWorld F
      → GatewayState F
      → GatewayRequest
      → Candidate F
      → List (Candidate F)
      → CallResult F
  unfolding build_cache_key keep cache_get call_with_fallbacks apply_selection_metadata
  serve gateway w s request first others =
      let key = or_else request.cache_key (build_cache_key sha256 json request first.1) in
      let enabled = gateway.routing_config.cache_enabled in
      let fresh =
        call_with_fallbacks ops w.world gateway.provider_availability gateway.max_retries s.breaker
          first others in
      if enabled && request.allow_cache
      then (let found = cache_get s.cache w.got_at key in
          elim found.1 [
            | some cached ↦
                responded (record s { cache = found.0 })
                  (apply_selection_metadata
                    (record cached { cache_hit = true; cache_status = "hit" }) first.1 first.0)
            | none ↦ keep gateway w key true "miss" found.0 fresh
          ])
      else keep gateway w key false (if enabled then "bypass" else "disabled") s.cache fresh

  abbrev pub serve_all :
      Gateway → CallWorld F → GatewayState F → GatewayRequest → List (Candidate F) → CallResult F
  unfolding serve
  serve_all gateway w s request [] = raised_error no_supported_provider
  serve_all gateway w s request (first ∷ others) = serve gateway w s request first others

  unfoldable pub call :
      Gateway
      → CallWorld F
      → GatewayState F
      → GatewayRequest
      → Option (ModelConfig F)
      → CallResult F
  unfolding select_model_candidates serve
  call gateway w s request config_override =
      elim (select_model_candidates ops request.phase config_override request.routing_context
        gateway.routing_config) [
          | none ↦ raised_error unknown_provider
          | some candidates ↦ serve_all gateway w s request (select is_supported candidates)
        ]
