-- ===== src/Gateway/Recall.antt =====
-- mas/runtime/provider_gateway.py and mas/runtime/cache.py: a response that a call has cached is the
-- response of the next one.
use v.Prelude.{
  ℕ, String, true, false, Option, some, List, [], ◌∷◌, ◌≡◌, refl, arith, eq_iff, select,
  Option-cases, inl, inr, ltb, if◌then◌else◌,
}
use v.Prelude.Dict.{Dict, get-put}
use v.Prelude.Float.{FloatOps}
use v.Gateway.Types.{TextOps, ModelConfig, GatewayRequest, GatewayResponse}
use v.Gateway.Errors.{is_set, or_else}
use v.Gateway.Breaker.{CircuitBreaker}
use v.Gateway.Cache.{Entries, cache_get, cache_put, has_expired}
use v.Gateway.Attempt.{apply_selection_metadata}
use v.Gateway.Progress.{Candidate}
use v.Gateway.Calls.{call_with_fallbacks}
use v.Gateway.Selection.{select_model_candidates}
use v.Gateway.Serve.{
  Gateway, GatewayState, CallWorld, responded, is_supported, build_cache_key, keep, serve,
  serve_all, call,
}

module _ {F : Type 0} ⦃fl : FloatOps F⦄ where
  -- The instant at which an entry written at `now` expires.
  abbrev pub expiry : F → ℕ → F
  expiry now ttl_seconds = if ltb 0 ttl_seconds then fl.add now (fl.of_ℕ ttl_seconds) else fl.of_ℕ 0

  cache_get-put :
      (entries : Entries F) (at now : F) (key : String) (response : GatewayResponse F) (ttl : ℕ)
      → has_expired now (expiry at ttl) ≡ false
      → cache_get (cache_put entries at key response ttl) now key
        ≡ (cache_put entries at key response ttl, some response)
  unfolding cache_get cache_put
  cache_get-put entries at now key response ttl h =
      let found = get-put entries key key (expiry at ttl, response) in
      ground (arith, found, eq_iff key key, h)

  -- What a hit says beside the response that was cached.
  pub record Recalled (r t : GatewayResponse F) : Type 0 where
    pub text : t.text ≡ r.text
    pub cost_usd : t.cost_usd ≡ r.cost_usd
    pub input_tokens : t.input_tokens ≡ r.input_tokens
    pub output_tokens : t.output_tokens ≡ r.output_tokens
    pub attempts : t.attempts ≡ r.attempts
    pub error : t.error ≡ r.error
    pub cache_hit : t.cache_hit ≡ true
    pub cache_status : t.cache_status ≡ "hit"

  Recalled-hit :
      (r : GatewayResponse F) (c : Candidate F)
      → Recalled r
          (apply_selection_metadata (record r { cache_hit = true; cache_status = "hit" }) c.1 c.0)
  unfolding apply_selection_metadata
  Recalled-hit r c = record {
    text = refl;
    cost_usd = refl;
    input_tokens = refl;
    output_tokens = refl;
    attempts = refl;
    error = refl;
    cache_hit = refl;
    cache_status = refl;
  }

  -- What is kept of a response that is marked as a miss and has no error.
  keep-stored :
      (gateway : Gateway) (w : CallWorld F) (key : String) (entries : Entries F)
      (done : CircuitBreaker F × GatewayResponse F) (t : GatewayState F) (r : GatewayResponse F)
      → keep gateway w key true "miss" entries done ≡ responded t r
      → is_set r.error ≡ false
      → t.cache ≡ cache_put entries w.put_at key r gateway.routing_config.cache_ttl_seconds
  unfolding keep
  keep-stored gateway w key entries (breaker, x) t r h e = ground (arith, h, e)

module _ {F : Type 0} ⦃fl : FloatOps F⦄ (ops : TextOps) (sha256 : String → String)
    (json : Dict String → String) where
  serve-again :
      (gateway : Gateway) (w v : CallWorld F) (s t : GatewayState F) (request : GatewayRequest)
      (first : Candidate F) (others : List (Candidate F)) (r : GatewayResponse F)
      → gateway.routing_config.cache_enabled ≡ true
      → request.allow_cache ≡ true
      → serve ops sha256 json gateway w s request first others ≡ responded t r
      → is_set r.error ≡ false
      → r.cache_status ≡ "miss"
      → has_expired v.got_at (expiry w.put_at gateway.routing_config.cache_ttl_seconds) ≡ false
      → (again : GatewayResponse F) × (serve ops sha256 json gateway v t request first others
          ≡ responded t again)
        × Recalled r again
  unfolding serve apply_selection_metadata
  serve-again gateway w v s t request first others r on allowed h e m fresh =
      let key = or_else request.cache_key (build_cache_key sha256 json request first.1) in
      let ttl = gateway.routing_config.cache_ttl_seconds in
      elim (Option-cases (cache_get s.cache w.got_at key).1) [
        | inl missed ↦
            let stored : t.cache ≡ cache_put (cache_get s.cache w.got_at key).0 w.put_at key r ttl =
              keep-stored gateway w key (cache_get s.cache w.got_at key).0
                (call_with_fallbacks ops w.world gateway.provider_availability gateway.max_retries
                  s.breaker first others)
                t r (ground (arith, on, allowed, missed, h)) e in
            let found =
              cache_get-put (cache_get s.cache w.got_at key).0 w.put_at v.got_at key r ttl fresh in
            (
              apply_selection_metadata (record r { cache_hit = true; cache_status = "hit" }) first.1
                  first.0,
              ground (arith, on, allowed, stored, found),
              Recalled-hit r first,
            )
        | inr (cached, hit) ↦
            let told : r.cache_status ≡ "hit" = ground (arith, on, allowed, hit, h) in
            absurd (ground (arith, told, m, eq_iff "hit" "miss"))
      ]

  -- With the cache enabled and allowed, if a call responds without an error and not from the cache,
  -- the next call with the same request, at any providers, hook and breaker of that state, before
  -- the entry expires, responds from the cache: it executes nothing, changes nothing, and its text,
  -- usage, attempts and error are those of the first.
  pub call-again :
      (gateway : Gateway) (w v : CallWorld F) (s t : GatewayState F) (request : GatewayRequest)
      (config_override : Option (ModelConfig F)) (r : GatewayResponse F)
      → gateway.routing_config.cache_enabled ≡ true
      → request.allow_cache ≡ true
      → call ops sha256 json gateway w s request config_override ≡ responded t r
      → is_set r.error ≡ false
      → r.cache_status ≡ "miss"
      → has_expired v.got_at (expiry w.put_at gateway.routing_config.cache_ttl_seconds) ≡ false
      → (again : GatewayResponse F) × (call ops sha256 json gateway v t request config_override
          ≡ responded t again)
        × Recalled r again
  unfolding call
  call-again gateway w v s t request config_override r on allowed h e m fresh =
      elim (Option-cases (
        select_model_candidates ops request.phase config_override request.routing_context
          gateway.routing_config)) [
            | inl failed ↦ absurd (ground (arith, failed, h))
            | inr (cs, found) ↦
                let again = all_again (select is_supported cs) (ground (arith, found, h)) in
                (again.0, ground (arith, found, again.1), again.2)
          ]
    where
      all_again :
          (cs : List (Candidate F))
          → serve_all ops sha256 json gateway w s request cs ≡ responded t r
          → (again : GatewayResponse F) × (serve_all ops sha256 json gateway v t request cs
              ≡ responded t again)
            × Recalled r again
      all_again [] h = absurd (ground (arith, h))
      all_again (first ∷ others) h =
          serve-again gateway w v s t request first others r on allowed h e m fresh
