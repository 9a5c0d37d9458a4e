-- ===== src/Gateway/Cache.antt =====
-- mas/runtime/cache.py: the cache of responses, a dict from a key to an expiry and a response. The
-- clock is an argument.
use v.Prelude.{ℕ, String, Bool, Option, none, some, ◌&&◌, ◌||◌, ltb, if◌then◌else◌}
use v.Prelude.Dict.{Dict, get, put, pop}
use v.Prelude.Float.{FloatOps}
use v.Gateway.Types.{GatewayResponse}

abbrev pub Entries : Type 0 → Type 0
Entries F = Dict (F × GatewayResponse F)

module _ {F : Type 0} ⦃fl : FloatOps F⦄ where
  -- expires_at and expires_at < now
  abbrev pub has_expired : F → F → Bool
  has_expired now expires_at =
      (fl.gtb expires_at (fl.of_ℕ 0) || fl.gtb (fl.of_ℕ 0) expires_at) && fl.gtb now expires_at

  -- The entries after `get`, and the response of a hit.
  unfoldable pub cache_get : Entries F → F → String → Entries F × Option (GatewayResponse F)
  unfolding get pop
  cache_get entries now key = elim (get entries key) [
    | none ↦ (entries, none)
    | some (expires_at, response) ↦
        if has_expired now expires_at then (pop entries key, none) else (entries, some response)
  ]

  unfoldable pub cache_put : Entries F → F → String → GatewayResponse F → ℕ → Entries F
  unfolding put
  cache_put entries now key response ttl_seconds =
      let expires_at = if ltb 0 ttl_seconds then fl.add now (fl.of_ℕ ttl_seconds) else fl.of_ℕ 0 in
      put entries key (expires_at, response)
