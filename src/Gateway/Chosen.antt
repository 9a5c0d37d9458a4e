-- ===== src/Gateway/Chosen.antt =====
-- mas/runtime/provider_gateway.py: the candidates are distinct, the chosen one is the first, and a
-- supported one is among them.
use v.Prelude.{
  String, true, false, Option, none, some, List, [], ◌∷◌, ◌++◌, ◌≡◌, refl, sym, subst, ◌||◌, arith,
  any, Bool-cases, Option-cases, inl, inr,
}
use v.Prelude.Float.{FloatOps}
use v.Gateway.Types.{
  TextOps, Provider, anthropic, openai, ModelConfig, RoutingContext, RoutingConfig,
}
use v.Gateway.Routing.{new_config, fallback_chain, task_profile_for_phase, phase_default_config}
use v.Gateway.Progress.{Candidate}
use v.Gateway.Candidates.{
  same_key, dedupe, derived, chain_of, both, other_than, fallbacks_of, profile_and_chain_candidates,
}
use v.Gateway.Selection.{primary, select_model_candidates}
use v.Gateway.Serve.{is_supported}

module _ {F : Type 0} where
  -- No two candidates have the same provider and model, and none has one of `seen`.
  unfoldable pub Distinct : List (Candidate F) → List (Candidate F) → Type 0
  Distinct seen [] = Unit
  Distinct seen (c ∷ cs) = (any (same_key c) seen ≡ false) × Distinct (c ∷ seen) cs

  dedupe-Distinct : (seen cs : List (Candidate F)) → Distinct seen (dedupe seen cs)
  unfolding dedupe Distinct
  dedupe-Distinct seen [] = tt
  dedupe-Distinct seen (c ∷ cs) = elim (Bool-cases (any (same_key c) seen)) [
    | inl e ↦ rw e (dedupe-Distinct seen cs)
    | inr e ↦ rw e (e, dedupe-Distinct (c ∷ seen) cs)
  ]

  same_key-anthropic :
      (c : Candidate F) (seen : List (Candidate F))
      → is_supported c ≡ true
      → any is_supported seen ≡ false
      → any (same_key c) seen ≡ false
  same_key-anthropic c [] h e = refl
  same_key-anthropic (a, s) ((b, t) ∷ seen) h e =
      ground (arith, h, e, same_key-anthropic (a, s) seen)

  supported-dedupe :
      (seen cs : List (Candidate F))
      → any is_supported seen ≡ false
      → any is_supported cs ≡ true
      → any is_supported (dedupe seen cs) ≡ true
  unfolding dedupe
  supported-dedupe seen [] e h = h
  supported-dedupe seen (c ∷ cs) e h = elim (Bool-cases (is_supported c)) [
    | inl s ↦ ground (arith, s, same_key-anthropic c seen s e)
    | inr s ↦ ground (arith, s, h, supported-dedupe seen cs e, supported-dedupe (c ∷ seen) cs)
  ]

  any-append :
      (xs ys : List (Candidate F))
      → any is_supported (xs ++ ys) ≡ (any is_supported xs || any is_supported ys)
  any-append [] ys = refl
  any-append (x ∷ xs) ys = ground (arith, any-append xs ys)

  derived-provider :
      (provider : Provider) (model : String) (base config : ModelConfig F)
      → derived provider model base ≡ some config
      → config.provider ≡ provider
  unfolding derived new_config
  derived-provider provider model base config h = ground (arith, h)

  supported-chain :
      (base : ModelConfig F) (profile model : String) (models : List String)
      (cs : List (Candidate F))
      → chain_of base profile anthropic (model ∷ models) ≡ some cs
      → any is_supported cs ≡ true
  unfolding chain_of
  supported-chain base profile model models cs h =
      elim (Option-cases (derived anthropic model base)) [
        | inl e ↦ ground (arith, e, h)
        | inr (c, e) ↦ elim (Option-cases (chain_of base profile anthropic models)) [
          | inl f ↦ ground (arith, e, f, h)
          | inr (rest, f) ↦ ground (arith, e, f, h, derived-provider anthropic model base c e)
        ]
      ]

  -- What is supported among two lists, of which one may have raised.
  supported-both :
      (o p : Option (List (Candidate F))) (cs : List (Candidate F))
      → both o p ≡ some cs
      → ((xs : List (Candidate F)) → p ≡ some xs → any is_supported xs ≡ true)
      → any is_supported cs ≡ true
  supported-both none p cs h k = ground (arith, h)
  supported-both (some xs) none cs h k = ground (arith, h)
  supported-both (some xs) (some ys) cs h k = ground (arith, h, k ys refl, any-append xs ys)

  supported-before :
      (o p : Option (List (Candidate F))) (cs : List (Candidate F))
      → both o p ≡ some cs
      → ((xs : List (Candidate F)) → o ≡ some xs → any is_supported xs ≡ true)
      → any is_supported cs ≡ true
  supported-before none p cs h k = ground (arith, h)
  supported-before (some xs) none cs h k = ground (arith, h)
  supported-before (some xs) (some ys) cs h k = ground (arith, h, k xs refl, any-append xs ys)

  supported-fallbacks :
      (base : ModelConfig F) (profile : String) (cs : List (Candidate F))
      → fallbacks_of base profile ≡ some cs
      → any is_supported cs ≡ true
  unfolding fallbacks_of
  supported-fallbacks base profile cs h = by_provider base.provider h
    where
      of : Provider → Option (List (Candidate F))
      of provider = chain_of base profile provider (fallback_chain provider)

      by_provider :
          (p : Provider) → both (of p) (of (other_than p)) ≡ some cs → any is_supported cs ≡ true
      by_provider anthropic h = supported-before (of anthropic) (of openai) cs h (λ xs e.
          supported-chain base profile "claude-sonnet-4-6" ("claude-haiku-4-5-20251001" ∷ []) xs e)
      by_provider openai h = supported-both (of openai) (of anthropic) cs h (λ xs e.
          supported-chain base profile "claude-sonnet-4-6" ("claude-haiku-4-5-20251001" ∷ []) xs e)

  -- The candidates `cs` begin with `c`, have no provider and model twice, and one is supported.
  pub record Chosen (c : Candidate F) (cs : List (Candidate F)) : Type 0 where
    pub others : List (Candidate F)
    pub begins : cs ≡ c ∷ others
    pub distinct : Distinct [] cs
    pub supported : any is_supported cs ≡ true

module _ {F : Type 0} ⦃fl : FloatOps F⦄ (ops : TextOps) where
  -- Where the selection of a phase's candidates does not raise, they begin with the config that is
  -- asked for (the override, else the explicit model, the model of the phase or of the complexity,
  -- else the default of the phase), none has the provider and the model of another, and one is of
  -- the supported provider.
  pub select_model_candidates-Chosen :
      (phase : String) (config_override : Option (ModelConfig F)) (context : RoutingContext)
      (config : RoutingConfig) (cs : List (Candidate F))
      → select_model_candidates ops phase config_override context config ≡ some cs
      → (c : Candidate F) × (primary ops phase config_override context config ≡ some c)
        × Chosen c cs
  unfolding select_model_candidates profile_and_chain_candidates dedupe
  select_model_candidates-Chosen phase config_override context config cs h =
      let base : ModelConfig F = phase_default_config phase in
      let profile = task_profile_for_phase phase in
      elim (Option-cases (primary ops phase config_override context config)) [
        | inl e ↦ absurd (ground (arith, e, h))
        | inr (c, e) ↦ elim (Option-cases (profile_and_chain_candidates ops base config profile)) [
          | inl f ↦ absurd (ground (arith, e, f, h))
          | inr (rest, f) ↦
              let found : dedupe [] (c ∷ rest) ≡ cs = ground (arith, e, f, h) in
              let supported : any is_supported rest ≡ true =
                supported-both _ _ rest f (λ xs g. supported-fallbacks base profile xs g) in
              (
                c,
                e,
                record {
                  others = dedupe (c ∷ []) rest;
                  begins = sym found;
                  distinct = subst (Distinct []) found (dedupe-Distinct [] (c ∷ rest));
                  supported =
                      subst (λ xs. any is_supported xs ≡ true) found
                        (supported-dedupe [] (c ∷ rest) refl (ground (arith, supported)));
                },
              )
        ]
      ]
