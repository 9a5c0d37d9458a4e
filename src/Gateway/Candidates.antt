-- ===== src/Gateway/Candidates.antt =====
-- mas/runtime/provider_gateway.py: the candidates of a request. `none` is the ValueError of a
-- provider that is not known, or of a config.
use v.Prelude.{
  ◌+◌, String, Bool, true, false, Option, none, some, List, [], ◌∷◌, ◌++◌, ◌&&◌, any, str_eq,
  if◌then◌else◌,
}
use v.Prelude.Dict.{get}
use v.Prelude.Float.{FloatOps}
use Prim.Native.String.{len, slice, ◌++◌ as join_text}
use text.Mathlib.Text.{find?, starts_with}
use v.Gateway.Types.{
  TextOps, Provider, anthropic, openai, provider_value, ModelConfig, RoutingConfig,
}
use v.Gateway.Errors.{is_set, or_else, contains}
use v.Gateway.Routing.{
  get_or, is_anthropic, new_config, fallback_chain, task_profile_model_candidates,
}
use v.Gateway.Progress.{Candidate}

-- Provider(name)
unfoldable pub provider_of : String → Option Provider
provider_of name =
    if str_eq name "anthropic"
    then some anthropic
    else if str_eq name "openai"
    then some openai
    else none

abbrev same_provider : Provider → Provider → Bool
same_provider anthropic p = is_anthropic p
same_provider openai anthropic = false
same_provider openai openai = true

abbrev pub other_than : Provider → Provider
other_than anthropic = openai
other_than openai = anthropic

unfoldable infer_provider : TextOps → String → Option Provider
infer_provider ops model_name =
    let name = ops.lower model_name in
    if contains name "claude"
    then some anthropic
    else if starts_with name "gpt"
    then some openai
    else none

module _ {F : Type 0} where
  abbrev pub same_key : Candidate F → Candidate F → Bool
  same_key (a, s) (b, t) = same_provider a.provider b.provider && str_eq a.model b.model

  -- The candidates whose keys are not among those of `seen`, without repetition.
  unfoldable pub dedupe : List (Candidate F) → List (Candidate F) → List (Candidate F)
  dedupe seen [] = []
  dedupe seen (c ∷ cs) =
      let skipped = dedupe seen cs in
      let kept = c ∷ dedupe (c ∷ seen) cs in if any (same_key c) seen then skipped else kept

  -- A config of another model with the limits of `base`.
  unfoldable pub derived : Provider → String → ModelConfig F → Option (ModelConfig F)
  unfolding new_config
  derived provider model base = new_config (record {
    provider = provider;
    model = model;
    max_tokens = base.max_tokens;
    temperature = base.temperature;
    thinking_budget = if is_anthropic provider then base.thinking_budget else 0;
    min_response_tokens = if is_anthropic provider then base.min_response_tokens else none;
  })

  abbrev pub candidate_of : ModelConfig F → String → String → Candidate F
  candidate_of config reason task_profile = (
    config,
    record {
      provider = provider_value config.provider;
      model = config.model;
      reason = reason;
      task_profile = task_profile;
    },
  )

  unfoldable pub chain_of :
      ModelConfig F → String → Provider → List String → Option (List (Candidate F))
  unfolding derived
  chain_of base task_profile provider [] = some []
  chain_of base task_profile provider (model ∷ models) = elim (derived provider model base) [
    | none ↦ none
    | some config ↦ elim (chain_of base task_profile provider models) [
      | none ↦ none
      | some rest ↦ some (
          candidate_of config (join_text "fallback_chain:" (provider_value provider)) task_profile
          ∷ rest)
    ]
  ]

  -- xs + ys, where one may have raised
  abbrev pub both :
      Option (List (Candidate F)) → Option (List (Candidate F)) → Option (List (Candidate F))
  both none o = none
  both (some xs) none = none
  both (some xs) (some ys) = some (xs ++ ys)

  unfoldable pub fallbacks_of : ModelConfig F → String → Option (List (Candidate F))
  unfolding chain_of
  fallbacks_of base task_profile =
      both (chain_of base task_profile base.provider (fallback_chain base.provider)) (
        chain_of base task_profile (other_than base.provider)
          (fallback_chain (other_than base.provider)))

module _ {F : Type 0} ⦃fl : FloatOps F⦄ (ops : TextOps) where
  -- The provider of an alias and its model.
  unfoldable pub alias_target : String → ModelConfig F → String → Option (Provider × String)
  unfolding provider_of infer_provider
  alias_target alias base default_provider = elim (find? alias ":") [
    | some at ↦ elim (provider_of (ops.strip (slice alias 0 at))) [
      | none ↦ none
      | some provider ↦ some (provider, ops.strip (slice alias (at + 1) (len alias)))
    ]
    | none ↦ elim (infer_provider ops alias) [
      | some provider ↦ some (provider, alias)
      | none ↦ elim (provider_of (or_else default_provider (provider_value base.provider))) [
        | none ↦ none
        | some provider ↦ some (provider, alias)
      ]
    ]
  ]

  unfoldable pub config_from_model_alias : String → ModelConfig F → String → Option (ModelConfig F)
  unfolding alias_target derived
  config_from_model_alias alias base default_provider =
      elim (alias_target alias base default_provider) [
        | none ↦ none
        | some (provider, model) ↦ derived provider model base
      ]

  unfoldable pub profile_candidates :
      ModelConfig F → String → String → List String → Option (List (Candidate F))
  unfolding config_from_model_alias
  profile_candidates base default_provider task_profile [] = some []
  profile_candidates base default_provider task_profile (a ∷ aliases) =
      let rest = profile_candidates base default_provider task_profile aliases in
      let alias = ops.strip a in
      if is_set alias
      then if str_eq alias "phase_default"
        then elim rest [
          | none ↦ none
          | some cs ↦ some (candidate_of base "phase_default" task_profile ∷ cs)
        ]
        else elim (config_from_model_alias alias base default_provider) [
          | none ↦ none
          | some config ↦ elim rest [
            | none ↦ none
            | some cs ↦
                some
                  (candidate_of config (join_text "task_profile:" task_profile) task_profile ∷ cs)
          ]
        ]
      else rest

  unfoldable pub profile_and_chain_candidates :
      ModelConfig F → RoutingConfig → String → Option (List (Candidate F))
  unfolding profile_candidates fallbacks_of get task_profile_model_candidates
  profile_and_chain_candidates base config task_profile =
      let aliases =
        get_or config.task_profile_candidates task_profile
          (get_or task_profile_model_candidates task_profile []) in
      both (profile_candidates base config.default_provider task_profile aliases)
        (fallbacks_of base task_profile)
