-- ===== src/Gateway/Routing.antt =====
-- mas/config.py: the configuration of the models, by phase and by task profile.
use v.Prelude.{
  ℕ, ◌+◌, String, Bool, true, false, Option, none, some, List, [], ◌∷◌, ◌&&◌, ltb, ◌==◌,
  if◌then◌else◌,
}
use v.Prelude.Dict.{Dict, get}
use v.Prelude.Float.{FloatOps}
use v.Prelude.Texts.{one_of}
use v.Gateway.Types.{Provider, anthropic, openai, ModelConfig}
use v.Workflow.Templates.{technology_readiness_phase_sequence}

-- The value of a dict with a default.
abbrev pub get_or {ℓ} : {V : Type ℓ} → Dict V → String → V → V
unfolding get
get_or d k v = elim (get d k) [ none ↦ v | some w ↦ w ]

abbrev pub is_anthropic : Provider → Bool
is_anthropic anthropic = true
is_anthropic openai = false

-- The tests of `ModelConfig.__post_init__`; none is its ValueError.
abbrev reserves_too_much : {F : Type 0} → ModelConfig F → Bool
reserves_too_much config = elim config.min_response_tokens [
  | none ↦ false
  | some reserved ↦
      if is_anthropic config.provider
      then ltb 0 config.thinking_budget && ltb config.max_tokens (config.thinking_budget + reserved)
      else true
]

unfoldable pub new_config : {F : Type 0} → ModelConfig F → Option (ModelConfig F)
new_config config =
    if config.max_tokens == 0 then none else if reserves_too_much config then none else some config

abbrev pub fallback_chain : Provider → List String
fallback_chain anthropic = "claude-sonnet-4-6" ∷ "claude-haiku-4-5-20251001" ∷ []
fallback_chain openai = "gpt-5" ∷ "gpt-5-mini" ∷ []

abbrev task_profile_by_phase : Dict String
task_profile_by_phase =
    ("classify", "fast_classification")
    ∷ ("hypotheses", "deep_reasoning")
    ∷ ("gauntlet", "deep_reasoning")
    ∷ ("audit", "deep_reasoning")
    ∷ ("strategy", "deep_reasoning")
    ∷ ("sqi", "strict_structured_output")
    ∷ ("monitor", "monitoring_ops")
    ∷ ("report", "report_synthesis")
    ∷ ("scope", "strict_structured_output")
    ∷ ("scientific_inventory", "deep_reasoning")
    ∷ ("trl_diagnosis", "deep_reasoning")
    ∷ ("research_industry_alignment", "deep_reasoning")
    ∷ ("ip_protection_axis", "deep_reasoning")
    ∷ ("next_level_recommendations", "deep_reasoning")
    ∷ ("technical_validation_plan", "deep_reasoning")
    ∷ ("industrial_transfer_plan", "deep_reasoning")
    ∷ ("readiness_roadmap", "deep_reasoning")
    ∷ ("executive_summary", "report_synthesis")
    ∷ []

unfoldable pub task_profile_for_phase : String → String
unfolding get
task_profile_for_phase phase = get_or task_profile_by_phase phase "deep_reasoning"

unfoldable pub task_profile_model_candidates : Dict (List String)
task_profile_model_candidates =
    (
      "fast_classification",
      "phase_default" ∷ "anthropic:claude-sonnet-4-6" ∷ "openai:gpt-5-mini" ∷ [],
    )
    ∷ ("deep_reasoning", "phase_default" ∷ "anthropic:claude-sonnet-4-6" ∷ "openai:gpt-5" ∷ [])
    ∷ (
      "strict_structured_output",
      "phase_default" ∷ "anthropic:claude-haiku-4-5-20251001" ∷ "openai:gpt-5-mini" ∷ [],
    )
    ∷ ("report_synthesis", "phase_default" ∷ "anthropic:claude-opus-4-6" ∷ "openai:gpt-5" ∷ [])
    ∷ (
      "monitoring_ops",
      "phase_default" ∷ "anthropic:claude-haiku-4-5-20251001" ∷ "openai:gpt-5-mini" ∷ [],
    )
    ∷ []

module _ {F : Type 0} ⦃fl : FloatOps F⦄ where
  -- `tenths` of a unit as the temperature
  abbrev of_anthropic : String → ℕ → ℕ → ℕ → Option ℕ → ModelConfig F
  of_anthropic model max_tokens tenths thinking_budget min_response_tokens = record {
    provider = anthropic;
    model = model;
    max_tokens = max_tokens;
    temperature = fl.div (fl.of_ℕ tenths) (fl.of_ℕ 10);
    thinking_budget = thinking_budget;
    min_response_tokens = min_response_tokens;
  }

  -- MODEL_ROUTING without the phases of technology readiness
  abbrev model_routing : Dict (ModelConfig F)
  model_routing =
      ("classify", of_anthropic "claude-haiku-4-5-20251001" 4000 2 0 none)
      ∷ ("hypotheses", of_anthropic "claude-opus-4-6" 6000 4 15000 none)
      ∷ ("gauntlet", of_anthropic "claude-sonnet-4-6" 6000 3 2000 none)
      ∷ ("audit", of_anthropic "claude-sonnet-4-6" 6000 3 5000 none)
      ∷ ("strategy", of_anthropic "claude-opus-4-6" 8000 4 4000 (some 4000))
      ∷ ("sqi", of_anthropic "claude-sonnet-4-6" 6000 2 5000 none)
      ∷ ("monitor", of_anthropic "claude-sonnet-4-6" 4000 3 0 none)
      ∷ ("report", of_anthropic "claude-sonnet-4-6" 8000 3 10000 none)
      ∷ []

  unfoldable pub phase_default_config : String → ModelConfig F
  unfolding get
  phase_default_config phase = get_or model_routing phase (
      if one_of technology_readiness_phase_sequence phase
      then of_anthropic "claude-sonnet-4-6" 6000 2 5000 none
      else of_anthropic "claude-sonnet-4-6" 6000 3 5000 none)
