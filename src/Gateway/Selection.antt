-- ===== src/Gateway/Selection.antt =====
-- mas/runtime/provider_gateway.py: which candidates a request has, and in which order.
use v.Prelude.{String, Option, none, some, List, [], ◌∷◌, ◌&&◌, if◌then◌else◌}
use v.Prelude.Dict.{get}
use v.Prelude.Float.{FloatOps}
use Prim.Native.String.{◌++◌ as join_text}
use v.Gateway.Types.{TextOps, ModelConfig, RoutingContext, RoutingConfig}
use v.Gateway.Errors.{is_set}
use v.Gateway.Routing.{get_or, task_profile_for_phase, phase_default_config}
use v.Gateway.Progress.{Candidate}
use v.Gateway.Candidates.{
  candidate_of, dedupe, config_from_model_alias, profile_and_chain_candidates,
}

-- The model that a request asks for, with the reason; no model is the empty text.
unfoldable pub selected_model : String → RoutingContext → RoutingConfig → String × String
unfolding get
selected_model phase context config =
    let of_phase = get_or config.phase_overrides phase "" in
    let of_complexity = get_or config.complexity_routes context.complexity_hint "" in
    if is_set context.explicit_model
    then (context.explicit_model, "explicit_model")
    else if is_set of_phase
    then (of_phase, "phase_override")
    else if is_set context.complexity_hint && is_set of_complexity
    then (of_complexity, join_text "complexity:" context.complexity_hint)
    else ("", "phase_routing")

module _ {F : Type 0} ⦃fl : FloatOps F⦄ (ops : TextOps) where
  -- The first candidate.
  unfoldable pub primary :
      String → Option (ModelConfig F) → RoutingContext → RoutingConfig → Option (Candidate F)
  unfolding selected_model config_from_model_alias task_profile_for_phase phase_default_config
  primary phase (some config_override) context config =
      some (candidate_of config_override "config_override" (task_profile_for_phase phase))
  primary phase none context config =
      let chosen = selected_model phase context config in
      let base = phase_default_config phase in
      let profile = task_profile_for_phase phase in
      if is_set chosen.0
      then elim (config_from_model_alias ops chosen.0 base config.default_provider) [
        | none ↦ none
        | some selected ↦ some (candidate_of selected chosen.1 profile)
      ]
      else some (candidate_of base chosen.1 profile)

  unfoldable pub select_model_candidates :
      String → Option (ModelConfig F) → RoutingContext → RoutingConfig → Option (List (Candidate F))
  unfolding primary profile_and_chain_candidates dedupe phase_default_config task_profile_for_phase
  select_model_candidates phase config_override context config =
      elim (primary phase config_override context config) [
        | none ↦ none
        | some c ↦
            elim (profile_and_chain_candidates ops (phase_default_config phase) config
              (task_profile_for_phase phase)) [ none ↦ none | some cs ↦ some (dedupe [] (c ∷ cs)) ]
      ]
