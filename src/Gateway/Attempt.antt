-- ===== src/Gateway/Attempt.antt =====
-- mas/runtime/provider_gateway.py: one attempt of a candidate, and the ledger of its usage.
use v.Prelude.{ℕ, ◌+◌, String, false, Option, none, some, if◌then◌else◌}
use v.Prelude.Float.{FloatOps}
use v.Prelude.Texts.{one_of}
use v.Gateway.Types.{
  TextOps, ModelConfig, provider_value, ProviderSelection, GatewayResponse, blank_response,
  RawResult, Executed, raised, returned_raw, HookResult, no_objection, objection, verdict,
  other_value,
}
use v.Gateway.Errors.{
  is_set, or_else, is_retryable, governance_error_types, normalize_error_type,
  has_usable_visible_text, classify_unusable_output, unusable_output_detail, safe_error_message,
  provider_error_detail_from_message, normalize_exception_category,
}

pub record UsageLedger (F : Type 0) : Type 0 where
  pub input_tokens : ℕ
  pub output_tokens : ℕ
  pub cache_read_tokens : ℕ
  pub cost_usd : F

-- a or b, where a may be None
abbrev given : Option String → String → String
given none default = default
given (some t) default = or_else t default

module _ {F : Type 0} ⦃fl : FloatOps F⦄ where
  abbrev pub empty_ledger : UsageLedger F
  empty_ledger = record {
    input_tokens = 0;
    output_tokens = 0;
    cache_read_tokens = 0;
    cost_usd = fl.of_ℕ 0;
  }

  -- _UsageLedger.record
  unfoldable pub record_usage : UsageLedger F → GatewayResponse F → UsageLedger F
  record_usage usage response = record {
    input_tokens = usage.input_tokens + response.input_tokens;
    output_tokens = usage.output_tokens + response.output_tokens;
    cache_read_tokens = usage.cache_read_tokens + response.cache_read_tokens;
    cost_usd = fl.add usage.cost_usd response.cost_usd;
  }

  -- _UsageLedger.apply
  unfoldable pub apply_usage : UsageLedger F → GatewayResponse F → GatewayResponse F
  apply_usage usage response = record response {
    input_tokens = usage.input_tokens;
    output_tokens = usage.output_tokens;
    cache_read_tokens = usage.cache_read_tokens;
    cost_usd = usage.cost_usd;
  }

  unfoldable pub apply_selection_metadata :
      GatewayResponse F → ProviderSelection → ModelConfig F → GatewayResponse F
  apply_selection_metadata response selection config = record response {
    selected_provider = or_else selection.provider (provider_value config.provider);
    selected_model = or_else selection.model config.model;
    selection_reason = selection.reason;
    task_profile = selection.task_profile;
    provider_used = or_else response.provider_used (provider_value config.provider);
    model_used = or_else response.model_used config.model;
  }

  unfoldable blocked : ModelConfig F → String → String → GatewayResponse F
  blocked config error error_type = record blank_response {
    model_used = config.model;
    provider_used = provider_value config.provider;
    error = error;
    error_type = error_type;
  }

  -- The end of `_run_before_attempt`.
  abbrev refusal : GatewayResponse F → GatewayResponse F
  refusal response =
      if one_of governance_error_types response.error_type
      then record response { fallback_used = false }
      else record response { fallback_used = false; error_type = "policy" }

  unfoldable pub run_before_attempt : ModelConfig F → HookResult F → Option (GatewayResponse F)
  unfolding blocked
  run_before_attempt config no_objection = none
  run_before_attempt config (objection response) = some (refusal response)
  run_before_attempt config (verdict category reason) = some (
      refusal (
        blocked config (given reason "governance gate blocked provider execution")
          (given category "policy")))
  run_before_attempt config other_value =
      some (refusal (blocked config "governance gate blocked provider execution" "policy"))

  module _ (ops : TextOps) where
    abbrev message_for : ModelConfig F → String → String → String
    message_for config category detail =
        safe_error_message ops category (provider_value config.provider) config.model detail

    -- The error of a result and its category, which counts where the error is set.
    unfoldable pub verdict_on : ModelConfig F → RawResult F → String × String
    unfolding safe_error_message normalize_error_type classify_unusable_output
        unusable_output_detail provider_error_detail_from_message
    verdict_on config raw =
        let category = normalize_error_type ops raw.error_type in
        let unusable = classify_unusable_output ops raw.text raw.stop_reason in
        if is_set raw.error
        then (
          message_for config category (provider_error_detail_from_message ops raw.error),
          category,
        )
        else if is_set unusable
        then (
          message_for config unusable
              (unusable_output_detail ops raw.text raw.stop_reason raw.output_tokens),
          unusable,
        )
        else ("", category)

    -- `_execute`, given what the executor of the config's provider does.
    unfoldable pub execute : ModelConfig F → Executed F → GatewayResponse F
    unfolding verdict_on safe_error_message normalize_exception_category
    execute config (raised exc) =
        let category = normalize_exception_category ops exc in
        record blank_response {
          model_used = config.model;
          provider_used = provider_value config.provider;
          error = message_for config category exc.detail;
          error_type = category;
        }
    execute config (returned_raw raw) =
        let found = verdict_on config raw in
        record blank_response {
          text = if has_usable_visible_text ops raw.text then raw.text else "";
          stop_reason = elim raw.stop_reason [ none ↦ "" | some reason ↦ reason ];
          model_used = or_else raw.model_used config.model;
          provider_used = provider_value config.provider;
          latency_ms = raw.latency_ms;
          input_tokens = raw.input_tokens;
          output_tokens = raw.output_tokens;
          cache_read_tokens = raw.cache_read_tokens;
          cost_usd = raw.cost_usd;
          error = found.0;
          error_type = if is_set found.0 then found.1 else "";
          retryable = is_retryable found.1;
        }

    -- What `_call_with_fallbacks` makes of the error of a response before it reads it.
    unfoldable pub sanitized : ModelConfig F → GatewayResponse F → GatewayResponse F
    unfolding safe_error_message provider_error_detail_from_message normalize_error_type
    sanitized config response =
        let category = normalize_error_type ops response.error_type in
        if is_set response.error
        then record response {
          error_type = category;
          error =
              message_for config category (provider_error_detail_from_message ops response.error);
        }
        else response
