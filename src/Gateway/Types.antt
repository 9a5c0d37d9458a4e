-- ===== src/Gateway/Types.antt =====
-- mas/config.py, mas/extensions/runtime.py and mas/runtime/provider_gateway.py: the records of the
-- gateway to the language models, and what it reads of a provider's reply.
use v.Prelude.{ℕ, String, Bool, false, Option, List, []}
use v.Prelude.Dict.{Dict}
use v.Prelude.Float.{FloatOps}

-- Python's methods of texts, an argument of the definitions that use them.
pub record TextOps : Type 0 where
  pub strip : String → String
  pub lower : String → String
  -- str(n)
  pub show : ℕ → String

pub data Provider : Type 0 where
  anthropic openai : Provider

-- provider.value
abbrev pub provider_value : Provider → String
provider_value anthropic = "anthropic"
provider_value openai = "openai"

-- A negative budget of tokens does not occur.
pub record ModelConfig (F : Type 0) : Type 0 where
  pub provider : Provider
  pub model : String
  pub max_tokens : ℕ
  pub temperature : F
  pub thinking_budget : ℕ
  pub min_response_tokens : Option ℕ

pub record RoutingContext : Type 0 where
  pub task_type : String
  pub complexity_hint : String
  pub risk_classification : String
  pub explicit_model : String

-- `project_id` is for the telemetry alone.
pub record GatewayRequest : Type 0 where
  pub phase : String
  pub system_prompt : String
  pub user_prompt : String
  pub routing_context : RoutingContext
  pub cache_key : String
  pub allow_cache : Bool

pub record ProviderSelection : Type 0 where
  pub provider : String
  pub model : String
  pub reason : String
  pub task_profile : String

pub record RoutingConfig : Type 0 where
  pub default_provider : String
  pub cache_enabled : Bool
  pub cache_ttl_seconds : ℕ
  pub phase_overrides : Dict String
  pub complexity_routes : Dict String
  pub task_profile_candidates : Dict (List String)

-- What `_attempt_metadata` notes of a candidate.
pub record Attempt : Type 0 where
  pub provider : String
  pub model : String
  pub task_profile : String
  pub selection_reason : String
  pub status : String
  pub error_type : String
  pub skip_reason : String

pub record GatewayResponse (F : Type 0) : Type 0 where
  pub text : String
  pub stop_reason : String
  pub model_used : String
  pub provider_used : String
  pub selected_model : String
  pub selected_provider : String
  pub selection_reason : String
  pub task_profile : String
  pub cache_hit : Bool
  pub cache_status : String
  pub fallback_used : Bool
  pub fallback_reason : String
  pub fallback_provider : String
  pub fallback_model : String
  pub failed_provider : String
  pub failed_model : String
  pub failed_error_type : String
  pub attempt_count : ℕ
  pub retryable : Bool
  pub attempts : List Attempt
  pub latency_ms : ℕ
  pub input_tokens : ℕ
  pub output_tokens : ℕ
  pub cache_read_tokens : ℕ
  pub cost_usd : F
  pub error : String
  pub error_type : String

-- The defaults of `GatewayResponse`.
abbrev pub blank_response : {F : Type 0} ⦃fl : FloatOps F⦄ → GatewayResponse F
blank_response ⦃fl⦄ = record {
  text = "";
  stop_reason = "";
  model_used = "";
  provider_used = "";
  selected_model = "";
  selected_provider = "";
  selection_reason = "";
  task_profile = "";
  cache_hit = false;
  cache_status = "disabled";
  fallback_used = false;
  fallback_reason = "";
  fallback_provider = "";
  fallback_model = "";
  failed_provider = "";
  failed_model = "";
  failed_error_type = "";
  attempt_count = 0;
  retryable = false;
  attempts = [];
  latency_ms = 0;
  input_tokens = 0;
  output_tokens = 0;
  cache_read_tokens = 0;
  cost_usd = fl.of_ℕ 0;
  error = "";
  error_type = "";
}

-- What the gateway reads of an exception that an executor raised. `body_message` is the message of a
-- body that is a dict, or the empty text; `detail` is what `safe_provider_error_detail` makes of it.
pub record ProviderException : Type 0 where
  pub class_name : String
  pub status_code : Option ℕ
  pub text : String
  pub body_message : Option String
  pub message : Option String
  pub is_timeout_error : Bool
  pub detail : String

-- What it reads of a result.
pub record RawResult (F : Type 0) : Type 0 where
  pub text : String
  pub stop_reason : Option String
  pub model_used : String
  pub latency_ms : ℕ
  pub input_tokens : ℕ
  pub output_tokens : ℕ
  pub cache_read_tokens : ℕ
  pub cost_usd : F
  pub error : String
  pub error_type : String

pub data Executed (F : Type 0) : Type 0 where
  raised : ProviderException → Executed F
  returned_raw : RawResult F → Executed F

-- What the hook before an attempt returns: None, a response, a dict with a category and a reason,
-- or something else.
pub data HookResult (F : Type 0) : Type 0 where
  no_objection : HookResult F
  objection : GatewayResponse F → HookResult F
  verdict : Option String → Option String → HookResult F
  other_value : HookResult F

-- What is outside of the gateway during one call: what the hook and the executor of the config's
-- provider return at the attempt of a number, and the clock as the circuit breaker reads it, at the
-- candidate and after the failed attempt of a number.
pub record World (F : Type 0) : Type 0 where
  pub hook : ℕ → ModelConfig F → HookResult F
  pub run : ℕ → ModelConfig F → Executed F
  pub looked_at : ℕ → F
  pub failed_at : ℕ → F
