-- ===== src/Gateway/Errors.antt =====
-- mas/runtime/provider_gateway.py: the categories of errors, and the messages about them.
use v.Prelude.{
  ℕ, ◌+◌, String, Bool, true, false, Option, none, some, List, [], ◌∷◌, not, ◌&&◌, ◌||◌, str_eq,
  any, leb, ltb, ◌==◌, if◌then◌else◌,
}
use v.Prelude.Dict.{Dict, get}
use v.Prelude.Texts.{one_of, join}
use Prim.Native.String.{◌++◌, len, slice}
use text.Mathlib.Text.{find?}
use v.Gateway.Types.{
  TextOps, ModelConfig, provider_value, ProviderSelection, Attempt, ProviderException,
}

abbrev pub retryable_provider_errors : List String
retryable_provider_errors =
    "rate_limited" ∷ "timeout" ∷ "provider_unavailable" ∷ "server_error" ∷ "connection_error"
    ∷ "transport_malformed_response" ∷ []

abbrev pub unusable_output_errors : List String
unusable_output_errors = "output_token_exhausted" ∷ "empty_provider_output" ∷ []

abbrev pub is_retryable : String → Bool
is_retryable category = one_of retryable_provider_errors category

abbrev pub is_unusable : String → Bool
is_unusable category = one_of unusable_output_errors category

-- category in FALLBACK_ELIGIBLE_ERRORS
abbrev pub is_fallback_eligible : String → Bool
is_fallback_eligible category =
    is_retryable category
    || (is_unusable category || one_of ("auth_error" ∷ "quota_exceeded" ∷ []) category)

abbrev pub governance_error_types : List String
governance_error_types = "kill_switch" ∷ "budget" ∷ "breaker" ∷ "approval" ∷ "policy" ∷ []

-- if text
abbrev pub is_set : String → Bool
is_set t = not (str_eq t "")

-- a or b
abbrev pub or_else : String → String → String
or_else a b = if is_set a then a else b

-- mark in text
abbrev pub contains : String → String → Bool
contains text mark = elim (find? text mark) [ none ↦ false | some at ↦ true ]

abbrev aliases : Dict String
aliases =
    ("", "unknown_provider_error")
    ∷ ("auth", "auth_error")
    ∷ ("auth_error", "auth_error")
    ∷ ("authentication", "auth_error")
    ∷ ("authentication_error", "auth_error")
    ∷ ("config", "auth_error")
    ∷ ("configuration", "auth_error")
    ∷ ("quota", "quota_exceeded")
    ∷ ("quota_exceeded", "quota_exceeded")
    ∷ ("insufficient_quota", "quota_exceeded")
    ∷ ("rate", "rate_limited")
    ∷ ("rate_limit", "rate_limited")
    ∷ ("rate_limited", "rate_limited")
    ∷ ("network", "connection_error")
    ∷ ("connection", "connection_error")
    ∷ ("connection_error", "connection_error")
    ∷ ("timeout", "timeout")
    ∷ ("provider_unavailable", "provider_unavailable")
    ∷ ("unavailable", "provider_unavailable")
    ∷ ("server", "server_error")
    ∷ ("server_error", "server_error")
    ∷ ("invalid_request", "invalid_request")
    ∷ ("bad_request", "invalid_request")
    ∷ ("transport_malformed_response", "transport_malformed_response")
    ∷ ("malformed", "transport_malformed_response")
    ∷ ("model_schema_invalid", "model_schema_invalid")
    ∷ ("schema", "model_schema_invalid")
    ∷ ("output_token_exhausted", "output_token_exhausted")
    ∷ ("empty_provider_output", "empty_provider_output")
    ∷ ("unknown_provider_error", "unknown_provider_error")
    ∷ []

-- What `normalize_error_type` makes of a stripped text in lower case.
unfoldable pub category_of : String → String
unfolding get
category_of raw = elim (get aliases raw) [
  | some category ↦ category
  | none ↦ if one_of governance_error_types raw then raw else "unknown_provider_error"
]

abbrev normalized_stop_reasons : Dict String
normalized_stop_reasons =
    ("end_turn", "end_turn")
    ∷ ("stop", "end_turn")
    ∷ ("max_tokens", "max_tokens")
    ∷ ("length", "max_tokens")
    ∷ ("stop_sequence", "stop_sequence")
    ∷ ("tool_use", "tool_use")
    ∷ ("tool_calls", "tool_use")
    ∷ ("pause_turn", "pause_turn")
    ∷ ("refusal", "refusal")
    ∷ ("content_filter", "content_filter")
    ∷ []

abbrev pub candidate_key : {F : Type 0} → ModelConfig F → String
candidate_key config = provider_value config.provider ++ (":" ++ config.model)

-- The first failure: its provider, model and category; no provider is the empty text.
abbrev pub first_failure :
    {F : Type 0} → String → String → String → ModelConfig F → String → String × String × String
first_failure failed_provider failed_model failed_error_type config category =
    if is_set failed_provider
    then (failed_provider, failed_model, failed_error_type)
    else (provider_value config.provider, config.model, category)

abbrev pub attempt_metadata :
    {F : Type 0} → ModelConfig F → ProviderSelection → String → String → String → Attempt
attempt_metadata config selection status error_type skip_reason = record {
  provider = provider_value config.provider;
  model = config.model;
  task_profile = selection.task_profile;
  selection_reason = selection.reason;
  status = status;
  error_type = error_type;
  skip_reason = skip_reason;
}

abbrev provider_detail_marker : String
provider_detail_marker = "; provider_detail="

module _ (ops : TextOps) where
  unfoldable pub normalize_error_type : String → String
  unfolding category_of
  normalize_error_type error_type = category_of (ops.lower (ops.strip error_type))

  unfoldable pub normalize_stop_reason : Option String → String
  unfolding get
  normalize_stop_reason none = ""
  normalize_stop_reason (some value) =
      elim (get normalized_stop_reasons (ops.lower (ops.strip value))) [
        | some reason ↦ reason
        | none ↦ "other"
      ]

  abbrev pub has_usable_visible_text : String → Bool
  has_usable_visible_text text = is_set (ops.strip text)

  -- "" where the text is usable
  unfoldable pub classify_unusable_output : String → Option String → String
  unfolding normalize_stop_reason
  classify_unusable_output text stop_reason =
      if has_usable_visible_text text
      then ""
      else if str_eq (normalize_stop_reason stop_reason) "max_tokens"
      then "output_token_exhausted"
      else "empty_provider_output"

  unfoldable pub unusable_output_detail : String → Option String → ℕ → String
  unfolding normalize_stop_reason
  unusable_output_detail text stop_reason output_tokens =
      "stop_reason="
      ++ (or_else (normalize_stop_reason stop_reason) "unset"
          ++ (" visible_text="
              ++ ((if str_eq text "" then "empty" else "whitespace")
                  ++ (" output_tokens=" ++ ops.show output_tokens))))

  unfoldable pub safe_error_message : String → String → String → String → String
  unfolding normalize_error_type
  safe_error_message category provider model provider_detail =
      let message =
        "Provider call failed: category="
        ++ (normalize_error_type category
            ++ (", provider=" ++ (provider ++ (", model=" ++ model)))) in
      if is_set provider_detail
      then message ++ (provider_detail_marker ++ provider_detail)
      else message

  unfoldable pub provider_error_detail_from_message : String → String
  provider_error_detail_from_message message = elim (find? message provider_detail_marker) [
    | none ↦ ""
    | some at ↦ ops.strip (slice message (at + len provider_detail_marker) (len message))
  ]

  -- The messages of an exception in lower case.
  abbrev messages_of : ProviderException → List String
  messages_of exc =
      let message : List String = elim exc.message [
        | none ↦ []
        | some m ↦ if is_set m then ops.lower m ∷ [] else []
      ] in
      let rest : List String = elim exc.body_message [
        | none ↦ message
        | some m ↦ ops.lower m ∷ message
      ] in
      ops.lower exc.text ∷ rest

  unfoldable is_quota_exhaustion_exception : ProviderException → Bool
  unfolding join
  is_quota_exhaustion_exception exc = any (contains (join " " (messages_of exc))) (
      "credit balance is too low" ∷ "balance is too low" ∷ "insufficient credits"
      ∷ "purchase credits" ∷ "quota exceeded" ∷ "insufficient quota" ∷ "exceeded your quota" ∷ [])

  abbrev status_is : ℕ → Option ℕ → Bool
  status_is n none = false
  status_is n (some m) = m == n

  abbrev status_in : ℕ → ℕ → Option ℕ → Bool
  status_in low high none = false
  status_in low high (some m) = leb low m && ltb m high

  unfoldable pub normalize_exception_category : ProviderException → String
  unfolding is_quota_exhaustion_exception
  normalize_exception_category exc =
      let name = ops.lower exc.class_name in
      let text = ops.lower exc.text in
      if contains name "auth" || (status_is 401 exc.status_code || status_is 403 exc.status_code)
      then "auth_error"
      else if contains name "rate" || status_is 429 exc.status_code
      then if any (contains text) ("quota" ∷ "credit" ∷ "insufficient" ∷ [])
        then "quota_exceeded"
        else "rate_limited"
      else if contains name "timeout" || exc.is_timeout_error
      then "timeout"
      else if contains name "connection"
      then "connection_error"
      else if status_is 503 exc.status_code
      then "provider_unavailable"
      else if status_in 500 600 exc.status_code
      then "server_error"
      else if status_in 400 500 exc.status_code
      then if is_quota_exhaustion_exception exc then "quota_exceeded" else "invalid_request"
      else "unknown_provider_error"
