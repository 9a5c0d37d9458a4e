-- ===== src/Gateway/Progress.antt =====
-- mas/runtime/provider_gateway.py: the local variables of `_call_with_fallbacks`, and what a failure
-- leaves in them.
use v.Prelude.{ℕ, String, Bool, true, false, Option, none, some, List, [], ◌∷◌, ◌++◌}
use v.Prelude.Dict.{Dict, get}
use v.Prelude.Float.{FloatOps}
use v.Gateway.Types.{
  TextOps, Provider, provider_value, ModelConfig, ProviderSelection, Attempt, GatewayResponse,
}
use v.Gateway.Errors.{or_else, first_failure, attempt_metadata, safe_error_message}
use v.Gateway.Breaker.{CircuitBreaker}
use v.Gateway.Attempt.{UsageLedger, empty_ledger}

abbrev pub Candidate : Type 0 → Type 0
Candidate F = ModelConfig F × ProviderSelection

-- The breaker, and the local variables of a call.
pub record Progress (F : Type 0) : Type 0 where
  pub breaker : CircuitBreaker F
  pub attempts : List Attempt
  pub failed_provider : String
  pub failed_model : String
  pub failed_error_type : String
  pub fallback_reason : String
  pub last_error_type : String
  pub last_error : String
  pub attempt_count : ℕ
  pub attempted_error_type : String
  pub attempted_error : String
  pub usage : UsageLedger F

-- What follows on an attempt: the call returns, the candidate is tried again, or the next one is.
pub data Step (F : Type 0) : Type 0 where
  returned : Progress F → GatewayResponse F → Step F
  again : Progress F → Step F
  next_candidate : Progress F → Step F

unfoldable pub provider_available : Option (Dict Bool) → Provider → Bool
unfolding get
provider_available none provider = true
provider_available (some availability) provider =
    elim (get availability (provider_value provider)) [ none ↦ false | some b ↦ b ]

module _ {F : Type 0} ⦃fl : FloatOps F⦄ where
  abbrev pub start : CircuitBreaker F → Progress F
  start breaker = record {
    breaker = breaker;
    attempts = [];
    failed_provider = "";
    failed_model = "";
    failed_error_type = "";
    fallback_reason = "";
    last_error_type = "provider_unavailable";
    last_error = "No configured provider candidates were available";
    attempt_count = 0;
    attempted_error_type = "";
    attempted_error = "";
    usage = empty_ledger;
  }

  -- What a failure of a candidate, skipped or executed, leaves.
  unfoldable pub note_failure :
      Progress F → Candidate F → String → String → String → String → Progress F
  note_failure p (config, selection) status category skip_reason error =
      let first =
        first_failure p.failed_provider p.failed_model p.failed_error_type config category in
      record p {
        attempts = p.attempts ++ attempt_metadata config selection status category skip_reason ∷ [];
        failed_provider = first.0;
        failed_model = first.1;
        failed_error_type = first.2;
        fallback_reason = or_else p.fallback_reason category;
        last_error_type = category;
        last_error = error;
      }

  module _ (ops : TextOps) where
    unfoldable pub skip : Progress F → Candidate F → String → Progress F
    unfolding note_failure safe_error_message
    skip p (config, selection) skip_reason =
        note_failure p (config, selection) "skipped" "provider_unavailable" skip_reason
          (safe_error_message ops "provider_unavailable" (provider_value config.provider)
            config.model "")
