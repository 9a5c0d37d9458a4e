-- ===== src/Gateway/Examples.antt =====
-- Tests of the gateway to the language models (mas/runtime/provider_gateway.py), and the theorems at
-- concrete inputs. The float is a natural number here.
use v.Prelude.{
  ℕ, zero, suc, ◌+◌, ◌-◌, ◌*◌, ◌≤◌, ◌≡◌, refl, String, true, Option, none, some, List, [], ◌∷◌,
  arith, ltb, leb, length, select,
}
use v.Prelude.Float.{FloatOps}
use v.Gateway.Types.{
  TextOps, anthropic, ModelConfig, RoutingContext, RoutingConfig, GatewayRequest, GatewayResponse,
  blank_response, RawResult, Executed, returned_raw, no_objection, World,
}
use v.Gateway.Routing.{is_anthropic}
use v.Gateway.Breaker.{CircuitBreaker, is_recent, failures_of, is_open}
use v.Gateway.Progress.{Candidate, provider_available}
use v.Gateway.Calls.{call_with_fallbacks, executed}
use v.Gateway.Account.{Account}
use v.Gateway.Endings.{call_with_fallbacks-Account}
use v.Gateway.Bounds.{call_with_fallbacks_bounded}
use v.Gateway.Failures.{BreakerCall, fails, looks, run_calls, failures_since, is_open-run, Before}
use v.Gateway.Selection.{primary, select_model_candidates}
use v.Gateway.Chosen.{Chosen, select_model_candidates-Chosen}
use v.Gateway.Serve.{Gateway, GatewayState, CallWorld, CallResult, responded, raised_error, call}
use v.Gateway.Served.{Served, call-Served}
use v.Gateway.Recall.{Recalled, call-again}
use v.Gateway.Headline.{Reported}
use v.Gateway.Reports.{call_with_fallbacks-Reported}
use v.Gateway.Retries.{Recovered, call_with_fallbacks-Recovered}

instance abbrev nat_floats : FloatOps ℕ
nat_floats = record {
  of_ℕ = λ n. n;
  add = λ a b. a + b;
  sub = λ a b. a - b;
  div = λ a b. a;
  gtb = λ a b. ltb b a;
}

abbrev ops : TextOps
ops = record { strip = λ t. t; lower = λ t. t; show = λ n. "n" }

abbrev sonnet : Candidate ℕ
sonnet = (
  record {
    provider = anthropic;
    model = "claude-sonnet-4-6";
    max_tokens = 6000;
    temperature = 3;
    thinking_budget = 0;
    min_response_tokens = none;
  },
  record {
    provider = "anthropic";
    model = "claude-sonnet-4-6";
    reason = "phase_routing";
    task_profile = "deep_reasoning";
  },
)

abbrev raw : String → String → String → RawResult ℕ
raw text error error_type = record {
  text = text;
  stop_reason = none;
  model_used = "";
  latency_ms = 5;
  input_tokens = 100;
  output_tokens = 20;
  cache_read_tokens = 0;
  cost_usd = 7;
  error = error;
  error_type = error_type;
}

-- The first execution fails, the others answer.
abbrev second_answers : ℕ → ModelConfig ℕ → Executed ℕ
second_answers zero config = returned_raw (raw "" "overloaded" "server_error")
second_answers (suc n) config = returned_raw (raw "{}" "" "")

abbrev never_answers : ℕ → ModelConfig ℕ → Executed ℕ
never_answers n config = returned_raw (raw "" "no credits" "quota_exceeded")

abbrev world_of : (ℕ → ModelConfig ℕ → Executed ℕ) → World ℕ
world_of run = record {
  hook = λ n config. no_objection;
  run = run;
  looked_at = λ n. 1000;
  failed_at = λ n. 1000;
}

abbrev closed_breaker : CircuitBreaker ℕ
closed_breaker = record { threshold = 5; cooldown = 60; failures = [] }

call_with_fallbacks-Account_example :
    Account ops
      (world_of second_answers)
      sonnet
      (λ config. is_anthropic config.provider ≡ true)
      (call_with_fallbacks ops (world_of second_answers) none 3 closed_breaker sonnet []).1
call_with_fallbacks-Account_example =
    call_with_fallbacks-Account ops (world_of second_answers) sonnet none 3
      (λ config. is_anthropic config.provider ≡ true) closed_breaker [] (refl, tt)

billed_twice :
    GatewayResponse.cost_usd
      (call_with_fallbacks ops (world_of second_answers) none 3 closed_breaker sonnet []).1
    ≡ 14
unfolding call_with_fallbacks
billed_twice = refl

call_with_fallbacks_bounded_example :
    ◌≤◌
      (GatewayResponse.attempt_count
        (call_with_fallbacks ops (world_of second_answers) none 3 closed_breaker sonnet []).1)
      (suc 0 * 3)
call_with_fallbacks_bounded_example =
    call_with_fallbacks_bounded ops (world_of second_answers) sonnet none 3 closed_breaker []

call_with_fallbacks-Recovered_example :
    Recovered ops
      (world_of second_answers)
      sonnet
      0
      1
      sonnet.0
      true
      (call_with_fallbacks ops (world_of second_answers) none 3 closed_breaker sonnet []).1
unfolding provider_available is_open executed
call_with_fallbacks-Recovered_example =
    call_with_fallbacks-Recovered ops (world_of second_answers) sonnet none 3 1 closed_breaker []
      (λ n config. refl) refl refl (omega arith) (refl, refl, refl)

call_with_fallbacks-Reported_example :
    Reported (call_with_fallbacks ops (world_of never_answers) none 3 closed_breaker sonnet []).1
unfolding call_with_fallbacks
call_with_fallbacks-Reported_example =
    call_with_fallbacks-Reported ops (world_of never_answers) sonnet (λ n config. refl) none 3
      closed_breaker [] refl

abbrev two_failures : List (BreakerCall ℕ)
two_failures = fails 10 "k" ∷ fails 80 "k" ∷ looks 80 "k" ∷ []

is_open-run_example :
    is_open (run_calls closed_breaker two_failures) 90 "k"
    ≡ leb 5 (
        length (
          select
            (is_recent closed_breaker 90)
            (failures_since "k" (failures_of closed_breaker "k") two_failures)))
unfolding Before
is_open-run_example =
    is_open-run closed_breaker two_failures 90 "k"
      (record { earlier = λ t m n h e. ground (arith, h, e) }) (refl, (refl, tt))

abbrev context : RoutingContext
context = record {
  task_type = "";
  complexity_hint = "";
  risk_classification = "minimal_risk";
  explicit_model = "";
}

abbrev routing : RoutingConfig
routing = record {
  default_provider = "anthropic";
  cache_enabled = true;
  cache_ttl_seconds = 300;
  phase_overrides = [];
  complexity_routes = [];
  task_profile_candidates = [];
}

abbrev request : GatewayRequest
request = record {
  phase = "audit";
  system_prompt = "s";
  user_prompt = "u";
  routing_context = context;
  cache_key = "key";
  allow_cache = true;
}

abbrev gateway : Gateway
gateway = record { routing_config = routing; provider_availability = none; max_retries = 3 }

abbrev call_world : ℕ → CallWorld ℕ
call_world now = record { world = world_of second_answers; got_at = now; put_at = now }

abbrev fresh_state : GatewayState ℕ
fresh_state = record { cache = []; breaker = closed_breaker }

call-Served_example :
    Served ops
      (λ t. t)
      (λ d. "")
      (call_world 1000)
      fresh_state
      (call ops (λ t. t) (λ d. "") gateway (call_world 1000) fresh_state request none)
call-Served_example =
    call-Served ops (λ t. t) (λ d. "") gateway (call_world 1000) fresh_state request none

abbrev listed : Option (List (Candidate ℕ)) → List (Candidate ℕ)
listed none = []
listed (some cs) = cs

abbrev audit_candidates : List (Candidate ℕ)
unfolding select_model_candidates
audit_candidates = listed (select_model_candidates ops "audit" none context routing)

four_candidates : length audit_candidates ≡ 4
unfolding audit_candidates
four_candidates = refl

select_model_candidates-Chosen_example :
    (c : Candidate ℕ) × (primary ops "audit" none context routing ≡ some c)
    × Chosen c audit_candidates
unfolding select_model_candidates audit_candidates
select_model_candidates-Chosen_example =
    select_model_candidates-Chosen ops "audit" none context routing audit_candidates refl

abbrev state_of : CallResult ℕ → GatewayState ℕ
state_of (responded t r) = t
state_of (raised_error e) = fresh_state

abbrev response_of : CallResult ℕ → GatewayResponse ℕ
response_of (responded t r) = r
response_of (raised_error e) = blank_response

unfoldable first_call : CallResult ℕ
unfolding call
first_call = call ops (λ t. t) (λ d. "") gateway (call_world 1000) fresh_state request none

call-again_example :
    (again : GatewayResponse ℕ) × (call ops
        (λ t. t)
        (λ d. "")
        gateway
        (call_world 1200)
        (state_of first_call)
        request
        none
      ≡ responded (state_of first_call) again)
    × Recalled (response_of first_call) again
unfolding first_call call
call-again_example =
    call-again ops (λ t. t) (λ d. "") gateway (call_world 1000) (call_world 1200) fresh_state
      (state_of first_call) request none (response_of first_call) refl refl refl refl refl refl
