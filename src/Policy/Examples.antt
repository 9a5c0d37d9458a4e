-- ===== src/Policy/Examples.antt =====
-- Tests of the policy layer (mas/policy.py, mas/api.py, mas/orchestrator.py), and the theorems at
-- concrete inputs. The float is a natural number here.
use v.Prelude.{
  ℕ, ◌+◌, ◌-◌, ◌≡◌, ◌↔◌, refl, Bool, true, false, none, some, List, [], ◌∷◌, arith, ltb,
}
use v.Prelude.Dict.{get}
use v.Prelude.Float.{FloatOps}
use v.Policy.Types.{
  reversible_internal, irreversible_internal, CapsDict, ConsumedDict, ProjectState,
}
use v.Policy.Budget.{check_budget, wall_clock_elapsed, consumed_from_dict, caps_from_dict}
use v.Policy.Gate.{classify_action, policy_gate}
use v.Policy.PhaseRun.{Outcome, run_phase}
use v.Policy.Admission.{Admitted, policy_gate_iff}
use v.Policy.Metering.{InCap}
use v.Policy.Steps.{Reach, Steady, Step}
use v.Policy.Guarantees.{Steady-InCap, SameWork, killed_halts}

instance abbrev nat_floats : FloatOps ℕ
nat_floats = record {
  of_ℕ = λ n. n;
  add = λ a b. a + b;
  sub = λ a b. a - b;
  div = λ a b. a;
  gtb = λ a b. ltb b a;
}

abbrev caps : CapsDict ℕ
caps = record {
  max_total_tokens = some 1000;
  max_total_cost_usd = none;
  max_wall_clock_seconds = none;
  max_llm_calls = some 2;
  max_phase_reentries = none;
  max_consecutive_failures = none;
}

abbrev consumed : ConsumedDict ℕ
consumed = record {
  total_tokens = some 40;
  total_cost_usd = none;
  wall_clock_started_at = none;
  llm_call_count = some 1;
  phase_reentry_counts = none;
  consecutive_failures = none;
}

abbrev project : ProjectState ℕ
project = record {
  current_phase = "";
  risk_classification = "high_risk";
  budget_caps = some caps;
  budget_consumed = some consumed;
  kill_switch_active = false;
  kill_switch_reason = "";
  kill_switch_triggered_by = "";
  kill_switch_triggered_at = none;
  approvals_granted = [];
  phase_breakers =
      (
        "audit",
        record {
          state = some "open";
          failure_count = some 3;
          last_failure_at = none;
          opened_at = none;
        },
      )
      ∷ [];
  policy_audit_log = some [];
}

classify_action_test :
    (classify_action "seal_project" irreversible_internal "high_risk" "").requires_approval ≡ true
unfolding classify_action
classify_action_test = refl

policy_gate_iff_example :
    ((policy_gate 5 project "strategy" reversible_internal 10 1).allowed ≡ true)
    ↔ Admitted 5 project "strategy" reversible_internal 10 1
policy_gate_iff_example = policy_gate_iff 5 project "strategy" reversible_internal 10 1

gate_test : (policy_gate 5 project "strategy" reversible_internal 10 1).allowed ≡ true
unfolding policy_gate check_budget consumed_from_dict caps_from_dict wall_clock_elapsed get
gate_test = refl

gate_blocks_test :
    (policy_gate 5 project "audit" reversible_internal 10 1).breach_category ≡ some "breaker"
unfolding policy_gate check_budget consumed_from_dict caps_from_dict wall_clock_elapsed get
gate_blocks_test = refl

abbrev outcomes : List Bool
outcomes = false ∷ true ∷ false ∷ false ∷ true ∷ []

abbrev outcome : Outcome ℕ
outcome = record { tokens = 5; cost_usd = 1; success = true }

abbrev two_phases :
    Steady 1 project
      (run_phase 6 (run_phase 5 project "strategy" outcome (outcome ∷ [])) "report" outcome [])
two_phases =
    Steady.ran 6 "report" outcome []
      (Steady.ran 5 "strategy" outcome (outcome ∷ []) Steady.here (omega arith)) (omega arith)

project-InCap : InCap caps 1 project
unfolding caps_from_dict
project-InCap = record { capped = refl; metered = refl; few = omega arith }

Steady-InCap_example :
    InCap caps 1
      (run_phase 6 (run_phase 5 project "strategy" outcome (outcome ∷ [])) "report" outcome [])
Steady-InCap_example = Steady-InCap 1 caps project-InCap two_phases

abbrev killed : ProjectState ℕ
killed = record project { kill_switch_active = true }

killed_halts_example : SameWork killed (run_phase 5 killed "strategy" outcome [])
killed_halts_example =
    killed_halts 0 refl
      (Reach.next Reach.here (Step.run 5 "strategy" outcome [] (omega arith) refl))
