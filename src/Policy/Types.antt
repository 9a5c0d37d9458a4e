-- ===== src/Policy/Types.antt =====
-- mas/policy.py: the records and enumerations of the policy layer, and the fields of `ProjectState`
-- (mas/state.py) that it reads and writes. A message is kept as its template and its arguments.
use v.Prelude.{ℕ, String, Bool, Option, none, List, [], ◌∷◌}
use v.Prelude.Dict.{Dict}
use v.Prelude.Float.{FloatOps}

pub data Reversibility : Type 0 where
  read_only reversible_internal irreversible_internal irreversible_external : Reversibility

pub record ActionDescriptor : Type 0 where
  pub name : String
  pub reversibility : Reversibility
  pub description : String
  pub requires_approval : Bool
  pub blast_radius_note : String

-- PHASE_ACTION_MAP
abbrev pub phase_action_map : Dict Reversibility
phase_action_map =
    ("classify", reversible_internal)
    ∷ ("hypotheses", reversible_internal)
    ∷ ("gauntlet", reversible_internal)
    ∷ ("audit", reversible_internal)
    ∷ ("strategy", reversible_internal)
    ∷ ("sqi", reversible_internal)
    ∷ ("monitor", reversible_internal)
    ∷ ("report", reversible_internal)
    ∷ ("scope", reversible_internal)
    ∷ ("scientific_inventory", reversible_internal)
    ∷ ("trl_diagnosis", reversible_internal)
    ∷ ("research_industry_alignment", reversible_internal)
    ∷ ("ip_protection_axis", reversible_internal)
    ∷ ("next_level_recommendations", reversible_internal)
    ∷ ("technical_validation_plan", reversible_internal)
    ∷ ("industrial_transfer_plan", reversible_internal)
    ∷ ("readiness_roadmap", reversible_internal)
    ∷ ("executive_summary", reversible_internal)
    ∷ ("seal_project", irreversible_internal)
    ∷ ("write_calibration_snapshot", irreversible_internal)
    ∷ []

pub record BudgetCaps (F : Type 0) : Type 0 where
  pub max_total_tokens : ℕ
  pub max_total_cost_usd : F
  pub max_wall_clock_seconds : ℕ
  pub max_llm_calls : ℕ
  pub max_phase_reentries : ℕ
  pub max_consecutive_failures : ℕ

pub record BudgetConsumed (F : Type 0) : Type 0 where
  pub total_tokens : ℕ
  pub total_cost_usd : F
  pub wall_clock_started_at : Option F
  pub llm_call_count : ℕ
  pub phase_reentry_counts : Dict ℕ
  pub consecutive_failures : ℕ

-- The dicts of `ProjectState`: a key that is missing is `none`. A missing start of the wall clock
-- and one that is None are one to the code.
pub record CapsDict (F : Type 0) : Type 0 where
  pub max_total_tokens : Option ℕ
  pub max_total_cost_usd : Option F
  pub max_wall_clock_seconds : Option ℕ
  pub max_llm_calls : Option ℕ
  pub max_phase_reentries : Option ℕ
  pub max_consecutive_failures : Option ℕ

pub record ConsumedDict (F : Type 0) : Type 0 where
  pub total_tokens : Option ℕ
  pub total_cost_usd : Option F
  pub wall_clock_started_at : Option F
  pub llm_call_count : Option ℕ
  pub phase_reentry_counts : Option (Dict ℕ)
  pub consecutive_failures : Option ℕ

pub record BreakerDict (F : Type 0) : Type 0 where
  pub state : Option String
  pub failure_count : Option ℕ
  pub last_failure_at : Option F
  pub opened_at : Option F

pub data BreachReason (F : Type 0) : Type 0 where
  over_tokens : ℕ → BreachReason F
  over_cost : F → BreachReason F
  over_wall_clock : F → ℕ → BreachReason F
  out_of_calls : ℕ → BreachReason F
  failures_in_a_row : ℕ → BreachReason F

pub record BudgetCheckResult (F : Type 0) : Type 0 where
  pub allowed : Bool
  pub breach_reason : Option (BreachReason F)
  pub cap_breached : Option String

pub data GateReason (F : Type 0) : Type 0 where
  kill_switch_active : String → GateReason F
  over_budget : BreachReason F → GateReason F
  phase_breaker_open : String → GateReason F
  needs_approval : String → Reversibility → String → GateReason F

pub record GateDecision (F : Type 0) : Type 0 where
  pub allowed : Bool
  pub reason : Option (GateReason F)
  pub requires_hitl_approval : Bool
  pub breach_category : Option String

pub data BreakerState : Type 0 where
  closed degraded open_state : BreakerState

pub record PhaseBreaker (F : Type 0) : Type 0 where
  pub state : BreakerState
  pub failure_count : ℕ
  pub last_failure_at : Option F
  pub opened_at : Option F

pub record Approval : Type 0 where
  pub approved_by : String
  pub rationale : String
  pub granted_at : String

pub record PolicyEvent (F : Type 0) : Type 0 where
  pub ts : F
  pub event_type : String
  pub phase : String
  pub details : Dict String

-- What the policy layer uses of `ProjectState`. The dicts may be None.
pub record ProjectState (F : Type 0) : Type 0 where
  pub current_phase : String
  pub risk_classification : String
  pub budget_caps : Option (CapsDict F)
  pub budget_consumed : Option (ConsumedDict F)
  pub kill_switch_active : Bool
  pub kill_switch_reason : String
  pub kill_switch_triggered_by : String
  pub kill_switch_triggered_at : Option F
  pub approvals_granted : Dict Approval
  pub phase_breakers : Dict (BreakerDict F)
  pub policy_audit_log : Option (List (PolicyEvent F))

-- The defaults of `BudgetCaps` and `BudgetConsumed`.
module _ {F : Type 0} ⦃fl : FloatOps F⦄ where
  abbrev pub default_caps : BudgetCaps F
  default_caps = record {
    max_total_tokens = 2_000_000;
    max_total_cost_usd = fl.of_ℕ 25;
    max_wall_clock_seconds = 3600;
    max_llm_calls = 100;
    max_phase_reentries = 3;
    max_consecutive_failures = 3;
  }

  abbrev pub default_consumed : BudgetConsumed F
  default_consumed = record {
    total_tokens = 0;
    total_cost_usd = fl.of_ℕ 0;
    wall_clock_started_at = none;
    llm_call_count = 0;
    phase_reentry_counts = [];
    consecutive_failures = 0;
  }

abbrev pub default_breaker : {F : Type 0} → PhaseBreaker F
default_breaker = record {
  state = closed;
  failure_count = 0;
  last_failure_at = none;
  opened_at = none;
}
