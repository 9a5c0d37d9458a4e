-- ===== src/Policy/Gate.antt =====
-- mas/policy.py: the classification of actions, the kill switch, the unified gate and the audit
-- log.
use v.Prelude.{
  ℕ, String, Bool, true, false, ◌||◌, Option, none, some, List, [], ◌∷◌, ◌++◌, str_eq,
  if◌then◌else◌,
}
use v.Prelude.Dict.{Dict, get}
use v.Prelude.Float.{FloatOps}
use v.Policy.Types.{
  Reversibility, read_only, reversible_internal, irreversible_internal, irreversible_external,
  ActionDescriptor, BudgetCheckResult, BreachReason, CapsDict, ConsumedDict, BreakerDict,
  GateReason, kill_switch_active, over_budget, phase_breaker_open, needs_approval, GateDecision,
  PolicyEvent, ProjectState,
}
use v.Policy.Budget.{check_budget, caps_from_dict, consumed_from_dict}

unfoldable pub blast_radius_note : Reversibility → String
blast_radius_note read_only = "no state change"
blast_radius_note reversible_internal = "internal write, undoable"
blast_radius_note irreversible_internal = "internal write, not undoable without manual recovery"
blast_radius_note irreversible_external = "affects external systems or parties"

unfoldable pub approval_required : Reversibility → String → Bool
approval_required irreversible_external risk = true
approval_required irreversible_internal risk = str_eq risk "high_risk" || str_eq risk "limited_risk"
approval_required _ risk = false

unfoldable pub classify_action : String → Reversibility → String → String → ActionDescriptor
unfolding approval_required blast_radius_note
classify_action name reversibility risk_classification description = record {
  name = name;
  reversibility = reversibility;
  description = description;
  requires_approval = approval_required reversibility risk_classification;
  blast_radius_note = blast_radius_note reversibility;
}

abbrev is_missing : {A : Type 0} → Option A → Bool
is_missing none = true
is_missing (some a) = false

module _ {F : Type 0} where
  unfoldable pub check_kill_switch : ProjectState F → Bool
  check_kill_switch state = state.kill_switch_active

  unfoldable pub trigger_kill_switch : F → ProjectState F → String → String → ProjectState F
  trigger_kill_switch now state reason triggered_by = record state {
    kill_switch_active = true;
    kill_switch_reason = reason;
    kill_switch_triggered_by = triggered_by;
    kill_switch_triggered_at = some now;
  }

  -- breaker_dict and breaker_dict.get("state") == "open"
  unfoldable pub stored_open : Option (BreakerDict F) → Bool
  stored_open none = false
  stored_open (some d) = elim d.state [ none ↦ false | some s ↦ str_eq s "open" ]

  abbrev allow : GateDecision F
  allow = record {
    allowed = true;
    reason = none;
    requires_hitl_approval = false;
    breach_category = none;
  }

  abbrev deny : Option (GateReason F) → Bool → String → GateDecision F
  deny r hitl category = record {
    allowed = false;
    reason = r;
    requires_hitl_approval = hitl;
    breach_category = some category;
  }

  abbrev budget_reason : Option (BreachReason F) → Option (GateReason F)
  budget_reason none = none
  budget_reason (some r) = some (over_budget r)

  abbrev append_event :
      PolicyEvent F → Option (List (PolicyEvent F)) → Option (List (PolicyEvent F))
  append_event e none = none
  append_event e (some log) = some (log ++ e ∷ [])

  unfoldable pub log_policy_event : F → ProjectState F → String → Dict String → ProjectState F
  log_policy_event now state event_type details = record state {
    policy_audit_log =
        append_event
          (record {
            ts = now;
            event_type = event_type;
            phase = state.current_phase;
            details = details;
          })
          state.policy_audit_log;
  }

module _ {F : Type 0} ⦃fl : FloatOps F⦄ where
  unfoldable pub state_budget :
      F → Option (ConsumedDict F) → Option (CapsDict F) → ℕ → F → Option (BudgetCheckResult F)
  state_budget now none caps tokens cost = none
  state_budget now (some d) none tokens cost = none
  state_budget now (some d) (some c) tokens cost =
      some (check_budget now (consumed_from_dict d) (caps_from_dict c) tokens cost)

  abbrev after_budget : Option (BudgetCheckResult F) → GateDecision F → GateDecision F
  after_budget none rest = rest
  after_budget (some r) rest =
      if r.allowed then rest else deny (budget_reason r.breach_reason) false "budget"

  unfoldable pub policy_gate : F → ProjectState F → String → Reversibility → ℕ → F → GateDecision F
  unfolding check_kill_switch state_budget stored_open classify_action
  policy_gate now state action reversibility incremental_tokens incremental_cost_usd =
      if check_kill_switch state
      then deny (some (kill_switch_active state.kill_switch_reason)) false "kill_switch"
      else after_budget
          (state_budget now state.budget_consumed state.budget_caps incremental_tokens
            incremental_cost_usd)
          (if stored_open (get state.phase_breakers action)
            then deny (some (phase_breaker_open action)) false "breaker"
            else if (classify_action action reversibility state.risk_classification
                "").requires_approval
            then (if is_missing (get state.approvals_granted action)
                then deny (some (needs_approval action reversibility state.risk_classification))
                    true "approval"
                else allow)
            else allow)
