-- ===== src/Policy/Admission.antt =====
-- mas/policy.py: what the gate and the checks that it combines let through, in terms of the stored
-- numbers and texts.
use v.Prelude.{
  ℕ, ◌+◌, ◌≤◌, ◌<◌, String, ◌≡◌, ◌≢◌, ◌↔◌, ◌⊎◌, inl, inr, true, false, Option, none, some, arith,
  eq_iff, str_eq, refl,
}
use v.Prelude.Dict.{get}
use v.Prelude.Float.{FloatOps}
use v.Policy.Types.{
  Reversibility, irreversible_internal, irreversible_external, BudgetCaps, BudgetConsumed,
  BudgetCheckResult, CapsDict, ConsumedDict, BreakerDict, ProjectState,
}
use v.Policy.Budget.{check_budget, wall_clock_elapsed, caps_from_dict, consumed_from_dict}
use v.Policy.Gate.{classify_action, stored_open, state_budget, policy_gate}

abbrev pub NeedsApproval : Reversibility → String → Type 0
NeedsApproval reversibility risk =
    (reversibility ≡ irreversible_external)
    ⊎ (reversibility ≡ irreversible_internal) × ((risk ≡ "high_risk") ⊎ (risk ≡ "limited_risk"))

-- An action requires the operator's approval exactly if it is irreversible and external, or
-- irreversible and internal in a project whose risk is "high_risk" or "limited_risk".
pub classify_action_iff :
    (name : String) (reversibility : Reversibility) (risk description : String)
    → ((classify_action name reversibility risk description).requires_approval ≡ true)
      ↔ NeedsApproval reversibility risk
unfolding classify_action
classify_action_iff name reversibility risk description =
    ground (arith, eq_iff risk "high_risk", eq_iff risk "limited_risk")

module _ {F : Type 0} ⦃fl : FloatOps F⦄ where
  pub record WithinBudget (now : F) (used : BudgetConsumed F) (caps : BudgetCaps F) (tokens : ℕ)
      (cost : F) : Type 0 where
    pub tokens_fit : used.total_tokens + tokens ≤ caps.max_total_tokens
    pub cost_fits : fl.gtb (fl.add used.total_cost_usd cost) caps.max_total_cost_usd ≡ false
    pub time_left :
        fl.gtb (wall_clock_elapsed used now) (fl.of_ℕ caps.max_wall_clock_seconds) ≡ false
    pub calls_left : used.llm_call_count < caps.max_llm_calls
    pub failures_few : used.consecutive_failures < caps.max_consecutive_failures

  -- A call is in budget exactly if the planned tokens and cost stay within their caps, the wall
  -- clock has not passed its cap, and fewer calls and fewer failures in a row than the caps allow
  -- are recorded.
  pub check_budget_iff :
      (now : F) (used : BudgetConsumed F) (caps : BudgetCaps F) (tokens : ℕ) (cost : F)
      → ((check_budget now used caps tokens cost).allowed ≡ true)
        ↔ WithinBudget now used caps tokens cost
  unfolding check_budget
  check_budget_iff now used caps tokens cost = ground arith

  pub record Admitted (now : F) (s : ProjectState F) (action : String) (r : Reversibility)
      (tokens : ℕ) (cost : F) : Type 0 where
    pub not_killed : s.kill_switch_active ≡ false
    pub in_budget :
        (used : _) (caps : _)
        → s.budget_consumed ≡ some used
        → s.budget_caps ≡ some caps
        → WithinBudget now (consumed_from_dict used) (caps_from_dict caps) tokens cost
    pub breaker_shut :
        (b : BreakerDict F) → get s.phase_breakers action ≡ some b → b.state ≢ some "open"
    pub approved :
        NeedsApproval r s.risk_classification → (a : _) × (get s.approvals_granted action ≡ some a)

  stored_open_iff :
      (o : Option (BreakerDict F))
      → (stored_open o ≡ false) ↔ ((b : BreakerDict F) → o ≡ some b → b.state ≢ some "open")
  unfolding stored_open
  stored_open_iff none = (λ h b e. cc, λ h. refl)
  stored_open_iff (some d) =
      (λ h b e. ground (arith, open_text d.state h, e), λ h. shut_text d.state (h d refl))
    where
      open_text :
          (t : Option String)
          → (elim t [ none ↦ false | some s ↦ str_eq s "open" ]) ≡ false
          → t ≢ some "open"
      open_text none h e = cc
      open_text (some s) h e = ground (arith, eq_iff s "open")

      shut_text :
          (t : Option String)
          → t ≢ some "open"
          → (elim t [ none ↦ false | some s ↦ str_eq s "open" ]) ≡ false
      shut_text none h = refl
      shut_text (some s) h = ground (arith, eq_iff s "open", h)

  budget_passes :
      (now : F) (d : Option (ConsumedDict F)) (c : Option (CapsDict F)) (tokens : ℕ) (cost : F)
      → ((used : _) (caps : _)
          → d ≡ some used
          → c ≡ some caps
          → WithinBudget now (consumed_from_dict used) (caps_from_dict caps) tokens cost)
      → (state_budget now d c tokens cost ≡ none)
        ⊎ ((r : BudgetCheckResult F) × (state_budget now d c tokens cost ≡ some r)
            × (r.allowed ≡ true))
  unfolding state_budget
  budget_passes now none c tokens cost h = inl refl
  budget_passes now (some d) none tokens cost h = inl refl
  budget_passes now (some d) (some c) tokens cost h = inr (
    check_budget now (consumed_from_dict d) (caps_from_dict c) tokens cost,
    refl,
    (check_budget_iff now (consumed_from_dict d) (caps_from_dict c) tokens cost).1
        (h d c refl refl),
  )

  -- The gate admits an action exactly if the kill switch is off, the budget (where the project has
  -- one) has room for the planned call, the breaker stored for the action is not "open", and an
  -- action that needs the operator's approval has one. This holds of read-only actions too, which the
  -- gate does not exempt.
  pub policy_gate_iff :
      (now : F) (s : ProjectState F) (action : String) (r : Reversibility) (tokens : ℕ) (cost : F)
      → ((policy_gate now s action r tokens cost).allowed ≡ true)
        ↔ Admitted now s action r tokens cost
  unfolding policy_gate
  policy_gate_iff now s action r tokens cost = (
    λ h. record {
      not_killed = ground arith;
      in_budget = λ used caps e f.
          ground (
            arith,
            check_budget_iff now (consumed_from_dict used) (caps_from_dict caps) tokens cost,
          );
      breaker_shut = (stored_open_iff (get s.phase_breakers action)).0 (ground arith);
      approved = λ n. ground (arith, classify_action_iff action r s.risk_classification "");
    },
    λ a. ground (
      arith,
      a.not_killed,
      budget_passes now s.budget_consumed s.budget_caps tokens cost a.in_budget,
      (stored_open_iff (get s.phase_breakers action)).1 a.breaker_shut,
      classify_action_iff action r s.risk_classification "",
      a.approved,
    ),
  )
