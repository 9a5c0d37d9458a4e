-- ===== src/Policy/PhaseRun.antt =====
-- mas/orchestrator.py: what `run_phase_node` does to the policy fields: the wall clock, the gate,
-- the event of a blocked phase, and the metering of the phase's calls. What the provider returns is
-- the argument `Outcome`. A reply that does not parse may be asked for again: each retry is metered
-- like the first call, also where the gate denies the attempt inside the call.
use v.Prelude.{ℕ, String, Bool, List, [], ◌∷◌, if◌then◌else◌}
use v.Prelude.Dict.{get}
use v.Prelude.Float.{FloatOps}
use v.Policy.Types.{
  Reversibility, reversible_internal, GateDecision, ProjectState, phase_action_map,
}
use v.Policy.Budget.{or_default, start_wall_clock, record_consumption_to_state}
use v.Policy.Gate.{policy_gate, log_policy_event}

pub record Outcome (F : Type 0) : Type 0 where
  pub tokens : ℕ
  pub cost_usd : F
  pub success : Bool

-- PHASE_ACTION_MAP.get(phase, Reversibility.REVERSIBLE_INTERNAL)
unfoldable pub phase_reversibility : String → Reversibility
phase_reversibility phase = or_default (get phase_action_map phase) reversible_internal

module _ {F : Type 0} ⦃fl : FloatOps F⦄ where
  unfoldable pub record_all : ProjectState F → List (Outcome F) → ProjectState F
  record_all state [] = state
  record_all state (o ∷ os) =
      record_all (record_consumption_to_state state o.tokens o.cost_usd o.success) os

  -- The gate at the entry of the phase; `details` are the texts of the event.
  unfoldable pub enter_phase : F → ProjectState F → String → ProjectState F × GateDecision F
  unfolding start_wall_clock
  enter_phase now state phase =
      let started = start_wall_clock now state in
      let decision = policy_gate now started phase (phase_reversibility phase) 0 (fl.of_ℕ 0) in
      (
        if decision.allowed
            then record started { current_phase = phase }
            else log_policy_event now started "policy_gate_blocked"
                (("phase", phase) ∷ ("category", or_default decision.breach_category "") ∷ []),
        decision,
      )

  -- A phase that is let in makes one call and the retries.
  unfoldable pub run_phase :
      F → ProjectState F → String → Outcome F → List (Outcome F) → ProjectState F
  unfolding record_all
  run_phase now state phase first retries =
      let (entered, decision) = enter_phase now state phase in
      if decision.allowed then record_all entered (first ∷ retries) else entered
