-- ===== src/Policy/Budget.antt =====
-- mas/policy.py: budget caps, the metering of calls, and the adapters from the dicts of
-- `ProjectState`. `now` is what `time.monotonic()` returns.
use v.Prelude.{ℕ, ◌+◌, String, Bool, true, false, Option, none, some, [], leb, ltb, if◌then◌else◌}
use v.Prelude.Float.{FloatOps}
use v.Policy.Types.{
  BudgetCaps, BudgetConsumed, CapsDict, ConsumedDict, BudgetCheckResult, BreachReason, over_tokens,
  over_cost, over_wall_clock, out_of_calls, failures_in_a_row, ProjectState,
}

-- d.get(key, default)
abbrev pub or_default : {A : Type 0} → Option A → A → A
or_default none d = d
or_default (some a) d = a

module _ {F : Type 0} ⦃fl : FloatOps F⦄ where
  unfoldable pub elapsed_since : Option F → F → F
  elapsed_since none now = fl.of_ℕ 0
  elapsed_since (some started) now = fl.sub now started

  unfoldable pub wall_clock_elapsed : BudgetConsumed F → F → F
  unfolding elapsed_since
  wall_clock_elapsed consumed now = elapsed_since consumed.wall_clock_started_at now

  abbrev breach : BreachReason F → String → BudgetCheckResult F
  breach r cap = record { allowed = false; breach_reason = some r; cap_breached = some cap }

  unfoldable pub check_budget : F → BudgetConsumed F → BudgetCaps F → ℕ → F → BudgetCheckResult F
  check_budget now consumed caps incremental_tokens incremental_cost_usd =
      if ltb caps.max_total_tokens (consumed.total_tokens + incremental_tokens)
      then breach (over_tokens caps.max_total_tokens) "max_total_tokens"
      else if fl.gtb (fl.add consumed.total_cost_usd incremental_cost_usd) caps.max_total_cost_usd
      then breach (over_cost caps.max_total_cost_usd) "max_total_cost_usd"
      else if fl.gtb (wall_clock_elapsed consumed now) (fl.of_ℕ caps.max_wall_clock_seconds)
      then breach (over_wall_clock (wall_clock_elapsed consumed now) caps.max_wall_clock_seconds)
          "max_wall_clock_seconds"
      else if leb caps.max_llm_calls consumed.llm_call_count
      then breach (out_of_calls caps.max_llm_calls) "max_llm_calls"
      else if leb caps.max_consecutive_failures consumed.consecutive_failures
      then breach (failures_in_a_row consumed.consecutive_failures) "max_consecutive_failures"
      else record { allowed = true; breach_reason = none; cap_breached = none }

  unfoldable pub record_consumption : BudgetConsumed F → ℕ → F → Bool → BudgetConsumed F
  record_consumption consumed tokens cost_usd success = record consumed {
    total_tokens = consumed.total_tokens + tokens;
    total_cost_usd = fl.add consumed.total_cost_usd cost_usd;
    llm_call_count = consumed.llm_call_count + 1;
    consecutive_failures = if success then 0 else consumed.consecutive_failures + 1;
  }

  unfoldable pub caps_from_dict : CapsDict F → BudgetCaps F
  caps_from_dict d = record {
    max_total_tokens = or_default d.max_total_tokens 2_000_000;
    max_total_cost_usd = or_default d.max_total_cost_usd (fl.of_ℕ 25);
    max_wall_clock_seconds = or_default d.max_wall_clock_seconds 3600;
    max_llm_calls = or_default d.max_llm_calls 100;
    max_phase_reentries = or_default d.max_phase_reentries 3;
    max_consecutive_failures = or_default d.max_consecutive_failures 3;
  }

  unfoldable pub consumed_from_dict : ConsumedDict F → BudgetConsumed F
  consumed_from_dict d = record {
    total_tokens = or_default d.total_tokens 0;
    total_cost_usd = or_default d.total_cost_usd (fl.of_ℕ 0);
    wall_clock_started_at = d.wall_clock_started_at;
    llm_call_count = or_default d.llm_call_count 0;
    phase_reentry_counts = or_default d.phase_reentry_counts [];
    consecutive_failures = or_default d.consecutive_failures 0;
  }

  unfoldable pub record_in_dict : ConsumedDict F → ℕ → F → Bool → ConsumedDict F
  record_in_dict d tokens cost_usd success = record d {
    total_tokens = some (or_default d.total_tokens 0 + tokens);
    total_cost_usd = some (fl.add (or_default d.total_cost_usd (fl.of_ℕ 0)) cost_usd);
    llm_call_count = some (or_default d.llm_call_count 0 + 1);
    consecutive_failures =
        if success then some 0 else some (or_default d.consecutive_failures 0 + 1);
  }

  abbrev map_consumed :
      (ConsumedDict F → ConsumedDict F) → Option (ConsumedDict F) → Option (ConsumedDict F)
  map_consumed f none = none
  map_consumed f (some d) = some (f d)

  unfoldable pub record_consumption_to_state : ProjectState F → ℕ → F → Bool → ProjectState F
  unfolding record_in_dict
  record_consumption_to_state state tokens cost_usd success = record state {
    budget_consumed =
        map_consumed (λ d. record_in_dict d tokens cost_usd success) state.budget_consumed;
  }

  abbrev started : F → Option F → Option F
  started now none = some now
  started now (some t) = some t

  unfoldable pub start_wall_clock : F → ProjectState F → ProjectState F
  start_wall_clock now state = record state {
    budget_consumed =
        map_consumed (λ d. record d { wall_clock_started_at = started now d.wall_clock_started_at })
          state.budget_consumed;
  }
