-- ===== src/Policy/Operator.antt =====
-- mas/api.py: the operator's requests that change the policy fields of a project. A handler is
-- given the loaded project (none: 404) and returns what it saves. `now` is the clock's reading, as a
-- float or as the text of `datetime.now().isoformat()`.
use v.Prelude.{
  ℕ, String, Bool, false, ◌||◌, Option, none, some, List, [], ◌∷◌, str_eq, ltb, if◌then◌else◌,
}
use v.Prelude.Dict.{Dict, put, keys}
use v.Prelude.Float.{FloatOps}
use v.Policy.Types.{CapsDict, ConsumedDict, BreakerDict, ProjectState}
use v.Policy.Budget.{or_default}
use v.Policy.Gate.{trigger_kill_switch, log_policy_event}

-- HTTPException(404 or 400), or a Python error on a project without its dicts
pub data ApiError : Type 0 where
  not_found : ApiError
  bad_request : String → ApiError
  server_fault : ApiError

pub data Response {ℓ} (A : Type ℓ) : Type ℓ where
  saved : A → Response A
  refused : ApiError → Response A

abbrev pub on_loaded : {A B : Type 0} → Option A → (A → Response B) → Response B
on_loaded none f = refused not_found
on_loaded (some a) f = f a

abbrev valid_classification : String → Bool
valid_classification c =
    str_eq c "minimal_risk"
    || (str_eq c "limited_risk" || (str_eq c "high_risk" || str_eq c "prohibited"))

-- caps[key] = value, for the keys that the request carries
abbrev pub updated : {A : Type 0} → Option A → Option A → Option A
updated none old = old
updated (some a) old = some a

abbrev below_tokens : Option ℕ → ℕ → Bool
below_tokens none used = false
below_tokens (some limit) used = ltb limit used

module _ {F : Type 0} where
  unfoldable pub kill_project :
      F → Option (ProjectState F) → String → String → Response (ProjectState F)
  unfolding trigger_kill_switch log_policy_event
  kill_project now project reason triggered_by = on_loaded project λ state. saved (
      log_policy_event now (trigger_kill_switch now state reason triggered_by)
        "kill_switch_triggered" (("reason", reason) ∷ ("triggered_by", triggered_by) ∷ []))

  unfoldable pub set_risk_classification :
      F → Option (ProjectState F) → String → String → String → Response (ProjectState F)
  unfolding log_policy_event
  set_risk_classification now project classification rationale set_by =
      if valid_classification classification
      then on_loaded project (λ state. saved (
          log_policy_event now (record state { risk_classification = classification })
            "risk_classification_set"
            (("classification", classification)
              ∷ ("rationale", rationale)
              ∷ ("set_by", set_by)
              ∷ [])))
      else refused (bad_request "classification")

  unfoldable pub grant_approval :
      F → String → Option (ProjectState F) → String → String → String → Response (ProjectState F)
  unfolding log_policy_event
  grant_approval now now_iso project action approved_by rationale = on_loaded project λ state.
      saved (
        log_policy_event now
          (record state {
            approvals_granted =
                put state.approvals_granted action (record {
                  approved_by = approved_by;
                  rationale = rationale;
                  granted_at = now_iso;
                });
          })
          "approval_granted"
          (("action", action) ∷ ("approved_by", approved_by) ∷ ("rationale", rationale) ∷ []))

  abbrev pub closed_breaker : BreakerDict F
  closed_breaker = record {
    state = some "closed";
    failure_count = some 0;
    last_failure_at = none;
    opened_at = none;
  }

  -- `if not phase_name: continue`
  unfoldable pub close_all : List String → Dict (BreakerDict F) → Dict (BreakerDict F)
  close_all [] breakers = breakers
  close_all (phase ∷ phases) breakers =
      close_all phases (if str_eq phase "" then breakers else put breakers phase closed_breaker)

  -- [req.phase] if req.phase else list(state.phase_breakers.keys())
  abbrev pub reset_targets : Option String → Dict (BreakerDict F) → List String
  reset_targets none breakers = keys breakers
  reset_targets (some phase) breakers = if str_eq phase "" then keys breakers else phase ∷ []

  abbrev pub zero_failures : Option (ConsumedDict F) → Option (ConsumedDict F)
  zero_failures none = some (record {
    total_tokens = none;
    total_cost_usd = none;
    wall_clock_started_at = none;
    llm_call_count = none;
    phase_reentry_counts = none;
    consecutive_failures = some 0;
  })
  zero_failures (some d) = some (record d { consecutive_failures = some 0 })

  -- The details of the logged event are its texts; the counts and flags in it are left out.
  unfoldable pub reset_breakers :
      F
      → Option (ProjectState F)
      → Option String
      → Bool
      → Bool
      → String
      → String
      → Response (ProjectState F)
  unfolding log_policy_event close_all
  reset_breakers now project phase reset_budget_failures reset_phase_breakers reset_by rationale =
      on_loaded project λ state. saved (
        log_policy_event now
          (record state {
            budget_consumed =
                if reset_budget_failures
                then zero_failures state.budget_consumed
                else state.budget_consumed;
            phase_breakers =
                if reset_phase_breakers
                then close_all (reset_targets phase state.phase_breakers) state.phase_breakers
                else state.phase_breakers;
          })
          "circuit_breaker_reset"
          (("phase", phase_text phase) ∷ ("reset_by", reset_by) ∷ ("rationale", rationale) ∷ []))
    where
      phase_text : Option String → String
      phase_text none = "all_persisted"
      phase_text (some p) = if str_eq p "" then "all_persisted" else p

  abbrev pub update_caps : CapsDict F → CapsDict F → CapsDict F
  update_caps caps req = record {
    max_total_tokens = updated req.max_total_tokens caps.max_total_tokens;
    max_total_cost_usd = updated req.max_total_cost_usd caps.max_total_cost_usd;
    max_wall_clock_seconds = updated req.max_wall_clock_seconds caps.max_wall_clock_seconds;
    max_llm_calls = updated req.max_llm_calls caps.max_llm_calls;
    max_phase_reentries = updated req.max_phase_reentries caps.max_phase_reentries;
    max_consecutive_failures = updated req.max_consecutive_failures caps.max_consecutive_failures;
  }

module _ {F : Type 0} ⦃fl : FloatOps F⦄ where
  abbrev below_cost : Option F → F → Bool
  below_cost none used = false
  below_cost (some limit) used = fl.gtb used limit

  abbrev pub checked_caps : CapsDict F → ConsumedDict F → CapsDict F → Response (CapsDict F)
  checked_caps caps consumed req =
      if below_tokens req.max_total_tokens (or_default consumed.total_tokens 0)
      then refused (bad_request "max_total_tokens")
      else if below_cost req.max_total_cost_usd (or_default consumed.total_cost_usd (fl.of_ℕ 0))
      then refused (bad_request "max_total_cost_usd")
      else saved (update_caps caps req)

  -- `updates` is logged as the texts `details`.
  abbrev save_caps :
      F → ProjectState F → Dict String → Response (CapsDict F) → Response (ProjectState F)
  save_caps now state details (refused e) = refused e
  save_caps now state details (saved c) =
      saved
        (log_policy_event now (record state { budget_caps = some c }) "budget_caps_updated" details)

  abbrev checked_update :
      Option (CapsDict F) → Option (ConsumedDict F) → CapsDict F → Response (CapsDict F)
  checked_update (some caps) (some consumed) req = checked_caps caps consumed req
  checked_update _ _ req = refused server_fault

  unfoldable pub set_budget_caps :
      F → Option (ProjectState F) → CapsDict F → Dict String → Response (ProjectState F)
  unfolding log_policy_event
  set_budget_caps now project req details = on_loaded project λ state.
      save_caps now state details (checked_update state.budget_caps state.budget_consumed req)
