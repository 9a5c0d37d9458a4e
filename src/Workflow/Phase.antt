-- ===== src/Workflow/Phase.antt =====
-- mas/orchestrator.py: `run_phase_node`. What comes from outside stands in an `Attempt`. The
-- retrieval of knowledge, the events of knowledge and research evidence, the attestations, the
-- attribution check of a report and the decision objects are left out.
use v.Prelude.{
  String, Bool, true, false, not, ◌||◌, ◌&&◌, Option, none, some, List, [], str_eq, if◌then◌else◌,
}
use v.Prelude.Dict.{put, pop}
use v.Prelude.Float.{FloatOps}
use v.Policy.PhaseRun.{enter_phase}
use v.Policy.Budget.{record_consumption_to_state}
use v.Policy.Gate.{log_policy_event}
use v.Workflow.State.{
  PhaseStatus, completed, Output, written, PhaseFailureDiagnostic, Workflow, status_of,
  is_completed, is_there, phase_has_output, set_status, set_confidence, fail_phase,
}
use v.Workflow.Invalidation.{
  invalidate_strategy_dependency_cone, missing_prerequisites, record_prerequisite_failure,
}
use v.Workflow.Reply.{
  populates, keeps, raises, Parsed, unparsed, misshaped, payload, Reply, Attempt, Candidate,
  candidate, unusable, is_readiness, is_known, diagnostic, evidence_checked, no_missing,
}

module _ {F : Type 0} ⦃fl : FloatOps F⦄ where
  -- `_log_llm_route` and `record_consumption_to_state`
  unfoldable pub meter : F → Workflow F → Reply F → Workflow F
  unfolding record_consumption_to_state
  meter now w r = record w {
    policy =
        record_consumption_to_state (log_policy_event now w.policy "llm_route" r.route)
          r.outcome.tokens r.outcome.cost_usd r.outcome.success;
  }

  abbrev pub keep_raw : Workflow F → String → String → Workflow F
  keep_raw w phase t =
      if str_eq phase "audit"
      then record w { audit_raw = some t }
      else if str_eq phase "strategy"
      then record w { strategy_raw = some t }
      else w

  -- state.<phase> = output, with what `_store_phase_output` clears
  abbrev pub populate : Workflow F → String → Output F → Workflow F
  populate w phase o = record w {
    outputs = put w.outputs phase o;
    audit_raw = if str_eq phase "audit" then none else w.audit_raw;
    strategy_raw = if str_eq phase "strategy" then none else w.strategy_raw;
  }

  abbrev pub sealed_at : String → Workflow F → String → Workflow F
  sealed_at today w phase =
      if str_eq phase "hypotheses" then record w { sealed = true; seal_date = some today } else w

  abbrev pub complete : Workflow F → String → Workflow F
  complete w phase = record (set_confidence (set_status w phase completed) phase 100) {
    phase_failure_details = pop w.phase_failure_details phase;
  }

  -- The output was stored: the phase completes if it has output.
  unfoldable pub accept : Attempt F → Workflow F → String → Reply F → Workflow F
  unfolding phase_has_output
  accept a w phase r =
      if is_known phase && not (phase_has_output w phase)
      then fail_phase (keep_raw w phase r.reply_text) phase (diagnostic "missing_output")
      else sealed_at a.today (complete w phase) phase

  unfoldable pub reject : Workflow F → String → Reply F → PhaseFailureDiagnostic → Workflow F
  reject w phase r failure = fail_phase (keep_raw w phase r.reply_text) phase failure

  -- The first reply, or the retry after one that does not parse.
  abbrev pub chosen : Attempt F → Candidate F
  chosen a = elim a.first.parsed [
    | payload s ↦ candidate s a.first false
    | other ↦
        if a.second.outcome.success
        then elim a.second.parsed [
          | payload s ↦ candidate s a.second true
          | unparsed ↦ unusable (diagnostic "json_parse") a.second
          | misshaped ↦ unusable (diagnostic "json_shape") a.second
        ]
        else unusable a.second.failure a.first
  ]

  abbrev pub retries_parse : Attempt F → Bool
  retries_parse a = elim a.first.parsed [ payload s ↦ false | _ ↦ true ]

  -- The repair's reply, which is stored once more.
  abbrev pub stored_repair : Attempt F → Workflow F → String → Reply F → Parsed F → Workflow F
  stored_repair a w phase r (payload (populates o)) = accept a (populate w phase o) phase r
  stored_repair a w phase r (payload keeps) = accept a w phase r
  stored_repair a w phase r (payload raises) = reject w phase r (diagnostic "schema_validation")
  stored_repair a w phase r unparsed = reject w phase r (diagnostic "json_parse")
  stored_repair a w phase r misshaped = reject w phase r (diagnostic "json_shape")

  -- The one repair of a payload that fails its schema.
  abbrev pub repaired : F → Attempt F → Workflow F → String → Workflow F
  repaired now a w phase =
      let metered = meter now w a.second in
      if a.second.outcome.success
      then stored_repair a metered phase a.second a.second.parsed
      else reject metered phase a.second a.second.failure

  unfoldable pub store_candidate : F → Attempt F → Workflow F → String → Candidate F → Workflow F
  unfolding accept reject meter
  store_candidate now a w phase (unusable failure r) = reject w phase r failure
  store_candidate now a w phase (candidate (populates o) r retried) =
      accept a (populate w phase o) phase r
  store_candidate now a w phase (candidate keeps r retried) = accept a w phase r
  store_candidate now a w phase (candidate raises r retried) =
      if (is_readiness phase || str_eq phase "strategy") && not retried
      then repaired now a w phase
      else reject w phase r (diagnostic "schema_validation")

  -- `if is_json` after a reply that is ok
  unfoldable pub store_json : F → Attempt F → Workflow F → String → Workflow F
  unfolding store_candidate
  store_json now a w phase =
      store_candidate now a (if retries_parse a then meter now w a.second else w) phase (chosen a)

  abbrev pub with_report : F → Attempt F → Workflow F → String → Workflow F
  with_report now a w phase = record w {
    outputs = put w.outputs phase (written a.first.reply_text);
    policy = log_policy_event now w.policy "report_generated" [];
  }

  unfoldable pub store_report : F → Attempt F → Workflow F → String → Workflow F
  store_report now a w phase = complete (with_report now a w phase) phase

  -- The summary, and the date of a run that completed.
  unfoldable pub summarize : Attempt F → Workflow F → String → Workflow F
  summarize a w phase = record w {
    phase_summaries = put w.phase_summaries phase a.summary;
    phase_run_completed_at =
        if is_completed (status_of w phase)
        then put w.phase_run_completed_at phase a.finished_at
        else w.phase_run_completed_at;
  }

  abbrev pub kept_strategy : Workflow F → String → String → Workflow F
  kept_strategy w phase t =
      if str_eq phase "strategy" && not (str_eq t "") then record w { strategy_raw = some t } else w

  -- From the first call of the model on.
  unfoldable pub call_phase : F → Attempt F → Workflow F → String → Workflow F
  unfolding meter store_json store_report summarize
  call_phase now a w phase =
      let metered = meter now w a.first in
      if not a.first.outcome.success
      then fail_phase (kept_strategy metered phase a.first.reply_text) phase a.first.failure
      else if str_eq phase "report"
      then summarize a (store_report now a metered phase) phase
      else summarize a (store_json now a metered phase) phase

  abbrev pub called :
      F → Attempt F → Workflow F → String → Option PhaseFailureDiagnostic → Workflow F
  called now a w phase none = call_phase now a w phase
  called now a w phase (some block) = fail_phase w phase block

  unfoldable pub started_phase : F → Attempt F → Workflow F → String → Workflow F
  unfolding call_phase
  started_phase now a w phase =
      if not (is_known phase)
      then fail_phase w phase (diagnostic "phase_configuration")
      else called now a w phase (evidence_checked phase a.evidence_block)

  abbrev pub noted_findings : F → Workflow F → Option String → Workflow F
  noted_findings now w none = w
  noted_findings now w (some findings) = record w {
    intake_sanitization_findings = some findings;
    policy = log_policy_event now w.policy "intake_sanitization_complete" [];
  }

  abbrev pub sanitized_first : F → Attempt F → Workflow F → String → Workflow F
  sanitized_first now a w phase =
      if str_eq phase "classify" && not (is_there w.intake_sanitization_findings)
      then noted_findings now w a.sanitized
      else w

  -- From the policy gate on.
  unfoldable pub gated_phase : F → Attempt F → Workflow F → String → Workflow F
  unfolding started_phase enter_phase
  gated_phase now a w phase =
      let noted = sanitized_first now a w phase in
      let (entered, decision) = enter_phase now noted.policy phase in
      if decision.allowed
      then started_phase now a
          (set_status (record noted { policy = entered }) phase PhaseStatus.running) phase
      else fail_phase (record noted { policy = entered }) phase (diagnostic "policy_blocked")

  -- A run of Strategy replaces it: what stands on it goes first.
  abbrev pub replaced : Workflow F → String → Workflow F
  replaced w phase = if str_eq phase "strategy" then invalidate_strategy_dependency_cone w else w

  unfoldable pub run_phase_node : List String → F → Attempt F → Workflow F → String → Workflow F
  unfolding gated_phase missing_prerequisites
  run_phase_node sequence now a w phase =
      let v = replaced w phase in
      if no_missing (missing_prerequisites v phase)
      then gated_phase now a v phase
      else record_prerequisite_failure sequence v phase (diagnostic "prerequisite_failed")
